-- ===== src/HubServer/MemoryStore/Acknowledged.antt =====
-- packages/hub-server/src/memoryStore.ts: a delivery that was acknowledged is not served again.
use kumiai.HubServer.MemoryStore.Order.{log_of-push_deliveries}
use kumiai.HubServer.MemoryStore.Publish.{PublishParams, append, mint}
use kumiai.HubServer.MemoryStore.Accounting.{log_of}
use kumiai.Shared.{
  ℕ, ◌+◌, ◌≤◌, ◌≡◌, refl, inl, inr, false, List, [], ◌∷◌, Option-cases, arith, has, erase,
  has-append,
}
use kumiai.Shared.Ascending.{Distinct}
use kumiai.Shared.Map
use kumiai.Shared.Map.{Map, get-set}
use kumiai.HubServer.MemoryStore.{
  RetentionClass, Store, splice_delivery, splice_deliveries, remove_found,
}
use kumiai.HubServer.MemoryStore.Induction.{KeptByRemoval}
use kumiai.HubServer.MemoryStore.CallInduction.{KeptByCalls, stored_of_appended}

has-erase-le : (i id : ℕ) (ids : List ℕ) → has i ids ≡ false → has i (erase id ids) ≡ false
has-erase-le i id [] h = refl
has-erase-le i id (x ∷ ids) h = ground (arith, has-erase-le i id ids)

-- The frame is minted, and no longer pending for the recipient.
pub record IsDone (d i : ℕ) (s : Store) : Type 0 where
  pub minted : i ≤ s.counter
  pub done : has i (log_of d s.deliveries) ≡ false

splice_delivery-done :
    (d i id did : ℕ) (ds : Map (List ℕ))
    → has i (log_of d ds) ≡ false
    → has i (log_of d (splice_delivery id did ds)) ≡ false
unfolding splice_delivery
splice_delivery-done d i id did ds h = elim (Option-cases (Map.get did ds)) [
  | inl e ↦ rw (e, splice_delivery) h
  | inr (ids, e) ↦ ground (arith, e, get-set d did (erase id ids) ds, has-erase-le i id ids)
]

splice_deliveries-done :
    (d i id : ℕ) (dids : List ℕ) (ds : Map (List ℕ))
    → has i (log_of d ds) ≡ false
    → has i (log_of d (splice_deliveries id dids ds)) ≡ false
unfolding splice_deliveries
splice_deliveries-done d i id [] ds h = h
splice_deliveries-done d i id (did ∷ dids) ds h =
    splice_deliveries-done d i id dids (splice_delivery id did ds)
      (splice_delivery-done d i id did ds h)

pub IsDone-KeptByRemoval : (d i : ℕ) → KeptByRemoval (IsDone d i)
unfolding remove_found
IsDone-KeptByRemoval d i = record {
  removed = λ id e s found h. record {
    minted = h.minted;
    done = splice_deliveries-done d i id e.pending_for s.deliveries h.done;
  };
  spliced = λ id did s h. record {
    minted = h.minted;
    done = splice_delivery-done d i id did s.deliveries h.done;
  };
  released = λ id did e s found h. record { minted = h.minted; done = h.done };
}

append-IsDone :
    (d i now : ℕ) (p : PublishParams) (r : RetentionClass) (ds : List ℕ) (s : Store)
    → Distinct ds
    → IsDone d i s
    → IsDone d i (append p r ds now (mint p r s))
unfolding append mint
append-IsDone d i now p r ds s distinct h = record {
  minted = omega (arith, h.minted);
  done = ground (
    arith,
    h.minted,
    h.done,
    log_of-push_deliveries d (s.counter + 1) ds s.deliveries distinct,
    has-append i (log_of d s.deliveries) ((s.counter + 1) ∷ []),
  );
}

pub IsDone-KeptByCalls : (d i : ℕ) → KeptByCalls (IsDone d i)
unfolding mint
IsDone-KeptByCalls d i = record {
  kept = IsDone-KeptByRemoval d i;
  stored =
      stored_of_appended (IsDone-KeptByRemoval d i)
        (λ p r s h. record { minted = omega (arith, h.minted); done = h.done })
        (λ p r ds now s distinct h. append-IsDone d i now p r ds s distinct h);
  untouched = λ s s' same h. record {
    minted = rw (same.same_counter) h.minted;
    done = rw (same.same_deliveries) h.done;
  };
}
