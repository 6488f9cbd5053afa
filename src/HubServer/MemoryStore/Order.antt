-- ===== src/HubServer/MemoryStore/Order.antt =====
-- packages/hub-server/src/memoryStore.ts: a topic's log and a recipient's pending deliveries are in
-- publish order, with no ID twice, after any history.
use kumiai.HubServer.MemoryStore.CallInduction.{stored_of_appended, KeptByCalls}
use kumiai.HubServer.MemoryStore.Induction.{KeptByRemoval}
use kumiai.HubServer.MemoryStore.NoSilentLoss.{log_of-push_id}
use kumiai.HubServer.MemoryStore.Publish.{PublishParams, mint, append, push_id, push_deliveries}
use kumiai.Shared.{
  ℕ, suc, ◌+◌, ◌≡◌, refl, inl, inr, List, [], ◌∷◌, ◌++◌, ◌==◌, if◌then◌else◌, Option-cases,
  Bool-cases, arith, has, erase, ==_iff,
}
use kumiai.Shared.Ascending.{Within, Within-erase, Within-push, Within-mono, Distinct}
use kumiai.Shared.Map
use kumiai.Shared.Map.{Map, get-set}
use kumiai.HubServer.MemoryStore.{
  splice_log, LogEntry, Store, splice_delivery, splice_deliveries, remove_found, RetentionClass,
}
use kumiai.HubServer.MemoryStore.Accounting.{log_of, log_of-splice_log}

-- Of one topic's log and one recipient's pending deliveries.
pub record InOrder (t d : ℕ) (s : Store) : Type 0 where
  pub log_order : Within 0 s.counter (log_of t s.topic_logs)
  pub pending_order : Within 0 s.counter (log_of d s.deliveries)

splice_delivery-Within :
    (d n id did : ℕ) (ds : Map (List ℕ))
    → Within 0 n (log_of d ds)
    → Within 0 n (log_of d (splice_delivery id did ds))
unfolding splice_delivery
splice_delivery-Within d n id did ds w = elim (Option-cases (Map.get did ds)) [
  | inl e ↦ rw (e, splice_delivery) w
  | inr (ids, e) ↦ ground (arith, e, get-set d did (erase id ids) ds, Within-erase 0 n id ids)
]

splice_deliveries-Within :
    (d n id : ℕ) (dids : List ℕ) (ds : Map (List ℕ))
    → Within 0 n (log_of d ds)
    → Within 0 n (log_of d (splice_deliveries id dids ds))
unfolding splice_deliveries
splice_deliveries-Within d n id [] ds w = w
splice_deliveries-Within d n id (did ∷ dids) ds w =
    splice_deliveries-Within d n id dids (splice_delivery id did ds)
      (splice_delivery-Within d n id did ds w)

splice_log-Within :
    (t n id topic : ℕ) (logs : Map (List ℕ))
    → Within 0 n (log_of t logs)
    → Within 0 n (log_of t (splice_log id topic logs))
splice_log-Within t n id topic logs w = elim (Bool-cases (topic == t)) [
  | inl e ↦ rw (log_of-splice_log t id topic logs, e) (Within-erase 0 n id (log_of t logs) w)
  | inr e ↦ rw (log_of-splice_log t id topic logs, e) w
]

remove_found-InOrder :
    (t d id : ℕ) (e : LogEntry) (s : Store) → InOrder t d s → InOrder t d (remove_found id e s)
unfolding remove_found
remove_found-InOrder t d id e s h = record {
  log_order = splice_log-Within t s.counter id e.topic_id s.topic_logs h.log_order;
  pending_order =
      splice_deliveries-Within d s.counter id e.pending_for s.deliveries h.pending_order;
}

InOrder-KeptByRemoval : (t d : ℕ) → KeptByRemoval (InOrder t d)
InOrder-KeptByRemoval t d = record {
  removed = λ id e s found h. remove_found-InOrder t d id e s h;
  spliced = λ id did s h. record {
    log_order = h.log_order;
    pending_order = splice_delivery-Within d s.counter id did s.deliveries h.pending_order;
  };
  released =
      λ id did e s found h. record { log_order = h.log_order; pending_order = h.pending_order };
}

-- Only the recipients' lists grow, each by the new ID.
pub log_of-push_deliveries :
    (d id : ℕ) (dids : List ℕ) (ds : Map (List ℕ))
    → Distinct dids
    → log_of d (push_deliveries id dids ds)
      ≡ (if has d dids then log_of d ds ++ id ∷ [] else log_of d ds)
unfolding push_deliveries
log_of-push_deliveries d id [] ds h = refl
log_of-push_deliveries d id (did ∷ dids) ds (fresh, h) = ground (
  arith,
  log_of-push_deliveries d id dids (push_id did id ds) h,
  log_of-push_id d did id ds,
  ==_iff did d,
  fresh,
)

append-InOrder :
    (t d now n : ℕ) (p : PublishParams) (r : RetentionClass) (ds : List ℕ) (s : Store)
    → Distinct ds
    → s.counter ≡ suc n
    → Within 0 n (log_of t s.topic_logs)
    → Within 0 n (log_of d s.deliveries)
    → InOrder t d (append p r ds now s)
unfolding append
append-InOrder t d now n p r ds s distinct c l w = record {
  log_order =
      rw (log_of-push_id t p.topic_id s.counter s.topic_logs, c)
        (elim (Bool-cases (p.topic_id == t)) [
          | inl e ↦ rw e (Within-push 0 n _ (omega arith) l)
          | inr e ↦ rw e (Within-mono 0 0 n (suc n) _ (omega arith) (omega arith) l)
        ]);
  pending_order =
      rw (log_of-push_deliveries d s.counter ds s.deliveries distinct, c)
        (elim (Bool-cases (has d ds)) [
          | inl e ↦ rw e (Within-push 0 n _ (omega arith) w)
          | inr e ↦ rw e (Within-mono 0 0 n (suc n) _ (omega arith) (omega arith) w)
        ]);
}

-- Publish order survives every call.
pub InOrder-KeptByCalls : (t d : ℕ) → KeptByCalls (InOrder t d)
unfolding mint
InOrder-KeptByCalls t d = record {
  kept = InOrder-KeptByRemoval t d;
  stored =
      stored_of_appended (InOrder-KeptByRemoval t d)
        (λ p r s h. record {
          log_order =
              Within-mono 0 0 s.counter (s.counter + 1) _ (omega arith) (omega arith) h.log_order;
          pending_order =
              Within-mono 0 0 s.counter (s.counter + 1) _ (omega arith) (omega arith)
                h.pending_order;
        })
        (λ p r ds now s distinct h.
          append-InOrder t d now s.counter p r ds (mint p r s) distinct (omega arith) h.log_order
            h.pending_order);
  untouched = λ s s' same h. record {
    log_order = rw (same.same_logs, same.same_counter) h.log_order;
    pending_order = rw (same.same_deliveries, same.same_counter) h.pending_order;
  };
}
