-- ===== src/HubServer/MemoryStore/AckForever.antt =====
-- packages/hub-server/src/memoryStore.ts: the acknowledgement itself, and what `fetch` hands out
-- after it.
use kumiai.HubServer.MemoryStore.Retention.{ack}
use kumiai.HubServer.MemoryStore.Pages.{reached-InOrder, serve_pending-messages, reached}
use kumiai.Shared.Ascending.{Within, has-erase_self, has-Within-beyond}
use kumiai.HubServer.MemoryStore.History.{run, Call}
use kumiai.HubServer.MemoryStore.Accounting.{log_of}
use kumiai.HubServer.MemoryStore.Acknowledged.{IsDone-KeptByCalls, IsDone-KeptByRemoval, IsDone}
use kumiai.HubServer.MemoryStore.LogReaders.{delivers, has-select}
use kumiai.HubServer.MemoryStore.CallInduction.{run-keeps, stored_of_appended, KeptByCalls}
use kumiai.HubServer.MemoryStore.Read.{FetchParams, fetch, beyond, limited, messages_of}
use kumiai.HubServer.MemoryStore.Publish.{PublishParams, mint, append}
use kumiai.HubServer.MemoryStore.Induction.{
  ack-keeps, drop_found-keeps, drop_delivery-keeps, KeptByRemoval, drop_deliveries-keeps,
}
use kumiai.Shared.{
  ◌+◌, zero, suc, ℕ, ◌≤◌, ◌≡◌, refl, inl, inr, true, false, Option, none, some, List, [], ◌∷◌, ◌==◌,
  Option-cases, Bool-cases, arith, has, take, ==_iff,
}
use kumiai.Shared.Map
use kumiai.Shared.Map.{Map, get-set, get-delete}
use kumiai.HubServer.MemoryStore.{
  create_memory_store, erase, ltb, without, RetentionClass, as_stored_message, splice_delivery,
  remove_found, Store, LogEntry, MemoryStoreOptions, drop_delivery, drop_deliveries,
}
use kumiai.HubServer.MemoryStore.Order.{InOrder, InOrder-KeptByCalls}

drop_delivery-IsDone :
    (t d i : ℕ) (s : Store) → i ≤ s.counter → InOrder t d s → IsDone d i (drop_delivery d i s)
unfolding drop_delivery splice_delivery
drop_delivery-IsDone t d i s le h = elim (Option-cases (Map.get i s.entries)) [
  | inl e ↦ rw (e, drop_delivery) spliced
  | inr (entry, e) ↦
      rw (e, drop_delivery)
        (drop_found-keeps (IsDone-KeptByRemoval d i) d i entry
          (record s { deliveries = splice_delivery i d s.deliveries }) e spliced)
]
  where
    spliced : IsDone d i (record s { deliveries = splice_delivery i d s.deliveries })
    spliced = record {
      minted = le;
      done = elim (Option-cases (Map.get d s.deliveries)) [
        | inl e ↦ rw (e, splice_delivery) (rw e refl)
        | inr (ids, e) ↦ ground (
          arith,
          e,
          h.pending_order,
          get-set d d (erase i ids) s.deliveries,
          has-erase_self i 0 s.counter ids,
        )
      ];
    }

-- Removal mints nothing and takes no ID back.
counter-KeptByRemoval : (i : ℕ) → KeptByRemoval (λ s. i ≤ s.counter)
unfolding remove_found
counter-KeptByRemoval i = record {
  removed = λ id e s found h. h;
  spliced = λ id did s h. h;
  released = λ id did e s found h. h;
}

drop_deliveries-IsDone :
    (d i : ℕ) (ids : List ℕ) (s : Store)
    → i ≤ s.counter
    → has i ids ≡ true
    → InOrder 0 d s
    → IsDone d i (drop_deliveries d ids s)
unfolding drop_deliveries
drop_deliveries-IsDone d i [] s le h w = cc
drop_deliveries-IsDone d i (id ∷ ids) s le h w = elim (Bool-cases (id == i)) [
  | inl e ↦
      let same = (==_iff id i).0 e in
      rw same (
        drop_deliveries-keeps (IsDone-KeptByRemoval d i) d ids (drop_delivery d i s)
          (drop_delivery-IsDone 0 d i s le w))
  | inr e ↦
      drop_deliveries-IsDone d i ids (drop_delivery d id s)
        (drop_delivery-keeps (counter-KeptByRemoval i) d id s le) (ground (arith, h))
        (drop_delivery-keeps (InOrder-KeptByCalls 0 d).kept d id s w)
]

-- Every entry is stored under its own sequence ID.
abbrev pub IsKeyed : Store → Type 0
IsKeyed s = (i : ℕ) (e : LogEntry) → Map.get i s.entries ≡ some e → e.sequence_id ≡ i

append-IsKeyed :
    (now : ℕ) (p : PublishParams) (r : RetentionClass) (ds : List ℕ) (s : Store)
    → IsKeyed s
    → IsKeyed (append p r ds now (mint p r s))
unfolding append mint
append-IsKeyed now p r ds s h i e found = ground (
  arith,
  h i e,
  found,
  get-set i (s.counter + 1)
      (record {
        sequence_id = s.counter + 1;
        sender_did = p.sender_did;
        topic_id = p.topic_id;
        payload = p.payload;
        stored_at = now;
        retain = r;
        pending_for = ds;
      })
      s.entries,
)

IsKeyed-KeptByRemoval : KeptByRemoval IsKeyed
unfolding remove_found
IsKeyed-KeptByRemoval = record {
  removed = λ id e s found h i e' f. ground (arith, get-delete i id s.entries, h i e', f);
  spliced = λ id did s h. h;
  released = λ id did e s found h i e' f. ground (
    arith,
    get-set i id (record e { pending_for = without did e.pending_for }) s.entries,
    h i e',
    h id e found,
    f,
  );
}

pub IsKeyed-KeptByCalls : KeptByCalls IsKeyed
unfolding mint
IsKeyed-KeptByCalls = record {
  kept = IsKeyed-KeptByRemoval;
  stored =
      stored_of_appended IsKeyed-KeptByRemoval (λ p r s h. h)
        (λ p r ds now s _ h. append-IsKeyed now p r ds s h);
  untouched = λ s s' same h. rw (same.same_entries) h;
}

delivers-messages_of_done :
    (i : ℕ) (s : Store) (ids : List ℕ)
    → IsKeyed s
    → has i ids ≡ false
    → delivers i (messages_of s.entries ids) ≡ false
unfolding messages_of as_stored_message
delivers-messages_of_done i s [] k h = refl
delivers-messages_of_done i s (id ∷ ids) k h =
    let rest = delivers-messages_of_done i s ids k (ground (arith, h)) in
    elim (Option-cases (Map.get id s.entries)) [
      | inl e ↦ ground (arith, e, rest)
      | inr (entry, e) ↦ ground (arith, e, h, k id entry e, rest)
    ]

has-take-false : (i n : ℕ) (ids : List ℕ) → has i ids ≡ false → has i (take n ids) ≡ false
has-take-false i zero ids h = refl
has-take-false i (suc n) [] h = refl
has-take-false i (suc n) (x ∷ ids) h = ground (arith, has-take-false i n ids)

has-paged_false :
    (i : ℕ) (after limit : Option ℕ) (ids : List ℕ)
    → has i ids ≡ false
    → has i (limited limit (beyond after ids)) ≡ false
unfolding limited beyond
has-paged_false i none none ids h = h
has-paged_false i none (some n) ids h = has-take-false i n ids h
has-paged_false i (some a) none ids h = rw (has-select (λ id. ltb a id) i ids, h) refl
has-paged_false i (some a) (some n) ids h =
    has-take-false i n _ (rw (has-select (λ id. ltb a id) i ids, h) refl)

-- What `fetch` hands out holds no frame that is done with.
fetch-IsDone :
    (d i : ℕ) (p : FetchParams) (s : Store)
    → p.recipient_did ≡ d
    → IsKeyed s
    → InOrder 0 d s
    → IsDone d i s
    → delivers i (fetch p s).0.messages ≡ false
unfolding fetch
fetch-IsDone d i p s same keyed order done =
    rw (serve_pending-messages p (Map.get p.recipient_did s'.deliveries) s'.counter s' pending) (
      delivers-messages_of_done i s' _
        (drop_deliveries-keeps IsKeyed-KeptByRemoval p.recipient_did p.ack s keyed)
        (has-paged_false i p.after p.limit _ gone))
  where
    s' : Store
    s' = drop_deliveries p.recipient_did p.ack s

    pending : Within 0 s'.counter (log_of p.recipient_did s'.deliveries)
    pending =
        (drop_deliveries-keeps (InOrder-KeptByCalls 0 p.recipient_did).kept p.recipient_did p.ack s
          (rw same order)).pending_order

    gone : has i (log_of p.recipient_did s'.deliveries) ≡ false
    gone =
        (drop_deliveries-keeps (IsDone-KeptByRemoval p.recipient_did i) p.recipient_did p.ack s
          (rw same done)).done

IsKeyed-reached : (o : MemoryStoreOptions) (cs : List Call) → IsKeyed (reached o cs)
IsKeyed-reached o cs =
    run-keeps IsKeyed-KeptByCalls _ cs
      (unfold create_memory_store in λ i e f. absurd (cc (f, Map.get-empty {V = LogEntry} i)))

pending-minted :
    (d i : ℕ) (s : Store) → InOrder 0 d s → has i (log_of d s.deliveries) ≡ true → i ≤ s.counter
pending-minted d i s h p =
    ground (arith, p, has-Within-beyond i 0 s.counter (log_of d s.deliveries), h.pending_order)

-- From any reachable state: once a recipient acknowledges a frame that is pending for it, no
-- `fetch` of that recipient hands the frame out again, whatever calls follow.
pub acked_never_served :
    (o : MemoryStoreOptions) (before after : List Call) (d i : ℕ) (ids : List ℕ) (p : FetchParams)
    → has i ids ≡ true
    → has i (log_of d (reached o before).deliveries) ≡ true
    → p.recipient_did ≡ d
    → delivers i (fetch p (run (ack d ids (reached o before)) after)).0.messages ≡ false
acked_never_served o before after d i ids p listed pending same =
    fetch-IsDone d i p _ same
      (run-keeps IsKeyed-KeptByCalls _ after
        (ack-keeps IsKeyed-KeptByRemoval d ids _ (IsKeyed-reached o before)))
      (run-keeps (InOrder-KeptByCalls 0 d) _ after
        (ack-keeps (InOrder-KeptByCalls 0 d).kept d ids _ order))
      (run-keeps (IsDone-KeptByCalls d i) _ after acked)
  where
    order : InOrder 0 d (reached o before)
    order = reached-InOrder 0 d o before

    acked : IsDone d i (ack d ids (reached o before))
    acked =
        unfold ack in
        drop_deliveries-IsDone d i ids (reached o before)
          (pending-minted d i (reached o before) order pending) listed order
