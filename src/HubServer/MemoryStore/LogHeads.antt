-- ===== src/HubServer/MemoryStore/LogHeads.antt =====
-- packages/hub-server/src/memoryStore.ts: the head of a topic names a frame that the log keeps or
-- that the removal watermark has reached, and a frame is stored under its own sequence ID.
use kumiai.HubServer.MemoryStore.Replay.{IsPublish, step-SameRegister, accept-register}
use kumiai.HubServer.MemoryStore.Pages.{reached}
use kumiai.HubServer.MemoryStore.History.{publishes, run_induction, step, Call}
use kumiai.HubServer.MemoryStore.Accounting.{Accounted}
use kumiai.HubServer.MemoryStore.Induction.{KeptByRemoval}
use kumiai.HubServer.MemoryStore.Publish.{publish, accept, append, mint, PublishParams}
use kumiai.HubServer.MemoryStore.{
  log, mailbox, create_memory_store, remove_found, RetentionClass, LogEntry, MemoryStoreOptions,
  Store,
}
use kumiai.HubServer.MemoryStore.NoSilentLoss.{Accounted-KeptByCalls, accept-Accounted_own}
use kumiai.HubServer.MemoryStore.CallInduction.{
  publish_cases, run-keeps, stored_of_appended, KeptByCalls, step-keeps, accept-keeps,
}
use kumiai.Shared.{
  subst, without, ℕ, ◌+◌, ◌≡◌, inl, inr, some, List, ◌==◌, arith, Bool-cases, ==_iff,
}
use kumiai.Shared.Map
use kumiai.Shared.Map.{Map, get-set, get-delete, get-empty}

abbrev pub HeadAccounted : ℕ → Store → Type 0
HeadAccounted t s = (h : ℕ) → Map.get t s.heads ≡ some h → Accounted t h s

accept-HeadAccounted :
    (t now : ℕ) (p : PublishParams) (r : RetentionClass) (s : Store)
    → HeadAccounted t s
    → HeadAccounted t (accept p r now s)
accept-HeadAccounted t now p mailbox s k h e =
    accept-keeps (Accounted-KeptByCalls t h) p mailbox now s
      (k h (rw ((accept-register p mailbox now s).1) at e))
accept-HeadAccounted t now p log s k h e =
    let same : Map.get t (Map.set p.topic_id (s.counter + 1) s.heads) ≡ some h =
      rw ((accept-register p log now s).1) at e in
    elim (Bool-cases (p.topic_id == t)) [
      | inr other ↦
          accept-keeps (Accounted-KeptByCalls t h) p log now s
            (k h (ground (arith, get-set t p.topic_id (s.counter + 1) s.heads, other, same)))
      | inl here ↦
          let topic = (==_iff p.topic_id t).0 here in
          let minted : s.counter + 1 ≡ h =
            ground (arith, get-set t p.topic_id (s.counter + 1) s.heads, here, same) in
          subst (λ q. Accounted q h (accept p log now s)) topic
            (subst (λ q. Accounted p.topic_id q (accept p log now s)) minted
              (accept-Accounted_own now p s))
    ]

publish-HeadAccounted :
    (t now : ℕ) (p : PublishParams) (s : Store)
    → HeadAccounted t s
    → HeadAccounted t (publish p now s).1
publish-HeadAccounted t now p s k =
    publish_cases (λ q. HeadAccounted t q.1) p now s (λ _ _. k) (λ _. k)
      (λ _ _. accept-HeadAccounted t now p _ s k)

other-HeadAccounted :
    (t : ℕ) (s : Store) (c : Call) → ¬ IsPublish c → HeadAccounted t s → HeadAccounted t (step s c)
other-HeadAccounted t s c other k h e =
    step-keeps (Accounted-KeptByCalls t h) s c
      (k h (rw ((step-SameRegister s c other).same_heads) at e))

step-HeadAccounted : (t : ℕ) (s : Store) (c : Call) → HeadAccounted t s → HeadAccounted t (step s c)
step-HeadAccounted t s (publishes p now) k = unfold step in publish-HeadAccounted t now p s k
step-HeadAccounted t s c k = other-HeadAccounted t s c (λ x. x) k

-- After any history.
pub reached-HeadAccounted :
    (t : ℕ) (o : MemoryStoreOptions) (cs : List Call) → HeadAccounted t (reached o cs)
reached-HeadAccounted t o cs =
    run_induction (HeadAccounted t) (step-HeadAccounted t) (create_memory_store o) cs
      (λ h e. absurd (unfold create_memory_store Map.get in cc e))

-- A frame is stored under its own ID.
abbrev pub IsNamed : Store → Type 0
IsNamed s = (id : ℕ) (e : LogEntry) → Map.get id s.entries ≡ some e → e.sequence_id ≡ id

IsNamed-KeptByRemoval : KeptByRemoval IsNamed
IsNamed-KeptByRemoval = record {
  removed = λ id e s found k i f h.
      k i f (unfold remove_found in ground (arith, get-delete i id s.entries, h));
  spliced = λ id did s k. k;
  released = λ id did e s found k i f h. ground (
    arith,
    get-set i id (record e { pending_for = without did e.pending_for }) s.entries,
    h,
    k i f,
    k id e found,
  );
}

append-IsNamed :
    (now : ℕ) (p : PublishParams) (r : RetentionClass) (ds : List ℕ) (s : Store)
    → IsNamed s
    → IsNamed (append p r ds now s)
unfolding append
append-IsNamed now p r ds s k i f h = ground (
  arith,
  get-set i s.counter
      (record {
        sequence_id = s.counter;
        sender_did = p.sender_did;
        topic_id = p.topic_id;
        payload = p.payload;
        stored_at = now;
        retain = r;
        pending_for = ds;
      })
      s.entries,
  h,
  k i f,
)

IsNamed-KeptByCalls : KeptByCalls IsNamed
unfolding mint
IsNamed-KeptByCalls = record {
  kept = IsNamed-KeptByRemoval;
  stored =
      stored_of_appended IsNamed-KeptByRemoval (λ p r s k. k)
        (λ p r ds now s _ k. append-IsNamed now p r ds (mint p r s) k);
  untouched = λ s s' same k i f h. k i f (rw (same.same_entries) at h);
}

created-IsNamed : (o : MemoryStoreOptions) → IsNamed (create_memory_store o)
unfolding create_memory_store Map.get
created-IsNamed o i f h = absurd (cc h)

pub reached-IsNamed : (o : MemoryStoreOptions) (cs : List Call) → IsNamed (reached o cs)
reached-IsNamed o cs = run-keeps IsNamed-KeptByCalls (create_memory_store o) cs (created-IsNamed o)
