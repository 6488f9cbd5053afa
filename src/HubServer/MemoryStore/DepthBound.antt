-- ===== src/HubServer/MemoryStore/DepthBound.antt =====
-- packages/hub-server/src/memoryStore.ts: the depth bound over whole histories.
use kumiai.HubServer.MemoryStore.Pages.{reached-InOrder, reached}
use kumiai.HubServer.MemoryStore.History.{run, Call}
use kumiai.HubServer.MemoryStore.Frame.{SameRest-refl, SameRest-KeptByRemoval}
use kumiai.HubServer.MemoryStore.NoSilentLoss.{log_of-push_id}
use kumiai.HubServer.MemoryStore.Accounting.{log_of}
use kumiai.HubServer.MemoryStore.Induction.{trim_depth-keeps, KeptByRemoval}
use kumiai.HubServer.MemoryStore.Publish.{
  log_ids, trim_depth, PublishParams, bound_depth, mint, log_frames, append, store_frame,
}
use kumiai.HubServer.MemoryStore.Depth.{
  depth_of-set_fresh, is_log_id-set, depth_of-append-le, bound_depth-log_depth-le,
  depth_of-delete-le, depth_of-set-le, remove_found-depth-le, log_depth-depth_of, log_depth,
}
use kumiai.Shared.{
  ◌∙◌, ==_iff, ap, subst, ℕ, ◌+◌, ◌-◌, ◌≤◌, ◌≡◌, refl, inl, inr, true, some, List, [], ◌∷◌, ◌==◌,
  if◌then◌else◌, Bool-cases, arith,
}
use kumiai.Shared.Ascending.{has-Within-beyond}
use kumiai.Shared.Map
use kumiai.Shared.Map.{Map}
use kumiai.HubServer.MemoryStore.{
  create_memory_store, MemoryStoreOptions, is_log, is_log_id, without, Store, LogEntry,
  remove_found, RetentionClass, log, mailbox,
}
use kumiai.HubServer.MemoryStore.Order.{InOrder, InOrder-KeptByCalls}
use kumiai.HubServer.MemoryStore.CallInduction.{stored_of_appended, KeptByCalls, run-keeps}

abbrev WithinDepth : ℕ → Store → Type 0
WithinDepth t s = log_depth t s ≤ s.max_depth

remove_found-max_depth :
    (id : ℕ) (e : LogEntry) (s : Store) → (remove_found id e s).max_depth ≡ s.max_depth
unfolding remove_found
remove_found-max_depth id e s = refl

append-max_depth :
    (now : ℕ) (p : PublishParams) (r : RetentionClass) (ds : List ℕ) (s : Store)
    → (append p r ds now (mint p r s)).max_depth ≡ s.max_depth
unfolding append mint
append-max_depth now p r ds s = refl

removed_depth :
    (t id : ℕ) (e : LogEntry) (s : Store) → WithinDepth t s → WithinDepth t (remove_found id e s)
removed_depth t id e s h = omega (
  arith,
  h,
  remove_found-max_depth id e s,
  log_depth-depth_of t s,
  log_depth-depth_of t (remove_found id e s),
  remove_found-depth-le t id e s,
  depth_of-delete-le id s.entries (log_of t s.topic_logs),
)

is_log_id-found :
    (id : ℕ) (e : LogEntry) (entries : Map LogEntry)
    → Map.get id entries ≡ some e
    → is_log e.retain ≡ true
    → is_log_id entries id ≡ true
unfolding is_log_id
is_log_id-found id e entries found l = ground (arith, found, l)

released_depth :
    (t id did : ℕ) (e : LogEntry) (s : Store)
    → Map.get id s.entries ≡ some e
    → WithinDepth t s
    → WithinDepth t (record s {
      entries = Map.set id (record e { pending_for = without did e.pending_for }) s.entries;
    })
released_depth t id did e s found h =
    let e' = record e { pending_for = without did e.pending_for } in
    omega (
      arith,
      h,
      log_depth-depth_of t s,
      log_depth-depth_of t (record s { entries = Map.set id e' s.entries }),
      depth_of-set-le id e' s.entries (log_of t s.topic_logs)
          (λ l. is_log_id-found id e s.entries found l),
    )

Within_depth-KeptByRemoval : (t : ℕ) → KeptByRemoval (WithinDepth t)
Within_depth-KeptByRemoval t = record {
  removed = λ id e s found h. removed_depth t id e s h;
  spliced = λ id did s h. unfold log_frames in h;
  released = λ id did e s found h. released_depth t id did e s found h;
}

-- The depth after an append: the topic's log grows by a log frame, and no other one changes.
append-depth :
    (t now : ℕ) (p : PublishParams) (r : RetentionClass) (ds : List ℕ) (s : Store)
    → InOrder t 0 s
    → log_depth t (append p r ds now (mint p r s))
      ≡ log_depth t s + (if p.topic_id == t then (if is_log r then 1 else 0) else 0)
unfolding append mint
append-depth t now p r ds s h = ground (
  arith,
  log_depth-depth_of t s,
  log_depth-depth_of t (append p r ds now (mint p r s)),
  log_of-push_id t p.topic_id (s.counter + 1) s.topic_logs,
  depth_of-append-le (Map.set (s.counter + 1) entry s.entries) (log_of t s.topic_logs)
      (s.counter + 1),
  is_log_id-set (s.counter + 1) (s.counter + 1) entry s.entries,
  depth_of-set_fresh (s.counter + 1) entry s.entries (log_of t s.topic_logs) (
      has-Within-beyond (s.counter + 1) 0 s.counter (log_of t s.topic_logs) (omega arith)
        h.log_order),
)
  where
    entry : LogEntry
    entry = record {
      sequence_id = s.counter + 1;
      sender_did = p.sender_did;
      topic_id = p.topic_id;
      payload = p.payload;
      stored_at = now;
      retain = r;
      pending_for = ds;
    }

-- The topic's log is in order and within the depth bound.
record IsBounded (t : ℕ) (s : Store) : Type 0 where
  order : InOrder t 0 s
  depth : WithinDepth t s

trim_depth-max_depth : (t : ℕ) (s : Store) → (bound_depth log t s).max_depth ≡ s.max_depth
unfolding bound_depth
trim_depth-max_depth t s =
    ap (λ (o : MemoryStoreOptions). o.max_depth)
      (trim_depth-keeps (SameRest-KeptByRemoval s) _ t s (SameRest-refl s)).same_options

bounded_own :
    (now : ℕ) (p : PublishParams) (ds : List ℕ) (s : Store)
    → WithinDepth p.topic_id (bound_depth log p.topic_id (append p log ds now (mint p log s)))
bounded_own now p ds s = omega (
  arith,
  trim_depth-max_depth p.topic_id (append p log ds now (mint p log s)),
  bound_depth-log_depth-le p.topic_id (append p log ds now (mint p log s)),
)

stored_depth :
    (t now : ℕ) (p : PublishParams) (r : RetentionClass) (ds : List ℕ) (s : Store)
    → IsBounded t s
    → WithinDepth t (store_frame p r ds now (mint p r s))
unfolding store_frame bound_depth
stored_depth t now p mailbox [] s h = unfold mint log_frames in h.depth
stored_depth t now p mailbox (d ∷ ds) s h = ground (
  arith,
  h.depth,
  append-depth t now p mailbox (d ∷ ds) s h.order,
  append-max_depth now p mailbox (d ∷ ds) s,
)
stored_depth t now p log ds s h = elim (Bool-cases (p.topic_id == t)) [
  | inl e ↦
      subst
        (λ u. WithinDepth u (
          trim_depth
            (log_depth p.topic_id (append p log ds now (mint p log s))
              - (append p log ds now (mint p log s)).max_depth)
            p.topic_id (append p log ds now (mint p log s))))
        ((==_iff p.topic_id t).0 e) (bounded_own now p ds s)
  | inr e ↦
      trim_depth-keeps (Within_depth-KeptByRemoval t) _ p.topic_id
        (append p log ds now (mint p log s))
        (ground
          (arith, h.depth, append-depth t now p log ds s h.order, append-max_depth now p log ds s))
]

IsBounded-KeptByCalls : (t : ℕ) → KeptByCalls (IsBounded t)
IsBounded-KeptByCalls t = record {
  kept = record {
    removed = λ id e s found h. record {
      order = (InOrder-KeptByCalls t 0).kept.removed id e s found h.order;
      depth = removed_depth t id e s h.depth;
    };
    spliced = λ id did s h. record {
      order = (InOrder-KeptByCalls t 0).kept.spliced id did s h.order;
      depth = (Within_depth-KeptByRemoval t).spliced id did s h.depth;
    };
    released = λ id did e s found h. record {
      order = (InOrder-KeptByCalls t 0).kept.released id did e s found h.order;
      depth = released_depth t id did e s found h.depth;
    };
  };
  stored = λ p r ds now s distinct h. record {
    order = (InOrder-KeptByCalls t 0).stored p r ds now s distinct h.order;
    depth = stored_depth t now p r ds s h;
  };
  untouched = λ s s' same h. record {
    order = (InOrder-KeptByCalls t 0).untouched s s' same h.order;
    depth =
        unfold log_frames log_ids in
        rw (same.same_entries, same.same_logs, same.same_options) h.depth;
  };
}

options-KeptByCalls : (o : MemoryStoreOptions) → KeptByCalls (λ s. s.options ≡ o)
unfolding remove_found mint append
options-KeptByCalls o = record {
  kept = options_kept;
  stored = stored_of_appended options_kept (λ p r s h. h) (λ p r ds now s _ h. h);
  untouched = λ s s' same h. same.same_options ∙ h;
}
  where
    options_kept : KeptByRemoval (λ s. s.options ≡ o)
    options_kept = record {
      removed = λ id e s found h. h;
      spliced = λ id did s h. h;
      released = λ id did e s found h. h;
    }

pub reached-options : (o : MemoryStoreOptions) (cs : List Call) → (reached o cs).options ≡ o
reached-options o cs = run-keeps (options-KeptByCalls o) _ cs (unfold create_memory_store in refl)

log_depth-create :
    (t : ℕ) (o : MemoryStoreOptions)
    → log_depth t (create_memory_store o) ≤ (create_memory_store o).max_depth
unfolding create_memory_store log_frames log_ids Map.get
log_depth-create t o = omega arith

-- From a new store and after any calls, no topic's log retains more than `maxDepth` log-class
-- frames.
pub log_depth_bounded :
    (o : MemoryStoreOptions) (cs : List Call) (t : ℕ) → log_depth t (reached o cs) ≤ o.max_depth
log_depth_bounded o cs t =
    subst (λ (q : MemoryStoreOptions). log_depth t (reached o cs) ≤ q.max_depth)
      (reached-options o cs)
      (run-keeps (IsBounded-KeptByCalls t) (create_memory_store o) cs (record {
        order = unfold run in reached-InOrder t 0 o [];
        depth = log_depth-create t o;
      })).depth
