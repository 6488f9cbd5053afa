-- ===== src/HubServer/MemoryStore/Accounting.antt =====
-- packages/hub-server/src/memoryStore.ts: what becomes of a log frame. Every removal path keeps a
-- frame of the log or raises the topic's removal watermark to it.
use kumiai.HubServer.MemoryStore.Induction.{KeptByRemoval}
use kumiai.Shared.{
  ℕ, ◌≤◌, ◌≡◌, inl, inr, Bool, true, false, ◌&&◌, ◌||◌, Option, none, some, List, [], ◌∷◌, ◌==◌,
  leb, has, erase, if◌then◌else◌, or_default, has-erase_ne, Option-cases, arith,
}
use kumiai.Shared.Map
use kumiai.Shared.Map.{Map, get-set, get-delete}
use kumiai.HubServer.MemoryStore.{
  without, LogEntry, is_log, Store, splice_log, put_log, raise_removed, remove_found,
}
use kumiai.HubServer.MemoryStore.Publish.{log_ids}

-- What is stored under `id` is that frame, in the log class, on that topic.
abbrev pub is_log_of : ℕ → ℕ → Option LogEntry → Bool
is_log_of topic id none = false
is_log_of topic id (some e) = (e.topic_id == topic) && (is_log e.retain && (e.sequence_id == id))

abbrev pub passes : ℕ → Option ℕ → Bool
passes id none = false
passes id (some r) = leb id r

-- The frame stands in the log of its topic.
unfoldable pub is_kept : ℕ → ℕ → Store → Bool
unfolding log_ids
is_kept topic id s = has id (log_ids topic s) && is_log_of topic id (Map.get id s.entries)

-- The removal watermark of the topic has reached the frame.
unfoldable pub is_passed : ℕ → ℕ → Store → Bool
is_passed topic id s = passes id (Map.get topic s.removed_through)

pub record Accounted (topic id : ℕ) (s : Store) : Type 0 where
  pub minted : id ≤ s.counter
  pub accounted : (is_kept topic id s || is_passed topic id s) ≡ true

abbrev pub log_of : ℕ → Map (List ℕ) → List ℕ
log_of topic logs = or_default (Map.get topic logs) []

log_of-put_log :
    (t topic : ℕ) (xs : List ℕ) (logs : Map (List ℕ))
    → log_of t (put_log topic xs logs) ≡ (if topic == t then xs else log_of t logs)
unfolding put_log
log_of-put_log t topic [] logs = ground (arith, get-delete t topic logs)
log_of-put_log t topic (x ∷ xs) logs = ground (arith, get-set t topic (x ∷ xs) logs)

pub log_of-splice_log :
    (t id topic : ℕ) (logs : Map (List ℕ))
    → log_of t (splice_log id topic logs)
      ≡ (if topic == t then erase id (log_of t logs) else log_of t logs)
unfolding splice_log
log_of-splice_log t id topic logs = elim (Option-cases (Map.get topic logs)) [
  | inl e ↦ ground (arith, e)
  | inr (ids, e) ↦ ground (arith, e, log_of-put_log t topic (erase id ids) logs)
]

passes-raise_removed :
    (t i id topic : ℕ) (removed : Map ℕ)
    → passes i (Map.get t (raise_removed id topic removed))
      ≡ (passes i (Map.get t removed) || ((topic == t) && leb i id))
unfolding raise_removed
passes-raise_removed t i id topic removed = ground (arith, get-set t topic id removed)

abbrev step_accounted : ℕ → ℕ → Store → Bool
step_accounted topic id s = is_kept topic id s || is_passed topic id s

remove_found-accounted :
    (t i id : ℕ) (e : LogEntry) (s : Store)
    → Map.get id s.entries ≡ some e
    → step_accounted t i s ≡ true
    → step_accounted t i (remove_found id e s) ≡ true
unfolding remove_found is_kept is_passed
remove_found-accounted t i id e s found h = ground (
  arith,
  get-delete i id s.entries,
  log_of-splice_log t id e.topic_id s.topic_logs,
  has-erase_ne i id (log_of t s.topic_logs),
  passes-raise_removed t i id e.topic_id s.removed_through,
)

-- Every removal keeps the account of the frame `i` of topic `t`.
pub Accounted-KeptByRemoval : (t i : ℕ) → KeptByRemoval (Accounted t i)
unfolding is_kept is_passed
Accounted-KeptByRemoval t i = record {
  removed = λ id e s found h. record {
    minted = unfold remove_found in h.minted;
    accounted = remove_found-accounted t i id e s found h.accounted;
  };
  spliced = λ id did s h. record { minted = h.minted; accounted = h.accounted };
  released = λ id did e s found h. record {
    minted = h.minted;
    accounted = ground (
      arith,
      get-set i id (record e { pending_for = without did e.pending_for }) s.entries,
      h.accounted,
    );
  };
}
