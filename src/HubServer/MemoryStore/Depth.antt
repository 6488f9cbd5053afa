-- ===== src/HubServer/MemoryStore/Depth.antt =====
-- packages/hub-server/src/memoryStore.ts: the depth bound. A topic's log never holds more than
-- `maxDepth` log-class frames, after any history.
use kumiai.HubServer.MemoryStore.Accounting.{log_of-splice_log, log_of}
use kumiai.Shared.{
  zero, has, ==_iff, ℕ, suc, ◌+◌, ◌-◌, ◌≤◌, ◌≡◌, refl, inl, inr, true, false, none, some, List, [],
  ◌∷◌, ◌++◌, ◌==◌, if◌then◌else◌, Option-cases, Bool-cases, arith, length, select, erase,
}
use kumiai.Shared.Map
use kumiai.Shared.Map.{Map, get-set, get-delete}
use kumiai.HubServer.MemoryStore.{
  LogEntry, Store, is_log_id, is_log, remove_found, remove_entry, log,
}
use kumiai.HubServer.MemoryStore.Publish.{log_ids, log_frames, find_log, trim_depth, bound_depth}

pub depth_of : Map LogEntry → List ℕ → ℕ
depth_of entries ids = length (select (is_log_id entries) ids)

-- Removing an entry makes no ID log-class.
pub is_log_id-delete :
    (i id : ℕ) (entries : Map LogEntry)
    → is_log_id (Map.delete id entries) i ≡ (if id == i then false else is_log_id entries i)
unfolding is_log_id
is_log_id-delete i id entries = ground (arith, get-delete i id entries)

pub depth_of-delete-le :
    (id : ℕ) (entries : Map LogEntry) (ids : List ℕ)
    → depth_of (Map.delete id entries) ids ≤ depth_of entries ids
unfolding depth_of
depth_of-delete-le id entries [] = omega arith
depth_of-delete-le id entries (i ∷ ids) =
    ground (arith, is_log_id-delete i id entries, depth_of-delete-le id entries ids)

depth_of-erase-le :
    (id : ℕ) (entries : Map LogEntry) (ids : List ℕ)
    → depth_of entries (erase id ids) ≤ depth_of entries ids
unfolding depth_of
depth_of-erase-le id entries [] = omega arith
depth_of-erase-le id entries (i ∷ ids) = ground (arith, depth_of-erase-le id entries ids)

-- The frame that the loop picks is log-class, and its removal takes one off the depth.
find_log-some :
    (entries : Map LogEntry) (ids : List ℕ) (id : ℕ)
    → find_log entries ids ≡ some id
    → depth_of (Map.delete id entries) ids + 1 ≤ depth_of entries ids
unfolding find_log depth_of
find_log-some entries [] id h = cc
find_log-some entries (i ∷ ids) id h = elim (Bool-cases (is_log_id entries i)) [
  | inl e ↦ ground (arith, h, is_log_id-delete i id entries, depth_of-delete-le id entries ids)
  | inr e ↦
      ground
        (arith, h, is_log_id-delete i id entries, find_log-some entries ids id (ground (arith, h)))
]

pub is_log_id-set :
    (i id : ℕ) (e : LogEntry) (entries : Map LogEntry)
    → is_log_id (Map.set id e entries) i
      ≡ (if id == i then is_log e.retain else is_log_id entries i)
unfolding is_log_id
is_log_id-set i id e entries = ground (arith, get-set i id e entries)

-- A rewritten entry of the same class, or a new one of mailbox class, adds nothing to the depth.
pub depth_of-set-le :
    (id : ℕ) (e : LogEntry) (entries : Map LogEntry) (ids : List ℕ)
    → (is_log e.retain ≡ true → is_log_id entries id ≡ true)
    → depth_of (Map.set id e entries) ids ≤ depth_of entries ids
unfolding depth_of
depth_of-set-le id e entries [] h = omega arith
depth_of-set-le id e entries (i ∷ ids) h =
    ground (arith, is_log_id-set i id e entries, h, ==_iff id i, depth_of-set-le id e entries ids h)

-- An entry stored under an ID that the list does not hold leaves its depth.
pub depth_of-set_fresh :
    (id : ℕ) (e : LogEntry) (entries : Map LogEntry) (ids : List ℕ)
    → has id ids ≡ false
    → depth_of (Map.set id e entries) ids ≡ depth_of entries ids
unfolding depth_of
depth_of-set_fresh id e entries [] h = refl
depth_of-set_fresh id e entries (i ∷ ids) h =
    ground (arith, is_log_id-set i id e entries, h, depth_of-set_fresh id e entries ids)

pub depth_of-append-le :
    (entries : Map LogEntry) (ids : List ℕ) (id : ℕ)
    → depth_of entries (ids ++ id ∷ [])
      ≡ depth_of entries ids + (if is_log_id entries id then 1 else 0)
unfolding depth_of
depth_of-append-le entries [] id = ground arith
depth_of-append-le entries (i ∷ ids) id = ground (arith, depth_of-append-le entries ids id)

-- The number of log frames that the topic retains.
abbrev pub log_depth : ℕ → Store → ℕ
log_depth topic s = length (log_frames topic s)

pub log_depth-depth_of :
    (t : ℕ) (s : Store) → log_depth t s ≡ depth_of s.entries (log_of t s.topic_logs)
unfolding log_frames depth_of
log_depth-depth_of t s = refl

pub remove_found-depth-le :
    (t id : ℕ) (e : LogEntry) (s : Store)
    → depth_of (remove_found id e s).entries (log_of t (remove_found id e s).topic_logs)
      ≤ depth_of (Map.delete id s.entries) (log_of t s.topic_logs)
unfolding remove_found
remove_found-depth-le t id e s = ground (
  arith,
  log_of-splice_log t id e.topic_id s.topic_logs,
  depth_of-erase-le id (Map.delete id s.entries) (log_of t s.topic_logs),
)

find_log-is_log :
    (entries : Map LogEntry) (ids : List ℕ) (id : ℕ)
    → find_log entries ids ≡ some id
    → is_log_id entries id ≡ true
unfolding find_log
find_log-is_log entries [] id h = cc
find_log-is_log entries (i ∷ ids) id h = elim (Bool-cases (is_log_id entries i)) [
  | inl e ↦ ground (arith, h, e)
  | inr e ↦ find_log-is_log entries ids id (ground (arith, h, e))
]

find_log-none :
    (entries : Map LogEntry) (ids : List ℕ) → find_log entries ids ≡ none → depth_of entries ids ≡ 0
unfolding find_log depth_of
find_log-none entries [] h = refl
find_log-none entries (i ∷ ids) h = elim (Bool-cases (is_log_id entries i)) [
  | inl e ↦ absurd (ground (arith, h, e))
  | inr e ↦ ground (arith, e, find_log-none entries ids (ground (arith, h, e)))
]

-- One round of the loop takes at least one frame off.
remove_oldest-depth :
    (t oldest : ℕ) (s : Store)
    → find_log s.entries (log_ids t s) ≡ some oldest
    → log_depth t (remove_entry oldest s) + 1 ≤ log_depth t s
unfolding log_ids
remove_oldest-depth t oldest s h = elim (Option-cases (Map.get oldest s.entries)) [
  | inl e ↦ absurd (
      unfold is_log_id in
      ground (arith, e, find_log-is_log s.entries (log_of t s.topic_logs) oldest h))
  | inr (entry, e) ↦
      unfold remove_entry in
      rw (e, remove_entry)
        (omega (
          arith,
          log_depth-depth_of t s,
          log_depth-depth_of t (remove_found oldest entry s),
          remove_found-depth-le t oldest entry s,
          find_log-some s.entries (log_of t s.topic_logs) oldest h,
        ))
]

trim_depth-log_depth-le :
    (t excess : ℕ) (s : Store) → log_depth t (trim_depth excess t s) ≤ log_depth t s - excess
unfolding trim_depth
trim_depth-log_depth-le t zero s = omega arith
trim_depth-log_depth-le t (suc excess) s = elim (Option-cases (find_log s.entries (log_ids t s))) [
  | inl e ↦
      rw (e, trim_depth)
        (omega (
          arith,
          log_depth-depth_of t s,
          find_log-none s.entries (log_of t s.topic_logs) (unfold log_ids in e),
        ))
  | inr (oldest, e) ↦
      rw (e, trim_depth)
        (omega (
          arith,
          remove_oldest-depth t oldest s e,
          trim_depth-log_depth-le t excess (remove_entry oldest s),
        ))
]

-- The frame that `bound_depth` is called for may exceed the bound; the result does not.
pub bound_depth-log_depth-le : (t : ℕ) (s : Store) → log_depth t (bound_depth log t s) ≤ s.max_depth
unfolding bound_depth
bound_depth-log_depth-le t s =
    omega (arith, trim_depth-log_depth-le t (log_depth t s - s.max_depth) s)
