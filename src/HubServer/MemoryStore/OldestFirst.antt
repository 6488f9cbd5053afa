-- ===== src/HubServer/MemoryStore/OldestFirst.antt =====
-- packages/hub-server/src/memoryStore.ts, `publish`: which log frames a log publish evicts.
use kumiai.HubServer.MemoryStore.Pages.{reached, reached-InOrder}
use kumiai.HubServer.MemoryStore.History.{Call}
use kumiai.HubServer.MemoryStore.NoSilentLoss.{log_of-push_id}
use kumiai.HubServer.MemoryStore.Accounting.{log_of, log_of-splice_log}
use kumiai.HubServer.MemoryStore.Depth.{is_log_id-delete, is_log_id-set}
use kumiai.HubServer.MemoryStore.DepthBound.{reached-options}
use kumiai.HubServer.MemoryStore.Publish.{
  accept, accepted_as, append, bound_depth, find_log, head_matches, log_frames, log_ids, mint,
  publish, push_id, PublishParams, PublishResult, recipients_of, store_frame, trim_depth,
}
use kumiai.HubServer.MemoryStore.{
  is_log_id, log, LogEntry, MemoryStoreOptions, ok, remove_entry, remove_found, Store,
}
use kumiai.Shared.{
  ==_refl, ◌⊎◌, ap, arith, Bool, Bool-cases, drop, erase, false, has, inl, inr, length, List, [],
  ◌∷◌, none, Option-cases, refl, select, some, subst, suc, sym, true, zero, ℕ, ◌+◌, ◌++◌, ◌-◌, ◌==◌,
  ◌≡◌, ◌∙◌, ==_iff,
}
use kumiai.Shared.Ascending.{has-Within-above, has-Within-beyond, Within, Within-erase, Within-push}
use kumiai.Shared.Map
use kumiai.Shared.Map.{Map, get-set, get-delete}

select-erase :
    (q : ℕ → Bool) (id : ℕ) (ids : List ℕ) → q id ≡ false → select q (erase id ids) ≡ select q ids
select-erase q id [] h = refl
select-erase q id (i ∷ ids) h = elim (Bool-cases (i == id)) [
  | inl e ↦ rw e (ground (arith, subst (λ z. q z ≡ false) (sym ((==_iff i id).0 e)) h))
  | inr e ↦ ground (arith, e, select-erase q id ids h)
]

-- Removing an entry takes no other frame out of the log.
select-delete_absent :
    (id : ℕ) (entries : Map LogEntry) (ids : List ℕ)
    → has id ids ≡ false
    → select (is_log_id (Map.delete id entries)) ids ≡ select (is_log_id entries) ids
select-delete_absent id entries [] h = refl
select-delete_absent id entries (i ∷ ids) h = ground (
  arith,
  h,
  is_log_id-delete i id entries,
  ==_iff id i,
  ==_iff i id,
  select-delete_absent id entries ids,
)

select-delete_first :
    (id lo n : ℕ) (rest : List ℕ) (entries : Map LogEntry) (ids : List ℕ)
    → Within lo n ids
    → select (is_log_id entries) ids ≡ id ∷ rest
    → select (is_log_id (Map.delete id entries)) ids ≡ rest
select-delete_first id lo n rest entries [] w h = absurd (cc h)
select-delete_first id lo n rest entries (i ∷ ids) (a, b, w) h =
    elim (Bool-cases (is_log_id entries i)) [
      | inr e ↦ ground (
        arith,
        e,
        is_log_id-delete i id entries,
        select-delete_first id i n rest entries ids w (ground (arith, e, h)),
      )
      | inl e ↦
          let whole : i ∷ select (is_log_id entries) ids ≡ id ∷ rest = ground (arith, e, h) in
          let same : i ≡ id = cc whole in
          let others : select (is_log_id entries) ids ≡ rest = cc whole in
          ground (
            arith,
            same,
            others,
            is_log_id-delete i id entries,
            select-delete_absent id entries ids
                (subst (λ z. has z ids ≡ false) same (has-Within-above i i n ids (omega arith) w)),
          )
    ]

find_log-first :
    (id : ℕ) (rest : List ℕ) (entries : Map LogEntry) (ids : List ℕ)
    → select (is_log_id entries) ids ≡ id ∷ rest
    → find_log entries ids ≡ some id
unfolding find_log
find_log-first id rest entries [] h = absurd (cc h)
find_log-first id rest entries (i ∷ ids) h = elim (Bool-cases (is_log_id entries i)) [
  | inl e ↦ ground (arith, e, h)
  | inr e ↦ ground (arith, e, find_log-first id rest entries ids (ground (arith, e, h)))
]

find_log-nothing :
    (entries : Map LogEntry) (ids : List ℕ)
    → select (is_log_id entries) ids ≡ []
    → find_log entries ids ≡ none
unfolding find_log
find_log-nothing entries [] h = refl
find_log-nothing entries (i ∷ ids) h = elim (Bool-cases (is_log_id entries i)) [
  | inl e ↦ absurd (ground (arith, e, h))
  | inr e ↦ ground (arith, e, find_log-nothing entries ids (ground (arith, e, h)))
]

first_is_log :
    (id : ℕ) (rest : List ℕ) (entries : Map LogEntry) (ids : List ℕ)
    → select (is_log_id entries) ids ≡ id ∷ rest
    → is_log_id entries id ≡ true
first_is_log id rest entries [] h = absurd (cc h)
first_is_log id rest entries (i ∷ ids) h = elim (Bool-cases (is_log_id entries i)) [
  | inl e ↦ ground (arith, e, h)
  | inr e ↦ first_is_log id rest entries ids (ground (arith, e, h))
]

log_frames-remove_found :
    (t id : ℕ) (e : LogEntry) (s : Store)
    → log_frames t (remove_found id e s)
      ≡ select (is_log_id (Map.delete id s.entries)) (log_of t s.topic_logs)
unfolding log_frames log_ids remove_found
log_frames-remove_found t id e s =
    let q = is_log_id (Map.delete id s.entries) in
    let gone : q id ≡ false = ground (arith, is_log_id-delete id id s.entries, ==_iff id id) in
    rw (log_of-splice_log t id e.topic_id s.topic_logs) (elim (Bool-cases (e.topic_id == t)) [
      | inl here ↦ rw here (select-erase q id (log_of t s.topic_logs) gone)
      | inr there ↦ rw there refl
    ])

remove_found-order :
    (t id : ℕ) (e : LogEntry) (s : Store)
    → Within 0 s.counter (log_of t s.topic_logs)
    → Within 0 (remove_found id e s).counter (log_of t (remove_found id e s).topic_logs)
unfolding remove_found
remove_found-order t id e s w =
    rw (log_of-splice_log t id e.topic_id s.topic_logs) (elim (Bool-cases (e.topic_id == t)) [
      | inl here ↦ rw here (Within-erase 0 s.counter id (log_of t s.topic_logs) w)
      | inr there ↦ rw there w
    ])

stored_log :
    (id : ℕ) (entries : Map LogEntry)
    → is_log_id entries id ≡ true
    → (e : LogEntry) × (Map.get id entries ≡ some e)
unfolding is_log_id
stored_log id entries h = elim (Option-cases (Map.get id entries)) [
  | inl e ↦ absurd (ground (arith, e, h))
  | inr (entry, e) ↦ (entry, e)
]

List-cases : (xs : List ℕ) → (xs ≡ []) ⊎ ((x : ℕ) × (rest : List ℕ) × (xs ≡ x ∷ rest))
List-cases [] = inl refl
List-cases (x ∷ rest) = inr (x, rest, refl)

remove_entry-found :
    (id : ℕ) (e : LogEntry) (s : Store)
    → Map.get id s.entries ≡ some e
    → remove_entry id s ≡ remove_found id e s
unfolding remove_entry
remove_entry-found id e s h = rw (h, remove_entry) refl

-- The loop evicts from the front.
log_frames-trim_depth :
    (excess t : ℕ) (s : Store)
    → Within 0 s.counter (log_of t s.topic_logs)
    → log_frames t (trim_depth excess t s) ≡ drop excess (log_frames t s)
unfolding trim_depth log_ids
log_frames-trim_depth zero t s w = refl
log_frames-trim_depth (suc excess) t s w = elim (List-cases (log_frames t s)) [
  | inl e ↦
      let nothing = find_log-nothing s.entries (log_of t s.topic_logs) (unfold log_frames in e) in
      rw (nothing, trim_depth) (rw e refl)
  | inr (id, rest, e) ↦
      let frames : select (is_log_id s.entries) (log_of t s.topic_logs) ≡ id ∷ rest =
        unfold log_frames in e in
      let (entry, found) =
        stored_log id s.entries (first_is_log id rest s.entries (log_of t s.topic_logs) frames) in
      rw (find_log-first id rest s.entries (log_of t s.topic_logs) frames, trim_depth)
        (rw (remove_entry-found id entry s found) (
          log_frames-trim_depth excess t (remove_found id entry s)
            (remove_found-order t id entry s w)
          ∙ ap (λ z. drop excess z)
              (log_frames-remove_found t id entry s
                ∙ select-delete_first id 0 s.counter rest s.entries (log_of t s.topic_logs) w
                    frames)
          ∙ sym (ap (λ z. drop (suc excess) z) e)))
]

select-append : (q : ℕ → Bool) (xs ys : List ℕ) → select q (xs ++ ys) ≡ select q xs ++ select q ys
select-append q [] ys = refl
select-append q (x ∷ xs) ys = ground (arith, select-append q xs ys)

select-set_absent :
    (id : ℕ) (e : LogEntry) (entries : Map LogEntry) (ids : List ℕ)
    → has id ids ≡ false
    → select (is_log_id (Map.set id e entries)) ids ≡ select (is_log_id entries) ids
select-set_absent id e entries [] h = refl
select-set_absent id e entries (i ∷ ids) h = ground (
  arith,
  h,
  is_log_id-set i id e entries,
  ==_iff id i,
  ==_iff i id,
  select-set_absent id e entries ids,
)

-- A log publish puts its frame at the end.
log_frames-append :
    (now : ℕ) (p : PublishParams) (ds : List ℕ) (s : Store)
    → Within 0 s.counter (log_of p.topic_id s.topic_logs)
    → log_frames p.topic_id (append p log ds now (mint p log s))
      ≡ log_frames p.topic_id s ++ (s.counter + 1) ∷ []
unfolding log_frames log_ids append mint
log_frames-append now p ds s w =
    let id = s.counter + 1 in
    let entries = Map.set id entry s.entries in
    let ids = log_of p.topic_id s.topic_logs in
    let grown : log_of p.topic_id (push_id p.topic_id id s.topic_logs) ≡ ids ++ id ∷ [] =
      ground (arith, log_of-push_id p.topic_id p.topic_id id s.topic_logs, ==_refl p.topic_id) in
    let last : select (is_log_id entries) (id ∷ []) ≡ id ∷ [] =
      ground (arith, is_log_id-set id id entry s.entries, ==_refl id) in
    ap (λ z. select (is_log_id entries) z) grown
    ∙ select-append (is_log_id entries) ids (id ∷ [])
    ∙ ap (λ z. z ++ select (is_log_id entries) (id ∷ []))
        (select-set_absent id entry s.entries ids
          (has-Within-beyond id 0 s.counter ids (omega arith) w))
    ∙ ap (λ z. select (is_log_id s.entries) ids ++ z) last
  where
    entry : LogEntry
    entry = record {
      sequence_id = s.counter + 1;
      sender_did = p.sender_did;
      topic_id = p.topic_id;
      payload = p.payload;
      stored_at = now;
      retain = log;
      pending_for = ds;
    }

append-order :
    (now : ℕ) (p : PublishParams) (ds : List ℕ) (s : Store)
    → Within 0 s.counter (log_of p.topic_id s.topic_logs)
    → let s' = append p log ds now (mint p log s) in
      Within 0 s'.counter (log_of p.topic_id s'.topic_logs)
unfolding append mint
append-order now p ds s w =
    rw (log_of-push_id p.topic_id p.topic_id (s.counter + 1) s.topic_logs, ==_refl p.topic_id)
      (subst (λ n. Within 0 n (log_of p.topic_id s.topic_logs ++ n ∷ [])) (omega arith)
        (Within-push 0 s.counter (log_of p.topic_id s.topic_logs) (omega arith) w))

append-max_depth :
    (now : ℕ) (p : PublishParams) (ds : List ℕ) (s : Store)
    → (append p log ds now (mint p log s)).max_depth ≡ s.max_depth
unfolding append mint
append-max_depth now p ds s = refl

accept-log_frames :
    (now : ℕ) (p : PublishParams) (s : Store)
    → Within 0 s.counter (log_of p.topic_id s.topic_logs)
    → let grown = log_frames p.topic_id s ++ (s.counter + 1) ∷ [] in
      log_frames p.topic_id (accept p log now s) ≡ drop (length grown - s.max_depth) grown
unfolding accept store_frame bound_depth
accept-log_frames now p s w =
    let ds = recipients_of p.topic_id p.sender_did (mint p log s) in
    let s' = append p log ds now (mint p log s) in
    let frames = log_frames-append now p ds s w in
    log_frames-trim_depth (length (log_frames p.topic_id s') - s'.max_depth) p.topic_id s'
      (append-order now p ds s w)
    ∙ ap (λ z. drop (length z - s'.max_depth) z) frames
    ∙ ap
        (λ n.
          let grown = log_frames p.topic_id s ++ (s.counter + 1) ∷ [] in
          drop (length grown - n) grown)
        (append-max_depth now p ds s)

-- A log publish evicts the oldest frames. From any reachable state: after a log publish that is
-- accepted and not deduplicated, the topic's log frames are those it had, with the new one behind
-- them, less the first ones over `maxDepth`: the newest `maxDepth` frames stay, in publish order.
pub publish_evicts_oldest :
    (o : MemoryStoreOptions) (cs : List Call) (p : PublishParams) (now : ℕ) (r : PublishResult)
    → let s = reached o cs in
      let grown = log_frames p.topic_id s ++ r.sequence_id ∷ [] in
      p.retain ≡ some log
      → (publish p now s).0 ≡ ok r
      → r.deduped ≡ false
      → log_frames p.topic_id (publish p now s).1 ≡ drop (length grown - o.max_depth) grown
unfolding publish
publish_evicts_oldest o cs p now r class accepted fresh =
    let s = reached o cs in
    elim (Option-cases (accepted_as p.publish_id s)) [
      | inr (id, e) ↦ absurd (ground (arith, e))
      | inl e ↦ elim (Bool-cases (head_matches p.expected_head (Map.get p.topic_id s.heads))) [
        | inr m ↦ absurd (ground (arith, e, m))
        | inl m ↦
            let minted : r.sequence_id ≡ s.counter + 1 = ground (arith, e, m) in
            let bound = ap (λ (q : MemoryStoreOptions). q.max_depth) (reached-options o cs) in
            let evicted = accept-log_frames now p s (reached-InOrder p.topic_id 0 o cs).log_order in
            rw (e, m, class, minted, publish)
              (subst
                (λ n.
                  let grown = log_frames p.topic_id s ++ (s.counter + 1) ∷ [] in
                  log_frames p.topic_id (accept p log now s) ≡ drop (length grown - n) grown)
                bound evicted)
      ]
    ]
