-- ===== src/HubServer/MemoryStore/Heads.antt =====
-- packages/hub-server/src/memoryStore.ts: the compare-and-swap on a topic's head, over whole
-- histories.
use kumiai.HubServer.MemoryStore.CallInduction.{publish_cases}
use kumiai.HubServer.MemoryStore.Replay.{accept-register, step-SameRegister}
use kumiai.HubServer.MemoryStore.History.{run_induction, run, publishes, Call, step}
use kumiai.Shared.{
  ℕ, ◌+◌, ◌≤◌, ◌<◌, ◌≡◌, refl, false, Option, none, some, List, ◌==◌, if◌then◌else◌, arith,
  or_default,
}
use kumiai.Shared.Map
use kumiai.Shared.Map.{Map, get-set}
use kumiai.HubServer.MemoryStore.{
  RetentionClass, log, mailbox, is_log, Store, ok, err, head_mismatch, MemoryStoreOptions,
  create_memory_store,
}
use kumiai.HubServer.MemoryStore.Publish.{
  PublishParams, PublishResult, publish, accept, accepted_as, head_matches,
}

abbrev HeadAtLeast : ℕ → ℕ → Store → Type 0
HeadAtLeast t n s = (h : ℕ) × (Map.get t s.heads ≡ some h) × (n ≤ h) × (n ≤ s.counter)

accept-HeadAtLeast :
    (t n now : ℕ) (p : PublishParams) (r : RetentionClass) (s : Store)
    → HeadAtLeast t n s
    → HeadAtLeast t n (accept p r now s)
accept-HeadAtLeast t n now p r s (h, e, le, le') =
    let (c, hs, _) = accept-register p r now s in
    (
      if is_log r then (if p.topic_id == t then s.counter + 1 else h) else h,
      ground (arith, hs, get-set t p.topic_id (s.counter + 1) s.heads),
      ground arith,
      ground (arith, c),
    )

publish-HeadAtLeast :
    (t n now : ℕ) (p : PublishParams) (s : Store)
    → HeadAtLeast t n s
    → HeadAtLeast t n (publish p now s).1
publish-HeadAtLeast t n now p s h =
    publish_cases (λ q. HeadAtLeast t n q.1) p now s (λ _ _. h) (λ _. h)
      (λ _ _. accept-HeadAtLeast t n now p _ s h)

step-HeadAtLeast : (t n : ℕ) (s : Store) (c : Call) → HeadAtLeast t n s → HeadAtLeast t n (step s c)
step-HeadAtLeast t n s (publishes p now) h = unfold step in publish-HeadAtLeast t n now p s h
step-HeadAtLeast t n s c h =
    let same = step-SameRegister s c (λ e. e) in
    (h.0, rw (same.same_heads) h.1, h.2, rw (same.same_counter) h.3)

-- No head names a sequence ID that is not minted.
abbrev pub HeadsMinted : Store → Type 0
HeadsMinted s = (t h : ℕ) → Map.get t s.heads ≡ some h → h ≤ s.counter

accept-HeadsMinted :
    (now : ℕ) (p : PublishParams) (r : RetentionClass) (s : Store)
    → HeadsMinted s
    → HeadsMinted (accept p r now s)
accept-HeadsMinted now p r s m t h e =
    let (c, hs, _) = accept-register p r now s in
    rw c (ground (arith, get-set t p.topic_id (s.counter + 1) s.heads, m t h, hs, e))

step-HeadsMinted : (s : Store) (c : Call) → HeadsMinted s → HeadsMinted (step s c)
step-HeadsMinted s (publishes p now) m =
    unfold step in
    publish_cases (λ q. HeadsMinted q.1) p now s (λ _ _. m) (λ _. m)
      (λ _ _. accept-HeadsMinted now p _ s m)
step-HeadsMinted s c m =
    let same = step-SameRegister s c (λ e. e) in
    λ t h e. rw (same.same_counter) (m t h (rw (same.same_heads) at e))

publish-HeadAtLeast_own :
    (s : Store) (p : PublishParams) (now : ℕ) (r : PublishResult)
    → p.retain ≡ some log
    → (publish p now s).0 ≡ ok r
    → r.deduped ≡ false
    → HeadAtLeast p.topic_id (s.counter + 1) (publish p now s).1
publish-HeadAtLeast_own s p now r class =
    publish_cases (λ q. q.0 ≡ ok r → r.deduped ≡ false → HeadAtLeast p.topic_id (s.counter + 1) q.1)
      p now s (λ id f h d. absurd (ground (arith, h, d))) (λ _ h d. cc)
      (λ f m h d.
        let (c, hs, _) = accept-register p (or_default p.retain mailbox) now s in
        (
          s.counter + 1,
          ground (arith, hs, class, get-set p.topic_id p.topic_id (s.counter + 1) s.heads),
          omega arith,
          omega (arith, c),
        ))

-- The head that an accepted conditional publish expected is at most the counter.
expected_head-le :
    (s : Store) (p : PublishParams) (now : ℕ) (r : PublishResult) (e : Option ℕ)
    → HeadsMinted s
    → p.expected_head ≡ some e
    → (publish p now s).0 ≡ ok r
    → r.deduped ≡ false
    → (h : ℕ) → e ≡ some h
    → h ≤ s.counter
unfolding head_matches
expected_head-le s p now r e m x =
    publish_cases (λ q. q.0 ≡ ok r → r.deduped ≡ false → (h : ℕ) → e ≡ some h → h ≤ s.counter) p now
      s (λ id f h d. absurd (ground (arith, h, d))) (λ _ h d. cc)
      (λ f k h d i y. ground (arith, x, y, k, m p.topic_id i))

stale_publish_refused :
    (s : Store) (p : PublishParams) (now n : ℕ) (e : Option ℕ)
    → p.expected_head ≡ some e
    → accepted_as p.publish_id s ≡ none
    → HeadAtLeast p.topic_id n s
    → ((h : ℕ) → e ≡ some h → h < n)
    → publish p now s ≡ (err head_mismatch, s)
unfolding publish head_matches
stale_publish_refused s p now n none x f (h, g, le, _) low = rw (f, publish, x, g) refl
stale_publish_refused s p now n (some e) x f (h, g, le, _) low =
    rw (f, publish, x, g) (ground (arith, low e refl))

run-HeadsMinted :
    (o : MemoryStoreOptions) (cs : List Call) → HeadsMinted (run (create_memory_store o) cs)
run-HeadsMinted o cs =
    run_induction HeadsMinted step-HeadsMinted _ cs
      (unfold create_memory_store in λ t h e. absurd (cc (e, Map.get-empty {V = ℕ} t)))

-- From a new store and after any calls: once a conditional log publish is accepted, and not
-- deduplicated, every later publish on that topic that expects the same head, and whose publish ID
-- the store has not accepted, is refused with a head mismatch and changes nothing, whatever calls
-- stand between the two.
pub only_one_winner :
    (o : MemoryStoreOptions) (before between : List Call) (p p' : PublishParams) (now now' : ℕ)
    (r : PublishResult) (e : Option ℕ)
    → let s = run (create_memory_store o) before in
      let s' = run (publish p now s).1 between in
      p.retain ≡ some log
      → p.expected_head ≡ some e
      → p'.expected_head ≡ some e
      → p'.topic_id ≡ p.topic_id
      → (publish p now s).0 ≡ ok r
      → r.deduped ≡ false
      → accepted_as p'.publish_id s' ≡ none
      → publish p' now' s' ≡ (err head_mismatch, s')
only_one_winner o before between p p' now now' r e class x x' topic ok_p fresh unseen =
    stale_publish_refused _ p' now' (s.counter + 1) e x' unseen
      (rw topic (
        run_induction (HeadAtLeast p.topic_id (s.counter + 1))
          (step-HeadAtLeast p.topic_id (s.counter + 1)) _ between
          (publish-HeadAtLeast_own s p now r class ok_p fresh)))
      (λ h y. omega (arith, expected_head-le s p now r e minted x ok_p fresh h y))
  where
    s : Store
    s = run (create_memory_store o) before

    minted : HeadsMinted s
    minted = run-HeadsMinted o before
