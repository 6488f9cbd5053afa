-- ===== src/Rpc/Walk/Steps.antt =====
-- packages/rpc/src/peer.ts, `walkCommits`: one page of a walk, and what stands on both sides of it.
use kumiai.HubServer.MemoryStore.Read.{fetch_topic, FetchTopicResult}
use kumiai.Rpc.Walk.Pages.{page_of, positions, last_from}
use kumiai.Rpc.Classify.Lane.{LaneFrame}
use kumiai.Rpc.Walk.{
  read_page, page_params, walk_commits, is_past, is_forward_page, commit_fetch_limit, page_gap,
  drained, more, settle_message, take_head, ended, walk_messages, walk_page, stopped, WalkEnd,
  PageEnd, is_empty, WalkState,
}
use kumiai.HubServer.MemoryStore.{ok, Store, StoredMessage}
use kumiai.Shared.{
  take, drop, ◌∙◌, ℕ, zero, suc, ◌-◌, ◌≤◌, ◌<◌, ◌≡◌, refl, sym, ap, inl, inr, Bool, true, false,
  ◌&&◌, Option, some, List, [], ◌∷◌, ◌++◌, or_default, is_some, arith, length, Bool-cases,
}

-- The cursor that a run of messages leaves.
abbrev pub last_position : Option ℕ → List StoredMessage → Option ℕ
last_position after [] = after
last_position after (m ∷ ms) = last_position (some m.sequence_id) ms

last_position-last_from :
    (lo : ℕ) (ms : List StoredMessage)
    → last_position (some lo) ms ≡ some (last_from lo (positions ms))
last_position-last_from lo [] = refl
last_position-last_from lo (m ∷ ms) = last_position-last_from m.sequence_id ms

pub last_position_page :
    (after : Option ℕ) (ms : List StoredMessage)
    → is_empty ms ≡ false
    → last_position after ms ≡ some (last_from (or_default after 0) (positions ms))
last_position_page after [] h = absurd (cc h)
last_position_page after (m ∷ ms) h = last_position-last_from m.sequence_id ms

pub take_short : (k : ℕ) (ms : List StoredMessage) → length ms < k → take k ms ≡ ms
take_short zero ms h = absurd (omega arith)
take_short (suc k) [] h = refl
take_short (suc k) (m ∷ ms) h = ap (λ z. m ∷ z) (take_short k ms (omega arith))

take-drop : (k : ℕ) (ms : List StoredMessage) → take k ms ++ drop k ms ≡ ms
take-drop zero ms = refl
take-drop (suc k) [] = refl
take-drop (suc k) (m ∷ ms) = ap (λ z. m ∷ z) (take-drop k ms)

pub length-take_full : (k : ℕ) (ms : List StoredMessage) → k ≤ length ms → length (take k ms) ≡ k
length-take_full zero ms h = refl
length-take_full (suc k) [] h = omega arith
length-take_full (suc k) (m ∷ ms) h = ap (λ z. suc z) (length-take_full k ms (omega arith))

pub length-drop : (k : ℕ) (ms : List StoredMessage) → length (drop k ms) ≡ length ms - k
length-drop zero ms = omega arith
length-drop (suc k) [] = omega arith
length-drop (suc k) (m ∷ ms) = omega (arith, length-drop k ms)

-- The walk over the whole log at once, with the store's head.
abbrev pub read_out : Option ℕ → WalkState × Bool → WalkState × WalkEnd
read_out head (w, false) = (w, stopped)
read_out head (w, true) = (take_head head w, drained)

abbrev after_page : Option ℕ → WalkState × Bool → WalkState × PageEnd
after_page head (w, false) = (w, ended stopped)
after_page head (w, true) = (take_head head w, ended drained)

abbrev after_full_page : WalkState × Bool → WalkState × PageEnd
after_full_page (w, false) = (w, ended stopped)
after_full_page (w, true) = (w, more)

abbrev continue_with : (WalkState → WalkState × Bool) → WalkState × Bool → WalkState × Bool
continue_with f (w, false) = (w, false)
continue_with f (w, true) = f w

pub some_limit : 0 < commit_fetch_limit
unfolding commit_fetch_limit
some_limit = omega arith

pub full_page_not_empty :
    (ms : List StoredMessage) → length ms ≡ commit_fetch_limit → is_empty ms ≡ false
unfolding commit_fetch_limit
full_page_not_empty [] h = absurd (omega arith)
full_page_not_empty (m ∷ ms) h = refl

module _ (frame_of : StoredMessage → LaneFrame) where
  walk_messages-append :
      (xs ys : List StoredMessage) (w : WalkState)
      → walk_messages frame_of (xs ++ ys) w
        ≡ continue_with (λ v. walk_messages frame_of ys v) (walk_messages frame_of xs w)
  unfolding walk_messages
  walk_messages-append [] ys w = refl
  walk_messages-append (m ∷ xs) ys w = elim (Bool-cases (settle_message frame_of m w).1) [
    | inl e ↦ rw e (walk_messages-append xs ys _)
    | inr e ↦ rw e refl
  ]

  pub walk_messages-cursor :
      (ms : List StoredMessage) (w : WalkState)
      → (walk_messages frame_of ms w).1 ≡ true
      → (walk_messages frame_of ms w).0.reconciled_head ≡ last_position w.reconciled_head ms
  unfolding walk_messages
  walk_messages-cursor [] w h = refl
  walk_messages-cursor (m ∷ ms) w h = elim (Bool-cases (settle_message frame_of m w).1) [
    | inl e ↦ rw e (walk_messages-cursor ms _ (rw (walk_messages, e) at h))
    | inr e ↦ absurd (cc (rw (walk_messages, e) at h))
  ]

  pub walk_page_short :
      (ms : List StoredMessage) (head oldest : Option ℕ) (w : WalkState)
      → (is_some w.reconciled_head && (is_empty ms && is_past head w.reconciled_head)) ≡ false
      → length ms < commit_fetch_limit
      → walk_page frame_of (page_of ms head oldest) w
        ≡ after_page head (walk_messages frame_of ms w)
  unfolding walk_page page_gap commit_fetch_limit
  walk_page_short [] head oldest w past short = unfold walk_messages in ground (arith, past, short)
  walk_page_short (m ∷ ms) head oldest w past short =
      elim (Bool-cases (walk_messages frame_of (m ∷ ms) w).1) [
        | inl e ↦ ground (arith, past, short, e)
        | inr e ↦ ground (arith, past, short, e)
      ]

  walk_page_full :
      (m : StoredMessage) (ms : List StoredMessage) (head oldest : Option ℕ) (w : WalkState)
      → length (m ∷ ms) ≡ commit_fetch_limit
      → is_forward_page w.reconciled_head (m ∷ ms) ≡ true
      → walk_page frame_of (page_of (m ∷ ms) head oldest) w
        ≡ after_full_page (walk_messages frame_of (m ∷ ms) w)
  unfolding walk_page page_gap
  walk_page_full m ms head oldest w full forward =
      elim (Bool-cases (walk_messages frame_of (m ∷ ms) w).1) [
        | inl e ↦ ground (arith, full, forward, e)
        | inr e ↦ ground (arith, full, forward, e)
      ]

  -- What stands on both sides of a page.
  pub page_joins :
      (k : ℕ) (ms : List StoredMessage) (w : WalkState)
      → walk_messages frame_of ms w
        ≡ continue_with
            (λ v. walk_messages frame_of (drop k ms) v)
            (walk_messages frame_of (take k ms) w)
  page_joins k ms w =
      ap (λ z. walk_messages frame_of z w) (sym (take-drop k ms))
      ∙ walk_messages-append (take k ms) (drop k ms) w

  pub walk_page_full_page :
      (ms : List StoredMessage) (head oldest : Option ℕ) (w : WalkState)
      → is_empty ms ≡ false
      → length ms ≡ commit_fetch_limit
      → is_forward_page w.reconciled_head ms ≡ true
      → walk_page frame_of (page_of ms head oldest) w
        ≡ after_full_page (walk_messages frame_of ms w)
  walk_page_full_page [] head oldest w e full forward = absurd (cc e)
  walk_page_full_page (m ∷ ms) head oldest w e full forward =
      walk_page_full m ms head oldest w full forward

  module _ (did topic : ℕ) (s : Store) where
    abbrev pub next_page : ℕ → WalkState × PageEnd → WalkState × WalkEnd
    next_page pages (w, more) = walk_commits frame_of pages did topic s w
    next_page pages (w, ended e) = (w, e)

    pub walk_first_page :
        (pages : ℕ) (w : WalkState)
        → walk_commits frame_of (suc pages) did topic s w
          ≡ next_page pages
              (read_page frame_of (fetch_topic (page_params frame_of did topic w) s) w)
    unfolding walk_commits
    walk_first_page pages w = refl

    pub walk_step :
        (pages : ℕ) (r : FetchTopicResult) (w : WalkState) (q : WalkState × PageEnd)
        → fetch_topic (page_params frame_of did topic w) s ≡ ok r
        → walk_page frame_of r w ≡ q
        → walk_commits frame_of (suc pages) did topic s w ≡ next_page pages q
    walk_step pages r w q e f =
        walk_first_page pages w
        ∙ ap (λ z. next_page pages z) (ap (λ o. read_page frame_of o w) e ∙ f)

  pub short_page_ends :
      (did topic pages : ℕ) (s : Store) (head : Option ℕ) (x : WalkState × Bool)
      → next_page did topic s pages (after_page head x) ≡ read_out head x
  short_page_ends did topic pages s head (w, false) = refl
  short_page_ends did topic pages s head (w, true) = refl

  pub full_page_goes_on :
      (did topic pages : ℕ) (s : Store) (head : Option ℕ) (f : WalkState → WalkState × Bool)
      (x : WalkState × Bool)
      → (x.1 ≡ true → walk_commits frame_of pages did topic s x.0 ≡ read_out head (f x.0))
      → next_page did topic s pages (after_full_page x) ≡ read_out head (continue_with f x)
  full_page_goes_on did topic pages s head f (w, false) h = refl
  full_page_goes_on did topic pages s head f (w, true) h = h refl
