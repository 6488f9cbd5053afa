-- ===== src/Rpc/Walk/Behind.antt =====
-- packages/hub-server/src/memoryStore.ts: what a topic's log holds behind a cursor, page by page, in
-- a store that a history of calls has reached.
use kumiai.HubServer.MemoryStore.LogReaders.{has-select}
use kumiai.HubServer.MemoryStore.Pages.{reached-InOrder, reached}
use kumiai.HubServer.MemoryStore.Accounting.{Accounted, is_kept, is_passed, log_of}
use kumiai.HubServer.MemoryStore.Read.{
  first, is_subscribed, beyond, limited, messages_of, fetch_topic, has_gap,
}
use kumiai.Rpc.Walk.{is_past, is_empty, is_forward_page}
use kumiai.Rpc.Walk.Pages.{
  select-select, select_past_page, messages_of-drop, messages_of-take, page_of,
  AllStored-log_frames, Within-select_above, AllStored-select, Within-take, positions-messages_of,
  beyond-select, last_from-le, Within-is_forward_page, positions, last_from, AllStored,
  positions-take,
}
use kumiai.Shared.Ascending.{Within-select, Within}
use kumiai.HubServer.MemoryStore.Publish.{log_ids, log_frames}
use kumiai.HubServer.MemoryStore.History.{Call}
use kumiai.HubServer.MemoryStore.LogHeads.{
  reached-HeadAccounted, reached-IsNamed, HeadAccounted, IsNamed,
}
use kumiai.HubServer.MemoryStore.{is_log_id, ok, StoredMessage, Store, MemoryStoreOptions}
use kumiai.Shared.{
  subst, take, drop, select, ◌∙◌, ℕ, ◌≤◌, ◌≡◌, refl, sym, ap, inl, inr, true, false, ◌&&◌, Option,
  none, some, List, [], ◌∷◌, ltb, or_default, is_some, arith, Bool-cases, Option-cases, has,
}
use kumiai.Shared.Map
use kumiai.Shared.Map.{Map, get-set, get-delete, get-empty}

-- The frames of the topic's log past the cursor.
abbrev pub behind : ℕ → Store → Option ℕ → List StoredMessage
behind topic s after = messages_of s.entries (beyond after (log_frames topic s))

-- What the histories of a store keep, of one topic.
pub record IsReadable (topic : ℕ) (s : Store) : Type 0 where
  pub named : IsNamed s
  pub ordered : Within 0 s.counter (log_of topic s.topic_logs)
  pub heads_kept : HeadAccounted topic s

pub reached-IsReadable :
    (topic : ℕ) (o : MemoryStoreOptions) (cs : List Call) → IsReadable topic (reached o cs)
reached-IsReadable topic o cs = record {
  named = reached-IsNamed o cs;
  ordered = (reached-InOrder topic 0 o cs).log_order;
  heads_kept = reached-HeadAccounted topic o cs;
}

empty-positions : (ms : List StoredMessage) → is_empty ms ≡ true → positions ms ≡ []
empty-positions [] e = refl
empty-positions (m ∷ ms) e = absurd (cc e)

module _ (topic : ℕ) (s : Store) (readable : IsReadable topic s) where
  log_frames-Within : Within 0 s.counter (log_frames topic s)
  unfolding log_frames log_ids
  log_frames-Within = Within-select 0 s.counter (is_log_id s.entries) _ readable.ordered

  beyond-Within :
      (after : Option ℕ) → Within (or_default after 0) s.counter (beyond after (log_frames topic s))
  beyond-Within after =
      rw (beyond-select after s.counter (log_frames topic s) log_frames-Within) (
        Within-select_above (or_default after 0) 0 s.counter (log_frames topic s) log_frames-Within)

  beyond-AllStored : (after : Option ℕ) → AllStored s.entries (beyond after (log_frames topic s))
  beyond-AllStored after =
      rw (beyond-select after s.counter (log_frames topic s) log_frames-Within) (
        AllStored-select (λ id. ltb (or_default after 0) id) s.entries (log_frames topic s)
          (AllStored-log_frames topic s readable.named))

  behind-positions :
      (after : Option ℕ) → positions (behind topic s after) ≡ beyond after (log_frames topic s)
  behind-positions after = positions-messages_of s.entries _ (beyond-AllStored after)

  pub page-forward :
      (k : ℕ) (after : Option ℕ) → is_forward_page after (take k (behind topic s after)) ≡ true
  page-forward k after = Within-is_forward_page after s.counter (take k (behind topic s after)) (
      rw (positions-take k (behind topic s after), behind-positions after)
        (Within-take k (or_default after 0) s.counter _ (beyond-Within after)))

  -- The hub's answer to the walk.
  pub fetched_page :
      (did k : ℕ) (after : Option ℕ)
      → is_subscribed did topic s ≡ true
      → has_gap (Map.get topic s.removed_through) after ≡ false
      → (oldest : Option ℕ) × (fetch_topic
            (record { subscriber_did = did; topic_id = topic; after = after; limit = some k })
            s
          ≡ ok (page_of (take k (behind topic s after)) (Map.get topic s.heads) oldest))
  unfolding fetch_topic limited
  fetched_page did k after subscribed gap = (
    first (log_frames topic s),
    rw
        (
          subscribed,
          gap,
          messages_of-take k s.entries (beyond after (log_frames topic s)) (beyond-AllStored after),
        )
        refl,
  )

  abbrev pub last_in_page : ℕ → Option ℕ → ℕ
  last_in_page k after = last_from (or_default after 0) (positions (take k (behind topic s after)))

  last_in_page-le : (k : ℕ) (after : Option ℕ) → or_default after 0 ≤ last_in_page k after
  last_in_page-le k after =
      rw (positions-take k (behind topic s after), behind-positions after)
        (last_from-le (or_default after 0) s.counter k _ (beyond-Within after))

  last_in_page-ids :
      (k : ℕ) (after : Option ℕ)
      → last_in_page k after
        ≡ last_from (or_default after 0) (take k (beyond after (log_frames topic s)))
  last_in_page-ids k after =
      rw (positions-take k (behind topic s after), behind-positions after) refl

  beyond_page :
      (k : ℕ) (after : Option ℕ)
      → beyond (some (last_in_page k after)) (log_frames topic s)
        ≡ drop k (beyond after (log_frames topic s))
  unfolding beyond
  beyond_page k after =
      let log = log_frames topic s in
      let start = or_default after 0 in
      let last = last_in_page k after in
      let past = beyond-select after s.counter log log_frames-Within in
      let rest : select (λ id. ltb last id) (beyond after log) ≡ drop k (beyond after log) =
        rw (last_in_page-ids k after)
          (select_past_page k start s.counter (beyond after log) (beyond-Within after)) in
      sym (select-select start last log (last_in_page-le k after))
      ∙ (ap (λ z. select (λ id. ltb last id) z) (sym past) ∙ rest)

  -- Behind a page's last frame stands what the page left.
  pub behind_page :
      (k : ℕ) (after : Option ℕ)
      → behind topic s (some (last_in_page k after)) ≡ drop k (behind topic s after)
  behind_page k after =
      ap (λ z. messages_of s.entries z) (beyond_page k after)
      ∙ messages_of-drop k s.entries (beyond after (log_frames topic s)) (beyond-AllStored after)

  pub gap_behind_page :
      (k : ℕ) (after : Option ℕ)
      → has_gap (Map.get topic s.removed_through) after ≡ false
      → has_gap (Map.get topic s.removed_through) (some (last_in_page k after)) ≡ false
  unfolding has_gap
  gap_behind_page k none h = ground (arith, h)
  gap_behind_page k (some a) h = ground (arith, h, last_in_page-le k (some a))

  kept_is_beyond :
      (a h : ℕ)
      → ltb a h ≡ true
      → is_kept topic h s ≡ true
      → has h (beyond (some a) (log_frames topic s)) ≡ true
  unfolding is_kept log_frames is_log_id beyond
  kept_is_beyond a h past kept = ground (
    arith,
    past,
    kept,
    has-select (λ id. ltb a id) h (log_frames topic s),
    has-select (is_log_id s.entries) h (log_ids topic s),
  )

  nothing_behind :
      (after : Option ℕ)
      → is_empty (behind topic s after) ≡ true
      → beyond after (log_frames topic s) ≡ []
  nothing_behind after e = sym (behind-positions after) ∙ empty-positions (behind topic s after) e

  head_is_served :
      (a head : ℕ)
      → has_gap (Map.get topic s.removed_through) (some a) ≡ false
      → ltb a head ≡ true
      → is_empty (behind topic s (some a)) ≡ true
      → ¬ Accounted topic head s
  unfolding has_gap is_passed
  head_is_served a head h past e c = elim (Bool-cases (is_kept topic head s)) [
    | inl kept ↦ absurd (
        cc (
          subst (λ z. has head z ≡ true) (nothing_behind (some a) e)
            (kept_is_beyond a head past kept)))
    | inr lost ↦ absurd (ground (arith, h, past, lost, c.accounted))
  ]

  -- An empty page never shows a head behind the cursor that no gap told of.
  pub empty_page_at_head :
      (after : Option ℕ)
      → has_gap (Map.get topic s.removed_through) after ≡ false
      → (is_some after
          && (is_empty (behind topic s after) && is_past (Map.get topic s.heads) after))
        ≡ false
  empty_page_at_head none h = refl
  empty_page_at_head (some a) h = elim (Bool-cases (is_empty (behind topic s (some a)))) [
    | inr e ↦ rw e refl
    | inl e ↦ elim (Option-cases (Map.get topic s.heads)) [
      | inl n ↦ rw (e, n) refl
      | inr (head, n) ↦ elim (Bool-cases (ltb a head)) [
        | inr past ↦ rw (e, n) past
        | inl past ↦ absurd (head_is_served a head h past e (readable.heads_kept head n))
      ]
    ]
  ]
