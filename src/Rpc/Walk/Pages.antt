-- ===== src/Rpc/Walk/Pages.antt =====
-- packages/rpc/src/peer.ts, `walkCommits`: the pages that the store cuts a topic's log into.
use kumiai.HubServer.MemoryStore.LogHeads.{IsNamed}
use kumiai.Rpc.Walk.{is_forward_page}
use kumiai.HubServer.MemoryStore.Publish.{log_ids, log_frames}
use kumiai.HubServer.MemoryStore.Read.{FetchTopicResult, messages_of, beyond}
use kumiai.Shared.Ascending.{Within}
use kumiai.Shared.{
  take, drop, select, ℕ, zero, suc, ◌≤◌, ◌<◌, ◌≡◌, refl, sym, ap, inl, inr, Bool, true, false,
  Option, none, some, List, [], ◌∷◌, ltb, or_default, arith, All, Bool-cases, Option-cases,
}
use kumiai.Shared.Map
use kumiai.Shared.Map.{Map, get-set, get-delete, get-empty}
use kumiai.HubServer.MemoryStore.{as_stored_message, LogEntry, Store, StoredMessage, is_log_id}

abbrev pub positions : List StoredMessage → List ℕ
positions [] = []
positions (m ∷ ms) = m.sequence_id ∷ positions ms

-- The last number, `lo` of none.
abbrev pub last_from : ℕ → List ℕ → ℕ
last_from lo [] = lo
last_from lo (x ∷ xs) = last_from x xs

pub last_from-le : (lo n : ℕ) (k : ℕ) (xs : List ℕ) → Within lo n xs → lo ≤ last_from lo (take k xs)
last_from-le lo n zero xs w = omega arith
last_from-le lo n (suc k) [] w = omega arith
last_from-le lo n (suc k) (x ∷ xs) (a, b, w) = omega (arith, last_from-le x n k xs w)

select_all_above :
    (a lo n : ℕ) (xs : List ℕ) → a ≤ lo → Within lo n xs → select (λ id. ltb a id) xs ≡ xs
select_all_above a lo n [] h w = refl
select_all_above a lo n (x ∷ xs) h (p, q, w) =
    ground (arith, select_all_above a x n xs (omega arith) w)

-- Behind the last ID of a page stands what the page left.
pub select_past_page :
    (k lo n : ℕ) (xs : List ℕ)
    → Within lo n xs
    → select (λ id. ltb (last_from lo (take k xs)) id) xs ≡ drop k xs
select_past_page zero lo n xs w = select_all_above lo lo n xs (omega arith) w
select_past_page (suc k) lo n [] w = refl
select_past_page (suc k) lo n (x ∷ xs) (a, b, w) =
    ground (arith, select_past_page k x n xs w, last_from-le x n k xs w)

pub select-select :
    (c a : ℕ) (xs : List ℕ)
    → c ≤ a
    → select (λ id. ltb a id) (select (λ id. ltb c id) xs) ≡ select (λ id. ltb a id) xs
select-select c a [] h = refl
select-select c a (x ∷ xs) h = ground (arith, select-select c a xs h)

pub Within-select_above :
    (a lo n : ℕ) (xs : List ℕ) → Within lo n xs → Within a n (select (λ id. ltb a id) xs)
Within-select_above a lo n [] w = tt
Within-select_above a lo n (x ∷ xs) (p, q, w) = elim (Bool-cases (ltb a x)) [
  | inl e ↦ rw e (ground (arith, e), q, Within-select_above_kept a x n xs w (ground (arith, e)))
  | inr e ↦ rw e (Within-select_above a x n xs w)
]
  where
    Within-select_above_kept :
        (a lo n : ℕ) (xs : List ℕ)
        → Within lo n xs
        → a < lo
        → Within lo n (select (λ id. ltb a id) xs)
    Within-select_above_kept a lo n xs w h = rw (select_all_above a lo n xs (omega arith) w) w

-- What a cursor is past is what its number is past: the numbers of a log are positive.
pub beyond-select :
    (after : Option ℕ) (n : ℕ) (xs : List ℕ)
    → Within 0 n xs
    → beyond after xs ≡ select (λ id. ltb (or_default after 0) id) xs
unfolding beyond
beyond-select none n xs w = sym (select_all_above 0 0 n xs (omega arith) w)
beyond-select (some a) n xs w = refl

-- Every ID names a frame that is stored under it.
abbrev pub AllStored : Map LogEntry → List ℕ → Type 0
AllStored entries ids =
    All (λ id. (e : LogEntry) × (Map.get id entries ≡ some e) × (e.sequence_id ≡ id)) ids

pub AllStored-select :
    (p : ℕ → Bool) (entries : Map LogEntry) (ids : List ℕ)
    → AllStored entries ids
    → AllStored entries (select p ids)
AllStored-select p entries [] h = tt
AllStored-select p entries (id ∷ ids) (h, k) = elim (Bool-cases (p id)) [
  | inl e ↦ rw e (h, AllStored-select p entries ids k)
  | inr e ↦ rw e (AllStored-select p entries ids k)
]

AllStored-log_ids :
    (s : Store) (ids : List ℕ) → IsNamed s → AllStored s.entries (select (is_log_id s.entries) ids)
AllStored-log_ids s [] named = tt
AllStored-log_ids s (id ∷ ids) named = elim (Option-cases (Map.get id s.entries)) [
  | inl e ↦ rw (unlogged s.entries id e) (AllStored-log_ids s ids named)
  | inr (f, e) ↦ elim (Bool-cases (is_log_id s.entries id)) [
    | inl b ↦ rw b ((f, e, named id f e), AllStored-log_ids s ids named)
    | inr b ↦ rw b (AllStored-log_ids s ids named)
  ]
]
  where
    unlogged :
        (entries : Map LogEntry) (id : ℕ) → Map.get id entries ≡ none → is_log_id entries id ≡ false
    unlogged entries id e = unfold is_log_id in ground (arith, e)

pub AllStored-log_frames : (t : ℕ) (s : Store) → IsNamed s → AllStored s.entries (log_frames t s)
unfolding log_frames
AllStored-log_frames t s named = AllStored-log_ids s (log_ids t s) named

messages_of-cons :
    (entries : Map LogEntry) (id : ℕ) (ids : List ℕ) (f : LogEntry)
    → Map.get id entries ≡ some f
    → messages_of entries (id ∷ ids) ≡ as_stored_message f ∷ messages_of entries ids
unfolding messages_of
messages_of-cons entries id ids f e = ground (arith, e)

pub positions-messages_of :
    (entries : Map LogEntry) (ids : List ℕ)
    → AllStored entries ids
    → positions (messages_of entries ids) ≡ ids
unfolding as_stored_message
positions-messages_of entries [] h = unfold messages_of in refl
positions-messages_of entries (id ∷ ids) ((f, e, n), h) =
    rw (messages_of-cons entries id ids f e)
      (ground (arith, n, positions-messages_of entries ids h))

pub messages_of-take :
    (k : ℕ) (entries : Map LogEntry) (ids : List ℕ)
    → AllStored entries ids
    → messages_of entries (take k ids) ≡ take k (messages_of entries ids)
messages_of-take zero entries ids h = unfold messages_of in refl
messages_of-take (suc k) entries [] h = unfold messages_of in refl
messages_of-take (suc k) entries (id ∷ ids) ((f, e, n), h) =
    rw (messages_of-cons entries id ids f e, messages_of-cons entries id (take k ids) f e)
      (ap (λ z. as_stored_message f ∷ z) (messages_of-take k entries ids h))

pub messages_of-drop :
    (k : ℕ) (entries : Map LogEntry) (ids : List ℕ)
    → AllStored entries ids
    → messages_of entries (drop k ids) ≡ drop k (messages_of entries ids)
messages_of-drop zero entries ids h = refl
messages_of-drop (suc k) entries [] h = unfold messages_of in refl
messages_of-drop (suc k) entries (id ∷ ids) ((f, e, n), h) =
    rw (messages_of-cons entries id ids f e) (messages_of-drop k entries ids h)

pub positions-take :
    (k : ℕ) (ms : List StoredMessage) → positions (take k ms) ≡ take k (positions ms)
positions-take zero ms = refl
positions-take (suc k) [] = refl
positions-take (suc k) (m ∷ ms) = ap (λ z. m.sequence_id ∷ z) (positions-take k ms)

-- A page of the log is in order.
pub Within-is_forward_page :
    (after : Option ℕ) (n : ℕ) (ms : List StoredMessage)
    → Within (or_default after 0) n (positions ms)
    → is_forward_page after ms ≡ true
unfolding is_forward_page
Within-is_forward_page after n [] w = refl
Within-is_forward_page none n (m ∷ ms) (a, b, w) =
    Within-is_forward_page (some m.sequence_id) n ms w
Within-is_forward_page (some p) n (m ∷ ms) (a, b, w) =
    ground (arith, Within-is_forward_page (some m.sequence_id) n ms w)

pub Within-take : (k lo n : ℕ) (xs : List ℕ) → Within lo n xs → Within lo n (take k xs)
Within-take zero lo n xs w = tt
Within-take (suc k) lo n [] w = tt
Within-take (suc k) lo n (x ∷ xs) (a, b, w) = (a, b, Within-take k x n xs w)

-- A page that the hub flags no gap on.
abbrev pub page_of : List StoredMessage → Option ℕ → Option ℕ → FetchTopicResult
page_of ms head oldest = record { messages = ms; head = head; oldest = oldest; gap = false }
