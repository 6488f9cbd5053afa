-- ===== src/Rpc/Outbox/Fence.antt =====
-- packages/rpc/src/app-outbox.ts: nothing below the unresolved fence is in flight, or will be.
use kumiai.Shared.{
  subst, without, ℕ, ◌+◌, ◌≤◌, ◌<◌, ◌≡◌, refl, sym, inl, inr, Bool, true, false, some, List, [],
  ◌∷◌, ◌++◌, if◌then◌else◌, arith, All, Bool-cases, ==_refl, max, has, add,
}
use kumiai.Shared.Map
use kumiai.Shared.Map.{Map, get-set, get-delete, get-empty}
use kumiai.Rpc.Outbox.{
  first_reserved, close, stop, clear, remove, replace, AppInput, create_app_outbox_acceptance,
  end_accept, Acceptance, AppOutboxEntry, lowest_unresolved_seq, load, begin_accept, load_entries,
}

pub data OutboxCall : Type 0 where
  loads : List AppOutboxEntry → OutboxCall
  begins : AppInput → Bool → OutboxCall
  ends : AppOutboxEntry → Bool → OutboxCall
  replaces : AppOutboxEntry → OutboxCall
  removes : ℕ → OutboxCall
  clears stops closes : OutboxCall

unfoldable pub outbox_step : Acceptance → OutboxCall → Acceptance
outbox_step a (loads es) = load es a
outbox_step a (begins input admissible) = (begin_accept input admissible a).1
outbox_step a (ends e written) = end_accept e written a
outbox_step a (replaces e) = replace e a
outbox_step a (removes seq) = remove seq a
outbox_step a clears = clear a
outbox_step a stops = stop a
outbox_step a closes = close a

unfoldable pub outbox_run : Acceptance → List OutboxCall → Acceptance
unfolding outbox_step
outbox_run a [] = a
outbox_run a (c ∷ cs) = outbox_run (outbox_step a c) cs

-- The reservations rise strictly, below the next sequence number.
abbrev Rising : ℕ → List ℕ → Type 0
Rising n [] = Unit
Rising n (x ∷ xs) = (x < n) × All (λ y. x < y) xs × Rising n xs

All-append_one : (P : ℕ → Type 0) (xs : List ℕ) (n : ℕ) → All P xs → P n → All P (xs ++ n ∷ [])
All-append_one P [] n h p = (p, tt)
All-append_one P (x ∷ xs) n (q, h) p = (q, All-append_one P xs n h p)

All-without : (P : ℕ → Type 0) (k : ℕ) (xs : List ℕ) → All P xs → All P (without k xs)
All-without P k [] h = tt
All-without P k (x ∷ xs) (q, h) = ground (arith, q, All-without P k xs h)

Rising-mono : (n m : ℕ) (xs : List ℕ) → n ≤ m → Rising n xs → Rising m xs
Rising-mono n m [] l h = tt
Rising-mono n m (x ∷ xs) l (a, b, h) = (omega arith, b, Rising-mono n m xs l h)

Rising-push : (n : ℕ) (xs : List ℕ) → Rising n xs → Rising (n + 1) (xs ++ n ∷ [])
Rising-push n [] h = (omega arith, tt, tt)
Rising-push n (x ∷ xs) (a, b, h) =
    (omega arith, All-append_one (λ y. x < y) xs n b a, Rising-push n xs h)

Rising-without : (n k : ℕ) (xs : List ℕ) → Rising n xs → Rising n (without k xs)
Rising-without n k [] h = tt
Rising-without n k (x ∷ xs) (a, b, h) =
    ground (arith, a, All-without (λ y. x < y) k xs b, Rising-without n k xs h)

Rising-fresh : (n : ℕ) (xs : List ℕ) → Rising n xs → has n xs ≡ false
Rising-fresh n [] h = refl
Rising-fresh n (x ∷ xs) (a, b, h) = ground (arith, a, Rising-fresh n xs h)

-- A property of the reservations and the next number that every call keeps.
record KeptByAccepts (P : ℕ → List ℕ → Type 0) : Type 0 where
  grows : (n m : ℕ) (xs : List ℕ) → n ≤ m → P n xs → P m xs
  reserves : (n : ℕ) (xs : List ℕ) → P n xs → P (n + 1) (add n xs)
  settles : (n k : ℕ) (xs : List ℕ) → P n xs → P n (without k xs)

load_entries-grows :
    (es : List AppOutboxEntry) (a : Acceptance)
    → (a.next_seq ≤ (load_entries es a).next_seq)
      × ((load_entries es a).reservations ≡ a.reservations)
unfolding load_entries
load_entries-grows [] a = (omega arith, refl)
load_entries-grows (e ∷ es) a =
    let a' = record a {
      accepted = Map.set e.seq e a.accepted;
      next_seq = max a.next_seq (e.seq + 1);
    } in
    let (l, r) = load_entries-grows es a' in (omega (arith, l), r)

module _ (P : ℕ → List ℕ → Type 0) (k : KeptByAccepts P) where
  begin-keeps :
      (input : AppInput) (admissible : Bool) (a : Acceptance)
      → P a.next_seq a.reservations
      → let a' = (begin_accept input admissible a).1 in P a'.next_seq a'.reservations
  unfolding begin_accept
  begin-keeps input admissible a h = ground (arith, h, k.reserves a.next_seq a.reservations h)

  loaded-keeps :
      (es : List AppOutboxEntry) (a : Acceptance) (closed : Bool)
      → P a.next_seq a.reservations
      → let a' = if closed then a else record (load_entries es a) { listed = true } in
        P a'.next_seq a'.reservations
  loaded-keeps es a true h = h
  loaded-keeps es a false h =
      let (l, r) = load_entries-grows es a in
      subst (λ xs. P (load_entries es a).next_seq xs) (sym r)
        (k.grows a.next_seq (load_entries es a).next_seq a.reservations l h)

  step-keeps :
      (a : Acceptance) (c : OutboxCall)
      → P a.next_seq a.reservations
      → P (outbox_step a c).next_seq (outbox_step a c).reservations
  unfolding outbox_step load end_accept replace remove clear stop close
  step-keeps a (loads es) h = loaded-keeps es a a.closed h
  step-keeps a (begins input admissible) h = begin-keeps input admissible a h
  step-keeps a (ends e written) h = k.settles a.next_seq e.seq a.reservations h
  step-keeps a (replaces e) h = h
  step-keeps a (removes seq) h = h
  step-keeps a clears h = h
  step-keeps a stops h = h
  step-keeps a closes h = h

  run-keeps :
      (a : Acceptance) (cs : List OutboxCall)
      → P a.next_seq a.reservations
      → P (outbox_run a cs).next_seq (outbox_run a cs).reservations
  unfolding outbox_run
  run-keeps a [] h = h
  run-keeps a (c ∷ cs) h = run-keeps (outbox_step a c) cs (step-keeps a c h)

Rising-KeptByAccepts : KeptByAccepts Rising
Rising-KeptByAccepts = record {
  grows = Rising-mono;
  reserves = λ n xs h. rw (Rising-fresh n xs h) (Rising-push n xs h);
  settles = Rising-without;
}

abbrev IsAbove : ℕ → ℕ → List ℕ → Type 0
IsAbove f n xs = (f < n) × All (λ y. f ≤ y) xs

IsAbove-add : (f n : ℕ) (xs : List ℕ) → IsAbove f n xs → IsAbove f (n + 1) (add n xs)
IsAbove-add f n xs (l, h) = elim (Bool-cases (has n xs)) [
  | inl e ↦ rw e (omega arith, h)
  | inr e ↦ rw e (omega arith, All-append_one (λ y. f ≤ y) xs n h (omega arith))
]

IsAbove-KeptByAccepts : (f : ℕ) → KeptByAccepts (IsAbove f)
IsAbove-KeptByAccepts f = record {
  grows = λ n m xs l (a, h). (omega arith, h);
  reserves = IsAbove-add f;
  settles = λ n k xs (a, h). (a, All-without (λ y. f ≤ y) k xs h);
}

All-weaken : (x : ℕ) (xs : List ℕ) → All (λ y. x < y) xs → All (λ y. x ≤ y) xs
All-weaken x [] h = tt
All-weaken x (y ∷ ys) (l, h) = (omega arith, All-weaken x ys h)

some_injective : (x f : ℕ) → some x ≡ some f → x ≡ f
some_injective x f e = cc e

first-IsAbove :
    (f n : ℕ) (xs : List ℕ)
    → Rising n xs
    → first_reserved xs ≡ some f
    → (has f xs ≡ true) × IsAbove f n xs
first-IsAbove f n [] h e = absurd (cc e)
first-IsAbove f n (x ∷ xs) (a, b, h) e =
    subst (λ g. (has g (x ∷ xs) ≡ true) × IsAbove g n (x ∷ xs)) (some_injective x f e)
      (ground (arith, ==_refl x), (a, (omega arith, All-weaken x xs b)))

-- Whatever calls came before: when a write is unresolved, the fence is a reserved sequence
-- number, and whatever calls follow, no write of an entry below it is in flight.
pub fence_holds :
    (limit f : ℕ) (before after : List OutboxCall)
    → let a = outbox_run (create_app_outbox_acceptance limit) before in
      lowest_unresolved_seq a ≡ some f
      → (has f a.reservations ≡ true) × All (λ seq. f ≤ seq) (outbox_run a after).reservations
unfolding lowest_unresolved_seq
fence_holds limit f before after e =
    let a = outbox_run (create_app_outbox_acceptance limit) before in
    let (reserved, above) =
      first-IsAbove f a.next_seq a.reservations
        (run-keeps Rising Rising-KeptByAccepts (create_app_outbox_acceptance limit) before
          (unfold create_app_outbox_acceptance in tt))
        e in
    (reserved, (run-keeps (IsAbove f) (IsAbove-KeptByAccepts f) a after above).1)
