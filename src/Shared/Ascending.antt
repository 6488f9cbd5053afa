-- ===== src/Shared/Ascending.antt =====
-- Lists of numbers that rise strictly, above one bound and up to another.
use kumiai.Shared.Lists.{has, erase, select, has-append, add}
use Prim.Native.Nat.{ℕ, suc, ◌≤◌, ◌<◌}
use mathlib.Core.Path.{◌≡◌, refl}
use mathlib.Core.Bool.{Bool, false}
use mathlib.Core.List.{List, [], ◌∷◌, ◌++◌}
use native.Mathlib.Omega.{arith}

-- The elements rise strictly, from above `lo` up to `n`.
abbrev pub Within : ℕ → ℕ → List ℕ → Type 0
Within lo n [] = Unit
Within lo n (x ∷ xs) = (lo < x) × (x ≤ n) × Within x n xs

pub Within-mono :
    (lo lo' n n' : ℕ) (xs : List ℕ) → lo' ≤ lo → n ≤ n' → Within lo n xs → Within lo' n' xs
Within-mono lo lo' n n' [] h k w = tt
Within-mono lo lo' n n' (x ∷ xs) h k (a, b, w) =
    (omega arith, omega arith, Within-mono x x n n' xs (omega arith) k w)

pub Within-erase : (lo n id : ℕ) (xs : List ℕ) → Within lo n xs → Within lo n (erase id xs)
Within-erase lo n id [] w = tt
Within-erase lo n id (x ∷ xs) (a, b, w) =
    ground (arith, Within-mono x lo n n xs, Within-erase x n id xs w)

pub Within-select :
    (lo n : ℕ) (p : ℕ → Bool) (xs : List ℕ) → Within lo n xs → Within lo n (select p xs)
Within-select lo n p [] w = tt
Within-select lo n p (x ∷ xs) (a, b, w) =
    ground (arith, Within-select x n p xs w, Within-mono x lo n n (select p xs))

pub Within-push :
    (lo n : ℕ) (xs : List ℕ) → lo ≤ n → Within lo n xs → Within lo (suc n) (xs ++ suc n ∷ [])
Within-push lo n [] h w = (omega arith, omega arith, tt)
Within-push lo n (x ∷ xs) h (a, b, w) = (a, omega arith, Within-push x n xs b w)

pub has-Within-above : (i lo n : ℕ) (xs : List ℕ) → i ≤ lo → Within lo n xs → has i xs ≡ false
has-Within-above i lo n [] h w = refl
has-Within-above i lo n (x ∷ xs) h (a, b, w) =
    ground (arith, has-Within-above i x n xs (omega arith) w)

pub has-Within-beyond : (i lo n : ℕ) (xs : List ℕ) → n < i → Within lo n xs → has i xs ≡ false
has-Within-beyond i lo n [] h w = refl
has-Within-beyond i lo n (x ∷ xs) h (a, b, w) = ground (arith, has-Within-beyond i x n xs h w)

-- The one occurrence goes.
pub has-erase_self : (i lo n : ℕ) (xs : List ℕ) → Within lo n xs → has i (erase i xs) ≡ false
has-erase_self i lo n [] w = refl
has-erase_self i lo n (x ∷ xs) (a, b, w) =
    ground (arith, has-Within-above i x n xs, has-erase_self i x n xs w)

-- No element stands twice.
abbrev pub Distinct : List ℕ → Type 0
Distinct [] = Unit
Distinct (x ∷ xs) = (has x xs ≡ false) × Distinct xs

pub Distinct-append-one :
    (a : ℕ) (xs : List ℕ) → has a xs ≡ false → Distinct xs → Distinct (xs ++ a ∷ [])
Distinct-append-one a [] h d = (refl, tt)
Distinct-append-one a (x ∷ xs) h (e, d) =
    (ground (arith, has-append x xs (a ∷ []), e, h), Distinct-append-one a xs (ground (arith, h)) d)

pub Distinct-add : (a : ℕ) (xs : List ℕ) → Distinct xs → Distinct (add a xs)
Distinct-add a xs d = ground (arith, Distinct-append-one a xs)
