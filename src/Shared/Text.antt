-- ===== src/Shared/Text.antt =====
-- JavaScript's strings as lists of UTF-16 code units, with the order of `<`.
use kumiai.Shared.Tests.{◌==◌, ltb, if◌then◌else◌}
use Prim.Native.Nat.{ℕ}
use mathlib.Core.Path.{◌≡◌, refl}
use mathlib.Core.Logic.{◌≢◌}
use mathlib.Core.Bool.{Bool, true, false}
use mathlib.Core.List.{List, [], ◌∷◌}
use native.Mathlib.Omega.{arith}

abbrev pub Text : Type 0
Text = List ℕ

-- `s < t` on strings: the first unit that differs decides, and a proper prefix is less.
unfoldable pub precedes : Text → Text → Bool
precedes [] [] = false
precedes [] (b ∷ t) = true
precedes (a ∷ s) [] = false
precedes (a ∷ s) (b ∷ t) = let rest = precedes s t in if a == b then rest else ltb a b

pub precedes-total : (s t : Text) → s ≢ t → precedes s t ≡ false → precedes t s ≡ true
unfolding precedes
precedes-total [] [] h n = absurd (h refl)
precedes-total [] (b ∷ t) h n = cc
precedes-total (a ∷ s) [] h n = refl
precedes-total (a ∷ s) (b ∷ t) h n = ground (arith, precedes-total s t)

pub precedes-asym : (s t : Text) → precedes s t ≡ true → precedes t s ≡ false
unfolding precedes
precedes-asym [] [] h = refl
precedes-asym [] (b ∷ t) h = refl
precedes-asym (a ∷ s) [] h = cc
precedes-asym (a ∷ s) (b ∷ t) h = ground (arith, h, precedes-asym s t)
