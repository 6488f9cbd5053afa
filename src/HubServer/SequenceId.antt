-- ===== src/HubServer/SequenceId.antt =====
-- packages/hub-server/src/memoryStore.ts, `formatSequenceID`: the counter's decimal digits, padded
-- to twelve, as UTF-16 code units.
use kumiai.Shared.{
  length-append, ◌/◌, ◌%◌, ◌∙◌, ℕ, zero, suc, ◌+◌, ◌*◌, ◌<◌, ◌≡◌, refl, not, ◌&&◌, ◌||◌, [], ◌∷◌,
  ◌++◌, ltb, arith, length,
}
use kumiai.Shared.Text.{Text, precedes}

-- The last `width` decimal digits, leading zeros included.
unfoldable pub digits : ℕ → ℕ → Text
digits zero n = []
digits (suc width) n = digits width (n / 10) ++ (48 + n % 10) ∷ []

-- `String(counter).padStart(12, '0')`, for a counter below 10 ^ 12.
unfoldable pub format_sequence_id : ℕ → Text
unfolding digits
format_sequence_id counter = digits 12 counter

abbrev ten_to : ℕ → ℕ
ten_to zero = 1
ten_to (suc w) = 10 * ten_to w

length-digits : (w n : ℕ) → length (digits w n) ≡ w
unfolding digits
length-digits zero n = refl
length-digits (suc w) n =
    omega (arith, length-append (digits w (n / 10)) ((48 + n % 10) ∷ []), length-digits w (n / 10))

precedes-append_one :
    (s t : Text) (a b : ℕ)
    → length s ≡ length t
    → precedes (s ++ a ∷ []) (t ++ b ∷ []) ≡ (precedes s t || (not (precedes t s) && ltb a b))
unfolding precedes
precedes-append_one [] [] a b l = ground arith
precedes-append_one [] (y ∷ t) a b l = absurd (omega arith)
precedes-append_one (x ∷ s) [] a b l = absurd (omega arith)
precedes-append_one (x ∷ s) (y ∷ t) a b l =
    let rest = precedes-append_one s t a b (omega arith) in ground (arith, rest)

last_digit :
    (m n : ℕ)
    → (ltb (m / 10) (n / 10) || (not (ltb (n / 10) (m / 10)) && ltb (48 + m % 10) (48 + n % 10)))
      ≡ ltb m n
last_digit m n = ground arith

digits-precedes :
    (w m n : ℕ) → m < ten_to w → n < ten_to w → precedes (digits w m) (digits w n) ≡ ltb m n
unfolding digits precedes
digits-precedes zero m n lm ln = ground (arith, lm, ln)
digits-precedes (suc w) m n lm ln =
    let before = digits-precedes w (m / 10) (n / 10) (omega arith) (omega arith) in
    let after = digits-precedes w (n / 10) (m / 10) (omega arith) (omega arith) in
    precedes-append_one (digits w (m / 10)) (digits w (n / 10)) (48 + m % 10) (48 + n % 10)
      (omega (arith, length-digits w (m / 10), length-digits w (n / 10)))
    ∙ rw (before, after) (last_digit m n)

-- The printed sequence IDs compare as their counters do, as long as these stay below 10 ^ 12.
pub format_sequence_id-precedes :
    (m n : ℕ)
    → m < 1000000000000
    → n < 1000000000000
    → precedes (format_sequence_id m) (format_sequence_id n) ≡ ltb m n
unfolding format_sequence_id
format_sequence_id-precedes m n lm ln = digits-precedes 12 m n lm ln
