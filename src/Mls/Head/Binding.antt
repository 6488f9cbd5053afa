-- ===== src/Mls/Head/Binding.antt =====
-- packages/mls/src/head.ts: a head binds the whole list of entries behind it.
use kumiai.Shared.{
  subst, take, ◌∙◌, ℕ, zero, suc, ◌≤◌, ◌<◌, ◌≡◌, ◌≢◌, refl, sym, ap, ◌⊎◌, ◌↔◌, inl, inr, true, some,
  List, [], ◌∷◌, ◌++◌, ◌==◌, ltb, arith, length, Bool-cases,
}
use kumiai.Mls.Extensions.{bytes_equal}
use kumiai.Mls.Policy.Admission.{bytes_equal_sound}
use kumiai.Mls.Head.{
  ledger_head_version, domain, encode_ledger_head, genesis_head, compute_head, sha256_length,
  decode_ledger_head, frame_id, extend_head,
}

-- The extension data of a digest of 32 bytes decodes to that digest, and nothing else decodes.
pub decode_ledger_head-encode_ledger_head :
    (bytes head : List ℕ)
    → (decode_ledger_head bytes ≡ some (record { v = ledger_head_version; head = head }))
      ↔ ((bytes ≡ encode_ledger_head head) × (length head ≡ sha256_length))
unfolding decode_ledger_head encode_ledger_head
decode_ledger_head-encode_ledger_head [] head = (λ h. cc h, λ (e, l). cc e)
decode_ledger_head-encode_ledger_head (b ∷ rest) head =
    (λ h. ground (arith, h), λ (e, l). ground (arith, e, l))

-- Two inputs of the hash with one digest.
abbrev pub Collision : (List ℕ → List ℕ) → Type 0
Collision sha256 = (a : List ℕ) × (b : List ℕ) × (a ≢ b) × (sha256 a ≡ sha256 b)

bytes_equal_refl : (xs : List ℕ) → bytes_equal xs xs ≡ true
unfolding bytes_equal
bytes_equal_refl [] = refl
bytes_equal_refl (x ∷ xs) = ground (arith, bytes_equal_refl xs)

list-Dec : (xs ys : List ℕ) → (xs ≡ ys) ⊎ (xs ≢ ys)
list-Dec xs ys = elim (Bool-cases (bytes_equal xs ys)) [
  | inl e ↦ inl (bytes_equal_sound xs ys e)
  | inr e ↦
      inr (λ p. ground (arith, e, subst (λ z. bytes_equal xs z ≡ true) p (bytes_equal_refl xs)))
]

append-cancel : (a b c d : List ℕ) → length a ≡ length b → a ++ c ≡ b ++ d → (a ≡ b) × (c ≡ d)
append-cancel [] [] c d l e = (refl, e)
append-cancel [] (y ∷ b) c d l e = absurd (omega arith)
append-cancel (x ∷ a) [] c d l e = absurd (omega arith)
append-cancel (x ∷ a) (y ∷ b) c d l e = ground (arith, e, append-cancel a b c d)

-- The framed ID names its ID.
frame_id-injective : (x y : List ℕ) → frame_id x ≡ frame_id y → x ≡ y
unfolding frame_id
frame_id-injective x y e = cc e

-- A digest that begins with the domain separator.
abbrev pub DomainDigest : (List ℕ → List ℕ) → Type 0
DomainDigest sha256 = (n : List ℕ) × (take (length domain) (sha256 n) ≡ domain)

take-append_long : (n : ℕ) (a b : List ℕ) → n ≤ length a → take n (a ++ b) ≡ take n a
take-append_long zero a b h = refl
take-append_long (suc n) [] b h = absurd (omega arith)
take-append_long (suc n) (x ∷ a) b h = ap (λ z. x ∷ z) (take-append_long n a b (omega arith))

take_prefix :
    (d f g : List ℕ)
    → length domain ≤ length d
    → d ++ f ≡ domain ++ g
    → take (length domain) d ≡ domain
take_prefix d f g h e =
    sym (take-append_long (length domain) d f h) ∙ ap (λ z. take (length domain) z) e

-- The longer list is cut before the length of the shorter.
split_longer :
    (xs ys : List (List ℕ))
    → length ys < length xs
    → (p : List ℕ) × (ps : List (List ℕ)) × (suf : List (List ℕ)) × (xs ≡ (p ∷ ps) ++ suf)
      × (length suf ≡ length ys)
split_longer [] ys l = absurd (omega arith)
split_longer (x ∷ xs) ys l = elim (Bool-cases (ltb (length ys) (length xs))) [
  | inl more ↦
      let (p, ps, suf, split, same) = split_longer xs ys (ground (arith, more)) in
      (x, p ∷ ps, suf, ap (λ z. x ∷ z) split, same)
  | inr last ↦ (x, [], xs, refl, ground (arith, last, l))
]

module _ (sha256 : List ℕ → List ℕ) where
  extend_head-append :
      (h : List ℕ) (xs ys : List (List ℕ))
      → extend_head sha256 h (xs ++ ys) ≡ extend_head sha256 (extend_head sha256 h xs) ys
  unfolding extend_head
  extend_head-append h [] ys = refl
  extend_head-append h (x ∷ xs) ys = extend_head-append (sha256 (h ++ frame_id x)) xs ys

  -- After the first entry a head is the digest of a digest with an entry's frame.
  extend_head_last :
      (m p : List ℕ) (ps : List (List ℕ))
      → (n : List ℕ) × (x : List ℕ) × (extend_head sha256 (sha256 m) (p ∷ ps)
          ≡ sha256 (sha256 n ++ frame_id x))
  unfolding extend_head
  extend_head_last m p [] = (m, p, refl)
  extend_head_last m p (q ∷ qs) = extend_head_last (sha256 m ++ frame_id p) q qs

  -- A member extends its own head: the head of a longer ledger is the head of its first part,
  -- extended by the rest.
  compute_head-append :
      (g : List ℕ) (xs ys : List (List ℕ))
      → compute_head sha256 g (xs ++ ys) ≡ extend_head sha256 (compute_head sha256 g xs) ys
  unfolding compute_head
  compute_head-append g xs ys = extend_head-append (genesis_head sha256 g) xs ys

module _ (sha256 : List ℕ → List ℕ) (len : (m : List ℕ) → length (sha256 m) ≡ sha256_length) where
  extend_head-length :
      (m : List ℕ) (ps : List (List ℕ)) → length (extend_head sha256 (sha256 m) ps) ≡ sha256_length
  unfolding extend_head
  extend_head-length m [] = len m
  extend_head-length m (p ∷ ps) = extend_head-length (sha256 m ++ frame_id p) ps

  extend_head-binds :
      (h k : List ℕ) (xs ys : List (List ℕ))
      → length h ≡ sha256_length
      → length k ≡ sha256_length
      → length xs ≡ length ys
      → extend_head sha256 h xs ≡ extend_head sha256 k ys
      → ((h ≡ k) × (xs ≡ ys)) ⊎ Collision sha256
  unfolding extend_head
  extend_head-binds h k [] [] lh lk l e = inl (e, refl)
  extend_head-binds h k [] (y ∷ ys) lh lk l e = absurd (omega arith)
  extend_head-binds h k (x ∷ xs) [] lh lk l e = absurd (omega arith)
  extend_head-binds h k (x ∷ xs) (y ∷ ys) lh lk l e =
      elim (extend_head-binds (sha256 (h ++ frame_id x)) (sha256 (k ++ frame_id y)) xs ys (len _)
        (len _) (omega arith) e) [
          | inr c ↦ inr c
          | inl (d, rest) ↦ elim (list-Dec (h ++ frame_id x) (k ++ frame_id y)) [
            | inr ne ↦ inr (h ++ frame_id x, k ++ frame_id y, ne, d)
            | inl eq ↦
                let (a, b) = append-cancel h k (frame_id x) (frame_id y) (omega arith) eq in
                inl (a, cc (frame_id-injective x y b, rest))
          ]
        ]

  equal_length_binds :
      (g g' : List ℕ) (xs ys : List (List ℕ))
      → length xs ≡ length ys
      → compute_head sha256 g xs ≡ compute_head sha256 g' ys
      → ((g ≡ g') × (xs ≡ ys)) ⊎ Collision sha256
  unfolding compute_head genesis_head
  equal_length_binds g g' xs ys l e =
      elim (extend_head-binds (genesis_head sha256 g) (genesis_head sha256 g') xs ys (len _) (len _)
        l e) [
          | inr c ↦ inr c
          | inl (d, rest) ↦ elim (list-Dec (domain ++ g) (domain ++ g')) [
            | inr ne ↦ inr (domain ++ g, domain ++ g', ne, d)
            | inl eq ↦ inl ((append-cancel domain domain g g' refl eq).1, rest)
          ]
        ]

  -- A link of the chain is no genesis head.
  link_is_no_genesis :
      (n x g : List ℕ)
      → sha256 (sha256 n ++ frame_id x) ≡ sha256 (domain ++ g)
      → Collision sha256 ⊎ DomainDigest sha256
  link_is_no_genesis n x g e = elim (list-Dec (sha256 n ++ frame_id x) (domain ++ g)) [
    | inr ne ↦ inl (sha256 n ++ frame_id x, domain ++ g, ne, e)
    | inl eq ↦ inr (n, take_prefix (sha256 n) (frame_id x) g (omega (arith, len n)) eq)
  ]

  longer_binds :
      (g g' : List ℕ) (xs ys : List (List ℕ))
      → length ys < length xs
      → compute_head sha256 g xs ≡ compute_head sha256 g' ys
      → Collision sha256 ⊎ DomainDigest sha256
  unfolding compute_head genesis_head
  longer_binds g g' xs ys l e =
      let (p, ps, suf, split, same) = split_longer xs ys l in
      elim (extend_head-binds (extend_head sha256 (genesis_head sha256 g) (p ∷ ps))
        (genesis_head sha256 g') suf ys (extend_head-length (domain ++ g) (p ∷ ps)) (len _) same
        (sym (extend_head-append sha256 (genesis_head sha256 g) (p ∷ ps) suf)
          ∙ (ap (λ z. extend_head sha256 (genesis_head sha256 g) z) (sym split) ∙ e))) [
            | inr c ↦ inl c
            | inl (d, rest) ↦
                let (n, x, last) = extend_head_last sha256 (domain ++ g) p ps in
                link_is_no_genesis n x g' (sym last ∙ d)
          ]

  -- A head binds its ledger. Two ledgers with the same head are of the same group and have the
  -- same entries in the same order: nothing is left out, moved or cut off. Otherwise they show two
  -- inputs that the hash function, whose digests have 32 bytes, takes to one digest, or a digest
  -- that begins with the domain separator.
  pub compute_head_binds :
      (g g' : List ℕ) (xs ys : List (List ℕ))
      → compute_head sha256 g xs ≡ compute_head sha256 g' ys
      → ((g ≡ g') × (xs ≡ ys)) ⊎ (Collision sha256 ⊎ DomainDigest sha256)
  compute_head_binds g g' xs ys e = elim (Bool-cases (length xs == length ys)) [
    | inl same ↦ elim (equal_length_binds g g' xs ys (ground (arith, same)) e) [
      | inl both ↦ inl both
      | inr c ↦ inr (inl c)
    ]
    | inr differ ↦ elim (Bool-cases (ltb (length ys) (length xs))) [
      | inl longer ↦ inr (longer_binds g g' xs ys (ground (arith, longer)) e)
      | inr shorter ↦ inr (longer_binds g' g ys xs (ground (arith, differ, shorter)) (sym e))
    ]
  ]
