-- ===== src/Rpc/CommitFrame/Framing.antt =====
-- packages/rpc/src/commit-frame.ts: a frame decodes to what was framed, and to nothing else.
use kumiai.Rpc.CommitFrame.{
  truncated, too_short, failed, Decoded, commit_frame_version, header_bytes, encode_commit_frame,
  decoded, CommitFrame, decode_commit_frame, split_frame, set_uint32, get_uint32,
}
use kumiai.Shared.{
  length-take-le, length-append, subst, take, drop, ◌/◌, ◌%◌, ◌∙◌, ℕ, zero, suc, ◌+◌, ◌-◌, ◌≤◌, ◌<◌,
  ◌≡◌, refl, sym, ap, ◌↔◌, inl, inr, List, [], ◌∷◌, ◌++◌, ◌==◌, ltb, if◌then◌else◌, arith, All,
  length, Bool-cases, ==_iff,
}

-- Every byte is below 256.
abbrev pub IsBytes : List ℕ → Type 0
IsBytes bytes = All (λ b. b < 256) bytes

get_uint32-set_uint32 :
    (n : ℕ)
    → n < 4294967296
    → get_uint32 (n % 256) ((n / 256) % 256) ((n / 65536) % 256) ((n / 16777216) % 256) ≡ n
unfolding get_uint32
get_uint32-set_uint32 n h = omega arith

cons_cong :
    (a a' b b' c c' d d' : ℕ)
    → a ≡ a'
    → b ≡ b'
    → c ≡ c'
    → d ≡ d'
    → a ∷ b ∷ c ∷ d ∷ [] ≡ a' ∷ b' ∷ c' ∷ d' ∷ []
cons_cong a a' b b' c c' d d' p q r s = cc

set_uint32-get_uint32 :
    (a b c d : ℕ)
    → a < 256
    → b < 256
    → c < 256
    → d < 256
    → set_uint32 (get_uint32 a b c d) ≡ a ∷ b ∷ c ∷ d ∷ []
unfolding get_uint32 set_uint32
set_uint32-get_uint32 a b c d ha hb hc hd =
    cons_cong _ a _ b _ c _ d (omega arith) (omega arith) (omega arith) (omega arith)

get_uint32_bound :
    (a b c d : ℕ) → a < 256 → b < 256 → c < 256 → d < 256 → get_uint32 a b c d < 4294967296
unfolding get_uint32
get_uint32_bound a b c d ha hb hc hd = omega arith

take-append : (xs ys : List ℕ) → take (length xs) (xs ++ ys) ≡ xs
take-append [] ys = refl
take-append (x ∷ xs) ys = ap (λ z. x ∷ z) (take-append xs ys)

drop-append : (xs ys : List ℕ) → drop (length xs) (xs ++ ys) ≡ ys
drop-append [] ys = refl
drop-append (x ∷ xs) ys = drop-append xs ys

take-drop : (n : ℕ) (xs : List ℕ) → take n xs ++ drop n xs ≡ xs
take-drop zero xs = refl
take-drop (suc n) [] = refl
take-drop (suc n) (x ∷ xs) = ap (λ z. x ∷ z) (take-drop n xs)

length-take : (n : ℕ) (xs : List ℕ) → n ≤ length xs → length (take n xs) ≡ n
length-take zero xs h = refl
length-take (suc n) [] h = omega arith
length-take (suc n) (x ∷ xs) h = ap (λ z. suc z) (length-take n xs (omega arith))

split_frame-append :
    (commit sealed : List ℕ)
    → split_frame (length commit) (commit ++ sealed)
      ≡ decoded (record { commit = commit; sealed_entries = sealed })
split_frame-append commit sealed =
    ground
      (arith, length-append commit sealed, take-append commit sealed, drop-append commit sealed)

-- A frame of a commit below 4 GiB decodes to its halves.
pub decode-encode :
    (f : CommitFrame)
    → length f.commit < 4294967296
    → decode_commit_frame (encode_commit_frame f) ≡ decoded f
unfolding decode_commit_frame encode_commit_frame set_uint32
decode-encode f h =
    rw (get_uint32-set_uint32 (length f.commit) h) (split_frame-append f.commit f.sealed_entries)

decoded_injective : (f g : CommitFrame) → decoded f ≡ decoded g → f ≡ g
decoded_injective f g e = cc e

split_frame_sound :
    (n : ℕ) (body : List ℕ) (f : CommitFrame)
    → split_frame n body ≡ decoded f
    → (length f.commit ≡ n) × (f.commit ++ f.sealed_entries ≡ body)
split_frame_sound n body f h = elim (Bool-cases (ltb (length body) n)) [
  | inl a ↦ absurd (ground (arith, a, h))
  | inr a ↦
      subst (λ (q : CommitFrame). (length q.commit ≡ n) × (q.commit ++ q.sealed_entries ≡ body))
        (decoded_injective (record { commit = take n body; sealed_entries = drop n body }) f
          (ground (arith, a, h)))
        (length-take n body (ground (arith, a)), take-drop n body)
]

frame_of :
    (f : CommitFrame) (head body : List ℕ)
    → set_uint32 (length f.commit) ≡ head
    → f.commit ++ f.sealed_entries ≡ body
    → commit_frame_version ∷ (head ++ body) ≡ encode_commit_frame f
unfolding encode_commit_frame
frame_of f head body p q =
    subst (λ z. commit_frame_version ∷ (z ++ body) ≡ encode_commit_frame f) p
      (subst
        (λ z. commit_frame_version ∷ (set_uint32 (length f.commit) ++ z) ≡ encode_commit_frame f) q
        refl)

decode_sound :
    (bytes : List ℕ) (f : CommitFrame)
    → IsBytes bytes
    → decode_commit_frame bytes ≡ decoded f
    → (bytes ≡ encode_commit_frame f) × (length f.commit < 4294967296)
unfolding decode_commit_frame encode_commit_frame
decode_sound [] f b h = absurd (cc h)
decode_sound (v ∷ []) f b h = absurd (cc h)
decode_sound (v ∷ x ∷ []) f b h = absurd (cc h)
decode_sound (v ∷ x ∷ y ∷ []) f b h = absurd (cc h)
decode_sound (v ∷ x ∷ y ∷ z ∷ []) f b h = absurd (cc h)
decode_sound (v ∷ x ∷ y ∷ z ∷ w ∷ body) f (bv, (bx, (by_, (bz, (bw, bs))))) h =
    elim (Bool-cases (v == commit_frame_version)) [
      | inr a ↦ absurd (ground (arith, a, h))
      | inl a ↦
          let (n, split) = split_frame_sound (get_uint32 x y z w) body f (ground (arith, a, h)) in
          let header = ap (λ l. set_uint32 l) n ∙ set_uint32-get_uint32 x y z w bx by_ bz bw in
          let frame = frame_of f (x ∷ y ∷ z ∷ w ∷ []) body header split in
          let version = (==_iff v 1).0 a in
          (
            subst (λ q. q ∷ x ∷ y ∷ z ∷ w ∷ body ≡ encode_commit_frame f) (sym version) frame,
            omega (arith, n, get_uint32_bound x y z w bx by_ bz bw),
          )
    ]

-- The bytes that decode to a commit and its sealed entries are their frame and no others, and a
-- commit has one below 4 GiB.
pub decode_commit_frame-encode_commit_frame :
    (bytes : List ℕ) (f : CommitFrame)
    → IsBytes bytes
    → (decode_commit_frame bytes ≡ decoded f)
      ↔ ((bytes ≡ encode_commit_frame f) × (length f.commit < 4294967296))
decode_commit_frame-encode_commit_frame bytes f b = (
  λ h. decode_sound bytes f b h,
  λ (e, l). subst (λ z. decode_commit_frame z ≡ decoded f) (sym e) (decode-encode f l),
)

-- What a frame that is cut short reads as.
abbrev pub cut_frame : ℕ → CommitFrame → Decoded
cut_frame k f =
    if ltb k header_bytes
    then failed too_short
    else if ltb k (header_bytes + length f.commit)
    then failed truncated
    else decoded (record {
      commit = f.commit;
      sealed_entries = take (k - (header_bytes + length f.commit)) f.sealed_entries;
    })

take-append_past :
    (k : ℕ) (xs ys : List ℕ) → length xs ≤ k → take k (xs ++ ys) ≡ xs ++ take (k - length xs) ys
take-append_past k [] ys h = ap (λ n. take n ys) (omega arith)
take-append_past zero (x ∷ xs) ys h = absurd (omega arith)
take-append_past (suc k) (x ∷ xs) ys h =
    ap (λ z. x ∷ z)
      (subst (λ n. take k (xs ++ ys) ≡ xs ++ take n ys) (omega arith)
        (take-append_past k xs ys (omega arith)))

sub_header : (k n : ℕ) → (header_bytes + k) - (header_bytes + n) ≡ k - n
sub_header k n = omega arith

split_frame_cut :
    (k : ℕ) (f : CommitFrame)
    → split_frame (length f.commit) (take k (f.commit ++ f.sealed_entries))
      ≡ cut_frame (header_bytes + k) f
split_frame_cut k f = elim (Bool-cases (ltb k (length f.commit))) [
  | inl a ↦ ground (arith, a, length-take-le k (f.commit ++ f.sealed_entries))
  | inr a ↦
      let rest = take (k - length f.commit) f.sealed_entries in
      let less = sub_header k (length f.commit) in
      rw (take-append_past k f.commit f.sealed_entries (ground (arith, a)))
        (ground (arith, a, less, split_frame-append f.commit rest))
]

header_suc : (k : ℕ) → header_bytes + k ≡ suc (suc (suc (suc (suc k))))
header_suc k = omega arith

-- A frame that is cut anywhere is never read as another commit: inside its header it is too short,
-- inside its commit truncated, and behind that it keeps the commit and loses the end of the sealed
-- entries.
pub truncated_frame :
    (k : ℕ) (f : CommitFrame)
    → length f.commit < 4294967296
    → decode_commit_frame (take k (encode_commit_frame f)) ≡ cut_frame k f
unfolding decode_commit_frame encode_commit_frame set_uint32
truncated_frame zero f h = refl
truncated_frame (suc zero) f h = refl
truncated_frame (suc (suc zero)) f h = refl
truncated_frame (suc (suc (suc zero))) f h = refl
truncated_frame (suc (suc (suc (suc zero)))) f h = refl
truncated_frame (suc (suc (suc (suc (suc k))))) f h =
    subst
      (λ n.
        decode_commit_frame (take (suc (suc (suc (suc (suc k))))) (encode_commit_frame f))
        ≡ cut_frame n f)
      (header_suc k) (rw (get_uint32-set_uint32 (length f.commit) h) (split_frame_cut k f))
