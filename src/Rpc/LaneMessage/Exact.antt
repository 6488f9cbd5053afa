-- ===== src/Rpc/LaneMessage/Exact.antt =====
-- packages/rpc/src/peer.ts, `walkCommits`: the lane reads exactly the commits that are framed for it.
use kumiai.Rpc.CommitFrame.Framing.{decode-encode, decode_commit_frame-encode_commit_frame, IsBytes}
use kumiai.Rpc.LaneMessage.{carries, commit_content, lane_content}
use kumiai.Rpc.CommitFrame.{
  encode_commit_frame, CommitFrame, Decoded, decoded, failed, unsupported_version, too_short,
  truncated, decode_commit_frame,
}
use kumiai.Shared.{
  subst, ◌∙◌, ℕ, ◌<◌, ◌≡◌, refl, sym, ap, ◌↔◌, inl, inr, true, false, some, List, [], ◌∷◌, ◌==◌,
  arith, length, Bool-cases,
}
use kumiai.Rpc.Handshake.{
  encode_handshake_frame, is_handshake_kind, kind_byte, handshake_version, decode_handshake_frame,
  magic_second, magic_first, commit as commit_kind,
}

carries_injective : (f g : CommitFrame) → carries f ≡ carries g → f ≡ g
carries_injective f g e = cc e

commit_content-carries :
    (d : Decoded) (f : CommitFrame) → commit_content d ≡ carries f → d ≡ decoded f
commit_content-carries (decoded g) f h = ap (λ z. decoded z) (carries_injective g f h)
commit_content-carries (failed (unsupported_version v)) f h = absurd (cc h)
commit_content-carries (failed too_short) f h = absurd (cc h)
commit_content-carries (failed truncated) f h = absurd (cc h)

-- The header of a commit's frame.
abbrev commit_header : List ℕ → List ℕ
commit_header payload =
    magic_first ∷ magic_second ∷ handshake_version ∷ kind_byte commit_kind ∷ payload

read_commit :
    (payload : List ℕ)
    → lane_content (commit_header payload) ≡ commit_content (decode_commit_frame payload)
unfolding lane_content decode_handshake_frame
read_commit payload = refl

same_header :
    (a b v k : ℕ) (payload : List ℕ)
    → (a == magic_first) ≡ true
    → (b == magic_second) ≡ true
    → (v == handshake_version) ≡ true
    → (k == kind_byte commit_kind) ≡ true
    → a ∷ b ∷ v ∷ k ∷ payload ≡ commit_header payload
same_header a b v k payload x y z w = ground (arith, x, y, z, w)

other_kind :
    (a b v k : ℕ) (payload : List ℕ) (f : CommitFrame)
    → (a == magic_first) ≡ true
    → (b == magic_second) ≡ true
    → (v == handshake_version) ≡ true
    → (k == kind_byte commit_kind) ≡ false
    → ¬ (lane_content (a ∷ b ∷ v ∷ k ∷ payload) ≡ carries f)
unfolding lane_content decode_handshake_frame
other_kind a b v k payload f x y z w h = elim (Bool-cases (is_handshake_kind k)) [
  | inl n ↦ ground (arith, x, y, z, w, n, h)
  | inr n ↦ ground (arith, x, y, z, w, n, h)
]

carried_header :
    (a b v k : ℕ) (payload : List ℕ) (f : CommitFrame)
    → lane_content (a ∷ b ∷ v ∷ k ∷ payload) ≡ carries f
    → (a ∷ b ∷ v ∷ k ∷ payload ≡ commit_header payload) × (decode_commit_frame payload ≡ decoded f)
unfolding lane_content decode_handshake_frame
carried_header a b v k payload f h = elim (Bool-cases (a == magic_first)) [
  | inr x ↦ absurd (ground (arith, x, h))
  | inl x ↦ elim (Bool-cases (b == magic_second)) [
    | inr y ↦ absurd (ground (arith, x, y, h))
    | inl y ↦ elim (Bool-cases (v == handshake_version)) [
      | inr z ↦ absurd (ground (arith, x, y, z, h))
      | inl z ↦ elim (Bool-cases (k == kind_byte commit_kind)) [
        | inr w ↦ absurd (other_kind a b v k payload f x y z w h)
        | inl w ↦
            let same = same_header a b v k payload x y z w in
            let at = subst (λ q. lane_content q ≡ carries f) same h in
            (
              same,
              commit_content-carries (decode_commit_frame payload) f
                  (sym (read_commit payload) ∙ at),
            )
      ]
    ]
  ]
]

framed_bytes :
    (bytes : List ℕ) (f : CommitFrame)
    → encode_handshake_frame commit_kind (encode_commit_frame f) ≡ some bytes
    → commit_header (encode_commit_frame f) ≡ bytes
unfolding encode_handshake_frame
framed_bytes bytes f e = cc e

sound :
    (bytes : List ℕ) (f : CommitFrame)
    → IsBytes bytes
    → lane_content bytes ≡ carries f
    → (encode_handshake_frame commit_kind (encode_commit_frame f) ≡ some bytes)
      × (length f.commit < 4294967296)
unfolding encode_handshake_frame
sound [] f b h = absurd (unfold lane_content in cc h)
sound (a ∷ []) f b h = absurd (unfold lane_content in cc h)
sound (a ∷ x ∷ []) f b h = absurd (unfold lane_content in cc h)
sound (a ∷ x ∷ y ∷ []) f b h = absurd (unfold lane_content in cc h)
sound (a ∷ x ∷ v ∷ k ∷ payload) f (p, (q, (r, (s, t)))) h =
    let (same, found) = carried_header a x v k payload f h in
    let (e, l) = (decode_commit_frame-encode_commit_frame payload f t).0 found in
    (ap (λ z. some (commit_header z)) (sym e) ∙ ap (λ z. some z) (sym same), l)

complete :
    (bytes : List ℕ) (f : CommitFrame)
    → IsBytes bytes
    → encode_handshake_frame commit_kind (encode_commit_frame f) ≡ some bytes
    → length f.commit < 4294967296
    → lane_content bytes ≡ carries f
complete bytes f b e l =
    let same : commit_header (encode_commit_frame f) ≡ bytes = framed_bytes bytes f e in
    subst (λ q. lane_content q ≡ carries f) same
      (read_commit (encode_commit_frame f) ∙ ap (λ d. commit_content d) (decode-encode f l))

-- The lane finds a commit with its sealed entries in a message exactly where the message is the
-- handshake frame, of the commit kind, of their commit frame: whatever the bytes are, nothing else is
-- taken for a commit, and a commit below 4 GiB is always found.
pub lane_content-encode_handshake_frame :
    (bytes : List ℕ) (f : CommitFrame)
    → IsBytes bytes
    → (lane_content bytes ≡ carries f) ↔ (
        (encode_handshake_frame commit_kind (encode_commit_frame f) ≡ some bytes)
        × (length f.commit < 4294967296))
lane_content-encode_handshake_frame bytes f b =
    (λ h. sound bytes f b h, λ (e, l). complete bytes f b e l)
