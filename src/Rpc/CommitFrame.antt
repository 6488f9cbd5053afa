-- ===== src/Rpc/CommitFrame.antt =====
-- packages/rpc/src/commit-frame.ts: the frame that carries a commit and its sealed entries. Bytes
-- are the numbers below 256.
pub mod Framing
use kumiai.Shared.{
  subst, take, drop, ◌/◌, ◌%◌, ◌^◌, ◌∙◌, ℕ, zero, suc, ◌+◌, ◌-◌, ◌*◌, ◌≤◌, ◌<◌, ◌≡◌, ◌≢◌, refl, sym,
  ap, ◌⊎◌, ◌↔◌, inl, inr, Bool, true, false, not, ◌&&◌, ◌||◌, Option, none, some, List, [], ◌∷◌,
  ◌++◌, ◌==◌, ltb, leb, if◌then◌else◌, or_default, is_some, arith, All, length, Bool-cases,
  Option-cases, ==_iff, ==_refl, ==_ne, min, max, map, has, erase,
}
use kumiai.Shared.Map
use kumiai.Shared.Map.{Map, get-set, get-delete, get-empty}

abbrev pub commit_frame_version : ℕ
commit_frame_version = 1

abbrev pub header_bytes : ℕ
header_bytes = 5

pub record CommitFrame : Type 0 where
  pub commit : List ℕ
  pub sealed_entries : List ℕ

pub data FrameError : Type 0 where
  too_short truncated : FrameError
  unsupported_version : ℕ → FrameError

pub data Decoded : Type 0 where
  decoded : CommitFrame → Decoded
  failed : FrameError → Decoded

-- `setUint32(_, n, true)`: the low byte first, and what does not fit is cut off.
unfoldable pub set_uint32 : ℕ → List ℕ
set_uint32 n = n % 256 ∷ (n / 256) % 256 ∷ (n / 65536) % 256 ∷ (n / 16777216) % 256 ∷ []

unfoldable pub get_uint32 : ℕ → ℕ → ℕ → ℕ → ℕ
get_uint32 a b c d = a + 256 * b + 65536 * c + 16777216 * d

unfoldable pub encode_commit_frame : CommitFrame → List ℕ
unfolding set_uint32
encode_commit_frame f =
    commit_frame_version ∷ (set_uint32 (length f.commit) ++ (f.commit ++ f.sealed_entries))

-- Behind the header.
abbrev pub split_frame : ℕ → List ℕ → Decoded
split_frame commit_length body =
    if ltb (length body) commit_length
    then failed truncated
    else decoded
        (record { commit = take commit_length body; sealed_entries = drop commit_length body })

unfoldable pub decode_commit_frame : List ℕ → Decoded
unfolding get_uint32
decode_commit_frame (version ∷ a ∷ b ∷ c ∷ d ∷ body) =
    if not (version == commit_frame_version)
    then failed (unsupported_version version)
    else split_frame (get_uint32 a b c d) body
decode_commit_frame _ = failed too_short
