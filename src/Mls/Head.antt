-- ===== src/Mls/Head.antt =====
-- packages/mls/src/head.ts: the hash chain over the IDs of the ledger's entries. Entry and group
-- IDs are the bytes of their UTF-8 encoding; SHA-256 is a parameter.
pub mod Binding
use kumiai.Mls.Extensions.{bytes_equal}
use kumiai.Shared.{
  ◌/◌, ◌%◌, ℕ, zero, suc, ◌+◌, ◌-◌, ◌*◌, ◌≤◌, ◌<◌, ◌≡◌, ◌≢◌, refl, sym, ap, ◌⊎◌, ◌↔◌, inl, inr,
  Bool, true, false, not, ◌&&◌, ◌||◌, Option, none, some, List, [], ◌∷◌, ◌++◌, ◌==◌, ltb, leb,
  if◌then◌else◌, or_default, is_some, arith, All, length, Bool-cases, Option-cases, ==_iff, ==_refl,
  ==_ne, min, max, map, has, add, erase,
}
use kumiai.Shared.Map
use kumiai.Shared.Map.{Map, get-set, get-delete, get-empty}

-- `DOMAIN`: the bytes of 'kumiai/mls/ledger-head/v1'.
abbrev pub domain : List ℕ
domain =
    107 ∷ 117 ∷ 109 ∷ 105 ∷ 97 ∷ 105 ∷ 47 ∷ 109 ∷ 108 ∷ 115 ∷ 47 ∷ 108 ∷ 101 ∷ 100 ∷ 103 ∷ 101 ∷ 114
    ∷ 45 ∷ 104 ∷ 101 ∷ 97 ∷ 100 ∷ 47 ∷ 118 ∷ 49 ∷ []

abbrev pub sha256_length : ℕ
sha256_length = 32

abbrev pub ledger_head_version : ℕ
ledger_head_version = 1

-- The four bytes of `setUint32(0, length, false)`.
abbrev pub uint32 : ℕ → List ℕ
uint32 n = (n / 16777216) % 256 ∷ (n / 65536) % 256 ∷ (n / 256) % 256 ∷ n % 256 ∷ []

unfoldable pub frame_id : List ℕ → List ℕ
frame_id id = uint32 (length id) ++ id

pub record LedgerHead : Type 0 where
  pub v : ℕ
  pub head : List ℕ

unfoldable pub encode_ledger_head : List ℕ → List ℕ
encode_ledger_head head = ledger_head_version ∷ head

abbrev decode_version : ℕ → List ℕ → Option LedgerHead
decode_version version rest =
    if version == ledger_head_version
    then some (record { v = ledger_head_version; head = rest })
    else none

unfoldable pub decode_ledger_head : List ℕ → Option LedgerHead
decode_ledger_head [] = none
decode_ledger_head (version ∷ rest) =
    if length rest == sha256_length then decode_version version rest else none

unfoldable pub heads_match : List ℕ → List ℕ → Bool
unfolding bytes_equal
heads_match expected actual = bytes_equal expected actual

module _ (sha256 : List ℕ → List ℕ) where
  unfoldable pub genesis_head : List ℕ → List ℕ
  genesis_head group_id = sha256 (domain ++ group_id)

  unfoldable pub extend_head : List ℕ → List (List ℕ) → List ℕ
  unfolding frame_id
  extend_head head [] = head
  extend_head head (id ∷ ids) = extend_head (sha256 (head ++ frame_id id)) ids

  unfoldable pub compute_head : List ℕ → List (List ℕ) → List ℕ
  unfolding genesis_head extend_head
  compute_head group_id ids = extend_head (genesis_head group_id) ids
