-- ===== src/Mls/Extensions.antt =====
-- packages/mls/src/policy.ts, the comparison of extension lists in `evaluateGroupContextExtensions`,
-- and the extension types of packages/mls/src/anchor.ts.
use kumiai.Shared.{
  ℕ, Bool, true, false, ◌&&◌, ◌||◌, Option, none, some, List, [], ◌∷◌, ◌==◌, if◌then◌else◌,
}

-- `extension_data` is `none` where it is no raw bytes.
pub record Extension : Type 0 where
  pub extension_type : ℕ
  pub extension_data : Option (List ℕ)

-- The extension types of packages/mls/src/anchor.ts.
abbrev pub group_anchor_extension_type : ℕ
group_anchor_extension_type = 0xf100

abbrev pub ledger_head_extension_type : ℕ
ledger_head_extension_type = 0xf101

abbrev pub reserved_extension_type : ℕ
reserved_extension_type = 0xf102

-- `bytesEqual`.
unfoldable pub bytes_equal : List ℕ → List ℕ → Bool
bytes_equal [] [] = true
bytes_equal [] (y ∷ ys) = false
bytes_equal (x ∷ xs) [] = false
bytes_equal (x ∷ xs) (y ∷ ys) = (x == y) && bytes_equal xs ys

abbrev pub data_equal : Option (List ℕ) → Option (List ℕ) → Bool
data_equal none want = false
data_equal (some got) none = false
data_equal (some got) (some want) = bytes_equal got want

-- The positional comparison: same length, types and raw bytes.
unfoldable pub same_extensions : List Extension → List Extension → Bool
unfolding bytes_equal
same_extensions [] [] = true
same_extensions [] (w ∷ want) = false
same_extensions (g ∷ got) [] = false
same_extensions (g ∷ got) (w ∷ want) =
    (g.extension_type == w.extension_type)
    && (data_equal g.extension_data w.extension_data && same_extensions got want)

-- The current list with the head entry moved to the head that the commit accounts for.
unfoldable pub expected_extensions : List ℕ → List Extension → List Extension
expected_extensions head [] = []
expected_extensions head (e ∷ es) =
    (if e.extension_type == ledger_head_extension_type
      then record { extension_type = ledger_head_extension_type; extension_data = some head }
      else e)
    ∷ expected_extensions head es

unfoldable pub has_type : ℕ → List Extension → Bool
has_type t [] = false
has_type t (e ∷ es) = (e.extension_type == t) || has_type t es

unfoldable pub find_data : ℕ → List Extension → Option (List ℕ)
find_data t [] = none
find_data t (e ∷ es) = if e.extension_type == t then e.extension_data else find_data t es

abbrev pub is_empty_data : Option (List ℕ) → Bool
is_empty_data (some []) = true
is_empty_data _ = false

unfoldable pub is_empty_reserved : Extension → Bool
is_empty_reserved e =
    (e.extension_type == reserved_extension_type) && is_empty_data e.extension_data

-- The list without its first empty reserved entry; whole, if it has none.
unfoldable pub strip_reserved : List Extension → List Extension
unfolding is_empty_reserved
strip_reserved [] = []
strip_reserved (e ∷ es) = if is_empty_reserved e then es else e ∷ strip_reserved es
