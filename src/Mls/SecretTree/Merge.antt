-- ===== src/Mls/SecretTree/Merge.antt =====
-- packages/mls/src/secret-tree.ts, `mergeReceiveSecretTree`: the merge gives no key back that either
-- side has spent, and keeps no secret above a node that stands.
use kumiai.Mls.SecretTree.{
  overlay, SecretTree, merge_receive_secret_tree, merge_leaf, merge_leaves, span_of, level_of,
  drop_expanded, LeafNode, is_expanded, GenerationSecret, keep_unused, merge_generation_secrets,
}
use native.Mathlib.Nat.{mul_assoc}
use kumiai.Shared.{
  ◌*◌, ◌^◌, ◌-◌, ◌/◌, ◌≤◌, zero, suc, has-append, ◌∙◌, subst, ℕ, ◌+◌, ◌<◌, ◌≡◌, ◌≢◌, refl, sym, ap,
  ◌⊎◌, inl, inr, Bool, true, false, not, ◌&&◌, ◌||◌, Option, none, some, List, [], ◌∷◌, ◌++◌, ◌==◌,
  leb, if◌then◌else◌, arith, Bool-cases, ==_iff, ==_refl, has,
}
use kumiai.Shared.Map
use kumiai.Shared.Map.{Map, get-set, get-delete, get-empty}
use kumiai.Shared.Ascending.{Distinct}

-- The ratchet still gives the key of this generation: it stands ahead, or was skipped.
abbrev pub is_usable : ℕ → GenerationSecret → Bool
is_usable generation s = leb s.generation generation || Map.member generation s.unused_generations

member-keep_unused :
    (behind : GenerationSecret) (g : ℕ) (unused : Map ℕ)
    → Map.member g (keep_unused behind unused) ≡ (Map.member g unused && is_usable g behind)
unfolding keep_unused Map.get
member-keep_unused behind g [] = refl
member-keep_unused behind g ((i, v) ∷ unused) = elim (Bool-cases (i == g)) [
  | inl e ↦ rw ((==_iff i g).0 e) (ground (arith, member-keep_unused behind g unused, ==_refl g))
  | inr e ↦ ground (arith, e, member-keep_unused behind g unused)
]

merge-is_usable :
    (g : ℕ) (a b : GenerationSecret)
    → is_usable g (merge_generation_secrets a b) ≡ (is_usable g a && is_usable g b)
unfolding merge_generation_secrets
merge-is_usable g a b = ground (
  arith,
  member-keep_unused a g b.unused_generations,
  member-keep_unused b g a.unused_generations,
)

pub data Ratchet : Type 0 where
  of_handshake of_application : Ratchet

abbrev ratchet : Ratchet → LeafNode → GenerationSecret
ratchet of_handshake node = node.handshake
ratchet of_application node = node.application

-- The leaf has not spent the key: where no leaf node stands, nothing is spent.
abbrev pub is_unspent : Ratchet → ℕ → Option LeafNode → Bool
is_unspent r g none = true
is_unspent r g (some node) = is_usable g (ratchet r node)

abbrev joined : Option LeafNode → Option LeafNode → Option LeafNode
joined prior none = prior
joined prior (some node) = some (merge_leaf prior node)

joined-is_unspent :
    (r : Ratchet) (g : ℕ) (prior o : Option LeafNode)
    → is_unspent r g (joined prior o) ≡ (is_unspent r g prior && is_unspent r g o)
joined-is_unspent r g none none = refl
joined-is_unspent r g none (some node) = refl
joined-is_unspent r g (some prior) none = ground arith
joined-is_unspent of_handshake g (some prior) (some node) =
    merge-is_usable g prior.handshake node.handshake
joined-is_unspent of_application g (some prior) (some node) =
    merge-is_usable g prior.application node.application

get-absent : (k : ℕ) (m : Map LeafNode) → has k (Map.keys m) ≡ false → Map.get k m ≡ none
unfolding Map.get Map.keys
get-absent k [] h = refl
get-absent k ((i, n) ∷ m) h = ground (arith, h, get-absent k m)

get-cons :
    (i index : ℕ) (node : LeafNode) (m : Map LeafNode)
    → Map.get i ((index, node) ∷ m) ≡ (if index == i then some node else Map.get i m)
unfolding Map.get
get-cons i index node m = refl

get-merge_leaves :
    (i : ℕ) (source leaves : Map LeafNode)
    → Distinct (Map.keys source)
    → Map.get i (merge_leaves source leaves) ≡ joined (Map.get i leaves) (Map.get i source)
unfolding merge_leaves Map.keys
get-merge_leaves i [] leaves d = unfold Map.get in refl
get-merge_leaves i ((index, node) ∷ source) leaves (fresh, d) =
    let put = merge_leaf (Map.get index leaves) node in
    get-merge_leaves i source (Map.set index put leaves) d ∙ elim (Bool-cases (index == i)) [
      | inr e ↦ rw (get-set i index put leaves, get-cons i index node source, e) refl
      | inl e ↦
          let here = (==_iff index i).0 e in
          let gone = subst (λ z. Map.get z source ≡ none) here (get-absent index source fresh) in
          rw (get-set i index put leaves, get-cons i index node source, e, gone)
            (ap (λ z. some (merge_leaf (Map.get z leaves) node)) here)
    ]

has-keys-drop_expanded :
    (occupied : List ℕ) (i : ℕ) (nodes : Map ℕ)
    → has i (Map.keys (drop_expanded occupied nodes))
      ≡ (has i (Map.keys nodes) && not (is_expanded occupied i))
unfolding drop_expanded Map.keys
has-keys-drop_expanded occupied i [] = refl
has-keys-drop_expanded occupied i ((a, v) ∷ nodes) = elim (Bool-cases (a == i)) [
  | inl e ↦
      rw ((==_iff a i).0 e) (ground (arith, has-keys-drop_expanded occupied i nodes, ==_refl i))
  | inr e ↦ ground (arith, e, has-keys-drop_expanded occupied i nodes)
]

-- Outside the span of the ancestor.
abbrev IsApart : ℕ → ℕ → Type 0
IsApart ancestor node = (node + span_of ancestor < ancestor) ⊎ (ancestor + span_of ancestor < node)

first_false : (a b : Bool) → (a || b) ≡ false → a ≡ false
first_false false b h = refl
first_false true b h = absurd (cc h)

far_apart :
    (span a x : ℕ)
    → (not (x == a) && (leb a (x + span) && leb x (a + span))) ≡ false
    → x ≢ a
    → (x + span < a) ⊎ (a + span < x)
far_apart span a x h n = elim (Bool-cases (leb a (x + span))) [
  | inr e ↦ inl (ground (arith, e))
  | inl e ↦ inr (ground (arith, e, h, n))
]

unexpanded-IsApart :
    (ancestor j : ℕ) (occupied : List ℕ)
    → is_expanded occupied ancestor ≡ false
    → has j occupied ≡ true
    → j ≢ ancestor
    → IsApart ancestor j
unfolding is_expanded
unexpanded-IsApart a j [] h k n = absurd (cc k)
unexpanded-IsApart a j (x ∷ xs) h k n = elim (Bool-cases (x == j)) [
  | inr e ↦ unexpanded-IsApart a j xs (ground (arith, h)) (ground (arith, e, k)) n
  | inl e ↦
      subst (λ z. IsApart a z) ((==_iff x j).0 e)
        (far_apart (span_of a) a x (first_false _ _ h) (λ same. n (sym ((==_iff x j).0 e) ∙ same)))
]

-- In the merge of two copies of an epoch's secret tree, a leaf's ratchet still gives the key of a
-- generation exactly where both copies still do, of its handshake keys as of its application keys. A
-- copy without the leaf node has spent none of them.
pub merge-is_unspent :
    (target source : SecretTree) (leaf g : ℕ) (r : Ratchet)
    → Distinct (Map.keys source.leaf_nodes)
    → is_unspent r g (Map.get leaf (merge_receive_secret_tree target source).leaf_nodes) ≡ (
        is_unspent r g (Map.get leaf target.leaf_nodes)
        && is_unspent r g (Map.get leaf source.leaf_nodes))
unfolding merge_receive_secret_tree
merge-is_unspent target source leaf g r d =
    ap (λ o. is_unspent r g o) (get-merge_leaves leaf source.leaf_nodes target.leaf_nodes d)
    ∙ joined-is_unspent r g (Map.get leaf target.leaf_nodes) (Map.get leaf source.leaf_nodes)

kept_unexpanded :
    (occupied : List ℕ) (i : ℕ) (nodes : Map ℕ)
    → has i (Map.keys (drop_expanded occupied nodes)) ≡ true
    → (has i (Map.keys nodes) ≡ true) × (is_expanded occupied i ≡ false)
kept_unexpanded occupied i nodes h = ground (arith, h, has-keys-drop_expanded occupied i nodes)

still_occupied :
    (node : ℕ) (nodes : Map ℕ) (leaves occupied : List ℕ)
    → occupied ≡ Map.keys nodes ++ leaves
    → (has node (Map.keys (drop_expanded occupied nodes)) || has node leaves) ≡ true
    → has node occupied ≡ true
still_occupied node nodes leaves occupied e h =
    subst (λ q. has node q ≡ true) (sym e)
      (ground (
        arith,
        h,
        has-keys-drop_expanded occupied node nodes,
        has-append node (Map.keys nodes) leaves,
      ))

-- The node of a level with `position` nodes of that level to its left: it stands amid the
-- `2 ^ (level + 1) - 1` nodes of its subtree, the first of which is `first_below`.
abbrev pub first_below : ℕ → ℕ → ℕ
first_below level position = 2 * (2 ^ level * position)

abbrev pub node_at : ℕ → ℕ → ℕ
node_at level position = first_below level position + (2 ^ level - 1)

power_positive : (n : ℕ) → 1 ≤ 2 ^ n
power_positive zero = omega arith
power_positive (suc n) = omega (arith, power_positive n)

node_at-suc : (level position : ℕ) → node_at (suc level) position ≡ 2 * node_at level position + 1
node_at-suc level position =
    let twice : 2 ^ suc level ≡ 2 * 2 ^ level = omega arith in
    omega (
      arith,
      power_positive level,
      ap (λ (n : ℕ). n * position) twice,
      mul_assoc 2 (2 ^ level) position,
    )

level_of-node_at :
    (bits level position : ℕ) → level ≤ bits → level_of bits (node_at level position) ≡ level
unfolding level_of
level_of-node_at zero zero position h = refl
level_of-node_at zero (suc level) position h = absurd (omega (arith, h))
level_of-node_at (suc bits) zero position h = ground arith
level_of-node_at (suc bits) (suc level) position h =
    let halved : (2 * node_at level position + 1) / 2 ≡ node_at level position = omega arith in
    rw (node_at-suc level position, halved, level_of-node_at bits level position (omega (arith, h)))
      (ground arith)

-- An intermediate secret that the merge keeps, from which the keys of its whole subtree derive, is
-- no ancestor of another node of the merged tree, an intermediate one or a leaf: at a node of any
-- level up to 31, every other node stands before the subtree or behind it.
pub merged-IsApart :
    (target source : SecretTree) (level position node : ℕ)
    → let merged = merge_receive_secret_tree target source in
      level ≤ 31
      → has (node_at level position) (Map.keys merged.intermediate_nodes) ≡ true
      → (has node (Map.keys merged.intermediate_nodes) || has node (Map.keys merged.leaf_nodes))
        ≡ true
      → node ≢ node_at level position
      → (node < first_below level position)
        ⊎ (first_below level position + (2 * 2 ^ level - 1) ≤ node)
unfolding merge_receive_secret_tree span_of
merged-IsApart target source level position node low kept there other =
    let nodes = overlay source.intermediate_nodes target.intermediate_nodes in
    let leaves = merge_leaves source.leaf_nodes target.leaf_nodes in
    let occupied = Map.keys nodes ++ Map.keys leaves in
    let ancestor = node_at level position in
    let span = level_of-node_at 31 level position low in
    elim (unexpanded-IsApart ancestor node occupied
      ((kept_unexpanded occupied ancestor nodes kept).1)
      (still_occupied node nodes (Map.keys leaves) occupied refl there) other) [
        | inl before ↦ inl (omega (arith, before, ap (λ (k : ℕ). 2 ^ k) span, power_positive level))
        | inr past ↦ inr (omega (arith, past, ap (λ (k : ℕ). 2 ^ k) span, power_positive level))
      ]
