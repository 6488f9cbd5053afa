-- ===== src/Mls/SecretTree.antt =====
-- packages/mls/src/secret-tree.ts, `mergeReceiveSecretTree`: two copies of one epoch's secret tree,
-- merged. A record that is indexed by numbers is a map; secrets are numbers. The ratchet steps of
-- `advanceSendingRatchet` are key derivations, and are left out.
pub mod Merge
use kumiai.Shared.{
  ◌/◌, ◌%◌, ◌^◌, ℕ, zero, suc, ◌+◌, ◌-◌, ◌*◌, ◌≤◌, ◌<◌, ◌≡◌, ◌≢◌, refl, sym, ap, ◌⊎◌, ◌↔◌, inl, inr,
  Bool, true, false, not, ◌&&◌, ◌||◌, Option, none, some, List, [], ◌∷◌, ◌++◌, ◌==◌, ltb, leb,
  if◌then◌else◌, or_default, is_some, arith, All, length, Bool-cases, Option-cases, ==_iff, ==_refl,
  ==_ne, min, max, map, has, erase,
}
use kumiai.Shared.Map
use kumiai.Shared.Map.{Map, get-set, get-delete, get-empty}

pub record GenerationSecret : Type 0 where
  pub secret : ℕ
  pub generation : ℕ
  pub unused_generations : Map ℕ

pub record LeafNode : Type 0 where
  pub handshake : GenerationSecret
  pub application : GenerationSecret

pub record SecretTree : Type 0 where
  pub leaf_width : ℕ
  pub intermediate_nodes : Map ℕ
  pub leaf_nodes : Map LeafNode

-- The skipped keys of the ratchet that is ahead which the other may still use.
unfoldable pub keep_unused : GenerationSecret → Map ℕ → Map ℕ
keep_unused behind [] = []
keep_unused behind ((generation, secret) ∷ unused) =
    let rest = keep_unused behind unused in
    if leb behind.generation generation || Map.member generation behind.unused_generations
    then (generation, secret) ∷ rest
    else rest

abbrev pub keep_ahead : GenerationSecret → GenerationSecret → GenerationSecret
keep_ahead ahead behind = record {
  secret = ahead.secret;
  generation = ahead.generation;
  unused_generations = keep_unused behind ahead.unused_generations;
}

unfoldable pub merge_generation_secrets : GenerationSecret → GenerationSecret → GenerationSecret
unfolding keep_unused
merge_generation_secrets a b =
    if leb b.generation a.generation then keep_ahead a b else keep_ahead b a

abbrev pub merge_leaf : Option LeafNode → LeafNode → LeafNode
merge_leaf none node = node
merge_leaf (some prior) node = record {
  handshake = merge_generation_secrets prior.handshake node.handshake;
  application = merge_generation_secrets prior.application node.application;
}

unfoldable pub merge_leaves : Map LeafNode → Map LeafNode → Map LeafNode
unfolding merge_generation_secrets
merge_leaves [] leaves = leaves
merge_leaves ((index, node) ∷ source) leaves =
    merge_leaves source (Map.set index (merge_leaf (Map.get index leaves) node) leaves)

-- `{ ...target, ...source }`
unfoldable pub overlay : Map ℕ → Map ℕ → Map ℕ
overlay [] target = target
overlay ((index, secret) ∷ source) target = overlay source (Map.set index secret target)

-- The number of trailing ones, of at most 31 bits.
unfoldable pub level_of : ℕ → ℕ → ℕ
level_of zero node = 0
level_of (suc bits) node =
    let rest = level_of bits (node / 2) in if node % 2 == 1 then rest + 1 else 0

unfoldable pub span_of : ℕ → ℕ
unfolding level_of
span_of ancestor = 2 ^ level_of 31 ancestor - 1

-- Some other node stands in the span of the ancestor.
unfoldable pub is_expanded : List ℕ → ℕ → Bool
unfolding span_of
is_expanded [] ancestor = false
is_expanded (node ∷ occupied) ancestor =
    (not (node == ancestor)
      && (leb ancestor (node + span_of ancestor) && leb node (ancestor + span_of ancestor)))
    || is_expanded occupied ancestor

unfoldable pub drop_expanded : List ℕ → Map ℕ → Map ℕ
unfolding is_expanded
drop_expanded occupied [] = []
drop_expanded occupied ((ancestor, secret) ∷ nodes) =
    let rest = drop_expanded occupied nodes in
    if is_expanded occupied ancestor then rest else (ancestor, secret) ∷ rest

unfoldable pub merge_receive_secret_tree : SecretTree → SecretTree → SecretTree
unfolding merge_leaves overlay drop_expanded
merge_receive_secret_tree target source =
    let nodes = overlay source.intermediate_nodes target.intermediate_nodes in
    let leaves = merge_leaves source.leaf_nodes target.leaf_nodes in
    record {
      leaf_width = target.leaf_width;
      intermediate_nodes = drop_expanded (Map.keys nodes ++ Map.keys leaves) nodes;
      leaf_nodes = leaves;
    }
