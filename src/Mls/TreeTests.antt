-- ===== src/Mls/TreeTests.antt =====
-- Runs of packages/mls/src/secret-tree.ts on a tree of two leaves: node 1 is the root, nodes 0 and 2
-- are the leaves.
use kumiai.Mls.SecretTree.Merge.{
  merge-is_unspent, merged-IsApart, of_handshake, first_below, is_unspent,
}
use kumiai.Mls.SecretTree.{GenerationSecret, merge_receive_secret_tree, SecretTree}
use kumiai.Shared.{◌<◌, ◌≤◌, ◌⊎◌, ◌+◌, ◌-◌, ◌*◌, ◌^◌, ℕ, ◌≡◌, refl, true, [], ◌∷◌, arith}
use kumiai.Shared.Map
use kumiai.Shared.Map.{Map, get-set, get-delete, get-empty}

abbrev at_generation : ℕ → Map ℕ → GenerationSecret
at_generation generation unused = record {
  secret = 1;
  generation = generation;
  unused_generations = unused;
}

-- One copy has derived leaf 0 and holds the other leaf's secret; the other copy is not expanded.
abbrev expanded : SecretTree
expanded = record {
  leaf_width = 2;
  intermediate_nodes = (2, 30) ∷ [];
  leaf_nodes =
      (0, record { handshake = at_generation 3 ((1, 40) ∷ []); application = at_generation 0 [] })
      ∷ [];
}

abbrev at_root : SecretTree
at_root = record { leaf_width = 2; intermediate_nodes = (1, 50) ∷ []; leaf_nodes = [] }

root_goes : (merge_receive_secret_tree at_root expanded).intermediate_nodes ≡ (2, 30) ∷ []
unfolding merge_receive_secret_tree Map.get Map.set Map.keys
root_goes = refl

merge-is_unspent_example :
    is_unspent of_handshake 1 (Map.get 0 (merge_receive_secret_tree expanded expanded).leaf_nodes)
    ≡ true
unfolding Map.get Map.keys
merge-is_unspent_example = merge-is_unspent expanded expanded 0 1 of_handshake (refl, tt)

-- Of four leaves, one copy has expanded the left half to its node, and the other copy the right.
abbrev left_half : SecretTree
left_half = record { leaf_width = 4; intermediate_nodes = (1, 50) ∷ []; leaf_nodes = [] }

abbrev right_half : SecretTree
right_half = record { leaf_width = 4; intermediate_nodes = (5, 60) ∷ []; leaf_nodes = [] }

merged-IsApart_example : (5 < first_below 1 0) ⊎ (first_below 1 0 + (2 * 2 ^ 1 - 1) ≤ 5)
unfolding merge_receive_secret_tree Map.get Map.set Map.keys
merged-IsApart_example =
    merged-IsApart left_half right_half 1 0 5 (omega arith) refl refl (λ e. omega (arith, e))
