-- ===== src/Merkle/Tests.antt =====
-- Trees of two and of three leaves; the hash of some bytes is their digits.
use ossa.Prelude.{
  true, ℕ, ◌+◌, ◌*◌, ◌≡◌, ◌≤◌, Bool, refl, some, List, [], ◌∷◌, done, ◌>>=◌, get_elem?, nat_ord,
  arith,
}
use ossa.Merkle.{
  Hash, Potential, absent, unverified, verified, combine, new_with_capacity,
  node_count_for_leaf_count, missing_indices, missing_from, is_none, try_complete, set_potential,
  set_node, validate_children, check_children, check_siblings, accepted, is_leaf, leaf_count,
}
use ossa.Merkle.Leaves.{
  index_for_leaf, bottom_layer, layer_from, validate_chunk, index_for_leaf-bounds,
  validate_chunk_total,
}
use ossa.Merkle.Build.{
  from_chunks, from_hashes, from_leaves, fill_layers, fill_nodes, node_hash, next_leaf, unwrap_node,
  collect_nodes,
}
use ossa.Merkle.Build.Correct.{from_chunks-IsMerkle}
use ossa.Merkle.Leaves.{merkle_root}
use ossa.Merkle.Complete.{IsMerkle, set_all, set_all-IsMerkle}

abbrev append_digits : ℕ → List ℕ → ℕ
append_digits s [] = s
append_digits s (b ∷ bs) = append_digits (10 * s + b) bs

abbrev digits : Hash ℕ
digits = record {
  HashState = ℕ;
  new = 0;
  update = append_digits;
  finalize = λ s. s;
  as_ref = λ n. n ∷ [];
}

-- the second child arrives, and both are verified
two_leaves :
    (new_with_capacity 34 2 >>= λ start. set_all digits 34 1 start ((2, 4) ∷ (1, 3) ∷ []))
    ≡ done (verified 34 ∷ verified 3 ∷ verified 4 ∷ [])
unfolding set_all new_with_capacity node_count_for_leaf_count set_potential set_node
    validate_children check_children check_siblings combine accepted is_leaf leaf_count
two_leaves = refl

-- children that do not match are dropped again
mismatch :
    (new_with_capacity 34 2 >>= λ start. set_all digits 34 1 start ((2, 4) ∷ (1, 5) ∷ []))
    ≡ done (verified 34 ∷ absent ∷ absent ∷ [])
unfolding set_all new_with_capacity node_count_for_leaf_count set_potential set_node
    validate_children check_children check_siblings combine accepted is_leaf leaf_count
mismatch = refl

-- leaves that came before their parent are verified with it
three_leaves :
    (new_with_capacity 346 3 >>= λ start.
    set_all digits 346 2 start ((3, 3) ∷ (4, 4) ∷ (2, 6) ∷ (1, 34) ∷ []))
    ≡ done (verified 346 ∷ verified 34 ∷ verified 6 ∷ verified 3 ∷ verified 4 ∷ [])
unfolding set_all new_with_capacity node_count_for_leaf_count set_potential set_node
    validate_children check_children check_siblings combine accepted is_leaf leaf_count
three_leaves = refl

missing : missing_indices {N = ℕ} (verified 34 ∷ absent ∷ unverified 4 ∷ absent ∷ []) ≡ 1 ∷ 3 ∷ []
unfolding missing_indices missing_from is_none
missing = refl

set_all-IsMerkle_example :
    (nodes : List (Potential ℕ)) × ((new_with_capacity 34 2 >>= λ start.
    set_all digits 34 1 start ((2, 4) ∷ (1, 3) ∷ []))
      ≡ done nodes)
    × ((tree : List ℕ) → try_complete nodes ≡ some tree → IsMerkle digits 34 1 tree)
set_all-IsMerkle_example = set_all-IsMerkle digits 34 1 ((2, 4) ∷ (1, 3) ∷ [])

abbrev three_leaf_tree : List ℕ
three_leaf_tree = 346 ∷ 34 ∷ 6 ∷ 3 ∷ 4 ∷ []

-- the leaves in order are at 3, 4 and 2
leaf_places :
    (index_for_leaf three_leaf_tree 0 ≡ done 3)
    × (index_for_leaf three_leaf_tree 1 ≡ done 4)
    × (index_for_leaf three_leaf_tree 2 ≡ done 2)
unfolding index_for_leaf bottom_layer layer_from leaf_count
leaf_places = (refl, refl, refl)

index_for_leaf-bounds_example :
    (x : ℕ) × (y : ℕ) × (index_for_leaf three_leaf_tree 2 ≡ done x)
    × (index_for_leaf three_leaf_tree 0 ≡ done y)
    × (2 ≤ x)
    × (x ≤ 2 * 2)
    × (x ≡ y → ◌≡◌ {A = ℕ} 2 0)
index_for_leaf-bounds_example =
    index_for_leaf-bounds 2 three_leaf_tree 2 0 refl (omega arith) (omega arith)

validate_chunk_total_example :
    (b : Bool) × (validate_chunk digits three_leaf_tree 2 (6 ∷ []) ≡ done b)
validate_chunk_total_example =
    validate_chunk_total digits 2 three_leaf_tree 2 (6 ∷ []) refl (omega arith)

-- the tree of three chunks, and the one of none
built :
    (from_chunks digits ((3 ∷ []) ∷ (4 ∷ []) ∷ (6 ∷ []) ∷ []) ≡ done three_leaf_tree)
    × (from_chunks digits [] ≡ done (0 ∷ []))
unfolding from_chunks from_hashes from_leaves node_count_for_leaf_count fill_layers bottom_layer
    fill_nodes node_hash is_leaf next_leaf unwrap_node collect_nodes combine
built = (refl, refl)

from_chunks-IsMerkle_example :
    (tree : List ℕ) × (root : ℕ) × (from_chunks digits ((3 ∷ []) ∷ (4 ∷ []) ∷ (6 ∷ []) ∷ [])
      ≡ done tree)
    × (merkle_root tree ≡ done root)
    × IsMerkle digits root 2 tree
    × ((j : ℕ) (chunk : List ℕ)
        → get_elem? ((3 ∷ []) ∷ (4 ∷ []) ∷ (6 ∷ []) ∷ []) j ≡ some chunk
        → validate_chunk digits tree j chunk ≡ done true)
from_chunks-IsMerkle_example =
    from_chunks-IsMerkle digits 2 ((3 ∷ []) ∷ (4 ∷ []) ∷ (6 ∷ []) ∷ []) refl
