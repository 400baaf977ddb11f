-- ===== src/Merkle/Build.antt =====
-- ossa-core/src/util/merkle_tree.rs: the tree over some leaves, which a store is created with.
pub mod Filled
pub mod Layers
pub mod Whole
pub mod Correct
use ossa.Prelude.{
  ℕ, zero, suc, ◌+◌, ◌-◌, ◌*◌, ◌^◌, ◌<◌, ◌≤◌, ◌≡◌, refl, sym, ◌∙◌, ap, inl, inr, min, Bool, true,
  false, Bool-cases, Option, none, some, List, [], ◌∷◌, map, length, length-set, get_elem?,
  get_elem?-set, get_elem?-lt, set, replicate, drop, Run, done, panic, ◌>>=◌, leb, ◌==◌,
  if◌then◌else◌, Ord, arith,
}
use ossa.Merkle.{Hash, combine, node_count_for_leaf_count, is_leaf}
use ossa.Merkle.Leaves.{bottom_layer, hash_chunk}

module _ {N : Type 0} where
  -- `nodes[index].unwrap()`
  unfoldable pub unwrap_node : Option (Option N) → Run N
  unwrap_node none = panic
  unwrap_node (some none) = panic
  unwrap_node (some (some h)) = done h

  -- `leaves.next().unwrap()`
  unfoldable pub next_leaf : List N → Run (N × List N)
  next_leaf [] = panic
  next_leaf (leaf ∷ leaves) = done (leaf, leaves)

  -- `nodes.into_iter().collect()`
  unfoldable pub collect_nodes : List (Option N) → Run (List N)
  collect_nodes [] = done []
  collect_nodes (none ∷ nodes) = panic
  collect_nodes (some h ∷ nodes) = collect_nodes nodes >>= λ hs. done (h ∷ hs)

module _ {N : Type 0} ⦃o : Ord N⦄ (hash : Hash N) where
  -- the hash of the node `i`, and the leaves that are left
  unfoldable pub node_hash : ℕ → ℕ → List (Option N) → List N → Run (N × List N)
  node_hash leaf_count i nodes leaves =
      if is_leaf leaf_count i
      then next_leaf leaves
      else (unwrap_node (get_elem? nodes (2 * i + 1)) >>= λ left.
          unwrap_node (get_elem? nodes (2 * i + 2)) >>= λ right.
          done (combine hash left right, leaves))

  -- so many nodes from `i` on
  unfoldable pub fill_nodes : ℕ → ℕ → ℕ → List (Option N) → List N → Run (List (Option N) × List N)
  fill_nodes leaf_count zero i nodes leaves = done (nodes, leaves)
  fill_nodes leaf_count (suc n) i nodes leaves =
      node_hash leaf_count i nodes leaves >>= λ (h, leaves').
      fill_nodes leaf_count n (i + 1) (set nodes i (some h)) leaves'

  -- the layers below one, from the last to the root
  unfoldable pub fill_layers : ℕ → ℕ → ℕ → List (Option N) → List N → Run (List (Option N) × List N)
  fill_layers leaf_count capacity zero nodes leaves = done (nodes, leaves)
  fill_layers leaf_count capacity (suc layer) nodes leaves =
      let start = 2 ^ layer - 1 in
      let stop = min (2 ^ (layer + 1) - 1) capacity in
      fill_nodes leaf_count (stop - start) start nodes leaves >>= λ (nodes', leaves').
      fill_layers leaf_count capacity layer nodes' leaves'

  -- no leaves panic, by the count of nodes already
  unfoldable pub from_leaves : List N → Run (List N)
  from_leaves leaves = node_count_for_leaf_count (length leaves) >>= λ capacity.
      fill_layers (length leaves) capacity (bottom_layer (length leaves) + 1)
        (replicate capacity none) leaves
      >>= λ (nodes, rest). collect_nodes nodes

  unfoldable pub from_hashes : List N → Run (List N)
  unfolding hash_chunk
  from_hashes [] = from_leaves (hash_chunk hash [] ∷ [])
  from_hashes (leaf ∷ leaves) = from_leaves (leaf ∷ leaves)

  -- of no chunks at all it is the tree of one that is empty
  unfoldable pub from_chunks : List (List ℕ) → Run (List N)
  unfolding from_hashes hash_chunk
  from_chunks chunks = from_hashes (map (hash_chunk hash) chunks)
