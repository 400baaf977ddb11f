-- ===== src/Merkle/Build/Correct.antt =====
-- About `from_leaves` and `from_chunks` of ossa-core/src/util/merkle_tree.rs.
use ossa.Prelude.{
  ℕ, zero, suc, ◌+◌, ◌-◌, ◌*◌, ◌^◌, ◌<◌, ◌≤◌, ◌≡◌, refl, ◌∙◌, ap, min, true, Option, none, some,
  List, [], ◌∷◌, map, length, length-replicate, get_elem?, get_elem?-bound, replicate, drop, done,
  ◌>>=◌, beq_iff, Ord, arith,
}
use ossa.Merkle.{Hash, combine, node_count_for_leaf_count}
use ossa.Merkle.Complete.{IsMerkle}
use ossa.Merkle.Leaves.{
  place, bottom_layer, bottom_layer_lem, pow_suc, pow_grows, index_for_leaf, index_for_leaf-place,
  hash_chunk, matches_leaf, validate_chunk, merkle_root,
}
use ossa.Merkle.Build.{fill_layers, from_leaves, from_hashes, from_chunks, collect_nodes}
use ossa.Merkle.Build.Filled.{At}
use ossa.Merkle.Build.Layers.{Built}
use ossa.Merkle.Build.Whole.{grow_top, grow_mixed, grow_lower, collect_nodes_lem}

module _ {N : Type 0} ⦃o : Ord N⦄ (hash : Hash N) (c : ℕ) (all : List N) where
  -- the layers from `b` on
  rest-Built :
      (b : ℕ) (nodes : List (Option N))
      → c + 1 ≤ 2 ^ b
      → 2 ^ b < 2 * (c + 1)
      → length all ≡ c + 1
      → Built hash c (2 ^ b) all nodes (2 ^ b - 1)
      → (r : List (Option N) × List N) × (fill_layers hash
            (suc c)
            (2 * c + 1)
            b
            nodes
            (drop (2 * c + 1 - (2 ^ b - 1)) all)
          ≡ done r)
        × Built hash c (2 ^ b) all r.0 0
  unfolding fill_layers
  rest-Built zero nodes high low len k = ((nodes, drop (2 * c + 1 - (2 ^ 0 - 1)) all), refl, k)
  rest-Built (suc b) nodes high low len k =
      let start = 2 ^ b - 1 in
      let p = 2 ^ suc b in
      let left = drop (2 * c + 1 - (p - 1)) all in
      let next_pow : 2 ^ (b + 1) ≡ 2 * 2 ^ b = ap (λ x. 2 ^ x) (omega arith) ∙ pow_suc b in
      let (n1, e, k1) =
        grow_mixed hash c p all nodes start high low (omega (arith, pow_suc b, pow_grows b)) len
          k in
      let (n2, f, k2) =
        grow_lower hash c p all b n1 (drop (p - 1 - c) left) high (omega (arith, pow_suc b)) k1 in
      let count : min (2 ^ (b + 1) - 1) (2 * c + 1) - start ≡ p - 1 - start =
        omega (arith, next_pow, pow_suc b, pow_grows b) in
      ((n2, drop (p - 1 - c) left), rw count (rw e f), k2)

  layers-Built :
      (b : ℕ)
      → c + 1 ≤ 2 ^ b
      → 2 ^ b < 2 * (c + 1)
      → length all ≡ c + 1
      → (r : List (Option N) × List N) × (fill_layers hash
            (suc c)
            (2 * c + 1)
            (suc b)
            (replicate (2 * c + 1) none)
            all
          ≡ done r)
        × Built hash c (2 ^ b) all r.0 0
  unfolding fill_layers
  layers-Built b high low len =
      let start = 2 ^ b - 1 in
      let next_pow : 2 ^ (b + 1) ≡ 2 * 2 ^ b = ap (λ x. 2 ^ x) (omega arith) ∙ pow_suc b in
      let (n1, e, k1) =
        grow_top hash c (2 ^ b) all (replicate (2 * c + 1) none) high low len
          (length-replicate (2 * c + 1) none) in
      let (r, f, k2) = rest-Built b n1 high low len k1 in
      let count : min (2 ^ (b + 1) - 1) (2 * c + 1) - start ≡ 2 * c + 1 - start =
        omega (arith, next_pow, pow_grows b) in
      (r, rw count (rw e f), k2)

  from_leaves_layers :
      length all ≡ suc c
      → from_leaves hash all ≡ (
          fill_layers hash
            (suc c)
            (2 * c + 1)
            (suc (bottom_layer (c + 1)))
            (replicate (2 * c + 1) none)
            all
          >>= λ r. collect_nodes (r.0))
  unfolding from_leaves node_count_for_leaf_count
  from_leaves_layers len =
      let one : bottom_layer (suc c) + 1 ≡ suc (bottom_layer (c + 1)) =
        omega (arith, ap bottom_layer (let k : suc c ≡ c + 1 = omega arith in k)) in
      let size : 2 * suc c - 1 ≡ 2 * c + 1 = omega arith in
      ap
        (λ n. node_count_for_leaf_count n >>= λ capacity.
          fill_layers hash n capacity (bottom_layer n + 1) (replicate capacity none) all >>= λ r.
          collect_nodes (r.0))
        len
      ∙ ap
          (λ capacity.
            fill_layers hash (suc c) capacity (bottom_layer (suc c) + 1) (replicate capacity none)
              all
            >>= λ r. collect_nodes (r.0))
          size
      ∙ ap
          (λ k. fill_layers hash (suc c) (2 * c + 1) k (replicate (2 * c + 1) none) all >>= λ r.
            collect_nodes (r.0))
          one

  -- what `from_leaves` makes of all the leaves
  abbrev pub Whole : List N → N → Type 0
  Whole tree root =
      (merkle_root tree ≡ done root)
      × IsMerkle hash root c tree
      × ((j : ℕ) (v : N)
          → get_elem? all j ≡ some v
          → (x : ℕ) × (index_for_leaf tree j ≡ done x) × (get_elem? tree x ≡ some v))

  Whole-of :
      (nodes : List (Option N)) (tree : List N)
      → length all ≡ c + 1
      → Built hash c (2 ^ bottom_layer (c + 1)) all nodes 0
      → length tree ≡ length nodes
      → ((x : ℕ) (v : N) → At nodes x v → get_elem? tree x ≡ some v)
      → (root : N) × Whole tree root
  unfolding merkle_root
  Whole-of nodes [] len k size at = absurd (omega (arith, size, k.size))
  Whole-of nodes (root ∷ tree) len k size at = (
    root,
    (
      refl,
      record {
        size = size ∙ k.size;
        top = refl;
        branches = λ i l g.
            let low = get_elem?-bound (root ∷ tree) (2 * i + 1) l g in
            let (y, z, gy, gz, h) = k.hashed i (omega arith) (omega (arith, size, k.size)) in
            let same : y ≡ l = (let e = at (2 * i + 1) y gy in ground arith) in
            (
              z,
              at (2 * i + 2) z gz,
              at i (combine hash y z) h ∙ ap (λ y. some (combine hash y z)) same,
            );
      },
      λ j v g.
          let low : j < length all = get_elem?-bound all j v g in
          (
            place c (2 ^ bottom_layer (c + 1)) j,
            index_for_leaf-place c (root ∷ tree) j (size ∙ k.size) (omega (arith, len)),
            at (place c (2 ^ bottom_layer (c + 1)) j) v (k.placed j v g (omega arith)),
          ),
    ),
  )

  -- Of one leaf or more `from_leaves` makes a tree without a panic: every branch is the hash of its
  -- children, and every leaf stands where `index_for_leaf` looks for it.
  pub from_leaves-IsMerkle :
      length all ≡ c + 1
      → (tree : List N) × (root : N) × (from_leaves hash all ≡ done tree) × Whole tree root
  from_leaves-IsMerkle len =
      let (high, low) = bottom_layer_lem (c + 1) (omega arith) in
      let (r, e, k) = layers-Built (bottom_layer (c + 1)) high low len in
      let (tree, f, size, at) =
        collect_nodes_lem (r.0) (λ x l. k.filled x (omega arith) (omega (arith, k.size))) in
      let (root, whole) = Whole-of (r.0) tree len k size at in
      (
        tree,
        root,
        from_leaves_layers (omega (arith, len)) ∙ ap (λ m. m >>= λ r. collect_nodes (r.0)) e ∙ f,
        whole,
      )

get_elem?-map :
    {A B : Type 0} (f : A → B) (xs : List A) (j : ℕ) (a : A)
    → get_elem? xs j ≡ some a
    → get_elem? (map f xs) j ≡ some (f a)
get_elem?-map f [] j a e = absurd (cc)
get_elem?-map f (x ∷ xs) zero a e = let h : x ≡ a = ground arith in ap (λ a. some (f a)) h
get_elem?-map f (x ∷ xs) (suc j) a e = get_elem?-map f xs j a e

length-map : {A B : Type 0} (f : A → B) (xs : List A) → length (map f xs) ≡ length xs
length-map f [] = refl
length-map f (x ∷ xs) = ap suc (length-map f xs)

-- Of one chunk or more `from_chunks` makes a tree of hashes without a panic, and the tree accepts each of
-- the chunks as the block of its number.
pub from_chunks-IsMerkle :
    {N : Type 0} ⦃o : Ord N⦄ (hash : Hash N) (c : ℕ) (chunks : List (List ℕ))
    → length chunks ≡ c + 1
    → (tree : List N) × (root : N) × (from_chunks hash chunks ≡ done tree)
      × (merkle_root tree ≡ done root)
      × IsMerkle hash root c tree
      × ((j : ℕ) (chunk : List ℕ)
          → get_elem? chunks j ≡ some chunk
          → validate_chunk hash tree j chunk ≡ done true)
unfolding from_chunks from_hashes validate_chunk matches_leaf
from_chunks-IsMerkle hash c [] len = absurd (omega arith)
from_chunks-IsMerkle hash c (first ∷ chunks) len =
    let leaves = map (hash_chunk hash) (first ∷ chunks) in
    let (tree, root, e, (m, mk, placed)) =
      from_leaves-IsMerkle hash c leaves (length-map (hash_chunk hash) (first ∷ chunks) ∙ len) in
    (
      tree,
      root,
      e,
      m,
      mk,
      λ j chunk g.
          let (x, i, h) =
            placed j (hash_chunk hash chunk)
              (get_elem?-map (hash_chunk hash) (first ∷ chunks) j chunk g) in
          let same = (beq_iff (hash_chunk hash chunk) (hash_chunk hash chunk)).1 refl in
          rw i (rw h (ap done same)),
    )
