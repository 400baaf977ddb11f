-- ===== src/Merkle/Leaves.antt =====
-- ossa-core/src/util/merkle_tree.rs: where the leaves of a tree stand, and the check of a chunk against its
-- leaf. Indices are `u64`; the code casts them to `usize`, which is as wide on the targets considered.
use ossa.Prelude.{
  ℕ, zero, suc, ◌+◌, ◌-◌, ◌*◌, ◌^◌, ◌≤◌, ◌<◌, ◌≡◌, refl, inl, inr, Bool, true, false, Bool-cases,
  Option, none, some, List, [], ◌∷◌, length, get_elem?, get_elem?-lt, Run, done, panic, ◌>>=◌, leb,
  ltb, beq, Ord, if◌then◌else◌, arith,
}
use native.Mathlib.Numerals.{unary_clauses}
use ossa.Merkle.{Hash, leaf_count}

-- the least layer from `k` on with room for `n` nodes, on fuel
unfoldable pub layer_from : ℕ → ℕ → ℕ → ℕ
layer_from zero k n = k
layer_from (suc fuel) k n = elim (leb n (2 ^ k)) [ true ↦ k | false ↦ layer_from fuel (suc k) n ]

-- `leaf_count.next_power_of_two().ilog2()`
unfoldable pub bottom_layer : ℕ → ℕ
unfolding layer_from
bottom_layer n = layer_from n 0 n

unfoldable pub index_for_leaf : {N : Type 0} → List N → ℕ → Run ℕ
unfolding leaf_count bottom_layer
index_for_leaf nodes leaf_index =
    if ltb leaf_index (leaf_count nodes)
    then (let index = 2 ^ bottom_layer (leaf_count nodes) - 1 + leaf_index in
        done (if leb (length nodes) index then index - leaf_count nodes else index))
    else panic

unfoldable pub merkle_root : {N : Type 0} → List N → Run N
merkle_root [] = panic
merkle_root (root ∷ nodes) = done root

-- `get`
unfoldable pub get_node : {N : Type 0} → List N → ℕ → Option N
get_node nodes index = get_elem? nodes index

module _ {N : Type 0} ⦃o : Ord N⦄ (hash : Hash N) where
  -- the leaf of a chunk
  unfoldable pub hash_chunk : List ℕ → N
  hash_chunk chunk = hash.finalize (hash.update hash.new chunk)

  unfoldable pub matches_leaf : Option N → List ℕ → Run Bool
  unfolding hash_chunk
  matches_leaf none chunk = panic
  matches_leaf (some expected_hash) chunk = done (beq expected_hash (hash_chunk chunk))

  unfoldable pub validate_chunk : List N → ℕ → List ℕ → Run Bool
  unfolding index_for_leaf matches_leaf
  validate_chunk nodes leaf_index chunk =
      index_for_leaf nodes leaf_index >>= λ index. matches_leaf (get_elem? nodes index) chunk

pub pow_suc : (k : ℕ) → 2 ^ suc k ≡ 2 * 2 ^ k
pow_suc k = simp unary_clauses (omega arith)

pub pow_grows : (k : ℕ) → k < 2 ^ k
pow_grows zero = omega arith
pow_grows (suc k) = omega (arith, pow_suc k, pow_grows k)

layer_from_lem :
    (fuel k n : ℕ)
    → 2 ^ k < 2 * n
    → n ≤ k + fuel
    → (n ≤ 2 ^ layer_from fuel k n) × (2 ^ layer_from fuel k n < 2 * n)
unfolding layer_from
layer_from_lem zero k n low high = (omega (arith, pow_grows k), low)
layer_from_lem (suc fuel) k n low high = elim (Bool-cases (leb n (2 ^ k))) [
  | inl e ↦ rw (e, layer_from) (ground arith, low)
  | inr e ↦
      let below : 2 ^ k < n = ground arith in
      let more = layer_from_lem fuel (suc k) n (omega (arith, pow_suc k)) (omega arith) in
      rw (e, layer_from) more
]

-- The least power of two that holds the leaves is less than twice their number.
pub bottom_layer_lem : (n : ℕ) → 0 < n → (n ≤ 2 ^ bottom_layer n) × (2 ^ bottom_layer n < 2 * n)
unfolding bottom_layer
bottom_layer_lem n p = layer_from_lem n 0 n (omega arith) (omega arith)

pub leaves_of :
    {N : Type 0} (c : ℕ) (nodes : List N) → length nodes ≡ 2 * c + 1 → leaf_count nodes ≡ c + 1
unfolding leaf_count
leaves_of c nodes e = omega arith

-- where a leaf stands, with the power of two as a variable
abbrev pub place : ℕ → ℕ → ℕ → ℕ
place c p i = if leb (2 * c + 1) (p - 1 + i) then p - 1 + i - (c + 1) else p - 1 + i

pub index_for_leaf-place :
    {N : Type 0} (c : ℕ) (nodes : List N) (i : ℕ)
    → length nodes ≡ 2 * c + 1
    → i ≤ c
    → index_for_leaf nodes i ≡ done (place c (2 ^ bottom_layer (c + 1)) i)
unfolding index_for_leaf
index_for_leaf-place c nodes i e l =
    let n = leaves_of c nodes e in
    rw (n, e) (let t : ltb i (c + 1) ≡ true = ground arith in rw t refl)

place_bounds :
    (c p i : ℕ) → c + 1 ≤ p → p < 2 * (c + 1) → i ≤ c → (c ≤ place c p i) × (place c p i ≤ 2 * c)
place_bounds c p i low high l = ground arith

place_distinct :
    (c p i j : ℕ) → c + 1 ≤ p → p < 2 * (c + 1) → i ≤ c → j ≤ c → place c p i ≡ place c p j → i ≡ j
place_distinct c p i j low high li lj e = ground arith

-- In a tree of `c + 1` leaves every leaf has an index, which is that of a node without children, and
-- distinct leaves have distinct indices.
pub index_for_leaf-bounds :
    {N : Type 0} (c : ℕ) (nodes : List N) (i j : ℕ)
    → length nodes ≡ 2 * c + 1
    → i ≤ c
    → j ≤ c
    → (x : ℕ) × (y : ℕ) × (index_for_leaf nodes i ≡ done x)
      × (index_for_leaf nodes j ≡ done y)
      × (c ≤ x)
      × (x ≤ 2 * c)
      × (x ≡ y → i ≡ j)
index_for_leaf-bounds c nodes i j e li lj =
    let p = 2 ^ bottom_layer (c + 1) in
    let (low, high) = bottom_layer_lem (c + 1) (omega arith) in
    let (down, up) = place_bounds c p i low high li in
    (
      place c p i,
      place c p j,
      index_for_leaf-place c nodes i e li,
      index_for_leaf-place c nodes j e lj,
      down,
      up,
      place_distinct c p i j low high li lj,
    )

-- The check of a chunk of such a tree does not panic.
pub validate_chunk_total :
    {N : Type 0} ⦃o : Ord N⦄ (hash : Hash N) (c : ℕ) (nodes : List N) (i : ℕ) (chunk : List ℕ)
    → length nodes ≡ 2 * c + 1
    → i ≤ c
    → (b : Bool) × (validate_chunk hash nodes i chunk ≡ done b)
unfolding validate_chunk matches_leaf
validate_chunk_total hash c nodes i chunk e l =
    let (x, y, f, _, down, up, _) = index_for_leaf-bounds c nodes i i e l l in
    let (v, g) = get_elem?-lt nodes x (omega arith) in
    (beq v (hash_chunk hash chunk), rw f (rw g refl))
