-- ===== src/Merkle/Build/Layers.antt =====
-- About the layers that `from_leaves` of ossa-core/src/util/merkle_tree.rs fills, from the last to the root.
use ossa.Prelude.{
  ℕ, zero, suc, ◌+◌, ◌*◌, ◌<◌, ◌≤◌, ◌≡◌, refl, sym, ◌∙◌, ap, inl, inr, Bool-cases, Option, some,
  List, [], ◌∷◌, length, get_elem?, get_elem?-bound, set, drop, Run-cases, done, panic, ◌>>=◌, ltb,
  Ord, arith,
}
use ossa.Merkle.{Hash, combine}
use ossa.Merkle.Leaves.{place}
use ossa.Merkle.Build.{node_hash, fill_nodes}
use ossa.Merkle.Build.Filled.{At, Wrote, Branch}

pub get_elem?-drop :
    {N : Type 0} (n j : ℕ) (xs : List N) → get_elem? (drop n xs) j ≡ get_elem? xs (n + j)
get_elem?-drop zero j xs = ap (get_elem? xs) (omega arith)
get_elem?-drop (suc n) j [] = refl
get_elem?-drop (suc n) j (x ∷ xs) =
    let k : suc n + j ≡ suc (n + j) = omega arith in
    get_elem?-drop n j xs ∙ ap (get_elem? (x ∷ xs)) (sym k)

module _ {N : Type 0} ⦃o : Ord N⦄ (hash : Hash N) where
  pub fill_join :
      (leaf_count n m k i : ℕ) (nodes a : List (Option N)) (leaves b : List N)
      (r : List (Option N) × List N)
      → k ≡ n + m
      → fill_nodes hash leaf_count n i nodes leaves ≡ done (a, b)
      → fill_nodes hash leaf_count m (i + n) a b ≡ done r
      → fill_nodes hash leaf_count k i nodes leaves ≡ done r
  unfolding fill_nodes
  fill_join lc zero m k i nodes a leaves b r e f g =
      let ea : a ≡ nodes = ground arith in
      let eb : b ≡ leaves = ground arith in
      let ei : i ≡ i + 0 = omega arith in
      let ek : k ≡ m = omega arith in
      ap (λ k. fill_nodes hash lc k i nodes leaves) ek
      ∙ ap (λ i. fill_nodes hash lc m i nodes leaves) ei
      ∙ ap (λ x. fill_nodes hash lc m (i + 0) x leaves) (sym ea)
      ∙ ap (λ x. fill_nodes hash lc m (i + 0) a x) (sym eb)
      ∙ g
  fill_join lc (suc n) m zero i nodes a leaves b r e f g = absurd (omega arith)
  fill_join lc (suc n) m (suc k) i nodes a leaves b r e f g =
      elim (Run-cases (node_hash hash lc i nodes leaves)) [
        | inr p ↦
            let pair : List (Option N) × List N = (a, b) in
            let q : panic ≡ done pair =
              ap (λ r. r >>= λ x. fill_nodes hash lc n (i + 1) (set nodes i (some (x.0))) (x.1))
                (sym p)
              ∙ f in
            absurd (cc)
        | inl ((h, rest), p) ↦
            let f' : fill_nodes hash lc n (i + 1) (set nodes i (some h)) rest ≡ done (a, b) =
              ap (λ r. r >>= λ x. fill_nodes hash lc n (i + 1) (set nodes i (some (x.0))) (x.1))
                (sym p)
              ∙ f in
            let ei : i + suc n ≡ i + 1 + n = omega arith in
            let g' : fill_nodes hash lc m (i + 1 + n) a b ≡ done r =
              ap (λ i. fill_nodes hash lc m i a b) (sym ei) ∙ g in
            rw p (fill_join lc n m k (i + 1) (set nodes i (some h)) a rest b r (omega arith) f' g')
      ]

module _ {N : Type 0} ⦃o : Ord N⦄ (hash : Hash N) (c p : ℕ) (all : List N) where
  -- the nodes from `s` on are those of the tree over the leaves `all`
  pub record Built (nodes : List (Option N)) (s : ℕ) : Type 0 where
    pub size : length nodes ≡ 2 * c + 1
    pub filled : (x : ℕ) → s ≤ x → x < 2 * c + 1 → (v : N) × At nodes x v
    pub hashed : (x : ℕ) → s ≤ x → x < c → Branch hash c nodes nodes x
    pub placed :
        (j : ℕ) (v : N) → get_elem? all j ≡ some v → s ≤ place c p j → At nodes (place c p j) v

  moved :
      (nodes nodes' : List (Option N)) (x : ℕ) (v : N)
      → get_elem? nodes' x ≡ get_elem? nodes x
      → At nodes x v
      → At nodes' x v
  moved nodes nodes' x v e g = e ∙ g

  -- a layer of branches
  pub grow_branches :
      (nodes nodes' : List (Option N)) (s i n : ℕ)
      → c + 1 ≤ p
      → Built nodes s
      → i + n ≡ s
      → s ≤ c
      → s ≤ 2 * i + 1
      → Wrote nodes i n nodes'
      → ((x : ℕ) → i ≤ x → x < i + n → Branch hash c nodes nodes' x)
      → Built nodes' i
  grow_branches nodes nodes' s i n high b e low near w br =
      let after : (x : ℕ) → s ≤ x → get_elem? nodes' x ≡ get_elem? nodes x =
        λ x l. w.outside x (inr (omega arith)) in
      record {
        size = w.size ∙ b.size;
        filled = λ x l m. elim (Bool-cases (ltb x s)) [
          | inl t ↦ let (y, z, gy, gz, g) = br x l (ground arith) in (combine hash y z, g)
          | inr t ↦
              let above : s ≤ x = ground arith in
              let (v, g) = b.filled x above m in (v, after x above ∙ g)
        ];
        hashed = λ x l m. elim (Bool-cases (ltb x s)) [
          | inl t ↦
              let (y, z, gy, gz, g) = br x l (ground arith) in
              (y, z, after (2 * x + 1) (omega arith) ∙ gy, after (2 * x + 2) (omega arith) ∙ gz, g)
          | inr t ↦
              let above : s ≤ x = ground arith in
              let (y, z, gy, gz, g) = b.hashed x above m in
              (
                y,
                z,
                after (2 * x + 1) (omega arith) ∙ gy,
                after (2 * x + 2) (omega arith) ∙ gz,
                after x above ∙ g,
              )
        ];
        placed = λ j v g l.
            let in_tree : j < length all = get_elem?-bound all j v g in
            let up : s ≤ place c p j = ground arith in after (place c p j) up ∙ b.placed j v g up;
      }
