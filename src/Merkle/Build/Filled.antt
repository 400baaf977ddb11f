-- ===== src/Merkle/Build/Filled.antt =====
-- About the loops of `from_leaves` of ossa-core/src/util/merkle_tree.rs.
use mathlib.Core.Path.{subst}
use ossa.Prelude.{
  ℕ, zero, suc, ◌+◌, ◌-◌, ◌*◌, ◌<◌, ◌≤◌, ◌≡◌, refl, sym, ◌∙◌, ap, inl, inr, ◌⊎◌, true, false,
  Bool-cases, Option, some, List, [], ◌∷◌, length, length-set, get_elem?, get_elem?-set,
  get_elem?-lt, set, drop, done, leb, ◌==◌, if◌then◌else◌, Ord, arith,
}
use ossa.Merkle.{Hash, combine, is_leaf}
use ossa.Merkle.Build.{unwrap_node, next_leaf, node_hash, fill_nodes}

module _ {N : Type 0} where
  -- the node `x` has the hash `v`
  abbrev pub At : List (Option N) → ℕ → N → Type 0
  At nodes x v = get_elem? nodes x ≡ some (some v)

  -- only the `n` nodes from `i` on are written
  pub record Wrote (nodes : List (Option N)) (i n : ℕ) (nodes' : List (Option N)) : Type 0 where
    pub size : length nodes' ≡ length nodes
    pub outside : (x : ℕ) → (x < i) ⊎ (i + n ≤ x) → get_elem? nodes' x ≡ get_elem? nodes x

  nothing : (nodes : List (Option N)) (i : ℕ) → Wrote nodes i 0 nodes
  nothing nodes i = record { size = refl; outside = λ x o. refl }

  written :
      (nodes : List (Option N)) (i x : ℕ) (v : N)
      → i < length nodes
      → get_elem? (set nodes i (some v)) x ≡ (if x == i then some (some v) else get_elem? nodes x)
  written nodes i x v l =
      let (w, e) = get_elem?-lt nodes i l in get_elem?-set nodes i x (some v) w e

  one_more :
      (nodes nodes' : List (Option N)) (i n : ℕ) (v : N)
      → i < length nodes
      → Wrote (set nodes i (some v)) (i + 1) n nodes'
      → Wrote nodes i (suc n) nodes'
  one_more nodes nodes' i n v l w = record {
    size = w.size ∙ length-set nodes i (some v);
    outside = λ x o.
        let far : (x < i + 1) ⊎ (i + 1 + n ≤ x) = ground arith in
        w.outside x far ∙ ground (arith, written nodes i x v l);
  }

module _ {N : Type 0} ⦃o : Ord N⦄ (hash : Hash N) (c : ℕ) where
  pub fill_leaves :
      (n i : ℕ) (nodes : List (Option N)) (leaves : List N)
      → c ≤ i
      → i + n ≤ length nodes
      → n ≤ length leaves
      → (nodes' : List (Option N)) × (fill_nodes hash (suc c) n i nodes leaves
          ≡ done (nodes', drop n leaves))
        × Wrote nodes i n nodes'
        × ((j : ℕ) (v : N) → j < n → get_elem? leaves j ≡ some v → At nodes' (i + j) v)
  unfolding fill_nodes node_hash is_leaf next_leaf
  fill_leaves zero i nodes leaves a b d =
      (nodes, refl, nothing nodes i, λ j v l e. absurd (omega arith))
  fill_leaves (suc n) i nodes [] a b d = absurd (omega arith)
  fill_leaves (suc n) i nodes (leaf ∷ leaves) a b d =
      let t : leb (suc c - 1) i ≡ true = ground arith in
      let n1 = set nodes i (some leaf) in
      let (nodes', e, w, at) =
        fill_leaves n (i + 1) n1 leaves (omega arith)
          (omega (arith, length-set nodes i (some leaf))) (omega arith) in
      (
        nodes',
        rw t e,
        one_more nodes nodes' i n leaf (omega arith) w,
        λ j v l g. here_or_later nodes' w at j v l g,
      )
    where
      here_or_later :
          (nodes' : List (Option N))
          → Wrote (set nodes i (some leaf)) (i + 1) n nodes'
          → ((j : ℕ) (v : N) → j < n → get_elem? leaves j ≡ some v → At nodes' (i + 1 + j) v)
          → (j : ℕ) (v : N) → j < suc n
          → get_elem? (leaf ∷ leaves) j ≡ some v
          → At nodes' (i + j) v
      here_or_later nodes' w at zero v l g =
          let k : i + 0 ≡ i = omega arith in
          ap (get_elem? nodes') k
          ∙ w.outside i (inl (omega arith))
          ∙ ground (arith, written nodes i i leaf (omega arith))
      here_or_later nodes' w at (suc j) v l g =
          let k : i + suc j ≡ i + 1 + j = omega arith in
          ap (get_elem? nodes') k ∙ at j v (omega arith) g

  -- a branch, from two children
  abbrev pub Branch : List (Option N) → List (Option N) → ℕ → Type 0
  Branch nodes nodes' x =
      (l : N) × (r : N) × At nodes (2 * x + 1) l
      × At nodes (2 * x + 2) r
      × At nodes' x (combine hash l r)

  pub fill_branches :
      (n i e : ℕ) (nodes : List (Option N)) (leaves : List N)
      → i + n ≤ c
      → i + n ≤ e
      → e ≤ 2 * i + 1
      → length nodes ≡ 2 * c + 1
      → ((x : ℕ) → e ≤ x → x < 2 * c + 1 → (v : N) × At nodes x v)
      → (nodes' : List (Option N)) × (fill_nodes hash (suc c) n i nodes leaves
          ≡ done (nodes', leaves))
        × Wrote nodes i n nodes'
        × ((x : ℕ) → i ≤ x → x < i + n → Branch nodes nodes' x)
  unfolding fill_nodes node_hash is_leaf unwrap_node
  fill_branches zero i e nodes leaves a b d size full =
      (nodes, refl, nothing nodes i, λ x l m. absurd (omega arith))
  fill_branches (suc n) i e nodes leaves a b d size full =
      let t : leb (suc c - 1) i ≡ false = ground arith in
      let (l, gl) = full (2 * i + 1) (omega arith) (omega arith) in
      let (r, gr) = full (2 * i + 2) (omega arith) (omega arith) in
      let h = combine hash l r in
      let n1 = set nodes i (some h) in
      let inside : i < length nodes = omega (arith, size) in
      let (nodes', f, w, br) =
        fill_branches n (i + 1) e n1 leaves (omega arith) (omega arith) (omega arith)
          (length-set nodes i (some h) ∙ size)
          (λ x p q. let (v, g) = full x p q in (v, ground (arith, written nodes i x h inside))) in
      (
        nodes',
        rw t (rw gl (rw gr f)),
        one_more nodes nodes' i n h inside w,
        λ x p q. elim (Bool-cases (x == i)) [
          | inl s ↦
              let k : x ≡ i = ground arith in
              subst (Branch nodes nodes') (sym k) (
                l,
                r,
                gl,
                gr,
                w.outside i (inl (omega arith)) ∙ ground (arith, written nodes i i h inside),
              )
          | inr s ↦
              let (l', r', gl', gr', g) = br x (ground arith) (omega arith) in
              (
                l',
                r',
                ground (arith, written nodes i (2 * x + 1) h inside),
                ground (arith, written nodes i (2 * x + 2) h inside),
                g,
              )
        ],
      )
