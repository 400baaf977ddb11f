-- ===== src/Merkle/Build/Whole.antt =====
-- About `from_leaves` of ossa-core/src/util/merkle_tree.rs as a whole.
use ossa.Prelude.{
  ℕ, zero, suc, ◌+◌, ◌-◌, ◌*◌, ◌^◌, ◌<◌, ◌≤◌, ◌≡◌, refl, sym, ◌∙◌, ap, inl, inr, min, Bool-cases,
  Option, none, some, List, [], ◌∷◌, length, length-drop, get_elem?, get_elem?-lt, get_elem?-bound,
  drop, done, ltb, Ord, arith,
}
use ossa.Merkle.{Hash, combine}
use ossa.Merkle.Leaves.{place, pow_suc, pow_grows}
use ossa.Merkle.Build.{fill_nodes, fill_layers, collect_nodes}
use ossa.Merkle.Build.Filled.{At, Wrote, Branch, fill_leaves, fill_branches}
use ossa.Merkle.Build.Layers.{get_elem?-drop, fill_join, Built, grow_branches}

module _ {N : Type 0} ⦃o : Ord N⦄ (hash : Hash N) (c p : ℕ) (all : List N) where
  -- the last layer holds leaves only
  pub grow_top :
      (nodes : List (Option N))
      → c + 1 ≤ p
      → p < 2 * (c + 1)
      → length all ≡ c + 1
      → length nodes ≡ 2 * c + 1
      → (nodes' : List (Option N)) × (fill_nodes hash
            (suc c)
            (2 * c + 1 - (p - 1))
            (p - 1)
            nodes
            all
          ≡ done (nodes', drop (2 * c + 1 - (p - 1)) all))
        × Built hash c p all nodes' (p - 1)
  grow_top nodes high low len size =
      let n = 2 * c + 1 - (p - 1) in
      let (nodes', e, w, at) =
        fill_leaves hash c n (p - 1) nodes all (omega arith) (omega (arith, size))
          (omega (arith, len)) in
      (
        nodes',
        e,
        record {
          size = w.size ∙ size;
          filled = λ x l m.
              let (v, g) = get_elem?-lt all (x - (p - 1)) (omega (arith, len)) in
              let k : p - 1 + (x - (p - 1)) ≡ x = omega arith in
              (v, ap (get_elem? nodes') (sym k) ∙ at (x - (p - 1)) v (omega arith) g);
          hashed = λ x l m. absurd (omega arith);
          placed = λ j v g l.
              let in_tree : j < length all = get_elem?-bound all j v g in
              let k : place c p j ≡ p - 1 + j = ground (arith, len) in
              let short : j < n = ground (arith, len) in ap (get_elem? nodes') k ∙ at j v short g;
        },
      )

  -- the layer above it: branches, then the leaves that are left
  mixed_layer :
      (nodes n1 n2 : List (Option N)) (i : ℕ)
      → c + 1 ≤ p
      → p < 2 * (c + 1)
      → p ≡ 2 * i + 2
      → length all ≡ c + 1
      → Built hash c p all nodes (p - 1)
      → Wrote nodes i (c - i) n1
      → ((x : ℕ) → i ≤ x → x < i + (c - i) → Branch hash c nodes n1 x)
      → Wrote n1 (i + (c - i)) (p - 1 - c) n2
      → ((j : ℕ) (v : N)
          → j < p - 1 - c
          → get_elem? (drop (2 * c + 1 - (p - 1)) all) j ≡ some v
          → At n2 (i + (c - i) + j) v)
      → Built hash c p all n2 i
  mixed_layer nodes n1 n2 i high low half len b w1 br w2 at =
      let taken = 2 * c + 1 - (p - 1) in
      let rest = drop taken all in
      let rest_len : length rest ≡ p - 1 - c = omega (arith, length-drop taken all, len) in
      let after : (x : ℕ) → p - 1 ≤ x → get_elem? n2 x ≡ get_elem? nodes x =
        λ x l. w2.outside x (inr (omega arith)) ∙ w1.outside x (inr (omega arith)) in
      record {
        size = w2.size ∙ w1.size ∙ b.size;
        filled = λ x l m. elim (Bool-cases (ltb x c)) [
          | inl t ↦
              let (y, z, gy, gz, g) = br x l (ground arith) in
              (combine hash y z, w2.outside x (inl (ground arith)) ∙ g)
          | inr t ↦ elim (Bool-cases (ltb x (p - 1))) [
            | inl u ↦
                let (v, g) = get_elem?-lt rest (x - c) (ground (arith, rest_len)) in
                let k : i + (c - i) + (x - c) ≡ x = ground arith in
                (v, ap (get_elem? n2) (sym k) ∙ at (x - c) v (ground arith) g)
            | inr u ↦
                let above : p - 1 ≤ x = ground arith in
                let (v, g) = b.filled x above m in (v, after x above ∙ g)
          ]
        ];
        hashed = λ x l m.
            let (y, z, gy, gz, g) = br x l (omega arith) in
            (
              y,
              z,
              after (2 * x + 1) (omega arith) ∙ gy,
              after (2 * x + 2) (omega arith) ∙ gz,
              w2.outside x (inl (omega arith)) ∙ g,
            );
        placed = λ j v g l. elim (Bool-cases (ltb (place c p j) (p - 1))) [
          | inl t ↦
              let in_tree : j < length all = get_elem?-bound all j v g in
              let k : place c p j ≡ i + (c - i) + (j - taken) = ground (arith, len) in
              let short : j - taken < p - 1 - c = ground (arith, len) in
              let beyond : taken + (j - taken) ≡ j = ground (arith, len) in
              let h : get_elem? rest (j - taken) ≡ some v =
                get_elem?-drop taken (j - taken) all ∙ ap (get_elem? all) beyond ∙ g in
              ap (get_elem? n2) k ∙ at (j - taken) v short h
          | inr t ↦
              let above : p - 1 ≤ place c p j = ground arith in
              after (place c p j) above ∙ b.placed j v g above
        ];
      }

  pub grow_mixed :
      (nodes : List (Option N)) (i : ℕ)
      → c + 1 ≤ p
      → p < 2 * (c + 1)
      → p ≡ 2 * i + 2
      → length all ≡ c + 1
      → Built hash c p all nodes (p - 1)
      → (nodes' : List (Option N)) × (fill_nodes hash
            (suc c)
            (p - 1 - i)
            i
            nodes
            (drop (2 * c + 1 - (p - 1)) all)
          ≡ done (nodes', drop (p - 1 - c) (drop (2 * c + 1 - (p - 1)) all)))
        × Built hash c p all nodes' i
  grow_mixed nodes i high low half len b =
      let rest = drop (2 * c + 1 - (p - 1)) all in
      let (n1, e1, w1, br) =
        fill_branches hash c (c - i) i (p - 1) nodes rest (omega arith) (omega arith) (omega arith)
          b.size b.filled in
      let (n2, e2, w2, at) =
        fill_leaves hash c (p - 1 - c) (i + (c - i)) n1 rest (omega arith)
          (omega (arith, w1.size, b.size))
          (omega (arith, length-drop (2 * c + 1 - (p - 1)) all, len)) in
      (
        n2,
        fill_join hash (suc c) (c - i) (p - 1 - c) (p - 1 - i) i nodes n1 rest rest
            (n2, drop (p - 1 - c) rest) (omega arith) e1 e2,
        mixed_layer nodes n1 n2 i high low half len b w1 br w2 at,
      )

  -- the layers above that hold branches only
  pub grow_lower :
      (k : ℕ) (nodes : List (Option N)) (leaves : List N)
      → c + 1 ≤ p
      → 2 ^ k - 1 ≤ c
      → Built hash c p all nodes (2 ^ k - 1)
      → (nodes' : List (Option N)) × (fill_layers hash (suc c) (2 * c + 1) k nodes leaves
          ≡ done (nodes', leaves))
        × Built hash c p all nodes' 0
  unfolding fill_layers
  grow_lower zero nodes leaves high low b = (nodes, refl, b)
  grow_lower (suc k) nodes leaves high low b =
      let start = 2 ^ k - 1 in
      let n = min (2 ^ (k + 1) - 1) (2 * c + 1) - start in
      let next_pow : 2 ^ (k + 1) ≡ 2 * 2 ^ k = ap (λ x. 2 ^ x) (omega arith) ∙ pow_suc k in
      let (n1, e, w, br) =
        fill_branches hash c n start (2 ^ suc k - 1) nodes leaves
          (omega (arith, next_pow, pow_suc k, pow_grows k))
          (omega (arith, next_pow, pow_suc k, pow_grows k))
          (omega (arith, next_pow, pow_suc k, pow_grows k)) b.size b.filled in
      let b1 =
        grow_branches hash c p all nodes n1 (2 ^ suc k - 1) start n high b
          (omega (arith, next_pow, pow_suc k, pow_grows k)) low
          (omega (arith, next_pow, pow_suc k, pow_grows k)) w br in
      let (n2, f, b2) = grow_lower k n1 leaves high (omega (arith, pow_suc k, pow_grows k)) b1 in
      (n2, rw e f, b2)

module _ {N : Type 0} where
  cons-At :
      (nodes : List (Option N)) (h : N) (tree : List N)
      → ((x : ℕ) (v : N) → At nodes x v → get_elem? tree x ≡ some v)
      → (x : ℕ) (v : N) → At (some h ∷ nodes) x v
      → get_elem? (h ∷ tree) x ≡ some v
  cons-At nodes h tree at zero v g = ground arith
  cons-At nodes h tree at (suc x) v g = at x v g

  -- where every node is there
  pub collect_nodes_lem :
      (nodes : List (Option N))
      → ((x : ℕ) → x < length nodes → (v : N) × At nodes x v)
      → (tree : List N) × (collect_nodes nodes ≡ done tree)
        × (length tree ≡ length nodes)
        × ((x : ℕ) (v : N) → At nodes x v → get_elem? tree x ≡ some v)
  unfolding collect_nodes
  collect_nodes_lem [] full = ([], refl, refl, λ x v g. absurd (cc))
  collect_nodes_lem (none ∷ nodes) full = let (v, g) = full 0 (omega arith) in absurd (ground arith)
  collect_nodes_lem (some h ∷ nodes) full =
      let (tree, e, len, at) = collect_nodes_lem nodes (λ x l. full (suc x) (omega arith)) in
      (h ∷ tree, rw e refl, ap suc len, cons-At nodes h tree at)
