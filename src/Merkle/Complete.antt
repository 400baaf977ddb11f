-- ===== src/Merkle/Complete.antt =====
-- ossa-core/src/util/merkle_tree.rs: a tree that is filled by calls of `set` in any order.
use ossa.Prelude.{
  ℕ, zero, suc, ◌+◌, ◌-◌, ◌*◌, ◌/◌, ◌≡◌, ◌≢◌, refl, sym, ◌∙◌, ap, inl, inr, Bool, true, false,
  Bool-cases, Option, none, some, Option-cases, List, [], ◌∷◌, length, length-set, length-replicate,
  replicate, get_elem?, get_elem?-lt, get_elem?-bound, get_elem?-set, set, Run, done, ◌>>=◌, ◌==◌,
  Ord, beq, arith,
}
use ossa.Merkle.{
  Hash, Potential, absent, unverified, verified, leaf_count, combine, node_count_for_leaf_count,
  new_with_capacity, try_complete, accepted, set_node, set_potential,
}
use ossa.Merkle.Checked.{is_verified, not_verified, IsChecked}
use ossa.Merkle.Validate.{validate_children_lem, leaf_count_is}

module _ {N : Type 0} where
  not_replicated :
      (n j : ℕ) (v : N)
      → ¬ (◌≡◌ {A = Option (Potential N)} (get_elem? (replicate n absent) j) (some (verified v)))
  not_replicated zero j v e = absurd (cc)
  not_replicated (suc n) zero v e = absurd (cc)
  not_replicated (suc n) (suc j) v e = not_replicated n j v e

  complete_length :
      (nodes : List (Potential N)) (tree : List N)
      → try_complete nodes ≡ some tree
      → length tree ≡ length nodes
  unfolding try_complete
  complete_length [] tree e = ground arith
  complete_length (absent ∷ ps) tree e = absurd (cc)
  complete_length (unverified v ∷ ps) tree e = absurd (cc)
  complete_length (verified v ∷ ps) tree e = elim (Option-cases (try_complete ps)) [
    | inl f ↦ absurd (ground arith)
    | inr (vs, f) ↦
        let l = complete_length ps vs f in
        let t : v ∷ vs ≡ tree = ground arith in ap length (sym t) ∙ ap suc l
  ]

  complete_cons :
      (ps : List (Potential N)) (w : N) (vs : List N) (j : ℕ) (v : N)
      → ((i : ℕ) (x : N) → get_elem? vs i ≡ some x → get_elem? ps i ≡ some (verified x))
      → get_elem? (w ∷ vs) j ≡ some v
      → get_elem? (verified w ∷ ps) j ≡ some (verified v)
  complete_cons ps w vs zero v h g = ground arith
  complete_cons ps w vs (suc j) v h g = h j v g

  complete_verified :
      (nodes : List (Potential N)) (tree : List N)
      → try_complete nodes ≡ some tree
      → (j : ℕ) (v : N) → get_elem? tree j ≡ some v
      → get_elem? nodes j ≡ some (verified v)
  unfolding try_complete
  complete_verified [] tree e j v g = absurd (ground arith)
  complete_verified (absent ∷ ps) tree e j v g = absurd (cc)
  complete_verified (unverified w ∷ ps) tree e j v g = absurd (cc)
  complete_verified (verified w ∷ ps) tree e j v g = elim (Option-cases (try_complete ps)) [
    | inl f ↦ absurd (ground arith)
    | inr (vs, f) ↦
        let t : w ∷ vs ≡ tree = ground arith in
        complete_cons ps w vs j v (complete_verified ps vs f) (ap (λ x. get_elem? x j) t ∙ g)
  ]

  complete_all :
      (nodes : List (Potential N)) (tree : List N)
      → try_complete nodes ≡ some tree
      → (j : ℕ) (v : N) → get_elem? nodes j ≡ some (verified v)
      → get_elem? tree j ≡ some v
  complete_all nodes tree e j v g = elim (Option-cases (get_elem? tree j)) [
    | inl f ↦
        let (w, h) =
          get_elem?-lt tree j
            (omega (arith, complete_length nodes tree e, get_elem?-bound nodes j (verified v) g)) in
        absurd (cc)
    | inr (w, f) ↦ let h = complete_verified nodes tree e j w f in ground arith
  ]

module _ {N : Type 0} ⦃o : Ord N⦄ (hash : Hash N) (root : N) (c : ℕ) where
  -- writing an unverified node over a missing one
  proposed :
      (nodes : List (Potential N)) (i : ℕ) (v : N)
      → IsChecked hash root c nodes
      → get_elem? nodes i ≡ some absent
      → IsChecked hash root c (set nodes i (unverified v))
  proposed nodes i v k e =
      let stay : (j : ℕ) (x : N)
          → get_elem? nodes j ≡ some (verified x)
          → get_elem? (set nodes i (unverified v)) j ≡ some (verified x) =
        λ j x f. elim (Bool-cases (j == i)) [
          | inl s ↦
              let t : j ≡ i = ground arith in
              let u = ap (get_elem? nodes) t in absurd (ground arith)
          | inr s ↦ ground (arith, get_elem?-set nodes i j (unverified v) absent e)
        ] in
      let back : (j : ℕ) (x : N)
          → get_elem? (set nodes i (unverified v)) j ≡ some (verified x)
          → get_elem? nodes j ≡ some (verified x) =
        λ j x f. ground (arith, get_elem?-set nodes i j (unverified v) absent e) in
      record {
        size = length-set nodes i (unverified v) ∙ k.size;
        top = stay 0 root k.top;
        left = λ j x f.
            let (y, z, a, d, g) = k.left j x (back (2 * j + 1) x f) in
            (y, z, stay j y a, stay (2 * j + 2) z d, g);
        right =
            λ j x f. let (y, a) = k.right j x (back (2 * j + 2) x f) in (y, stay (2 * j + 1) y a);
      }

  -- neither child of a node is verified, where one of them is not
  pair_left :
      (nodes : List (Potential N)) (p : ℕ) (v : N)
      → IsChecked hash root c nodes
      → get_elem? nodes (2 * p + 1) ≡ some (unverified v)
      → is_verified (get_elem? nodes (2 * p + 2)) ≡ false
  pair_left nodes p v k e =
      not_verified _ (λ r f. let (l, a) = k.right p r f in absurd (ground arith))

  pair_right :
      (nodes : List (Potential N)) (p : ℕ) (v : N)
      → IsChecked hash root c nodes
      → get_elem? nodes (2 * p + 2) ≡ some (unverified v)
      → is_verified (get_elem? nodes (2 * p + 1)) ≡ false
  pair_right nodes p v k e =
      not_verified _ (λ l f. let (h, r, a, b, g) = k.left p l f in absurd (ground arith))

  pair_of :
      (nodes : List (Potential N)) (i : ℕ) (v : N)
      → IsChecked hash root c nodes
      → get_elem? nodes i ≡ some (unverified v)
      → i ≢ 0
      → (is_verified (get_elem? nodes (2 * ((i - 1) / 2) + 1)) ≡ false)
        × (is_verified (get_elem? nodes (2 * ((i - 1) / 2) + 2)) ≡ false)
  unfolding is_verified
  pair_of nodes i v k e z =
      let p = (i - 1) / 2 in
      elim (Bool-cases (i == 2 * p + 1)) [
        | inl s ↦
            let t : i ≡ 2 * p + 1 = ground arith in
            let at_left : get_elem? nodes (2 * p + 1) ≡ some (unverified v) =
              ap (get_elem? nodes) (sym t) ∙ e in
            (ap is_verified at_left, pair_left nodes p v k at_left)
        | inr s ↦
            let t : i ≡ 2 * p + 2 = ground arith in
            let at_right : get_elem? nodes (2 * p + 2) ≡ some (unverified v) =
              ap (get_elem? nodes) (sym t) ∙ e in
            (pair_right nodes p v k at_right, ap is_verified at_right)
      ]

  answer :
      (r : Option Bool) (n : List (Potential N))
      → accepted hash (r, n) ≡ ((accepted hash (r, n)).0, n)
  unfolding accepted
  answer none n = refl
  answer (some b) n = refl

  -- From a checked tree `set` never panics, and leaves a checked tree.
  pub set_potential-IsChecked :
      (nodes : List (Potential N)) (i : ℕ) (v : N)
      → IsChecked hash root c nodes
      → (b : Bool) × (n : List (Potential N)) × (set_potential hash nodes i v ≡ done (b, n))
        × IsChecked hash root c n
  unfolding set_potential set_node accepted is_verified
  set_potential-IsChecked nodes i v k =
      let at : (p : Option (Potential N))
          → get_elem? nodes i ≡ p
          → set_potential hash nodes i v ≡ set_node hash p nodes i v =
        λ p e. ap (λ p. set_node hash p nodes i v) e in
      elim (Option-cases (get_elem? nodes i)) [
        | inl e ↦ (false, nodes, at _ e, k)
        | inr (unverified x, e) ↦ (true, nodes, at _ e, k)
        | inr (verified x, e) ↦ (beq x v, nodes, at _ e, k)
        | inr (absent, e) ↦ elim (Bool-cases (i == 0)) [
          | inl s ↦
              let t : i ≡ 0 = ground arith in
              let u = ap (get_elem? nodes) t in let top = k.top in absurd (ground arith)
          | inr s ↦
              let n1 = set nodes i (unverified v) in
              let k1 = proposed nodes i v k e in
              let p = (i - 1) / 2 in
              let now : get_elem? n1 i ≡ some (unverified v) =
                ground (arith, get_elem?-set nodes i i (unverified v) absent e) in
              let pair : (is_verified (get_elem? n1 (2 * p + 1)) ≡ false)
                  × (is_verified (get_elem? n1 (2 * p + 2)) ≡ false) =
                pair_of n1 i v k1 now (ground arith) in
              let (r, n, f, w) =
                validate_children_lem hash root c (leaf_count nodes) n1 p k1 pair.0 pair.1
                  (omega (arith, leaf_count_is hash root c nodes k.size))
                  (omega (arith, leaf_count_is hash root c nodes k.size)) in
              ((accepted hash (r, n)).0, n, at _ e ∙ rw s (rw f (ap done (answer r n))), w.checked)
        ]
      ]

  pub new_with_capacity-IsChecked :
      (nodes : List (Potential N)) × (new_with_capacity root (suc c) ≡ done nodes)
      × IsChecked hash root c nodes
  unfolding new_with_capacity node_count_for_leaf_count
  new_with_capacity-IsChecked =
      let blank : List (Potential N) = replicate (2 * suc c - 1) absent in
      let size : length blank ≡ 2 * c + 1 = length-replicate (2 * suc c - 1) absent ∙ omega arith in
      let (w, e) = get_elem?-lt blank 0 (omega arith) in
      let only : (j : ℕ) (v : N)
          → get_elem? (set blank 0 (verified root)) j ≡ some (verified v)
          → j ≡ 0 =
        λ j v f. elim (Bool-cases (j == 0)) [
          | inl s ↦ ground arith
          | inr s ↦
              let g = not_replicated (2 * suc c - 1) j v in
              absurd (ground (arith, get_elem?-set blank 0 j (verified root) w e))
        ] in
      (
        set blank 0 (verified root),
        refl,
        record {
          size = length-set blank 0 (verified root) ∙ size;
          top = ground (arith, get_elem?-set blank 0 0 (verified root) w e);
          left = λ i l f. absurd (omega (arith, only (2 * i + 1) l f));
          right = λ i r f. absurd (omega (arith, only (2 * i + 2) r f));
        },
      )

  -- A tree of hashes: the root, and every branch the hash of its children.
  pub record IsMerkle (tree : List N) : Type 0 where
    pub size : length tree ≡ 2 * c + 1
    pub top : get_elem? tree 0 ≡ some root
    pub branches :
        (i : ℕ) (l : N)
        → get_elem? tree (2 * i + 1) ≡ some l
        → (r : N) × (get_elem? tree (2 * i + 2) ≡ some r)
          × (get_elem? tree i ≡ some (combine hash l r))

  pub complete-IsMerkle :
      (nodes : List (Potential N)) (tree : List N)
      → IsChecked hash root c nodes
      → try_complete nodes ≡ some tree
      → IsMerkle tree
  complete-IsMerkle nodes tree k e =
      let down = complete_verified nodes tree e in
      let up = complete_all nodes tree e in
      record {
        size = complete_length nodes tree e ∙ k.size;
        top = up 0 root k.top;
        branches = λ i l f.
            let (h, r, a, b, g) = k.left i l (down (2 * i + 1) l f) in
            (r, up (2 * i + 2) r b, up i h a ∙ ap some g);
      }

  -- some calls of `set`, each with an index and a value that a peer has sent
  unfoldable pub set_all : List (Potential N) → List (ℕ × N) → Run (List (Potential N))
  set_all nodes [] = done nodes
  set_all nodes ((i, v) ∷ sent) = set_potential hash nodes i v >>= λ r. set_all r.1 sent

  set_all-IsChecked :
      (nodes : List (Potential N)) (sent : List (ℕ × N))
      → IsChecked hash root c nodes
      → (n : List (Potential N)) × (set_all nodes sent ≡ done n) × IsChecked hash root c n
  unfolding set_all
  set_all-IsChecked nodes [] k = (nodes, refl, k)
  set_all-IsChecked nodes ((i, v) ∷ sent) k =
      let (b, n, e, kn) = set_potential-IsChecked nodes i v k in
      let (m, f, km) = set_all-IsChecked n sent kn in (m, rw e f, km)

  -- Whatever values peers send, for whatever indices and in whatever order: a tree that starts with its
  -- root never panics, and when it is complete it is a tree of hashes under that root.
  pub set_all-IsMerkle :
      (sent : List (ℕ × N))
      → (nodes : List (Potential N)) × ((new_with_capacity root (suc c) >>= λ start.
            set_all start sent)
          ≡ done nodes)
        × ((tree : List N) → try_complete nodes ≡ some tree → IsMerkle tree)
  set_all-IsMerkle sent =
      let (start, b, k0) = new_with_capacity-IsChecked in
      let (n, e, k) = set_all-IsChecked start sent k0 in
      (n, ap (λ r. r >>= λ x. set_all x sent) b ∙ e, λ tree f. complete-IsMerkle n tree k f)
