-- ===== src/Merkle/Validate.antt =====
-- `validate_children`: the answers of the check, and what a call may change.
use ossa.Prelude.{
  ℕ, zero, suc, ◌+◌, ◌-◌, ◌*◌, ◌≤◌, ◌<◌, ◌≡◌, ◌≢◌, refl, ◌∙◌, ap, inl, inr, ◌⊎◌, Bool, true, false,
  Bool-cases, Option, none, some, List, length, get_elem?, get_elem?-lt, Run, done, ◌>>=◌, leb,
  ◌==◌, Ord, beq, beq_iff, if◌then◌else◌, arith,
}
use ossa.Merkle.{
  Hash, Potential, absent, unverified, verified, leaf_count, is_leaf, combine, pending, valid,
  invalid, check_siblings, check_children, validate_children,
}
use ossa.Merkle.Checked.{
  is_verified, set_children, length-set_children, get_elem?-set_children, IsChecked, Validated,
  unchanged, kept_children, near_children, below_unverified, kept-not_verified, verified_children,
}

module _ {N : Type 0} ⦃o : Ord N⦄ (hash : Hash N) (root : N) (c : ℕ) where
  -- the answers of the check, where both children are nodes and neither is verified
  check_cases :
      (p q r : Option (Potential N))
      → p ≢ none
      → q ≢ none
      → r ≢ none
      → is_verified q ≡ false
      → is_verified r ≡ false
      → (check_children hash p q r ≡ done pending)
        ⊎ ((h : N) × (x : N) × (y : N) × (p ≡ some (verified h))
            × (q ≡ some (unverified x))
            × (r ≡ some (unverified y))
            × (check_children hash p q r
                ≡ done (if beq h (combine hash x y) then valid x y else invalid)))
  unfolding check_children check_siblings is_verified
  check_cases none q r np nq nr vq vr = absurd (np refl)
  check_cases (some absent) q r np nq nr vq vr = inl refl
  check_cases (some (unverified v)) q r np nq nr vq vr = inl refl
  check_cases (some (verified h)) none r np nq nr vq vr = absurd (nq refl)
  check_cases (some (verified h)) (some absent) none np nq nr vq vr = absurd (nr refl)
  check_cases (some (verified h)) (some absent) (some y) np nq nr vq vr = inl refl
  check_cases (some (verified h)) (some (unverified x)) none np nq nr vq vr = absurd (nr refl)
  check_cases (some (verified h)) (some (unverified x)) (some absent) np nq nr vq vr = inl refl
  check_cases (some (verified h)) (some (unverified x)) (some (unverified y)) np nq nr vq vr =
      inr (h, x, y, refl, refl, refl, refl)
  check_cases (some (verified h)) (some (unverified x)) (some (verified y)) np nq nr vq vr =
      absurd (cc)
  check_cases (some (verified h)) (some (verified x)) r np nq nr vq vr = absurd (cc)

  -- children that do not match are dropped
  dropped_children :
      (nodes : List (Potential N)) (i : ℕ) (l r : N)
      → IsChecked hash root c nodes
      → i < c
      → get_elem? nodes (2 * i + 1) ≡ some (unverified l)
      → get_elem? nodes (2 * i + 2) ≡ some (unverified r)
      → Validated hash root c nodes i (set_children nodes i absent absent)
  dropped_children nodes i l r k b el er =
      let n' = set_children nodes i absent absent in
      let at : (j : ℕ)
          → get_elem? n' j ≡ (
              if j == 2 * i + 2
              then some absent
              else if j == 2 * i + 1
              then some absent
              else get_elem? nodes j) =
        λ j. get_elem?-set_children nodes i j absent absent (omega (arith, k.size)) in
      let stay : (j : ℕ) (x : N)
          → get_elem? nodes j ≡ some (verified x)
          → get_elem? n' j ≡ some (verified x) =
        kept_children hash root c nodes i absent absent l r (omega (arith, k.size)) el er in
      let back : (j : ℕ) (x : N)
          → get_elem? n' j ≡ some (verified x)
          → get_elem? nodes j ≡ some (verified x) =
        λ j x e. ground (arith, at j) in
      record {
        checked = record {
          size = length-set_children nodes i absent absent ∙ k.size;
          top = stay 0 root k.top;
          left = λ j x e.
              let (y, z, a, d, g) = k.left j x (back (2 * j + 1) x e) in
              (y, z, stay j y a, stay (2 * j + 2) z d, g);
          right =
              λ j x e. let (y, a) = k.right j x (back (2 * j + 2) x e) in (y, stay (2 * j + 1) y a);
        };
        kept = stay;
        near = near_children hash root c nodes i absent absent (omega (arith, k.size));
      }

  -- the changes of some calls together, where the last are below the first
  followed :
      (n0 n1 n2 : List (Potential N)) (i m : ℕ)
      → Validated hash root c n1 m n2
      → ((j : ℕ) (v : N) → get_elem? n0 j ≡ some (verified v) → get_elem? n1 j ≡ some (verified v))
      → ((j : ℕ)
          → (get_elem? n1 j ≡ get_elem? n0 j)
            ⊎ ((k : ℕ) × ((j ≡ 2 * k + 1) ⊎ (j ≡ 2 * k + 2))
                × ((k ≡ i) ⊎ (is_verified (get_elem? n0 k) ≡ false))))
      → is_verified (get_elem? n0 m) ≡ false
      → Validated hash root c n0 i n2
  followed n0 n1 n2 i m v kept near um = record {
    checked = v.checked;
    kept = λ j x e. v.kept j x (kept j x e);
    near = λ j. elim (v.near j) [
      | inl e ↦ elim (near j) [ inl f ↦ inl (e ∙ f) | inr f ↦ inr f ]
      | inr (k, child, inl e) ↦ inr (k, child, inr (ap (λ x. is_verified (get_elem? n0 x)) e ∙ um))
      | inr (k, child, inr e) ↦
          inr (k, child, inr (kept-not_verified hash root c n0 n1 k (kept k) e))
    ];
  }

  node_at : (nodes : List (Potential N)) (j : ℕ) → j < length nodes → get_elem? nodes j ≢ none
  node_at nodes j l e = let (v, f) = get_elem?-lt nodes j l in absurd (cc)

  pub leaf_count_is :
      (nodes : List (Potential N)) → length nodes ≡ 2 * c + 1 → leaf_count nodes ≡ c + 1
  unfolding leaf_count
  leaf_count_is nodes e = omega arith

  -- what a call returns
  abbrev pub Returns : List (Potential N) → ℕ → Run (Option Bool × List (Potential N)) → Type 0
  Returns nodes i r =
      (v : Option Bool) × (n : List (Potential N)) × (r ≡ done (v, n))
      × Validated hash root c nodes i n

  further :
      (nodes : List (Potential N)) (i j : ℕ) (a b : Potential N)
      → 2 * i + 2 < length nodes
      → 2 * i + 2 < j
      → is_verified (get_elem? nodes j) ≡ false
      → is_verified (get_elem? (set_children nodes i a b) j) ≡ false
  further nodes i j a b m l u =
      let e : get_elem? (set_children nodes i a b) j ≡ get_elem? nodes j =
        ground (arith, get_elem?-set_children nodes i j a b m) in
      ap is_verified e ∙ u

  -- a call below one node leaves the children of its verified sibling alone
  beside :
      (n n' : List (Potential N)) (i j : ℕ) (y : N)
      → Validated hash root c n (2 * i + 1) n'
      → get_elem? n (2 * i + 2) ≡ some (verified y)
      → (j ≡ 2 * (2 * i + 2) + 1) ⊎ (j ≡ 2 * (2 * i + 2) + 2)
      → is_verified (get_elem? n j) ≡ false
      → is_verified (get_elem? n' j) ≡ false
  unfolding is_verified
  beside n n' i j y v e at u = elim (v.near j) [
    | inl f ↦ ap is_verified f ∙ u
    | inr (k, child, why) ↦
        let s : k ≡ 2 * i + 2 = elim at [
          | inl p ↦ elim child [ inl q ↦ omega arith | inr q ↦ omega arith ]
          | inr p ↦ elim child [ inl q ↦ omega arith | inr q ↦ omega arith ]
        ] in
        elim why [
          | inl t ↦ absurd (omega arith)
          | inr t ↦
              let w : is_verified (get_elem? n k) ≡ true =
                ap (λ x. is_verified (get_elem? n x)) s ∙ ap is_verified e in
              absurd (ground arith)
        ]
  ]

  good_children :
      (fuel : ℕ) (nodes : List (Potential N)) (i : ℕ) (h x y : N)
      → IsChecked hash root c nodes
      → i < c
      → get_elem? nodes i ≡ some (verified h)
      → get_elem? nodes (2 * i + 1) ≡ some (unverified x)
      → get_elem? nodes (2 * i + 2) ≡ some (unverified y)
      → h ≡ combine hash x y
      → ((n : List (Potential N)) (j : ℕ)
          → i < j
          → IsChecked hash root c n
          → is_verified (get_elem? n (2 * j + 1)) ≡ false
          → is_verified (get_elem? n (2 * j + 2)) ≡ false
          → Returns n j (validate_children hash fuel n j))
      → Returns nodes i (
          validate_children hash fuel (set_children nodes i (verified x) (verified y)) (2 * i + 1)
          >>= λ a. validate_children hash fuel a.1 (2 * i + 2) >>= λ b. done (some true, b.1))
  unfolding is_verified
  good_children fuel nodes i h x y k b eh el er g rec =
      let m : 2 * i + 2 < length nodes = omega (arith, k.size) in
      let n1 = set_children nodes i (verified x) (verified y) in
      let k1 = verified_children hash root c nodes i h x y k b eh el er g in
      let (ll, lr) = below_unverified hash root c nodes (2 * i + 1) x k el in
      let (rl, rr) = below_unverified hash root c nodes (2 * i + 2) y k er in
      let (va, na, ea, a) =
        rec n1 (2 * i + 1) (omega arith) k1
          (further nodes i (2 * (2 * i + 1) + 1) (verified x) (verified y) m (omega arith) ll)
          (further nodes i (2 * (2 * i + 1) + 2) (verified x) (verified y) m (omega arith) lr) in
      let sibling : get_elem? n1 (2 * i + 2) ≡ some (verified y) =
        ground (arith, get_elem?-set_children nodes i (2 * i + 2) (verified x) (verified y) m) in
      let (vb, nb, eb, bb) =
        rec na (2 * i + 2) (omega arith) a.checked
          (beside n1 na i (2 * (2 * i + 2) + 1) y a sibling (inl refl)
            (further nodes i (2 * (2 * i + 2) + 1) (verified x) (verified y) m (omega arith) rl))
          (beside n1 na i (2 * (2 * i + 2) + 2) y a sibling (inr refl)
            (further nodes i (2 * (2 * i + 2) + 2) (verified x) (verified y) m (omega arith) rr)) in
      let first =
        followed nodes n1 na i (2 * i + 1) a
          (kept_children hash root c nodes i (verified x) (verified y) x y m el er)
          (near_children hash root c nodes i (verified x) (verified y) m) (ap is_verified el) in
      (
        some true,
        nb,
        rw ea (rw eb refl),
        followed nodes na nb i (2 * i + 2) bb first.kept first.near (ap is_verified er),
      )

  pub validate_children_lem :
      (fuel : ℕ) (nodes : List (Potential N)) (i : ℕ)
      → IsChecked hash root c nodes
      → is_verified (get_elem? nodes (2 * i + 1)) ≡ false
      → is_verified (get_elem? nodes (2 * i + 2)) ≡ false
      → 1 ≤ fuel
      → c + 1 ≤ i + fuel
      → Returns nodes i (validate_children hash fuel nodes i)
  unfolding validate_children is_leaf set_children
  validate_children_lem zero nodes i k ul ur f1 f2 = absurd (omega arith)
  validate_children_lem (suc fuel) nodes i k ul ur f1 f2 =
      let lc = leaf_count_is nodes k.size in
      elim (Bool-cases (leb (leaf_count nodes - 1) i)) [
        | inl leaf ↦ (none, nodes, rw leaf refl, unchanged hash root c nodes i k)
        | inr branch ↦
            let b : i < c = ground arith in
            elim (check_cases (get_elem? nodes i) (get_elem? nodes (2 * i + 1))
              (get_elem? nodes (2 * i + 2)) (node_at nodes i (omega (arith, k.size)))
              (node_at nodes (2 * i + 1) (omega (arith, k.size)))
              (node_at nodes (2 * i + 2) (omega (arith, k.size))) ul ur) [
                | inl p ↦ (none, nodes, rw branch (rw p refl), unchanged hash root c nodes i k)
                | inr (h, x, y, eh, el, er, ch) ↦ elim (Bool-cases (beq h (combine hash x y))) [
                  | inr bad ↦ (
                    some false,
                    set_children nodes i absent absent,
                    (let out : check_children hash (get_elem? nodes i) (get_elem? nodes (2 * i + 1))
                              (get_elem? nodes (2 * i + 2))
                            ≡ done invalid =
                          ch ∙ rw bad refl in
                        rw branch (rw out refl)),
                    dropped_children nodes i x y k b el er,
                  )
                  | inl good ↦
                      let out : check_children hash (get_elem? nodes i)
                            (get_elem? nodes (2 * i + 1)) (get_elem? nodes (2 * i + 2))
                          ≡ done (valid x y) =
                        ch ∙ rw good refl in
                      let (v, n, e, w) =
                        good_children fuel nodes i h x y k b eh el er
                          ((beq_iff h (combine hash x y)).0 good)
                          (λ n j l kn a d.
                            validate_children_lem fuel n j kn a d (omega arith) (omega arith)) in
                      (v, n, rw branch (rw out e), w)
                ]
              ]
      ]
