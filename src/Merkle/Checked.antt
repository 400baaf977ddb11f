-- ===== src/Merkle/Checked.antt =====
-- The invariant of the nodes of ossa-core/src/util/merkle_tree.rs, and writes to the children of a node.
use ossa.Prelude.{
  ℕ, ◌+◌, ◌*◌, ◌<◌, ◌≡◌, refl, sym, ◌∙◌, ap, inl, inr, ◌⊎◌, Bool, true, false, Bool-cases, Option,
  none, some, List, length, length-set, get_elem?, get_elem?-set, get_elem?-lt, set, ◌==◌, Ord,
  if◌then◌else◌, arith,
}
use ossa.Merkle.{Hash, Potential, absent, unverified, verified, combine}

module _ {N : Type 0} where
  unfoldable pub is_verified : Option (Potential N) → Bool
  is_verified none = false
  is_verified (some absent) = false
  is_verified (some (unverified v)) = false
  is_verified (some (verified v)) = true

  -- both children replaced
  unfoldable pub set_children :
      List (Potential N) → ℕ → Potential N → Potential N → List (Potential N)
  set_children nodes i a b = set (set nodes (2 * i + 1) a) (2 * i + 2) b

  pub length-set_children :
      (nodes : List (Potential N)) (i : ℕ) (a b : Potential N)
      → length (set_children nodes i a b) ≡ length nodes
  unfolding set_children
  length-set_children nodes i a b =
      length-set (set nodes (2 * i + 1) a) (2 * i + 2) b ∙ length-set nodes (2 * i + 1) a

  pub get_elem?-set_children :
      (nodes : List (Potential N)) (i j : ℕ) (a b : Potential N)
      → 2 * i + 2 < length nodes
      → get_elem? (set_children nodes i a b) j
        ≡ (if j == 2 * i + 2 then some b else if j == 2 * i + 1 then some a else get_elem? nodes j)
  unfolding set_children
  get_elem?-set_children nodes i j a b l =
      let (v, e) = get_elem?-lt nodes (2 * i + 1) (omega arith) in
      let (w, f) =
        get_elem?-lt (set nodes (2 * i + 1) a) (2 * i + 2)
          (omega (arith, length-set nodes (2 * i + 1) a)) in
      get_elem?-set (set nodes (2 * i + 1) a) (2 * i + 2) j b w f
      ∙ ap (λ x. if j == 2 * i + 2 then some b else x) (get_elem?-set nodes (2 * i + 1) j a v e)

pub not_verified :
    {N : Type 0} (p : Option (Potential N))
    → ((v : N) → ¬ (p ≡ some (verified v)))
    → is_verified p ≡ false
unfolding is_verified
not_verified none f = refl
not_verified (some absent) f = refl
not_verified (some (unverified v)) f = refl
not_verified (some (verified v)) f = absurd (f v refl)

module _ {N : Type 0} ⦃o : Ord N⦄ (hash : Hash N) (root : N) (c : ℕ) where
  -- A tree of `c + 1` leaves: the root is verified, and the children of a node are verified both or
  -- neither; where they are, so is the node, and its hash is theirs combined.
  pub record IsChecked (nodes : List (Potential N)) : Type 0 where
    pub size : length nodes ≡ 2 * c + 1
    pub top : get_elem? nodes 0 ≡ some (verified root)
    pub left :
        (i : ℕ) (l : N)
        → get_elem? nodes (2 * i + 1) ≡ some (verified l)
        → (h : N) × (r : N) × (get_elem? nodes i ≡ some (verified h))
          × (get_elem? nodes (2 * i + 2) ≡ some (verified r))
          × (h ≡ combine hash l r)
    pub right :
        (i : ℕ) (r : N)
        → get_elem? nodes (2 * i + 2) ≡ some (verified r)
        → (l : N) × (get_elem? nodes (2 * i + 1) ≡ some (verified l))

  -- what a call of `validate_children` at `i` may change
  pub record Validated (nodes : List (Potential N)) (i : ℕ) (nodes' : List (Potential N))
      : Type 0 where
    pub checked : IsChecked nodes'
    pub kept :
        (j : ℕ) (v : N)
        → get_elem? nodes j ≡ some (verified v)
        → get_elem? nodes' j ≡ some (verified v)
    pub near :
        (j : ℕ)
        → (get_elem? nodes' j ≡ get_elem? nodes j)
          ⊎ ((k : ℕ) × ((j ≡ 2 * k + 1) ⊎ (j ≡ 2 * k + 2))
              × ((k ≡ i) ⊎ (is_verified (get_elem? nodes k) ≡ false)))

  pub unchanged : (nodes : List (Potential N)) (i : ℕ) → IsChecked nodes → Validated nodes i nodes
  unchanged nodes i k = record { checked = k; kept = λ j v e. e; near = λ j. inl refl }

  verified_inj : {a b : N} → some (verified a) ≡ some (verified b) → a ≡ b
  verified_inj e = cc

  -- a node is not both verified and not
  pub clash :
      (nodes : List (Potential N)) (j m : ℕ) (x y : N)
      → get_elem? nodes j ≡ some (verified x)
      → get_elem? nodes m ≡ some (unverified y)
      → (j == m) ≡ false
  clash nodes j m x y e f = elim (Bool-cases (j == m)) [
    | inl s ↦
        let t : j ≡ m = ground arith in let u = ap (get_elem? nodes) t in absurd (ground arith)
    | inr s ↦ s
  ]

  -- writing children that were not verified keeps what was, and changes the children alone
  pub kept_children :
      (nodes : List (Potential N)) (i : ℕ) (a b : Potential N) (l r : N)
      → 2 * i + 2 < length nodes
      → get_elem? nodes (2 * i + 1) ≡ some (unverified l)
      → get_elem? nodes (2 * i + 2) ≡ some (unverified r)
      → (j : ℕ) (x : N) → get_elem? nodes j ≡ some (verified x)
      → get_elem? (set_children nodes i a b) j ≡ some (verified x)
  kept_children nodes i a b l r m el er j x e = ground (
    arith,
    get_elem?-set_children nodes i j a b m,
    clash nodes j (2 * i + 1) x l e el,
    clash nodes j (2 * i + 2) x r e er,
  )

  pub near_children :
      (nodes : List (Potential N)) (i : ℕ) (a b : Potential N)
      → 2 * i + 2 < length nodes
      → (j : ℕ)
      → (get_elem? (set_children nodes i a b) j ≡ get_elem? nodes j)
        ⊎ ((k : ℕ) × ((j ≡ 2 * k + 1) ⊎ (j ≡ 2 * k + 2))
            × ((k ≡ i) ⊎ (is_verified (get_elem? nodes k) ≡ false)))
  near_children nodes i a b m j = elim (Bool-cases (j == 2 * i + 2)) [
    | inl s ↦ inr (i, inr (ground arith), inl refl)
    | inr s ↦ elim (Bool-cases (j == 2 * i + 1)) [
      | inl t ↦ inr (i, inl (ground arith), inl refl)
      | inr t ↦ inl (ground (arith, get_elem?-set_children nodes i j a b m))
    ]
  ]

  -- the children of a verified node, neither of them verified before, become verified
  pub verified_children :
      (nodes : List (Potential N)) (i : ℕ) (h l r : N)
      → IsChecked nodes
      → i < c
      → get_elem? nodes i ≡ some (verified h)
      → get_elem? nodes (2 * i + 1) ≡ some (unverified l)
      → get_elem? nodes (2 * i + 2) ≡ some (unverified r)
      → h ≡ combine hash l r
      → IsChecked (set_children nodes i (verified l) (verified r))
  verified_children nodes i h l r k b eh el er f =
      let n' = set_children nodes i (verified l) (verified r) in
      let at : (j : ℕ)
          → get_elem? n' j ≡ (
              if j == 2 * i + 2
              then some (verified r)
              else if j == 2 * i + 1
              then some (verified l)
              else get_elem? nodes j) =
        λ j. get_elem?-set_children nodes i j (verified l) (verified r) (omega (arith, k.size)) in
      -- a verified node stays so
      let stay : (j : ℕ) (x : N)
          → get_elem? nodes j ≡ some (verified x)
          → get_elem? n' j ≡ some (verified x) =
        kept_children nodes i (verified l) (verified r) l r (omega (arith, k.size)) el er in
      record {
        size = length-set_children nodes i (verified l) (verified r) ∙ k.size;
        top = stay 0 root k.top;
        left = λ j x e. elim (Bool-cases (j == i)) [
          | inl s ↦
              let t : j ≡ i = ground arith in
              let same : some (verified l) ≡ some (verified x) =
                sym (ground (arith, at (2 * j + 1))) ∙ e in
              (
                h,
                r,
                ap (get_elem? n') t ∙ stay i h eh,
                ground (arith, at (2 * j + 2)),
                f ∙ ap (λ y. combine hash y r) (verified_inj same),
              )
          | inr s ↦
              let old : get_elem? nodes (2 * j + 1) ≡ some (verified x) =
                ground (arith, at (2 * j + 1)) in
              let (y, z, a, b, g) = k.left j x old in (y, z, stay j y a, stay (2 * j + 2) z b, g)
        ];
        right = λ j x e. elim (Bool-cases (j == i)) [
          | inl s ↦ (l, ground (arith, at (2 * j + 1)))
          | inr s ↦
              let old : get_elem? nodes (2 * j + 2) ≡ some (verified x) =
                ground (arith, at (2 * j + 2)) in
              let (y, a) = k.right j x old in (y, stay (2 * j + 1) y a)
        ];
      }

  -- nothing below an unverified node is verified
  pub below_unverified :
      (nodes : List (Potential N)) (m : ℕ) (y : N)
      → IsChecked nodes
      → get_elem? nodes m ≡ some (unverified y)
      → (is_verified (get_elem? nodes (2 * m + 1)) ≡ false)
        × (is_verified (get_elem? nodes (2 * m + 2)) ≡ false)
  below_unverified nodes m y k e =
      let no_left : (l : N) → ¬ (get_elem? nodes (2 * m + 1) ≡ some (verified l)) =
        λ l f. let (h, r, a, b, g) = k.left m l f in ground arith in
      (not_verified _ no_left, not_verified _ (λ r f. let (l, a) = k.right m r f in no_left l a))

  pub kept-not_verified :
      (nodes nodes' : List (Potential N)) (j : ℕ)
      → ((v : N) → get_elem? nodes j ≡ some (verified v) → get_elem? nodes' j ≡ some (verified v))
      → is_verified (get_elem? nodes' j) ≡ false
      → is_verified (get_elem? nodes j) ≡ false
  unfolding is_verified
  kept-not_verified nodes nodes' j kept f = not_verified _ (λ v e. ground (arith, kept v e))
