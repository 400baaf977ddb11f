-- ===== src/Merkle/Missing.antt =====
-- About `missing_indices` of ossa-core/src/util/merkle_tree.rs.
use ossa.Prelude.{
  ℕ, suc, ◌+◌, ◌-◌, ◌≡◌, ◌∙◌, ap, inl, inr, Bool, refl, true, false, Bool-cases, Option, some, List,
  [], ◌∷◌, get_elem?, contains, leb, ◌==◌, if◌then◌else◌, nat_ord, arith,
}
use ossa.Merkle.{Potential, absent, unverified, verified, is_none, missing_from, missing_indices}

module _ {N : Type 0} where
  -- there is such a node, and it has no value
  unfoldable pub is_missing : Option (Potential N) → Bool
  is_missing (some absent) = true
  is_missing _ = false

  is_missing-some : (p : Potential N) → is_missing (some p) ≡ is_none p
  unfolding is_missing is_none
  is_missing-some absent = refl
  is_missing-some (unverified v) = refl
  is_missing-some (verified v) = refl

  contains-missing_from :
      (i j : ℕ) (ps : List (Potential N))
      → contains j (missing_from i ps)
        ≡ (if leb i j then is_missing (get_elem? ps (j - i)) else false)
  unfolding missing_from is_missing contains
  contains-missing_from i j [] = ground arith
  contains-missing_from i j (p ∷ ps) = elim (Bool-cases (leb (i + 1) j)) [
    | inl l ↦
        let e : j - i ≡ suc (j - (i + 1)) = ground arith in
        let f : get_elem? (p ∷ ps) (j - i) ≡ get_elem? ps (j - (i + 1)) =
          ap (get_elem? (p ∷ ps)) e in
        ground (arith, contains-missing_from (i + 1) j ps)
    | inr l ↦ elim (Bool-cases (j == i)) [
      | inl s ↦
          let e : j - i ≡ 0 = ground arith in
          let f : get_elem? (p ∷ ps) (j - i) ≡ some p = ap (get_elem? (p ∷ ps)) e in
          ground (arith, contains-missing_from (i + 1) j ps, is_missing-some p)
      | inr s ↦ ground (arith, contains-missing_from (i + 1) j ps)
    ]
  ]

  -- An index is listed just where the tree has a node there without a value.
  pub contains-missing_indices :
      (j : ℕ) (nodes : List (Potential N))
      → contains j (missing_indices nodes) ≡ is_missing (get_elem? nodes j)
  unfolding missing_indices
  contains-missing_indices j nodes =
      let e : get_elem? nodes (j - 0) ≡ get_elem? nodes j = ap (get_elem? nodes) (omega arith) in
      contains-missing_from 0 j nodes ∙ ground arith
