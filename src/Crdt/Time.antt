-- ===== src/Crdt/Time.antt =====
-- ossa-crdt/src/time.rs and the trait `CRDT` of ossa-crdt/src/lib.rs: causal states, concurrency
-- and the order in which operations win.
use Prim.Native.Nat.Ordering.{lt, eq, gt}
use ossa.Prelude.{
  ◌≡◌, Bool, true, false, not, ◌&&◌, Ordering, Run, Ord, reverse, if◌then◌else◌, arith,
}

-- trait `CausalState`
pub record CausalState {ℓ} (T : Type ℓ) : Type ℓ where
  pub happens_before : T → T → Bool

-- trait `CRDT`: `apply` may panic, where the source states a precondition
pub record Crdt {ℓ κ μ} (S : Type ℓ) (Op : Type κ) (T : Type μ) : Type (ℓ ⊔ κ ⊔ μ) where
  pub apply : CausalState T → S → Op → Run S

module _ {ℓ} {T : Type ℓ} where
  unfoldable pub concurrent : CausalState T → T → T → Bool
  concurrent st t1 t2 = not (st.happens_before t1 t2) && not (st.happens_before t2 t1)

  -- What the name promises of `happens_before`: a strict partial order.
  pub record IsCausal (st : CausalState T) : Type ℓ where
    pub irrefl : (a : T) → st.happens_before a a ≡ false
    pub trans :
        (a b c : T)
        → st.happens_before a b ≡ true
        → st.happens_before b c ≡ true
        → st.happens_before a c ≡ true

module _ {ℓ} {T : Type ℓ} ⦃o : Ord T⦄ where
  unfoldable pub compare_with_tiebreak : CausalState T → T → T → Ordering
  compare_with_tiebreak st t1 t2 =
      if st.happens_before t1 t2 then lt else if st.happens_before t2 t1 then gt else o.cmp t1 t2

  -- The total order on times continues the causal one.
  abbrev pub Extends : CausalState T → Type ℓ
  Extends st = (a b : T) → st.happens_before a b ≡ true → o.cmp a b ≡ lt

  pub not-happens_before_both :
      (st : CausalState T) (a b : T)
      → IsCausal st
      → st.happens_before a b ≡ true
      → st.happens_before b a ≡ false
  not-happens_before_both st a b c h = ground (arith, c.irrefl a, c.trans a b a)

  -- Under a strict partial order the comparison of two times is reversed when they are swapped, and
  -- it is `eq` for equal times and no others.
  pub compare_with_tiebreak_swap :
      (st : CausalState T) (a b : T)
      → IsCausal st
      → (compare_with_tiebreak st b a ≡ reverse (compare_with_tiebreak st a b))
        × (compare_with_tiebreak st a b ≡ eq → a ≡ b)
        × (a ≡ b → compare_with_tiebreak st a b ≡ eq)
  unfolding compare_with_tiebreak
  compare_with_tiebreak_swap st a b c = (
    ground
        (arith, not-happens_before_both st a b c, not-happens_before_both st b a c, o.cmp_swap a b),
    ground (arith, o.eq_of_cmp a b),
    λ e. ground (arith, c.irrefl a, o.cmp_refl a),
  )

  -- Where the order on times continues the causal order, the comparison is that order.
  pub compare_with_tiebreak-eq-cmp :
      (st : CausalState T) (a b : T) → Extends st → compare_with_tiebreak st a b ≡ o.cmp a b
  unfolding compare_with_tiebreak
  compare_with_tiebreak-eq-cmp st a b x = ground (arith, x a b, x b a, o.cmp_swap a b)
