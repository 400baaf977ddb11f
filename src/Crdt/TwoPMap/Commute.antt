-- ===== src/Crdt/TwoPMap/Commute.antt =====
-- Orders in which a two-phase map applies operations, and deletions.
use mathlib.Core.Path.{subst}
use ossa.Prelude.{
  ◌≡◌, refl, sym, ◌∙◌, ap, false, done, ◌>>=◌, Run-cases, List, [], ◌∷◌, Ord, beq, beq_iff,
  if◌then◌else◌, Bool-cases, arith, inl, inr,
}
use ossa.Crdt.Time.{CausalState, Crdt}
use ossa.Crdt.Im.{OrdMap, OrdSet}
use ossa.Crdt.TwoPMap.Op.{TwoPMapOp, key}
use ossa.Crdt.TwoPMap.{TwoPMap, apply, apply_all}
use ossa.Crdt.TwoPMap.Slots.{Slot, deleted, move, slot, Moves, apply-Moves}

module _ {ℓ κ μ} {K : Type ℓ} {V : Type κ} {Op : Type μ} ⦃o : Ord K⦄ (maps : OrdMap K V)
    (sets : OrdSet K) (value : Crdt V Op K) (st : CausalState K) where
  done_inj : {a b : TwoPMap maps sets} → done a ≡ done b → a ≡ b
  done_inj h = cc

  move_deleted : (op : TwoPMapOp K V Op) → move value st deleted op ≡ done deleted
  unfolding move
  move_deleted op = refl

  move-delete : (s : Slot V) (k : K) → move value st s (TwoPMapOp.delete k) ≡ done deleted
  unfolding move
  move-delete s k = ground arith

  beq_self : (k : K) (s t : Slot V) → (if beq k k then s else t) ≡ s
  beq_self k s t = ground (arith, o.cmp_refl k)

  apply_of_move :
      (m : TwoPMap maps sets) (op : TwoPMapOp K V Op) (s : Slot V)
      → move value st (slot maps sets m (key op)) op ≡ done s
      → Moves maps sets m op (done s) (apply maps sets value st m op)
  apply_of_move m op s e =
      subst (λ mv. Moves maps sets m op mv (apply maps sets value st m op)) e
        (apply-Moves maps sets value st m op)

  move_of_apply :
      (m m' : TwoPMap maps sets) (op : TwoPMapOp K V Op)
      → apply maps sets value st m op ≡ done m'
      → (s : Slot V) × (move value st (slot maps sets m (key op)) op ≡ done s)
        × ((j : K) → slot maps sets m' j ≡ (if beq j (key op) then s else slot maps sets m j))
  move_of_apply m m' op e = elim (Run-cases (move value st (slot maps sets m (key op)) op)) [
    | inl (s, f) ↦
        let (n, g, h) = apply_of_move m op s f in
        (s, f, λ j. ap (λ x. slot maps sets x j) (done_inj (sym e ∙ g)) ∙ h j)
    | inr f ↦
        let g =
          subst (λ mv. Moves maps sets m op mv (apply maps sets value st m op)) f
            (apply-Moves maps sets value st m op) in
        absurd (cc)
  ]

  -- Two operations on different keys commute: where one order returns, so does the other, and
  -- every slot ends the same.
  pub apply_comm :
      (m m1 m2 : TwoPMap maps sets) (a b : TwoPMapOp K V Op)
      → beq (key a) (key b) ≡ false
      → apply maps sets value st m a ≡ done m1
      → apply maps sets value st m1 b ≡ done m2
      → (n1 : TwoPMap maps sets) × (n2 : TwoPMap maps sets) × (apply maps sets value st m b
          ≡ done n1)
        × (apply maps sets value st n1 a ≡ done n2)
        × ((j : K) → slot maps sets n2 j ≡ slot maps sets m2 j)
  apply_comm m m1 m2 a b ne ea eb =
      let (s, ma, ha) = move_of_apply m m1 a ea in
      let (t, mb, hb) = move_of_apply m1 m2 b eb in
      let stay : slot maps sets m1 (key b) ≡ slot maps sets m (key b) =
        ground (arith, ha (key b), o.cmp_swap (key a) (key b)) in
      let (n1, e1, h1) = apply_of_move m b t (ap (λ x. move value st x b) (sym stay) ∙ mb) in
      let stay' : slot maps sets n1 (key a) ≡ slot maps sets m (key a) =
        ground (arith, h1 (key a)) in
      let (n2, e2, h2) = apply_of_move n1 a s (ap (λ x. move value st x a) stay' ∙ ma) in
      (
        n1,
        n2,
        e1,
        e2,
        λ j. ground (arith, h2 j, h1 j, hb j, ha j, o.eq_of_cmp j (key a), o.eq_of_cmp j (key b)),
      )

  stays :
      (m m1 : TwoPMap maps sets) (op : TwoPMapOp K V Op) (s : Slot V) (k : K)
      → slot maps sets m k ≡ deleted
      → move value st (slot maps sets m (key op)) op ≡ done s
      → slot maps sets m1 k ≡ (if beq k (key op) then s else slot maps sets m k)
      → slot maps sets m1 k ≡ deleted
  stays m m1 op s k d g h = elim (Bool-cases (beq k (key op))) [
    | inl same ↦
        let at_key : slot maps sets m (key op) ≡ deleted =
          ap (slot maps sets m) (sym ((beq_iff k (key op)).0 same)) ∙ d in
        let moved : done s ≡ done deleted =
          sym g ∙ ap (λ x. move value st x op) at_key ∙ move_deleted op in
        ground arith
    | inr other ↦ ground arith
  ]

  -- Whatever is applied later, a deleted key stays deleted.
  pub apply_all-deleted :
      (ops : List (TwoPMapOp K V Op)) (m m' : TwoPMap maps sets) (k : K)
      → slot maps sets m k ≡ deleted
      → apply_all maps sets value st m ops ≡ done m'
      → slot maps sets m' k ≡ deleted
  unfolding apply_all
  apply_all-deleted [] m m' k d e = ap (λ x. slot maps sets x k) (done_inj (sym e)) ∙ d
  apply_all-deleted (op ∷ ops) m m' k d e = elim (Run-cases (apply maps sets value st m op)) [
    | inl (m1, f) ↦
        let (s, g, h) = move_of_apply m m1 op f in
        apply_all-deleted ops m1 m' k (stays m m1 op s k d g (h k))
          (ap (λ r. r >>= λ x. apply_all maps sets value st x ops) (sym f) ∙ e)
    | inr f ↦ absurd (ground arith)
  ]

  -- Deletion wins: for an operation and a deletion of its key both orders end with the same slots,
  -- and the order in which the deletion comes first always returns.
  pub apply-delete :
      (m m1 : TwoPMap maps sets) (op : TwoPMapOp K V Op)
      → apply maps sets value st m op ≡ done m1
      → (m2 : TwoPMap maps sets) × (n1 : TwoPMap maps sets) × (n2 : TwoPMap maps sets) × (apply maps
            sets value st m1
            (TwoPMapOp.delete (key op))
          ≡ done m2)
        × (apply maps sets value st m (TwoPMapOp.delete (key op)) ≡ done n1)
        × (apply maps sets value st n1 op ≡ done n2)
        × ((j : K) → slot maps sets n2 j ≡ slot maps sets m2 j)
  unfolding key slot
  apply-delete m m1 op e =
      let del : TwoPMapOp K V Op = TwoPMapOp.delete (key op) in
      let (s, g, h) = move_of_apply m m1 op e in
      let (m2, e2, h2) = apply_of_move m1 del deleted (move-delete _ (key op)) in
      let (n1, f1, k1) = apply_of_move m del deleted (move-delete _ (key op)) in
      let gone : slot maps sets n1 (key op) ≡ deleted = k1 (key op) ∙ beq_self (key op) deleted _ in
      let (n2, f2, k2) =
        apply_of_move n1 op deleted (ap (λ x. move value st x op) gone ∙ move_deleted op) in
      (m2, n1, n2, e2, f1, f2, λ j. ground (arith, k2 j, k1 j, h2 j, h j))
