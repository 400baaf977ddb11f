-- ===== src/Ecg/V0/Order.antt =====
-- The causal order of operations.
use mathlib.Core.Path.{subst}
use ossa.Prelude.{
  ℕ, ◌≡◌, ◌≢◌, ◌↔◌, ◌⊎◌, ◌<◌, refl, sym, ◌∙◌, ap, inl, inr, Bool, true, false, Bool-cases, Option,
  none, some, done, ltb, Ord, beq, beq_iff, if◌then◌else◌, arith,
}
use ossa.Ecg.StableDag.{Dag}
use ossa.Ecg.{EcgHeader, State, knows, is_ancestor_of}
use ossa.Ecg.WellFormed.{IsWellFormed}
use ossa.Ecg.Ancestor.{Ancestor}
use ossa.Ecg.Ancestor.Correct.{is_ancestor_of_lem}
use ossa.Ecg.Acyclic.{IsAcyclic, Ancestor-antisym, Ancestor-trans}
use ossa.Ecg.V0.{OperationId, same_header, header_before, happens_before, expect}

module _ {HeaderId Header : Type 0} ⦃o : Ord HeaderId⦄ {dag : Dag HeaderId}
    (ecg : EcgHeader HeaderId Header) (st : State Header dag) where
  -- an operation of the initial state or of a known header
  abbrev pub IsPlaced : OperationId HeaderId → Type 0
  IsPlaced t = (h : HeaderId) → t.header_id ≡ some h → knows st h ≡ true

  -- What `happens_before` means: the positions decide within one header, the initial state comes before
  -- every header, and a header comes before those that it is an ancestor of.
  abbrev pub Between : Option HeaderId → Option HeaderId → ℕ → ℕ → Type 0
  Between none none i j = i < j
  Between none (some b) i j = Unit
  Between (some a) none i j = ⊥
  Between (some a) (some b) i j = ((a ≡ b) × (i < j)) ⊎ ((a ≢ b) × Ancestor ecg st a b)

  abbrev pub Before : OperationId HeaderId → OperationId HeaderId → Type 0
  Before a b = Between a.header_id b.header_id a.operation_position b.operation_position

  module _ (wf : IsWellFormed ecg st) (ac : IsAcyclic ecg st) where
    Ancestor-done :
        (a b : HeaderId)
        → knows st a ≡ true
        → knows st b ≡ true
        → (r : Bool) × (expect (is_ancestor_of st a b) ≡ done r)
          × (r ≡ true → Ancestor ecg st a b)
          × (Ancestor ecg st a b → r ≡ true)
    Ancestor-done a b ka kb = elim (is_ancestor_of_lem ecg st wf a b) [
      | inl (inl k, r) ↦ absurd (ground arith)
      | inl (inr k, r) ↦ absurd (ground arith)
      | inr (k, l, inl (r, p)) ↦ (true, ap expect r, λ e. p, λ q. refl)
      | inr (k, l, inr (r, p)) ↦ (false, ap expect r, λ e. absurd (cc), λ q. absurd (p q))
    ]

    Between-done :
        (a b : Option HeaderId) (i j : ℕ)
        → ((h : HeaderId) → a ≡ some h → knows st h ≡ true)
        → ((h : HeaderId) → b ≡ some h → knows st h ≡ true)
        → (r : Bool) × ((if same_header a b then done (ltb i j) else header_before st a b) ≡ done r)
          × ((r ≡ true) ↔ Between a b i j)
    unfolding header_before
    Between-done none none i j ka kb = (ltb i j, refl, (λ e. ground arith, λ l. ground arith))
    Between-done none (some b) i j ka kb = (true, refl, (λ e. tt, λ l. refl))
    Between-done (some a) none i j ka kb = (false, refl, (λ e. absurd (cc), λ l. absurd l))
    Between-done (some a) (some b) i j ka kb = elim (Bool-cases (beq a b)) [
      | inl h ↦
          let e : a ≡ b = (beq_iff a b).0 h in
          (
            ltb i j,
            rw h refl,
            (
              λ l. inl (e, ground arith),
              λ l. elim l [ inl (f, m) ↦ ground arith | inr (n, p) ↦ absurd (n e) ],
            ),
          )
      | inr h ↦
          let n : a ≢ b = λ e. ground (arith, (beq_iff a b).1 e) in
          let (r, f, to, from) = Ancestor-done a b (ka a refl) (kb b refl) in
          (
            r,
            rw h f,
            (λ e. inr (n, to e), λ l. elim l [ inl (e, m) ↦ absurd (n e) | inr (m, p) ↦ from p ]),
          )
    ]

    -- For operations of known headers `happens_before` returns, and says whether the first comes
    -- before the second.
    pub happens_before_lem :
        (a b : OperationId HeaderId)
        → IsPlaced a
        → IsPlaced b
        → (r : Bool) × (happens_before st a b ≡ done r) × ((r ≡ true) ↔ Before a b)
    unfolding happens_before
    happens_before_lem a b ka kb =
        Between-done a.header_id b.header_id a.operation_position b.operation_position ka kb

    Between-irrefl : (a : Option HeaderId) (i : ℕ) → ¬ Between a a i i
    Between-irrefl none i l = omega arith
    Between-irrefl (some a) i (inl (e, l)) = omega arith
    Between-irrefl (some a) i (inr (n, p)) = n refl

    Between-trans :
        (a b c : Option HeaderId) (i j k : ℕ) → Between a b i j → Between b c j k → Between a c i k
    Between-trans none none none i j k l m = omega arith
    Between-trans none none (some c) i j k l m = tt
    Between-trans none (some b) none i j k l m = absurd m
    Between-trans none (some b) (some c) i j k l m = tt
    Between-trans (some a) none c i j k l m = absurd l
    Between-trans (some a) (some b) none i j k l m = absurd m
    Between-trans (some a) (some b) (some c) i j k (inl (e, l)) (inl (f, m)) =
        inl (e ∙ f, omega arith)
    Between-trans (some a) (some b) (some c) i j k (inl (e, l)) (inr (n, p)) =
        inr (λ f. n (sym e ∙ f), subst (λ x. Ancestor ecg st x c) (sym e) p)
    Between-trans (some a) (some b) (some c) i j k (inr (n, p)) (inl (f, m)) =
        inr (λ e. n (e ∙ sym f), subst (Ancestor ecg st a) f p)
    Between-trans (some a) (some b) (some c) i j k (inr (n, p)) (inr (m, q)) = inr (
      λ e. n (Ancestor-antisym ecg st ac p (subst (Ancestor ecg st b) (sym e) q)),
      Ancestor-trans ecg st p q,
    )

    done_true :
        (a b : OperationId HeaderId)
        → IsPlaced a
        → IsPlaced b
        → happens_before st a b ≡ done true
        → Before a b
    done_true a b ka kb e =
        let (r, f, (to, from)) = happens_before_lem a b ka kb in to (ground arith)

    of_Before :
        (a b : OperationId HeaderId)
        → IsPlaced a
        → IsPlaced b
        → Before a b
        → happens_before st a b ≡ done true
    of_Before a b ka kb l =
        let (r, f, (to, from)) = happens_before_lem a b ka kb in f ∙ ap done (from l)

    -- On operations of known headers `happens_before` is a strict partial order: no operation happens
    -- before itself, and of three in a row the first happens before the last.
    pub happens_before_order :
        ((a : OperationId HeaderId) → IsPlaced a → happens_before st a a ≡ done false)
        × ((a b c : OperationId HeaderId)
            → IsPlaced a
            → IsPlaced b
            → IsPlaced c
            → happens_before st a b ≡ done true
            → happens_before st b c ≡ done true
            → happens_before st a c ≡ done true)
    happens_before_order = (
      λ a ka.
          let (r, f, (to, from)) = happens_before_lem a a ka ka in
          elim (Bool-cases r) [
            | inl e ↦ absurd (Between-irrefl a.header_id a.operation_position (to e))
            | inr e ↦ f ∙ ap done e
          ],
      λ a b c ka kb kc ab bc. of_Before a c ka kc (
          Between-trans a.header_id b.header_id c.header_id a.operation_position
            b.operation_position c.operation_position (done_true a b ka kb ab)
            (done_true b c kb kc bc)),
    )
