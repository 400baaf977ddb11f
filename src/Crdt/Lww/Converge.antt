-- ===== src/Crdt/Lww/Converge.antt =====
-- Replicas of a register that apply the same operations in different orders.
use Prim.Native.Nat.Ordering.{lt, eq, gt}
use mathlib.Core.List.{Permᴰ, Memᴰ}
use mathlib.Core.Path.{subst}
use ossa.Prelude.{
  ◌≡◌, refl, ◌≢◌, ◌∙◌, inl, inr, List, [], ◌∷◌, Run, done, panic, ◌>>=◌, Ord, All, arith,
  Ordering-cases, sym, ap,
}
use ossa.Crdt.Time.{CausalState, Extends, compare_with_tiebreak-eq-cmp}
use ossa.Crdt.Lww.{Lww, apply, apply_all}

module _ {ℓ κ} {T : Type ℓ} {A : Type κ} where
  -- Precondition of `apply`: the times of applied operations are unique.
  abbrev pub Fresh : T → List (Lww T A) → Type ℓ
  Fresh t ops = All (λ op. t ≢ op.time) ops

  abbrev pub Unique : List (Lww T A) → Type ℓ
  Unique [] = Unit
  Unique (op ∷ ops) = Fresh op.time ops × Unique ops

  Fresh-perm : (t : T) {xs ys : List (Lww T A)} → Permᴰ xs ys → Fresh t xs → Fresh t ys
  Fresh-perm t Permᴰ.nil f = f
  Fresh-perm t (Permᴰ.cons e p) (f, fs) = (λ h. f (h ∙ ap (λ r. r.time) (sym e)), Fresh-perm t p fs)
  Fresh-perm t (Permᴰ.swap e d) (f, (g, fs)) =
      (λ h. g (h ∙ ap (λ r. r.time) (sym d)), (λ h. f (h ∙ ap (λ r. r.time) (sym e)), fs))
  Fresh-perm t (Permᴰ.trans p q) f = Fresh-perm t q (Fresh-perm t p f)

  Unique-perm : {xs ys : List (Lww T A)} → Permᴰ xs ys → Unique xs → Unique ys
  Unique-perm Permᴰ.nil u = u
  Unique-perm (Permᴰ.cons {l₁ = xs} e p) (f, u) =
      (Fresh-perm _ p (subst (λ r. Fresh r.time xs) e f), Unique-perm p u)
  Unique-perm (Permᴰ.swap {l} e d) ((n, f), (g, u)) = (
    (
      λ h. n (ap (λ r. r.time) e ∙ sym h ∙ sym (ap (λ r. r.time) d)),
      subst (λ r. Fresh r.time l) d g,
    ),
    (subst (λ r. Fresh r.time l) e f, u),
  )
  Unique-perm (Permᴰ.trans p q) u = Unique-perm q (Unique-perm p u)

  All-perm {μ} : (P : Lww T A → Type μ) {xs ys : List (Lww T A)} → Permᴰ xs ys → All P xs → All P ys
  All-perm P Permᴰ.nil h = h
  All-perm P (Permᴰ.cons e p) (h, hs) = (subst P e h, All-perm P p hs)
  All-perm P (Permᴰ.swap e d) (h, (k, hs)) = (subst P d k, (subst P e h, hs))
  All-perm P (Permᴰ.trans p q) h = All-perm P q (All-perm P p h)

  Memᴰ-perm : (m : Lww T A) {xs ys : List (Lww T A)} → Permᴰ xs ys → Memᴰ m xs → Memᴰ m ys
  Memᴰ-perm m Permᴰ.nil h = h
  Memᴰ-perm m (Permᴰ.cons e p) (Memᴰ.head h) = Memᴰ.head (h ∙ e)
  Memᴰ-perm m (Permᴰ.cons e p) (Memᴰ.tail h) = Memᴰ.tail (Memᴰ-perm m p h)
  Memᴰ-perm m (Permᴰ.swap e d) (Memᴰ.head h) = Memᴰ.tail (Memᴰ.head (h ∙ e))
  Memᴰ-perm m (Permᴰ.swap e d) (Memᴰ.tail (Memᴰ.head h)) = Memᴰ.head (h ∙ d)
  Memᴰ-perm m (Permᴰ.swap e d) (Memᴰ.tail (Memᴰ.tail h)) = Memᴰ.tail (Memᴰ.tail h)
  Memᴰ-perm m (Permᴰ.trans p q) h = Memᴰ-perm m q (Memᴰ-perm m p h)

  All-Memᴰ {μ} :
      (P : Lww T A → Type μ) {m : Lww T A} {xs : List (Lww T A)} → Memᴰ m xs → All P xs → P m
  All-Memᴰ P (Memᴰ.head e) (h, hs) = subst P (sym e) h
  All-Memᴰ P (Memᴰ.tail q) (h, hs) = All-Memᴰ P q hs

  eq_of_time :
      (m n : Lww T A) {xs : List (Lww T A)}
      → Memᴰ m xs
      → Memᴰ n xs
      → Unique xs
      → m.time ≡ n.time
      → m ≡ n
  eq_of_time m n (Memᴰ.head p) (Memᴰ.head q) u e = p ∙ sym q
  eq_of_time m n (Memᴰ.head p) (Memᴰ.tail q) (f, u) e =
      absurd (All-Memᴰ _ q f (ap (λ r. r.time) (sym p) ∙ e))
  eq_of_time m n (Memᴰ.tail p) (Memᴰ.head q) (f, u) e =
      absurd (All-Memᴰ _ p f (ap (λ r. r.time) (sym q) ∙ sym e))
  eq_of_time m n (Memᴰ.tail p) (Memᴰ.tail q) (f, u) e = eq_of_time m n p q u e

module _ {ℓ} {T : Type ℓ} ⦃o : Ord T⦄ where
  not-lt_trans : (a b c : T) → o.cmp a b ≢ lt → o.cmp c b ≡ lt → o.cmp a c ≢ lt
  not-lt_trans a b c n h k = n (o.lt_trans a c b k h)

module _ {ℓ κ} {T : Type ℓ} {A : Type κ} ⦃o : Ord T⦄ where
  -- The last writer among some registers: one of them, with no later time beside it.
  pub record IsLast (m : Lww T A) (rs : List (Lww T A)) : Type (ℓ ⊔ κ) where
    pub one : Memᴰ m rs
    pub last : All (λ r. o.cmp m.time r.time ≢ lt) rs

  one_writer : (m n : Lww T A) (rs : List (Lww T A)) → Unique rs → IsLast m rs → IsLast n rs → m ≡ n
  one_writer m n rs u p q =
      let no_later = All-Memᴰ _ q.one p.last in
      let no_earlier = All-Memᴰ _ p.one q.last in
      eq_of_time m n p.one q.one u
        (ground (arith, o.cmp_swap m.time n.time, o.eq_of_cmp m.time n.time))

  -- the comparison of `apply` is that of the times
  apply-cmp :
      (st : CausalState T) (r op : Lww T A) (rest : Lww T A → Run (Lww T A))
      → Extends st
      → (apply st r op >>= rest)
        ≡ elim (o.cmp r.time op.time) [ lt ↦ rest op | gt ↦ rest r | eq ↦ panic ]
  unfolding apply
  apply-cmp st r op rest x = ground (arith, compare_with_tiebreak-eq-cmp st r.time op.time x)

  -- `apply_all` returns, and what it returns is the last writer.
  pub apply_all-IsLast :
      (st : CausalState T) (r : Lww T A) (ops : List (Lww T A))
      → Extends st
      → Unique (r ∷ ops)
      → (m : Lww T A) × (apply_all st r ops ≡ done m) × IsLast m (r ∷ ops)
  unfolding apply_all
  apply_all-IsLast st r [] x u =
      (r, refl, record { one = Memᴰ.head refl; last = (ground (arith, o.cmp_refl r.time), tt) })
  apply_all-IsLast st r (op ∷ ops) x ((n, f), (g, u)) =
      elim (Ordering-cases (o.cmp r.time op.time)) [
        | inl less ↦
            let (m, e, h) = apply_all-IsLast st op ops x (g, u) in
            (
              m,
              apply-cmp st r op _ x ∙ ground arith,
              record {
                one = Memᴰ.tail h.one;
                last = (not-lt_trans m.time op.time r.time h.last.0 less, h.last);
              },
            )
        | inr (inl same) ↦ absurd (n (o.eq_of_cmp r.time op.time same))
        | inr (inr more) ↦
            let (m, e, h) = apply_all-IsLast st r ops x (f, u) in
            (
              m,
              apply-cmp st r op _ x ∙ ground arith,
              record {
                one = skip h.one;
                last = (
                  h.last.0,
                  (
                    not-lt_trans m.time r.time op.time h.last.0
                        (ground (arith, o.cmp_swap r.time op.time)),
                    h.last.1,
                  ),
                );
              },
            )
      ]
    where
      skip : {m : Lww T A} → Memᴰ m (r ∷ ops) → Memᴰ m (r ∷ op ∷ ops)
      skip (Memᴰ.head e) = Memᴰ.head e
      skip (Memᴰ.tail q) = Memᴰ.tail (Memᴰ.tail q)

  -- Where the order on times continues the causal one and the times are unique, two replicas that
  -- start from one register and apply the same operations, each in its own order, both return, and
  -- both hold the last writer of the register and the operations.
  pub apply_all-perm :
      (st : CausalState T) (r : Lww T A) {xs ys : List (Lww T A)}
      → Extends st
      → Unique (r ∷ xs)
      → Permᴰ xs ys
      → (m : Lww T A) × (apply_all st r xs ≡ done m)
        × (apply_all st r ys ≡ done m)
        × IsLast m (r ∷ xs)
  apply_all-perm st r {xs} {ys} x u p =
      let p' = Permᴰ.cons {a = r} refl p in
      let (m, e, h) = apply_all-IsLast st r xs x u in
      let (n, e', h') = apply_all-IsLast st r ys x (Unique-perm p' u) in
      let moved : IsLast m (r ∷ ys) = record {
        one = Memᴰ-perm m p' h.one;
        last = All-perm _ p' h.last;
      } in
      let same = one_writer m n (r ∷ ys) (Unique-perm p' u) moved h' in
      (m, e, e' ∙ ap done (sym same), h)
