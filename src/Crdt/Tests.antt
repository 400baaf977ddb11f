-- ===== src/Crdt/Tests.antt =====
-- Runs of the replicated data types, and their theorems at concrete inputs.
use Prim.Native.Nat.Ordering.{lt}
use mathlib.Core.List.{Permᴰ}
use ossa.Prelude.{
  ℕ, ◌≡◌, refl, [], ◌∷◌, ◌&&◌, done, beq, none, some, if◌then◌else◌, reverse, ◌==◌, arith, nat_ord,
}
use ossa.Crdt.Time.{
  CausalState, IsCausal, Extends, concurrent, compare_with_tiebreak, compare_with_tiebreak_swap,
}
use ossa.Crdt.Lamport.{
  LamportTimestamp, lamport_state, lamport_ord, lamport_order, partial_cmp, partial_cmp_lem, cmp,
}
use ossa.Crdt.Lww.{Lww, apply, apply_all}
use ossa.Crdt.Lww.Converge.{IsLast, apply_all-perm}

abbrev at_time : ℕ → ℕ → LamportTimestamp ℕ
at_time t i = record { timestamp = t; id = i }

abbrev write : ℕ → ℕ → ℕ → Lww (LamportTimestamp ℕ) ℕ
write t i v = record { time = at_time t i; value = v }

apply_all-perm_example :
    (m : Lww (LamportTimestamp ℕ) ℕ) × (apply_all lamport_state
        (write 1 0 10)
        (write 2 0 20 ∷ write 2 1 30 ∷ [])
      ≡ done m)
    × (apply_all lamport_state (write 1 0 10) (write 2 1 30 ∷ write 2 0 20 ∷ []) ≡ done m)
    × IsLast m (write 1 0 10 ∷ write 2 0 20 ∷ write 2 1 30 ∷ [])
apply_all-perm_example =
    apply_all-perm lamport_state (write 1 0 10) lamport_order.1 (ground arith)
      (Permᴰ.swap refl refl)

-- 5 happens before 1, and 3 is concurrent to both
abbrev five_before_one : CausalState ℕ
five_before_one = record { happens_before = λ a b. a == 5 && b == 1 }

abbrev reg : ℕ → Lww ℕ ℕ
reg t = record { time = t; value = t }

five_before_one-IsCausal : IsCausal five_before_one
five_before_one-IsCausal = record { irrefl = λ a. ground arith; trans = λ a b c h k. ground arith }

compare_with_tiebreak_swap_example :
    (compare_with_tiebreak five_before_one 1 5
      ≡ reverse (compare_with_tiebreak five_before_one 5 1))
    × (compare_with_tiebreak five_before_one 5 1 ≡ Prim.Native.Nat.Ordering.eq → ◌≡◌ {A = ℕ} 5 1)
    × (◌≡◌ {A = ℕ} 5 1 → compare_with_tiebreak five_before_one 5 1 ≡ Prim.Native.Nat.Ordering.eq)
compare_with_tiebreak_swap_example =
    compare_with_tiebreak_swap five_before_one 5 1 five_before_one-IsCausal

-- with an order on times that places 3 between the two, the order of delivery decides
two_orders :
    (apply_all five_before_one (reg 5) (reg 1 ∷ reg 3 ∷ []) ≡ done (reg 3))
    × (apply_all five_before_one (reg 5) (reg 3 ∷ reg 1 ∷ []) ≡ done (reg 1))
unfolding apply_all apply compare_with_tiebreak concurrent
two_orders = (refl, refl)

partial_cmp_lem_example :
    partial_cmp (at_time 1 0) (at_time 2 1)
    ≡ (if beq {K = ℕ} 0 1 then some (cmp (at_time 1 0) (at_time 2 1)) else none)
partial_cmp_lem_example = partial_cmp_lem (at_time 1 0) (at_time 2 1)

lamport_order_example : IsCausal (lamport_state {User = ℕ}) × Extends (lamport_state {User = ℕ})
lamport_order_example = lamport_order
