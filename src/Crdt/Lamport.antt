-- ===== src/Crdt/Lamport.antt =====
-- ossa-crdt/src/time/lamport.rs. `SystemTime` is a number of ticks.
use Prim.Native.Nat.Ordering.{lt, eq, gt}
use ossa.Prelude.{
  ℕ, ◌≡◌, Bool, ◌&&◌, Ordering, compare, ltb, Option, none, some, Ord, beq, reverse, if◌then◌else◌,
  arith,
}
use ossa.Crdt.Time.{CausalState, IsCausal, Extends}

pub record LamportTimestamp {ℓ} (User : Type ℓ) : Type ℓ where
  pub timestamp : ℕ
  pub id : User

module _ {ℓ} {User : Type ℓ} ⦃o : Ord User⦄ where
  unfoldable pub happens_before : LamportTimestamp User → LamportTimestamp User → Bool
  happens_before t1 t2 = beq t1.id t2.id && ltb t1.timestamp t2.timestamp

  -- `LamportState`
  abbrev pub lamport_state : CausalState (LamportTimestamp User)
  lamport_state = record { happens_before = happens_before }

  unfoldable pub partial_cmp : LamportTimestamp User → LamportTimestamp User → Option Ordering
  partial_cmp a b = if beq a.id b.id then some (compare a.timestamp b.timestamp) else none

  unfoldable pub cmp : LamportTimestamp User → LamportTimestamp User → Ordering
  cmp a b =
      if ltb a.timestamp b.timestamp
      then lt
      else if ltb b.timestamp a.timestamp
      then gt
      else o.cmp a.id b.id

  lamport_state-IsCausal : IsCausal lamport_state
  unfolding happens_before
  lamport_state-IsCausal = record {
    irrefl = λ a. ground arith;
    trans =
        λ a b c h k. ground (arith, o.eq_of_cmp a.id b.id, o.eq_of_cmp b.id c.id, o.cmp_refl a.id);
  }

  -- `partial_cmp` answers as `cmp` does for two times of one id, and gives no answer for all others.
  pub partial_cmp_lem :
      (a b : LamportTimestamp User)
      → partial_cmp a b ≡ (if beq a.id b.id then some (cmp a b) else none)
  unfolding partial_cmp cmp
  partial_cmp_lem a b = ground arith

  pub cmp_refl : (a : LamportTimestamp User) → cmp a a ≡ eq
  unfolding cmp
  cmp_refl a = ground (arith, o.cmp_refl a.id)

  pub eq_of_cmp : (a b : LamportTimestamp User) → cmp a b ≡ eq → a ≡ b
  unfolding cmp
  eq_of_cmp a b h = ground (arith, o.eq_of_cmp a.id b.id)

  pub cmp_swap : (a b : LamportTimestamp User) → cmp b a ≡ reverse (cmp a b)
  unfolding cmp
  cmp_swap a b = ground (arith, o.cmp_swap a.id b.id)

  pub cmp_trans : (a b c : LamportTimestamp User) → cmp a b ≡ lt → cmp b c ≡ lt → cmp a c ≡ lt
  unfolding cmp
  cmp_trans a b c h k = ground (arith, o.lt_trans a.id b.id c.id)

  instance abbrev pub lamport_ord : Ord (LamportTimestamp User)
  lamport_ord = record {
    cmp = cmp;
    cmp_refl = cmp_refl;
    eq_of_cmp = eq_of_cmp;
    cmp_swap = cmp_swap;
    lt_trans = cmp_trans;
  }

  -- `LamportState` is a strict partial order, and the order `cmp` on timestamps continues it.
  pub lamport_order : IsCausal lamport_state × Extends lamport_state
  unfolding happens_before cmp
  lamport_order = (lamport_state-IsCausal, λ a b h. ground arith)
