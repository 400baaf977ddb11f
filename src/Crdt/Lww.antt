-- ===== src/Crdt/Lww.antt =====
-- ossa-crdt/src/register/lww.rs: the last writer wins register.
pub mod Converge
use Prim.Native.Nat.Ordering.{lt, eq, gt}
use ossa.Prelude.{List, [], ◌∷◌, Run, done, panic, ◌>>=◌, Ord}
use ossa.Crdt.Time.{CausalState, Crdt, compare_with_tiebreak}

-- `LWW<T, A>`; an operation is a register too
pub record Lww {ℓ κ} (T : Type ℓ) (A : Type κ) : Type (ℓ ⊔ κ) where
  pub time : T
  pub value : A

module _ {ℓ κ} {T : Type ℓ} {A : Type κ} ⦃o : Ord T⦄ where
  -- `LWW::apply`
  unfoldable pub apply : CausalState T → Lww T A → Lww T A → Run (Lww T A)
  apply st self op = elim (compare_with_tiebreak st self.time op.time) [
    | lt ↦ done op
    | gt ↦ done self
    | eq ↦ panic
  ]

  -- `impl CRDT for LWW`
  unfoldable pub lww_crdt : Crdt (Lww T A) (Lww T A) T
  lww_crdt = record { apply = apply }

  -- A replica that applies operations as they arrive (`apply_operations` of the store).
  unfoldable pub apply_all : CausalState T → Lww T A → List (Lww T A) → Run (Lww T A)
  apply_all st r [] = done r
  apply_all st r (op ∷ ops) = apply st r op >>= λ s. apply_all st s ops
