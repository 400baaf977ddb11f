-- ===== src/Ecg/V0/Bodies.antt =====
-- The bodies of ossa-core/src/store/ecg/v0.rs: how many operations one can hold.
use ossa.Prelude.{ℕ, List, length, Run, done, panic, ltb, if◌then◌else◌}

abbrev pub max_operation_count : ℕ
max_operation_count = 256

pub record Body (SerializedOp : Type 0) : Type 0 where
  pub operations : List SerializedOp

module _ {SerializedOp : Type 0} where
  unfoldable pub new_body : List SerializedOp → Run (Body SerializedOp)
  new_body operations =
      if ltb max_operation_count (length operations)
      then panic
      else done (record { operations = operations })

  -- the length as a `u8`, by `try_into().expect`
  unfoldable pub operations_count : Body SerializedOp → Run ℕ
  operations_count self =
      if ltb (length self.operations) 256 then done (length self.operations) else panic
