-- ===== src/Ecg/V0.antt =====
-- ossa-core/src/store/ecg/v0.rs and ossa-core/src/time.rs: the times of operations, and the bodies that
-- hold them. A position is a `u8`.
pub mod Order
pub mod Bodies
use ossa.Prelude.{
  ℕ, ◌≡◌, Bool, true, false, Option, none, some, List, map, length, Run, done, panic, ltb, Ord, beq,
  if◌then◌else◌,
}
use ossa.Ecg.StableDag.{Dag}
use ossa.Ecg.{EcgHeader, State, is_ancestor_of}

-- `Option::expect`
abbrev pub expect {ℓ} : {A : Type ℓ} → Option A → Run A
expect none = panic
expect (some a) = done a

-- a header, or the initial state, and a position among its operations
pub record OperationId (HeaderId : Type 0) : Type 0 where
  pub header_id : Option HeaderId
  pub operation_position : ℕ

pub data CausalTime (Time : Type 0) : Type 0 where
  current : (operation_position : ℕ) → CausalTime Time
  time : Time → CausalTime Time

unfoldable pub concretize_time :
    {HeaderId : Type 0} → CausalTime (OperationId HeaderId) → HeaderId → OperationId HeaderId
concretize_time (current position) current_header = record {
  header_id = some current_header;
  operation_position = position;
}
concretize_time (time t) current_header = t

-- `a.header_id == b.header_id`
abbrev pub same_header :
    {HeaderId : Type 0} ⦃o : Ord HeaderId⦄ → Option HeaderId → Option HeaderId → Bool
same_header none none = true
same_header none (some b) = false
same_header (some a) none = false
same_header (some a) (some b) = beq a b

module _ {HeaderId Header : Type 0} ⦃o : Ord HeaderId⦄ {dag : Dag HeaderId} where
  -- for operations of different headers
  unfoldable pub header_before : State Header dag → Option HeaderId → Option HeaderId → Run Bool
  header_before st (some a) (some b) = expect (is_ancestor_of st a b)
  header_before st (some a) none = done false
  header_before st none b = done true

  -- `CausalState::happens_before` of `ecg::State`
  unfoldable pub happens_before :
      State Header dag → OperationId HeaderId → OperationId HeaderId → Run Bool
  unfolding header_before
  happens_before st a b =
      if same_header a.header_id b.header_id
      then done (ltb a.operation_position b.operation_position)
      else header_before st a.header_id b.header_id

-- `TestHeader`, with `u32` as ids
pub record TestHeader : Type 0 where
  pub header_id : ℕ
  pub parent_ids : List ℕ

-- `impl ECGHeader for TestHeader`
unfoldable pub test_header : EcgHeader ℕ TestHeader
test_header = record {
  get_parent_ids = λ h. h.parent_ids;
  get_header_id = λ h. h.header_id;
  validate_header = λ h id. true;
}
