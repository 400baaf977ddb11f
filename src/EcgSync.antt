-- ===== src/EcgSync.antt =====
-- ossa-core/src/network/protocol/ecg_sync/v0/mod.rs: what a peer keeps of what the other knows, and the
-- headers that it takes in.
pub mod Known
pub mod Headers
pub mod Haves
pub mod Answered
mod Tests
use ossa.Prelude.{
  ℕ, zero, suc, Bool, true, false, not, ◌>>=◌, Option, none, some, List, [], ◌∷◌, ◌++◌, Run, done,
  panic, Ord, contains, set_insert,
}
use ossa.Ecg.StableDag.{Dag}
use ossa.Ecg.{EcgHeader, State, get_parents, insert_header}

module _ {HeaderId Header : Type 0} ⦃o : Ord HeaderId⦄ {dag : Dag HeaderId} where
  -- the queue of `mark_as_known` after a header is taken from it; `contains` is what `insert` returned
  unfoldable pub with_parents :
      State Header dag → HeaderId → Bool → List HeaderId → Run (List HeaderId)
  with_parents st header_id true queue = done queue
  with_parents st header_id false queue = elim (get_parents st header_id) [
    | none ↦ panic
    | some parents ↦ done (queue ++ parents)
  ]

  -- `go` of `mark_as_known`, on fuel: `none` means that the fuel ran out. `BTreeSet::insert` returns
  -- whether the value was new.
  unfoldable pub mark_queue :
      ℕ → State Header dag → List HeaderId → List HeaderId → Run (Option (List HeaderId))
  unfolding with_parents
  mark_queue zero st their_known queue = done none
  mark_queue (suc fuel) st their_known [] = done (some their_known)
  mark_queue (suc fuel) st their_known (header_id ∷ queue) =
      with_parents st header_id (not (contains header_id their_known)) queue >>= λ queue'.
      mark_queue fuel st (set_insert header_id their_known) queue'

  unfoldable pub mark_as_known :
      ℕ → State Header dag → List HeaderId → HeaderId → Run (Option (List HeaderId))
  unfolding mark_queue
  mark_as_known fuel st their_known header_id = mark_queue fuel st their_known (header_id ∷ [])

  -- the state after the headers, and whether all were valid
  unfoldable pub handle_received_headers :
      EcgHeader HeaderId Header → State Header dag → List Header → State Header dag × Bool
  handle_received_headers ecg st [] = (st, true)
  handle_received_headers ecg st (header ∷ headers) =
      handle_received_headers ecg (insert_header ecg st header []).0 headers
