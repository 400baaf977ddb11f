-- ===== src/EcgSync/Haves.antt =====
-- ossa-core/src/network/protocol/ecg_sync/v0/mod.rs: what a peer does with the headers that the other says
-- that it has.
use ossa.Prelude.{
  ℕ, ◌+◌, ◌-◌, min, Bool, true, false, Option, none, some, List, [], ◌∷◌, ◌++◌, length, set, take,
  replicate, Run, done, panic, ◌>>=◌, if◌then◌else◌, Ord, ltb,
}
use ossa.Ecg.StableDag.{Dag}
use ossa.Ecg.{State, knows}
use ossa.EcgSync.{mark_as_known}

abbrev pub max_have_headers : ℕ
max_have_headers = 32

-- `known_bitmap.set(i, true)`, which panics for an index that the bitmap does not have
unfoldable pub set_known : List Bool → ℕ → Run (List Bool)
set_known known_bitmap i =
    if ltb i (length known_bitmap) then done (set known_bitmap i true) else panic

-- what `handle_received_have` writes, of its arguments
pub record Received (HeaderId : Type 0) : Type 0 where
  pub their_tips_remaining : ℕ
  pub their_tips : List HeaderId
  pub their_known : List HeaderId
  pub known_bitmap : List Bool

module _ {HeaderId Header : Type 0} ⦃o : Ord HeaderId⦄ {dag : Dag HeaderId} where
  -- one header of `have`, the `i`-th; the fuel is that of `mark_as_known`
  unfoldable pub handle_have :
      ℕ
      → State Header dag
      → HeaderId
      → ℕ
      → List HeaderId
      → List Bool
      → Run (Option (List HeaderId × List Bool))
  handle_have fuel st header_id i their_known known_bitmap =
      if knows st header_id
      then (mark_as_known fuel st their_known header_id >>= λ marked. elim marked [
        | none ↦ done none
        | some their_known' ↦
            set_known known_bitmap i >>= λ known_bitmap'. done (some (their_known', known_bitmap'))
      ])
      else done (some (their_known, known_bitmap))

  unfoldable pub handle_haves :
      ℕ
      → State Header dag
      → List HeaderId
      → ℕ
      → List HeaderId
      → List Bool
      → Run (Option (List HeaderId × List Bool))
  handle_haves fuel st [] i their_known known_bitmap = done (some (their_known, known_bitmap))
  handle_haves fuel st (header_id ∷ have) i their_known known_bitmap =
      handle_have fuel st header_id i their_known known_bitmap >>= λ handled. elim handled [
        | none ↦ done none
        | some (their_known', known_bitmap') ↦
            handle_haves fuel st have (i + 1) their_known' known_bitmap'
      ]

  -- `fill(false)` leaves a bitmap without a bit set, whatever it held before
  unfoldable pub handle_received_have :
      ℕ
      → State Header dag
      → ℕ
      → List HeaderId
      → List HeaderId
      → List HeaderId
      → Run (Option (Received HeaderId))
  handle_received_have fuel st their_tips_remaining their_tips their_known have =
      let provided_tip_c = min their_tips_remaining (length have) in
      handle_haves fuel st have 0 their_known (replicate max_have_headers false) >>= λ handled.
      elim handled [
        | none ↦ done none
        | some (their_known', known_bitmap) ↦ done (
            some (record {
              their_tips_remaining = their_tips_remaining - provided_tip_c;
              their_tips = their_tips ++ take provided_tip_c have;
              their_known = their_known';
              known_bitmap = known_bitmap;
            }))
      ]
