-- ===== src/EcgSync/Known.antt =====
-- `mark_as_known` of ossa-core/src/network/protocol/ecg_sync/v0/mod.rs: what it adds for a header that the other peer was not known to have.
use ossa.Prelude.{
  ℕ, suc, ◌≡◌, ap, true, false, not, some, List, [], done, ◌>>=◌, Ord, beq, contains, set_insert,
  contains-set_insert, if◌then◌else◌,
}
use ossa.Ecg.StableDag.{Dag}
use ossa.Ecg.{State}
use ossa.EcgSync.{with_parents, mark_queue, mark_as_known}

module _ {HeaderId Header : Type 0} ⦃o : Ord HeaderId⦄ {dag : Dag HeaderId} where
  -- For a header that is not among those marked, in any state, `mark_as_known` ends after two rounds with
  -- that header marked and every other header as it was: a parent that was not marked is not marked now.
  pub mark_as_known_new :
      (fuel : ℕ) (st : State Header dag) (their_known : List HeaderId) (h : HeaderId)
      → contains h their_known ≡ false
      → (known : List HeaderId) × (mark_as_known (suc (suc fuel)) st their_known h
          ≡ done (some known))
        × ((p : HeaderId) → contains p known ≡ (if beq p h then true else contains p their_known))
  unfolding mark_as_known mark_queue with_parents
  mark_as_known_new fuel st known h n = (
    set_insert h known,
    ap
        (λ b. with_parents st h (not b) [] >>= λ queue.
          mark_queue (suc fuel) st (set_insert h known) queue)
        n,
    λ p. contains-set_insert h p known,
  )
