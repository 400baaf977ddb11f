-- ===== src/Store/Percent.antt =====
-- About the progress that ossa-core/src/store/mod.rs reports to a subscriber.
use native.Mathlib.Nat.{mod-le, div-lt_iff_lt-mul}
use ossa.Prelude.{
  ℕ, ◌*◌, ◌/◌, ◌%◌, ◌^◌, ◌≤◌, ◌<◌, ◌≡◌, inl, inr, true, Bool-cases, Option, none, some, List, [],
  ◌∷◌, length, ◌==◌, Ord, arith,
}
use ossa.Store.Metadata.{block_size, block_count}
use ossa.Store.{
  OssaType, StateMachine, downloading_metadata, downloading_merkle, downloading_initial_state,
  syncing, downloading,
}
use ossa.Store.Download.{any_missing}
use ossa.Store.Run.{count_downloaded, percent_of, state_update}
use ossa.Store.Integrity.{IsStore}

count_downloaded-le : (blocks : List (Option (List ℕ))) → count_downloaded blocks ≤ length blocks
unfolding count_downloaded
count_downloaded-le [] = omega arith
count_downloaded-le (none ∷ blocks) = omega (arith, count_downloaded-le blocks)
count_downloaded-le (some b ∷ blocks) = omega (arith, count_downloaded-le blocks)

count_downloaded-lt :
    (blocks : List (Option (List ℕ)))
    → any_missing blocks ≡ true
    → count_downloaded blocks < length blocks
unfolding count_downloaded any_missing
count_downloaded-lt [] e = absurd (cc)
count_downloaded-lt (none ∷ blocks) e = omega (arith, count_downloaded-le blocks)
count_downloaded-lt (some b ∷ blocks) e = omega (arith, count_downloaded-lt blocks e)

below_hundred : (d size : ℕ) → d * block_size < size → percent_of d size < 100
unfolding percent_of
below_hundred d size l = elim (Bool-cases (size == 0)) [
  | inl e ↦ rw (e, percent_of) (omega arith)
  | inr e ↦
      let small : 100 * d * block_size % 2 ^ 64 < 100 * size =
        omega (arith, mod-le (100 * d * block_size) (2 ^ 64)) in
      let quotient : 100 * d * block_size % 2 ^ 64 / size < 100 =
        (div-lt_iff_lt-mul (omega arith)).1 small in
      rw (e, percent_of) quotient
]

-- A store as it has to be never reports that it is done while it still downloads: the percentage stays
-- below 100, also where the product that it is computed from wraps around.
pub state_update_percent :
    {ot : OssaType} ⦃o : Ord ot.HeaderId⦄ ⦃n : Ord ot.N⦄ (id : ot.StoreId) (m : StateMachine ot)
    (percent : ℕ)
    → IsStore id m
    → state_update m ≡ downloading percent
    → percent < 100
unfolding state_update block_count
state_update_percent id (downloading_metadata own) percent s e = ground arith
state_update_percent id (downloading_merkle d t) percent s e = ground arith
state_update_percent id (syncing d t b g x) percent s e = absurd (cc)
state_update_percent id (downloading_initial_state d t b) percent
      (sid, c, count, mk, len, part, valid) e =
    let some_left = count_downloaded-lt b part in
    let low : count_downloaded b * block_size < d.initial_state_size = omega (arith, count) in
    let under = below_hundred (count_downloaded b) d.initial_state_size low in ground arith
