-- ===== src/EcgSync/Answered.antt =====
-- `handle_received_have` of ossa-core/src/network/protocol/ecg_sync/v0/mod.rs, about headers that the other
-- peer was not known to have.
use mathlib.Core.Path.{subst}
use ossa.Prelude.{
  ℕ, zero, suc, ◌+◌, ◌-◌, ◌<◌, ◌≤◌, ◌≡◌, ◌≢◌, refl, sym, ◌∙◌, ap, inl, inr, ◌⊎◌, min, Bool, true,
  false, Bool-cases, some, List, [], ◌∷◌, ◌++◌, ◌||◌, ◌&&◌, take-min, length, length-set,
  length-replicate, get_elem?, get_elem?-set, get_elem?-lt, get_elem?-bound, set, take, replicate,
  done, if◌then◌else◌, Ord, beq, beq_iff, contains, ltb, ◌==◌, arith,
}
use ossa.Ecg.StableDag.{Dag}
use ossa.Ecg.{State, knows}
use ossa.EcgSync.Known.{mark_as_known_new}
use ossa.EcgSync.Haves.{
  max_have_headers, Received, set_known, handle_have, handle_haves, handle_received_have,
}

get_elem?-replicate : (n i : ℕ) → i < n → get_elem? (replicate n false) i ≡ some false
get_elem?-replicate zero i l = absurd (omega arith)
get_elem?-replicate (suc n) zero l = refl
get_elem?-replicate (suc n) (suc i) l = get_elem?-replicate n i (omega arith)

module _ {HeaderId : Type 0} ⦃o : Ord HeaderId⦄ where
  -- no header of the list is among those known or stands in the list twice
  abbrev pub AllNew : List HeaderId → List HeaderId → Type 0
  AllNew their_known have =
      (i : ℕ) (h : HeaderId)
      → get_elem? have i ≡ some h
      → (contains h their_known ≡ false) × ((j : ℕ) → get_elem? have j ≡ some h → i ≡ j)

module _ {HeaderId Header : Type 0} ⦃o : Ord HeaderId⦄ {dag : Dag HeaderId} where
  -- what one header does to the other's known headers and to the bitmap
  handle_have_new :
      (fuel : ℕ) (st : State Header dag) (h : HeaderId) (i : ℕ) (known : List HeaderId)
      (bitmap : List Bool)
      → contains h known ≡ false
      → i < length bitmap
      → (known' : List HeaderId) × (bitmap' : List Bool) × (handle_have
            (suc (suc fuel))
            st
            h
            i
            known
            bitmap
          ≡ done (some (known', bitmap')))
        × ((p : HeaderId) → contains p known' ≡ (contains p known || (beq p h && knows st h)))
        × (length bitmap' ≡ length bitmap)
        × ((j : ℕ)
            → get_elem? bitmap' j
              ≡ (if (j == i) && knows st h then some true else get_elem? bitmap j))
  unfolding handle_have set_known
  handle_have_new fuel st h i known bitmap new l = elim (Bool-cases (knows st h)) [
    | inl k ↦
        let (known', e, marked) = mark_as_known_new fuel st known h new in
        let (w, g) = get_elem?-lt bitmap i l in
        let t : ltb i (length bitmap) ≡ true = ground arith in
        (
          known',
          set bitmap i true,
          rw (k, e, t) refl,
          λ p. rw (marked p, k) (ground arith),
          length-set bitmap i true,
          λ j. rw (get_elem?-set bitmap i j true w g, k) (ground arith),
        )
    | inr k ↦ (known, bitmap, rw k refl, λ p. rw k (ground arith), refl, λ j. rw k (ground arith))
  ]

  -- the bits of a list of headers, of those of its head and of the rest
  bits_of :
      (st : State Header dag) (h : HeaderId) (have : List HeaderId) (i : ℕ)
      (bitmap bitmap' : List Bool)
      → (get_elem? bitmap' i ≡ (if knows st h then some true else get_elem? bitmap i))
      → ((j : ℕ) (p : HeaderId)
          → get_elem? have j ≡ some p
          → get_elem? bitmap' (i + 1 + j)
            ≡ (if knows st p then some true else get_elem? bitmap (i + 1 + j)))
      → (j : ℕ) (p : HeaderId) → get_elem? (h ∷ have) j ≡ some p
      → get_elem? bitmap' (i + j) ≡ (if knows st p then some true else get_elem? bitmap (i + j))
  bits_of st h have i bitmap bitmap' first rest zero p g =
      let same : h ≡ p = cc in
      let own : get_elem? bitmap' i ≡ (if knows st p then some true else get_elem? bitmap i) =
        subst (λ p. get_elem? bitmap' i ≡ (if knows st p then some true else get_elem? bitmap i))
          same first in
      subst (λ x. get_elem? bitmap' x ≡ (if knows st p then some true else get_elem? bitmap x))
        (omega arith) own
  bits_of st h have i bitmap bitmap' first rest (suc j) p g =
      subst (λ x. get_elem? bitmap' x ≡ (if knows st p then some true else get_elem? bitmap x))
        (omega arith) (rest j p g)

  handle_haves_new :
      (have : List HeaderId) (fuel : ℕ) (st : State Header dag) (i : ℕ) (known : List HeaderId)
      (bitmap : List Bool)
      → AllNew known have
      → i + length have ≤ length bitmap
      → (known' : List HeaderId) × (bitmap' : List Bool) × (handle_haves
            (suc (suc fuel))
            st
            have
            i
            known
            bitmap
          ≡ done (some (known', bitmap')))
        × ((p : HeaderId)
            → contains p known' ≡ (contains p known || (contains p have && knows st p)))
        × ((j : ℕ) → (j < i) ⊎ (i + length have ≤ j) → get_elem? bitmap' j ≡ get_elem? bitmap j)
        × ((j : ℕ) (h : HeaderId)
            → get_elem? have j ≡ some h
            → get_elem? bitmap' (i + j)
              ≡ (if knows st h then some true else get_elem? bitmap (i + j)))
  unfolding handle_haves contains
  handle_haves_new [] fuel st i known bitmap new l =
      (known, bitmap, refl, λ p. ground arith, λ j o. refl, λ j h e. absurd (cc))
  handle_haves_new (h ∷ have) fuel st i known bitmap new l =
      let (known1, bitmap1, e1, marked1, size, bits1) =
        handle_have_new fuel st h i known bitmap (new 0 h refl).0 (omega arith) in
      let new1 : AllNew known1 have = λ k p g.
        let (fresh, once) = new (suc k) p g in
        let other : beq p h ≡ false = elim (Bool-cases (beq p h)) [
          | inl q ↦
              let same = once 0 (ap some (sym ((beq_iff p h).0 q))) in absurd (omega (arith, same))
          | inr q ↦ q
        ] in
        let unknown : contains p known1 ≡ false = rw (marked1 p, fresh, other) refl in
        (unknown, λ j g'. let same = once (suc j) g' in omega (arith, same)) in
      let (known2, bitmap2, e2, marked2, out2, bits2) =
        handle_haves_new have fuel st (i + 1) known1 bitmap1 new1 (omega (arith, size)) in
      let before : (j : ℕ) → j ≢ i → get_elem? bitmap1 j ≡ get_elem? bitmap j =
        λ j d. bits1 j ∙ ground arith in
      let first : get_elem? bitmap2 i ≡ (if knows st h then some true else get_elem? bitmap i) =
        out2 i (ground arith) ∙ bits1 i ∙ ground arith in
      (
        known2,
        bitmap2,
        rw e1 e2,
        λ p. rw (marked2 p, marked1 p) (ground (arith, (beq_iff p h).0)),
        λ j o. out2 j (ground arith) ∙ before j (ground arith),
        bits_of st h have i bitmap bitmap2 first
            (λ j p g. bits2 j p g ∙ rw (before (i + 1 + j) (ground arith)) refl),
      )

  -- In any state, of up to 32 headers, all different and none among those the other peer is known to have,
  -- `handle_received_have` with two or more rounds of fuel does not panic: the headers that the state has
  -- are then known too and no others, their bits and no others are set, and as many of the headers as
  -- tips were still to come are added to the other's tips.
  pub handle_received_have_new :
      (fuel : ℕ) (st : State Header dag) (remaining : ℕ) (tips known have : List HeaderId)
      → AllNew known have
      → length have ≤ max_have_headers
      → (r : Received HeaderId) × (handle_received_have
            (suc (suc fuel))
            st
            remaining
            tips
            known
            have
          ≡ done (some r))
        × (r.their_tips_remaining ≡ remaining - length have)
        × (r.their_tips ≡ tips ++ take remaining have)
        × ((p : HeaderId)
            → contains p r.their_known ≡ (contains p known || (contains p have && knows st p)))
        × ((j : ℕ) (h : HeaderId)
            → get_elem? have j ≡ some h
            → get_elem? r.known_bitmap j ≡ some (knows st h))
        × ((j : ℕ)
            → length have ≤ j
            → j < max_have_headers
            → get_elem? r.known_bitmap j ≡ some false)
  unfolding handle_received_have
  handle_received_have_new fuel st remaining tips known have new l =
      let (known', bitmap, e, marked, outside, bits) =
        handle_haves_new have fuel st 0 known (replicate max_have_headers false) new
          (omega (arith, length-replicate max_have_headers false)) in
      (
        record {
          their_tips_remaining = remaining - min remaining (length have);
          their_tips = tips ++ take (min remaining (length have)) have;
          their_known = known';
          known_bitmap = bitmap;
        },
        rw e refl,
        ground arith,
        ap (◌++◌ tips) (take-min remaining have),
        marked,
        λ j h g.
            let unset =
              get_elem?-replicate max_have_headers j (omega (arith, get_elem?-bound have j h g)) in
            let at : 0 + j ≡ j = omega arith in
            let set_or_not : get_elem? bitmap j ≡ (
                if knows st h then some true else get_elem? (replicate max_have_headers false) j) =
              subst
                (λ x. get_elem? bitmap x ≡ (
                  if knows st h then some true else get_elem? (replicate max_have_headers false) x))
                at (bits j h g) in
            set_or_not ∙ ground (arith, unset),
        λ j far l'. outside j (inr (omega arith)) ∙ get_elem?-replicate max_have_headers j l',
      )
