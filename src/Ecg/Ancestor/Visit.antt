-- ===== src/Ecg/Ancestor/Visit.antt =====
-- One round of the loop of `is_ancestor_of`: what `visit_parents` adds, and the work that is left.
use ossa.Prelude.{
  ℕ, suc, ◌+◌, ◌≤◌, ◌≡◌, refl, sym, ◌∙◌, ap, inl, inr, true, false, not, ◌&&◌, ◌||◌, Bool-cases,
  List, [], ◌∷◌, ◌++◌, All, length, length-append, beq, beq_iff, contains, set_insert,
  contains-set_insert, if◌then◌else◌, nat_ord, arith,
}
use ossa.Ecg.{visit_parents}

-- how many of some nodes are not visited
unfoldable pub unseen : List ℕ → List ℕ → ℕ
unseen [] visited = 0
unseen (u ∷ us) visited = if contains u visited then unseen us visited else suc (unseen us visited)

unseen_mono : (us visited : List ℕ) (p : ℕ) → unseen us (set_insert p visited) ≤ unseen us visited
unfolding unseen
unseen_mono [] visited p = omega arith
unseen_mono (u ∷ us) visited p =
    ground (arith, unseen_mono us visited p, contains-set_insert p u visited)

-- a node seen for the first time is one less to see
pub unseen_less :
    (us visited : List ℕ) (p : ℕ)
    → contains p us ≡ true
    → contains p visited ≡ false
    → suc (unseen us (set_insert p visited)) ≤ unseen us visited
unfolding unseen contains
unseen_less [] visited p m n = absurd (cc)
unseen_less (u ∷ us) visited p m n = elim (Bool-cases (beq p u)) [
  | inl h ↦
      let e : contains u visited ≡ false =
        ap (λ x. contains x visited) (sym ((beq_iff p u).0 h)) ∙ n in
      ground (arith, unseen_mono us visited p, contains-set_insert p u visited)
  | inr h ↦
      ground (arith, unseen_less us visited p (ground arith) n, contains-set_insert p u visited)
]

pub contains-append :
    (k : ℕ) (xs ys : List ℕ) → contains k (xs ++ ys) ≡ (contains k xs || contains k ys)
unfolding contains
contains-append k [] ys = refl
contains-append k (x ∷ xs) ys = ground (arith, contains-append k xs ys)

-- what is visited after the round
pub visit_parents-visited :
    (ps queue visited : List ℕ) (k : ℕ)
    → contains k (visit_parents queue visited ps).1 ≡ (contains k visited || contains k ps)
unfolding visit_parents contains
visit_parents-visited [] queue visited k = ground arith
visit_parents-visited (p ∷ ps) queue visited k = elim (Bool-cases (contains p visited)) [
  | inl h ↦ ground (arith, visit_parents-visited ps queue visited k, beq_iff k p)
  | inr h ↦ ground (
    arith,
    visit_parents-visited ps (queue ++ p ∷ []) (set_insert p visited) k,
    contains-set_insert p k visited,
  )
]

-- what is queued after the round: what was, and the parents that were not visited
pub visit_parents-queue :
    (ps queue visited : List ℕ) (k : ℕ)
    → contains k (visit_parents queue visited ps).0
      ≡ (contains k queue || (contains k ps && not (contains k visited)))
unfolding visit_parents contains
visit_parents-queue [] queue visited k = ground arith
visit_parents-queue (p ∷ ps) queue visited k = elim (Bool-cases (contains p visited)) [
  | inl h ↦ ground (arith, visit_parents-queue ps queue visited k, beq_iff k p)
  | inr h ↦ ground (
    arith,
    visit_parents-queue ps (queue ++ p ∷ []) (set_insert p visited) k,
    contains-set_insert p k visited,
    contains-append k queue (p ∷ []),
    beq_iff k p,
  )
]

-- queueing a node takes it from those not seen
pub visit_parents-work :
    (us ps queue visited : List ℕ)
    → All (λ p. contains p us ≡ true) ps
    → length (visit_parents queue visited ps).0 + unseen us (visit_parents queue visited ps).1
      ≤ length queue + unseen us visited
unfolding visit_parents
visit_parents-work us [] queue visited a = omega arith
visit_parents-work us (p ∷ ps) queue visited (m, a) = elim (Bool-cases (contains p visited)) [
  | inl h ↦ rw h (visit_parents-work us ps queue visited a)
  | inr h ↦ rw h (
      omega (
        arith,
        visit_parents-work us ps (queue ++ p ∷ []) (set_insert p visited) a,
        unseen_less us visited p m h,
        length-append queue (p ∷ []),
      ))
]
