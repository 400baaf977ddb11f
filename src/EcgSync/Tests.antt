-- ===== src/EcgSync/Tests.antt =====
-- A peer that has a chain of two headers, told of the second.
use ossa.Prelude.{
  get, ℕ, zero, suc, ◌-◌, ◌<◌, ◌≤◌, ◌||◌, ◌&&◌, ◌≡◌, refl, false, get_elem?, arith, true, some,
  List, [], ◌∷◌, done, beq, contains, if◌then◌else◌, nat_ord,
}
use ossa.Ecg.StableDag.{Dag}
use ossa.Ecg.ListDag.{list_dag}
use ossa.Ecg.{State, new, knows, get_node, insert_header, insert_new, find_parents}
use ossa.Ecg.WellFormed.{IsWellFormed}
use ossa.Ecg.InsertAll.{new-IsWellFormed}
use ossa.Ecg.Acyclic.{IsAcyclic, new-IsAcyclic}
use ossa.Ecg.V0.{TestHeader, test_header}
use ossa.EcgSync.{mark_as_known, handle_received_headers}
use ossa.EcgSync.Known.{mark_as_known_new}
use ossa.EcgSync.Haves.{Received, handle_received_have, max_have_headers}
use ossa.EcgSync.Answered.{AllNew, handle_received_have_new}
use ossa.EcgSync.Headers.{InOrder, handle_received_headers_lem}

abbrev dag : Dag ℕ
dag = list_dag

abbrev header : ℕ → List ℕ → TestHeader
header id parents = record { header_id = id; parent_ids = parents }

abbrev chain : List TestHeader
chain = header 1 [] ∷ header 2 (1 ∷ []) ∷ []

abbrev peer : State TestHeader dag
peer = (handle_received_headers test_header (new TestHeader dag) chain).0

chain_ordered : InOrder test_header (knows (new TestHeader dag)) chain
unfolding InOrder contains test_header
chain_ordered = (refl, λ p c. absurd (cc), (refl, λ p c. ground (arith, c), tt))

handle_received_headers_lem_example :
    ((q : ℕ) → knows peer q ≡ (contains q (1 ∷ 2 ∷ []) || knows (new TestHeader dag) q))
    × ((q : ℕ)
        → knows (new TestHeader dag) q ≡ true
        → get_node peer q ≡ get_node (new TestHeader dag) q)
    × IsWellFormed test_header peer
    × IsAcyclic test_header peer
unfolding test_header
handle_received_headers_lem_example =
    handle_received_headers_lem test_header chain (new TestHeader dag)
      (new-IsWellFormed test_header) (new-IsAcyclic test_header) chain_ordered

-- a header whose parent is not known is lost, and reported as valid
orphan :
    (knows (handle_received_headers test_header (new TestHeader dag) (header 2 (1 ∷ []) ∷ [])).0 2
      ≡ false)
    × ((handle_received_headers test_header (new TestHeader dag) (header 2 (1 ∷ []) ∷ [])).1 ≡ true)
unfolding handle_received_headers insert_header insert_new find_parents knows get test_header new
orphan = (refl, refl)

mark_as_known_new_example :
    (known : List ℕ) × (mark_as_known 2 peer [] 2 ≡ done (some known))
    × ((p : ℕ) → contains p known ≡ (if beq p 2 then true else contains p []))
unfolding contains
mark_as_known_new_example = mark_as_known_new 0 peer [] 2 refl

-- the other peer has a header that this one has too, and one that it has not
abbrev haves : List ℕ
haves = 2 ∷ 5 ∷ []

haves_place : (i j h : ℕ) → get_elem? haves i ≡ some h → get_elem? haves j ≡ some h → i ≡ j
haves_place zero zero h g g' = refl
haves_place zero (suc zero) h g g' = absurd (ground arith)
haves_place zero (suc (suc j)) h g g' = absurd (ground arith)
haves_place (suc zero) zero h g g' = absurd (ground arith)
haves_place (suc zero) (suc zero) h g g' = refl
haves_place (suc zero) (suc (suc j)) h g g' = absurd (ground arith)
haves_place (suc (suc i)) j h g g' = absurd (ground arith)

haves_new : AllNew {HeaderId = ℕ} [] haves
unfolding contains
haves_new i h g = (refl, λ j g'. haves_place i j h g g')

handle_received_have_new_example :
    (r : Received ℕ) × (handle_received_have 2 peer 1 [] [] haves ≡ done (some r))
    × (r.their_tips_remaining ≡ 1 - 2)
    × (r.their_tips ≡ 2 ∷ [])
    × ((p : ℕ) → contains p r.their_known ≡ (contains p [] || (contains p haves && knows peer p)))
    × ((j h : ℕ) → get_elem? haves j ≡ some h → get_elem? r.known_bitmap j ≡ some (knows peer h))
    × ((j : ℕ) → 2 ≤ j → j < max_have_headers → get_elem? r.known_bitmap j ≡ some false)
handle_received_have_new_example =
    handle_received_have_new 0 peer 1 [] [] haves haves_new (omega arith)
