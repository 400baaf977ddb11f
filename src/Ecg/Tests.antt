-- ===== src/Ecg/Tests.antt =====
-- A diamond of four headers.
use mathlib.Core.Path.{subst}
use ossa.Prelude.{
  replicate, ℕ, ◌≡◌, ◌↔◌, refl, ◌⊎◌, Bool, true, false, none, some, List, [], ◌∷◌, map, done, panic,
  contains, get, insert, set_insert, set_remove, nat_ord,
}
use ossa.Ecg.StableDag.{Dag}
use ossa.Ecg.ListDag.{list_dag, live, parents_in, children_in, may_add}
use ossa.Ecg.{
  NodeInfo, State, new, get_node, knows, get_parents, get_parents_with_depth, find_parents,
  remove_all, insert_node, insert_new, insert_header, visit_parents, search_ancestor,
  is_ancestor_of,
}
use ossa.Ecg.Parents.{get_parents_lem}
use ossa.Ecg.WellFormed.{depth, is_nil, IsWellFormed, Inserted, accepts}
use ossa.Ecg.Insert.{insert_header_lem}
use ossa.Ecg.InsertAll.{insert_all, new-IsWellFormed, insert_all-IsWellFormed}
use ossa.Ecg.Ancestor.{Ancestor}
use ossa.Ecg.Ancestor.Correct.{is_ancestor_of_lem}
use ossa.Ecg.Acyclic.{IsAcyclic, new-IsAcyclic, insert_all-IsAcyclic}
use ossa.Ecg.V0.{OperationId, TestHeader, test_header, happens_before}
use ossa.Ecg.V0.Bodies.{max_operation_count, new_body, operations_count}
use ossa.Ecg.V0.Order.{IsPlaced, Before, happens_before_lem, happens_before_order}

some_inj : {a b : ℕ} → some a ≡ some b → a ≡ b
some_inj e = cc

abbrev dag : Dag ℕ
dag = list_dag

abbrev header : ℕ → List ℕ → TestHeader
header id parents = record { header_id = id; parent_ids = parents }

abbrev diamond_headers : List (TestHeader × List ℕ)
diamond_headers =
    (header 1 [], [])
    ∷ (header 3 (1 ∷ []), [])
    ∷ (header 2 (1 ∷ []), [])
    ∷ (header 4 (2 ∷ 3 ∷ []), 7 ∷ [])
    ∷ []

abbrev start : State TestHeader dag
start = new TestHeader dag

abbrev diamond : State TestHeader dag
diamond = insert_all test_header start diamond_headers

abbrev five : TestHeader
five = header 5 (2 ∷ [])

diamond_tips : diamond.tips ≡ 4 ∷ []
unfolding insert_all insert_header insert_new insert_node find_parents remove_all knows new
    test_header list_dag live parents_in children_in may_add is_nil get insert contains set_insert
    set_remove
diamond_tips = refl

diamond_ancestors :
    (is_ancestor_of diamond 1 4 ≡ some true)
    × (is_ancestor_of diamond 3 2 ≡ some false)
    × (is_ancestor_of diamond 9 2 ≡ none)
unfolding insert_all insert_header insert_new insert_node find_parents remove_all knows new
    test_header list_dag live parents_in children_in may_add is_nil get insert contains set_insert
    set_remove is_ancestor_of search_ancestor visit_parents
diamond_ancestors = (refl, refl, refl)

diamond-IsWellFormed : IsWellFormed test_header diamond
diamond-IsWellFormed =
    insert_all-IsWellFormed test_header start diamond_headers (new-IsWellFormed test_header)

insert_all-IsWellFormed_example :
    IsWellFormed test_header (insert_all test_header start diamond_headers)
insert_all-IsWellFormed_example =
    insert_all-IsWellFormed test_header start diamond_headers (new-IsWellFormed test_header)

insert_header_lem_example :
    ((accepts test_header diamond five ≡ false)
      × (insert_header test_header diamond five (8 ∷ []) ≡ (diamond, false)))
    ⊎ ((accepts test_header diamond five ≡ true)
        × ((st' : State TestHeader dag) × (info : NodeInfo TestHeader) × (info.header ≡ five)
            × (info.operations ≡ 8 ∷ [])
            × (insert_header test_header diamond five (8 ∷ []) ≡ (st', true))
            × Inserted test_header diamond (test_header.get_header_id five) info st'))
insert_header_lem_example = insert_header_lem test_header diamond diamond-IsWellFormed five (8 ∷ [])

is_ancestor_of_lem_example :
    (((knows diamond 1 ≡ false) ⊎ (knows diamond 4 ≡ false)) × (is_ancestor_of diamond 1 4 ≡ none))
    ⊎ ((knows diamond 1 ≡ true)
        × (knows diamond 4 ≡ true)
        × (((is_ancestor_of diamond 1 4 ≡ some true) × Ancestor test_header diamond 1 4)
            ⊎ ((is_ancestor_of diamond 1 4 ≡ some false) × ¬ Ancestor test_header diamond 1 4)))
is_ancestor_of_lem_example = is_ancestor_of_lem test_header diamond diamond-IsWellFormed 1 4

diamond-IsAcyclic : IsAcyclic test_header diamond
diamond-IsAcyclic =
    insert_all-IsAcyclic test_header start diamond_headers (new-IsWellFormed test_header)
      (new-IsAcyclic test_header)

insert_all-IsAcyclic_example : IsAcyclic test_header (insert_all test_header start diamond_headers)
insert_all-IsAcyclic_example =
    insert_all-IsAcyclic test_header start diamond_headers (new-IsWellFormed test_header)
      (new-IsAcyclic test_header)

abbrev at : ℕ → ℕ → OperationId ℕ
at h i = record { header_id = some h; operation_position = i }

knows_one : knows diamond 1 ≡ true
unfolding insert_all insert_header insert_new insert_node find_parents remove_all knows new
    test_header list_dag live parents_in children_in may_add is_nil get insert contains set_insert
    set_remove
knows_one = refl

knows_four : knows diamond 4 ≡ true
unfolding insert_all insert_header insert_new insert_node find_parents remove_all knows new
    test_header list_dag live parents_in children_in may_add is_nil get insert contains set_insert
    set_remove
knows_four = refl

at_one-IsPlaced : IsPlaced test_header diamond (at 1 0)
at_one-IsPlaced h e = subst (λ x. knows diamond x ≡ true) (some_inj e) knows_one

at_four-IsPlaced : IsPlaced test_header diamond (at 4 0)
at_four-IsPlaced h e = subst (λ x. knows diamond x ≡ true) (some_inj e) knows_four

happens_before_lem_example :
    (r : Bool) × (happens_before diamond (at 1 0) (at 4 0) ≡ done r)
    × ((r ≡ true) ↔ Before test_header diamond (at 1 0) (at 4 0))
happens_before_lem_example =
    happens_before_lem test_header diamond diamond-IsWellFormed diamond-IsAcyclic (at 1 0) (at 4 0)
      at_one-IsPlaced at_four-IsPlaced

happens_before_order_example :
    ((a : OperationId ℕ) → IsPlaced test_header diamond a → happens_before diamond a a ≡ done false)
    × ((a b c : OperationId ℕ)
        → IsPlaced test_header diamond a
        → IsPlaced test_header diamond b
        → IsPlaced test_header diamond c
        → happens_before diamond a b ≡ done true
        → happens_before diamond b c ≡ done true
        → happens_before diamond a c ≡ done true)
happens_before_order_example =
    happens_before_order test_header diamond diamond-IsWellFormed diamond-IsAcyclic

get_parents_lem_example :
    ((get_node diamond 4 ≡ none)
      × (get_parents diamond 4 ≡ none)
      × (get_parents_with_depth diamond 4 ≡ none))
    ⊎ ((i : NodeInfo TestHeader) × (l : List ℕ) × (get_node diamond 4 ≡ some i)
        × (get_parents diamond 4 ≡ some l)
        × (get_parents_with_depth diamond 4 ≡ some (map (λ p. (depth diamond p, p)) l))
        × ((p : ℕ) → contains p l ≡ contains p (test_header.get_parent_ids i.header)))
get_parents_lem_example = get_parents_lem test_header diamond diamond-IsWellFormed 4

-- a body takes the greatest number of operations that it may, and they cannot be counted
full_body :
    (new_body {SerializedOp = ℕ} (replicate max_operation_count 0)
      ≡ done (record { operations = replicate 256 0 }))
    × (operations_count {SerializedOp = ℕ} (record { operations = replicate 256 0 }) ≡ panic)
unfolding new_body operations_count
full_body = (refl, refl)
