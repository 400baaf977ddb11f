-- ===== src/Ecg/InsertNode.antt =====
-- The last part of `insert_header`, which adds the node, its entry and its edges, and what its loops
-- over the parents give.
use ossa.Prelude.{
  ℕ, ◌≡◌, ◌≢◌, refl, ◌∙◌, ap, inl, inr, min, true, false, ◌&&◌, ◌||◌, Bool-cases, none, some,
  Option-cases, List, [], ◌∷◌, map, All, Ord, beq, contains, set_remove, insert, get-insert,
  contains-set_remove, contains-nil, ◌==◌, if◌then◌else◌, nat_ord, arith,
}
use ossa.Ecg.StableDag.{Dag}
use ossa.Ecg.{
  EcgHeader, NodeInfo, State, get_node, knows, find_parents, remove_all, insert_node, new,
}
use ossa.Ecg.WellFormed.{
  is_nil, index, depth, Known, all_known, least, depth_below, IsWellFormed, Inserted,
}
use ossa.Ecg.Preserve.{node_of_knows}

pub contains-remove_all :
    {HeaderId : Type 0} ⦃o : Ord HeaderId⦄ (ps tips : List HeaderId) (q : HeaderId)
    → contains q (remove_all ps tips) ≡ (if contains q ps then false else contains q tips)
unfolding remove_all contains
contains-remove_all [] tips q = refl
contains-remove_all (p ∷ ps) tips q =
    contains-remove_all ps (set_remove p tips) q ∙ ground (arith, contains-set_remove p q tips)

contains_or : (k : ℕ) (xs : List ℕ) → (contains k [] || contains k xs) ≡ contains k xs
contains_or k xs = ground (arith, contains-nil k)

edge_or :
    (j n k : ℕ) (new old : List ℕ)
    → (contains k (if j == n then [] else old) || (j == n && contains k new))
      ≡ (if j == n then contains k new else contains k old)
edge_or j n k new old = elim (Bool-cases (j == n)) [
  | inl h ↦ rw h (contains_or k new)
  | inr h ↦ ground arith
]

module _ {HeaderId Header : Type 0} ⦃o : Ord HeaderId⦄ {dag : Dag HeaderId} where
  pub Known-of_all :
      (st : State Header dag) (ps : List HeaderId) → all_known st ps ≡ true → Known st ps
  unfolding all_known
  Known-of_all st [] h = tt
  Known-of_all st (p ∷ ps) h = (ground arith, Known-of_all st ps (ground arith))

  pub find_parents_lem :
      (st : State Header dag) (d : ℕ) (ps : List HeaderId)
      → find_parents st d ps
        ≡ (if all_known st ps then some (map (index st) ps, least st d ps) else none)
  unfolding find_parents all_known knows index least depth
  find_parents_lem st d [] = refl
  find_parents_lem st d (p ∷ ps) = elim (Option-cases (get_node st p)) [
    | inl e ↦ ground arith
    | inr (i, e) ↦ elim (Bool-cases (all_known st ps)) [
      | inl k ↦ ground (arith, find_parents_lem st (min d i.depth) ps)
      | inr k ↦ ground (arith, find_parents_lem st (min d i.depth) ps)
    ]
  ]

  -- the nodes of known headers are not the new one, and are in the graph with it
  pub parent_nodes :
      (ecg : EcgHeader HeaderId Header) (st : State Header dag) (h : HeaderId) (ps : List HeaderId)
      → IsWellFormed ecg st
      → Known st ps
      → All
          (λ k.
            ((k == (dag.add_node st.dependency_graph h).1) ≡ false)
            × (dag.node_weight (dag.add_node st.dependency_graph h).0 k ≢ none))
          (map (index st) ps)
  unfolding index
  parent_nodes ecg st h [] wf ks = tt
  parent_nodes ecg st h (p ∷ ps) wf (k, ks) =
      let (i, e) = node_of_knows st p k in
      let fresh = dag.add_node_fresh st.dependency_graph h in
      let other : (index st p == (dag.add_node st.dependency_graph h).1) ≡ false =
        ground (arith, wf.weight p i e) in
      (
        (
          other,
          λ n.
              ground (
                arith,
                wf.weight p i e,
                dag.node_weight-add_node st.dependency_graph h (index st p),
              ),
        ),
        parent_nodes ecg st h ps wf ks,
      )

  pub insert_node_done :
      (st : State Header dag) (h : HeaderId) (header : Header) (operations ks : List ℕ) (d : ℕ)
      (g' : dag.Graph)
      → get_node st h ≡ none
      → dag.add_edges
          (dag.add_node st.dependency_graph h).0
          (map (λ p. (p, (dag.add_node st.dependency_graph h).1)) ks)
        ≡ some g'
      → insert_node st h header operations ks d ≡ (
        record {
          dependency_graph = g';
          root_nodes = st.root_nodes;
          node_info_map =
              insert h
                (record {
                  graph_index = (dag.add_node st.dependency_graph h).1;
                  depth = d;
                  header = header;
                  operations = operations;
                })
                st.node_info_map;
          tips = st.tips;
        },
        true,
      )
  unfolding insert_node
  insert_node_done st h header operations ks d g' u e = rw (u, insert_node) (rw e refl)

  module _ (ecg : EcgHeader HeaderId Header) (st : State Header dag) (wf : IsWellFormed ecg st)
      (header : Header) (operations : List ℕ) where
    -- the last part, with the roots and the tips as they were changed before
    pub insert_node_lem :
        (roots tips : List HeaderId) (d : ℕ)
        → get_node st (ecg.get_header_id header) ≡ none
        → Known st (ecg.get_parent_ids header)
        → d ≡ depth_below st (ecg.get_parent_ids header)
        → ((q : HeaderId)
            → contains q roots ≡ (
                if beq q (ecg.get_header_id header)
                then is_nil (ecg.get_parent_ids header)
                else contains q st.root_nodes))
        → ((q : HeaderId)
            → contains q tips ≡ (
                if beq q (ecg.get_header_id header)
                then true
                else if contains q (ecg.get_parent_ids header)
                then false
                else contains q st.tips))
        → (st' : State Header dag) × (info : NodeInfo Header) × (info.header ≡ header)
          × (info.operations ≡ operations)
          × (insert_node
                (record st { root_nodes = roots; tips = tips })
                (ecg.get_header_id header)
                header
                operations
                (map (index st) (ecg.get_parent_ids header))
                d
              ≡ (st', true))
          × Inserted ecg st (ecg.get_header_id header) info st'
    unfolding insert_node
    insert_node_lem roots tips d u ks de hr ht =
        let g = dag.add_node st.dependency_graph (ecg.get_header_id header) in
        let fresh = dag.add_node_fresh st.dependency_graph (ecg.get_header_id header) in
        let kids : dag.children g.0 g.1 ≡ [] =
          ground
            (arith, dag.children-add_node st.dependency_graph (ecg.get_header_id header) g.1) in
        let placed : dag.node_weight g.0 g.1 ≢ none = λ n.
          ground
            (arith, dag.node_weight-add_node st.dependency_graph (ecg.get_header_id header) g.1) in
        let (g', e, weights, parents, children) =
          dag.add_edges_into g.0 (map (index st) (ecg.get_parent_ids header)) g.1 kids placed
            (parent_nodes ecg st (ecg.get_header_id header) (ecg.get_parent_ids header) wf ks) in
        let edge_cases : (j k : ℕ)
            → (contains k (dag.parents g.0 j)
                || (j == g.1 && contains k (map (index st) (ecg.get_parent_ids header))))
              ≡ (if j == g.1
                  then contains k (map (index st) (ecg.get_parent_ids header))
                  else contains k (dag.parents st.dependency_graph j)) =
          λ j k.
            ap
              (λ xs.
                contains k xs
                || (j == g.1 && contains k (map (index st) (ecg.get_parent_ids header))))
              (dag.parents-add_node st.dependency_graph (ecg.get_header_id header) j)
            ∙ edge_or j g.1 k (map (index st) (ecg.get_parent_ids header))
                (dag.parents st.dependency_graph j) in
        let info : NodeInfo Header = record {
          graph_index = g.1;
          depth = d;
          header = header;
          operations = operations;
        } in
        let st' : State Header dag = record {
          dependency_graph = g';
          root_nodes = roots;
          node_info_map = insert (ecg.get_header_id header) info st.node_info_map;
          tips = tips;
        } in
        (
          st',
          info,
          refl,
          refl,
          insert_node_done (record st { root_nodes = roots; tips = tips })
              (ecg.get_header_id header) header operations
              (map (index st) (ecg.get_parent_ids header)) d g' u e,
          record {
            name = refl;
            unknown = u;
            parents_known = ks;
            depth_info = de;
            fresh = fresh;
            nodes = λ q. get-insert (ecg.get_header_id header) q info st.node_info_map;
            weights = λ k.
                weights k
                ∙ dag.node_weight-add_node st.dependency_graph (ecg.get_header_id header) k;
            edges = λ j k. parents j k ∙ edge_cases j k;
            roots = hr;
            tips = ht;
          },
        )
