-- ===== src/Ecg.antt =====
-- ossa-core/src/store/ecg.rs: the eventual consistency graph of headers. Sets and maps are the ordered
-- ones of the standard library; depths are `u64` and wrap around, as in a release build.
pub mod StableDag
pub mod WellFormed
pub mod Preserve
pub mod ListDag
pub mod InsertNode
pub mod Insert
pub mod InsertAll
pub mod Ancestor
pub mod Acyclic
pub mod Parents
pub mod V0
mod Tests
use ossa.Prelude.{
  ℕ, zero, suc, ◌+◌, ◌-◌, ◌^◌, ◌%◌, min, Bool, true, false, not, Option, none, some, List, [], ◌∷◌,
  ◌++◌, map, length, ◌==◌, if◌then◌else◌, Ord, contains, set_insert, set_remove, get, insert,
  nat_ord,
}
use ossa.Ecg.StableDag.{Dag}

-- trait `ECGHeader`
pub record EcgHeader (HeaderId Header : Type 0) : Type 0 where
  pub get_parent_ids : Header → List HeaderId
  pub get_header_id : Header → HeaderId
  pub validate_header : Header → HeaderId → Bool

pub record NodeInfo (Header : Type 0) : Type 0 where
  pub graph_index : ℕ
  pub depth : ℕ
  pub header : Header
  pub operations : List ℕ  -- serialized

-- `try_collect` of an iterator of options
unfoldable pub try_collect {ℓ} : {A : Type ℓ} → List (Option A) → Option (List A)
try_collect [] = some []
try_collect (none ∷ os) = none
try_collect (some a ∷ os) = elim (try_collect os) [ none ↦ none | some as' ↦ some (a ∷ as') ]

abbrev pub bind {ℓ κ} : {A : Type ℓ} {B : Type κ} → Option A → (A → Option B) → Option B
bind none f = none
bind (some a) f = f a

unfoldable pub remove_all :
    {HeaderId : Type 0} ⦃o : Ord HeaderId⦄ → List HeaderId → List HeaderId → List HeaderId
remove_all [] tips = tips
remove_all (p ∷ ps) tips = remove_all ps (set_remove p tips)

-- `UntypedState` (and `State`, which wraps it)
pub record State {HeaderId : Type 0} (Header : Type 0) (dag : Dag HeaderId) : Type 0 where
  pub dependency_graph : dag.Graph
  pub root_nodes : List HeaderId
  pub node_info_map : List (HeaderId × NodeInfo Header)
  pub tips : List HeaderId

unfoldable pub new : {HeaderId : Type 0} (Header : Type 0) (dag : Dag HeaderId) → State Header dag
new Header dag = record {
  dependency_graph = dag.empty;
  root_nodes = [];
  node_info_map = [];
  tips = [];
}

-- One round of the loop of `is_ancestor_of`: the parents not seen before are marked and queued.
unfoldable pub visit_parents : List ℕ → List ℕ → List ℕ → List ℕ × List ℕ
visit_parents queue visited [] = (queue, visited)
visit_parents queue visited (p ∷ ps) =
    if contains p visited
    then visit_parents queue visited ps
    else visit_parents (queue ++ p ∷ []) (set_insert p visited) ps

module _ {HeaderId Header : Type 0} ⦃o : Ord HeaderId⦄ {dag : Dag HeaderId} where
  -- the entry of a header
  abbrev pub get_node : State Header dag → HeaderId → Option (NodeInfo Header)
  get_node st h = get h st.node_info_map

  unfoldable pub knows : State Header dag → HeaderId → Bool
  knows st h = elim (get_node st h) [ some _ ↦ true | none ↦ false ]

  unfoldable pub get_parents : State Header dag → HeaderId → Option (List HeaderId)
  get_parents st h = bind (get_node st h) λ info.
      try_collect (
        map (dag.node_weight st.dependency_graph)
          (dag.parents st.dependency_graph info.graph_index))

  -- the depth and the id of the header at an index
  unfoldable pub depth_at : State Header dag → ℕ → Option (ℕ × HeaderId)
  depth_at st idx =
      bind (dag.node_weight st.dependency_graph idx)
        λ id. bind (get_node st id) λ i. some (i.depth, id)

  unfoldable pub get_parents_with_depth : State Header dag → HeaderId → Option (List (ℕ × HeaderId))
  unfolding depth_at
  get_parents_with_depth st h =
      bind (get_node st h)
        λ info. try_collect (map (depth_at st) (dag.parents st.dependency_graph info.graph_index))

  unfoldable pub get_children_with_depth :
      State Header dag → HeaderId → Option (List (ℕ × HeaderId))
  unfolding depth_at
  get_children_with_depth st h =
      bind (get_node st h)
        λ info. try_collect (map (depth_at st) (dag.children st.dependency_graph info.graph_index))

  unfoldable pub get_header_depth : State Header dag → HeaderId → Option ℕ
  get_header_depth st h = bind (get_node st h) λ i. some i.depth

  unfoldable pub get_header : State Header dag → HeaderId → Option Header
  get_header st h = bind (get_node st h) λ i. some i.header

  unfoldable pub is_root_node : State Header dag → HeaderId → Bool
  is_root_node st h = contains h st.root_nodes

  unfoldable pub get_root_nodes_with_depth : State Header dag → List (ℕ × HeaderId)
  get_root_nodes_with_depth st = map (λ h. (1, h)) st.root_nodes

  -- The indices of some parents and the least of their depths, below a first bound; `none` where one
  -- is not known.
  unfoldable pub find_parents : State Header dag → ℕ → List HeaderId → Option (List ℕ × ℕ)
  find_parents st depth [] = some ([], depth)
  find_parents st depth (p ∷ ps) =
      bind (get_node st p) λ i.
        bind (find_parents st (min depth i.depth) ps) λ (idxs, d). some (i.graph_index ∷ idxs, d)

  -- The end of `insert_header`: the node, its entry, its edges.
  unfoldable pub insert_node :
      State Header dag → HeaderId → Header → List ℕ → List ℕ → ℕ → State Header dag × Bool
  insert_node st header_id header operations parent_idxs depth =
      let (graph, graph_index) = dag.add_node st.dependency_graph header_id in
      let info : NodeInfo Header = record {
        graph_index = graph_index;
        depth = depth;
        header = header;
        operations = operations;
      } in
      let inserted = insert header_id info st.node_info_map in
      elim (get_node st header_id) [
        | some _ ↦ (record st { dependency_graph = graph }, false)
        | none ↦ elim (dag.add_edges graph (map (λ p. (p, graph_index)) parent_idxs)) [
          | none ↦ (record st { dependency_graph = graph; node_info_map = inserted }, false)
          | some graph' ↦ (record st { dependency_graph = graph'; node_info_map = inserted }, true)
        ]
      ]

  -- A header that is valid and new.
  unfoldable pub insert_new :
      State Header dag → HeaderId → Header → List HeaderId → List ℕ → State Header dag × Bool
  unfolding insert_node find_parents remove_all
  insert_new st header_id header [] operations =
      if contains header_id st.root_nodes
      then (st, false)
      else insert_node
          (record st {
            root_nodes = set_insert header_id st.root_nodes;
            tips = set_insert header_id st.tips;
          })
          header_id header operations [] 1
  insert_new st header_id header (p ∷ ps) operations =
      elim (find_parents st (2 ^ 64 - 1) (p ∷ ps)) [
        | none ↦ (st, false)
        | some (parent_idxs, depth) ↦
            insert_node (record st { tips = set_insert header_id (remove_all (p ∷ ps) st.tips) })
              header_id header operations parent_idxs ((depth + 1) % 2 ^ 64)
      ]

  unfoldable pub insert_header :
      EcgHeader HeaderId Header → State Header dag → Header → List ℕ → State Header dag × Bool
  unfolding insert_new knows
  insert_header ecg st header operations =
      let header_id = ecg.get_header_id header in
      if not (ecg.validate_header header header_id)
      then (st, false)
      else if knows st header_id
      then (st, false)
      else insert_new st header_id header (ecg.get_parent_ids header) operations

  unfoldable pub search_ancestor : ℕ → State Header dag → ℕ → List ℕ → List ℕ → Option Bool
  unfolding visit_parents
  search_ancestor zero st anid queue visited = none
  search_ancestor (suc fuel) st anid [] visited = some false
  search_ancestor (suc fuel) st anid (nid ∷ queue) visited =
      let (queue', visited') = visit_parents queue visited (dag.parents st.dependency_graph nid) in
      let rest = search_ancestor fuel st anid queue' visited' in
      if nid == anid then some true else rest

  -- `is_ancestor_of`. The loop gets a round for each header, and one more; it never needs more.
  unfoldable pub is_ancestor_of : State Header dag → HeaderId → HeaderId → Option Bool
  unfolding search_ancestor
  is_ancestor_of st ancestor descendent = bind (get_node st ancestor) λ a.
      bind (get_node st descendent) λ d.
        search_ancestor (length st.node_info_map + 1) st a.graph_index (d.graph_index ∷ [])
          (d.graph_index ∷ [])
