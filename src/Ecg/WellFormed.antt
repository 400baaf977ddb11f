-- ===== src/Ecg/WellFormed.antt =====
-- What a state of the graph promises between calls, and what a call of `insert_header` that succeeds
-- has done.
use ossa.Prelude.{
  ℕ, ◌≡◌, ◌↔◌, ◌+◌, ◌-◌, ◌%◌, ◌^◌, min, Bool, true, false, not, ◌&&◌, Option, none, some, List, [],
  ◌∷◌, map, All, Ord, beq, contains, ◌==◌, if◌then◌else◌, nat_ord,
}
use ossa.Ecg.StableDag.{Dag}
use ossa.Ecg.{EcgHeader, NodeInfo, State, get_node, knows}

unfoldable pub is_nil {ℓ} : {A : Type ℓ} → List A → Bool
is_nil [] = true
is_nil (x ∷ xs) = false

unfoldable pub is_root :
    {HeaderId Header : Type 0} → EcgHeader HeaderId Header → Option (NodeInfo Header) → Bool
unfolding is_nil
is_root ecg none = false
is_root ecg (some i) = is_nil (ecg.get_parent_ids i.header)

module _ {HeaderId Header : Type 0} ⦃o : Ord HeaderId⦄ {dag : Dag HeaderId} where
  -- the graph index and the depth of a header, 0 for one that is not known
  unfoldable pub index : State Header dag → HeaderId → ℕ
  index st p = elim (get_node st p) [ none ↦ 0 | some i ↦ i.graph_index ]

  unfoldable pub depth : State Header dag → HeaderId → ℕ
  depth st p = elim (get_node st p) [ none ↦ 0 | some i ↦ i.depth ]

  abbrev pub Known : State Header dag → List HeaderId → Type 0
  Known st ps = All (λ p. knows st p ≡ true) ps

  unfoldable pub all_known : State Header dag → List HeaderId → Bool
  all_known st [] = true
  all_known st (p ∷ ps) = knows st p && all_known st ps

  unfoldable pub least : State Header dag → ℕ → List HeaderId → ℕ
  unfolding depth
  least st d [] = d
  least st d (p ∷ ps) = least st (min d (depth st p)) ps

  -- one more than the least depth of the parents
  unfoldable pub depth_below : State Header dag → List HeaderId → ℕ
  unfolding least
  depth_below st [] = 1
  depth_below st (p ∷ ps) = (least st (2 ^ 64 - 1) (p ∷ ps) + 1) % 2 ^ 64

  module _ (ecg : EcgHeader HeaderId Header) where
    -- a header that is known and is no known header's parent
    pub record IsTip (st : State Header dag) (p : HeaderId) : Type 0 where
      pub known : knows st p ≡ true
      pub last :
          (q : HeaderId) (i : NodeInfo Header)
          → get_node st q ≡ some i
          → contains p (ecg.get_parent_ids i.header) ≡ false

    pub record IsWellFormed (st : State Header dag) : Type 0 where
      -- the nodes of the graph and the entries of the map are the same headers
      pub weight :
          (p : HeaderId) (i : NodeInfo Header)
          → get_node st p ≡ some i
          → dag.node_weight st.dependency_graph i.graph_index ≡ some p
      pub entry :
          (k : ℕ) (p : HeaderId)
          → dag.node_weight st.dependency_graph k ≡ some p
          → (i : NodeInfo Header) × (get_node st p ≡ some i) × (i.graph_index ≡ k)
      pub named :
          (p : HeaderId) (i : NodeInfo Header)
          → get_node st p ≡ some i
          → ecg.get_header_id i.header ≡ p
      -- the parents of a header are known, and the edges into its node come from them
      pub parents_known :
          (p : HeaderId) (i : NodeInfo Header)
          → get_node st p ≡ some i
          → Known st (ecg.get_parent_ids i.header)
      pub edges :
          (p : HeaderId) (i : NodeInfo Header)
          → get_node st p ≡ some i
          → (k : ℕ)
          → contains k (dag.parents st.dependency_graph i.graph_index)
            ≡ contains k (map (index st) (ecg.get_parent_ids i.header))
      pub depths :
          (p : HeaderId) (i : NodeInfo Header)
          → get_node st p ≡ some i
          → i.depth ≡ depth_below st (ecg.get_parent_ids i.header)
      pub roots : (p : HeaderId) → contains p st.root_nodes ≡ is_root ecg (get_node st p)
      pub tip : (p : HeaderId) → (contains p st.tips ≡ true) ↔ IsTip st p

    -- a header that may be inserted
    unfoldable pub accepts : State Header dag → Header → Bool
    unfolding all_known
    accepts st header =
        ecg.validate_header header (ecg.get_header_id header)
        && (not (knows st (ecg.get_header_id header)) && all_known st (ecg.get_parent_ids header))

    -- The state with one more header, a tip: its node, its entry and its edges are there, its
    -- parents are tips no more, and everything else is as it was.
    pub record Inserted (st : State Header dag) (p : HeaderId) (info : NodeInfo Header)
        (st' : State Header dag) : Type 0 where
      pub name : ecg.get_header_id info.header ≡ p
      pub unknown : get_node st p ≡ none
      pub parents_known : Known st (ecg.get_parent_ids info.header)
      pub depth_info : info.depth ≡ depth_below st (ecg.get_parent_ids info.header)
      pub fresh : dag.node_weight st.dependency_graph info.graph_index ≡ none
      pub nodes : (q : HeaderId) → get_node st' q ≡ (if beq q p then some info else get_node st q)
      pub weights :
          (k : ℕ)
          → dag.node_weight st'.dependency_graph k
            ≡ (if k == info.graph_index then some p else dag.node_weight st.dependency_graph k)
      pub edges :
          (j k : ℕ)
          → contains k (dag.parents st'.dependency_graph j) ≡ (
              if j == info.graph_index
              then contains k (map (index st) (ecg.get_parent_ids info.header))
              else contains k (dag.parents st.dependency_graph j))
      pub roots :
          (q : HeaderId)
          → contains q st'.root_nodes ≡ (
              if beq q p then is_nil (ecg.get_parent_ids info.header) else contains q st.root_nodes)
      pub tips :
          (q : HeaderId)
          → contains q st'.tips ≡ (
              if beq q p
              then true
              else if contains q (ecg.get_parent_ids info.header)
              then false
              else contains q st.tips)
