-- ===== src/Ecg/StableDag.antt =====
-- The crate `daggy` as ossa-core/src/store/ecg.rs uses it: what its documentation says of each call of
-- `StableDag`. The crate is not part of the repository, so the graph of headers takes it as a parameter.
-- A node index is a number. Lists of neighbours come in an order that is not stated.
use ossa.Prelude.{
  ℕ, ◌≡◌, ◌≢◌, false, ◌&&◌, ◌||◌, Option, none, some, List, [], map, ◌==◌, if◌then◌else◌, All,
  contains, nat_ord,
}

pub record Dag (HeaderId : Type 0) : Type 1 where
  pub Graph : Type 0
  pub empty : Graph
  pub node_weight : Graph → ℕ → Option HeaderId
  pub parents : Graph → ℕ → List ℕ
  pub children : Graph → ℕ → List ℕ
  -- the graph with a node of that weight, and the index of the node
  pub add_node : Graph → HeaderId → Graph × ℕ
  -- `none` where an edge would close a cycle; the graph is as before then
  pub add_edges : Graph → List (ℕ × ℕ) → Option Graph
  pub node_weight-empty : (j : ℕ) → node_weight empty j ≡ none
  pub add_node_fresh : (g : Graph) (w : HeaderId) → node_weight g (add_node g w).1 ≡ none
  pub node_weight-add_node :
      (g : Graph) (w : HeaderId) (j : ℕ)
      → node_weight (add_node g w).0 j ≡ (if j == (add_node g w).1 then some w else node_weight g j)
  pub parents-add_node :
      (g : Graph) (w : HeaderId) (j : ℕ)
      → parents (add_node g w).0 j ≡ (if j == (add_node g w).1 then [] else parents g j)
  pub children-add_node :
      (g : Graph) (w : HeaderId) (j : ℕ)
      → children (add_node g w).0 j ≡ (if j == (add_node g w).1 then [] else children g j)
  -- Edges into a node with no children, from other nodes of the graph, close no cycle.
  pub add_edges_into :
      (g : Graph) (ps : List ℕ) (n : ℕ)
      → children g n ≡ []
      → node_weight g n ≢ none
      → All (λ p. ((p == n) ≡ false) × (node_weight g p ≢ none)) ps
      → (g' : Graph) × (add_edges g (map (λ p. (p, n)) ps) ≡ some g')
        × ((j : ℕ) → node_weight g' j ≡ node_weight g j)
        × ((j k : ℕ)
            → contains k (parents g' j) ≡ (contains k (parents g j) || (j == n && contains k ps)))
        × ((j k : ℕ)
            → contains k (children g' j) ≡ (contains k (children g j) || (k == n && contains j ps)))
