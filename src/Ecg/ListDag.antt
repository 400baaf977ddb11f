-- ===== src/Ecg/ListDag.antt =====
-- A graph of lists, which meets what is asked of the crate `daggy`: the weights in order, and the edges.
-- It takes edges only into nodes that have no children.
use ossa.Prelude.{
  ℕ, zero, suc, ◌+◌, ◌≡◌, ◌≢◌, refl, ap, ◌∙◌, Bool, true, false, not, ◌&&◌, ◌||◌, Option, none,
  some, List, [], ◌∷◌, ◌++◌, map, length, length-append, get_elem?, ltb, ◌==◌, All, contains,
  if◌then◌else◌, nat_ord, arith,
}
use ossa.Ecg.StableDag.{Dag}
use ossa.Ecg.WellFormed.{is_nil}

pub record Edges (HeaderId : Type 0) : Type 0 where
  pub weights : List HeaderId
  pub edges : List (ℕ × ℕ)

-- the two ends of an edge are nodes
abbrev within : ℕ → ℕ → ℕ → Bool
within n a b = ltb a n && ltb b n

unfoldable pub live : ℕ → List (ℕ × ℕ) → List (ℕ × ℕ)
live n [] = []
live n ((a, b) ∷ es) = if within n a b then (a, b) ∷ live n es else live n es

unfoldable pub parents_in : ℕ → List (ℕ × ℕ) → ℕ → List ℕ
parents_in n [] j = []
parents_in n ((a, b) ∷ es) j =
    if b == j && within n a b then a ∷ parents_in n es j else parents_in n es j

unfoldable pub children_in : ℕ → List (ℕ × ℕ) → ℕ → List ℕ
children_in n [] j = []
children_in n ((a, b) ∷ es) j =
    if a == j && within n a b then b ∷ children_in n es j else children_in n es j

unfoldable pub may_add : ℕ → List (ℕ × ℕ) → List (ℕ × ℕ) → Bool
unfolding is_nil children_in
may_add n es [] = true
may_add n es ((a, b) ∷ new) = not (a == b) && (is_nil (children_in n es b) && may_add n es new)

pub parents_in-live :
    (n : ℕ) (es : List (ℕ × ℕ)) (j : ℕ)
    → parents_in (n + 1) (live n es) j ≡ (if j == n then [] else parents_in n es j)
unfolding parents_in live
parents_in-live n [] j = ground arith
parents_in-live n ((a, b) ∷ es) j = ground (arith, parents_in-live n es j)

pub children_in-live :
    (n : ℕ) (es : List (ℕ × ℕ)) (j : ℕ)
    → children_in (n + 1) (live n es) j ≡ (if j == n then [] else children_in n es j)
unfolding children_in live
children_in-live n [] j = ground arith
children_in-live n ((a, b) ∷ es) j = ground (arith, children_in-live n es j)

pub added_parents :
    (n m : ℕ) (es : List (ℕ × ℕ)) (ps : List ℕ) (j k : ℕ)
    → ltb m n ≡ true
    → All (λ p. ltb p n ≡ true) ps
    → contains k (parents_in n (map (λ p. (p, m)) ps ++ es) j)
      ≡ (contains k (parents_in n es j) || (j == m && contains k ps))
unfolding parents_in contains
added_parents n m es [] j k l a = ground arith
added_parents n m es (p ∷ ps) j k l (b, a) = ground (arith, added_parents n m es ps j k l a)

pub added_children :
    (n m : ℕ) (es : List (ℕ × ℕ)) (ps : List ℕ) (j k : ℕ)
    → ltb m n ≡ true
    → All (λ p. ltb p n ≡ true) ps
    → contains k (children_in n (map (λ p. (p, m)) ps ++ es) j)
      ≡ (contains k (children_in n es j) || (k == m && contains j ps))
unfolding children_in contains
added_children n m es [] j k l a = ground arith
added_children n m es (p ∷ ps) j k l (b, a) = ground (arith, added_children n m es ps j k l a)

pub may_add_into :
    (n m : ℕ) (es : List (ℕ × ℕ)) (ps : List ℕ)
    → children_in n es m ≡ []
    → All (λ p. (p == m) ≡ false) ps
    → may_add n es (map (λ p. (p, m)) ps) ≡ true
unfolding may_add is_nil
may_add_into n m es [] c a = refl
may_add_into n m es (p ∷ ps) c (b, a) = ground (arith, may_add_into n m es ps c a)

module _ {HeaderId : Type 0} where
  pub elem_snoc :
      (ws : List HeaderId) (w : HeaderId) (j : ℕ)
      → get_elem? (ws ++ w ∷ []) j ≡ (if j == length ws then some w else get_elem? ws j)
  elem_snoc [] w zero = refl
  elem_snoc [] w (suc j) = ground arith
  elem_snoc (x ∷ ws) w zero = ground arith
  elem_snoc (x ∷ ws) w (suc j) = ground (arith, elem_snoc ws w j)

  pub elem_past : (ws : List HeaderId) → get_elem? ws (length ws) ≡ none
  elem_past [] = refl
  elem_past (x ∷ ws) = elem_past ws

  pub elem_within : (ws : List HeaderId) (j : ℕ) → get_elem? ws j ≢ none → ltb j (length ws) ≡ true
  elem_within [] j h = absurd (h refl)
  elem_within (x ∷ ws) zero h = ground arith
  elem_within (x ∷ ws) (suc j) h = let r = elem_within ws j h in ground arith

  abbrev add_edges : Edges HeaderId → List (ℕ × ℕ) → Option (Edges HeaderId)
  add_edges g new =
      if may_add (length g.weights) g.edges new
      then some (record g { edges = new ++ g.edges })
      else none

  pub All-within :
      (g : Edges HeaderId) (m : ℕ) (ps : List ℕ)
      → All (λ p. ((p == m) ≡ false) × (get_elem? g.weights p ≢ none)) ps
      → All (λ p. (p == m) ≡ false) ps × All (λ p. ltb p (length g.weights) ≡ true) ps
  All-within g m [] a = (tt, tt)
  All-within g m (p ∷ ps) ((a, b), as') =
      let (c, d) = All-within g m ps as' in ((a, c), (elem_within g.weights p b, d))

  unfoldable pub list_dag : Dag HeaderId
  list_dag = record {
    Graph = Edges HeaderId;
    empty = record { weights = []; edges = [] };
    node_weight = λ g j. get_elem? g.weights j;
    parents = λ g j. parents_in (length g.weights) g.edges j;
    children = λ g j. children_in (length g.weights) g.edges j;
    add_node = λ g w. (
      record { weights = g.weights ++ w ∷ []; edges = live (length g.weights) g.edges },
      length g.weights,
    );
    add_edges = add_edges;
    node_weight-empty = λ j. refl;
    add_node_fresh = λ g w. elem_past g.weights;
    node_weight-add_node = λ g w j. elem_snoc g.weights w j;
    parents-add_node = λ g w j.
        ap (λ n. parents_in n (live (length g.weights) g.edges) j)
          (length-append g.weights (w ∷ []))
        ∙ parents_in-live (length g.weights) g.edges j;
    children-add_node = λ g w j.
        ap (λ n. children_in n (live (length g.weights) g.edges) j)
          (length-append g.weights (w ∷ []))
        ∙ children_in-live (length g.weights) g.edges j;
    add_edges_into = λ g ps n c w a.
        let (other, inside) = All-within g n ps a in
        let l = elem_within g.weights n w in
        (
          record g { edges = map (λ p. (p, n)) ps ++ g.edges },
          (let m = may_add_into (length g.weights) n g.edges ps c other in rw m refl),
          λ j. refl,
          λ j k. added_parents (length g.weights) n g.edges ps j k l inside,
          λ j k. added_children (length g.weights) n g.edges ps j k l inside,
        );
  }
