-- ===== src/Ecg/Ancestor/Search.antt =====
-- The loop of `is_ancestor_of`, round by round.
use mathlib.Core.Path.{subst}
use ossa.Prelude.{
  ℕ, zero, suc, ◌+◌, ◌≤◌, ◌≡◌, refl, sym, ◌∙◌, ap, inl, inr, ◌⊎◌, true, false, Bool-cases, some,
  List, [], ◌∷◌, All, length, beq, beq_iff, contains, contains-nil, get, set_insert, ◌==◌, Ord,
  nat_ord, arith,
}
use ossa.Ecg.StableDag.{Dag}
use ossa.Ecg.{EcgHeader, NodeInfo, State, visit_parents, search_ancestor}
use ossa.Ecg.WellFormed.{IsWellFormed}
use ossa.Ecg.Ancestor.{Above, here, up, Above-snoc, IsNode, Above-IsNode}
use ossa.Ecg.Ancestor.Visit.{
  unseen, unseen_less, visit_parents-visited, visit_parents-queue, visit_parents-work,
}

-- the indices of some entries
unfoldable pub indices : {HeaderId Header : Type 0} → List (HeaderId × NodeInfo Header) → List ℕ
indices [] = []
indices ((p, i) ∷ m) = i.graph_index ∷ indices m

pub length-indices :
    {HeaderId Header : Type 0} (m : List (HeaderId × NodeInfo Header))
    → length (indices m) ≡ length m
unfolding indices
length-indices [] = refl
length-indices (e ∷ m) = ap suc (length-indices m)

pub contains-indices :
    {HeaderId Header : Type 0} ⦃o : Ord HeaderId⦄ (m : List (HeaderId × NodeInfo Header))
    (p : HeaderId) (i : NodeInfo Header)
    → get p m ≡ some i
    → contains i.graph_index (indices m) ≡ true
unfolding indices get contains
contains-indices [] p i e = absurd (cc)
contains-indices ((q, j) ∷ m) p i e = elim (Bool-cases (beq p q)) [
  | inl h ↦ let f : j ≡ i = ground arith in ground (arith, ap (λ x. x.graph_index) f)
  | inr h ↦
      let f : contains i.graph_index (indices m) ≡ true = contains-indices m p i (ground arith) in
      ground arith
]

unseen-nil : (us : List ℕ) → unseen us [] ≡ length us
unfolding unseen contains
unseen-nil [] = refl
unseen-nil (u ∷ us) = ap suc (unseen-nil us)

-- one node visited leaves one less
pub unseen_one : (us : List ℕ) (p : ℕ) → contains p us ≡ true → suc (unseen us (p ∷ [])) ≤ length us
unfolding set_insert
unseen_one us p c = omega (arith, unseen_less us [] p c (contains-nil p), unseen-nil us)

All-of_contains :
    (us ps : List ℕ)
    → ((k : ℕ) → contains k ps ≡ true → contains k us ≡ true)
    → All (λ p. contains p us ≡ true) ps
unfolding contains
All-of_contains us [] h = tt
All-of_contains us (p ∷ ps) h =
    (h p (ground arith), All-of_contains us ps (λ k c. h k (ground arith)))

module _ {HeaderId Header : Type 0} ⦃o : Ord HeaderId⦄ {dag : Dag HeaderId}
    (ecg : EcgHeader HeaderId Header) (st : State Header dag) (wf : IsWellFormed ecg st)
    (anid dnid : ℕ) where
  -- What holds at each round: visited are nodes above the first, and whatever is visited and not queued
  -- is not the one looked for and has its parents visited.
  pub record Round (queue visited : List ℕ) : Type 0 where
    pub queued : (k : ℕ) → contains k queue ≡ true → contains k visited ≡ true
    pub node : (k : ℕ) → contains k visited ≡ true → IsNode ecg st k
    pub above : (k : ℕ) → contains k visited ≡ true → Above dag st.dependency_graph k dnid
    pub start : contains dnid visited ≡ true
    pub closed :
        (j k : ℕ)
        → contains j visited ≡ true
        → contains j queue ≡ false
        → contains k (dag.parents st.dependency_graph j) ≡ true
        → contains k visited ≡ true
    pub other : (j : ℕ) → contains j visited ≡ true → contains j queue ≡ false → (j == anid) ≡ false

  nodes-Above :
      {j : ℕ} (visited : List ℕ)
      → Round [] visited
      → contains j visited ≡ true
      → Above dag st.dependency_graph anid j
      → contains anid visited ≡ true
  unfolding contains
  nodes-Above visited r c here = c
  nodes-Above {j} visited r c (up {k} e p) = nodes-Above visited r (r.closed j k c refl e) p

  absent : (visited : List ℕ) → Round [] visited → ¬ (contains anid visited ≡ true)
  unfolding contains
  absent visited r c = let h = r.other anid c refl in absurd (ground arith)

  taken :
      (nid : ℕ) (queue visited : List ℕ) → Round (nid ∷ queue) visited → contains nid visited ≡ true
  unfolding contains
  taken nid queue visited r = r.queued nid (ground arith)

  contains_node : (k : ℕ) → IsNode ecg st k → contains k (indices st.node_info_map) ≡ true
  contains_node k (q, i, e, f) =
      ap (λ x. contains x (indices st.node_info_map)) (sym f)
      ∙ contains-indices st.node_info_map q i e

  module _ (nid : ℕ) (queue visited : List ℕ) (r : Round (nid ∷ queue) visited)
      (differs : (nid == anid) ≡ false) where
    ps : List ℕ
    ps = dag.parents st.dependency_graph nid

    queue' : List ℕ
    queue' = (visit_parents queue visited ps).0

    visited' : List ℕ
    visited' = (visit_parents queue visited ps).1

    nid_visited : contains nid visited ≡ true
    nid_visited = taken nid queue visited r

    parent-IsNode : (k : ℕ) → contains k ps ≡ true → IsNode ecg st k
    unfolding ps
    parent-IsNode k c = Above-IsNode ecg st wf k nid (r.node nid nid_visited) c

    work_left :
        length queue' + unseen (indices st.node_info_map) visited'
        ≤ length queue + unseen (indices st.node_info_map) visited
    unfolding queue' visited'
    work_left =
        visit_parents-work (indices st.node_info_map) ps queue visited (
          All-of_contains (indices st.node_info_map) ps
            (λ k c. contains_node k (parent-IsNode k c)))

    -- visited after the round: before it, or a parent, which is queued if it is new
    visited_cases :
        (k : ℕ)
        → contains k visited' ≡ true
        → (contains k visited ≡ true) ⊎ ((contains k ps ≡ true) × (contains k queue' ≡ true))
    unfolding visited' queue'
    visited_cases k c = elim (Bool-cases (contains k visited)) [
      | inl h ↦ inl h
      | inr h ↦
          let p : contains k ps ≡ true = ground (arith, visit_parents-visited ps queue visited k) in
          inr (p, ground (arith, visit_parents-queue ps queue visited k))
    ]

    stays_visited : (k : ℕ) → contains k visited ≡ true → contains k visited' ≡ true
    unfolding visited'
    stays_visited k c = ground (arith, visit_parents-visited ps queue visited k)

    parent_visited : (k : ℕ) → contains k ps ≡ true → contains k visited' ≡ true
    unfolding visited'
    parent_visited k c = ground (arith, visit_parents-visited ps queue visited k)

    queued_visited : (k : ℕ) → contains k queue' ≡ true → contains k visited' ≡ true
    unfolding visited' queue' contains
    queued_visited k c = ground (
      arith,
      visit_parents-visited ps queue visited k,
      visit_parents-queue ps queue visited k,
      r.queued k,
    )

    -- visited and not queued after the round: the node taken, or as before the round
    settled :
        (j : ℕ)
        → contains j visited' ≡ true
        → contains j queue' ≡ false
        → (j ≡ nid) ⊎ ((contains j visited ≡ true) × (contains j (nid ∷ queue) ≡ false))
    unfolding queue' contains
    settled j c n = elim (visited_cases j c) [
      | inr (p, q) ↦ absurd (ground arith)
      | inl h ↦ elim (Bool-cases (beq j nid)) [
        | inl e ↦ inl ((beq_iff j nid).0 e)
        | inr e ↦ inr (h, ground (arith, visit_parents-queue ps queue visited j))
      ]
    ]

    Round-next : Round queue' visited'
    unfolding ps
    Round-next = record {
      queued = λ k c. queued_visited k c;
      node =
          λ k c. elim (visited_cases k c) [ inl h ↦ r.node k h | inr (h, q) ↦ parent-IsNode k h ];
      above = λ k c. elim (visited_cases k c) [
        | inl h ↦ r.above k h
        | inr (h, q) ↦ Above-snoc h (r.above nid nid_visited)
      ];
      start = stays_visited dnid r.start;
      closed = λ j k c n e. elim (settled j c n) [
        | inl h ↦
            parent_visited k (ap (λ x. contains k (dag.parents st.dependency_graph x)) (sym h) ∙ e)
        | inr (h, q) ↦ stays_visited k (r.closed j k h q e)
      ];
      other = λ j c n. elim (settled j c n) [
        | inl h ↦ ap (λ x. x == anid) h ∙ differs
        | inr (h, q) ↦ r.other j h q
      ];
    }

  -- enough fuel for the nodes not seen gives the answer
  pub search_ancestor_lem :
      (fuel : ℕ) (queue visited : List ℕ)
      → Round queue visited
      → length queue + unseen (indices st.node_info_map) visited + 1 ≤ fuel
      → ((search_ancestor fuel st anid queue visited ≡ some true)
          × Above dag st.dependency_graph anid dnid)
        ⊎ ((search_ancestor fuel st anid queue visited ≡ some false)
            × ¬ Above dag st.dependency_graph anid dnid)
  unfolding search_ancestor queue' visited' ps
  search_ancestor_lem zero queue visited r l = absurd (omega arith)
  search_ancestor_lem (suc fuel) [] visited r l =
      inr (refl, λ p. absent visited r (nodes-Above visited r r.start p))
  search_ancestor_lem (suc fuel) (nid ∷ queue) visited r l = elim (Bool-cases (nid == anid)) [
    | inl h ↦
        let e : nid ≡ anid = ground arith in
        inl (
          rw h refl,
          subst (λ x. Above dag st.dependency_graph x dnid) e
              (r.above nid (taken nid queue visited r)),
        )
    | inr h ↦
        elim (search_ancestor_lem fuel (queue' nid queue visited r h)
          (visited' nid queue visited r h) (Round-next nid queue visited r h)
          (omega (arith, work_left nid queue visited r h))) [
            | inl (e, p) ↦ inl (rw h e, p)
            | inr (e, p) ↦ inr (rw h e, p)
          ]
  ]
