-- ===== src/Ecg/Parents.antt =====
-- The queries `get_parents` and `get_parents_with_depth`.
use ossa.Prelude.{
  ℕ, ◌≡◌, refl, sym, ◌∙◌, ap, inl, inr, ◌⊎◌, true, false, ◌&&◌, Bool-cases, none, some,
  Option-cases, List, [], ◌∷◌, map, All, Ord, beq, beq_iff, contains, nat_ord, arith,
}
use ossa.Ecg.StableDag.{Dag}
use ossa.Ecg.{
  EcgHeader, NodeInfo, State, get_node, knows, get_parents, get_parents_with_depth, depth_at,
  try_collect,
}
use ossa.Ecg.WellFormed.{index, depth, Known, IsWellFormed}
use ossa.Ecg.Preserve.{node_of_knows, knows_of_node, contains-unknown}
use ossa.Ecg.Ancestor.{IsNode, Above-IsNode}

module _ {HeaderId Header : Type 0} ⦃o : Ord HeaderId⦄ {dag : Dag HeaderId}
    (ecg : EcgHeader HeaderId Header) (st : State Header dag) (wf : IsWellFormed ecg st) where
  -- a header has one index, and an index one header
  index_weight :
      (p : HeaderId) → knows st p ≡ true → dag.node_weight st.dependency_graph (index st p) ≡ some p
  unfolding index
  index_weight p k = let (i, e) = node_of_knows st p k in ground (arith, wf.weight p i e)

  index_inj :
      (p q : HeaderId) → knows st p ≡ true → knows st q ≡ true → index st p ≡ index st q → p ≡ q
  index_inj p q k l e =
      ground (arith, index_weight p k, index_weight q l, ap (dag.node_weight st.dependency_graph) e)

  contains_index :
      (p : HeaderId) (ps : List HeaderId)
      → knows st p ≡ true
      → Known st ps
      → contains (index st p) (map (index st) ps) ≡ contains p ps
  unfolding contains
  contains_index p [] k ks = refl
  contains_index p (q ∷ ps) k (l, ks) = ground (
    arith,
    contains_index p ps k ks,
    index_inj p q k l,
    beq_iff p q,
    beq_iff (index st p) (index st q),
    λ (e : p ≡ q). ap (index st) e,
  )

  index_is :
      (q : HeaderId) (i : NodeInfo Header) → get_node st q ≡ some i → index st q ≡ i.graph_index
  unfolding index
  index_is q i e = ap (λ n. elim n [ none ↦ 0 | some i ↦ i.graph_index ]) e

  same_head :
      (p q : HeaderId) (k : ℕ)
      → knows st q ≡ true
      → index st q ≡ k
      → beq p q ≡ (knows st p && beq (index st p) k)
  same_head p q k l e = elim (Bool-cases (beq p q)) [
    | inl h ↦
        let s : p ≡ q = (beq_iff p q).0 h in
        let t : knows st p ≡ true = ap (knows st) s ∙ l in
        let u : beq (index st p) k ≡ true = (beq_iff (index st p) k).1 (ap (index st) s ∙ e) in
        ground arith
    | inr h ↦ elim (Bool-cases (knows st p)) [
      | inr n ↦ ground arith
      | inl t ↦ elim (Bool-cases (beq (index st p) k)) [
        | inr n ↦ ground arith
        | inl u ↦
            let s : p ≡ q = index_inj p q t l ((beq_iff (index st p) k).0 u ∙ sym e) in
            absurd (ground (arith, (beq_iff p q).1 s))
      ]
    ]
  ]

  -- the headers of some nodes, and their depths
  collected :
      (ks : List ℕ)
      → All (IsNode ecg st) ks
      → (l : List HeaderId) × (try_collect (map (dag.node_weight st.dependency_graph) ks) ≡ some l)
        × (try_collect (map (depth_at st) ks) ≡ some (map (λ p. (depth st p, p)) l))
        × ((p : HeaderId) → contains p l ≡ (knows st p && contains (index st p) ks))
  unfolding try_collect contains depth_at depth
  collected [] a = ([], refl, refl, λ p. ground arith)
  collected (k ∷ ks) ((q, i, e, f), a) =
      let (l, c, d, m) = collected ks a in
      let w : dag.node_weight st.dependency_graph k ≡ some q =
        ap (dag.node_weight st.dependency_graph) (sym f) ∙ wf.weight q i e in
      let kq = knows_of_node st q i e in
      (
        q ∷ l,
        ground arith,
        ground arith,
        λ p. ground (arith, same_head p q k kq (index_is q i e ∙ f), m p),
      )

  unknown_absent :
      (p : HeaderId) (ps : List HeaderId) → knows st p ≡ false → Known st ps → contains p ps ≡ false
  unfolding knows
  unknown_absent p ps n ks = contains-unknown st p ps (ground arith) ks

  contains-Known :
      (p : HeaderId) (ps : List HeaderId)
      → Known st ps
      → contains p ps ≡ (knows st p && contains (index st p) (map (index st) ps))
  contains-Known p ps ks = elim (Bool-cases (knows st p)) [
    | inl h ↦ rw h (sym (contains_index p ps h ks))
    | inr h ↦ rw h (unknown_absent p ps h ks)
  ]

  All-nodes :
      (ks : List ℕ) → ((k : ℕ) → contains k ks ≡ true → IsNode ecg st k) → All (IsNode ecg st) ks
  unfolding contains
  All-nodes [] h = tt
  All-nodes (k ∷ ks) h = (h k (ground arith), All-nodes ks (λ j c. h j (ground arith)))

  -- In a well-formed state the two queries answer `none` for a header that is not known. For any other
  -- they give the parents that the header names, and no others, each with its depth.
  pub get_parents_lem :
      (h : HeaderId)
      → ((get_node st h ≡ none) × (get_parents st h ≡ none) × (get_parents_with_depth st h ≡ none))
        ⊎ ((i : NodeInfo Header) × (l : List HeaderId) × (get_node st h ≡ some i)
            × (get_parents st h ≡ some l)
            × (get_parents_with_depth st h ≡ some (map (λ p. (depth st p, p)) l))
            × ((p : HeaderId) → contains p l ≡ contains p (ecg.get_parent_ids i.header)))
  unfolding get_parents get_parents_with_depth
  get_parents_lem h = elim (Option-cases (get_node st h)) [
    | inl e ↦ inl (e, ground arith, ground arith)
    | inr (i, e) ↦
        let ks = dag.parents st.dependency_graph i.graph_index in
        let (l, c, d, m) =
          collected ks
            (All-nodes ks (λ k n. Above-IsNode ecg st wf k i.graph_index (h, i, e, refl) n)) in
        inr (
          i,
          l,
          e,
          ground arith,
          ground arith,
          λ p.
              m p
              ∙ (ap (λ b. knows st p && b) (wf.edges h i e (index st p))
                  ∙ sym (contains-Known p (ecg.get_parent_ids i.header) (wf.parents_known h i e))),
        )
  ]
