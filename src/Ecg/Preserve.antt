-- ===== src/Ecg/Preserve.antt =====
-- The parts of a well-formed state after a header is inserted.
use mathlib.Core.Path.{subst}
use ossa.Prelude.{
  ℕ, ◌≡◌, refl, sym, ◌∙◌, ap, inl, inr, ◌+◌, ◌-◌, ◌^◌, ◌%◌, min, true, false, Bool-cases, none,
  some, Option-cases, ◌⊎◌, List, [], ◌∷◌, map, Ord, beq, beq_iff, contains, ◌==◌, nat_ord, arith,
}
use ossa.Ecg.StableDag.{Dag}
use ossa.Ecg.{EcgHeader, NodeInfo, State, get_node, knows}
use ossa.Ecg.WellFormed.{
  is_root, index, depth, Known, least, depth_below, IsTip, IsWellFormed, Inserted,
}

module _ {HeaderId Header : Type 0} ⦃o : Ord HeaderId⦄ {dag : Dag HeaderId} where
  pub node_of_knows :
      (st : State Header dag) (p : HeaderId)
      → knows st p ≡ true
      → (i : NodeInfo Header) × (get_node st p ≡ some i)
  unfolding knows
  node_of_knows st p h = elim (Option-cases (get_node st p)) [
    | inl e ↦ absurd (ground arith)
    | inr (i, e) ↦ (i, e)
  ]

  pub knows_of_node :
      (st : State Header dag) (p : HeaderId) (i : NodeInfo Header)
      → get_node st p ≡ some i
      → knows st p ≡ true
  unfolding knows
  knows_of_node st p i e = ground arith

  -- known headers do not contain an unknown one
  pub contains-unknown :
      (st : State Header dag) (p : HeaderId) (ps : List HeaderId)
      → get_node st p ≡ none
      → Known st ps
      → contains p ps ≡ false
  unfolding contains knows
  contains-unknown st p [] u k = refl
  contains-unknown st p (q ∷ ps) u (k, ks) =
      ground (arith, contains-unknown st p ps u ks, o.eq_of_cmp p q)

  module _ (st st' : State Header dag)
      (same : (q : HeaderId) → knows st q ≡ true → get_node st' q ≡ get_node st q) where
    pub map-index-same : (ps : List HeaderId) → Known st ps → map (index st') ps ≡ map (index st) ps
    unfolding index
    map-index-same [] k = refl
    map-index-same (p ∷ ps) (k, ks) =
        let e : index st' p ≡ index st p =
          ap (λ n. elim n [ none ↦ 0 | some i ↦ i.graph_index ]) (same p k) in
        ground (arith, map-index-same ps ks)

    pub least-same : (ps : List HeaderId) (d : ℕ) → Known st ps → least st' d ps ≡ least st d ps
    unfolding least depth
    least-same [] d k = refl
    least-same (p ∷ ps) d (k, ks) =
        let e : depth st' p ≡ depth st p =
          ap (λ n. elim n [ none ↦ 0 | some i ↦ i.depth ]) (same p k) in
        ap (λ x. least st' (min d x) ps) e ∙ least-same ps (min d (depth st p)) ks

    pub depth_below-same :
        (ps : List HeaderId) → Known st ps → depth_below st' ps ≡ depth_below st ps
    unfolding depth_below
    depth_below-same [] k = refl
    depth_below-same (p ∷ ps) k = ap (λ d. (d + 1) % 2 ^ 64) (least-same (p ∷ ps) (2 ^ 64 - 1) k)

    pub Known-same : (ps : List HeaderId) → Known st ps → Known st' ps
    unfolding knows
    Known-same [] k = tt
    Known-same (p ∷ ps) (k, ks) = (ground (arith, same p k), Known-same ps ks)

  module _ (ecg : EcgHeader HeaderId Header) {st st' : State Header dag} {p : HeaderId}
      {info : NodeInfo Header} (wf : IsWellFormed ecg st) (ins : Inserted ecg st p info st') where
    parents_of : NodeInfo Header → List HeaderId
    parents_of i = ecg.get_parent_ids i.header

    -- an entry of the new state is the new one or an old one
    node_cases :
        (q : HeaderId) (i : NodeInfo Header)
        → get_node st' q ≡ some i
        → ((q ≡ p) × (i ≡ info)) ⊎ ((beq q p ≡ false) × (get_node st q ≡ some i))
    node_cases q i e = elim (Bool-cases (beq q p)) [
      | inl h ↦ inl ((beq_iff q p).0 h, ground (arith, ins.nodes q))
      | inr h ↦ inr (h, ground (arith, ins.nodes q))
    ]

    node_new : get_node st' p ≡ some info
    node_new = ground (arith, ins.nodes p, o.cmp_refl p)

    node_same : (q : HeaderId) → knows st q ≡ true → get_node st' q ≡ get_node st q
    unfolding knows
    node_same q k = ground (arith, ins.nodes q, ins.unknown, o.eq_of_cmp q p)

    index_old :
        (q : HeaderId) (i : NodeInfo Header)
        → get_node st q ≡ some i
        → (i.graph_index == info.graph_index) ≡ false
    index_old q i e = ground (arith, wf.weight q i e, ins.fresh)

    weight :
        (q : HeaderId) (i : NodeInfo Header)
        → get_node st' q ≡ some i
        → dag.node_weight st'.dependency_graph i.graph_index ≡ some q
    weight q i e = elim (node_cases q i e) [
      | inl (h, f) ↦ ground (arith, ins.weights i.graph_index, ap (λ x. x.graph_index) f)
      | inr (h, f) ↦ ground (arith, ins.weights i.graph_index, index_old q i f, wf.weight q i f)
    ]

    entry :
        (k : ℕ) (q : HeaderId)
        → dag.node_weight st'.dependency_graph k ≡ some q
        → (i : NodeInfo Header) × (get_node st' q ≡ some i) × (i.graph_index ≡ k)
    entry k q e = elim (Bool-cases (k == info.graph_index)) [
      | inl h ↦
          let f : q ≡ p = ground (arith, ins.weights k) in
          (info, ap (get_node st') f ∙ node_new, ground arith)
      | inr h ↦
          let (i, f, g) = wf.entry k q (ground (arith, ins.weights k)) in
          (i, node_same q (knows_of_node st q i f) ∙ f, g)
    ]

    edges :
        (q : HeaderId) (i : NodeInfo Header)
        → get_node st' q ≡ some i
        → (k : ℕ)
        → contains k (dag.parents st'.dependency_graph i.graph_index)
          ≡ contains k (map (index st') (parents_of i))
    unfolding parents_of
    edges q i e k = elim (node_cases q i e) [
      | inl (h, f) ↦
          ap (λ x. contains k (dag.parents st'.dependency_graph x.graph_index)) f
          ∙ (ground (arith, ins.edges info.graph_index k)
              ∙ (ap (contains k)
                    (sym (map-index-same st st' node_same (parents_of info) ins.parents_known))
                  ∙ ap (λ x. contains k (map (index st') (parents_of x))) (sym f)))
      | inr (h, f) ↦
          ground (arith, ins.edges i.graph_index k, index_old q i f)
          ∙ (wf.edges q i f k
              ∙ ap (contains k)
                  (sym (map-index-same st st' node_same (parents_of i) (wf.parents_known q i f))))
    ]

    named :
        (q : HeaderId) (i : NodeInfo Header)
        → get_node st' q ≡ some i
        → ecg.get_header_id i.header ≡ q
    named q i e = elim (node_cases q i e) [
      | inl (h, f) ↦ ap (λ x. ecg.get_header_id x.header) f ∙ (ins.name ∙ sym h)
      | inr (h, f) ↦ wf.named q i f
    ]

    parents-Known :
        (q : HeaderId) (i : NodeInfo Header) → get_node st' q ≡ some i → Known st (parents_of i)
    unfolding parents_of
    parents-Known q i e = elim (node_cases q i e) [
      | inl (h, f) ↦ subst (λ x. Known st (ecg.get_parent_ids x.header)) (sym f) ins.parents_known
      | inr (h, f) ↦ wf.parents_known q i f
    ]

    depths :
        (q : HeaderId) (i : NodeInfo Header)
        → get_node st' q ≡ some i
        → i.depth ≡ depth_below st' (parents_of i)
    unfolding parents_of
    depths q i e =
        let same = depth_below-same st st' node_same (parents_of i) (parents-Known q i e) in
        elim (node_cases q i e) [
          | inl (h, f) ↦
              subst (λ x. x.depth ≡ depth_below st (ecg.get_parent_ids x.header)) (sym f)
                ins.depth_info
              ∙ sym same
          | inr (h, f) ↦ wf.depths q i f ∙ sym same
        ]

    roots : (q : HeaderId) → contains q st'.root_nodes ≡ is_root ecg (get_node st' q)
    unfolding is_root
    roots q = elim (Bool-cases (beq q p)) [
      | inl h ↦ ground (arith, ins.roots q, ins.nodes q)
      | inr h ↦ ground (arith, ins.roots q, ins.nodes q, wf.roots q)
    ]

    not_parent :
        (q : HeaderId) (i : NodeInfo Header)
        → get_node st' q ≡ some i
        → contains p (ecg.get_parent_ids i.header) ≡ false
    unfolding parents_of
    not_parent q i e = contains-unknown st p (parents_of i) ins.unknown (parents-Known q i e)

    knows_same : (q : HeaderId) → beq q p ≡ false → knows st' q ≡ knows st q
    unfolding knows
    knows_same q h = ground (arith, ins.nodes q)

    IsTip-of : (q : HeaderId) → contains q st'.tips ≡ true → IsTip ecg st' q
    IsTip-of q c = elim (Bool-cases (beq q p)) [
      | inl h ↦
          subst (IsTip ecg st') (sym ((beq_iff q p).0 h))
            (record { known = knows_of_node st' p info node_new; last = not_parent })
      | inr h ↦
          let t : IsTip ecg st q = (wf.tip q).0 (ground (arith, ins.tips q)) in
          record {
            known = knows_same q h ∙ t.known;
            last = λ r i e. elim (node_cases r i e) [
              | inl (g, f) ↦
                  ap (λ x. contains q (ecg.get_parent_ids x.header)) f ∙ ground (arith, ins.tips q)
              | inr (g, f) ↦ t.last r i f
            ];
          }
    ]

    of_tip : (q : HeaderId) → IsTip ecg st' q → contains q st'.tips ≡ true
    of_tip q t = elim (Bool-cases (beq q p)) [
      | inl h ↦ ground (arith, ins.tips q)
      | inr h ↦
          let old : IsTip ecg st q = record {
            known = sym (knows_same q h) ∙ t.known;
            last = λ r i e. t.last r i (node_same r (knows_of_node st r i e) ∙ e);
          } in
          let c : contains q st.tips ≡ true = (wf.tip q).1 old in
          ground (arith, ins.tips q, t.last p info node_new)
    ]

    pub Inserted-IsWellFormed : IsWellFormed ecg st'
    unfolding parents_of
    Inserted-IsWellFormed = record {
      weight = weight;
      entry = entry;
      named = named;
      parents_known =
          λ q i e. Known-same st st' node_same (ecg.get_parent_ids i.header) (parents-Known q i e);
      edges = edges;
      depths = depths;
      roots = roots;
      tip = λ q. (IsTip-of q, of_tip q);
    }
