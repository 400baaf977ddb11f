-- ===== src/Ecg/Ancestor.antt =====
-- The graph that `is_ancestor_of` walks through: which nodes lie above a node, and which headers are
-- the ancestors of a header.
pub mod Visit
pub mod Search
pub mod Correct
use mathlib.Core.Path.{subst}
use ossa.Prelude.{
  ℕ, ◌≡◌, refl, sym, ◌∙◌, ap, inl, inr, Bool, true, false, Bool-cases, Option, none, some, List, [],
  ◌∷◌, map, All, Ord, beq, beq_iff, contains, ◌==◌, if◌then◌else◌, nat_ord, arith,
}
use ossa.Ecg.StableDag.{Dag}
use ossa.Ecg.{EcgHeader, NodeInfo, State, get_node, knows}
use ossa.Ecg.WellFormed.{index, Known, IsWellFormed}
use ossa.Ecg.Preserve.{node_of_knows}

-- The second node is the first, or has a parent below which the first lies.
pub data Above {HeaderId : Type 0} (dag : Dag HeaderId) (g : dag.Graph) (a : ℕ) : ℕ → Type 0 where
  here : Above dag g a a
  up : {k j : ℕ} → contains k (dag.parents g j) ≡ true → Above dag g a k → Above dag g a j

pub Above-snoc :
    {HeaderId : Type 0} {dag : Dag HeaderId} {g : dag.Graph} {a b d : ℕ}
    → contains b (dag.parents g a) ≡ true
    → Above dag g a d
    → Above dag g b d
Above-snoc e here = up e here
Above-snoc e (up f p) = up f (Above-snoc e p)

module _ {HeaderId Header : Type 0} ⦃o : Ord HeaderId⦄ {dag : Dag HeaderId}
    (ecg : EcgHeader HeaderId Header) (st : State Header dag) where
  -- A header is an ancestor of itself, and of a header one of whose parents it is an ancestor of.
  pub data Ancestor (a : HeaderId) : HeaderId → Type 0 where
    self : Ancestor a a
    parent :
        {p q : HeaderId} {i : NodeInfo Header}
        → get_node st q ≡ some i
        → contains p (ecg.get_parent_ids i.header) ≡ true
        → Ancestor a p
        → Ancestor a q

  -- an index with a known header
  abbrev pub IsNode : ℕ → Type 0
  IsNode k = (q : HeaderId) × (i : NodeInfo Header) × (get_node st q ≡ some i) × (i.graph_index ≡ k)

  index_of_node :
      (p : HeaderId) (i : NodeInfo Header) → get_node st p ≡ some i → index st p ≡ i.graph_index
  unfolding index
  index_of_node p i e = ap (λ n. elim n [ none ↦ 0 | some i ↦ i.graph_index ]) e

  pub contains-map-index :
      (p : HeaderId) (ps : List HeaderId)
      → contains p ps ≡ true
      → contains (index st p) (map (index st) ps) ≡ true
  unfolding contains
  contains-map-index p [] c = absurd (cc)
  contains-map-index p (q ∷ ps) c = elim (Bool-cases (beq p q)) [
    | inl h ↦ let e : index st p ≡ index st q = ap (index st) ((beq_iff p q).0 h) in ground arith
    | inr h ↦ let rest = contains-map-index p ps (ground arith) in ground arith
  ]

  -- an index among those of some headers is the index of one of them
  pub of_contains-map :
      (k : ℕ) (ps : List HeaderId)
      → Known st ps
      → contains k (map (index st) ps) ≡ true
      → (p : HeaderId) × (i : NodeInfo Header) × (contains p ps ≡ true)
        × (get_node st p ≡ some i)
        × (i.graph_index ≡ k)
  unfolding contains
  of_contains-map k [] ks c = absurd (cc)
  of_contains-map k (p ∷ ps) (kp, ks) c = elim (Bool-cases (beq k (index st p))) [
    | inl h ↦
        let (i, e) = node_of_knows st p kp in
        (
          p,
          i,
          ground (arith, o.cmp_refl p),
          e,
          sym (index_of_node p i e) ∙ sym ((beq_iff k (index st p)).0 h),
        )
    | inr h ↦
        let (q, i, m, e, f) = of_contains-map k ps ks (ground arith) in (q, i, ground arith, e, f)
  ]

  module _ (wf : IsWellFormed ecg st) where
    pub parent_node :
        (q : HeaderId) (i : NodeInfo Header) (k : ℕ)
        → get_node st q ≡ some i
        → contains k (dag.parents st.dependency_graph i.graph_index) ≡ true
        → (p : HeaderId) × (j : NodeInfo Header) × (contains p (ecg.get_parent_ids i.header) ≡ true)
          × (get_node st p ≡ some j)
          × (j.graph_index ≡ k)
    parent_node q i k e c =
        of_contains-map k (ecg.get_parent_ids i.header) (wf.parents_known q i e)
          (sym (wf.edges q i e k) ∙ c)

    pub Above-IsNode :
        (k j : ℕ) → IsNode j → contains k (dag.parents st.dependency_graph j) ≡ true → IsNode k
    Above-IsNode k j (q, i, e, f) c =
        let (p, h, m, g, r) =
          parent_node q i k e (ap (λ x. contains k (dag.parents st.dependency_graph x)) f ∙ c) in
        (p, h, g, r)

    module _ (a : HeaderId) (ai : NodeInfo Header) (ae : get_node st a ≡ some ai) where
      pub Ancestor-of_Above :
          {j : ℕ} (q : HeaderId) (i : NodeInfo Header)
          → Above dag st.dependency_graph ai.graph_index j
          → get_node st q ≡ some i
          → i.graph_index ≡ j
          → Ancestor a q
      Ancestor-of_Above q i here e f =
          let s : q ≡ a = ground (
            arith,
            wf.weight q i e,
            wf.weight a ai ae,
            ap (dag.node_weight st.dependency_graph) f,
          ) in
          subst (Ancestor a) (sym s) self
      Ancestor-of_Above {j} q i (up {k} c p) e f =
          let (r, h, m, g, s) =
            parent_node q i k e (ap (λ x. contains k (dag.parents st.dependency_graph x)) f ∙ c) in
          parent e m (Ancestor-of_Above r h p g s)

      Known-parent :
          (p : HeaderId) (ps : List HeaderId)
          → Known st ps
          → contains p ps ≡ true
          → (i : NodeInfo Header) × (get_node st p ≡ some i)
      unfolding contains
      Known-parent p [] ks c = absurd (cc)
      Known-parent p (q ∷ ps) (k, ks) c = elim (Bool-cases (beq p q)) [
        | inl h ↦ node_of_knows st p (ap (knows st) ((beq_iff p q).0 h) ∙ k)
        | inr h ↦ Known-parent p ps ks (ground arith)
      ]

      pub Above-of_Ancestor :
          {q : HeaderId} (i : NodeInfo Header)
          → Ancestor a q
          → get_node st q ≡ some i
          → Above dag st.dependency_graph ai.graph_index i.graph_index
      Above-of_Ancestor i self e =
          let s : i ≡ ai = ground arith in
          subst (λ x. Above dag st.dependency_graph ai.graph_index x.graph_index) (sym s) here
      Above-of_Ancestor {q} i (parent {p} {i = h} f c anc) e =
          let s : h ≡ i = ground arith in
          let c' : contains p (ecg.get_parent_ids i.header) ≡ true =
            ap (λ x. contains p (ecg.get_parent_ids x.header)) (sym s) ∙ c in
          let (j, g) = Known-parent p (ecg.get_parent_ids i.header) (wf.parents_known q i e) c' in
          up
            (wf.edges q i e j.graph_index
              ∙ (ap (λ x. contains x (map (index st) (ecg.get_parent_ids i.header)))
                    (sym (index_of_node p j g))
                  ∙ contains-map-index p (ecg.get_parent_ids i.header) c'))
            (Above-of_Ancestor j anc g)
