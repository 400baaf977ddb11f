-- ===== src/Ecg/Ancestor/Correct.antt =====
-- The answers of `is_ancestor_of`.
use ossa.Prelude.{
  ℕ, ◌+◌, ◌≡◌, refl, ◌∙◌, sym, inl, inr, ◌⊎◌, true, false, none, some, Option-cases, [], ◌∷◌,
  length, contains, beq_iff, Ord, nat_ord, arith,
}
use mathlib.Core.Path.{subst}
use ossa.Ecg.StableDag.{Dag}
use ossa.Ecg.{EcgHeader, NodeInfo, State, get_node, knows, is_ancestor_of}
use ossa.Ecg.WellFormed.{IsWellFormed}
use ossa.Ecg.Ancestor.{Above, here, Ancestor, Ancestor-of_Above, Above-of_Ancestor}
use ossa.Ecg.Ancestor.Search.{
  indices, length-indices, contains-indices, Round, search_ancestor_lem, unseen_one,
}

module _ {HeaderId Header : Type 0} ⦃o : Ord HeaderId⦄ {dag : Dag HeaderId}
    (ecg : EcgHeader HeaderId Header) (st : State Header dag) (wf : IsWellFormed ecg st) where
  first-Round :
      (anid d_idx : ℕ) (d : HeaderId) (i : NodeInfo Header)
      → get_node st d ≡ some i
      → i.graph_index ≡ d_idx
      → Round ecg st wf anid d_idx (d_idx ∷ []) (d_idx ∷ [])
  unfolding contains
  first-Round anid d_idx d i e f = record {
    queued = λ k c. c;
    node = λ k c. (d, i, e, f ∙ sym ((beq_iff k d_idx).0 (ground arith)));
    above = λ k c.
        subst (λ x. Above dag st.dependency_graph x d_idx)
          (sym ((beq_iff k d_idx).0 (ground arith))) here;
    start = ground (arith, beq_iff d_idx d_idx);
    closed = λ j k c n h. absurd (ground arith);
    other = λ j c n. absurd (ground arith);
  }

  -- In a well-formed state the answer is `none` just where one of the two headers is not known;
  -- otherwise the search ends, and says `true` for an ancestor and `false` for any other header.
  pub is_ancestor_of_lem :
      (a d : HeaderId)
      → (((knows st a ≡ false) ⊎ (knows st d ≡ false)) × (is_ancestor_of st a d ≡ none))
        ⊎ ((knows st a ≡ true)
            × (knows st d ≡ true)
            × (((is_ancestor_of st a d ≡ some true) × Ancestor ecg st a d)
                ⊎ ((is_ancestor_of st a d ≡ some false) × ¬ Ancestor ecg st a d)))
  unfolding is_ancestor_of knows
  is_ancestor_of_lem a d = elim (Option-cases (get_node st a)) [
    | inl e ↦ inl (inl (ground arith), ground arith)
    | inr (i, e) ↦ elim (Option-cases (get_node st d)) [
      | inl f ↦ inl (inr (ground arith), ground arith)
      | inr (j, f) ↦ inr (
        ground arith,
        ground arith,
        elim (search_ancestor_lem ecg st wf i.graph_index j.graph_index
            (length st.node_info_map + 1) (j.graph_index ∷ []) (j.graph_index ∷ [])
            (first-Round i.graph_index j.graph_index d j f refl)
            (omega (
              arith,
              unseen_one (indices st.node_info_map) j.graph_index
                  (contains-indices st.node_info_map d j f),
              length-indices st.node_info_map,
            ))) [
              | inl (r, p) ↦ inl (ground (arith), Ancestor-of_Above ecg st wf a i e d j p f refl)
              | inr (r, p) ↦
                  inr (ground (arith), λ anc. p (Above-of_Ancestor ecg st wf a i e j anc f))
            ],
      )
    ]
  ]
