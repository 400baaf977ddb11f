-- ===== src/Ecg/Insert.antt =====
-- What `insert_header` does on each of its branches.
use mathlib.Core.Path.{subst}
use ossa.Prelude.{
  ℕ, ◌≡◌, refl, sym, ◌∙◌, ap, inl, inr, ◌+◌, ◌-◌, ◌^◌, ◌%◌, Bool, true, false, Bool-cases, none,
  some, ◌⊎◌, List, [], ◌∷◌, map, Ord, beq, beq_iff, contains, set_insert, contains-set_insert,
  if◌then◌else◌, nat_ord, arith,
}
use ossa.Ecg.StableDag.{Dag}
use ossa.Ecg.{
  EcgHeader, NodeInfo, State, get_node, knows, find_parents, remove_all, insert_node, insert_new,
  insert_header,
}
use ossa.Ecg.WellFormed.{
  is_nil, is_root, index, Known, all_known, least, depth_below, IsWellFormed, accepts, Inserted,
}
use ossa.Ecg.InsertNode.{contains-remove_all, Known-of_all, find_parents_lem, insert_node_lem}
use ossa.Ecg.Preserve.{contains-unknown, Inserted-IsWellFormed}

module _ {HeaderId Header : Type 0} ⦃o : Ord HeaderId⦄ {dag : Dag HeaderId} where
  module _ (ecg : EcgHeader HeaderId Header) (st : State Header dag) (wf : IsWellFormed ecg st)
      (header : Header) (operations : List ℕ) where
    parents_of : List HeaderId
    parents_of = ecg.get_parent_ids header

    header_id : HeaderId
    header_id = ecg.get_header_id header

    -- what the call gives when it inserts
    abbrev pub Success : State Header dag × Bool → Type 0
    Success r =
        (st' : State Header dag) × (info : NodeInfo Header) × (info.header ≡ header)
        × (info.operations ≡ operations)
        × (r ≡ (st', true))
        × Inserted ecg st (ecg.get_header_id header) info st'

    insert_new_root :
        get_node st header_id ≡ none
        → [] ≡ parents_of
        → Success (insert_new st header_id header [] operations)
    unfolding insert_new parents_of header_id is_nil depth_below is_root contains
    insert_new_root u e =
        let absent : contains header_id st.root_nodes ≡ false =
          ground (arith, wf.roots header_id) in
        let (st', info, h, os, r, ins) =
          insert_node_lem ecg st wf header operations (set_insert header_id st.root_nodes)
            (set_insert header_id st.tips) 1 u (subst (Known st) e tt) (ap (depth_below st) e)
            (λ q.
              contains-set_insert header_id q st.root_nodes
              ∙ ap (λ ps. if beq q header_id then is_nil ps else contains q st.root_nodes) e)
            (λ q.
              contains-set_insert header_id q st.tips
              ∙ ap
                  (λ ps.
                    if beq q header_id
                    then true
                    else if contains q ps
                    then false
                    else contains q st.tips)
                  e) in
        (
          st',
          info,
          h,
          os,
          rw absent (
              ap
                (λ ps.
                  insert_node
                    (record st {
                      root_nodes = set_insert header_id st.root_nodes;
                      tips = set_insert header_id st.tips;
                    })
                    header_id header operations (map (index st) ps) 1)
                e
              ∙ r),
          ins,
        )

    old_root :
        get_node st header_id ≡ none
        → (q : HeaderId)
        → contains q st.root_nodes ≡ (if beq q header_id then false else contains q st.root_nodes)
    unfolding is_root
    old_root u q = ground (arith, wf.roots header_id, beq_iff q header_id)

    insert_new_unknown :
        (p : HeaderId) (ps : List HeaderId)
        → all_known st (p ∷ ps) ≡ false
        → insert_new st header_id header (p ∷ ps) operations ≡ (st, false)
    unfolding insert_new
    insert_new_unknown p ps k =
        let missing : find_parents st (2 ^ 64 - 1) (p ∷ ps) ≡ none =
          find_parents_lem st (2 ^ 64 - 1) (p ∷ ps) ∙ rw k refl in
        rw (missing, insert_new) refl

    insert_new_child :
        (p : HeaderId) (ps : List HeaderId)
        → get_node st header_id ≡ none
        → p ∷ ps ≡ parents_of
        → all_known st (p ∷ ps) ≡ true
        → Success (insert_new st header_id header (p ∷ ps) operations)
    unfolding insert_new parents_of header_id is_nil depth_below contains
    insert_new_child p ps u e k =
        let depth' = (least st (2 ^ 64 - 1) (p ∷ ps) + 1) % 2 ^ 64 in
        let tips = set_insert header_id (remove_all (p ∷ ps) st.tips) in
        let found : find_parents st (2 ^ 64 - 1) (p ∷ ps)
            ≡ some (map (index st) (p ∷ ps), least st (2 ^ 64 - 1) (p ∷ ps)) =
          find_parents_lem st (2 ^ 64 - 1) (p ∷ ps) ∙ rw k refl in
        let absent : contains header_id (p ∷ ps) ≡ false =
          contains-unknown st header_id (p ∷ ps) u (Known-of_all st (p ∷ ps) k) in
        let (st', info, h, os, r, ins) =
          insert_node_lem ecg st wf header operations st.root_nodes tips depth' u
            (subst (Known st) e (Known-of_all st (p ∷ ps) k)) (ap (depth_below st) e)
            (λ q.
              old_root u q
              ∙ ap (λ xs. if beq q header_id then is_nil xs else contains q st.root_nodes) e)
            (λ q.
              contains-set_insert header_id q (remove_all (p ∷ ps) st.tips)
              ∙ (ap (λ b. if beq q header_id then true else b)
                    (contains-remove_all (p ∷ ps) st.tips q)
                  ∙ ap
                      (λ xs.
                        if beq q header_id
                        then true
                        else if contains q xs
                        then false
                        else contains q st.tips)
                      e)) in
        (
          st',
          info,
          h,
          os,
          ap
                (λ x. elim x [
                  | none ↦ (st, false)
                  | some (parent_idxs, d) ↦
                      insert_node (record st { tips = tips }) header_id header operations
                        parent_idxs ((d + 1) % 2 ^ 64)
                ])
                found
              ∙ (ap
                    (λ xs.
                      insert_node (record st { tips = tips }) header_id header operations
                        (map (index st) xs) depth')
                    e
                  ∙ r),
          ins,
        )

    insert_new_cases :
        (ps : List HeaderId)
        → get_node st header_id ≡ none
        → ps ≡ parents_of
        → ((all_known st ps ≡ false) × (insert_new st header_id header ps operations ≡ (st, false)))
          ⊎ ((all_known st ps ≡ true) × Success (insert_new st header_id header ps operations))
    unfolding all_known
    insert_new_cases [] u e = inr (refl, insert_new_root u e)
    insert_new_cases (p ∷ ps) u e = elim (Bool-cases (all_known st (p ∷ ps))) [
      | inl k ↦ inr (k, insert_new_child p ps u e k)
      | inr k ↦ inl (k, insert_new_unknown p ps k)
    ]

    unknown_of_knows : knows st header_id ≡ false → get_node st header_id ≡ none
    unfolding knows
    unknown_of_knows k = ground arith

    -- Each branch of `insert_header`, in a well-formed state. A header that is not valid, or is known, or
    -- has an unknown parent is refused, and the state is as it was. Any other is inserted.
    pub insert_header_lem :
        ((accepts ecg st header ≡ false) × (insert_header ecg st header operations ≡ (st, false)))
        ⊎ ((accepts ecg st header ≡ true) × Success (insert_header ecg st header operations))
    unfolding insert_header accepts header_id parents_of
    insert_header_lem = elim (Bool-cases (ecg.validate_header header header_id)) [
      | inr h ↦ inl (ground arith, ground arith)
      | inl h ↦ elim (Bool-cases (knows st header_id)) [
        | inl k ↦ inl (ground arith, ground arith)
        | inr k ↦
            let through : insert_header ecg st header operations
                ≡ insert_new st header_id header parents_of operations =
              ground arith in
            elim (insert_new_cases parents_of (unknown_of_knows k) refl) [
              | inl (a, r) ↦ inl (ground arith, through ∙ r)
              | inr (a, s) ↦ inr (ground arith, subst Success (sym through) s)
            ]
      ]
    ]

    -- `insert_header` keeps a state well formed, whatever header it is given.
    pub insert_header-IsWellFormed : IsWellFormed ecg (insert_header ecg st header operations).0
    insert_header-IsWellFormed = elim insert_header_lem [
      | inl (a, r) ↦ subst (λ x. IsWellFormed ecg x.0) (sym r) wf
      | inr (a, (st', info, h, os, r, ins)) ↦
          subst (λ x. IsWellFormed ecg x.0) (sym r) (Inserted-IsWellFormed ecg wf ins)
    ]
