-- ===== src/EcgSync/Headers.antt =====
-- About `handle_received_headers` of ossa-core/src/network/protocol/ecg_sync/v0/mod.rs.
use mathlib.Core.Path.{subst, fun_ext}
use ossa.Prelude.{
  ◌≡◌, refl, sym, ◌∙◌, ap, inl, inr, Bool, true, false, Bool-cases, ◌||◌, List, [], ◌∷◌, map, Ord,
  beq, beq_iff, contains, arith,
}
use ossa.Ecg.StableDag.{Dag}
use ossa.Ecg.{EcgHeader, NodeInfo, State, get_node, knows, insert_header}
use ossa.Ecg.WellFormed.{IsWellFormed, all_known, accepts, Inserted}
use ossa.Ecg.Insert.{insert_header_lem, insert_header-IsWellFormed}
use ossa.Ecg.Acyclic.{IsAcyclic, insert_header-IsAcyclic}
use ossa.EcgSync.{handle_received_headers}

module _ {HeaderId Header : Type 0} ⦃o : Ord HeaderId⦄ where
  -- Every header is valid, and each of its parents is known or comes earlier in the list.
  unfoldable pub InOrder : EcgHeader HeaderId Header → (HeaderId → Bool) → List Header → Type 0
  InOrder ecg known [] = Unit
  InOrder ecg known (h ∷ hs) =
      (ecg.validate_header h (ecg.get_header_id h) ≡ true)
      × ((p : HeaderId) → contains p (ecg.get_parent_ids h) ≡ true → known p ≡ true)
      × InOrder ecg (λ q. beq q (ecg.get_header_id h) || known q) hs

module _ {HeaderId Header : Type 0} ⦃o : Ord HeaderId⦄ {dag : Dag HeaderId} where
  all_known_of :
      (st : State Header dag) (ps : List HeaderId)
      → ((p : HeaderId) → contains p ps ≡ true → knows st p ≡ true)
      → all_known st ps ≡ true
  unfolding all_known contains
  all_known_of st [] k = refl
  all_known_of st (p ∷ ps) k =
      let first : knows st p ≡ true = k p (rw ((beq_iff p p).1 refl) refl) in
      let rest : all_known st ps ≡ true = all_known_of st ps (λ q c. k q (ground (arith, c))) in
      rw (first, rest) refl

module _ {HeaderId Header : Type 0} ⦃o : Ord HeaderId⦄ {dag : Dag HeaderId}
    (ecg : EcgHeader HeaderId Header) where
  knows-Inserted :
      (st st' : State Header dag) (id : HeaderId) (info : NodeInfo Header)
      → Inserted ecg st id info st'
      → (q : HeaderId) → knows st' q ≡ (beq q id || knows st q)
  unfolding knows
  knows-Inserted st st' id info ins q = rw (ins.nodes q, knows) (ground arith)

  known_already :
      (st : State Header dag) (id : HeaderId)
      → knows st id ≡ true
      → (q : HeaderId) → knows st q ≡ (beq q id || knows st q)
  known_already st id k q = elim (Bool-cases (beq q id)) [
    | inl e ↦
        let same : knows st q ≡ true = ap (knows st) ((beq_iff q id).0 e) ∙ k in rw (same, e) refl
    | inr e ↦ rw e refl
  ]

  -- a valid header, whose parents are known, is known after `insert_header`, and no other that was not
  insert_header_known :
      (st : State Header dag) (h : Header)
      → IsWellFormed ecg st
      → ecg.validate_header h (ecg.get_header_id h) ≡ true
      → ((p : HeaderId) → contains p (ecg.get_parent_ids h) ≡ true → knows st p ≡ true)
      → ((q : HeaderId)
          → knows (insert_header ecg st h []).0 q ≡ (beq q (ecg.get_header_id h) || knows st q))
        × ((q : HeaderId)
            → knows st q ≡ true
            → get_node (insert_header ecg st h []).0 q ≡ get_node st q)
  unfolding accepts
  insert_header_known st h wf v k =
      let id = ecg.get_header_id h in
      let all = all_known_of st (ecg.get_parent_ids h) k in
      elim (insert_header_lem ecg st wf h []) [
        | inl (a, r) ↦
            let old : knows st id ≡ true = ground arith in
            (λ q. rw r (known_already st id old q), λ q e. rw r refl)
        | inr (a, (st', info, i, os, r, ins)) ↦
            let new : knows st id ≡ false = ground arith in
            (
              λ q. rw r (knows-Inserted st st' id info ins q),
              λ q e. elim (Bool-cases (beq q id)) [
                | inl s ↦
                    let old : knows st id ≡ true = ap (knows st) (sym ((beq_iff q id).0 s)) ∙ e in
                    absurd (cc)
                | inr s ↦ rw r (ins.nodes q ∙ rw s refl)
              ],
            )
      ]

  -- Of headers that are all valid, each after its parents, and sent to a well-formed graph without cycles,
  -- none is lost: the graph then knows those headers, all that it knew and no others, has kept the nodes
  -- of those it knew, and is well formed and without cycles.
  pub handle_received_headers_lem :
      (headers : List Header) (st : State Header dag)
      → IsWellFormed ecg st
      → IsAcyclic ecg st
      → InOrder ecg (knows st) headers
      → let (st', _) = handle_received_headers ecg st headers in
        ((q : HeaderId) → knows st' q ≡ (contains q (map ecg.get_header_id headers) || knows st q))
        × ((q : HeaderId) → knows st q ≡ true → get_node st' q ≡ get_node st q)
        × IsWellFormed ecg st'
        × IsAcyclic ecg st'
  unfolding handle_received_headers InOrder contains
  handle_received_headers_lem [] st wf ac ordered = (λ q. refl, λ q e. refl, wf, ac)
  handle_received_headers_lem (h ∷ hs) st wf ac (valid, parents, ordered) =
      let (known, kept) = insert_header_known st h wf valid parents in
      let st1 = (insert_header ecg st h []).0 in
      let ordered' : InOrder ecg (knows st1) hs =
        subst (λ k. InOrder ecg k hs) (sym (fun_ext known)) ordered in
      let (known', kept', wf', ac') =
        handle_received_headers_lem hs st1 (insert_header-IsWellFormed ecg st wf h [])
          (insert_header-IsAcyclic ecg st h [] wf ac) ordered' in
      (
        λ q. known' q ∙ rw (known q) (ground arith),
        λ q e. kept' q (known q ∙ rw e (ground arith)) ∙ kept q e,
        wf',
        ac',
      )
