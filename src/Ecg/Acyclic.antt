-- ===== src/Ecg/Acyclic.antt =====
-- Cycles in the graph of headers of ossa-core/src/store/ecg.rs.
use mathlib.Core.Path.{subst}
use ossa.Prelude.{
  ℕ, suc, ◌<◌, ◌≤◌, ◌≡◌, refl, sym, ◌∙◌, ap, inl, inr, true, false, Bool-cases, some, List, [], ◌∷◌,
  Ord, beq, beq_iff, contains, get, if◌then◌else◌, arith, max,
}
use ossa.Ecg.StableDag.{Dag}
use ossa.Ecg.{EcgHeader, NodeInfo, State, get_node, new, insert_header}
use ossa.Ecg.WellFormed.{IsWellFormed, Inserted}
use ossa.Ecg.Preserve.{contains-unknown}
use ossa.Ecg.Insert.{insert_header_lem, insert_header-IsWellFormed}
use ossa.Ecg.InsertAll.{insert_all}
use ossa.Ecg.Ancestor.{Ancestor, self, parent}

module _ {HeaderId : Type 0} ⦃o : Ord HeaderId⦄ where
  most : (HeaderId → ℕ) → List HeaderId → ℕ
  most rank [] = 0
  most rank (p ∷ ps) = max (rank p) (most rank ps)

  below-most :
      (rank : HeaderId → ℕ) (p : HeaderId) (ps : List HeaderId)
      → contains p ps ≡ true
      → rank p ≤ most rank ps
  unfolding most contains
  below-most rank p [] c = absurd (cc)
  below-most rank p (q ∷ ps) c = elim (Bool-cases (beq p q)) [
    | inl h ↦ let e : rank p ≡ rank q = ap rank ((beq_iff p q).0 h) in omega arith
    | inr h ↦ let l = below-most rank p ps (ground arith) in omega arith
  ]

  other_than :
      (p h : HeaderId) (ps : List HeaderId)
      → contains p ps ≡ true
      → contains h ps ≡ false
      → beq p h ≡ false
  other_than p h ps c n = elim (Bool-cases (beq p h)) [
    | inl e ↦ absurd (
        let f : contains p ps ≡ contains h ps = ap (λ x. contains x ps) ((beq_iff p h).0 e) in
        ground arith)
    | inr e ↦ e
  ]

module _ {HeaderId Header : Type 0} ⦃o : Ord HeaderId⦄ {dag : Dag HeaderId}
    (ecg : EcgHeader HeaderId Header) where
  -- the headers can be numbered so that each comes after its parents
  pub record IsAcyclic (st : State Header dag) : Type 0 where
    pub rank : HeaderId → ℕ
    pub rises :
        (p q : HeaderId) (i : NodeInfo Header)
        → get_node st q ≡ some i
        → contains p (ecg.get_parent_ids i.header) ≡ true
        → rank p < rank q

  Inserted-IsAcyclic :
      (st st' : State Header dag) (h : HeaderId) (info : NodeInfo Header)
      → IsWellFormed ecg st
      → IsAcyclic st
      → Inserted ecg st h info st'
      → IsAcyclic st'
  Inserted-IsAcyclic st st' h info wf ac ins =
      let top = suc (most ac.rank (ecg.get_parent_ids info.header)) in
      let new_absent =
        contains-unknown st h (ecg.get_parent_ids info.header) ins.unknown ins.parents_known in
      record {
        rank = λ q. if beq q h then top else ac.rank q;
        rises = λ p q i e c. elim (Bool-cases (beq q h)) [
          | inl s ↦
              let f : i ≡ info = ground (arith, ins.nodes q) in
              let c' : contains p (ecg.get_parent_ids info.header) ≡ true =
                ap (λ x. contains p (ecg.get_parent_ids x.header)) (sym f) ∙ c in
              let l = below-most ac.rank p (ecg.get_parent_ids info.header) c' in
              let n = other_than p h (ecg.get_parent_ids info.header) c' new_absent in ground arith
          | inr s ↦
              let f : get_node st q ≡ some i = ground (arith, ins.nodes q) in
              let n = other_than p h (ecg.get_parent_ids i.header) c (
                contains-unknown st h (ecg.get_parent_ids i.header) ins.unknown
                  (wf.parents_known q i f)) in
              let l = ac.rises p q i f c in ground arith
        ];
      }

  pub new-IsAcyclic : IsAcyclic (new Header dag)
  unfolding new get
  new-IsAcyclic = record { rank = λ p. 0; rises = λ p q i e c. absurd (cc) }

  pub insert_header-IsAcyclic :
      (st : State Header dag) (header : Header) (operations : List ℕ)
      → IsWellFormed ecg st
      → IsAcyclic st
      → IsAcyclic (insert_header ecg st header operations).0
  insert_header-IsAcyclic st header operations wf ac =
      elim (insert_header_lem ecg st wf header operations) [
        | inl (a, r) ↦ subst (λ x. IsAcyclic x.0) (sym r) ac
        | inr (a, (st', info, h, os, r, ins)) ↦
            subst (λ x. IsAcyclic x.0) (sym r)
              (Inserted-IsAcyclic st st' (ecg.get_header_id header) info wf ac ins)
      ]

  -- Whatever headers are inserted, the graph of headers stays without cycles.
  pub insert_all-IsAcyclic :
      (st : State Header dag) (hs : List (Header × List ℕ))
      → IsWellFormed ecg st
      → IsAcyclic st
      → IsAcyclic (insert_all ecg st hs)
  unfolding insert_all
  insert_all-IsAcyclic st [] wf ac = ac
  insert_all-IsAcyclic st ((h, os) ∷ hs) wf ac =
      insert_all-IsAcyclic (insert_header ecg st h os).0 hs
        (insert_header-IsWellFormed ecg st wf h os) (insert_header-IsAcyclic st h os wf ac)

  Ancestor-rank :
      (st : State Header dag) (ac : IsAcyclic st) {a d : HeaderId}
      → Ancestor ecg st a d
      → ac.rank a ≤ ac.rank d
  Ancestor-rank st ac self = omega arith
  Ancestor-rank st ac (parent {p} {q} {i} e c anc) =
      omega (arith, Ancestor-rank st ac anc, ac.rises p q i e c)

  -- Two headers that are ancestors of each other are one header.
  pub Ancestor-antisym :
      (st : State Header dag) {a b : HeaderId}
      → IsAcyclic st
      → Ancestor ecg st a b
      → Ancestor ecg st b a
      → a ≡ b
  Ancestor-antisym st ac self q = refl
  Ancestor-antisym st ac (parent {p} {q} {i} e c anc) r =
      absurd (omega (arith, Ancestor-rank st ac anc, ac.rises p q i e c, Ancestor-rank st ac r))

  pub Ancestor-trans :
      (st : State Header dag) {a b c : HeaderId}
      → Ancestor ecg st a b
      → Ancestor ecg st b c
      → Ancestor ecg st a c
  Ancestor-trans st p self = p
  Ancestor-trans st p (parent e c q) = parent e c (Ancestor-trans st p q)
