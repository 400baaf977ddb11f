-- ===== src/Ecg/InsertAll.antt =====
-- Headers inserted one after the other.
use ossa.Prelude.{ℕ, refl, List, [], ◌∷◌, Ord, contains, get, nat_ord, arith}
use ossa.Ecg.StableDag.{Dag}
use ossa.Ecg.{EcgHeader, State, knows, insert_header, new}
use ossa.Ecg.WellFormed.{is_root, IsWellFormed}
use ossa.Ecg.Insert.{insert_header-IsWellFormed}

module _ {HeaderId Header : Type 0} ⦃o : Ord HeaderId⦄ {dag : Dag HeaderId} where
  -- a new graph, with some headers inserted one after the other
  unfoldable pub insert_all :
      EcgHeader HeaderId Header → State Header dag → List (Header × List ℕ) → State Header dag
  insert_all ecg st [] = st
  insert_all ecg st ((h, os) ∷ hs) = insert_all ecg (insert_header ecg st h os).0 hs

  pub new-IsWellFormed : (ecg : EcgHeader HeaderId Header) → IsWellFormed ecg (new Header dag)
  unfolding new get contains knows is_root
  new-IsWellFormed ecg = record {
    weight = λ p i e. absurd (cc);
    entry = λ k p e. absurd (ground (arith, dag.node_weight-empty k));
    named = λ p i e. absurd (cc);
    parents_known = λ p i e. absurd (cc);
    edges = λ p i e. absurd (cc);
    depths = λ p i e. absurd (cc);
    roots = λ p. refl;
    tip = λ p. (λ c. absurd (cc), λ t. absurd (ground (arith, t.known)));
  }

  -- Whatever headers are inserted one after the other, in whatever order, the state stays well formed.
  pub insert_all-IsWellFormed :
      (ecg : EcgHeader HeaderId Header) (st : State Header dag) (hs : List (Header × List ℕ))
      → IsWellFormed ecg st
      → IsWellFormed ecg (insert_all ecg st hs)
  unfolding insert_all
  insert_all-IsWellFormed ecg st [] wf = wf
  insert_all-IsWellFormed ecg st ((h, os) ∷ hs) wf =
      insert_all-IsWellFormed ecg (insert_header ecg st h os).0 hs
        (insert_header-IsWellFormed ecg st wf h os)
