-- ===== src/Store/Integrity/Operations.antt =====
-- About the operations that ossa-core/src/store/mod.rs takes from a peer or from the application.
use ossa.Prelude.{ℕ, refl, some, List, [], ◌∷◌, Ends, Ends-after, Ends-bind, Ends-if, Ord, nat_ord}
use ossa.Ecg.StableDag.{Dag}
use ossa.Ecg.{EcgHeader, insert_header}
use ossa.Ecg as Ecg
use ossa.Ecg.WellFormed.{IsWellFormed}
use ossa.Ecg.Acyclic.{IsAcyclic, insert_header-IsAcyclic}
use ossa.Ecg.Insert.{insert_header-IsWellFormed}
use ossa.Store.{
  OssaType, DecryptedState, StateMachine, downloading_metadata, downloading_merkle,
  downloading_initial_state, syncing, World,
}
use ossa.Store.Requests.{send}
use ossa.Store.Serve.{expect}
use ossa.Store.Download.{set_machine, update_listeners, ready}
use ossa.Store.Operations.{
  take_operation, take_operations, take_operations_in, handle_received_ecg_operations, apply_in,
  apply_operation,
}
use ossa.Store.Run.{StoreCommand, apply, subscribe_state, run_command}
use ossa.Store.Integrity.{IsStore}
use ossa.Store.Integrity.Kept.{Has, update_listeners-Has, ready-Has}
use ossa.Store.Integrity.Advance.{Holds, Holds-Has}

module _ {HeaderId Header : Type 0} ⦃o : Ord HeaderId⦄ {dag : Dag HeaderId}
    (ecg : EcgHeader HeaderId Header) where
  -- a graph as it has to be
  abbrev IsSound : Ecg.State Header dag → Type 0
  IsSound st = IsWellFormed ecg st × IsAcyclic ecg st

  inserted-IsSound :
      (st : Ecg.State Header dag) (header : Header) (raw : List ℕ)
      → IsSound st
      → IsSound (insert_header ecg st header raw).0
  inserted-IsSound st header raw (wf, ac) = (
    insert_header-IsWellFormed ecg st wf header raw,
    insert_header-IsAcyclic ecg st header raw wf ac,
  )

module _ {ot : OssaType} ⦃o : Ord ot.HeaderId⦄ where
  abbrev SoundPair : Ecg.State ot.Header ot.dag × DecryptedState ot → Type 0
  SoundPair (st, d) = IsSound ot.ecg st

  take_operations-SoundPair :
      (ops : List (ot.Header × List ℕ)) (st : Ecg.State ot.Header ot.dag) (d : DecryptedState ot)
      → IsSound ot.ecg st
      → Ends SoundPair (take_operations st d ops)
  unfolding take_operations take_operation
  take_operations-SoundPair [] st d s = s
  take_operations-SoundPair ((header, raw) ∷ ops) st d s =
      Ends-bind SoundPair SoundPair (take_operation st d header raw) _
        (Ends-after SoundPair (expect (ot.body_from_slice raw)) _
          (λ b. inserted-IsSound ot.ecg st header raw s))
        (λ (st', d') s'. take_operations-SoundPair ops st' d' s')

module _ {ot : OssaType} ⦃o : Ord ot.HeaderId⦄ ⦃n : Ord ot.N⦄ (id : ot.StoreId) where
  take_operations_in-Holds :
      (w : World ot) (peer : ℕ) (ops : List (ot.Header × List ℕ)) (m : StateMachine ot)
      → IsStore id m
      → Ends (Holds id) (take_operations_in w peer ops m)
  unfolding take_operations_in set_machine
  take_operations_in-Holds w peer ops (downloading_metadata own) s = tt
  take_operations_in-Holds w peer ops (downloading_merkle d t) s = tt
  take_operations_in-Holds w peer ops (downloading_initial_state d t b) s = tt
  take_operations_in-Holds w peer ops (syncing d t b e x)
        (sid, c, blocks, count, mk, len, valid, whole, wf, ac) =
      Ends-bind SoundPair (Holds id) (take_operations e x ops) _
        (take_operations-SoundPair ops e x (wf, ac))
        (λ (e', x') (wf', ac').
          let m = syncing d t b e' x' in
          let s : IsStore {ot = ot} id m =
            (sid, c, blocks, count, mk, len, valid, whole, wf', ac') in
          Holds-Has id m s (update_listeners (set_machine w m) x'.latest_state e' (some peer))
            (update_listeners-Has m (set_machine w m) x'.latest_state e' (some peer) refl))

  pub handle_received_ecg_operations-Holds :
      (w : World ot) (peer : ℕ) (ops : List (ot.Header × List ℕ))
      → Holds id w
      → Ends (Holds id) (handle_received_ecg_operations w peer ops)
  unfolding handle_received_ecg_operations
  handle_received_ecg_operations-Holds w peer ops s =
      Ends-bind (Has w.store.state_machine) (Holds id) (ready w peer) _
        (ready-Has w.store.state_machine w peer refl)
        (λ w' h.
          take_operations_in-Holds w' peer ops w'.store.state_machine
            (Holds-Has id w.store.state_machine s w' h))

  apply_in-Holds :
      (w : World ot) (header : ot.Header) (body : ot.Body) (m : StateMachine ot)
      → Has m w
      → IsStore id m
      → Ends (Holds id) (apply_in w header body m)
  unfolding apply_in set_machine
  apply_in-Holds w header body (downloading_metadata own) h s =
      Holds-Has id (downloading_metadata own) s w h
  apply_in-Holds w header body (downloading_merkle d t) h s =
      Holds-Has id (downloading_merkle d t) s w h
  apply_in-Holds w header body (downloading_initial_state d t b) h s =
      Holds-Has id (downloading_initial_state d t b) s w h
  apply_in-Holds w header body (syncing d t b e x) h
        (sid, c, blocks, count, mk, len, valid, whole, wf, ac) =
      let (wf', ac') = inserted-IsSound ot.ecg e header (ot.body_to_vec body) (wf, ac) in
      Ends-if (Holds id) (insert_header ot.ecg e header (ot.body_to_vec body)).1 _ _
        (sid, c, blocks, count, mk, len, valid, whole, wf', ac') tt

  -- A command of the application leaves a store as it has to be.
  pub run_command-Holds :
      (w : World ot) (c : StoreCommand ot) → Holds id w → Ends (Holds id) (run_command w c)
  unfolding run_command apply_operation send
  run_command-Holds w (apply header body) s =
      apply_in-Holds w header body w.store.state_machine refl s
  run_command-Holds w (subscribe_state send_state) s = s
