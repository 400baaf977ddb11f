-- ===== src/Store/Operations.antt =====
-- ossa-core/src/store/mod.rs: the operations that a store takes from a peer or from its own application.
use ossa.Prelude.{ℕ, none, some, List, [], ◌∷◌, Run, done, panic, ◌>>=◌, if◌then◌else◌, Ord}
use ossa.Ecg.{EcgHeader, insert_header}
use ossa.Ecg as Ecg
use ossa.Store.{
  OssaType, DecryptedState, StateMachine, downloading_metadata, downloading_merkle,
  downloading_initial_state, syncing, World,
}
use ossa.Store.Serve.{expect}
use ossa.Store.Download.{set_machine, update_listeners, ready}

-- the loop of `apply_operations`
unfoldable pub apply_all :
    {T CausalState Op : Type 0} → (T → CausalState → Op → T) → T → CausalState → List Op → T
apply_all apply s causal [] = s
apply_all apply s causal (op ∷ ops) = apply_all apply (apply s causal op) causal ops

module _ {ot : OssaType} where
  unfoldable pub apply_operations :
      DecryptedState ot → Ecg.State ot.Header ot.dag → ot.Header → ot.Body → DecryptedState ot
  unfolding apply_all
  apply_operations decrypted ecg_state header body = record decrypted {
    latest_state =
        apply_all ot.apply decrypted.latest_state (ot.to_causal_state ecg_state)
          (ot.operations body (ot.ecg.get_header_id header));
  }

module _ {ot : OssaType} ⦃o : Ord ot.HeaderId⦄ where
  -- one operation of a peer; one that does not parse panics
  unfoldable pub take_operation :
      Ecg.State ot.Header ot.dag
      → DecryptedState ot
      → ot.Header
      → List ℕ
      → Run (Ecg.State ot.Header ot.dag × DecryptedState ot)
  unfolding expect insert_header apply_operations
  take_operation ecg_state decrypted header raw_operations =
      expect (ot.body_from_slice raw_operations) >>= λ operations.
      (let (ecg_state', success) = insert_header ot.ecg ecg_state header raw_operations in
        done (
          ecg_state',
          (if success then apply_operations decrypted ecg_state' header operations else decrypted),
        ))

  unfoldable pub take_operations :
      Ecg.State ot.Header ot.dag
      → DecryptedState ot
      → List (ot.Header × List ℕ)
      → Run (Ecg.State ot.Header ot.dag × DecryptedState ot)
  unfolding take_operation
  take_operations ecg_state decrypted [] = done (ecg_state, decrypted)
  take_operations ecg_state decrypted ((header, raw) ∷ operations) =
      take_operation ecg_state decrypted header raw >>= λ (ecg_state', decrypted').
      take_operations ecg_state' decrypted' operations

  -- `handle_received_ecg_operations`, in the state that is the last argument
  unfoldable pub take_operations_in :
      World ot → ℕ → List (ot.Header × List ℕ) → StateMachine ot → Run (World ot)
  unfolding take_operations set_machine update_listeners
  take_operations_in w peer operations (syncing metadata tree bytes ecg_state decrypted) =
      take_operations ecg_state decrypted operations >>= λ (ecg_state', decrypted'). done (
        update_listeners (set_machine w (syncing metadata tree bytes ecg_state' decrypted'))
          decrypted'.latest_state ecg_state' (some peer))
  take_operations_in w peer operations (downloading_metadata id) = panic
  take_operations_in w peer operations (downloading_merkle metadata tree) = panic
  take_operations_in w peer operations (downloading_initial_state metadata tree blocks) = panic

  unfoldable pub handle_received_ecg_operations :
      World ot → ℕ → List (ot.Header × List ℕ) → Run (World ot)
  unfolding ready take_operations_in
  handle_received_ecg_operations w peer operations =
      ready w peer >>= λ w'. take_operations_in w' peer operations w'.store.state_machine

  -- `StoreCommand::Apply`, in the state that is the last argument; a header that is not inserted is a
  -- `todo!`, and a store that does not sync leaves the operation out
  unfoldable pub apply_in : World ot → ot.Header → ot.Body → StateMachine ot → Run (World ot)
  unfolding insert_header apply_operations update_listeners set_machine
  apply_in w header body (syncing metadata tree bytes ecg_state decrypted) =
      let (ecg_state', success) = insert_header ot.ecg ecg_state header (ot.body_to_vec body) in
      let decrypted' = apply_operations decrypted ecg_state' header body in
      if success
      then done (
          set_machine (update_listeners w decrypted'.latest_state ecg_state' none)
            (syncing metadata tree bytes ecg_state' decrypted'))
      else panic
  apply_in w header body (downloading_metadata id) = done w
  apply_in w header body (downloading_merkle metadata tree) = done w
  apply_in w header body (downloading_initial_state metadata tree blocks) = done w

  unfoldable pub apply_operation : World ot → ot.Header → ot.Body → Run (World ot)
  unfolding apply_in
  apply_operation w header body = apply_in w header body w.store.state_machine
