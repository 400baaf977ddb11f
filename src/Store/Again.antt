-- ===== src/Store/Again.antt =====
-- About a header that a store gets a second time, of ossa-core/src/store/mod.rs.
use mathlib.Core.Path.{subst}
use ossa.Prelude.{
  ℕ, ◌≡◌, ◌≢◌, refl, sym, ◌∙◌, ap, Bool, true, false, Option, none, some, List, [], replicate, done,
  Ends, Ends-after, Ends-bind, Ends-if, Ends-done, leb, ◌==◌, Ord, arith,
}
use ossa.Merkle.{Potential, new_with_capacity, try_complete}
use ossa.Store.Metadata.{MetadataHeader, validate_store_id, block_count}
use ossa.Store.{
  OssaType, StateMachine, downloading_metadata, downloading_merkle, downloading_initial_state,
  syncing, World,
}
use ossa.Store.Serve.{store_id_of}
use ossa.Store.Download.{
  set_machine, start_initial_state, complete_in, update_state_to_downloading_initial_state,
  start_merkle, ready, send_metadata, handle_received_metadata,
}
use ossa.Store.Integrity.Kept.{Has, send_hashes-Has, send_metadata-Has, ready-Has}

module _ {ot : OssaType} where
  unfoldable pub is_syncing : StateMachine ot → Bool
  is_syncing (downloading_metadata id) = false
  is_syncing (downloading_merkle metadata tree) = false
  is_syncing (downloading_initial_state metadata tree blocks) = false
  is_syncing (syncing metadata tree bytes ecg_state decrypted) = true

  abbrev Downloads : World ot → Type 0
  Downloads w = is_syncing w.store.state_machine ≡ false

  of_Has : (m : StateMachine ot) (w : World ot) → is_syncing m ≡ false → Has m w → Downloads w
  of_Has m w e h = ap is_syncing h ∙ e

  start_initial_state-Downloads :
      (w : World ot) (peer : ℕ) (metadata : MetadataHeader ot.N) (tree : Option (List ot.N))
      → (metadata.initial_state_size == 0) ≡ false
      → Downloads w
      → Ends Downloads (start_initial_state w peer metadata tree)
  unfolding start_initial_state set_machine is_syncing
  start_initial_state-Downloads w peer metadata none z d = d
  start_initial_state-Downloads w peer metadata (some tree) z d =
      let m = downloading_initial_state metadata tree (replicate (block_count metadata) none) in
      let w' = set_machine w m in
      Ends-bind (Has m) Downloads _ _
        (send_hashes-Has m (record w' { store = record w'.store { merkle_subscribers = [] } }) tree
          peer w'.store.merkle_subscribers refl)
        (λ w'' h. rw z (of_Has m w'' refl h))

  update-Downloads :
      (w : World ot) (peer : ℕ) (metadata : MetadataHeader ot.N) (tree : List (Potential ot.N))
      → (metadata.initial_state_size == 0) ≡ false
      → Has (downloading_merkle metadata tree) w
      → Ends Downloads (update_state_to_downloading_initial_state w peer)
  unfolding update_state_to_downloading_initial_state complete_in is_syncing
  update-Downloads w peer metadata tree z h =
      subst (λ m. Ends Downloads (complete_in w peer m)) (sym h)
        (start_initial_state-Downloads w peer metadata (try_complete tree) z
          (of_Has (downloading_merkle metadata tree) w refl h))

  start_merkle-Downloads :
      (w : World ot) (peer : ℕ) (metadata : MetadataHeader ot.N)
      → (metadata.initial_state_size == 0) ≡ false
      → Ends Downloads (start_merkle w peer metadata)
  unfolding start_merkle set_machine is_syncing
  start_merkle-Downloads w peer metadata z =
      Ends-after Downloads (new_with_capacity metadata.merkle_root (block_count metadata)) _
        (λ tree.
          let m = downloading_merkle metadata tree in
          let w' = set_machine w m in
          let w'' = record w' { store = record w'.store { metadata_subscribers = [] } } in
          let h = send_metadata-Has m w'' metadata peer w'.store.metadata_subscribers refl in
          Ends-if Downloads (leb (block_count metadata) 1) _ _
            (update-Downloads _ peer metadata tree z h)
            (of_Has m (send_metadata w'' metadata peer w'.store.metadata_subscribers) refl h))

  -- A store that takes in a header with its own id, of a store with an initial state, downloads after that,
  -- whatever state it was in before: a store that was syncing is no longer.
  pub handle_received_metadata_again :
      ⦃s : Ord ot.StoreId⦄ (w w' : World ot) (peer : ℕ) (metadata : MetadataHeader ot.N)
      → validate_store_id ot.hash ot.into metadata (store_id_of w.store.state_machine) ≡ true
      → metadata.initial_state_size ≢ 0
      → handle_received_metadata w peer metadata ≡ done w'
      → is_syncing w'.store.state_machine ≡ false
  unfolding handle_received_metadata
  handle_received_metadata_again w w' peer metadata v z e =
      Ends-done Downloads (handle_received_metadata w peer metadata) w'
        (Ends-bind (Has w.store.state_machine) Downloads (ready w peer) _
          (ready-Has w.store.state_machine w peer refl)
          (λ w1 h.
            let v1 : validate_store_id ot.hash ot.into metadata (store_id_of w1.store.state_machine)
                ≡ true =
              ap (λ m. validate_store_id ot.hash ot.into metadata (store_id_of m)) h ∙ v in
            rw v1 (start_merkle-Downloads w1 peer metadata (ground arith))))
        e
