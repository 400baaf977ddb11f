-- ===== src/Store/Download.antt =====
-- ossa-core/src/store/mod.rs: what a store does with the answers of its peers: the header, then the Merkle
-- tree, then the blocks of the initial state, then the operations.
use ossa.Prelude.{
  ℕ, Bool, true, false, Option, none, some, List, [], ◌∷◌, ◌++◌, length, get_elem?, set, replicate,
  Run, done, panic, ◌>>=◌, leb, ◌==◌, if◌then◌else◌, Ord, insert, nat_ord,
}
use ossa.Util.Ranges.{Range, flatten}
use ossa.Merkle.{Hash, Potential, new_with_capacity, try_complete, set_potential}
use ossa.Merkle.Leaves.{validate_chunk}
use ossa.Ecg.{EcgHeader, insert_header}
use ossa.Ecg as Ecg
use ossa.Store.Peers.{update_outgoing_peer_to_ready}
use ossa.Store.Metadata.{MetadataHeader, validate_store_id, block_count}
use ossa.Store.{
  OssaType, StateMachine, downloading_metadata, downloading_merkle, downloading_initial_state,
  syncing, update, snapshot, notify_metadata, notify_merkle, notify_blocks, notify_ecg, World,
}
use ossa.Store.Requests.{send, set_peers}
use ossa.Store.Serve.{
  expect, handle_merkle_peer_request_helper, handle_block_peer_request_helper, store_id_of,
}

-- `into_iter().flatten().flatten().collect()` of the blocks
unfoldable pub concat_blocks : List (Option (List ℕ)) → List ℕ
concat_blocks [] = []
concat_blocks (none ∷ blocks) = concat_blocks blocks
concat_blocks (some block ∷ blocks) = block ++ concat_blocks blocks

-- `iter().any(|o| o.is_none())`
unfoldable pub any_missing : List (Option (List ℕ)) → Bool
any_missing [] = false
any_missing (none ∷ blocks) = true
any_missing (some block ∷ blocks) = any_missing blocks

unfoldable pub is_from : ℕ → Option ℕ → Bool
is_from sub_peer none = false
is_from sub_peer (some peer) = sub_peer == peer

module _ {N : Type 0} ⦃o : Ord N⦄ (hash : Hash N) where
  -- `zip` of the indices and the hashes
  unfoldable pub set_hashes : List (Potential N) → List ℕ → List N → Run (List (Potential N))
  unfolding set_potential
  set_hashes tree [] hashes = done tree
  set_hashes tree (i ∷ is) [] = done tree
  set_hashes tree (i ∷ is) (h ∷ hashes) =
      set_potential hash tree i h >>= λ r. set_hashes r.1 is hashes

  -- one block of a peer
  unfoldable pub set_block :
      List N → List (Option (List ℕ)) → ℕ → Option (List ℕ) → Run (List (Option (List ℕ)))
  unfolding validate_chunk
  set_block tree blocks i none = done blocks
  set_block tree blocks i (some their_block) = elim (get_elem? blocks i) [
    | none ↦ panic
    | some (some block) ↦ done blocks
    | some none ↦ validate_chunk hash tree i their_block >>= λ valid.
        done (if valid then set blocks i (some their_block) else blocks)
  ]

  unfoldable pub set_blocks :
      List N
      → List (Option (List ℕ))
      → List ℕ
      → List (Option (List ℕ))
      → Run (List (Option (List ℕ)))
  unfolding set_block
  set_blocks tree blocks [] theirs = done blocks
  set_blocks tree blocks (i ∷ is) [] = done blocks
  set_blocks tree blocks (i ∷ is) (b ∷ theirs) =
      set_block tree blocks i b >>= λ blocks'. set_blocks tree blocks' is theirs

module _ {ot : OssaType} where
  unfoldable pub set_machine : World ot → StateMachine ot → World ot
  set_machine w m = record w { store = record w.store { state_machine = m } }

  unfoldable pub send_snapshots : World ot → List ℕ → ot.T → Ecg.State ot.Header ot.dag → World ot
  unfolding send
  send_snapshots w [] latest_state ecg_state = w
  send_snapshots w (l ∷ ls) latest_state ecg_state =
      send_snapshots (send w (update l (snapshot latest_state ecg_state))) ls latest_state ecg_state

  unfoldable pub add_back : World ot → ℕ → ℕ → World ot
  add_back w sub_peer sub = record w {
    store = record w.store { ecg_subscribers = insert sub_peer sub w.store.ecg_subscribers };
  }

  -- one subscriber, and whether the change is from its peer
  unfoldable pub notify_subscriber : World ot → ℕ → ℕ → Ecg.State ot.Header ot.dag → Bool → World ot
  unfolding send add_back
  notify_subscriber w sub_peer sub ecg_state true = add_back w sub_peer sub
  notify_subscriber w sub_peer sub ecg_state false = send w (notify_ecg sub ecg_state)

  unfoldable pub notify_subscribers :
      World ot → List (ℕ × ℕ) → Ecg.State ot.Header ot.dag → Option ℕ → World ot
  unfolding notify_subscriber is_from
  notify_subscribers w [] ecg_state from_peer = w
  notify_subscribers w ((sub_peer, sub) ∷ subs) ecg_state from_peer =
      notify_subscribers (notify_subscriber w sub_peer sub ecg_state (is_from sub_peer from_peer))
        subs ecg_state from_peer

  unfoldable pub update_listeners :
      World ot → ot.T → Ecg.State ot.Header ot.dag → Option ℕ → World ot
  unfolding send_snapshots notify_subscribers
  update_listeners w latest_state ecg_state from_peer =
      let w' = send_snapshots w w.listeners latest_state ecg_state in
      let subs = w'.store.ecg_subscribers in
      notify_subscribers (record w' { store = record w'.store { ecg_subscribers = [] } }) subs
        ecg_state from_peer

  unfoldable pub send_blocks :
      World ot → StateMachine ot → List (ℕ × (List Range × ℕ)) → Run (World ot)
  unfolding handle_block_peer_request_helper expect send
  send_blocks w m [] = done w
  send_blocks w m ((sub_peer, (block_ids, sub)) ∷ subs) =
      handle_block_peer_request_helper m block_ids >>= λ blocks.
      expect blocks >>= λ msg. send_blocks (send w (notify_blocks sub (some msg))) m subs

  -- the state machine after the last block; a state that does not parse is a `todo!`
  unfoldable pub start_syncing :
      StateMachine ot → Run (ot.T × Ecg.State ot.Header ot.dag × StateMachine ot)
  unfolding concat_blocks
  start_syncing (downloading_metadata id) = panic
  start_syncing (downloading_merkle metadata tree) = panic
  start_syncing (syncing metadata tree bytes ecg_state decrypted) = panic
  start_syncing (downloading_initial_state metadata tree blocks) =
      expect (ot.state_from_slice (concat_blocks blocks)) >>= λ latest_state. done (
        latest_state,
        Ecg.new ot.Header ot.dag,
        syncing metadata tree (concat_blocks blocks) (Ecg.new ot.Header ot.dag)
            (record { latest_state = latest_state; latest_headers = [] }),
      )

  unfoldable pub update_state_to_syncing : World ot → ℕ → Run (World ot)
  unfolding start_syncing set_machine update_listeners send_blocks
  update_state_to_syncing w peer =
      start_syncing w.store.state_machine >>= λ (latest_state, ecg_state, m).
      (let w' = update_listeners (set_machine w m) latest_state ecg_state (some peer) in
        let subs = w'.store.block_subscribers in
        send_blocks (record w' { store = record w'.store { block_subscribers = [] } }) m subs)

  unfoldable pub send_hashes :
      World ot → List ot.N → ℕ → List (ℕ × (List Range × ℕ)) → Run (World ot)
  unfolding handle_merkle_peer_request_helper send
  send_hashes w tree peer [] = done w
  send_hashes w tree peer ((sub_peer, (node_ids, sub)) ∷ subs) =
      (if sub_peer == peer
        then done none
        else (handle_merkle_peer_request_helper tree node_ids >>= λ hashes. done (some hashes)))
      >>= λ msg. send_hashes (send w (notify_merkle sub msg)) tree peer subs

  -- what follows a complete tree
  unfoldable pub start_initial_state :
      World ot → ℕ → MetadataHeader ot.N → Option (List ot.N) → Run (World ot)
  unfolding set_machine send_hashes update_state_to_syncing block_count
  start_initial_state w peer metadata none = done w
  start_initial_state w peer metadata (some tree) =
      let w' =
        set_machine w
          (downloading_initial_state metadata tree (replicate (block_count metadata) none)) in
      let subs = w'.store.merkle_subscribers in
      send_hashes (record w' { store = record w'.store { merkle_subscribers = [] } }) tree peer subs
      >>= λ w''.
          if metadata.initial_state_size == 0 then update_state_to_syncing w'' peer else done w''

  -- `update_state_to_downloading_initial_state`, in the state that is the last argument
  unfoldable pub complete_in : World ot → ℕ → StateMachine ot → Run (World ot)
  unfolding start_initial_state try_complete
  complete_in w peer (downloading_merkle metadata tree) =
      start_initial_state w peer metadata (try_complete tree)
  complete_in w peer (downloading_metadata id) = panic
  complete_in w peer (downloading_initial_state metadata tree blocks) = panic
  complete_in w peer (syncing metadata tree bytes ecg_state decrypted) = panic

  unfoldable pub update_state_to_downloading_initial_state : World ot → ℕ → Run (World ot)
  unfolding complete_in
  update_state_to_downloading_initial_state w peer = complete_in w peer w.store.state_machine

  unfoldable pub send_metadata : World ot → MetadataHeader ot.N → ℕ → List (ℕ × ℕ) → World ot
  unfolding send
  send_metadata w metadata peer [] = w
  send_metadata w metadata peer ((sub_peer, sub) ∷ subs) =
      send_metadata
        (send w (notify_metadata sub (if sub_peer == peer then none else some metadata))) metadata
        peer subs

  unfoldable pub ready : World ot → ℕ → Run (World ot)
  unfolding update_outgoing_peer_to_ready set_peers
  ready w peer =
      update_outgoing_peer_to_ready peer w.store.peers >>= λ peers. done (set_peers w peers)

  unfoldable pub start_merkle : World ot → ℕ → MetadataHeader ot.N → Run (World ot)
  unfolding set_machine
  start_merkle w peer metadata =
      new_with_capacity metadata.merkle_root (block_count metadata) >>= λ tree.
      (let w' = set_machine w (downloading_merkle metadata tree) in
        let subs = w'.store.metadata_subscribers in
        let w'' =
          send_metadata (record w' { store = record w'.store { metadata_subscribers = [] } })
            metadata peer subs in
        if leb (block_count metadata) 1
        then update_state_to_downloading_initial_state w'' peer
        else done w'')

  unfoldable pub handle_received_metadata :
      ⦃s : Ord ot.StoreId⦄ → World ot → ℕ → MetadataHeader ot.N → Run (World ot)
  unfolding ready validate_store_id store_id_of start_merkle
  handle_received_metadata w peer metadata = ready w peer >>= λ w'.
      if validate_store_id ot.hash ot.into metadata (store_id_of w'.store.state_machine)
      then start_merkle w' peer metadata
      else done w'

module _ {ot : OssaType} ⦃n : Ord ot.N⦄ where
  unfoldable pub take_hashes : World ot → ℕ → List ℕ → List ot.N → StateMachine ot → Run (World ot)
  unfolding set_hashes set_machine update_state_to_downloading_initial_state
  take_hashes w peer ids hashes (downloading_merkle metadata tree) =
      set_hashes ot.hash tree ids hashes >>= λ tree'.
      update_state_to_downloading_initial_state (set_machine w (downloading_merkle metadata tree'))
        peer
  take_hashes w peer ids hashes (downloading_metadata id) = done w
  take_hashes w peer ids hashes (downloading_initial_state metadata tree blocks) = done w
  take_hashes w peer ids hashes (syncing metadata tree bytes ecg_state decrypted) = done w

  unfoldable pub handle_received_merkle_hashes :
      World ot → ℕ → List Range → List ot.N → Run (World ot)
  unfolding ready flatten take_hashes
  handle_received_merkle_hashes w peer node_ids their_node_hashes = ready w peer >>= λ w'.
      if length (flatten node_ids) == length their_node_hashes
      then take_hashes w' peer (flatten node_ids) their_node_hashes w'.store.state_machine
      else done w'

  unfoldable pub take_blocks :
      World ot → ℕ → List ℕ → List (Option (List ℕ)) → StateMachine ot → Run (World ot)
  unfolding set_blocks set_machine any_missing update_state_to_syncing
  take_blocks w peer ids theirs (downloading_initial_state metadata tree blocks) =
      set_blocks ot.hash tree blocks ids theirs >>= λ blocks'.
      (let w' = set_machine w (downloading_initial_state metadata tree blocks') in
        if any_missing blocks' then done w' else update_state_to_syncing w' peer)
  take_blocks w peer ids theirs (downloading_metadata id) = done w
  take_blocks w peer ids theirs (downloading_merkle metadata tree) = done w
  take_blocks w peer ids theirs (syncing metadata tree bytes ecg_state decrypted) = done w

  unfoldable pub handle_received_initial_state_blocks :
      World ot → ℕ → List Range → List (Option (List ℕ)) → Run (World ot)
  unfolding ready flatten take_blocks
  handle_received_initial_state_blocks w peer block_ids their_blocks = ready w peer >>= λ w'.
      if length (flatten block_ids) == length their_blocks
      then take_blocks w' peer (flatten block_ids) their_blocks w'.store.state_machine
      else done w'
