-- ===== src/Store/Run.antt =====
-- ossa-core/src/store/mod.rs: the operations of a store, and the commands that its task serves, one at a
-- time, in `run_handler`.
use ossa.Prelude.{
  ℕ, ◌+◌, ◌*◌, ◌/◌, ◌%◌, ◌^◌, true, false, Option, none, some, List, [], ◌∷◌, ◌++◌, Run, done,
  panic, ◌>>=◌, ◌==◌, if◌then◌else◌, Ord, get, nat_ord,
}
use ossa.Util.Ranges.{Range}
use ossa.Store.Peers.{
  PeerInfo, is_known, insert_known_peer, incoming, outgoing, update_peer_to_initializing,
  update_peer_to_syncing,
}
use ossa.Store.Metadata.{MetadataHeader, block_size}
use ossa.Store.{
  OssaType, State, StateMachine, downloading_metadata, downloading_merkle,
  downloading_initial_state, syncing, StateUpdate, downloading, snapshot, update, accept_sync,
  request_store_sync, World,
}
use ossa.Store.Requests.{Rng, send, set_peers, send_sync_requests}
use ossa.Store.Serve.{
  store_id_of, handle_metadata_peer_request, handle_merkle_peer_request, handle_block_peer_request,
  handle_ecg_subscribe,
}
use ossa.Store.Operations.{apply_operation, handle_received_ecg_operations}
use ossa.Store.Download.{
  handle_received_metadata, handle_received_merkle_hashes, handle_received_initial_state_blocks,
}

-- the peers whose outgoing status is `Known`
unfoldable pub known_peers : List (ℕ × PeerInfo) → List ℕ
unfolding is_known
known_peers [] = []
known_peers ((peer, info) ∷ peers) =
    if is_known info.outgoing_status then peer ∷ known_peers peers else known_peers peers

-- those that the shared state has a channel for, with the channel
unfoldable pub with_channels : List (ℕ × ℕ) → List ℕ → List (ℕ × ℕ)
with_channels peer_states [] = []
with_channels peer_states (peer ∷ peers) = elim (get peer peer_states) [
  | none ↦ with_channels peer_states peers
  | some chan ↦ (peer, chan) ∷ with_channels peer_states peers
]

-- `iter().filter(|p| p.is_some()).count()`
unfoldable pub count_downloaded : List (Option (List ℕ)) → ℕ
count_downloaded [] = 0
count_downloaded (none ∷ blocks) = count_downloaded blocks
count_downloaded (some block ∷ blocks) = 1 + count_downloaded blocks

unfoldable pub percent_of : ℕ → ℕ → ℕ
percent_of downloaded initial_state_size =
    if initial_state_size == 0
    then 0
    else (100 * downloaded * block_size) % 2 ^ 64 / initial_state_size

module _ (ot : OssaType) where
  pub data StoreCommand : Type 0 where
    apply : (operation_header : ot.Header) → (operation_body : ot.Body) → StoreCommand
    subscribe_state : (send_state : ℕ) → StoreCommand

  -- Where a request may have to wait, `chan` is the channel that is made for the answer.
  pub data UntypedStoreCommand : Type 0 where
    register_peers : (peers : List ℕ) → UntypedStoreCommand
    sync_with_peer : (peer response_chan : ℕ) → UntypedStoreCommand
    register_outgoing_peer_syncing : (peer send_peer : ℕ) → UntypedStoreCommand
    register_incoming_peer_syncing : (peer : ℕ) → UntypedStoreCommand
    metadata_peer_request : (peer response_chan chan : ℕ) → UntypedStoreCommand
    merkle_peer_request :
        (peer : ℕ) → (request : List Range) → (response_chan chan : ℕ) → UntypedStoreCommand
    block_peer_request :
        (peer : ℕ) → (request : List Range) → (response_chan chan : ℕ) → UntypedStoreCommand
    received_metadata : (peer : ℕ) → MetadataHeader ot.N → UntypedStoreCommand
    received_merkle_hashes :
        (peer : ℕ) → (ranges : List Range) → (nodes : List ot.N) → UntypedStoreCommand
    received_initial_state_blocks :
        (peer : ℕ) → (ranges : List Range) → (blocks : List (Option (List ℕ))) → UntypedStoreCommand
    received_ecg_operations :
        (peer : ℕ) → (operations : List (ot.Header × List ℕ)) → UntypedStoreCommand
    subscribe_ecg :
        (peer : ℕ) → (tips : Option (List ot.HeaderId)) → (response_chan : ℕ) → UntypedStoreCommand

module _ {ot : OssaType} where
  -- `manage_peers`, from the map of the peers that are connected to their channels
  unfoldable pub request_peers : World ot → List (ℕ × ℕ) → Run (World ot)
  unfolding update_peer_to_initializing set_peers send store_id_of
  request_peers w [] = done w
  request_peers w ((peer, chan) ∷ peers) =
      update_peer_to_initializing outgoing peer w.store.peers >>= λ ps.
      (let w' = set_peers w ps in
        request_peers (send w' (request_store_sync chan (store_id_of w'.store.state_machine)))
          peers)

  unfoldable pub manage_peers : List (ℕ × ℕ) → World ot → Run (World ot)
  unfolding request_peers with_channels known_peers
  manage_peers peer_states w =
      request_peers w (with_channels peer_states (known_peers w.store.peers))

  unfoldable pub insert_known_peers : World ot → List ℕ → World ot
  unfolding insert_known_peer set_peers
  insert_known_peers w [] = w
  insert_known_peers w (peer ∷ peers) =
      insert_known_peers (set_peers w (insert_known_peer peer w.store.peers)) peers

  -- the answer to `SyncWithPeer`: whether a task is to be spawned
  unfoldable pub sync_with : World ot → ℕ → ℕ → Run (World ot)
  unfolding is_known update_peer_to_initializing set_peers send
  sync_with w peer response_chan = elim (get peer w.store.peers) [
    | none ↦ panic
    | some info ↦
        if is_known info.incoming_status
        then (update_peer_to_initializing incoming peer w.store.peers >>= λ ps.
            done (send (set_peers w ps) (accept_sync response_chan true)))
        else done (send w (accept_sync response_chan false))
  ]

  unfoldable pub state_update : StateMachine ot → StateUpdate ot
  unfolding count_downloaded percent_of
  state_update (downloading_metadata id) = downloading 0
  state_update (downloading_merkle metadata tree) = downloading 0
  state_update (downloading_initial_state metadata tree blocks) =
      downloading (percent_of (count_downloaded blocks) metadata.initial_state_size)
  state_update (syncing metadata tree bytes ecg_state decrypted) =
      snapshot decrypted.latest_state ecg_state

module _ {ot : OssaType} ⦃o : Ord ot.HeaderId⦄ where
  unfoldable pub run_command : World ot → StoreCommand ot → Run (World ot)
  unfolding apply_operation state_update send
  run_command w (apply header body) = apply_operation w header body
  run_command w (subscribe_state send_state) =
      let w' = send w (update send_state (state_update w.store.state_machine)) in
      done (record w' { listeners = w'.listeners ++ (send_state ∷ []) })

module _ {ot : OssaType} ⦃o : Ord ot.HeaderId⦄ ⦃n : Ord ot.N⦄ ⦃s : Ord ot.StoreId⦄ where
  unfoldable pub run_untyped :
      Rng → List (ℕ × ℕ) → World ot → UntypedStoreCommand ot → Run (World ot)
  unfolding insert_known_peers manage_peers sync_with insert_known_peer set_peers
      update_peer_to_syncing send_sync_requests handle_metadata_peer_request
      handle_merkle_peer_request handle_block_peer_request handle_received_metadata
      handle_received_merkle_hashes handle_received_initial_state_blocks
      handle_received_ecg_operations handle_ecg_subscribe
  run_untyped rng peer_states w (register_peers peers) =
      manage_peers peer_states (insert_known_peers w peers)
  run_untyped rng peer_states w (sync_with_peer peer response_chan) =
      sync_with (set_peers w (insert_known_peer peer w.store.peers)) peer response_chan
  run_untyped rng peer_states w (register_outgoing_peer_syncing peer send_peer) =
      update_peer_to_syncing outgoing (record { sender_peer = send_peer; is_outstanding = false })
        peer w.store.peers
      >>= λ peers. send_sync_requests rng (set_peers w peers)
  run_untyped rng peer_states w (register_incoming_peer_syncing peer) =
      update_peer_to_syncing incoming tt peer w.store.peers >>= λ peers. done (set_peers w peers)
  run_untyped rng peer_states w (metadata_peer_request peer response_chan chan) =
      done (handle_metadata_peer_request w peer response_chan chan)
  run_untyped rng peer_states w (merkle_peer_request peer request response_chan chan) =
      handle_merkle_peer_request w peer request response_chan chan
  run_untyped rng peer_states w (block_peer_request peer request response_chan chan) =
      handle_block_peer_request w peer request response_chan chan
  run_untyped rng peer_states w (received_metadata peer metadata) =
      handle_received_metadata w peer metadata >>= send_sync_requests rng
  run_untyped rng peer_states w (received_merkle_hashes peer ranges nodes) =
      handle_received_merkle_hashes w peer ranges nodes >>= send_sync_requests rng
  run_untyped rng peer_states w (received_initial_state_blocks peer ranges blocks) =
      handle_received_initial_state_blocks w peer ranges blocks >>= send_sync_requests rng
  run_untyped rng peer_states w (received_ecg_operations peer operations) =
      handle_received_ecg_operations w peer operations >>= send_sync_requests rng
  run_untyped rng peer_states w (subscribe_ecg peer tips response_chan) =
      done (handle_ecg_subscribe w peer tips response_chan)

-- a store that is to be downloaded
unfoldable pub new_downloading : (ot : OssaType) → ot.StoreId → State ot
new_downloading ot store_id = record {
  peers = [];
  state_machine = downloading_metadata store_id;
  metadata_subscribers = [];
  merkle_subscribers = [];
  block_subscribers = [];
  ecg_subscribers = [];
}

-- where `run_handler` starts
unfoldable pub start_handler : {ot : OssaType} → State ot → World ot
start_handler store = record { store = store; listeners = []; sent = [] }
