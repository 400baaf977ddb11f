-- ===== src/Store.antt =====
-- ossa-core/src/store/mod.rs: the state of a store, and the messages of the task that owns it.
pub mod Peers
pub mod Metadata
pub mod Requests
pub mod Serve
pub mod Download
pub mod Operations
pub mod Run
pub mod Integrity
pub mod Percent
pub mod Asking
pub mod Create
pub mod Created
pub mod Listeners
pub mod Again
pub mod Blocks
pub mod Transfer
mod Tests
use ossa.Prelude.{ℕ, Bool, Option, List, Ord}
use ossa.Util.Ranges.{Range}
use ossa.Merkle.{Hash, Potential}
use ossa.Ecg.StableDag.{Dag}
use ossa.Ecg.{EcgHeader}
use ossa.Ecg as Ecg
use ossa.Store.Peers.{PeerInfo}
use ossa.Store.Metadata.{MetadataHeader}

-- `OssaType`, and the types and traits that a store takes from the application: a CRDT `T` with its
-- operations, the headers of the graph, and `serde_cbor` for the state and for bodies of operations
pub record OssaType : Type 1 where
  pub StoreId : Type 0
  pub HeaderId : Type 0
  pub Header : Type 0
  pub N : Type 0
  pub T : Type 0
  pub Body : Type 0
  pub Op : Type 0
  pub CausalState : Type 0
  pub hash : Hash N
  pub into : N → StoreId
  pub dag : Dag HeaderId
  pub ecg : EcgHeader HeaderId Header
  pub to_causal_state : Ecg.State Header dag → CausalState
  pub apply : T → CausalState → Op → T
  pub operations : Body → HeaderId → List Op
  pub state_from_slice : List ℕ → Option T
  pub body_from_slice : List ℕ → Option Body
  pub body_to_vec : Body → List ℕ

module _ (ot : OssaType) where
  pub record DecryptedState : Type 0 where
    pub latest_state : ot.T
    pub latest_headers : List ot.HeaderId

  pub data StateMachine : Type 0 where
    downloading_metadata : (store_id : ot.StoreId) → StateMachine
    downloading_merkle :
        (metadata : MetadataHeader ot.N)
        → (partial_merkle_tree : List (Potential ot.N)) → StateMachine
    downloading_initial_state :
        (metadata : MetadataHeader ot.N)
        → (merkle_tree : List ot.N) → (initial_state : List (Option (List ℕ))) → StateMachine
    syncing :
        (metadata : MetadataHeader ot.N)
        → (merkle_tree : List ot.N) → (initial_state : List ℕ)
        → (ecg_state : Ecg.State ot.Header ot.dag) → (decrypted_state : DecryptedState)
        → StateMachine

  pub record State : Type 0 where
    pub peers : List (ℕ × PeerInfo)
    pub state_machine : StateMachine
    pub metadata_subscribers : List (ℕ × ℕ)
    pub merkle_subscribers : List (ℕ × (List Range × ℕ))
    pub block_subscribers : List (ℕ × (List Range × ℕ))
    pub ecg_subscribers : List (ℕ × ℕ)

  -- `StoreSyncCommand` of ossa-core/src/protocol/store_peer/v0.rs
  pub data StoreSyncCommand : Type 0 where
    metadata_header_request : StoreSyncCommand
    merkle_request : List Range → StoreSyncCommand
    initial_state_block_request : List Range → StoreSyncCommand
    ecg_sync_request : Ecg.State ot.Header ot.dag → StoreSyncCommand

  pub data StateUpdate : Type 0 where
    downloading : (percent : ℕ) → StateUpdate
    snapshot : ot.T → Ecg.State ot.Header ot.dag → StateUpdate

  -- `HandlePeerResponse`: the answer, or the channel on which it will come
  pub data HandlePeerResponse (A : Type 0) : Type 0 where
    ok : A → HandlePeerResponse A
    err : ℕ → HandlePeerResponse A

  -- what the task sends, each with the channel that it goes to
  pub data Event : Type 0 where
    command : ℕ → StoreSyncCommand → Event
    update : ℕ → StateUpdate → Event
    respond_metadata : ℕ → HandlePeerResponse (MetadataHeader ot.N) → Event
    respond_merkle : ℕ → HandlePeerResponse (List ot.N) → Event
    respond_blocks : ℕ → HandlePeerResponse (List (Option (List ℕ))) → Event
    notify_metadata : ℕ → Option (MetadataHeader ot.N) → Event
    notify_merkle : ℕ → Option (List ot.N) → Event
    notify_blocks : ℕ → Option (List (Option (List ℕ))) → Event
    notify_ecg : ℕ → Ecg.State ot.Header ot.dag → Event
    accept_sync : ℕ → Bool → Event
    request_store_sync : ℕ → ot.StoreId → Event

  -- the local variables of `run_handler`, and what has been sent, oldest first
  pub record World : Type 0 where
    pub store : State
    pub listeners : List ℕ
    pub sent : List Event
