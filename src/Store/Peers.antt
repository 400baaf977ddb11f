-- ===== src/Store/Peers.antt =====
-- ossa-core/src/store/mod.rs: the peers that share a store. The map of peers is part of the store's state;
-- a device is a number, which stands for its key, and so is the sending end of a channel.
use ossa.Prelude.{
  ℕ, Bool, true, false, not, none, some, List, [], ◌∷◌, Run, done, panic, ◌>>=◌, get, insert,
  if◌then◌else◌, nat_ord,
}

pub data PeerStatus (A : Type 0) : Type 0 where
  known : PeerStatus A
  initializing : PeerStatus A
  syncing : A → PeerStatus A

pub record OutgoingPeerStatus : Type 0 where
  pub sender_peer : ℕ
  pub is_outstanding : Bool

pub record PeerInfo : Type 0 where
  pub incoming_status : PeerStatus (Unit {0})
  pub outgoing_status : PeerStatus OutgoingPeerStatus

unfoldable pub is_known : {A : Type 0} → PeerStatus A → Bool
is_known known = true
is_known initializing = false
is_known (syncing s) = false

unfoldable pub is_idle : PeerStatus OutgoingPeerStatus → Bool
is_idle known = false
is_idle initializing = false
is_idle (syncing s) = not s.is_outstanding

unfoldable pub is_ready_for_sync : PeerInfo → Bool
unfolding is_idle
is_ready_for_sync info = is_idle info.outgoing_status

unfoldable pub insert_known_peer : ℕ → List (ℕ × PeerInfo) → List (ℕ × PeerInfo)
insert_known_peer peer peers = elim (get peer peers) [
  | none ↦ insert peer (record { incoming_status = known; outgoing_status = known }) peers
  | some info ↦ peers
]

-- a `direction_lambda`, by which a function reads and writes one of the two statuses
pub record Direction (A : Type 0) : Type 0 where
  pub status : PeerInfo → PeerStatus A
  pub with_status : PeerInfo → PeerStatus A → PeerInfo

abbrev pub incoming : Direction (Unit {0})
incoming = record {
  status = λ info. info.incoming_status;
  with_status = λ info status. record info { incoming_status = status };
}

abbrev pub outgoing : Direction OutgoingPeerStatus
outgoing = record {
  status = λ info. info.outgoing_status;
  with_status = λ info status. record info { outgoing_status = status };
}

module _ {A : Type 0} where
  -- the status of a peer that is now being initialized, and of one that now syncs
  unfoldable pub to_initializing : PeerStatus A → Run (PeerStatus A)
  unfolding is_known
  to_initializing status = if is_known status then done initializing else panic

  unfoldable pub to_syncing : A → PeerStatus A → Run (PeerStatus A)
  to_syncing sender_m known = panic
  to_syncing sender_m initializing = done (syncing sender_m)
  to_syncing sender_m (syncing s) = panic

  -- `peers.get_mut(peer)`, and a write to one status of what it finds
  unfoldable pub update_status :
      Direction A
      → (PeerStatus A → Run (PeerStatus A))
      → ℕ
      → List (ℕ × PeerInfo)
      → Run (List (ℕ × PeerInfo))
  update_status direction f peer peers = elim (get peer peers) [
    | none ↦ panic
    | some info ↦
        f (direction.status info) >>= λ s. done (insert peer (direction.with_status info s) peers)
  ]

  unfoldable pub update_peer_to_initializing :
      Direction A → ℕ → List (ℕ × PeerInfo) → Run (List (ℕ × PeerInfo))
  unfolding update_status to_initializing
  update_peer_to_initializing direction peer peers =
      update_status direction to_initializing peer peers

  unfoldable pub update_peer_to_syncing :
      Direction A → A → ℕ → List (ℕ × PeerInfo) → Run (List (ℕ × PeerInfo))
  unfolding update_status to_syncing
  update_peer_to_syncing direction sender_m peer peers =
      update_status direction (to_syncing sender_m) peer peers

unfoldable pub to_ready : PeerStatus OutgoingPeerStatus → Run (PeerStatus OutgoingPeerStatus)
to_ready known = panic
to_ready initializing = panic
to_ready (syncing s) = done (syncing (record s { is_outstanding = false }))

unfoldable pub update_outgoing_peer_to_ready : ℕ → List (ℕ × PeerInfo) → Run (List (ℕ × PeerInfo))
unfolding update_status to_ready
update_outgoing_peer_to_ready peer peers = update_status outgoing to_ready peer peers

-- the peers to which a request can be sent, each by its key in the map
unfoldable pub ready_peers : List (ℕ × PeerInfo) → List ℕ
unfolding is_ready_for_sync
ready_peers [] = []
ready_peers ((peer, info) ∷ peers) =
    if is_ready_for_sync info then peer ∷ ready_peers peers else ready_peers peers

-- `send_command`, for the status of a peer: what it becomes, and the channel to send on
unfoldable pub mark_outstanding :
    PeerStatus OutgoingPeerStatus → Run (PeerStatus OutgoingPeerStatus × ℕ)
mark_outstanding known = panic
mark_outstanding initializing = panic
mark_outstanding (syncing s) = done (syncing (record s { is_outstanding = true }), s.sender_peer)
