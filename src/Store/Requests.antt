-- ===== src/Store/Requests.antt =====
-- ossa-core/src/store/mod.rs: the requests that a store sends to its peers.
use ossa.Prelude.{
  ℕ, ◌+◌, Option, none, some, List, [], ◌∷◌, ◌++◌, map, length, take, chunks, Run, done, panic,
  ◌>>=◌, get, insert, nat_ord,
}
use ossa.Util.Ranges.{Range, compress_consecutive_into_ranges, collect}
use ossa.Merkle.{missing_indices}
use ossa.Store.Peers.{PeerInfo, ready_peers, mark_outstanding}
use ossa.Store.Metadata.{merkle_request_limit, block_request_limit}
use ossa.Store.{
  OssaType, StateMachine, downloading_metadata, downloading_merkle, downloading_initial_state,
  syncing, StoreSyncCommand, metadata_header_request, merkle_request, initial_state_block_request,
  ecg_sync_request, Event, command, World,
}

-- `thread_rng`, as `SliceRandom::shuffle` uses it: one for each call of `send_sync_requests`
pub record Rng : Type 0 where
  pub shuffle_peers : List ℕ → List ℕ
  pub shuffle_chunks : List (List ℕ) → List (List ℕ)

-- `compress_consecutive_into_ranges(indices).collect()`; the fuel is one round for each index and the end
unfoldable pub ranges_of : List ℕ → List Range
ranges_of indices = elim (collect (length indices + 1) (compress_consecutive_into_ranges indices)) [
  | none ↦ []
  | some ranges ↦ ranges
]

-- the indices of the blocks from one on that are missing
unfoldable pub needed_from : ℕ → List (Option (List ℕ)) → List ℕ
needed_from i [] = []
needed_from i (none ∷ blocks) = i ∷ needed_from (i + 1) blocks
needed_from i (some block ∷ blocks) = needed_from (i + 1) blocks

module _ {ot : OssaType} where
  unfoldable pub send : World ot → Event ot → World ot
  send w e = record w { sent = w.sent ++ (e ∷ []) }

  unfoldable pub set_peers : World ot → List (ℕ × PeerInfo) → World ot
  set_peers w peers = record w { store = record w.store { peers = peers } }

  -- `send_command` to a peer of the map
  unfoldable pub send_command : World ot → ℕ → StoreSyncCommand ot → Run (World ot)
  unfolding mark_outstanding send set_peers
  send_command w peer message = elim (get peer w.store.peers) [
    | none ↦ panic
    | some info ↦ mark_outstanding info.outgoing_status >>= λ (status, sender). done (
        send (set_peers w (insert peer (record info { outgoing_status = status }) w.store.peers))
          (command sender message))
  ]

  -- `peers.iter_mut().zip(messages)`: one message for each peer, up to the end of one of the lists
  unfoldable pub send_zip : World ot → List ℕ → List (StoreSyncCommand ot) → Run (World ot)
  unfolding send_command
  send_zip w [] messages = done w
  send_zip w (peer ∷ peers) [] = done w
  send_zip w (peer ∷ peers) (message ∷ messages) =
      send_command w peer message >>= λ w'. send_zip w' peers messages

  -- the requests, where something is needed
  unfoldable pub send_chunks :
      World ot → List ℕ → (List Range → StoreSyncCommand ot) → Rng → List (List ℕ) → Run (World ot)
  unfolding send_zip ranges_of
  send_chunks w peers request rng [] = panic
  send_chunks w peers request rng (c ∷ cs) =
      send_zip w peers (map (λ c. request (ranges_of c)) (rng.shuffle_chunks (c ∷ cs)))

  unfoldable pub request_from : World ot → List ℕ → Rng → StateMachine ot → Run (World ot)
  unfolding send_zip send_chunks missing_indices needed_from chunks
  request_from w peers rng (downloading_metadata id) =
      let first = take 1 peers in send_zip w first (map (λ p. metadata_header_request) first)
  request_from w peers rng (downloading_merkle metadata tree) =
      send_chunks w peers merkle_request rng (chunks merkle_request_limit (missing_indices tree))
  request_from w peers rng (downloading_initial_state metadata tree blocks) =
      send_chunks w peers initial_state_block_request rng
        (chunks block_request_limit (needed_from 0 blocks))
  request_from w peers rng (syncing metadata tree bytes ecg_state decrypted) =
      send_zip w peers (map (λ p. ecg_sync_request ecg_state) peers)

  unfoldable pub send_sync_requests : Rng → World ot → Run (World ot)
  unfolding ready_peers request_from
  send_sync_requests rng w =
      request_from w (rng.shuffle_peers (ready_peers w.store.peers)) rng w.store.state_machine
