-- ===== src/Store/Serve.antt =====
-- ossa-core/src/store/mod.rs: the answers to requests of peers. A request that has to wait gets the
-- receiving end of a new channel, whose number the caller gives.
use ossa.Prelude.{
  ℕ, ◌+◌, ◌*◌, ◌-◌, min, Bool, true, not, Option, none, some, List, [], ◌∷◌, length, take, drop,
  get_elem?, Run, done, panic, ◌>>=◌, leb, insert, if◌then◌else◌, Ord, set_eq, nat_ord,
}
use ossa.Util.Ranges.{Range, flatten}
use ossa.Merkle.Leaves.{get_node}
use ossa.Store.Metadata.{MetadataHeader, store_id, block_size}
use ossa.Store.Metadata as Metadata
use ossa.Store.{
  OssaType, StateMachine, downloading_metadata, downloading_merkle, downloading_initial_state,
  syncing, ok, err, respond_metadata, respond_merkle, respond_blocks, notify_ecg, World,
}
use ossa.Store.Requests.{send}

module _ {A : Type 0} where
  -- `expect`
  unfoldable pub expect : Option A → Run A
  expect none = panic
  expect (some a) = done a

-- `map` and `collect` of code that may panic
unfoldable pub map_run : {A B : Type 0} → (A → Run B) → List A → Run (List B)
map_run f [] = done []
map_run f (a ∷ as') = f a >>= λ b. map_run f as' >>= λ bs. done (b ∷ bs)

unfoldable pub handle_merkle_peer_request_helper : {N : Type 0} → List N → List Range → Run (List N)
unfolding map_run get_node expect flatten
handle_merkle_peer_request_helper tree node_ids =
    map_run (λ i. expect (get_node tree i)) (flatten node_ids)

unfoldable pub handle_peer_request_range_helper : {A : Type 0} → List A → List Range → Run (List A)
unfolding map_run expect flatten
handle_peer_request_range_helper slice ids = map_run (λ i. expect (get_elem? slice i)) (flatten ids)

-- `initial_state[start..end]` of a block; a slice that ends before its start panics. The products are
-- taken not to overflow.
unfoldable pub block_at : List ℕ → ℕ → Run (Option (List ℕ))
block_at bytes i =
    let start = i * block_size in
    let stop = min ((i + 1) * block_size) (length bytes) in
    if leb start stop then done (some (take (stop - start) (drop start bytes))) else panic

-- whether the tips that a peer gives are not ours; `tips()` is a set as theirs
unfoldable pub is_stale : {K : Type 0} ⦃o : Ord K⦄ → List K → Option (List K) → Bool
is_stale ours none = true
is_stale ours (some theirs) = not (set_eq ours theirs)

module _ {ot : OssaType} where
  unfoldable pub store_id_of : StateMachine ot → ot.StoreId
  unfolding store_id
  store_id_of (downloading_metadata id) = id
  store_id_of (downloading_merkle metadata tree) = Metadata.store_id ot.hash ot.into metadata
  store_id_of (downloading_initial_state metadata tree blocks) =
      Metadata.store_id ot.hash ot.into metadata
  store_id_of (syncing metadata tree bytes ecg_state decrypted) =
      Metadata.store_id ot.hash ot.into metadata

  unfoldable pub metadata_of : StateMachine ot → Option (MetadataHeader ot.N)
  metadata_of (downloading_metadata id) = none
  metadata_of (downloading_merkle metadata tree) = some metadata
  metadata_of (downloading_initial_state metadata tree blocks) = some metadata
  metadata_of (syncing metadata tree bytes ecg_state decrypted) = some metadata

  unfoldable pub merkle_tree_of : StateMachine ot → Option (List ot.N)
  merkle_tree_of (downloading_metadata id) = none
  merkle_tree_of (downloading_merkle metadata tree) = none
  merkle_tree_of (downloading_initial_state metadata tree blocks) = some tree
  merkle_tree_of (syncing metadata tree bytes ecg_state decrypted) = some tree

  unfoldable pub handle_block_peer_request_helper :
      StateMachine ot → List Range → Run (Option (List (Option (List ℕ))))
  unfolding handle_peer_request_range_helper map_run block_at flatten
  handle_block_peer_request_helper (downloading_metadata id) block_ids = done none
  handle_block_peer_request_helper (downloading_merkle metadata tree) block_ids = done none
  handle_block_peer_request_helper (downloading_initial_state metadata tree blocks) block_ids =
      handle_peer_request_range_helper blocks block_ids >>= λ found. done (some found)
  handle_block_peer_request_helper (syncing metadata tree bytes ecg_state decrypted) block_ids =
      map_run (block_at bytes) (flatten block_ids) >>= λ found. done (some found)

  unfoldable pub handle_metadata_peer_request : World ot → ℕ → ℕ → ℕ → World ot
  unfolding metadata_of send
  handle_metadata_peer_request w peer response_chan chan =
      elim (metadata_of w.store.state_machine) [
        | some metadata ↦ send w (respond_metadata response_chan (ok metadata))
        | none ↦
            let w' = send w (respond_metadata response_chan (err chan)) in
            record w' {
              store = record w'.store {
                metadata_subscribers = insert peer chan w'.store.metadata_subscribers;
              };
            }
      ]

  unfoldable pub handle_merkle_peer_request : World ot → ℕ → List Range → ℕ → ℕ → Run (World ot)
  unfolding merkle_tree_of handle_merkle_peer_request_helper send
  handle_merkle_peer_request w peer node_ids response_chan chan =
      elim (merkle_tree_of w.store.state_machine) [
        | some tree ↦ handle_merkle_peer_request_helper tree node_ids >>= λ hashes.
            done (send w (respond_merkle response_chan (ok hashes)))
        | none ↦
            let w' = send w (respond_merkle response_chan (err chan)) in
            done (record w' {
              store = record w'.store {
                merkle_subscribers = insert peer (node_ids, chan) w'.store.merkle_subscribers;
              };
            })
      ]

  unfoldable pub answer_blocks :
      World ot → ℕ → List Range → ℕ → ℕ → Option (List (Option (List ℕ))) → World ot
  unfolding send
  answer_blocks w peer block_ids response_chan chan (some blocks) =
      send w (respond_blocks response_chan (ok blocks))
  answer_blocks w peer block_ids response_chan chan none =
      let w' = send w (respond_blocks response_chan (err chan)) in
      record w' {
        store = record w'.store {
          block_subscribers = insert peer (block_ids, chan) w'.store.block_subscribers;
        };
      }

  unfoldable pub handle_block_peer_request : World ot → ℕ → List Range → ℕ → ℕ → Run (World ot)
  unfolding handle_block_peer_request_helper answer_blocks
  handle_block_peer_request w peer block_ids response_chan chan =
      handle_block_peer_request_helper w.store.state_machine block_ids >>= λ blocks.
      done (answer_blocks w peer block_ids response_chan chan blocks)

  unfoldable pub subscribe_ecg : World ot → ℕ → ℕ → World ot
  subscribe_ecg w peer response_chan = record w {
    store = record w.store { ecg_subscribers = insert peer response_chan w.store.ecg_subscribers };
  }

  -- `handle_ecg_subscribe`, in the state that is the last argument
  unfoldable pub subscribe_in :
      ⦃o : Ord ot.HeaderId⦄
      → World ot
      → ℕ
      → Option (List ot.HeaderId)
      → ℕ
      → StateMachine ot
      → World ot
  unfolding is_stale subscribe_ecg send
  subscribe_in w peer tips response_chan (syncing metadata tree bytes ecg_state decrypted) =
      if is_stale ecg_state.tips tips
      then send w (notify_ecg response_chan ecg_state)
      else subscribe_ecg w peer response_chan
  subscribe_in w peer tips response_chan (downloading_metadata id) =
      subscribe_ecg w peer response_chan
  subscribe_in w peer tips response_chan (downloading_merkle metadata tree) =
      subscribe_ecg w peer response_chan
  subscribe_in w peer tips response_chan (downloading_initial_state metadata tree blocks) =
      subscribe_ecg w peer response_chan

  unfoldable pub handle_ecg_subscribe :
      ⦃o : Ord ot.HeaderId⦄ → World ot → ℕ → Option (List ot.HeaderId) → ℕ → World ot
  unfolding subscribe_in
  handle_ecg_subscribe w peer tips response_chan =
      subscribe_in w peer tips response_chan w.store.state_machine
