-- ===== src/Store/Tests/Created.antt =====
-- A new store whose initial state is three bytes, in one block.
use ossa.Prelude.{◌≡◌, refl, [], ◌∷◌, Run, done, panic, get, insert, nat_ord, chunks}
use ossa.Merkle.{combine, is_leaf, node_count_for_leaf_count}
use ossa.Merkle.Leaves.{bottom_layer}
use ossa.Merkle.Build.{
  from_chunks, from_hashes, from_leaves, fill_layers, fill_nodes, node_hash, next_leaf, unwrap_node,
  collect_nodes,
}
use ossa.Store.{State}
use ossa.Store.Create.{new_syncing}
use ossa.Store.Created.{new_syncing-IsStore, new_syncing-Reaches}
use ossa.Store.Transfer.{HandsOn, new_syncing-HandsOn}
use ossa.Store.Serve.{store_id_of}
use ossa.Store.{World}
use ossa.Store.Run.{register_peers, register_outgoing_peer_syncing, run_untyped, start_handler}
use ossa.Store.Integrity.{IsStore}
use ossa.Store.Integrity.Reachable.{untyped, Reaches, here, next}
use ossa.Store.Tests.{sample, start, run, ended, rng}

-- a store made here, and the task that starts with it
abbrev created_with : Run (State sample) → State sample
created_with (done st) = st
created_with panic = start.store

abbrev created : State sample
created = created_with (new_syncing sample [] (9 ∷ []) (1 ∷ 2 ∷ 3 ∷ []) (1 ∷ 2 ∷ 3 ∷ []))

created_store : new_syncing sample [] (9 ∷ []) (1 ∷ 2 ∷ 3 ∷ []) (1 ∷ 2 ∷ 3 ∷ []) ≡ done created
unfolding new_syncing from_chunks from_hashes from_leaves node_count_for_leaf_count fill_layers
    bottom_layer fill_nodes node_hash is_leaf next_leaf unwrap_node collect_nodes combine chunks
created_store = refl

new_syncing-IsStore_example :
    (st : State sample) × (new_syncing sample [] (9 ∷ []) (1 ∷ 2 ∷ 3 ∷ []) (1 ∷ 2 ∷ 3 ∷ [])
      ≡ done st)
    × IsStore {ot = sample} (store_id_of st.state_machine) st.state_machine
new_syncing-IsStore_example =
    new_syncing-IsStore sample [] (9 ∷ []) (1 ∷ 2 ∷ 3 ∷ []) (1 ∷ 2 ∷ 3 ∷ []) (λ e. cc)

-- the store meets a peer, and asks it for operations
abbrev met : World sample
met = ended (run (start_handler created) (register_peers (7 ∷ [])))

abbrev synced : World sample
synced = ended (run met (register_outgoing_peer_syncing 7 71))

sync_steps :
    (run (start_handler created) (register_peers (7 ∷ [])) ≡ done met)
    × (run met (register_outgoing_peer_syncing 7 71) ≡ done synced)
unfolding run_untyped start_handler get insert new_syncing from_chunks from_hashes from_leaves
    node_count_for_leaf_count fill_layers bottom_layer fill_nodes node_hash is_leaf next_leaf
    unwrap_node collect_nodes combine chunks
sync_steps = (refl, refl)

synced_reached : Reaches (start_handler created) synced
synced_reached =
    let (a, b) = sync_steps in
    next
      (next here
        (untyped (start_handler created) met rng ((7, 70) ∷ []) (register_peers (7 ∷ [])) a))
      (untyped met synced rng ((7, 70) ∷ []) (register_outgoing_peer_syncing 7 71) b)

new_syncing-Reaches_example :
    IsStore {ot = sample} (store_id_of created.state_machine) synced.store.state_machine
new_syncing-Reaches_example =
    new_syncing-Reaches sample [] (9 ∷ []) (1 ∷ 2 ∷ 3 ∷ []) (1 ∷ 2 ∷ 3 ∷ []) created synced
      (λ e. cc) created_store synced_reached

new_syncing-HandsOn_example : HandsOn sample (1 ∷ 2 ∷ 3 ∷ []) created.state_machine
new_syncing-HandsOn_example =
    new_syncing-HandsOn sample [] (9 ∷ []) (1 ∷ 2 ∷ 3 ∷ []) (1 ∷ 2 ∷ 3 ∷ []) created (λ e. cc) refl
      created_store
