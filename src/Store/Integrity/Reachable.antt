-- ===== src/Store/Integrity/Reachable.antt =====
-- About `run_handler` of ossa-core/src/store/mod.rs: what holds of a store after any commands.
use ossa.Prelude.{
  ℕ, ◌≡◌, refl, inl, inr, false, Option-cases, List, [], ◌∷◌, Run, done, ◌>>=◌, Ends, Ends-after,
  Ends-bind, Ends-imp, Ends-if, Ends-done, Ord, get, nat_ord,
}
use ossa.Store.Peers.{
  is_known, incoming, outgoing, update_peer_to_initializing, update_peer_to_syncing,
}
use ossa.Store.{OssaType, StateMachine, World}
use ossa.Store.Requests.{Rng, send, set_peers, send_sync_requests}
use ossa.Store.Serve.{handle_metadata_peer_request, handle_ecg_subscribe}
use ossa.Store.Run.{
  StoreCommand, UntypedStoreCommand, register_peers, sync_with_peer, register_outgoing_peer_syncing,
  register_incoming_peer_syncing, metadata_peer_request, merkle_peer_request, block_peer_request,
  received_metadata, received_merkle_hashes, received_initial_state_blocks, received_ecg_operations,
  subscribe_ecg, request_peers, manage_peers, insert_known_peers, sync_with, run_command,
  run_untyped, new_downloading, start_handler,
}
use ossa.Store.Integrity.{IsStore}
use ossa.Store.Integrity.Kept.{
  Has, send_sync_requests-Has, handle_metadata_peer_request-Has, handle_merkle_peer_request-Has,
  handle_block_peer_request-Has, handle_ecg_subscribe-Has,
}
use ossa.Store.Integrity.Advance.{Holds, Holds-Has}
use ossa.Store.Integrity.Operations.{run_command-Holds, handle_received_ecg_operations-Holds}
use ossa.Store.Integrity.Download.{
  handle_received_metadata-Holds, handle_received_merkle_hashes-Holds,
  handle_received_initial_state_blocks-Holds,
}

module _ {ot : OssaType} (m : StateMachine ot) where
  request_peers-Has :
      (peers : List (ℕ × ℕ)) (w : World ot) → Has m w → Ends (Has m) (request_peers w peers)
  unfolding request_peers set_peers send
  request_peers-Has [] w h = h
  request_peers-Has ((peer, chan) ∷ peers) w h =
      Ends-after (Has m) (update_peer_to_initializing outgoing peer w.store.peers) _
        (λ ps. request_peers-Has peers _ h)

  insert_known_peers-Has :
      (peers : List ℕ) (w : World ot) → Has m w → Has m (insert_known_peers w peers)
  unfolding insert_known_peers set_peers
  insert_known_peers-Has [] w h = h
  insert_known_peers-Has (peer ∷ peers) w h = insert_known_peers-Has peers _ h

  sync_with-Has : (w : World ot) (peer chan : ℕ) → Has m w → Ends (Has m) (sync_with w peer chan)
  unfolding sync_with set_peers send
  sync_with-Has w peer chan h = elim (Option-cases (get peer w.store.peers)) [
    | inl e ↦ rw (e, sync_with) tt
    | inr (info, e) ↦
        rw (e, sync_with)
          (Ends-if (Has m) (is_known info.incoming_status) _ _
            (Ends-after (Has m) (update_peer_to_initializing incoming peer w.store.peers) _
              (λ ps. h))
            h)
  ]

module _ {ot : OssaType} ⦃o : Ord ot.HeaderId⦄ ⦃n : Ord ot.N⦄ ⦃d : Ord ot.StoreId⦄
    (id : ot.StoreId) where
  -- the requests after a handler
  requested :
      (rng : Rng) (r : Run (World ot))
      → Ends (Holds id) r
      → Ends (Holds id) (r >>= send_sync_requests rng)
  requested rng r p = Ends-bind (Holds id) (Holds id) r (send_sync_requests rng) p (λ w s.
      Ends-imp (Has w.store.state_machine) (Holds id) (send_sync_requests rng w)
        (Holds-Has id w.store.state_machine s)
        (send_sync_requests-Has w.store.state_machine rng w refl))

  kept :
      (w : World ot) (r : Run (World ot))
      → Holds id w
      → Ends (Has w.store.state_machine) r
      → Ends (Holds id) r
  kept w r s =
      Ends-imp (Has w.store.state_machine) (Holds id) r (Holds-Has id w.store.state_machine s)

  -- A command of another task leaves a store as it has to be.
  pub run_untyped-Holds :
      (rng : Rng) (peer_states : List (ℕ × ℕ)) (w : World ot) (c : UntypedStoreCommand ot)
      → Holds id w
      → Ends (Holds id) (run_untyped rng peer_states w c)
  unfolding run_untyped manage_peers set_peers
  run_untyped-Holds rng ps w (register_peers peers) s = kept w _ s (
      request_peers-Has w.store.state_machine _ (insert_known_peers w peers)
        (insert_known_peers-Has w.store.state_machine peers w refl))
  run_untyped-Holds rng ps w (sync_with_peer peer chan) s =
      kept w _ s (sync_with-Has w.store.state_machine _ peer chan refl)
  run_untyped-Holds rng ps w (register_outgoing_peer_syncing peer send_peer) s = kept w _ s (
      Ends-after (Has w.store.state_machine)
        (update_peer_to_syncing outgoing
          (record { sender_peer = send_peer; is_outstanding = false }) peer w.store.peers)
        _ (λ peers. send_sync_requests-Has w.store.state_machine rng (set_peers w peers) refl))
  run_untyped-Holds rng ps w (register_incoming_peer_syncing peer) s = kept w _ s (
      Ends-after (Has w.store.state_machine) (update_peer_to_syncing incoming tt peer w.store.peers)
        _ (λ peers. refl))
  run_untyped-Holds rng ps w (metadata_peer_request peer r c) s =
      kept w (done (handle_metadata_peer_request w peer r c)) s
        (handle_metadata_peer_request-Has w.store.state_machine w peer r c refl)
  run_untyped-Holds rng ps w (merkle_peer_request peer ids r c) s =
      kept w _ s (handle_merkle_peer_request-Has w.store.state_machine w peer ids r c refl)
  run_untyped-Holds rng ps w (block_peer_request peer ids r c) s =
      kept w _ s (handle_block_peer_request-Has w.store.state_machine w peer ids r c refl)
  run_untyped-Holds rng ps w (received_metadata peer metadata) s =
      requested rng _ (handle_received_metadata-Holds id w peer metadata s)
  run_untyped-Holds rng ps w (received_merkle_hashes peer ids hashes) s =
      requested rng _ (handle_received_merkle_hashes-Holds id w peer ids hashes s)
  run_untyped-Holds rng ps w (received_initial_state_blocks peer ids blocks) s =
      requested rng _ (handle_received_initial_state_blocks-Holds id w peer ids blocks s)
  run_untyped-Holds rng ps w (received_ecg_operations peer ops) s =
      requested rng _ (handle_received_ecg_operations-Holds id w peer ops s)
  run_untyped-Holds rng ps w (subscribe_ecg peer tips chan) s =
      kept w (done (handle_ecg_subscribe w peer tips chan)) s
        (handle_ecg_subscribe-Has w.store.state_machine w peer tips chan refl)

module _ {ot : OssaType} ⦃o : Ord ot.HeaderId⦄ ⦃n : Ord ot.N⦄ ⦃d : Ord ot.StoreId⦄ where
  -- one round of the loop of `run_handler`, which serves a command of either queue
  pub data Step : World ot → World ot → Type 0 where
    typed : (w w' : World ot) (c : StoreCommand ot) → run_command w c ≡ done w' → Step w w'
    untyped :
        (w w' : World ot) (rng : Rng) (peer_states : List (ℕ × ℕ)) (c : UntypedStoreCommand ot)
        → run_untyped rng peer_states w c ≡ done w'
        → Step w w'

  pub data Reaches (start : World ot) : World ot → Type 0 where
    here : Reaches start start
    next : {w w' : World ot} → Reaches start w → Step w w' → Reaches start w'

  Step-Holds : (id : ot.StoreId) {w w' : World ot} → Step w w' → Holds id w → Holds id w'
  Step-Holds id (typed w w' c e) s =
      Ends-done (Holds id) (run_command w c) w' (run_command-Holds id w c s) e
  Step-Holds id (untyped w w' rng ps c e) s =
      Ends-done (Holds id) (run_untyped rng ps w c) w' (run_untyped-Holds id rng ps w c s) e

  -- What holds of a store at the start holds of it after any commands.
  pub Reaches-keeps :
      (id : ot.StoreId) (start w : World ot)
      → IsStore id start.store.state_machine
      → Reaches start w
      → IsStore id w.store.state_machine
  Reaches-keeps id start w s here = s
  Reaches-keeps id start w s (next r t) = Step-Holds id t (Reaches-keeps id start _ s r)

  -- A store that starts as one to download is at any time as it has to be, whatever commands its task
  -- serves, in whatever order, and whatever the peers send.
  pub Reaches-IsStore :
      (id : ot.StoreId) (w : World ot)
      → Reaches (start_handler (new_downloading ot id)) w
      → IsStore id w.store.state_machine
  unfolding start_handler new_downloading
  Reaches-IsStore id w r = Reaches-keeps id (start_handler (new_downloading ot id)) w refl r
