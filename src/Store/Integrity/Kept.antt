-- ===== src/Store/Integrity/Kept.antt =====
-- About ossa-core/src/store/mod.rs: what leaves the state machine of a store as it was.
use ossa.Prelude.{
  ℕ, ◌≡◌, inl, inr, Bool-cases, Option, none, some, Option-cases, List, [], ◌∷◌, Ends, Ends-after,
  Ends-bind, get, Ord, nat_ord,
}
use ossa.Util.Ranges.{Range}
use ossa.Ecg as Ecg
use ossa.Store.Peers.{mark_outstanding, update_outgoing_peer_to_ready}
use ossa.Store.Metadata.{MetadataHeader}
use ossa.Store.{
  OssaType, StateMachine, downloading_metadata, downloading_merkle, downloading_initial_state,
  syncing, StoreSyncCommand, merkle_request, initial_state_block_request, World,
}
use ossa.Store.Requests.{
  Rng, send, set_peers, send_command, send_zip, send_chunks, request_from, send_sync_requests,
}
use ossa.Store.Serve.{
  expect, handle_block_peer_request_helper, handle_merkle_peer_request_helper,
  handle_metadata_peer_request, merkle_tree_of, metadata_of, handle_merkle_peer_request,
  answer_blocks, handle_block_peer_request, subscribe_ecg, is_stale, subscribe_in,
  handle_ecg_subscribe,
}
use ossa.Store.Download.{
  is_from, add_back, notify_subscriber, send_snapshots, notify_subscribers, update_listeners,
  send_blocks, send_hashes, send_metadata, ready,
}

module _ {ot : OssaType} where
  -- a world with the state machine `m`
  abbrev pub Has : StateMachine ot → World ot → Type 0
  Has m w = w.store.state_machine ≡ m

  module _ (m : StateMachine ot) where
    pub send_snapshots-Has :
        (w : World ot) (ls : List ℕ) (t : ot.T) (e : Ecg.State ot.Header ot.dag)
        → Has m w
        → Has m (send_snapshots w ls t e)
    unfolding send_snapshots send
    send_snapshots-Has w [] t e h = h
    send_snapshots-Has w (l ∷ ls) t e h = send_snapshots-Has (send w _) ls t e h

    pub notify_subscribers-Has :
        (subs : List (ℕ × ℕ)) (w : World ot) (e : Ecg.State ot.Header ot.dag) (from_peer : Option ℕ)
        → Has m w
        → Has m (notify_subscribers w subs e from_peer)
    unfolding notify_subscribers notify_subscriber send add_back
    notify_subscribers-Has [] w e from_peer h = h
    notify_subscribers-Has ((sub_peer, sub) ∷ subs) w e from_peer h =
        notify_subscribers-Has subs _ e from_peer
          (elim (Bool-cases (is_from sub_peer from_peer)) [ inl b ↦ rw b h | inr b ↦ rw b h ])

    pub update_listeners-Has :
        (w : World ot) (t : ot.T) (e : Ecg.State ot.Header ot.dag) (from_peer : Option ℕ)
        → Has m w
        → Has m (update_listeners w t e from_peer)
    unfolding update_listeners
    update_listeners-Has w t e from_peer h =
        let w' = send_snapshots w w.listeners t e in
        notify_subscribers-Has w'.store.ecg_subscribers
          (record w' { store = record w'.store { ecg_subscribers = [] } }) e from_peer
          (send_snapshots-Has w w.listeners t e h)

    pub send_blocks-Has :
        (w : World ot) (k : StateMachine ot) (subs : List (ℕ × (List Range × ℕ)))
        → Has m w
        → Ends (Has m) (send_blocks w k subs)
    unfolding send_blocks send
    send_blocks-Has w k [] h = h
    send_blocks-Has w k ((p, (ids, sub)) ∷ subs) h =
        Ends-after (Has m) (handle_block_peer_request_helper k ids) _ (λ blocks.
          Ends-after (Has m) (expect blocks) _ (λ msg. send_blocks-Has (send w _) k subs h))

    pub send_hashes-Has :
        (w : World ot) (tree : List ot.N) (peer : ℕ) (subs : List (ℕ × (List Range × ℕ)))
        → Has m w
        → Ends (Has m) (send_hashes w tree peer subs)
    unfolding send_hashes send
    send_hashes-Has w tree peer [] h = h
    send_hashes-Has w tree peer ((p, (ids, sub)) ∷ subs) h =
        Ends-after (Has m) _ _ (λ msg. send_hashes-Has (send w _) tree peer subs h)

    pub send_metadata-Has :
        (w : World ot) (metadata : MetadataHeader ot.N) (peer : ℕ) (subs : List (ℕ × ℕ))
        → Has m w
        → Has m (send_metadata w metadata peer subs)
    unfolding send_metadata send
    send_metadata-Has w metadata peer [] h = h
    send_metadata-Has w metadata peer ((p, sub) ∷ subs) h =
        send_metadata-Has (send w _) metadata peer subs h

    pub ready-Has : (w : World ot) (peer : ℕ) → Has m w → Ends (Has m) (ready w peer)
    unfolding ready set_peers
    ready-Has w peer h =
        Ends-after (Has m) (update_outgoing_peer_to_ready peer w.store.peers) _ (λ ps. h)

    send_command-Has :
        (w : World ot) (peer : ℕ) (c : StoreSyncCommand ot)
        → Has m w
        → Ends (Has m) (send_command w peer c)
    unfolding send_command send set_peers
    send_command-Has w peer c h = elim (Option-cases (get peer w.store.peers)) [
      | inl e ↦ rw (e, send_command) tt
      | inr (info, e) ↦
          rw (e, send_command)
            (Ends-after (Has m) (mark_outstanding info.outgoing_status) _ (λ (s, k). h))
    ]

    send_zip-Has :
        (w : World ot) (peers : List ℕ) (cs : List (StoreSyncCommand ot))
        → Has m w
        → Ends (Has m) (send_zip w peers cs)
    unfolding send_zip
    send_zip-Has w [] cs h = h
    send_zip-Has w (p ∷ ps) [] h = h
    send_zip-Has w (p ∷ ps) (c ∷ cs) h =
        Ends-bind (Has m) (Has m) (send_command w p c) _ (send_command-Has w p c h)
          (λ w' h'. send_zip-Has w' ps cs h')

    send_chunks-Has :
        (w : World ot) (peers : List ℕ) (r : List Range → StoreSyncCommand ot) (rng : Rng)
        (cs : List (List ℕ))
        → Has m w
        → Ends (Has m) (send_chunks w peers r rng cs)
    unfolding send_chunks
    send_chunks-Has w peers r rng [] h = tt
    send_chunks-Has w peers r rng (c ∷ cs) h = send_zip-Has w peers _ h

    request_from-Has :
        (w : World ot) (peers : List ℕ) (rng : Rng) (k : StateMachine ot)
        → Has m w
        → Ends (Has m) (request_from w peers rng k)
    unfolding request_from
    request_from-Has w peers rng (downloading_metadata id) h = send_zip-Has w _ _ h
    request_from-Has w peers rng (downloading_merkle d t) h =
        send_chunks-Has w peers merkle_request rng _ h
    request_from-Has w peers rng (downloading_initial_state d t b) h =
        send_chunks-Has w peers initial_state_block_request rng _ h
    request_from-Has w peers rng (syncing d t b e s) h = send_zip-Has w peers _ h

    pub send_sync_requests-Has :
        (rng : Rng) (w : World ot) → Has m w → Ends (Has m) (send_sync_requests rng w)
    unfolding send_sync_requests
    send_sync_requests-Has rng w h = request_from-Has w _ rng w.store.state_machine h

    pub handle_metadata_peer_request-Has :
        (w : World ot) (peer r c : ℕ) → Has m w → Has m (handle_metadata_peer_request w peer r c)
    unfolding handle_metadata_peer_request send
    handle_metadata_peer_request-Has w peer r c h =
        elim (Option-cases (metadata_of w.store.state_machine)) [
          | inl e ↦ rw (e, handle_metadata_peer_request) h
          | inr (d, e) ↦ rw (e, handle_metadata_peer_request) h
        ]

    pub handle_merkle_peer_request-Has :
        (w : World ot) (peer : ℕ) (ids : List Range) (r c : ℕ)
        → Has m w
        → Ends (Has m) (handle_merkle_peer_request w peer ids r c)
    unfolding handle_merkle_peer_request send
    handle_merkle_peer_request-Has w peer ids r c h =
        elim (Option-cases (merkle_tree_of w.store.state_machine)) [
          | inl e ↦ rw (e, handle_merkle_peer_request) h
          | inr (t, e) ↦
              rw (e, handle_merkle_peer_request)
                (Ends-after (Has m) (handle_merkle_peer_request_helper t ids) _ (λ hashes. h))
        ]

    answer_blocks-Has :
        (w : World ot) (peer : ℕ) (ids : List Range) (r c : ℕ) (b : Option (List (Option (List ℕ))))
        → Has m w
        → Has m (answer_blocks w peer ids r c b)
    unfolding answer_blocks send
    answer_blocks-Has w peer ids r c none h = h
    answer_blocks-Has w peer ids r c (some b) h = h

    pub handle_block_peer_request-Has :
        (w : World ot) (peer : ℕ) (ids : List Range) (r c : ℕ)
        → Has m w
        → Ends (Has m) (handle_block_peer_request w peer ids r c)
    unfolding handle_block_peer_request
    handle_block_peer_request-Has w peer ids r c h =
        Ends-after (Has m) (handle_block_peer_request_helper w.store.state_machine ids) _
          (λ b. answer_blocks-Has w peer ids r c b h)

    subscribe_in-Has :
        ⦃o : Ord ot.HeaderId⦄ (w : World ot) (peer : ℕ) (tips : Option (List ot.HeaderId)) (c : ℕ)
        (k : StateMachine ot)
        → Has m w
        → Has m (subscribe_in w peer tips c k)
    unfolding subscribe_in subscribe_ecg send
    subscribe_in-Has w peer tips c (downloading_metadata id) h = h
    subscribe_in-Has w peer tips c (downloading_merkle d t) h = h
    subscribe_in-Has w peer tips c (downloading_initial_state d t b) h = h
    subscribe_in-Has w peer tips c (syncing d t b e s) h =
        elim (Bool-cases (is_stale e.tips tips)) [ inl b ↦ rw b h | inr b ↦ rw b h ]

    pub handle_ecg_subscribe-Has :
        ⦃o : Ord ot.HeaderId⦄ (w : World ot) (peer : ℕ) (tips : Option (List ot.HeaderId)) (c : ℕ)
        → Has m w
        → Has m (handle_ecg_subscribe w peer tips c)
    unfolding handle_ecg_subscribe
    handle_ecg_subscribe-Has w peer tips c h =
        subscribe_in-Has w peer tips c w.store.state_machine h
