-- ===== src/Store/Asking/Whole.antt =====
-- About `send_sync_requests` of ossa-core/src/store/mod.rs: whom a store asks, and for what.
use mathlib.Core.Path.{subst}
use ossa.Prelude.{
  ℕ, zero, suc, ◌≤◌, ◌≡◌, ◌≢◌, refl, sym, ◌∙◌, ap, true, Option, none, some, List, [], ◌∷◌, map,
  length, take, get_elem?, chunks, All, All-imp, Run, done, contains, count, count-contains,
  IsAscending, compare_refl, nat_ord, arith,
}
use ossa.Util.Ranges.{Range, flatten}
use ossa.Merkle.{Potential, missing_indices}
use ossa.Merkle.Missing.{is_missing, contains-missing_indices}
use ossa.Store.Peers.{PeerInfo, OutgoingPeerStatus, ready_peers}
use ossa.Store.{
  OssaType, StateMachine, downloading_metadata, downloading_merkle, downloading_initial_state,
  syncing, StoreSyncCommand, metadata_header_request, merkle_request, initial_state_block_request,
  ecg_sync_request, World,
}
use ossa.Store.Requests.{
  Rng, ranges_of, needed_from, send_zip, send_chunks, request_from, send_sync_requests,
}
use ossa.Store.Asking.{
  IsReady, AreReady, ids, Asked, ready_peers-IsReady, count_ready-le, send_zip-Asked,
}
use ossa.Store.Asking.Chunks.{
  IsChunk, chunks-IsChunk, chunks_some, flatten-ranges_of, needed_from-missing,
}

-- what the documentation of `shuffle` says: the items are the same
pub record IsShuffle (rng : Rng) : Type 1 where
  pub peers : (ps : List ℕ) (p : ℕ) → count p (rng.shuffle_peers ps) ≡ count p ps
  pub chunks : (cs : List (List ℕ)) (P : List ℕ → Type 0) → All P cs → All P (rng.shuffle_chunks cs)

-- the statuses of some ready peers
statuses :
    (peers : List (ℕ × PeerInfo)) (ps : List ℕ)
    → ((p : ℕ) → contains p ps ≡ true → (s : OutgoingPeerStatus) × IsReady peers p s)
    → (all : List (ℕ × OutgoingPeerStatus)) × (ids all ≡ ps) × AreReady peers all
unfolding contains
statuses peers [] f = ([], refl, tt)
statuses peers (p ∷ ps) f =
    let (s, r) = f p (ground (arith, compare_refl p)) in
    let (all, e, rs) = statuses peers ps (λ q h. f q (ground arith)) in
    ((p, s) ∷ all, ap (◌∷◌ p) e, (r, rs))

merkle_fits :
    {N : Type 0} (tree : List (Potential N)) (c : List ℕ)
    → IsChunk 16 (missing_indices tree) c
    → (length (flatten (ranges_of c)) ≤ 16)
      × ((i : ℕ) → contains i (flatten (ranges_of c)) ≡ true → is_missing (get_elem? tree i) ≡ true)
merkle_fits tree c (l, h) =
    let e = flatten-ranges_of c in
    (
      omega (arith, ap length e),
      λ i g. sym (contains-missing_indices i tree) ∙ h i (sym (ap (contains i) e) ∙ g),
    )

blocks_fit :
    (blocks : List (Option (List ℕ))) (c : List ℕ)
    → IsChunk 16 (needed_from 0 blocks) c
    → (length (flatten (ranges_of c)) ≤ 16)
      × ((i : ℕ) → contains i (flatten (ranges_of c)) ≡ true → get_elem? blocks i ≡ some none)
blocks_fit blocks c (l, h) =
    let e = flatten-ranges_of c in
    (
      omega (arith, ap length e),
      λ i g.
          let (_, f) = needed_from-missing blocks 0 i (h i (sym (ap (contains i) e) ∙ g)) in
          ap (get_elem? blocks) (omega arith) ∙ f,
    )

count-take : (n : ℕ) (ps : List ℕ) (p : ℕ) → count p (take n ps) ≤ count p ps
count-take zero ps p = omega arith
count-take (suc n) [] p = omega arith
count-take (suc n) (q ∷ ps) p = let ih = count-take n ps p in ground arith

module _ {ot : OssaType} where
  -- something is missing, as the states of a download promise
  abbrev pub Needs : StateMachine ot → Type 0
  Needs (downloading_metadata id) = Unit
  Needs (downloading_merkle metadata tree) = missing_indices tree ≢ []
  Needs (downloading_initial_state metadata tree blocks) = needed_from 0 blocks ≢ []
  Needs (syncing metadata tree bytes ecg_state decrypted) = Unit

  -- a message that fits the state: it asks for up to 16 nodes or blocks, and only for missing ones
  abbrev pub Fits : StateMachine ot → StoreSyncCommand ot → Type 0
  Fits (downloading_metadata id) c = c ≡ metadata_header_request
  Fits (downloading_merkle metadata tree) c =
      (ranges : List Range) × (c ≡ merkle_request ranges)
      × (length (flatten ranges) ≤ 16)
      × ((i : ℕ) → contains i (flatten ranges) ≡ true → is_missing (get_elem? tree i) ≡ true)
  Fits (downloading_initial_state metadata tree blocks) c =
      (ranges : List Range) × (c ≡ initial_state_block_request ranges)
      × (length (flatten ranges) ≤ 16)
      × ((i : ℕ) → contains i (flatten ranges) ≡ true → get_elem? blocks i ≡ some none)
  Fits (syncing metadata tree bytes ecg_state decrypted) c = c ≡ ecg_sync_request ecg_state

  -- the messages that `request_from` hands to the peers
  abbrev Requests : World ot → List ℕ → StateMachine ot → Run (World ot) → Type 0
  Requests w ps m r =
      (peers : List ℕ) × (messages : List (StoreSyncCommand ot)) × (r ≡ send_zip w peers messages)
      × ((p : ℕ) → count p peers ≤ count p ps)
      × All (Fits m) messages

  same_for_all :
      (c : StoreSyncCommand ot) (P : StoreSyncCommand ot → Type 0) (ps : List ℕ)
      → P c
      → All P (map (λ p. c) ps)
  same_for_all c P [] h = tt
  same_for_all c P (p ∷ ps) h = (h, same_for_all c P ps h)

  All-map :
      (f : List ℕ → StoreSyncCommand ot) (P : StoreSyncCommand ot → Type 0) (cs : List (List ℕ))
      → All (λ c. P (f c)) cs
      → All P (map f cs)
  All-map f P [] h = tt
  All-map f P (c ∷ cs) (h, hs) = (h, All-map f P cs hs)

  send_chunks-messages :
      (w : World ot) (ps : List ℕ) (rng : Rng) (request : List Range → StoreSyncCommand ot)
      (P : StoreSyncCommand ot → Type 0) (n : ℕ) (xs : List ℕ)
      → IsShuffle rng
      → xs ≢ []
      → ((c : List ℕ) → IsChunk n xs c → P (request (ranges_of c)))
      → (messages : List (StoreSyncCommand ot)) × (send_chunks w ps request rng (chunks n xs)
          ≡ send_zip w ps messages)
        × All P messages
  unfolding send_chunks
  send_chunks-messages w ps rng request P n [] k some_left f = absurd (some_left refl)
  send_chunks-messages w ps rng request P n (x ∷ xs) k some_left f =
      let (c, cs, e) = chunks_some n x xs in
      let all : All (IsChunk n (x ∷ xs)) (c ∷ cs) =
        subst (All (IsChunk n (x ∷ xs))) e (chunks-IsChunk n (x ∷ xs)) in
      let fit : All (λ c. P (request (ranges_of c))) (c ∷ cs) = All-imp f (c ∷ cs) all in
      (
        map (λ c. request (ranges_of c)) (rng.shuffle_chunks (c ∷ cs)),
        ap (send_chunks w ps request rng) e,
        All-map (λ c. request (ranges_of c)) P (rng.shuffle_chunks (c ∷ cs))
            (k.chunks (c ∷ cs) (λ c. P (request (ranges_of c))) fit),
      )

  request_from-Requests :
      (w : World ot) (ps : List ℕ) (rng : Rng) (m : StateMachine ot)
      → IsShuffle rng
      → Needs m
      → Requests w ps m (request_from w ps rng m)
  unfolding request_from send_chunks
  request_from-Requests w ps rng (downloading_metadata id) k n = (
    take 1 ps,
    map (λ p. metadata_header_request) (take 1 ps),
    refl,
    count-take 1 ps,
    same_for_all metadata_header_request (Fits (downloading_metadata id)) (take 1 ps) refl,
  )
  request_from-Requests w ps rng (downloading_merkle d tree) k n =
      let m = downloading_merkle d tree in
      let (messages, e, fit) =
        send_chunks-messages w ps rng merkle_request (Fits m) 16 (missing_indices tree) k n
          (λ c h. let (l, g) = merkle_fits tree c h in (ranges_of c, refl, l, g)) in
      (ps, messages, e, λ p. omega arith, fit)
  request_from-Requests w ps rng (downloading_initial_state d t blocks) k n =
      let m = downloading_initial_state d t blocks in
      let (messages, e, fit) =
        send_chunks-messages w ps rng initial_state_block_request (Fits m) 16 (needed_from 0 blocks)
          k n (λ c h. let (l, g) = blocks_fit blocks c h in (ranges_of c, refl, l, g)) in
      (ps, messages, e, λ p. omega arith, fit)
  request_from-Requests w ps rng (syncing d t b e x) k n = (
    ps,
    map (λ p. ecg_sync_request e) ps,
    refl,
    λ p. omega arith,
    same_for_all (ecg_sync_request e) (Fits (syncing d t b e x)) ps refl,
  )

  -- A store in a state that something is missing in, with a map of peers, sends its requests without a
  -- panic. Those asked were ready and are busy after, each of them is asked once, all others stay as they
  -- were, and so does the state. Every message fits the state: the metadata, up to 16 nodes or blocks that
  -- are all missing, or the operations beyond the store's own graph.
  pub send_sync_requests-Asked :
      (rng : Rng) (w : World ot)
      → IsShuffle rng
      → IsAscending w.store.peers
      → Needs w.store.state_machine
      → (w' : World ot) × (asked : List (ℕ × OutgoingPeerStatus)) × (messages : List
          (StoreSyncCommand ot))
        × (send_sync_requests rng w ≡ done w')
        × Asked w w' asked messages
        × All (Fits w.store.state_machine) messages
  unfolding send_sync_requests
  send_sync_requests-Asked rng w k a n =
      let ps = rng.shuffle_peers (ready_peers w.store.peers) in
      let (peers, messages, e, fewer, fit) =
        request_from-Requests w ps rng w.store.state_machine k n in
      let listed : (p : ℕ)
          → contains p peers ≡ true
          → contains p (ready_peers w.store.peers) ≡ true =
        λ p h. (count-contains p (ready_peers w.store.peers)).1 (
          let one = (count-contains p peers).0 h in
          omega (arith, fewer p, k.peers (ready_peers w.store.peers) p)) in
      let (all, same, ready) =
        statuses w.store.peers peers (λ p h. ready_peers-IsReady w.store.peers p a (listed p h)) in
      let once : (p : ℕ) → count p (ids all) ≤ 1 = λ p. omega (
        arith,
        ap (count p) same,
        fewer p,
        k.peers (ready_peers w.store.peers) p,
        count_ready-le w.store.peers p a,
      ) in
      let (w', f, asked) = send_zip-Asked all messages w ready once in
      (
        w',
        take (length messages) all,
        messages,
        e ∙ ap (λ l. send_zip w l messages) (sym same) ∙ f,
        asked,
        fit,
      )
