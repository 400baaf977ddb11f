-- ===== src/Store/Tests.antt =====
-- A store of one block, downloaded from one peer; the hash of some bytes is their digits.
mod Created
use ossa.Store.Peers.{PeerInfo, PeerStatus, OutgoingPeerStatus}
use ossa.Store.Percent.{state_update_percent}
use ossa.Store.Asking.{Asked}
use ossa.Store.Asking.Whole.{IsShuffle, Needs, Fits, send_sync_requests-Asked}
use ossa.Prelude.{
  none, map, ◌++◌, if◌then◌else◌, arith, false, ◌<◌, All, ℕ, ◌+◌, ◌*◌, ◌≡◌, refl, Option, some,
  List, [], ◌∷◌, Run, done, panic, get, insert, nat_ord, chunks,
}
use ossa.Util.Ranges.{Range, items}
use ossa.Util.Ranges as Ranges
use ossa.Merkle.{Hash, verified, absent, missing_indices, missing_from, is_none, new_with_capacity}
use ossa.Ecg.ListDag.{list_dag}
use ossa.Ecg.V0.{TestHeader, test_header}
use ossa.Ecg as Ecg
use ossa.Store.Metadata.{MetadataHeader, v0}
use ossa.Store.Listeners.{others, update_listeners_lem}
use ossa.Merkle.{combine, is_leaf, node_count_for_leaf_count}
use ossa.Merkle.Leaves.{bottom_layer}
use ossa.Merkle.Build.{
  from_chunks, from_hashes, from_leaves, fill_layers, fill_nodes, node_hash, next_leaf, unwrap_node,
  collect_nodes,
}
use ossa.Store.{State, StateMachine}
use ossa.Store.Create.{new_syncing}
use ossa.Store.Created.{new_syncing-IsStore, new_syncing-Reaches}
use ossa.Store.Again.{is_syncing, handle_received_metadata_again}
use ossa.Store.Transfer.{HandsOn, new_syncing-HandsOn}
use ossa.Store.Serve.{handle_block_peer_request_helper, store_id_of}
use ossa.Store.Download.{update_listeners, is_from, handle_received_metadata}
use ossa.Store.Metadata.{block_count, store_id, validate_store_id}
use ossa.Store.{
  update, snapshot, notify_ecg, syncing, StoreSyncCommand, downloading_merkle, downloading,
  OssaType, World, command, metadata_header_request, initial_state_block_request, ecg_sync_request,
  request_store_sync,
}
use ossa.Store.Requests.{Rng, send_sync_requests}
use ossa.Store.Download.{send_metadata}
use ossa.Store.Run.{
  UntypedStoreCommand, register_peers, register_outgoing_peer_syncing, received_metadata,
  received_initial_state_blocks, run_untyped, state_update, new_downloading, start_handler,
}
use ossa.Store.Integrity.{IsStore}
use ossa.Store.Integrity.Reachable.{untyped, Reaches, here, next, Reaches-IsStore}

abbrev append_digits : ℕ → List ℕ → ℕ
append_digits s [] = s
append_digits s (b ∷ bs) = append_digits (10 * s + b) bs

abbrev digits : Hash ℕ
digits = record {
  HashState = ℕ;
  new = 0;
  update = append_digits;
  finalize = λ s. s;
  as_ref = λ n. n ∷ [];
}

abbrev pub sample : OssaType
sample = record {
  StoreId = ℕ;
  HeaderId = ℕ;
  Header = TestHeader;
  N = ℕ;
  T = List ℕ;
  Body = List ℕ;
  Op = ℕ;
  CausalState = Unit {0};
  hash = digits;
  into = λ n. n;
  dag = list_dag;
  ecg = test_header;
  to_causal_state = λ st. tt;
  apply = λ t causal op. op ∷ t;
  operations = λ body id. body;
  state_from_slice = some;
  body_from_slice = some;
  body_to_vec = λ body. body;
}

abbrev header : MetadataHeader ℕ
header = record {
  nonce = [];
  protocol_version = v0;
  store_type = 9 ∷ [];
  initial_state_size = 3;
  merkle_root = 123;
}

abbrev id : ℕ
id = 9000000153

abbrev pub rng : Rng
rng = record { shuffle_peers = λ ps. ps; shuffle_chunks = λ cs. cs }

abbrev pub run : World sample → UntypedStoreCommand sample → Run (World sample)
run w c = run_untyped rng ((7, 70) ∷ []) w c

abbrev pub start : World sample
start = start_handler (new_downloading sample id)

abbrev pub ended : Run (World sample) → World sample
ended (done w) = w
ended panic = start

abbrev connected : World sample
connected = ended (run start (register_peers (7 ∷ [])))

abbrev asking : World sample
asking = ended (run connected (register_outgoing_peer_syncing 7 71))

abbrev with_header : World sample
with_header = ended (run asking (received_metadata 7 header))

abbrev blocks : List (Option (List ℕ))
blocks = some (1 ∷ 2 ∷ 3 ∷ []) ∷ []

abbrev first_block : List Range
first_block = record { start = 0; stop = 1 } ∷ []

abbrev downloaded : World sample
downloaded = ended (run with_header (received_initial_state_blocks 7 first_block blocks))

-- the commands, one after the other
download_steps :
    (run start (register_peers (7 ∷ [])) ≡ done connected)
    × (run connected (register_outgoing_peer_syncing 7 71) ≡ done asking)
    × (run asking (received_metadata 7 header) ≡ done with_header)
    × (run with_header (received_initial_state_blocks 7 first_block blocks) ≡ done downloaded)
unfolding run_untyped start_handler new_downloading get insert new_with_capacity send_metadata items
download_steps = (refl, refl, refl, refl)

-- what the store sends meanwhile
download_events :
    downloaded.sent
    ≡ request_store_sync 70 id
      ∷ command 71 metadata_header_request
      ∷ command 71 (initial_state_block_request first_block)
      ∷ command 71 (ecg_sync_request (Ecg.new TestHeader list_dag))
      ∷ []
unfolding run_untyped start_handler new_downloading get insert new_with_capacity send_metadata items
    Ranges.next Ranges.collect Ranges.compress_consecutive_into_ranges
download_events = refl

header_reached : Reaches start with_header
header_reached =
    let (a, b, c, d) = download_steps in
    next
      (next (next here (untyped start connected rng ((7, 70) ∷ []) (register_peers (7 ∷ [])) a))
        (untyped connected asking rng ((7, 70) ∷ []) (register_outgoing_peer_syncing 7 71) b))
      (untyped asking with_header rng ((7, 70) ∷ []) (received_metadata 7 header) c)

downloaded_reached : Reaches start downloaded
downloaded_reached =
    let (a, b, c, d) = download_steps in
    next header_reached (
      untyped with_header downloaded rng ((7, 70) ∷ [])
        (received_initial_state_blocks 7 first_block blocks) d)

Reaches-IsStore_example : IsStore {ot = sample} id downloaded.store.state_machine
Reaches-IsStore_example = Reaches-IsStore {ot = sample} id downloaded downloaded_reached

header_update : state_update with_header.store.state_machine ≡ downloading 0
unfolding run_untyped start_handler new_downloading get insert new_with_capacity send_metadata
    state_update
header_update = refl

state_update_percent_example : ◌<◌ 0 100
state_update_percent_example =
    state_update_percent {ot = sample} id with_header.store.state_machine 0
      (Reaches-IsStore {ot = sample} id with_header header_reached) header_update

abbrev ready_on : ℕ → PeerInfo
ready_on chan = record {
  incoming_status = PeerStatus.known;
  outgoing_status = PeerStatus.syncing (record { sender_peer = chan; is_outstanding = false });
}

-- two peers, and a tree of which two nodes are missing
abbrev two_peers : World sample
two_peers = record {
  store = record {
    peers = (7, ready_on 71) ∷ (8, ready_on 81) ∷ [];
    state_machine =
        downloading_merkle (record header { initial_state_size = 20000; merkle_root = 34 })
          (verified 34 ∷ absent ∷ absent ∷ []);
    metadata_subscribers = [];
    merkle_subscribers = [];
    block_subscribers = [];
    ecg_subscribers = [];
  };
  listeners = [];
  sent = [];
}

two_peers-Needs : Needs {ot = sample} two_peers.store.state_machine
unfolding missing_indices missing_from is_none
two_peers-Needs e = cc

same_order : IsShuffle rng
same_order = record { peers = λ ps p. refl; chunks = λ cs P h. h }

send_sync_requests-Asked_example :
    (w' : World sample) × (asked : List (ℕ × OutgoingPeerStatus)) × (messages : List
      (StoreSyncCommand sample))
    × (send_sync_requests rng two_peers ≡ done w')
    × Asked two_peers w' asked messages
    × All (Fits two_peers.store.state_machine) messages
send_sync_requests-Asked_example =
    send_sync_requests-Asked rng two_peers same_order ((refl, tt), (tt, tt)) two_peers-Needs

-- the header comes once more, when the store syncs
abbrev again : World sample
again = ended (handle_received_metadata downloaded 7 header)

handle_received_metadata_again_example : is_syncing again.store.state_machine ≡ false
unfolding run_untyped start_handler new_downloading get insert new_with_capacity send_metadata items
    validate_store_id store_id_of store_id handle_received_metadata is_syncing
handle_received_metadata_again_example =
    handle_received_metadata_again {ot = sample} downloaded again 7 header refl
      (λ e. omega (arith, e)) refl

-- a store that syncs, whose header says that there are two blocks where there is one
abbrev short_store : StateMachine sample
short_store =
    syncing (record header { initial_state_size = 20000 }) (123 ∷ []) (1 ∷ 2 ∷ 3 ∷ [])
      (Ecg.new TestHeader list_dag) (record { latest_state = 1 ∷ 2 ∷ 3 ∷ []; latest_headers = [] })

-- it panics when all its blocks are asked for
short_store_panics :
    handle_block_peer_request_helper short_store
      (record { start = 0; stop = block_count (record header { initial_state_size = 20000 }) } ∷ [])
    ≡ panic
unfolding handle_block_peer_request_helper block_count items
short_store_panics = refl

abbrev empty_graph : Ecg.State {HeaderId = ℕ} TestHeader list_dag
empty_graph = Ecg.new TestHeader list_dag

abbrev subscribed : World sample
subscribed = record {
  store = record two_peers.store { ecg_subscribers = (7, 70) ∷ (8, 80) ∷ [] };
  listeners = 5 ∷ [];
  sent = [];
}

update_listeners_lem_example :
    ((update_listeners subscribed (1 ∷ []) empty_graph (some 7)).sent
      ≡ []
        ++ map (λ l. update l (snapshot (1 ∷ []) empty_graph)) (5 ∷ [])
        ++ map (λ chan. notify_ecg chan empty_graph) (others (some 7) ((7, 70) ∷ (8, 80) ∷ [])))
    × ((p : ℕ)
        → get p (update_listeners subscribed (1 ∷ []) empty_graph (some 7)).store.ecg_subscribers
          ≡ (if is_from p (some 7) then get p ((7, 70) ∷ (8, 80) ∷ []) else none))
update_listeners_lem_example =
    update_listeners_lem subscribed (1 ∷ []) empty_graph (some 7) ((refl, tt), (tt, tt))
