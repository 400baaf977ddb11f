-- ===== src/Lib.antt =====
-- Ossa: replicated data types, the graph of headers that orders their operations, and the protocols
-- that peers speak to exchange them. This library models the parts below and proves what makes them
-- correct.
--
-- Parts and files. A store keeps its operations in an eventual consistency graph (ECG) of headers;
-- each operation has a causal time from that graph; data types apply operations with that time;
-- peers exchange headers in messages that a multiplexer carries over one connection.
-- Prelude: Boolean tests, lists over native numbers, runs that may panic, and the ordered sets and
-- maps of Rust's standard library as ascending lists.
-- Util: ossa-core/src/util.rs. `compress_consecutive_into_ranges` with its iterator `next`.
-- Merkle: ossa-core/src/util/merkle_tree.rs, the tree that a download fills; `set` is
-- `set_potential`. Checked says what binds its nodes to the root, Validate is about the recursive
-- check, Complete about any sequence of calls. The hash is a parameter.
-- Crdt.Time: ossa-crdt/src/time.rs (`CausalState`, `concurrent`, `compare_with_tiebreak`) and the
-- trait `CRDT` of ossa-crdt/src/lib.rs. Crdt.Lamport: ossa-crdt/src/time/lamport.rs.
-- Crdt.Lww: ossa-crdt/src/register/lww.rs; Converge says when replicas agree.
-- Crdt.TwoPMap: ossa-crdt/src/map/twopmap.rs, over the collections of the crate `im`, which Crdt.Im
-- takes as parameters with the laws that their documentation states.
-- Mux: ossa-core/src/network/multiplexer.rs. `handle_receive` is `receive_step` and its recursion;
-- Bytewise describes the reader byte by byte, Steps and Chunks compare the two, Frames and Split
-- are about the whole connection. Sending to a protocol's channel is taken not to fail.
-- Ecg: ossa-core/src/store/ecg.rs, over the crate `daggy`, which Ecg.StableDag takes as a parameter
-- and Ecg.ListDag fills with lists. `insert_header` is `insert_new` and `insert_node` after its
-- guards; `contains` is `knows`. Ecg.WellFormed says what a state promises, Ecg.InsertNode,
-- Ecg.Insert, Ecg.InsertAll and Ecg.Preserve are about `insert_header`, Ecg.Ancestor about
-- `is_ancestor_of`, Ecg.Parents about the queries. Ecg.V0: ossa-core/src/store/ecg/v0.rs and
-- ossa-core/src/time.rs, the causal order of operations. A function of the source and its model
-- have one name.
-- Store: ossa-core/src/store/mod.rs and ossa-core/src/store/v0.rs, the task that owns a store. Store.Peers
-- and Store.Metadata are the statuses of peers and the header; Store.Requests is `send_sync_requests`,
-- Store.Serve the answers to peers, Store.Download the handlers of what peers send, Store.Operations
-- the operations, Store.Run the commands (`run_command`, `run_untyped`, of the two queues). A `World` is
-- the local state of `run_handler` with a list of what has been sent; a channel is a number, and
-- receivers are taken to stay open. A function that matches on the state of a store has a helper with
-- the state as its last argument. Store.Create is `new_syncing`, whose nonce, type id and serialised
-- initial state are arguments; Store.Created is about it, and Store.Transfer about the way of that state
-- to another store. The application, `serde_cbor` and the generator of random numbers
-- are parameters (`OssaType`, `Rng`). Store.Integrity says what a store's state holds; Store.Asking,
-- Store.Blocks, Store.Listeners, Store.Percent and Store.Again are about single functions.
-- EcgSync: ossa-core/src/network/protocol/ecg_sync/v0/mod.rs, of which `mark_as_known`,
-- `handle_received_headers` and `handle_received_have` (EcgSync.Haves) are modelled, the first and the
-- last with the fuel of `mark_as_known` as an argument; a bitmap is a list of 32 Booleans.
--
-- A panic (`unreachable!`, `expect`, `todo!`) is the outcome `panic` of the type `Run`. Bytes are
-- numbers below 256; `u32` and `u64` are numbers whose wrap-around is written out where the code
-- computes with them. The bounds of ranges in Util.Ranges are taken not to reach 2 ^ 64, nor the ends of
-- the blocks that peers ask for.
--
-- Fuel: `handle_receive` recurses at most twice for each byte and once more, `collect` of Util
-- takes a round for each index and one more, `is_ancestor_of` a round for each header and one more,
-- and `validate_children` a round for each leaf; it is shown never to run out. `bottom_layer` takes at
-- most a round for each leaf, and `chunks` a round for each byte.
--
-- Not modelled: tasks, channels and sockets of tokio, serialisation, hashing and encryption, the
-- derive macros, and the user interface. The rounds of the synchronisation of headers are not
-- modelled.
pub mod Prelude
pub mod Util
pub mod Merkle
pub mod Crdt
pub mod Mux
pub mod Ecg
pub mod EcgSync
pub mod Store
