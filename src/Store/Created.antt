-- ===== src/Store/Created.antt =====
-- About a store that ossa-core/src/store/mod.rs makes anew.
use mathlib.Core.Path.{subst}
use ossa.Prelude.{
  ℕ, get_elem?, some, true, zero, suc, ◌+◌, ◌-◌, ◌*◌, ◌<◌, ◌≤◌, ◌≡◌, ◌≢◌, refl, sym, ◌∙◌, ap, List,
  [], ◌∷◌, ◌++◌, length, length-drop, take, drop, take-append-drop, join, chunks, chunks_from, done,
  Ord, arith,
}
use ossa.Merkle.Complete.{IsMerkle}
use ossa.Merkle.Leaves.{validate_chunk}
use ossa.Merkle.Build.Correct.{from_chunks-IsMerkle}
use ossa.Ecg as Ecg
use ossa.Ecg.InsertAll.{new-IsWellFormed}
use ossa.Ecg.Acyclic.{new-IsAcyclic}
use ossa.Store.Metadata.{MetadataHeader, block_size, block_count}
use ossa.Store.{OssaType, State, syncing, World}
use ossa.Store.Run.{start_handler}
use ossa.Store.Integrity.Reachable.{Reaches, Reaches-keeps}
use ossa.Store.Serve.{store_id_of}
use ossa.Store.Create.{latest_version, new_body, generate, new_syncing}
use ossa.Store.Integrity.{IsStore}

join-chunks_from :
    (fuel : ℕ) (xs : List ℕ) → length xs ≤ fuel → join (chunks_from fuel block_size xs) ≡ xs
join-chunks_from zero [] l = refl
join-chunks_from zero (x ∷ xs) l = absurd (omega arith)
join-chunks_from (suc fuel) [] l = refl
join-chunks_from (suc fuel) (x ∷ xs) l =
    ap (◌++◌ (take block_size (x ∷ xs))) (
      join-chunks_from fuel (drop block_size (x ∷ xs))
        (omega (arith, length-drop block_size (x ∷ xs))))
    ∙ take-append-drop block_size (x ∷ xs)

chunk_count_of :
    (fuel : ℕ) (xs : List ℕ)
    → length xs ≤ fuel
    → (length xs ≤ length (chunks_from fuel block_size xs) * block_size)
      × (length (chunks_from fuel block_size xs) * block_size < length xs + block_size)
chunk_count_of zero [] l = (omega arith, omega arith)
chunk_count_of zero (x ∷ xs) l = absurd (omega arith)
chunk_count_of (suc fuel) [] l = (omega arith, omega arith)
chunk_count_of (suc fuel) (x ∷ xs) l =
    let cut = length-drop block_size (x ∷ xs) in
    let (low, high) = chunk_count_of fuel (drop block_size (x ∷ xs)) (omega (arith, cut)) in
    (omega (arith, cut), omega (arith, cut))

length_positive : (xs : List ℕ) → xs ≢ [] → 0 < length xs
length_positive [] e = absurd (e refl)
length_positive (x ∷ xs) e = omega arith

module _ (ot : OssaType) ⦃o : Ord ot.HeaderId⦄ ⦃n : Ord ot.N⦄ (nonce store_type serialized : List ℕ)
    (initial_state : ot.T) where
  -- the header and the state that `new_syncing` makes, for a tree and its root
  abbrev pub header_of : ot.N → MetadataHeader ot.N
  header_of root = record {
    nonce = nonce;
    protocol_version = latest_version;
    store_type = store_type;
    initial_state_size = length serialized;
    merkle_root = root;
  }

  abbrev pub state_of : List ot.N → ot.N → State ot
  state_of tree root = record {
    peers = [];
    state_machine =
        syncing (header_of root) tree serialized (Ecg.new ot.Header ot.dag)
          (record { latest_state = initial_state; latest_headers = [] });
    metadata_subscribers = [];
    merkle_subscribers = [];
    block_subscribers = [];
    ecg_subscribers = [];
  }

  -- a tree of the chunks of the initial state, as many as the header says
  pub record Made (tree : List ot.N) (root : ot.N) (c : ℕ) : Type 0 where
    pub result :
        new_syncing ot nonce store_type serialized initial_state ≡ done (state_of tree root)
    pub chunk_count : length (chunks block_size serialized) ≡ suc c
    pub header_count : block_count (header_of root) ≡ suc c
    pub tree_root : IsMerkle ot.hash root c tree
    pub valid :
        (j : ℕ) (chunk : List ℕ)
        → get_elem? (chunks block_size serialized) j ≡ some chunk
        → validate_chunk ot.hash tree j chunk ≡ done true
    pub joined : join (chunks block_size serialized) ≡ serialized

  pub new_syncing-Made :
      serialized ≢ [] → (tree : List ot.N) × (root : ot.N) × (c : ℕ) × Made tree root c
  unfolding new_syncing new_body generate block_count chunks
  new_syncing-Made some_bytes =
      let (low, high) = chunk_count_of (length serialized) serialized (omega arith) in
      let c = length (chunks block_size serialized) - 1 in
      let bytes : 0 < length serialized = length_positive serialized some_bytes in
      let (tree, root, e, m, mk, valid) =
        from_chunks-IsMerkle ot.hash c (chunks block_size serialized) (omega arith) in
      (
        tree,
        root,
        c,
        record {
          result = rw e (rw m refl);
          chunk_count = omega arith;
          header_count = omega arith;
          tree_root = mk;
          valid = valid;
          joined = join-chunks_from (length serialized) serialized (omega arith);
        },
      )

-- A new store whose initial state is written as one byte or more is made without a panic, and is as a
-- store has to be, under its own id.
pub new_syncing-IsStore :
    (ot : OssaType) ⦃o : Ord ot.HeaderId⦄ ⦃n : Ord ot.N⦄ (nonce store_type serialized : List ℕ)
    (initial_state : ot.T)
    → serialized ≢ []
    → (st : State ot) × (new_syncing ot nonce store_type serialized initial_state ≡ done st)
      × IsStore (store_id_of st.state_machine) st.state_machine
unfolding store_id_of
new_syncing-IsStore ot nonce store_type serialized initial_state some_bytes =
    let (tree, root, c, m) =
      new_syncing-Made ot nonce store_type serialized initial_state some_bytes in
    (
      state_of ot nonce store_type serialized initial_state tree root,
      m.result,
      (
        refl,
        c,
        chunks block_size serialized,
        m.header_count,
        m.tree_root,
        m.chunk_count,
        m.valid,
        sym m.joined,
        new-IsWellFormed ot.ecg,
        new-IsAcyclic ot.ecg,
      ),
    )

-- A new store whose initial state is written as one byte or more stays as a store has to be, under
-- its own id, whatever commands its task serves.
pub new_syncing-Reaches :
    (ot : OssaType) ⦃o : Ord ot.HeaderId⦄ ⦃n : Ord ot.N⦄ ⦃d : Ord ot.StoreId⦄
    (nonce store_type serialized : List ℕ) (initial_state : ot.T) (st : State ot) (w : World ot)
    → serialized ≢ []
    → new_syncing ot nonce store_type serialized initial_state ≡ done st
    → Reaches (start_handler st) w
    → IsStore (store_id_of st.state_machine) w.store.state_machine
unfolding start_handler
new_syncing-Reaches ot nonce store_type serialized initial_state st w some_bytes e r =
    let (st', f, s) = new_syncing-IsStore ot nonce store_type serialized initial_state some_bytes in
    let same : st' ≡ st = ground arith in
    let own : IsStore (store_id_of st.state_machine) st.state_machine =
      subst (λ st. IsStore (store_id_of st.state_machine) st.state_machine) same s in
    Reaches-keeps (store_id_of st.state_machine) (start_handler st) w own r
