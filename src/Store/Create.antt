-- ===== src/Store/Create.antt =====
-- ossa-core/src/store/v0.rs and ossa-core/src/store/mod.rs: a store that is made anew.
use ossa.Prelude.{ℕ, List, [], length, chunks, Run, done, ◌>>=◌, Ord}
use ossa.Merkle.Leaves.{merkle_root}
use ossa.Merkle.Build.{from_chunks}
use ossa.Merkle.{Hash}
use ossa.Ecg as Ecg
use ossa.Store.Metadata.{MetadataHeader, Version, v0, block_size}
use ossa.Store.{OssaType, State, syncing}

abbrev pub latest_version : Version
latest_version = v0

pub record MetadataBody (N : Type 0) : Type 0 where
  pub initial_state : List ℕ
  pub merkle_tree : List N

module _ {N : Type 0} ⦃o : Ord N⦄ (hash : Hash N) where
  -- from the serialized state, `serde_cbor::to_vec` of it
  unfoldable pub new_body : List ℕ → Run (MetadataBody N)
  unfolding from_chunks
  new_body initial_state = from_chunks hash (chunks block_size initial_state) >>= λ tree.
      done (record { initial_state = initial_state; merkle_tree = tree })

-- `MetadataHeader::generate`, with the nonce and the type's id that it takes
unfoldable pub generate : {N : Type 0} → List ℕ → List ℕ → MetadataBody N → Run (MetadataHeader N)
unfolding merkle_root
generate nonce store_type body = merkle_root body.merkle_tree >>= λ root. done (record {
  nonce = nonce;
  protocol_version = latest_version;
  store_type = store_type;
  initial_state_size = length body.initial_state;
  merkle_root = root;
})

module _ (ot : OssaType) ⦃o : Ord ot.N⦄ where
  -- `serialized` is the initial state as `serde_cbor` writes it
  unfoldable pub new_syncing : List ℕ → List ℕ → List ℕ → ot.T → Run (State ot)
  unfolding new_body generate
  new_syncing nonce store_type serialized initial_state = new_body ot.hash serialized >>= λ body.
      generate nonce store_type body >>= λ metadata. done (record {
        peers = [];
        state_machine =
            syncing metadata body.merkle_tree body.initial_state (Ecg.new ot.Header ot.dag)
              (record { latest_state = initial_state; latest_headers = [] });
        metadata_subscribers = [];
        merkle_subscribers = [];
        block_subscribers = [];
        ecg_subscribers = [];
      })
