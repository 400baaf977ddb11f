-- ===== src/Store/Integrity.antt =====
-- What a store's state machine holds at any time: about ossa-core/src/store/mod.rs.
pub mod Kept
pub mod Blocks
pub mod Advance
pub mod Download
pub mod Operations
pub mod Reachable
use ossa.Prelude.{
  ℕ, suc, ◌≡◌, Bool, true, Option, none, some, List, length, get_elem?, join, done, Ord,
}
use ossa.Merkle.{Hash, Potential, try_complete}
use ossa.Merkle.Checked.{IsChecked}
use ossa.Merkle.Complete.{IsMerkle}
use ossa.Merkle.Leaves.{validate_chunk}
use ossa.Ecg as Ecg
use ossa.Ecg.WellFormed.{IsWellFormed}
use ossa.Ecg.Acyclic.{IsAcyclic}
use ossa.Store.Metadata.{MetadataHeader, store_id, block_count}
use ossa.Store.{
  OssaType, DecryptedState, StateMachine, downloading_metadata, downloading_merkle,
  downloading_initial_state, syncing, World,
}
use ossa.Store.Download.{concat_blocks, any_missing}

-- every block in hand matches its leaf of the tree
abbrev pub AreValid : {N : Type 0} ⦃o : Ord N⦄ → Hash N → List N → List (Option (List ℕ)) → Type 0
AreValid hash tree blocks =
    (i : ℕ) (block : List ℕ)
    → get_elem? blocks i ≡ some (some block)
    → validate_chunk hash tree i block ≡ done true

module _ {ot : OssaType} ⦃o : Ord ot.HeaderId⦄ ⦃n : Ord ot.N⦄ where
  -- The header has the store's id. A partial tree keeps to the rules of `set` and is not complete. A
  -- complete tree is one of hashes under the header's root, with a leaf for each block; of the blocks one
  -- is missing while they are downloaded, and those in hand match their leaves. Then the initial state is
  -- made of such blocks, all of them, and the graph is well formed and has no cycle.
  abbrev pub IsStore : ot.StoreId → StateMachine ot → Type 0
  IsStore id (downloading_metadata own) = own ≡ id
  IsStore id (downloading_merkle metadata tree) =
      (store_id ot.hash ot.into metadata ≡ id)
      × (c : ℕ) × (block_count metadata ≡ suc c)
      × IsChecked ot.hash metadata.merkle_root c tree
      × (try_complete tree ≡ none)
  IsStore id (downloading_initial_state metadata tree blocks) =
      (store_id ot.hash ot.into metadata ≡ id)
      × (c : ℕ) × (block_count metadata ≡ suc c)
      × IsMerkle ot.hash metadata.merkle_root c tree
      × (length blocks ≡ suc c)
      × (any_missing blocks ≡ true)
      × AreValid ot.hash tree blocks
  IsStore id (syncing metadata tree bytes ecg_state decrypted) =
      (store_id ot.hash ot.into metadata ≡ id)
      × (c : ℕ) × (blocks : List (List ℕ)) × (block_count metadata ≡ suc c)
      × IsMerkle ot.hash metadata.merkle_root c tree
      × (length blocks ≡ suc c)
      × ((i : ℕ) (block : List ℕ)
          → get_elem? blocks i ≡ some block
          → validate_chunk ot.hash tree i block ≡ done true)
      × (bytes ≡ join blocks)
      × IsWellFormed ot.ecg ecg_state
      × IsAcyclic ot.ecg ecg_state
