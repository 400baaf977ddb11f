-- ===== src/Store/Integrity/Download.antt =====
-- About the handlers of ossa-core/src/store/mod.rs that take a store from one state to the next.
use ossa.Prelude.{
  ℕ, zero, suc, ◌≡◌, refl, sym, ◌∙◌, inl, inr, false, Bool-cases, Option, List, [], length, done,
  Ends, Ends-bind, Ends-if, leb, beq_iff, ◌==◌, if◌then◌else◌, Ord, arith,
}
use ossa.Util.Ranges.{Range, flatten}
use ossa.Merkle.{Potential, new_with_capacity}
use ossa.Merkle.Checked.{IsChecked}
use ossa.Merkle.Complete.{new_with_capacity-IsChecked}
use ossa.Store.Metadata.{MetadataHeader, store_id, validate_store_id, block_count}
use ossa.Store.{
  OssaType, StateMachine, downloading_metadata, downloading_merkle, downloading_initial_state,
  syncing, World,
}
use ossa.Store.Serve.{store_id_of}
use ossa.Store.Download.{
  any_missing, set_machine, update_state_to_downloading_initial_state, send_metadata, ready,
  start_merkle, handle_received_metadata, take_hashes, handle_received_merkle_hashes, take_blocks,
  handle_received_initial_state_blocks,
}
use ossa.Store.Integrity.{IsStore}
use ossa.Store.Integrity.Blocks.{AreBlocks, set_blocks-AreBlocks}
use ossa.Store.Integrity.Kept.{Has, send_metadata-Has, ready-Has}
use ossa.Store.Integrity.Advance.{
  Holds, Holds-Has, new_incomplete, new_empty, set_hashes-IsChecked, update_state_to_syncing-Holds,
  completed-Holds,
}

module _ {ot : OssaType} ⦃o : Ord ot.HeaderId⦄ ⦃n : Ord ot.N⦄ (id : ot.StoreId) where
  -- Handlers, each in the state that is the last argument.
  pub take_hashes-Holds :
      (w : World ot) (peer : ℕ) (ids : List ℕ) (hashes : List ot.N) (m : StateMachine ot)
      → Has m w
      → IsStore id m
      → Ends (Holds id) (take_hashes w peer ids hashes m)
  unfolding take_hashes set_machine
  take_hashes-Holds w peer ids hashes (downloading_metadata own) h s =
      Holds-Has id (downloading_metadata own) s w h
  take_hashes-Holds w peer ids hashes (downloading_initial_state d t b) h s =
      Holds-Has id (downloading_initial_state d t b) s w h
  take_hashes-Holds w peer ids hashes (syncing d t b e x) h s =
      Holds-Has id (syncing d t b e x) s w h
  take_hashes-Holds w peer ids hashes (downloading_merkle metadata tree) h
        (sid, c, count, k, part) =
      Ends-bind (IsChecked ot.hash metadata.merkle_root c) (Holds id) _ _
        (set_hashes-IsChecked ot.hash metadata.merkle_root c ids tree hashes k)
        (λ tree' k'.
          completed-Holds id (set_machine w (downloading_merkle metadata tree')) peer metadata tree'
            c refl sid count k')

  pub take_blocks-Holds :
      (w : World ot) (peer : ℕ) (ids : List ℕ) (theirs : List (Option (List ℕ)))
      (m : StateMachine ot)
      → Has m w
      → IsStore id m
      → Ends (Holds id) (take_blocks w peer ids theirs m)
  unfolding take_blocks set_machine
  take_blocks-Holds w peer ids theirs (downloading_metadata own) h s =
      Holds-Has id (downloading_metadata own) s w h
  take_blocks-Holds w peer ids theirs (downloading_merkle d t) h s =
      Holds-Has id (downloading_merkle d t) s w h
  take_blocks-Holds w peer ids theirs (syncing d t b e x) h s =
      Holds-Has id (syncing d t b e x) s w h
  take_blocks-Holds w peer ids theirs (downloading_initial_state d t b) h
        (sid, c, count, mk, len, part, valid) =
      Ends-bind (AreBlocks ot.hash t (suc c)) (Holds id) _ _
        (set_blocks-AreBlocks ot.hash t (suc c) ids b theirs (len, valid))
        (λ b' (len', valid').
          let w' = set_machine w (downloading_initial_state d t b') in
          elim (Bool-cases (any_missing b')) [
            | inl e ↦ rw e (sid, c, count, mk, len', e, valid')
            | inr e ↦
                let out =
                  update_state_to_syncing-Holds id w' peer d t b' c refl sid count mk len' e
                    valid' in
                rw e out
          ])

  pub IsStore-store_id_of : (m : StateMachine ot) → IsStore id m → store_id_of m ≡ id
  unfolding store_id_of
  IsStore-store_id_of (downloading_metadata own) s = s
  IsStore-store_id_of (downloading_merkle d t) s = s.0
  IsStore-store_id_of (downloading_initial_state d t b) s = s.0
  IsStore-store_id_of (syncing d t b e x) s = s.0

  start_merkle-Holds :
      (w : World ot) (peer : ℕ) (metadata : MetadataHeader ot.N)
      → store_id ot.hash ot.into metadata ≡ id
      → Ends (Holds id) (start_merkle w peer metadata)
  unfolding start_merkle set_machine
  start_merkle-Holds w peer metadata sid = start_of (block_count metadata) refl
    where
      begun :
          (c : ℕ) (tree : List (Potential ot.N))
          → block_count metadata ≡ suc c
          → new_with_capacity metadata.merkle_root (suc c) ≡ done tree
          → IsChecked ot.hash metadata.merkle_root c tree
          → (w' : World ot) → Has (downloading_merkle metadata tree) w'
          → Ends
              (Holds id)
              (if leb (suc c) 1 then update_state_to_downloading_initial_state w' peer else done w')
      begun zero tree count e k w' h = completed-Holds id w' peer metadata tree zero h sid count k
      begun (suc c) tree count e k w' h =
          let s : IsStore {ot = ot} id (downloading_merkle metadata tree) =
            (sid, suc c, count, k, new_incomplete metadata.merkle_root c tree e) in
          let big : leb (suc (suc c)) 1 ≡ false = ground arith in
          rw big (Holds-Has id (downloading_merkle metadata tree) s w' h)

      start_of : (k : ℕ) → block_count metadata ≡ k → Ends (Holds id) (start_merkle w peer metadata)
      start_of zero count =
          let none_at_all = new_empty metadata.merkle_root in rw count (rw none_at_all tt)
      start_of (suc c) count =
          let (tree, e, k) = new_with_capacity-IsChecked ot.hash metadata.merkle_root c in
          let m = downloading_merkle metadata tree in
          let w' = set_machine w m in
          let h : Has m (
              send_metadata (record w' { store = record w'.store { metadata_subscribers = [] } })
                metadata peer w'.store.metadata_subscribers) =
            send_metadata-Has m
              (record w' { store = record w'.store { metadata_subscribers = [] } }) metadata peer
              w'.store.metadata_subscribers refl in
          rw count (rw e (begun c tree count e k _ h))

  pub handle_received_metadata-Holds :
      ⦃d : Ord ot.StoreId⦄ (w : World ot) (peer : ℕ) (metadata : MetadataHeader ot.N)
      → (Holds id) w
      → Ends (Holds id) (handle_received_metadata w peer metadata)
  unfolding handle_received_metadata validate_store_id
  handle_received_metadata-Holds w peer metadata s =
      Ends-bind (Has w.store.state_machine) (Holds id) (ready w peer) _
        (ready-Has w.store.state_machine w peer refl)
        (λ w' h.
          let s' = Holds-Has id w.store.state_machine s w' h in
          elim (Bool-cases
            (validate_store_id ot.hash ot.into metadata (store_id_of w'.store.state_machine))) [
              | inl e ↦
                  let own : store_id_of w'.store.state_machine ≡ id =
                    IsStore-store_id_of w'.store.state_machine s' in
                  let same : store_id_of w'.store.state_machine
                      ≡ store_id ot.hash ot.into metadata =
                    (beq_iff (store_id_of w'.store.state_machine)
                        (store_id ot.hash ot.into metadata)).0
                      e in
                  let out = start_merkle-Holds w' peer metadata (sym same ∙ own) in rw e out
              | inr e ↦ rw e s'
            ])

  pub handle_received_merkle_hashes-Holds :
      (w : World ot) (peer : ℕ) (ids : List Range) (hashes : List ot.N)
      → (Holds id) w
      → Ends (Holds id) (handle_received_merkle_hashes w peer ids hashes)
  unfolding handle_received_merkle_hashes
  handle_received_merkle_hashes-Holds w peer ids hashes s =
      Ends-bind (Has w.store.state_machine) (Holds id) (ready w peer) _
        (ready-Has w.store.state_machine w peer refl)
        (λ w' h.
          let s' = Holds-Has id w.store.state_machine s w' h in
          Ends-if (Holds id) (length (flatten ids) == length hashes) _ _
            (take_hashes-Holds w' peer (flatten ids) hashes w'.store.state_machine refl s') s')

  pub handle_received_initial_state_blocks-Holds :
      (w : World ot) (peer : ℕ) (ids : List Range) (blocks : List (Option (List ℕ)))
      → (Holds id) w
      → Ends (Holds id) (handle_received_initial_state_blocks w peer ids blocks)
  unfolding handle_received_initial_state_blocks
  handle_received_initial_state_blocks-Holds w peer ids blocks s =
      Ends-bind (Has w.store.state_machine) (Holds id) (ready w peer) _
        (ready-Has w.store.state_machine w peer refl)
        (λ w' h.
          let s' = Holds-Has id w.store.state_machine s w' h in
          Ends-if (Holds id) (length (flatten ids) == length blocks) _ _
            (take_blocks-Holds w' peer (flatten ids) blocks w'.store.state_machine refl s') s')
