-- ===== src/Store/Integrity/Advance.antt =====
-- About `update_state_to_downloading_initial_state` and `update_state_to_syncing` of
-- ossa-core/src/store/mod.rs, and the trees that they start from.
use mathlib.Core.Path.{subst}
use ossa.Prelude.{
  ℕ, suc, ◌+◌, ◌-◌, ◌*◌, ◌≡◌, refl, sym, ◌∙◌, ap, inl, inr, true, false, Bool-cases, Option, none,
  some, Option-cases, List, [], ◌∷◌, length, length-replicate, replicate, set, Run, done, panic,
  Ends, Ends-after, Ends-bind, Ends-imp, ◌==◌, Ord, arith,
}
use ossa.Merkle.{
  Hash, Potential, absent, verified, new_with_capacity, node_count_for_leaf_count, try_complete,
}
use ossa.Merkle.Checked.{IsChecked}
use ossa.Merkle.Complete.{IsMerkle, set_potential-IsChecked, complete-IsMerkle}
use ossa.Ecg as Ecg
use ossa.Ecg.InsertAll.{new-IsWellFormed}
use ossa.Ecg.Acyclic.{new-IsAcyclic}
use ossa.Store.Metadata.{MetadataHeader, store_id, block_count}
use ossa.Store.{OssaType, StateMachine, downloading_merkle, downloading_initial_state, World}
use ossa.Store.Serve.{expect}
use ossa.Store.Download.{
  concat_blocks, any_missing, set_machine, start_syncing, update_listeners, update_state_to_syncing,
  start_initial_state, complete_in, update_state_to_downloading_initial_state, set_hashes,
}
use ossa.Store.Integrity.{AreValid, IsStore}
use ossa.Store.Integrity.Blocks.{
  present, concat_blocks-join, length-present, get_elem?-present, any_missing-replicate,
  replicate-AreValid,
}
use ossa.Store.Integrity.Kept.{Has, update_listeners-Has, send_blocks-Has, send_hashes-Has}

-- a tree of two leaves or more is not complete at the start
pub new_incomplete :
    {N : Type 0} (root : N) (c : ℕ) (nodes : List (Potential N))
    → new_with_capacity root (suc (suc c)) ≡ done nodes
    → try_complete nodes ≡ none
unfolding new_with_capacity node_count_for_leaf_count try_complete
new_incomplete root c nodes e =
    let n : 2 * suc (suc c) - 1 ≡ suc (suc (2 * c + 1)) = omega arith in
    let start : set (replicate (2 * suc (suc c) - 1) absent) 0 (verified root) ≡ nodes =
      ground arith in
    let whole : verified root ∷ absent ∷ replicate (2 * c + 1) absent ≡ nodes =
      ap (λ k. set (replicate k absent) 0 (verified root)) (sym n) ∙ start in
    ap try_complete (sym whole)

pub new_empty :
    {N : Type 0} (root : N) → ◌≡◌ {A = Run (List (Potential N))} (new_with_capacity root 0) panic
unfolding new_with_capacity node_count_for_leaf_count
new_empty root = refl

pub set_hashes-IsChecked :
    {N : Type 0} ⦃o : Ord N⦄ (hash : Hash N) (root : N) (c : ℕ) (is : List ℕ)
    (tree : List (Potential N)) (hashes : List N)
    → IsChecked hash root c tree
    → Ends (IsChecked hash root c) (set_hashes hash tree is hashes)
unfolding set_hashes
set_hashes-IsChecked hash root c [] tree hashes k = k
set_hashes-IsChecked hash root c (i ∷ is) tree [] k = k
set_hashes-IsChecked hash root c (i ∷ is) tree (h ∷ hashes) k =
    let (b, n, e, kn) = set_potential-IsChecked hash root c tree i h k in
    let rest = set_hashes-IsChecked hash root c is n hashes kn in rw e rest

no_blocks :
    {N : Type 0} (metadata : MetadataHeader N)
    → metadata.initial_state_size ≡ 0
    → block_count metadata ≡ 0
unfolding block_count
no_blocks metadata e = omega (arith, e)

module _ (ot : OssaType) ⦃o : Ord ot.HeaderId⦄ ⦃n : Ord ot.N⦄ (id : ot.StoreId) where
  -- all blocks are there, and nothing else has changed yet
  start_syncing-IsStore :
      (metadata : MetadataHeader ot.N) (tree : List ot.N) (blocks : List (Option (List ℕ))) (c : ℕ)
      → store_id ot.hash ot.into metadata ≡ id
      → block_count metadata ≡ suc c
      → IsMerkle ot.hash metadata.merkle_root c tree
      → length blocks ≡ suc c
      → any_missing blocks ≡ false
      → AreValid ot.hash tree blocks
      → Ends {A = ot.T × Ecg.State ot.Header ot.dag × StateMachine ot}
          (λ (t, e, m). IsStore id m)
          (start_syncing {ot = ot} (downloading_initial_state metadata tree blocks))
  unfolding start_syncing
  start_syncing-IsStore metadata tree blocks c sid count mk len full valid =
      Ends-after _ (expect (ot.state_from_slice (concat_blocks blocks))) _ (λ t. (
        sid,
        c,
        present blocks,
        count,
        mk,
        length-present blocks full ∙ len,
        λ i block g. valid i block (get_elem?-present blocks i block full g),
        concat_blocks-join blocks,
        new-IsWellFormed ot.ecg,
        new-IsAcyclic ot.ecg,
      ))

module _ {ot : OssaType} ⦃o : Ord ot.HeaderId⦄ ⦃n : Ord ot.N⦄ (id : ot.StoreId) where
  -- the store of a world is as it has to be
  abbrev pub Holds : World ot → Type 0
  Holds w = IsStore id w.store.state_machine

  pub Holds-Has : (m : StateMachine ot) → IsStore id m → (w : World ot) → Has m w → Holds w
  Holds-Has m s w h = subst (IsStore id) (sym h) s

  pub update_state_to_syncing-Holds :
      (w : World ot) (peer : ℕ) (metadata : MetadataHeader ot.N) (tree : List ot.N)
      (blocks : List (Option (List ℕ))) (c : ℕ)
      → Has (downloading_initial_state metadata tree blocks) w
      → store_id ot.hash ot.into metadata ≡ id
      → block_count metadata ≡ suc c
      → IsMerkle ot.hash metadata.merkle_root c tree
      → length blocks ≡ suc c
      → any_missing blocks ≡ false
      → AreValid ot.hash tree blocks
      → Ends Holds (update_state_to_syncing w peer)
  unfolding update_state_to_syncing set_machine
  update_state_to_syncing-Holds w peer metadata tree blocks c h sid count mk len full valid =
      rw (h, update_state_to_syncing)
        (Ends-bind _ Holds _ _
          (start_syncing-IsStore ot id metadata tree blocks c sid count mk len full valid)
          (λ (t, e, m) s.
            let w' = update_listeners (set_machine w m) t e (some peer) in
            Ends-imp (Has m) Holds _ (Holds-Has m s) (
              send_blocks-Has m (record w' { store = record w'.store { block_subscribers = [] } }) m
                w'.store.block_subscribers
                (update_listeners-Has m (set_machine w m) t e (some peer) refl))))

  start_initial_state-Holds :
      (w : World ot) (peer : ℕ) (metadata : MetadataHeader ot.N) (tree : List ot.N) (c : ℕ)
      → store_id ot.hash ot.into metadata ≡ id
      → block_count metadata ≡ suc c
      → IsMerkle ot.hash metadata.merkle_root c tree
      → Ends Holds (start_initial_state w peer metadata (some tree))
  unfolding start_initial_state set_machine
  start_initial_state-Holds w peer metadata tree c sid count mk =
      let blank : List (Option (List ℕ)) = replicate (block_count metadata) none in
      let m = downloading_initial_state metadata tree blank in
      let some_missing : any_missing blank ≡ true =
        ap (λ k. any_missing (replicate k none)) count ∙ any_missing-replicate c in
      let s : IsStore {ot = ot} id m = (
        sid,
        c,
        count,
        mk,
        length-replicate (block_count metadata) none ∙ count,
        some_missing,
        replicate-AreValid ot.hash tree (block_count metadata),
      ) in
      let w' = set_machine w m in
      Ends-bind (Has m) Holds _ _
        (send_hashes-Has m (record w' { store = record w'.store { merkle_subscribers = [] } }) tree
          peer w'.store.merkle_subscribers refl)
        (λ w'' h. elim (Bool-cases (metadata.initial_state_size == 0)) [
          | inl e ↦
              let z : metadata.initial_state_size ≡ 0 = ground arith in
              absurd (omega (arith, no_blocks metadata z, count))
          | inr e ↦ rw e (Holds-Has m s w'' h)
        ])

  complete_in-Holds :
      (w : World ot) (peer : ℕ) (metadata : MetadataHeader ot.N) (tree : List (Potential ot.N))
      (c : ℕ)
      → Has (downloading_merkle metadata tree) w
      → store_id ot.hash ot.into metadata ≡ id
      → block_count metadata ≡ suc c
      → IsChecked ot.hash metadata.merkle_root c tree
      → Ends Holds (complete_in w peer (downloading_merkle metadata tree))
  unfolding complete_in start_initial_state
  complete_in-Holds w peer metadata tree c h sid count k = elim (Option-cases (try_complete tree)) [
    | inl e ↦
        let s : IsStore {ot = ot} id (downloading_merkle metadata tree) = (sid, c, count, k, e) in
        rw e (Holds-Has (downloading_merkle metadata tree) s w h)
    | inr (whole, e) ↦
        let out =
          start_initial_state-Holds w peer metadata whole c sid count
            (complete-IsMerkle ot.hash metadata.merkle_root c tree whole k e) in
        rw e out
  ]

  -- a tree that a handler has changed
  pub completed-Holds :
      (w : World ot) (peer : ℕ) (metadata : MetadataHeader ot.N) (tree : List (Potential ot.N))
      (c : ℕ)
      → Has (downloading_merkle metadata tree) w
      → store_id ot.hash ot.into metadata ≡ id
      → block_count metadata ≡ suc c
      → IsChecked ot.hash metadata.merkle_root c tree
      → Ends Holds (update_state_to_downloading_initial_state w peer)
  unfolding update_state_to_downloading_initial_state
  completed-Holds w peer metadata tree c h sid count k =
      subst (λ m. Ends Holds (complete_in w peer m)) (sym h)
        (complete_in-Holds w peer metadata tree c h sid count k)
