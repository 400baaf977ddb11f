-- ===== src/Store/Transfer.antt =====
-- About the initial state of a new store on its way to another one, of ossa-core/src/store/mod.rs.
use mathlib.Core.Path.{subst}
use mathlib.Core.List.{append_assoc, append-nil}
use ossa.Prelude.{
  ℕ, zero, suc, ◌+◌, ◌-◌, ◌*◌, ◌≡◌, ◌≢◌, refl, sym, ◌∙◌, ap, min, true, false, Option, none, some,
  List, [], ◌∷◌, ◌++◌, map, length, length-drop, get_elem?, set, take, take-min, drop, drop-drop,
  replicate, join, chunks, chunks_from, done, ◌>>=◌, leb, Ord, arith,
}
use ossa.Util.Ranges.{flatten, items, count_up}
use ossa.Merkle.{Hash}
use ossa.Merkle.Leaves.{validate_chunk}
use ossa.Ecg as Ecg
use ossa.Store.Metadata.{MetadataHeader, block_size, block_count}
use ossa.Store.{OssaType, State, StateMachine, downloading_initial_state}
use ossa.Store.Serve.{
  map_run, block_at, handle_block_peer_request_helper, metadata_of, merkle_tree_of,
}
use ossa.Store.Download.{concat_blocks, any_missing, set_block, set_blocks, start_syncing}
use ossa.Store.Create.{new_syncing}
use ossa.Store.Created.{header_of, state_of, Made, new_syncing-Made}

-- a block that starts inside is the next chunk of what is left
block_at-chunk :
    (bytes : List ℕ) (i x : ℕ) (xs : List ℕ)
    → drop (i * block_size) bytes ≡ x ∷ xs
    → block_at bytes i ≡ done (some (take block_size (x ∷ xs)))
unfolding block_at
block_at-chunk bytes i x xs e =
    let left : length bytes - i * block_size ≡ suc (length xs) =
      sym (length-drop (i * block_size) bytes) ∙ ap length e in
    let inside : leb (i * block_size) (min ((i + 1) * block_size) (length bytes)) ≡ true =
      ground arith in
    let size : min ((i + 1) * block_size) (length bytes) - i * block_size
        ≡ min block_size (length (x ∷ xs)) =
      omega arith in
    rw (inside, size, e) (ap (λ b. done (some b)) (take-min block_size (x ∷ xs)))

-- the blocks from `i` on are the chunks of the bytes from there
served_chunks :
    (bytes : List ℕ) (fuel i : ℕ) (rest : List ℕ)
    → drop (i * block_size) bytes ≡ rest
    → map_run (block_at bytes) (count_up i (length (chunks_from fuel block_size rest)))
      ≡ done (map some (chunks_from fuel block_size rest))
unfolding map_run count_up
served_chunks bytes zero i rest e = refl
served_chunks bytes (suc fuel) i [] e = refl
served_chunks bytes (suc fuel) i (x ∷ xs) e =
    let after : drop ((i + 1) * block_size) bytes ≡ drop block_size (x ∷ xs) =
      ap (λ k. drop k bytes) (omega arith)
      ∙ sym (drop-drop (i * block_size) block_size bytes)
      ∙ ap (drop block_size) e in
    rw (block_at-chunk bytes i x xs e)
      (rw (served_chunks bytes fuel (i + 1) (drop block_size (x ∷ xs)) after) refl)

any_missing-map : (cs : List (List ℕ)) → any_missing (map some cs) ≡ false
unfolding any_missing
any_missing-map [] = refl
any_missing-map (c ∷ cs) = any_missing-map cs

concat_blocks-map : (cs : List (List ℕ)) → concat_blocks (map some cs) ≡ join cs
unfolding concat_blocks
concat_blocks-map [] = refl
concat_blocks-map (c ∷ cs) = ap (◌++◌ c) (concat_blocks-map cs)

module _ {A : Type 0} where
  get_elem?-middle :
      (before : List A) (x : A) (after : List A)
      → get_elem? (before ++ x ∷ after) (length before) ≡ some x
  get_elem?-middle [] x after = refl
  get_elem?-middle (b ∷ before) x after = get_elem?-middle before x after

  set-middle :
      (before : List A) (x y : A) (after : List A)
      → set (before ++ x ∷ after) (length before) y ≡ before ++ y ∷ after
  set-middle [] x y after = refl
  set-middle (b ∷ before) x y after = ap (◌∷◌ b) (set-middle before x y after)

  length-snoc : (xs : List A) (x : A) → length (xs ++ x ∷ []) ≡ length xs + 1
  length-snoc [] x = refl
  length-snoc (y ∷ xs) x = ground (arith, length-snoc xs x)

module _ {N : Type 0} ⦃o : Ord N⦄ (hash : Hash N) (tree : List N) where
  set_block-free :
      (before after : List (Option (List ℕ))) (chunk : List ℕ)
      → validate_chunk hash tree (length before) chunk ≡ done true
      → set_block hash tree (before ++ none ∷ after) (length before) (some chunk)
        ≡ done (before ++ some chunk ∷ after)
  unfolding set_block
  set_block-free before after chunk valid =
      rw (get_elem?-middle before none after, set_block)
        (rw valid (ap done (set-middle before none (some chunk) after)))

  -- chunks that match their leaves fill the places that are free, one after the other
  set_blocks-chunks :
      (cs : List (List ℕ)) (before : List (Option (List ℕ)))
      → ((j : ℕ) (chunk : List ℕ)
          → get_elem? cs j ≡ some chunk
          → validate_chunk hash tree (length before + j) chunk ≡ done true)
      → set_blocks hash tree
          (before ++ replicate (length cs) none)
          (count_up (length before) (length cs))
          (map some cs)
        ≡ done (before ++ map some cs)
  unfolding set_blocks count_up
  set_blocks-chunks [] before valid = refl
  set_blocks-chunks (c ∷ cs) before valid =
      let at : length before + 0 ≡ length before = omega arith in
      let first : validate_chunk hash tree (length before) c ≡ done true =
        subst (λ k. validate_chunk hash tree k c ≡ done true) at (valid 0 c refl) in
      let before' = before ++ some c ∷ [] in
      let size : length before' ≡ length before + 1 = length-snoc before (some c) in
      let free : List (Option (List ℕ)) = replicate (length cs) none in
      let rest = set_blocks-chunks cs before' (λ j chunk g.
        let at : length before + suc j ≡ length before' + j = omega (arith, size) in
        subst (λ k. validate_chunk hash tree k chunk ≡ done true) at (valid (suc j) chunk g)) in
      ap
        (λ r. r >>= λ blocks.
          set_blocks hash tree blocks (count_up (length before + 1) (length cs)) (map some cs))
        (set_block-free before free c first)
      ∙ ap
          (λ blocks.
            set_blocks hash tree blocks (count_up (length before + 1) (length cs)) (map some cs))
          (sym (append_assoc before (some c ∷ []) free))
      ∙ ap (λ k. set_blocks hash tree (before' ++ free) (count_up k (length cs)) (map some cs))
          (sym size)
      ∙ rest
      ∙ ap done (append_assoc before (some c ∷ []) (map some cs))

-- Asked for all blocks that its header counts, a store in state `m` sends them; a store that has the
-- header and the tree and no block yet takes every one of them; and the state that it then syncs in is
-- `m`.
abbrev pub HandsOn :
    (ot : OssaType) → ⦃o : Ord ot.HeaderId⦄ → ⦃n : Ord ot.N⦄ → ot.T → StateMachine ot → Type 0
HandsOn ot initial_state m =
    (metadata : MetadataHeader ot.N) × (tree : List ot.N) × (bs : List (Option (List ℕ)))
    × (metadata_of m ≡ some metadata)
    × (merkle_tree_of m ≡ some tree)
    × (handle_block_peer_request_helper m (record { start = 0; stop = block_count metadata } ∷ [])
        ≡ done (some bs))
    × (set_blocks ot.hash tree (replicate (block_count metadata) none)
          (flatten (record { start = 0; stop = block_count metadata } ∷ [])) bs
        ≡ done bs)
    × (any_missing bs ≡ false)
    × (start_syncing (downloading_initial_state metadata tree bs)
        ≡ done (initial_state, Ecg.new ot.Header ot.dag, m))

module _ (ot : OssaType) ⦃o : Ord ot.HeaderId⦄ ⦃n : Ord ot.N⦄ (nonce store_type serialized : List ℕ)
    (initial_state : ot.T) where
  Made-HandsOn :
      (tree : List ot.N) (root : ot.N) (c : ℕ)
      → Made ot nonce store_type serialized initial_state tree root c
      → ot.state_from_slice serialized ≡ some initial_state
      → HandsOn ot initial_state
          (state_of ot nonce store_type serialized initial_state tree root).state_machine
  unfolding handle_block_peer_request_helper metadata_of merkle_tree_of flatten items start_syncing
      chunks
  Made-HandsOn tree root c m reads =
      let metadata = header_of ot nonce store_type serialized initial_state root in
      let cs = chunks block_size serialized in
      let count : block_count metadata ≡ length cs = m.header_count ∙ sym m.chunk_count in
      let size : block_count metadata - 0 ≡ length cs = omega (arith, count) in
      let all : count_up 0 (block_count metadata - 0) ++ [] ≡ count_up 0 (length cs) =
        append-nil (count_up 0 (block_count metadata - 0)) ∙ ap (count_up 0) size in
      let origin : 0 * block_size ≡ 0 = omega arith in
      let start : drop (0 * block_size) serialized ≡ serialized =
        ap (λ k. drop k serialized) origin in
      let joined : concat_blocks (map some cs) ≡ serialized = concat_blocks-map cs ∙ m.joined in
      (
        metadata,
        tree,
        map some cs,
        refl,
        refl,
        ap (λ r. r >>= λ found. done (some found))
            (ap (map_run (block_at serialized)) all
              ∙ served_chunks serialized (length serialized) 0 serialized start),
        ap
              (λ k.
                set_blocks ot.hash tree (replicate k none)
                  (count_up 0 (block_count metadata - 0) ++ []) (map some cs))
              count
            ∙ ap (λ is. set_blocks ot.hash tree (replicate (length cs) none) is (map some cs)) all
            ∙ set_blocks-chunks ot.hash tree cs [] (λ j chunk g.
              let at : j ≡ 0 + j = omega arith in
              subst (λ k. validate_chunk ot.hash tree k chunk ≡ done true) at (m.valid j chunk g)),
        any_missing-map cs,
        rw (joined, reads) refl,
      )

-- A new store whose initial state is written as one byte or more, and read as it was written, hands it
-- on: asked for all blocks that its header counts it sends them; a store that has the header and the tree
-- and no block yet takes every one of them, after which none is missing; and the state that it then
-- syncs in is the one that the new store is in.
pub new_syncing-HandsOn :
    (ot : OssaType) ⦃o : Ord ot.HeaderId⦄ ⦃n : Ord ot.N⦄ (nonce store_type serialized : List ℕ)
    (initial_state : ot.T) (st : State ot)
    → serialized ≢ []
    → ot.state_from_slice serialized ≡ some initial_state
    → new_syncing ot nonce store_type serialized initial_state ≡ done st
    → HandsOn ot initial_state st.state_machine
new_syncing-HandsOn ot nonce store_type serialized initial_state st some_bytes reads e =
    let (tree, root, c, m) =
      new_syncing-Made ot nonce store_type serialized initial_state some_bytes in
    let same : state_of ot nonce store_type serialized initial_state tree root ≡ st =
      ground (arith, m.result) in
    subst (λ st. HandsOn ot initial_state st.state_machine) same
      (Made-HandsOn ot nonce store_type serialized initial_state tree root c m reads)
