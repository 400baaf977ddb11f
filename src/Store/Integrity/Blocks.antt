-- ===== src/Store/Integrity/Blocks.antt =====
-- About the blocks of an initial state, of ossa-core/src/store/mod.rs.
use ossa.Prelude.{
  ℕ, zero, suc, ◌≡◌, refl, sym, ◌∙◌, ap, inl, inr, true, false, Bool-cases, Option, none, some,
  Option-cases, List, [], ◌∷◌, ◌++◌, length, length-set, get_elem?, get_elem?-set, set, replicate,
  join, done, Ends, Ends-bind, Run-cases, ◌==◌, Ord, arith,
}
use ossa.Merkle.{Hash}
use ossa.Merkle.Leaves.{validate_chunk}
use ossa.Store.Download.{concat_blocks, any_missing, set_block, set_blocks}
use ossa.Store.Integrity.{AreValid}

-- the blocks in hand, where none is missing
unfoldable pub present : List (Option (List ℕ)) → List (List ℕ)
present [] = []
present (none ∷ blocks) = present blocks
present (some block ∷ blocks) = block ∷ present blocks

pub concat_blocks-join :
    (blocks : List (Option (List ℕ))) → concat_blocks blocks ≡ join (present blocks)
unfolding concat_blocks present
concat_blocks-join [] = refl
concat_blocks-join (none ∷ blocks) = concat_blocks-join blocks
concat_blocks-join (some block ∷ blocks) = ap (◌++◌ block) (concat_blocks-join blocks)

pub length-present :
    (blocks : List (Option (List ℕ)))
    → any_missing blocks ≡ false
    → length (present blocks) ≡ length blocks
unfolding present any_missing
length-present [] e = refl
length-present (none ∷ blocks) e = absurd (cc)
length-present (some block ∷ blocks) e = ap suc (length-present blocks e)

pub get_elem?-present :
    (blocks : List (Option (List ℕ))) (i : ℕ) (block : List ℕ)
    → any_missing blocks ≡ false
    → get_elem? (present blocks) i ≡ some block
    → get_elem? blocks i ≡ some (some block)
unfolding present any_missing
get_elem?-present [] i block e g = absurd (cc)
get_elem?-present (none ∷ blocks) i block e g = absurd (cc)
get_elem?-present (some b ∷ blocks) zero block e g = ground arith
get_elem?-present (some b ∷ blocks) (suc i) block e g = get_elem?-present blocks i block e g

pub any_missing-replicate : (n : ℕ) → any_missing (replicate (suc n) none) ≡ true
unfolding any_missing
any_missing-replicate n = refl

module _ {N : Type 0} ⦃o : Ord N⦄ (hash : Hash N) where
  pub replicate-AreValid : (tree : List N) (n : ℕ) → AreValid hash tree (replicate n none)
  replicate-AreValid tree zero i block e = absurd (cc)
  replicate-AreValid tree (suc n) zero block e = absurd (ground arith)
  replicate-AreValid tree (suc n) (suc i) block e = absurd (none_there n i block e)
    where
      none_there :
          (n i : ℕ) (block : List ℕ) → ¬ (get_elem? (replicate n none) i ≡ some (some block))
      none_there zero i block e = absurd (cc)
      none_there (suc n) zero block e = absurd (ground arith)
      none_there (suc n) (suc i) block e = none_there n i block e

  -- blocks of a tree: as many as before, each as it has to be
  abbrev pub AreBlocks : List N → ℕ → List (Option (List ℕ)) → Type 0
  AreBlocks tree k blocks = (length blocks ≡ k) × AreValid hash tree blocks

  set_block_valid :
      (tree : List N) (k : ℕ) (blocks : List (Option (List ℕ))) (i : ℕ) (b : List ℕ)
      → AreBlocks tree k blocks
      → get_elem? blocks i ≡ some none
      → validate_chunk hash tree i b ≡ done true
      → AreBlocks tree k (set blocks i (some b))
  set_block_valid tree k blocks i b (l, v) e c = (
    length-set blocks i (some b) ∙ l,
    λ j block g. elim (Bool-cases (j == i)) [
      | inl s ↦
          let t : j ≡ i = ground arith in
          let u : b ≡ block = ground (arith, get_elem?-set blocks i j (some b) none e) in
          ap (λ j. validate_chunk hash tree j block) t ∙ ap (validate_chunk hash tree i) (sym u) ∙ c
      | inr s ↦ v j block (ground (arith, get_elem?-set blocks i j (some b) none e))
    ],
  )

  set_block-AreBlocks :
      (tree : List N) (k : ℕ) (blocks : List (Option (List ℕ))) (i : ℕ) (b : Option (List ℕ))
      → AreBlocks tree k blocks
      → Ends (AreBlocks tree k) (set_block hash tree blocks i b)
  unfolding set_block
  set_block-AreBlocks tree k blocks i none h = h
  set_block-AreBlocks tree k blocks i (some b) h = elim (Option-cases (get_elem? blocks i)) [
    | inl e ↦ rw (e, set_block) tt
    | inr (some old, e) ↦ rw (e, set_block) h
    | inr (none, e) ↦ elim (Run-cases (validate_chunk hash tree i b)) [
      | inr c ↦ rw (e, set_block) (rw c tt)
      | inl (true, c) ↦ rw (e, set_block) (rw c (set_block_valid tree k blocks i b h e c))
      | inl (false, c) ↦ rw (e, set_block) (rw c h)
    ]
  ]

  pub set_blocks-AreBlocks :
      (tree : List N) (k : ℕ) (is : List ℕ) (blocks theirs : List (Option (List ℕ)))
      → AreBlocks tree k blocks
      → Ends (AreBlocks tree k) (set_blocks hash tree blocks is theirs)
  unfolding set_blocks
  set_blocks-AreBlocks tree k [] blocks theirs h = h
  set_blocks-AreBlocks tree k (i ∷ is) blocks [] h = h
  set_blocks-AreBlocks tree k (i ∷ is) blocks (b ∷ theirs) h =
      Ends-bind (AreBlocks tree k) (AreBlocks tree k) (set_block hash tree blocks i b) _
        (set_block-AreBlocks tree k blocks i b h)
        (λ blocks' h'. set_blocks-AreBlocks tree k is blocks' theirs h')
