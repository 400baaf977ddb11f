-- ===== src/Store/Blocks.antt =====
-- About the blocks that a store serves, of ossa-core/src/store/mod.rs.
use ossa.Prelude.{ℕ, ◌+◌, ◌-◌, ◌*◌, ◌≡◌, min, false, Option, List, ◌++◌, length, take, drop}
use ossa.Ecg as Ecg
use ossa.Store.Metadata.{block_size}
use ossa.Store.Download.{concat_blocks, any_missing}

-- `n` blocks from `i` on, none of them missing, are the bytes from there to the end of the last
abbrev pub Served : List ℕ → ℕ → ℕ → List (Option (List ℕ)) → Type 0
Served bytes i n bs =
    (length bs ≡ n)
    × (any_missing bs ≡ false)
    × (concat_blocks bs ++ drop ((i + n) * block_size) bytes ≡ drop (i * block_size) bytes)

module _ (bytes : List ℕ) where
  -- the bytes of a block that starts inside
  abbrev block : ℕ → List ℕ
  block i =
      take (min ((i + 1) * block_size) (length bytes) - i * block_size)
        (drop (i * block_size) bytes)
