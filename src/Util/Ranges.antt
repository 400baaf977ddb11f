-- ===== src/Util/Ranges.antt =====
-- ossa-core/src/util.rs, `CompressConsecutive`: a sequence of indices as ranges. The indices are
-- `u64`; the bound `x + 1` of a range is taken not to overflow.
pub mod Exact
mod Tests
use ossa.Prelude.{
  ℕ, zero, suc, ◌+◌, ◌-◌, true, false, Option, none, some, List, [], ◌∷◌, ◌++◌, length, ◌==◌, map,
}

-- `Range<u64>`: from `start` up to and without `stop`
pub record Range : Type 0 where
  pub start : ℕ
  pub stop : ℕ

pub record CompressConsecutive : Type 0 where
  pub current : Option Range
  pub inner : List ℕ

unfoldable pub compress_consecutive_into_ranges : List ℕ → CompressConsecutive
compress_consecutive_into_ranges i = record { current = none; inner = i }

-- The loop of `next`, over the range in hand and the items to come.
unfoldable pub next_loop : Option Range → List ℕ → Option Range × CompressConsecutive
next_loop current [] = (current, record { current = none; inner = [] })
next_loop none (x ∷ xs) = next_loop (some (record { start = x; stop = x + 1 })) xs
next_loop (some r) (x ∷ xs) = elim (r.stop == x) [
  | true ↦ next_loop (some (record { start = r.start; stop = x + 1 })) xs
  | false ↦ (some r, record { current = some (record { start = x; stop = x + 1 }); inner = xs })
]

-- `Iterator::next`
unfoldable pub next : CompressConsecutive → Option Range × CompressConsecutive
unfolding next_loop
next self = next_loop self.current self.inner

-- `collect`, on fuel: `none` means that the fuel ran out
unfoldable pub collect : ℕ → CompressConsecutive → Option (List Range)
collect zero self = none
collect (suc fuel) self =
    let (item, rest) = next self in
    elim item [
      | none ↦ some []
      | some r ↦ elim (collect fuel rest) [ none ↦ none | some rs ↦ some (r ∷ rs) ]
    ]

-- `start, start + 1, …`, so many
unfoldable pub count_up : ℕ → ℕ → List ℕ
count_up start zero = []
count_up start (suc n) = start ∷ count_up (start + 1) n

-- the items of a range, and of ranges one after the other (`into_iter().flatten()` of the store)
unfoldable pub items : Range → List ℕ
unfolding count_up
items r = count_up r.start (r.stop - r.start)

unfoldable pub flatten : List Range → List ℕ
flatten [] = []
flatten (r ∷ rs) = items r ++ flatten rs
