-- ===== src/Util/Ranges/Tests.antt =====
-- The unit tests of `compress_consecutive_into_ranges`.
use ossa.Prelude.{ℕ, ◌+◌, ◌≡◌, refl, some, List, [], ◌∷◌, length}
use ossa.Util.Ranges.{Range, collect, compress_consecutive_into_ranges, next, flatten}
use ossa.Util.Ranges.Exact.{Apart, compress_consecutive_into_ranges_exact}

abbrev range : ℕ → ℕ → Range
range a b = record { start = a; stop = b }

abbrev mixed : List ℕ
mixed = 1 ∷ 2 ∷ 3 ∷ 7 ∷ 8 ∷ 10 ∷ 11 ∷ 12 ∷ 15 ∷ []

mixed_numbers :
    collect 20 (compress_consecutive_into_ranges mixed)
    ≡ some (range 1 4 ∷ range 7 9 ∷ range 10 13 ∷ range 15 16 ∷ [])
unfolding collect next compress_consecutive_into_ranges
mixed_numbers = refl

compress_consecutive_into_ranges_exact_example :
    (rs : List Range) × (collect (length mixed + 1) (compress_consecutive_into_ranges mixed)
      ≡ some rs)
    × (flatten rs ≡ mixed)
    × Apart rs
compress_consecutive_into_ranges_exact_example = compress_consecutive_into_ranges_exact mixed
