-- ===== src/Store/Asking/Chunks.antt =====
-- About what ossa-core/src/store/mod.rs asks for: chunks of the indices that are missing, as ranges.
use ossa.Prelude.{
  ℕ, zero, suc, ◌+◌, ◌-◌, ◌≤◌, ◌≡◌, refl, ◌∙◌, ap, inl, inr, true, Bool-cases, Option, none, some,
  List, [], ◌∷◌, length, take, drop, chunks, chunks_from, length-take, get_elem?, All, All-imp,
  ◌==◌, contains, nat_ord, arith,
}
use ossa.Util.Ranges.{flatten}
use ossa.Util.Ranges.Exact.{compress_consecutive_into_ranges_exact}
use ossa.Store.Requests.{ranges_of, needed_from}

-- at most `n` items, all of `xs`
abbrev pub IsChunk : ℕ → List ℕ → List ℕ → Type 0
IsChunk n xs c = (length c ≤ n) × ((i : ℕ) → contains i c ≡ true → contains i xs ≡ true)

contains-take : (n : ℕ) (xs : List ℕ) (i : ℕ) → contains i (take n xs) ≡ true → contains i xs ≡ true
unfolding contains
contains-take zero xs i e = absurd (cc)
contains-take (suc n) [] i e = absurd (cc)
contains-take (suc n) (x ∷ xs) i e = ground (arith, contains-take n xs i)

contains-drop : (n : ℕ) (xs : List ℕ) (i : ℕ) → contains i (drop n xs) ≡ true → contains i xs ≡ true
unfolding contains
contains-drop zero xs i e = e
contains-drop (suc n) [] i e = absurd (cc)
contains-drop (suc n) (x ∷ xs) i e = ground (arith, contains-drop n xs i)

chunks_from-IsChunk : (fuel n : ℕ) (xs : List ℕ) → All (IsChunk n xs) (chunks_from fuel n xs)
chunks_from-IsChunk zero n xs = tt
chunks_from-IsChunk (suc fuel) n [] = tt
chunks_from-IsChunk (suc fuel) n (x ∷ xs) = (
  (omega (arith, length-take n (x ∷ xs)), contains-take n (x ∷ xs)),
  All-imp (λ c (l, h). (l, λ i e. contains-drop n (x ∷ xs) i (h i e)))
      (chunks_from fuel n (drop n (x ∷ xs))) (chunks_from-IsChunk fuel n (drop n (x ∷ xs))),
)

pub chunks-IsChunk : (n : ℕ) (xs : List ℕ) → All (IsChunk n xs) (chunks n xs)
unfolding chunks
chunks-IsChunk n xs = chunks_from-IsChunk (length xs) n xs

-- there is a chunk where there is an index
pub chunks_some :
    (n x : ℕ) (xs : List ℕ) → (c : List ℕ) × (cs : List (List ℕ)) × (chunks n (x ∷ xs) ≡ c ∷ cs)
unfolding chunks
chunks_some n x xs = (take n (x ∷ xs), chunks_from (length xs) n (drop n (x ∷ xs)), refl)

-- the ranges of a request hold the indices themselves
pub flatten-ranges_of : (xs : List ℕ) → flatten (ranges_of xs) ≡ xs
unfolding ranges_of
flatten-ranges_of xs =
    let (rs, e, f, a) = compress_consecutive_into_ranges_exact xs in rw (e, ranges_of) f

pub needed_from-missing :
    (blocks : List (Option (List ℕ))) (i j : ℕ)
    → contains j (needed_from i blocks) ≡ true
    → (i ≤ j) × (get_elem? blocks (j - i) ≡ some none)
unfolding needed_from contains
needed_from-missing [] i j e = absurd (cc)
needed_from-missing (some b ∷ blocks) i j e =
    let (l, g) = needed_from-missing blocks (i + 1) j e in
    let t : j - i ≡ suc (j - (i + 1)) = omega arith in
    (omega arith, ap (get_elem? (some b ∷ blocks)) t ∙ g)
needed_from-missing (none ∷ blocks) i j e = elim (Bool-cases (j == i)) [
  | inl s ↦ let t : j - i ≡ 0 = ground arith in (ground arith, ap (get_elem? (none ∷ blocks)) t)
  | inr s ↦
      let (l, g) = needed_from-missing blocks (i + 1) j (ground arith) in
      let t : j - i ≡ suc (j - (i + 1)) = omega arith in
      (omega arith, ap (get_elem? (none ∷ blocks)) t ∙ g)
]
