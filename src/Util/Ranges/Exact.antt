-- ===== src/Util/Ranges/Exact.antt =====
-- What the iterator of ossa-core/src/util.rs gives when it is collected.
use ossa.Prelude.{
  ℕ, zero, suc, ◌+◌, ◌-◌, ◌<◌, ◌≡◌, ◌≢◌, refl, sym, ap, ◌∙◌, Option, none, some, List, [], ◌∷◌,
  ◌++◌, length, ◌==◌, arith, Bool-cases, ◌⊎◌, inl, inr,
}
use mathlib.Core.Path.{subst}
use mathlib.Core.List.{append_assoc}
use ossa.Util.Ranges.{
  Range, CompressConsecutive, compress_consecutive_into_ranges, next_loop, next, collect, count_up,
  items, flatten,
}

-- Every range has an item, and the next one does not begin where it stops.
abbrev pub Apart : List Range → Type 0
Apart [] = Unit
Apart (r ∷ []) = r.start < r.stop
Apart (r ∷ s ∷ rs) = (r.start < r.stop) × (r.stop ≢ s.start) × Apart (s ∷ rs)

abbrev held : Option Range → List ℕ
held none = []
held (some r) = items r

abbrev IsPos : Option Range → Type 0
IsPos none = Unit
IsPos (some r) = r.start < r.stop

abbrev weight : Option Range → ℕ
weight none = 0
weight (some r) = 1

abbrev work : CompressConsecutive → ℕ
work self = length self.inner + weight self.current

abbrev rest_of : CompressConsecutive → List ℕ
rest_of self = held self.current ++ self.inner

count_up-snoc : (a n b : ℕ) → a + n ≡ b → count_up a (suc n) ≡ count_up a n ++ b ∷ []
unfolding count_up
count_up-snoc a zero b e = ap (λ x. x ∷ []) (omega arith)
count_up-snoc a (suc n) b e = ap (◌∷◌ a) (count_up-snoc (a + 1) n b (omega arith))

items_one : (x : ℕ) → items (record { start = x; stop = x + 1 }) ≡ x ∷ []
unfolding items
items_one x = let e : x + 1 - x ≡ 1 = omega arith in rw e

items-snoc :
    (c : Range) (x : ℕ)
    → c.start < c.stop
    → c.stop ≡ x
    → items (record { start = c.start; stop = x + 1 }) ≡ items c ++ x ∷ []
unfolding items
items-snoc c x h e =
    let d : x + 1 - c.start ≡ suc (c.stop - c.start) = omega arith in
    rw d (count_up-snoc c.start (c.stop - c.start) x (omega arith))

-- a range that `next` returned: where it starts, and what comes after it
abbrev Starts : Option Range → Range → Type 0
Starts none r = Unit
Starts (some c) r = c.start ≡ r.start

abbrev Follows : Range → Option Range → List ℕ → Type 0
Follows r none inner = inner ≡ []
Follows r (some c) inner = r.stop ≢ c.start

record Gives (current : Option Range) (xs : List ℕ) (r : Range) (rest : CompressConsecutive)
    : Type 0 where
  exact : items r ++ rest_of rest ≡ held current ++ xs
  pos : r.start < r.stop
  starts : Starts current r
  rest_pos : IsPos rest.current
  follows : Follows r rest.current rest.inner
  less : work rest < length xs + weight current

abbrev Next : Option Range → List ℕ → Type 0
Next current xs =
    ((next_loop current xs ≡ (none, record { current = none; inner = [] }))
      × (current ≡ none)
      × (xs ≡ []))
    ⊎ ((r : Range) × (rest : CompressConsecutive) × (next_loop current xs ≡ (some r, rest))
        × Gives current xs r rest)

next_loop_lem : (current : Option Range) (xs : List ℕ) → IsPos current → Next current xs
unfolding next_loop
next_loop_lem none [] p = inl (refl, refl, refl)
next_loop_lem (some r) [] p = inr (
  r,
  record { current = none; inner = [] },
  refl,
  record {
    exact = refl;
    pos = p;
    starts = refl;
    rest_pos = tt;
    follows = refl;
    less = omega arith;
  },
)
next_loop_lem none (x ∷ xs) p =
    elim (next_loop_lem (some (record { start = x; stop = x + 1 })) xs (omega arith)) [
      | inl (e, f, g) ↦ absurd (cc)
      | inr (r, rest, e, g) ↦ inr (
        r,
        rest,
        e,
        record {
          exact = g.exact ∙ ap (λ l. l ++ xs) (items_one x);
          pos = g.pos;
          starts = tt;
          rest_pos = g.rest_pos;
          follows = g.follows;
          less = omega (arith, g.less);
        },
      )
    ]
next_loop_lem (some c) (x ∷ xs) p = elim (Bool-cases (c.stop == x)) [
  | inl same ↦
      let c' : Range = record { start = c.start; stop = x + 1 } in
      let at_end : c.stop ≡ x = ground arith in
      elim (next_loop_lem (some c') xs (omega arith)) [
        | inl (e, f, g) ↦ absurd (cc)
        | inr (r, rest, e, g) ↦ inr (
          r,
          rest,
          rw (same, next_loop) e,
          record {
            exact =
                g.exact
                ∙ ap (λ l. l ++ xs) (items-snoc c x p at_end)
                ∙ append_assoc (items c) (x ∷ []) xs;
            pos = g.pos;
            starts = g.starts;
            rest_pos = g.rest_pos;
            follows = g.follows;
            less = omega (arith, g.less);
          },
        )
      ]
  | inr other ↦
      let rest : CompressConsecutive = record {
        current = some (record { start = x; stop = x + 1 });
        inner = xs;
      } in
      inr (
        c,
        rest,
        rw (other, next_loop) refl,
        record {
          exact = ap (λ l. items c ++ (l ++ xs)) (items_one x);
          pos = p;
          starts = refl;
          rest_pos = omega arith;
          follows = ground arith;
          less = omega arith;
        },
      )
]

-- the first range collected
abbrev First : Option Range → List ℕ → List Range → Type 0
First none inner rs = inner ≡ [] → rs ≡ []
First (some c) inner rs = (r : Range) × (rs' : List Range) × (rs ≡ r ∷ rs') × (c.start ≡ r.start)

First-cons :
    (current : Option Range) (inner : List ℕ) (r : Range) (rs : List Range)
    (rest : CompressConsecutive)
    → next_loop current inner ≡ (some r, rest)
    → Starts current r
    → First current inner (r ∷ rs)
unfolding next_loop
First-cons none [] r rs rest e h = λ _. absurd (cc)
First-cons none (x ∷ xs) r rs rest e h = λ d. absurd (cc)
First-cons (some c) inner r rs rest e h = (r, rs, refl, h)

Apart-cons :
    (r : Range) (current : Option Range) (inner : List ℕ) (rs : List Range)
    → r.start < r.stop
    → Follows r current inner
    → First current inner rs
    → Apart rs
    → Apart (r ∷ rs)
Apart-cons r none inner rs p f g ap' = subst (λ l. Apart (r ∷ l)) (sym (g f)) p
Apart-cons r (some c) inner [] p f (s, rs', e, h) ap' = absurd (cc)
Apart-cons r (some c) inner (t ∷ ts) p f (s, rs', e, h) ap' = (p, ground arith, ap')

collect_step :
    (fuel : ℕ) (self rest : CompressConsecutive) (item : Option Range)
    → next_loop self.current self.inner ≡ (item, rest)
    → collect (suc fuel) self ≡ elim item [
      | none ↦ some []
      | some r ↦ elim (collect fuel rest) [ none ↦ none | some rs ↦ some (r ∷ rs) ]
    ]
unfolding collect next
collect_step fuel self rest item e = ground arith

collect_lem :
    (fuel : ℕ) (self : CompressConsecutive)
    → IsPos self.current
    → work self < fuel
    → (rs : List Range) × (collect fuel self ≡ some rs)
      × (flatten rs ≡ rest_of self)
      × Apart rs
      × First self.current self.inner rs
unfolding flatten
collect_lem zero self p h = absurd (omega arith)
collect_lem (suc fuel) self p h = elim (next_loop_lem self.current self.inner p) [
  | inl (e, f, g) ↦ (
    [],
    collect_step fuel self _ none e,
    sym (rest_of_nil self.current self.inner f g),
    tt,
    subst (λ c. First c self.inner []) (sym f) (λ _. refl),
  )
  | inr (r, rest, e, g) ↦
      let (rs, ce, fe, ap', first) = collect_lem fuel rest g.rest_pos (omega (arith, g.less)) in
      (
        r ∷ rs,
        collect_step fuel self rest (some r) e ∙ rw ce refl,
        ap (λ l. items r ++ l) fe ∙ g.exact,
        Apart-cons r rest.current rest.inner rs g.pos g.follows first ap',
        First-cons self.current self.inner r rs rest e g.starts,
      )
]
  where
    rest_of_nil : (c : Option Range) (l : List ℕ) → c ≡ none → l ≡ [] → held c ++ l ≡ []
    rest_of_nil none l f g = g
    rest_of_nil (some c) l f g = absurd (cc)

-- For any indices, the iterator comes to its end, its ranges hold the indices in the order given,
-- and each range has an item and does not stop where the next one starts.
pub compress_consecutive_into_ranges_exact :
    (xs : List ℕ)
    → (rs : List Range) × (collect (length xs + 1) (compress_consecutive_into_ranges xs) ≡ some rs)
      × (flatten rs ≡ xs)
      × Apart rs
unfolding compress_consecutive_into_ranges
compress_consecutive_into_ranges_exact xs =
    let (rs, e, f, a, _) =
      collect_lem (length xs + 1) (compress_consecutive_into_ranges xs) tt (omega arith) in
    (rs, e, f, a)
