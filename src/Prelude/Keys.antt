-- ===== src/Prelude/Keys.antt =====
-- The trait `Ord` of the standard library, with the laws that its documentation asks for, and the
-- ordered containers over it: `BTreeSet` and `OrdSet` are ascending lists of keys, `BTreeMap` and
-- `OrdMap` ascending lists of entries.
use Prim.Native.Nat.{ℕ, suc, ◌<◌, compare, Ordering}
use Prim.Native.Nat.Ordering.{lt, eq, gt}
use mathlib.Core.Path.{◌≡◌, refl}
use mathlib.Core.Bool.{Bool, true, false}
use mathlib.Core.List.{List, [], ◌∷◌}
use mathlib.Core.Logic.{◌↔◌}
use mathlib.Core.Option.{Option, none, some}
use native.Mathlib.Omega.{arith}
use ossa.Prelude.Tests.{if◌then◌else◌}

-- `Ordering::reverse`
abbrev pub reverse : Ordering → Ordering
reverse lt = gt
reverse eq = eq
reverse gt = lt

pub record Ord {ℓ} (K : Type ℓ) : Type ℓ where
  pub cmp : K → K → Ordering
  pub cmp_refl : (a : K) → cmp a a ≡ eq
  pub eq_of_cmp : (a b : K) → cmp a b ≡ eq → a ≡ b
  pub cmp_swap : (a b : K) → cmp b a ≡ reverse (cmp a b)
  pub lt_trans : (a b c : K) → cmp a b ≡ lt → cmp b c ≡ lt → cmp a c ≡ lt

pub compare_swap : (a b : ℕ) → compare b a ≡ reverse (compare a b)
compare_swap a b = ground arith

pub compare_trans : (a b c : ℕ) → compare a b ≡ lt → compare b c ≡ lt → compare a c ≡ lt
compare_trans a b c h k = ground arith

pub compare_refl : (a : ℕ) → compare a a ≡ eq
compare_refl a = ground arith

pub eq_of_compare : (a b : ℕ) → compare a b ≡ eq → a ≡ b
eq_of_compare a b h = ground arith

instance abbrev pub nat_ord : Ord ℕ
nat_ord = record {
  cmp = compare;
  cmp_refl = compare_refl;
  eq_of_cmp = eq_of_compare;
  cmp_swap = compare_swap;
  lt_trans = compare_trans;
}

module _ {ℓ} {K : Type ℓ} ⦃o : Ord K⦄ where
  abbrev pub beq : K → K → Bool
  beq a b = elim (o.cmp a b) [ eq ↦ true | _ ↦ false ]

  pub beq_iff : (a b : K) → (beq a b ≡ true) ↔ (a ≡ b)
  beq_iff a b = (λ h. ground (arith, o.eq_of_cmp a b), λ e. ground (arith, o.cmp_refl a))

  -- `BTreeSet::contains`
  unfoldable pub contains : K → List K → Bool
  contains k [] = false
  contains k (x ∷ xs) = if beq k x then true else contains k xs

  pub contains-nil : (k : K) → contains k [] ≡ false
  unfolding contains
  contains-nil k = refl

  -- `BTreeSet::insert`
  unfoldable pub set_insert : K → List K → List K
  set_insert k [] = k ∷ []
  set_insert k (x ∷ xs) = elim (o.cmp k x) [
    | lt ↦ k ∷ x ∷ xs
    | eq ↦ x ∷ xs
    | gt ↦ x ∷ set_insert k xs
  ]

  -- `BTreeSet::eq`: the same keys in order
  unfoldable pub set_eq : List K → List K → Bool
  set_eq [] [] = true
  set_eq [] (y ∷ ys) = false
  set_eq (x ∷ xs) [] = false
  set_eq (x ∷ xs) (y ∷ ys) = if beq x y then set_eq xs ys else false

  -- `BTreeSet::remove`
  unfoldable pub set_remove : K → List K → List K
  set_remove k [] = []
  set_remove k (x ∷ xs) = if beq k x then set_remove k xs else x ∷ set_remove k xs

  pub contains-set_insert :
      (k j : K) (xs : List K)
      → contains j (set_insert k xs) ≡ (if beq j k then true else contains j xs)
  unfolding contains set_insert
  contains-set_insert k j [] = refl
  contains-set_insert k j (x ∷ xs) =
      ground (arith, contains-set_insert k j xs, o.eq_of_cmp k x, o.eq_of_cmp j k, o.eq_of_cmp j x)

  pub contains-set_remove :
      (k j : K) (xs : List K)
      → contains j (set_remove k xs) ≡ (if beq j k then false else contains j xs)
  unfolding contains set_remove
  contains-set_remove k j [] = ground arith
  contains-set_remove k j (x ∷ xs) = ground (
    arith,
    contains-set_remove k j xs,
    o.eq_of_cmp k x,
    o.eq_of_cmp j k,
    o.eq_of_cmp j x,
    o.cmp_refl k,
    o.cmp_refl x,
  )

module _ {ℓ κ} {K : Type ℓ} {V : Type κ} ⦃o : Ord K⦄ where
  -- `BTreeMap::get`
  unfoldable pub get : K → List (K × V) → Option V
  get k [] = none
  get k ((j, v) ∷ m) = if beq k j then some v else get k m

  pub get-nil : (k : K) → get k [] ≡ none
  unfolding get
  get-nil k = refl

  -- `BTreeMap::insert`: an old entry of the key is replaced
  unfoldable pub insert : K → V → List (K × V) → List (K × V)
  insert k v [] = (k, v) ∷ []
  insert k v ((j, w) ∷ m) = elim (o.cmp k j) [
    | lt ↦ (k, v) ∷ (j, w) ∷ m
    | eq ↦ (k, v) ∷ m
    | gt ↦ (j, w) ∷ insert k v m
  ]

  -- `BTreeMap::remove`
  unfoldable pub remove : K → List (K × V) → List (K × V)
  remove k [] = []
  remove k ((j, v) ∷ m) = if beq k j then remove k m else (j, v) ∷ remove k m

  pub get-insert :
      (k j : K) (v : V) (m : List (K × V))
      → get j (insert k v m) ≡ (if beq j k then some v else get j m)
  unfolding get insert
  get-insert k j v [] = refl
  get-insert k j v ((i, w) ∷ m) =
      ground (arith, get-insert k j v m, o.eq_of_cmp k i, o.eq_of_cmp j k, o.eq_of_cmp j i)

  pub get-remove :
      (k j : K) (m : List (K × V)) → get j (remove k m) ≡ (if beq j k then none else get j m)
  unfolding get remove
  get-remove k j [] = ground arith
  get-remove k j ((i, w) ∷ m) = ground (
    arith,
    get-remove k j m,
    o.eq_of_cmp k i,
    o.eq_of_cmp j k,
    o.eq_of_cmp j i,
    o.cmp_refl k,
    o.cmp_refl i,
  )

-- The keys of a map ascend.
module _ {ℓ κ} {K : Type ℓ} {V : Type κ} ⦃o : Ord K⦄ where
  abbrev pub Above : K → List (K × V) → Type 0
  Above k [] = Unit
  Above k ((j, v) ∷ m) = (o.cmp k j ≡ lt) × Above k m

  abbrev pub IsAscending : List (K × V) → Type 0
  IsAscending [] = Unit
  IsAscending ((k, v) ∷ m) = Above k m × IsAscending m

  pub get-Above :
      (k j : K) (v : V) (m : List (K × V)) → Above k m → get j m ≡ some v → o.cmp k j ≡ lt
  unfolding get
  get-Above k j v [] a e = absurd (cc)
  get-Above k j v ((i, w) ∷ m) (l, a) e = ground (arith, get-Above k j v m a, o.eq_of_cmp j i)

-- how often a key stands in a list
abbrev pub count {ℓ} : {K : Type ℓ} ⦃o : Ord K⦄ → K → List K → ℕ
count k [] = 0
count k (x ∷ xs) = if beq k x then suc (count k xs) else count k xs

pub count-contains {ℓ} :
    {K : Type ℓ} ⦃o : Ord K⦄ (k : K) (xs : List K) → (contains k xs ≡ true) ↔ (0 < count k xs)
unfolding contains
count-contains k [] = (λ e. absurd (cc), λ l. absurd (omega arith))
count-contains k (x ∷ xs) = let ih = count-contains k xs in (λ e. ground arith, λ l. ground arith)
