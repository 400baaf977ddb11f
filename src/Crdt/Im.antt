-- ===== src/Crdt/Im.antt =====
-- The collections of the crate `im` that ossa-crdt uses: what their documentation says of each call.
-- The crate is not part of the repository, so the data types take these as parameters.
use ossa.Prelude.{
  ◌≡◌, Bool, true, false, Option, none, some, List, [], Ord, beq, if◌then◌else◌, contains,
  set_insert, contains-set_insert, get, insert, remove, get-insert, get-remove, get-nil,
  contains-nil,
}

pub record OrdMap {ℓ κ} (K : Type ℓ) (V : Type κ) ⦃o : Ord K⦄ : Type ((ℓ ⊔ κ) + 1) where
  pub Map : Type (ℓ ⊔ κ)
  pub empty : Map
  pub get : K → Map → Option V
  -- insert, with a function of the old and the new value for a key that is there
  pub update_with : K → V → (V → V → V) → Map → Map
  pub alter : (Option V → Option V) → K → Map → Map
  pub without : K → Map → Map
  pub get-empty : (j : K) → get j empty ≡ none
  pub get-update_with :
      (k j : K) (v : V) (f : V → V → V) (m : Map)
      → get j (update_with k v f m)
        ≡ (if beq j k then some (elim (get k m) [ none ↦ v | some old ↦ f old v ]) else get j m)
  pub get-alter :
      (f : Option V → Option V) (k j : K) (m : Map)
      → get j (alter f k m) ≡ (if beq j k then f (get k m) else get j m)
  pub get-without : (k j : K) (m : Map) → get j (without k m) ≡ (if beq j k then none else get j m)

pub record OrdSet {ℓ} (K : Type ℓ) ⦃o : Ord K⦄ : Type (ℓ + 1) where
  pub Keys : Type ℓ
  pub empty : Keys
  pub contains : K → Keys → Bool
  pub update : K → Keys → Keys
  pub contains-empty : (j : K) → contains j empty ≡ false
  pub contains-update :
      (k j : K) (s : Keys) → contains j (update k s) ≡ (if beq j k then true else contains j s)

-- Ascending lists meet what is asked.
module _ {ℓ κ} {K : Type ℓ} {V : Type κ} ⦃o : Ord K⦄ where
  abbrev pub put : K → Option V → List (K × V) → List (K × V)
  put k none m = remove k m
  put k (some v) m = insert k v m

  pub get-put :
      (k j : K) (w : Option V) (m : List (K × V))
      → get j (put k w m) ≡ (if beq j k then w else get j m)
  get-put k j none m = get-remove k j m
  get-put k j (some v) m = get-insert k j v m

  abbrev pub list_map : OrdMap K V
  list_map = record {
    Map = List (K × V);
    empty = [];
    get = get;
    update_with = λ k v f m. insert k (elim (get k m) [ none ↦ v | some old ↦ f old v ]) m;
    alter = λ f k m. put k (f (get k m)) m;
    without = remove;
    get-empty = get-nil;
    get-update_with = λ k j v f m. get-insert k j _ m;
    get-alter = λ f k j m. get-put k j (f (get k m)) m;
    get-without = get-remove;
  }

module _ {ℓ} {K : Type ℓ} ⦃o : Ord K⦄ where
  abbrev pub list_set : OrdSet K
  list_set = record {
    Keys = List K;
    empty = [];
    contains = contains;
    update = set_insert;
    contains-empty = contains-nil;
    contains-update = contains-set_insert;
  }
