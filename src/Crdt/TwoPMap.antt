-- ===== src/Crdt/TwoPMap.antt =====
-- ossa-crdt/src/map/twopmap.rs: the two-phase map.
pub mod Op
pub mod Slots
pub mod Commute
mod Tests
use ossa.Prelude.{
  Bool, true, false, Option, none, some, Run, done, panic, ◌>>=◌, List, [], ◌∷◌, Ord,
}
use ossa.Crdt.Time.{CausalState, Crdt}
use ossa.Crdt.TwoPMap.Op.{TwoPMapOp, key}
use ossa.Crdt.Im.{OrdMap, OrdSet}

module _ {ℓ κ} {K : Type ℓ} {V : Type κ} ⦃o : Ord K⦄ (maps : OrdMap K V) (sets : OrdSet K) where
  pub record TwoPMap : Type (ℓ ⊔ κ) where
    pub map : maps.Map
    pub tombstones : sets.Keys

  -- `TwoPMap::new`
  unfoldable pub new : TwoPMap
  new = record { map = maps.empty; tombstones = sets.empty }

  -- `TwoPMap::get`
  unfoldable pub get : TwoPMap → K → Option V
  get self k = maps.get k self.map

  module _ {μ} {Op : Type μ} (value : Crdt V Op K) where
    -- the three cases of the `match`, for a key that is not deleted
    unfoldable pub apply_live : CausalState K → TwoPMap → TwoPMapOp K V Op → Run TwoPMap
    apply_live st self (TwoPMapOp.insert k v) = elim (maps.get k self.map) [
      | none ↦ done (record self { map = maps.update_with k v (λ old new. new) self.map })
      | some _ ↦ panic
    ]
    apply_live st self (TwoPMapOp.apply k op) = elim (maps.get k self.map) [
      | none ↦ panic
      | some v ↦ value.apply st v op >>= λ w.
          done (record self { map = maps.alter (λ _. some w) k self.map })
    ]
    apply_live st self (TwoPMapOp.delete k) =
        done (record { map = maps.without k self.map; tombstones = sets.update k self.tombstones })

    -- `TwoPMap::apply`
    unfoldable pub apply : CausalState K → TwoPMap → TwoPMapOp K V Op → Run TwoPMap
    unfolding apply_live key
    apply st self op = elim (sets.contains (key op) self.tombstones) [
      | true ↦ done self
      | false ↦ apply_live st self op
    ]

    unfoldable pub apply_all : CausalState K → TwoPMap → List (TwoPMapOp K V Op) → Run TwoPMap
    apply_all st m [] = done m
    apply_all st m (op ∷ ops) = apply st m op >>= λ m'. apply_all st m' ops
