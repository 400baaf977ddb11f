-- ===== src/Crdt/TwoPMap/Slots.antt =====
-- A two-phase map as one slot for each key.
use ossa.Prelude.{
  ◌≡◌, true, none, some, Run, done, panic, ◌>>=◌, Ord, beq, if◌then◌else◌, arith, Bool-cases,
  Option-cases, Run-cases, inl, inr,
}
use ossa.Crdt.Time.{CausalState, Crdt}
use ossa.Crdt.Im.{OrdMap, OrdSet}
use ossa.Crdt.TwoPMap.Op.{TwoPMapOp, key}
use ossa.Crdt.TwoPMap.{TwoPMap, apply}

pub data Slot {κ} (V : Type κ) : Type κ where
  absent : Slot V
  live : V → Slot V
  deleted : Slot V

module _ {ℓ κ μ} {K : Type ℓ} {V : Type κ} {Op : Type μ} (value : Crdt V Op K) where
  -- one key's life: inserted once, updated while it is live, deleted for good
  unfoldable pub move : CausalState K → Slot V → TwoPMapOp K V Op → Run (Slot V)
  move st deleted op = done deleted
  move st absent (TwoPMapOp.insert k v) = done (live v)
  move st absent (TwoPMapOp.apply k op) = panic
  move st absent (TwoPMapOp.delete k) = done deleted
  move st (live v) (TwoPMapOp.insert k w) = panic
  move st (live v) (TwoPMapOp.apply k op) = value.apply st v op >>= λ w. done (live w)
  move st (live v) (TwoPMapOp.delete k) = done deleted

module _ {ℓ κ} {K : Type ℓ} {V : Type κ} ⦃o : Ord K⦄ (maps : OrdMap K V) (sets : OrdSet K) where
  unfoldable pub slot : TwoPMap maps sets → K → Slot V
  slot m k =
      if sets.contains k m.tombstones
      then deleted
      else elim (maps.get k m.map) [ none ↦ absent | some v ↦ live v ]

  module _ {μ} {Op : Type μ} where
    -- The outcome of an operation, given what becomes of the slot of its key.
    abbrev pub Moves :
        TwoPMap maps sets → TwoPMapOp K V Op → Run (Slot V) → Run (TwoPMap maps sets) → Type (ℓ ⊔ κ)
    Moves m op panic r = r ≡ panic
    Moves m op (done s) r =
        (m' : TwoPMap maps sets) × (r ≡ done m')
        × ((j : K) → slot m' j ≡ (if beq j (key op) then s else slot m j))

    module _ (value : Crdt V Op K) (st : CausalState K) (m : TwoPMap maps sets) where
      Moves-panic :
          (op : TwoPMapOp K V Op)
          → move value st (slot m (key op)) op ≡ panic
          → apply maps sets value st m op ≡ panic
          → Moves m op (move value st (slot m (key op)) op) (apply maps sets value st m op)
      Moves-panic op e f = rw e f

      Moves-done :
          (op : TwoPMapOp K V Op) (s : Slot V) (m' : TwoPMap maps sets)
          → move value st (slot m (key op)) op ≡ done s
          → apply maps sets value st m op ≡ done m'
          → ((j : K) → slot m' j ≡ (if beq j (key op) then s else slot m j))
          → Moves m op (move value st (slot m (key op)) op) (apply maps sets value st m op)
      Moves-done op s m' e f h = rw e (m', f, h)

      Moves-deleted :
          (op : TwoPMapOp K V Op)
          → sets.contains (key op) m.tombstones ≡ true
          → Moves m op (move value st (slot m (key op)) op) (apply maps sets value st m op)
      unfolding apply slot move
      Moves-deleted op dead =
          Moves-done op deleted m (ground arith) (ground arith)
            (λ j. ground (arith, o.eq_of_cmp j (key op)))

      -- `apply` panics exactly where the slot of the key has no such move; otherwise it returns a
      -- map in which that slot has moved and every other is as it was.
      pub apply-Moves :
          (op : TwoPMapOp K V Op)
          → Moves m op (move value st (slot m (key op)) op) (apply maps sets value st m op)
      unfolding apply slot move
      apply-Moves (TwoPMapOp.insert k v) = elim (Bool-cases (sets.contains k m.tombstones)) [
        | inl dead ↦ Moves-deleted (TwoPMapOp.insert k v) dead
        | inr alive ↦ elim (Option-cases (maps.get k m.map)) [
          | inl e ↦
              Moves-done (TwoPMapOp.insert k v) (live v)
                (record m { map = maps.update_with k v (λ old new. new) m.map }) (ground arith)
                (ground arith)
                (λ j.
                  ground
                    (arith, o.eq_of_cmp j k, maps.get-update_with k j v (λ old new. new) m.map))
          | inr (w, e) ↦ Moves-panic (TwoPMapOp.insert k v) (ground arith) (ground arith)
        ]
      ]
      apply-Moves (TwoPMapOp.apply k op) = elim (Bool-cases (sets.contains k m.tombstones)) [
        | inl dead ↦ Moves-deleted (TwoPMapOp.apply k op) dead
        | inr alive ↦ elim (Option-cases (maps.get k m.map)) [
          | inl e ↦ Moves-panic (TwoPMapOp.apply k op) (ground arith) (ground arith)
          | inr (v, e) ↦ elim (Run-cases (value.apply st v op)) [
            | inl (w, f) ↦
                Moves-done (TwoPMapOp.apply k op) (live w)
                  (record m { map = maps.alter (λ _. some w) k m.map }) (ground arith)
                  (ground arith)
                  (λ j. ground (arith, o.eq_of_cmp j k, maps.get-alter (λ _. some w) k j m.map))
            | inr f ↦ Moves-panic (TwoPMapOp.apply k op) (ground arith) (ground arith)
          ]
        ]
      ]
      apply-Moves (TwoPMapOp.delete k) = elim (Bool-cases (sets.contains k m.tombstones)) [
        | inl dead ↦ Moves-deleted (TwoPMapOp.delete k) dead
        | inr alive ↦
            Moves-done (TwoPMapOp.delete k) deleted
              (record { map = maps.without k m.map; tombstones = sets.update k m.tombstones })
              (ground arith) (ground arith)
              (λ j. ground (
                arith,
                o.eq_of_cmp j k,
                maps.get-without k j m.map,
                sets.contains-update k j m.tombstones,
              ))
      ]
