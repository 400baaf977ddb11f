-- ===== src/Crdt/TwoPMap/Tests.antt =====
-- A two-phase map of registers, with numbers as keys and times.
use ossa.Prelude.{ℕ, ◌*◌, ◌≡◌, refl, ltb, done, [], ◌∷◌, contains, get, insert, nat_ord}
use ossa.Crdt.Time.{CausalState, Crdt, compare_with_tiebreak}
use ossa.Crdt.Im.{OrdMap, OrdSet, list_map, list_set}
use ossa.Crdt.Lww
use ossa.Crdt.Lww.{Lww, lww_crdt}
use ossa.Crdt.TwoPMap.{TwoPMap, apply, apply_live, apply_all}
use ossa.Crdt.TwoPMap.Op.{TwoPMapOp, key}
use ossa.Crdt.TwoPMap.Slots.{deleted, slot, move, Moves, apply-Moves}
use ossa.Crdt.TwoPMap.Commute.{apply_comm, apply_all-deleted, apply-delete}

abbrev maps : OrdMap ℕ (Lww ℕ ℕ)
maps = list_map

abbrev sets : OrdSet ℕ
sets = list_set

abbrev before : CausalState ℕ
before = record { happens_before = ltb }

abbrev value : Crdt (Lww ℕ ℕ) (Lww ℕ ℕ) ℕ
value = lww_crdt

abbrev reg : ℕ → Lww ℕ ℕ
reg t = record { time = t; value = 10 * t }

abbrev put : ℕ → ℕ → TwoPMapOp ℕ (Lww ℕ ℕ) (Lww ℕ ℕ)
put k t = TwoPMapOp.insert k (reg t)

abbrev write : ℕ → ℕ → TwoPMapOp ℕ (Lww ℕ ℕ) (Lww ℕ ℕ)
write k t = TwoPMapOp.apply k (reg t)

abbrev holding : ℕ → ℕ → TwoPMap maps sets
holding k t = record { map = (k, reg t) ∷ []; tombstones = [] }

abbrev without : ℕ → TwoPMap maps sets
without k = record { map = []; tombstones = k ∷ [] }

apply-Moves_example :
    Moves maps sets
      (holding 3 3)
      (write 3 4)
      (move value before (slot maps sets (holding 3 3) (key (write 3 4))) (write 3 4))
      (apply maps sets value before (holding 3 3) (write 3 4))
apply-Moves_example = apply-Moves maps sets value before (holding 3 3) (write 3 4)

apply_comm_example :
    (n1 : TwoPMap maps sets) × (n2 : TwoPMap maps sets) × (apply maps sets value before
        (holding 3 3)
        (put 5 5)
      ≡ done n1)
    × (apply maps sets value before n1 (write 3 4) ≡ done n2)
    × ((j : ℕ)
        → slot maps sets n2 j
          ≡ slot maps sets (record { map = (3, reg 4) ∷ (5, reg 5) ∷ []; tombstones = [] }) j)
unfolding apply apply_live key contains get insert lww_crdt Lww.apply compare_with_tiebreak
apply_comm_example =
    apply_comm maps sets value before (holding 3 3) (holding 3 4)
      (record { map = (3, reg 4) ∷ (5, reg 5) ∷ []; tombstones = [] }) (write 3 4) (put 5 5) refl
      refl refl

apply_all-deleted_example : slot maps sets (without 3) 3 ≡ deleted
unfolding apply_all apply apply_live key contains slot
apply_all-deleted_example =
    apply_all-deleted maps sets value before (put 3 7 ∷ write 3 8 ∷ []) (without 3) (without 3) 3
      refl refl

apply-delete_example :
    (m2 : TwoPMap maps sets) × (n1 : TwoPMap maps sets) × (n2 : TwoPMap maps sets) × (apply maps
        sets value before
        (holding 3 4)
        (TwoPMapOp.delete (key (write 3 4)))
      ≡ done m2)
    × (apply maps sets value before (holding 3 3) (TwoPMapOp.delete (key (write 3 4))) ≡ done n1)
    × (apply maps sets value before n1 (write 3 4) ≡ done n2)
    × ((j : ℕ) → slot maps sets n2 j ≡ slot maps sets m2 j)
unfolding apply apply_live key contains get insert lww_crdt Lww.apply compare_with_tiebreak
apply-delete_example =
    apply-delete maps sets value before (holding 3 3) (holding 3 4) (write 3 4) refl
