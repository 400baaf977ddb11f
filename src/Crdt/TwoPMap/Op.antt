-- ===== src/Crdt/TwoPMap/Op.antt =====
-- ossa-crdt/src/map/twopmap.rs: the operations of a two-phase map.
pub data TwoPMapOp {ℓ κ μ} (K : Type ℓ) (V : Type κ) (Op : Type μ) : Type (ℓ ⊔ κ ⊔ μ) where
  insert : (key : K) → (value : V) → TwoPMapOp K V Op
  apply : (key : K) → (operation : Op) → TwoPMapOp K V Op
  delete : (key : K) → TwoPMapOp K V Op

-- `TwoPMapOp::key`
unfoldable pub key {ℓ κ μ} : {K : Type ℓ} {V : Type κ} {Op : Type μ} → TwoPMapOp K V Op → K
key (insert k v) = k
key (apply k op) = k
key (delete k) = k
