-- ===== src/Store/Metadata.antt =====
-- ossa-core/src/store/v0.rs: the header that identifies a store.
use ossa.Prelude.{ℕ, ◌+◌, ◌-◌, ◌/◌, ◌%◌, ◌^◌, Bool, List, [], ◌∷◌, Ord, beq}
use ossa.Merkle.{Hash}

abbrev pub block_size : ℕ
block_size = 16384

abbrev pub merkle_request_limit : ℕ
merkle_request_limit = 16

abbrev pub block_request_limit : ℕ
block_request_limit = 16

-- `Version` of ossa-core/src/protocol/mod.rs
pub data Version : Type 0 where
  v0 : Version

unfoldable pub as_byte : Version → ℕ
as_byte v0 = 0

pub record MetadataHeader (N : Type 0) : Type 0 where
  pub nonce : List ℕ
  pub protocol_version : Version
  pub store_type : List ℕ
  pub initial_state_size : ℕ
  pub merkle_root : N

-- `u64::to_be_bytes`
unfoldable pub to_be_bytes : ℕ → List ℕ
to_be_bytes x =
    (x / 2 ^ 56 % 256)
    ∷ (x / 2 ^ 48 % 256)
    ∷ (x / 2 ^ 40 % 256)
    ∷ (x / 2 ^ 32 % 256)
    ∷ (x / 2 ^ 24 % 256)
    ∷ (x / 2 ^ 16 % 256)
    ∷ (x / 2 ^ 8 % 256)
    ∷ (x % 256)
    ∷ []

-- rounded up
unfoldable pub block_count : {N : Type 0} → MetadataHeader N → ℕ
block_count self = (self.initial_state_size + block_size - 1) / block_size

module _ {N StoreId : Type 0} (hash : Hash N) (into : N → StoreId) where
  unfoldable pub store_id : MetadataHeader N → StoreId
  unfolding as_byte to_be_bytes
  store_id self =
      let h = hash.update hash.new self.nonce in
      let h = hash.update h (as_byte self.protocol_version ∷ []) in
      let h = hash.update h self.store_type in
      let h = hash.update h (to_be_bytes self.initial_state_size) in
      let h = hash.update h (hash.as_ref self.merkle_root) in into (hash.finalize h)

  unfoldable pub validate_store_id : ⦃s : Ord StoreId⦄ → MetadataHeader N → StoreId → Bool
  unfolding store_id
  validate_store_id self id = beq id (store_id self)
