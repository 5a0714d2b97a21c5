-- ===== src/Geth.antt =====
-- What the code uses of go-ethereum (common, crypto): a parameter of every definition that calls
-- it. A `common.Hash` is its 32 bytes. Of a `common.Address` the code only asks whether two are
-- equal, so an address is the number that its 20 bytes spell; the zero value is 0.
use tx_firewall.Base.{ℕ, String, Bool, List, Bytes, ◌≡◌, length, replicate}

abbrev pub Address : Type 0
Address = ℕ

abbrev pub Hash : Type 0
Hash = Bytes

abbrev pub zero_address : Address
zero_address = 0

-- common.Hash{}
abbrev pub zero_hash : Hash
zero_hash = replicate 32 0

pub record Geth : Type 0 where
  -- common.BytesToAddress, common.BytesToHash
  pub bytes_to_address : Bytes → Address
  pub bytes_to_hash : Bytes → Hash
  -- Address.Bytes, common.LeftPadBytes(·, 32)
  pub address_bytes : Address → Bytes
  pub left_pad_32 : Bytes → Bytes
  -- Hash.Big
  pub hash_big : Hash → ℕ
  -- Address.Hex, Hash.Hex
  pub address_hex : Address → String
  pub hash_hex : Hash → String
  -- crypto.Keccak256 of a text's bytes
  pub keccak256 : String → Bytes
  -- common.IsHexAddress, common.HexToAddress, on a text's code points
  pub is_hex_address : List ℕ → Bool
  pub hex_to_address : List ℕ → Address

-- What is relied on: 32 bytes are copied as they are.
pub record IsGeth (g : Geth) : Type 0 where
  pub word_to_hash : (b : Bytes) → length b ≡ 32 → g.bytes_to_hash b ≡ b
