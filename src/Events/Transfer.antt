-- ===== src/Events/Transfer.antt =====
-- internal/events/transfer.go: ERC-20 and ERC-721 transfers.
pub mod Layouts
use tx_firewall.Base.{
  Bool, true, false, ℕ, Bytes, List, [], ◌∷◌, Option, none, some, length, if◌then◌else◌, ◌==◌,
  bytes_eq, set_bytes,
}
use tx_firewall.Geth.{Geth, Address, Hash}
use tx_firewall.Events.{address_arg}

-- TokenStandard: the code only uses its two constants.
pub data TokenStandard : Type 0 where
  erc20 erc721 : TokenStandard

-- `t.Standard == events.ERC20`
abbrev pub is_erc20 : TokenStandard → Bool
is_erc20 erc20 = true
is_erc20 erc721 = false

-- A nil *big.Int is `none`.
pub record Transfer : Type 0 where
  pub standard : TokenStandard
  pub token : Address
  pub from : Address
  pub to : Address
  pub amount : Option ℕ
  pub token_id : Option ℕ

module _ (g : Geth) where
  open g use {keccak256, hash_big}

  unfoldable pub transfer_topic : Hash
  transfer_topic = keccak256 "Transfer(address,address,uint256)"

  -- The `switch` of DecodeTransfer, on the topics behind the first one.
  unfoldable pub transfer_by_layout : Address → List Hash → Bytes → Option Transfer
  transfer_by_layout token (from ∷ to ∷ []) bs =
      if length bs == 32
      then some (record {
        standard = erc20;
        token = token;
        from = address_arg g from;
        to = address_arg g to;
        amount = some (set_bytes bs);
        token_id = none;
      })
      else none
  transfer_by_layout token (from ∷ to ∷ id ∷ []) bs =
      if length bs == 0
      then some (record {
        standard = erc721;
        token = token;
        from = address_arg g from;
        to = address_arg g to;
        amount = none;
        token_id = some (hash_big id);
      })
      else none
  transfer_by_layout token _ bs = none

  unfoldable pub decode_transfer : Address → List Hash → Bytes → Option Transfer
  decode_transfer token [] bs = none
  decode_transfer token (topic ∷ rest) bs =
      if bytes_eq topic transfer_topic then transfer_by_layout token rest bs else none
