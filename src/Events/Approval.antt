-- ===== src/Events/Approval.antt =====
-- internal/events/approval.go: approvals of one amount, and of a whole collection.
use tx_firewall.Base.{
  ℕ, Bool, Bytes, List, [], ◌∷◌, Option, none, some, length, if◌then◌else◌, ◌==◌, bytes_eq,
  set_bytes, ◌&&◌, not,
}
use tx_firewall.Geth.{Geth, Address, Hash, zero_hash}
use tx_firewall.Events.{address_arg}

pub record Approval : Type 0 where
  pub token : Address
  pub owner : Address
  pub spender : Address
  pub amount : ℕ

pub record ApprovalForAll : Type 0 where
  pub collection : Address
  pub owner : Address
  pub operator : Address
  pub approved : Bool

module _ (g : Geth) where
  open g use {keccak256, bytes_to_hash}

  unfoldable pub approval_topic : Hash
  approval_topic = keccak256 "Approval(address,address,uint256)"

  unfoldable pub approval_for_all_topic : Hash
  approval_for_all_topic = keccak256 "ApprovalForAll(address,address,bool)"

  unfoldable pub decode_approval : Address → List Hash → Bytes → Option Approval
  decode_approval token (topic ∷ owner ∷ spender ∷ []) bs =
      if bytes_eq topic approval_topic && length bs == 32
      then some (record {
        token = token;
        owner = address_arg g owner;
        spender = address_arg g spender;
        amount = set_bytes bs;
      })
      else none
  decode_approval token _ bs = none

  unfoldable pub decode_approval_for_all : Address → List Hash → Bytes → Option ApprovalForAll
  decode_approval_for_all collection (topic ∷ owner ∷ operator ∷ []) bs =
      if bytes_eq topic approval_for_all_topic && length bs == 32
      then some (record {
        collection = collection;
        owner = address_arg g owner;
        operator = address_arg g operator;
        approved = not (bytes_eq (bytes_to_hash bs) zero_hash);
      })
      else none
  decode_approval_for_all collection _ bs = none
