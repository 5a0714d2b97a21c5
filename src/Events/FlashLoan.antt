-- ===== src/Events/FlashLoan.antt =====
-- internal/events/flashloan.go: loans that a lending protocol announces.
use tx_firewall.Base.{
  ℕ, String, Bytes, List, [], ◌∷◌, Option, none, some, length, if◌then◌else◌, ◌==◌, bytes_eq,
  set_bytes, ◌&&◌, ◌*◌, take, drop,
}
use tx_firewall.Geth.{Geth, Address, Hash, zero_address}
use tx_firewall.Events.{address_arg}
use tx_firewall.Events.Privilege.{arg}

-- A nil *big.Int is `none`.
pub record FlashLoanEvent : Type 0 where
  pub protocol : String
  pub lender : Address
  pub token : Address
  pub amount : Option ℕ

module _ (g : Geth) where
  open g use {keccak256}

  unfoldable pub aave_v3_flash_loan_topic : Hash
  aave_v3_flash_loan_topic =
      keccak256 "FlashLoan(address,address,address,uint256,uint8,uint256,uint16)"

  unfoldable pub balancer_v2_flash_loan_topic : Hash
  balancer_v2_flash_loan_topic = keccak256 "FlashLoan(address,address,uint256,uint256)"

  unfoldable pub uniswap_v3_flash_topic : Hash
  uniswap_v3_flash_topic = keccak256 "Flash(address,address,uint256,uint256,uint256,uint256)"

  unfoldable pub decode_flash_loan : Address → List Hash → Bytes → Option FlashLoanEvent
  decode_flash_loan lender [] bs = none
  decode_flash_loan lender (topic ∷ rest) bs =
      let topics = topic ∷ rest in
      if bytes_eq topic aave_v3_flash_loan_topic && length topics == 4 && length bs == 4 * 32
      then some (record {
        protocol = "Aave V3";
        lender = lender;
        token = address_arg g (arg topics 2);
        amount = some (set_bytes (take 32 (drop 32 bs)));
      })
      else if bytes_eq topic balancer_v2_flash_loan_topic
          && length topics == 3
          && length bs == 2 * 32
      then some (record {
        protocol = "Balancer V2";
        lender = lender;
        token = address_arg g (arg topics 2);
        amount = some (set_bytes (take 32 bs));
      })
      else if bytes_eq topic uniswap_v3_flash_topic && length topics == 3 && length bs == 4 * 32
      then some
          (record { protocol = "Uniswap V3"; lender = lender; token = zero_address; amount = none })
      else none
