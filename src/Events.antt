-- ===== src/Events.antt =====
-- internal/events: the helpers that the decoders of all events share (events.go).
pub mod Privilege
pub mod Transfer
pub mod Approval
pub mod FlashLoan
use tx_firewall.Base.{
  ℕ, zero, suc, ◌%◌, Bytes, List, [], ◌∷◌, ◌++◌, Option, none, some, length, take, drop, is_empty,
  if◌then◌else◌, ◌==◌, not,
}
use tx_firewall.Geth.{Geth, Address, Hash}

module _ (g : Geth) where
  open g use {bytes_to_address, bytes_to_hash}

  -- addressArg: the last 20 bytes of a word.
  unfoldable pub address_arg : Hash → Address
  address_arg word = bytes_to_address (drop 12 word)

  -- The loop of eventArgs; each round takes 32 bytes, so the length is fuel enough.
  unfoldable pub words : ℕ → Bytes → List Hash
  words zero bs = []
  words (suc fuel) [] = []
  words (suc fuel) (b ∷ bs) = bytes_to_hash (take 32 (b ∷ bs)) ∷ words fuel (drop 32 (b ∷ bs))

  -- eventArgs
  unfoldable pub event_args : List Hash → Bytes → Option (List Hash)
  event_args indexed bs =
      if not (length bs % 32 == 0) then none else some (indexed ++ words (length bs) bs)
