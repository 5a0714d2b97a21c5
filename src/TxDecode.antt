-- ===== src/TxDecode.antt =====
-- internal/txdecode/decode.go.
use tx_firewall.Base.{
  ◌>>=◌, ℕ, String, Bytes, Option, List, [], ◌∷◌, Result, ok, err, plain, wrap, decimal, concat,
  length,
}
use tx_firewall.Base.Exec.{remap}
use tx_firewall.Geth.{Address, Hash}

-- types.Transaction, by what its methods return.
pub record Transaction : Type 0 where
  pub to : Option Address
  pub gas : ℕ
  pub value : ℕ
  pub input : Bytes
  pub hash : Hash
  pub type : ℕ
  pub nonce : ℕ
  pub chain_id : ℕ

pub record Decoded : Type 0 where
  pub tx : Transaction
  pub from : Address

-- The decoders of other packages.
pub record Codec : Type 0 where
  -- json.Unmarshal into a []string
  pub unmarshal_strings : Bytes → Result (List String)
  -- hexutil.Decode
  pub hex_decode : String → Result Bytes
  -- Transaction.UnmarshalBinary
  pub unmarshal_binary : Bytes → Result Transaction
  -- types.Sender with types.LatestSignerForChainID
  pub sender : ℕ → Transaction → Result Address

-- The check that there is exactly one parameter.
unfoldable pub only_param : List String → Result String
only_param (arg ∷ []) = ok arg
only_param args =
    err (plain (concat ("expected exactly 1 param, got " ∷ decimal (length args) ∷ [])))

unfoldable pub decode_raw_transaction : Codec → Bytes → Result Decoded
decode_raw_transaction c params = do
  args ← remap (wrap "params must be an array of strings") (c.unmarshal_strings params)
  arg ← only_param args
  raw ← remap (wrap "invalid hex") (c.hex_decode arg)
  tx ← remap (wrap "invalid transaction encoding") (c.unmarshal_binary raw)
  from ← remap (wrap "invalid signature") (c.sender tx.chain_id tx)
  ok (record { tx = tx; from = from })
