-- ===== src/Proxy/Log.antt =====
-- internal/proxy/proxy.go: what the handler writes to its log, beside its reply.
pub mod Recorded
use tx_firewall.Base.{
  ℕ, String, Bytes, Bool, true, false, Option, none, some, List, [], ◌∷◌, ◌++◌, Result, ok, err,
  Error, not, is_empty, str_eq, leb, ltb, length, take, decimal, if◌then◌else◌,
}
use tx_firewall.Base.Exec.{Exec}
use tx_firewall.Geth.{Geth, Address}
use tx_firewall.TxDecode.{Codec, Decoded, decode_raw_transaction}
use tx_firewall.Risk.{Verdict}
use tx_firewall.JsonRpc.{Request, Json, parse_requests}
use tx_firewall.Proxy.{max_body_size, reasons, screen_request}

-- The fields of the line that logTransaction writes.
pub record TransactionLine : Type 0 where
  pub hash : String
  pub type : ℕ
  pub from : String
  pub to : String
  pub value : String
  pub selector : String
  pub nonce : ℕ
  pub chain_id : String

-- The lines, by their messages.
pub data Entry : Type 0 where
  -- "rejected undecodable transaction"
  undecodable : Error → Entry
  -- "transaction"
  transaction : TransactionLine → Entry
  -- "screening failed, rejecting transaction", with the hash
  failed : String → Error → Entry
  -- "blocked transaction" and "flagged transaction", with the hash, the score and the reasons
  blocked : String → ℕ → List String → Entry
  flagged : String → ℕ → List String → Entry

-- `hex_encode` is hexutil.Encode.
module _ (g : Geth) (hex_encode : Bytes → String) where
  open g use {address_hex, hash_hex}

  unfoldable pub recipient : Option Address → String
  recipient none = "contract creation"
  recipient (some to) = address_hex to

  unfoldable pub selector : Bytes → String
  selector calldata = if leb 4 (length calldata) then hex_encode (take 4 calldata) else "none"

  unfoldable pub log_transaction : Decoded → TransactionLine
  log_transaction d = record {
    hash = hash_hex d.tx.hash;
    type = d.tx.type;
    from = address_hex d.from;
    to = recipient d.tx.to;
    value = decimal d.tx.value;
    selector = selector d.tx.input;
    nonce = d.tx.nonce;
    chain_id = decimal d.tx.chain_id;
  }

  -- The lines behind Screen.
  unfoldable pub verdict_log : Decoded → Result Verdict → List Entry
  verdict_log d (err e) = failed (hash_hex d.tx.hash) e ∷ []
  verdict_log d (ok v) =
      if v.block
      then blocked (hash_hex d.tx.hash) v.score (reasons v.findings) ∷ []
      else if not (is_empty (reasons v.findings))
      then flagged (hash_hex d.tx.hash) v.score (reasons v.findings) ∷ []
      else []

  module _ (c : Codec) {W : Type 0} (screen : Decoded → Exec W Verdict) where
    unfoldable pub decoded_log : Result Decoded → W → List Entry
    decoded_log (err e) w = undecodable e ∷ []
    decoded_log (ok d) w = transaction (log_transaction d) ∷ verdict_log d (screen d w).0

    -- One round of the loop over the requests.
    unfoldable pub request_log : Request → W → List Entry
    request_log req w =
        if not (str_eq req.method "eth_sendRawTransaction")
        then []
        else decoded_log (decode_raw_transaction c req.params) w

    -- The loop, which the first response ends.
    unfoldable pub requests_log : List Request → W → List Entry
    requests_log [] w = []
    requests_log (req ∷ reqs) w =
        let rest = requests_log reqs (screen_request c screen req w).1 in
        elim (screen_request c screen req w).0 [
          | none ↦ request_log req w ++ rest
          | some response ↦ request_log req w
        ]

    unfoldable pub parsed_log : Result (List Request) → W → List Entry
    parsed_log (err e) w = []
    parsed_log (ok reqs) w = requests_log reqs w

    unfoldable pub handle_log : Json → Result Bytes → W → List Entry
    handle_log j (err e) w = []
    handle_log j (ok body) w =
        if ltb max_body_size (length body) then [] else parsed_log (parse_requests j body) w
