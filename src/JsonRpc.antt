-- ===== src/JsonRpc.antt =====
-- internal/jsonrpc/request.go: requests, alone or in a batch, and error responses.
use tx_firewall.Base.{
  String, Bytes, List, [], ◌∷◌, Result, ok, err, plain, ◌==◌, if◌then◌else◌, is_empty,
}
use tx_firewall.Base.Int.{ℤ, negsuc}

-- Raw JSON is kept as bytes; a missing member is empty.
pub record Request : Type 0 where
  pub jsonrpc : String
  pub id : Bytes
  pub method : String
  pub params : Bytes

-- What the standard library does with a body.
pub record Json : Type 0 where
  -- bytes.TrimSpace
  pub trim_space : Bytes → Bytes
  -- json.Unmarshal into a []Request, and into a Request
  pub unmarshal_batch : Bytes → Result (List Request)
  pub unmarshal_request : Bytes → Result Request

-- `if len(batch) == 0`
unfoldable pub check_batch : Result (List Request) → Result (List Request)
check_batch (ok []) = err (plain "empty batch")
check_batch (ok (r ∷ rs)) = ok (r ∷ rs)
check_batch (err e) = err e

unfoldable pub one_request : Result Request → Result (List Request)
one_request (ok r) = ok (r ∷ [])
one_request (err e) = err e

module _ (j : Json) where
  open j use {trim_space, unmarshal_batch, unmarshal_request}

  unfoldable pub parse_trimmed : Bytes → Result (List Request)
  unfolding check_batch one_request
  parse_trimmed [] = err (plain "empty request body")
  parse_trimmed (b ∷ bs) =
      if b == b'['
      then check_batch (unmarshal_batch (b ∷ bs))
      else one_request (unmarshal_request (b ∷ bs))

  -- ParseRequests
  unfoldable pub parse_requests : Bytes → Result (List Request)
  unfolding parse_trimmed
  parse_requests body = parse_trimmed (trim_space body)

abbrev pub code_parse_error : ℤ
code_parse_error = negsuc 32699

abbrev pub code_invalid_params : ℤ
code_invalid_params = negsuc 32601

abbrev pub code_tx_rejected : ℤ
code_tx_rejected = negsuc 32002

-- The response that WriteError encodes.
pub record ErrorResponse : Type 0 where
  pub jsonrpc : String
  pub id : Bytes
  pub code : ℤ
  pub message : String

-- `json.RawMessage("null")`
abbrev pub null_id : Bytes
null_id = b'n' ∷ b'u' ∷ b'l' ∷ b'l' ∷ []

unfoldable pub error_response : Bytes → ℤ → String → ErrorResponse
error_response id code message = record {
  jsonrpc = "2.0";
  id = if is_empty id then null_id else id;
  code = code;
  message = message;
}
