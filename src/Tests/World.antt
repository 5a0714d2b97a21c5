-- ===== src/Tests/World.antt =====
-- A concrete go-ethereum, a node, a transaction and its call trace.
use mathlib.Core.Path.{refl}
use tx_firewall.Base.{
  ℕ, String, Bytes, false, none, some, ok, replicate, length, set_bytes, str_eq, if◌then◌else◌,
  ◌==◌, List, [], ◌∷◌, ◌++◌,
}
use tx_firewall.Base.Int.{pos}
use tx_firewall.Base.Exec.{pure}
use tx_firewall.Geth.{Geth, IsGeth, Address, Hash}
use tx_firewall.Events.Transfer.{Transfer, erc20}
use tx_firewall.TxDecode.{Transaction, Decoded, Codec}
use tx_firewall.Simulate.{CallFrame, call, Calls, no_calls, and_then, CallInfo, Log}
use tx_firewall.Chainstate.{established}
use tx_firewall.Sanctions.Listed.{ListChecker}
use tx_firewall.JsonRpc.{Request, Json}
use tx_firewall.Firewall.{ScreenerConfig, rules}
use tx_firewall.Sanctions.Listed.{list_checker}
use tx_firewall.Risk.{Engine}

-- A word that spells a small number.
abbrev pub word : ℕ → Hash
word n = replicate 31 0 ++ n ∷ []

abbrev pub hash_of : String → Bytes
hash_of s =
    if str_eq s "Transfer(address,address,uint256)"
    then word 1
    else if str_eq s "OwnershipTransferred(address,address)"
    then word 2
    else word 9

abbrev pub geth : Geth
geth = record {
  bytes_to_address = set_bytes;
  bytes_to_hash = λ b. b;
  address_bytes = λ a. replicate 19 0 ++ a ∷ [];
  left_pad_32 = λ bs. replicate 12 0 ++ bs;
  hash_big = set_bytes;
  address_hex = λ a. "0x";
  hash_hex = λ h. "0x";
  keccak256 = hash_of;
  is_hex_address = λ s. length s == 42;
  hex_to_address = set_bytes;
}

pub geth-IsGeth : IsGeth geth
geth-IsGeth = record { word_to_hash = λ b h. refl }

-- Address 5 sends 3 wei to contract 6, which moves 4 of token 8 to address 7; a call of it that
-- reverts would have reached address 9.
abbrev pub tx : Transaction
tx = record {
  to = some 6;
  gas = 21_000;
  value = 3;
  input = [];
  hash = word 4;
  type = 2;
  nonce = 0;
  chain_id = 1;
}

abbrev pub decoded : Decoded
decoded = record { tx = tx; from = 5 }

abbrev pub token_log : Log
token_log = record { address = 8; topics = word 1 ∷ word 6 ∷ word 7 ∷ []; bytes = word 4 }

abbrev info_of : Address → Address → ℕ → String → List Log → CallInfo
info_of from to value error logs = record {
  type = "CALL";
  from = from;
  to = some to;
  value = some (pos value);
  gas = 0;
  gas_used = 0;
  input = [];
  output = [];
  error = error;
  logs = logs;
}

abbrev pub token_call : CallFrame
token_call = call (info_of 6 8 0 "" (token_log ∷ [])) no_calls

abbrev pub root_calls : Calls
root_calls =
    and_then token_call (and_then (call (info_of 6 9 1 "execution reverted" []) no_calls) no_calls)

abbrev pub root_info : CallInfo
root_info = info_of 5 6 3 "" []

abbrev pub trace : CallFrame
trace = call root_info root_calls

abbrev pub moved : Transfer
moved = record { standard = erc20; token = 8; from = 6; to = 7; amount = some 4; token_id = none }

-- Decoders of one request.
abbrev pub codec : Codec
codec = record {
  unmarshal_strings = λ bs. ok ("0x02" ∷ []);
  hex_decode = λ s. ok (2 ∷ []);
  unmarshal_binary = λ bs. ok tx;
  sender = λ chain t. ok 5;
}

abbrev pub send : Request
send = record { jsonrpc = "2.0"; id = b'1' ∷ []; method = "eth_sendRawTransaction"; params = [] }

abbrev pub query : Request
query = record send { method = "eth_chainId" }

abbrev pub json : Json
json = record {
  trim_space = λ bs. bs;
  unmarshal_batch = λ bs. ok (query ∷ send ∷ []);
  unmarshal_request = λ bs. ok query;
}

abbrev pub batch_body : Bytes
batch_body = b'[' ∷ []

abbrev pub one_body : Bytes
one_body = b'{' ∷ []

-- The list names address 7; the node answers at once and keeps no state.
abbrev pub list : ListChecker
list = record { set = 7 ∷ [] }

abbrev pub cfg : ScreenerConfig (Unit {0})
cfg = record {
  list = ok list;
  oracle = none;
  threshold = pos 60;
  outflow_percent = pos 50;
  simulator = λ d. pure trace;
  freshness = λ a. pure false;
  status = λ a. pure established;
  balances = λ asset holder. pure (some 100);
}

abbrev pub engine : Engine (Unit {0})
engine = record { rules = rules geth cfg (list_checker list ∷ []) 50; threshold = 60 }
