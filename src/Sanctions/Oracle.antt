-- ===== src/Sanctions/Oracle.antt =====
-- internal/sanctions/oracle.go: a contract on the chain that answers by an ABI-encoded bool.
pub mod Strict
use tx_firewall.Base.{
  ℕ, String, Bool, true, false, Bytes, List, [], ◌∷◌, ◌++◌, Result, ok, err, plain, wrap, decimal,
  concat, length, take, drop, not, ◌==◌, if◌then◌else◌, any,
}
use tx_firewall.Base.Exec.{Exec, ◌>>=◌, lift, on_error}
use tx_firewall.Geth.{Geth, Address}
use tx_firewall.Sanctions.{Checker}

unfoldable pub not_a_bool : Result Bool
not_a_bool = err (plain "sanctions oracle: response is not a bool")

-- The `switch` on the last byte, `out[31]`.
unfoldable pub decode_last : Bytes → Result Bool
unfolding not_a_bool
decode_last [] = not_a_bool
decode_last (b ∷ _) = if b == 0 then ok false else if b == 1 then ok true else not_a_bool

unfoldable pub decode_bool : Bytes → Result Bool
decode_bool out =
    if not (length out == 32)
    then err (
        plain
          (concat ("sanctions oracle: unexpected response length " ∷ decimal (length out) ∷ [])))
    else if any (λ b. not (b == 0)) (take 31 out)
    then not_a_bool
    else decode_last (drop 31 out)

module _ (g : Geth) (oracle : Address) where
  open g use {address_bytes, address_hex, left_pad_32, keccak256}

  unfoldable pub is_sanctioned_selector : Bytes
  is_sanctioned_selector = take 4 (keccak256 "isSanctioned(address)")

  unfoldable pub is_sanctioned_calldata : Address → Bytes
  is_sanctioned_calldata addr = is_sanctioned_selector ++ left_pad_32 (address_bytes addr)

  module _ {W : Type 0} (call_contract : Address → Bytes → Exec W Bytes) where
    -- OracleChecker.IsSanctioned; `call_contract` is an eth_call within the timeout.
    unfoldable pub oracle_checker : Checker W
    oracle_checker addr =
        on_error (wrap "sanctions oracle call") (call_contract oracle (is_sanctioned_calldata addr))
        >>= λ out. lift (decode_bool out)

  unfoldable pub check_code : Bytes → Result (Unit {0})
  check_code [] = err (
      plain
        (concat ("sanctions oracle: no contract at " ∷ address_hex oracle ∷ " on this chain" ∷ [])))
  check_code (b ∷ bs) = ok tt

  module _ {W : Type 0} (code_at : Address → Exec W Bytes) where
    -- OracleChecker.Verify
    unfoldable pub verify : Exec W (Unit {0})
    verify = on_error (wrap "sanctions oracle") (code_at oracle) >>= λ code. lift (check_code code)
