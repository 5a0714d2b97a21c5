-- ===== src/Chainstate/Balances/Encoded.antt =====
-- What RPCBalances (internal/chainstate/balance.go) makes of a token's answer.
use tx_firewall.Base.{
  ℕ, zero, suc, ◌+◌, ◌*◌, ◌/◌, ◌%◌, ◌^◌, ◌<◌, Bytes, false, Option, none, some, [], ◌∷◌, ◌++◌, ◌≡◌,
  ◌≢◌, refl, ◌∙◌, Result, ok, err, Error, wrap, concat, arith, length, length-append, set_bytes,
  set_bytes_from, ◌==◌, ==_iff, as_rpc_error, String,
}
use tx_firewall.Base.Int.{ℤ}
use tx_firewall.Base.Exec.{Exec}
use tx_firewall.Geth.{Geth, Address, zero_address}
use tx_firewall.Chainstate.Balances.{balance_of_calldata, read_balance, token_balance, balance}

-- The last `k` bytes of a number, the highest first; the ABI encoding of a uint256 is its 32 bytes.
abbrev pub big_endian : ℕ → ℕ → Bytes
big_endian zero n = []
big_endian (suc k) n = big_endian k (n / 256) ++ n % 256 ∷ []

abbrev pub encode_uint256 : ℕ → Bytes
encode_uint256 = big_endian 32

bound : ℕ → ℕ
bound zero = 1
bound (suc k) = 256 * bound k

length-big_endian : (k n : ℕ) → length (big_endian k n) ≡ k
length-big_endian zero n = refl
length-big_endian (suc k) n =
    omega
      (arith, length-append (big_endian k (n / 256)) (n % 256 ∷ []), length-big_endian k (n / 256))

set_bytes_from-append :
    (acc : ℕ) (xs ys : Bytes)
    → set_bytes_from acc (xs ++ ys) ≡ set_bytes_from (set_bytes_from acc xs) ys
unfolding set_bytes_from
set_bytes_from-append acc [] ys = refl
set_bytes_from-append acc (x ∷ xs) ys = set_bytes_from-append (acc * 256 + x) xs ys

set_bytes_from-big_endian : (k n : ℕ) → n < bound k → set_bytes_from 0 (big_endian k n) ≡ n
unfolding set_bytes_from bound
set_bytes_from-big_endian zero n h = omega arith
set_bytes_from-big_endian (suc k) n h =
    set_bytes_from-append 0 (big_endian k (n / 256)) (n % 256 ∷ [])
    ∙ omega (arith, set_bytes_from-big_endian k (n / 256))

set_bytes-encode : (n : ℕ) → n < 2 ^ 256 → set_bytes (encode_uint256 n) ≡ n
unfolding set_bytes bound
set_bytes-encode n h = set_bytes_from-big_endian 32 n h

-- What a balance is, by what was answered to balanceOf: `none` is a balance that is not known.
pub data IsBalance (r : Result Bytes) : Result (Option ℕ) → Type 0 where
  encoded : (n : ℕ) → n < 2 ^ 256 → r ≡ ok (encode_uint256 n) → IsBalance r (ok (some n))
  malformed : (out : Bytes) → r ≡ ok out → length out ≢ 32 → IsBalance r (ok none)
  refused :
      (e : Error) (x : ℤ × String) → r ≡ err e → as_rpc_error e ≡ some x → IsBalance r (ok none)

module _ (g : Geth) (asset holder : Address) where
  -- The error in which the code wraps one that says nothing of the token.
  abbrev pub unread : Error → Error
  unread e =
      wrap (concat ("balance of " ∷ g.address_hex holder ∷ " in " ∷ g.address_hex asset ∷ [])) e

  read_balance-word :
      (out : Bytes) (n : ℕ)
      → length out ≡ 32
      → set_bytes out ≡ n
      → read_balance g asset holder (ok out) ≡ ok (some n)
  unfolding read_balance
  read_balance-word out n long reads = rw reads (ground (arith, ==_iff (length out) 32))

  IsBalance-read_balance :
      (r : Result Bytes) (b : Result (Option ℕ)) → IsBalance r b → read_balance g asset holder r ≡ b
  unfolding read_balance
  IsBalance-read_balance r _ (encoded n small e) =
      rw e
        (read_balance-word (encode_uint256 n) n (length-big_endian 32 n) (set_bytes-encode n small))
  IsBalance-read_balance r _ (malformed out e other) = rw e (ground (arith, ==_iff (length out) 32))
  IsBalance-read_balance r _ (refused e x p q) = rw (p, read_balance, q)

  read_balance-failed :
      (r : Result Bytes) (e : Error)
      → r ≡ err e
      → as_rpc_error e ≡ none
      → read_balance g asset holder r ≡ err (unread e)
  unfolding read_balance
  read_balance-failed r e p q = rw (p, read_balance, q)

  module _ {W : Type 0} (balance_at : Address → Exec W ℕ)
      (call_contract : Address → Bytes → Exec W Bytes) (w : W) where
    -- The node's answer to balanceOf.
    abbrev answer : Result Bytes
    answer = (call_contract asset (balance_of_calldata g holder) w).0

    -- The balance of a token, which is not the zero address, undoes the ABI encoding of any uint256
    -- that the token answers; it is not known if the answer has another length than 32 bytes, or if
    -- the node answers with a JSON-RPC error; and any other error is an error.
    pub balance-reads :
        asset ≢ zero_address
        → ((b : Result (Option ℕ))
            → IsBalance (call_contract asset (balance_of_calldata g holder) w).0 b
            → (balance g balance_at call_contract asset holder w).0 ≡ b)
          × ((e : Error)
              → (call_contract asset (balance_of_calldata g holder) w).0 ≡ err e
              → as_rpc_error e ≡ none
              → (balance g balance_at call_contract asset holder w).0 ≡ err (unread e))
    unfolding balance token_balance
    balance-reads other =
        let token : (asset == zero_address) ≡ false = ground (arith, ==_iff asset zero_address) in
        (
          λ b h. rw token (IsBalance-read_balance answer b h),
          λ e p q. rw token (read_balance-failed answer e p q),
        )
