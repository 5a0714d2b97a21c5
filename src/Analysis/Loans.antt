-- ===== src/Analysis/Loans.antt =====
-- internal/analysis/flashloan.go: loans that are borrowed and repaid within the transaction.
pub mod Pattern
pub mod Merge
use tx_firewall.Base.{
  ℕ, ◌+◌, String, Bool, Option, none, some, List, [], ◌∷◌, ◌++◌, ◌||◌, ◌&&◌, ◌==◌, not,
  if◌then◌else◌, leb, any,
}
use tx_firewall.Geth.{Address, zero_address}
use tx_firewall.Events.Transfer.{Transfer, is_erc20}
use tx_firewall.Analysis.Flows.{amount_of}

abbrev pub repaid_pattern : String
repaid_pattern = "borrow-and-repay pattern"

pub record FlashLoan : Type 0 where
  pub lender : Address
  pub token : Address
  pub amount : Option ℕ
  pub source : String

-- The local type `key`.
pub record LoanKey : Type 0 where
  pub lender : Address
  pub token : Address

abbrev pub loan_key_eq : LoanKey → LoanKey → Bool
loan_key_eq k l = k.lender == l.lender && k.token == l.token

-- `seen[k]`
abbrev pub is_seen : LoanKey → List LoanKey → Bool
is_seen k seen = any (λ l. loan_key_eq l k) seen

-- The `continue` of the outer loop: no loan can start here.
unfoldable pub is_no_borrow : Transfer → Bool
is_no_borrow out =
    not (is_erc20 out.standard)
    || out.from == zero_address
    || out.from == out.to
    || amount_of out == 0

unfoldable pub repays : Transfer → Transfer → Bool
repays out back =
    is_erc20 back.standard
    && back.token == out.token
    && back.to == out.from
    && not (back.from == out.from)

-- The inner loop.
unfoldable pub sum_repaid : Transfer → ℕ → List Transfer → ℕ
sum_repaid out repaid [] = repaid
sum_repaid out repaid (back ∷ rest) =
    sum_repaid out (if repays out back then repaid + amount_of back else repaid) rest

abbrev pub key_of : Transfer → LoanKey
key_of out = record { lender = out.from; token = out.token }

abbrev pub loan_of : Transfer → FlashLoan
loan_of out = record {
  lender = out.from;
  token = out.token;
  amount = some (amount_of out);
  source = repaid_pattern;
}

-- The tests of one round of the outer loop.
unfoldable pub is_loan : List LoanKey → Transfer → List Transfer → Bool
is_loan seen out rest =
    not (is_no_borrow out)
    && not (is_seen (key_of out) seen)
    && leb (amount_of out) (sum_repaid out 0 rest)

-- The outer loop.
unfoldable pub find_from : List LoanKey → List FlashLoan → List Transfer → List FlashLoan
find_from seen loans [] = loans
find_from seen loans (out ∷ rest) =
    let now = is_loan seen out rest in
    find_from (if now then key_of out ∷ seen else seen)
      (if now then loans ++ loan_of out ∷ [] else loans) rest

unfoldable pub find_repaid_loans : List Transfer → List FlashLoan
unfolding find_from
find_repaid_loans transfers = find_from [] [] transfers

-- The two loops of mergeFlashLoans. `named` holds the keys of the map.
unfoldable pub lenders_of : List FlashLoan → List Address
lenders_of [] = []
lenders_of (l ∷ ls) = l.lender ∷ lenders_of ls

unfoldable pub add_unnamed : List Address → List FlashLoan → List FlashLoan → List FlashLoan
add_unnamed named loans [] = loans
add_unnamed named loans (l ∷ ls) =
    add_unnamed named (if any (λ x. x == l.lender) named then loans else loans ++ l ∷ []) ls

unfoldable pub merge_flash_loans : List FlashLoan → List FlashLoan → List FlashLoan
unfolding add_unnamed
merge_flash_loans announced repaid = add_unnamed (lenders_of announced) announced repaid
