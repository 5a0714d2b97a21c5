-- ===== src/Analysis/Loans/Pattern.antt =====
-- What findRepaidLoans reports, against the shape that it looks for.
use tx_firewall.Base.{
  ℕ, ◌+◌, ◌≤◌, ◌<◌, ◌≢◌, ◌==◌, ◌&&◌, not, some, Bool, true, false, List, [], ◌∷◌, ◌++◌, ◌≡◌, refl,
  sym, ◌∙◌, inl, inr, ◌||◌, if◌then◌else◌, any, any-append, sum_by, All, All-append, arith,
  Bool-cases, append_assoc, ◌↔◌,
}
use tx_firewall.Events.Transfer.{Transfer, TokenStandard, erc20, erc721, is_erc20}
use tx_firewall.Analysis.Flows.{amount_of}
use tx_firewall.Analysis.Flows.Movements.{amount_in, amount_of-amount_in}
use tx_firewall.Analysis.Loans.{
  FlashLoan, LoanKey, is_seen, is_no_borrow, repays, sum_repaid, key_of, loan_of, is_loan,
  find_from, find_repaid_loans,
}

abbrev pub has_amount : TokenStandard → Bool
has_amount erc20 = true
has_amount erc721 = false

sum_repaid-sum_by :
    (out : Transfer) (n : ℕ) (rest : List Transfer)
    → sum_repaid out n rest
      ≡ n + sum_by (λ back. if repays out back then amount_of back else 0) rest
unfolding sum_repaid sum_by
sum_repaid-sum_by out n [] = omega arith
sum_repaid-sum_by out n (back ∷ rest) =
    ground (arith, sum_repaid-sum_by out (n + amount_of back) rest, sum_repaid-sum_by out n rest)

-- What a later transfer gives back: the token, to the address that it came from, and not from that
-- address itself.
abbrev pub returned : Transfer → Transfer → ℕ
returned out back =
    if has_amount back.standard
      && back.token == out.token
      && back.to == out.from
      && not (back.from == out.from)
    then amount_in back.amount
    else 0

-- An ERC-20 transfer of something, from an address other than the zero address to another one, and
-- at least as much of it comes back later.
pub record IsRepaid (out : Transfer) (later : List Transfer) : Type 0 where
  pub fungible : out.standard ≡ erc20
  pub lent : out.from ≢ 0
  pub other : out.from ≢ out.to
  pub positive : 0 < amount_in out.amount
  pub repaid : amount_in out.amount ≤ sum_by (returned out) later

is_erc20-has_amount : (s : TokenStandard) → is_erc20 s ≡ has_amount s
is_erc20-has_amount erc20 = refl
is_erc20-has_amount erc721 = refl

has_amount-erc20 : (s : TokenStandard) → has_amount s ≡ true → s ≡ erc20
has_amount-erc20 erc20 h = refl
has_amount-erc20 erc721 h = cc

repays-returned :
    (out back : Transfer) → (if repays out back then amount_of back else 0) ≡ returned out back
unfolding repays
repays-returned out back = rw (is_erc20-has_amount back.standard, amount_of-amount_in back) refl

sum_returned :
    (out : Transfer) (later : List Transfer)
    → sum_by (λ back. if repays out back then amount_of back else 0) later
      ≡ sum_by (returned out) later
unfolding sum_by
sum_returned out [] = refl
sum_returned out (back ∷ later) = omega (arith, repays-returned out back, sum_returned out later)

borrows-IsRepaid :
    (out : Transfer) (later : List Transfer)
    → is_no_borrow out ≡ false
    → amount_of out ≤ sum_by (returned out) later
    → IsRepaid out later
unfolding is_no_borrow
borrows-IsRepaid out later h k =
    let same = amount_of-amount_in out in
    record {
      fungible = has_amount-erc20 out.standard (ground (arith, is_erc20-has_amount out.standard));
      lent = λ e. ground arith;
      other = λ e. ground arith;
      positive = ground (arith, same);
      repaid = omega (arith, same);
    }

IsRepaid-borrows :
    (out : Transfer) (later : List Transfer)
    → IsRepaid out later
    → (is_no_borrow out ≡ false) × (amount_of out ≤ sum_by (returned out) later)
unfolding is_no_borrow
IsRepaid-borrows out later h =
    let same = amount_of-amount_in out in
    let token : is_erc20 out.standard ≡ true = rw h.fungible refl in
    let lent : (out.from == 0) ≡ false = ground (arith, h.lent) in
    let other : (out.from == out.to) ≡ false = ground (arith, h.other) in
    (ground (arith, same, token, lent, other, h.positive), omega (arith, same, h.repaid))

is_loan_iff :
    (seen : List LoanKey) (out : Transfer) (rest : List Transfer)
    → (is_loan seen out rest ≡ true) ↔ ((is_seen (key_of out) seen ≡ false) × IsRepaid out rest)
unfolding is_loan
is_loan_iff seen out rest =
    let sums = sum_repaid-sum_by out 0 rest in
    let same = sum_returned out rest in
    (
      λ h. (ground arith, borrows-IsRepaid out rest (ground arith) (ground (arith, sums, same))),
      λ (new, repaid).
          let (borrows, enough) = IsRepaid-borrows out rest repaid in ground (arith, sums, same),
    )

abbrev loan_key : FlashLoan → LoanKey
loan_key l = record { lender = l.lender; token = l.token }

-- The loan is a transfer of the list that is repaid behind it.
abbrev pub IsFoundIn : List Transfer → FlashLoan → Type 0
IsFoundIn transfers l =
    (before : List Transfer) × (out : Transfer) × (after : List Transfer) × (transfers
      ≡ before ++ out ∷ after)
    × (l ≡ record {
      lender = out.from;
      token = out.token;
      amount = some (amount_in out.amount);
      source = "borrow-and-repay pattern";
    })
    × IsRepaid out after

loan_of-lent :
    (out : Transfer)
    → loan_of out ≡ record {
      lender = out.from;
      token = out.token;
      amount = some (amount_in out.amount);
      source = "borrow-and-repay pattern";
    }
loan_of-lent out = rw (amount_of-amount_in out) refl

-- A pair is among the loans.
abbrev pub has_loan : LoanKey → List FlashLoan → Bool
has_loan k loans = any (λ l. l.lender == k.lender && l.token == k.token) loans

abbrev pub IsOnce : List FlashLoan → Type 0
IsOnce [] = Unit
IsOnce (l ∷ ls) = (has_loan (loan_key l) ls ≡ false) × IsOnce ls

has_loan-append :
    (k : LoanKey) (ls ms : List FlashLoan)
    → has_loan k (ls ++ ms) ≡ (has_loan k ls || has_loan k ms)
has_loan-append k ls ms = any-append (λ l. l.lender == k.lender && l.token == k.token) ls ms

IsOnce-concat :
    (l : FlashLoan) (ls : List FlashLoan)
    → IsOnce ls
    → has_loan (loan_key l) ls ≡ false
    → IsOnce (ls ++ l ∷ [])
IsOnce-concat l [] h new = (refl, tt)
IsOnce-concat l (m ∷ ls) (once, h) new =
    (ground (arith, has_loan-append (loan_key m) ls (l ∷ [])), IsOnce-concat l ls h (ground arith))

-- `seen` holds the pairs of the loans so far.
pub record IsTracked (seen : List LoanKey) (loans : List FlashLoan) : Type 0 where
  pub at : (k : LoanKey) → is_seen k seen ≡ has_loan k loans
  pub once : IsOnce loans

IsTracked-add :
    (seen : List LoanKey) (loans : List FlashLoan) (out : Transfer)
    → IsTracked seen loans
    → is_seen (key_of out) seen ≡ false
    → IsTracked (key_of out ∷ seen) (loans ++ loan_of out ∷ [])
IsTracked-add seen loans out h new = record {
  at = λ k. ground (arith, has_loan-append k loans (loan_of out ∷ []), h.at k);
  once = IsOnce-concat (loan_of out) loans h.once (sym (h.at (key_of out)) ∙ new);
}

module _ (transfers : List Transfer) where
  find_from-found :
      (done rest : List Transfer) (seen : List LoanKey) (loans : List FlashLoan)
      → transfers ≡ done ++ rest
      → IsTracked seen loans
      → All (IsFoundIn transfers) loans
      → All (IsFoundIn transfers) (find_from seen loans rest) × IsOnce (find_from seen loans rest)
  unfolding find_from
  find_from-found done [] seen loans e h found = (found, h.once)
  find_from-found done (out ∷ rest) seen loans e h found =
      let e' : transfers ≡ (done ++ out ∷ []) ++ rest =
        e ∙ sym (append_assoc done (out ∷ []) rest) in
      elim (Bool-cases (is_loan seen out rest)) [
        | inr skip ↦ rw skip (find_from-found (done ++ out ∷ []) rest seen loans e' h found)
        | inl now ↦
            let (new, repaid) = (is_loan_iff seen out rest).0 now in
            rw now (
              find_from-found (done ++ out ∷ []) rest (key_of out ∷ seen)
                (loans ++ loan_of out ∷ []) e' (IsTracked-add seen loans out h new)
                (All-append (IsFoundIn transfers) loans (loan_of out ∷ []) found
                  ((done, out, rest, e, loan_of-lent out, repaid), tt)))
      ]

find_from-keeps :
    (k : LoanKey) (rest : List Transfer) (seen : List LoanKey) (loans : List FlashLoan)
    → has_loan k loans ≡ true
    → has_loan k (find_from seen loans rest) ≡ true
unfolding find_from
find_from-keeps k [] seen loans h = h
find_from-keeps k (out ∷ rest) seen loans h = elim (Bool-cases (is_loan seen out rest)) [
  | inl now ↦
      rw now
        (find_from-keeps k rest _ _ (ground (arith, has_loan-append k loans (loan_of out ∷ []))))
  | inr skip ↦ rw skip (find_from-keeps k rest seen loans h)
]

find_from_complete :
    (before : List Transfer) (out : Transfer) (after : List Transfer) (seen : List LoanKey)
    (loans : List FlashLoan)
    → IsTracked seen loans
    → IsRepaid out after
    → has_loan (key_of out) (find_from seen loans (before ++ out ∷ after)) ≡ true
unfolding find_from
find_from_complete [] out after seen loans h repaid = elim (Bool-cases (is_loan seen out after)) [
  | inl now ↦
      rw (find_from, now)
        (find_from-keeps (key_of out) after _ _
          (ground (arith, has_loan-append (key_of out) loans (loan_of out ∷ []))))
  | inr skip ↦
      rw (find_from, skip)
        (find_from-keeps (key_of out) after seen loans
          (ground (arith, h.at (key_of out), (is_loan_iff seen out after).1)))
]
find_from_complete (b ∷ before) out after seen loans h repaid =
    elim (Bool-cases (is_loan seen b (before ++ out ∷ after))) [
      | inl now ↦
          let (new, _) = (is_loan_iff seen b (before ++ out ∷ after)).0 now in
          rw (find_from, now)
            (find_from_complete before out after _ _ (IsTracked-add seen loans b h new) repaid)
      | inr skip ↦ rw (find_from, skip) (find_from_complete before out after seen loans h repaid)
    ]

start : IsTracked [] []
start = record { at = λ k. refl; once = tt }

-- Every loan that is reported is an ERC-20 transfer that is neither from the zero address nor to
-- oneself nor of nothing, and at least its amount comes back to the same address in later
-- transfers of the token from others; and no two loans share lender and token.
pub find_repaid_loans-found :
    (transfers : List Transfer)
    → All (IsFoundIn transfers) (find_repaid_loans transfers) × IsOnce (find_repaid_loans transfers)
unfolding find_repaid_loans
find_repaid_loans-found transfers = find_from-found transfers [] transfers [] [] refl start tt

-- Every such transfer has a loan with its lender and token.
pub find_repaid_loans_complete :
    (before : List Transfer) (out : Transfer) (after : List Transfer)
    → IsRepaid out after
    → has_loan
        (record { lender = out.from; token = out.token })
        (find_repaid_loans (before ++ out ∷ after))
      ≡ true
unfolding find_repaid_loans
find_repaid_loans_complete before out after repaid =
    find_from_complete before out after [] [] start repaid
