-- ===== src/Analysis/Loans/Merge.antt =====
-- What mergeFlashLoans keeps.
use tx_firewall.Base.{
  Bool, List, [], ◌∷◌, ◌++◌, ◌≡◌, refl, sym, ◌∙◌, ap, not, any, keep, ◌==◌, append_assoc,
  append-nil, Bool-cases, inl, inr, arith,
}
use tx_firewall.Geth.{Address}
use tx_firewall.Analysis.Loans.{FlashLoan, lenders_of, add_unnamed, merge_flash_loans}

-- One of the loans is the lender's.
abbrev pub lends : List FlashLoan → Address → Bool
lends loans x = any (λ l. l.lender == x) loans

any-lenders_of :
    (x : Address) (ls : List FlashLoan) → any (λ y. y == x) (lenders_of ls) ≡ lends ls x
unfolding lenders_of
any-lenders_of x [] = refl
any-lenders_of x (l ∷ ls) = ground (arith, any-lenders_of x ls)

add_unnamed-keep :
    (named : List Address) (loans ls : List FlashLoan)
    → add_unnamed named loans ls ≡ loans ++ keep (λ l. not (any (λ y. y == l.lender) named)) ls
unfolding add_unnamed
add_unnamed-keep named loans [] = sym (append-nil loans)
add_unnamed-keep named loans (l ∷ ls) = elim (Bool-cases (any (λ y. y == l.lender) named)) [
  | inl old ↦ rw old (add_unnamed-keep named loans ls)
  | inr new ↦ rw new (add_unnamed-keep named (loans ++ l ∷ []) ls ∙ append_assoc loans (l ∷ []) _)
]

keep-ext :
    {A : Type 0} (p q : A → Bool) (xs : List A) → ((x : A) → p x ≡ q x) → keep p xs ≡ keep q xs
keep-ext p q [] h = refl
keep-ext p q (x ∷ xs) h = ground (arith, h x, keep-ext p q xs h)

-- The merged loans are all that protocols announced, in order, and behind them, in order, those of
-- the pattern whose lender none of the announced ones names.
pub merge_flash_loans-keep :
    (announced repaid : List FlashLoan)
    → merge_flash_loans announced repaid
      ≡ announced ++ keep (λ l. not (lends announced l.lender)) repaid
unfolding merge_flash_loans
merge_flash_loans-keep announced repaid =
    add_unnamed-keep (lenders_of announced) announced repaid
    ∙ ap (◌++◌ announced) (keep-ext _ _ repaid (λ l. ap not (any-lenders_of l.lender announced)))
