-- ===== src/Base/Slices.antt =====
-- Byte slices and byte arrays, and the part of math/big that reads them.
use Prim.Native.Nat.{ℕ, suc, ◌+◌, ◌*◌}
use mathlib.Core.Path.{◌≡◌, refl}
use mathlib.Core.Bool.{Bool, true, false, ◌&&◌}
use mathlib.Core.List.{List, [], ◌∷◌, ◌++◌}
use native.Mathlib.Omega.{arith}
use tx_firewall.Base.Tests.{◌==◌}
use tx_firewall.Base.Lists.{length, take, drop}

-- A number stands for each byte.
abbrev pub Bytes : Type 0
Bytes = List ℕ

-- `==` on byte arrays.
abbrev pub bytes_eq : Bytes → Bytes → Bool
bytes_eq [] [] = true
bytes_eq [] (y ∷ ys) = false
bytes_eq (x ∷ xs) [] = false
bytes_eq (x ∷ xs) (y ∷ ys) = x == y && bytes_eq xs ys

pub bytes_eq_refl : (xs : Bytes) → bytes_eq xs xs ≡ true
bytes_eq_refl [] = refl
bytes_eq_refl (x ∷ xs) = ground (arith, bytes_eq_refl xs)

pub eq_of_bytes_eq : (xs ys : Bytes) → bytes_eq xs ys ≡ true → xs ≡ ys
eq_of_bytes_eq [] [] h = refl
eq_of_bytes_eq [] (y ∷ ys) h = ground arith
eq_of_bytes_eq (x ∷ xs) [] h = ground arith
eq_of_bytes_eq (x ∷ xs) (y ∷ ys) h = ground (arith, eq_of_bytes_eq xs ys)

unfoldable pub set_bytes_from : ℕ → Bytes → ℕ
set_bytes_from acc [] = acc
set_bytes_from acc (b ∷ bs) = set_bytes_from (acc * 256 + b) bs

-- `new(big.Int).SetBytes(bs)`: the big-endian number.
unfoldable pub set_bytes : Bytes → ℕ
unfolding set_bytes_from
set_bytes bs = set_bytes_from 0 bs

pub take-append : (xs ys : Bytes) {n : ℕ} → length xs ≡ n → take n (xs ++ ys) ≡ xs
take-append [] ys {n = ℕ.zero} h = refl
take-append [] ys {n = suc n} h = absurd (omega arith)
take-append (x ∷ xs) ys {n = ℕ.zero} h = absurd (omega arith)
take-append (x ∷ xs) ys {n = suc n} h = ground (arith, take-append xs ys {n = n})

pub drop-append : (xs ys : Bytes) {n : ℕ} → length xs ≡ n → drop n (xs ++ ys) ≡ ys
drop-append [] ys {n = ℕ.zero} h = refl
drop-append [] ys {n = suc n} h = absurd (omega arith)
drop-append (x ∷ xs) ys {n = ℕ.zero} h = absurd (omega arith)
drop-append (x ∷ xs) ys {n = suc n} h = ground (arith, drop-append xs ys {n = n})
