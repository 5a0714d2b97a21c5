-- ===== src/Strconv.antt =====
-- What the code uses of Go's strconv: texts of decimal digits, read as 64-bit numbers. A failure is
-- `none`; its caller only asks whether there is one.
use Prim.Native.Char.{code}
use tx_firewall.Base.{
  ℕ, zero, suc, ◌+◌, ◌-◌, ◌*◌, ◌^◌, String, Option, none, some, List, [], ◌∷◌, ◌&&◌, ltb, leb, ◌==◌,
  if◌then◌else◌,
}
use tx_firewall.Base.Int.{ℤ, pos, negsuc}

-- The code points of a text.
abbrev pub codes : String → List ℕ
codes String.[] = []
codes (String.◌∷◌ c s) = code c ∷ codes s

unfoldable pub read_digits : ℕ → List ℕ → Option ℕ
read_digits n [] = some n
read_digits n (c ∷ cs) =
    let rest = read_digits (n * 10 + (c - b'0')) cs in
    if leb b'0' c && leb c b'9' then rest else none

-- One or more digits.
unfoldable pub digits : List ℕ → Option ℕ
unfolding read_digits
digits [] = none
digits (c ∷ cs) = read_digits 0 (c ∷ cs)

unfoldable pub within_uint : Option ℕ → Option ℕ
within_uint none = none
within_uint (some n) = if ltb n (2 ^ 64) then some n else none

-- strconv.ParseUint(s, 10, 64)
unfoldable pub parse_uint : String → Option ℕ
unfolding digits within_uint
parse_uint s = within_uint (digits (codes s))

unfoldable pub positive : Option ℕ → Option ℤ
positive none = none
positive (some n) = if ltb n (2 ^ 63) then some (pos n) else none

unfoldable pub negative : Option ℕ → Option ℤ
negative none = none
negative (some zero) = some (pos 0)
negative (some (suc n)) = if ltb n (2 ^ 63) then some (negsuc n) else none

unfoldable pub signed : List ℕ → Option ℤ
unfolding digits positive negative
signed [] = none
signed (c ∷ cs) =
    if c == b'-'
    then negative (digits cs)
    else if c == b'+'
    then positive (digits cs)
    else positive (digits (c ∷ cs))

-- strconv.Atoi, where an int has 64 bits.
unfoldable pub atoi : String → Option ℤ
unfolding signed
atoi s = signed (codes s)
