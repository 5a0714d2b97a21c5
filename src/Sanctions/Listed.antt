-- ===== src/Sanctions/Listed.antt =====
-- internal/sanctions/sanctions.go: the list of addresses, its file format and its checker.
pub mod Format
use tx_firewall.Base.{
  ℕ, ◌+◌, String, Bool, Option, none, some, List, [], ◌∷◌, ◌++◌, Result, ok, err, Error, plain,
  wrap, decimal, concat, contains, length, not, ◌&&◌, ◌||◌, ◌==◌, leb, if◌then◌else◌, is_empty,
}
use tx_firewall.Base.Exec.{pure, remap}
use tx_firewall.Geth.{Geth, Address}
use tx_firewall.Sanctions.{Checker}
use mathlib.Core.List.{reverse}

-- The keys of the map, without duplicates.
pub record ListChecker : Type 0 where
  pub set : List Address

unfoldable pub put_address : Address → List Address → List Address
put_address a set = if contains a set then set else a ∷ set

unfoldable pub put_all : List Address → List Address → List Address
put_all [] set = set
put_all (a ∷ addrs) set = put_all addrs (put_address a set)

unfoldable pub new_list_checker : List Address → ListChecker
new_list_checker addrs = record { set = put_all addrs [] }

unfoldable pub is_listed : ListChecker → Address → Bool
is_listed c addr = contains addr c.set

-- ListChecker.IsSanctioned
unfoldable pub list_checker : {W : Type 0} → ListChecker → Checker W
list_checker c addr = pure (is_listed c addr)

unfoldable pub count : ListChecker → ℕ
count c = length c.set

-- A line, as its code points.
abbrev pub Line : Type 0
Line = List ℕ

-- The first part of `strings.Cut(line, "#")`.
unfoldable pub cut_comment : Line → Line
cut_comment [] = []
cut_comment (c ∷ cs) = if c == b'#' then [] else c ∷ cut_comment cs

-- unicode.IsSpace
unfoldable pub is_space : ℕ → Bool
is_space c =
    leb 9 c && leb c 13
    || c == 0x20
    || c == 0x85
    || c == 0xa0
    || c == 0x1680
    || leb 0x2000 c && leb c 0x200a
    || c == 0x2028
    || c == 0x2029
    || c == 0x202f
    || c == 0x205f
    || c == 0x3000

unfoldable pub trim_left : Line → Line
trim_left [] = []
trim_left (c ∷ cs) = let rest = trim_left cs in if is_space c then rest else c ∷ cs

-- strings.TrimSpace
unfoldable pub trim_space : Line → Line
trim_space s = reverse (trim_left (reverse (trim_left s)))

-- The check of `scanner.Err()` behind the loop.
unfoldable pub after_scan : Result (List Address) → Option Error → Result (List Address)
after_scan (err e) _ = err e
after_scan (ok addrs) none = ok addrs
after_scan (ok addrs) (some e) = err (wrap "read sanctions list" e)

unfoldable pub checker_of : Result (List Address) → Result ListChecker
unfolding new_list_checker
checker_of (ok addrs) = ok (new_list_checker addrs)
checker_of (err e) = err e

module _ (g : Geth) (quote : Line → String) where
  open g use {is_hex_address, hex_to_address}

  -- The loop of parseList over the lines that the scanner yields; `quote` is the verb %q.
  unfoldable pub parse_lines : ℕ → List Address → List Line → Result (List Address)
  parse_lines n addrs [] = ok addrs
  parse_lines n addrs (text ∷ rest) =
      let line = trim_space (cut_comment text) in
      let skip = parse_lines (n + 1) addrs rest in
      let add = parse_lines (n + 1) (addrs ++ hex_to_address line ∷ []) rest in
      if is_empty line
      then skip
      else if not (is_hex_address line)
      then err (plain (concat ("line " ∷ decimal n ∷ ": invalid address " ∷ quote line ∷ [])))
      else add

  -- parseList; a reader yields lines, and perhaps an error behind them.
  unfoldable pub parse_list : List Line → Option Error → Result (List Address)
  unfolding parse_lines after_scan
  parse_list lines failure = after_scan (parse_lines 1 [] lines) failure

  -- LoadListChecker; `opened` is what os.Open and the scanner give for the path.
  unfoldable pub load_list_checker : String → Result (List Line × Option Error) → Result ListChecker
  unfolding parse_list checker_of
  load_list_checker path (err e) = err (wrap "open sanctions list" e)
  load_list_checker path (ok (lines, failure)) =
      checker_of (remap (wrap path) (parse_list lines failure))
