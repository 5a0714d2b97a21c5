-- ===== src/Sanctions/Listed/Format.antt =====
-- What a sanctions file says, line by line, and its checker (internal/sanctions).
use tx_firewall.Base.{
  Result-cases, ℕ, ◌+◌, String, Bool, true, false, none, List, [], ◌∷◌, ◌++◌, ◌≡◌, ◌↔◌, refl, ◌∙◌,
  ◌&&◌, ◌||◌, ok, not, any, contains, contains-append, is_empty, arith, Bool-cases, inl, inr,
  err-ne-ok, ok-injective, ◌==◌, ==_iff,
}
use tx_firewall.Geth.{Geth, Address}
use tx_firewall.Sanctions.Listed.{
  ListChecker, put_address, put_all, new_list_checker, is_listed, Line, cut_comment, trim_space,
  after_scan, checker_of, parse_lines, parse_list, load_list_checker,
}

contains_of_same :
    (a addr : Address) (set : List Address)
    → contains a set ≡ true
    → (a == addr) ≡ true
    → contains addr set ≡ true
contains_of_same a addr set old e = let p : a ≡ addr = (==_iff a addr).0 e in rw (← p) old

contains-put_address :
    (addr a : Address) (set : List Address)
    → contains addr (put_address a set) ≡ (contains addr set || a == addr)
unfolding put_address
contains-put_address addr a set = ground (arith, contains_of_same a addr set)

contains-put_all :
    (addr : Address) (addrs set : List Address)
    → contains addr (put_all addrs set) ≡ (contains addr set || contains addr addrs)
unfolding put_all
contains-put_all addr [] set = ground arith
contains-put_all addr (a ∷ addrs) set =
    ground (arith, contains-put_all addr addrs (put_address a set), contains-put_address addr a set)

module _ (g : Geth) (quote : Line → String) where
  -- What a line says, without its comment and its blanks.
  abbrev pub content : Line → Line
  content text = trim_space (cut_comment text)

  abbrev pub is_invalid : Line → Bool
  is_invalid text = not (is_empty (content text)) && not (g.is_hex_address (content text))

  -- The line names the address.
  abbrev pub names : Address → Line → Bool
  names addr text = not (is_empty (content text)) && g.hex_to_address (content text) == addr

  parse_lines-names :
      (n : ℕ) (addrs : List Address) (lines : List Line) (out : List Address) (addr : Address)
      → parse_lines g quote n addrs lines ≡ ok out
      → (contains addr out ≡ (contains addr addrs || any (names addr) lines))
        × (any is_invalid lines ≡ false)
  unfolding parse_lines
  parse_lines-names n addrs [] out addr h =
      let same : addrs ≡ out = ok-injective h in rw (← same) (ground arith, refl)
  parse_lines-names n addrs (text ∷ rest) out addr h = elim (Bool-cases (is_empty (content text))) [
    | inl blank ↦
        let (e, fine) = parse_lines-names (n + 1) addrs rest out addr (rw blank at h) in
        ground arith
    | inr full ↦ elim (Bool-cases (g.is_hex_address (content text))) [
      | inr bad ↦ absurd (err-ne-ok (rw (full, bad) at h))
      | inl good ↦
          let address = g.hex_to_address (content text) in
          let (e, fine) =
            parse_lines-names (n + 1) (addrs ++ address ∷ []) rest out addr
              (rw (full, good) at h) in
          ground (arith, contains-append addr addrs (address ∷ []))
    ]
  ]

  parse_lines_complete :
      (n : ℕ) (addrs : List Address) (lines : List Line)
      → any is_invalid lines ≡ false
      → (out : List Address) × (parse_lines g quote n addrs lines ≡ ok out)
  unfolding parse_lines
  parse_lines_complete n addrs [] h = (addrs, refl)
  parse_lines_complete n addrs (text ∷ rest) h = elim (Bool-cases (is_empty (content text))) [
    | inl blank ↦
        let (out, e) = parse_lines_complete (n + 1) addrs rest (ground arith) in (out, rw blank e)
    | inr full ↦
        let good : g.is_hex_address (content text) ≡ true = ground arith in
        let (out, e) =
          parse_lines_complete (n + 1) (addrs ++ g.hex_to_address (content text) ∷ []) rest
            (ground arith) in
        (out, rw (full, good) e)
  ]

  pub load_list_checker-names :
      (path : String) (lines : List Line) (c : ListChecker) (addr : Address)
      → load_list_checker g quote path (ok (lines, none)) ≡ ok c
      → (is_listed c addr ≡ any (names addr) lines) × (any is_invalid lines ≡ false)
  unfolding load_list_checker parse_list after_scan checker_of new_list_checker is_listed
  load_list_checker-names path lines c addr h =
      elim (Result-cases (parse_lines g quote 1 [] lines)) [
        | inl (out, p) ↦
            let made : new_list_checker out ≡ c =
              ok-injective (rw (load_list_checker, parse_list, p) at h) in
            let (e, fine) = parse_lines-names 1 [] lines out addr p in
            (rw (← made) (contains-put_all addr out [] ∙ e), fine)
        | inr (x, p) ↦ absurd (err-ne-ok (rw (load_list_checker, parse_list, p) at h))
      ]

  pub load_list_checker_complete :
      (path : String) (lines : List Line)
      → any is_invalid lines ≡ false
      → (c : ListChecker) × (load_list_checker g quote path (ok (lines, none)) ≡ ok c)
  unfolding load_list_checker parse_list after_scan checker_of
  load_list_checker_complete path lines h =
      let (out, p) = parse_lines_complete 1 [] lines h in
      (new_list_checker out, rw (load_list_checker, parse_list, p))

  -- A file that could be read is loaded exactly if each of its lines, without its comment and blanks,
  -- is empty or an address; and the list's checker then says of an address that it is sanctioned
  -- exactly if a line names it.
  pub load_list_checker_iff :
      (path : String) (lines : List Line)
      → ((any is_invalid lines ≡ false)
          ↔ ((c : ListChecker) × (load_list_checker g quote path (ok (lines, none)) ≡ ok c)))
        × ((c : ListChecker) (addr : Address)
            → load_list_checker g quote path (ok (lines, none)) ≡ ok c
            → is_listed c addr ≡ any (names addr) lines)
  load_list_checker_iff path lines = (
    (
      load_list_checker_complete path lines,
      λ (c, loaded). (load_list_checker-names path lines c 0 loaded).1,
    ),
    λ c addr loaded. (load_list_checker-names path lines c addr loaded).0,
  )
