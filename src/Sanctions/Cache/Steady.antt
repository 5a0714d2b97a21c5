-- ===== src/Sanctions/Cache/Steady.antt =====
-- The oracle's cache before an oracle that keeps to its answers (internal/sanctions/cache.go).
use tx_firewall.Base.{
  ℕ, Bool, some, [], ◌∷◌, ◌≡◌, refl, sym, ◌∙◌, ok, arith, ◌==◌, ==_iff, keep, leb, length,
  Bool-cases, Option-cases, inl, inr, All,
}
use tx_firewall.Base.Exec.{Returns}
use tx_firewall.Geth.{Address}
use tx_firewall.Sanctions.{Checker}
use tx_firewall.Sanctions.Cache.{
  CacheEntry, Entries, is_live, get_entry, put_entry, hit, evict, store, remember, cached_checker,
}
use tx_firewall.Sanctions.Cache.Sharing.{hit-inv}

module _ (flagged : Address → Bool) where
  -- Every entry holds the oracle's answer.
  abbrev IsTrue : Address × CacheEntry → Type 0
  IsTrue p = p.1.sanctioned ≡ flagged p.0

  abbrev pub AllTrue : Entries → Type 0
  AllTrue = All IsTrue

  AllTrue-get_entry :
      (addr : Address) (e : CacheEntry) (m : Entries)
      → AllTrue m
      → get_entry addr m ≡ some e
      → e.sanctioned ≡ flagged addr
  unfolding get_entry
  AllTrue-get_entry addr e [] h found = cc
  AllTrue-get_entry addr e ((a, d) ∷ m) (p, h) found = elim (Bool-cases (a == addr)) [
    | inl same ↦
        let q : a ≡ addr = (==_iff a addr).0 same in let r : d ≡ e = ground arith in rw (← q, ← r) p
    | inr other ↦ AllTrue-get_entry addr e m h (ground arith)
  ]

  AllTrue-put_entry :
      (addr : Address) (e : CacheEntry) (m : Entries)
      → IsTrue (addr, e)
      → AllTrue m
      → AllTrue (put_entry addr e m)
  unfolding put_entry
  AllTrue-put_entry addr e [] p h = (p, tt)
  AllTrue-put_entry addr e ((a, d) ∷ m) p (q, h) = elim (Bool-cases (a == addr)) [
    | inl same ↦ rw same (p, h)
    | inr other ↦ rw other (q, AllTrue-put_entry addr e m p h)
  ]

  AllTrue-keep : (f : Address × CacheEntry → Bool) (m : Entries) → AllTrue m → AllTrue (keep f m)
  AllTrue-keep f [] h = tt
  AllTrue-keep f (x ∷ m) (p, h) = elim (Bool-cases (f x)) [
    | inl kept ↦ rw kept (p, AllTrue-keep f m h)
    | inr dropped ↦ rw dropped (AllTrue-keep f m h)
  ]

  module _ (ttl max_entries : ℕ) where
    AllTrue-evict : (now : ℕ) (m : Entries) → AllTrue m → AllTrue (evict ttl max_entries now m)
    unfolding evict
    AllTrue-evict now m h = ground (arith, AllTrue-keep (λ p. is_live now p.1) m h)

    AllTrue-store :
        (now : ℕ) (addr : Address) (m : Entries)
        → AllTrue m
        → AllTrue (store ttl max_entries now addr (flagged addr) m)
    unfolding store
    AllTrue-store now addr m h = elim (Bool-cases (leb max_entries (length m))) [
      | inl full ↦ rw full (AllTrue-put_entry addr _ _ refl (AllTrue-evict now m h))
      | inr room ↦ rw room (AllTrue-put_entry addr _ _ refl h)
    ]

    module _ {W : Type 0} {Q : W → Type 0} (clock : W → ℕ) (next : Checker W)
        (answers : (x : Address) → Returns Q (next x) (ok (flagged x))) where
      abbrev pub IsSteady : Entries × W → Type 0
      IsSteady s = AllTrue s.0 × Q s.1

      pub cached_checker-Returns :
          (addr : Address)
          → Returns IsSteady (cached_checker ttl max_entries clock next addr) (ok (flagged addr))
      unfolding cached_checker remember
      cached_checker-Returns addr = record {
        at = λ (m, w) (h, q). elim (Option-cases (hit (clock w) addr m)) [
          | inr (b, found) ↦
              let (e, at, _, same) = hit-inv (clock w) addr b m found in
              let right : b ≡ flagged addr = sym same ∙ AllTrue-get_entry addr e m h at in
              rw (found, cached_checker, right) (refl, (h, q))
          | inl absent ↦
              let (e, q') = (answers addr).at w q in
              rw (absent, cached_checker, e, remember)
                (refl, (AllTrue-store (clock w) addr m h, q'))
        ];
      }
