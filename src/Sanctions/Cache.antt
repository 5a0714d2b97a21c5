-- ===== src/Sanctions/Cache.antt =====
-- internal/sanctions/cache.go: answers of a slower checker, kept for a time. The mutex makes the
-- read of an entry and the write of one atomic; the call of the slower checker lies between them.
pub mod Sharing
pub mod Remembering
pub mod Steady
use tx_firewall.Base.{
  ℕ, ◌+◌, Bool, true, false, Option, none, some, List, [], ◌∷◌, Result, ok, err, length, not, leb,
  ltb, ◌==◌, if◌then◌else◌, keep,
}
use tx_firewall.Base.Exec.{Exec}
use tx_firewall.Geth.{Address}
use tx_firewall.Sanctions.{Checker}

-- Times and durations in nanoseconds.
pub record CacheEntry : Type 0 where
  pub sanctioned : Bool
  pub expires : ℕ

-- The entries of a map, one for each key.
abbrev pub Entries : Type 0
Entries = List (Address × CacheEntry)

unfoldable pub get_entry : Address → Entries → Option CacheEntry
get_entry addr [] = none
get_entry addr ((a, e) ∷ m) = if a == addr then some e else get_entry addr m

unfoldable pub put_entry : Address → CacheEntry → Entries → Entries
put_entry addr e [] = (addr, e) ∷ []
put_entry addr e ((a, d) ∷ m) = if a == addr then (addr, e) ∷ m else (a, d) ∷ put_entry addr e m

-- `now.Before(e.expires)`
abbrev pub is_live : ℕ → CacheEntry → Bool
is_live now e = ltb now e.expires

-- What IsSanctioned returns without asking, if anything: its first locked section.
unfoldable pub hit : ℕ → Address → Entries → Option Bool
hit now addr entries = elim (get_entry addr entries) [
  | none ↦ none
  | some e ↦ if is_live now e then some e.sanctioned else none
]

module _ (ttl max_entries : ℕ) where
  unfoldable pub evict : ℕ → Entries → Entries
  evict now entries =
      let live = keep (λ p. is_live now p.1) entries in
      if leb max_entries (length live) then [] else live

  -- The second locked section.
  unfoldable pub store : ℕ → Address → Bool → Entries → Entries
  store now addr sanctioned entries =
      put_entry addr (record { sanctioned = sanctioned; expires = now + ttl })
        (if leb max_entries (length entries) then evict now entries else entries)

  module _ {W : Type 0} (clock : W → ℕ) (next : Checker W) where
    unfoldable pub remember : ℕ → Address → Entries → Result Bool → W → Result Bool × (Entries × W)
    remember now addr entries (err e) w = (err e, (entries, w))
    remember now addr entries (ok sanctioned) w =
        (ok sanctioned, (store now addr sanctioned entries, w))

    -- CachedChecker.IsSanctioned
    unfoldable pub cached_checker : Checker (Entries × W)
    cached_checker addr (entries, w) = elim (hit (clock w) addr entries) [
      | some sanctioned ↦ (ok sanctioned, (entries, w))
      | none ↦ remember (clock w) addr entries (next addr w).0 (next addr w).1
    ]
