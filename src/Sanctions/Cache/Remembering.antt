-- ===== src/Sanctions/Cache/Remembering.antt =====
-- How long the oracle's cache (internal/sanctions/cache.go) keeps an answer, and a failure.
use tx_firewall.Base.{
  ℕ, ◌+◌, ◌≤◌, ◌<◌, Bool, some, none, List, [], ◌∷◌, ◌≡◌, ◌≢◌, refl, ◌∙◌, ok, err, Error, arith,
  length, leb, ◌==◌, ==_iff, All, if◌then◌else◌,
}
use tx_firewall.Geth.{Address}
use tx_firewall.Sanctions.{Checker}
use tx_firewall.Sanctions.Cache.{
  CacheEntry, Entries, get_entry, put_entry, hit, evict, store, remember, cached_checker,
}
use tx_firewall.Sanctions.Cache.Sharing.{Answer, length-put_entry-le}

get_entry-put_entry :
    (x addr : Address) (e : CacheEntry) (m : Entries)
    → get_entry x (put_entry addr e m) ≡ (if addr == x then some e else get_entry x m)
unfolding get_entry put_entry
get_entry-put_entry x addr e [] = refl
get_entry-put_entry x addr e ((a, d) ∷ m) =
    ground (arith, ==_iff a addr, ==_iff a x, ==_iff addr x, get_entry-put_entry x addr e m)

module _ (ttl max_entries : ℕ) where
  -- The entries to which a store adds its own.
  abbrev kept : ℕ → Entries → Entries
  kept now m = if leb max_entries (length m) then evict ttl max_entries now m else m

  get_entry-store :
      (x now addr : ℕ) (b : Bool) (m : Entries)
      → get_entry x (store ttl max_entries now addr b m) ≡ (
          if addr == x
          then some (record { sanctioned = b; expires = now + ttl })
          else get_entry x (kept now m))
  unfolding store
  get_entry-store x now addr b m =
      get_entry-put_entry x addr (record { sanctioned = b; expires = now + ttl }) (kept now m)

  -- What is stored is answered without asking until its time to live is over.
  hit-store_self :
      (t now : ℕ) (addr : Address) (b : Bool) (m : Entries)
      → t < now + ttl
      → hit t addr (store ttl max_entries now addr b m) ≡ some b
  unfolding hit
  hit-store_self t now addr b m h =
      ground (arith, get_entry-store addr now addr b m, ==_iff addr addr)

  -- As long as there is room, storing changes no other answer.
  hit-store_other :
      (t x : ℕ) (a : Answer) (m : Entries)
      → a.address ≢ x
      → length m < max_entries
      → hit t x (store ttl max_entries a.time a.address a.sanctioned m) ≡ hit t x m
  unfolding hit
  hit-store_other t x a m other room =
      let e : get_entry x (store ttl max_entries a.time a.address a.sanctioned m) ≡ get_entry x m =
        ground (arith, get_entry-store x a.time a.address a.sanctioned m, ==_iff a.address x) in
      rw (e, hit) refl

  length-store_le :
      (a : Answer) (m : Entries)
      → length m < max_entries
      → length (store ttl max_entries a.time a.address a.sanctioned m) ≤ length m + 1
  unfolding store
  length-store_le a m room = ground (
    arith,
    length-put_entry-le ttl max_entries a.address
        (record { sanctioned = a.sanctioned; expires = a.time + ttl }) m,
  )

  -- The answers that other calls store, one after the other.
  abbrev pub store_all : List Answer → Entries → Entries
  store_all [] m = m
  store_all (a ∷ answers) m =
      store_all answers (store ttl max_entries a.time a.address a.sanctioned m)

  hit-store_all :
      (t x : ℕ) (answers : List Answer) (m : Entries)
      → All (λ a. a.address ≢ x) answers
      → length m + length answers ≤ max_entries
      → hit t x (store_all answers m) ≡ hit t x m
  hit-store_all t x [] m others room = refl
  hit-store_all t x (a ∷ answers) m (other, others) room =
      let m' = store ttl max_entries a.time a.address a.sanctioned m in
      hit-store_all t x answers m' others (omega (arith, length-store_le a m))
      ∙ hit-store_other t x a m other (omega arith)

  module _ {W : Type 0} (clock : W → ℕ) (next : Checker W) (addr : Address) (m : Entries)
      (w : W) where
    cached_checker-hit :
        (m' : Entries) (w' : W) (b : Bool)
        → hit (clock w') addr m' ≡ some b
        → cached_checker ttl max_entries clock next addr (m', w') ≡ (ok b, (m', w'))
    unfolding cached_checker
    cached_checker-hit m' w' b found = rw (found, cached_checker)

    cached_checker-stores :
        (b : Bool) (w₁ : W)
        → hit (clock w) addr m ≡ none
        → next addr w ≡ (ok b, w₁)
        → (cached_checker ttl max_entries clock next addr (m, w)).1.0
          ≡ store ttl max_entries (clock w) addr b m
    unfolding cached_checker remember
    cached_checker-stores b w₁ miss answered = rw (cached_checker, miss, answered, remember)

    -- A call has to ask the slower checker. If that answers, then a later call for the address gives
    -- the same answer without asking, whatever the slower checker would say, until the time to live
    -- is over, and however many answers for other addresses are stored meanwhile, as long as there
    -- is room for them. If the slower checker fails, the entries stay as they are, so that the next
    -- call asks again.
    pub cached_checker-remembers :
        hit (clock w) addr m ≡ none
        → ((b : Bool) (w₁ : W)
            → next addr w ≡ (ok b, w₁)
            → (answers : List Answer) (w₂ : W) → All (λ a. a.address ≢ addr) answers
            → length (cached_checker ttl max_entries clock next addr (m, w)).1.0 + length answers
              ≤ max_entries
            → clock w₂ < clock w + ttl
            → cached_checker ttl max_entries clock next addr
                (store_all answers (cached_checker ttl max_entries clock next addr (m, w)).1.0, w₂)
              ≡ (
                ok b,
                (store_all answers (cached_checker ttl max_entries clock next addr (m, w)).1.0, w₂),
              ))
          × ((e : Error) (w₁ : W)
              → next addr w ≡ (err e, w₁)
              → cached_checker ttl max_entries clock next addr (m, w) ≡ (err e, (m, w₁)))
    unfolding cached_checker remember
    cached_checker-remembers miss = (
      λ b w₁ answered answers w₂ others room early.
          let e = cached_checker-stores b w₁ miss answered in
          cached_checker-hit _ w₂ b (
            hit-store_all (clock w₂) addr answers _ others room
            ∙ rw e (hit-store_self (clock w₂) (clock w) addr b m early)),
      λ e w₁ failed. rw (cached_checker, miss, failed, remember),
    )
