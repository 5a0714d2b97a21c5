-- ===== src/Sanctions/Cache/Sharing.antt =====
-- The oracle's cache under any interleaving of concurrent calls: what it may answer, and its size.
use Prim.Native.Nat.{max}
use mathlib.Core.List.{Mem, mem-cons_self, mem-cons_of_mem}
use tx_firewall.Base.{
  ℕ, ◌+◌, ◌≤◌, ◌<◌, Bool, some, List, [], ◌∷◌, ◌≡◌, refl, ok, arith, length, leb, ◌==◌, ==_iff,
  keep, All, Bool-cases, Option-cases, Result-cases, inl, inr, ◌⊎◌,
}
use tx_firewall.Geth.{Address}
use tx_firewall.Sanctions.{Checker}
use tx_firewall.Sanctions.Cache.{
  CacheEntry, Entries, get_entry, put_entry, is_live, hit, evict, store, remember, cached_checker,
}

-- An answer of the slower checker to a call that read the clock at `time`.
pub record Answer : Type 0 where
  pub address : Address
  pub sanctioned : Bool
  pub time : ℕ

-- The cache beside all answers so far.
pub record Shared : Type 0 where
  pub entries : Entries
  pub answers : List Answer

abbrev pub nothing : Shared
nothing = record { entries = []; answers = [] }

some_inj : {d e : CacheEntry} → some d ≡ some e → d ≡ e
some_inj h = cc

pub hit-inv :
    (now : ℕ) (addr : Address) (b : Bool) (m : Entries)
    → hit now addr m ≡ some b
    → (e : CacheEntry) × (get_entry addr m ≡ some e) × (now < e.expires) × (e.sanctioned ≡ b)
unfolding hit
hit-inv now addr b m h = elim (Option-cases (get_entry addr m)) [
  | inl absent ↦ absurd (ground arith)
  | inr (e, found) ↦ (e, found, ground arith, ground arith)
]

module _ (ttl max_entries : ℕ) where
  -- A call stores the answer that it got. Other calls may have stored theirs since it read the
  -- cache and the clock, so the time is any.
  pub data Step : Shared → Shared → Type 0 where
    answered :
        (s : Shared) (a : Answer)
        → Step s (record {
          entries = store ttl max_entries a.time a.address a.sanctioned s.entries;
          answers = a ∷ s.answers;
        })

  pub data Reach : Shared → Type 0 where
    start : Reach nothing
    step : {s t : Shared} → Reach s → Step s t → Reach t

  -- The entry holds an answer and expires `ttl` after it.
  abbrev pub IsBacked : List Answer → Address × CacheEntry → Type 0
  IsBacked answers p =
      (t : ℕ) × Mem (record { address = p.0; sanctioned = p.1.sanctioned; time = t }) answers
      × (p.1.expires ≡ t + ttl)

  pub record IsSound (s : Shared) : Type 0 where
    pub backed : All (IsBacked s.answers) s.entries
    pub bounded : length s.entries ≤ max 1 max_entries

  IsBacked-cons :
      (a : Answer) (answers : List Answer) (m : Entries)
      → All (IsBacked answers) m
      → All (IsBacked (a ∷ answers)) m
  IsBacked-cons a answers [] h = tt
  IsBacked-cons a answers (p ∷ m) ((t, old, e), h) =
      ((t, mem-cons_of_mem a old, e), IsBacked-cons a answers m h)

  IsBacked-keep :
      (answers : List Answer) (test : Address × CacheEntry → Bool) (m : Entries)
      → All (IsBacked answers) m
      → All (IsBacked answers) (keep test m)
  IsBacked-keep answers test [] h = tt
  IsBacked-keep answers test (p ∷ m) (b, h) = elim (Bool-cases (test p)) [
    | inl in_ ↦ rw in_ (b, IsBacked-keep answers test m h)
    | inr out ↦ rw out (IsBacked-keep answers test m h)
  ]

  IsBacked-put :
      (answers : List Answer) (addr : Address) (e : CacheEntry) (m : Entries)
      → IsBacked answers (addr, e)
      → All (IsBacked answers) m
      → All (IsBacked answers) (put_entry addr e m)
  unfolding put_entry
  IsBacked-put answers addr e [] b h = (b, tt)
  IsBacked-put answers addr e ((a, d) ∷ m) b (c, h) = elim (Bool-cases (a == addr)) [
    | inl same ↦ rw same (b, h)
    | inr other ↦ rw other (c, IsBacked-put answers addr e m b h)
  ]

  IsBacked-evict :
      (answers : List Answer) (now : ℕ) (m : Entries)
      → All (IsBacked answers) m
      → All (IsBacked answers) (evict ttl max_entries now m)
  unfolding evict
  IsBacked-evict answers now m h = ground (arith, IsBacked-keep answers (λ p. is_live now p.1) m h)

  length-evict-lt :
      (now : ℕ) (m : Entries) → length (evict ttl max_entries now m) < max 1 max_entries
  unfolding evict
  length-evict-lt now m = ground arith

  pub length-put_entry-le :
      (addr : Address) (e : CacheEntry) (m : Entries) → length (put_entry addr e m) ≤ length m + 1
  unfolding put_entry
  length-put_entry-le addr e [] = omega arith
  length-put_entry-le addr e ((a, d) ∷ m) = ground (arith, length-put_entry-le addr e m)

  -- However full the cache was, behind a store it holds at most `max_entries`, or one if that is 0.
  length-store-le :
      (now : ℕ) (addr : Address) (b : Bool) (m : Entries)
      → length (store ttl max_entries now addr b m) ≤ max 1 max_entries
  unfolding store
  length-store-le now addr b m =
      let entry : CacheEntry = record { sanctioned = b; expires = now + ttl } in
      ground (
        arith,
        length-put_entry-le addr entry (evict ttl max_entries now m),
        length-put_entry-le addr entry m,
        length-evict-lt now m,
      )

  IsBacked-store :
      (a : Answer) (answers : List Answer) (m : Entries)
      → All (IsBacked answers) m
      → All (IsBacked (a ∷ answers)) (store ttl max_entries a.time a.address a.sanctioned m)
  unfolding store
  IsBacked-store a answers m h =
      let h' = IsBacked-cons a answers m h in
      IsBacked-put (a ∷ answers) a.address _ _ (a.time, mem-cons_self, refl)
        (elim (Bool-cases (leb max_entries (length m))) [
          | inl full ↦ rw full (IsBacked-evict (a ∷ answers) a.time m h')
          | inr room ↦ rw room h'
        ])

  Step-IsSound : {s t : Shared} → Step s t → IsSound s → IsSound t
  Step-IsSound (answered s a) h = record {
    backed = IsBacked-store a s.answers s.entries h.backed;
    bounded = length-store-le a.time a.address a.sanctioned s.entries;
  }

  -- However concurrent calls interleave, every entry holds an answer of the slower checker and
  -- expires the time to live after it, and there are at most `max_entries` entries (or one).
  pub Reach-IsSound : {s : Shared} → Reach s → IsSound s
  Reach-IsSound start = record { backed = tt; bounded = omega arith }
  Reach-IsSound (step r st) = Step-IsSound st (Reach-IsSound r)

  get_entry-IsBacked :
      (answers : List Answer) (addr : Address) (m : Entries) {e : CacheEntry}
      → All (IsBacked answers) m
      → get_entry addr m ≡ some e
      → IsBacked answers (addr, e)
  unfolding get_entry
  get_entry-IsBacked answers addr [] h p = cc
  get_entry-IsBacked answers addr ((a, d) ∷ m) {e} (b, h) p = elim (Bool-cases (a == addr)) [
    | inl same ↦
        let here : d ≡ e = some_inj (rw same at p) in
        let there : a ≡ addr = (==_iff a addr).0 same in rw (← here, ← there) b
    | inr other ↦ get_entry-IsBacked answers addr m {e = e} h (rw other at p)
  ]

  -- However concurrent calls interleave: what the cache says of an address without asking is an
  -- answer of the slower checker for that address, less than the time to live ago.
  pub hit-answered :
      {s : Shared} (now : ℕ) (addr : Address) (b : Bool)
      → Reach s
      → hit now addr s.entries ≡ some b
      → (t : ℕ) × Mem (record { address = addr; sanctioned = b; time = t }) s.answers
        × (now < t + ttl)
  hit-answered {s} now addr b r h =
      let (e, found, live, same) = hit-inv now addr b s.entries h in
      let (t, old, expires) =
        get_entry-IsBacked s.answers addr s.entries (Reach-IsSound r).backed found in
      (t, rw (← same) old, omega (arith, expires))

  -- A call either leaves the entries as they are, or makes a step with the answer that it gives.
  pub cached_checker-Step :
      {W : Type 0} (clock : W → ℕ) (next : Checker W) (addr : Address) (s : Shared) (w : W)
      → ((cached_checker ttl max_entries clock next addr (s.entries, w)).1.0 ≡ s.entries)
        ⊎ ((b : Bool) × ((cached_checker ttl max_entries clock next addr (s.entries, w)).0 ≡ ok b)
            × ((next addr w).0 ≡ ok b)
            × Step s (record {
              entries = (cached_checker ttl max_entries clock next addr (s.entries, w)).1.0;
              answers = record { address = addr; sanctioned = b; time = clock w } ∷ s.answers;
            }))
  unfolding cached_checker remember
  cached_checker-Step clock next addr s w = elim (Option-cases (hit (clock w) addr s.entries)) [
    | inr (b, found) ↦ inl (rw (cached_checker, found))
    | inl absent ↦ elim (Result-cases (next addr w).0) [
      | inr (e, p) ↦ inl (rw (cached_checker, absent, p, remember))
      | inl (b, p) ↦ inr (
        b,
        rw (cached_checker, absent, p, remember),
        p,
        rw (cached_checker, absent, p, remember)
            (answered s (record { address = addr; sanctioned = b; time = clock w })),
      )
    ]
  ]
