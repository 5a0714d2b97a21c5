-- ===== src/Chainstate/Known/Growing.antt =====
-- The freshness cache (CachedFreshness of internal/chainstate/chainstate.go) under any interleaving
-- of concurrent calls, on a chain that grows meanwhile.
use tx_firewall.Base.{
  ℕ, ◌≤◌, ◌<◌, true, List, [], ◌∷◌, ◌≡◌, refl, sym, Result, ok, err, arith, length, ==_iff,
  contains, Bool-cases, inl, inr,
}
use tx_firewall.Base.Exec.{IfOk}
use tx_firewall.Geth.{Address}
use tx_firewall.Chainstate.{Status, no_code, fresh, established, StatusReader}
use tx_firewall.Chainstate.Known.Steady.{AllKnown, AllKnown-contains, AllKnown-learn}
use tx_firewall.Chainstate.Known.{learn, remember, cached_status}

-- The remembered addresses, those that the reader has called established so far, and the world.
pub record Shared (W : Type 0) : Type 0 where
  pub known : List Address
  pub seen : List Address
  pub world : W

module _ (max_entries : ℕ) {W : Type 0} (next : StatusReader W) (truth : W → Address → Status)
    (Later : W → W → Type 0) where
  -- A call asks the reader, which answers `established`; a call that was answered so remembers it,
  -- perhaps long after; and the chain grows, or the reader is asked for nothing new.
  pub data Step (s : Shared W) : Shared W → Type 0 where
    answered :
        (addr : Address)
        → (next addr s.world).0 ≡ ok established
        → Step s (record s { seen = addr ∷ s.seen; world = (next addr s.world).1 })
    remembered :
        (addr : Address)
        → contains addr s.seen ≡ true
        → Step s (record s { known = learn max_entries addr s.known })
    passed : (w : W) → Later s.world w → Step s (record s { world = w })

  pub data Reach (w₀ : W) : Shared W → Type 0 where
    start : Reach w₀ (record { known = []; seen = []; world = w₀ })
    step : {s t : Shared W} → Reach w₀ s → Step s t → Reach w₀ t

  -- The reader says what is true, as time goes on, and what is established stays so.
  pub record IsFaithful : Type 0 where
    pub reads : (a : Address) (w : W) → IfOk (λ s. s ≡ truth w a) (next a w).0
    pub moves : (a : Address) (w : W) → Later w (next a w).1
    pub stays :
        (a : Address) (w w' : W) → Later w w' → truth w a ≡ established → truth w' a ≡ established

  abbrev AllEstablished : W → List Address → Type 0
  AllEstablished w = AllKnown (truth w)

  pub record IsRight (s : Shared W) : Type 0 where
    pub known : AllEstablished s.world s.known
    pub seen : AllEstablished s.world s.seen
    pub bounded : length s.known ≤ max_entries

  module _ (faithful : IsFaithful) (positive : 0 < max_entries) where
    AllEstablished-later :
        (w w' : W) (as_ : List Address) → Later w w' → AllEstablished w as_ → AllEstablished w' as_
    AllEstablished-later w w' [] l h = tt
    AllEstablished-later w w' (a ∷ as_) l (p, h) =
        (faithful.stays a w w' l p, AllEstablished-later w w' as_ l h)

    length-learn-le :
        (addr : Address) (known : List Address)
        → length known ≤ max_entries
        → length (learn max_entries addr known) ≤ max_entries
    unfolding learn
    length-learn-le addr known h = ground arith

    answered-truth :
        (addr : Address) (w : W) (st : Status) → (next addr w).0 ≡ ok st → truth w addr ≡ st
    answered-truth addr w st e =
        let h : IfOk (λ s. s ≡ truth w addr) (ok st) = rw e at (faithful.reads addr w) in sym h

    Step-IsRight : {s t : Shared W} → Step s t → IsRight s → IsRight t
    Step-IsRight {s} (answered addr e) h =
        let w' = (next addr s.world).1 in
        let l = faithful.moves addr s.world in
        record {
          known = AllEstablished-later s.world w' s.known l h.known;
          seen = (
            faithful.stays addr s.world w' l (answered-truth addr s.world established e),
            AllEstablished-later s.world w' s.seen l h.seen,
          );
          bounded = h.bounded;
        }
    Step-IsRight {s} (remembered addr c) h = record {
      known =
          AllKnown-learn (truth s.world) max_entries addr s.known
            (AllKnown-contains (truth s.world) addr s.seen h.seen c) h.known;
      seen = h.seen;
      bounded = length-learn-le addr s.known h.bounded;
    }
    Step-IsRight {s} (passed w l) h = record {
      known = AllEstablished-later s.world w s.known l h.known;
      seen = AllEstablished-later s.world w s.seen l h.seen;
      bounded = h.bounded;
    }

    pub Reach-IsRight : {w₀ : W} {s : Shared W} → Reach w₀ s → IsRight s
    Reach-IsRight start = record { known = tt; seen = tt; bounded = omega arith }
    Reach-IsRight (step r st) = Step-IsRight st (Reach-IsRight r)

    -- What a call gives, and that it is made of steps.
    abbrev IsCurrent : W → Address → Shared W → Result Status × (List Address × W) → Type 0
    IsCurrent w₀ addr s out =
        IfOk (λ st. st ≡ truth s.world addr) out.0
        × ((t : Shared W) × Reach w₀ t × (t.known ≡ out.1.0) × (t.world ≡ out.1.1))

    remember-IsCurrent :
        {w₀ : W} {s : Shared W} (addr : Address) (r : Result Status)
        → Reach w₀ s
        → (next addr s.world).0 ≡ r
        → IsCurrent w₀ addr s (remember max_entries next addr s.known r (next addr s.world).1)
    unfolding remember
    remember-IsCurrent {s = s} addr (err e) r p =
        (tt, (_, step r (passed (next addr s.world).1 (faithful.moves addr s.world)), refl, refl))
    remember-IsCurrent {s = s} addr (ok no_code) r p = (
      sym (answered-truth addr s.world no_code p),
      (_, step r (passed (next addr s.world).1 (faithful.moves addr s.world)), refl, refl),
    )
    remember-IsCurrent {s = s} addr (ok fresh) r p = (
      sym (answered-truth addr s.world fresh p),
      (_, step r (passed (next addr s.world).1 (faithful.moves addr s.world)), refl, refl),
    )
    remember-IsCurrent {s = s} addr (ok established) r p = (
      sym (answered-truth addr s.world established p),
      (
        _,
        step (step r (answered addr p)) (remembered addr (ground (arith, ==_iff addr addr))),
        refl,
        refl,
      ),
    )

    -- Behind a cache that may hold an address stands a reader that says what is true of an address,
    -- or fails, and what is established stays so as time goes on. However concurrent calls interleave
    -- and the chain grows meanwhile, a call that gives no error gives the status that is true when it
    -- is made, although the cache may not have asked; the cache holds at most `max_entries`
    -- addresses; and a call is itself made of the steps of the interleaving.
    pub cached_status-current :
        {w₀ : W} {s : Shared W} (addr : Address)
        → Reach w₀ s
        → IfOk
            (λ st. st ≡ truth s.world addr)
            (cached_status max_entries next addr (s.known, s.world)).0
          × ((t : Shared W) × Reach w₀ t
              × (t.known ≡ (cached_status max_entries next addr (s.known, s.world)).1.0)
              × (t.world ≡ (cached_status max_entries next addr (s.known, s.world)).1.1))
          × (length s.known ≤ max_entries)
    unfolding cached_status
    cached_status-current {w₀} {s} addr r = elim (Bool-cases (contains addr s.known)) [
      | inl old ↦
          let h = Reach-IsRight r in
          rw old (
            sym (AllKnown-contains (truth s.world) addr s.known h.known old),
            (s, r, refl, refl),
            h.bounded,
          )
      | inr new ↦
          let (right, made) = remember-IsCurrent addr (next addr s.world).0 r refl in
          rw new (right, made, (Reach-IsRight r).bounded)
    ]
