-- ===== src/Chainstate/Known.antt =====
-- internal/chainstate/chainstate.go: CachedFreshness, which remembers established contracts.
pub mod Growing
pub mod Steady
use tx_firewall.Base.{
  ℕ, Bool, true, false, List, [], ◌∷◌, Result, ok, err, plain, length, leb, contains, if◌then◌else◌,
  ◌==◌,
}
use tx_firewall.Base.Exec.{Exec, ◌>>=◌, pure}
use tx_firewall.Geth.{Address}
use tx_firewall.Chainstate.{
  Status, no_code, fresh, established, StatusReader, FreshnessChecker, is_fresh,
}

-- NewCachedFreshness's check of its size.
unfoldable pub check_size : ℕ → Result (Unit {0})
check_size max_entries =
    if max_entries == 0 then err (plain "freshness cache size must be positive") else ok tt

-- The second locked section of Status, on the keys of the map.
unfoldable pub learn : ℕ → Address → List Address → List Address
learn max_entries addr known =
    let room = if leb max_entries (length known) then [] else known in
    if contains addr room then room else addr ∷ room

module _ (max_entries : ℕ) {W : Type 0} (next : StatusReader W) where
  unfoldable pub remember :
      Address → List Address → Result Status → W → Result Status × (List Address × W)
  remember addr known (err e) w = (err e, (known, w))
  remember addr known (ok no_code) w = (ok no_code, (known, w))
  remember addr known (ok fresh) w = (ok fresh, (known, w))
  remember addr known (ok established) w = (ok established, (learn max_entries addr known, w))

  -- CachedFreshness.Status
  unfoldable pub cached_status : StatusReader (List Address × W)
  cached_status addr (known, w) =
      if contains addr known
      then (ok established, (known, w))
      else remember addr known (next addr w).0 (next addr w).1

  -- CachedFreshness.IsFreshContract
  unfoldable pub cached_is_fresh : FreshnessChecker (List Address × W)
  cached_is_fresh addr = cached_status addr >>= λ s. pure (is_fresh s)
