-- ===== src/Chainstate/Freshness/Ageing.antt =====
-- How the status of a contract changes with the chain's latest block
-- (RPCFreshness of internal/chainstate).
use tx_firewall.Base.{
  ℕ, ◌+◌, ◌-◌, ◌≤◌, ◌<◌, Bytes, false, Option, [], ◌∷◌, ◌≡◌, ◌≢◌, refl, ok, ◌&&◌, ltb, is_empty,
  if◌then◌else◌, arith, Bool-cases, inl, inr,
}
use tx_firewall.Base.Exec.{Exec, Returns}
use tx_firewall.Geth.{Geth, Address}
use tx_firewall.Chainstate.{Status, no_code, fresh, established}
use tx_firewall.Chainstate.Freshness.{status}
use tx_firewall.Chainstate.Freshness.History.{status_at, block_of, status-history}

-- The status, at the latest block, of a contract that has code from block `birth` on.
abbrev pub status_by_age : ℕ → ℕ → ℕ → Status
status_by_age window latest birth =
    if ltb latest birth
    then no_code
    else if ltb 0 birth && ltb latest (birth + window)
    then fresh
    else established

-- The code was put there in block `birth`, and stays.
pub record IsBornAt (birth : ℕ) (code : ℕ → Bytes) : Type 0 where
  pub before : (n : ℕ) → n < birth → code n ≡ []
  pub since : (n : ℕ) → birth ≤ n → code n ≢ []

is_empty-filled : (bs : Bytes) → bs ≢ [] → is_empty bs ≡ false
is_empty-filled [] h = absurd (h refl)
is_empty-filled (b ∷ bs) h = refl

is_empty-born :
    (birth : ℕ) (code : ℕ → Bytes) (n : ℕ) → IsBornAt birth code → is_empty (code n) ≡ ltb n birth
is_empty-born birth code n h = elim (Bool-cases (ltb n birth)) [
  | inl young ↦ rw (h.before n (ground arith)) (ground arith)
  | inr old ↦ rw (is_empty-filled (code n) (h.since n (ground arith))) (ground arith)
]

status_at-born :
    (window latest birth : ℕ) (code : ℕ → Bytes)
    → IsBornAt birth code
    → status_at window latest code ≡ status_by_age window latest birth
status_at-born window latest birth code h =
    rw (is_empty-born birth code latest h, is_empty-born birth code (latest - window) h)
      (ground arith)

-- As long as the node's latest block and the code at its blocks do not change: an address whose code
-- was put there in block `birth` and stays has no code before that block, is fresh from then on for
-- the window's number of blocks, and is established ever after; code of block 0 is never fresh.
pub status-ages :
    (g : Geth) (window : ℕ) {W : Type 0} {P : W → Type 0} (block_number : Exec W ℕ)
    (code_at : Address → Option ℕ → Exec W Bytes) (latest : ℕ) (code : Address → ℕ → Bytes)
    (addr : Address) (birth : ℕ) (w : W)
    → Returns P block_number (ok latest)
    → ((a : Address) (n : Option ℕ) → Returns P (code_at a n) (ok (code a (block_of latest n))))
    → IsBornAt birth (code addr)
    → P w
    → ((status g window block_number code_at addr w).0 ≡ ok (status_by_age window latest birth))
      × P (status g window block_number code_at addr w).1
status-ages g window block_number code_at latest code addr birth w number codes born p =
    rw (← status_at-born window latest birth (code addr) born)
      (status-history g window block_number code_at latest code number codes addr w p)
