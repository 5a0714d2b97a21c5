-- ===== src/Analysis/Flows/Balance.antt =====
-- The flows of all pairs together: how many there are for a pair, and their sum over an asset
-- (computeFlows of internal/analysis/analysis.go).
use tx_firewall.Base.{
  ap, ◌∙◌, ℕ, ◌+◌, Bool, false, List, [], ◌∷◌, ◌≡◌, refl, ◌||◌, ◌==◌, if◌then◌else◌, arith, sum_by,
  any, Bool-cases, inl, inr,
}
use tx_firewall.Geth.{Address}
use tx_firewall.Events.Transfer.{Transfer}
use tx_firewall.Analysis.Frames.{Frame}
use tx_firewall.Analysis.Flows.{Flow, Key, key_eq, add_out, add_in, compute_flows}
use tx_firewall.Analysis.Flows.Scan.{key, no_flow, bump}
use tx_firewall.Analysis.Flows.Movements.{
  Movement, movements, shift, shift_all, compute_flows-shift,
}

-- A pair has a flow.
abbrev pub has_flow : Key → List Flow → Bool
has_flow k fs = any (λ f. key_eq (key f) k) fs

abbrev pub HasOneFlowEach : List Flow → Type 0
HasOneFlowEach [] = Unit
HasOneFlowEach (f ∷ fs) = (has_flow (key f) fs ≡ false) × HasOneFlowEach fs

module _ (change : Flow → Flow) (keeps : (f : Flow) → key (change f) ≡ key f) (k : Key) where
  has_flow-bump :
      (l : Key) (fs : List Flow) → has_flow l (bump k change fs) ≡ (has_flow l fs || key_eq k l)
  unfolding bump
  has_flow-bump l [] = ground (arith, keeps (no_flow k))
  has_flow-bump l (f ∷ fs) = ground (arith, keeps f, has_flow-bump l fs)

  bump-HasOneFlowEach : (fs : List Flow) → HasOneFlowEach fs → HasOneFlowEach (bump k change fs)
  unfolding bump
  bump-HasOneFlowEach [] h = (refl, tt)
  bump-HasOneFlowEach (f ∷ fs) (new, h) = elim (Bool-cases (key_eq (key f) k)) [
    | inl same ↦ rw same (ap (λ (l : Key). has_flow l fs) (keeps f) ∙ new, h)
    | inr other ↦ rw other (ground (arith, has_flow-bump (key f) fs), bump-HasOneFlowEach fs h)
  ]

-- What all holders together sent and received of an asset.
abbrev pub all_sent : Address → List Flow → ℕ
all_sent a fs = sum_by (λ f. if f.asset == a then f.out else 0) fs

abbrev pub all_received : Address → List Flow → ℕ
all_received a fs = sum_by (λ f. if f.asset == a then f.into else 0) fs

module _ (a : Address) where
  all_sent-bump_out :
      (k : Key) (n : ℕ) (fs : List Flow)
      → all_sent a (bump k (add_out n) fs) ≡ all_sent a fs + (if k.asset == a then n else 0)
  unfolding bump sum_by
  all_sent-bump_out k n [] = ground arith
  all_sent-bump_out k n (f ∷ fs) = ground (arith, all_sent-bump_out k n fs)

  all_sent-bump_in :
      (k : Key) (n : ℕ) (fs : List Flow) → all_sent a (bump k (add_in n) fs) ≡ all_sent a fs
  unfolding bump sum_by
  all_sent-bump_in k n [] = ground arith
  all_sent-bump_in k n (f ∷ fs) = ground (arith, all_sent-bump_in k n fs)

  all_received-bump_in :
      (k : Key) (n : ℕ) (fs : List Flow)
      → all_received a (bump k (add_in n) fs) ≡ all_received a fs + (if k.asset == a then n else 0)
  unfolding bump sum_by
  all_received-bump_in k n [] = ground arith
  all_received-bump_in k n (f ∷ fs) = ground (arith, all_received-bump_in k n fs)

  all_received-bump_out :
      (k : Key) (n : ℕ) (fs : List Flow)
      → all_received a (bump k (add_out n) fs) ≡ all_received a fs
  unfolding bump sum_by
  all_received-bump_out k n [] = ground arith
  all_received-bump_out k n (f ∷ fs) = ground (arith, all_received-bump_out k n fs)

  shift-balanced :
      (m : Movement) (fs : List Flow)
      → all_sent a fs ≡ all_received a fs
      → all_sent a (shift m fs) ≡ all_received a (shift m fs)
  shift-balanced m fs h =
      let from : Key = record { asset = m.asset; holder = m.from } in
      let to : Key = record { asset = m.asset; holder = m.to } in
      let fs' = bump from (add_out m.amount) fs in
      ground (
        arith,
        all_sent-bump_in to m.amount fs',
        all_sent-bump_out from m.amount fs,
        all_received-bump_in to m.amount fs',
        all_received-bump_out from m.amount fs,
      )

  shift_all-balanced :
      (ms : List Movement) (fs : List Flow)
      → all_sent a fs ≡ all_received a fs
      → all_sent a (shift_all ms fs) ≡ all_received a (shift_all ms fs)
  shift_all-balanced [] fs h = h
  shift_all-balanced (m ∷ ms) fs h = shift_all-balanced ms (shift m fs) (shift-balanced m fs h)

  compute_flows-balanced :
      (frames : List Frame) (transfers : List Transfer)
      → all_sent a (compute_flows frames transfers)
        ≡ all_received a (compute_flows frames transfers)
  unfolding sum_by
  compute_flows-balanced frames transfers =
      rw compute_flows-shift (shift_all-balanced (movements frames transfers) [] refl)

shift-HasOneFlowEach :
    (m : Movement) (fs : List Flow) → HasOneFlowEach fs → HasOneFlowEach (shift m fs)
shift-HasOneFlowEach m fs h = elim (Bool-cases (m.from == m.to)) [
  | inl self ↦ rw self h
  | inr other ↦ rw other (
      bump-HasOneFlowEach (add_in m.amount) (λ f. refl) _ _
        (bump-HasOneFlowEach (add_out m.amount) (λ f. refl) _ fs h))
]

shift_all-HasOneFlowEach :
    (ms : List Movement) (fs : List Flow) → HasOneFlowEach fs → HasOneFlowEach (shift_all ms fs)
shift_all-HasOneFlowEach [] fs h = h
shift_all-HasOneFlowEach (m ∷ ms) fs h =
    shift_all-HasOneFlowEach ms (shift m fs) (shift-HasOneFlowEach m fs h)

compute_flows-HasOneFlowEach :
    (frames : List Frame) (transfers : List Transfer)
    → HasOneFlowEach (compute_flows frames transfers)
compute_flows-HasOneFlowEach frames transfers =
    rw compute_flows-shift (shift_all-HasOneFlowEach (movements frames transfers) [] tt)

-- Whatever the frames and transfers, no two flows are of one asset and one holder, and all holders
-- together receive of each asset what they send.
pub compute_flows-IsLedger :
    (frames : List Frame) (transfers : List Transfer)
    → HasOneFlowEach (compute_flows frames transfers)
      × ((a : Address)
          → all_sent a (compute_flows frames transfers)
            ≡ all_received a (compute_flows frames transfers))
compute_flows-IsLedger frames transfers =
    (compute_flows-HasOneFlowEach frames transfers, λ a. compute_flows-balanced a frames transfers)
