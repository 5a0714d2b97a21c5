-- ===== src/Analysis/Flows/Totals.antt =====
-- What the flows add up to (computeFlows of internal/analysis/analysis.go).
use tx_firewall.Base.{
  ℕ, ◌+◌, List, [], ◌∷◌, ◌≡◌, ◌∙◌, ◌&&◌, not, ◌==◌, if◌then◌else◌, arith, sum_by,
}
use tx_firewall.Events.Transfer.{Transfer}
use tx_firewall.Analysis.Frames.{Frame}
use tx_firewall.Analysis.Flows.{Flow, Key, key_eq, add_out, add_in, compute_flows}
use tx_firewall.Analysis.Flows.Scan.{key, bump}
use tx_firewall.Analysis.Flows.Movements.{
  Movement, movements, shift, shift_all, compute_flows-shift,
}

-- What a movement takes from, and gives to, a pair; to oneself it moves nothing.
abbrev pub taken : Key → Movement → ℕ
taken k m =
    if not (m.from == m.to) && (m.asset == k.asset && m.from == k.holder) then m.amount else 0

abbrev pub given : Key → Movement → ℕ
given k m = if not (m.from == m.to) && (m.asset == k.asset && m.to == k.holder) then m.amount else 0

-- The sums of a pair's flows, and of an asset's.
abbrev pub sent : Key → List Flow → ℕ
sent k fs = sum_by (λ f. if key_eq (key f) k then f.out else 0) fs

abbrev pub received : Key → List Flow → ℕ
received k fs = sum_by (λ f. if key_eq (key f) k then f.into else 0) fs

module _ (k : Key) where
  sent-bump_out :
      (l : Key) (n : ℕ) (fs : List Flow)
      → sent k (bump l (add_out n) fs) ≡ sent k fs + (if key_eq l k then n else 0)
  unfolding bump sum_by
  sent-bump_out l n [] = ground arith
  sent-bump_out l n (f ∷ fs) = ground (arith, sent-bump_out l n fs)

  sent-bump_in : (l : Key) (n : ℕ) (fs : List Flow) → sent k (bump l (add_in n) fs) ≡ sent k fs
  unfolding bump sum_by
  sent-bump_in l n [] = ground arith
  sent-bump_in l n (f ∷ fs) = ground (arith, sent-bump_in l n fs)

  received-bump_in :
      (l : Key) (n : ℕ) (fs : List Flow)
      → received k (bump l (add_in n) fs) ≡ received k fs + (if key_eq l k then n else 0)
  unfolding bump sum_by
  received-bump_in l n [] = ground arith
  received-bump_in l n (f ∷ fs) = ground (arith, received-bump_in l n fs)

  received-bump_out :
      (l : Key) (n : ℕ) (fs : List Flow) → received k (bump l (add_out n) fs) ≡ received k fs
  unfolding bump sum_by
  received-bump_out l n [] = ground arith
  received-bump_out l n (f ∷ fs) = ground (arith, received-bump_out l n fs)

module _ (k : Key) where
  sent-shift : (m : Movement) (fs : List Flow) → sent k (shift m fs) ≡ sent k fs + taken k m
  sent-shift m fs =
      let from : Key = record { asset = m.asset; holder = m.from } in
      let to : Key = record { asset = m.asset; holder = m.to } in
      ground (
        arith,
        sent-bump_in k to m.amount (bump from (add_out m.amount) fs),
        sent-bump_out k from m.amount fs,
      )

  received-shift :
      (m : Movement) (fs : List Flow) → received k (shift m fs) ≡ received k fs + given k m
  received-shift m fs =
      let from : Key = record { asset = m.asset; holder = m.from } in
      let to : Key = record { asset = m.asset; holder = m.to } in
      ground (
        arith,
        received-bump_in k to m.amount (bump from (add_out m.amount) fs),
        received-bump_out k from m.amount fs,
      )

  sent-shift_all :
      (ms : List Movement) (fs : List Flow)
      → sent k (shift_all ms fs) ≡ sent k fs + sum_by (taken k) ms
  unfolding sum_by
  sent-shift_all [] fs = omega arith
  sent-shift_all (m ∷ ms) fs = omega (arith, sent-shift_all ms (shift m fs), sent-shift m fs)

  received-shift_all :
      (ms : List Movement) (fs : List Flow)
      → received k (shift_all ms fs) ≡ received k fs + sum_by (given k) ms
  unfolding sum_by
  received-shift_all [] fs = omega arith
  received-shift_all (m ∷ ms) fs =
      omega (arith, received-shift_all ms (shift m fs), received-shift m fs)

  -- For each asset and holder the flows hold what the holder sent and received: the sum of the
  -- ERC-20 transfers and of the ETH of value-carrying frames, those to oneself left out.
  pub compute_flows-totals :
      (frames : List Frame) (transfers : List Transfer)
      → (sent k (compute_flows frames transfers) ≡ sum_by (taken k) (movements frames transfers))
        × (received k (compute_flows frames transfers)
            ≡ sum_by (given k) (movements frames transfers))
  unfolding sum_by
  compute_flows-totals frames transfers = rw compute_flows-shift (
    sent-shift_all (movements frames transfers) [] ∙ omega arith,
    received-shift_all (movements frames transfers) [] ∙ omega arith,
  )
