-- ===== src/Analysis/Flows/Movements.antt =====
-- The movements of assets in a trace, and computeFlows (internal/analysis/analysis.go) beside one
-- pass over them.
use tx_firewall.Base.{
  ℕ, Option, none, some, List, [], ◌∷◌, ◌++◌, ◌≡◌, refl, sym, ap, ◌∙◌, ◌==◌, if◌then◌else◌,
  Bool-cases, Option-cases, inl, inr, String, Bool, str_eq, any, arith, ◌⊎◌,
}
use tx_firewall.Geth.{Address}
use tx_firewall.Events.Transfer.{Transfer, TokenStandard, erc20, erc721}
use tx_firewall.Analysis.Frames.{Frame}
use tx_firewall.Analysis.Flows.{
  Flow, Key, Ledger, add_out, add_in, move, moves_eth, move_frame, move_frames, amount_of,
  move_value, move_transfer, move_transfers, no_flows, compute_flows, eth,
}
use tx_firewall.Analysis.Flows.Scan.{bump, IsIndexed, no_flows-IsIndexed, post-bump, post-IsIndexed}

-- One movement of an asset; the independent description of what is to be summed.
pub record Movement : Type 0 where
  pub asset : Address
  pub from : Address
  pub to : Address
  pub amount : ℕ

abbrev pub eth_of : Frame → Option ℕ → List Movement
eth_of f none = []
eth_of f (some n) = record { asset = eth; from = f.from; to = f.to; amount = n } ∷ []

-- The frame carries its value: a call that has one of its own, a creation, or the end of a contract.
abbrev pub carries_eth : String → Bool
carries_eth type = any (str_eq type) ("CALL" ∷ "CREATE" ∷ "CREATE2" ∷ "SELFDESTRUCT" ∷ [])

abbrev pub of_frame : Frame → List Movement
of_frame f = if carries_eth f.type then eth_of f f.value else []

-- The amount of an ERC-20 transfer; without one nothing is transferred.
abbrev pub amount_in : Option ℕ → ℕ
amount_in none = 0
amount_in (some n) = n

abbrev pub by_standard : Transfer → TokenStandard → List Movement
by_standard t erc20 =
    record { asset = t.token; from = t.from; to = t.to; amount = amount_in t.amount } ∷ []
by_standard t erc721 = []

abbrev pub of_transfer : Transfer → List Movement
of_transfer t = by_standard t t.standard

pub amount_of-amount_in : (t : Transfer) → amount_of t ≡ amount_in t.amount
amount_of-amount_in t = elim (Option-cases t.amount) [ inl e ↦ rw e | inr (n, e) ↦ rw e ]

moves_eth-carries_eth : (f : Frame) → moves_eth f ≡ carries_eth f.type
unfolding moves_eth
moves_eth-carries_eth f = ground arith

abbrev pub frame_movements : List Frame → List Movement
frame_movements [] = []
frame_movements (f ∷ fs) = of_frame f ++ frame_movements fs

abbrev pub transfer_movements : List Transfer → List Movement
transfer_movements [] = []
transfer_movements (t ∷ ts) = of_transfer t ++ transfer_movements ts

-- A movement, by two scans.
abbrev pub shift : Movement → List Flow → List Flow
shift m fs =
    if m.from == m.to
    then fs
    else bump (record { asset = m.asset; holder = m.to }) (add_in m.amount)
        (bump (record { asset = m.asset; holder = m.from }) (add_out m.amount) fs)

abbrev pub shift_all : List Movement → List Flow → List Flow
shift_all [] fs = fs
shift_all (m ∷ ms) fs = shift_all ms (shift m fs)

abbrev run : Movement → Ledger → Ledger
run m s = move m.asset m.from m.to m.amount s

move-shift :
    (m : Movement) (s : Ledger)
    → IsIndexed s
    → ((run m s).flows ≡ shift m s.flows) × IsIndexed (run m s)
unfolding move
move-shift m s h = elim (Bool-cases (m.from == m.to)) [
  | inl self ↦ rw self (refl, h)
  | inr other ↦
      let from : Key = record { asset = m.asset; holder = m.from } in
      let to : Key = record { asset = m.asset; holder = m.to } in
      let h' = post-IsIndexed (add_out m.amount) (λ f. refl) from s h in
      rw other (
        post-bump (add_in m.amount) (λ f. refl) to _ h'
            ∙ ap (bump to (add_in m.amount)) (post-bump (add_out m.amount) (λ f. refl) from s h),
        post-IsIndexed (add_in m.amount) (λ f. refl) to _ h',
      )
]

shift_all-append :
    (ms ns : List Movement) (fs : List Flow)
    → shift_all (ms ++ ns) fs ≡ shift_all ns (shift_all ms fs)
shift_all-append [] ns fs = refl
shift_all-append (m ∷ ms) ns fs = shift_all-append ms ns (shift m fs)

-- A step of the code makes these movements and keeps the index.
abbrev Makes : List Movement → Ledger → Ledger → Type 0
Makes ms s s' = (s'.flows ≡ shift_all ms s.flows) × IsIndexed s'

Makes-then :
    (ms ns : List Movement) (s s' s'' : Ledger)
    → Makes ms s s'
    → Makes ns s' s''
    → Makes (ms ++ ns) s s''
Makes-then ms ns s s' s'' (e, _) (e', h) =
    (e' ∙ (ap (shift_all ns) e ∙ sym (shift_all-append ms ns s.flows)), h)

move_value-shift :
    (f : Frame) (v : Option ℕ) (s : Ledger) → IsIndexed s → Makes (eth_of f v) s (move_value f v s)
unfolding move_value
move_value-shift f none s h = (refl, h)
move_value-shift f (some n) s h =
    move-shift (record { asset = eth; from = f.from; to = f.to; amount = n }) s h

move_frame-shift : (f : Frame) (s : Ledger) → IsIndexed s → Makes (of_frame f) s (move_frame f s)
unfolding move_frame
move_frame-shift f s h = elim (Bool-cases (carries_eth f.type)) [
  | inl moves ↦ rw (moves_eth-carries_eth f, moves) (move_value-shift f f.value s h)
  | inr still ↦ rw (moves_eth-carries_eth f, still) (refl, h)
]

move_frames-shift :
    (fs : List Frame) (s : Ledger) → IsIndexed s → Makes (frame_movements fs) s (move_frames fs s)
unfolding move_frames
move_frames-shift [] s h = (refl, h)
move_frames-shift (f ∷ fs) s h =
    let here = move_frame-shift f s h in
    Makes-then (of_frame f) (frame_movements fs) s (move_frame f s) _ here
      (move_frames-shift fs (move_frame f s) here.1)

TokenStandard-cases : (s : TokenStandard) → (s ≡ erc20) ⊎ (s ≡ erc721)
TokenStandard-cases erc20 = inl refl
TokenStandard-cases erc721 = inr refl

move_transfer-shift :
    (t : Transfer) (s : Ledger) → IsIndexed s → Makes (of_transfer t) s (move_transfer t s)
unfolding move_transfer
move_transfer-shift t s h = elim (TokenStandard-cases t.standard) [
  | inl token ↦
      rw (token, amount_of-amount_in t)
        (move-shift
          (record { asset = t.token; from = t.from; to = t.to; amount = amount_in t.amount }) s h)
  | inr other ↦ rw other (refl, h)
]

move_transfers-shift :
    (ts : List Transfer) (s : Ledger)
    → IsIndexed s
    → Makes (transfer_movements ts) s (move_transfers ts s)
unfolding move_transfers
move_transfers-shift [] s h = (refl, h)
move_transfers-shift (t ∷ ts) s h =
    let here = move_transfer-shift t s h in
    Makes-then (of_transfer t) (transfer_movements ts) s (move_transfer t s) _ here
      (move_transfers-shift ts (move_transfer t s) here.1)

abbrev pub movements : List Frame → List Transfer → List Movement
movements frames transfers = frame_movements frames ++ transfer_movements transfers

pub compute_flows-shift :
    (frames : List Frame) (transfers : List Transfer)
    → compute_flows frames transfers ≡ shift_all (movements frames transfers) []
unfolding compute_flows
compute_flows-shift frames transfers =
    let (e, h) = move_frames-shift frames no_flows no_flows-IsIndexed in
    let (e', _) = move_transfers-shift transfers (move_frames frames no_flows) h in
    e'
    ∙ (ap (shift_all (transfer_movements transfers)) e
        ∙ sym (shift_all-append (frame_movements frames) (transfer_movements transfers) []))
