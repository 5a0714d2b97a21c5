-- ===== src/Analysis/Flows.antt =====
-- internal/analysis/flows.go: what each holder sends and receives of each asset.
pub mod Scan
pub mod Movements
pub mod Totals
pub mod Balance
use tx_firewall.Base.{
  ℕ, zero, suc, ◌+◌, String, Bool, Option, none, some, List, [], ◌∷◌, ◌++◌, str_eq, ◌||◌, ◌&&◌,
  ◌==◌, if◌then◌else◌, length,
}
use tx_firewall.Base.Int.{ℤ, sub_ℕ}
use tx_firewall.Geth.{Address, zero_address}
use tx_firewall.Events.Transfer.{Transfer, is_erc20}
use tx_firewall.Analysis.Frames.{Frame}

abbrev pub eth : Address
eth = zero_address

pub record Flow : Type 0 where
  pub asset : Address
  pub holder : Address
  pub out : ℕ
  pub into : ℕ

unfoldable pub net_out : Flow → ℤ
net_out f = sub_ℕ f.out f.into

-- `key`, and the local variables of computeFlows.
pub record Key : Type 0 where
  pub asset : Address
  pub holder : Address

pub record Ledger : Type 0 where
  pub index : List (Key × ℕ)
  pub flows : List Flow

abbrev pub key_eq : Key → Key → Bool
key_eq k l = k.asset == l.asset && k.holder == l.holder

unfoldable pub lookup_key : Key → List (Key × ℕ) → Option ℕ
lookup_key k [] = none
lookup_key k ((l, i) ∷ m) = if key_eq l k then some i else lookup_key k m

unfoldable pub modify : List Flow → ℕ → (Flow → Flow) → List Flow
modify [] i f = []
modify (x ∷ xs) zero f = f x ∷ xs
modify (x ∷ xs) (suc i) f = x ∷ modify xs i f

-- The closure `flow`: the position of the pair's flow, which it adds if there is none.
unfoldable pub flow : Key → Ledger → ℕ × Ledger
flow k s = elim (lookup_key k s.index) [
  | some i ↦ (i, s)
  | none ↦ (
    length s.flows,
    record {
      index = (k, length s.flows) ∷ s.index;
      flows = s.flows ++ record { asset = k.asset; holder = k.holder; out = 0; into = 0 } ∷ [];
    },
  )
]

abbrev pub add_out : ℕ → Flow → Flow
add_out amount f = record f { out = f.out + amount }

abbrev pub add_in : ℕ → Flow → Flow
add_in amount f = record f { into = f.into + amount }

-- Two lines of the closure `move`: `x := flow(asset, holder); x.….Add(x.…, amount)`.
unfoldable pub post : Key → (Flow → Flow) → Ledger → Ledger
post k change s = let (i, s') = flow k s in record s' { flows = modify s'.flows i change }

-- The closure `move`.
unfoldable pub move : Address → Address → Address → ℕ → Ledger → Ledger
move asset from to amount s =
    if from == to
    then s
    else post (record { asset = asset; holder = to }) (add_in amount)
        (post (record { asset = asset; holder = from }) (add_out amount) s)

unfoldable pub moves_eth : Frame → Bool
moves_eth f =
    str_eq f.type "CALL"
    || str_eq f.type "CREATE"
    || str_eq f.type "CREATE2"
    || str_eq f.type "SELFDESTRUCT"

-- `if f.Value != nil`
unfoldable pub move_value : Frame → Option ℕ → Ledger → Ledger
move_value f none s = s
move_value f (some amount) s = move eth f.from f.to amount s

unfoldable pub move_frame : Frame → Ledger → Ledger
unfolding move_value
move_frame f s = if moves_eth f then move_value f f.value s else s

unfoldable pub move_frames : List Frame → Ledger → Ledger
move_frames [] s = s
move_frames (f ∷ fs) s = move_frames fs (move_frame f s)

-- `t.Amount` of an ERC-20 transfer, which is never nil.
abbrev pub amount_of : Transfer → ℕ
amount_of t = elim t.amount [ none ↦ 0 | some n ↦ n ]

unfoldable pub move_transfer : Transfer → Ledger → Ledger
move_transfer t s = if is_erc20 t.standard then move t.token t.from t.to (amount_of t) s else s

unfoldable pub move_transfers : List Transfer → Ledger → Ledger
move_transfers [] s = s
move_transfers (t ∷ ts) s = move_transfers ts (move_transfer t s)

abbrev pub no_flows : Ledger
no_flows = record { index = []; flows = [] }

unfoldable pub compute_flows : List Frame → List Transfer → List Flow
compute_flows frames transfers = (move_transfers transfers (move_frames frames no_flows)).flows
