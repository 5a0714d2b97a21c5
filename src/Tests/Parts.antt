-- ===== src/Tests/Parts.antt =====
-- The caches, the oracle's answer and the events on concrete inputs.
use mathlib.Core.List.{Mem}
use tx_firewall.Base.{
  List, String, Bytes, set_bytes, replicate, any, ltb, if◌then◌else◌, none, ok, err, Result, Error,
  Option, as_rpc_error, ℕ, ◌+◌, ◌<◌, Bool, true, false, some, [], ◌∷◌, ◌≡◌, refl, ◌↔◌, ◌⊎◌, arith,
}
use tx_firewall.Base.Exec.{IfOk, Exec, Returns, pure}
use tx_firewall.Geth.{Address}
use tx_firewall.Sanctions.Cache.{hit, store, get_entry, put_entry, cached_checker}
use tx_firewall.Sanctions.Cache.Sharing.{
  Answer, Shared, nothing, Step, Reach, IsSound, Reach-IsSound, hit-answered, cached_checker-Step,
}
use tx_firewall.Sanctions.Cache.Remembering.{store_all, cached_checker-remembers}
use tx_firewall.Sanctions.{Checker}
use tx_firewall.Base.{All, length, ◌≤◌, ◌≢◌}
use tx_firewall.Sanctions.Oracle.{decode_bool}
use tx_firewall.Sanctions.Oracle.Strict.{encode_bool, decode_bool_iff}
use tx_firewall.Chainstate.{established}
use tx_firewall.Chainstate.Known.{learn, cached_status}
use tx_firewall.Chainstate.Known.Growing.{
  Shared as ChainShared, Step as ChainStep, Reach as ChainReach, IsFaithful, cached_status-current,
}
use tx_firewall.Chainstate.{Status, StatusReader}
use tx_firewall.Events.{event_args}
use tx_firewall.Events.Privilege.{decode_privilege_change}
use tx_firewall.Events.Privilege.Placement.{
  encode, event_args-encode, decode_privilege_change-placement,
}
use tx_firewall.Sanctions.Any.{any_checker}
use tx_firewall.Sanctions.Any.Clean.{AllClean, any_checker-clean_iff}
use tx_firewall.Sanctions.Listed.{
  ListChecker, Line, is_listed, load_list_checker, parse_list, parse_lines, after_scan, checker_of,
  new_list_checker, put_all, put_address, cut_comment, trim_space, trim_left, is_space,
}
use tx_firewall.Sanctions.Listed.Format.{names, is_invalid, load_list_checker_iff}
use tx_firewall.Chainstate.{fresh}
use tx_firewall.Chainstate.Freshness.{status}
use tx_firewall.Chainstate.Freshness.History.{block_of}
use tx_firewall.Chainstate.Freshness.Ageing.{IsBornAt, status_by_age, status-ages}
use tx_firewall.Chainstate.Balances.{balance}
use tx_firewall.Chainstate.Balances.Encoded.{encode_uint256, IsBalance, unread, balance-reads}
use tx_firewall.Tests.World.{geth, geth-IsGeth, word}

abbrev first : Answer
first = record { address = 7; sanctioned = true; time = 100 }

abbrev filled : Shared
filled = record { entries = store 60 2 100 7 true []; answers = first ∷ [] }

filled-Reach : Reach 60 2 filled
filled-Reach = Reach.step Reach.start (Step.answered nothing first)

Reach-IsSound_example : IsSound 60 2 filled
Reach-IsSound_example = Reach-IsSound 60 2 filled-Reach

hit-answered_example :
    (t : ℕ) × Mem (record { address = 7; sanctioned = true; time = t }) filled.answers
    × (150 < t + 60)
unfolding hit store put_entry get_entry
hit-answered_example = hit-answered 60 2 {s = filled} 150 7 true filled-Reach refl

abbrev world : Shared × Unit {0}
world = (filled, tt)

cached_checker-Step_example :
    ((cached_checker 60 2 (λ w. 150) (λ a. pure false) 9 (filled.entries, tt)).1.0 ≡ filled.entries)
    ⊎ ((b : Bool) × ((cached_checker 60 2 (λ w. 150) (λ a. pure false) 9 (filled.entries, tt)).0
          ≡ ok b)
        × ((pure {W = Unit {0}} {A = Bool} false tt).0 ≡ ok b)
        × Step 60 2 filled (record {
          entries = (cached_checker 60 2 (λ w. 150) (λ a. pure false) 9 (filled.entries, tt)).1.0;
          answers = record { address = 9; sanctioned = b; time = 150 } ∷ filled.answers;
        }))
cached_checker-Step_example =
    cached_checker-Step 60 2 {W = Unit {0}} (λ w. 150) (λ a. pure false) 9 filled tt

decode_bool_iff_example :
    (decode_bool (encode_bool true) ≡ ok true) ↔ (encode_bool true ≡ encode_bool true)
decode_bool_iff_example = decode_bool_iff (encode_bool true) true

-- a contract of block 60 on a growing chain: the world is its latest block
abbrev age_at : ℕ → Address → Status
age_at latest a = status_by_age 50 latest 60

abbrev ageing : StatusReader ℕ
ageing a latest = (ok (age_at latest a), latest)

abbrev Grows : ℕ → ℕ → Type 0
Grows n m = n ≤ m

ageing-IsFaithful : IsFaithful 2 ageing age_at Grows
ageing-IsFaithful = record {
  reads = λ a w. refl;
  moves = λ a w. omega arith;
  stays = λ a w w' l h. ground arith;
}

abbrev learned : ChainShared ℕ
learned = record { known = 7 ∷ []; seen = 7 ∷ []; world = 300 }

learned-Reach : ChainReach 2 ageing age_at Grows 200 learned
unfolding learn
learned-Reach =
    ChainReach.step
      (ChainReach.step (ChainReach.step ChainReach.start (ChainStep.answered 7 refl))
        (ChainStep.remembered 7 refl))
      (ChainStep.passed 300 (omega arith))

cached_status-current_example :
    IfOk (λ st. st ≡ established) (cached_status 2 ageing 7 (7 ∷ [], 300)).0
    × ((t : ChainShared ℕ) × ChainReach 2 ageing age_at Grows 200 t
        × (t.known ≡ (cached_status 2 ageing 7 (7 ∷ [], 300)).1.0)
        × (t.world ≡ (cached_status 2 ageing 7 (7 ∷ [], 300)).1.1))
    × (1 ≤ 2)
cached_status-current_example =
    cached_status-current 2 ageing age_at Grows ageing-IsFaithful (omega arith) {s = learned} 7
      learned-Reach

read_back : event_args geth (word 5 ∷ []) (encode (word 6 ∷ [])) ≡ some (word 5 ∷ word 6 ∷ [])
read_back = event_args-encode geth geth-IsGeth (word 5 ∷ []) (word 6 ∷ []) (refl, tt)

-- OwnershipTransferred with both owners in the topics, and with none
decode_privilege_change-placement_example :
    decode_privilege_change geth 8 (word 2 ∷ word 5 ∷ word 6 ∷ []) (encode [])
    ≡ decode_privilege_change geth 8 (word 2 ∷ []) (encode (word 5 ∷ word 6 ∷ []))
decode_privilege_change-placement_example =
    decode_privilege_change-placement geth geth-IsGeth 8 (word 2) (word 5 ∷ word 6 ∷ []) [] []
      (word 5 ∷ word 6 ∷ []) tt (refl, (refl, tt)) refl

-- a clean answer of two checkers
two_clean :
    (any_checker {W = Unit {0}} ((λ x. pure false) ∷ (λ x. pure false) ∷ []) 7 tt ≡ (ok false, tt))
    ↔ AllClean {W = Unit {0}} ((λ x. pure false) ∷ (λ x. pure false) ∷ []) 7 tt tt
two_clean =
    any_checker-clean_iff {W = Unit {0}} ((λ x. pure false) ∷ (λ x. pure false) ∷ []) 7 tt tt

-- a file of a comment, a blank line and 42 digits behind a blank
abbrev quote : Line → String
quote line = "line"

abbrev lines : List Line
lines = (b'#' ∷ b'1' ∷ []) ∷ [] ∷ (b' ' ∷ replicate 42 b'1') ∷ []

program : Unit {0}
unfolding load_list_checker parse_list parse_lines after_scan checker_of new_list_checker put_all
    put_address cut_comment trim_space trim_left is_space set_bytes
program = tt

load_list_checker_iff_example :
    ((any (is_invalid geth quote) lines ≡ false)
      ↔ ((c : ListChecker) × (load_list_checker geth quote "list" (ok (lines, none)) ≡ ok c)))
    × ((c : ListChecker) (addr : Address)
        → load_list_checker geth quote "list" (ok (lines, none)) ≡ ok c
        → is_listed c addr ≡ any (names geth quote addr) lines)
load_list_checker_iff_example = load_list_checker_iff geth quote "list" lines

-- the file is valid, and names the address that the digits spell
valid : any (is_invalid geth quote) lines ≡ false
unfolding program
valid = refl

-- code since block 60, seen from block 100
abbrev deployed : Address → ℕ → Bytes
deployed addr n = if ltb n 60 then [] else 1 ∷ []

constant : {A : Type 0} (a : A) → Returns {W = Unit {0}} (λ w. Unit {0}) (pure a) (ok a)
constant a = record { at = λ w h. (refl, tt) }

deployed-IsBornAt : IsBornAt 60 (deployed 7)
deployed-IsBornAt = record { before = λ n h. ground arith; since = λ n h. ground arith }

status-ages_example :
    ((status geth 50 (pure 100) (λ x n. pure (deployed x (block_of 100 n))) 7 tt).0 ≡ ok fresh)
    × Unit {0}
status-ages_example =
    status-ages geth 50 {W = Unit {0}} {P = λ w. Unit {0}} (pure 100)
      (λ x n. pure (deployed x (block_of 100 n))) 100 deployed 7 60 tt (constant 100)
      (λ x n. constant (deployed x (block_of 100 n))) deployed-IsBornAt tt

-- a token of 1000 units, at an address that is not zero
abbrev answering : Address → Bytes → Exec (Unit {0}) Bytes
answering a bs = pure (encode_uint256 1000)

balance-reads_example :
    ((b : Result (Option ℕ))
      → IsBalance (ok (encode_uint256 1000)) b
      → (balance geth (λ a. pure 0) answering 8 7 tt).0 ≡ b)
    × ((e : Error)
        → ok (encode_uint256 1000) ≡ err e
        → as_rpc_error e ≡ none
        → (balance geth (λ a. pure 0) answering 8 7 tt).0 ≡ err (unread geth 8 7 e))
balance-reads_example = balance-reads geth 8 7 (λ a. pure 0) answering tt (λ e. omega arith)

-- the oracle answers at time 100, and is not asked again before 160
abbrev listing : Checker ℕ
listing a now = (ok true, now + 1)

cached_checker-remembers_example :
    ((b : Bool) (w₁ : ℕ)
      → listing 7 100 ≡ (ok b, w₁)
      → (answers : List Answer) (w₂ : ℕ) → All (λ a. a.address ≢ 7) answers
      → length (cached_checker 60 2 (λ t. t) listing 7 ([], 100)).1.0 + length answers ≤ 2
      → w₂ < 100 + 60
      → cached_checker 60 2
          (λ t. t)
          listing
          7
          (store_all 60 2 answers (cached_checker 60 2 (λ t. t) listing 7 ([], 100)).1.0, w₂)
        ≡ (
          ok b,
          (store_all 60 2 answers (cached_checker 60 2 (λ t. t) listing 7 ([], 100)).1.0, w₂),
        ))
    × ((e : Error) (w₁ : ℕ)
        → listing 7 100 ≡ (err e, w₁)
        → cached_checker 60 2 (λ t. t) listing 7 ([], 100) ≡ (err e, ([], w₁)))
unfolding hit get_entry
cached_checker-remembers_example = cached_checker-remembers 60 2 (λ t. t) listing 7 [] 100 refl
