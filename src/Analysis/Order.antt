-- ===== src/Analysis/Order.antt =====
-- The order of an analysis's frames beside the call tree, and SubtreeEnd
-- (internal/analysis/analysis.go).
use native.Mathlib.Numerals.{add-one}
use tx_firewall.Base.{
  ℕ, suc, ◌+◌, ◌≤◌, ◌<◌, Option, none, ◌==◌, some, List, [], ◌∷◌, ◌++◌, ◌≡◌, refl, ◌∙◌, sym,
  append_assoc, append-nil, arith, Option-cases, Bool-cases, inl, inr, str_eq, length, get_elem?,
  drop, All, All-append, if◌then◌else◌,
}
use tx_firewall.Base.Int.{ℤ, pos, negsuc}
use tx_firewall.Geth.{Geth, Address}
use tx_firewall.TxDecode.{Decoded}
use tx_firewall.Simulate.{CallFrame, call, Calls, no_calls, and_then, CallInfo}
use tx_firewall.Analysis.{
  Analysis, add_address, enter_callee, enter, frame_of, frame_value, collect, collect_calls, finish,
  build, from_tx, skip_deeper, subtree_end,
}
use tx_firewall.Analysis.Fields.{collect_logs-frames}
use tx_firewall.Analysis.Frames.{Frame}

-- A value that is given and positive.
abbrev pub value_in : Option ℤ → Option ℕ
value_in none = none
value_in (some (pos n)) = if n == 0 then none else some n
value_in (some (negsuc n)) = none

abbrev pub address_in : Option Address → Address
address_in none = 0
address_in (some a) = a

-- A frame of the trace at its depth.
abbrev pub placed : CallInfo → ℕ → Frame
placed f depth = record {
  type = f.type;
  from = f.from;
  to = address_in f.to;
  value = value_in f.value;
  depth = depth;
}

frame_value-value_in : (v : Option ℤ) → frame_value v ≡ value_in v
frame_value-value_in none = refl
frame_value-value_in (some (pos n)) = ground arith
frame_value-value_in (some (negsuc n)) = refl

frame_of-placed : (f : CallInfo) (depth : ℕ) → frame_of f depth ≡ placed f depth
frame_of-placed f depth = elim (Option-cases f.to) [
  | inl e ↦ rw (e, frame_value-value_in f.value) refl
  | inr (to, e) ↦ rw (e, frame_value-value_in f.value) refl
]

-- The frames that are not rolled back, each before its calls.
unfoldable mutual
  pub preorder : CallFrame → ℕ → List Frame
  preorder (call f calls) depth =
      if str_eq f.error "" then placed f depth ∷ preorder_calls calls (depth + 1) else []

  pub preorder_calls : Calls → ℕ → List Frame
  preorder_calls no_calls depth = []
  preorder_calls (and_then t ts) depth = preorder t depth ++ preorder_calls ts depth

enter-frames :
    (f : CallInfo) (depth : ℕ) (a : Analysis)
    → (enter f depth a).frames ≡ a.frames ++ placed f depth ∷ []
unfolding enter enter_callee add_address
enter-frames f depth a = rw (← frame_of-placed f depth) (elim (Option-cases f.to) [
  | inl e ↦ rw (e, enter_callee)
  | inr (to, e) ↦ rw (e, enter_callee) (ground arith)
])

module _ (g : Geth) where
  mutual
    unfolding collect preorder

    collect-frames :
        (t : CallFrame) (depth : ℕ) (a : Analysis)
        → (collect g t depth a).frames ≡ a.frames ++ preorder t depth
    collect-frames (call f calls) depth a = elim (Bool-cases (str_eq f.error "")) [
      | inl fine ↦ rw fine (
          collect_calls-frames calls (depth + 1) _
          ∙ rw (collect_logs-frames, enter-frames, append_assoc))
      | inr reverted ↦ rw reverted (sym (append-nil _))
    ]

    collect_calls-frames :
        (ts : Calls) (depth : ℕ) (a : Analysis)
        → (collect_calls g ts depth a).frames ≡ a.frames ++ preorder_calls ts depth
    collect_calls-frames no_calls depth a = sym (append-nil _)
    collect_calls-frames (and_then t ts) depth a =
        collect_calls-frames ts depth (collect g t depth a)
        ∙ rw (collect-frames t depth a) (append_assoc a.frames _ _)

  -- The frames of an analysis are the trace's frames that are not rolled back, in pre-order, each
  -- with its type, sender, target and depth, and its value if that is positive.
  pub build-frames : (d : Decoded) (t : CallFrame) → (build g d (some t)).frames ≡ preorder t 0
  unfolding build finish from_tx
  build-frames d t = collect-frames t 0 _

-- `lo` is deeper than `depth`, frame by frame; `hi` is at its end or begins with one that is not.
abbrev pub AreDeeper : ℕ → List Frame → Type 0
AreDeeper depth = All (λ f. depth < f.depth)

abbrev pub EndsAbove : ℕ → List Frame → Type 0
EndsAbove depth [] = Unit
EndsAbove depth (f ∷ fs) = f.depth ≤ depth

skip_deeper_lem :
    (depth j : ℕ) (inside after : List Frame)
    → AreDeeper depth inside
    → EndsAbove depth after
    → skip_deeper depth j (inside ++ after) ≡ j + length inside
unfolding skip_deeper
skip_deeper_lem depth j [] [] _ _ = omega arith
skip_deeper_lem depth j [] (f ∷ fs) _ h = ground arith
skip_deeper_lem depth j (f ∷ fs) after (d, ds) h =
    ground (arith, skip_deeper_lem depth (j + 1) fs after ds h)

mutual
  unfolding preorder

  preorder-deeper : (t : CallFrame) (depth n : ℕ) → n < depth → AreDeeper n (preorder t depth)
  preorder-deeper (call f calls) depth n h = elim (Bool-cases (str_eq f.error "")) [
    | inl fine ↦ rw fine (h, preorder_calls-deeper calls (depth + 1) n (omega arith))
    | inr reverted ↦ rw reverted tt
  ]

  preorder_calls-deeper :
      (ts : Calls) (depth n : ℕ) → n < depth → AreDeeper n (preorder_calls ts depth)
  preorder_calls-deeper no_calls depth n h = tt
  preorder_calls-deeper (and_then t ts) depth n h =
      All-append (λ f. n < f.depth) (preorder t depth) _ (preorder-deeper t depth n h)
        (preorder_calls-deeper ts depth n h)

get_elem?-mid :
    (before : List Frame) (f : Frame) (after : List Frame)
    → get_elem? (before ++ f ∷ after) (length before) ≡ some f
get_elem?-mid [] f after = refl
get_elem?-mid (b ∷ bs) f after = get_elem?-mid bs f after

drop-mid :
    (before : List Frame) (f : Frame) (after : List Frame)
    → drop (suc (length before)) (before ++ f ∷ after) ≡ after
drop-mid [] f after = refl
drop-mid (b ∷ bs) f after = drop-mid bs f after

-- Where a frame of the trace that is not rolled back stands among the frames of an analysis, with
-- its calls behind it and then the end or a frame that is no deeper, SubtreeEnd gives the index
-- just past its last call: 1 + the number of frames below it.
pub subtree_end_lem :
    (a : Analysis) (before after : List Frame) (f : CallInfo) (calls : Calls) (depth : ℕ)
    → a.frames ≡ before ++ placed f depth ∷ (preorder_calls calls (depth + 1) ++ after)
    → EndsAbove depth after
    → subtree_end a (length before) ≡ length before + 1 + length (preorder_calls calls (depth + 1))
unfolding subtree_end
subtree_end_lem a before after f calls depth e h =
    rw (e, subtree_end, get_elem?-mid, add-one (length before), e, drop-mid)
      (skip_deeper_lem depth (suc (length before)) (preorder_calls calls (depth + 1)) after
        (preorder_calls-deeper calls (depth + 1) depth (omega arith)) h)
