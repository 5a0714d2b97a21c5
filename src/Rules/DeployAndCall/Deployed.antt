-- ===== src/Rules/DeployAndCall/Deployed.antt =====
-- The rule on deployments, in the terms of the call tree (internal/rules/deploycall.go).
use tx_firewall.Base.{
  ℕ, ◌+◌, ◌≤◌, Bool, true, false, none, some, List, [], ◌∷◌, ◌++◌, ◌≡◌, refl, sym, ◌∙◌, ap, not,
  ◌&&◌, ◌||◌, Bool-cases, inl, inr, contains, length, length-append, str_eq, if◌then◌else◌, arith,
  ◌==◌, append_assoc, append-nil,
}
use tx_firewall.Geth.{Geth, Address}
use tx_firewall.TxDecode.{Decoded}
use tx_firewall.Simulate.{CallFrame, call, Calls, no_calls, and_then, CallInfo}
use tx_firewall.Analysis.{Analysis, subtree_end, build}
use tx_firewall.Analysis.Frames.{Frame, is_call, is_create}
use tx_firewall.Analysis.Order.{
  address_in, placed, preorder, preorder_calls, EndsAbove, subtree_end_lem, build-frames,
}
use tx_firewall.Rules.DeployAndCall.{scan, no_scan}
use tx_firewall.Rules.DeployAndCall.Found.{
  first_end, first_end-concat, is_hit, any_hit, called-any_hit,
}

module _ (x : Address) where
  -- The frame creates the address, or calls it.
  abbrev pub creates : CallInfo → Bool
  creates f = (str_eq f.type "CREATE" || str_eq f.type "CREATE2") && address_in f.to == x

  abbrev pub calls_it : CallInfo → Bool
  calls_it f =
      (str_eq f.type "CALL"
        || str_eq f.type "STATICCALL"
        || str_eq f.type "DELEGATECALL"
        || str_eq f.type "CALLCODE")
      && address_in f.to == x

  -- Whether the address is created when the frame has ended, if `c` says whether it was before. A
  -- frame that is rolled back changes nothing.
  unfoldable mutual
    pub created_after : Bool → CallFrame → Bool
    created_after c (call f calls) =
        if str_eq f.error ""
        then (if not c && creates f then true else created_after_calls c calls)
        else c

    pub created_after_calls : Bool → Calls → Bool
    created_after_calls c no_calls = c
    created_after_calls c (and_then t ts) = created_after_calls (created_after c t) ts

  -- Whether a frame of the tree calls the address after the frame that created it has ended, with
  -- all below it; nothing below that frame counts.
  unfoldable mutual
    pub is_called : Bool → CallFrame → Bool
    is_called c (call f calls) =
        if str_eq f.error ""
        then (if not c && creates f then false else (c && calls_it f || any_called c calls))
        else false

    pub any_called : Bool → Calls → Bool
    any_called c no_calls = false
    any_called c (and_then t ts) = is_called c t || any_called (created_after c t) ts

EndsAbove-weaken : (depth : ℕ) (fs : List Frame) → EndsAbove depth fs → EndsAbove (depth + 1) fs
EndsAbove-weaken depth [] h = tt
EndsAbove-weaken depth (f ∷ fs) h = omega arith

EndsAbove-preorder :
    (t : CallFrame) (depth : ℕ) (after : List Frame)
    → EndsAbove depth after
    → EndsAbove depth (preorder t depth ++ after)
unfolding preorder
EndsAbove-preorder (call f calls) depth after h = elim (Bool-cases (str_eq f.error "")) [
  | inl fine ↦ rw fine (omega arith)
  | inr reverted ↦ rw reverted h
]

EndsAbove-preorder_calls :
    (ts : Calls) (depth : ℕ) (after : List Frame)
    → EndsAbove depth after
    → EndsAbove depth (preorder_calls ts depth ++ after)
unfolding preorder
EndsAbove-preorder_calls no_calls depth after h = h
EndsAbove-preorder_calls (and_then t ts) depth after h =
    rw (append_assoc (preorder t depth) (preorder_calls ts depth) after) (
      EndsAbove-preorder t depth (preorder_calls ts depth ++ after)
        (EndsAbove-preorder_calls ts depth after h))

module _ (a : Analysis) (x : Address) where
  -- What the frames before say of the address: not created, or created by a frame that has ended.
  abbrev IsPhase : List Frame → Bool → Type 0
  IsPhase before false = first_end a x 0 before ≡ none
  IsPhase before true = (e : ℕ) × (first_end a x 0 before ≡ some e) × (e ≤ length before)

  -- Below the frame that creates the address, nothing is a hit.
  any_hit-running :
      (before fs after : List Frame) (e : ℕ)
      → first_end a x 0 before ≡ some e
      → length before + length fs ≤ e
      → (any_hit a x before (fs ++ after) ≡ any_hit a x (before ++ fs) after)
        × (first_end a x 0 (before ++ fs) ≡ some e)
  any_hit-running before [] after e h k = rw append-nil (refl, h)
  any_hit-running before (f ∷ fs) after e h k =
      let h' : first_end a x 0 (before ++ f ∷ []) ≡ some e =
        first_end-concat a x 0 (length before) before f (omega arith) ∙ rw h refl in
      let (same, ends) =
        any_hit-running (before ++ f ∷ []) fs after e h'
          (omega (arith, length-append before (f ∷ []))) in
      let assoc = append_assoc before (f ∷ []) fs in
      (rw (h, same, assoc) (ground arith), rw assoc at ends)

  -- A frame that does not create the address for the first time.
  enter-IsPhase :
      (c : Bool) (before : List Frame) (f : CallInfo) (depth : ℕ)
      → (not c && creates x f) ≡ false
      → IsPhase before c
      → (is_hit a x before (placed f depth) ≡ (c && calls_it x f))
        × IsPhase (before ++ placed f depth ∷ []) c
  unfolding is_create is_call
  enter-IsPhase false before f depth other h = (
    rw h (ground arith),
    first_end-concat a x 0 (length before) before (placed f depth) (omega arith)
        ∙ rw h (ground arith),
  )
  enter-IsPhase true before f depth other (e, h, k) = (
    rw h (ground arith),
    (
      e,
      first_end-concat a x 0 (length before) before (placed f depth) (omega arith) ∙ rw h refl,
      omega (arith, length-append before (placed f depth ∷ [])),
    ),
  )

  -- The frame that creates it, and all below it.
  creating-IsPhase :
      (before after : List Frame) (f : CallInfo) (calls : Calls) (depth : ℕ)
      → creates x f ≡ true
      → a.frames ≡ before ++ placed f depth ∷ (preorder_calls calls (depth + 1) ++ after)
      → EndsAbove depth after
      → IsPhase before false
      → (any_hit a x before (placed f depth ∷ (preorder_calls calls (depth + 1) ++ after))
          ≡ any_hit a x (before ++ placed f depth ∷ preorder_calls calls (depth + 1)) after)
        × IsPhase (before ++ placed f depth ∷ preorder_calls calls (depth + 1)) true
  unfolding is_create is_call
  creating-IsPhase before after f calls depth new_ shape ends h =
      let inside = preorder_calls calls (depth + 1) in
      let end_ = subtree_end a (length before) in
      let at_end = subtree_end_lem a before after f calls depth shape ends in
      let h' : first_end a x 0 (before ++ placed f depth ∷ []) ≡ some end_ =
        first_end-concat a x 0 (length before) before (placed f depth) (omega arith)
        ∙ rw h (ground arith) in
      let grown = length-append before (placed f depth ∷ []) in
      let (same, ended) =
        any_hit-running (before ++ placed f depth ∷ []) inside after end_ h'
          (omega (arith, grown, at_end)) in
      let assoc = append_assoc before (placed f depth ∷ []) inside in
      (
        rw (h, same, assoc) (ground arith),
        (
          end_,
          rw assoc at ended,
          omega (arith, at_end, length-append before (placed f depth ∷ inside)),
        ),
      )

  -- What the frames of a part of the tree add to the hits, and to what is known of the address.
  abbrev Adds : List Frame → List Frame → List Frame → Bool → Bool → Type 0
  Adds before here after called c =
      (any_hit a x before (here ++ after) ≡ (called || any_hit a x (before ++ here) after))
      × IsPhase (before ++ here) c

  Adds-then :
      (before here there after : List Frame) (called called' : Bool) (c c' : Bool)
      → Adds before here (there ++ after) called c
      → Adds (before ++ here) there after called' c'
      → Adds before (here ++ there) after (called || called') c'
  Adds-then before here there after called called' c c' (e, _) (e', h) =
      let assoc = append_assoc before here there in
      let assoc' = append_assoc here there after in
      (rw (assoc', e, e', assoc) (ground arith), rw assoc at h)

  module _ (f : CallInfo) (calls : Calls) (depth : ℕ) (c : Bool) (before after : List Frame) where
    -- A frame with its calls, if it is not rolled back.
    frame-Adds :
        a.frames ≡ before ++ placed f depth ∷ (preorder_calls calls (depth + 1) ++ after)
        → EndsAbove depth after
        → IsPhase before c
        → ((IsPhase (before ++ placed f depth ∷ []) c)
            → Adds
                (before ++ placed f depth ∷ [])
                (preorder_calls calls (depth + 1))
                after
                (any_called x c calls)
                (created_after_calls x c calls))
        → Adds before
            (placed f depth ∷ preorder_calls calls (depth + 1))
            after
            (if not c && creates x f then false else (c && calls_it x f || any_called x c calls))
            (if not c && creates x f then true else created_after_calls x c calls)
    frame-Adds shape ends h below = elim (Bool-cases (not c && creates x f)) [
      | inl new_ ↦
          let absent : c ≡ false = ground arith in
          rw new_
            (creating-IsPhase before after f calls depth (ground arith) shape ends (rw absent at h))
      | inr other ↦
          let (hit, h') = enter-IsPhase c before f depth other h in
          let (more, h'') = below h' in
          let assoc =
            append_assoc before (placed f depth ∷ []) (preorder_calls calls (depth + 1)) in
          rw other (rw (hit, more, assoc) (ground arith), rw assoc at h'')
    ]

  mutual
    unfolding preorder is_called created_after

    tree-Adds :
        (t : CallFrame) (depth : ℕ) (c : Bool) (before after : List Frame)
        → a.frames ≡ before ++ (preorder t depth ++ after)
        → EndsAbove depth after
        → IsPhase before c
        → Adds before (preorder t depth) after (is_called x c t) (created_after x c t)
    tree-Adds (call f calls) depth c before after shape ends h =
        elim (Bool-cases (str_eq f.error "")) [
          | inl fine ↦ rw fine (
              frame-Adds f calls depth c before after (rw fine at shape) ends h (
                calls-Adds calls (depth + 1) c (before ++ placed f depth ∷ []) after
                  ((rw fine at shape) ∙ sym (append_assoc before (placed f depth ∷ []) _))
                  (EndsAbove-weaken depth after ends)))
          | inr reverted ↦ rw (reverted, append-nil) (refl, h)
        ]

    calls-Adds :
        (ts : Calls) (depth : ℕ) (c : Bool) (before after : List Frame)
        → a.frames ≡ before ++ (preorder_calls ts depth ++ after)
        → EndsAbove depth after
        → IsPhase before c
        → Adds before
            (preorder_calls ts depth)
            after
            (any_called x c ts)
            (created_after_calls x c ts)
    calls-Adds no_calls depth c before after shape ends h = rw append-nil (refl, h)
    calls-Adds (and_then t ts) depth c before after shape ends h =
        let rest = preorder_calls ts depth ++ after in
        let shape' =
          shape
          ∙ ap (λ l. before ++ l)
              (append_assoc (preorder t depth) (preorder_calls ts depth) after) in
        let here =
          tree-Adds t depth c before rest shape' (EndsAbove-preorder_calls ts depth after ends) h in
        Adds-then before (preorder t depth) (preorder_calls ts depth) after (is_called x c t)
          (any_called x (created_after x c t) ts) (created_after x c t) _ here
          (calls-Adds ts depth (created_after x c t) (before ++ preorder t depth) after
            (shape' ∙ sym (append_assoc before (preorder t depth) rest)) ends here.1)

-- In a trace, an address is among those that the rule reports exactly if a frame that is not rolled
-- back calls it after the first such frame that created it has ended, with all below it.
pub called-is_called :
    (g : Geth) (d : Decoded) (t : CallFrame) (x : Address)
    → contains x (scan (build g d (some t)) 0 (build g d (some t)).frames no_scan).called
      ≡ is_called x false t
called-is_called g d t x =
    let a = build g d (some t) in
    let (e, _) =
      tree-Adds a x t 0 false [] [] (build-frames g d t ∙ sym (append-nil (preorder t 0))) tt
        refl in
    called-any_hit a x
    ∙ (ap (any_hit a x []) (build-frames g d t ∙ sym (append-nil (preorder t 0)))
        ∙ (e ∙ ground arith))
