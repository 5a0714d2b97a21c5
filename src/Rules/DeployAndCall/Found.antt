-- ===== src/Rules/DeployAndCall/Found.antt =====
-- Which contracts the rule on deployments reports.
use tx_firewall.Base.{
  ℕ, ◌+◌, String, Bool, true, false, Option, none, some, List, [], ◌∷◌, ◌++◌, ◌≡◌, refl, sym, ◌∙◌,
  ap, ◌&&◌, ◌||◌, Bool-cases, inl, inr, contains, contains-append, length, length-append, str_eq,
  eq_iff, if◌then◌else◌, arith, ◌==◌,
}
use tx_firewall.Geth.{Address}
use tx_firewall.Analysis.{Analysis, subtree_end}
use tx_firewall.Analysis.Frames.{Frame, is_call, is_create}
use tx_firewall.Rules.DeployAndCall.{Scan, get_end, has_code_at, visit, scan, no_scan}

-- A type that runs code creates none.
abbrev runs_code : String → Bool
runs_code t =
    str_eq t "CALL" || str_eq t "STATICCALL" || str_eq t "DELEGATECALL" || str_eq t "CALLCODE"

runs_code-ne : (t u : String) → runs_code u ≡ false → runs_code t ≡ true → str_eq t u ≡ false
runs_code-ne t u h k = elim (Bool-cases (str_eq t u)) [
  | inl same ↦ let e : t ≡ u = (eq_iff t u).0 same in absurd (both (rw (← e) at h) k)
  | inr other ↦ other
]
  where
    both : runs_code t ≡ false → runs_code t ≡ true → ⊥
    both h k = cc

call-ne-create : (f : Frame) → is_call f ≡ true → is_create f ≡ false
unfolding is_call is_create
call-ne-create f h =
    ground (arith, runs_code-ne f.type "CREATE" refl h, runs_code-ne f.type "CREATE2" refl h)

module _ (a : Analysis) (x : Address) where
  -- Where the frame that first creates the address, and all below it, ends.
  abbrev pub first_end : ℕ → List Frame → Option ℕ
  first_end i [] = none
  first_end i (f ∷ fs) =
      if is_create f && f.to == x then some (subtree_end a i) else first_end (i + 1) fs

  -- A frame calls the address where the frames before it have created it and its code is there.
  abbrev pub is_hit : List Frame → Frame → Bool
  is_hit before f = is_call f && f.to == x && has_code_at (length before) (first_end 0 before)

  abbrev pub any_hit : List Frame → List Frame → Bool
  any_hit before [] = false
  any_hit before (f ∷ fs) = is_hit before f || any_hit (before ++ f ∷ []) fs

  -- The local variables, as far as they are about the address.
  record IsTracked (before : List Frame) (s : Scan) : Type 0 where
    ends : get_end x s.deployed_at ≡ first_end 0 before
    reports : contains x s.reported ≡ contains x s.called

  abbrev pub or_end : Option ℕ → Option ℕ → Option ℕ
  or_end none e = e
  or_end (some i) e = some i

  pub first_end-concat :
      (i k : ℕ) (before : List Frame) (f : Frame)
      → k ≡ i + length before
      → first_end i (before ++ f ∷ []) ≡ or_end (first_end i before) (first_end k (f ∷ []))
  first_end-concat i k [] f e = let same : k ≡ i = omega (arith, e) in rw same (ground arith)
  first_end-concat i k (b ∷ before) f e =
      ground (arith, first_end-concat (i + 1) k before f (omega (arith, e)))

  visit-get_end :
      (i : ℕ) (f : Frame) (s : Scan)
      → get_end x (visit a i f s).deployed_at
        ≡ or_end (get_end x s.deployed_at) (first_end i (f ∷ []))
  unfolding visit get_end
  visit-get_end i f s = ground arith

  visit-called :
      (before : List Frame) (f : Frame) (s : Scan)
      → IsTracked before s
      → (contains x (visit a (length before) f s).called ≡ (contains x s.called || is_hit before f))
        × (contains x (visit a (length before) f s).reported
            ≡ contains x (visit a (length before) f s).called)
  unfolding visit
  visit-called before f s h =
      ground (arith, h.ends, h.reports, call-ne-create f, contains-append x s.called (f.to ∷ []))

  visit-IsTracked :
      (before : List Frame) (f : Frame) (s : Scan)
      → IsTracked before s
      → IsTracked (before ++ f ∷ []) (visit a (length before) f s)
  visit-IsTracked before f s h = record {
    ends =
        visit-get_end (length before) f s
        ∙ (ap (λ e. or_end e (first_end (length before) (f ∷ []))) h.ends
            ∙ sym (first_end-concat 0 (length before) before f (omega arith)));
    reports = (visit-called before f s h).1;
  }

  scan-called :
      (before fs : List Frame) (s : Scan)
      → IsTracked before s
      → contains x (scan a (length before) fs s).called ≡ (contains x s.called || any_hit before fs)
  unfolding scan
  scan-called before [] s h = ground arith
  scan-called before (f ∷ fs) s h =
      let s' = visit a (length before) f s in
      let next : length (before ++ f ∷ []) ≡ length before + 1 = length-append before (f ∷ []) in
      let rest = scan-called (before ++ f ∷ []) fs s' (visit-IsTracked before f s h) in
      ground (arith, (visit-called before f s h).0, (rw next at rest))

  -- The address is among those that the rule reports exactly if some frame calls it after an earlier frame created it,
  -- and not before the first such frame and all below it have ended.
  pub called-any_hit : contains x (scan a 0 a.frames no_scan).called ≡ any_hit [] a.frames
  unfolding get_end
  called-any_hit = scan-called [] a.frames no_scan (record { ends = refl; reports = refl })
