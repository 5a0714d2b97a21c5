-- ===== src/Analysis/Flows/Scan.antt =====
-- The index map of computeFlows (internal/analysis/analysis.go) beside a plain scan of the list.
use tx_firewall.Base.{
  ℕ, zero, suc, Option, none, some, List, [], ◌∷◌, ◌++◌, ◌≡◌, refl, sym, ◌∙◌, if◌then◌else◌, length,
  arith, Option-cases, inl, inr,
}
use tx_firewall.Analysis.Flows.{Flow, Key, Ledger, key_eq, lookup_key, modify, flow, post, no_flows}

abbrev pub key : Flow → Key
key f = record { asset = f.asset; holder = f.holder }

abbrev pub no_flow : Key → Flow
no_flow k = record { asset = k.asset; holder = k.holder; out = 0; into = 0 }

-- Change the pair's flow, or add one, by a scan.
unfoldable pub bump : Key → (Flow → Flow) → List Flow → List Flow
bump k change [] = change (no_flow k) ∷ []
bump k change (f ∷ fs) = if key_eq (key f) k then change f ∷ fs else f ∷ bump k change fs

abbrev next : Option ℕ → Option ℕ
next none = none
next (some i) = some (suc i)

pub position : Key → List Flow → Option ℕ
position k [] = none
position k (f ∷ fs) = if key_eq (key f) k then some 0 else next (position k fs)

module _ (change : Flow → Flow) (keeps : (f : Flow) → key (change f) ≡ key f) (k : Key) where
  modify-bump :
      (fs : List Flow) (i : ℕ) → position k fs ≡ some i → modify fs i change ≡ bump k change fs
  unfolding position modify bump
  modify-bump [] i h = cc
  modify-bump (f ∷ fs) zero h = ground (arith)
  modify-bump (f ∷ fs) (suc i) h = ground (arith, modify-bump fs i)

  modify-bump_new :
      (fs : List Flow)
      → position k fs ≡ none
      → modify (fs ++ no_flow k ∷ []) (length fs) change ≡ bump k change fs
  unfolding position modify bump
  modify-bump_new [] h = refl
  modify-bump_new (f ∷ fs) h = ground (arith, modify-bump_new fs)

  position-bump :
      (l : Key) (fs : List Flow) (i : ℕ)
      → position k fs ≡ some i
      → position l (bump k change fs) ≡ position l fs
  unfolding position bump
  position-bump l [] i h = cc
  position-bump l (f ∷ fs) zero h = ground (arith, keeps f)
  position-bump l (f ∷ fs) (suc i) h = ground (arith, position-bump l fs i)

  position-bump_new :
      (l : Key) (fs : List Flow)
      → position k fs ≡ none
      → position l (bump k change fs) ≡ (if key_eq k l then some (length fs) else position l fs)
  unfolding position bump
  position-bump_new l [] h = ground (arith, keeps (no_flow k))
  position-bump_new l (f ∷ fs) h = ground (arith, position-bump_new l fs)

-- The map gives each pair's position.
pub record IsIndexed (s : Ledger) : Type 0 where
  pub at : (k : Key) → lookup_key k s.index ≡ position k s.flows

pub no_flows-IsIndexed : IsIndexed no_flows
unfolding lookup_key position
no_flows-IsIndexed = record { at = λ k. refl }

module _ (change : Flow → Flow) (keeps : (f : Flow) → key (change f) ≡ key f) (k : Key) where
  -- As long as the map gives each pair's position, and the change keeps a flow's asset and holder,
  -- posting through the map changes the flows as a plain scan does.
  pub post-bump : (s : Ledger) → IsIndexed s → (post k change s).flows ≡ bump k change s.flows
  unfolding post flow
  post-bump s h = elim (Option-cases (lookup_key k s.index)) [
    | inl new ↦ rw (new, flow) (modify-bump_new change keeps k s.flows (sym (h.at k) ∙ new))
    | inr (i, old) ↦ rw (old, flow) (modify-bump change keeps k s.flows i (sym (h.at k) ∙ old))
  ]

  lookup_key-post_new :
      (l : Key) (s : Ledger)
      → lookup_key k s.index ≡ none
      → lookup_key l (post k change s).index
        ≡ (if key_eq k l then some (length s.flows) else lookup_key l s.index)
  unfolding post flow lookup_key
  lookup_key-post_new l s new = ground arith

  index-post_old :
      (s : Ledger) (i : ℕ) → lookup_key k s.index ≡ some i → (post k change s).index ≡ s.index
  unfolding post flow
  index-post_old s i old = ground arith

  pub post-IsIndexed : (s : Ledger) → IsIndexed s → IsIndexed (post k change s)
  unfolding post flow lookup_key
  post-IsIndexed s h = elim (Option-cases (lookup_key k s.index)) [
    | inl new ↦
        let absent : position k s.flows ≡ none = sym (h.at k) ∙ new in
        record {
          at = λ l.
              rw (new, flow)
                (rw (modify-bump_new change keeps k s.flows absent) (
                  rw (position-bump_new change keeps k l s.flows absent, ← h.at l)
                    (lookup_key-post_new l s new)));
        }
    | inr (i, old) ↦
        let there : position k s.flows ≡ some i = sym (h.at k) ∙ old in
        record {
          at = λ l.
              rw (old, flow)
                (rw (modify-bump change keeps k s.flows i there) (
                  rw (position-bump change keeps k l s.flows i there, index-post_old s i old)
                    (h.at l)));
        }
  ]
