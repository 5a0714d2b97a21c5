-- ===== src/Base/Exec.antt =====
-- Code that asks the outside world (the node, the oracle, a clock, a shared cache) and may fail:
-- a function from the world's state to a result and the next state. The state comes back beside
-- an error too.
use mathlib.Core.Path.{◌≡◌, refl}
use tx_firewall.Base.Errors.{Error, Result, ok, err}

abbrev pub Exec : Type 0 → Type 0 → Type 0
Exec W A = W → Result A × W

abbrev pub remap {ℓ} : {A : Type ℓ} → (Error → Error) → Result A → Result A
remap f (ok a) = ok a
remap f (err e) = err (f e)

module _ {W A : Type 0} where
  abbrev pub pure : A → Exec W A
  pure a w = (ok a, w)

  abbrev pub raise : Error → Exec W A
  raise e w = (err e, w)

  abbrev pub lift : Result A → Exec W A
  lift r w = (r, w)

  -- `if err != nil { return …, fmt.Errorf(…, err) }`
  abbrev pub on_error : (Error → Error) → Exec W A → Exec W A
  on_error f m w = let (r, w') = m w in (remap f r, w')

module _ {W A B : Type 0} where
  abbrev pub continue : Result A → (A → Exec W B) → Exec W B
  continue (ok a) f w = f a w
  continue (err e) f w = (err e, w)

  infixl 5 ◌>>=◌ ◌>>◌
  abbrev pub ◌>>=◌ : Exec W A → (A → Exec W B) → Exec W B
  ◌>>=◌ m f w = continue (m w).0 f (m w).1

  abbrev pub ◌>>◌ : Exec W A → Exec W B → Exec W B
  m >> n = m >>= λ _. n

-- From a state in which `P` holds, `m` gives the result `r` and leaves `P` true. `P` is what a
-- client relies on: that the node does not change its answers meanwhile, a cache's invariant.
pub record Returns {W A : Type 0} (P : W → Type 0) (m : Exec W A) (r : Result A) : Type 0 where
  pub at : (w : W) → P w → ((m w).0 ≡ r) × P (m w).1

module _ {W A : Type 0} {P : W → Type 0} where
  pub Returns-pure : (a : A) → Returns P (pure a) (ok a)
  Returns-pure a = record { at = λ w h. (refl, h) }

  pub Returns-on_error :
      (f : Error → Error) (m : Exec W A) (a : A)
      → Returns P m (ok a)
      → Returns P (on_error f m) (ok a)
  Returns-on_error f m a h = record { at = λ w p. let (e, q) = h.at w p in (rw e refl, q) }

module _ {W A B : Type 0} {P : W → Type 0} where
  pub Returns-bind :
      (m : Exec W A) (f : A → Exec W B) (a : A) {r : Result B}
      → Returns P m (ok a)
      → Returns P (f a) r
      → Returns P (m >>= f) r
  Returns-bind m f a {r} k l = record {
    at = λ w h. let (e, h') = k.at w h in let (e', h'') = l.at (m w).1 h' in (rw e e', rw e h'');
  }

  pub Returns-bind_err :
      (m : Exec W A) (f : A → Exec W B) (e : Error)
      → Returns P m (err e)
      → Returns P (m >>= f) (err e)
  Returns-bind_err m f e k = record { at = λ w h. let (p, h') = k.at w h in (rw p, rw p h') }

-- A result is an error, or its value meets `P`.
abbrev pub IfOk {ℓ} : {A : Type ℓ} → (A → Type 0) → Result A → Type 0
IfOk P (ok a) = P a
IfOk P (err e) = Unit

pub IfOk-continue :
    {W A B : Type 0} (P : A → Type 0) (Q : B → Type 0) (r : Result A) (f : A → Exec W B) (w : W)
    → IfOk P r
    → ((a : A) → P a → IfOk Q (f a w).0)
    → IfOk Q (continue r f w).0
IfOk-continue P Q (ok a) f w h k = k a h
IfOk-continue P Q (err e) f w h k = tt

pub IfOk-remap :
    {A : Type 0} (P : A → Type 0) (f : Error → Error) (r : Result A) → IfOk P r → IfOk P (remap f r)
IfOk-remap P f (ok a) h = h
IfOk-remap P f (err e) h = tt

pub anything : {A : Type 0} (r : Result A) → IfOk (λ a. Unit {0}) r
anything (ok a) = tt
anything (err e) = tt

pub IfOk-at : {A : Type 0} (P : A → Type 0) {r : Result A} {a : A} → r ≡ ok a → IfOk P r → P a
IfOk-at P e h = rw e at h

-- Inversion of a run that gives a result: what followed from its parts follows from it.
pub remap-inv :
    {A : Type 0} (f : Error → Error) (r : Result A) {a : A} → remap f r ≡ ok a → r ≡ ok a
remap-inv f (ok a) h = h
remap-inv f (err e) h = cc

pub continue-inv {ℓ} :
    {W A B : Type 0} {C : Type ℓ} (r : Result A) (f : A → Exec W B) (w : W) {b : B}
    → (continue r f w).0 ≡ ok b
    → ((a : A) → r ≡ ok a → (f a w).0 ≡ ok b → C)
    → C
continue-inv (ok a) f w h k = k a refl h
continue-inv (err e) f w h k = cc

-- The same of a step whose error gets a prefix.
pub remapped-inv {ℓ} :
    {W A B : Type 0} {C : Type ℓ} (p : Error → Error) (r : Result A) (f : A → Exec W B) (w : W)
    {b : B}
    → (continue (remap p r) f w).0 ≡ ok b
    → ((a : A) → r ≡ ok a → (f a w).0 ≡ ok b → C)
    → C
remapped-inv p (ok a) f w h k = k a refl h
remapped-inv p (err e) f w h k = cc
