-- ===== src/Base/Errors.antt =====
-- Go's `error` values, as the code builds and inspects them, and results of fallible code. A Go
-- function that returns a value beside a non-nil error is read for its error alone by every
-- caller in this program, so a result is a value or an error.

use Prim.Native.String.{String}
use mathlib.Core.Path.{◌≡◌, refl}
use mathlib.Core.Option.{Option, none, some}
use mathlib.Core.Logic.{◌⊎◌, inl, inr}
use tx_firewall.Base.Int.{ℤ}

pub data Error : Type 0 where
  -- errors.New, fmt.Errorf without %w, and errors of other packages that the code never inspects
  plain : String → Error
  -- fmt.Errorf("<prefix>: %w", err)
  wrap : String → Error → Error
  -- fmt.Errorf("%w<suffix>", err)
  wrap_before : Error → String → Error
  -- *simulate.NodeError, by its Message
  node_error : String → Error
  -- an error with rpc.Error's methods: ErrorCode() and Error()
  rpc_error : ℤ → String → Error

-- `var nodeErr *simulate.NodeError; errors.As(err, &nodeErr)`: the first in the chain.
abbrev pub as_node_error : Error → Option String
as_node_error (plain _) = none
as_node_error (wrap _ e) = as_node_error e
as_node_error (wrap_before e _) = as_node_error e
as_node_error (node_error message) = some message
as_node_error (rpc_error _ _) = none

-- `var rpcErr rpc.Error; errors.As(err, &rpcErr)`.
abbrev pub as_rpc_error : Error → Option (ℤ × String)
as_rpc_error (plain _) = none
as_rpc_error (wrap _ e) = as_rpc_error e
as_rpc_error (wrap_before e _) = as_rpc_error e
as_rpc_error (node_error _) = none
as_rpc_error (rpc_error code message) = some (code, message)

pub data Result {ℓ} (A : Type ℓ) : Type ℓ where
  ok : A → Result A
  err : Error → Result A

pub Result-cases {ℓ} :
    {A : Type ℓ} (r : Result A) → ((a : A) × (r ≡ ok a)) ⊎ ((e : Error) × (r ≡ err e))
Result-cases (ok a) = inl (a, refl)
Result-cases (err e) = inr (e, refl)

module _ {A B : Type 0} where
  -- The chains of fallible calls that `if err != nil { return …, err }` makes.
  infixl 5 ◌>>=◌
  abbrev pub ◌>>=◌ : Result A → (A → Result B) → Result B
  ok a >>= f = f a
  err e >>= f = err e

  pub >>=-inv :
      {b : B} (f : A → Result B) (r : Result A)
      → (r >>= f) ≡ ok b
      → (a : A) × (f a ≡ ok b) × (r ≡ ok a)
  >>=-inv f (ok a) given = (a, given, refl)
  >>=-inv f (err e) given = cc

  -- The same in continuation-passing style, for long chains.
  pub >>=-then {ℓ} :
      {C : Type ℓ} {b : B} (r : Result A) (f : A → Result B)
      → (r >>= f) ≡ ok b
      → ((a : A) → r ≡ ok a → f a ≡ ok b → C)
      → C
  >>=-then (ok a) f given k = k a refl given
  >>=-then (err e) f given k = cc

module _ {ℓ} {A : Type ℓ} where
  pub err-ne-ok : {e : Error} {a : A} → err e ≡ ok a → ⊥
  err-ne-ok h = cc

  pub ok-injective : {a b : A} → ok a ≡ ok b → a ≡ b
  ok-injective h = cc
