-- ===== src/Prelude/Results.antt =====
-- A Go function's value or its error. An error is its sentinel: the text around it is dropped.
use Prim.Native.Nat.{ℕ}
use mathlib.Core.Path.{◌≡◌, refl, subst}

pub data Error : Type 0 where
  -- scatter.go
  unknown_scatter_method no_scatter_keys duplicate_scatter_key scatter_input_missing : Error
  scatter_input_not_array dotproduct_length scatter_output_index scatter_shape : Error
  -- a panic of the Go runtime
  panicked : Error
  -- inputs.go, when.go
  unknown_link_merge unknown_pick_value pick_value incomplete value_from when_not_boolean : Error
  -- handler.go, result.go, runstate.go
  result_invariant no_suspension resumed_status state_mismatch state_version step_failed : Error
  undeclared_resumed_output output_type : Error
  -- clt_cmdline.go
  binding_position binding_prefix binding_value argument_value_from : Error
  -- validate_inputs.go
  input_required input_unknown : Error
  -- resources.go
  resources_unavailable : Error
  -- plan.go
  unknown_source : Error
  -- an error of the code that the model takes as a parameter
  foreign : ℕ → Error

pub data Result {κ} (Value : Type κ) : Type κ where
  err : Error → Result Value
  ok : Value → Result Value

-- `x, err := step(); if err != nil { return err }`
infixl 5 ◌>>=◌ ◌>>◌
abbrev pub ◌>>=◌ {κ μ} :
    {Before : Type κ} {After : Type μ} → Result Before → (Before → Result After) → Result After
err stop >>= go_on = err stop
ok value >>= go_on = go_on value

-- The same for a function that returns an error only.
abbrev pub ◌>>◌ {κ} : {After : Type κ} → Result (Unit {0}) → Result After → Result After
err stop >> rest = err stop
ok _ >> rest = rest

pub ok-injective {ℓ} : {A : Type ℓ} {a b : A} → ok a ≡ ok b → a ≡ b
ok-injective e = cc

-- `P` holds of the result, if there is one.
abbrev pub OnOk {ℓ κ} : {A : Type ℓ} → (A → Type κ) → Result A → Type κ
OnOk P (ok a) = P a
OnOk P (err e) = Unit

pub OnOk-bind {ℓ κ μ} :
    {A : Type ℓ} {B : Type κ} (P : B → Type μ) (m : Result A) (f : A → Result B)
    → ((a : A) → m ≡ ok a → OnOk P (f a))
    → OnOk P (m >>= f)
OnOk-bind P (ok a) f h = h a refl
OnOk-bind P (err e) f h = tt

pub OnOk-elim {ℓ κ} :
    {A : Type ℓ} (P : A → Type κ) {r : Result A} {a : A} → OnOk P r → r ≡ ok a → P a
OnOk-elim P h e = subst (OnOk P) e h
