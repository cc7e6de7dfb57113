-- ===== src/Command/Bindings.antt =====
-- pkg/cwlexec/clt_binding.go: the leaf bindings of a command line, collected from the schemas and
-- the values. Each function returns the leaves that the code appends to `b.bound`.
use cwl_go.Prelude.{
  ℕ, String, Bool, true, false, Option, none, some, List, [], ◌∷◌, ◌++◌, str_eq, if◌then◌else◌, Map,
  Result, err, ok, ◌>>=◌, binding_position, argument_value_from,
}
use cwl_go.Prelude.Int.{ℤ, pos}
use cwl_go.Value.{Value, null, is_null}
use cwl_go.Sorting.Keys.{SortKey, KeyElem, num_key, child}
use cwl_go.Schema.{Position, at, computed, Binding, TypeRef}
use cwl_go.Command.Values.{Forms, integer_value}

-- `boundArg`, without the origin, which only messages show.
pub record BoundArg : Type 0 where
  pub binding : Binding
  pub value : Value
  pub key : SortKey
  pub is_computed : Bool

-- `bindTarget`, less its type and its origin.
pub record BindTarget : Type 0 where
  pub binding : Option Binding
  pub value : Value
  pub key : SortKey
  pub tie : KeyElem

-- `cmdBuilder`: the evaluator with its context, the inputs, and the resolution of named types.
pub record CmdBuilder : Type 0 where
  pub forms : Forms
  pub eval : String → Value → Result Value
  pub inputs : Map Value
  pub resolve : TypeRef → TypeRef

-- An entry of `arguments`.
pub data Argument : Type 0 where
  no_argument : Argument
  literal expression : String → Argument
  bound : Option Binding → Argument

abbrev pub empty_binding : Binding
empty_binding = record {
  prefix = "";
  item_separator = "";
  value_from = "";
  position = at (pos 0);
  separate = none;
  shell_quote = none;
}

abbrev pub value_from_binding : String → Binding
value_from_binding code = record {
  prefix = "";
  item_separator = "";
  value_from = code;
  position = at (pos 0);
  separate = none;
  shell_quote = none;
}

unfoldable pub argument_binding : Argument → Option Binding
argument_binding (literal s) = some (value_from_binding s)
argument_binding (expression s) = some (value_from_binding s)
argument_binding (bound none) = none
argument_binding (bound (some b)) = if str_eq b.value_from "" then none else some b
argument_binding no_argument = none

abbrev pub integer_or_error : Option ℤ → Result ℤ
integer_or_error none = err binding_position
integer_or_error (some n) = ok n

abbrev pub to_position : Forms → Value → Result ℤ
to_position f v = if is_null v then ok (pos 0) else integer_or_error (integer_value f v)

unfoldable pub position : CmdBuilder → Position → Value → Result ℤ
unfolding integer_value
position b (at n) self = ok n
position b (computed code) self = b.eval code self >>= λ v. to_position b.forms v

abbrev pub leaf : SortKey → Binding → Value → Bool → BoundArg
leaf k binding v is_computed = record {
  binding = binding;
  value = v;
  key = k;
  is_computed = is_computed;
}

unfoldable pub bind_value_from : CmdBuilder → SortKey → Binding → Value → Result (List BoundArg)
bind_value_from b k binding self =
    b.eval binding.value_from self >>= λ v. ok (leaf k binding v true ∷ [])

unfoldable pub bind_argument : CmdBuilder → ℕ → Argument → Result (List BoundArg)
unfolding argument_binding position bind_value_from child
bind_argument b index arg = elim (argument_binding arg) [
  | none ↦ err argument_value_from
  | some binding ↦ position b binding.position null >>= λ p.
      bind_value_from b (child [] (num_key p ∷ num_key (pos index) ∷ [])) binding null
]

abbrev pub and_then : List BoundArg → Result (List BoundArg) → Result (List BoundArg)
and_then first rest = rest >>= λ more. ok (first ++ more)

-- One leaf after another: the code's `append` to `b.bound`, up to the first error.
abbrev pub both : Result (List BoundArg) → Result (List BoundArg) → Result (List BoundArg)
both first rest = first >>= λ leaves. and_then leaves rest

-- `bindInput` of a target with a binding, from its position on. `nested` is `bindNested` of the
-- target's type.
unfoldable pub bind_at :
    CmdBuilder
    → (BindTarget → SortKey → Result (List BoundArg))
    → BindTarget
    → Binding
    → ℤ
    → Result (List BoundArg)
unfolding bind_value_from child
bind_at b nested t binding p =
    let k = child t.key (num_key p ∷ t.tie ∷ []) in
    if str_eq binding.value_from ""
    then and_then (leaf k binding t.value false ∷ []) (nested t k)
    else bind_value_from b k binding t.value

unfoldable pub bind_by :
    CmdBuilder
    → (BindTarget → SortKey → Result (List BoundArg))
    → BindTarget
    → Option Binding
    → Result (List BoundArg)
unfolding position bind_at
bind_by b nested t none = nested t t.key
bind_by b nested t (some binding) =
    position b binding.position t.value >>= λ p. bind_at b nested t binding p

-- `bindInput`
unfoldable pub bind_input :
    CmdBuilder
    → (BindTarget → SortKey → Result (List BoundArg))
    → BindTarget
    → Result (List BoundArg)
unfolding bind_by
bind_input b nested t = if is_null t.value then ok [] else bind_by b nested t t.binding
