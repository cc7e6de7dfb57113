-- ===== src/Schema/Inputs.antt =====
-- pkg/cwlexec/validate_inputs.go: the inputs of a process against its declared parameters.
use cwl_go.Prelude.{
  ℕ, String, Bool, ◌||◌, Option, none, some, List, [], ◌∷◌, ◌++◌, if◌then◌else◌, Map, lookup,
  insert, contains, Error, Result, err, ok, input_required, input_unknown, ◌>>=◌,
}
use cwl_go.Value.{Value, null}
use cwl_go.Schema.{TypeRef, is_null_type, is_optional}
use cwl_go.Schema.Conform.{check_value_type}

-- `portDecl`, as far as the validation reads it. A default that is nil is `none`.
pub record PortDecl : Type 0 where
  pub name : String
  pub fallback : Option Value
  pub type : TypeRef

-- The merged inputs, or the errors that are joined.
pub data Validation : Type 0 where
  invalid : List Error → Validation
  valid : Map Value → Validation

abbrev pub names : List PortDecl → List String
names [] = []
names (decl ∷ decls) = decl.name ∷ names decls

unfoldable pub reject_unknown_inputs : List String → Map Value → List Error
unfolding contains
reject_unknown_inputs declared [] = []
reject_unknown_inputs declared ((key, v) ∷ inputs) =
    let rest = reject_unknown_inputs declared inputs in
    if contains declared key then rest else input_unknown ∷ rest

-- `resolveInputValue` behind the test of a supplied value
unfoldable pub fallback_value : PortDecl → Option Value → Result Value
fallback_value decl (some v) = ok v
fallback_value decl none =
    if is_optional decl.type || is_null_type decl.type then ok null else err input_required

abbrev pub given : Value → Option Value
given null = none
given v = some v

-- `value, supplied := inputs[name]`, of which only a value that is not nil counts
abbrev pub supplied : Option Value → Option Value
supplied none = none
supplied (some v) = given v

unfoldable pub resolve_value : (ℕ → Bool) → PortDecl → Option Value → Result Value
unfolding check_value_type fallback_value
resolve_value numbers decl none = fallback_value decl decl.fallback
resolve_value numbers decl (some v) = check_value_type numbers v decl.type >>= λ u. ok v

unfoldable pub resolve_input_value :
    (ℕ → Bool) → PortDecl → Map Value → Map Value → Result (Map Value)
unfolding resolve_value lookup insert
resolve_input_value numbers decl inputs merged =
    resolve_value numbers decl (supplied (lookup decl.name inputs)) >>= λ v.
    ok (insert decl.name v merged)

-- One turn of the loop: the problems and the merged inputs so far.
abbrev pub note_problem : List Error × Map Value → Result (Map Value) → List Error × Map Value
note_problem (problems, merged) (err e) = (problems ++ (e ∷ []), merged)
note_problem (problems, merged) (ok more) = (problems, more)

unfoldable pub resolve_all :
    (ℕ → Bool) → Map Value → List PortDecl → List Error × Map Value → List Error × Map Value
unfolding resolve_input_value
resolve_all numbers inputs [] so_far = so_far
resolve_all numbers inputs (decl ∷ decls) so_far =
    resolve_all numbers inputs decls
      (note_problem so_far (resolve_input_value numbers decl inputs (so_far.1)))

abbrev pub validated : List Error × Map Value → Validation
validated ([], merged) = valid merged
validated (e ∷ problems, merged) = invalid (e ∷ problems)

abbrev pub unknown_problems : Bool → List PortDecl → Map Value → List Error
unknown_problems reject decls inputs =
    if reject then reject_unknown_inputs (names decls) inputs else []

unfoldable pub validate_inputs : (ℕ → Bool) → Bool → List PortDecl → Map Value → Validation
unfolding reject_unknown_inputs resolve_all
validate_inputs numbers reject decls inputs =
    validated (resolve_all numbers inputs decls (unknown_problems reject decls inputs, []))
