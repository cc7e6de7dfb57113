-- ===== src/Schema/Tests.antt =====
-- Values of a record type with an array, an enum and an optional field.
use cwl_go.Prelude.{
  ℕ, Bool, true, none, some, [], ◌∷◌, ◌≡◌, refl, err, output_type, input_required, input_unknown,
  List, Map,
}
use cwl_go.Prelude.Int.{pos}
use cwl_go.Value.{Value, null, int, text, arr, obj, opaque, nil, cons, end, field}
use cwl_go.Schema
use cwl_go.Schema.{TypeRef, primitive, array_of, record_of, enum_of, union, option}
use cwl_go.Schema.Conform.{check_value_type, nothing}
use cwl_go.Schema.Fits.{Fits, check_value_type-Decides}
use cwl_go.Schema.Primitives.{Decides}
use cwl_go.Schema.Inputs.{PortDecl, valid, invalid, validate_inputs}
use cwl_go.Schema.Supplied.{AreValid, validate_inputs-AreValid}

abbrev optional_int : TypeRef
optional_int = union (option (primitive "null") (option (primitive "int") Schema.nil))

abbrev sample : TypeRef
sample = record_of none (
    Schema.field "main.cwl#kind" none (enum_of none ("main.cwl#kind/fast" ∷ "slow" ∷ [])) (
      Schema.field "sizes" none (array_of none (primitive "long"))
        (Schema.field "limit" none optional_int Schema.end)))

abbrev good : Value
good = obj (
    field "kind" (text "fast") (field "sizes" (arr (cons (int (pos 1)) (cons (opaque 0) nil))) end))

abbrev bad : Value
bad = obj (field "kind" (text "quick") (field "sizes" (arr nil) end))

abbrev numbers : ℕ → Bool
numbers n = true

good_accepted : check_value_type numbers good sample ≡ nothing
unfolding check_value_type
good_accepted = refl

bad_rejected : check_value_type numbers bad sample ≡ err output_type
unfolding check_value_type
bad_rejected = refl

check_value_type-Decides_example :
    Decides (check_value_type numbers good sample) (Fits numbers good sample)
check_value_type-Decides_example = check_value_type-Decides numbers good sample

abbrev decls : List PortDecl
decls =
    record { name = "sample"; fallback = none; type = sample }
    ∷ record { name = "threads"; fallback = some (int (pos 4)); type = primitive "int" }
    ∷ record { name = "limit"; fallback = none; type = optional_int }
    ∷ []

abbrev merged : Map Value
merged = ("sample", good) ∷ ("threads", int (pos 4)) ∷ ("limit", null) ∷ []

validated_sample : validate_inputs numbers true decls (("sample", good) ∷ []) ≡ valid merged
unfolding validate_inputs
validated_sample = refl

problems_kept :
    validate_inputs numbers true decls (("extra", null) ∷ ("threads", text "four") ∷ [])
    ≡ invalid (input_unknown ∷ input_required ∷ output_type ∷ [])
unfolding validate_inputs
problems_kept = refl

validate_inputs-AreValid_example : AreValid numbers true decls (("sample", good) ∷ []) merged
validate_inputs-AreValid_example =
    validate_inputs-AreValid numbers true decls (("sample", good) ∷ []) merged validated_sample
