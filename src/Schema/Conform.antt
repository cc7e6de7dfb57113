-- ===== src/Schema/Conform.antt =====
-- pkg/cwlexec/outputtype.go: whether a value has a declared type. `numbers` tells which opaque values
-- are a float or a `salad.Decimal`. A failure is one error, whatever its text.
use cwl_go.Prelude.{
  ℕ, String, Bool, true, false, not, ◌||◌, Option, none, some, List, [], ◌∷◌, str_eq, if◌then◌else◌,
  Map, lookup, Result, err, ok, output_type, ◌>>◌,
}
use cwl_go.Value.{Value, bool, int, text, opaque, is_null, as_array, as_object, as_text, at_key}
use cwl_go.Names.{short_name, any_symbol}
use cwl_go.Schema.{
  TypeRef, RecordFields, Options, unset, stdio, no_array, no_record, no_enum, primitive, named,
  array_of, record_of, enum_of, union, end, field, nil, option,
}

-- `asNumber`
abbrev pub is_number : (ℕ → Bool) → Value → Bool
is_number numbers (int n) = true
is_number numbers (opaque n) = numbers n
is_number numbers _ = false

abbrev pub is_bool : Value → Bool
is_bool (bool b) = true
is_bool _ = false

abbrev pub is_text : Value → Bool
is_text (text s) = true
is_text _ = false

abbrev pub is_class : Option Value → String → Bool
is_class none name = true
is_class (some (text class)) name = str_eq class name
is_class (some _) name = false

unfoldable pub is_filesystem_object : Value → String → Bool
unfolding lookup
is_filesystem_object v name = elim (as_object v) [
  | none ↦ false
  | some m ↦ is_class (lookup "class" m) name
]

unfoldable pub primitive_matches : (ℕ → Bool) → Value → String → Bool
unfolding is_filesystem_object
primitive_matches numbers v name =
    if str_eq name "null"
    then is_null v
    else if str_eq name "Any"
    then not (is_null v)
    else if str_eq name "boolean"
    then is_bool v
    else if str_eq name "string"
    then is_text v
    else if (str_eq name "int" || str_eq name "long")
        || (str_eq name "float" || str_eq name "double")
    then is_number numbers v
    else if str_eq name "File" || str_eq name "Directory"
    then is_filesystem_object v name
    else false

abbrev pub nothing : Result (Unit {0})
nothing = ok tt

unfoldable pub check_primitive : (ℕ → Bool) → Value → String → Result (Unit {0})
unfolding primitive_matches
check_primitive numbers v name =
    if primitive_matches numbers v name then nothing else err output_type

-- The loop of `checkArray`, where `check` is `checkValueType` of the item type.
unfoldable pub check_items : (Value → Result (Unit {0})) → List Value → Result (Unit {0})
check_items check [] = nothing
check_items check (item ∷ items) = check item >> check_items check items

unfoldable pub check_array :
    (List Value → Result (Unit {0})) → Option (List Value) → Result (Unit {0})
check_array items none = err output_type
check_array items (some vs) = items vs

unfoldable pub check_record :
    (Map Value → Result (Unit {0})) → Option (Map Value) → Result (Unit {0})
check_record fields none = err output_type
check_record fields (some m) = fields m

unfoldable pub check_enum : (String → Bool) → Option String → Result (Unit {0})
check_enum symbols none = err output_type
check_enum symbols (some symbol) = if symbols symbol then nothing else err output_type

-- One turn of the loop of `checkUnion`.
abbrev pub or_next : Result (Unit {0}) → Result (Unit {0}) → Result (Unit {0})
or_next (ok _) next = nothing
or_next (err e) next = next

unfoldable mutual
  unfolding check_primitive check_items check_array check_record check_enum short_name any_symbol

  pub check_value_type : (ℕ → Bool) → Value → TypeRef → Result (Unit {0})
  check_value_type numbers v (primitive name) = check_primitive numbers v name
  check_value_type numbers v stdio = check_primitive numbers v "File"
  check_value_type numbers v (array_of own items) =
      check_array (check_items (λ w. check_value_type numbers w items)) (as_array v)
  check_value_type numbers v no_array = check_array (λ vs. nothing) (as_array v)
  check_value_type numbers v (record_of own fields) =
      check_record (λ m. check_fields numbers m fields) (as_object v)
  check_value_type numbers v no_record = check_record (λ m. nothing) (as_object v)
  check_value_type numbers v (enum_of own symbols) = check_enum (any_symbol symbols) (as_text v)
  check_value_type numbers v no_enum = check_enum (λ s. true) (as_text v)
  check_value_type numbers v (union ts) = check_union numbers v ts
  check_value_type numbers v unset = nothing
  check_value_type numbers v (named name) = nothing

  pub check_fields : (ℕ → Bool) → Map Value → RecordFields → Result (Unit {0})
  check_fields numbers m end = nothing
  check_fields numbers m (field name own type fields) =
      check_value_type numbers (at_key m (short_name name)) type >> check_fields numbers m fields

  pub check_union : (ℕ → Bool) → Value → Options → Result (Unit {0})
  check_union numbers v nil = err output_type
  check_union numbers v (option type types) =
      or_next (check_value_type numbers v type) (check_union numbers v types)
