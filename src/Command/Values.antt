-- ===== src/Command/Values.antt =====
-- pkg/cwlexec/clt_render.go: values as a command line sees them. A typed slice is an array here, and a `*cwlcore.File`, a `*cwlcore.Directory`, a float
-- and a `salad.Decimal` are opaque: `Forms` has what the code reads out of them.
use cwl_go.Prelude.{
  ℕ, String, Bool, true, false, ◌||◌, Option, none, some, List, str_eq, if◌then◌else◌, Map, Result,
  err, ok, binding_value,
}
use cwl_go.Prelude.Int.{ℤ}
use cwl_go.Value.{Value, bool, int, text, obj, opaque, as_array, as_object, as_text, at_key, to_map}

-- `fileLike`, without the class, which only messages show.
pub record FileLike : Type 0 where
  pub path : String

-- What an opaque value holds, the decimal form of an integer, and the bytes of a text.
pub record Forms : Type 0 where
  pub opaque_file : ℕ → Option FileLike
  pub opaque_number : ℕ → Option String
  pub opaque_integer : ℕ → Option ℤ
  pub decimal : ℤ → String
  pub bytes : String → List ℕ

abbrev pub value_list : Value → Option (List Value)
value_list = as_array

abbrev pub value_object : Value → Option (Map Value)
value_object = as_object

abbrev pub text_or_empty : Option String → String
text_or_empty (some s) = s
text_or_empty none = ""

abbrev pub object_path : Map Value → String
object_path m = text_or_empty (as_text (at_key m "path"))

abbrev pub of_class : Option String → Map Value → Option FileLike
of_class none m = none
of_class (some class) m =
    if str_eq class "File" || str_eq class "Directory"
    then some record { path = object_path m }
    else none

unfoldable pub as_file_like : Forms → Value → Option FileLike
as_file_like f (opaque n) = f.opaque_file n
as_file_like f (obj fs) = let m = to_map fs in of_class (as_text (at_key m "class")) m
as_file_like f _ = none

abbrev pub is_object : Value → Bool
is_object (obj fs) = true
is_object _ = false

unfoldable pub is_record_value : Forms → Value → Bool
unfolding as_file_like
is_record_value f v = elim (as_file_like f v) [ some file ↦ false | none ↦ is_object v ]

unfoldable pub number_text : Forms → Value → Option String
number_text f (int n) = some (f.decimal n)
number_text f (opaque n) = f.opaque_number n
number_text f _ = none

unfoldable pub integer_value : Forms → Value → Option ℤ
integer_value f (int n) = some n
integer_value f (opaque n) = f.opaque_integer n
integer_value f _ = none

abbrev pub or_no_form : Option String → Result String
or_no_form (some s) = ok s
or_no_form none = err binding_value

abbrev pub scalar_text : Forms → Value → Result String
scalar_text f (text s) = ok s
scalar_text f (bool b) = ok (if b then "true" else "false")
scalar_text f v = or_no_form (number_text f v)

abbrev pub file_text : FileLike → Result String
file_text file = if str_eq file.path "" then err binding_value else ok file.path

unfoldable pub arg_text : Forms → Value → Result String
unfolding as_file_like number_text
arg_text f v = elim (as_file_like f v) [ some file ↦ file_text file | none ↦ scalar_text f v ]
