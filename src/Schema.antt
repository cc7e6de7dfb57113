-- ===== src/Schema.antt =====
-- pkg/cwlcore/types_schema.go: the type language, with the bindings that the schemas carry.
pub mod Conform
pub mod Fits
pub mod Inputs
pub mod Primitives
pub mod Supplied
mod Tests
use cwl_go.Prelude.{
  String, Bool, true, false, ◌||◌, Option, none, some, List, [], ◌∷◌, ◌≡◌, refl, str_eq,
  if◌then◌else◌, contains,
}
use cwl_go.Prelude.Int.{ℤ}

-- `ExprLong`: a number, which is zero where it is not set, or an expression.
pub data Position : Type 0 where
  at : ℤ → Position
  computed : String → Position

-- `CommandLineBinding`. An `OptBool` is `none` where it is not set.
pub record Binding : Type 0 where
  pub prefix : String
  pub item_separator : String
  pub value_from : String
  pub position : Position
  pub separate : Option Bool
  pub shell_quote : Option Bool

-- A `TypeRef`. A schema that is nil is left out: `no_schema` is a record, enum or array without one.
mutual
  pub data TypeRef : Type 0 where
    unset stdio no_array no_record no_enum : TypeRef
    primitive : String → TypeRef
    named : String → TypeRef
    array_of : Option Binding → TypeRef → TypeRef
    record_of : Option Binding → RecordFields → TypeRef
    enum_of : Option Binding → List String → TypeRef
    union : Options → TypeRef

  pub data RecordFields : Type 0 where
    end : RecordFields
    field : String → Option Binding → TypeRef → RecordFields → RecordFields

  pub data Options : Type 0 where
    nil : Options
    option : TypeRef → Options → Options

-- `IsNull`
abbrev pub is_null_type : TypeRef → Bool
is_null_type (primitive name) = str_eq name "null"
is_null_type _ = false

abbrev pub any_null : Options → Bool
any_null nil = false
any_null (option t ts) = is_null_type t || any_null ts

-- `IsOptional`
abbrev pub is_optional : TypeRef → Bool
is_optional (union ts) = any_null ts
is_optional _ = false
