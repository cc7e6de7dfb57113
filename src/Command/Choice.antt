-- ===== src/Command/Choice.antt =====
-- pkg/cwlexec/clt_binding.go: the member of a union that a value is walked as.
use cwl_go.Prelude.{
  ℕ, suc, String, Bool, true, false, not, ◌&&◌, ◌||◌, Option, none, some, List, [], ◌∷◌,
  if◌then◌else◌, Map, contains,
}
use cwl_go.Value.{Value, null, text, as_text, at_key}
use cwl_go.Schema.{
  TypeRef, RecordFields, Options, array_of, no_array, record_of, no_record, enum_of, no_enum, union,
  end, field, nil, option, is_optional,
}
use cwl_go.Command.Values.{Forms, value_list, value_object, is_record_value}
use cwl_go.Names.{short_name, any_symbol}

abbrev pub is_some : {A : Type 0} → Option A → Bool
is_some (some a) = true
is_some none = false

-- `describesValue`
unfoldable pub describes_value : Forms → TypeRef → Value → Bool
unfolding is_record_value
describes_value f (array_of own items) v = is_some (value_list v)
describes_value f no_array v = is_some (value_list v)
describes_value f (record_of own fields) v = is_record_value f v
describes_value f no_record v = is_record_value f v
describes_value f (enum_of own symbols) v = is_some (as_text v)
describes_value f no_enum v = is_some (as_text v)
describes_value f _ v = false

-- `enumAccepts` of a schema that is set
unfoldable pub enum_accepts : List String → Value → Bool
unfolding any_symbol
enum_accepts symbols (text symbol) = any_symbol symbols symbol
enum_accepts symbols _ = false

-- The loop of `enumOptionsAccept` over a union, with `constrained`.
unfoldable pub options_accept : Options → String → Bool → Bool
unfolding any_symbol
options_accept nil symbol constrained = not constrained
options_accept (option (enum_of own symbols) ts) symbol constrained =
    any_symbol symbols symbol || options_accept ts symbol true
options_accept (option no_enum ts) symbol constrained = options_accept ts symbol true
options_accept (option t ts) symbol constrained = options_accept ts symbol constrained

unfoldable pub enum_options_accept : TypeRef → String → Bool
unfolding options_accept
enum_options_accept (union ts) symbol = options_accept ts symbol false
enum_options_accept t symbol = options_accept (option t nil) symbol false

-- `fieldAccepts`, of the field's type
unfoldable pub field_accepts : TypeRef → Value → Bool
unfolding enum_options_accept
field_accepts t null = is_optional t
field_accepts t (text symbol) = enum_options_accept t symbol
field_accepts t _ = true

abbrev pub field_names : RecordFields → List String
field_names end = []
field_names (field name own t fields) = short_name name ∷ field_names fields

abbrev pub all_declared : List String → Map Value → Bool
all_declared declared [] = true
all_declared declared ((name, v) ∷ m) = contains declared name && all_declared declared m

-- Of two fields of the same short name, the map `declared` has the later.
unfoldable pub fields_accept : RecordFields → Map Value → Bool
unfolding field_accepts contains
fields_accept end m = true
fields_accept (field name own t fields) m =
    (contains (field_names fields) (short_name name)
      || field_accepts t (at_key m (short_name name)))
    && fields_accept fields m

abbrev pub object_accepts : RecordFields → Option (Map Value) → Bool
object_accepts fields none = false
object_accepts fields (some m) = all_declared (field_names fields) m && fields_accept fields m

-- `recordAccepts` of a schema that is set
unfoldable pub record_accepts : Forms → RecordFields → Value → Bool
unfolding is_record_value fields_accept
record_accepts f fields v = is_record_value f v && object_accepts fields (value_object v)

-- `acceptsValue`
unfoldable pub accepts_value : Forms → TypeRef → Value → Bool
unfolding record_accepts enum_accepts describes_value
accepts_value f (record_of own fields) v = record_accepts f fields v
accepts_value f no_record v = false
accepts_value f (enum_of own symbols) v = enum_accepts symbols v
accepts_value f no_enum v = false
accepts_value f t v = describes_value f t v

-- A loop over the members of a union: the place of the first that passes the test.
unfoldable pub first_option : (TypeRef → Bool) → Options → Option ℕ
first_option test nil = none
first_option test (option t ts) = elim (first_option test ts) [
  | some i ↦ if test t then some 0 else some (suc i)
  | none ↦ if test t then some 0 else none
]

abbrev pub or_else : {A : Type 0} → Option A → Option A → Option A
or_else (some a) b = some a
or_else none b = b

-- `bindingType` of a union: the place of the member, if there is one.
unfoldable pub binding_option : Forms → Options → Value → Option ℕ
unfolding first_option accepts_value
binding_option f ts v =
    or_else (first_option (λ t. accepts_value f t v) ts)
      (first_option (λ t. describes_value f t v) ts)
