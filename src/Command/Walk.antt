-- ===== src/Command/Walk.antt =====
-- pkg/cwlexec/clt_binding.go: the walk of `bindNested` over arrays, records, enums and unions.
use cwl_go.Prelude.{
  ℕ, zero, suc, String, false, Option, none, some, List, [], ◌∷◌, str_eq, if◌then◌else◌, Map,
  Result, ok, ◌>>=◌,
}
use cwl_go.Prelude.Int.{pos}
use cwl_go.Value.{Value, at_key}
use cwl_go.Sorting.Keys.{SortKey, num_key, text_key, child}
use cwl_go.Schema.{
  Binding, TypeRef, RecordFields, Options, array_of, record_of, enum_of, union, end, field, nil,
  option,
}
use cwl_go.Command.Values.{value_list, value_object}
use cwl_go.Names.{short_name}
use cwl_go.Command.Choice.{binding_option}
use cwl_go.Command.Bindings.{
  BoundArg, BindTarget, CmdBuilder, empty_binding, position, leaf, and_then, both, bind_input,
}

-- `itemBindingFor`
unfoldable pub item_binding : Option Binding → Option Binding → Option Binding
item_binding (some own) parent = some own
item_binding none none = none
item_binding none (some parent) =
    if str_eq parent.item_separator "" then some empty_binding else none

-- The loop of `bindArray`.
unfoldable pub bind_items :
    (ℕ → Value → Result (List BoundArg)) → ℕ → List Value → Result (List BoundArg)
bind_items bind index [] = ok []
bind_items bind index (item ∷ items) = both (bind index item) (bind_items bind (suc index) items)

abbrev pub item_target : SortKey → Binding → ℕ → Value → BindTarget
item_target k binding index item = record {
  binding = some binding;
  value = item;
  key = k;
  tie = num_key (pos index);
}

unfoldable pub bind_list :
    CmdBuilder
    → (BindTarget → SortKey → Result (List BoundArg))
    → SortKey
    → List Value
    → Option Binding
    → Result (List BoundArg)
unfolding bind_items bind_input
bind_list b nested k items none = ok []
bind_list b nested k items (some binding) =
    bind_items (λ index item. bind_input b nested (item_target k binding index item)) 0 items

-- `bindArray`, of the value as a list
unfoldable pub bind_elements :
    CmdBuilder
    → (BindTarget → SortKey → Result (List BoundArg))
    → Option Binding
    → BindTarget
    → SortKey
    → Option (List Value)
    → Result (List BoundArg)
unfolding item_binding bind_list
bind_elements b nested own t k none = ok []
bind_elements b nested own t k (some items) =
    bind_list b nested k items (item_binding own t.binding)

unfoldable pub bind_array :
    CmdBuilder
    → (BindTarget → SortKey → Result (List BoundArg))
    → Option Binding
    → BindTarget
    → SortKey
    → Result (List BoundArg)
unfolding bind_elements
bind_array b nested own t k = bind_elements b nested own t k (value_list t.value)

-- What `schemaLevel` appends, and the key that it returns.
unfoldable pub schema_level :
    CmdBuilder → SortKey → BindTarget → Option Binding → Result (SortKey × List BoundArg)
unfolding position child
schema_level b k t none = ok (k, [])
schema_level b k t (some binding) = position b binding.position t.value >>= λ p.
    let nested = child k (num_key p ∷ t.tie ∷ []) in
    ok (nested, leaf nested binding t.value false ∷ [])

-- `bindRecord`, of the value as an object. `walk` is its loop over the fields.
unfoldable pub bind_object :
    CmdBuilder
    → (Map Value → SortKey → Result (List BoundArg))
    → Option Binding
    → BindTarget
    → SortKey
    → Option (Map Value)
    → Result (List BoundArg)
unfolding schema_level
bind_object b walk own t k none = ok []
bind_object b walk own t k (some m) =
    schema_level b k t own >>= λ (nested, leaves). and_then leaves (walk m nested)

unfoldable pub bind_record :
    CmdBuilder
    → (Map Value → SortKey → Result (List BoundArg))
    → Option Binding
    → BindTarget
    → SortKey
    → Result (List BoundArg)
unfolding bind_object
bind_record b walk own t k = bind_object b walk own t k (value_object t.value)

unfoldable pub bind_enum :
    CmdBuilder → Option Binding → BindTarget → SortKey → Result (List BoundArg)
unfolding schema_level
bind_enum b own t k = schema_level b k t own >>= λ (nested, leaves). ok leaves

abbrev pub field_target : CmdBuilder → String → Option Binding → Map Value → SortKey → BindTarget
field_target b name binding m k = record {
  binding = binding;
  value = at_key m (short_name name);
  key = k;
  tie = text_key (b.forms.bytes (short_name name));
}

-- `bindNested`, and the loop of `bindRecord` over the fields. A member of a union that is itself a
-- union describes no value, so it is never chosen.
unfoldable mutual
  unfolding bind_input bind_array bind_record bind_enum binding_option short_name

  pub bind_nested : CmdBuilder → TypeRef → BindTarget → SortKey → Result (List BoundArg)
  bind_nested b (array_of own items) t k = bind_array b (λ u j. bind_nested b items u j) own t k
  bind_nested b (record_of own fields) t k = bind_record b (λ m j. bind_fields b fields m j) own t k
  bind_nested b (enum_of own symbols) t k = bind_enum b own t k
  bind_nested b (union ts) t k = bind_chosen b ts (binding_option b.forms ts t.value) t k
  bind_nested b _ t k = ok []

  pub bind_chosen : CmdBuilder → Options → Option ℕ → BindTarget → SortKey → Result (List BoundArg)
  bind_chosen b nil i t k = ok []
  bind_chosen b (option type types) none t k = ok []
  bind_chosen b (option type types) (some zero) t k = bind_nested b type t k
  bind_chosen b (option type types) (some (suc i)) t k = bind_chosen b types (some i) t k

  pub bind_fields : CmdBuilder → RecordFields → Map Value → SortKey → Result (List BoundArg)
  bind_fields b end m k = ok []
  bind_fields b (field name binding type fields) m k =
      both (bind_input b (λ u j. bind_nested b type u j) (field_target b name binding m k))
        (bind_fields b fields m k)
