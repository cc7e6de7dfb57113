-- ===== src/Command/Render.antt =====
-- pkg/cwlexec/clt_render.go: the arguments of a leaf binding.
use Prim.Native.String.{◌++◌ as ◌^◌}
use cwl_go.Prelude.{
  String, Bool, true, false, not, ◌&&◌, Option, none, some, List, [], ◌∷◌, ◌++◌, str_eq,
  if◌then◌else◌, Result, err, ok, ◌>>=◌, binding_prefix,
}
use cwl_go.Value.{Value, null, bool}
use cwl_go.Schema.{Binding}
use cwl_go.Command.Values.{Forms, value_list, is_record_value, arg_text}
use cwl_go.Command.Bindings.{BoundArg}
use cwl_go.Command.Shell.{Arg}

-- `OptBool.Or`
abbrev pub or_default : Option Bool → Bool → Bool
or_default (some b) d = b
or_default none d = d

abbrev pub shell_quotable : Binding → Bool
shell_quotable binding = or_default binding.shell_quote true

abbrev pub arg : Binding → String → Arg
arg binding s = record { value = s; quote = shell_quotable binding }

unfoldable pub prefix_only : Binding → List Arg
prefix_only binding = if str_eq binding.prefix "" then [] else arg binding binding.prefix ∷ []

unfoldable pub emit_value : Binding → String → List Arg
emit_value binding s =
    if str_eq binding.prefix ""
    then arg binding s ∷ []
    else if or_default binding.separate true
    then arg binding binding.prefix ∷ arg binding s ∷ []
    else arg binding (binding.prefix ^ s) ∷ []

-- The text of each item, up to the first error.
unfoldable pub item_texts : Forms → List Value → Result (List String)
unfolding arg_text
item_texts f [] = ok []
item_texts f (item ∷ items) = arg_text f item >>= λ s. item_texts f items >>= λ rest. ok (s ∷ rest)

-- strings.Join
unfoldable pub join : List String → String → String
join [] sep = ""
join (part ∷ []) sep = part
join (part ∷ other ∷ parts) sep = part ^ (sep ^ join (other ∷ parts) sep)

unfoldable pub join_items : Forms → List Value → String → Result String
unfolding item_texts join
join_items f items sep = item_texts f items >>= λ parts. ok (join parts sep)

abbrev pub args_of : Binding → List String → List Arg
args_of binding [] = []
args_of binding (s ∷ rest) = arg binding s ∷ args_of binding rest

unfoldable pub render_computed_list : Forms → Binding → List Value → Result (List Arg)
unfolding prefix_only item_texts
render_computed_list f binding items =
    item_texts f items >>= λ parts. ok (prefix_only binding ++ args_of binding parts)

unfoldable pub render_list : Forms → BoundArg → List Value → Result (List Arg)
unfolding join_items emit_value render_computed_list prefix_only
render_list f b [] = ok []
render_list f b items =
    if not (str_eq b.binding.item_separator "")
    then (join_items f items b.binding.item_separator >>= λ joined.
        ok (emit_value b.binding joined))
    else if b.is_computed
    then render_computed_list f b.binding items
    else ok (prefix_only b.binding)

-- `renderScalar` of a value that is neither null nor Boolean
abbrev pub render_other : Forms → Binding → Value → Result (List Arg)
render_other f binding v =
    if is_record_value f v
    then ok (prefix_only binding)
    else arg_text f v >>= λ s. ok (emit_value binding s)

unfoldable pub render_scalar : Forms → Binding → Value → Result (List Arg)
unfolding prefix_only emit_value is_record_value arg_text
render_scalar f binding null = ok []
render_scalar f binding (bool true) = ok (prefix_only binding)
render_scalar f binding (bool false) = ok []
render_scalar f binding v = render_other f binding v

-- `binding.Prefix == "" && binding.Separate.IsSet() && !binding.Separate.Bool()`
abbrev pub is_meaningless : Binding → Bool
is_meaningless binding = str_eq binding.prefix "" && not (or_default binding.separate true)

unfoldable pub render_arg : Forms → BoundArg → Result (List Arg)
unfolding render_list render_scalar
render_arg f b =
    if is_meaningless b.binding then err binding_prefix else elim (value_list b.value) [
      | some items ↦ render_list f b items
      | none ↦ render_scalar f b.binding b.value
    ]
