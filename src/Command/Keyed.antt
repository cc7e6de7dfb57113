-- ===== src/Command/Keyed.antt =====
-- pkg/cwlexec/clt_binding.go: the leaves of a value have keys that extend the key of its binding.
use cwl_go.Prelude.{
  ℕ, zero, suc, Bool, true, false, ◌≡◌, refl, ap, ◌∙◌, Option, none, some, List, [], ◌∷◌, ◌++◌,
  if-elim, All, Result, ok, err, OnOk, OnOk-bind, OnOk-elim, str_eq, Map,
}
use cwl_go.Prelude.Int.{ℤ}
use cwl_go.Value.{Value, is_null}
use cwl_go.Sorting.Keys.{SortKey, num_key, child}
use cwl_go.Schema.{
  Binding, TypeRef, RecordFields, Options, unset, stdio, no_array, no_record, no_enum, primitive,
  named, array_of, record_of, enum_of, union, end, field, nil, option,
}
use cwl_go.Command.Values.{value_list, value_object}
use cwl_go.Command.Choice.{binding_option}
use cwl_go.Command.Bindings.{
  BoundArg, BindTarget, CmdBuilder, leaf, position, bind_value_from, bind_at, bind_by, bind_input,
  both, and_then,
}
use cwl_go.Command.Walk.{
  item_binding, bind_items, item_target, bind_list, bind_elements, bind_object, bind_array,
  schema_level, bind_record, bind_enum, field_target, bind_nested, bind_chosen, bind_fields,
}

-- The key begins with the other key.
abbrev pub Extends : SortKey → BoundArg → Type 0
Extends k a = (rest : SortKey) × (a.key ≡ k ++ rest)

abbrev pub Leaves : SortKey → Result (List BoundArg) → Type 0
Leaves k = OnOk (All (Extends k))

append_assoc : (j k l : SortKey) → (j ++ k) ++ l ≡ j ++ (k ++ l)
append_assoc [] k l = refl
append_assoc (x ∷ j) k l = ap (λ t. x ∷ t) (append_assoc j k l)

append_nil : (k : SortKey) → k ≡ k ++ []
append_nil [] = refl
append_nil (x ∷ k) = ap (λ t. x ∷ t) (append_nil k)

child-Extends : (k more : SortKey) (a : BoundArg) → Extends (child k more) a → Extends k a
unfolding child
child-Extends k more a (rest, e) = (more ++ rest, e ∙ append_assoc k more rest)

All-child :
    (k more : SortKey) (bs : List BoundArg) → All (Extends (child k more)) bs → All (Extends k) bs
All-child k more [] h = tt
All-child k more (a ∷ bs) (h, hs) = (child-Extends k more a h, All-child k more bs hs)

Leaves-child :
    (k more : SortKey) (r : Result (List BoundArg)) → Leaves (child k more) r → Leaves k r
Leaves-child k more (ok bs) h = All-child k more bs h
Leaves-child k more (err e) h = tt

All-append :
    (k : SortKey) (as_ bs : List BoundArg)
    → All (Extends k) as_
    → All (Extends k) bs
    → All (Extends k) (as_ ++ bs)
All-append k [] bs h i = i
All-append k (a ∷ as_) bs (h, hs) i = (h, All-append k as_ bs hs i)

Leaves-and_then :
    (k : SortKey) (first : List BoundArg) (rest : Result (List BoundArg))
    → All (Extends k) first
    → Leaves k rest
    → Leaves k (and_then first rest)
Leaves-and_then k first (ok bs) h i = All-append k first bs h i
Leaves-and_then k first (err e) h i = tt

Leaves-both :
    (k : SortKey) (first rest : Result (List BoundArg))
    → Leaves k first
    → Leaves k rest
    → Leaves k (both first rest)
Leaves-both k (ok bs) rest h i = Leaves-and_then k bs rest h i
Leaves-both k (err e) rest h i = tt

own_leaf :
    (k : SortKey) (binding : Binding) (v : Value) (c : Bool)
    → All (Extends k) (leaf k binding v c ∷ [])
own_leaf k binding v c = (([], append_nil k), tt)

abbrev pub Walk : Type 0
Walk = BindTarget → SortKey → Result (List BoundArg)

-- A walk keeps the key that it is given.
abbrev pub KeepsKey : Walk → Type 0
KeepsKey nested = (t : BindTarget) (k : SortKey) → Leaves k (nested t k)

bind_value_from-Leaves :
    (b : CmdBuilder) (k : SortKey) (binding : Binding) (v : Value)
    → Leaves k (bind_value_from b k binding v)
unfolding bind_value_from
bind_value_from-Leaves b k binding v =
    OnOk-bind (All (Extends k)) (b.eval binding.value_from v) _ (λ w _. own_leaf k binding w true)

pub bind_at-Leaves :
    (b : CmdBuilder) (nested : Walk) (t : BindTarget) (binding : Binding) (p : ℤ)
    → KeepsKey nested
    → Leaves (child t.key (num_key p ∷ t.tie ∷ [])) (bind_at b nested t binding p)
unfolding bind_at
bind_at-Leaves b nested t binding p keeps =
    let k = child t.key (num_key p ∷ t.tie ∷ []) in
    if-elim (Leaves k) (str_eq binding.value_from "") _ _
      (λ _.
        Leaves-and_then k (leaf k binding t.value false ∷ []) (nested t k)
          (own_leaf k binding t.value false) (keeps t k))
      (λ _. bind_value_from-Leaves b k binding t.value)

bind_by-Leaves :
    (b : CmdBuilder) (nested : Walk) (t : BindTarget) (own : Option Binding)
    → KeepsKey nested
    → Leaves t.key (bind_by b nested t own)
unfolding bind_by
bind_by-Leaves b nested t none keeps = keeps t t.key
bind_by-Leaves b nested t (some binding) keeps =
    OnOk-bind (All (Extends t.key)) (position b binding.position t.value) _ (λ p _.
      Leaves-child t.key (num_key p ∷ t.tie ∷ []) (bind_at b nested t binding p)
        (bind_at-Leaves b nested t binding p keeps))

bind_input-Leaves :
    (b : CmdBuilder) (nested : Walk) (t : BindTarget)
    → KeepsKey nested
    → Leaves t.key (bind_input b nested t)
unfolding bind_input
bind_input-Leaves b nested t keeps =
    if-elim (Leaves t.key) (is_null t.value) (ok []) _ (λ _. tt)
      (λ _. bind_by-Leaves b nested t t.binding keeps)

bind_items-Leaves :
    (k : SortKey) (bind : ℕ → Value → Result (List BoundArg)) (index : ℕ) (items : List Value)
    → ((i : ℕ) (v : Value) → Leaves k (bind i v))
    → Leaves k (bind_items bind index items)
unfolding bind_items
bind_items-Leaves k bind index [] each = tt
bind_items-Leaves k bind index (item ∷ items) each =
    Leaves-both k (bind index item) (bind_items bind (suc index) items) (each index item)
      (bind_items-Leaves k bind (suc index) items each)

bind_list-Leaves :
    (b : CmdBuilder) (nested : Walk) (k : SortKey) (items : List Value) (binding : Option Binding)
    → KeepsKey nested
    → Leaves k (bind_list b nested k items binding)
unfolding bind_list
bind_list-Leaves b nested k items none keeps = tt
bind_list-Leaves b nested k items (some binding) keeps =
    bind_items-Leaves k _ 0 items
      (λ i v. bind_input-Leaves b nested (item_target k binding i v) keeps)

bind_elements-Leaves :
    (b : CmdBuilder) (nested : Walk) (own : Option Binding) (t : BindTarget) (k : SortKey)
    (items : Option (List Value))
    → KeepsKey nested
    → Leaves k (bind_elements b nested own t k items)
unfolding bind_elements
bind_elements-Leaves b nested own t k none keeps = tt
bind_elements-Leaves b nested own t k (some items) keeps =
    bind_list-Leaves b nested k items (item_binding own t.binding) keeps

bind_array-KeepsKey :
    (b : CmdBuilder) (nested : Walk) (own : Option Binding)
    → KeepsKey nested
    → KeepsKey (bind_array b nested own)
unfolding bind_array
bind_array-KeepsKey b nested own keeps t k =
    bind_elements-Leaves b nested own t k (value_list t.value) keeps

-- The key that `schema_level` returns extends the one it has, and so does its leaf.
LevelKey : SortKey → SortKey × List BoundArg → Type 0
LevelKey k (nested, leaves) =
    ((rs : Result (List BoundArg)) → Leaves nested rs → Leaves k rs) × All (Extends k) leaves

schema_level-LevelKey :
    (b : CmdBuilder) (k : SortKey) (t : BindTarget) (own : Option Binding)
    → OnOk (LevelKey k) (schema_level b k t own)
unfolding schema_level LevelKey
schema_level-LevelKey b k t none = (λ rs h. h, tt)
schema_level-LevelKey b k t (some binding) =
    OnOk-bind (LevelKey k) (position b binding.position t.value) _ (λ p _.
      let more = num_key p ∷ t.tie ∷ [] in
      (
        λ rs h. Leaves-child k more rs h,
        All-child k more (leaf (child k more) binding t.value false ∷ [])
            (own_leaf (child k more) binding t.value false),
      ))

-- A loop over fields keeps the key that it is given.
abbrev pub FieldsKeepKey : (Map Value → SortKey → Result (List BoundArg)) → Type 0
FieldsKeepKey walk = (m : Map Value) (k : SortKey) → Leaves k (walk m k)

bind_object-Leaves :
    (b : CmdBuilder) (walk : Map Value → SortKey → Result (List BoundArg)) (own : Option Binding)
    (t : BindTarget) (k : SortKey) (m : Option (Map Value))
    → FieldsKeepKey walk
    → Leaves k (bind_object b walk own t k m)
unfolding bind_object LevelKey
bind_object-Leaves b walk own t k none keeps = tt
bind_object-Leaves b walk own t k (some m) keeps =
    OnOk-bind (All (Extends k)) (schema_level b k t own) _ (λ (nested, leaves) e.
      let level = OnOk-elim (LevelKey k) (schema_level-LevelKey b k t own) e in
      Leaves-and_then k leaves (walk m nested) level.1 (level.0 (walk m nested) (keeps m nested)))

bind_record-KeepsKey :
    (b : CmdBuilder) (walk : Map Value → SortKey → Result (List BoundArg)) (own : Option Binding)
    → FieldsKeepKey walk
    → KeepsKey (bind_record b walk own)
unfolding bind_record
bind_record-KeepsKey b walk own keeps t k =
    bind_object-Leaves b walk own t k (value_object t.value) keeps

bind_enum-KeepsKey : (b : CmdBuilder) (own : Option Binding) → KeepsKey (bind_enum b own)
unfolding bind_enum LevelKey
bind_enum-KeepsKey b own t k =
    OnOk-bind (All (Extends k)) (schema_level b k t own) _
      (λ (nested, leaves) e. (OnOk-elim (LevelKey k) (schema_level-LevelKey b k t own) e).1)

mutual
  unfolding bind_nested

  bind_nested_keeps :
      (b : CmdBuilder) (type : TypeRef) (t : BindTarget) (k : SortKey)
      → Leaves k (bind_nested b type t k)
  bind_nested_keeps b (array_of own items) t k =
      bind_array-KeepsKey b (λ u j. bind_nested b items u j) own
        (λ u j. bind_nested_keeps b items u j) t k
  bind_nested_keeps b (record_of own fields) t k =
      bind_record-KeepsKey b (λ m j. bind_fields b fields m j) own
        (λ m j. bind_fields_keeps b fields m j) t k
  bind_nested_keeps b (enum_of own symbols) t k = bind_enum-KeepsKey b own t k
  bind_nested_keeps b (union ts) t k =
      bind_chosen_keeps b ts (binding_option b.forms ts t.value) t k
  bind_nested_keeps b unset t k = tt
  bind_nested_keeps b stdio t k = tt
  bind_nested_keeps b no_array t k = tt
  bind_nested_keeps b no_record t k = tt
  bind_nested_keeps b no_enum t k = tt
  bind_nested_keeps b (primitive name) t k = tt
  bind_nested_keeps b (named name) t k = tt

  bind_chosen_keeps :
      (b : CmdBuilder) (ts : Options) (i : Option ℕ) (t : BindTarget) (k : SortKey)
      → Leaves k (bind_chosen b ts i t k)
  bind_chosen_keeps b nil i t k = tt
  bind_chosen_keeps b (option type ts) none t k = tt
  bind_chosen_keeps b (option type ts) (some zero) t k = bind_nested_keeps b type t k
  bind_chosen_keeps b (option type ts) (some (suc i)) t k = bind_chosen_keeps b ts (some i) t k

  bind_fields_keeps :
      (b : CmdBuilder) (fields : RecordFields) (m : Map Value) (k : SortKey)
      → Leaves k (bind_fields b fields m k)
  bind_fields_keeps b end m k = tt
  bind_fields_keeps b (field name own type fields) m k =
      Leaves-both k _ (bind_fields b fields m k)
        (bind_input-Leaves b (λ u j. bind_nested b type u j) (field_target b name own m k)
          (λ u j. bind_nested_keeps b type u j))
        (bind_fields_keeps b fields m k)

-- Every leaf that is collected below a type and a value has a key that begins with the key of the
-- enclosing levels.
pub bind_nested-KeepsKey : (b : CmdBuilder) (type : TypeRef) → KeepsKey (bind_nested b type)
bind_nested-KeepsKey b type t k = bind_nested_keeps b type t k
