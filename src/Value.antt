-- ===== src/Value.antt =====
-- Go's `any` as the engine sees it: the value that flows along a workflow's edges.
-- A value whose inner parts the modelled code never reads (a number that is no integer, a
-- `salad.Decimal`, a `*cwlcore.File`, a `*cwlcore.Directory`) is `opaque`, told apart by a number.
use cwl_go.Prelude.{
  ℕ, String, ◌≡◌, refl, ap, Bool, true, false, Option, none, some, List, [], ◌∷◌, Map, lookup,
}
use cwl_go.Prelude.Int.{ℤ}

mutual
  pub data Value : Type 0 where
    null : Value
    bool : Bool → Value
    int : ℤ → Value
    text : String → Value
    arr : Items → Value
    obj : Fields → Value
    opaque : ℕ → Value

  pub data Items : Type 0 where
    nil : Items
    cons : Value → Items → Items

  pub data Fields : Type 0 where
    end : Fields
    field : String → Value → Fields → Fields

abbrev pub to_items : List Value → Items
to_items [] = nil
to_items (v ∷ vs) = cons v (to_items vs)

abbrev pub to_list : Items → List Value
to_list nil = []
to_list (cons v vs) = v ∷ to_list vs

pub to_list-to_items : (vs : List Value) → to_list (to_items vs) ≡ vs
to_list-to_items [] = refl
to_list-to_items (v ∷ vs) = ap (λ (t : List Value). v ∷ t) (to_list-to_items vs)

-- []any as a value
abbrev pub array : List Value → Value
array vs = arr (to_items vs)

-- The type assertion `value.([]any)`.
abbrev pub as_array : Value → Option (List Value)
as_array (arr vs) = some (to_list vs)
as_array _ = none

-- `value == nil`
abbrev pub is_null : Value → Bool
is_null null = true
is_null _ = false

-- m[key] of a map[string]any: nil for a missing key.
abbrev pub at_key : Map Value → String → Value
at_key m key = elim (lookup key m) [ some v ↦ v | none ↦ null ]

abbrev pub to_map : Fields → Map Value
to_map end = []
to_map (field key v fs) = (key, v) ∷ to_map fs

-- The type assertion `value.(map[string]any)`.
abbrev pub as_object : Value → Option (Map Value)
as_object (obj fs) = some (to_map fs)
as_object _ = none

-- The type assertion `value.(string)`.
abbrev pub as_text : Value → Option String
as_text (text s) = some s
as_text _ = none
