-- ===== src/Schema/Fits.antt =====
-- pkg/cwlexec/outputtype.go: the check of types accepts the values of a type, and no other.
use mathlib.Core.Path.{subst}
use cwl_go.Prelude.{
  ℕ, String, ◌≡◌, refl, ap, ◌∙◌, ◌⊎◌, inl, inr, Bool, true, Option, none, some, List, [], ◌∷◌,
  arith, Map, Among, Result, ◌>>◌, Bool-cases, str_eq, eq_iff,
}
use cwl_go.Value.{Value, as_array, as_object, as_text, at_key}
use cwl_go.Names.{short_name, any_symbol}
use cwl_go.Schema.{
  TypeRef, RecordFields, Options, unset, stdio, no_array, no_record, no_enum, primitive, named,
  array_of, record_of, enum_of, union, end, field, nil, option,
}
use cwl_go.Schema.Conform.{
  check_items, check_array, check_record, check_enum, check_value_type, check_fields, check_union,
  or_next, nothing,
}
use cwl_go.Schema.Primitives.{
  IsPrimitive, Decides, accepts, rejects, decides_test, decides_as, decides-IsPrimitive,
}

-- There is something in the option, and it has the property.
abbrev pub Holds : {A : Type 0} → (A → Type 0) → Option A → Type 0
Holds P (some a) = P a
Holds P none = ⊥

-- The text is a symbol, by its identifier or its short name.
abbrev pub IsSymbol : List String → String → Type 0
IsSymbol symbols s =
    (declared : String) × Among declared symbols × ((declared ≡ s) ⊎ (short_name declared ≡ s))

-- The value belongs to the type: to an array type where all of its items belong to the item type,
-- to a record type where each field does, null where it is missing, to an enum type where it is one
-- of the symbols, and to a union where it belongs to a member.
unfoldable mutual
  pub Fits : (ℕ → Bool) → Value → TypeRef → Type 0
  Fits numbers v (primitive name) = IsPrimitive numbers name v
  Fits numbers v stdio = IsPrimitive numbers "File" v
  Fits numbers v (array_of own items) =
      Holds (λ vs. (w : Value) → Among w vs → Fits numbers w items) (as_array v)
  Fits numbers v no_array = Holds (λ vs. Unit) (as_array v)
  Fits numbers v (record_of own fields) = Holds (λ m. FitsFields numbers m fields) (as_object v)
  Fits numbers v no_record = Holds (λ m. Unit) (as_object v)
  Fits numbers v (enum_of own symbols) = Holds (IsSymbol symbols) (as_text v)
  Fits numbers v no_enum = Holds (λ s. Unit) (as_text v)
  Fits numbers v (union ts) = FitsUnion numbers v ts
  Fits numbers v unset = Unit
  Fits numbers v (named name) = Unit

  pub FitsFields : (ℕ → Bool) → Map Value → RecordFields → Type 0
  FitsFields numbers m end = Unit
  FitsFields numbers m (field name own type fields) =
      Fits numbers (at_key m (short_name name)) type × FitsFields numbers m fields

  pub FitsUnion : (ℕ → Bool) → Value → Options → Type 0
  FitsUnion numbers v nil = ⊥
  FitsUnion numbers v (option type types) = Fits numbers v type ⊎ FitsUnion numbers v types

decides_both :
    {r s : Result (Unit {0})} {P Q : Type 0} → Decides r P → Decides s Q → Decides (r >> s) (P × Q)
decides_both (accepts e p) (accepts f q) = accepts (rw (e, f) refl) (p, q)
decides_both (accepts e p) (rejects f fails) = rejects (rw (e, f) refl) (λ (_, q). fails q)
decides_both (rejects e fails) d = rejects (rw e refl) (λ (p, _). fails p)

decides_either :
    {r s : Result (Unit {0})} {P Q : Type 0}
    → Decides r P
    → Decides s Q
    → Decides (or_next r s) (P ⊎ Q)
decides_either (accepts e p) d = accepts (rw e refl) (inl p)
decides_either (rejects e fails) (accepts f q) = accepts (rw (e, f) refl) (inr q)
decides_either (rejects e fails) (rejects f also) =
    rejects (rw (e, f) refl) (λ which. elim which [ inl p ↦ fails p | inr q ↦ also q ])

decides_items :
    (check : Value → Result (Unit {0})) (P : Value → Type 0) (items : List Value)
    → ((w : Value) → Decides (check w) (P w))
    → Decides (check_items check items) ((w : Value) → Among w items → P w)
unfolding check_items
decides_items check P [] each = accepts refl (λ w fails. absurd fails)
decides_items check P (item ∷ items) each =
    decides_as (decides_both (each item) (decides_items check P items each))
      (λ (own, rest) w among. elim among [ inl same ↦ subst P same own | inr later ↦ rest w later ])
      (λ all. (all item (inl refl), λ w later. all w (inr later)))

decides_array :
    (check : List Value → Result (Unit {0})) (P : List Value → Type 0) (vs : Option (List Value))
    → ((ws : List Value) → Decides (check ws) (P ws))
    → Decides (check_array check vs) (Holds P vs)
unfolding check_array
decides_array check P none each = rejects refl (λ fails. fails)
decides_array check P (some vs) each = each vs

decides_record :
    (check : Map Value → Result (Unit {0})) (P : Map Value → Type 0) (m : Option (Map Value))
    → ((o : Map Value) → Decides (check o) (P o))
    → Decides (check_record check m) (Holds P m)
unfolding check_record
decides_record check P none each = rejects refl (λ fails. fails)
decides_record check P (some m) each = each m

IsSymbol-found :
    (symbols : List String) (s : String) → any_symbol symbols s ≡ true → IsSymbol symbols s
unfolding any_symbol
IsSymbol-found [] s h = cc
IsSymbol-found (declared ∷ symbols) s h = elim (Bool-cases (str_eq declared s)) [
  | inl same ↦ (declared, inl refl, inl ((eq_iff declared s).0 same))
  | inr other ↦ elim (Bool-cases (str_eq (short_name declared) s)) [
    | inl short ↦ (declared, inl refl, inr ((eq_iff (short_name declared) s).0 short))
    | inr neither ↦
        let (found, among, called) = IsSymbol-found symbols s (ground arith) in
        (found, inr among, called)
  ]
]

IsSymbol-matches :
    (symbols : List String) (s declared : String)
    → Among declared symbols
    → (declared ≡ s) ⊎ (short_name declared ≡ s)
    → any_symbol symbols s ≡ true
unfolding any_symbol
IsSymbol-matches [] s declared among called = absurd among
IsSymbol-matches (d ∷ symbols) s declared (inl one) (inl same) =
    rw ((eq_iff d s).1 (one ∙ same)) refl
IsSymbol-matches (d ∷ symbols) s declared (inl one) (inr same) =
    let short = (eq_iff (short_name d) s).1 (ap short_name one ∙ same) in ground arith
IsSymbol-matches (d ∷ symbols) s declared (inr later) called =
    let rest = IsSymbol-matches symbols s declared later called in ground arith

decides_enum :
    (symbols : List String) (s : Option String)
    → Decides (check_enum (any_symbol symbols) s) (Holds (IsSymbol symbols) s)
unfolding check_enum
decides_enum symbols none = rejects refl (λ never. never)
decides_enum symbols (some s) =
    decides_as (decides_test (any_symbol symbols s)) (IsSymbol-found symbols s)
      (λ (declared, among, called). IsSymbol-matches symbols s declared among called)

decides_no_enum : (s : Option String) → Decides (check_enum (λ t. true) s) (Holds (λ t. Unit) s)
unfolding check_enum
decides_no_enum none = rejects refl (λ fails. fails)
decides_no_enum (some s) = accepts refl tt

mutual
  unfolding check_value_type Fits

  value_decides :
      (numbers : ℕ → Bool) (v : Value) (type : TypeRef)
      → Decides (check_value_type numbers v type) (Fits numbers v type)
  value_decides numbers v (primitive name) = decides-IsPrimitive numbers v name
  value_decides numbers v stdio = decides-IsPrimitive numbers v "File"
  value_decides numbers v (array_of own items) =
      decides_array (check_items (λ w. check_value_type numbers w items))
        (λ vs. (w : Value) → Among w vs → Fits numbers w items) (as_array v)
        (λ vs.
          decides_items (λ w. check_value_type numbers w items) (λ w. Fits numbers w items) vs
            (λ w. value_decides numbers w items))
  value_decides numbers v no_array =
      decides_array (λ vs. nothing) (λ vs. Unit) (as_array v) (λ vs. accepts refl tt)
  value_decides numbers v (record_of own fields) =
      decides_record (λ m. check_fields numbers m fields) (λ m. FitsFields numbers m fields)
        (as_object v) (λ m. fields_decide numbers m fields)
  value_decides numbers v no_record =
      decides_record (λ m. nothing) (λ m. Unit) (as_object v) (λ m. accepts refl tt)
  value_decides numbers v (enum_of own symbols) = decides_enum symbols (as_text v)
  value_decides numbers v no_enum = decides_no_enum (as_text v)
  value_decides numbers v (union ts) = union_decides numbers v ts
  value_decides numbers v unset = accepts refl tt
  value_decides numbers v (named name) = accepts refl tt

  fields_decide :
      (numbers : ℕ → Bool) (m : Map Value) (fields : RecordFields)
      → Decides (check_fields numbers m fields) (FitsFields numbers m fields)
  fields_decide numbers m end = accepts refl tt
  fields_decide numbers m (field name own type fields) =
      decides_both (value_decides numbers (at_key m (short_name name)) type)
        (fields_decide numbers m fields)

  union_decides :
      (numbers : ℕ → Bool) (v : Value) (ts : Options)
      → Decides (check_union numbers v ts) (FitsUnion numbers v ts)
  union_decides numbers v nil = rejects refl (λ fails. fails)
  union_decides numbers v (option type types) =
      decides_either (value_decides numbers v type) (union_decides numbers v types)

-- checkValueType succeeds on a value that belongs to the type, and fails with ErrOutputType on a
-- value that does not.
pub check_value_type-Decides :
    (numbers : ℕ → Bool) (v : Value) (type : TypeRef)
    → Decides (check_value_type numbers v type) (Fits numbers v type)
check_value_type-Decides numbers v type = value_decides numbers v type
