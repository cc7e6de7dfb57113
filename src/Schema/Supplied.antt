-- ===== src/Schema/Supplied.antt =====
-- pkg/cwlexec/validate_inputs.go: valid inputs give each declared parameter a value of its own.
use mathlib.Core.Path.{subst}
use mathlib.Core.Option.{some-injective}
use cwl_go.Prelude.{
  ℕ, contains, input_unknown, String, ◌≡◌, refl, sym, ap, ◌∙◌, ◌⊎◌, inl, inr, ◌||◌, Bool, true,
  false, Option, none, some, List, [], ◌∷◌, ◌++◌, arith, Map, Among, str_eq, eq_iff, if◌then◌else◌,
  lookup, insert, lookup-insert, Bool-cases, Error, Result, err, ok, ok-injective, input_required,
  ◌>>=◌,
}
use cwl_go.Value.{Value, null}
use cwl_go.Schema.{is_null_type, is_optional}
use cwl_go.Schema.Conform.{check_value_type}
use cwl_go.Schema.Fits.{Fits, check_value_type-Decides}
use cwl_go.Schema.Primitives.{Decides, accepts, rejects}
use cwl_go.Schema.Inputs.{
  PortDecl, valid, names, reject_unknown_inputs, fallback_value, supplied, resolve_value,
  resolve_input_value, note_problem, resolve_all, validated, unknown_problems, validate_inputs,
}

-- The value of a parameter: the one that is given, which belongs to the parameter's type, or the
-- default where none is given, or null where there is no default and the type has null.
pub data IsSupplied (numbers : ℕ → Bool) (decl : PortDecl) (inputs : Map Value)
    : Value → Type 0 where
  by_input :
      {v : Value}
      → supplied (lookup decl.name inputs) ≡ some v
      → Fits numbers v decl.type
      → IsSupplied numbers decl inputs v
  by_default :
      {v : Value}
      → supplied (lookup decl.name inputs) ≡ none
      → decl.fallback ≡ some v
      → IsSupplied numbers decl inputs v
  by_null :
      supplied (lookup decl.name inputs) ≡ none
      → decl.fallback ≡ none
      → (is_optional decl.type || is_null_type decl.type) ≡ true
      → IsSupplied numbers decl inputs null

module _ (numbers : ℕ → Bool) (inputs : Map Value) where
  null_or_error :
      (decl : PortDecl) (b : Bool) {v : Value}
      → decl.fallback ≡ none
      → supplied (lookup decl.name inputs) ≡ none
      → (is_optional decl.type || is_null_type decl.type) ≡ b
      → (if b then ok null else err input_required) ≡ ok v
      → IsSupplied numbers decl inputs v
  null_or_error decl true same missing nullable e =
      subst (IsSupplied numbers decl inputs) (ok-injective e) (by_null missing same nullable)
  null_or_error decl false same missing nullable e = cc

  fallback-IsSupplied :
      (decl : PortDecl) (d : Option Value) {v : Value}
      → decl.fallback ≡ d
      → supplied (lookup decl.name inputs) ≡ none
      → fallback_value decl d ≡ ok v
      → IsSupplied numbers decl inputs v
  unfolding fallback_value
  fallback-IsSupplied decl (some w) same missing e =
      by_default missing (same ∙ ap some (ok-injective e))
  fallback-IsSupplied decl none same missing e = null_or_error decl _ same missing refl e

  resolve_value-IsSupplied :
      (decl : PortDecl) (s : Option Value) {v : Value}
      → supplied (lookup decl.name inputs) ≡ s
      → resolve_value numbers decl s ≡ ok v
      → IsSupplied numbers decl inputs v
  unfolding resolve_value
  resolve_value-IsSupplied decl none same e = fallback-IsSupplied decl decl.fallback refl same e
  resolve_value-IsSupplied decl (some w) {v} same e =
      by_check (check_value_type-Decides numbers w decl.type) e
    where
      by_check :
          Decides (check_value_type numbers w decl.type) (Fits numbers w decl.type)
          → (check_value_type numbers w decl.type >>= λ u. ok w) ≡ ok v
          → IsSupplied numbers decl inputs v
      by_check (accepts f fits) g =
          let value : w ≡ v = ok-injective (ap (λ r. r >>= λ u. ok w) (sym f) ∙ g) in
          subst (IsSupplied numbers decl inputs) value (by_input same fits)
      by_check (rejects f never) g =
          let failed : err _ ≡ ok v = ap (λ r. r >>= λ u. ok w) (sym f) ∙ g in cc

-- Each entry of the merged inputs is the value of a parameter of that name.
abbrev pub AreSupplied : (ℕ → Bool) → List PortDecl → Map Value → Map Value → Type 0
AreSupplied numbers decls inputs merged =
    (name : String) (v : Value)
    → lookup name merged ≡ some v
    → (decl : PortDecl) × Among decl decls × (decl.name ≡ name) × IsSupplied numbers decl inputs v

abbrev pub HasKey : Map Value → String → Type 0
HasKey m name = (v : Value) × (lookup name m ≡ some v)

HasKey-insert :
    (m : Map Value) (key : String) (v : Value) (name : String)
    → (str_eq key name ≡ true) ⊎ HasKey m name
    → HasKey (insert key v m) name
HasKey-insert m key v name which = elim (Bool-cases (str_eq key name)) [
  | inl same ↦ (v, lookup-insert key name v m ∙ rw same refl)
  | inr other ↦ elim which [
    | inl same ↦ absurd (ground arith)
    | inr (w, found) ↦ (w, lookup-insert key name v m ∙ rw other found)
  ]
]

AreSupplied-insert :
    (numbers : ℕ → Bool) (decls : List PortDecl) (inputs merged : Map Value) (decl : PortDecl)
    (v : Value)
    → Among decl decls
    → IsSupplied numbers decl inputs v
    → AreSupplied numbers decls inputs merged
    → AreSupplied numbers decls inputs (insert decl.name v merged)
AreSupplied-insert numbers decls inputs merged decl v among own before name w e =
    elim (Bool-cases (str_eq decl.name name)) [
      | inl same ↦
          let found : some v ≡ some w =
            sym (lookup-insert decl.name name v merged ∙ rw same refl) ∙ e in
          (
            decl,
            among,
            (eq_iff decl.name name).0 same,
            subst (IsSupplied numbers decl inputs) (some-injective _ _ found) own,
          )
      | inr other ↦ before name w (sym (lookup-insert decl.name name v merged ∙ rw other refl) ∙ e)
    ]

-- What the loop has done, when it ends without a problem.
record Resolved (numbers : ℕ → Bool) (decls rest : List PortDecl) (inputs : Map Value)
    (so_far final : List Error × Map Value) : Type 0 where
  clean : so_far.0 ≡ []
  supplied_all :
      AreSupplied numbers decls inputs so_far.1 → AreSupplied numbers decls inputs final.1
  present : (decl : PortDecl) → Among decl rest → HasKey final.1 decl.name
  kept : (name : String) → HasKey so_far.1 name → HasKey final.1 name

append-nonempty : (problems : List Error) (e : Error) → problems ++ (e ∷ []) ≡ [] → ⊥
append-nonempty [] e h = cc
append-nonempty (p ∷ problems) e h = cc

module _ (numbers : ℕ → Bool) (decls : List PortDecl) (inputs : Map Value) where
  one_more :
      (decl : PortDecl) (rest : List PortDecl) (so_far final : List Error × Map Value)
      (x : Result Value)
      → Among decl decls
      → resolve_value numbers decl (supplied (lookup decl.name inputs)) ≡ x
      → Resolved numbers decls rest inputs
          (note_problem so_far (x >>= λ v. ok (insert decl.name v so_far.1)))
          final
      → Resolved numbers decls (decl ∷ rest) inputs so_far final
  one_more decl rest so_far final (err e) among same h = absurd (append-nonempty so_far.0 e h.clean)
  one_more decl rest so_far final (ok v) among same h = record {
    clean = h.clean;
    supplied_all = λ before. h.supplied_all (
        AreSupplied-insert numbers decls inputs so_far.1 decl v among
          (resolve_value-IsSupplied numbers inputs decl _ refl same) before);
    present = λ d which. elim which [
      | inl own ↦ h.kept d.name (
          HasKey-insert so_far.1 decl.name v d.name
            (inl ((eq_iff decl.name d.name).1 (ap (λ c. c.name) own))))
      | inr later ↦ h.present d later
    ];
    kept = λ name before. h.kept name (HasKey-insert so_far.1 decl.name v name (inr before));
  }

  resolve_all-Resolved :
      (rest : List PortDecl) (so_far : List Error × Map Value)
      → ((d : PortDecl) → Among d rest → Among d decls)
      → (resolve_all numbers inputs rest so_far).0 ≡ []
      → Resolved numbers decls rest inputs so_far (resolve_all numbers inputs rest so_far)
  unfolding resolve_all resolve_input_value
  resolve_all-Resolved [] so_far listed e = record {
    clean = e;
    supplied_all = λ h. h;
    present = λ d n. absurd n;
    kept = λ name h. h;
  }
  resolve_all-Resolved (decl ∷ rest) so_far listed e =
      one_more decl rest so_far _ _ (listed decl (inl refl)) refl (
        resolve_all-Resolved rest
          (note_problem so_far (resolve_input_value numbers decl inputs so_far.1))
          (λ d later. listed d (inr later)) e)

declared-Among :
    (decls : List PortDecl) (key : String)
    → contains (names decls) key ≡ true
    → (decl : PortDecl) × Among decl decls × (decl.name ≡ key)
unfolding contains
declared-Among [] key h = cc
declared-Among (decl ∷ decls) key h = elim (Bool-cases (str_eq decl.name key)) [
  | inl same ↦ (decl, inl refl, (eq_iff decl.name key).0 same)
  | inr other ↦
      let (found, among, named) = declared-Among decls key (ground arith) in
      (found, inr among, named)
]

-- Where no unknown key is reported, every key is the name of a parameter.
unknown_none :
    (decls : List PortDecl) (inputs : Map Value)
    → reject_unknown_inputs (names decls) inputs ≡ []
    → (key : String) (v : Value) → Among (key, v) inputs
    → (decl : PortDecl) × Among decl decls × (decl.name ≡ key)
unfolding reject_unknown_inputs
unknown_none decls [] e key v among = absurd among
unknown_none decls ((other, w) ∷ inputs) e key v among =
    by_test (contains (names decls) other) refl e
      (λ clean later. unknown_none decls inputs clean key v later) among
  where
    by_test :
        (b : Bool)
        → contains (names decls) other ≡ b
        → (if b
            then reject_unknown_inputs (names decls) inputs
            else input_unknown ∷ reject_unknown_inputs (names decls) inputs)
          ≡ []
        → (reject_unknown_inputs (names decls) inputs ≡ []
            → Among (key, v) inputs
            → (decl : PortDecl) × Among decl decls × (decl.name ≡ key))
        → (◌≡◌ {A = String × Value} (other, w) (key, v)) ⊎ Among (key, v) inputs
        → (decl : PortDecl) × Among decl decls × (decl.name ≡ key)
    by_test true known clean rest (inl same) =
        declared-Among decls key (ap (contains (names decls)) (ap (λ t. t.0) (sym same)) ∙ known)
    by_test true known clean rest (inr later) = rest clean later
    by_test false known clean rest which = cc

-- Inputs that are valid: each parameter has an entry, each entry is the value of a parameter, and
-- where unknown keys are rejected, there is none.
pub record AreValid (numbers : ℕ → Bool) (reject : Bool) (decls : List PortDecl)
    (inputs merged : Map Value) : Type 0 where
  pub present : (decl : PortDecl) → Among decl decls → HasKey merged decl.name
  pub supplied_all : AreSupplied numbers decls inputs merged
  pub known :
      reject ≡ true
      → (key : String) (v : Value) → Among (key, v) inputs
      → (decl : PortDecl) × Among decl decls × (decl.name ≡ key)

module _ (numbers : ℕ → Bool) (reject : Bool) (decls : List PortDecl) (inputs : Map Value) where
  final-AreValid :
      (final : List Error × Map Value) {merged : Map Value}
      → (final.0 ≡ []
          → Resolved numbers decls decls inputs (unknown_problems reject decls inputs, []) final)
      → validated final ≡ valid merged
      → AreValid numbers reject decls inputs merged
  unfolding lookup
  final-AreValid (e ∷ problems, m) h same = cc
  final-AreValid ([], m) {merged} h same =
      let r = h refl in
      let equal : m ≡ merged = cc in
      subst (AreValid numbers reject decls inputs) equal record {
        present = r.present;
        supplied_all = r.supplied_all (λ name v none_yet. cc);
        known = λ strict.
            unknown_none decls inputs
              (ap (λ b. unknown_problems b decls inputs) (sym strict) ∙ r.clean);
      }

  -- Where ValidateInputs returns merged inputs, each declared parameter has an entry, and each
  -- entry is the value of a parameter of that name: the one given, which belongs to the type, else
  -- the default, else null for a type that has null. Where unknown keys are rejected, there is
  -- none.
  pub validate_inputs-AreValid :
      (merged : Map Value)
      → validate_inputs numbers reject decls inputs ≡ valid merged
      → AreValid numbers reject decls inputs merged
  unfolding validate_inputs
  validate_inputs-AreValid merged e =
      final-AreValid _ (resolve_all-Resolved numbers decls inputs decls _ (λ d h. h)) e
