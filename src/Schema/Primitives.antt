-- ===== src/Schema/Primitives.antt =====
-- pkg/cwlexec/outputtype.go: the values of the primitive types.
use mathlib.Core.Path.{subst}
use mathlib.Core.Bool.{false≢true}
use cwl_go.Prelude.{
  ℕ, String, ◌≡◌, ◌≢◌, refl, sym, ap, ◌∙◌, ◌⊎◌, inl, inr, Bool, true, false, not, ◌||◌, Option,
  none, some, Result, err, output_type, if-elim, if◌then◌else◌, str_eq, eq_iff, lookup,
}
use cwl_go.Prelude.Int.{ℤ}
use cwl_go.Value.{Value, Fields, null, bool, int, text, arr, obj, opaque, is_null, to_map}
use cwl_go.Schema.Conform.{
  is_number, is_bool, is_text, is_class, is_filesystem_object, primitive_matches, check_primitive,
  nothing,
}

-- The names of the numeric types.
pub data IsNumeric : String → Type 0 where
  int_type : IsNumeric "int"
  long_type : IsNumeric "long"
  float_type : IsNumeric "float"
  double_type : IsNumeric "double"

pub data IsFilesystem : String → Type 0 where
  file_type : IsFilesystem "File"
  directory_type : IsFilesystem "Directory"

-- The values of each primitive type. An object without a class passes for a file or a directory.
pub data IsPrimitive (numbers : ℕ → Bool) : String → Value → Type 0 where
  the_null : IsPrimitive numbers "null" null
  anything : {v : Value} → v ≢ null → IsPrimitive numbers "Any" v
  a_boolean : (b : Bool) → IsPrimitive numbers "boolean" (bool b)
  a_text : (s : String) → IsPrimitive numbers "string" (text s)
  an_integer : {name : String} (n : ℤ) → IsNumeric name → IsPrimitive numbers name (int n)
  a_number :
      {name : String} (n : ℕ)
      → numbers n ≡ true
      → IsNumeric name
      → IsPrimitive numbers name (opaque n)
  an_object :
      {name : String} (fs : Fields)
      → lookup "class" (to_map fs) ≡ none
      → IsFilesystem name
      → IsPrimitive numbers name (obj fs)
  of_its_class :
      {name : String} (fs : Fields)
      → lookup "class" (to_map fs) ≡ some (text name)
      → IsFilesystem name
      → IsPrimitive numbers name (obj fs)

-- The check succeeds and the property holds, or the check fails and it does not.
pub data Decides (r : Result (Unit {0})) (P : Type 0) : Type 0 where
  accepts : r ≡ nothing → P → Decides r P
  rejects : r ≡ err output_type → ¬ P → Decides r P

pub decides_test : (b : Bool) → Decides (if b then nothing else err output_type) (b ≡ true)
decides_test true = accepts refl refl
decides_test false = rejects refl (λ e. cc)

pub decides_as :
    {r : Result (Unit {0})} {P Q : Type 0} → Decides r P → (P → Q) → (Q → P) → Decides r Q
decides_as (accepts e p) there back = accepts e (there p)
decides_as (rejects e fails) there back = rejects e (λ q. fails (back q))

either : (a b : Bool) → (a || b) ≡ true → (a ≡ true) ⊎ (b ≡ true)
either true b e = inl refl
either false b e = inr e

module _ (numbers : ℕ → Bool) where
  null_found : (v : Value) → is_null v ≡ true → IsPrimitive numbers "null" v
  null_found null e = the_null
  null_found (bool b) e = cc
  null_found (int n) e = cc
  null_found (text t) e = cc
  null_found (arr vs) e = cc
  null_found (obj fs) e = cc
  null_found (opaque n) e = cc

  any_found : (v : Value) → not (is_null v) ≡ true → IsPrimitive numbers "Any" v
  any_found v e = anything (λ same. absurd (false≢true (ap (λ w. not (is_null w)) (sym same) ∙ e)))

  not_null : (v : Value) → v ≢ null → not (is_null v) ≡ true
  not_null null h = absurd (h refl)
  not_null (bool b) h = refl
  not_null (int n) h = refl
  not_null (text t) h = refl
  not_null (arr vs) h = refl
  not_null (obj fs) h = refl
  not_null (opaque n) h = refl

  bool_found : (v : Value) → is_bool v ≡ true → IsPrimitive numbers "boolean" v
  bool_found (bool b) e = a_boolean b
  bool_found null e = cc
  bool_found (int n) e = cc
  bool_found (text t) e = cc
  bool_found (arr vs) e = cc
  bool_found (obj fs) e = cc
  bool_found (opaque n) e = cc

  text_found : (v : Value) → is_text v ≡ true → IsPrimitive numbers "string" v
  text_found (text s) e = a_text s
  text_found null e = cc
  text_found (bool b) e = cc
  text_found (int n) e = cc
  text_found (arr vs) e = cc
  text_found (obj fs) e = cc
  text_found (opaque n) e = cc

  number_found :
      (v : Value) (name : String)
      → IsNumeric name
      → is_number numbers v ≡ true
      → IsPrimitive numbers name v
  number_found (int n) name h e = an_integer n h
  number_found (opaque n) name h e = a_number n e h
  number_found null name h e = cc
  number_found (bool b) name h e = cc
  number_found (text s) name h e = cc
  number_found (arr vs) name h e = cc
  number_found (obj fs) name h e = cc

  class_found :
      (fs : Fields) (name : String) (o : Option Value)
      → IsFilesystem name
      → lookup "class" (to_map fs) ≡ o
      → is_class o name ≡ true
      → IsPrimitive numbers name (obj fs)
  class_found fs name none h at e = an_object fs at h
  class_found fs name (some (text class)) h at e =
      of_its_class fs (at ∙ ap (λ s. some (text s)) ((eq_iff class name).0 e)) h
  class_found fs name (some null) h at e = cc
  class_found fs name (some (bool b)) h at e = cc
  class_found fs name (some (int n)) h at e = cc
  class_found fs name (some (arr vs)) h at e = cc
  class_found fs name (some (obj gs)) h at e = cc
  class_found fs name (some (opaque n)) h at e = cc

  object_found :
      (v : Value) (name : String)
      → IsFilesystem name
      → is_filesystem_object v name ≡ true
      → IsPrimitive numbers name v
  unfolding is_filesystem_object
  object_found (obj fs) name h e = class_found fs name (lookup "class" (to_map fs)) h refl e
  object_found null name h e = cc
  object_found (bool b) name h e = cc
  object_found (int n) name h e = cc
  object_found (text s) name h e = cc
  object_found (arr vs) name h e = cc
  object_found (opaque n) name h e = cc

  IsNumeric-name :
      (name : String)
      → ((str_eq name "int" || str_eq name "long") || (str_eq name "float" || str_eq name "double"))
        ≡ true
      → IsNumeric name
  IsNumeric-name name e = elim (either _ _ e) [
    | inl whole ↦ elim (either _ _ whole) [
      | inl same ↦ subst IsNumeric (sym ((eq_iff name "int").0 same)) int_type
      | inr same ↦ subst IsNumeric (sym ((eq_iff name "long").0 same)) long_type
    ]
    | inr real ↦ elim (either _ _ real) [
      | inl same ↦ subst IsNumeric (sym ((eq_iff name "float").0 same)) float_type
      | inr same ↦ subst IsNumeric (sym ((eq_iff name "double").0 same)) double_type
    ]
  ]

  IsFilesystem-name :
      (name : String) → (str_eq name "File" || str_eq name "Directory") ≡ true → IsFilesystem name
  IsFilesystem-name name e = elim (either _ _ e) [
    | inl same ↦ subst IsFilesystem (sym ((eq_iff name "File").0 same)) file_type
    | inr same ↦ subst IsFilesystem (sym ((eq_iff name "Directory").0 same)) directory_type
  ]

  renamed :
      (v : Value) (name known : String)
      → str_eq name known ≡ true
      → IsPrimitive numbers known v
      → IsPrimitive numbers name v
  renamed v name known e h = subst (λ n. IsPrimitive numbers n v) (sym ((eq_iff name known).0 e)) h

  abbrev Sound : Value → String → Bool → Type 0
  Sound v name b = b ≡ true → IsPrimitive numbers name v

  IsPrimitive-found :
      (v : Value) (name : String)
      → primitive_matches numbers v name ≡ true
      → IsPrimitive numbers name v
  unfolding primitive_matches
  IsPrimitive-found v name =
      if-elim (Sound v name) (str_eq name "null") _ _
        (λ e h. renamed v name "null" e (null_found v h))
        (λ _.
          if-elim (Sound v name) (str_eq name "Any") _ _
            (λ e h. renamed v name "Any" e (any_found v h))
            (λ _.
              if-elim (Sound v name) (str_eq name "boolean") _ _
                (λ e h. renamed v name "boolean" e (bool_found v h))
                (λ _.
                  if-elim (Sound v name) (str_eq name "string") _ _
                    (λ e h. renamed v name "string" e (text_found v h))
                    (λ _.
                      if-elim (Sound v name)
                        ((str_eq name "int" || str_eq name "long")
                          || (str_eq name "float" || str_eq name "double"))
                        _ _ (λ e h. number_found v name (IsNumeric-name name e) h)
                        (λ _.
                          if-elim (Sound v name) (str_eq name "File" || str_eq name "Directory") _ _
                            (λ e h. object_found v name (IsFilesystem-name name e) h)
                            (λ _ h. cc))))))

  number_matches :
      (name : String) (v : Value)
      → IsNumeric name
      → primitive_matches numbers v name ≡ is_number numbers v
  unfolding primitive_matches
  number_matches name v int_type = refl
  number_matches name v long_type = refl
  number_matches name v float_type = refl
  number_matches name v double_type = refl

  object_matches :
      (name : String) (v : Value)
      → IsFilesystem name
      → primitive_matches numbers v name ≡ is_filesystem_object v name
  unfolding primitive_matches
  object_matches name v file_type = refl
  object_matches name v directory_type = refl

  IsPrimitive-holds :
      (v : Value) (name : String)
      → IsPrimitive numbers name v
      → primitive_matches numbers v name ≡ true
  unfolding primitive_matches is_filesystem_object
  IsPrimitive-holds v name the_null = refl
  IsPrimitive-holds v name (anything h) = not_null v h
  IsPrimitive-holds v name (a_boolean b) = refl
  IsPrimitive-holds v name (a_text s) = refl
  IsPrimitive-holds v name (an_integer n h) = number_matches name (int n) h
  IsPrimitive-holds v name (a_number n e h) = number_matches name (opaque n) h ∙ e
  IsPrimitive-holds v name (an_object fs e h) =
      object_matches name (obj fs) h ∙ ap (λ o. is_class o name) e
  IsPrimitive-holds v name (of_its_class fs e h) =
      object_matches name (obj fs) h ∙ ap (λ o. is_class o name) e ∙ (eq_iff name name).1 refl

  pub decides-IsPrimitive :
      (v : Value) (name : String)
      → Decides (check_primitive numbers v name) (IsPrimitive numbers name v)
  unfolding check_primitive
  decides-IsPrimitive v name =
      decides_as (decides_test (primitive_matches numbers v name)) (IsPrimitive-found v name)
        (IsPrimitive-holds v name)
