-- ===== src/Scatter/Inputs.antt =====
-- The input object of a sub-job: an element of each scattered array, and the rest as it was.
use mathlib.Core.Path.{subst}
use mathlib.Core.Option.{some-injective}
use cwl_go.Prelude.{
  ℕ, zero, suc, String, ◌≡◌, refl, sym, ap, ap₂, ◌∙◌, false, ◌||◌, some, List, [], ◌∷◌, arith,
  str_eq, eq_iff, if◌then◌else◌, get_elem?, Map, lookup, insert, lookup-insert, contains, Bool,
  OnOk, OnOk-bind, OnOk-elim, ok, ◌>>=◌, ◌<◌, length, get_elem?-of_lt,
}
use cwl_go.Value.{Value}
use cwl_go.Scatter.Jobs.{job_inputs, element, or_panic}

-- No key stands twice; `ExpandScatter` refuses a key that does.
abbrev pub AreDistinct : List String → Type 0
AreDistinct [] = Unit
AreDistinct (key ∷ keys) = (contains keys key ≡ false) × AreDistinct keys

not_first : (a b : Bool) → a || b ≡ false → a ≡ false
not_first a b h = ground arith

not_rest : (a b : Bool) → a || b ≡ false → b ≡ false
not_rest a b h = ground arith

lookup-insert_self :
    (key : String) (v : Value) (m : Map Value) → lookup key (insert key v m) ≡ some v
lookup-insert_self key v m =
    lookup-insert key key v m
    ∙ ap (λ b. if b then some v else lookup key m) ((eq_iff key key).1 refl)

job_inputs-other :
    (base : Map Value) (keys : List String) (arrays : List (List Value)) (coords : List ℕ)
    (key : String)
    → contains keys key ≡ false
    → OnOk (λ m. lookup key m ≡ lookup key base) (job_inputs base keys arrays coords)
unfolding job_inputs contains
job_inputs-other base [] arrays coords key h = refl
job_inputs-other base (k ∷ keys) [] coords key h = tt
job_inputs-other base (k ∷ keys) (a ∷ arrays) [] key h = tt
job_inputs-other base (k ∷ keys) (a ∷ arrays) (c ∷ coords) key h =
    OnOk-bind (λ m. lookup key m ≡ lookup key base) (element a c) _
      λ v _.
        subst (λ o. OnOk (λ m. lookup key m ≡ o) (job_inputs (insert k v base) keys arrays coords))
          (lookup-insert k key v base
            ∙ ap (λ b. if b then some v else lookup key base)
                (not_first (str_eq k key) (contains keys key) h))
          (job_inputs-other (insert k v base) keys arrays coords key
            (not_rest (str_eq k key) (contains keys key) h))

job_inputs-key :
    (base : Map Value) (keys : List String) (arrays : List (List Value)) (coords : List ℕ) (k : ℕ)
    {key : String} {a : List Value} {c : ℕ} {v : Value}
    → AreDistinct keys
    → get_elem? keys k ≡ some key
    → get_elem? arrays k ≡ some a
    → get_elem? coords k ≡ some c
    → get_elem? a c ≡ some v
    → OnOk (λ m. lookup key m ≡ some v) (job_inputs base keys arrays coords)
unfolding job_inputs
job_inputs-key base [] arrays coords k d e f g in_range = cc
job_inputs-key base (x ∷ keys) [] coords k d e f g in_range = cc
job_inputs-key base (x ∷ keys) (y ∷ arrays) [] k d e f g in_range = cc
job_inputs-key base (x ∷ keys) (y ∷ arrays) (z ∷ coords) zero {key} {a} {c} {v} d e f g in_range =
    let same : get_elem? y z ≡ some v =
      ap₂ (λ (t : List Value) (n : ℕ). get_elem? t n) (some-injective _ _ f) (some-injective _ _ g)
      ∙ in_range in
    subst
      (λ t. OnOk (λ m. lookup t m ≡ some v) (job_inputs base (x ∷ keys) (y ∷ arrays) (z ∷ coords)))
      (some-injective _ _ e)
      (subst
        (λ o.
          OnOk (λ m. lookup x m ≡ some v)
            (or_panic o >>= (λ w. job_inputs (insert x w base) keys arrays coords)))
        (sym same)
        (subst (λ o. OnOk (λ m. lookup x m ≡ o) (job_inputs (insert x v base) keys arrays coords))
          (lookup-insert_self x v base)
          (job_inputs-other (insert x v base) keys arrays coords x d.0)))
job_inputs-key base (x ∷ keys) (y ∷ arrays) (z ∷ coords) (suc k) {key} {v = v} d e f g in_range =
    OnOk-bind (λ m. lookup key m ≡ some v) (element y z) _
      λ w _. job_inputs-key (insert x w base) keys arrays coords k d.1 e f g in_range

-- Each key has an array and a coordinate in range of it.
abbrev pub AreInRange : List String → List (List Value) → List ℕ → Type 0
AreInRange [] _ _ = Unit
AreInRange (key ∷ keys) (a ∷ arrays) (c ∷ coords) = (c < length a) × AreInRange keys arrays coords
AreInRange (key ∷ keys) _ _ = ⊥

pub job_inputs-ends :
    (base : Map Value) (keys : List String) (arrays : List (List Value)) (coords : List ℕ)
    → AreInRange keys arrays coords
    → (m : Map Value) × (job_inputs base keys arrays coords ≡ ok m)
unfolding job_inputs
job_inputs-ends base [] arrays coords h = (base, refl)
job_inputs-ends base (x ∷ keys) [] coords h = absurd h
job_inputs-ends base (x ∷ keys) (a ∷ arrays) [] h = absurd h
job_inputs-ends base (x ∷ keys) (a ∷ arrays) (c ∷ coords) h =
    let (v, e) = get_elem?-of_lt a c h.0 in
    let (m, f) = job_inputs-ends (insert x v base) keys arrays coords h.1 in
    (m, ap (λ o. or_panic o >>= (λ w. job_inputs (insert x w base) keys arrays coords)) e ∙ f)

-- The inputs of a sub-job against the inputs of the step.
pub record IsJobInputs (base : Map Value) (keys : List String) (arrays : List (List Value))
    (coords : List ℕ) (inputs : Map Value) : Type 0 where
  pub scattered :
      (k : ℕ) {key : String} {a : List Value} {c : ℕ} {v : Value}
      → get_elem? keys k ≡ some key
      → get_elem? arrays k ≡ some a
      → get_elem? coords k ≡ some c
      → get_elem? a c ≡ some v
      → lookup key inputs ≡ some v
  pub other : (key : String) → contains keys key ≡ false → lookup key inputs ≡ lookup key base

-- Where no key stands twice, and each key has an array and a coordinate in range of it, the input
-- object of a sub-job is made without a panic; it holds under each key the element of the key's
-- array at its coordinate, and under any other name what the step's own input object holds.
pub job_inputs-IsJobInputs :
    (base : Map Value) (keys : List String) (arrays : List (List Value)) (coords : List ℕ)
    → AreDistinct keys
    → AreInRange keys arrays coords
    → (inputs : Map Value) × (job_inputs base keys arrays coords ≡ ok inputs)
      × IsJobInputs base keys arrays coords inputs
job_inputs-IsJobInputs base keys arrays coords d h =
    let (m, e) = job_inputs-ends base keys arrays coords h in
    (
      m,
      e,
      record {
        scattered = λ k {key} {a} {c} {v} f g at in_range.
            OnOk-elim (λ t. lookup key t ≡ some v)
              (job_inputs-key base keys arrays coords k d f g at in_range) e;
        other = λ key out.
            OnOk-elim (λ t. lookup key t ≡ lookup key base)
              (job_inputs-other base keys arrays coords key out) e;
      },
    )
