-- ===== src/Scatter/Keys.antt =====
-- `ExpandScatter` refuses keys that are not distinct.
use mathlib.Core.Bool.{false≢true}
use cwl_go.Prelude.{
  String, ◌≡◌, refl, sym, ap, ◌∙◌, Bool, true, false, ◌||◌, List, [], ◌∷◌, str_eq, eq_iff, if-elim,
  Map, lookup, contains, OnOk, OnOk-bind, OnOk-elim, ok, err, Result,
}
use cwl_go.Value.{Value}
use cwl_go.Scatter.Jobs.{
  ScatterMethod, ScatterPlan, scatter_array, scatter_arrays, expand_scatter, expander_for, is_nil,
}
use cwl_go.Scatter.Inputs.{AreDistinct}

-- No key was seen before.
abbrev AreFresh : List String → List String → Type 0
AreFresh seen [] = Unit
AreFresh seen (key ∷ keys) = (contains seen key ≡ false) × AreFresh (key ∷ seen) keys

scatter_arrays-AreFresh :
    (base : Map Value) (seen keys : List String)
    → OnOk (λ _. AreFresh seen keys) (scatter_arrays base seen keys)
unfolding scatter_arrays
scatter_arrays-AreFresh base seen [] = tt
scatter_arrays-AreFresh base seen (key ∷ keys) =
    let rest = scatter_arrays-AreFresh base (key ∷ seen) keys in
    if-elim (OnOk (λ _. AreFresh seen (key ∷ keys))) (contains seen key) _ _ (λ _. tt)
      (λ fresh.
        OnOk-bind (λ _. AreFresh seen (key ∷ keys)) (scatter_array (lookup key base)) _
          λ a _.
            OnOk-bind (λ _. AreFresh seen (key ∷ keys)) (scatter_arrays base (key ∷ seen) keys) _
              λ r e. (fresh, OnOk-elim (λ _. AreFresh (key ∷ seen) keys) rest e))

contains-here : (key : String) (seen : List String) → contains (key ∷ seen) key ≡ true
unfolding contains
contains-here key seen = ap (λ b. b || contains seen key) ((eq_iff key key).1 refl)

contains-later :
    (key j : String) (seen : List String) → contains seen j ≡ true → contains (key ∷ seen) j ≡ true
unfolding contains
contains-later key j seen h = ap (λ b. str_eq key j || b) h ∙ or_true (str_eq key j)
  where
    or_true : (b : Bool) → b || true ≡ true
    or_true true = refl
    or_true false = refl

seen-AreFresh :
    (seen keys : List String) (j : String)
    → AreFresh seen keys
    → contains seen j ≡ true
    → contains keys j ≡ false
seen-AreFresh seen [] j h s = unfold contains in refl
seen-AreFresh seen (key ∷ keys) j h s =
    both (str_eq key j) refl (seen-AreFresh (key ∷ seen) keys j h.1 (contains-later key j seen s))
  where
    both : (b : Bool) → str_eq key j ≡ b → contains keys j ≡ false → contains (key ∷ keys) j ≡ false
    both true e rest = absurd (false≢true (sym h.0 ∙ ap (contains seen) ((eq_iff key j).0 e) ∙ s))
    both false e rest = unfold contains in ap (λ b. b || contains keys j) e ∙ rest

AreFresh-AreDistinct : (seen keys : List String) → AreFresh seen keys → AreDistinct keys
AreFresh-AreDistinct seen [] h = tt
AreFresh-AreDistinct seen (key ∷ keys) h = (
  seen-AreFresh (key ∷ seen) keys key h.1 (contains-here key seen),
  AreFresh-AreDistinct (key ∷ seen) keys h.1,
)

expand-keys :
    (base : Map Value) (keys : List String) (method : ScatterMethod)
    → OnOk (λ _. AreDistinct keys) (expand_scatter base keys method)
unfolding expand_scatter
expand-keys base keys method =
    OnOk-bind (λ _. AreDistinct keys) (expander_for method) _
      λ expand _.
        if-elim (OnOk (λ _. AreDistinct keys)) (is_nil keys) _ _ (λ _. tt)
          (λ _.
            OnOk-bind (λ _. AreDistinct keys) (scatter_arrays base [] keys) _
              λ arrays e.
                always
                  (AreFresh-AreDistinct [] keys
                    (OnOk-elim (λ _. AreFresh [] keys) (scatter_arrays-AreFresh base [] keys) e))
                  _)
  where
    always : AreDistinct keys → (o : Result ScatterPlan) → OnOk (λ _. AreDistinct keys) o
    always d (ok p) = d
    always d (err e) = tt

-- If ExpandScatter returns a plan, no key stands twice among the scattered keys.
pub expand-AreDistinct :
    (base : Map Value) (keys : List String) (method : ScatterMethod) (plan : ScatterPlan)
    → expand_scatter base keys method ≡ ok plan
    → AreDistinct keys
expand-AreDistinct base keys method plan e =
    OnOk-elim (λ _. AreDistinct keys) (expand-keys base keys method) e
