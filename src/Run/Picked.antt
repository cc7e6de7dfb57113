-- ===== src/Run/Picked.antt =====
-- What `pickValue` selects.
use mathlib.Core.Bool.{false≢true}
use cwl_go.Prelude.{◌≡◌, refl, sym, ap, ◌∙◌, ◌≢◌, true, List, [], ◌∷◌, if-elim, ok, OnOk, OnOk-elim}
use cwl_go.Value.{Value, null, bool, int, text, arr, obj, opaque, is_null, array}
use cwl_go.Run.Types.{
  PickValue, no_pick, first_non_null, the_only_non_null, all_non_null, other_pick,
}
use cwl_go.Run.Sinks.{non_null, select_picked, as_items, pick}

-- The second list has the values of the first that are not null, in their order.
pub data NonNull : List Value → List Value → Type 0 where
  none_left : NonNull [] []
  dropped : {v : Value} {vs kept : List Value} → v ≡ null → NonNull vs kept → NonNull (v ∷ vs) kept
  taken :
      {v : Value} {vs kept : List Value} → v ≢ null → NonNull vs kept → NonNull (v ∷ vs) (v ∷ kept)

-- The value stands in the list behind nulls only, and is not null itself.
pub data IsFirst : List Value → Value → Type 0 where
  behind : {v w : Value} {vs : List Value} → v ≡ null → IsFirst vs w → IsFirst (v ∷ vs) w
  first : {v : Value} {vs : List Value} → v ≢ null → IsFirst (v ∷ vs) v

null_lem : (v : Value) → is_null v ≡ true → v ≡ null
null_lem null e = refl
null_lem (bool b) e = cc
null_lem (int n) e = cc
null_lem (text t) e = cc
null_lem (arr vs) e = cc
null_lem (obj fs) e = cc
null_lem (opaque n) e = cc

non_null-NonNull : (vs : List Value) → NonNull vs (non_null vs)
unfolding non_null
non_null-NonNull [] = none_left
non_null-NonNull (v ∷ vs) =
    if-elim (NonNull (v ∷ vs)) (is_null v) (non_null vs) (v ∷ non_null vs)
      (λ e. dropped (null_lem v e) (non_null-NonNull vs))
      (λ e. taken (λ f. absurd (false≢true (sym e ∙ ap is_null f))) (non_null-NonNull vs))

NonNull-IsFirst : (vs kept : List Value) (w : Value) → NonNull vs (w ∷ kept) → IsFirst vs w
NonNull-IsFirst [] kept w h = elim h [ ]
NonNull-IsFirst (v ∷ vs) kept w (dropped e h) = behind e (NonNull-IsFirst vs kept w h)
NonNull-IsFirst (v ∷ vs) kept w (taken e h) = first e

-- The selected value: the first candidate that is not null, the only one, or the array of all of
-- them in their order.
abbrev pub IsPicked : List Value → PickValue → Value → Type 0
IsPicked vs all_non_null w = (kept : List Value) × (w ≡ array kept) × NonNull vs kept
IsPicked vs the_only_non_null w = NonNull vs (w ∷ [])
IsPicked vs _ w = IsFirst vs w

select_picked-IsPicked :
    (method : PickValue) (vs kept : List Value)
    → NonNull vs kept
    → OnOk (IsPicked vs method) (select_picked method kept)
unfolding select_picked
select_picked-IsPicked all_non_null vs kept h = (kept, refl, h)
select_picked-IsPicked first_non_null vs [] h = tt
select_picked-IsPicked first_non_null vs (v ∷ kept) h = NonNull-IsFirst vs kept v h
select_picked-IsPicked the_only_non_null vs [] h = tt
select_picked-IsPicked the_only_non_null vs (v ∷ []) h = h
select_picked-IsPicked the_only_non_null vs (v ∷ w ∷ kept) h = tt
select_picked-IsPicked no_pick vs kept h = tt
select_picked-IsPicked (other_pick s) vs kept h = tt

selected :
    (method : PickValue) (merged : Value)
    → OnOk (IsPicked (as_items merged) method) (select_picked method (non_null (as_items merged)))
selected method merged =
    select_picked-IsPicked method (as_items merged) (non_null (as_items merged))
      (non_null-NonNull (as_items merged))

picked :
    (method : PickValue) (merged : Value)
    → method ≢ no_pick
    → OnOk (IsPicked (as_items merged) method) (pick method merged)
unfolding pick
picked no_pick merged h = absurd (h refl)
picked all_non_null merged h = selected all_non_null merged
picked first_non_null merged h = selected first_non_null merged
picked the_only_non_null merged h = selected the_only_non_null merged
picked (other_pick s) merged h = selected (other_pick s) merged

-- Where pickValue is declared and selects a value: for firstNonNull it is the first candidate that
-- is not null, for theOnlyNonNull it is the only such candidate, and for allNonNull it is the
-- array of all such candidates in their order.
pub pick-IsPicked :
    (method : PickValue) (merged picked_value : Value)
    → method ≢ no_pick
    → pick method merged ≡ ok picked_value
    → IsPicked (as_items merged) method picked_value
pick-IsPicked method merged picked_value h e =
    OnOk-elim (IsPicked (as_items merged) method) (picked method merged h) e
