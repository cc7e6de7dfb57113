-- ===== src/Scatter/Tests.antt =====
-- A nested cross product of two arrays, scattered and gathered.
use cwl_go.Prelude.{
  String, ℕ, ◌≡◌, refl, true, false, some, List, [], ◌∷◌, Map, lookup, insert, contains, Result, ok,
  err, arith, length, get_elem?, Bool, reverse,
}
use cwl_go.Prelude.Int.{pos}
use cwl_go.Value.{Value, int, array}
use cwl_go.Scatter.Jobs.{
  nested_cross, ScatterPlan, expand_scatter, expander_for, scatter_arrays, expand_arrays,
  first_zero, nested_crossproduct, nested_jobs, job_inputs, grid_coordinates, make_grid,
  int_product, times_from, turns, advance, advance_backward, other,
}
use cwl_go.Scatter.Assembly.{JobOutputs, nest, linear_offset, gather}
use cwl_go.Scatter.Offset.{InBounds}
use cwl_go.Scatter.Grid.{grid_coordinates-elem, grid_coordinates_complete}
use cwl_go.Scatter.Nest.{dig, dig-nest}
use cwl_go.Scatter.Placed.{IsRowMajor, FitsPlan}
use cwl_go.Scatter.Ints.{FitsInt, FitInts}
use cwl_go.Scatter.Gather.{IsAssembled}
use cwl_go.Scatter.Inputs.{AreDistinct, AreInRange, IsJobInputs, job_inputs-IsJobInputs}
use cwl_go.Scatter.Keys.{expand-AreDistinct}
use cwl_go.Scatter.Expand.{expand-IsRowMajor, gather-expand}

abbrev number : ℕ → Value
number n = int (pos n)

abbrev inputs : Map Value
inputs =
    ("x", array (number 1 ∷ number 2 ∷ []))
    ∷ ("y", array (number 3 ∷ number 4 ∷ number 5 ∷ []))
    ∷ []

abbrev keys : List String
keys = "x" ∷ "y" ∷ []

abbrev or_blank : Result ScatterPlan → ScatterPlan
or_blank (ok p) = p
or_blank (err _) = record { method = other ""; keys = []; jobs = []; dims = [] }

abbrev is_ok : Result ScatterPlan → Bool
is_ok (ok _) = true
is_ok (err _) = false

or_blank_lem : (o : Result ScatterPlan) → is_ok o ≡ true → o ≡ ok (or_blank o)
or_blank_lem (ok p) h = refl
or_blank_lem (err e) h = cc

abbrev plan : ScatterPlan
plan = or_blank (expand_scatter inputs keys nested_cross)

expanded_ends : is_ok (expand_scatter inputs keys nested_cross) ≡ true
unfolding expand_scatter expander_for scatter_arrays expand_arrays first_zero nested_crossproduct
    make_grid int_product times_from lookup contains nested_jobs job_inputs grid_coordinates turns
    advance advance_backward insert
expanded_ends = refl

expanded : expand_scatter inputs keys nested_cross ≡ ok plan
expanded = or_blank_lem (expand_scatter inputs keys nested_cross) expanded_ends

abbrev outputs : JobOutputs
outputs = (pos 0, ("out", number 8) ∷ []) ∷ (pos 4, ("out", number 9) ∷ []) ∷ []

six_jobs : length plan.jobs ≡ 6
unfolding expand_scatter expander_for scatter_arrays expand_arrays first_zero nested_crossproduct
    make_grid int_product times_from lookup contains nested_jobs job_inputs grid_coordinates turns
    advance advance_backward insert
six_jobs = refl

plan_fits : FitsPlan plan
unfolding expand_scatter expander_for scatter_arrays expand_arrays first_zero nested_crossproduct
    make_grid int_product times_from lookup contains nested_jobs job_inputs grid_coordinates turns
    advance advance_backward insert
plan_fits = (omega arith, (omega arith, tt))

expand-IsRowMajor_example : IsRowMajor plan
expand-IsRowMajor_example = expand-IsRowMajor inputs keys nested_cross plan expanded plan_fits

gather-expand_example :
    (gathered : Map Value) × (gather plan outputs ("out" ∷ []) ≡ ok gathered)
    × IsAssembled plan outputs ("out" ∷ []) gathered
gather-expand_example =
    gather-expand inputs keys nested_cross plan outputs ("out" ∷ []) expanded plan_fits
      (rw six_jobs (refl, (refl, tt)))

abbrev shape : List ℕ
shape = 2 ∷ 3 ∷ []

last_entry : get_elem? (grid_coordinates shape) 5 ≡ some (1 ∷ 2 ∷ [])
unfolding grid_coordinates int_product times_from turns advance advance_backward
last_entry = refl

grid_coordinates-elem_example : InBounds (1 ∷ 2 ∷ []) shape × (linear_offset (1 ∷ 2 ∷ []) shape ≡ 5)
grid_coordinates-elem_example = grid_coordinates-elem shape 5 last_entry

within : InBounds (1 ∷ 2 ∷ []) shape
within = (omega arith, (omega arith, tt))

shape_small : FitsInt shape
shape_small = omega arith

small_reversed : FitInts (reverse shape)
small_reversed = (omega arith, (omega arith, tt))

grid_coordinates_complete_example :
    get_elem? (grid_coordinates shape) (linear_offset (1 ∷ 2 ∷ []) shape) ≡ some (1 ∷ 2 ∷ [])
grid_coordinates_complete_example = grid_coordinates_complete shape (1 ∷ 2 ∷ []) shape_small within

abbrev six : List Value
six = number 0 ∷ number 1 ∷ number 2 ∷ number 3 ∷ number 4 ∷ number 5 ∷ []

two_three : shape ≡ [] → ⊥
two_three e = cc

dig-nest_example :
    dig (1 ∷ 2 ∷ []) (array (nest six shape)) ≡ get_elem? six (linear_offset (1 ∷ 2 ∷ []) shape)
dig-nest_example = dig-nest shape (1 ∷ 2 ∷ []) six two_three small_reversed within

keys-AreDistinct : AreDistinct keys
unfolding contains
keys-AreDistinct = (refl, (refl, tt))

abbrev arrays : List (List Value)
arrays = (number 1 ∷ number 2 ∷ []) ∷ (number 3 ∷ number 4 ∷ number 5 ∷ []) ∷ []

coords_in_range : AreInRange keys arrays (1 ∷ 2 ∷ [])
coords_in_range = (omega arith, (omega arith, tt))

job_inputs-IsJobInputs_example :
    (made : Map Value) × (job_inputs inputs keys arrays (1 ∷ 2 ∷ []) ≡ ok made)
    × IsJobInputs inputs keys arrays (1 ∷ 2 ∷ []) made
job_inputs-IsJobInputs_example =
    job_inputs-IsJobInputs inputs keys arrays (1 ∷ 2 ∷ []) keys-AreDistinct coords_in_range

expand-AreDistinct_example : AreDistinct keys
expand-AreDistinct_example = expand-AreDistinct inputs keys nested_cross plan expanded
