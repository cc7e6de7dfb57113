-- ===== src/Scatter/Expand.antt =====
-- `ExpandScatter`: the plan's jobs fill its shape in row-major order, for every method.
use mathlib.Core.Path.{subst}
use mathlib.Core.List.{cons≢nil}
use cwl_go.Prelude.{
  ℕ, suc, String, ◌≡◌, refl, sym, ap, ◌∙◌, ◌≢◌, Bool, true, false, Option, none, some, List, [],
  ◌∷◌, arith, if◌then◌else◌, length, take, Map, lookup, contains, ok, err, ◌>>=◌, OnOk, OnOk-bind,
  OnOk-elim, duplicate_scatter_key, dotproduct_length, if-elim, panicked, get_elem?, map, reverse,
  Result,
}
use cwl_go.Prelude.Int.{ℤ, pos}
use cwl_go.Value.{Value}
use cwl_go.Scatter.Jobs.{
  ScatterMethod, dot, flat_cross, nested_cross, other, ScatterJob, ScatterPlan, dimensions,
  int_product, is_negative, grid_coordinates, make_grid, nested_jobs, flat_jobs, Expansion,
  same_length, dot_jobs, dotproduct, flat_crossproduct, nested_crossproduct, scatter_array,
  scatter_arrays, first_zero, empty_shape, expand_arrays, expand_scatter,
}
use cwl_go.Scatter.Assembly.{JobOutputs, gather}
use cwl_go.Scatter.Grid.{grid_coordinates-elem, length-grid_product}
use cwl_go.Scatter.Ints.{FitsInt, FitInts}
use cwl_go.Scatter.Offset.{FitInts-whole}
use cwl_go.Scatter.Placed.{IsRowMajor, FitsPlan, AddressJobs, map-pos_part}
use cwl_go.Scatter.Gather.{IsAssembled, gather-IsAssembled}
use cwl_go.Scatter.Shapes.{
  first_zero-none, AllPositive-OnlyLastZero, first_zero-take, Stand, dot_jobs-Stand,
  flat_jobs-Stand, nested_jobs-Stand,
}

-- The plan is row-major, if its dimensions fit an int.
abbrev IsOrdered : ScatterPlan → Type 0
IsOrdered p = FitsPlan p → IsRowMajor p

-- A plan of one dimension.
line-IsRowMajor :
    (keys : List String) (method : ScatterMethod) (size : ℕ) (jobs : List ScatterJob)
    → Stand (size ∷ []) 0 size jobs
    → IsRowMajor (record { method = method; keys = keys; jobs = jobs; dims = pos size ∷ [] })
line-IsRowMajor keys method size jobs (placed, count) = record {
  sizes = size ∷ [];
  shape = refl;
  nested = cons≢nil;
  lengths = tt;
  placed = placed;
  count = omega (arith, count);
}

grid_made :
    (dims : List ℕ) (grid : List (List ℕ)) → make_grid dims ≡ ok grid → grid_coordinates dims ≡ grid
unfolding make_grid
grid_made dims grid e =
    if-elim (λ (t : Result (List (List ℕ))). t ≡ ok grid → grid_coordinates dims ≡ grid)
      (is_negative (int_product dims)) (err panicked) (ok (grid_coordinates dims)) (λ _ f. cc)
      (λ _ f. cc) e

module _ (base : Map Value) (keys : List String) (arrays : List (List Value)) where
  -- The plan that an expansion's jobs and shape make.
  abbrev IsExpansion : ScatterMethod → List ScatterJob × List ℤ → Type 0
  IsExpansion method (jobs, shape) =
      IsOrdered (record { method = method; keys = keys; jobs = jobs; dims = shape })

  flat-IsExpansion :
      (method : ScatterMethod) → OnOk (IsExpansion method) (flat_crossproduct base keys arrays)
  unfolding flat_crossproduct
  flat-IsExpansion method =
      OnOk-bind (IsExpansion method) (make_grid (dimensions arrays)) _ λ grid e.
        OnOk-bind (IsExpansion method) (flat_jobs base keys arrays 0 grid) _ λ jobs f small.
          let stand =
            OnOk-elim (Stand (length grid ∷ []) 0 (length grid))
              (flat_jobs-Stand base keys arrays (length grid) 0 grid (omega arith)) f in
          line-IsRowMajor keys method (length grid) jobs stand

  nested_plan-IsRowMajor :
      (method : ScatterMethod) (grid : List (List ℕ)) (jobs : List ScatterJob)
      → dimensions arrays ≢ []
      → first_zero (dimensions arrays) ≡ none
      → make_grid (dimensions arrays) ≡ ok grid
      → nested_jobs base keys arrays grid ≡ ok jobs
      → FitsInt (dimensions arrays)
      → IsRowMajor
          (record { method = method; keys = keys; jobs = jobs; dims = map pos (dimensions arrays) })
  nested_plan-IsRowMajor method grid jobs some_dims positive e f small =
      let dims = dimensions arrays in
      let made = grid_made dims grid e in
      let stand =
        OnOk-elim (Stand dims 0 (length grid))
          (nested_jobs-Stand base keys arrays dims 0 grid λ n c at.
            let stands : get_elem? (grid_coordinates dims) n ≡ some c =
              ap (λ t. get_elem? t n) made ∙ at in
            let (b, o) = grid_coordinates-elem dims n stands in (b, omega (arith, o)))
          f in
      record {
        sizes = dims;
        shape = refl;
        nested = some_dims;
        lengths = AllPositive-OnlyLastZero dims (first_zero-none dims positive);
        placed = stand.0;
        count = stand.1 ∙ ap length (sym made) ∙ length-grid_product dims small;
      }

  nested-IsExpansion :
      (method : ScatterMethod)
      → dimensions arrays ≢ []
      → first_zero (dimensions arrays) ≡ none
      → OnOk (IsExpansion method) (nested_crossproduct base keys arrays)
  unfolding nested_crossproduct
  nested-IsExpansion method some_dims positive =
      let dims = dimensions arrays in
      OnOk-bind (IsExpansion method) (make_grid dims) _ λ grid e.
        OnOk-bind (IsExpansion method) (nested_jobs base keys arrays grid) _ λ jobs f small.
          nested_plan-IsRowMajor method grid jobs some_dims positive e f
            (FitInts-whole dims (subst (λ ds. FitInts (reverse ds)) (map-pos_part dims) small))

empty_plan-IsRowMajor :
    (base : Map Value) (keys : List String) (method : ScatterMethod) (ds : List ℕ) (i : ℕ)
    → first_zero ds ≡ some i
    → IsRowMajor
        (record { method = method; keys = keys; jobs = []; dims = empty_shape ds i method })
unfolding empty_shape
empty_plan-IsRowMajor base keys nested_cross ds i e =
    let (lengths, size, nested) = first_zero-take ds i e in
    record {
      sizes = take (suc i) ds;
      shape = refl;
      nested = nested;
      lengths = lengths;
      placed = tt;
      count = sym size;
    }
empty_plan-IsRowMajor base keys _ ds i e = record {
  sizes = 0 ∷ [];
  shape = refl;
  nested = cons≢nil;
  lengths = tt;
  placed = tt;
  count = omega arith;
}

module _ (base : Map Value) (keys : List String) (method : ScatterMethod) where
  dot_pair-IsExpansion :
      (a : List Value) (arrays : List (List Value)) (same : Bool)
      → OnOk (IsExpansion base keys (a ∷ arrays) method) (
          if same
          then (do
            jobs ← dot_jobs base keys (a ∷ arrays) (length a) 0
            ok (jobs, pos (length a) ∷ []))
          else err dotproduct_length)
  dot_pair-IsExpansion a arrays false = tt
  dot_pair-IsExpansion a arrays true =
      OnOk-bind (IsExpansion base keys (a ∷ arrays) method)
        (dot_jobs base keys (a ∷ arrays) (length a) 0) _
        λ jobs e small.
          let stand =
            OnOk-elim (Stand (length a ∷ []) 0 (length a))
              (dot_jobs-Stand base keys (a ∷ arrays) (length a) (length a) 0 (omega arith)) e in
          line-IsRowMajor keys method (length a) jobs stand

  dotproduct-IsExpansion :
      (arrays : List (List Value))
      → dimensions arrays ≢ []
      → OnOk (IsExpansion base keys arrays method) (dotproduct base keys arrays)
  unfolding dotproduct
  dotproduct-IsExpansion [] h = absurd (h refl)
  dotproduct-IsExpansion (a ∷ arrays) h =
      dot_pair-IsExpansion a arrays (same_length (length a) arrays)

  -- The rest of `ExpandScatter` for an expander that yields row-major jobs.
  expand_arrays-IsRowMajor :
      (expand : Map Value → List String → List (List Value) → Expansion)
      (arrays : List (List Value)) (hole : Option ℕ)
      → first_zero (dimensions arrays) ≡ hole
      → dimensions arrays ≢ []
      → (first_zero (dimensions arrays) ≡ none
          → OnOk (IsExpansion base keys arrays method) (expand base keys arrays))
      → OnOk IsOrdered (expand_arrays expand base keys method arrays hole)
  unfolding expand_arrays
  expand_arrays-IsRowMajor expand arrays none e some_dims h =
      OnOk-bind IsOrdered (expand base keys arrays) _
        λ (jobs, shape) found. OnOk-elim (IsExpansion base keys arrays method) (h e) found
  expand_arrays-IsRowMajor expand arrays (some i) e some_dims h =
      λ small. empty_plan-IsRowMajor base keys method (dimensions arrays) i e

scatter_arrays-length :
    (base : Map Value) (seen keys : List String)
    → OnOk (λ arrays. length arrays ≡ length keys) (scatter_arrays base seen keys)
unfolding scatter_arrays
scatter_arrays-length base seen [] = refl
scatter_arrays-length base seen (key ∷ keys) =
    step (contains seen key) (scatter_arrays-length base (key ∷ seen) keys)
  where
    step :
        (again : Bool)
        → OnOk (λ arrays. length arrays ≡ length keys) (scatter_arrays base (key ∷ seen) keys)
        → OnOk
            (λ arrays. length arrays ≡ suc (length keys))
            (if again then err duplicate_scatter_key else (do
              a ← scatter_array (lookup key base)
              r ← scatter_arrays base (key ∷ seen) keys
              ok (a ∷ r)))
    step true h = tt
    step false h = OnOk-bind _ (scatter_array (lookup key base)) _ λ a e.
        OnOk-bind _ (scatter_arrays base (key ∷ seen) keys) _
          λ r e'. ap suc (OnOk-elim (λ arrays. length arrays ≡ length keys) h e')

dimensions-ne-nil :
    (arrays : List (List Value)) {n : ℕ} → length arrays ≡ suc n → dimensions arrays ≢ []
dimensions-ne-nil [] h = absurd (omega arith)
dimensions-ne-nil (a ∷ arrays) h = cons≢nil

found-IsRowMajor :
    (base : Map Value) (key : String) (keys : List String) (method : ScatterMethod)
    (expand : Map Value → List String → List (List Value) → Expansion)
    → ((arrays : List (List Value))
        → dimensions arrays ≢ []
        → first_zero (dimensions arrays) ≡ none
        → OnOk (IsExpansion base (key ∷ keys) arrays method) (expand base (key ∷ keys) arrays))
    → OnOk IsOrdered (do
      arrays ← scatter_arrays base [] (key ∷ keys)
      expand_arrays expand base (key ∷ keys) method arrays (first_zero (dimensions arrays)))
found-IsRowMajor base key keys method expand h =
    OnOk-bind IsOrdered (scatter_arrays base [] (key ∷ keys)) _ λ arrays e.
      let some_dims : dimensions arrays ≢ [] = dimensions-ne-nil arrays (
        OnOk-elim (λ (t : List (List Value)). length t ≡ length (key ∷ keys))
          (scatter_arrays-length base [] (key ∷ keys)) e) in
      expand_arrays-IsRowMajor base (key ∷ keys) method expand arrays _ refl some_dims
        (h arrays some_dims)

expand_scatter-OnOk :
    (base : Map Value) (keys : List String) (method : ScatterMethod)
    → OnOk IsOrdered (expand_scatter base keys method)
unfolding expand_scatter
expand_scatter-OnOk base [] dot = tt
expand_scatter-OnOk base [] flat_cross = tt
expand_scatter-OnOk base [] nested_cross = tt
expand_scatter-OnOk base keys (other m) = tt
expand_scatter-OnOk base (key ∷ keys) dot =
    found-IsRowMajor base key keys dot dotproduct
      λ arrays some_dims _. dotproduct-IsExpansion base (key ∷ keys) dot arrays some_dims
expand_scatter-OnOk base (key ∷ keys) flat_cross =
    found-IsRowMajor base key keys flat_cross flat_crossproduct
      λ arrays _ _. flat-IsExpansion base (key ∷ keys) arrays flat_cross
expand_scatter-OnOk base (key ∷ keys) nested_cross =
    found-IsRowMajor base key keys nested_cross nested_crossproduct λ arrays some_dims full.
      nested-IsExpansion base (key ∷ keys) arrays nested_cross some_dims full

-- A plan that ExpandScatter returns is row-major, if neither the product of its dimensions nor one
-- that leaves out inner dimensions overflows an int: its jobs, in order, have coordinates in
-- bounds of its shape at the offsets 0, 1, …, and as many as the shape has slots.
pub expand-IsRowMajor :
    (base : Map Value) (keys : List String) (method : ScatterMethod) (plan : ScatterPlan)
    → expand_scatter base keys method ≡ ok plan
    → FitsPlan plan
    → IsRowMajor plan
expand-IsRowMajor base keys method plan e small =
    OnOk-elim IsOrdered (expand_scatter-OnOk base keys method) e small

-- Whatever the inputs and the method, if ExpandScatter returns a plan, and neither the product of
-- its dimensions nor one that leaves out inner dimensions overflows an int, then Gather succeeds
-- on outputs numbered by the plan's jobs, and every declared port holds at each job's coordinates
-- that job's output; there is no other port.
pub gather-expand :
    (base : Map Value) (keys : List String) (method : ScatterMethod) (plan : ScatterPlan)
    (outputs : JobOutputs) (declared : List String)
    → expand_scatter base keys method ≡ ok plan
    → FitsPlan plan
    → AddressJobs (length plan.jobs) outputs
    → (gathered : Map Value) × (gather plan outputs declared ≡ ok gathered)
      × IsAssembled plan outputs declared gathered
gather-expand base keys method plan outputs declared e small a =
    gather-IsAssembled plan outputs declared (expand-IsRowMajor base keys method plan e small) small
      a
