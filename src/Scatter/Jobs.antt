-- ===== src/Scatter/Jobs.antt =====
-- pkg/cwlexec/scatter.go, `ExpandScatter`: the sub-jobs of a scattered step and their coordinates.
-- Lengths, and coordinates that the code computes, are natural numbers, and the products of lengths
-- wrap around as a Go int does; the coordinates and the
-- dimensions that a plan holds are Go integers, since `Gather` tests them for negative values.
use cwl_go.Prelude.{
  ℕ, zero, suc, ◌+◌, ◌*◌, ◌%◌, String, Bool, true, false, ◌&&◌, Option, none, some, List, [], ◌∷◌,
  map, reverse, ltb, leb, ◌==◌, if◌then◌else◌, length, get_elem?, take, replicate, Map, lookup,
  insert, contains, Result, ok, err, ◌>>=◌, unknown_scatter_method, no_scatter_keys,
  duplicate_scatter_key, scatter_input_missing, scatter_input_not_array, panicked,
  dotproduct_length,
}
use cwl_go.Prelude.Int.{ℤ, pos}
use cwl_go.Value.{Value, as_array}

-- A `ScatterMethod` is a text: the three declared constants, and any other.
pub data ScatterMethod : Type 0 where
  dot flat_cross nested_cross : ScatterMethod
  other : String → ScatterMethod

pub record ScatterJob : Type 0 where
  pub inputs : Map Value
  pub index : List ℤ

pub record ScatterPlan : Type 0 where
  pub method : ScatterMethod
  pub keys : List String
  pub jobs : List ScatterJob
  pub dims : List ℤ

-- An index out of range panics.
abbrev pub or_panic : Option Value → Result Value
or_panic (some v) = ok v
or_panic none = err panicked

-- `arrays[k][coords[k]]`
abbrev pub element : List Value → ℕ → Result Value
element a c = or_panic (get_elem? a c)

unfoldable pub job_inputs :
    Map Value → List String → List (List Value) → List ℕ → Result (Map Value)
job_inputs base [] _ _ = ok base
job_inputs base (key ∷ keys) (a ∷ arrays) (c ∷ coords) = do
  v ← element a c
  job_inputs (insert key v base) keys arrays coords
job_inputs base (_ ∷ _) _ _ = err panicked

abbrev pub dimensions : List (List Value) → List ℕ
dimensions arrays = map length arrays

-- A Go int of 64 bits that a product gives, as its bit pattern: from 2 ^ 63 on it is negative.
abbrev pub wrap : ℕ → ℕ
wrap n = n % 18446744073709551616

abbrev pub is_negative : ℕ → Bool
is_negative n = leb 9223372036854775808 n

-- The rounds of `range n`: none where n is negative.
abbrev pub rounds : ℕ → ℕ
rounds n = if is_negative n then 0 else n

-- `for _, n := range dims { total *= n }`
unfoldable pub times_from : ℕ → List ℕ → ℕ
times_from total [] = total
times_from total (n ∷ ns) = times_from (wrap (total * n)) ns

unfoldable pub int_product : List ℕ → ℕ
unfolding times_from
int_product dims = times_from 1 dims

unfoldable pub shape_size : List ℕ → ℕ
unfolding int_product
shape_size [] = 0
shape_size (n ∷ ns) = int_product (n ∷ ns)

-- The loop of `advance` over the odometer from its last coordinate.
unfoldable pub advance_backward : List ℕ → List ℕ → List ℕ
advance_backward (c ∷ cs) (d ∷ ds) =
    let rest = advance_backward cs ds in if ltb (c + 1) d then (c + 1) ∷ cs else 0 ∷ rest
advance_backward cs _ = cs

unfoldable pub advance : List ℕ → List ℕ → List ℕ
unfolding advance_backward
advance odometer dims = reverse (advance_backward (reverse odometer) (reverse dims))

unfoldable pub turns : ℕ → List ℕ → List ℕ → List (List ℕ)
unfolding advance
turns zero odometer dims = []
turns (suc left) odometer dims = odometer ∷ turns left (advance odometer dims) dims

-- The coordinates that `gridCoordinates` enumerates.
unfoldable pub grid_coordinates : List ℕ → List (List ℕ)
unfolding turns int_product
grid_coordinates dims = turns (rounds (int_product dims)) (replicate (length dims) 0) dims

-- `gridCoordinates`: `make` panics for a negative capacity.
unfoldable pub make_grid : List ℕ → Result (List (List ℕ))
unfolding grid_coordinates int_product
make_grid dims = if is_negative (int_product dims) then err panicked else ok (grid_coordinates dims)

abbrev pub Expansion : Type 0
Expansion = Result (List ScatterJob × List ℤ)

unfoldable pub same_length : ℕ → List (List Value) → Bool
same_length size [] = true
same_length size (a ∷ arrays) = length a == size && same_length size arrays

module _ (base : Map Value) (keys : List String) (arrays : List (List Value)) where
  -- The jobs with numbers `i`, `i + 1`, …, for `left` rounds.
  unfoldable pub dot_jobs : ℕ → ℕ → Result (List ScatterJob)
  unfolding job_inputs
  dot_jobs zero i = ok []
  dot_jobs (suc left) i = do
    inputs ← job_inputs base keys arrays (replicate (length keys) i)
    rest ← dot_jobs left (i + 1)
    ok (record { inputs = inputs; index = pos i ∷ [] } ∷ rest)

  unfoldable pub flat_jobs : ℕ → List (List ℕ) → Result (List ScatterJob)
  unfolding job_inputs
  flat_jobs i [] = ok []
  flat_jobs i (coords ∷ grid) = do
    inputs ← job_inputs base keys arrays coords
    rest ← flat_jobs (i + 1) grid
    ok (record { inputs = inputs; index = pos i ∷ [] } ∷ rest)

  unfoldable pub nested_jobs : List (List ℕ) → Result (List ScatterJob)
  unfolding job_inputs
  nested_jobs [] = ok []
  nested_jobs (coords ∷ grid) = do
    inputs ← job_inputs base keys arrays coords
    rest ← nested_jobs grid
    ok (record { inputs = inputs; index = map pos coords } ∷ rest)

-- `arrays[0]` exists: `ExpandScatter` refuses an empty list of keys.
unfoldable pub dotproduct : Map Value → List String → List (List Value) → Expansion
unfolding dot_jobs same_length
dotproduct base keys [] = ok ([], pos 0 ∷ [])
dotproduct base keys (a ∷ arrays) =
    if same_length (length a) arrays
    then (do jobs ← dot_jobs base keys (a ∷ arrays) (length a) 0; ok (jobs, pos (length a) ∷ []))
    else err dotproduct_length

unfoldable pub flat_crossproduct : Map Value → List String → List (List Value) → Expansion
unfolding flat_jobs make_grid
flat_crossproduct base keys arrays = do
  grid ← make_grid (dimensions arrays)
  jobs ← flat_jobs base keys arrays 0 grid
  ok (jobs, pos (length grid) ∷ [])

unfoldable pub nested_crossproduct : Map Value → List String → List (List Value) → Expansion
unfolding nested_jobs make_grid
nested_crossproduct base keys arrays = do
  grid ← make_grid (dimensions arrays)
  jobs ← nested_jobs base keys arrays grid
  ok (jobs, map pos (dimensions arrays))

unfoldable pub expander_for :
    ScatterMethod → Result (Map Value → List String → List (List Value) → Expansion)
unfolding dotproduct flat_crossproduct nested_crossproduct
expander_for dot = ok dotproduct
expander_for flat_cross = ok flat_crossproduct
expander_for nested_cross = ok nested_crossproduct
expander_for (other _) = err unknown_scatter_method

abbrev pub scatter_array : Option Value → Result (List Value)
scatter_array none = err scatter_input_missing
scatter_array (some v) = elim (as_array v) [ some a ↦ ok a | none ↦ err scatter_input_not_array ]

unfoldable pub scatter_arrays : Map Value → List String → List String → Result (List (List Value))
unfolding lookup contains
scatter_arrays base seen [] = ok []
scatter_arrays base seen (key ∷ keys) =
    let rest = scatter_arrays base (key ∷ seen) keys in
    if contains seen key
    then err duplicate_scatter_key
    else (do a ← scatter_array (lookup key base); r ← rest; ok (a ∷ r))

-- slices.Index(dims, 0)
unfoldable pub first_zero : List ℕ → Option ℕ
first_zero [] = none
first_zero (n ∷ ns) =
    if n == 0 then some 0 else elim (first_zero ns) [ some i ↦ some (suc i) | none ↦ none ]

unfoldable pub empty_shape : List ℕ → ℕ → ScatterMethod → List ℤ
empty_shape dims empty nested_cross = map pos (take (suc empty) dims)
empty_shape dims empty _ = pos 0 ∷ []

abbrev pub is_nil : List String → Bool
is_nil [] = true
is_nil (_ ∷ _) = false

-- The rest of `ExpandScatter`, once the arrays are known, by the first dimension that is zero.
unfoldable pub expand_arrays :
    (Map Value → List String → List (List Value) → Expansion)
    → Map Value
    → List String
    → ScatterMethod
    → List (List Value)
    → Option ℕ
    → Result ScatterPlan
unfolding empty_shape
expand_arrays expand base keys method arrays (some empty) = ok (record {
  method = method;
  keys = keys;
  jobs = [];
  dims = empty_shape (dimensions arrays) empty method;
})
expand_arrays expand base keys method arrays none = do
  (jobs, shape) ← expand base keys arrays
  ok (record { method = method; keys = keys; jobs = jobs; dims = shape })

unfoldable pub expand_scatter : Map Value → List String → ScatterMethod → Result ScatterPlan
unfolding expander_for scatter_arrays expand_arrays first_zero
expand_scatter base keys method = do
  expand ← expander_for method
  (if is_nil keys then err no_scatter_keys else (do
    arrays ← scatter_arrays base [] keys
    expand_arrays expand base keys method arrays (first_zero (dimensions arrays))))
