-- ===== src/Scatter/Assembly.antt =====
-- pkg/cwlexec/scatter.go, `ScatterPlan.Gather`: the outputs of the sub-jobs as nested arrays.
use cwl_go.Prelude.{
  ℕ, zero, suc, ◌+◌, ◌*◌, String, Bool, false, List, [], ◌∷◌, map, reverse, ltb, ◌==◌,
  if◌then◌else◌, length, set, take, drop, replicate, Map, lookup, insert, Result, ok, err, ◌>>◌,
  scatter_output_index, scatter_shape,
}
use cwl_go.Prelude.Int.{ℤ, pos, negsuc, pos_part}
use cwl_go.Value.{Value, null, array, at_key}
use cwl_go.Scatter.Jobs.{ScatterJob, ScatterPlan, rounds, shape_size}

-- The outputs of the sub-jobs, by job number. A missing number reads as a nil map.
abbrev pub JobOutputs : Type 0
JobOutputs = List (ℤ × Map Value)

unfoldable pub job_outputs : JobOutputs → ℕ → Map Value
job_outputs [] i = []
job_outputs ((pos j, m) ∷ rest) i = if j == i then m else job_outputs rest i
job_outputs ((negsuc _, m) ∷ rest) i = job_outputs rest i

abbrev pub in_range : ℕ → ℤ → Bool
in_range n (pos i) = ltb i n
in_range n (negsuc _) = false

unfoldable pub validate_output_keys : ℕ → JobOutputs → Result (Unit {0})
validate_output_keys n [] = ok tt
validate_output_keys n ((i, m) ∷ rest) =
    let more = validate_output_keys n rest in
    if in_range n i then more else err scatter_output_index

-- A length that is negative, or zero anywhere but in the innermost dimension.
unfoldable pub validate_shape : List ℤ → Result (Unit {0})
validate_shape [] = ok tt
validate_shape (negsuc _ ∷ dims) = err scatter_shape
validate_shape (pos n ∷ []) = ok tt
validate_shape (pos n ∷ d ∷ dims) =
    let more = validate_shape (d ∷ dims) in if n == 0 then err scatter_shape else more

unfoldable pub check_bounds : List ℤ → List ℤ → Result (Unit {0})
check_bounds (c ∷ idx) (d ∷ dims) =
    let more = check_bounds idx dims in if in_range (pos_part d) c then more else err scatter_shape
check_bounds _ _ = ok tt

unfoldable pub validate_coordinates : List ℤ → List ScatterJob → Result (Unit {0})
unfolding check_bounds
validate_coordinates dims [] = ok tt
validate_coordinates dims (job ∷ jobs) =
    let more = validate_coordinates dims jobs in
    if length job.index == length dims
    then (check_bounds job.index dims >> more)
    else err scatter_shape

-- The loop of `linearOffset`, from the first dimension. The offset of coordinates that are in bounds
-- is below the product of the dimensions, and does not wrap around where that product does not.
unfoldable pub offset_from : ℕ → List ℕ → List ℕ → ℕ
offset_from offset (c ∷ idx) (d ∷ dims) = offset_from (offset * d + c) idx dims
offset_from offset _ _ = offset

unfoldable pub linear_offset : List ℕ → List ℕ → ℕ
unfolding offset_from
linear_offset idx dims = offset_from 0 idx dims

-- `level[g*width : g*width+width]` for each of `left` groups from number `g`.
unfoldable pub group : ℕ → ℕ → ℕ → List Value → List Value
group zero g width level = []
group (suc left) g width level =
    array (take width (drop (g * width) level)) ∷ group left (g + 1) width level

-- The loop of `nest` over the dimensions from the innermost; it stops at the outermost. That `make`
-- panics for a negative number of groups is left out: there are no rounds then.
unfoldable pub nest_backward : List Value → List ℕ → List Value
unfolding group shape_size
nest_backward level [] = level
nest_backward level (width ∷ []) = level
nest_backward level (width ∷ d ∷ outer) =
    nest_backward (group (rounds (shape_size (reverse (d ∷ outer)))) 0 width level) (d ∷ outer)

unfoldable pub nest : List Value → List ℕ → List Value
unfolding nest_backward
nest flat dims = nest_backward flat (reverse dims)

-- `flat[linearOffset(job.Index, dims)] = outputs[i][port]` for the jobs from number `i`.
unfoldable pub fill : List ℕ → JobOutputs → String → ℕ → List ScatterJob → List Value → List Value
unfolding linear_offset job_outputs lookup
fill dims outputs port i [] flat = flat
fill dims outputs port i (job ∷ jobs) flat =
    fill dims outputs port (i + 1) jobs
      (set flat (linear_offset (map pos_part job.index) dims) (at_key (job_outputs outputs i) port))

unfoldable pub gather_port : ScatterPlan → JobOutputs → String → List Value
unfolding fill nest shape_size
gather_port p outputs port =
    let dims = map pos_part p.dims in
    nest (fill dims outputs port 0 p.jobs (replicate (rounds (shape_size dims)) null)) dims

unfoldable pub gather_ports : ScatterPlan → JobOutputs → List String → Map Value → Map Value
unfolding gather_port insert
gather_ports p outputs [] gathered = gathered
gather_ports p outputs (port ∷ ports) gathered =
    gather_ports p outputs ports (insert port (array (gather_port p outputs port)) gathered)

unfoldable pub gather : ScatterPlan → JobOutputs → List String → Result (Map Value)
unfolding validate_output_keys validate_shape validate_coordinates gather_ports
gather p outputs declared_out = do
  validate_output_keys (length p.jobs) outputs
  validate_shape p.dims
  validate_coordinates p.dims p.jobs
  ok (gather_ports p outputs declared_out [])
