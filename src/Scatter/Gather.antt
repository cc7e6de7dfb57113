-- ===== src/Scatter/Gather.antt =====
-- `Gather` on a plan whose jobs stand in row-major order.
use native.Mathlib.Nat.{zero-add}
use mathlib.Core.Path.{subst}
use cwl_go.Prelude.{
  ℕ, suc, ◌+◌, String, ◌≡◌, refl, sym, ap, ◌∙◌, ◌≢◌, true, false, none, some, List, [], ◌∷◌, map,
  reverse, arith, eq_iff, if◌then◌else◌, length, get_elem?, replicate, length-replicate,
  get_elem?-lt, length-map, Map, lookup, insert, lookup-insert, contains, ok,
}
use cwl_go.Prelude.Int.{pos, pos_part}
use cwl_go.Value.{Value, null, array, at_key}
use cwl_go.Scatter.Jobs.{ScatterJob, ScatterPlan, rounds, shape_size}
use cwl_go.Scatter.Ints.{product, FitsInt, FitInts, rounds-product}
use cwl_go.Scatter.Assembly.{
  JobOutputs, job_outputs, fill, gather_port, gather_ports, gather, validate_output_keys,
  validate_shape, check_bounds, validate_coordinates,
}
use cwl_go.Scatter.Offset.{InBounds, FitInts-whole}
use cwl_go.Scatter.Nest.{dig, dig-nest}
use cwl_go.Scatter.Placed.{
  IsPlaced, ArePlaced, OnlyLastZero, IsRowMajor, FitsPlan, AddressJobs, ArePlaced-elem,
  map-pos_part, fill-elem,
}

-- What `Gather` promises of one port's array: at each job's coordinates, the job's output.
pub record IsGathered (p : ScatterPlan) (outputs : JobOutputs) (port : String) (v : Value)
    : Type 0 where
  pub at_job :
      (n : ℕ) (job : ScatterJob)
      → get_elem? p.jobs n ≡ some job
      → dig (map pos_part job.index) v ≡ some (at_key (job_outputs outputs n) port)

shape_size-rounds : (ns : List ℕ) → ns ≢ [] → FitsInt ns → rounds (shape_size ns) ≡ product ns
unfolding shape_size
shape_size-rounds [] h small = absurd (h refl)
shape_size-rounds (n ∷ ns) h small = rounds-product (n ∷ ns) small

gather_port-IsGathered :
    (p : ScatterPlan) (outputs : JobOutputs) (port : String)
    → IsRowMajor p
    → FitsPlan p
    → IsGathered p outputs port (array (gather_port p outputs port))
unfolding gather_port
gather_port-IsGathered p outputs port h small = record {
  at_job = λ n job e.
      let placed : IsPlaced h.sizes n job =
        rw zero-add at (ArePlaced-elem h.sizes 0 p.jobs n h.placed e) in
      let sizes_eq : map pos_part p.dims ≡ h.sizes =
        ap (map pos_part) h.shape ∙ map-pos_part h.sizes in
      let fits : FitInts (reverse h.sizes) = subst (λ ds. FitInts (reverse ds)) sizes_eq small in
      let index_eq : map pos_part job.index ≡ placed.coords =
        ap (map pos_part) placed.index ∙ map-pos_part placed.coords in
      let blank = replicate (rounds (shape_size h.sizes)) null in
      let flat = fill h.sizes outputs port 0 p.jobs blank in
      let filled : get_elem? flat n ≡ some (at_key (job_outputs outputs n) port) = rw zero-add at (
        fill-elem h.sizes outputs port 0 p.jobs blank n h.placed (get_elem?-lt p.jobs n e) (
          omega (
            arith,
            h.count,
            shape_size-rounds h.sizes h.nested (FitInts-whole h.sizes fits),
            length-replicate (rounds (shape_size h.sizes)) null,
          ))) in
      rw (sizes_eq, index_eq)
        (dig-nest h.sizes placed.coords flat h.nested fits placed.in_bounds
          ∙ ap (get_elem? flat) placed.offset
          ∙ filled);
}

validate_output_keys-ok :
    (n : ℕ) (outputs : JobOutputs) → AddressJobs n outputs → validate_output_keys n outputs ≡ ok tt
unfolding validate_output_keys
validate_output_keys-ok n [] h = refl
validate_output_keys-ok n ((i, m) ∷ rest) h = rw h.0 (validate_output_keys-ok n rest h.1)

validate_shape-ok : (sizes : List ℕ) → OnlyLastZero sizes → validate_shape (map pos sizes) ≡ ok tt
unfolding validate_shape
validate_shape-ok [] h = refl
validate_shape-ok (n ∷ []) h = refl
validate_shape-ok (n ∷ m ∷ ns) h = ground (arith, validate_shape-ok (m ∷ ns) h.1)

check_bounds-ok : (cs ds : List ℕ) → InBounds cs ds → check_bounds (map pos cs) (map pos ds) ≡ ok tt
unfolding check_bounds
check_bounds-ok [] [] h = refl
check_bounds-ok [] (d ∷ ds) h = absurd h
check_bounds-ok (c ∷ cs) [] h = absurd h
check_bounds-ok (c ∷ cs) (d ∷ ds) h = ground (arith, check_bounds-ok cs ds h.1)

length-InBounds : (cs ds : List ℕ) → InBounds cs ds → length cs ≡ length ds
length-InBounds [] [] h = refl
length-InBounds [] (d ∷ ds) h = absurd h
length-InBounds (c ∷ cs) [] h = absurd h
length-InBounds (c ∷ cs) (d ∷ ds) h = ap suc (length-InBounds cs ds h.1)

validate_coordinates-ok :
    (sizes : List ℕ) (i : ℕ) (jobs : List ScatterJob)
    → ArePlaced sizes i jobs
    → validate_coordinates (map pos sizes) jobs ≡ ok tt
unfolding validate_coordinates
validate_coordinates-ok sizes i [] h = refl
validate_coordinates-ok sizes i (job ∷ jobs) h =
    let c = (h.0).coords in
    let rest = validate_coordinates-ok sizes (i + 1) jobs h.1 in
    let bounds = check_bounds-ok c sizes (h.0).in_bounds in
    let same : length job.index ≡ length (map pos sizes) =
      ap length (h.0).index
      ∙ length-map pos c
      ∙ length-InBounds c sizes (h.0).in_bounds
      ∙ sym (length-map pos sizes) in
    ground (arith, same, bounds, rest, ap (λ t. check_bounds t (map pos sizes)) (h.0).index)

lookup-gather_ports :
    (p : ScatterPlan) (outputs : JobOutputs) (ports : List String) (m : Map Value) (port : String)
    → lookup port (gather_ports p outputs ports m)
      ≡ (if contains ports port then some (array (gather_port p outputs port)) else lookup port m)
unfolding gather_ports contains
lookup-gather_ports p outputs [] m port = refl
lookup-gather_ports p outputs (x ∷ ports) m port =
    let a = array (gather_port p outputs x) in
    ground (
      arith,
      eq_iff x port,
      lookup-insert x port a m,
      lookup-gather_ports p outputs ports (insert x a m) port,
    )

pub gather-eq-ports :
    (p : ScatterPlan) (outputs : JobOutputs) (declared : List String)
    → IsRowMajor p
    → AddressJobs (length p.jobs) outputs
    → gather p outputs declared ≡ ok (gather_ports p outputs declared [])
unfolding gather
gather-eq-ports p outputs declared h a =
    let keys = validate_output_keys-ok (length p.jobs) outputs a in
    let shape : validate_shape p.dims ≡ ok tt =
      ap validate_shape h.shape ∙ validate_shape-ok h.sizes h.lengths in
    let coords : validate_coordinates p.dims p.jobs ≡ ok tt =
      ap (λ t. validate_coordinates t p.jobs) h.shape
      ∙ validate_coordinates-ok h.sizes 0 p.jobs h.placed in
    rw (keys, shape, coords) refl

-- `gathered` has exactly the declared ports, and each holds the jobs' outputs at their coordinates.
pub record IsAssembled (p : ScatterPlan) (outputs : JobOutputs) (declared : List String)
    (gathered : Map Value) : Type 0 where
  pub declared_port :
      (port : String)
      → contains declared port ≡ true
      → (v : Value) × (lookup port gathered ≡ some v) × IsGathered p outputs port v
  pub other_port : (port : String) → contains declared port ≡ false → lookup port gathered ≡ none

gather_ports-IsAssembled :
    (p : ScatterPlan) (outputs : JobOutputs) (declared : List String)
    → IsRowMajor p
    → FitsPlan p
    → IsAssembled p outputs declared (gather_ports p outputs declared [])
unfolding lookup
gather_ports-IsAssembled p outputs declared h small = record {
  declared_port = λ port e. (
    array (gather_port p outputs port),
    rw e at (lookup-gather_ports p outputs declared [] port),
    gather_port-IsGathered p outputs port h small,
  );
  other_port = λ port e. rw e at (lookup-gather_ports p outputs declared [] port);
}

-- Gathering a row-major plan whose dimensions fit an int with outputs of its own jobs succeeds, and every declared port holds
-- at each job's coordinates that job's output. There is no other port.
pub gather-IsAssembled :
    (p : ScatterPlan) (outputs : JobOutputs) (declared : List String)
    → IsRowMajor p
    → FitsPlan p
    → AddressJobs (length p.jobs) outputs
    → (gathered : Map Value) × (gather p outputs declared ≡ ok gathered)
      × IsAssembled p outputs declared gathered
gather-IsAssembled p outputs declared h small a = (
  gather_ports p outputs declared [],
  gather-eq-ports p outputs declared h a,
  gather_ports-IsAssembled p outputs declared h small,
)
