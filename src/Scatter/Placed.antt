-- ===== src/Scatter/Placed.antt =====
-- Jobs whose coordinates stand in row-major order, and the flat array that they fill.
use mathlib.Core.Path.{subst, subst₂}
use mathlib.Core.Option.{some-injective}
use cwl_go.Prelude.{
  ℕ, zero, suc, ◌+◌, ◌≤◌, ◌<◌, String, ◌≡◌, refl, ap, ◌∙◌, ◌≢◌, true, some, List, [], ◌∷◌, map,
  reverse, arith, length, get_elem?, set, length-set, get_elem?-set_self, get_elem?-set_ne,
}
use cwl_go.Prelude.Int.{pos, pos_part}
use cwl_go.Value.{Value, at_key}
use cwl_go.Scatter.Jobs.{ScatterJob, ScatterPlan}
use cwl_go.Scatter.Ints.{product, FitInts}
use cwl_go.Scatter.Assembly.{JobOutputs, job_outputs, in_range, linear_offset, fill}
use cwl_go.Scatter.Offset.{InBounds}

-- The job at number `i` has coordinates in bounds whose offset is `i`.
pub record IsPlaced (sizes : List ℕ) (i : ℕ) (job : ScatterJob) : Type 0 where
  pub coords : List ℕ
  pub index : job.index ≡ map pos coords
  pub in_bounds : InBounds coords sizes
  pub offset : linear_offset coords sizes ≡ i

abbrev pub ArePlaced : List ℕ → ℕ → List ScatterJob → Type 0
ArePlaced sizes i [] = Unit
ArePlaced sizes i (job ∷ jobs) = IsPlaced sizes i job × ArePlaced sizes (i + 1) jobs

-- Every length is positive, but for the innermost.
abbrev pub OnlyLastZero : List ℕ → Type 0
OnlyLastZero [] = Unit
OnlyLastZero (n ∷ []) = Unit
OnlyLastZero (n ∷ m ∷ ns) = (0 < n) × OnlyLastZero (m ∷ ns)

-- The plan's jobs fill its shape in row-major order.
pub record IsRowMajor (p : ScatterPlan) : Type 0 where
  pub sizes : List ℕ
  pub shape : p.dims ≡ map pos sizes
  pub nested : sizes ≢ []
  pub lengths : OnlyLastZero sizes
  pub placed : ArePlaced sizes 0 p.jobs
  pub count : length p.jobs ≡ product sizes

-- No product of the plan's dimensions overflows an int, and none that leaves out inner dimensions.
abbrev pub FitsPlan : ScatterPlan → Type 0
FitsPlan p = FitInts (reverse (map pos_part p.dims))

-- Every recorded job number is one of the plan's.
abbrev pub AddressJobs : ℕ → JobOutputs → Type 0
AddressJobs n [] = Unit
AddressJobs n ((i, m) ∷ rest) = (in_range n i ≡ true) × AddressJobs n rest

pub ArePlaced-elem :
    (sizes : List ℕ) (i : ℕ) (jobs : List ScatterJob) (n : ℕ) {job : ScatterJob}
    → ArePlaced sizes i jobs
    → get_elem? jobs n ≡ some job
    → IsPlaced sizes (i + n) job
ArePlaced-elem sizes i [] n h e = cc
ArePlaced-elem sizes i (j ∷ jobs) zero {job} h e =
    let same : j ≡ job = some-injective _ _ e in
    let start : i ≡ i + 0 = omega arith in subst₂ (λ k t. IsPlaced sizes k t) start same h.0
ArePlaced-elem sizes i (j ∷ jobs) (suc n) {job} h e =
    let shift : i + 1 + n ≡ i + suc n = omega arith in
    subst (λ k. IsPlaced sizes k job) shift (ArePlaced-elem sizes (i + 1) jobs n h.1 e)

pub map-pos_part : (ns : List ℕ) → map pos_part (map pos ns) ≡ ns
map-pos_part [] = refl
map-pos_part (n ∷ ns) = ap (λ (t : List ℕ). n ∷ t) (map-pos_part ns)

IsPlaced-offset :
    {sizes : List ℕ} {i : ℕ} {job : ScatterJob}
    → IsPlaced sizes i job
    → linear_offset (map pos_part job.index) sizes ≡ i
IsPlaced-offset {sizes} h =
    ap (λ t. linear_offset (map pos_part t) sizes) h.index
    ∙ ap (λ t. linear_offset t sizes) (map-pos_part h.coords)
    ∙ h.offset

module _ (sizes : List ℕ) (outputs : JobOutputs) (port : String) where
  -- Slots below the first job's number keep their values.
  fill-before :
      (i : ℕ) (jobs : List ScatterJob) (flat : List Value) (k : ℕ)
      → ArePlaced sizes i jobs
      → k < i
      → get_elem? (fill sizes outputs port i jobs flat) k ≡ get_elem? flat k
  unfolding fill
  fill-before i [] flat k h lt = refl
  fill-before i (job ∷ jobs) flat k h lt =
      fill-before (i + 1) jobs _ k h.1 (omega arith)
      ∙ get_elem?-set_ne flat _ (omega (arith, IsPlaced-offset h.0))

  pub fill-elem :
      (i : ℕ) (jobs : List ScatterJob) (flat : List Value) (n : ℕ)
      → ArePlaced sizes i jobs
      → n < length jobs
      → i + length jobs ≤ length flat
      → get_elem? (fill sizes outputs port i jobs flat) (i + n)
        ≡ some (at_key (job_outputs outputs (i + n)) port)
  unfolding fill
  fill-elem i [] flat n h lt room = absurd (omega arith)
  fill-elem i (job ∷ jobs) flat zero h lt room =
      let here : i + 0 ≡ i = omega arith in
      let off = IsPlaced-offset h.0 in
      rw (here, off)
        (fill-before (i + 1) jobs _ i h.1 (omega arith) ∙ get_elem?-set_self flat i _ (omega arith))
  fill-elem i (job ∷ jobs) flat (suc n) h lt room =
      let v = at_key (job_outputs outputs i) port in
      let off = linear_offset (map pos_part job.index) sizes in
      let shift : i + suc n ≡ i + 1 + n = omega arith in
      rw shift (
        fill-elem (i + 1) jobs (set flat off v) n h.1 (omega arith)
          (omega (arith, length-set flat off v)))
