-- ===== src/Scatter/Shapes.antt =====
-- The shapes that `ExpandScatter` gives, and the jobs that it makes for them.
use mathlib.Core.List.{cons≢nil}
use cwl_go.Prelude.{
  ℕ, zero, suc, ◌+◌, ◌<◌, String, ◌≡◌, refl, ap, ◌≢◌, ◌⊎◌, inl, inr, none, some, List, [], ◌∷◌,
  arith, ◌==◌, Bool-cases, Option-cases, length, get_elem?, take, Map, map, Result, ok, err, ◌>>=◌,
  OnOk, replicate,
}
use cwl_go.Prelude.Int.{ℤ, pos}
use cwl_go.Value.{Value}
use cwl_go.Scatter.Jobs.{ScatterJob, job_inputs, dot_jobs, flat_jobs, nested_jobs, first_zero}
use cwl_go.Scatter.Assembly.{linear_offset, offset_from}
use cwl_go.Scatter.Offset.{InBounds}
use cwl_go.Scatter.Ints.{product}
use cwl_go.Scatter.Placed.{IsPlaced, ArePlaced, OnlyLastZero}

abbrev pub AllPositive : List ℕ → Type 0
AllPositive [] = Unit
AllPositive (n ∷ ns) = (0 < n) × AllPositive ns

pub first_zero-none : (ns : List ℕ) → first_zero ns ≡ none → AllPositive ns
unfolding first_zero
first_zero-none [] h = tt
first_zero-none (n ∷ ns) h = ground (arith, first_zero-none ns)

pub AllPositive-OnlyLastZero : (ns : List ℕ) → AllPositive ns → OnlyLastZero ns
AllPositive-OnlyLastZero [] h = tt
AllPositive-OnlyLastZero (n ∷ []) h = tt
AllPositive-OnlyLastZero (n ∷ m ∷ ns) h = (h.0, AllPositive-OnlyLastZero (m ∷ ns) h.1)

OnlyLastZero-cons : (n : ℕ) (ns : List ℕ) → 0 < n → OnlyLastZero ns → OnlyLastZero (n ∷ ns)
OnlyLastZero-cons n [] h k = tt
OnlyLastZero-cons n (m ∷ ns) h k = (h, k)

abbrev pub EmptyNest : List ℕ → Type 0
EmptyNest ns = OnlyLastZero ns × (product ns ≡ 0) × (ns ≢ [])

EmptyNest-cons : (n : ℕ) (ns : List ℕ) → 0 < n → EmptyNest ns → EmptyNest (n ∷ ns)
EmptyNest-cons n ns h (lengths, size, nested) =
    (OnlyLastZero-cons n ns h lengths, rw size (omega arith), cons≢nil)

first_zero-cons :
    (n : ℕ) (ns : List ℕ) (i : ℕ)
    → first_zero (n ∷ ns) ≡ some i
    → (n ≡ 0) × (i ≡ 0) ⊎ (0 < n) × ((j : ℕ) × (i ≡ suc j) × (first_zero ns ≡ some j))
unfolding first_zero
first_zero-cons n ns i h = elim (Bool-cases (n == 0)) [
  | inl e ↦ inl (ground arith)
  | inr e ↦ elim (Option-cases (first_zero ns)) [
    | inl missing ↦ ground arith
    | inr (j, found) ↦ inr (ground arith, (j, ground arith, found))
  ]
]

first_zero-nil : first_zero [] ≡ none
unfolding first_zero
first_zero-nil = refl

-- The shape of an empty nested plan: the dimensions up to the first that is zero.
pub first_zero-take : (ns : List ℕ) (i : ℕ) → first_zero ns ≡ some i → EmptyNest (take (suc i) ns)
first_zero-take [] i h = cc first_zero-nil
first_zero-take (n ∷ ns) i h = elim (first_zero-cons n ns i h) [
  | inl (zero_n, zero_i) ↦ rw (zero_n, zero_i) (tt, refl, cons≢nil)
  | inr (some_n, (j, next, found)) ↦
      rw next (EmptyNest-cons n (take (suc j) ns) some_n (first_zero-take ns j found))
]

singleton-IsPlaced :
    (size i : ℕ) (m : Map Value)
    → i < size
    → IsPlaced (size ∷ []) i (record { inputs = m; index = pos i ∷ [] })
unfolding linear_offset offset_from
singleton-IsPlaced size i m h = record {
  coords = i ∷ [];
  index = refl;
  in_bounds = (h, tt);
  offset = omega arith;
}

-- Jobs that stand from number `i`, and how many they are.
abbrev pub Stand : List ℕ → ℕ → ℕ → List ScatterJob → Type 0
Stand sizes i n jobs = ArePlaced sizes i jobs × (length jobs ≡ n)

-- One more job in front.
Stand-cons :
    (sizes : List ℕ) (i n : ℕ) (inputs : Result (Map Value)) (index : List ℤ)
    (rest : Result (List ScatterJob))
    → ((m : Map Value) → IsPlaced sizes i (record { inputs = m; index = index }))
    → OnOk (Stand sizes (i + 1) n) rest
    → OnOk
        (Stand sizes i (suc n))
        (do m ← inputs; jobs ← rest; ok (record { inputs = m; index = index } ∷ jobs))
Stand-cons sizes i n (err _) index rest own later = tt
Stand-cons sizes i n (ok m) index (err _) own later = tt
Stand-cons sizes i n (ok m) index (ok jobs) own later = ((own m, later.0), ap suc later.1)

module _ (base : Map Value) (keys : List String) (arrays : List (List Value)) where
  pub dot_jobs-Stand :
      (size left i : ℕ)
      → i + left ≡ size
      → OnOk (Stand (size ∷ []) i left) (dot_jobs base keys arrays left i)
  unfolding dot_jobs
  dot_jobs-Stand size zero i h = (tt, refl)
  dot_jobs-Stand size (suc left) i h =
      Stand-cons (size ∷ []) i left (job_inputs base keys arrays (replicate (length keys) i))
        (pos i ∷ []) (dot_jobs base keys arrays left (i + 1))
        (λ m. singleton-IsPlaced size i m (omega (arith, h)))
        (dot_jobs-Stand size left (i + 1) (omega (arith, h)))

  pub flat_jobs-Stand :
      (size i : ℕ) (grid : List (List ℕ))
      → i + length grid ≡ size
      → OnOk (Stand (size ∷ []) i (length grid)) (flat_jobs base keys arrays i grid)
  unfolding flat_jobs
  flat_jobs-Stand size i [] h = (tt, refl)
  flat_jobs-Stand size i (coords ∷ grid) h =
      Stand-cons (size ∷ []) i (length grid) (job_inputs base keys arrays coords) (pos i ∷ [])
        (flat_jobs base keys arrays (i + 1) grid)
        (λ m. singleton-IsPlaced size i m (omega (arith, h)))
        (flat_jobs-Stand size (i + 1) grid (omega (arith, h)))

  pub nested_jobs-Stand :
      (sizes : List ℕ) (i : ℕ) (grid : List (List ℕ))
      → ((n : ℕ) (coords : List ℕ)
          → get_elem? grid n ≡ some coords
          → InBounds coords sizes × (linear_offset coords sizes ≡ i + n))
      → OnOk (Stand sizes i (length grid)) (nested_jobs base keys arrays grid)
  unfolding nested_jobs
  nested_jobs-Stand sizes i [] h = (tt, refl)
  nested_jobs-Stand sizes i (coords ∷ grid) h =
      let (bounded, at) = h 0 coords refl in
      Stand-cons sizes i (length grid) (job_inputs base keys arrays coords) (map pos coords)
        (nested_jobs base keys arrays grid)
        (λ m. record {
          coords = coords;
          index = refl;
          in_bounds = bounded;
          offset = omega (arith, at);
        })
        (nested_jobs-Stand sizes (i + 1) grid
          λ n c e. let (b, o) = h (suc n) c e in (b, omega (arith, o)))
