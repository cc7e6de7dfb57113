-- ===== src/Plan/Wired.antt =====
-- pkg/cwlexec/plan.go: a planned step depends on the steps that its inputs read.
use cwl_go.Prelude.{
  String, ◌≡◌, refl, ◌⊎◌, inl, inr, true, ◌||◌, Option, none, some, List, [], ◌∷◌, ◌++◌, arith,
  str_eq, eq_iff, if-elim, contains, Bool-cases, All, Among, Result, err, ok, ◌>>=◌, OnOk,
  OnOk-bind, OnOk-elim,
}
use cwl_go.Run.Types.{StepInput, PlannedStep, SourceRef, Runner, Loop}
use cwl_go.Run.Loop.{ready, source_value}
use cwl_go.Run.Sourced.{IsSourced, AreRead, read_sources-ready}
use cwl_go.Plan.Edges.{add_dep, add_known, resolve_sources, resolve_in, resolve_step_edges}

module _ {A : Type 0} where
  Among-left : (a : A) (xs ys : List A) → Among a xs → Among a (xs ++ ys)
  Among-left a [] ys h = absurd h
  Among-left a (x ∷ xs) ys (inl same) = inl same
  Among-left a (x ∷ xs) ys (inr later) = inr (Among-left a xs ys later)

  Among-last : (a : A) (xs : List A) → Among a (xs ++ (a ∷ []))
  Among-last a [] = inl refl
  Among-last a (x ∷ xs) = inr (Among-last a xs)

contains-Among : (xs : List String) (s : String) → contains xs s ≡ true → Among s xs
unfolding contains
contains-Among [] s h = cc
contains-Among (x ∷ xs) s h = elim (Bool-cases (str_eq x s)) [
  | inl same ↦ inl ((eq_iff x s).0 same)
  | inr other ↦ inr (contains-Among xs s (ground arith))
]

module _ (r : Runner) where
  -- More dependencies leave a source as it is.
  IsSourced-more :
      (deps more : List String) (source : String)
      → ((d : String) → Among d deps → Among d more)
      → IsSourced r deps source
      → IsSourced r more source
  IsSourced-more deps more source grow i = record {
    ref = i.ref;
    known = i.known;
    behind = elim i.behind [ inl input ↦ inl input | inr among ↦ inr (grow _ among) ];
  }

  -- The dependencies that a loop returns keep the ones before, and cover the sources that it read.
  record Covers (sources deps more : List String) : Type 0 where
    kept : (d : String) → Among d deps → Among d more
    sourced : All (IsSourced r more) sources

  add_dep-kept :
      (deps : List String) (ref : SourceRef) (d : String)
      → Among d deps
      → Among d (add_dep deps ref)
  add_dep-kept deps ref d h =
      if-elim (Among d) (str_eq ref.step "" || contains deps ref.step) deps
        (deps ++ (ref.step ∷ [])) (λ _. h) (λ _. Among-left d deps (ref.step ∷ []) h)

  add_dep-IsSourced :
      (deps : List String) (ref : SourceRef) (source : String)
      → r.sources source ≡ some ref
      → IsSourced r (add_dep deps ref) source
  add_dep-IsSourced deps ref source e = record {
    ref = ref;
    known = e;
    behind =
        if-elim (λ (t : List String). (str_eq ref.step "" ≡ true) ⊎ Among ref.step t)
          (str_eq ref.step "" || contains deps ref.step) deps (deps ++ (ref.step ∷ []))
          (λ h. elim (Bool-cases (str_eq ref.step "")) [
            | inl input ↦ inl input
            | inr step ↦ inr (contains-Among deps ref.step (ground arith))
          ])
          (λ _. inr (Among-last ref.step deps));
  }

  All-more :
      (deps more sources : List String)
      → ((d : String) → Among d deps → Among d more)
      → All (IsSourced r deps) sources
      → All (IsSourced r more) sources
  All-more deps more [] grow h = tt
  All-more deps more (source ∷ sources) grow (own, h) =
      (IsSourced-more deps more source grow own, All-more deps more sources grow h)

  resolve_sources-Covers :
      (sources deps : List String)
      → OnOk (Covers sources deps) (resolve_sources r.sources sources deps)
  unfolding resolve_sources
  resolve_sources-Covers [] deps = record { kept = λ d h. h; sourced = tt }
  resolve_sources-Covers (source ∷ sources) deps =
      by_source (r.sources source) refl (λ more. resolve_sources-Covers sources more)
    where
      by_source :
          (ref : Option SourceRef)
          → r.sources source ≡ ref
          → ((more : List String)
              → OnOk (Covers sources more) (resolve_sources r.sources sources more))
          → OnOk
              (Covers (source ∷ sources) deps)
              (add_known deps ref >>= λ more. resolve_sources r.sources sources more)
      by_source none e rest = tt
      by_source (some ref) e rest =
          extend (resolve_sources r.sources sources (add_dep deps ref)) (rest (add_dep deps ref))
        where
          extend :
              (x : Result (List String))
              → OnOk (Covers sources (add_dep deps ref)) x
              → OnOk (Covers (source ∷ sources) deps) x
          extend (err e2) h = tt
          extend (ok more) h = record {
            kept = λ d among. h.kept d (add_dep-kept deps ref d among);
            sourced = (
              IsSourced-more (add_dep deps ref) more source h.kept
                  (add_dep-IsSourced deps ref source e),
              h.sourced,
            );
          }

  -- Every source of every input is an input of the run or an output of a dependency.
  abbrev pub AreWired : List String → List StepInput → Type 0
  AreWired deps = All (λ i. All (IsSourced r deps) i.sources)

  -- The dependencies that the outer loop returns keep the ones before, and cover the inputs.
  record CoversIns (ins : List StepInput) (deps more : List String) : Type 0 where
    kept : (d : String) → Among d deps → Among d more
    wired : AreWired more ins

  one_input :
      (i : StepInput) (ins : List StepInput) (deps : List String) (x : Result (List String))
      → OnOk (Covers i.sources deps) x
      → ((more : List String) → OnOk (CoversIns ins more) (resolve_in r.sources ins more))
      → OnOk (CoversIns (i ∷ ins) deps) (x >>= λ more. resolve_in r.sources ins more)
  one_input i ins deps (err e) h rest = tt
  one_input i ins deps (ok more) h rest = extend (resolve_in r.sources ins more) (rest more)
    where
      extend :
          (y : Result (List String))
          → OnOk (CoversIns ins more) y
          → OnOk (CoversIns (i ∷ ins) deps) y
      extend (err e) k = tt
      extend (ok most) k = record {
        kept = λ d among. k.kept d (h.kept d among);
        wired = (All-more more most i.sources k.kept h.sourced, k.wired);
      }

  resolve_in-CoversIns :
      (ins : List StepInput) (deps : List String)
      → OnOk (CoversIns ins deps) (resolve_in r.sources ins deps)
  unfolding resolve_in
  resolve_in-CoversIns [] deps = record { kept = λ d h. h; wired = tt }
  resolve_in-CoversIns (i ∷ ins) deps =
      one_input i ins deps (resolve_sources r.sources i.sources deps)
        (resolve_sources-Covers i.sources deps) (λ more. resolve_in-CoversIns ins more)

  -- The step with its dependencies.
  pub record IsWired (step planned : PlannedStep) : Type 0 where
    pub same_id : planned.id ≡ step.id
    pub same_ins : planned.ins ≡ step.ins
    pub wired : AreWired planned.deps planned.ins

  resolve_step_edges-IsWired :
      (step : PlannedStep) → OnOk (IsWired step) (resolve_step_edges r.sources step)
  unfolding resolve_step_edges
  resolve_step_edges-IsWired step =
      OnOk-bind (IsWired step) (resolve_in r.sources step.ins []) _ (λ deps e. record {
        same_id = refl;
        same_ins = refl;
        wired = (OnOk-elim (CoversIns step.ins []) (resolve_in-CoversIns step.ins []) e).wired;
      })

  All-AreRead :
      (l : Loop) (deps : List String) (ins : List StepInput)
      → ready l deps ≡ true
      → AreWired deps ins
      → All (λ i. AreRead (source_value r l) i.sources) ins
  All-AreRead l deps [] h wired = tt
  All-AreRead l deps (i ∷ ins) h (own, wired) =
      (read_sources-ready r l deps i.sources h own, All-AreRead l deps ins h wired)

  -- Where resolveStepEdges has planned a step, and in a state of the run all dependencies that it
  -- recorded have succeeded or were skipped, the sources of each input of the step can be read,
  -- with one value for each.
  pub resolve_step_edges-AreRead :
      (step planned : PlannedStep) (l : Loop)
      → resolve_step_edges r.sources step ≡ ok planned
      → ready l planned.deps ≡ true
      → All (λ i. AreRead (source_value r l) i.sources) planned.ins
  resolve_step_edges-AreRead step planned l e h =
      All-AreRead l planned.deps planned.ins h
        (OnOk-elim (IsWired step) (resolve_step_edges-IsWired step) e).wired
