-- ===== src/Plan/Cycles.antt =====
-- pkg/cwlexec/plan.go: `resolveEdges`, and the search for cycles. The code recurses as deep as the
-- steps are chained; the model takes that depth as fuel.
use cwl_go.Prelude.{
  ℕ, zero, suc, String, Option, none, some, List, [], ◌∷◌, Result, err, ok, ◌>>=◌, ◌>>◌,
  unknown_source,
}
use cwl_go.Run.Types.{Sink, PlannedStep, Runner, update}
use cwl_go.Run.Resumed.{by_id}
use cwl_go.Plan.Edges.{SourceMap, resolve_steps}

-- The entries of `mark`: 0, `opened` and `shut`.
pub data Mark : Type 0 where
  unmarked opened shut : Mark

abbrev pub Marks : Type 0
Marks = String → Mark

-- `visit` returns the marks or the error, panics on a step that is nil, or is out of fuel.
pub data Visit : Type 0 where
  visited : Marks → Visit
  cyclic panics out_of_fuel : Visit

abbrev pub then_visit : Visit → (Marks → Visit) → Visit
then_visit (visited marks) go_on = go_on marks
then_visit cyclic go_on = cyclic
then_visit panics go_on = panics
then_visit out_of_fuel go_on = out_of_fuel

-- The loop of `visit` over the dependencies, where `enter` is `visit` itself.
unfoldable pub visit_deps :
    (Marks → PlannedStep → Visit) → (String → Option PlannedStep) → List String → Marks → Visit
visit_deps enter find [] marks = visited marks
visit_deps enter find (dep ∷ deps) marks = elim (find dep) [
  | none ↦ panics
  | some step ↦ then_visit (enter marks step) (visit_deps enter find deps)
]

abbrev pub close : String → Visit → Visit
close id v = then_visit v (λ marks. visited (update marks id shut))

-- What `visit` does on a mark, where `rest` visits the dependencies of an unmarked step.
abbrev pub on_mark : Mark → Marks → Visit → Visit
on_mark shut marks rest = visited marks
on_mark opened marks rest = cyclic
on_mark unmarked marks rest = rest

unfoldable pub visit : ℕ → (String → Option PlannedStep) → Marks → PlannedStep → Visit
unfolding visit_deps
visit zero find marks step = out_of_fuel
visit (suc fuel) find marks step = on_mark (marks step.id) marks (
    close step.id
      (visit_deps (λ m s. visit fuel find m s) find step.deps (update marks step.id opened)))

unfoldable pub visit_steps : ℕ → (String → Option PlannedStep) → List PlannedStep → Marks → Visit
unfolding visit
visit_steps fuel find [] marks = visited marks
visit_steps fuel find (step ∷ steps) marks =
    then_visit (visit fuel find marks step) (visit_steps fuel find steps)

-- `checkAcyclic`
unfoldable pub check_acyclic : ℕ → List PlannedStep → Visit
unfolding visit_steps by_id
check_acyclic fuel steps = visit_steps fuel (by_id steps) steps (λ id. unmarked)

-- The loops of `resolveEdges` over the outputs and their sources.
unfoldable pub known_sources : SourceMap → List String → Result (Unit {0})
known_sources known [] = ok tt
known_sources known (source ∷ sources) = elim (known source) [
  | none ↦ err unknown_source
  | some ref ↦ known_sources known sources
]

unfoldable pub check_outputs : SourceMap → List (String × Sink) → Result (Unit {0})
unfolding known_sources
check_outputs known [] = ok tt
check_outputs known ((name, wiring) ∷ outputs) =
    known_sources known wiring.sources >> check_outputs known outputs

-- The planned steps, and what the search for cycles returns.
unfoldable pub resolve_edges : ℕ → Runner → Result (List PlannedStep × Visit)
unfolding resolve_steps check_outputs check_acyclic
resolve_edges fuel r = resolve_steps r.sources r.steps >>= λ steps.
    check_outputs r.sources r.outputs >> ok (steps, check_acyclic fuel steps)
