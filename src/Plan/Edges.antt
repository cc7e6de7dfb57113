-- ===== src/Plan/Edges.antt =====
-- pkg/cwlexec/plan.go: the dependencies of the steps, from the sources of their inputs. A plan is
-- the part of a `Runner` that the planning fills in.
use cwl_go.Prelude.{
  String, ◌||◌, Option, none, some, List, [], ◌∷◌, ◌++◌, str_eq, if◌then◌else◌, contains, Result,
  err, ok, ◌>>=◌, unknown_source,
}
use cwl_go.Run.Types.{StepInput, PlannedStep, SourceRef}

abbrev pub SourceMap : Type 0
SourceMap = String → Option SourceRef

-- `if ref.Step != "" && !slices.Contains(deps, ref.Step)`
abbrev pub add_dep : List String → SourceRef → List String
add_dep deps ref =
    if str_eq ref.step "" || contains deps ref.step then deps else deps ++ (ref.step ∷ [])

abbrev pub add_known : List String → Option SourceRef → Result (List String)
add_known deps none = err unknown_source
add_known deps (some ref) = ok (add_dep deps ref)

-- The inner loop of `resolveStepEdges`, over the sources of an input.
unfoldable pub resolve_sources : SourceMap → List String → List String → Result (List String)
unfolding contains
resolve_sources known [] deps = ok deps
resolve_sources known (source ∷ sources) deps =
    add_known deps (known source) >>= λ more. resolve_sources known sources more

-- The outer loop, over the inputs of the step.
unfoldable pub resolve_in : SourceMap → List StepInput → List String → Result (List String)
unfolding resolve_sources
resolve_in known [] deps = ok deps
resolve_in known (i ∷ ins) deps =
    resolve_sources known i.sources deps >>= λ more. resolve_in known ins more

unfoldable pub resolve_step_edges : SourceMap → PlannedStep → Result PlannedStep
unfolding resolve_in
resolve_step_edges known step =
    resolve_in known step.ins [] >>= λ deps. ok (record step { deps = deps })

unfoldable pub resolve_steps : SourceMap → List PlannedStep → Result (List PlannedStep)
unfolding resolve_step_edges
resolve_steps known [] = ok []
resolve_steps known (step ∷ steps) = resolve_step_edges known step >>= λ planned.
    resolve_steps known steps >>= λ rest. ok (planned ∷ rest)
