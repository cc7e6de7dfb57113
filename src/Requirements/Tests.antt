-- ===== src/Requirements/Tests.antt =====
-- A workflow that asks for scattering, and a tool inside it.
use cwl_go.Prelude.{ℕ, ◌≤◌, ◌≡◌, refl, ◌||◌, true, false, some, [], ◌∷◌, contains}
use cwl_go.Requirements.Scope.{
  Requirement, typed, required, requirement_class, Frame, Scope, origin_requirements, new_scope,
  push_frame, get_requirement, last_of_class, valid_for_command_line_tool, is_core_requirement,
  effective_requirements, required_in,
}
use cwl_go.Requirements.Check.{check_known}
use cwl_go.Requirements.Effective.{count, effective_requirements-once}
use cwl_go.Requirements.Inherited.{get_requirement-push, get_requirement-own}
use cwl_go.Requirements.Gate.{passes, all_known, check_known-gate}

abbrev docker : ℕ → Requirement
docker n = typed "DockerRequirement" n

abbrev scatter : Requirement
scatter = typed "ScatterFeatureRequirement" 0

abbrev workflow : Frame
workflow = record {
  class = "Workflow";
  reqs = docker 1 ∷ scatter ∷ [];
  hints = required (docker 2) ∷ [];
}

abbrev tool : Frame
tool = record { class = "CommandLineTool"; reqs = docker 3 ∷ docker 4 ∷ []; hints = [] }

abbrev outer : Scope
outer = new_scope (some workflow)

not_inherited : valid_for_command_line_tool "ScatterFeatureRequirement" ≡ false
unfolding valid_for_command_line_tool is_core_requirement contains
not_inherited = refl

get_requirement-push_example :
    get_requirement (push_frame outer tool) "DockerRequirement"
    ≡ (some (docker 4), origin_requirements)
get_requirement-push_example = get_requirement-push outer tool (docker 3 ∷ []) [] (docker 4) refl tt

get_requirement-own_example :
    get_requirement (push_frame outer tool) "ScatterFeatureRequirement"
    ≡ get_requirement (new_scope (some tool)) "ScatterFeatureRequirement"
get_requirement-own_example =
    get_requirement-own outer tool "ScatterFeatureRequirement" refl not_inherited

effective_requirements-once_example :
    (count requirement_class (effective_requirements outer) "DockerRequirement" ≤ 1)
    × (last_of_class requirement_class (effective_requirements outer) "DockerRequirement"
        ≡ required_in outer.view "DockerRequirement")
effective_requirements-once_example = effective_requirements-once outer "DockerRequirement"

check_known-gate_example :
    passes (check_known outer ("Custom" ∷ []) false true).0
    ≡ false || all_known ("Custom" ∷ []) outer.frames
check_known-gate_example = check_known-gate outer ("Custom" ∷ []) false true
