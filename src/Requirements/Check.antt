-- ===== src/Requirements/Check.antt =====
-- pkg/cwlcore/requirements_check.go: the gate on requirements that the engine does not know.
use cwl_go.Prelude.{
  ℕ, String, Bool, true, false, ◌||◌, Option, none, some, List, [], ◌∷◌, ◌++◌, map, if◌then◌else◌,
  contains,
}
use cwl_go.Requirements.Scope.{
  Requirement, typed, raw, requirement_class, Frame, Scope, is_core_requirement,
}

-- `salad.Error` as the code makes it: the class in its text, the node it points at, a warning flag.
pub record Offender : Type 0 where
  pub class : String
  pub node : Option ℕ
  pub warning : Bool

-- `requirementLoc`, as the node whose place is taken.
abbrev pub requirement_loc : Requirement → Option ℕ
requirement_loc (typed _ _) = none
requirement_loc (raw _ node) = node

abbrev offender : Requirement → Offender
offender r = record { class = requirement_class r; node = requirement_loc r; warning = false }

unfoldable pub unknown_in : List String → List Requirement → List Offender
unfolding is_core_requirement contains
unknown_in allowed [] = []
unknown_in allowed (r ∷ reqs) =
    if is_core_requirement (requirement_class r) || contains allowed (requirement_class r)
    then unknown_in allowed reqs
    else offender r ∷ unknown_in allowed reqs

-- `unknownRequirements`, over the unfiltered frames.
unfoldable pub unknown_requirements : List String → List Frame → List Offender
unfolding unknown_in
unknown_requirements allowed [] = []
unknown_requirements allowed (f ∷ frames) =
    unknown_in allowed f.reqs ++ unknown_requirements allowed frames

abbrev pub as_warning : Offender → Offender
as_warning e = record e { warning = true }

-- The returned error, and the findings that the warn function receives: none without one.
unfoldable pub report : Bool → Bool → List Offender → Option Offender × List Offender
report lenient warn [] = (none, [])
report lenient warn (e ∷ es) =
    if lenient then (none, (if warn then map as_warning (e ∷ es) else [])) else (some e, [])

-- `CheckKnown`; `warn` tells whether a warn function was given.
unfoldable pub check_known : Scope → List String → Bool → Bool → Option Offender × List Offender
unfolding unknown_requirements report
check_known s allowed lenient warn = report lenient warn (unknown_requirements allowed s.frames)
