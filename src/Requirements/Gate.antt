-- ===== src/Requirements/Gate.antt =====
-- When `CheckKnown` lets a scope pass.
use cwl_go.Prelude.{
  String, ◌≡◌, refl, ap, ap₂, ◌∙◌, Bool, true, false, ◌||◌, ◌&&◌, Option, none, some, List, [], ◌∷◌,
  ◌++◌, arith, if◌then◌else◌, contains,
}
use cwl_go.Requirements.Scope.{Requirement, requirement_class, Frame, Scope, is_core_requirement}
use cwl_go.Requirements.Check.{Offender, unknown_in, unknown_requirements, report, check_known}

-- A class of the standard, or one that the caller allows.
abbrev pub is_known : List String → Requirement → Bool
is_known allowed r =
    is_core_requirement (requirement_class r) || contains allowed (requirement_class r)

abbrev all_in : List String → List Requirement → Bool
all_in allowed [] = true
all_in allowed (r ∷ reqs) = is_known allowed r && all_in allowed reqs

-- Every requirement of every frame is known. Hints are not looked at.
abbrev pub all_known : List String → List Frame → Bool
all_known allowed [] = true
all_known allowed (f ∷ frames) = all_in allowed f.reqs && all_known allowed frames

abbrev is_clear : List Offender → Bool
is_clear [] = true
is_clear (_ ∷ _) = false

is_clear-append : (xs ys : List Offender) → is_clear (xs ++ ys) ≡ is_clear xs && is_clear ys
is_clear-append [] ys = refl
is_clear-append (x ∷ xs) ys = refl

clear_if :
    (known : Bool) (e : Offender) (es : List Offender)
    → is_clear (if known then es else e ∷ es) ≡ known && is_clear es
clear_if true e es = refl
clear_if false e es = refl

unknown_in-clear :
    (allowed : List String) (reqs : List Requirement)
    → is_clear (unknown_in allowed reqs) ≡ all_in allowed reqs
unfolding unknown_in
unknown_in-clear allowed [] = refl
unknown_in-clear allowed (r ∷ reqs) =
    clear_if (is_known allowed r) _ (unknown_in allowed reqs)
    ∙ ap (λ b. is_known allowed r && b) (unknown_in-clear allowed reqs)

unknown_requirements-clear :
    (allowed : List String) (frames : List Frame)
    → is_clear (unknown_requirements allowed frames) ≡ all_known allowed frames
unfolding unknown_requirements
unknown_requirements-clear allowed [] = refl
unknown_requirements-clear allowed (f ∷ frames) =
    is_clear-append (unknown_in allowed f.reqs) (unknown_requirements allowed frames)
    ∙ ap₂ (λ a b. a && b) (unknown_in-clear allowed f.reqs)
        (unknown_requirements-clear allowed frames)

abbrev pub passes : Option Offender → Bool
passes none = true
passes (some _) = false

-- CheckKnown reports no error if and only if it is lenient, or the class of every requirement of
-- the unfiltered scope is of the standard or allowed.
pub check_known-gate :
    (s : Scope) (allowed : List String) (lenient warn : Bool)
    → passes (check_known s allowed lenient warn).0 ≡ lenient || all_known allowed s.frames
unfolding check_known
check_known-gate s allowed lenient warn =
    report-passes (unknown_requirements allowed s.frames)
    ∙ ap (λ b. lenient || b) (unknown_requirements-clear allowed s.frames)
  where
    report-passes :
        (es : List Offender) → passes (report lenient warn es).0 ≡ lenient || is_clear es
    report-passes es = unfold report in ground arith
