-- ===== src/Run/Priority.antt =====
-- The outcome of a run against the outcomes of its steps and invocations.
use cwl_go.Prelude.{
  ◌≡◌, refl, ap₂, ◌∙◌, Bool, true, false, ◌||◌, Option, none, some, List, [], ◌∷◌, ◌++◌,
  if◌then◌else◌, Map, arith, Error, Result, ok, err,
}
use cwl_go.Value.{Value}
use cwl_go.Run.Types.{
  Status, success, permanent_fail, temporary_fail, suspended, Suspension, JobState, HandlerResult,
  PlannedStep, Runner, Loop,
}
use cwl_go.Run.Loop.{Worst}
use cwl_go.Run.Outcomes.{outcome, validate, validate_by}
use cwl_go.Run.Results.{
  RunResult, step_error, failure_from, failure, waiting_at, job_suspensions, suspensions,
  run_outputs, result, result_by,
}

abbrev is_permanent : Status → Bool
is_permanent permanent_fail = true
is_permanent _ = false

abbrev is_temporary : Status → Bool
is_temporary temporary_fail = true
is_temporary _ = false

abbrev pub any_step : (Status → Bool) → Loop → List PlannedStep → Bool
any_step test l [] = false
any_step test l (step ∷ steps) = test (l.steps step.id).status || any_step test l steps

abbrev waits : JobState → Bool
waits js = elim js.status [
  | suspended ↦ elim js.suspension [ some _ ↦ true | none ↦ false ]
  | _ ↦ false
]

abbrev pub any_job_waits : List JobState → Bool
any_job_waits [] = false
any_job_waits (js ∷ states) = waits js || any_job_waits states

abbrev pub any_waits : Loop → List PlannedStep → Bool
any_waits l [] = false
any_waits l (step ∷ steps) = any_job_waits (l.steps step.id).jobs || any_waits l steps

abbrev resolves : Result (Map Value) → Bool
resolves (ok _) = true
resolves (err _) = false

-- The status of a run by rank: a permanent failure, a temporary one, a suspension, success.
abbrev pub ranked : Bool → Bool → Bool → Bool → Status
ranked permanent temporary waiting resolved =
    if permanent
    then permanent_fail
    else if temporary
    then temporary_fail
    else if waiting
    then suspended
    else if resolved
    then success
    else permanent_fail

abbrev kind_of : Worst → Option Status
kind_of none = none
kind_of (some (status, _)) = some status

failure_from-permanent :
    (l : Loop) (steps : List PlannedStep) (e : Error)
    → kind_of (failure_from l steps (some (permanent_fail, e))) ≡ some permanent_fail
unfolding failure_from
failure_from-permanent l [] e = refl
failure_from-permanent l (step ∷ steps) e = failure_from-permanent l steps e

failure_from-temporary :
    (l : Loop) (steps : List PlannedStep) (e : Error)
    → kind_of (failure_from l steps (some (temporary_fail, e)))
      ≡ some (if any_step is_permanent l steps then permanent_fail else temporary_fail)
unfolding failure_from
failure_from-temporary l [] e = refl
failure_from-temporary l (step ∷ steps) e =
    ground (
      arith,
      failure_from-permanent l steps (step_error l step.id),
      failure_from-temporary l steps e,
    )

failure_from-none :
    (l : Loop) (steps : List PlannedStep)
    → kind_of (failure_from l steps none) ≡ (
        if any_step is_permanent l steps
        then some permanent_fail
        else if any_step is_temporary l steps
        then some temporary_fail
        else none)
unfolding failure_from
failure_from-none l [] = refl
failure_from-none l (step ∷ steps) = ground (
  arith,
  failure_from-permanent l steps (step_error l step.id),
  failure_from-temporary l steps (step_error l step.id),
  failure_from-none l steps,
)

abbrev is_cons : List Suspension → Bool
is_cons [] = false
is_cons (_ ∷ _) = true

is_cons-append : (xs ys : List Suspension) → is_cons (xs ++ ys) ≡ is_cons xs || is_cons ys
is_cons-append [] ys = refl
is_cons-append (x ∷ xs) ys = refl

job_suspensions-any :
    (states : List JobState) → is_cons (job_suspensions states) ≡ any_job_waits states
unfolding job_suspensions
job_suspensions-any [] = refl
job_suspensions-any (js ∷ states) =
    let first : is_cons (waiting_at js.status js.suspension) ≡ waits js = ground arith in
    is_cons-append (waiting_at js.status js.suspension) (job_suspensions states)
    ∙ ap₂ (λ a b. a || b) first (job_suspensions-any states)

suspensions-any :
    (l : Loop) (steps : List PlannedStep) → is_cons (suspensions l steps) ≡ any_waits l steps
unfolding suspensions
suspensions-any l [] = refl
suspensions-any l (step ∷ steps) =
    is_cons-append (job_suspensions (l.steps step.id).jobs) (suspensions l steps)
    ∙ ap₂ (λ a b. a || b) (job_suspensions-any (l.steps step.id).jobs) (suspensions-any l steps)

result_by-status :
    (l : Loop) (permanent temporary waiting : Bool) (w : Worst) (found : List Suspension)
    (o : Result (Map Value))
    → kind_of w
      ≡ (if permanent then some permanent_fail else if temporary then some temporary_fail else none)
    → is_cons found ≡ waiting
    → (result_by l w found o).0.status ≡ ranked permanent temporary waiting (resolves o)
result_by-status l permanent temporary waiting w found o e f = ground arith

-- The status of a run is a permanent failure if a planned step failed so, else a temporary failure
-- if one failed so, else a suspension if an invocation of a planned step waits, else success if
-- the outputs resolve, and a permanent failure if they do not.
pub result-status :
    (r : Runner) (l : Loop)
    → (result r l).0.status
      ≡ ranked
          (any_step is_permanent l r.steps)
          (any_step is_temporary l r.steps)
          (any_waits l r.steps)
          (resolves (run_outputs r l r.outputs))
unfolding result failure
result-status r l =
    result_by-status l _ _ _ (failure_from l r.steps none) (suspensions l r.steps)
      (run_outputs r l r.outputs) (failure_from-none l r.steps) (suspensions-any l r.steps)

abbrev is_suspended : Status → Bool
is_suspended suspended = true
is_suspended _ = false

abbrev is_success : Status → Bool
is_success success = true
is_success _ = false

abbrev is_some : Option (Map Value) → Bool
is_some (some _) = true
is_some none = false

-- The suspensions and the outputs of a result against its status.
pub record IsConsistent (x : RunResult) : Type 0 where
  pub waiting : is_cons x.suspensions ≡ is_suspended x.status
  pub filled : is_some x.outputs ≡ is_success x.status

result_by-IsConsistent :
    (l : Loop) (permanent temporary : Bool) (w : Worst) (found : List Suspension)
    (o : Result (Map Value))
    → kind_of w
      ≡ (if permanent then some permanent_fail else if temporary then some temporary_fail else none)
    → IsConsistent (result_by l w found o).0
result_by-IsConsistent l permanent temporary w found o e = record {
  waiting = ground arith;
  filled = ground arith;
}

-- The result of a run has suspensions if and only if its status is suspended, and outputs if and
-- only if its status is success.
pub result-IsConsistent : (r : Runner) (l : Loop) → IsConsistent (result r l).0
unfolding result failure
result-IsConsistent r l =
    result_by-IsConsistent l _ _ (failure_from l r.steps none) (suspensions l r.steps)
      (run_outputs r l r.outputs) (failure_from-none l r.steps)

-- What Outcome returns always meets the invariants of a result, and Outcome of it changes nothing.
pub outcome-validate :
    (h : HandlerResult) (e : Option Error)
    → (validate (outcome h e).0 ≡ ok tt) × (outcome (outcome h e).0 none ≡ ((outcome h e).0, none))
unfolding outcome validate validate_by
outcome-validate h (some e) = (ground arith, ground arith)
outcome-validate h none = (ground arith, ground arith)
