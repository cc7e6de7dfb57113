-- ===== src/Run/Settled.antt =====
-- An invocation in flight belongs to a step that has started and has no outcome: kept by each operation.
use text.Mathlib.TextPositions.{eq_refl}
use cwl_go.Prelude.{
  ℕ, Map, inl, inr, zero, suc, String, ◌≡◌, refl, sym, ◌∙◌, true, false, Option, none, some, List,
  [], ◌∷◌, map, arith, Bool-cases, get_elem?, Error, Result, ok, err, All, All-elem, OnOk,
  OnOk-bind,
}
use mathlib.Core.Path.{subst}
use mathlib.Core.Bool.{false≢true}
use mathlib.Core.Option.{some-injective}
use cwl_go.Prelude.Int.{ℤ}
use cwl_go.Value.{Value}
use cwl_go.Scatter.Jobs.{ScatterMethod, ScatterJob, expand_scatter}
use cwl_go.Run.Types.{HandlerResult, JobState, StepState, RunJob, PlannedStep, Runner, Loop}
use cwl_go.Run.Loop.{
  is_unset, fail_step_with, fail_step, adopt, gate_jobs, gate_list, gate_job, gate_next, Gated,
  Worst, gather_step, all_terminal, finish, finish_worst, finish_gathered, finish_if_complete,
  start_gated, start_expanded, start_resolved, mark_started, start_step, expand_jobs, run_job,
  or_dot,
}
use cwl_go.Run.Outcomes.{outcome, validate}

-- Invocation `i` was dispatched and its record has no status yet.
pub record InFlight (s : StepState) (jobs : List RunJob) (i : ℕ) : Type 0 where
  pub job : RunJob
  pub state : JobState
  pub has_job : get_elem? jobs i ≡ some job
  pub has_state : get_elem? s.jobs i ≡ some state
  pub dispatched : job.dispatched ≡ true
  pub open_state : is_unset state.status ≡ true

-- The step has started, and has no outcome.
abbrev pub IsOpen : StepState → Type 0
IsOpen s = (s.started ≡ true) × (is_unset s.status ≡ true)

pub record IsSettled (s : StepState) (jobs : List RunJob) : Type 0 where
  pub at : (i : ℕ) → InFlight s jobs i → IsOpen s

InFlight-same :
    {s t : StepState} {jobs jobs' : List RunJob} {i : ℕ}
    → t.jobs ≡ s.jobs
    → jobs' ≡ jobs
    → InFlight t jobs' i
    → InFlight s jobs i
InFlight-same {i} same_states same_jobs f = record {
  job = f.job;
  state = f.state;
  has_job = subst (λ t. get_elem? t i ≡ some f.job) same_jobs f.has_job;
  has_state = subst (λ t. get_elem? t i ≡ some f.state) same_states f.has_state;
  dispatched = f.dispatched;
  open_state = f.open_state;
}

all_terminal-elem :
    (states : List JobState) (i : ℕ) (js : JobState)
    → all_terminal states ≡ true
    → get_elem? states i ≡ some js
    → is_unset js.status ≡ false
unfolding all_terminal
all_terminal-elem [] i js h e = cc
all_terminal-elem (x ∷ states) zero js h e =
    subst (λ (t : JobState). is_unset t.status ≡ false) (some-injective _ _ e) (ground arith)
all_terminal-elem (x ∷ states) (suc i) js h e = all_terminal-elem states i js (ground arith) e

pub outcome-set : (r : HandlerResult) (e : Option Error) → is_unset (outcome r e).0.status ≡ false
unfolding outcome validate
outcome-set r (some e) = ground arith
outcome-set r none = ground arith

-- A step without an invocation in flight is settled.
abbrev pub IsIdle : StepState → List RunJob → Type 0
IsIdle s jobs = (i : ℕ) → ¬ InFlight s jobs i

pub IsIdle-IsSettled : {s : StepState} {jobs : List RunJob} → IsIdle s jobs → IsSettled s jobs
IsIdle-IsSettled idle = record { at = λ i f. absurd (idle i f) }

terminal-IsIdle : (s : StepState) (jobs : List RunJob) → all_terminal s.jobs ≡ true → IsIdle s jobs
terminal-IsIdle s jobs h i f =
    false≢true (sym (all_terminal-elem s.jobs i f.state h f.has_state) ∙ f.open_state)

abbrev AreFresh : List RunJob → Type 0
AreFresh jobs = All (λ (job : RunJob). job.dispatched ≡ false) jobs

AreFresh-IsIdle : (s : StepState) (jobs : List RunJob) → AreFresh jobs → IsIdle s jobs
AreFresh-IsIdle s jobs h i f =
    false≢true
      (sym (All-elem (λ (job : RunJob). job.dispatched ≡ false) jobs i h f.has_job) ∙ f.dispatched)

module _ (r : Runner) (step : PlannedStep) where
  abbrev pub own : Loop → StepState
  own l = l.steps step.id

  abbrev SameJobs : Loop → Loop → Type 0
  SameJobs l u = (u.jobs step.id ≡ l.jobs step.id) × ((own u).jobs ≡ (own l).jobs)

  fail_step-own : (e : Error) (l : Loop) → SameJobs l (fail_step r step e l)
  unfolding fail_step fail_step_with
  fail_step-own e l = (refl, rw (eq_refl step.id) refl)

  -- Failing or finishing a step leaves the records of its jobs.
  finish_worst-own : (w : Worst) (l : Loop) → SameJobs l (finish_worst r step w l)
  unfolding finish_worst fail_step_with
  finish_worst-own (some (status, e)) l = (refl, rw (eq_refl step.id) refl)
  finish_worst-own none l = gathered (gather_step step (own l)) l
    where
      gathered : (o : Result (Map Value)) (l : Loop) → SameJobs l (finish_gathered r step o l)
      gathered (err e) l = (refl, rw (eq_refl step.id) refl)
      gathered (ok outputs) l = (refl, rw (eq_refl step.id) refl)

  pub finish_if_complete-own : (l : Loop) → SameJobs l (finish_if_complete r step l)
  unfolding finish_if_complete finish
  finish_if_complete-own l = elim (Bool-cases (all_terminal (own l).jobs)) [
    | inl done ↦ rw done (finish_worst-own _ l)
    | inr more ↦ rw more (refl, refl)
  ]

  IsIdle-same :
      (l u : Loop)
      → SameJobs l u
      → IsIdle (own l) (l.jobs step.id)
      → IsIdle (own u) (u.jobs step.id)
  IsIdle-same l u (same_jobs, same_states) idle i f = idle i (InFlight-same same_states same_jobs f)

  pub finish_if_complete-IsSettled :
      (l : Loop)
      → IsSettled (own l) (l.jobs step.id)
      → IsSettled (own (finish_if_complete r step l)) ((finish_if_complete r step l).jobs step.id)
  finish_if_complete-IsSettled l h = elim (Bool-cases (all_terminal (own l).jobs)) [
    | inl done ↦ IsIdle-IsSettled (
        IsIdle-same l (finish_if_complete r step l) (finish_if_complete-own l)
          (terminal-IsIdle (own l) (l.jobs step.id) done))
    | inr more ↦
        let same : finish_if_complete r step l ≡ l = unfold finish_if_complete in rw more refl in
        rw same h
  ]

  gate_job-fresh :
      (job : RunJob) (js : JobState) → (gate_job r step job js).0.dispatched ≡ job.dispatched
  unfolding gate_job
  gate_job-fresh job js = ground arith

  gate_next-fresh :
      (jobs : List RunJob) (states : List JobState) (g : Gated)
      (rest : List RunJob × List JobState × Option Error)
      → g.0.dispatched ≡ false
      → AreFresh jobs
      → AreFresh rest.0
      → AreFresh (gate_next jobs states g rest).0
  gate_next-fresh jobs states (job, js, some e) rest h old new = (h, old)
  gate_next-fresh jobs states (job, js, none) rest h old new = (h, new)

  run_jobs-fresh : (jobs : List ScatterJob) → AreFresh (map run_job jobs)
  run_jobs-fresh [] = tt
  run_jobs-fresh (job ∷ jobs) = (refl, run_jobs-fresh jobs)

  mark_started-own : (l : Loop) → SameJobs l (mark_started step l)
  unfolding mark_started
  mark_started-own l = (refl, rw (eq_refl step.id) refl)

  gate_list-fresh :
      (jobs : List RunJob) (states : List JobState)
      → AreFresh jobs
      → AreFresh (gate_list r step jobs states).0
  unfolding gate_list
  gate_list-fresh [] states h = tt
  gate_list-fresh (job ∷ jobs) [] h = h
  gate_list-fresh (job ∷ jobs) (js ∷ states) h =
      let rest = gate_list-fresh jobs states h.1 in
      elim (Bool-cases (is_unset js.status)) [
        | inl pending ↦ rw pending (
            gate_next-fresh jobs states (gate_job r step job js) _ (gate_job-fresh job js ∙ h.0) h.1
              rest)
        | inr settled ↦ rw settled (h.0, rest)
      ]

  expand_jobs-fresh :
      (keys : List String) (method : ScatterMethod) (inputs : Map Value)
      → OnOk (λ x. AreFresh x.0) (expand_jobs keys method inputs)
  unfolding expand_jobs
  expand_jobs-fresh [] method inputs = (refl, tt)
  expand_jobs-fresh (key ∷ keys) method inputs =
      OnOk-bind (λ x. AreFresh x.0) (expand_scatter inputs (key ∷ keys) (or_dot method)) _
        λ plan e. run_jobs-fresh plan.jobs

  -- The state of a step that is being started: no invocation is in flight.
  abbrev pub IdleAt : Loop → Type 0
  IdleAt l = IsIdle (own l) (l.jobs step.id)

  start_gated-IdleAt : (g : Loop × Option Error) → IdleAt g.0 → IdleAt (start_gated r step g)
  unfolding start_gated
  start_gated-IdleAt (l, some e) h = IsIdle-same l (fail_step r step e l) (fail_step-own e l) h
  start_gated-IdleAt (l, none) h =
      IsIdle-same l (finish_if_complete r step l) (finish_if_complete-own l) h

  gate_adopted-IdleAt :
      (jobs : List RunJob) (shape : Option (List ℤ)) (l : Loop)
      → AreFresh jobs
      → IdleAt (gate_jobs r step (adopt step jobs shape l)).0
  unfolding gate_jobs adopt
  gate_adopted-IdleAt jobs shape l h =
      rw (eq_refl step.id) (AreFresh-IsIdle _ _ (gate_list-fresh jobs _ h))

  start_expanded-IdleAt :
      (x : Result (List RunJob × Option (List ℤ))) (l : Loop)
      → OnOk (λ x. AreFresh x.0) x
      → IdleAt l
      → IdleAt (start_expanded r step x l)
  unfolding start_expanded
  start_expanded-IdleAt (err e) l fresh h =
      IsIdle-same l (fail_step r step e l) (fail_step-own e l) h
  start_expanded-IdleAt (ok (jobs, shape)) l fresh h =
      start_gated-IdleAt (gate_jobs r step (adopt step jobs shape l))
        (gate_adopted-IdleAt jobs shape l fresh)

  start_resolved-IdleAt :
      (x : Result (Map Value)) (l : Loop) → IdleAt l → IdleAt (start_resolved r step x l)
  unfolding start_resolved
  start_resolved-IdleAt (err e) l h = IsIdle-same l (fail_step r step e l) (fail_step-own e l) h
  start_resolved-IdleAt (ok inputs) l h =
      start_expanded-IdleAt _ l (expand_jobs-fresh step.scatter step.method inputs) h

  pub start_step-IdleAt : (l : Loop) → IdleAt l → IdleAt (start_step r step l)
  unfolding start_step
  start_step-IdleAt l h =
      start_resolved-IdleAt _ (mark_started step l)
        (IsIdle-same l (mark_started step l) (mark_started-own l) h)
