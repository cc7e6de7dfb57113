-- ===== src/Run/Resumed.antt =====
-- pkg/cwlexec/result.go and outputtype.go: the outcomes that a resumed run brings in.
use cwl_go.Prelude.{
  ℕ, String, Bool, true, false, ◌&&◌, Option, none, some, List, [], ◌∷◌, str_eq, ◌==◌,
  if◌then◌else◌, Map, insert, contains, modify, get_elem?, Error, Result, ok, err, ◌>>=◌, ◌>>◌, suc,
  no_suspension, resumed_status, undeclared_resumed_output, step_failed, state_mismatch, length,
}
use cwl_go.Prelude.Int.{ℤ, pos, negsuc}
use cwl_go.Value.{Value, at_key}
use cwl_go.Run.Types.{
  Status, success, permanent_fail, temporary_fail, skipped, suspended, JobState, RunJob,
  PlannedStep, Engine, Runner, Loop, update,
}
use cwl_go.Run.Gates.{skipped_outputs}
use cwl_go.Run.Loop.{
  set_step, is_terminal, is_unset, expand_jobs, step_inputs, gate_jobs, finish_if_complete,
}

pub record ResumedStep : Type 0 where
  pub outputs : Map Value
  pub step_id : String
  pub status : Status
  pub scatter_index : List ℤ

-- `slices.Equal` on coordinates
abbrev pub int_eq : ℤ → ℤ → Bool
int_eq (pos a) (pos b) = a == b
int_eq (negsuc a) (negsuc b) = a == b
int_eq _ _ = false

unfoldable pub index_eq : List ℤ → List ℤ → Bool
index_eq [] [] = true
index_eq (a ∷ xs) (b ∷ ys) = int_eq a b && index_eq xs ys
index_eq _ _ = false

-- The first loop of `checkDeclaredOutputs`: whether some output is not declared.
unfoldable pub any_undeclared : List String → Map Value → Bool
unfolding contains
any_undeclared out [] = false
any_undeclared out ((name, _) ∷ outputs) =
    if contains out name then any_undeclared out outputs else true

-- The second loop, over the declared names.
unfoldable pub check_ports : Engine → PlannedStep → List String → Map Value → Result (Map Value)
unfolding insert
check_ports e step [] outputs = ok []
check_ports e step (name ∷ names) outputs = do
  e.check_output step name (at_key outputs name)
  checked ← check_ports e step names outputs
  ok (insert name (at_key outputs name) checked)

unfoldable pub check_declared_outputs : Engine → PlannedStep → Map Value → Result (Map Value)
unfolding any_undeclared check_ports
check_declared_outputs e step outputs =
    if any_undeclared step.out outputs
    then err undeclared_resumed_output
    else check_ports e step step.out outputs

-- `byID`: the ids of a plan are distinct.
unfoldable pub by_id : List PlannedStep → String → Option PlannedStep
by_id [] id = none
by_id (step ∷ steps) id = if str_eq step.id id then some step else by_id steps id

abbrev pub is_suspended : Status → Bool
is_suspended suspended = true
is_suspended _ = false

abbrev pub next_index : Option ℕ → Option ℕ
next_index none = none
next_index (some i) = some (suc i)

-- The loop of `suspended`: the first waiting invocation at these coordinates.
unfoldable pub find_suspended : List JobState → List ℤ → Option ℕ
unfolding index_eq
find_suspended [] index = none
find_suspended (js ∷ states) index =
    if is_suspended js.status && index_eq js.index index
    then some 0
    else next_index (find_suspended states index)

abbrev pub no_suspension_unless {ℓ} : {A : Type ℓ} → Option A → Result A
no_suspension_unless none = err no_suspension
no_suspension_unless (some a) = ok a

-- `suspended`: the step and the place of its invocation.
unfoldable pub suspended_at : Runner → ResumedStep → Loop → Result (PlannedStep × ℕ)
unfolding by_id find_suspended
suspended_at r resumed l = do
  step ← no_suspension_unless (by_id r.steps resumed.step_id)
  i ← no_suspension_unless (find_suspended (l.steps resumed.step_id).jobs resumed.scatter_index)
  ok (step, i)

-- What the switch of `injectOne` writes to the record of the invocation.
unfoldable pub resume_by : Status → Engine → PlannedStep → ResumedStep → JobState → Result JobState
unfolding check_declared_outputs skipped_outputs
resume_by success e step resumed js = do
  checked ← check_declared_outputs e step resumed.outputs
  ok (record js { outputs = checked; status = resumed.status; suspension = none })
resume_by skipped e step resumed js =
    ok
      (record js { outputs = skipped_outputs step.out; status = resumed.status; suspension = none })
resume_by permanent_fail e step resumed js =
    ok (record js { error = some step_failed; status = resumed.status; suspension = none })
resume_by temporary_fail e step resumed js =
    ok (record js { error = some step_failed; status = resumed.status; suspension = none })
resume_by _ e step resumed js = err resumed_status

unfoldable pub write_job : String → ℕ → JobState → Loop → Loop
write_job id i js l =
    set_step id (record (l.steps id) { jobs = modify (l.steps id).jobs i (λ _. js) }) l

unfoldable pub resume_job :
    Runner → ResumedStep → Loop → PlannedStep → ℕ → Option JobState → Result Loop
unfolding resume_by write_job
resume_job r resumed l step i none = err no_suspension
resume_job r resumed l step i (some js) = do
  js' ← resume_by resumed.status r.engine step resumed js
  ok (write_job resumed.step_id i js' l)

-- `injectOne`
unfoldable pub inject_one : Runner → ResumedStep → Loop → Result Loop
unfolding suspended_at resume_job
inject_one r resumed l = do
  found ← suspended_at r resumed l
  resume_job r resumed l found.0 found.1 (get_elem? (l.steps resumed.step_id).jobs found.1)

-- `inject`
unfoldable pub inject : Runner → List ResumedStep → Loop → Result Loop
unfolding inject_one
inject r [] l = ok l
inject r (resumed ∷ rest) l = do l' ← inject_one r resumed l; inject r rest l'

unfoldable pub any_pending : List JobState → Bool
any_pending [] = false
any_pending (js ∷ states) = if is_terminal js.status then any_pending states else true

abbrev pub same_shape : Option (List ℤ) → Option (List ℤ) → Bool
unfolding index_eq
same_shape a b =
    index_eq (elim a [ some dims ↦ dims | none ↦ [] ]) (elim b [ some dims ↦ dims | none ↦ [] ])

abbrev pub adopt_jobs : PlannedStep → List RunJob → Loop → Loop
adopt_jobs step jobs l = record l { jobs = update l.jobs step.id jobs }

-- The end of `restart`: the gates, whose error ends the resume.
abbrev pub gated_or_error : Loop × Option Error → Result Loop
gated_or_error (l, some e) = err e
gated_or_error (l, none) = ok l

abbrev pub restart_with : Runner → PlannedStep → List RunJob × Option (List ℤ) → Loop → Result Loop
unfolding index_eq gate_jobs
restart_with r step (jobs, shape) l =
    if length jobs == length (l.steps step.id).jobs && same_shape shape (l.steps step.id).shape
    then gated_or_error (gate_jobs r step (adopt_jobs step jobs l))
    else err state_mismatch

-- `restart`
unfoldable pub restart : Runner → PlannedStep → Loop → Result Loop
unfolding any_pending step_inputs expand_jobs index_eq gate_jobs
restart r step l =
    if any_pending (l.steps step.id).jobs
    then (do
      inputs ← step_inputs r step l
      expanded ← expand_jobs step.scatter step.method inputs
      restart_with r step expanded l)
    else ok l

-- `rehydrateSteps`
unfoldable pub rehydrate_steps : Runner → List PlannedStep → Loop → Result Loop
unfolding restart finish_if_complete
rehydrate_steps r [] l = ok l
rehydrate_steps r (step ∷ steps) l =
    if (l.steps step.id).started && is_unset (l.steps step.id).status
    then (do l' ← restart r step l; rehydrate_steps r steps (finish_if_complete r step l'))
    else rehydrate_steps r steps l
