-- ===== src/Run/Types.antt =====
-- The state of a run: handler.go (`Status`, `Result`), runstate.go, plan.go and loop.go.
use cwl_go.Prelude.{
  ℕ, String, Bool, false, Option, none, List, [], str_eq, if◌then◌else◌, Map, Error, Result,
}
use cwl_go.Prelude.Int.{ℤ}
use cwl_go.Value.{Value}
use cwl_go.Scatter.Jobs.{ScatterMethod}

-- A `Status` is a text: `unset` is the empty one, and `unknown` any that no constant names.
pub data Status : Type 0 where
  unset success permanent_fail temporary_fail skipped suspended : Status
  unknown : String → Status

pub record Suspension : Type 0 where
  pub step_id : String
  pub scatter_index : List ℤ
  pub token : String
  pub payload : List ℕ

-- `Result`, what a step handler returns. `outputs` is `none` for a nil map.
pub record HandlerResult : Type 0 where
  pub status : Status
  pub outputs : Option (Map Value)
  pub suspension : Option Suspension

-- An error that the run records is kept as the error, where the code keeps its text.
pub record JobState : Type 0 where
  pub outputs : Map Value
  pub suspension : Option Suspension
  pub status : Status
  pub error : Option Error
  pub index : List ℤ

pub record StepState : Type 0 where
  pub outputs : Map Value
  pub status : Status
  pub error : Option Error
  pub jobs : List JobState
  pub shape : Option (List ℤ)
  pub started : Bool

-- The record that `RunState.step` creates on first access.
abbrev pub blank_step : StepState
blank_step = record {
  outputs = [];
  status = unset;
  error = none;
  jobs = [];
  shape = none;
  started = false;
}

pub record RunJob : Type 0 where
  pub inputs : Map Value
  pub index : List ℤ
  pub err : Option Error
  pub dispatched : Bool

-- `LinkMergeMethod` and `PickValueMethod` are texts: the empty one, the constants, any other.
pub data LinkMerge : Type 0 where
  no_merge merge_nested merge_flattened : LinkMerge
  other_merge : String → LinkMerge

pub data PickValue : Type 0 where
  no_pick first_non_null the_only_non_null all_non_null : PickValue
  other_pick : String → PickValue

pub record Sink : Type 0 where
  pub link_merge : LinkMerge
  pub pick_value : PickValue
  pub sources : List String
  pub step_input : Bool

pub record StepInput : Type 0 where
  pub name : String
  pub link_merge : LinkMerge
  pub pick_value : PickValue
  pub sources : List String
  pub value_from : String

pub record PlannedStep : Type 0 where
  pub id : String
  pub ins : List StepInput
  pub out : List String
  pub scatter : List String
  pub method : ScatterMethod
  pub deps : List String
  pub when : String
  pub implicit : Bool
  pub defaults : Map Value
  pub run_defaults : List (String × Result Value)

-- `step` is empty for an input of the run.
pub record SourceRef : Type 0 where
  pub step : String
  pub port : String

-- What the engine asks of code that the model does not hold: the expression evaluator, the reading
-- of files, the types of outputs, and the building of a handler's call.
pub record Engine : Type 0 where
  pub eval : String → Map Value → Value → Result Value
  pub step_default : PlannedStep → String → Result Value
  pub load : PlannedStep → String → Value → Result Value
  pub normalize : Map Value → Map Value
  pub check_secondary : PlannedStep → Map Value → Result (Unit {0})
  pub fill_listings : Value → Value
  pub check_type : String → Value → Result (Unit {0})
  pub check_output : PlannedStep → String → Value → Result (Unit {0})
  pub new_call : PlannedStep → RunJob → Result (Unit {0})

pub record Runner : Type 0 where
  pub engine : Engine
  pub steps : List PlannedStep
  pub sources : String → Option SourceRef
  pub outputs : List (String × Sink)
  pub on_error_continue : Bool
  pub max_parallel : ℤ

-- The event loop. A step with no record reads as the blank record, and a map is a function: no
-- code of the loop tells these apart.
pub record Loop : Type 0 where
  pub steps : String → StepState
  pub inputs : Map Value
  pub jobs : String → List RunJob
  pub errs : String → Option Error
  pub running : ℕ
  pub stopped : Bool

abbrev pub update {ℓ} : {A : Type ℓ} → (String → A) → String → A → String → A
update f k v j = if str_eq k j then v else f j
