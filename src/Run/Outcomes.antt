-- ===== src/Run/Outcomes.antt =====
-- handler.go, `Outcome`: what the scheduler makes of a handler's return.
use cwl_go.Prelude.{Bool, true, false, Option, none, some, Error, Result, ok, err, result_invariant}
use cwl_go.Run.Types.{
  Status, unset, success, permanent_fail, temporary_fail, skipped, suspended, unknown,
  HandlerResult,
}

abbrev pub is_failure : Status → Bool
is_failure permanent_fail = true
is_failure temporary_fail = true
is_failure _ = false

abbrev no_suspension : HandlerResult → Result (Unit {0})
no_suspension r = elim r.suspension [ none ↦ ok tt | some _ ↦ err result_invariant ]

abbrev only_suspension : HandlerResult → Result (Unit {0})
only_suspension r = elim r.suspension [
  | none ↦ err result_invariant
  | some _ ↦ elim r.outputs [ none ↦ ok tt | some _ ↦ err result_invariant ]
]

unfoldable pub validate_by : Status → HandlerResult → Result (Unit {0})
validate_by success r = no_suspension r
validate_by skipped r = no_suspension r
validate_by permanent_fail r = no_suspension r
validate_by temporary_fail r = no_suspension r
validate_by suspended r = only_suspension r
validate_by unset r = err result_invariant
validate_by (unknown _) r = err result_invariant

unfoldable pub validate : HandlerResult → Result (Unit {0})
unfolding validate_by
validate r = validate_by r.status r

abbrev pub failed_as : Status → HandlerResult
failed_as s = record { status = s; outputs = none; suspension = none }

-- The status that a returned error gives.
abbrev pub error_status : Status → Status
error_status temporary_fail = temporary_fail
error_status _ = permanent_fail

-- The two values that `Outcome` returns: a result, and an error or none.
unfoldable pub outcome : HandlerResult → Option Error → HandlerResult × Option Error
unfolding validate
outcome r (some e) = (failed_as (error_status r.status), some e)
outcome r none = elim (validate r) [ ok _ ↦ (r, none) | err e ↦ (failed_as permanent_fail, some e) ]
