-- ===== src/Run/Gates.antt =====
-- when.go and `applyValueFrom` of inputs.go: what a step does to each sub-job's inputs.
use Prim.Native.Char.{code}
use cwl_go.Prelude.{
  ℕ, String, Bool, true, ◌||◌, ◌&&◌, List, [], ◌∷◌, ◌==◌, leb, str_eq, if◌then◌else◌, Map, lookup,
  insert, Result, ok, err, ◌>>=◌, value_from, when_not_boolean,
}
use cwl_go.Value.{Value, null, bool, at_key}
use cwl_go.Run.Types.{StepInput, PlannedStep, Engine}

-- unicode.IsSpace
unfoldable pub is_space : ℕ → Bool
is_space c =
    leb 9 c && leb c 13
    || c == 32
    || c == 0x85
    || c == 0xa0
    || c == 0x1680
    || leb 0x2000 c && leb c 0x200a
    || c == 0x2028
    || c == 0x2029
    || c == 0x202f
    || c == 0x205f
    || c == 0x3000

unfoldable pub trim_left : String → String
unfolding is_space
trim_left String.[] = String.[]
trim_left (String.◌∷◌ c s) = if is_space (code c) then trim_left s else String.◌∷◌ c s

unfoldable pub trim_right : String → String
unfolding is_space
trim_right String.[] = String.[]
trim_right (String.◌∷◌ c s) =
    let rest = trim_right s in if str_eq rest "" && is_space (code c) then "" else String.◌∷◌ c rest

-- strings.TrimSpace
unfoldable pub trim_space : String → String
unfolding trim_left trim_right
trim_space s = trim_right (trim_left s)

abbrev pub as_condition : Value → Result Bool
as_condition (bool b) = ok b
as_condition _ = err when_not_boolean

unfoldable pub eval_when : Engine → String → Map Value → Result Bool
unfolding trim_space
eval_when e when inputs =
    if str_eq (trim_space when) ""
    then ok true
    else (do v ← e.eval (trim_space when) inputs null; as_condition v)

-- `SkippedOutputs`
unfoldable pub skipped_outputs : List String → Map Value
unfolding insert
skipped_outputs [] = []
skipped_outputs (port ∷ ports) = insert port null (skipped_outputs ports)

-- The expressions all see the object as it was before any of them was applied.
unfoldable pub value_from_ins : Engine → Map Value → List StepInput → Map Value → Result (Map Value)
unfolding lookup insert
value_from_ins e object [] resolved = ok resolved
value_from_ins e object (i ∷ ins) resolved =
    if str_eq i.value_from ""
    then value_from_ins e object ins resolved
    else elim (e.eval i.value_from object (at_key object i.name)) [
      | ok value ↦ value_from_ins e object ins (insert i.name value resolved)
      | err _ ↦ err value_from
    ]

unfoldable pub apply_value_from : Engine → PlannedStep → Map Value → Result (Map Value)
unfolding value_from_ins
apply_value_from e step object =
    if step.implicit then ok object else value_from_ins e object step.ins object
