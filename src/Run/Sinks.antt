-- ===== src/Run/Sinks.antt =====
-- pkg/cwlexec/inputs.go: the value of a sink, and the input object of a step.
use cwl_go.Prelude.{
  String, Bool, true, false, Option, none, some, List, [], ◌∷◌, ◌++◌, if◌then◌else◌, Map, lookup,
  insert, Result, ok, err, ◌>>=◌, ◌>>◌, unknown_link_merge, unknown_pick_value, pick_value,
  incomplete,
}
use cwl_go.Value.{Value, null, array, as_array, is_null, at_key}
use cwl_go.Run.Types.{
  LinkMerge, no_merge, merge_nested, merge_flattened, other_merge, PickValue, no_pick,
  first_non_null, the_only_non_null, all_non_null, other_pick, Sink, StepInput, PlannedStep, Engine,
}

-- A `sourceLookup`: `none` for a port that is not ready.
abbrev pub Lookup : Type 0
Lookup = String → Option Value

unfoldable pub read_sources : Lookup → List String → Result (List Value)
read_sources look [] = ok []
read_sources look (source ∷ sources) =
    let rest = read_sources look sources in
    elim (look source) [ none ↦ err incomplete | some v ↦ do vs ← rest; ok (v ∷ vs) ]

unfoldable pub flatten_sources : List Value → List Value
flatten_sources [] = []
flatten_sources (v ∷ vs) =
    elim (as_array v) [ some items ↦ items | none ↦ v ∷ [] ] ++ flatten_sources vs

unfoldable pub merge : LinkMerge → List Value → Result Value
unfolding flatten_sources
merge no_merge (v ∷ []) = ok v
merge no_merge vs = ok (array vs)
merge merge_nested vs = ok (array vs)
merge merge_flattened vs = ok (array (flatten_sources vs))
merge (other_merge _) vs = err unknown_link_merge

unfoldable pub non_null : List Value → List Value
non_null [] = []
non_null (v ∷ vs) = if is_null v then non_null vs else v ∷ non_null vs

unfoldable pub select_picked : PickValue → List Value → Result Value
select_picked all_non_null kept = ok (array kept)
select_picked first_non_null [] = err pick_value
select_picked first_non_null (v ∷ kept) = ok v
select_picked the_only_non_null (v ∷ []) = ok v
select_picked the_only_non_null kept = err pick_value
select_picked no_pick kept = err unknown_pick_value
select_picked (other_pick _) kept = err unknown_pick_value

abbrev pub as_items : Value → List Value
as_items merged = elim (as_array merged) [ some items ↦ items | none ↦ merged ∷ [] ]

unfoldable pub pick : PickValue → Value → Result Value
unfolding select_picked non_null
pick no_pick merged = ok merged
pick method merged = select_picked method (non_null (as_items merged))

abbrev pub is_wired : List String → Bool
is_wired [] = false
is_wired (_ ∷ _) = true

module _ (e : Engine) (look : Lookup) where
  -- `sink.value`. A step input has the empty type, which every value meets.
  unfoldable pub sink_value : String → Sink → Result Value
  unfolding read_sources merge pick
  sink_value name s = do
    values ← read_sources look s.sources
    merged ← merge s.link_merge values
    picked ← pick s.pick_value merged
    (if s.step_input
        then ok picked
        else (e.check_type name (e.fill_listings picked) >> ok (e.fill_listings picked)))

  abbrev wired_value : StepInput → Result Value
  wired_value i =
      if is_wired i.sources
      then sink_value i.name (record {
        link_merge = i.link_merge;
        pick_value = i.pick_value;
        sources = i.sources;
        step_input = true;
      })
      else ok null

  unfoldable pub resolve_input : PlannedStep → StepInput → Result Value
  unfolding sink_value
  resolve_input step i = do
    wired ← wired_value i
    value ← (if is_null wired then e.step_default step i.name else ok wired)
    e.load step i.name value

  unfoldable pub resolve_ins : PlannedStep → List StepInput → Map Value → Result (Map Value)
  unfolding resolve_input
  resolve_ins step [] object = ok object
  resolve_ins step (i ∷ ins) object = do
    value ← resolve_input step i
    resolve_ins step ins (insert i.name value object)

-- `fillProcessDefaults`: a default whose value failed to load is an error only where it is used.
unfoldable pub fill_process_defaults : List (String × Result Value) → Map Value → Result (Map Value)
unfolding lookup
fill_process_defaults [] object = ok object
fill_process_defaults ((name, deferred) ∷ rest) object =
    if is_null (at_key object name)
    then (do value ← deferred; fill_process_defaults rest (insert name value object))
    else fill_process_defaults rest object

unfoldable pub resolve_inputs : Engine → Lookup → PlannedStep → Result (Map Value)
unfolding resolve_ins fill_process_defaults
resolve_inputs e look step = do
  object ← resolve_ins e look step step.ins []
  filled ← fill_process_defaults step.run_defaults object
  let normal = e.normalize filled
  e.check_secondary step normal
  ok normal

-- `applyProcessDefaults`, for a process that runs by itself.
unfoldable pub apply_process_defaults : Map Value → Map Value → Map Value
unfolding lookup insert
apply_process_defaults [] object = object
apply_process_defaults ((name, value) ∷ defaults) object =
    apply_process_defaults defaults
      (if is_null (at_key object name) then insert name value object else object)
