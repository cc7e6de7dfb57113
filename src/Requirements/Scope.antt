-- ===== src/Requirements/Scope.antt =====
-- pkg/cwlcore/requirements.go and requirements_inherit.go: the scope of requirements and hints.
use cwl_go.Prelude.{
  ℕ, String, Bool, not, ◌||◌, Option, none, some, List, [], ◌∷◌, ◌++◌, map, reverse, str_eq,
  if◌then◌else◌, contains,
}

-- A declaration, of the requirement interface or of the hint one. A class that the code has a type
-- for is `typed` with what it decoded; `raw` holds its node, if it has one.
pub data Requirement : Type 0 where
  typed : String → ℕ → Requirement
  raw : String → Option ℕ → Requirement

pub data Hint : Type 0 where
  required : Requirement → Hint
  raw_hint : String → Option ℕ → Hint
  foreign_hint : String → Hint

abbrev pub requirement_class : Requirement → String
requirement_class (typed c _) = c
requirement_class (raw c _) = c

abbrev pub hint_class : Hint → String
hint_class (required r) = requirement_class r
hint_class (raw_hint c _) = c
hint_class (foreign_hint c) = c

pub record Frame : Type 0 where
  pub class : String
  pub reqs : List Requirement
  pub hints : List Hint

pub data Origin : Type 0 where
  origin_none origin_requirements origin_hints : Origin

-- What the code reads of a process: its class, and the two lists of its base.
abbrev pub Process : Type 0
Process = Frame

pub record Scope : Type 0 where
  pub frames : List Frame
  pub view : List Frame

abbrev pub command_line_tool_requirements : List String
command_line_tool_requirements =
    "InlineJavascriptRequirement" ∷ "SchemaDefRequirement" ∷ "DockerRequirement"
    ∷ "SoftwareRequirement" ∷ "InitialWorkDirRequirement" ∷ "EnvVarRequirement"
    ∷ "ShellCommandRequirement" ∷ "ResourceRequirement" ∷ "LoadListingRequirement" ∷ "WorkReuse"
    ∷ "NetworkAccess" ∷ "InplaceUpdateRequirement" ∷ "ToolTimeLimit" ∷ []

abbrev pub core_requirements : List String
core_requirements =
    "InlineJavascriptRequirement" ∷ "SchemaDefRequirement" ∷ "LoadListingRequirement"
    ∷ "DockerRequirement" ∷ "SoftwareRequirement" ∷ "InitialWorkDirRequirement"
    ∷ "EnvVarRequirement" ∷ "ShellCommandRequirement" ∷ "ResourceRequirement" ∷ "WorkReuse"
    ∷ "NetworkAccess" ∷ "InplaceUpdateRequirement" ∷ "ToolTimeLimit"
    ∷ "SubworkflowFeatureRequirement" ∷ "ScatterFeatureRequirement"
    ∷ "MultipleInputFeatureRequirement" ∷ "StepInputExpressionRequirement" ∷ []

unfoldable pub is_core_requirement : String → Bool
unfolding contains
is_core_requirement class = contains core_requirements class

unfoldable pub valid_for_command_line_tool : String → Bool
unfolding contains is_core_requirement
valid_for_command_line_tool class =
    contains command_line_tool_requirements class || not (is_core_requirement class)

module _ {ℓ} {A : Type ℓ} (class_of : A → String) where
  unfoldable pub keep_valid : List A → List A
  unfolding valid_for_command_line_tool
  keep_valid [] = []
  keep_valid (e ∷ entries) =
      if valid_for_command_line_tool (class_of e)
      then e ∷ keep_valid entries
      else keep_valid entries

  abbrev pub or_else : Option A → Option A → Option A
  or_else (some a) o = some a
  or_else none o = o

  -- The loop of `lastOfClass` runs backward: a later entry goes before an earlier one.
  unfoldable pub last_of_class : List A → String → Option A
  last_of_class [] class = none
  last_of_class (e ∷ entries) class =
      or_else (last_of_class entries class) (if str_eq (class_of e) class then some e else none)

  -- The loop of `dedupKeepLast`, on the reversed entries.
  unfoldable pub first_of_each : List A → List String → List A
  unfolding contains
  first_of_each [] seen = []
  first_of_each (e ∷ entries) seen =
      if contains seen (class_of e)
      then first_of_each entries seen
      else e ∷ first_of_each entries (class_of e ∷ seen)

  unfoldable pub dedup_keep_last : List A → List A
  unfolding first_of_each
  dedup_keep_last entries = reverse (first_of_each (reverse entries) [])

-- `targetIndex`, as the class of that frame and the frames on each side of it: `none` for -1.
pub record Target : Type 0 where
  pub outer : List Frame
  pub frame : Frame
  pub inner : List Frame

abbrev pub behind : Frame → Option Target → Option Target
behind f (some t) = some (record { outer = f ∷ t.outer; frame = t.frame; inner = t.inner })
behind f none = none

abbrev pub target_or : Frame → List Frame → Option Target → Option Target
target_or f rest (some t) = behind f (some t)
target_or f rest none =
    if str_eq f.class "" then none else some (record { outer = []; frame = f; inner = rest })

unfoldable pub target : List Frame → Option Target
target [] = none
target (f ∷ frames) = target_or f frames (target frames)

abbrev pub keep_frame : Frame → Frame
unfolding keep_valid
keep_frame f = record f {
  reqs = keep_valid requirement_class f.reqs;
  hints = keep_valid hint_class f.hints;
}

unfoldable pub filter_at : List Frame → Option Target → List Frame
unfolding keep_valid
filter_at frames none = frames
filter_at frames (some t) =
    if str_eq t.frame.class "CommandLineTool"
    then map keep_frame t.outer ++ t.frame ∷ t.inner
    else frames

unfoldable pub filter_frames : List Frame → List Frame
unfolding target filter_at
filter_frames frames = filter_at frames (target frames)

-- `newScope`
abbrev pub scope_of : List Frame → Scope
unfolding filter_frames
scope_of frames = record { frames = frames; view = filter_frames frames }

-- `NewScope`; `none` is a nil process.
unfoldable pub new_scope : Option Process → Scope
unfolding filter_frames
new_scope none = record { frames = []; view = [] }
new_scope (some p) = scope_of (p ∷ [])

unfoldable pub push_frame : Scope → Frame → Scope
unfolding filter_frames
push_frame s f = scope_of (s.frames ++ f ∷ [])

unfoldable pub push : Scope → List Requirement → List Hint → Scope
unfolding push_frame
push s reqs hints = push_frame s (record { class = ""; reqs = reqs; hints = hints })

unfoldable pub push_process : Scope → Option Process → Scope
unfolding push_frame
push_process s none = s
push_process s (some p) = push_frame s p

abbrev pub hint_as_requirement : Hint → Requirement
hint_as_requirement (required r) = r
hint_as_requirement (raw_hint c node) = raw c node
hint_as_requirement (foreign_hint c) = raw c none

abbrev pub later : Option Requirement → Option Requirement → Option Requirement
later (some r) o = some r
later none o = o

-- The first loop of `GetRequirement`, backward over the frames.
unfoldable pub required_in : List Frame → String → Option Requirement
unfolding last_of_class
required_in [] class = none
required_in (f ∷ frames) class =
    later (required_in frames class) (last_of_class requirement_class f.reqs class)

-- The second loop, over the hints.
unfoldable pub hinted_in : List Frame → String → Option Requirement
unfolding last_of_class
hinted_in [] class = none
hinted_in (f ∷ frames) class =
    later (hinted_in frames class) (elim (last_of_class hint_class f.hints class) [
      | some h ↦ some (hint_as_requirement h)
      | none ↦ none
    ])

abbrev pub with_origin : Option Requirement → Option Requirement → Option Requirement × Origin
with_origin (some r) o = (some r, origin_requirements)
with_origin none (some r) = (some r, origin_hints)
with_origin none none = (none, origin_none)

unfoldable pub get_requirement : Scope → String → Option Requirement × Origin
unfolding required_in hinted_in
get_requirement s class = with_origin (required_in s.view class) (hinted_in s.view class)

unfoldable pub all_reqs : List Frame → List Requirement
all_reqs [] = []
all_reqs (f ∷ frames) = f.reqs ++ all_reqs frames

unfoldable pub effective_requirements : Scope → List Requirement
unfolding all_reqs dedup_keep_last
effective_requirements s = dedup_keep_last requirement_class (all_reqs s.view)

unfoldable pub effective_hints : List Frame → List Hint
effective_hints [] = []
effective_hints (f ∷ frames) = f.hints ++ effective_hints frames
