-- ===== src/Requirements/Inherited.antt =====
-- The requirement in effect behind a frame that was pushed.
use mathlib.Core.Bool.{false≢true}
use cwl_go.Prelude.{
  if-elim, All, ◌≢◌, inl, inr, Bool-cases, String, ◌≡◌, refl, sym, ap, ap₂, ◌∙◌, false, Option,
  none, some, List, [], ◌∷◌, ◌++◌, map, arith, str_eq, eq_iff,
}
use cwl_go.Requirements.Scope.{
  Requirement, requirement_class, hint_class, Frame, origin_requirements, Scope, push_frame,
  new_scope, keep_valid, keep_frame, valid_for_command_line_tool, last_of_class, later, required_in,
  hinted_in, get_requirement, with_origin, filter_frames,
}
use cwl_go.Requirements.Frames.{filter_frames-ends, filter_frames-tool}

required_in-append :
    (xs : List Frame) (f : Frame) (class : String)
    → required_in (xs ++ f ∷ []) class
      ≡ later (last_of_class requirement_class f.reqs class) (required_in xs class)
unfolding required_in
required_in-append [] f class = ground arith
required_in-append (x ∷ xs) f class = ground (arith, required_in-append xs f class)

last_of_class-behind :
    (after : List Requirement) (class : String)
    → All (λ q. requirement_class q ≢ class) after
    → last_of_class requirement_class after class ≡ none
unfolding last_of_class
last_of_class-behind [] class h = refl
last_of_class-behind (q ∷ after) class (apart, h) =
    let rest = last_of_class-behind after class h in
    let other : str_eq (requirement_class q) class ≡ false =
      elim (Bool-cases (str_eq (requirement_class q) class)) [
        | inl same ↦ absurd (apart ((eq_iff (requirement_class q) class).0 same))
        | inr other ↦ other
      ] in
    rw (rest, other) refl

last_of_class-last :
    (before after : List Requirement) (r : Requirement)
    → All (λ q. requirement_class q ≢ requirement_class r) after
    → last_of_class requirement_class (before ++ r ∷ after) (requirement_class r) ≡ some r
unfolding last_of_class
last_of_class-last [] after r h =
    rw
      (
        last_of_class-behind after (requirement_class r) h,
        (eq_iff (requirement_class r) (requirement_class r)).1 refl,
      )
      refl
last_of_class-last (q ∷ before) after r h = rw (last_of_class-last before after r h) refl

-- Of the requirements that a pushed frame declares, the last one of its class is in effect for
-- that class, as a requirement, whatever the frames around it declare.
pub get_requirement-push :
    (s : Scope) (f : Frame) (before after : List Requirement) (r : Requirement)
    → f.reqs ≡ before ++ r ∷ after
    → All (λ q. requirement_class q ≢ requirement_class r) after
    → get_requirement (push_frame s f) (requirement_class r) ≡ (some r, origin_requirements)
unfolding get_requirement push_frame
get_requirement-push s f before after r e h =
    let class = requirement_class r in
    let last : last_of_class requirement_class f.reqs class ≡ some r =
      ap (λ reqs. last_of_class requirement_class reqs class) e
      ∙ last_of_class-last before after r h in
    let ends = filter_frames-ends f s.frames in
    let found =
      ap (λ t. required_in t class) ends.whole
      ∙ required_in-append ends.front f class
      ∙ ap (λ o. later o (required_in ends.front class)) last in
    ap (λ o. with_origin o (hinted_in (filter_frames (s.frames ++ f ∷ [])) class)) found

module _ {A : Type 0} (class_of : A → String) (class : String) where
  last_of_class-kept :
      valid_for_command_line_tool class ≡ false
      → (xs : List A) → last_of_class class_of (keep_valid class_of xs) class ≡ none
  unfolding last_of_class keep_valid
  last_of_class-kept h [] = refl
  last_of_class-kept h (x ∷ xs) =
      let rest = last_of_class-kept h xs in
      if-elim (λ t. last_of_class class_of t class ≡ none)
        (valid_for_command_line_tool (class_of x)) _ (keep_valid class_of xs)
        (λ valid. rw rest (
          if-elim (λ (o : Option A). o ≡ none) (str_eq (class_of x) class) (some x) none
            (λ e. absurd (
              false≢true (
                sym h
                ∙ sym (ap valid_for_command_line_tool ((eq_iff (class_of x) class).0 e))
                ∙ valid)))
            (λ _. refl)))
        (λ _. rest)

outer-none :
    (class : String) (frames : List Frame)
    → valid_for_command_line_tool class ≡ false
    → (required_in (map keep_frame frames) class ≡ none)
      × (hinted_in (map keep_frame frames) class ≡ none)
unfolding required_in hinted_in keep_valid
outer-none class [] h = (refl, refl)
outer-none class (f ∷ frames) h =
    let (reqs, hints) = outer-none class frames h in
    let none_required : last_of_class requirement_class (keep_frame f).reqs class ≡ none =
      last_of_class-kept requirement_class class h f.reqs in
    let none_hinted : last_of_class hint_class (keep_frame f).hints class ≡ none =
      last_of_class-kept hint_class class h f.hints in
    (ground arith, ground arith)

hinted_in-append :
    (xs : List Frame) (f : Frame) (class : String)
    → hinted_in (xs ++ f ∷ []) class ≡ later (hinted_in (f ∷ []) class) (hinted_in xs class)
unfolding hinted_in
hinted_in-append [] f class = ground arith
hinted_in-append (x ∷ xs) f class = ground (arith, hinted_in-append xs f class)

-- A class that a command line tool does not inherit is in effect for a pushed tool only as the
-- tool itself declares it, as a requirement or as a hint.
pub get_requirement-own :
    (s : Scope) (tool : Frame) (class : String)
    → tool.class ≡ "CommandLineTool"
    → valid_for_command_line_tool class ≡ false
    → get_requirement (push_frame s tool) class ≡ get_requirement (new_scope (some tool)) class
unfolding get_requirement push_frame new_scope
get_requirement-own s tool class is_tool invalid =
    let (reqs, hints) = outer-none class s.frames invalid in
    let alone = filter_frames-tool tool [] is_tool in
    let below = filter_frames-tool tool s.frames is_tool in
    let required =
      ap (λ t. required_in t class) below
      ∙ required_in-append (map keep_frame s.frames) tool class
      ∙ ap (later (last_of_class requirement_class tool.reqs class)) reqs in
    let required_alone =
      ap (λ t. required_in t class) alone
      ∙ required_in-append [] tool class
      ∙ ap (later (last_of_class requirement_class tool.reqs class)) (unfold required_in in refl) in
    let hinted =
      ap (λ t. hinted_in t class) below
      ∙ hinted_in-append (map keep_frame s.frames) tool class
      ∙ ap (later (hinted_in (tool ∷ []) class)) hints in
    let hinted_alone =
      ap (λ t. hinted_in t class) alone
      ∙ hinted_in-append [] tool class
      ∙ ap (later (hinted_in (tool ∷ []) class)) (unfold hinted_in in refl) in
    ap₂ with_origin (required ∙ sym required_alone) (hinted ∙ sym hinted_alone)
