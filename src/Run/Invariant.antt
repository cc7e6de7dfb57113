-- ===== src/Run/Invariant.antt =====
-- What holds all along a run: invocations in flight belong to open steps, a step with an outcome
-- never changes, and a step starts only behind the steps it depends on.
use mathlib.Core.Path.{subst, subst₂}
use mathlib.Core.Bool.{false≢true}
use cwl_go.Prelude.{
  String, ◌≡◌, refl, sym, ap, ◌∙◌, inl, inr, true, false, arith, str_eq, eq_iff, Bool-cases,
}
use cwl_go.Run.Types.{StepState, PlannedStep, Runner, Loop}
use cwl_go.Run.Loop.{is_unset, start_step, launch}
use cwl_go.Run.Dispatch.{can_start, can_launch, deliver}
use cwl_go.Run.Frames.{Touches, start_step-Touches, launch-Touches, deliver-Touches}
use cwl_go.Run.Settled.{IsOpen, IsSettled, IsIdle, IsIdle-IsSettled, start_step-IdleAt}
use cwl_go.Run.Recorded.{launch-SettledAt, deliver-SettledAt}
use cwl_go.Run.Moves.{Move, start, begin, arrive, Moves, here, next}

-- Every invocation in flight belongs to a step that has started and has no outcome.
pub record AllSettled (l : Loop) : Type 0 where
  pub at : (id : String) → IsSettled (l.steps id) (l.jobs id)

module _ (r : Runner) where
  -- A move of one step keeps the others as they are.
  touched-AllSettled :
      (id : String) (l u : Loop)
      → Touches id l u
      → AllSettled l
      → IsSettled (u.steps id) (u.jobs id)
      → AllSettled u
  touched-AllSettled id l u t h own = record {
    at = λ j. elim (Bool-cases (str_eq id j)) [
      | inl same ↦ subst (λ k. IsSettled (u.steps k) (u.jobs k)) ((eq_iff id j).0 same) own
      | inr other ↦
          subst₂ (λ s jobs. IsSettled s jobs) (sym (t.steps j other)) (sym (t.jobs j other))
            (h.at j)
    ];
  }

  can_launch-IsOpen :
      (l : Loop) (step : PlannedStep) → can_launch l step ≡ true → IsOpen (l.steps step.id)
  can_launch-IsOpen l step h = ground arith

  start-IsIdle :
      (l : Loop) (step : PlannedStep)
      → AllSettled l
      → can_start l step ≡ true
      → IsIdle (l.steps step.id) (l.jobs step.id)
  start-IsIdle l step h can i f = let (started, _) = (h.at step.id).at i f in ground arith

  Move-AllSettled : (l u : Loop) → Move r l u → AllSettled l → AllSettled u
  Move-AllSettled l u (start step m can e) h = rw e (
      touched-AllSettled step.id l (start_step r step l) (start_step-Touches r step l) h
        (IsIdle-IsSettled (start_step-IdleAt r step l (start-IsIdle l step h can))))
  Move-AllSettled l u (begin step i job can room _ _ _ e) h = rw e (
      touched-AllSettled step.id l (launch r step i job l) (launch-Touches r step i job l) h
        (launch-SettledAt r step i job l (can_launch-IsOpen l step can)))
  Move-AllSettled l u (arrive step i result er f e) h = rw e (
      touched-AllSettled step.id l (deliver r step i result er l)
        (deliver-Touches r step i result er l) h
        (deliver-SettledAt r step i result er l (h.at step.id)))

  -- The step that a move is about, which is open before it.
  pub record Moved (l u : Loop) : Type 0 where
    pub id : String
    pub touches : Touches id l u
    pub unset_before : is_unset (l.steps id).status ≡ true

  Move-Moved : (l u : Loop) → Move r l u → AllSettled l → Moved l u
  Move-Moved l u (start step m can e) h = record {
    id = step.id;
    touches = rw e (start_step-Touches r step l);
    unset_before = ground arith;
  }
  Move-Moved l u (begin step i job can room _ _ _ e) h = record {
    id = step.id;
    touches = rw e (launch-Touches r step i job l);
    unset_before = ground arith;
  }
  Move-Moved l u (arrive step i result er f e) h = record {
    id = step.id;
    touches = rw e (deliver-Touches r step i result er l);
    unset_before = ((h.at step.id).at i f).1;
  }

  pub Move-frozen :
      (l u : Loop) (id : String)
      → Move r l u
      → AllSettled l
      → is_unset (l.steps id).status ≡ false
      → u.steps id ≡ l.steps id
  Move-frozen l u id m h done =
      let moved = Move-Moved l u m h in
      elim (Bool-cases (str_eq moved.id id)) [
        | inl same ↦ absurd (
            false≢true (
              sym done
              ∙ subst (λ k. is_unset (l.steps k).status ≡ true) ((eq_iff moved.id id).0 same)
                  moved.unset_before))
        | inr other ↦ moved.touches.steps id other
      ]

  -- The moves of a run keep it so.
  pub Moves-AllSettled : (l u : Loop) → Moves r l u → AllSettled l → AllSettled u
  Moves-AllSettled l u here h = h
  Moves-AllSettled l u (next {m = m} ms last) h =
      Move-AllSettled m u last (Moves-AllSettled l m ms h)

  -- Once a step has an outcome, its record never changes again in the run, provided every
  -- invocation in flight belongs to a step that has started and has no outcome.
  pub outcome_frozen :
      (l u : Loop) (id : String)
      → Moves r l u
      → AllSettled l
      → is_unset (l.steps id).status ≡ false
      → u.steps id ≡ l.steps id
  outcome_frozen l u id here h done = refl
  outcome_frozen l u id (next {m = m} ms last) h done =
      let same = outcome_frozen l m id ms h done in
      let done' = ap (λ (s : StepState). is_unset s.status) same ∙ done in
      Move-frozen m u id last (Moves-AllSettled l m ms h) done' ∙ same
