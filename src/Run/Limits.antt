-- ===== src/Run/Limits.antt =====
-- The cap on running handlers, and the stop after a failure, along a run.
use mathlib.Core.Path.{subst}
use mathlib.Core.Bool.{false≢true}
use cwl_go.Prelude.{
  ◌⊎◌, ℕ, suc, ◌+◌, ◌≤◌, String, ◌≡◌, refl, sym, ap, ◌∙◌, inl, inr, true, false, some, Bool-cases,
  str_eq, eq_iff, arith, Map,
}
use cwl_go.Prelude.Int.{pos}
use cwl_go.Value.{Value}
use cwl_go.Run.Types.{StepState, PlannedStep, Runner, Loop}
use cwl_go.Run.Outcomes.{is_failure}
use cwl_go.Run.Loop.{below_cap, has_capacity, new_loop, start_step}
use cwl_go.Run.Dispatch.{dispatch, dispatch_round, start_ready_steps, launch_pending, deliver}
use cwl_go.Run.Frames.{Touches, start_step-Touches, launch-Touches, deliver-Touches}
use cwl_go.Run.Moves.{Move, start, begin, arrive, Moves, here, next}
use cwl_go.Run.Effects.{Effect, start_step-Effect, launch-Launched, deliver-Effect}

-- What a move does: it writes one step, and adds handlers only below the cap.
record Caused (r : Runner) (l u : Loop) : Type 0 where
  step : PlannedStep
  touches : Touches step.id l u
  base : Loop
  effect : Effect r step l base
  more : ℕ
  few : (more ≡ 0) ⊎ ((more ≤ 1) × (has_capacity r l ≡ true))
  raised : u ≡ record base { running = base.running + more }

module _ (r : Runner) where
  Move-Caused : (l u : Loop) → Move r l u → Caused r l u
  Move-Caused l u (start step m can e) = record {
    step = step;
    touches = rw e (start_step-Touches r step l);
    base = start_step r step l;
    effect = start_step-Effect r step l;
    more = 0;
    few = inl refl;
    raised = e ∙ ground arith;
  }
  Move-Caused l u (begin step i job can room _ _ _ e) =
      let launched = launch-Launched r step i job l in
      record {
        step = step;
        touches = rw e (launch-Touches r step i job l);
        base = launched.base;
        effect = launched.effect;
        more = launched.more;
        few = inr (launched.at_most_one, room);
        raised = e ∙ launched.raised;
      }
  Move-Caused l u (arrive step i result er f e) = record {
    step = step;
    touches = rw e (deliver-Touches r step i result er l);
    base = deliver r step i result er l;
    effect = deliver-Effect r step i result er l;
    more = 0;
    few = inl refl;
    raised = e ∙ ground arith;
  }

  room_below :
      (cap : ℕ) (l : Loop)
      → r.max_parallel ≡ pos (suc cap)
      → has_capacity r l ≡ true
      → l.running ≤ cap
  room_below cap l bound room =
      let below : below_cap (pos (suc cap)) l.running ≡ true =
        subst (λ m. below_cap m l.running ≡ true) bound room in
      ground arith

  Move-capped :
      (cap : ℕ) (l u : Loop)
      → Move r l u
      → r.max_parallel ≡ pos (suc cap)
      → l.running ≤ suc cap
      → u.running ≤ suc cap
  Move-capped cap l u m bound h =
      let c = Move-Caused l u m in
      let count = ap (λ (t : Loop). t.running) c.raised in
      let shrinks = c.effect.running in
      elim c.few [
        | inl still ↦ omega (arith, count, shrinks, still, h)
        | inr (one, room) ↦ omega (arith, count, shrinks, one, room_below cap l bound room)
      ]

  Moves-capped :
      (cap : ℕ) (l u : Loop)
      → Moves r l u
      → r.max_parallel ≡ pos (suc cap)
      → l.running ≤ suc cap
      → u.running ≤ suc cap
  Moves-capped cap l u here bound h = h
  Moves-capped cap l u (next {m = m} ms last) bound h =
      Move-capped cap m u last bound (Moves-capped cap l m ms bound h)

  -- Where the cap is one or more, a run from its initial state never counts more running handlers
  -- than the cap, in any state that it reaches.
  pub running_below_cap :
      (cap : ℕ) (inputs : Map Value) (u : Loop)
      → Moves r (new_loop inputs) u
      → r.max_parallel ≡ pos (suc cap)
      → u.running ≤ suc cap
  running_below_cap cap inputs u ms bound =
      Moves-capped cap (new_loop inputs) u ms bound (omega arith)

  record StopsOnFailure (l : Loop) : Type 0 where
    at : (id : String) → is_failure (l.steps id).status ≡ true → l.stopped ≡ true

  own_stops :
      (l u : Loop)
      → (c : Caused r l u) → r.on_error_continue ≡ false
      → StopsOnFailure l
      → is_failure (u.steps c.step.id).status ≡ true
      → u.stopped ≡ true
  own_stops l u c policy h failed =
      let same : u.stopped ≡ c.base.stopped = ap (λ (t : Loop). t.stopped) c.raised in
      let own = sym (ap (λ (t : Loop). is_failure (t.steps c.step.id).status) c.raised) ∙ failed in
      elim (c.effect.fails policy own) [
        | inl old ↦ same ∙ c.effect.stopped (h.at c.step.id old)
        | inr halted ↦ same ∙ halted
      ]

  Move-StopsOnFailure :
      (l u : Loop) → Move r l u → r.on_error_continue ≡ false → StopsOnFailure l → StopsOnFailure u
  Move-StopsOnFailure l u m policy h =
      let c = Move-Caused l u m in
      record {
        at = λ id failed. elim (Bool-cases (str_eq c.step.id id)) [
          | inl same ↦ own_stops l u c policy h (
              subst (λ k. is_failure (u.steps k).status ≡ true) (sym ((eq_iff c.step.id id).0 same))
                failed)
          | inr other ↦
              let before =
                ap (λ (s : StepState). is_failure s.status) (sym (c.touches.steps id other))
                ∙ failed in
              ap (λ (t : Loop). t.stopped) c.raised ∙ c.effect.stopped (h.at id before)
        ];
      }

  Moves-StopsOnFailure :
      (l u : Loop) → Moves r l u → r.on_error_continue ≡ false → StopsOnFailure l → StopsOnFailure u
  Moves-StopsOnFailure l u here policy h = h
  Moves-StopsOnFailure l u (next {m = m} ms last) policy h =
      Move-StopsOnFailure m u last policy (Moves-StopsOnFailure l m ms policy h)

  stopped-dispatch : (fuel : ℕ) (l : Loop) → l.stopped ≡ true → dispatch (suc fuel) r l ≡ some l
  unfolding dispatch dispatch_round start_ready_steps launch_pending
  stopped-dispatch fuel l h = rw h refl

  -- Unless the policy is to continue, a run with a failed step stops: dispatch ends after one
  -- round without starting a step or launching an invocation.
  pub failure_stops :
      (inputs : Map Value) (u : Loop) (id : String) (fuel : ℕ)
      → Moves r (new_loop inputs) u
      → r.on_error_continue ≡ false
      → is_failure (u.steps id).status ≡ true
      → dispatch (suc fuel) r u ≡ some u
  failure_stops inputs u id fuel ms policy failed = stopped-dispatch fuel u (
      (Moves-StopsOnFailure (new_loop inputs) u ms policy
          (record { at = λ j bad. absurd (false≢true bad) })).at
        id failed)
