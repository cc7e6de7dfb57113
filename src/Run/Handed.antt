-- ===== src/Run/Handed.antt =====
-- What `Pending` hands out.
use mathlib.Core.Path.{subst}
use cwl_go.Prelude.{
  ℕ, zero, suc, ◌+◌, ◌≤◌, ◌≡◌, refl, ◌∙◌, Bool, true, false, not, ◌&&◌, Option, none, some, List,
  [], ◌∷◌, arith, if-elim, length, length-append, get_elem?, Result, ok, err,
}
use cwl_go.Prelude.Int.{pos}
use cwl_go.Run.Types.{RunJob, PlannedStep, Runner, Loop}
use cwl_go.Run.Loop.{is_unset, has_capacity, below_cap, no_result, mark_launched}
use cwl_go.Run.Dispatch.{can_start, start_if, start_steps, start_ready_steps, is_waiting}
use cwl_go.Run.Counted.{start_step-running, record_done-running}
use cwl_go.Run.Pending.{
  DispatchLoop, Batch, build_called, build_if, collect_jobs, collect_step, collect_steps,
  pending_batch, in_flight,
}

module _ (r : Runner) where
  start_steps-running :
      (steps : List PlannedStep) (state : Loop × Bool)
      → ((start_steps r steps state).0).running ≡ (state.0).running
  unfolding start_steps
  start_steps-running [] state = refl
  start_steps-running (step ∷ steps) (l, b) =
      start_steps-running steps (start_if r step (can_start l step) (l, b)) ∙ one (can_start l step)
    where
      one : (can : Bool) → ((start_if r step can (l, b)).0).running ≡ l.running
      one true = start_step-running r step l
      one false = refl

  start_ready_steps-running : (l : Loop) → ((start_ready_steps r l).0).running ≡ l.running
  unfolding start_ready_steps
  start_ready_steps-running l =
      if-elim (λ (t : Loop × Bool). (t.0).running ≡ l.running) l.stopped (l, false) _ (λ _. refl)
        (λ _. start_steps-running r.steps (l, false))

  -- From `a` to `b`, as many handlers, invocations and identifiers were added, and handlers only
  -- below the cap.
  pub record Hands (a b : Batch) : Type 0 where
    pub more : ℕ
    pub running : in_flight b.0 ≡ in_flight a.0 + more
    pub dispatched : length b.0.dispatched ≡ length a.0.dispatched + more
    pub batch : length b.1 ≡ length a.1 + more
    pub capped :
        (cap : ℕ)
        → r.max_parallel ≡ pos (suc cap)
        → in_flight a.0 ≤ suc cap
        → in_flight b.0 ≤ suc cap

  Hands-refl : (a : Batch) → Hands a a
  Hands-refl a = record {
    more = 0;
    running = omega arith;
    dispatched = omega arith;
    batch = omega arith;
    capped = λ cap h k. k;
  }

  Hands-trans : (a b c : Batch) → Hands a b → Hands b c → Hands a c
  Hands-trans a b c f g = record {
    more = f.more + g.more;
    running = omega (arith, f.running, g.running);
    dispatched = omega (arith, f.dispatched, g.dispatched);
    batch = omega (arith, f.batch, g.batch);
    capped = λ cap h k. g.capped cap h (f.capped cap h k);
  }

  build_called-Hands :
      (step : PlannedStep) (i : ℕ) (c : Result (Unit {0})) (a : Batch)
      → has_capacity r a.0.loop ≡ true
      → Hands a (build_called r step i c a)
  unfolding build_called
  build_called-Hands step i (err e) (d, batch) room =
      let same = record_done-running r step i no_result (some e) d.loop in
      record {
        more = 0;
        running = omega (arith, same);
        dispatched = omega arith;
        batch = omega arith;
        capped = λ cap h k. omega (arith, same, k);
      }
  build_called-Hands step i (ok _) (d, batch) room =
      let same : (mark_launched step i d.loop).running ≡ d.loop.running =
        unfold mark_launched in refl in
      record {
        more = 1;
        running = omega (arith, same);
        dispatched = length-append d.dispatched _;
        batch = length-append batch _;
        capped = λ cap h k.
            let below : below_cap (pos (suc cap)) d.loop.running ≡ true =
              subst (λ m. below_cap m d.loop.running ≡ true) h room in
            ground arith;
      }

  build_if-Hands :
      (step : PlannedStep) (i : ℕ) (o : Option RunJob) (a : Batch)
      → has_capacity r a.0.loop ≡ true
      → Hands a (build_if r step i o a)
  build_if-Hands step i none a room = Hands-refl a
  build_if-Hands step i (some job) (d, batch) room =
      if-elim (Hands (d, batch))
        (not job.dispatched && is_waiting (get_elem? (d.loop.steps step.id).jobs i)) _ (d, batch)
        (λ _. build_called-Hands step i (r.engine.new_call step job) (d, batch) room)
        (λ _. Hands-refl (d, batch))

  collect_jobs-Hands :
      (step : PlannedStep) (left i : ℕ) (a : Batch) → Hands a (collect_jobs r step left i a)
  unfolding collect_jobs
  collect_jobs-Hands step zero i a = Hands-refl a
  collect_jobs-Hands step (suc left) i (d, batch) =
      let job = get_elem? (d.loop.jobs step.id) i in
      let after = build_if r step i job (d, batch) in
      let rest = collect_jobs-Hands step left (i + 1) after in
      if-elim (Hands (d, batch)) (has_capacity r d.loop && is_unset (d.loop.steps step.id).status) _
        (d, batch)
        (λ go.
          Hands-trans (d, batch) after _ (build_if-Hands step i job (d, batch) (ground arith)) rest)
        (λ _. Hands-refl (d, batch))

  collect_step-Hands : (step : PlannedStep) (a : Batch) → Hands a (collect_step r step a)
  unfolding collect_step
  collect_step-Hands step (d, batch) =
      if-elim (Hands (d, batch))
        ((d.loop.steps step.id).started && is_unset (d.loop.steps step.id).status) _ (d, batch)
        (λ _. collect_jobs-Hands step (length (d.loop.jobs step.id)) 0 (d, batch))
        (λ _. Hands-refl (d, batch))

  collect_steps-Hands : (steps : List PlannedStep) (a : Batch) → Hands a (collect_steps r steps a)
  unfolding collect_steps
  collect_steps-Hands [] a = Hands-refl a
  collect_steps-Hands (step ∷ steps) (d, batch) =
      let after = collect_step r step (d, batch) in
      let rest = collect_steps-Hands steps after in
      if-elim (Hands (d, batch)) (has_capacity r d.loop) _ (d, batch)
        (λ _. Hands-trans (d, batch) after _ (collect_step-Hands step (d, batch)) rest)
        (λ _. Hands-refl (d, batch))

  -- Pending hands out as many invocations as it adds to the running and to the dispatched ones,
  -- and where the cap is one or more and not exceeded before, it is not exceeded after.
  pub pending_batch-Hands : (d : DispatchLoop) → Hands (d, []) (pending_batch r d)
  unfolding pending_batch
  pending_batch-Hands d =
      let begun = record d { loop = (start_ready_steps r d.loop).0 } in
      let same = start_ready_steps-running d.loop in
      let rest = collect_steps-Hands r.steps (begun, []) in
      record {
        more = rest.more;
        running = omega (arith, rest.running, same);
        dispatched = rest.dispatched;
        batch = rest.batch;
        capped = λ cap h k. rest.capped cap h (omega (arith, same, k));
      }
