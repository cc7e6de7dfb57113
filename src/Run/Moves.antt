-- ===== src/Run/Moves.antt =====
-- The run as a step relation: a step is started, an invocation is launched, or one that is in
-- flight is delivered. `dispatch` makes such moves only.
use mathlib.Core.Path.{subst}
use mathlib.Core.Option.{some-injective}
use cwl_go.Prelude.{
  ℕ, zero, suc, ◌+◌, ◌≡◌, refl, inl, inr, Bool, true, false, not, ◌&&◌, Option, none, some, List,
  [], ◌∷◌, arith, if-elim, length, get_elem?, Among, Error,
}
use cwl_go.Run.Types.{HandlerResult, RunJob, PlannedStep, Runner, Loop}
use cwl_go.Run.Loop.{is_unset, start_step, has_capacity, launch}
use cwl_go.Run.Dispatch.{
  can_start, start_if, start_steps, start_ready_steps, is_waiting, launch_if, launch_from,
  can_launch, launch_steps, launch_pending, dispatch_round, dispatch, deliver,
}
use cwl_go.Run.Settled.{InFlight}
use cwl_go.Run.Started.{StartedAt, launch-StartedAt}

pub data Move (r : Runner) (l u : Loop) : Type 0 where
  start :
      (step : PlannedStep)
      → Among step r.steps
      → can_start l step ≡ true
      → u ≡ start_step r step l
      → Move r l u
  begin :
      (step : PlannedStep) (i : ℕ) (job : RunJob)
      → can_launch l step ≡ true
      → has_capacity r l ≡ true
      → get_elem? (l.jobs step.id) i ≡ some job
      → job.dispatched ≡ false
      → is_waiting (get_elem? (l.steps step.id).jobs i) ≡ true
      → u ≡ launch r step i job l
      → Move r l u
  arrive :
      (step : PlannedStep) (i : ℕ) (result : HandlerResult) (e : Option Error)
      → InFlight (l.steps step.id) (l.jobs step.id) i
      → u ≡ deliver r step i result e l
      → Move r l u

pub data Moves (r : Runner) (l : Loop) : Loop → Type 0 where
  here : Moves r l l
  next : {m u : Loop} → Moves r l m → Move r m u → Moves r l u

pub Moves-trans : {r : Runner} {l m u : Loop} → Moves r l m → Moves r m u → Moves r l u
Moves-trans a here = a
Moves-trans a (next b m) = next (Moves-trans a b) m

-- What a round may do: start a ready step, or launch a waiting invocation while there is capacity.
pub data Work (r : Runner) (l u : Loop) : Type 0 where
  start :
      (step : PlannedStep)
      → Among step r.steps
      → can_start l step ≡ true
      → u ≡ start_step r step l
      → Work r l u
  begin :
      (step : PlannedStep) (i : ℕ) (job : RunJob)
      → can_launch l step ≡ true
      → has_capacity r l ≡ true
      → get_elem? (l.jobs step.id) i ≡ some job
      → job.dispatched ≡ false
      → is_waiting (get_elem? (l.steps step.id).jobs i) ≡ true
      → u ≡ launch r step i job l
      → Work r l u

pub data Works (r : Runner) (l : Loop) : Loop → Type 0 where
  idle : Works r l l
  work : {m u : Loop} → Works r l m → Work r m u → Works r l u

Works-trans : {r : Runner} {l m u : Loop} → Works r l m → Works r m u → Works r l u
Works-trans a idle = a
Works-trans a (work b m) = work (Works-trans a b) m

Works-Moves : {r : Runner} {l u : Loop} → Works r l u → Moves r l u
Works-Moves idle = here
Works-Moves (work ws (Work.start step m can e)) = next (Works-Moves ws) (Move.start step m can e)
Works-Moves (work ws (Work.begin step i job can room at new waits e)) =
    next (Works-Moves ws) (Move.begin step i job can room at new waits e)

module _ (r : Runner) where
  start_if-Works :
      (step : PlannedStep) (can : Bool) (l : Loop) (b : Bool)
      → Among step r.steps
      → can_start l step ≡ can
      → Works r l (start_if r step can (l, b)).0
  start_if-Works step true l b h e = work idle (Work.start step h e refl)
  start_if-Works step false l b h e = idle

  start_steps-Works :
      (steps : List PlannedStep) (state : Loop × Bool)
      → ((step : PlannedStep) → Among step steps → Among step r.steps)
      → Works r state.0 (start_steps r steps state).0
  unfolding start_steps
  start_steps-Works [] state h = idle
  start_steps-Works (step ∷ steps) (l, b) h =
      Works-trans (start_if-Works step (can_start l step) l b (h step (inl refl)) refl)
        (start_steps-Works steps (start_if r step (can_start l step) (l, b)) (λ s m. h s (inr m)))

  start_ready_steps-Works : (l : Loop) → Works r l (start_ready_steps r l).0
  unfolding start_ready_steps
  start_ready_steps-Works l =
      if-elim (λ (t : Loop × Bool). Works r l t.0) l.stopped (l, false) _ (λ _. idle)
        (λ _. start_steps-Works r.steps (l, false) (λ s m. m))

  launch_if-Works :
      (step : PlannedStep) (i : ℕ) (o : Option RunJob) (l : Loop) (b : Bool)
      → get_elem? (l.jobs step.id) i ≡ o
      → can_launch l step ≡ true
      → has_capacity r l ≡ true
      → Works r l (launch_if r step i o (l, b)).0 × StartedAt r step (launch_if r step i o (l, b)).0
  launch_if-Works step i none l b e can room = (idle, ground arith)
  launch_if-Works step i (some job) l b e can room =
      if-elim (λ (t : Loop × Bool). Works r l t.0 × StartedAt r step t.0)
        (not job.dispatched && is_waiting (get_elem? (l.steps step.id).jobs i))
        (launch r step i job l, true) (l, b)
        (λ go. (
          work idle (Work.begin step i job can room e (ground arith) (ground arith) refl),
          launch-StartedAt r step i job l (ground arith),
        ))
        (λ _. (idle, ground arith))

  launch_from-Works :
      (step : PlannedStep) (left i : ℕ) (state : Loop × Bool)
      → StartedAt r step state.0
      → Works r state.0 (launch_from r step left i state).0
  unfolding launch_from
  launch_from-Works step zero i (l, b) h = idle
  launch_from-Works step (suc left) i (l, b) h =
      let after = launch_if r step i (get_elem? (l.jobs step.id) i) (l, b) in
      if-elim (λ (t : Loop × Bool × Bool). Works r l t.0)
        (has_capacity r l && is_unset (l.steps step.id).status) _ (l, b, false)
        (λ go.
          let (moves, started) =
            launch_if-Works step i (get_elem? (l.jobs step.id) i) l b refl (ground arith)
              (ground arith) in
          Works-trans moves (launch_from-Works step left (i + 1) after started))
        (λ _. idle)

  launch_steps-Works :
      (steps : List PlannedStep) (state : Loop × Bool)
      → Works r state.0 (launch_steps r steps state).0
  unfolding launch_steps
  launch_steps-Works [] state = idle
  launch_steps-Works (step ∷ steps) (l, b) =
      let n = length (l.jobs step.id) in
      if-elim (λ (t : Loop × Bool). Works r l t.0) (can_launch l step) _ _
        (λ can.
          let moves = launch_from-Works step n 0 (l, b) (ground arith) in
          if-elim (λ (t : Loop × Bool). Works r l t.0) (launch_from r step n 0 (l, b)).2 _ _
            (λ _. Works-trans moves (launch_steps-Works steps _)) (λ _. moves))
        (λ _. launch_steps-Works steps (l, b))

  launch_pending-Works : (l : Loop) → Works r l (launch_pending r l).0
  unfolding launch_pending
  launch_pending-Works l =
      if-elim (λ (t : Loop × Bool). Works r l t.0) l.stopped (l, false) _ (λ _. idle)
        (λ _. launch_steps-Works r.steps (l, false))

  pub dispatch_round-Works : (l : Loop) → Works r l (dispatch_round r l).0
  unfolding dispatch_round
  dispatch_round-Works l =
      Works-trans (start_ready_steps-Works l) (launch_pending-Works (start_ready_steps r l).0)

  dispatch_round-Moves : (l : Loop) → Moves r l (dispatch_round r l).0
  dispatch_round-Moves l = Works-Moves (dispatch_round-Works l)

  -- Whatever dispatch does, where it ends, is a sequence of moves: ready steps started, waiting
  -- invocations launched while there is capacity.
  pub dispatch-Moves : (fuel : ℕ) (l u : Loop) → dispatch fuel r l ≡ some u → Moves r l u
  unfolding dispatch
  dispatch-Moves zero l u e = cc
  dispatch-Moves (suc fuel) l u e =
      let round = dispatch_round-Moves l in
      let l' = (dispatch_round r l).0 in
      let found =
        if-elim (λ (o : Option Loop). o ≡ some u → Moves r l u) (dispatch_round r l).1
          (dispatch fuel r l') (some l') (λ _ e'. Moves-trans round (dispatch-Moves fuel l' u e'))
          (λ _ e'. subst (Moves r l) (some-injective _ _ e') round) in
      found e
