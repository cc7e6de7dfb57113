-- ===== src/Run/Ends.antt =====
-- `dispatch` ends, and only when nothing is left to start.
use mathlib.Core.Path.{subst}
use mathlib.Core.Bool.{false≢true}
use mathlib.Core.Option.{some-injective}
use cwl_go.Prelude.{
  ℕ, zero, suc, ◌≤◌, ◌<◌, ◌≡◌, refl, sym, ap, ◌∙◌, ◌⊎◌, inl, inr, Bool, true, false, some, List, [],
  ◌∷◌, arith, if◌then◌else◌, Among,
}
use cwl_go.Run.Types.{PlannedStep, Runner, Loop}
use cwl_go.Run.Loop.{start_step}
use cwl_go.Run.Dispatch.{
  can_start, start_if, start_steps, start_ready_steps, dispatch_round, dispatch,
}
use cwl_go.Run.Measure.{idle, pending}
use cwl_go.Run.Passes.{round_cases}

module _ (r : Runner) where
  -- Fuel for which `dispatch` returns, and the state that it returns.
  pub record Ends (l : Loop) : Type 0 where
    pub fuel : ℕ
    pub state : Loop
    pub success : dispatch fuel r l ≡ some state

  idle_round : (l : Loop) → (dispatch_round r l).1 ≡ false → Ends l
  idle_round l e = record {
    fuel = 1;
    state = (dispatch_round r l).0;
    success = unfold dispatch in rw e refl;
  }

  next_round : (l : Loop) → (dispatch_round r l).1 ≡ true → Ends (dispatch_round r l).0 → Ends l
  next_round l e h = record {
    fuel = suc h.fuel;
    state = h.state;
    success = unfold dispatch in rw (e, h.success) refl;
  }

  Ends-by :
      (l : Loop)
      → ((u : Loop) → idle u r.steps < idle l r.steps → Ends u)
      → ((u : Loop)
          → idle u r.steps ≤ idle l r.steps
          → pending u r.steps < pending l r.steps
          → Ends u)
      → Ends l
  Ends-by l first second = elim (round_cases r l) [
    | inl (e, inl lower) ↦ next_round l e (first (dispatch_round r l).0 lower)
    | inl (e, inr (same, lower)) ↦ next_round l e (second (dispatch_round r l).0 same lower)
    | inr (e, _, _) ↦ idle_round l e
  ]

  -- By the two counts, lexicographically.
  ends : (a b : ℕ) (l : Loop) → idle l r.steps ≤ a → pending l r.steps ≤ b → Ends l
  ends zero zero l h k =
      Ends-by l (λ u lower. absurd (omega (arith, lower, h)))
        (λ u same lower. absurd (omega (arith, lower, k)))
  ends zero (suc b) l h k =
      Ends-by l (λ u lower. absurd (omega (arith, lower, h)))
        (λ u same lower. ends zero b u (omega (arith, same, h)) (omega (arith, lower, k)))
  ends (suc a) zero l h k =
      Ends-by l (λ u lower. ends a (pending u r.steps) u (omega (arith, lower, h)) (omega arith))
        (λ u same lower. absurd (omega (arith, lower, k)))
  ends (suc a) (suc b) l h k =
      Ends-by l (λ u lower. ends a (pending u r.steps) u (omega (arith, lower, h)) (omega arith))
        (λ u same lower. ends (suc a) b u (omega (arith, same, h)) (omega (arith, lower, k)))

  -- From any state, dispatch returns a state when it is given enough rounds.
  pub dispatch-Ends : (l : Loop) → Ends l
  dispatch-Ends l = ends (idle l r.steps) (pending l r.steps) l (omega arith) (omega arith)

  raised :
      (step : PlannedStep) (can b : Bool) (l : Loop)
      → b ≡ true
      → (start_if r step can (l, b)).1 ≡ true
  raised step true b l h = refl
  raised step false b l h = h

  -- The flag stays raised.
  start_steps-raised :
      (steps : List PlannedStep) (state : Loop × Bool)
      → state.1 ≡ true
      → (start_steps r steps state).1 ≡ true
  unfolding start_steps
  start_steps-raised [] state h = h
  start_steps-raised (step ∷ steps) (l, b) h =
      start_steps-raised steps (start_if r step (can_start l step) (l, b))
        (raised step (can_start l step) b l h)

  -- A pass that starts nothing found no step that can start.
  start_steps-none :
      (steps : List PlannedStep) (l : Loop)
      → (start_steps r steps (l, false)).1 ≡ false
      → (step : PlannedStep) → Among step steps
      → can_start l step ≡ false
  unfolding start_steps
  start_steps-none [] l e step m = absurd m
  start_steps-none (s ∷ steps) l e step m =
      by_test (can_start l s) refl e m (λ f m'. start_steps-none steps l f step m')
    where
      by_test :
          (can : Bool)
          → can_start l s ≡ can
          → (start_steps r steps (start_if r s can (l, false))).1 ≡ false
          → (s ≡ step) ⊎ Among step steps
          → ((start_steps r steps (l, false)).1 ≡ false
              → Among step steps
              → can_start l step ≡ false)
          → can_start l step ≡ false
      by_test true e' f m' rest =
          absurd (false≢true (sym f ∙ start_steps-raised steps (start_step r s l, true) refl))
      by_test false e' f (inl same) rest = subst (λ t. can_start l t ≡ false) same e'
      by_test false e' f (inr m') rest = rest f m'

  pub quiet_round :
      (l : Loop) (step : PlannedStep)
      → start_ready_steps r l ≡ (l, false)
      → l.stopped ≡ false
      → Among step r.steps
      → can_start l step ≡ false
  quiet_round l step e on m = start_steps-none r.steps l (flag e on) step m
    where
      flag :
          start_ready_steps r l ≡ (l, false)
          → l.stopped ≡ false
          → (start_steps r r.steps (l, false)).1 ≡ false
      flag e on = ap (λ (t : Loop × Bool). t.1) (shut on ∙ e)
        where
          shut : l.stopped ≡ false → start_steps r r.steps (l, false) ≡ start_ready_steps r l
          shut on = unfold start_ready_steps in rw on refl

  -- Where dispatch returns and the run has not stopped, no planned step is left that could be
  -- started.
  pub dispatch-none_left :
      (fuel : ℕ) (l u : Loop) (step : PlannedStep)
      → dispatch fuel r l ≡ some u
      → u.stopped ≡ false
      → Among step r.steps
      → can_start u step ≡ false
  unfolding dispatch
  dispatch-none_left zero l u step e on m = cc
  dispatch-none_left (suc fuel) l u step e on m =
      let deeper = dispatch-none_left fuel (dispatch_round r l).0 u step in
      elim (round_cases r l) [
        | inl (going, _) ↦
            deeper
              (sym (
                  ap
                    (λ b.
                      if b
                      then dispatch fuel r (dispatch_round r l).0
                      else some (dispatch_round r l).0)
                    going)
                ∙ e)
              on m
        | inr (idle, same, starts) ↦
            let here : (dispatch_round r l).0 ≡ u = some-injective _ _ (
              sym (
                ap
                  (λ b.
                    if b
                    then dispatch fuel r (dispatch_round r l).0
                    else some (dispatch_round r l).0)
                  idle)
              ∙ e) in
            let last : l ≡ u = sym same ∙ here in
            subst (λ t. can_start t step ≡ false) last
              (quiet_round l step starts (subst (λ (t : Loop). t.stopped ≡ false) (sym last) on) m)
      ]
