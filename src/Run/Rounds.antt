-- ===== src/Run/Rounds.antt =====
-- pkg/cwlexec: one round of `dispatch`, what it does and what it reports.
use mathlib.Core.Bool.{false≢true}
use cwl_go.Prelude.{◌≡◌, sym, ◌∙◌, Bool, inl, inr, true, false, Among}
use cwl_go.Run.Types.{PlannedStep, Runner, Loop}
use cwl_go.Run.Dispatch.{can_start, dispatch_round}
use cwl_go.Run.Measure.{IsBelow}
use cwl_go.Run.Moves.{Works, dispatch_round-Works}
use cwl_go.Run.Passes.{round_cases}
use cwl_go.Run.Ends.{quiet_round}

-- What a round does to the state, by the progress that it reports.
pub record IsRound (r : Runner) (l : Loop) (done : Loop × Bool) : Type 0 where
  pub works : Works r l done.0
  pub progress : done.1 ≡ true → IsBelow r.steps l done.0
  pub same : done.1 ≡ false → done.0 ≡ l
  pub none_left :
      done.1 ≡ false
      → l.stopped ≡ false
      → (step : PlannedStep) → Among step r.steps
      → can_start l step ≡ false

-- A round of dispatch only starts planned steps that can start and launches waiting invocations
-- while there is capacity. Where it reports progress, fewer steps are left to start, or as many
-- steps and fewer invocations to launch; where it reports none, the state is as before, and unless
-- the run has stopped, no planned step can start.
pub dispatch_round-IsRound : (r : Runner) (l : Loop) → IsRound r l (dispatch_round r l)
dispatch_round-IsRound r l = record {
  works = dispatch_round-Works r l;
  progress = λ on. elim (round_cases r l) [
    | inl (_, below) ↦ below
    | inr (off, _, _) ↦ absurd (false≢true (sym off ∙ on))
  ];
  same = λ off. elim (round_cases r l) [
    | inl (on, _) ↦ absurd (false≢true (sym off ∙ on))
    | inr (_, same, _) ↦ same
  ];
  none_left = λ off going step m. elim (round_cases r l) [
    | inl (on, _) ↦ absurd (false≢true (sym off ∙ on))
    | inr (_, _, starts) ↦ quiet_round r l step starts going m
  ];
}
