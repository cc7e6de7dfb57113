-- ===== src/Run/Measure.antt =====
-- Two counts that dispatching lowers: steps that have not started, and jobs that were not launched.
use mathlib.Core.Path.{subst}
use mathlib.Core.Option.{some-injective}
use cwl_go.Prelude.{
  ℕ, zero, suc, ◌+◌, ◌≤◌, ◌<◌, String, ◌≡◌, refl, sym, ap, ◌∙◌, ◌⊎◌, inl, inr, Bool, true, false,
  not, Option, none, some, List, [], ◌∷◌, arith, str_eq, eq_iff, Bool-cases, get_elem?, modify,
  Among, Error,
}
use cwl_go.Run.Types.{RunJob, PlannedStep, Loop}
use cwl_go.Run.Loop.{mark_dispatched, mark_error}
use cwl_go.Run.Frames.{Touches}

abbrev bit : Bool → ℕ
bit true = 1
bit false = 0

-- Steps of the list that have not started.
abbrev pub idle : Loop → List PlannedStep → ℕ
idle l [] = 0
idle l (step ∷ steps) = bit (not (l.steps step.id).started) + idle l steps

abbrev pub unlaunched : List RunJob → ℕ
unlaunched [] = 0
unlaunched (job ∷ jobs) = bit (not job.dispatched) + unlaunched jobs

-- Jobs of the steps of the list that were not launched.
abbrev pub pending : Loop → List PlannedStep → ℕ
pending l [] = 0
pending l (step ∷ steps) = unlaunched (l.jobs step.id) + pending l steps

-- `u` is below `l` in the lexicographic order of the two counts.
abbrev pub IsBelow : List PlannedStep → Loop → Loop → Type 0
IsBelow steps l u =
    (idle u steps < idle l steps)
    ⊎ ((idle u steps ≤ idle l steps) × (pending u steps < pending l steps))

pub IsBelow-trans :
    (steps : List PlannedStep) (l m u : Loop)
    → IsBelow steps l m
    → IsBelow steps m u
    → IsBelow steps l u
IsBelow-trans steps l m u a b = ground arith

pub unlaunched-dispatch :
    (jobs : List RunJob) (i : ℕ) (job : RunJob)
    → get_elem? jobs i ≡ some job
    → job.dispatched ≡ false
    → unlaunched (modify jobs i mark_dispatched) < unlaunched jobs
unlaunched-dispatch [] i job e h = cc
unlaunched-dispatch (j ∷ jobs) zero job e h =
    let same : j.dispatched ≡ false =
      subst (λ (t : RunJob). t.dispatched ≡ false) (sym (some-injective _ _ e)) h in
    rw same (omega arith)
unlaunched-dispatch (j ∷ jobs) (suc i) job e h = omega (arith, unlaunched-dispatch jobs i job e h)

pub unlaunched-error :
    (jobs : List RunJob) (i : ℕ) (e : Option Error)
    → unlaunched (modify jobs i (mark_error e)) ≡ unlaunched jobs
unlaunched-error [] i e = refl
unlaunched-error (j ∷ jobs) zero none = refl
unlaunched-error (j ∷ jobs) zero (some e) = refl
unlaunched-error (j ∷ jobs) (suc i) e = omega (arith, unlaunched-error jobs i e)

module _ (id : String) (l u : Loop) (t : Touches id l u) (on : (u.steps id).started ≡ true) where
  -- The count of one step of the list.
  idle_at : (j : String) → bit (not (u.steps j).started) ≤ bit (not (l.steps j).started)
  idle_at j = elim (Bool-cases (str_eq id j)) [
    | inl same ↦
        subst (λ k. bit (not (u.steps k).started) ≤ bit (not (l.steps k).started))
          ((eq_iff id j).0 same) (rw on (omega arith))
    | inr other ↦ rw (t.steps j other) (omega arith)
  ]

  pub idle-le : (steps : List PlannedStep) → idle u steps ≤ idle l steps
  idle-le [] = omega arith
  idle-le (step ∷ steps) = omega (arith, idle_at step.id, idle-le steps)

  pub idle-lt :
      (steps : List PlannedStep) (step : PlannedStep)
      → Among step steps
      → step.id ≡ id
      → (l.steps id).started ≡ false
      → idle u steps < idle l steps
  idle-lt [] step m e off = absurd m
  idle-lt (s ∷ steps) step (inl same) e off =
      let here : bit (not (u.steps s.id).started) < bit (not (l.steps s.id).started) =
        subst (λ k. bit (not (u.steps k).started) < bit (not (l.steps k).started))
          (sym e ∙ ap (λ (t : PlannedStep). t.id) (sym same)) (rw (on, off) (omega arith)) in
      omega (arith, here, idle-le steps)
  idle-lt (s ∷ steps) step (inr m) e off = omega (arith, idle_at s.id, idle-lt steps step m e off)

module _ (id : String) (l u : Loop) (t : Touches id l u)
    (fewer : unlaunched (u.jobs id) < unlaunched (l.jobs id)) where
  pending_at : (j : String) → unlaunched (u.jobs j) ≤ unlaunched (l.jobs j)
  pending_at j = elim (Bool-cases (str_eq id j)) [
    | inl same ↦
        subst (λ k. unlaunched (u.jobs k) ≤ unlaunched (l.jobs k)) ((eq_iff id j).0 same)
          (omega (arith, fewer))
    | inr other ↦ rw (t.jobs j other) (omega arith)
  ]

  pending-le : (steps : List PlannedStep) → pending u steps ≤ pending l steps
  pending-le [] = omega arith
  pending-le (step ∷ steps) = omega (arith, pending_at step.id, pending-le steps)

  pub pending-lt :
      (steps : List PlannedStep) (step : PlannedStep)
      → Among step steps
      → step.id ≡ id
      → pending u steps < pending l steps
  pending-lt [] step m e = absurd m
  pending-lt (s ∷ steps) step (inl same) e =
      let here : unlaunched (u.jobs s.id) < unlaunched (l.jobs s.id) =
        subst (λ k. unlaunched (u.jobs k) < unlaunched (l.jobs k))
          (sym e ∙ ap (λ (t : PlannedStep). t.id) (sym same)) fewer in
      omega (arith, here, pending-le steps)
  pending-lt (s ∷ steps) step (inr m) e = omega (arith, pending_at s.id, pending-lt steps step m e)
