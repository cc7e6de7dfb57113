-- ===== src/Run/Injected.antt =====
-- A resumed outcome lands on a waiting invocation, and on nothing else.
use mathlib.Core.Path.{subst}
use mathlib.Core.Option.{some-injective}
use cwl_go.Prelude.{
  ℕ, zero, suc, ◌≢◌, inl, inr, String, modify, str_eq, eq_iff, Bool-cases, ◌≡◌, refl, sym, ap, ◌∙◌,
  true, ◌&&◌, Option, none, some, List, [], ◌∷◌, arith, if-elim, get_elem?, OnOk, OnOk-bind,
  OnOk-elim, ok,
}
use cwl_go.Prelude.Int.{ℤ}
use cwl_go.Run.Types.{
  Status, success, skipped, permanent_fail, temporary_fail, suspended, unset, unknown, StepState,
  update, JobState, PlannedStep, Runner, Loop, Engine,
}
use cwl_go.Run.Loop.{is_terminal}
use cwl_go.Run.Resumed.{
  ResumedStep, index_eq, is_suspended, find_suspended, suspended_at, no_suspension_unless,
  next_index, resume_by, check_declared_outputs, write_job, inject_one, resume_job, by_id,
}

-- The invocation at `i` waited at the coordinates of the resumed step, and its record alone is
-- replaced, by one with the resumed status, which is final, and no suspension: every other
-- invocation, every other step, and what else the state holds is as before.
pub record IsResumed (resumed : ResumedStep) (l u : Loop) : Type 0 where
  pub i : ℕ
  pub old : JobState
  pub new : JobState
  pub has_job : get_elem? (l.steps resumed.step_id).jobs i ≡ some old
  pub waited : is_suspended old.status ≡ true
  pub placed : index_eq old.index resumed.scatter_index ≡ true
  pub written : get_elem? (u.steps resumed.step_id).jobs i ≡ some new
  pub other_jobs :
      (k : ℕ)
      → k ≢ i
      → get_elem? (u.steps resumed.step_id).jobs k ≡ get_elem? (l.steps resumed.step_id).jobs k
  pub other_steps : (id : String) → id ≢ resumed.step_id → u.steps id ≡ l.steps id
  pub same_step :
      u.steps resumed.step_id
      ≡ record (l.steps resumed.step_id) { jobs = (u.steps resumed.step_id).jobs }
  pub same_loop : u ≡ record l { steps = u.steps }
  pub status : new.status ≡ resumed.status
  pub final : is_terminal new.status ≡ true
  pub cleared : new.suspension ≡ none
  pub index : new.index ≡ old.index

-- The record of one invocation is replaced.
record Writes (id : String) (i : ℕ) (new : JobState) (l u : Loop) : Type 0 where
  written : get_elem? (u.steps id).jobs i ≡ some new
  other_jobs : (k : ℕ) → k ≢ i → get_elem? (u.steps id).jobs k ≡ get_elem? (l.steps id).jobs k
  other_steps : (other : String) → other ≢ id → u.steps other ≡ l.steps other
  same_step : u.steps id ≡ record (l.steps id) { jobs = (u.steps id).jobs }
  same_loop : u ≡ record l { steps = u.steps }

module _ {A : Type 0} (f : A → A) where
  modify_at :
      (xs : List A) (i : ℕ) {x : A}
      → get_elem? xs i ≡ some x
      → get_elem? (modify xs i f) i ≡ some (f x)
  modify_at [] i e = cc
  modify_at (x ∷ xs) zero e = ap (λ y. some (f y)) (some-injective _ _ e)
  modify_at (x ∷ xs) (suc i) e = modify_at xs i e

  modify_elsewhere : (xs : List A) (i k : ℕ) → k ≢ i → get_elem? (modify xs i f) k ≡ get_elem? xs k
  modify_elsewhere [] i k h = refl
  modify_elsewhere (x ∷ xs) zero zero h = absurd (h refl)
  modify_elsewhere (x ∷ xs) zero (suc k) h = refl
  modify_elsewhere (x ∷ xs) (suc i) zero h = refl
  modify_elsewhere (x ∷ xs) (suc i) (suc k) h = modify_elsewhere xs i k (λ e. h (ap suc e))

write_job-Writes :
    (id : String) (i : ℕ) (new old : JobState) (l : Loop)
    → get_elem? (l.steps id).jobs i ≡ some old
    → Writes id i new l (write_job id i new l)
unfolding write_job
write_job-Writes id i new old l e =
    let step : StepState = record (l.steps id) { jobs = modify (l.steps id).jobs i (λ _. new) } in
    let own : update l.steps id step id ≡ step = rw ((eq_iff id id).1 refl) refl in
    record {
      written =
          ap (λ (s : StepState). get_elem? s.jobs i) own
          ∙ modify_at (λ _. new) (l.steps id).jobs i e;
      other_jobs = λ k apart.
          ap (λ (s : StepState). get_elem? s.jobs k) own
          ∙ modify_elsewhere (λ _. new) (l.steps id).jobs i k apart;
      other_steps = λ other apart. elim (Bool-cases (str_eq id other)) [
        | inl same ↦ absurd (apart (sym ((eq_iff id other).0 same)))
        | inr differs ↦ rw differs refl
      ];
      same_step = own ∙ ap (λ (s : StepState). record (l.steps id) { jobs = s.jobs }) (sym own);
      same_loop = refl;
    }

record Waiting (states : List JobState) (index : List ℤ) (i : ℕ) : Type 0 where
  job : JobState
  has_job : get_elem? states i ≡ some job
  waited : is_suspended job.status ≡ true
  placed : index_eq job.index index ≡ true

OnSome : (ℕ → Type 0) → Option ℕ → Type 0
OnSome P none = Unit
OnSome P (some i) = P i

next-Waiting :
    (js : JobState) (states : List JobState) (index : List ℤ) (o : Option ℕ)
    → OnSome (Waiting states index) o
    → OnSome (Waiting (js ∷ states) index) (next_index o)
unfolding OnSome
next-Waiting js states index none h = tt
next-Waiting js states index (some i) h = record {
  job = h.job;
  has_job = h.has_job;
  waited = h.waited;
  placed = h.placed;
}

find_suspended-Waiting :
    (states : List JobState) (index : List ℤ)
    → OnSome (Waiting states index) (find_suspended states index)
unfolding find_suspended OnSome
find_suspended-Waiting [] index = tt
find_suspended-Waiting (js ∷ states) index =
    if-elim (OnSome (Waiting (js ∷ states) index))
      (is_suspended js.status && index_eq js.index index) (some 0) _
      (λ h. record { job = js; has_job = refl; waited = ground arith; placed = ground arith })
      (λ _. next-Waiting js states index _ (find_suspended-Waiting states index))

record IsFinal (resumed : ResumedStep) (old new : JobState) : Type 0 where
  status : new.status ≡ resumed.status
  final : is_terminal resumed.status ≡ true
  cleared : new.suspension ≡ none
  index : new.index ≡ old.index

resume_by-IsFinal :
    (s : Status) (e : Engine) (step : PlannedStep) (resumed : ResumedStep) (js : JobState)
    → resumed.status ≡ s
    → OnOk (IsFinal resumed js) (resume_by s e step resumed js)
unfolding resume_by
resume_by-IsFinal success e step resumed js h =
    OnOk-bind (IsFinal resumed js) (check_declared_outputs e step resumed.outputs) _
      λ checked _. record { status = refl; final = ap is_terminal h; cleared = refl; index = refl }
resume_by-IsFinal skipped e step resumed js h = record {
  status = refl;
  final = ap is_terminal h;
  cleared = refl;
  index = refl;
}
resume_by-IsFinal permanent_fail e step resumed js h = record {
  status = refl;
  final = ap is_terminal h;
  cleared = refl;
  index = refl;
}
resume_by-IsFinal temporary_fail e step resumed js h = record {
  status = refl;
  final = ap is_terminal h;
  cleared = refl;
  index = refl;
}
resume_by-IsFinal unset e step resumed js h = tt
resume_by-IsFinal suspended e step resumed js h = tt
resume_by-IsFinal (unknown s) e step resumed js h = tt

resume_job-IsResumed :
    (r : Runner) (resumed : ResumedStep) (l : Loop) (step : PlannedStep) (i : ℕ)
    (o : Option JobState)
    → Waiting (l.steps resumed.step_id).jobs resumed.scatter_index i
    → get_elem? (l.steps resumed.step_id).jobs i ≡ o
    → OnOk (IsResumed resumed l) (resume_job r resumed l step i o)
unfolding resume_job
resume_job-IsResumed r resumed l step i none w h = tt
resume_job-IsResumed r resumed l step i (some js) w h =
    OnOk-bind (IsResumed resumed l) (resume_by resumed.status r.engine step resumed js) _
      λ new made.
        let f =
          OnOk-elim (IsFinal resumed js)
            (resume_by-IsFinal resumed.status r.engine step resumed js refl) made in
        let w' = write_job-Writes resumed.step_id i new js l h in
        let same : w.job ≡ js = some-injective _ _ (sym w.has_job ∙ h) in
        record {
          i = i;
          old = js;
          new = new;
          has_job = h;
          waited = subst (λ (t : JobState). is_suspended t.status ≡ true) same w.waited;
          placed =
              subst (λ (t : JobState). index_eq t.index resumed.scatter_index ≡ true) same w.placed;
          written = w'.written;
          other_jobs = w'.other_jobs;
          other_steps = w'.other_steps;
          same_step = w'.same_step;
          same_loop = w'.same_loop;
          status = f.status;
          final = ap is_terminal f.status ∙ f.final;
          cleared = f.cleared;
          index = f.index;
        }

found-Waiting :
    (states : List JobState) (index : List ℤ) (o : Option ℕ)
    → OnSome (Waiting states index) o
    → OnOk (Waiting states index) (no_suspension_unless o)
unfolding OnSome
found-Waiting states index none h = tt
found-Waiting states index (some i) h = h

suspended_at-Waiting :
    (r : Runner) (resumed : ResumedStep) (l : Loop)
    → OnOk
        (λ found. Waiting (l.steps resumed.step_id).jobs resumed.scatter_index found.1)
        (suspended_at r resumed l)
unfolding suspended_at
suspended_at-Waiting r resumed l =
    OnOk-bind (λ found. Waiting (l.steps resumed.step_id).jobs resumed.scatter_index found.1)
      (no_suspension_unless (by_id r.steps resumed.step_id)) _
      λ step _.
        OnOk-bind (λ found. Waiting (l.steps resumed.step_id).jobs resumed.scatter_index found.1)
          (no_suspension_unless
            (find_suspended (l.steps resumed.step_id).jobs resumed.scatter_index))
          _
          λ i e.
            OnOk-elim (Waiting (l.steps resumed.step_id).jobs resumed.scatter_index)
              (found-Waiting (l.steps resumed.step_id).jobs resumed.scatter_index _
                (find_suspended-Waiting (l.steps resumed.step_id).jobs resumed.scatter_index))
              e

-- Where injectOne succeeds, the resumed step addresses a waiting invocation, which takes the
-- resumed status, which is final, and drops its suspension; every other invocation and step, and
-- the rest of the state, are as before.
pub inject_one-IsResumed :
    (r : Runner) (resumed : ResumedStep) (l u : Loop)
    → inject_one r resumed l ≡ ok u
    → IsResumed resumed l u
inject_one-IsResumed r resumed l u e = OnOk-elim (IsResumed resumed l) (all_written r resumed l) e
  where
    all_written :
        (r : Runner) (resumed : ResumedStep) (l : Loop)
        → OnOk (IsResumed resumed l) (inject_one r resumed l)
    all_written r resumed l =
        unfold inject_one in
        OnOk-bind (IsResumed resumed l) (suspended_at r resumed l) _ λ found e.
          resume_job-IsResumed r resumed l found.0 found.1 _
            (OnOk-elim
              (λ found. Waiting (l.steps resumed.step_id).jobs resumed.scatter_index found.1)
              (suspended_at-Waiting r resumed l) e)
            refl
