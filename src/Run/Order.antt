-- ===== src/Run/Order.antt =====
-- Steps start only behind the steps that they depend on.
use mathlib.Core.Path.{subst}
use mathlib.Core.Bool.{false≢true}
use mathlib.Core.Option.{none-ne-some}
use cwl_go.Prelude.{
  String, ◌≡◌, sym, ap, ◌∙◌, inl, inr, true, false, List, [], ◌∷◌, arith, str_eq, eq_iff,
  Bool-cases, Among, Map,
}
use cwl_go.Value.{Value}
use cwl_go.Run.Types.{Status, StepState, PlannedStep, Runner, Loop}
use cwl_go.Run.Loop.{is_unset, is_produced, ready, new_loop}
use cwl_go.Run.Frames.{Touches, start_step-Touches, launch-Touches, deliver-Touches}
use cwl_go.Run.Moves.{Move, start, begin, arrive, Moves, here, next}
use cwl_go.Run.Invariant.{AllSettled, Moves-AllSettled, Move-frozen}

pub new_loop-AllSettled : (inputs : Map Value) → AllSettled (new_loop inputs)
new_loop-AllSettled inputs = record {
  at = λ id. record { at = λ i f. absurd (none-ne-some _ f.has_job) };
}

-- A planned step with this name, all of whose dependencies have produced outputs.
pub record IsBehind (r : Runner) (l : Loop) (id : String) : Type 0 where
  pub step : PlannedStep
  pub planned : Among step r.steps
  pub named : step.id ≡ id
  pub deps_ready : (dep : String) → Among dep step.deps → is_produced (l.steps dep).status ≡ true

pub record AllBehind (r : Runner) (l : Loop) : Type 0 where
  pub at : (id : String) → (l.steps id).started ≡ true → IsBehind r l id

produced_set : (s : Status) → is_produced s ≡ true → is_unset s ≡ false
produced_set s h = ground arith

started_before :
    (own : String) (l v u : Loop) (id : String)
    → Touches own l v
    → u ≡ v
    → str_eq own id ≡ false
    → (u.steps id).started ≡ true
    → (l.steps id).started ≡ true
started_before own l v u id t e other on =
    ap (λ (s : StepState). s.started) (sym (t.steps id other))
    ∙ ap (λ (t : Loop). (t.steps id).started) (sym e)
    ∙ on

started_same :
    (l : Loop) (own id : String)
    → str_eq own id ≡ true
    → (l.steps own).started ≡ true
    → (l.steps id).started ≡ true
started_same l own id same = subst (λ k. (l.steps k).started ≡ true) ((eq_iff own id).0 same)

module _ (r : Runner) where
  pub ready-each :
      (l : Loop) (deps : List String)
      → ready l deps ≡ true
      → (dep : String) → Among dep deps
      → is_produced (l.steps dep).status ≡ true
  unfolding ready
  ready-each l [] h dep m = absurd m
  ready-each l (d ∷ deps) h dep (inl same) =
      subst (λ k. is_produced (l.steps k).status ≡ true) same (ground arith)
  ready-each l (d ∷ deps) h dep (inr m) = ready-each l deps (ground arith) dep m

  IsBehind-kept :
      (l u : Loop) (id : String) → Move r l u → AllSettled l → IsBehind r l id → IsBehind r u id
  IsBehind-kept l u id m h b = record {
    step = b.step;
    planned = b.planned;
    named = b.named;
    deps_ready = λ dep among.
        let made = b.deps_ready dep among in
        ap (λ (s : StepState). is_produced s.status)
          (Move-frozen r l u dep m h (produced_set _ made))
        ∙ made;
  }

  -- The own step of a move: it is planned and ready, or had started before.
  moved_own :
      (l u : Loop) (id : String)
      → Move r l u
      → AllSettled l
      → AllBehind r l
      → (u.steps id).started ≡ true
      → IsBehind r l id
  moved_own l u id (start step m can e) h b on = elim (Bool-cases (str_eq step.id id)) [
    | inl same ↦ record {
      step = step;
      planned = m;
      named = (eq_iff step.id id).0 same;
      deps_ready = ready-each l step.deps (ground arith);
    }
    | inr other ↦ b.at id (started_before step.id l _ u id (start_step-Touches r step l) e other on)
  ]
  moved_own l u id (begin step i job can room _ _ _ e) h b on =
      elim (Bool-cases (str_eq step.id id)) [
        | inl same ↦ b.at id (started_same l step.id id same (ground arith))
        | inr other ↦
            b.at id (started_before step.id l _ u id (launch-Touches r step i job l) e other on)
      ]
  moved_own l u id (arrive step i result er f e) h b on = elim (Bool-cases (str_eq step.id id)) [
    | inl same ↦ b.at id (started_same l step.id id same ((h.at step.id).at i f).0)
    | inr other ↦
        b.at id (started_before step.id l _ u id (deliver-Touches r step i result er l) e other on)
  ]

  Move-AllBehind : (l u : Loop) → Move r l u → AllSettled l → AllBehind r l → AllBehind r u
  Move-AllBehind l u m h b = record {
    at = λ id on. IsBehind-kept l u id m h (moved_own l u id m h b on);
  }

  Moves-AllBehind : (l u : Loop) → Moves r l u → AllSettled l → AllBehind r l → AllBehind r u
  Moves-AllBehind l u here h b = b
  Moves-AllBehind l u (next {m = m} ms last) h b =
      Move-AllBehind m u last (Moves-AllSettled r l m ms h) (Moves-AllBehind l m ms h b)

  -- In any state that a new run reaches, a step that has started is a planned step, and every step
  -- that it depends on has succeeded or was skipped.
  pub started-IsBehind :
      (inputs : Map Value) (u : Loop) (id : String)
      → Moves r (new_loop inputs) u
      → (u.steps id).started ≡ true
      → IsBehind r u id
  started-IsBehind inputs u id ms on =
      (Moves-AllBehind (new_loop inputs) u ms (new_loop-AllSettled inputs)
          (record { at = λ j off. absurd (false≢true off) })).at
        id on

-- In any state that a new run reaches, every invocation in flight belongs to a step that has
-- started and has no outcome.
pub reached-AllSettled :
    (r : Runner) (inputs : Map Value) (u : Loop) → Moves r (new_loop inputs) u → AllSettled u
reached-AllSettled r inputs u moves =
    Moves-AllSettled r (new_loop inputs) u moves (new_loop-AllSettled inputs)
