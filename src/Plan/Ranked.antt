-- ===== src/Plan/Ranked.antt =====
-- pkg/cwlexec/plan.go: the marks of the search for cycles, and a rank for the steps that are shut.
use mathlib.Core.Path.{subst}
use mathlib.Core.Option.{some-injective}
use cwl_go.Prelude.{
  ℕ, suc, ◌<◌, String, ◌≡◌, ◌≢◌, ◌⊎◌, refl, sym, ap, ◌∙◌, inl, inr, true, false, Option, some,
  arith, str_eq, eq_iff, Bool-cases, Among, if◌then◌else◌,
}
use cwl_go.Run.Types.{PlannedStep, update}
use cwl_go.Plan.Cycles.{Mark, unmarked, opened, shut, Marks}

pub update_same : (m : Marks) (id u : String) (v : Mark) → str_eq id u ≡ true → update m id v u ≡ v
update_same m id u v e = rw e refl

pub update_other :
    (m : Marks) (id u : String) (v : Mark) → str_eq id u ≡ false → update m id v u ≡ m u
update_other m id u v e = rw e refl

-- Two marks at one place are one mark.
differ : (m : Marks) (id u : String) → m id ≡ m u ⊎ (str_eq id u ≡ false)
differ m id u = elim (Bool-cases (str_eq id u)) [
  | inl same ↦ inl (ap m ((eq_iff id u).0 same))
  | inr other ↦ inr other
]

pub other_mark :
    (m : Marks) (id u : String) (a b : Mark) → m id ≡ a → m u ≡ b → a ≢ b → str_eq id u ≡ false
other_mark m id u a b e f apart = elim (differ m id u) [
  | inl same ↦ absurd (apart (sym e ∙ same ∙ f))
  | inr other ↦ other
]

-- Shut steps depend on shut steps of smaller rank.
pub record Ranked (find : String → Option PlannedStep) (m : Marks) : Type 0 where
  pub rank : String → ℕ
  pub bound : ℕ
  pub below : (u : String) → m u ≡ shut → rank u < bound
  pub ordered :
      (u : String) (step : PlannedStep)
      → find u ≡ some step
      → m u ≡ shut
      → (d : String) → Among d step.deps
      → (m d ≡ shut) × (rank d < rank u)

-- A search leaves what is open open, and what is shut shut.
pub record Keeps (m n : Marks) : Type 0 where
  pub shuts : (u : String) → m u ≡ shut → n u ≡ shut
  pub opens : (u : String) → m u ≡ opened → n u ≡ opened

pub Keeps-refl : (m : Marks) → Keeps m m
Keeps-refl m = record { shuts = λ u h. h; opens = λ u h. h }

pub Keeps-trans : (m n o : Marks) → Keeps m n → Keeps n o → Keeps m o
Keeps-trans m n o h i = record {
  shuts = λ u e. i.shuts u (h.shuts u e);
  opens = λ u e. i.opens u (h.opens u e);
}

-- Opening an unmarked step.
pub Ranked-open :
    (find : String → Option PlannedStep) (m : Marks) (id : String)
    → m id ≡ unmarked
    → Ranked find m
    → Ranked find (update m id opened)
Ranked-open find m id new h = record {
  rank = h.rank;
  bound = h.bound;
  below = λ u e. h.below u (was_shut u e);
  ordered = λ u step f e d among.
      let (dep_shut, less) = h.ordered u step f (was_shut u e) d among in
      (
        update_other m id d opened (other_mark m id d unmarked shut new dep_shut (λ c. cc))
            ∙ dep_shut,
        less,
      );
}
  where
    was_shut : (u : String) → update m id opened u ≡ shut → m u ≡ shut
    was_shut u e = elim (Bool-cases (str_eq id u)) [
      | inl same ↦ let clash : opened ≡ shut = sym (update_same m id u opened same) ∙ e in cc
      | inr other ↦ sym (update_other m id u opened other) ∙ e
    ]

-- Shutting a step behind its dependencies.
module _ (find : String → Option PlannedStep) (m : Marks) (step : PlannedStep)
    (found : find step.id ≡ some step) (own : m step.id ≡ opened)
    (deps : (d : String) → Among d step.deps → m d ≡ shut) (h : Ranked find m) where
  new_rank : String → ℕ
  new_rank u = if str_eq step.id u then h.bound else h.rank u

  old_rank : (u : String) → m u ≡ shut → new_rank u ≡ h.rank u
  unfolding new_rank
  old_rank u e = rw (other_mark m step.id u opened shut own e (λ c. cc)) refl

  pub stays : (u : String) → m u ≡ shut → update m step.id shut u ≡ shut
  stays u e = update_other m step.id u shut (other_mark m step.id u opened shut own e (λ c. cc)) ∙ e

  shut_below : (u : String) → update m step.id shut u ≡ shut → new_rank u < suc h.bound
  unfolding new_rank
  shut_below u e = elim (Bool-cases (str_eq step.id u)) [
    | inl same ↦ rw same (omega arith)
    | inr other ↦
        let less = h.below u (sym (update_other m step.id u shut other) ∙ e) in
        rw other (omega arith)
  ]

  shut_ordered :
      (u : String) (s : PlannedStep)
      → find u ≡ some s
      → update m step.id shut u ≡ shut
      → (d : String) → Among d s.deps
      → (update m step.id shut d ≡ shut) × (new_rank d < new_rank u)
  unfolding new_rank
  shut_ordered u s f e d among = elim (Bool-cases (str_eq step.id u)) [
    | inl same ↦
        let one : s ≡ step =
          some-injective _ _ (sym f ∙ ap find (sym ((eq_iff step.id u).0 same)) ∙ found) in
        let dep = deps d (subst (λ t. Among d t.deps) one among) in
        let less = h.below d dep in (stays d dep, rw (old_rank d dep, same) less)
    | inr other ↦
        let before = h.ordered u s f (sym (update_other m step.id u shut other) ∙ e) d among in
        (stays d before.0, rw (old_rank d before.0, other) before.1)
  ]

  pub Ranked-shut : Ranked find (update m step.id shut)
  Ranked-shut = record {
    rank = new_rank;
    bound = suc h.bound;
    below = shut_below;
    ordered = shut_ordered;
  }
