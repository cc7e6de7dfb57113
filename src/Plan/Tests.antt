-- ===== src/Plan/Tests.antt =====
-- A plan of three steps in a chain, and one whose steps wait for each other.
use mathlib.Core.Path.{subst}
use cwl_go.Prelude.{
  String, ◌≡◌, ◌≢◌, refl, sym, true, false, Bool, none, some, List, [], ◌∷◌, ok, err,
  unknown_source, arith, inl, inr, Among, All,
}
use cwl_go.Run.Types.{success, PlannedStep, Loop}
use cwl_go.Run.Resumed.{by_id}
use cwl_go.Run.Loop.{ready, source_value, new_loop}
use cwl_go.Run.Sourced.{AreRead}
use cwl_go.Run.Workflow.{runner, first, second, step_named}
use cwl_go.Plan.Edges.{resolve_step_edges}
use cwl_go.Plan.Wired.{resolve_step_edges-AreRead}
use cwl_go.Plan.Cycles.{unmarked, Visit, Marks, visited, cyclic, panics, out_of_fuel, check_acyclic}
use cwl_go.Plan.Acyclic.{IsAcyclic, AreNamed, check_acyclic-IsAcyclic}
use cwl_go.Plan.Enough.{check_acyclic_ends}
use cwl_go.Plan.Complete.{AreKnown, Passes, check_acyclic_complete}

abbrev chain : List PlannedStep
chain = step_named "third" [] ("first" ∷ "second" ∷ []) ∷ second ∷ first ∷ []

abbrev loop : List PlannedStep
loop = step_named "left" [] ("right" ∷ []) ∷ step_named "right" [] ("left" ∷ []) ∷ []

loop_found : check_acyclic 3 loop ≡ cyclic
unfolding check_acyclic
loop_found = refl

missing_step : check_acyclic 2 (second ∷ []) ≡ panics
unfolding check_acyclic
missing_step = refl

abbrev marks_of : Visit → Marks
marks_of (visited m) = m
marks_of _ = λ id. unmarked

abbrev is_visited : Visit → Bool
is_visited (visited m) = true
is_visited _ = false

visited_lem : (v : Visit) → is_visited v ≡ true → v ≡ visited (marks_of v)
visited_lem (visited m) h = refl
visited_lem cyclic h = cc
visited_lem panics h = cc
visited_lem out_of_fuel h = cc

abbrev chain_marks : Marks
chain_marks = marks_of (check_acyclic 4 chain)

chain-is_visited : is_visited (check_acyclic 4 chain) ≡ true
unfolding check_acyclic
chain-is_visited = refl

chain_visited : check_acyclic 4 chain ≡ visited chain_marks
chain_visited = visited_lem (check_acyclic 4 chain) chain-is_visited

chain-AreNamed : AreNamed chain
unfolding by_id
chain-AreNamed step (inl same) = subst (λ s. by_id chain s.id ≡ some s) same refl
chain-AreNamed step (inr (inl same)) = subst (λ s. by_id chain s.id ≡ some s) same refl
chain-AreNamed step (inr (inr (inl same))) = subst (λ s. by_id chain s.id ≡ some s) same refl
chain-AreNamed step (inr (inr (inr never))) = absurd never

check_acyclic-IsAcyclic_example : IsAcyclic chain
check_acyclic-IsAcyclic_example =
    check_acyclic-IsAcyclic 4 chain chain_marks chain-AreNamed chain_visited

check_acyclic_ends_example : check_acyclic 3 loop ≢ out_of_fuel
check_acyclic_ends_example = check_acyclic_ends loop 3 (omega arith)

abbrev Known : String → Type 0
Known d = (s : PlannedStep) × (by_id chain d ≡ some s)

chain-AreKnown : AreKnown chain
unfolding by_id
chain-AreKnown step (inl same) d among = deps_known (subst (λ s. Among d s.deps) (sym same) among)
  where
    deps_known : Among d ("first" ∷ "second" ∷ []) → (s : PlannedStep) × (by_id chain d ≡ some s)
    deps_known (inl e) = subst Known e (first, refl)
    deps_known (inr (inl e)) = subst Known e (second, refl)
    deps_known (inr (inr never)) = absurd never
chain-AreKnown step (inr (inl same)) d among =
    deps_known (subst (λ s. Among d s.deps) (sym same) among)
  where
    deps_known : Among d ("first" ∷ []) → (s : PlannedStep) × (by_id chain d ≡ some s)
    deps_known (inl e) = subst Known e (first, refl)
    deps_known (inr never) = absurd never
chain-AreKnown step (inr (inr (inl same))) d among =
    absurd (subst (λ s. Among d s.deps) (sym same) among)
chain-AreKnown step (inr (inr (inr never))) d among = absurd never

check_acyclic_complete_example : Passes 4 chain
check_acyclic_complete_example =
    check_acyclic_complete chain 4
      (check_acyclic-IsAcyclic 4 chain chain_marks chain-AreNamed chain_visited) chain-AreKnown
      (omega arith)

abbrev planned_second : PlannedStep
planned_second = record second { deps = "first" ∷ [] }

second_planned : resolve_step_edges runner.sources (record second { deps = [] }) ≡ ok planned_second
unfolding resolve_step_edges
second_planned = refl

unknown_rejected : resolve_step_edges (λ source. none) second ≡ err unknown_source
unfolding resolve_step_edges
unknown_rejected = refl

abbrev all_succeeded : Loop
all_succeeded = record (new_loop []) {
  steps = λ id. record {
    outputs = [];
    status = success;
    error = none;
    jobs = [];
    shape = none;
    started = true;
  };
}

all_ready : ready all_succeeded ("first" ∷ []) ≡ true
unfolding ready
all_ready = refl

resolve_step_edges-AreRead_example :
    All (λ i. AreRead (source_value runner all_succeeded) i.sources) planned_second.ins
resolve_step_edges-AreRead_example =
    resolve_step_edges-AreRead runner (record second { deps = [] }) planned_second all_succeeded
      second_planned all_ready
