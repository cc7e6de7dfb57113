-- ===== src/Run/Samples.antt =====
-- One value picked out of two.
use cwl_go.Prelude.{◌≡◌, ◌≢◌, refl, [], ◌∷◌, ok}
use cwl_go.Prelude.Int.{pos}
use cwl_go.Value.{Value, null, int, array}
use cwl_go.Run.Types.{the_only_non_null, no_pick}
use cwl_go.Run.Sinks.{pick, as_items, non_null, select_picked}
use cwl_go.Run.Picked.{IsPicked, pick-IsPicked}

abbrev two : Value
two = array (null ∷ int (pos 7) ∷ [])

picks : the_only_non_null ≢ no_pick
picks e = cc

seven : pick the_only_non_null two ≡ ok (int (pos 7))
unfolding pick non_null select_picked
seven = refl

pick-IsPicked_example : IsPicked (as_items two) the_only_non_null (int (pos 7))
pick-IsPicked_example = pick-IsPicked the_only_non_null two (int (pos 7)) picks seven
