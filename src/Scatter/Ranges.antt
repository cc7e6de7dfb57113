-- ===== src/Scatter/Ranges.antt =====
-- `expanderFor`: the expansion of arrays whose grid fits an int does not panic.
use cwl_go.Prelude.{◌≡◌, ◌⊎◌, Result, ok, err, ◌>>=◌, dotproduct_length}
use cwl_go.Value.{Value}
use cwl_go.Scatter.Jobs.{Expansion}

-- The call returns a value.
abbrev pub Returns : {A : Type 0} → Result A → Type 0
Returns {A} r = (a : A) × (r ≡ ok a)

-- The arrays are expanded, or they do not have the same length.
abbrev pub IsExpanded : Expansion → Type 0
IsExpanded r = Returns r ⊎ (r ≡ err dotproduct_length)
