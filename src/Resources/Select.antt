-- ===== src/Resources/Select.antt =====
-- pkg/cwlexec/resources.go: the choice of resources. Go's float64 is a parameter, with its `<` and math.Max.
use cwl_go.Prelude.{
  Bool, true, false, ◌&&◌, ltb, if◌then◌else◌, Result, err, ok, ◌>>=◌, resources_unavailable,
}
use cwl_go.Prelude.Int.{ℤ, pos, negsuc}

pub record Floats : Type 1 where
  pub Float : Type 0
  pub none_left : Float
  pub is_zero : Float → Bool
  pub lt : Float → Float → Bool
  pub max : Float → Float → Float

-- `<` on int64
abbrev pub lt_int : ℤ → ℤ → Bool
lt_int (pos a) (pos b) = ltb a b
lt_int (pos a) (negsuc b) = false
lt_int (negsuc a) (pos b) = true
lt_int (negsuc a) (negsuc b) = ltb b a

-- `max` on int64
abbrev pub max_int : ℤ → ℤ → ℤ
max_int a b = if lt_int a b then b else a

abbrev pub is_zero_int : ℤ → Bool
is_zero_int (pos a) = ltb a 1
is_zero_int (negsuc a) = false

pub record ResourceBudget (f : Floats) : Type 0 where
  pub cores : f.Float
  pub ram : ℤ
  pub tmp_dir : ℤ
  pub out_dir : ℤ

pub record ResourceRequest (f : Floats) : Type 0 where
  pub cores_min : f.Float
  pub cores_max : f.Float
  pub ram_min : ℤ
  pub ram_max : ℤ
  pub tmp_dir_min : ℤ
  pub tmp_dir_max : ℤ
  pub out_dir_min : ℤ
  pub out_dir_max : ℤ

pub record Resources (f : Floats) : Type 0 where
  pub cores : f.Float
  pub ram : ℤ
  pub tmp_dir : ℤ
  pub out_dir : ℤ

-- The body that `clampFloat`, with math.Max, and `clampInt`, with max, share.
unfoldable pub clamp : {A : Type 0} → (A → A → Bool) → (A → A → A) → A → A → A → A → Result A
clamp lt max nil minimum maximum budget =
    if lt nil budget && lt budget minimum
    then err resources_unavailable
    else ok (max (if lt nil budget && lt budget maximum then budget else maximum) minimum)

abbrev pub clamp_int : ℤ → ℤ → ℤ → Result ℤ
clamp_int minimum maximum budget = clamp lt_int max_int (pos 0) minimum maximum budget

abbrev pub clamp_float : (f : Floats) → f.Float → f.Float → f.Float → Result f.Float
clamp_float f minimum maximum budget = clamp f.lt f.max f.none_left minimum maximum budget

-- A temporary or an output directory gets its minimum: the minimum stands for the maximum too.
unfoldable pub default_select_resources :
    (f : Floats) → ResourceRequest f → ResourceBudget f → Result (Resources f)
unfolding clamp
default_select_resources f request budget =
    clamp_float f request.cores_min request.cores_max budget.cores >>= λ cores.
    clamp_int request.ram_min request.ram_max budget.ram >>= λ ram.
    clamp_int request.tmp_dir_min request.tmp_dir_min budget.tmp_dir >>= λ tmp_dir.
    clamp_int request.out_dir_min request.out_dir_min budget.out_dir >>= λ out_dir.
    ok record { cores = cores; ram = ram; tmp_dir = tmp_dir; out_dir = out_dir }

abbrev pub or_minimum : ℤ → ℤ → ℤ
or_minimum maximum minimum = if is_zero_int maximum then minimum else maximum

unfoldable pub apply_max_defaults : (f : Floats) → ResourceRequest f → ResourceRequest f
apply_max_defaults f request = record request {
  cores_max = if f.is_zero request.cores_max then request.cores_min else request.cores_max;
  ram_max = or_minimum request.ram_max request.ram_min;
  tmp_dir_max = or_minimum request.tmp_dir_max request.tmp_dir_min;
  out_dir_max = or_minimum request.out_dir_max request.out_dir_min;
}
