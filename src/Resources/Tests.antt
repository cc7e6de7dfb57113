-- ===== src/Resources/Tests.antt =====
-- A request against a budget, with numbers in place of floats.
use cwl_go.Prelude.{if◌then◌else◌, ℕ, ◌≡◌, refl, ltb, arith, ok, err, resources_unavailable}
use cwl_go.Prelude.Int.{pos}
use cwl_go.Resources.Select.{
  Floats, ResourceBudget, ResourceRequest, Resources, default_select_resources, apply_max_defaults,
}
use cwl_go.Resources.Selected.{IsStrict, IsMax, Selects, default_select_resources-Selects}

abbrev whole : Floats
whole = record {
  Float = ℕ;
  none_left = 0;
  is_zero = λ n. ltb n 1;
  lt = ltb;
  max = λ a b. if ltb a b then b else a;
}

whole-IsStrict : IsStrict whole.lt
whole-IsStrict = record { irreflexive = λ a. ground arith; asymmetric = λ a b e. ground arith }

whole-IsMax : IsMax whole.lt whole.max
whole-IsMax a b = ground arith

abbrev asked : ResourceRequest whole
asked = record {
  cores_min = 2;
  cores_max = 0;
  ram_min = pos 512;
  ram_max = pos 4096;
  tmp_dir_min = pos 1024;
  tmp_dir_max = pos 0;
  out_dir_min = pos 1024;
  out_dir_max = pos 0;
}

abbrev machine : ResourceBudget whole
machine = record { cores = 4; ram = pos 2048; tmp_dir = pos 0; out_dir = pos 0 }

abbrev granted : Resources whole
granted = record { cores = 2; ram = pos 2048; tmp_dir = pos 1024; out_dir = pos 1024 }

granted_sample :
    default_select_resources whole (apply_max_defaults whole asked) machine ≡ ok granted
unfolding default_select_resources apply_max_defaults
granted_sample = refl

refused_sample :
    default_select_resources whole asked (record machine { cores = 1 }) ≡ err resources_unavailable
unfolding default_select_resources
refused_sample = refl

default_select_resources-Selects_example :
    Selects whole asked machine (default_select_resources whole asked machine)
default_select_resources-Selects_example =
    default_select_resources-Selects whole whole-IsStrict whole-IsMax asked machine
