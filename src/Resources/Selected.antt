-- ===== src/Resources/Selected.antt =====
-- pkg/cwlexec/resources.go: the resources that are chosen lie in their bounds.
use cwl_go.Prelude.{
  Bool-cases, ap, ◌∙◌, ◌≡◌, refl, ◌⊎◌, inl, inr, Bool, true, false, ◌&&◌, arith, if-elim, Result,
  err, ok, ◌>>=◌, resources_unavailable,
}
use cwl_go.Prelude.Int.{ℤ, pos, negsuc}
use cwl_go.Resources.Select.{
  Floats, lt_int, max_int, ResourceBudget, ResourceRequest, Resources, clamp,
  default_select_resources,
}

-- What `<` is documented to be, also on numbers that are not ordered.
pub record IsStrict {A : Type 0} (lt : A → A → Bool) : Type 0 where
  pub irreflexive : (a : A) → lt a a ≡ false
  pub asymmetric : (a b : A) → lt a b ≡ true → lt b a ≡ false

-- What the greater of two numbers is documented to be: one of them that is not smaller than the
-- other. Of a number and one that is not ordered it is the latter.
abbrev pub IsMax : {A : Type 0} → (A → A → Bool) → (A → A → A) → Type 0
IsMax {A} lt max =
    (a b : A) → ((max a b ≡ a) × (lt a b ≡ false)) ⊎ ((max a b ≡ b) × (lt b a ≡ false))

-- The chosen amount is at least the minimum, at most a budget that is set, and at most the maximum
-- unless it is the minimum.
pub record IsInBounds {A : Type 0} (lt : A → A → Bool) (nil minimum maximum budget chosen : A)
    : Type 0 where
  pub enough : lt chosen minimum ≡ false
  pub affordable : lt nil budget ≡ true → lt budget chosen ≡ false
  pub modest : (chosen ≡ minimum) ⊎ (lt maximum chosen ≡ false)

-- A budget that is set lies below the minimum.
abbrev pub IsShort : {A : Type 0} → (A → A → Bool) → A → A → A → Type 0
IsShort lt nil minimum budget = (lt nil budget ≡ true) × (lt budget minimum ≡ true)

pub data Clamps {A : Type 0} (lt : A → A → Bool) (nil minimum maximum budget : A)
    : Result A → Type 0 where
  refused :
      IsShort lt nil minimum budget
      → Clamps lt nil minimum maximum budget (err resources_unavailable)
  chosen :
      {a : A}
      → IsInBounds lt nil minimum maximum budget a
      → Clamps lt nil minimum maximum budget (ok a)

module _ {A : Type 0} (lt : A → A → Bool) (max : A → A → A) (nil : A) (strict : IsStrict lt)
    (greater : IsMax lt max) (minimum maximum budget : A) where
  ceiling_bounds :
      (c : A)
      → (lt nil budget ≡ true → lt budget c ≡ false)
      → lt maximum c ≡ false
      → (lt nil budget ≡ true → lt budget minimum ≡ false)
      → IsInBounds lt nil minimum maximum budget (max c minimum)
  ceiling_bounds c below modest fits = elim (greater c minimum) [
    | inl (same, e) ↦ record {
      enough = ap (λ t. lt t minimum) same ∙ e;
      affordable = λ set. ap (lt budget) same ∙ below set;
      modest = inr (ap (lt maximum) same ∙ modest);
    }
    | inr (same, e) ↦ record {
      enough = ap (λ t. lt t minimum) same ∙ strict.irreflexive minimum;
      affordable = λ set. ap (lt budget) same ∙ fits set;
      modest = inl same;
    }
  ]

  clamp-Clamps : Clamps lt nil minimum maximum budget (clamp lt max nil minimum maximum budget)
  unfolding clamp
  clamp-Clamps =
      if-elim (Clamps lt nil minimum maximum budget) (lt nil budget && lt budget minimum) _ _
        (λ e. refused (ground arith))
        (λ e.
          let fits : lt nil budget ≡ true → lt budget minimum ≡ false = λ set. ground arith in
          if-elim (λ (c : A). Clamps lt nil minimum maximum budget (ok (max c minimum)))
            (lt nil budget && lt budget maximum) budget maximum
            (λ capped.
              let less : lt budget maximum ≡ true = ground arith in
              chosen (
                ceiling_bounds budget (λ _. strict.irreflexive budget)
                  (strict.asymmetric budget maximum less) fits))
            (λ open_ended.
              chosen
                (ceiling_bounds maximum (λ set. ground arith) (strict.irreflexive maximum) fits)))

lt_int-IsStrict : IsStrict lt_int
lt_int-IsStrict = record { irreflexive = same; asymmetric = other }
  where
    same : (a : ℤ) → lt_int a a ≡ false
    same (pos a) = ground arith
    same (negsuc a) = ground arith

    other : (a b : ℤ) → lt_int a b ≡ true → lt_int b a ≡ false
    other (pos a) (pos b) e = ground arith
    other (pos a) (negsuc b) e = cc
    other (negsuc a) (pos b) e = refl
    other (negsuc a) (negsuc b) e = ground arith

max_int-IsMax : IsMax lt_int max_int
max_int-IsMax a b = elim (Bool-cases (lt_int a b)) [
  | inl less ↦ inr (rw less refl, lt_int-IsStrict.asymmetric a b less)
  | inr not_less ↦ inl (rw not_less refl, not_less)
]

-- Each amount lies in its bounds, or some budget is short of a minimum.
pub data Selects (f : Floats) (q : ResourceRequest f) (b : ResourceBudget f)
    : Result (Resources f) → Type 0 where
  selected :
      {x : Resources f}
      → IsInBounds f.lt f.none_left q.cores_min q.cores_max b.cores x.cores
      → IsInBounds lt_int (pos 0) q.ram_min q.ram_max b.ram x.ram
      → IsInBounds lt_int (pos 0) q.tmp_dir_min q.tmp_dir_min b.tmp_dir x.tmp_dir
      → IsInBounds lt_int (pos 0) q.out_dir_min q.out_dir_min b.out_dir x.out_dir
      → Selects f q b (ok x)
  few_cores :
      IsShort f.lt f.none_left q.cores_min b.cores → Selects f q b (err resources_unavailable)
  little_ram : IsShort lt_int (pos 0) q.ram_min b.ram → Selects f q b (err resources_unavailable)
  little_tmp_dir :
      IsShort lt_int (pos 0) q.tmp_dir_min b.tmp_dir → Selects f q b (err resources_unavailable)
  little_out_dir :
      IsShort lt_int (pos 0) q.out_dir_min b.out_dir → Selects f q b (err resources_unavailable)

module _ (f : Floats) (strict : IsStrict f.lt) (greater : IsMax f.lt f.max) (q : ResourceRequest f)
    (b : ResourceBudget f) where
  by-Clamps :
      (cores : Result f.Float) (ram tmp_dir out_dir : Result ℤ)
      → Clamps f.lt f.none_left q.cores_min q.cores_max b.cores cores
      → Clamps lt_int (pos 0) q.ram_min q.ram_max b.ram ram
      → Clamps lt_int (pos 0) q.tmp_dir_min q.tmp_dir_min b.tmp_dir tmp_dir
      → Clamps lt_int (pos 0) q.out_dir_min q.out_dir_min b.out_dir out_dir
      → Selects f q b (
          cores >>= λ c. ram >>= λ r. tmp_dir >>= λ t.
          out_dir >>= λ o. ok record { cores = c; ram = r; tmp_dir = t; out_dir = o })
  by-Clamps _ _ _ _ (refused h) r t o = few_cores h
  by-Clamps _ _ _ _ (chosen c) (refused h) t o = little_ram h
  by-Clamps _ _ _ _ (chosen c) (chosen r) (refused h) o = little_tmp_dir h
  by-Clamps _ _ _ _ (chosen c) (chosen r) (chosen t) (refused h) = little_out_dir h
  by-Clamps _ _ _ _ (chosen c) (chosen r) (chosen t) (chosen o) = selected c r t o

  -- Where the order of floats is strict, and their maximum is one of the two that is not below the
  -- other, DefaultSelectResources either chooses, of each resource, an amount that is at least the
  -- minimum, at most a budget that is set, and at most the maximum unless it is the minimum, or it
  -- fails, and then some budget that is set is below the minimum. Of a directory the minimum
  -- stands for the maximum.
  pub default_select_resources-Selects : Selects f q b (default_select_resources f q b)
  unfolding default_select_resources
  default_select_resources-Selects =
      by-Clamps _ _ _ _
        (clamp-Clamps f.lt f.max f.none_left strict greater q.cores_min q.cores_max b.cores)
        (clamp-Clamps lt_int max_int (pos 0) lt_int-IsStrict max_int-IsMax q.ram_min q.ram_max
          b.ram)
        (clamp-Clamps lt_int max_int (pos 0) lt_int-IsStrict max_int-IsMax q.tmp_dir_min
          q.tmp_dir_min b.tmp_dir)
        (clamp-Clamps lt_int max_int (pos 0) lt_int-IsStrict max_int-IsMax q.out_dir_min
          q.out_dir_min b.out_dir)
