-- ===== src/Requirements/Effective.antt =====
-- One requirement of each class: `dedupKeepLast` against `lastOfClass`.
use mathlib.Core.List.{reverse-append, reverse-reverse}
use cwl_go.Prelude.{
  ℕ, ◌+◌, ◌≤◌, String, ◌≡◌, refl, sym, ap, ◌∙◌, Option, none, some, List, [], ◌∷◌, ◌++◌, reverse,
  arith, str_eq, eq_iff, if◌then◌else◌, contains,
}
use cwl_go.Requirements.Scope.{
  requirement_class, Frame, Scope, last_of_class, first_of_each, dedup_keep_last, or_else,
  required_in, all_reqs, effective_requirements,
}

module _ {A : Type 0} (class_of : A → String) where
  abbrev first_of_class : List A → String → Option A
  first_of_class [] class = none
  first_of_class (e ∷ entries) class =
      if str_eq (class_of e) class then some e else first_of_class entries class

  last_of_class-append :
      (xs ys : List A) (class : String)
      → last_of_class class_of (xs ++ ys) class
        ≡ or_else class_of (last_of_class class_of ys class) (last_of_class class_of xs class)
  unfolding last_of_class
  last_of_class-append [] ys class = ground arith
  last_of_class-append (x ∷ xs) ys class = ground (arith, last_of_class-append xs ys class)

  last_of_class-one :
      (x : A) (class : String)
      → last_of_class class_of (x ∷ []) class ≡ (if str_eq (class_of x) class then some x else none)
  unfolding last_of_class
  last_of_class-one x class = refl

  last_of_class-reverse :
      (xs : List A) (class : String)
      → last_of_class class_of (reverse xs) class ≡ first_of_class xs class
  last_of_class-reverse [] class = unfold last_of_class in refl
  last_of_class-reverse (x ∷ xs) class =
      ap (λ t. last_of_class class_of t class) (reverse-append (x ∷ []) xs)
      ∙ last_of_class-append (reverse xs) (x ∷ []) class
      ∙ ground (arith, last_of_class-one x class, last_of_class-reverse xs class)

  first_of_class-first_of_each :
      (xs : List A) (seen : List String) (class : String)
      → first_of_class (first_of_each class_of xs seen) class
        ≡ (if contains seen class then none else first_of_class xs class)
  unfolding first_of_each contains
  first_of_class-first_of_each [] seen class = ground arith
  first_of_class-first_of_each (x ∷ xs) seen class = ground (
    arith,
    eq_iff (class_of x) class,
    first_of_class-first_of_each xs seen class,
    first_of_class-first_of_each xs (class_of x ∷ seen) class,
  )

  -- How often a class stands in the list.
  abbrev pub count : List A → String → ℕ
  count [] class = 0
  count (x ∷ xs) class = (if str_eq (class_of x) class then 1 else 0) + count xs class

  count-append :
      (xs ys : List A) (class : String) → count (xs ++ ys) class ≡ count xs class + count ys class
  count-append [] ys class = omega arith
  count-append (x ∷ xs) ys class = omega (arith, count-append xs ys class)

  count-reverse : (xs : List A) (class : String) → count (reverse xs) class ≡ count xs class
  count-reverse [] class = refl
  count-reverse (x ∷ xs) class =
      let split = ap (λ t. count t class) (reverse-append (x ∷ []) xs) in
      omega (arith, split, count-append (reverse xs) (x ∷ []) class, count-reverse xs class)

  count-first_of_each :
      (xs : List A) (seen : List String) (class : String)
      → count (first_of_each class_of xs seen) class ≤ (if contains seen class then 0 else 1)
  unfolding first_of_each contains
  count-first_of_each [] seen class = ground arith
  count-first_of_each (x ∷ xs) seen class = ground (
    arith,
    eq_iff (class_of x) class,
    count-first_of_each xs seen class,
    count-first_of_each xs (class_of x ∷ seen) class,
  )

  count-dedup : (xs : List A) (class : String) → count (dedup_keep_last class_of xs) class ≤ 1
  unfolding dedup_keep_last contains
  count-dedup xs class =
      let once : count (first_of_each class_of (reverse xs) []) class ≤ 1 =
        count-first_of_each (reverse xs) [] class in
      omega (arith, count-reverse (first_of_each class_of (reverse xs) []) class, once)

  pub last_of_class-dedup :
      (xs : List A) (class : String)
      → last_of_class class_of (dedup_keep_last class_of xs) class ≡ last_of_class class_of xs class
  unfolding dedup_keep_last
  last_of_class-dedup xs class =
      last_of_class-reverse (first_of_each class_of (reverse xs) []) class
      ∙ first_of_class-first_of_each (reverse xs) [] class
      ∙ unfold contains in
        refl
        ∙ sym (last_of_class-reverse (reverse xs) class)
        ∙ ap (λ t. last_of_class class_of t class) (reverse-reverse xs)

required_in-all_reqs :
    (frames : List Frame) (class : String)
    → required_in frames class ≡ last_of_class requirement_class (all_reqs frames) class
unfolding required_in all_reqs
required_in-all_reqs [] class = unfold last_of_class in refl
required_in-all_reqs (f ∷ frames) class =
    let rest = required_in-all_reqs frames class in
    let whole = last_of_class-append requirement_class f.reqs (all_reqs frames) class in
    ground arith

-- EffectiveRequirements holds each class at most once, and of each class the requirement that
-- GetRequirement finds in the requirement lists.
pub effective_requirements-once :
    (s : Scope) (class : String)
    → (count requirement_class (effective_requirements s) class ≤ 1)
      × (last_of_class requirement_class (effective_requirements s) class
          ≡ required_in s.view class)
unfolding effective_requirements
effective_requirements-once s class = (
  count-dedup requirement_class (all_reqs s.view) class,
  last_of_class-dedup requirement_class (all_reqs s.view) class
      ∙ sym (required_in-all_reqs s.view class),
)
