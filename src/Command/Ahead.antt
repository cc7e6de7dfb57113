-- ===== src/Command/Ahead.antt =====
-- pkg/cwlexec/clt_binding.go with clt_sort.go: the position of a binding places all of its leaves.
use mathlib.Core.Path.{subst}
use cwl_go.Prelude.{
  ◌≡◌, refl, sym, ap, ap₂, ◌∙◌, false, some, List, [], ◌∷◌, ◌++◌, All, Result, ok, err, OnOk,
  OnOk-elim,
}
use cwl_go.Prelude.Int.{ℤ}
use cwl_go.Value.{is_null}
use cwl_go.Sorting.Keys.{
  SortKey, KeyElem, num_key, child, compare_int, compare_keys, compare_elems, less, equal,
}
use cwl_go.Sorting.Laws.{compare_keys-cons, same_elems}
use cwl_go.Schema.{Binding, TypeRef}
use cwl_go.Command.Bindings.{
  BoundArg, BindTarget, CmdBuilder, position, bind_input, bind_by, bind_at,
}
use cwl_go.Command.Walk.{bind_nested}
use cwl_go.Command.Keyed.{Extends, Leaves, Walk, bind_at-Leaves, bind_nested-KeepsKey}

-- Below a common key, two numbers decide.
compare_keys-less :
    (k : SortKey) (p q : ℤ) (xs ys : SortKey)
    → compare_int p q ≡ less
    → compare_keys (k ++ (num_key p ∷ xs)) (k ++ (num_key q ∷ ys)) ≡ less
compare_keys-less [] p q xs ys h =
    compare_keys-cons (num_key p) (num_key q) xs ys less (unfold compare_elems in h)
compare_keys-less (x ∷ k) p q xs ys h =
    compare_keys-cons x x _ _ equal (same_elems x) ∙ compare_keys-less k p q xs ys h

reassociated :
    (k more rest : SortKey) (a : BoundArg)
    → a.key ≡ child k more ++ rest
    → a.key ≡ k ++ (more ++ rest)
unfolding child
reassociated [] more rest a e = e
reassociated (x ∷ k) more rest a e = e ∙ ap (λ t. x ∷ t) (assoc k)
  where
    assoc : (j : SortKey) → (j ++ more) ++ rest ≡ j ++ (more ++ rest)
    assoc [] = refl
    assoc (y ∷ j) = ap (λ t. y ∷ t) (assoc j)

-- The key begins with the key, and then the number.
abbrev pub At : SortKey → ℤ → BoundArg → Type 0
At k p a = (rest : SortKey) × (a.key ≡ k ++ (num_key p ∷ rest))

All-At :
    (k : SortKey) (p : ℤ) (tie : KeyElem) (bs : List BoundArg)
    → All (Extends (child k (num_key p ∷ tie ∷ []))) bs
    → All (At k p) bs
All-At k p tie [] h = tt
All-At k p tie (a ∷ bs) ((rest, e), hs) =
    ((tie ∷ rest, reassociated k (num_key p ∷ tie ∷ []) rest a e), All-At k p tie bs hs)

-- Each leaf of the first list sorts before each of the second.
abbrev pub IsAhead : List BoundArg → List BoundArg → Type 0
IsAhead first second = All (λ a. All (λ c. compare_keys a.key c.key ≡ less) second) first

module _ (k : SortKey) (p q : ℤ) (h : compare_int p q ≡ less) where
  ahead_of_All :
      (a : BoundArg) (bs : List BoundArg)
      → At k p a
      → All (At k q) bs
      → All (λ c. compare_keys a.key c.key ≡ less) bs
  ahead_of_All a [] own hs = tt
  ahead_of_All a (c ∷ bs) own (i, hs) =
      (ap₂ compare_keys own.1 i.1 ∙ compare_keys-less k p q own.0 i.0 h, ahead_of_All a bs own hs)

  All-IsAhead :
      (first second : List BoundArg)
      → All (At k p) first
      → All (At k q) second
      → IsAhead first second
  All-IsAhead [] second h i = tt
  All-IsAhead (a ∷ first) second (own, hs) i =
      (ahead_of_All a second own i, All-IsAhead first second hs i)

-- A target that has a value and a binding, with the position that the binding evaluates to.
pub record IsPlaced (b : CmdBuilder) (t : BindTarget) (p : ℤ) : Type 0 where
  pub binding : Binding
  pub full : is_null t.value ≡ false
  pub same : t.binding ≡ some binding
  pub evaluated : position b binding.position t.value ≡ ok p

bind_input-bind_at :
    (b : CmdBuilder) (nested : Walk) (t : BindTarget) (p : ℤ) (i : IsPlaced b t p)
    → bind_input b nested t ≡ bind_at b nested t i.binding p
unfolding bind_input bind_by
bind_input-bind_at b nested t p i =
    rw (bind_input, i.full) refl ∙ ap (bind_by b nested t) i.same ∙ rw (bind_by, i.evaluated) refl

weaken-Leaves :
    (t : BindTarget) (p : ℤ) (r : Result (List BoundArg))
    → Leaves (child t.key (num_key p ∷ t.tie ∷ [])) r
    → OnOk (All (At t.key p)) r
weaken-Leaves t p (ok bs) h = All-At t.key p t.tie bs h
weaken-Leaves t p (err e) h = tt

bind_input-At :
    (b : CmdBuilder) (type : TypeRef) (t : BindTarget) (p : ℤ)
    → IsPlaced b t p
    → OnOk (All (At t.key p)) (bind_input b (bind_nested b type) t)
bind_input-At b type t p i =
    subst (OnOk (All (At t.key p))) (sym (bind_input-bind_at b (bind_nested b type) t p i)) (
      weaken-Leaves t p (bind_at b (bind_nested b type) t i.binding p)
        (bind_at-Leaves b (bind_nested b type) t i.binding p (bind_nested-KeepsKey b type)))

-- Of two bound targets with one enclosing key and values that are not null, where the position of
-- the first evaluates to a smaller number than that of the second, every leaf of the first sorts
-- before every leaf of the second, however deep the leaves stand.
pub bind_input-IsAhead :
    (b : CmdBuilder) (type_t type_u : TypeRef) (t u : BindTarget) (p q : ℤ)
    (first second : List BoundArg)
    → t.key ≡ u.key
    → IsPlaced b t p
    → IsPlaced b u q
    → compare_int p q ≡ less
    → bind_input b (bind_nested b type_t) t ≡ ok first
    → bind_input b (bind_nested b type_u) u ≡ ok second
    → IsAhead first second
bind_input-IsAhead b type_t type_u t u p q first second same i j h e f =
    All-IsAhead t.key p q h first second
      (OnOk-elim (All (At t.key p)) (bind_input-At b type_t t p i) e)
      (subst (λ k. All (At k q) second) (sym same)
        (OnOk-elim (All (At u.key q)) (bind_input-At b type_u u q j) f))
