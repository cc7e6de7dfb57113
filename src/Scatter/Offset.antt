-- ===== src/Scatter/Offset.antt =====
-- Row-major offsets (`linearOffset`, `advance`), read from the last coordinate as the loops do.
use mathlib.Core.List.{reverse-append, append_assoc, append-nil}
use cwl_go.Prelude.{
  ℕ, ◌+◌, ◌*◌, ◌<◌, ◌≡◌, refl, ap, ◌∙◌, ◌⊎◌, inl, inr, List, [], ◌∷◌, ◌++◌, reverse, arith, ltb,
  Bool-cases,
}
use cwl_go.Scatter.Jobs.{advance_backward}
use cwl_go.Scatter.Ints.{product, FitsInt, FitInts}
use cwl_go.Scatter.Assembly.{offset_from, linear_offset}

-- As many coordinates as dimensions, each below its dimension.
abbrev pub InBounds : List ℕ → List ℕ → Type 0
InBounds [] [] = Unit
InBounds (c ∷ cs) (d ∷ ds) = (c < d) × InBounds cs ds
InBounds _ _ = ⊥

-- The offset of coordinates that stand innermost first.
abbrev pub offset_rev : List ℕ → List ℕ → ℕ
offset_rev (c ∷ cs) (d ∷ ds) = offset_rev cs ds * d + c
offset_rev _ _ = 0

reverse_shift {ℓ} :
    {A : Type ℓ} (x : A) (xs ys : List A) → reverse (x ∷ xs) ++ ys ≡ reverse xs ++ x ∷ ys
reverse_shift x xs ys =
    let e : reverse (x ∷ xs) ≡ reverse xs ++ x ∷ [] = reverse-append (x ∷ []) xs in
    rw e (append_assoc (reverse xs) (x ∷ []) ys)

offset_from-rev :
    (cs ds a b : List ℕ)
    → InBounds cs ds
    → offset_from (offset_rev a b) cs ds ≡ offset_rev (reverse cs ++ a) (reverse ds ++ b)
unfolding offset_from
offset_from-rev [] [] a b h = refl
offset_from-rev [] (d ∷ ds) a b h = absurd h
offset_from-rev (c ∷ cs) [] a b h = absurd h
offset_from-rev (c ∷ cs) (d ∷ ds) a b h =
    rw (reverse_shift c cs a, reverse_shift d ds b) (offset_from-rev cs ds (c ∷ a) (d ∷ b) h.1)

-- `linearOffset` is the offset of the reversed coordinates.
pub linear_offset-rev :
    (cs ds : List ℕ) → InBounds cs ds → linear_offset cs ds ≡ offset_rev (reverse cs) (reverse ds)
unfolding linear_offset
linear_offset-rev cs ds h = rw append-nil at (rw append-nil at (offset_from-rev cs ds [] [] h))

InBounds-append :
    (cs ds a b : List ℕ)
    → InBounds cs ds
    → InBounds a b
    → InBounds (reverse cs ++ a) (reverse ds ++ b)
InBounds-append [] [] a b h k = k
InBounds-append [] (d ∷ ds) a b h k = absurd h
InBounds-append (c ∷ cs) [] a b h k = absurd h
InBounds-append (c ∷ cs) (d ∷ ds) a b h k =
    rw (reverse_shift c cs a, reverse_shift d ds b)
      (InBounds-append cs ds (c ∷ a) (d ∷ b) h.1 (h.0, k))

pub InBounds-reverse : (cs ds : List ℕ) → InBounds cs ds → InBounds (reverse cs) (reverse ds)
InBounds-reverse cs ds h = rw append-nil at (rw append-nil at (InBounds-append cs ds [] [] h tt))

product-reverse-append : (ds b : List ℕ) → product (reverse ds ++ b) ≡ product ds * product b
product-reverse-append [] b = omega arith
product-reverse-append (d ∷ ds) b =
    rw (reverse_shift d ds b, product-reverse-append ds (d ∷ b)) (omega arith)

pub product-reverse : (ds : List ℕ) → product (reverse ds) ≡ product ds
product-reverse ds = let e = product-reverse-append ds [] in rw append-nil at e ∙ omega arith

FitInts-FitsInt : (ds : List ℕ) → FitInts ds → FitsInt ds
FitInts-FitsInt [] h = omega arith
FitInts-FitsInt (d ∷ ds) h = h.0

pub FitInts-whole : (ds : List ℕ) → FitInts (reverse ds) → FitsInt ds
FitInts-whole ds h = omega (arith, FitInts-FitsInt (reverse ds) h, product-reverse ds)

pub offset_rev-lt : (cs ds : List ℕ) → InBounds cs ds → offset_rev cs ds < product ds
offset_rev-lt [] [] h = omega arith
offset_rev-lt [] (d ∷ ds) h = absurd h
offset_rev-lt (c ∷ cs) [] h = absurd h
offset_rev-lt (c ∷ cs) (d ∷ ds) h = grind (arith, offset_rev-lt cs ds h.1)

pub advance_backward-InBounds :
    (cs ds : List ℕ) → InBounds cs ds → InBounds (advance_backward cs ds) ds
unfolding advance_backward
advance_backward-InBounds [] [] h = tt
advance_backward-InBounds [] (d ∷ ds) h = absurd h
advance_backward-InBounds (c ∷ cs) [] h = absurd h
advance_backward-InBounds (c ∷ cs) (d ∷ ds) h = elim (Bool-cases (ltb (c + 1) d)) [
  | inl e ↦ rw e (ground arith, h.1)
  | inr e ↦ rw e (omega arith, advance_backward-InBounds cs ds h.1)
]

-- One step is the next offset, or the wrap from the last offset to the first.
pub advance_backward-offset :
    (cs ds : List ℕ)
    → InBounds cs ds
    → (offset_rev (advance_backward cs ds) ds ≡ offset_rev cs ds + 1)
      ⊎ (offset_rev cs ds + 1 ≡ product ds) × (offset_rev (advance_backward cs ds) ds ≡ 0)
unfolding advance_backward
advance_backward-offset [] [] h = inr (refl, refl)
advance_backward-offset [] (d ∷ ds) h = absurd h
advance_backward-offset (c ∷ cs) [] h = absurd h
advance_backward-offset (c ∷ cs) (d ∷ ds) h = elim (Bool-cases (ltb (c + 1) d)) [
  | inl e ↦ rw e (inl (omega arith))
  | inr e ↦
      let full : c + 1 ≡ d = ground arith in
      rw e (elim (advance_backward-offset cs ds h.1) [
        | inl next ↦ inl (rw next (omega (arith, full)))
        | inr (last, wrapped) ↦
            inr (omega (arith, full, ap (λ (t : ℕ). t * d) last), rw wrapped (omega arith))
      ])
]
