-- ===== src/Scatter/Grid.antt =====
-- The grid of coordinates that the crossproduct methods enumerate (`gridCoordinates`).
use mathlib.Core.List.{reverse-reverse}
use mathlib.Core.Path.{subst}
use mathlib.Core.Option.{some-injective}
use cwl_go.Prelude.{
  ℕ, zero, suc, ◌+◌, ◌*◌, ◌<◌, ◌≤◌, ◌≡◌, refl, sym, ap, ◌∙◌, inl, inr, some, List, [], ◌∷◌, reverse,
  arith, length, get_elem?, get_elem?-lt, get_elem?-of_lt, ap₂, replicate,
}
use cwl_go.Scatter.Jobs.{advance, advance_backward, turns, rounds, int_product, grid_coordinates}
use cwl_go.Scatter.Ints.{product, FitsInt, rounds-product, rounds-product_le}
use cwl_go.Scatter.Assembly.{linear_offset, offset_from}
use cwl_go.Scatter.Offset.{
  InBounds, offset_rev, linear_offset-rev, InBounds-reverse, product-reverse, offset_rev-lt,
  advance_backward-InBounds, advance_backward-offset,
}

pub linear_offset-lt : (cs ds : List ℕ) → InBounds cs ds → linear_offset cs ds < product ds
linear_offset-lt cs ds h =
    rw (linear_offset-rev cs ds h, ← product-reverse ds)
      (offset_rev-lt (reverse cs) (reverse ds) (InBounds-reverse cs ds h))

advance-InBounds : (cs ds : List ℕ) → InBounds cs ds → InBounds (advance cs ds) ds
unfolding advance
advance-InBounds cs ds h =
    let back = advance_backward-InBounds (reverse cs) (reverse ds) (InBounds-reverse cs ds h) in
    rw reverse-reverse at (InBounds-reverse _ _ back)

advance-rev :
    (cs ds : List ℕ) → reverse (advance cs ds) ≡ advance_backward (reverse cs) (reverse ds)
unfolding advance
advance-rev cs ds = reverse-reverse _

advance-offset :
    (cs ds : List ℕ)
    → InBounds cs ds
    → linear_offset cs ds + 1 < product ds
    → linear_offset (advance cs ds) ds ≡ linear_offset cs ds + 1
advance-offset cs ds h room =
    let here = linear_offset-rev cs ds h in
    let there = linear_offset-rev (advance cs ds) ds (advance-InBounds cs ds h) in
    let moved = ap (λ (t : List ℕ). offset_rev t (reverse ds)) (advance-rev cs ds) in
    elim (advance_backward-offset (reverse cs) (reverse ds) (InBounds-reverse cs ds h)) [
      | inl next ↦ omega (arith, here, there, moved, next)
      | inr (last, wrapped) ↦ absurd (omega (arith, here, last, product-reverse ds, room))
    ]

length-turns : (left : ℕ) (cs ds : List ℕ) → length (turns left cs ds) ≡ left
unfolding turns
length-turns zero cs ds = refl
length-turns (suc left) cs ds = ap suc (length-turns left (advance cs ds) ds)

turns-elem :
    (left : ℕ) (cs ds : List ℕ) (i : ℕ) {coords : List ℕ}
    → InBounds cs ds
    → linear_offset cs ds + left ≤ product ds
    → get_elem? (turns left cs ds) i ≡ some coords
    → InBounds coords ds × (linear_offset coords ds ≡ linear_offset cs ds + i)
unfolding turns
turns-elem zero cs ds i h room e = cc
turns-elem (suc left) cs ds zero {coords} h room e =
    let same : cs ≡ coords = some-injective _ _ e in
    subst (λ t. InBounds t ds × (linear_offset t ds ≡ linear_offset cs ds + 0)) same
      (h, omega arith)
turns-elem (suc left) cs ds (suc i) h room e =
    let more = get_elem?-lt (turns left (advance cs ds) ds) i e in
    let next : linear_offset (advance cs ds) ds ≡ linear_offset cs ds + 1 =
      advance-offset cs ds h (omega (arith, more, length-turns left (advance cs ds) ds)) in
    let (bounded, at) =
      turns-elem left (advance cs ds) ds i (advance-InBounds cs ds h) (omega arith) e in
    (bounded, omega arith)

pos_of_product : (a b : ℕ) → 0 < a * b → (0 < a) × (0 < b)
pos_of_product zero b h = absurd (omega arith)
pos_of_product (suc a) zero h = absurd (omega arith)
pos_of_product (suc a) (suc b) h = omega arith

zeros-InBounds : (ds : List ℕ) → 0 < product ds → InBounds (replicate (length ds) 0) ds
zeros-InBounds [] h = tt
zeros-InBounds (d ∷ ds) h =
    let (some_d, rest) = pos_of_product d (product ds) h in (some_d, zeros-InBounds ds rest)

zeros-offset_from : (ds : List ℕ) (o : ℕ) → o ≡ 0 → offset_from o (replicate (length ds) 0) ds ≡ 0
unfolding offset_from
zeros-offset_from [] o h = h
zeros-offset_from (d ∷ ds) o h = zeros-offset_from ds (o * d + 0) (rw h (omega arith))

zeros-offset : (ds : List ℕ) → linear_offset (replicate (length ds) 0) ds ≡ 0
unfolding linear_offset
zeros-offset ds = zeros-offset_from ds 0 refl

pub length-grid_coordinates : (ds : List ℕ) → length (grid_coordinates ds) ≡ rounds (int_product ds)
unfolding grid_coordinates
length-grid_coordinates ds = length-turns (rounds (int_product ds)) _ ds

pub length-grid_product : (ds : List ℕ) → FitsInt ds → length (grid_coordinates ds) ≡ product ds
length-grid_product ds h = length-grid_coordinates ds ∙ rounds-product ds h

grid_coordinates_lem :
    (ds : List ℕ)
    → grid_coordinates ds ≡ turns (rounds (int_product ds)) (replicate (length ds) 0) ds
unfolding grid_coordinates
grid_coordinates_lem ds = refl

-- The grid is in row-major order: its i-th entry is in bounds and has the offset i.
pub grid_coordinates-elem :
    (ds : List ℕ) (i : ℕ) {coords : List ℕ}
    → get_elem? (grid_coordinates ds) i ≡ some coords
    → InBounds coords ds × (linear_offset coords ds ≡ i)
grid_coordinates-elem ds i {coords} e =
    let within = get_elem?-lt (grid_coordinates ds) i e in
    let size = length-grid_coordinates ds in
    let e' : get_elem? (turns (rounds (int_product ds)) (replicate (length ds) 0) ds) i
        ≡ some coords =
      rw (grid_coordinates_lem ds) at e in
    let small = rounds-product_le ds in
    let start = zeros-InBounds ds (omega arith) in
    let (bounded, at) =
      turns-elem (rounds (int_product ds)) (replicate (length ds) 0) ds i start
        (omega (arith, zeros-offset ds)) e' in
    (bounded, omega (arith, zeros-offset ds))

quotient_unique : (a b x y d : ℕ) → a * d + x ≡ b * d + y → x < d → y < d → (a ≡ b) × (x ≡ y)
quotient_unique zero zero x y d e h k = omega arith
quotient_unique zero (suc b) x y d e h k = absurd (omega arith)
quotient_unique (suc a) zero x y d e h k = absurd (omega arith)
quotient_unique (suc a) (suc b) x y d e h k =
    let (same, rest) = quotient_unique a b x y d (omega arith) h k in (ap suc same, rest)

offset_rev-injective :
    (xs ys ds : List ℕ)
    → InBounds xs ds
    → InBounds ys ds
    → offset_rev xs ds ≡ offset_rev ys ds
    → xs ≡ ys
offset_rev-injective [] [] ds h k e = refl
offset_rev-injective [] (y ∷ ys) [] h k e = absurd k
offset_rev-injective [] (y ∷ ys) (d ∷ ds) h k e = absurd h
offset_rev-injective (x ∷ xs) [] [] h k e = absurd h
offset_rev-injective (x ∷ xs) [] (d ∷ ds) h k e = absurd k
offset_rev-injective (x ∷ xs) (y ∷ ys) [] h k e = absurd h
offset_rev-injective (x ∷ xs) (y ∷ ys) (d ∷ ds) h k e =
    let (outer, inner) = quotient_unique (offset_rev xs ds) (offset_rev ys ds) x y d e h.0 k.0 in
    ap₂ (λ (c : ℕ) (cs : List ℕ). c ∷ cs) inner (offset_rev-injective xs ys ds h.1 k.1 outer)

linear_offset-injective :
    (xs ys ds : List ℕ)
    → InBounds xs ds
    → InBounds ys ds
    → linear_offset xs ds ≡ linear_offset ys ds
    → xs ≡ ys
linear_offset-injective xs ys ds h k e =
    let same =
      offset_rev-injective (reverse xs) (reverse ys) (reverse ds) (InBounds-reverse xs ds h)
        (InBounds-reverse ys ds k)
        (sym (linear_offset-rev xs ds h) ∙ e ∙ linear_offset-rev ys ds k) in
    sym (reverse-reverse xs) ∙ ap reverse same ∙ reverse-reverse ys

-- Where the product of the dimensions does not overflow an int, every coordinate tuple in bounds
-- stands in the grid, at its offset.
pub grid_coordinates_complete :
    (ds coords : List ℕ)
    → FitsInt ds
    → InBounds coords ds
    → get_elem? (grid_coordinates ds) (linear_offset coords ds) ≡ some coords
grid_coordinates_complete ds coords small h =
    let within = linear_offset-lt coords ds h in
    let (found, e) =
      get_elem?-of_lt (grid_coordinates ds) (linear_offset coords ds)
        (omega (arith, length-grid_product ds small)) in
    let (bounded, at) = grid_coordinates-elem ds (linear_offset coords ds) e in
    e ∙ ap some (linear_offset-injective found coords ds bounded h at)
