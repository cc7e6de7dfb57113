-- ===== src/Scatter/Ints.antt =====
-- The products of dimensions as Go ints, against the products without wrap-around.
use native.Mathlib.Nat.{mod-lt, mod-le, mul-add-mod_self_left, div-add-mod}
use Prim.Native.Nat.{◌%◌, ◌/◌}
use cwl_go.Prelude.{ℕ, ◌+◌, ◌*◌, ◌<◌, ◌≤◌, ◌≡◌, sym, ap, ◌∙◌, List, [], ◌∷◌, arith}
use cwl_go.Scatter.Jobs.{wrap, rounds, times_from, int_product}

-- The product of the dimensions, without wrap-around.
abbrev pub product : List ℕ → ℕ
product [] = 1
product (n ∷ ns) = n * product ns

-- The product of the dimensions is a Go int that is not negative.
abbrev pub FitsInt : List ℕ → Type 0
FitsInt ds = product ds < 9223372036854775808

-- For dimensions that stand innermost first: so are the products that leave out inner dimensions.
abbrev pub FitInts : List ℕ → Type 0
FitInts [] = Unit
FitInts (d ∷ ds) = FitsInt (d ∷ ds) × FitInts ds

distribute : (w q r p a : ℕ) → w * q + r ≡ a → w * (q * p) + r * p ≡ a * p
distribute w q r p a h = omega (arith, ap (λ (t : ℕ). t * p) h)

mod_factor : (a p w : ℕ) → (a % w * p) % w ≡ (a * p) % w
mod_factor a p w =
    sym (mul-add-mod_self_left w (a / w * p) (a % w * p))
    ∙ ap (λ (t : ℕ). t % w) (distribute w (a / w) (a % w) p a (div-add-mod a w))

times_from-mod : (t : ℕ) (ns : List ℕ) → wrap (times_from t ns) ≡ wrap (t * product ns)
unfolding times_from
times_from-mod t [] = ap wrap (omega arith)
times_from-mod t (n ∷ ns) =
    let order : t * n * product ns ≡ t * (n * product ns) = omega arith in
    times_from-mod (wrap (t * n)) ns
    ∙ mod_factor (t * n) (product ns) 18446744073709551616
    ∙ ap wrap order

times_from-lt :
    (t : ℕ) (ns : List ℕ) → t < 18446744073709551616 → times_from t ns < 18446744073709551616
unfolding times_from
times_from-lt t [] h = h
times_from-lt t (n ∷ ns) h = times_from-lt (wrap (t * n)) ns (mod-lt (t * n) (omega arith))

wrap_small : (n : ℕ) → n < 18446744073709551616 → wrap n ≡ n
wrap_small n h = omega (arith, h)

int_product-wrap : (ns : List ℕ) → int_product ns ≡ wrap (product ns)
unfolding int_product
int_product-wrap ns =
    sym (wrap_small (times_from 1 ns) (times_from-lt 1 ns (omega arith)))
    ∙ times_from-mod 1 ns
    ∙ ap wrap (omega arith)

pub int_product-eq : (ns : List ℕ) → FitsInt ns → int_product ns ≡ product ns
int_product-eq ns h = int_product-wrap ns ∙ wrap_small (product ns) (omega (arith, h))

pub rounds-small : (n : ℕ) → n < 9223372036854775808 → rounds n ≡ n
rounds-small n h = ground (arith, h)

pub rounds-product : (ns : List ℕ) → FitsInt ns → rounds (int_product ns) ≡ product ns
rounds-product ns h = ap rounds (int_product-eq ns h) ∙ rounds-small (product ns) h

rounds-le : (n : ℕ) → rounds n ≤ n
rounds-le n = ground arith

pub rounds-product_le : (ns : List ℕ) → rounds (int_product ns) ≤ product ns
rounds-product_le ns = omega (
  arith,
  rounds-le (int_product ns),
  int_product-wrap ns,
  mod-le (product ns) 18446744073709551616,
)
