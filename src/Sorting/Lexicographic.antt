-- ===== src/Sorting/Lexicographic.antt =====
-- A comparison of elements that is a total order gives one of lists, a prefix first.
use cwl_go.Prelude.{List, [], ◌∷◌, ◌≡◌, refl, sym, ap, ap₂, ◌∙◌, arith}
use cwl_go.Prelude.Int.{ℤ, pos, negsuc}
use cwl_go.Sorting.Keys.{Order, less, equal, greater, compare_nat, compare_int, then_by}

abbrev pub flip : Order → Order
flip less = greater
flip equal = equal
flip greater = less

-- A comparison that is a total order, equal on equal elements only.
pub record IsOrder {ℓ} {A : Type ℓ} (c : A → A → Order) : Type ℓ where
  pub flips : (a b : A) → c b a ≡ flip (c a b)
  pub same : (a : A) → c a a ≡ equal
  pub faithful : (a b : A) → c a b ≡ equal → a ≡ b
  pub trans : (a b d : A) → c a b ≡ less → c b d ≡ less → c a d ≡ less

pub compare_nat-IsOrder : IsOrder compare_nat
compare_nat-IsOrder = record {
  flips = λ a b. ground arith;
  same = λ a. ground arith;
  faithful = λ a b e. ground arith;
  trans = λ a b d e f. ground arith;
}

flips_int : (a b : ℤ) → compare_int b a ≡ flip (compare_int a b)
flips_int (pos a) (pos b) = compare_nat-IsOrder.flips a b
flips_int (pos a) (negsuc b) = refl
flips_int (negsuc a) (pos b) = refl
flips_int (negsuc a) (negsuc b) = compare_nat-IsOrder.flips b a

same_int : (a : ℤ) → compare_int a a ≡ equal
same_int (pos a) = compare_nat-IsOrder.same a
same_int (negsuc a) = compare_nat-IsOrder.same a

faithful_int : (a b : ℤ) → compare_int a b ≡ equal → a ≡ b
faithful_int (pos a) (pos b) e = ap pos (compare_nat-IsOrder.faithful a b e)
faithful_int (pos a) (negsuc b) e = cc
faithful_int (negsuc a) (pos b) e = cc
faithful_int (negsuc a) (negsuc b) e = ap negsuc (sym (compare_nat-IsOrder.faithful b a e))

trans_int : (a b d : ℤ) → compare_int a b ≡ less → compare_int b d ≡ less → compare_int a d ≡ less
trans_int (pos a) (pos b) (pos d) e f = compare_nat-IsOrder.trans a b d e f
trans_int (pos a) (pos b) (negsuc d) e f = cc
trans_int (pos a) (negsuc b) d e f = cc
trans_int (negsuc a) (pos b) (pos d) e f = refl
trans_int (negsuc a) (pos b) (negsuc d) e f = cc
trans_int (negsuc a) (negsuc b) (pos d) e f = refl
trans_int (negsuc a) (negsuc b) (negsuc d) e f = compare_nat-IsOrder.trans d b a f e

pub compare_int-IsOrder : IsOrder compare_int
compare_int-IsOrder = record {
  flips = flips_int;
  same = same_int;
  faithful = faithful_int;
  trans = trans_int;
}

module _ {ℓ} {A : Type ℓ} (c : A → A → Order) where
  unfoldable pub lex : List A → List A → Order
  lex [] [] = equal
  lex [] (_ ∷ _) = less
  lex (_ ∷ _) [] = greater
  lex (a ∷ xs) (b ∷ ys) = then_by (c a b) (lex xs ys)

  flip-then_by : (o p : Order) → flip (then_by o p) ≡ then_by (flip o) (flip p)
  flip-then_by less p = refl
  flip-then_by equal p = refl
  flip-then_by greater p = refl

  then_by-equal : (o p : Order) → then_by o p ≡ equal → (o ≡ equal) × (p ≡ equal)
  then_by-equal o p e = ground arith

  module _ (h : IsOrder c) where
    flips_lex : (xs ys : List A) → lex ys xs ≡ flip (lex xs ys)
    unfolding lex
    flips_lex [] [] = refl
    flips_lex [] (_ ∷ _) = refl
    flips_lex (_ ∷ _) [] = refl
    flips_lex (a ∷ xs) (b ∷ ys) =
        ap₂ then_by (h.flips a b) (flips_lex xs ys) ∙ sym (flip-then_by (c a b) (lex xs ys))

    same_lex : (xs : List A) → lex xs xs ≡ equal
    unfolding lex
    same_lex [] = refl
    same_lex (a ∷ xs) = ap₂ then_by (h.same a) (same_lex xs)

    faithful_lex : (xs ys : List A) → lex xs ys ≡ equal → xs ≡ ys
    unfolding lex
    faithful_lex [] [] e = refl
    faithful_lex [] (_ ∷ _) e = cc
    faithful_lex (_ ∷ _) [] e = cc
    faithful_lex (a ∷ xs) (b ∷ ys) e =
        let (first, rest) = then_by-equal (c a b) (lex xs ys) e in
        ap₂ (λ x xs. x ∷ xs) (h.faithful a b first) (faithful_lex xs ys rest)

    -- One step of transitivity: the first elements decide, or are equal and the rest decides.
    trans_head :
        (a b d : A) (p q s : Order)
        → (p ≡ less → q ≡ less → s ≡ less)
        → then_by (c a b) p ≡ less
        → then_by (c b d) q ≡ less
        → then_by (c a d) s ≡ less
    trans_head a b d p q s rest e f = cases (c a b) (c b d) refl refl e f
      where
        cases :
            (o o' : Order)
            → c a b ≡ o
            → c b d ≡ o'
            → then_by o p ≡ less
            → then_by o' q ≡ less
            → then_by (c a d) s ≡ less
        cases less less x y e f = rw (h.trans a b d x y) refl
        cases less equal x y e f = rw (ap (c a) (sym (h.faithful b d y)) ∙ x) refl
        cases less greater x y e f = cc
        cases equal less x y e f = rw (ap (λ t. c t d) (h.faithful a b x) ∙ y) refl
        cases equal equal x y e f = rw (ap (λ t. c t d) (h.faithful a b x) ∙ y) (rest e f)
        cases equal greater x y e f = cc
        cases greater o' x y e f = cc

    trans_lex : (xs ys zs : List A) → lex xs ys ≡ less → lex ys zs ≡ less → lex xs zs ≡ less
    unfolding lex
    trans_lex [] [] zs e f = cc
    trans_lex [] (b ∷ ys) [] e f = cc
    trans_lex [] (b ∷ ys) (d ∷ zs) e f = refl
    trans_lex (a ∷ xs) [] zs e f = cc
    trans_lex (a ∷ xs) (b ∷ ys) [] e f = cc
    trans_lex (a ∷ xs) (b ∷ ys) (d ∷ zs) e f =
        trans_head a b d (lex xs ys) (lex ys zs) (lex xs zs) (trans_lex xs ys zs) e f

    pub lex-IsOrder : IsOrder lex
    lex-IsOrder = record {
      flips = flips_lex;
      same = same_lex;
      faithful = faithful_lex;
      trans = trans_lex;
    }
