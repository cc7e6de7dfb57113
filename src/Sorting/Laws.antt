-- ===== src/Sorting/Laws.antt =====
-- The order of sort keys is a total one.
use mathlib.Core.Path.{subst, fun_ext}
use cwl_go.Prelude.{ℕ, suc, List, [], ◌∷◌, ◌≡◌, refl, sym, ap, ◌∙◌, arith, length}
use cwl_go.Sorting.Keys.{
  Order, less, equal, greater, KeyElem, num_key, text_key, SortKey, then_by, compare_nat,
  compare_text, compare_elems, first_difference, compare_keys,
}
use cwl_go.Sorting.Lexicographic.{
  IsOrder, flip, lex, lex-IsOrder, compare_nat-IsOrder, compare_int-IsOrder,
}

compare_text-lex : (xs ys : List ℕ) → compare_text xs ys ≡ lex compare_nat xs ys
unfolding compare_text lex
compare_text-lex [] [] = refl
compare_text-lex [] (_ ∷ _) = refl
compare_text-lex (_ ∷ _) [] = refl
compare_text-lex (x ∷ xs) (y ∷ ys) = ground (arith, compare_text-lex xs ys)

compare_text-IsOrder : IsOrder compare_text
compare_text-IsOrder =
    subst IsOrder (sym (fun_ext λ xs. fun_ext λ ys. compare_text-lex xs ys))
      (lex-IsOrder compare_nat compare_nat-IsOrder)

flips_elems : (a b : KeyElem) → compare_elems b a ≡ flip (compare_elems a b)
unfolding compare_elems
flips_elems (num_key a) (num_key b) = compare_int-IsOrder.flips a b
flips_elems (num_key a) (text_key b) = refl
flips_elems (text_key a) (num_key b) = refl
flips_elems (text_key a) (text_key b) = compare_text-IsOrder.flips a b

pub same_elems : (a : KeyElem) → compare_elems a a ≡ equal
unfolding compare_elems
same_elems (num_key a) = compare_int-IsOrder.same a
same_elems (text_key a) = compare_text-IsOrder.same a

faithful_elems : (a b : KeyElem) → compare_elems a b ≡ equal → a ≡ b
unfolding compare_elems
faithful_elems (num_key a) (num_key b) e = ap num_key (compare_int-IsOrder.faithful a b e)
faithful_elems (num_key a) (text_key b) e = cc
faithful_elems (text_key a) (num_key b) e = cc
faithful_elems (text_key a) (text_key b) e = ap text_key (compare_text-IsOrder.faithful a b e)

trans_elems :
    (a b d : KeyElem)
    → compare_elems a b ≡ less
    → compare_elems b d ≡ less
    → compare_elems a d ≡ less
unfolding compare_elems
trans_elems (num_key a) (num_key b) (num_key d) e f = compare_int-IsOrder.trans a b d e f
trans_elems (num_key a) (num_key b) (text_key d) e f = refl
trans_elems (num_key a) (text_key b) (num_key d) e f = cc
trans_elems (num_key a) (text_key b) (text_key d) e f = refl
trans_elems (text_key a) (num_key b) d e f = cc
trans_elems (text_key a) (text_key b) (num_key d) e f = cc
trans_elems (text_key a) (text_key b) (text_key d) e f = compare_text-IsOrder.trans a b d e f

compare_elems-IsOrder : IsOrder compare_elems
compare_elems-IsOrder = record {
  flips = flips_elems;
  same = same_elems;
  faithful = faithful_elems;
  trans = trans_elems;
}

compare_nat-suc : (m n : ℕ) → compare_nat (suc m) (suc n) ≡ compare_nat m n
compare_nat-suc m n = ground arith

tie : (o : Order) (m n : ℕ) → then_by o (compare_nat (suc m) (suc n)) ≡ then_by o (compare_nat m n)
tie o m n = ap (then_by o) (compare_nat-suc m n)

pub compare_keys-cons :
    (x y : KeyElem) (xs ys : SortKey) (o : Order)
    → compare_elems x y ≡ o
    → compare_keys (x ∷ xs) (y ∷ ys) ≡ then_by o (compare_keys xs ys)
unfolding compare_keys first_difference
compare_keys-cons x y xs ys less e = rw (compare_keys, first_difference, e) refl
compare_keys-cons x y xs ys greater e = rw (compare_keys, first_difference, e) refl
compare_keys-cons x y xs ys equal e =
    rw (compare_keys, first_difference, e) (tie (first_difference xs ys) (length xs) (length ys))

-- The loop and the final comparison of lengths are the lexicographic order.
compare_keys-lex : (a b : SortKey) → compare_keys a b ≡ lex compare_elems a b
unfolding lex compare_keys first_difference
compare_keys-lex [] [] = refl
compare_keys-lex [] (y ∷ ys) = ground arith
compare_keys-lex (x ∷ xs) [] = ground arith
compare_keys-lex (x ∷ xs) (y ∷ ys) =
    compare_keys-cons x y xs ys _ refl ∙ ap (then_by (compare_elems x y)) (compare_keys-lex xs ys)

-- compareKeys is a total order on sort keys: swapping the keys flips it, a key equals itself and
-- no other, and it is transitive.
pub compare_keys-IsOrder : IsOrder compare_keys
compare_keys-IsOrder =
    subst IsOrder (sym (fun_ext λ a. fun_ext λ b. compare_keys-lex a b))
      (lex-IsOrder compare_elems compare_elems-IsOrder)
