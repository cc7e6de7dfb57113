-- ===== src/Sorting/Keys.antt =====
-- pkg/cwlexec/clt_sort.go. A text is its bytes, and a comparison is an `Order` where Go has -1, 0, 1.
use Prim.Native.Nat.{compare, Ordering}
use cwl_go.Prelude.{ℕ, List, [], ◌∷◌, ◌++◌, length}
use cwl_go.Prelude.Int.{ℤ, pos, negsuc}

pub data Order : Type 0 where
  less equal greater : Order

-- An order that decides, or the next one.
abbrev pub then_by : Order → Order → Order
then_by equal o = o
then_by o _ = o

-- An element of a key: `isText` is the constructor, and only the field that it selects is kept.
pub data KeyElem : Type 0 where
  num_key : ℤ → KeyElem
  text_key : List ℕ → KeyElem

abbrev pub SortKey : Type 0
SortKey = List KeyElem

-- `append(extended, elems...)`
unfoldable pub child : SortKey → List KeyElem → SortKey
child k elems = k ++ elems

abbrev pub compare_nat : ℕ → ℕ → Order
compare_nat a b = elim (compare a b) [
  | Ordering.lt ↦ less
  | Ordering.eq ↦ equal
  | Ordering.gt ↦ greater
]

-- `cmp.Compare` on int64
abbrev pub compare_int : ℤ → ℤ → Order
compare_int (pos a) (pos b) = compare_nat a b
compare_int (pos a) (negsuc b) = greater
compare_int (negsuc a) (pos b) = less
compare_int (negsuc a) (negsuc b) = compare_nat b a

-- `strings.Compare`: byte by byte, a prefix first.
unfoldable pub compare_text : List ℕ → List ℕ → Order
compare_text [] [] = equal
compare_text [] (_ ∷ _) = less
compare_text (_ ∷ _) [] = greater
compare_text (a ∷ xs) (b ∷ ys) = then_by (compare_nat a b) (compare_text xs ys)

unfoldable pub compare_elems : KeyElem → KeyElem → Order
unfolding compare_text
compare_elems (text_key a) (text_key b) = compare_text a b
compare_elems (text_key a) (num_key b) = greater
compare_elems (num_key a) (text_key b) = less
compare_elems (num_key a) (num_key b) = compare_int a b

-- The loop of `compareKeys` over the common indices.
unfoldable pub first_difference : SortKey → SortKey → Order
unfolding compare_elems
first_difference (a ∷ xs) (b ∷ ys) = then_by (compare_elems a b) (first_difference xs ys)
first_difference [] ys = equal
first_difference (_ ∷ _) [] = equal

unfoldable pub compare_keys : SortKey → SortKey → Order
unfolding first_difference
compare_keys a b = then_by (first_difference a b) (compare_nat (length a) (length b))
