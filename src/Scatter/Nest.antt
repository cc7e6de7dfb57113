-- ===== src/Scatter/Nest.antt =====
-- `nest`: the element at a coordinate tuple of the nested arrays is the flat element at its offset.
use mathlib.Core.List.{reverse-append, reverse-reverse, cons≢nil}
use cwl_go.Prelude.{
  ℕ, zero, suc, ◌+◌, ◌*◌, ◌<◌, ◌≡◌, ◌≢◌, refl, sym, ap, ◌∙◌, Option, none, some, List, [], ◌∷◌,
  ◌++◌, reverse, arith, length, get_elem?, get_elem?-take, get_elem?-drop, take, drop,
}
use cwl_go.Value.{Value, array, as_array, to_list-to_items}
use cwl_go.Scatter.Jobs.{int_product, rounds, shape_size}
use cwl_go.Scatter.Ints.{product, FitsInt, FitInts, rounds-product}
use cwl_go.Scatter.Assembly.{group, nest_backward, nest, linear_offset}
use cwl_go.Scatter.Offset.{
  InBounds, offset_rev, linear_offset-rev, InBounds-reverse, product-reverse, offset_rev-lt,
}

abbrev bind : Option Value → (Value → Option Value) → Option Value
bind none f = none
bind (some v) f = f v

abbrev at_index : ℕ → Value → Option Value
at_index c v = elim (as_array v) [ some vs ↦ get_elem? vs c | none ↦ none ]

-- The value at a path of array indices, outermost first.
abbrev pub dig : List ℕ → Value → Option Value
dig [] v = some v
dig (c ∷ cs) v = bind (at_index c v) (dig cs)

bind_assoc :
    (o : Option Value) (f g : Value → Option Value) → bind (bind o f) g ≡ bind o (λ v. bind (f v) g)
bind_assoc none f g = refl
bind_assoc (some v) f g = refl

bind-some : (o : Option Value) → bind o some ≡ o
bind-some none = refl
bind-some (some v) = refl

dig-snoc : (cs : List ℕ) (c : ℕ) (v : Value) → dig (cs ++ c ∷ []) v ≡ bind (dig cs v) (at_index c)
dig-snoc [] c v = bind-some (at_index c v)
dig-snoc (b ∷ cs) c v =
    let pointwise : dig (cs ++ c ∷ []) ≡ (λ u. bind (dig cs u) (at_index c)) =
      λ i u. dig-snoc cs c u i in
    ap (bind (at_index b v)) pointwise ∙ sym (bind_assoc (at_index b v) (dig cs) (at_index c))

at_index-array : (c : ℕ) (vs : List Value) → at_index c (array vs) ≡ get_elem? vs c
at_index-array c vs = rw (to_list-to_items vs)

pub length-group :
    (left g width : ℕ) (level : List Value) → length (group left g width level) ≡ left
unfolding group
length-group zero g width level = refl
length-group (suc left) g width level = ap suc (length-group left (g + 1) width level)

group-elem :
    (left g width : ℕ) (level : List Value) (i : ℕ)
    → i < left
    → get_elem? (group left g width level) i
      ≡ some (array (take width (drop ((g + i) * width) level)))
unfolding group
group-elem zero g width level i h = elim h [ ]
group-elem (suc left) g width level zero h = let e : g ≡ g + 0 = omega arith in rw (← e) refl
group-elem (suc left) g width level (suc i) h =
    let e : g + 1 + i ≡ g + suc i = omega arith in
    rw (← e) (group-elem left (g + 1) width level i (omega arith))

shape_size-snoc : (ds : List ℕ) (d : ℕ) → shape_size (ds ++ d ∷ []) ≡ int_product (ds ++ d ∷ [])
unfolding shape_size
shape_size-snoc [] d = refl
shape_size-snoc (e ∷ ds) d = refl

-- The number of groups, where it is an int.
groups_of :
    (d : ℕ) (ds : List ℕ)
    → FitsInt (d ∷ ds)
    → rounds (shape_size (reverse (d ∷ ds))) ≡ product (d ∷ ds)
groups_of d ds h =
    let e : reverse (d ∷ ds) ≡ reverse ds ++ d ∷ [] = reverse-append (d ∷ []) ds in
    let same = product-reverse (d ∷ ds) in
    let small : FitsInt (reverse (d ∷ ds)) = omega (arith, same, h) in
    ap rounds (ap shape_size e ∙ shape_size-snoc (reverse ds) d ∙ ap int_product (sym e))
    ∙ rounds-product (reverse (d ∷ ds)) small
    ∙ same

dig-nest_backward :
    (ds cs : List ℕ) (level : List Value)
    → ds ≢ []
    → FitInts ds
    → InBounds cs ds
    → dig (reverse cs) (array (nest_backward level ds)) ≡ get_elem? level (offset_rev cs ds)
unfolding nest_backward
dig-nest_backward [] cs level h small k = absurd (h refl)
dig-nest_backward (d ∷ ds) [] level h small k = absurd k
dig-nest_backward (w ∷ []) (c ∷ []) level h small k =
    bind-some (at_index c (array level))
    ∙ at_index-array c level
    ∙ ap (get_elem? level) (omega arith)
dig-nest_backward (w ∷ []) (c ∷ b ∷ cs) level h small k = absurd k.1
dig-nest_backward (w ∷ d ∷ outer) (c ∷ cs) level h small k =
    let size = rounds (shape_size (reverse (d ∷ outer))) in
    let grouped = group size 0 w level in
    let off = offset_rev cs (d ∷ outer) in
    let whole = array (nest_backward grouped (d ∷ outer)) in
    let split : reverse (c ∷ cs) ≡ reverse cs ++ c ∷ [] = reverse-append (c ∷ []) cs in
    let outside : dig (reverse cs) whole ≡ get_elem? grouped off =
      dig-nest_backward (d ∷ outer) cs grouped cons≢nil (small.1) k.1 in
    let found : get_elem? grouped off ≡ some (array (take w (drop ((0 + off) * w) level))) =
      group-elem size 0 w level off
        (omega (arith, offset_rev-lt cs (d ∷ outer) k.1, groups_of d outer ((small.1).0))) in
    let last : (0 + off) * w + c ≡ off * w + c = omega arith in
    rw (split, dig-snoc (reverse cs) c whole, outside, found)
      (at_index-array c (take w (drop ((0 + off) * w) level))
        ∙ get_elem?-take (drop ((0 + off) * w) level) w c k.0
        ∙ get_elem?-drop level ((0 + off) * w) c
        ∙ ap (get_elem? level) last)

reverse-ne-nil : (ds : List ℕ) → ds ≢ [] → reverse ds ≢ []
reverse-ne-nil ds h e = h (sym (reverse-reverse ds) ∙ ap reverse e)

-- The nested arrays that nest builds of a flat array hold at coordinates in bounds of their
-- dimensions the flat array's entry at the linear offset of the coordinates, provided there is a
-- dimension, and neither the product of the dimensions nor one that leaves out inner dimensions
-- overflows an int.
pub dig-nest :
    (ds cs : List ℕ) (flat : List Value)
    → ds ≢ []
    → FitInts (reverse ds)
    → InBounds cs ds
    → dig cs (array (nest flat ds)) ≡ get_elem? flat (linear_offset cs ds)
unfolding nest
dig-nest ds cs flat h small k =
    ap (λ t. dig t (array (nest_backward flat (reverse ds)))) (sym (reverse-reverse cs))
    ∙ dig-nest_backward (reverse ds) (reverse cs) flat (reverse-ne-nil ds h) small
        (InBounds-reverse cs ds k)
    ∙ ap (get_elem? flat) (sym (linear_offset-rev cs ds k))
