-- ===== src/Command/Sorted.antt =====
-- pkg/cwlexec/clt_cmdline.go: the leaves of a command line are sorted by their keys.
use mathlib.Core.Path.{subst}
use cwl_go.Prelude.{Bool, true, false, ◌≡◌, ◌≢◌, refl, sym, ap, ◌∙◌, List, [], ◌∷◌, arith, All}
use cwl_go.Sorting.Keys.{Order, less, equal, greater, compare_keys, SortKey}
use cwl_go.Sorting.Laws.{compare_keys-IsOrder}
use cwl_go.Command.Bindings.{BoundArg}
use cwl_go.Command.Line.{place, insert, sort_bound}

-- The first key does not sort behind the second.
abbrev pub IsBefore : BoundArg → BoundArg → Type 0
IsBefore a b = compare_keys a.key b.key ≢ greater

-- No leaf sorts behind a later one.
abbrev pub IsSorted : List BoundArg → Type 0
IsSorted [] = Unit
IsSorted (a ∷ bs) = All (IsBefore a) bs × IsSorted bs

abbrev pub is_equal : Order → Bool
is_equal equal = true
is_equal _ = false

abbrev pub when_equal : Order → BoundArg → List BoundArg → List BoundArg
when_equal equal a bs = a ∷ bs
when_equal _ a bs = bs

-- The leaves of a key, in their order.
unfoldable pub with_key : SortKey → List BoundArg → List BoundArg
with_key k [] = []
with_key k (a ∷ bs) = when_equal (compare_keys k a.key) a (with_key k bs)

-- The second list is sorted, and each key has the leaves that it has in the first, in their order.
pub record Sorts (bound sorted : List BoundArg) : Type 0 where
  pub order : IsSorted sorted
  pub stable : (k : SortKey) → with_key k sorted ≡ with_key k bound

module _ (P : BoundArg → Type 0) (a : BoundArg) (own : P a) where
  All-place :
      (o : Order) (b : BoundArg) (bs placed : List BoundArg)
      → P b
      → All P bs
      → All P placed
      → All P (place o a b bs placed)
  All-place less b bs placed h hs ps = (own, (h, hs))
  All-place equal b bs placed h hs ps = (own, (h, hs))
  All-place greater b bs placed h hs ps = (h, ps)

  All-insert : (bs : List BoundArg) → All P bs → All P (insert a bs)
  unfolding insert
  All-insert [] h = (own, tt)
  All-insert (b ∷ bs) h =
      All-place (compare_keys a.key b.key) b bs (insert a bs) h.0 h.1 (All-insert bs h.1)

before_trans : (a b d : BoundArg) → IsBefore a b → IsBefore b d → IsBefore a d
before_trans a b d h i = cases (compare_keys a.key b.key) (compare_keys b.key d.key) refl refl
  where
    cases :
        (o p : Order) → compare_keys a.key b.key ≡ o → compare_keys b.key d.key ≡ p → IsBefore a d
    cases greater p e f = absurd (h e)
    cases o greater e f = absurd (i f)
    cases equal p e f =
        subst (λ k. compare_keys k d.key ≢ greater)
          (sym (compare_keys-IsOrder.faithful a.key b.key e)) i
    cases less equal e f =
        subst (λ k. compare_keys a.key k ≢ greater) (compare_keys-IsOrder.faithful b.key d.key f) h
    cases less less e f = λ g. let sorted = compare_keys-IsOrder.trans a.key b.key d.key e f in cc

All-before :
    (a b : BoundArg) (bs : List BoundArg) → IsBefore a b → All (IsBefore b) bs → All (IsBefore a) bs
All-before a b [] h hs = tt
All-before a b (d ∷ bs) h (i, hs) = (before_trans a b d h i, All-before a b bs h hs)

behind : (a b : BoundArg) → compare_keys a.key b.key ≡ greater → IsBefore b a
behind a b e = λ f. let flipped = compare_keys-IsOrder.flips a.key b.key in ground arith

insert-IsSorted : (a : BoundArg) (bs : List BoundArg) → IsSorted bs → IsSorted (insert a bs)
unfolding insert
insert-IsSorted a [] h = (tt, tt)
insert-IsSorted a (b ∷ bs) (above, rest) =
    placed (compare_keys a.key b.key) refl (insert-IsSorted a bs rest)
  where
    placed :
        (o : Order)
        → compare_keys a.key b.key ≡ o
        → IsSorted (insert a bs)
        → IsSorted (place o a b bs (insert a bs))
    placed greater e sorted = (All-insert (IsBefore b) a (behind a b e) bs above, sorted)
    placed less e sorted =
        let first : IsBefore a b = λ f. ground arith in
        ((first, All-before a b bs first above), (above, rest))
    placed equal e sorted =
        let first : IsBefore a b = λ f. ground arith in
        ((first, All-before a b bs first above), (above, rest))

-- Two leaves of one key have equal keys.
same_key :
    (k : SortKey) (a b : BoundArg)
    → compare_keys k a.key ≡ equal
    → compare_keys k b.key ≡ equal
    → compare_keys a.key b.key ≡ equal
same_key k a b e f =
    subst (λ j. compare_keys j b.key ≡ equal) (compare_keys-IsOrder.faithful k a.key e) f

swapped :
    (k : SortKey) (a b : BoundArg) (bs : List BoundArg)
    → compare_keys a.key b.key ≡ greater
    → when_equal (compare_keys k b.key) b (when_equal (compare_keys k a.key) a bs)
      ≡ when_equal (compare_keys k a.key) a (when_equal (compare_keys k b.key) b bs)
swapped k a b bs e = cases (compare_keys k a.key) (compare_keys k b.key) refl refl
  where
    cases :
        (o p : Order)
        → compare_keys k a.key ≡ o
        → compare_keys k b.key ≡ p
        → when_equal p b (when_equal o a bs) ≡ when_equal o a (when_equal p b bs)
    cases equal equal f g = let same = same_key k a b f g in absurd (ground arith)
    cases equal less f g = refl
    cases equal greater f g = refl
    cases less p f g = refl
    cases greater p f g = refl

with_key-insert :
    (k : SortKey) (a : BoundArg) (bs : List BoundArg)
    → with_key k (insert a bs) ≡ with_key k (a ∷ bs)
unfolding insert with_key
with_key-insert k a [] = refl
with_key-insert k a (b ∷ bs) = placed (compare_keys a.key b.key) refl (with_key-insert k a bs)
  where
    placed :
        (o : Order)
        → compare_keys a.key b.key ≡ o
        → with_key k (insert a bs) ≡ with_key k (a ∷ bs)
        → with_key k (place o a b bs (insert a bs)) ≡ with_key k (a ∷ b ∷ bs)
    placed less e h = refl
    placed equal e h = refl
    placed greater e h =
        ap (when_equal (compare_keys k b.key) b) h ∙ swapped k a b (with_key k bs) e

-- The sorted leaves have no key that sorts behind a later one, and the leaves of each key are the
-- ones that had it before, in their order.
pub sort_bound-Sorts : (bound : List BoundArg) → Sorts bound (sort_bound bound)
unfolding sort_bound with_key
sort_bound-Sorts [] = record { order = tt; stable = λ k. refl }
sort_bound-Sorts (a ∷ bs) =
    let rest = sort_bound-Sorts bs in
    record {
      order = insert-IsSorted a (sort_bound bs) rest.order;
      stable = λ k.
          with_key-insert k a (sort_bound bs)
          ∙ ap (when_equal (compare_keys k a.key) a) (rest.stable k);
    }
