-- ===== src/Tests/Sorting.antt =====
-- A sorting function for the parameter `qsort` of gflib/content.c and cache/simplecache.c, and a run
-- of the theorem on the whole table with it.
use Prim.Native.Nat.{Ordering}
use intro_to_os.Base.{
  true, ℕ, zero, suc, ◌+◌, ◌≡◌, ◌≢◌, ◌<◌, ◌⊎◌, inl, inr, ◌↔◌, refl, sym, ap, ◌∙◌, List, [], ◌∷◌,
  some, length, All, map, arith,
}
use mathlib.Core.Path.{subst}
use intro_to_os.Text.{Bytes, codes, strcmp}
use intro_to_os.Text.Compare.{strcmp-lt_trans, strcmp-lt_of_gt, eq_of_strcmp, Ordering-cases}
use intro_to_os.Content.{Entry, Open, content_limits, init, loaded, simplecache_get}
use intro_to_os.Content.Search.{key_at, IsSorted}
use intro_to_os.Content.Load.{Listed, entry_of, render, Fits}
use intro_to_os.Content.Table.{In, Sorts, Answers, init-simplecache_get}

-- Not after.
abbrev Before : Bytes → Bytes → Type 0
Before s t = strcmp s t ≢ Ordering.gt

lt-ne_gt : Ordering.lt ≢ Ordering.gt
lt-ne_gt e = cc

eq-ne_gt : Ordering.eq ≢ Ordering.gt
eq-ne_gt e = cc

Before-trans : (s t u : Bytes) → Before s t → Before t u → Before s u
Before-trans s t u p q = elim (Ordering-cases (strcmp s t)) [
  | inr (inl after) ↦ absurd (p after)
  | inr (inr same) ↦ subst (λ x. Before x u) (sym (eq_of_strcmp s t same)) q
  | inl less ↦ elim (Ordering-cases (strcmp t u)) [
    | inr (inl after) ↦ absurd (q after)
    | inr (inr same) ↦ subst (λ x. Before s x) (eq_of_strcmp t u same) p
    | inl less' ↦ λ e. lt-ne_gt (sym (strcmp-lt_trans s t u less less') ∙ e)
  ]
]

abbrev Ordered : List Entry → Type 0
Ordered [] = Unit
Ordered (x ∷ xs) = All (λ y. Before x.key y.key) xs × Ordered xs

-- The entry in its place, by how it compares with the first one.
unfoldable place : Entry → Entry → List Entry → List Entry → Ordering → List Entry
place e x xs rest Ordering.gt = x ∷ rest
place e x xs rest Ordering.lt = e ∷ x ∷ xs
place e x xs rest Ordering.eq = e ∷ x ∷ xs

unfoldable insert : Entry → List Entry → List Entry
unfolding place
insert e [] = e ∷ []
insert e (x ∷ xs) = place e x xs (insert e xs) (strcmp e.key x.key)

unfoldable sort : List Entry → List Entry
unfolding insert
sort [] = []
sort (e ∷ xs) = insert e (sort xs)

All-Before :
    (e x : Entry) (xs : List Entry)
    → Before e.key x.key
    → All (λ y. Before x.key y.key) xs
    → All (λ y. Before e.key y.key) xs
All-Before e x [] p a = tt
All-Before e x (y ∷ xs) p a = (Before-trans e.key x.key y.key p a.0, All-Before e x xs p a.1)

All-place :
    (P : Entry → Type 0) (e x : Entry) (xs rest : List Entry) (o : Ordering)
    → P e
    → All P (x ∷ xs)
    → All P rest
    → All P (place e x xs rest o)
unfolding place
All-place P e x xs rest Ordering.gt p a b = (a.0, b)
All-place P e x xs rest Ordering.lt p a b = (p, a)
All-place P e x xs rest Ordering.eq p a b = (p, a)

All-insert :
    (P : Entry → Type 0) (e : Entry) (xs : List Entry) → P e → All P xs → All P (insert e xs)
unfolding insert
All-insert P e [] p a = (p, tt)
All-insert P e (x ∷ xs) p a =
    All-place P e x xs (insert e xs) (strcmp e.key x.key) p a (All-insert P e xs p a.1)

insert_placed :
    (e x : Entry) (xs : List Entry) (o : Ordering)
    → strcmp e.key x.key ≡ o
    → Ordered (x ∷ xs)
    → Ordered (insert e xs)
    → Ordered (place e x xs (insert e xs) o)
unfolding place
insert_placed e x xs Ordering.gt c h k = (
  All-insert (λ y. Before x.key y.key) e xs
      (λ g. lt-ne_gt (sym (strcmp-lt_of_gt e.key x.key c) ∙ g)) h.0,
  k,
)
insert_placed e x xs Ordering.lt c h k =
    let p : Before e.key x.key = λ g. lt-ne_gt (sym c ∙ g) in ((p, All-Before e x xs p h.0), h)
insert_placed e x xs Ordering.eq c h k =
    let p : Before e.key x.key = λ g. eq-ne_gt (sym c ∙ g) in ((p, All-Before e x xs p h.0), h)

insert-Ordered : (e : Entry) (xs : List Entry) → Ordered xs → Ordered (insert e xs)
unfolding insert
insert-Ordered e [] h = (tt, tt)
insert-Ordered e (x ∷ xs) h =
    insert_placed e x xs (strcmp e.key x.key) refl h (insert-Ordered e xs h.1)

sort-Ordered : (xs : List Entry) → Ordered (sort xs)
unfolding sort
sort-Ordered [] = tt
sort-Ordered (e ∷ xs) = insert-Ordered e (sort xs) (sort-Ordered xs)

All-key_at :
    (s : Bytes) (xs : List Entry) (j : ℕ)
    → All (λ y. Before s y.key) xs
    → j < length xs
    → Before s (key_at xs j)
All-key_at s [] j a lt = absurd (omega arith)
All-key_at s (x ∷ xs) zero a lt = a.0
All-key_at s (x ∷ xs) (suc j) a lt = All-key_at s xs j a.1 (omega arith)

Ordered-IsSorted : (xs : List Entry) → Ordered xs → IsSorted xs
Ordered-IsSorted [] h i j lt below = absurd (omega arith)
Ordered-IsSorted (x ∷ xs) h i zero lt below = absurd (omega arith)
Ordered-IsSorted (x ∷ xs) h zero (suc j) lt below = All-key_at x.key xs j h.0 (omega arith)
Ordered-IsSorted (x ∷ xs) h (suc i) (suc j) lt below =
    Ordered-IsSorted xs h.1 i j (omega arith) (omega arith)

length-place :
    (e x : Entry) (xs rest : List Entry) (o : Ordering)
    → length rest ≡ suc (length xs)
    → length (place e x xs rest o) ≡ suc (suc (length xs))
unfolding place
length-place e x xs rest Ordering.gt h = ap suc h
length-place e x xs rest Ordering.lt h = refl
length-place e x xs rest Ordering.eq h = refl

length-insert : (e : Entry) (xs : List Entry) → length (insert e xs) ≡ suc (length xs)
unfolding insert
length-insert e [] = refl
length-insert e (x ∷ xs) =
    length-place e x xs (insert e xs) (strcmp e.key x.key) (length-insert e xs)

length-sort : (xs : List Entry) → length (sort xs) ≡ length xs
unfolding sort
length-sort [] = refl
length-sort (e ∷ xs) = length-insert e (sort xs) ∙ ap suc (length-sort xs)

abbrev Added : Entry → List Entry → List Entry → Type 0
Added e xs ys = (y : Entry) → In y ys ↔ ((y ≡ e) ⊎ In y xs)

place-Added :
    (e x : Entry) (xs rest : List Entry) (o : Ordering)
    → Added e xs rest
    → Added e (x ∷ xs) (place e x xs rest o)
unfolding place
place-Added e x xs rest Ordering.gt h y = (
  λ m. elim m [
    | inl same ↦ inr (inl same)
    | inr later ↦ elim ((h y).0 later) [ inl same ↦ inl same | inr in_xs ↦ inr (inr in_xs) ]
  ],
  λ m. elim m [
    | inl same ↦ inr ((h y).1 (inl same))
    | inr (inl same) ↦ inl same
    | inr (inr in_xs) ↦ inr ((h y).1 (inr in_xs))
  ],
)
place-Added e x xs rest Ordering.lt h y = (λ m. m, λ m. m)
place-Added e x xs rest Ordering.eq h y = (λ m. m, λ m. m)

insert-Added : (e : Entry) (xs : List Entry) → Added e xs (insert e xs)
unfolding insert
insert-Added e [] y = (λ m. m, λ m. m)
insert-Added e (x ∷ xs) y =
    place-Added e x xs (insert e xs) (strcmp e.key x.key) (insert-Added e xs) y

sort-same : (xs : List Entry) (y : Entry) → In y (sort xs) ↔ In y xs
unfolding sort
sort-same [] y = (λ m. m, λ m. m)
sort-same (e ∷ xs) y = (
  λ m. elim ((insert-Added e (sort xs) y).0 m) [
    | inl same ↦ inl same
    | inr later ↦ inr ((sort-same xs y).0 later)
  ],
  λ m.
      (insert-Added e (sort xs) y).1
        (elim m [ inl same ↦ inl same | inr later ↦ inr ((sort-same xs y).1 later) ]),
)

sort-Sorts : Sorts sort
sort-Sorts = record {
  ordered = λ xs. Ordered-IsSorted (sort xs) (sort-Ordered xs);
  same_items = sort-same;
  same_length = length-sort;
}

abbrev two_files : List Listed
two_files =
    record { key = codes "/b"; path = codes "b.txt"; fd = 3 }
    ∷ record { key = codes "/a"; path = codes "a.txt"; fd = 4 }
    ∷ []

abbrev numbered : Open
numbered n path = some (n + 3)

b-Fits : Fits content_limits (record { key = codes "/b"; path = codes "b.txt"; fd = 3 })
b-Fits = record { key_plain = refl; path_plain = refl; short = omega arith }

a-Fits : Fits content_limits (record { key = codes "/a"; path = codes "a.txt"; fd = 4 })
a-Fits = record { key_plain = refl; path_plain = refl; short = omega arith }

init-simplecache_get_example :
    (items : List Entry) × (capacity : ℕ) × (init content_limits numbered
        (λ n. true)
        sort
        (some (render two_files))
      ≡ loaded items capacity)
    × ((key : Bytes) → Answers (map entry_of two_files) key (simplecache_get items key))
init-simplecache_get_example =
    init-simplecache_get sort sort-Sorts content_limits numbered (λ n. true) two_files (λ n. refl)
      (b-Fits, (a-Fits, tt)) (refl, (refl, tt)) (omega arith)
