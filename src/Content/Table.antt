-- ===== src/Content/Table.antt =====
-- The content table as a whole (content.c and simplecache.c): its initialisation, the sorting and the
-- lookups together.
use intro_to_os.Base.{
  ℕ, zero, suc, ◌≡◌, ◌≢◌, ◌<◌, ◌^◌, ◌↔◌, ◌⊎◌, inl, inr, refl, [], ◌∷◌, List, none, some, arith, All,
  length, get_elem?, get_elem?-lt, ==_refl, map, ap, ◌∙◌, sym,
}
use mathlib.Core.Path.{subst}
use intro_to_os.Text.{Bytes}
use intro_to_os.Content.{
  Entry, entry, Limits, Open, Allocates, Probe, hit, miss, out_of_bounds, out_of_fuel, Lookup,
  returned, faulted, result_of, Offsets, rewind, simplecache_get, content_get, probe, loaded, init,
}
use intro_to_os.Content.Search.{key_at, IsSorted, Finds, probe-Finds, key_at-get}
use intro_to_os.Content.Load.{Listed, entry_of, render, Fits, Opens, Plenty, init-render}

abbrev pub In : Entry → List Entry → Type 0
In e [] = ⊥
In e (x ∷ xs) = (e ≡ x) ⊎ In e xs

-- What C promises of `qsort` by `_itemcmp`: the result is in order and has the same items.
pub record Sorts (qsort : List Entry → List Entry) : Type 0 where
  pub ordered : (xs : List Entry) → IsSorted (qsort xs)
  pub same_items : (xs : List Entry) (e : Entry) → In e (qsort xs) ↔ In e xs
  pub same_length : (xs : List Entry) → length (qsort xs) ≡ length xs

-- The right answer: the descriptor of an item with this key, or -1 if there is none.
abbrev pub Answers : List Entry → Bytes → Lookup → Type 0
Answers items key (returned (some fd)) = In (entry fd key) items
Answers items key (returned none) = (fd : ℕ) → ¬ In (entry fd key) items
Answers items key faulted = ⊥

In-of_get : (items : List Entry) (i : ℕ) (e : Entry) → get_elem? items i ≡ some e → In e items
In-of_get [] i e h = cc
In-of_get (x ∷ items) zero e h = inl cc
In-of_get (x ∷ items) (suc i) e h = inr (In-of_get items i e h)

index_of_In :
    (items : List Entry) (e : Entry)
    → In e items
    → (i : ℕ) × (i < length items) × (key_at items i ≡ e.key)
index_of_In [] e h = absurd h
index_of_In (x ∷ items) e (inl same) = (0, omega arith, ap (λ (y : Entry). y.key) (sym same))
index_of_In (x ∷ items) e (inr later) =
    let (i, lt, k) = index_of_In items e later in (suc i, omega arith, k)

result_of-Answers :
    (items : List Entry) (key : Bytes) (p : Probe)
    → Finds items key 0 (length items) p
    → Answers items key (result_of items p)
result_of-Answers items key (hit i) f =
    let (e, got) = get_elem?-lt items i f.1 in
    rw (got, result_of)
      (subst (λ x. In x items) (ap (entry e.fildes) (sym (key_at-get items i e got) ∙ f.2))
        (In-of_get items i e got))
result_of-Answers items key miss f =
    λ fd m. let (i, lt, k) = index_of_In items (entry fd key) m in f i (omega arith) lt k
result_of-Answers items key out_of_bounds f = f
result_of-Answers items key out_of_fuel f = f

length-map-entry_of : (ls : List Listed) → length (map entry_of ls) ≡ length ls
length-map-entry_of [] = refl
length-map-entry_of (l ∷ ls) = ap suc (length-map-entry_of ls)

Answers-same :
    (items items' : List Entry) (key : Bytes) (r : Lookup)
    → ((e : Entry) → In e items ↔ In e items')
    → Answers items key r
    → Answers items' key r
Answers-same items items' key (returned (some fd)) same a = (same (entry fd key)).0 a
Answers-same items items' key (returned none) same a = λ fd m. a fd ((same (entry fd key)).1 m)
Answers-same items items' key faulted same a = a

module _ (qsort : List Entry → List Entry) (sorts : Sorts qsort) where
  -- On the sorted table of fewer than 2^31 items every lookup returns the right answer.
  simplecache_get-Answers :
      (items : List Entry) (key : Bytes)
      → length items < 2 ^ 31
      → Answers items key (simplecache_get (qsort items) key)
  unfolding simplecache_get
  simplecache_get-Answers items key small =
      Answers-same (qsort items) items key _ (sorts.same_items items) (
        result_of-Answers (qsort items) key _ (
          probe-Finds (qsort items) key (sorts.ordered items) (rw (sorts.same_length items) small)))

  -- After `init` has read a well-formed file of fewer than 2^30 lines whose paths all open, and if `malloc`
  -- and `realloc` do not fail, it holds a table in which every lookup returns the right answer for the
  -- lines of the file.
  pub init-simplecache_get :
      (lim : Limits) (open_file : Open) (allocates : Allocates) (ls : List Listed)
      → Plenty allocates
      → All (Fits lim) ls
      → Opens open_file 0 ls
      → length ls < 2 ^ 30
      → (items : List Entry) × (capacity : ℕ) × (init lim open_file allocates qsort
            (some (render ls))
          ≡ loaded items capacity)
        × ((key : Bytes) → Answers (map entry_of ls) key (simplecache_get items key))
  init-simplecache_get lim open_file al ls plenty fits opens small =
      let (capacity, e) = init-render lim open_file al qsort ls plenty small fits opens in
      (
        qsort (map entry_of ls),
        capacity,
        e,
        λ key.
            simplecache_get-Answers (map entry_of ls) key (omega (arith, length-map-entry_of ls)),
      )

-- The descriptor that is returned stands at offset 0, and no other offset moves.
abbrev pub Rewound : Offsets → Lookup × Offsets → Type 0
Rewound before (returned (some fd), after) =
    (after fd ≡ 0) × ((f : ℕ) → f ≢ fd → after f ≡ before f)
Rewound before (returned none, after) = after ≡ before
Rewound before (faulted, after) = after ≡ before

rewind-Rewound : (r : Lookup) (offsets : Offsets) → Rewound offsets (r, rewind r offsets)
rewind-Rewound (returned (some fd)) offsets = (rw ==_refl, λ f ne. ground arith)
rewind-Rewound (returned none) offsets = refl
rewind-Rewound faulted offsets = refl

-- `content_get` returns what `simplecache_get` returns, and rewinds the descriptor it returns.
content_get_lem :
    (items : List Entry) (key : Bytes) (offsets : Offsets)
    → ((content_get items key offsets).0 ≡ simplecache_get items key)
      × Rewound offsets (content_get items key offsets)
unfolding content_get simplecache_get
content_get_lem items key offsets =
    (refl, rewind-Rewound (result_of items (probe items key)) offsets)
