-- ===== src/Content/Load.antt =====
-- The initialisation of the content table (content.c and simplecache.c): its room, and what
-- a well-formed file is.
use intro_to_os.Base.{
  ℕ, zero, suc, ◌+◌, ◌-◌, ◌*◌, ◌^◌, ◌==◌, ==_iff, Bool-cases, ◌≡◌, ◌<◌, ◌≤◌, refl, true, [], ◌∷◌,
  ◌++◌, List, some, arith, All, length, length-append, map, inl, inr, lt→ltb, ap, ◌∙◌, sym,
}
use mathlib.Core.List.{append-nil, append_assoc}
use intro_to_os.Text.{Bytes, newline}
use intro_to_os.Content.{
  Entry, entry, Limits, Open, Allocates, Loaded, loaded, exited, undefined, no_fuel, grow,
  load_loop, fgets_upto, split_line, finish, init,
}
use intro_to_os.Content.Line.{
  fgets_upto_line, split_line_lem, plain, key_and_path, key_and_path-all,
}

-- The table has room for one more item, and was not grown more than the items ask for.
abbrev pub HasRoom : List Entry → ℕ → Type 0
HasRoom items capacity = (length items < capacity) × (capacity ≤ 16 + 2 * length items)

-- There is always memory.
abbrev pub Plenty : Allocates → Type 0
Plenty allocates = (n : ℕ) → allocates n ≡ true

grow-HasRoom :
    (allocates : Allocates) (items : List Entry) (e : Entry) (capacity : ℕ)
    → Plenty allocates
    → length items + 1 < 2 ^ 30
    → HasRoom items capacity
    → (capacity' : ℕ) × (grow allocates (length items + 1) capacity ≡ some capacity')
      × HasRoom (items ++ e ∷ []) capacity'
grow-HasRoom allocates items e capacity plenty small h =
    elim (Bool-cases (length items + 1 == capacity)) [
      | inl full ↦
          let same : length items + 1 ≡ capacity = (==_iff _ _).0 full in
          (
            capacity * 2,
            rw (full, lt→ltb (capacity * 2) (2 ^ 31) (omega arith), plenty (capacity * 2)) refl,
            omega (arith, length-append items (e ∷ [])),
          )
      | inr roomy ↦ (capacity, rw roomy refl, ground (arith, length-append items (e ∷ [])))
    ]

-- The initialisation ends with a table that has room, or exits because a file cannot be opened.
abbrev pub IsSafe : Limits → Loaded → Type 0
IsSafe lim (loaded items capacity) = HasRoom items capacity
IsSafe lim (exited code) = code ≡ lim.failure
IsSafe lim undefined = ⊥
IsSafe lim no_fuel = ⊥

-- One line of a content file, and the descriptor that `open` gives for its path.
pub record Listed : Type 0 where
  pub key : Bytes
  pub path : Bytes
  pub fd : ℕ

abbrev pub entry_of : Listed → Entry
entry_of l = entry l.fd l.key

abbrev pub line_of : Listed → Bytes
line_of l = key_and_path l.key l.path ++ newline ∷ []

-- The text of a content file.
unfoldable pub render : List Listed → Bytes
render [] = []
render (l ∷ ls) = line_of l ++ render ls

-- The words are plain and the line has room in the buffer.
pub record Fits (lim : Limits) (l : Listed) : Type 0 where
  pub key_plain : plain l.key ≡ true
  pub path_plain : plain l.path ≡ true
  pub short : length (line_of l) < lim.max_keylen

-- Each path opens, on the call with its number.
abbrev pub Opens : Open → ℕ → List Listed → Type 0
Opens open_file n [] = Unit
Opens open_file n (l ∷ ls) = (open_file n (some l.path) ≡ some l.fd) × Opens open_file (n + 1) ls

-- A round that reads a line, cuts it and opens the file.
load_loop_round :
    (lim : Limits) (open_file : Open) (allocates : Allocates) (fuel : ℕ)
    (file line rest key path : Bytes) (fd : ℕ) (items : List Entry) (capacity capacity' : ℕ)
    → 0 < length file
    → fgets_upto (lim.max_keylen - 1) file ≡ (line, rest)
    → split_line line ≡ some (key, some path)
    → open_file (length items) (some path) ≡ some fd
    → length items < capacity
    → grow allocates (length items + 1) capacity ≡ some capacity'
    → load_loop lim open_file allocates (suc fuel) file items capacity
      ≡ load_loop lim open_file allocates fuel rest (items ++ entry fd key ∷ []) capacity'
unfolding load_loop
load_loop_round lim open_file al fuel [] line rest key path fd items capacity capacity' pos e1 e2 e3
      lt e4 =
    absurd (omega arith)
load_loop_round lim open_file al fuel (c ∷ more) line rest key path fd items capacity capacity' pos
      e1 e2 e3 lt e4 =
    rw (lt→ltb _ _ lt, ap (λ (cut : Bytes × Bytes). cut.0) e1, e2, e3, e4, load_loop)
      (ap
        (λ (cut : Bytes × Bytes).
          load_loop lim open_file al fuel cut.1 (items ++ entry fd key ∷ []) capacity')
        e1)

load_loop_line :
    (lim : Limits) (open_file : Open) (allocates : Allocates) (fuel : ℕ) (l : Listed) (rest : Bytes)
    (items : List Entry) (capacity capacity' : ℕ)
    → Fits lim l
    → open_file (length items) (some l.path) ≡ some l.fd
    → length items < capacity
    → grow allocates (length items + 1) capacity ≡ some capacity'
    → load_loop lim open_file allocates (suc fuel) (line_of l ++ rest) items capacity
      ≡ load_loop lim open_file allocates fuel rest (items ++ entry_of l ∷ []) capacity'
load_loop_line lim open_file al fuel l rest items capacity capacity' fits opened lt grown =
    let text : Bytes = key_and_path l.key l.path in
    let long : length (line_of l) ≡ length text + 1 =
      omega (arith, length-append text (newline ∷ [])) in
    load_loop_round lim open_file al fuel (line_of l ++ rest) (line_of l) rest l.key l.path l.fd
      items capacity capacity' (omega (arith, length-append (line_of l) rest))
      (rw (append_assoc text (newline ∷ []) rest) (
        fgets_upto_line (lim.max_keylen - 1) text rest
          (key_and_path-all _ l.key l.path (λ c e. ground arith) refl fits.key_plain
            fits.path_plain)
          (omega (arith, fits.short))))
      (split_line_lem l.key l.path fits.key_plain fits.path_plain) opened lt grown

-- A well-formed file is loaded whole, in its order.
load_loop-render :
    (lim : Limits) (open_file : Open) (allocates : Allocates) (fuel : ℕ) (ls : List Listed)
    (items : List Entry) (capacity : ℕ)
    → Plenty allocates
    → length items + length ls < 2 ^ 30
    → All (Fits lim) ls
    → Opens open_file (length items) ls
    → HasRoom items capacity
    → length ls < fuel
    → (capacity' : ℕ) × (load_loop lim open_file allocates fuel (render ls) items capacity
        ≡ loaded (items ++ map entry_of ls) capacity')
unfolding render
load_loop-render lim open_file al zero ls items capacity plenty small fits opens h lt =
    absurd (omega arith)
load_loop-render lim open_file al (suc fuel) [] items capacity plenty small fits opens h lt = (
  capacity,
  unfold load_loop in
      rw (lt→ltb _ _ h.0, load_loop) (ap (λ xs. loaded xs capacity) (sym (append-nil items))),
)
load_loop-render lim open_file al (suc fuel) (l ∷ ls) items capacity plenty small fits opens h lt =
    let longer : List Entry = items ++ entry_of l ∷ [] in
    let e : length longer ≡ length items + 1 =
      omega (arith, length-append items (entry_of l ∷ [])) in
    let (next, grown, roomy) = grow-HasRoom al items (entry_of l) capacity plenty (omega arith) h in
    let (capacity', rest) =
      load_loop-render lim open_file al fuel ls longer next plenty (omega (arith, e)) fits.1
        (rw e opens.1) roomy (omega arith) in
    (
      capacity',
      load_loop_line lim open_file al fuel l (render ls) items capacity next fits.0 opens.0 h.0
            grown
          ∙ rest
          ∙ ap (λ xs. loaded xs capacity') (append_assoc items (entry_of l ∷ []) (map entry_of ls)),
    )

length-le-render : (ls : List Listed) → length ls ≤ length (render ls)
unfolding render
length-le-render [] = omega arith
length-le-render (l ∷ ls) = omega (
  arith,
  length-le-render ls,
  length-append (line_of l) (render ls),
  length-append (key_and_path l.key l.path) (newline ∷ []),
)

-- What `init` makes of a well-formed file.
pub init-render :
    (lim : Limits) (open_file : Open) (allocates : Allocates) (qsort : List Entry → List Entry)
    (ls : List Listed)
    → Plenty allocates
    → length ls < 2 ^ 30
    → All (Fits lim) ls
    → Opens open_file 0 ls
    → (capacity : ℕ) × (init lim open_file allocates qsort (some (render ls))
        ≡ loaded (qsort (map entry_of ls)) capacity)
unfolding init
init-render lim open_file al qsort ls plenty small fits opens =
    let (capacity, e) =
      load_loop-render lim open_file al (length (render ls) + 1) ls [] 16 plenty (omega arith) fits
        opens (omega arith) (omega (arith, length-le-render ls)) in
    (capacity, rw (plenty 16) (ap (finish qsort) e))
