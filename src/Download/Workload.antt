-- ===== src/Download/Workload.antt =====
-- The list of paths of gflib/workload.c and mtgf/workload.c in gios-spr-2018-pr1-master, whose text is
-- the same.
use intro_to_os.Base.{
  ℕ, ◌+◌, ◌-◌, ◌%◌, ◌^◌, ◌≡◌, ◌<◌, ◌≤◌, refl, zero, suc, [], ◌∷◌, List, Option, none, some, length,
  get_elem?, get_elem?-lt, ltb, lt→ltb, if◌then◌else◌, ◌==◌, All, ap, ◌∙◌, arith,
}
use intro_to_os.Text.{Bytes}

-- EXIT_FAILURE; a write past `temp_buf` or past the array of paths; or the paths.
pub data Loaded : Type 0 where
  failure overflow : Loaded
  loaded : List Bytes → Loaded

abbrev pub word_room : ℕ
word_room = 256

abbrev pub path_room : ℕ
path_room = 100

abbrev pub add_path : Bytes → Loaded → Loaded
add_path path (loaded paths) = loaded (path ∷ paths)
add_path path failure = failure
add_path path overflow = overflow

-- The loop over `fscanf(…, "%s", …)` on the words of the file, with `i` paths so far.
unfoldable pub load_loop : (i : ℕ) → List Bytes → Loaded
load_loop i [] = loaded []
load_loop i (word ∷ words) =
    let rest = load_loop (i + 1) words in
    if ltb (length word) word_room
    then if ltb i path_room then add_path word rest else overflow
    else overflow

-- `none` is a file that does not open.
unfoldable pub workload_init : Option (List Bytes) → Loaded
unfolding load_loop
workload_init none = failure
workload_init (some words) = load_loop 0 words

-- `gUniqueWorkloadPaths` is an `unsigned short`.
abbrev pub workload_num_unique_paths : List Bytes → ℕ
workload_num_unique_paths paths = length paths % 2 ^ 16

-- `mode` is WORKLOAD_SEQ and nothing changes it. The counter is the pattern of an `int`; the result is
-- `none` for a division by 0 and for an index below 0.
unfoldable pub entry_of : (n counter : ℕ) → Option ℕ
entry_of n counter =
    if n == 0
    then none
    else if ltb counter (2 ^ 31)
    then some (counter % n)
    else if (2 ^ 32 - counter) % n == 0
    then some 0
    else none

abbrev pub path_at : List Bytes → Option ℕ → Option Bytes
path_at paths none = none
path_at paths (some i) = get_elem? paths i

-- The path, or undefined behaviour, and the counter behind it.
unfoldable pub workload_get_path : List Bytes → (counter : ℕ) → Option Bytes × ℕ
unfolding entry_of
workload_get_path paths counter =
    (path_at paths (entry_of (workload_num_unique_paths paths) counter), (counter + 1) % 2 ^ 32)

-- Every word fits the buffer, and all of them fit the array.
load_loop_lem :
    (i : ℕ) (words : List Bytes)
    → All (λ w. length w < word_room) words
    → i + length words ≤ path_room
    → load_loop i words ≡ loaded words
unfolding load_loop
load_loop_lem i [] short few = refl
load_loop_lem i (word ∷ words) short few =
    rw
      (
        lt→ltb (length word) word_room short.0,
        lt→ltb i path_room (omega arith),
        load_loop_lem (i + 1) words short.1 (omega arith),
      )
      refl

-- A workload of 100 words at most, each shorter than 256 bytes, is loaded as it stands.
workload_init_lem :
    (words : List Bytes)
    → All (λ w. length w < word_room) words
    → length words ≤ path_room
    → workload_init (some words) ≡ loaded words
unfolding workload_init
workload_init_lem words short few = load_loop_lem 0 words short (omega arith)

-- What the first `n` calls give, from a counter on.
unfoldable pub paths_from : List Bytes → (n counter : ℕ) → List (Option Bytes)
paths_from paths zero counter = []
paths_from paths (suc n) counter =
    let (path, next) = workload_get_path paths counter in path ∷ paths_from paths n next

entry_of_lem : (n counter : ℕ) → 0 < n → counter < 2 ^ 31 → entry_of n counter ≡ some (counter % n)
unfolding entry_of
entry_of_lem n counter pos small = ground arith

module _ (paths : List Bytes) (filled : 0 < length paths) (few : length paths ≤ path_room) where
  -- A call gives the path at the counter, modulo the number of paths, and counts.
  pub workload_get_path_lem :
      (counter : ℕ)
      → counter < 2 ^ 31
      → workload_get_path paths counter ≡ (get_elem? paths (counter % length paths), counter + 1)
  unfolding workload_get_path
  workload_get_path_lem counter small =
      let same : length paths % 2 ^ 16 ≡ length paths = omega arith in
      let next : (counter + 1) % 2 ^ 32 ≡ counter + 1 = omega arith in
      ap (λ n. (path_at paths (entry_of n counter), (counter + 1) % 2 ^ 32)) same
      ∙ ap (λ e. (path_at paths e, (counter + 1) % 2 ^ 32))
          (entry_of_lem (length paths) counter filled small)
      ∙ ap (λ n. (get_elem? paths (counter % length paths), n)) next

  paths_from-get :
      (n counter i : ℕ)
      → i < n
      → counter + n ≤ 2 ^ 31
      → get_elem? (paths_from paths n counter) i
        ≡ some (get_elem? paths ((counter + i) % length paths))
  unfolding paths_from
  paths_from-get zero counter i lt small = absurd (omega arith)
  paths_from-get (suc n) counter zero lt small =
      ap (λ r. some (r.0)) (workload_get_path_lem counter (omega arith))
      ∙ ap (λ k. some (get_elem? paths (k % length paths))) (omega arith)
  paths_from-get (suc n) counter (suc i) lt small =
      ap (λ (r : Option Bytes × ℕ). get_elem? (paths_from paths n r.1) i)
        (workload_get_path_lem counter (omega arith))
      ∙ paths_from-get n (counter + 1) i (omega arith) (omega arith)
      ∙ ap (λ k. some (get_elem? paths (k % length paths))) (omega arith)

  -- With from 1 to 100 paths, of the first `n` calls, 2^31 at most, the one with number `i` gives
  -- the path at `i` modulo the number of paths, which is there.
  paths_from-round_robin :
      (n i : ℕ)
      → i < n
      → n ≤ 2 ^ 31
      → (path : Bytes) × (get_elem? paths (i % length paths) ≡ some path)
        × (get_elem? (paths_from paths n 0) i ≡ some (some path))
  paths_from-round_robin n i lt small =
      let (path, got) = get_elem?-lt paths (i % length paths) (omega arith) in
      (
        path,
        got,
        paths_from-get n 0 i lt (omega arith)
            ∙ ap (λ k. some (get_elem? paths (k % length paths))) (omega arith)
            ∙ ap some got,
      )
