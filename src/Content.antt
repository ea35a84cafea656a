-- ===== src/Content.antt =====
-- The content table of gios-spr-2018-pr1-master/gflib/content.c (and mtgf/content.c, the same
-- text), and its copy gios-spr-2018-pr3-master/cache/simplecache.c with other limits.
pub mod Search
pub mod Line
pub mod Load
pub mod Table
use Prim.Native.Nat.{Ordering}
use intro_to_os.Base.{
  ℕ, zero, suc, ◌+◌, ◌-◌, ◌*◌, ◌^◌, ◌&&◌, ◌/◌, ◌≡◌, Bool, true, false, List, [], ◌∷◌, ◌++◌, Option,
  none, some, ◌==◌, ltb, leb, if◌then◌else◌, length, get_elem?,
}
use intro_to_os.Text.{Bytes, newline, c_string, strcmp, strsep, is_blank}

-- item_t
pub record Entry : Type 0 where
  pub fildes : ℕ
  pub key : Bytes

abbrev pub entry : ℕ → Bytes → Entry
entry fd k = record { fildes = fd; key = k }

-- How a lookup ends. `hit i` is a return from within the loop with `mid` at `i`.
pub data Probe : Type 0 where
  hit : ℕ → Probe
  miss : Probe
  out_of_bounds : Probe
  out_of_fuel : Probe

-- `lo + (hi - lo) / 2`. Here and below `end` is the `hi + 1` of the source, whose `hi` may be -1.
abbrev pub middle : ℕ → ℕ → ℕ
middle lo end = lo + (end - 1 - lo) / 2

-- The loop of `content_get` and `simplecache_get`.
unfoldable pub search : ℕ → List Entry → Bytes → (lo end : ℕ) → Probe
search zero items key lo end = out_of_fuel
search (suc fuel) items key lo end = elim (ltb lo end) [
  | false ↦ miss
  | true ↦ elim (get_elem? items (middle lo end)) [
    | none ↦ out_of_bounds
    | some e ↦ elim (strcmp key e.key) [
      | Ordering.lt ↦ search fuel items key lo (middle lo end)
      | Ordering.gt ↦ search fuel items key (middle lo end + 1) end
      | Ordering.eq ↦ hit (middle lo end)
    ]
  ]
]

-- `nitems` is an `int`, so 31 halvings empty every range; one more round sees that it is empty.
abbrev pub rounds : ℕ
rounds = 32

unfoldable pub probe : List Entry → Bytes → Probe
unfolding search
probe items key = search rounds items key 0 (length items)

-- What a lookup returns: a descriptor, or -1 as `none`; a read past the table is a fault.
pub data Lookup : Type 0 where
  returned : Option ℕ → Lookup
  faulted : Lookup

abbrev pub result_of : List Entry → Probe → Lookup
result_of items (hit i) = elim (get_elem? items i) [
  | none ↦ faulted
  | some e ↦ returned (some e.fildes)
]
result_of items miss = returned none
result_of items _ = faulted

unfoldable pub simplecache_get : List Entry → Bytes → Lookup
unfolding probe
simplecache_get items key = result_of items (probe items key)

-- The offsets of the open files, by descriptor.
abbrev pub Offsets : Type 0
Offsets = ℕ → ℕ

abbrev pub rewind : Lookup → Offsets → Offsets
rewind (returned (some fd)) offsets = λ f. if f == fd then 0 else offsets f
rewind (returned none) offsets = offsets
rewind faulted offsets = offsets

-- `content_get` also seeks the descriptor that it returns to the start.
unfoldable pub content_get : List Entry → Bytes → Offsets → Lookup × Offsets
unfolding probe
content_get items key offsets = let r = result_of items (probe items key) in (r, rewind r offsets)

-- `fgets` with room for `n` bytes: the bytes up to a newline, and what is left of the file.
unfoldable pub fgets_upto : ℕ → Bytes → Bytes × Bytes
fgets_upto zero file = ([], file)
fgets_upto (suc n) [] = ([], [])
fgets_upto (suc n) (c ∷ file) =
    let (line, rest) = fgets_upto n file in
    if c == newline then (c ∷ [], file) else (c ∷ line, rest)

-- All but the last byte.
abbrev pub drop_last : Bytes → Bytes
drop_last [] = []
drop_last (c ∷ []) = []
drop_last (c ∷ d ∷ s) = c ∷ drop_last (d ∷ s)

-- What differs between content.c and simplecache.c.
pub record Limits : Type 0 where
  pub max_keylen : ℕ
  pub failure : ℕ

-- `open(path, O_RDONLY)` on the call with this number: a descriptor, or `none` for -1. A missing
-- path is the NULL that `strsep` returns.
abbrev pub Open : Type 0
Open = ℕ → Option Bytes → Option ℕ

-- `strsep` twice: the key, and the path if there is a delimiter.
unfoldable pub words : Bytes → Bytes × Option Bytes
words text =
    let (key, more) = strsep is_blank text in
    (key, elim more [ none ↦ none | some t ↦ some (strsep is_blank t).0 ])

-- The line cut into key and path, after `items[nitems].key[strlen(items[nitems].key)-1] = '\0'`. On
-- an empty string that write is out of bounds: `none`.
unfoldable pub split_line : Bytes → Option (Bytes × Option Bytes)
unfolding words
split_line line = elim (c_string line) [ [] ↦ none | c ∷ s ↦ some (words (drop_last (c ∷ s))) ]

-- How the initialisation ends.
pub data Loaded : Type 0 where
  loaded : List Entry → (capacity : ℕ) → Loaded
  exited : ℕ → Loaded
  undefined : Loaded
  no_fuel : Loaded

-- Whether `malloc` or `realloc` finds room for this many items.
abbrev pub Allocates : Type 0
Allocates = ℕ → Bool

-- `capacity *= 2` and `realloc` when the table is full. `none` where the doubling overflows the `int`, or
-- where `realloc` returns NULL, of which the program takes no notice: `fgets` and `qsort` go on with NULL.
abbrev pub grow : Allocates → (nitems capacity : ℕ) → Option ℕ
grow allocates nitems capacity =
    if nitems == capacity
    then if ltb (capacity * 2) (2 ^ 31) && allocates (capacity * 2)
      then some (capacity * 2)
      else none
    else some capacity

-- The `while (fgets(items[nitems].key, …))` loop. It writes into `items[nitems]`.
unfoldable pub load_loop :
    Limits → Open → Allocates → ℕ → (file : Bytes) → List Entry → (capacity : ℕ) → Loaded
unfolding split_line fgets_upto
load_loop lim open_file allocates zero file items capacity = no_fuel
load_loop lim open_file allocates (suc fuel) file items capacity =
    elim (ltb (length items) capacity) [
      | false ↦ undefined
      | true ↦ elim file [
        | [] ↦ loaded items capacity
        | c ∷ more ↦
            let (line, rest) = fgets_upto (lim.max_keylen - 1) (c ∷ more) in
            elim (split_line line) [
              | none ↦ undefined
              | some (key, path) ↦ elim (open_file (length items) path) [
                | none ↦ exited lim.failure
                | some fd ↦ elim (grow allocates (length items + 1) capacity) [
                  | none ↦ undefined
                  | some capacity' ↦
                      load_loop lim open_file allocates fuel rest (items ++ entry fd key ∷ [])
                        capacity'
                ]
              ]
            ]
      ]
    ]

-- `qsort` by `_itemcmp`, of which C says only that the result is in order and has the same items.
abbrev pub finish : (List Entry → List Entry) → Loaded → Loaded
finish qsort (loaded items capacity) = loaded (qsort items) capacity
finish qsort (exited code) = exited code
finish qsort undefined = undefined
finish qsort no_fuel = no_fuel

-- The file is `none` if `fopen` fails. Each round reads a byte or more.
unfoldable pub init : Limits → Open → Allocates → (List Entry → List Entry) → Option Bytes → Loaded
unfolding load_loop
init lim open_file allocates qsort none = exited lim.failure
init lim open_file allocates qsort (some file) =
    if allocates 16
    then finish qsort (load_loop lim open_file allocates (length file + 1) file [] 16)
    else undefined

abbrev pub content_limits : Limits
content_limits = record { max_keylen = 256; failure = 1 }

abbrev pub simplecache_limits : Limits
simplecache_limits = record { max_keylen = 1500; failure = 255 }

unfoldable pub content_init : Open → Allocates → (List Entry → List Entry) → Option Bytes → Loaded
unfolding init
content_init = init content_limits

-- CACHE_FAILURE is -1, and a process exits with the low eight bits.
unfoldable pub simplecache_init :
    Open → Allocates → (List Entry → List Entry) → Option Bytes → Loaded
unfolding init
simplecache_init = init simplecache_limits

-- The descriptors that `content_destroy` and `simplecache_destroy` close, in order.
unfoldable pub destroy_loop : List Entry → List ℕ
destroy_loop [] = []
destroy_loop (e ∷ items) = e.fildes ∷ destroy_loop items

unfoldable pub content_destroy : List Entry → List ℕ
unfolding destroy_loop
content_destroy items = destroy_loop items

unfoldable pub simplecache_destroy : List Entry → List ℕ
unfolding destroy_loop
simplecache_destroy items = destroy_loop items
