-- ===== src/Download/Names.antt =====
-- `localPath` of gflib/gfclient_download.c and mtgf/gfclient_download.c: the names of the files that the
-- programs write.
use intro_to_os.Base.{
  ℕ, ◌+◌, ◌-◌, ◌^◌, ◌≡◌, ◌<◌, ◌≤◌, refl, zero, suc, [], ◌∷◌, ◌++◌, Option, none, some, length,
  length-append, take, drop, length-drop, ltb, lt→ltb, if◌then◌else◌, ◌==◌, ap, ◌∙◌, sym, Bool,
  true, false, all_of, arith,
}
use intro_to_os.Text.{Bytes}
use intro_to_os.Text.Token.{free_of}
use intro_to_os.Text.Decimal.{
  decimal, decimal-all, is_digit, scan_digits, scan_digits-decimal, length-decimal-le, pow10,
}

-- What differs between the two programs: the character in front of the number, the longest path, the
-- size of the buffer for the name, and whether a name that is too long is cut (`snprintf`) or written
-- past the end.
pub record Variant : Type 0 where
  pub separator : ℕ
  pub longest : ℕ
  pub path_buffer_size : ℕ
  pub cuts : Bool

abbrev pub sequential : Variant
sequential = record { separator = b'_'; longest = 256; path_buffer_size = 5120; cuts = true }

abbrev pub multithreaded : Variant
multithreaded = record { separator = b'-'; longest = 512; path_buffer_size = 1024; cuts = false }

unfoldable pub zeros : ℕ → Bytes
zeros zero = []
zeros (suc n) = b'0' ∷ zeros n

-- `%06d` of an `int` that is not negative.
unfoldable pub six_digits : ℕ → Bytes
unfolding zeros
six_digits n = zeros (6 - length (decimal n)) ++ decimal n

-- The path without its first character, and the number behind it.
abbrev pub numbered : (separator : ℕ) → (req_path : Bytes) → (counter : ℕ) → Bytes
numbered separator req_path counter = drop 1 req_path ++ separator ∷ six_digits counter

-- The name in the buffer; `none` is a write past its end. `counter` counts the calls.
unfoldable pub local_path : Variant → (req_path : Bytes) → (counter : ℕ) → Option Bytes
unfolding six_digits
local_path v req_path counter =
    let text = numbered v.separator req_path counter in
    if ltb (length text) v.path_buffer_size
    then some text
    else if v.cuts
    then some (take (v.path_buffer_size - 1) text)
    else none

length-zeros : (n : ℕ) → length (zeros n) ≡ n
unfolding zeros
length-zeros zero = refl
length-zeros (suc n) = ap suc (length-zeros n)

length-six_digits-le : (n : ℕ) → n < 2 ^ 31 → length (six_digits n) ≤ 10
unfolding six_digits
length-six_digits-le n small =
    let few : length (decimal n) ≤ 10 = length-decimal-le 9 n (unfold pow10 in (omega arith)) in
    omega (
      arith,
      few,
      length-append (zeros (6 - length (decimal n))) (decimal n),
      length-zeros (6 - length (decimal n)),
    )

-- A program's limit on paths makes room for the number.
abbrev pub HasRoom : Variant → Type 0
HasRoom v = v.longest + 11 ≤ v.path_buffer_size

-- A path that is not too long gives a name that fits the buffer, uncut.
pub local_path_lem :
    (v : Variant) (req_path : Bytes) (counter : ℕ)
    → HasRoom v
    → 0 < length req_path
    → length req_path ≤ v.longest
    → counter < 2 ^ 31
    → local_path v req_path counter ≡ some (numbered v.separator req_path counter)
unfolding local_path
local_path_lem v req_path counter room filled short small =
    let fits : length (numbered v.separator req_path counter) < v.path_buffer_size = omega (
      arith,
      length-append (drop 1 req_path) (v.separator ∷ six_digits counter),
      length-six_digits-le counter small,
      length-drop 1 req_path,
    ) in
    rw (lt→ltb (length (numbered v.separator req_path counter)) v.path_buffer_size fits) refl

-- What stands behind the last separator, if there is one.
behind_last : (separator : ℕ) → Bytes → Option Bytes
behind_last separator [] = none
behind_last separator (c ∷ s) =
    let rest = behind_last separator s in
    elim rest [ some t ↦ some t | none ↦ if c == separator then some s else none ]

abbrev is : ℕ → ℕ → Bool
is separator c = c == separator

behind_last-free :
    (separator : ℕ) (s : Bytes) → free_of (is separator) s ≡ true → behind_last separator s ≡ none
unfolding behind_last
behind_last-free separator [] h = refl
behind_last-free separator (c ∷ s) h = ground (arith, behind_last-free separator s)

behind_last-append :
    (separator : ℕ) (p s : Bytes)
    → free_of (is separator) s ≡ true
    → behind_last separator (p ++ separator ∷ s) ≡ some s
unfolding behind_last
behind_last-append separator [] s h = rw (behind_last-free separator s h) (ground arith)
behind_last-append separator (c ∷ p) s h = rw (behind_last-append separator p s h) refl

-- A separator is not a digit.
abbrev pub IsSeparator : ℕ → Type 0
IsSeparator separator = is_digit separator ≡ false

digits-free :
    (separator : ℕ) (s : Bytes)
    → IsSeparator separator
    → all_of is_digit s ≡ true
    → free_of (is separator) s ≡ true
digits-free separator [] not_digit h = refl
digits-free separator (c ∷ s) not_digit h = ground (arith, digits-free separator s not_digit)

all_of-zeros :
    (k : ℕ) (s : Bytes) → all_of is_digit s ≡ true → all_of is_digit (zeros k ++ s) ≡ true
unfolding zeros
all_of-zeros zero s h = h
all_of-zeros (suc k) s h = all_of-zeros k s h

scan_digits-zeros : (k : ℕ) (s : Bytes) → scan_digits 0 (zeros k ++ s) ≡ scan_digits 0 s
unfolding zeros scan_digits
scan_digits-zeros zero s = refl
scan_digits-zeros (suc k) s = scan_digits-zeros k s

six_digits-all : (n : ℕ) → all_of is_digit (six_digits n) ≡ true
unfolding six_digits
six_digits-all n = all_of-zeros (6 - length (decimal n)) (decimal n) (decimal-all n)

scan_digits-six_digits : (n : ℕ) → n < 2 ^ 31 → scan_digits 0 (six_digits n) ≡ n
unfolding six_digits
scan_digits-six_digits n small =
    scan_digits-zeros (6 - length (decimal n)) (decimal n) ∙ scan_digits-decimal n (omega arith)

-- The number that a name was made with.
abbrev value_of : Option Bytes → Option ℕ
value_of none = none
value_of (some t) = some (scan_digits 0 t)

number_of : (separator : ℕ) → Bytes → Option ℕ
number_of separator s = value_of (behind_last separator s)

number_of-numbered :
    (separator : ℕ) (req_path : Bytes) (counter : ℕ)
    → IsSeparator separator
    → counter < 2 ^ 31
    → number_of separator (numbered separator req_path counter) ≡ some counter
unfolding number_of
number_of-numbered separator req_path counter not_digit small =
    ap value_of (
      behind_last-append separator (drop 1 req_path) (six_digits counter)
        (digits-free separator (six_digits counter) not_digit (six_digits-all counter)))
    ∙ ap some (scan_digits-six_digits counter small)

get_some : Option ℕ → ℕ
get_some none = 0
get_some (some n) = n

-- Two calls give two names, whatever the paths are.
pub numbered-injective :
    (separator : ℕ) (p q : Bytes) (m n : ℕ)
    → IsSeparator separator
    → m < 2 ^ 31
    → n < 2 ^ 31
    → numbered separator p m ≡ numbered separator q n
    → m ≡ n
unfolding get_some
numbered-injective separator p q m n not_digit small_m small_n same =
    ap get_some (sym (number_of-numbered separator p m not_digit small_m))
    ∙ ap (λ s. get_some (number_of separator s)) same
    ∙ ap get_some (number_of-numbered separator q n not_digit small_n)
