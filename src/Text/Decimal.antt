-- ===== src/Text/Decimal.antt =====
-- `%zu` and `strtoul(…, 10)` of the C library, and how they go together.
use Prim.Native.Nat.{min}
use intro_to_os.Base.{
  ℕ, zero, suc, ◌+◌, ◌-◌, ◌*◌, ◌/◌, ◌%◌, ◌^◌, ◌≡◌, ◌<◌, ◌≤◌, refl, Bool, true, ◌&&◌, ◌||◌, [], ◌∷◌,
  ◌++◌, arith, length, length-append, all_of, if◌then◌else◌, ltb, leb, ◌==◌, Bool-cases, inl, inr,
  ap, ◌∙◌, sym,
}
use intro_to_os.Text.{Bytes, tab}
use intro_to_os.Text.Token.{all_of-append}

unfoldable pub digits : ℕ → ℕ → Bytes
digits zero n = []
digits (suc fuel) n =
    let rest = digits fuel (n / 10) in
    if ltb n 10 then (b'0' + n) ∷ [] else rest ++ (b'0' + n % 10) ∷ []

-- A 64-bit number has 20 digits at most.
unfoldable pub decimal : ℕ → Bytes
unfolding digits
decimal n = digits 20 n

abbrev pub is_digit : ℕ → Bool
is_digit c = leb b'0' c && leb c b'9'

-- The value of the digits that the text begins with, behind those read so far.
unfoldable pub scan_digits : ℕ → Bytes → ℕ
scan_digits acc [] = acc
scan_digits acc (c ∷ s) =
    let more = scan_digits (acc * 10 + (c - b'0')) s in if is_digit c then more else acc

-- isspace
abbrev pub is_white : ℕ → Bool
is_white c = c == b' ' || (leb tab c && leb c 13)

abbrev pub ulong_max : ℕ
ulong_max = 2 ^ 64 - 1

-- A value out of range gives ULONG_MAX, and a minus sign negates modulo 2^64.
abbrev pub clamp : ℕ → ℕ
clamp v = if ltb ulong_max v then ulong_max else v

unfoldable pub strtoul : Bytes → ℕ
unfolding scan_digits
strtoul [] = 0
strtoul (c ∷ s) =
    let skipped = strtoul s in
    if is_white c
    then skipped
    else if c == b'-'
    then (let v = clamp (scan_digits 0 s) in
        if ltb ulong_max (scan_digits 0 s) then v else (2 ^ 64 - v) % 2 ^ 64)
    else if c == b'+'
    then clamp (scan_digits 0 s)
    else clamp (scan_digits 0 (c ∷ s))

unfoldable pub pow10 : ℕ → ℕ
pow10 zero = 1
pow10 (suc k) = 10 * pow10 k

pow10-pos : (k : ℕ) → 0 < pow10 k
unfolding pow10
pow10-pos zero = omega arith
pow10-pos (suc k) = omega (arith, pow10-pos k)

clamp_self : (n : ℕ) → n < 2 ^ 64 → clamp n ≡ n
clamp_self n h = ground arith

digits-all : (fuel n : ℕ) → all_of is_digit (digits fuel n) ≡ true
unfolding digits
digits-all zero n = refl
digits-all (suc fuel) n = elim (Bool-cases (ltb n 10)) [
  | inl small ↦ rw small (ground arith)
  | inr big ↦
      rw big
        (all_of-append is_digit (digits fuel (n / 10)) _ (digits-all fuel (n / 10)) (ground arith))
]

pub scan_digits-append :
    (acc : ℕ) (s t : Bytes)
    → all_of is_digit s ≡ true
    → scan_digits acc (s ++ t) ≡ scan_digits (scan_digits acc s) t
unfolding scan_digits
scan_digits-append acc [] t h = refl
scan_digits-append acc (c ∷ s) t h = ground (arith, scan_digits-append (acc * 10 + (c - b'0')) s t)

scan_digits-digits : (fuel n : ℕ) → n < pow10 fuel → scan_digits 0 (digits fuel n) ≡ n
unfolding digits scan_digits pow10
scan_digits-digits zero n h = omega arith
scan_digits-digits (suc fuel) n h = elim (Bool-cases (ltb n 10)) [
  | inl small ↦ rw small (ground arith)
  | inr big ↦
      rw
        (
          big,
          scan_digits-append 0 (digits fuel (n / 10)) ((b'0' + n % 10) ∷ [])
              (digits-all fuel (n / 10)),
          scan_digits-digits fuel (n / 10) (omega arith),
        )
        (ground arith)
]

digits-pos : (fuel n : ℕ) → 0 < length (digits (suc fuel) n)
unfolding digits
digits-pos fuel n = ground (arith, length-append (digits fuel (n / 10)) ((b'0' + n % 10) ∷ []))

length-digits-le : (k fuel n : ℕ) → n < pow10 (suc k) → length (digits fuel n) ≤ suc k
unfolding digits pow10
length-digits-le k zero n h = omega arith
length-digits-le zero (suc fuel) n h = ground arith
length-digits-le (suc k) (suc fuel) n h = ground (
  arith,
  length-append (digits fuel (n / 10)) ((b'0' + n % 10) ∷ []),
  length-digits-le k fuel (n / 10),
)

-- From ten to the k on there are more than k digits, if there is fuel for them.
lt-length-digits : (k fuel n : ℕ) → pow10 k ≤ n → k < fuel → k < length (digits fuel n)
unfolding pow10 digits
lt-length-digits k zero n h f = absurd (omega arith)
lt-length-digits zero (suc fuel) n h f = digits-pos fuel n
lt-length-digits (suc k) (suc fuel) n h f = ground (
  arith,
  pow10-pos k,
  length-append (digits fuel (n / 10)) ((b'0' + n % 10) ∷ []),
  lt-length-digits k fuel (n / 10),
)

strtoul-scan_digits :
    (c : ℕ) (s : Bytes)
    → all_of is_digit (c ∷ s) ≡ true
    → strtoul (c ∷ s) ≡ clamp (scan_digits 0 (c ∷ s))
unfolding strtoul
strtoul-scan_digits c s h = ground arith

strtoul_digits :
    (s : Bytes) → all_of is_digit s ≡ true → 0 < length s → strtoul s ≡ clamp (scan_digits 0 s)
strtoul_digits [] h pos = absurd (omega arith)
strtoul_digits (c ∷ s) h pos = strtoul-scan_digits c s h

-- Reading back what was printed gives the number.
pub strtoul-decimal : (n : ℕ) → n < 2 ^ 64 → strtoul (decimal n) ≡ n
unfolding decimal
strtoul-decimal n h =
    strtoul_digits (digits 20 n) (digits-all 20 n) (digits-pos 19 n)
    ∙ ap clamp (scan_digits-digits 20 n (unfold pow10 in (omega arith)))
    ∙ clamp_self n h

-- More fuel than the number has digits changes nothing.
digits-suc : (k n : ℕ) → n < pow10 (suc k) → digits (suc (suc k)) n ≡ digits (suc k) n
unfolding digits pow10
digits-suc zero n h = ground arith
digits-suc (suc k) n h = ground (arith, digits-suc k (n / 10))

digits-more :
    (fuel n : ℕ) → 10 ≤ n → digits (suc fuel) n ≡ digits fuel (n / 10) ++ (b'0' + n % 10) ∷ []
unfolding digits
digits-more fuel n h = ground arith

-- A number of two digits or more is printed as its tenth and its last digit.
pub decimal-div :
    (n : ℕ) → 10 ≤ n → n < 10 ^ 20 → decimal n ≡ decimal (n / 10) ++ (b'0' + n % 10) ∷ []
unfolding decimal
decimal-div n h small =
    digits-more 19 n h
    ∙ ap (λ (s : Bytes). s ++ (b'0' + n % 10) ∷ [])
        (sym (digits-suc 18 (n / 10) (unfold pow10 in (omega arith))))

pub decimal-all : (n : ℕ) → all_of is_digit (decimal n) ≡ true
unfolding decimal
decimal-all n = digits-all 20 n

pub decimal-pos : (n : ℕ) → 0 < length (decimal n)
unfolding decimal
decimal-pos n = digits-pos 19 n

pub length-decimal-le : (k n : ℕ) → n < pow10 (suc k) → length (decimal n) ≤ suc k
unfolding decimal
length-decimal-le k n h = length-digits-le k 20 n h

pub lt-length-decimal : (k n : ℕ) → k < 20 → pow10 k ≤ n → k < length (decimal n)
unfolding decimal
lt-length-decimal k n h p = lt-length-digits k 20 n p h

pub scan_digits-decimal : (n : ℕ) → n < 10 ^ 20 → scan_digits 0 (decimal n) ≡ n
unfolding decimal
scan_digits-decimal n h = scan_digits-digits 20 n (unfold pow10 in (omega arith))

-- `strtol` with its sign, saturated at LONG_MAX and LONG_MIN, and cut to 32 bits: the pattern of the
-- `int` that `atoi` returns.
unfoldable pub atoi : Bytes → ℕ
unfolding scan_digits
atoi [] = 0
atoi (c ∷ s) =
    let skipped = atoi s in
    if is_white c
    then skipped
    else if c == b'-'
    then (2 ^ 64 - min (scan_digits 0 s) (2 ^ 63)) % 2 ^ 32
    else if c == b'+'
    then min (scan_digits 0 s) (2 ^ 63 - 1) % 2 ^ 32
    else min (scan_digits 0 (c ∷ s)) (2 ^ 63 - 1) % 2 ^ 32
