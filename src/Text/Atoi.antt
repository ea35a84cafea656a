-- ===== src/Text/Atoi.antt =====
-- `%d` of the C library, and `atoi` on what it prints.
use Prim.Native.Nat.{min}
use intro_to_os.Base.{
  ℕ, ◌-◌, ◌%◌, ◌^◌, ◌≡◌, ◌<◌, refl, true, [], ◌∷◌, ◌++◌, arith, length, all_of, if◌then◌else◌, ltb,
  ap, ◌∙◌, lt→ltb,
}
use intro_to_os.Text.{Bytes, newline}
use intro_to_os.Text.Decimal.{
  decimal, decimal-all, decimal-pos, is_digit, scan_digits, scan_digits-append, scan_digits-decimal,
  atoi,
}

-- The text of the `int` with this pattern.
unfoldable pub show_int : ℕ → Bytes
show_int w = if ltb w (2 ^ 31) then decimal w else b'-' ∷ decimal (2 ^ 32 - w)

atoi-digit :
    (c : ℕ) (s : Bytes)
    → is_digit c ≡ true
    → atoi (c ∷ s) ≡ min (scan_digits 0 (c ∷ s)) (2 ^ 63 - 1) % 2 ^ 32
unfolding atoi
atoi-digit c s h = ground arith

atoi-digits :
    (s t : Bytes)
    → all_of is_digit s ≡ true
    → 0 < length s
    → atoi (s ++ t) ≡ min (scan_digits 0 (s ++ t)) (2 ^ 63 - 1) % 2 ^ 32
atoi-digits [] t h pos = absurd (omega arith)
atoi-digits (c ∷ s) t h pos = atoi-digit c (s ++ t) (ground arith)

scan_digits-newline : (n : ℕ) → scan_digits n (newline ∷ []) ≡ n
unfolding scan_digits
scan_digits-newline n = refl

-- Reading back what `"%d\n"` printed gives the number, if it is not negative.
pub atoi-show_int : (n : ℕ) → n < 2 ^ 31 → atoi (show_int n ++ newline ∷ []) ≡ n
unfolding show_int
atoi-show_int n small = rw (lt→ltb n (2 ^ 31) small) (
    atoi-digits (decimal n) (newline ∷ []) (decimal-all n) (decimal-pos n)
    ∙ ap (λ v. min v (2 ^ 63 - 1) % 2 ^ 32)
        (scan_digits-append 0 (decimal n) (newline ∷ []) (decimal-all n)
          ∙ ap (λ v. scan_digits v (newline ∷ [])) (scan_digits-decimal n (omega arith))
          ∙ scan_digits-newline n)
    ∙ omega arith)
