-- ===== src/GfClient/Parse.antt =====
-- What `gfc_perform` of gflib/gfclient.c makes of the headers that gflib/gfserver.c sends.
use intro_to_os.Base.{
  ℕ, zero, suc, ◌^◌, ◌≡◌, ◌≢◌, ◌<◌, ◌⊎◌, refl, Bool, true, false, [], ◌∷◌, ◌++◌, some, lt→ltb,
  length, length-append, take, take-eq_self, all_of, arith, ap, ◌∙◌, inl, inr,
}
use mathlib.Core.List.{append_assoc}
use intro_to_os.Text.{Bytes, codes, c_string, no_nul, strtok, is_space, is_line_end}
use intro_to_os.Text.Compare.{bytes_eq}
use intro_to_os.Text.Token.{all_of_weaken, c_string-append, all_of-append, IsToken, strtok-IsToken}
use intro_to_os.Text.Decimal.{
  decimal, is_digit, decimal-all, decimal-pos, length-decimal-le, pow10, strtoul, strtoul-decimal,
}
use intro_to_os.GfServer.{
  Status, ok, file_not_found, error, invalid, status_word, file_length, header_of_word,
  response_header, terminator, refusal,
}
use intro_to_os.GfClient.{
  malformed, header, header_length, parse_response, with_scheme, with_status, with_length, bufsize,
}

-- `strcpy` finds a NUL within the buffer.
abbrev pub IsReadable : Bytes → Type 0
IsReadable packet = (length packet < bufsize) ⊎ (no_nul packet ≡ false)

parse_response_readable :
    (packet : Bytes)
    → IsReadable packet
    → parse_response packet ≡ with_scheme (strtok is_space (c_string packet))
unfolding parse_response
parse_response_readable packet (inl short) = rw (lt→ltb _ _ short)
parse_response_readable packet (inr ends) = ground arith

all_of-take : (p : ℕ → Bool) (k : ℕ) (s : Bytes) → all_of p s ≡ true → all_of p (take k s) ≡ true
all_of-take p zero s h = refl
all_of-take p (suc k) [] h = refl
all_of-take p (suc k) (c ∷ s) h = ground (arith, all_of-take p k s)

file_length-digits : (n : ℕ) → all_of is_digit (file_length n) ≡ true
unfolding file_length
file_length-digits n = all_of-take is_digit 7 (decimal n) (decimal-all n)

length-take-pos : (k : ℕ) (s : Bytes) → 0 < length s → 0 < length (take (suc k) s)
length-take-pos k [] h = h
length-take-pos k (c ∷ s) h = omega arith

file_length-IsToken : (n : ℕ) → IsToken is_line_end (file_length n)
unfolding file_length
file_length-IsToken n = record {
  filled = length-take-pos 6 (decimal n) (decimal-pos n);
  free = all_of_weaken is_digit _ (file_length n) (λ c e. ground arith) (file_length-digits n);
}

file_length-clean : (n : ℕ) → no_nul (file_length n) ≡ true
file_length-clean n =
    all_of_weaken is_digit _ (file_length n) (λ c e. ground arith) (file_length-digits n)

-- Up to seven digits the stated length is the file length.
pub strtoul-file_length : (n : ℕ) → n < 10 ^ 7 → strtoul (file_length n) ≡ n
unfolding file_length
strtoul-file_length n small =
    ap strtoul (take-eq_self 7 (decimal n) (length-decimal-le 6 n (unfold pow10 in (omega arith))))
    ∙ strtoul-decimal n (omega arith)

header_of_word-append :
    (word : Bytes) (n : ℕ) (rest : Bytes)
    → header_of_word word n ++ rest
      ≡ codes "GETFILE"
        ++ (b' ' ∷ (word ++ (b' ' ∷ (file_length n ++ (13 ∷ (10 ∷ 13 ∷ 10 ∷ []) ++ rest)))))
header_of_word-append word n rest =
    ap (λ (s : Bytes). codes "GETFILE" ++ (b' ' ∷ s))
      (append_assoc word (b' ' ∷ (file_length n ++ terminator)) rest
        ∙ ap (λ (s : Bytes). word ++ (b' ' ∷ s)) (append_assoc (file_length n) terminator rest))

header_of_word-clean :
    (word : Bytes) (n : ℕ) → no_nul word ≡ true → no_nul (header_of_word word n) ≡ true
header_of_word-clean word n clean =
    all_of-append _ word (b' ' ∷ (file_length n ++ terminator)) clean
      (all_of-append _ (file_length n) terminator (file_length-clean n) refl)

length-header_of_word :
    (word : Bytes) (n : ℕ)
    → header_length (codes "GETFILE") word (file_length n) ≡ length (header_of_word word n)
length-header_of_word word n = omega (
  arith,
  length-append word (b' ' ∷ (file_length n ++ terminator)),
  length-append (file_length n) terminator,
)

-- A header is read as the length it states and its own size, if its status word is none of those
-- that `gfc_perform` compares with.
parse_response-word :
    (word : Bytes) (n : ℕ) (rest : Bytes)
    → IsToken is_space word
    → no_nul word ≡ true
    → ((more : Bytes)
        → with_status (codes "GETFILE") (some word, more)
          ≡ with_length (codes "GETFILE") word (strtok is_line_end more))
    → IsReadable (header_of_word word n ++ rest)
    → parse_response (header_of_word word n ++ rest)
      ≡ header (strtoul (file_length n)) (length (header_of_word word n))
parse_response-word word n rest token clean plain readable =
    let tail : Bytes = (10 ∷ 13 ∷ 10 ∷ []) ++ c_string rest in
    let stated : Bytes = file_length n in
    parse_response_readable (header_of_word word n ++ rest) readable
    ∙ ap (λ (s : Bytes). with_scheme (strtok is_space s))
        (c_string-append (header_of_word word n) rest (header_of_word-clean word n clean)
          ∙ header_of_word-append word n (c_string rest))
    ∙ ap with_scheme (
        strtok-IsToken is_space b' ' (codes "GETFILE") (word ++ (b' ' ∷ (stated ++ (13 ∷ tail))))
          refl (record { filled = omega arith; free = refl }))
    ∙ ap (with_status (codes "GETFILE"))
        (strtok-IsToken is_space b' ' word (stated ++ (13 ∷ tail)) refl token)
    ∙ plain (stated ++ (13 ∷ tail))
    ∙ ap (with_length (codes "GETFILE") word)
        (strtok-IsToken is_line_end 13 stated tail refl (file_length-IsToken n))
    ∙ ap (header (strtoul stated)) (length-header_of_word word n)

-- Whatever its status, a header of the server that states a length is read as that of a file: the
-- client compares the status with words that end in the terminator, and the server's do not.
pub parse_response-header :
    (status : Status) (n : ℕ) (rest : Bytes)
    → status ≢ invalid
    → IsReadable (response_header status n ++ rest)
    → parse_response (response_header status n ++ rest)
      ≡ header (strtoul (file_length n)) (length (response_header status n))
unfolding response_header with_status bytes_eq
parse_response-header ok n rest ne readable =
    parse_response-word (status_word ok) n rest (record { filled = omega arith; free = refl }) refl
      (λ more. refl) readable
parse_response-header file_not_found n rest ne readable =
    parse_response-word (status_word file_not_found) n rest
      (record { filled = omega arith; free = refl }) refl (λ more. refl) readable
parse_response-header error n rest ne readable =
    parse_response-word (status_word error) n rest (record { filled = omega arith; free = refl })
      refl (λ more. refl) readable
parse_response-header invalid n rest ne readable = absurd (ne refl)

-- The message for a malformed request is read as such.
parse_response-refusal : parse_response refusal ≡ malformed
unfolding parse_response with_status bytes_eq strtok c_string
parse_response-refusal = refl
