-- ===== src/Content/Line.antt =====
-- One line of a content file: how `fgets` cuts it off, and how it is cut into key and path
-- (content.c and simplecache.c).
use intro_to_os.Base.{
  ℕ, zero, suc, ◌≡◌, ◌≢◌, ◌<◌, refl, Bool, true, not, ◌&&◌, [], ◌∷◌, ◌++◌, none, some, arith,
  all_of, length, length-append, Bool-cases, inl, inr, ◌==◌, ap, ◌∙◌,
}
use intro_to_os.Text.{Bytes, nul, newline, c_string, no_nul, is_blank}
use intro_to_os.Text.Token.{free_of, strsep-append, strsep_whole, c_string_self, all_of-append}
use intro_to_os.Content.{fgets_upto, drop_last, words, split_line}

-- `fgets` with room for a byte makes progress, loses no byte and reads no NUL that is not there.
pub record Cut (file line rest : Bytes) : Type 0 where
  pub whole : line ++ rest ≡ file
  pub shorter : length rest < length file
  pub filled : 0 < length line
  pub clean : no_nul file ≡ true → (no_nul line ≡ true) × (no_nul rest ≡ true)

fgets_upto-whole : (n : ℕ) (file : Bytes) → (fgets_upto n file).0 ++ (fgets_upto n file).1 ≡ file
unfolding fgets_upto
fgets_upto-whole zero file = refl
fgets_upto-whole (suc n) [] = refl
fgets_upto-whole (suc n) (c ∷ file) = ground (arith, fgets_upto-whole n file)

fgets_upto-clean :
    (n : ℕ) (file : Bytes)
    → no_nul file ≡ true
    → (no_nul (fgets_upto n file).0 ≡ true) × (no_nul (fgets_upto n file).1 ≡ true)
unfolding fgets_upto
fgets_upto-clean zero file h = (refl, h)
fgets_upto-clean (suc n) [] h = (refl, refl)
fgets_upto-clean (suc n) (c ∷ file) h = ground (arith, fgets_upto-clean n file)

fgets_upto-filled : (n c : ℕ) (file : Bytes) → 0 < length (fgets_upto (suc n) (c ∷ file)).0
unfolding fgets_upto
fgets_upto-filled n c file = ground arith

pub fgets_upto-Cut :
    (n c : ℕ) (file : Bytes)
    → 0 < n
    → Cut (c ∷ file) (fgets_upto n (c ∷ file)).0 (fgets_upto n (c ∷ file)).1
fgets_upto-Cut zero c file pos = absurd (omega arith)
fgets_upto-Cut (suc n) c file pos =
    let (line, rest) = fgets_upto (suc n) (c ∷ file) in
    record {
      whole = fgets_upto-whole (suc n) (c ∷ file);
      shorter = omega (
        arith,
        fgets_upto-filled n c file,
        length-append line rest,
        ap (length {A = ℕ}) (fgets_upto-whole (suc n) (c ∷ file)),
      );
      filled = fgets_upto-filled n c file;
      clean = fgets_upto-clean (suc n) (c ∷ file);
    }

-- A line that ends in a newline and has room is read whole.
pub fgets_upto_line :
    (n : ℕ) (text rest : Bytes)
    → free_of (λ c. c == newline) text ≡ true
    → length text < n
    → fgets_upto n (text ++ newline ∷ rest) ≡ (text ++ newline ∷ [], rest)
unfolding fgets_upto
fgets_upto_line zero text rest h lt = absurd (omega arith)
fgets_upto_line (suc n) [] rest h lt = refl
fgets_upto_line (suc n) (c ∷ text) rest h lt = ground (arith, fgets_upto_line n text rest)

drop_last-append_one : (s : Bytes) (c : ℕ) → drop_last (s ++ c ∷ []) ≡ s
drop_last-append_one [] c = refl
drop_last-append_one (a ∷ []) c = refl
drop_last-append_one (a ∷ b ∷ s) c = ap (λ (t : Bytes). a ∷ t) (drop_last-append_one (b ∷ s) c)

-- A line with a byte that is no NUL is cut without a write out of bounds.
pub split_line-ne_none :
    (line : Bytes) → 0 < length line → no_nul line ≡ true → split_line line ≢ none
unfolding split_line c_string
split_line-ne_none [] pos h = absurd (omega arith)
split_line-ne_none (c ∷ s) pos h = ground arith

-- A key, a space and a path.
abbrev pub key_and_path : Bytes → Bytes → Bytes
key_and_path key path = key ++ b' ' ∷ path

-- No byte that would end the string, the line or the word.
abbrev pub is_plain : ℕ → Bool
is_plain c = not (c == nul) && (not (c == newline) && not (is_blank c))

abbrev pub plain : Bytes → Bool
plain = all_of is_plain

plain_weaken :
    (p : ℕ → Bool) (s : Bytes)
    → ((c : ℕ) → is_plain c ≡ true → p c ≡ true)
    → plain s ≡ true
    → all_of p s ≡ true
plain_weaken p [] w h = refl
plain_weaken p (c ∷ s) w h = elim (Bool-cases (is_plain c)) [
  | inl good ↦ rw (w c good) (plain_weaken p s w (rw good at h))
  | inr bad ↦ cc (h, bad)
]

pub key_and_path-all :
    (p : ℕ → Bool) (key path : Bytes)
    → ((c : ℕ) → is_plain c ≡ true → p c ≡ true)
    → p b' ' ≡ true
    → plain key ≡ true
    → plain path ≡ true
    → all_of p (key_and_path key path) ≡ true
key_and_path-all p key path w space k h =
    all_of-append p key (b' ' ∷ path) (plain_weaken p key w k) (rw space (plain_weaken p path w h))

words-key_and_path :
    (key path : Bytes)
    → plain key ≡ true
    → plain path ≡ true
    → words (key_and_path key path) ≡ (key, some path)
unfolding words
words-key_and_path key path k h = rw (
  strsep-append is_blank b' ' refl key path (plain_weaken _ key (λ c e. ground arith) k),
  strsep_whole is_blank path (plain_weaken _ path (λ c e. ground arith) h),
)

split_line-words :
    (c : ℕ) (s : Bytes)
    → no_nul (c ∷ s) ≡ true
    → split_line (c ∷ s) ≡ some (words (drop_last (c ∷ s)))
unfolding split_line
split_line-words c s h = rw (c_string_self (c ∷ s) h, split_line)

split_line-append_one :
    (s : Bytes) (d : ℕ) → no_nul (s ++ d ∷ []) ≡ true → split_line (s ++ d ∷ []) ≡ some (words s)
split_line-append_one [] d h = split_line-words d [] h
split_line-append_one (c ∷ s) d h =
    split_line-words c (s ++ d ∷ []) h ∙ ap (λ t. some (words t)) (drop_last-append_one (c ∷ s) d)

-- A line of a key, a blank, a path and a newline is cut into just these.
pub split_line_lem :
    (key path : Bytes)
    → plain key ≡ true
    → plain path ≡ true
    → split_line (key_and_path key path ++ newline ∷ []) ≡ some (key, some path)
split_line_lem key path k h =
    split_line-append_one (key_and_path key path) newline (
      all_of-append _ (key_and_path key path) (newline ∷ [])
        (key_and_path-all _ key path (λ c e. ground arith) refl k h) refl)
    ∙ ap some (words-key_and_path key path k h)
