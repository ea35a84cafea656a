-- ===== src/Cache/Message.antt =====
-- The messages between the proxy (cache/handle_with_cache.c) and the cache daemon
-- (cache/simplecached.c).
use intro_to_os.Base.{
  ℕ, ◌+◌, ◌-◌, ◌%◌, ◌^◌, ◌≡◌, ◌<◌, refl, Bool, true, false, [], ◌∷◌, ◌++◌, Option, none, some,
  length, ltb, lt→ltb, if◌then◌else◌, all_of, ap, ◌∙◌, not, arith,
}
use intro_to_os.Text.{Bytes, codes, newline, strtok, is_space}
use intro_to_os.Text.Token.{IsToken, strtok-IsToken, strtok-IsToken_whole}
use intro_to_os.Text.Atoi.{show_int, atoi-show_int}
use intro_to_os.Text.Decimal.{atoi}

abbrev pub bufsize : ℕ
bufsize = 6200

-- The path, a space and the name of the segment. `strncpy` and `strncat` get the size of the whole
-- buffer as their limit: a text that does not fit with its NUL is written past the end.
unfoldable pub command : (path name : Bytes) → Option Bytes
command path name =
    if ltb (length (path ++ b' ' ∷ name)) bufsize then some (path ++ b' ' ∷ name) else none

-- `strtok_r` with `""` takes all that is left.
abbrev pub no_delimiter : ℕ → Bool
no_delimiter c = false

abbrev pub with_name : Option Bytes × Bytes → Option Bytes × Option Bytes
with_name (path_name, rest) = (path_name, (strtok no_delimiter rest).0)

-- The path and the name as the daemon reads them; `none` is NULL.
unfoldable pub parse_command : Bytes → Option Bytes × Option Bytes
parse_command text = with_name (strtok is_space text)

abbrev pub not_found : Bytes
not_found = codes "NOT_FOUND"

-- `snprintf(str, 49, "%d\n", (int) file_len)`
unfoldable pub reply : (file_len : ℕ) → Bytes
reply file_len = show_int (file_len % 2 ^ 32) ++ newline ∷ []

-- An `int` as a `size_t`.
abbrev pub extend : (w : ℕ) → ℕ
extend w = if ltb w (2 ^ 31) then w else w + (2 ^ 64 - 2 ^ 32)

free_of_nothing : (s : Bytes) → all_of (λ c. not (no_delimiter c)) s ≡ true
free_of_nothing [] = refl
free_of_nothing (c ∷ s) = free_of_nothing s

-- The daemon reads the path and the name of the segment that the proxy wrote, if the path has no
-- space, neither is empty, and the text fits.
pub parse_command-command :
    (path name : Bytes)
    → IsToken is_space path
    → 0 < length name
    → length (path ++ b' ' ∷ name) < bufsize
    → (command path name ≡ some (path ++ b' ' ∷ name))
      × (parse_command (path ++ b' ' ∷ name) ≡ (some path, some name))
unfolding command parse_command
parse_command-command path name token filled fits =
    let whole =
      strtok-IsToken_whole no_delimiter name
        (record { filled = filled; free = free_of_nothing name }) in
    (
      rw (lt→ltb _ _ fits) refl,
      ap with_name (strtok-IsToken is_space b' ' path name refl token)
          ∙ ap (λ r. (some path, r.0)) whole,
    )

-- The proxy reads the file length that the daemon wrote, if it is below 2^31.
pub atoi-reply : (n : ℕ) → n < 2 ^ 31 → atoi (reply n) ≡ n
unfolding reply
atoi-reply n small =
    let same : n % 2 ^ 32 ≡ n = omega arith in
    ap (λ w. atoi (show_int w ++ newline ∷ [])) same ∙ atoi-show_int n small
