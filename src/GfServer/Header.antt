-- ===== src/GfServer/Header.antt =====
-- What `gfs_send`, `gfs_sendheader` and `gfs_abort` of gflib/gfserver.c do to a connection, and the
-- header that they send.
use intro_to_os.Base.{
  ℕ, zero, suc, ◌+◌, ◌^◌, ◌%◌, ◌/◌, ◌≡◌, ◌<◌, ◌≤◌, refl, ◌&&◌, [], ◌∷◌, ◌++◌, none, some, ◌==◌, leb,
  if◌then◌else◌, length, take, arith, length-append, length-take-le, take-eq_self, ap, ◌∙◌,
}
use mathlib.Core.Path.{ap₂}
use intro_to_os.Text.{Bytes}
use intro_to_os.Text.Decimal.{decimal, digits, pow10, lt-length-decimal, decimal-div}
use intro_to_os.GfServer.{
  Status, ok, file_not_found, error, invalid, Context, Connection, done, undefined, and_then, ◌>>◌,
  return, when, failed, gfs_abort, gfs_send, gfs_sendheader, Sent, size_mod, status_word, scheme,
  terminator, file_length, response_header, header_room,
}

-- The room that `gfs_sendheader` allocates holds its header and the NUL.
pub length-response_header-le :
    (status : Status) (file_len : ℕ)
    → length (response_header status file_len) + 1 ≤ header_room status
unfolding response_header file_length
length-response_header-le ok n =
    omega (arith, length-append (take 7 (decimal n)) terminator, length-take-le 7 (decimal n))
length-response_header-le file_not_found n =
    omega (arith, length-append (take 7 (decimal n)) terminator, length-take-le 7 (decimal n))
length-response_header-le error n =
    omega (arith, length-append (take 7 (decimal n)) terminator, length-take-le 7 (decimal n))
length-response_header-le invalid n = omega arith

take-append_long : (k : ℕ) (s t : Bytes) → k ≤ length s → take k (s ++ t) ≡ take k s
take-append_long zero s t h = refl
take-append_long (suc k) [] t h = absurd (omega arith)
take-append_long (suc k) (c ∷ s) t h =
    ap (λ (r : Bytes). c ∷ r) (take-append_long k s t (omega arith))

abbrev stated : Status → Bytes → Bytes
stated status digits = scheme ++ (b' ' ∷ (status_word status ++ (b' ' ∷ (digits ++ terminator))))

file_length-div : (n : ℕ) → 10 ^ 7 ≤ n → n < 10 ^ 20 → file_length n ≡ file_length (n / 10)
unfolding file_length
file_length-div n h small =
    ap (take 7) (decimal-div n (omega arith) small)
    ∙ take-append_long 7 (decimal (n / 10)) _
        (lt-length-decimal 6 (n / 10) (omega arith) (unfold pow10 in (omega arith)))

-- For a file length from ten million on, and of 20 digits at most, the header is that of a tenth of the
-- length, rounded down: `snprintf` keeps seven digits.
pub response_header-div :
    (status : Status) (n : ℕ)
    → 10 ^ 7 ≤ n
    → n < 10 ^ 20
    → response_header status n ≡ response_header status (n / 10)
unfolding response_header
response_header-div ok n h small = ap (λ l. stated ok l) (file_length-div n h small)
response_header-div file_not_found n h small =
    ap (λ l. stated file_not_found l) (file_length-div n h small)
response_header-div error n h small = ap (λ l. stated error l) (file_length-div n h small)
response_header-div invalid n h small = refl

pub length-response_header-pos : (status : Status) (n : ℕ) → 0 < length (response_header status n)
unfolding response_header
length-response_header-pos ok n = omega arith
length-response_header-pos file_not_found n = omega arith
length-response_header-pos error n = omega arith
length-response_header-pos invalid n = omega arith

-- A connection whose context is not freed.
abbrev pub live : Context → Bytes → ℕ → Connection
live ctx wire closed = record { context = some ctx; wire = wire; closed = closed }

abbrev pub over : Bytes → ℕ → Connection
over wire closed = record { context = none; wire = wire; closed = closed }

module _ (ctx : Context) (wire : Bytes) (closed : ℕ) where
  gfs_send-some :
      (bytes : Bytes) (n : ℕ)
      → 0 < n
      → gfs_send bytes (some n) (live ctx wire closed)
        ≡ done (some n) (
            live
              (record ctx { bytessent = (ctx.bytessent + n) % size_mod })
              (wire ++ take n bytes)
              closed)
  unfolding gfs_send
  gfs_send-some bytes n pos = ground arith

  -- What `gfs_send` does on each result of `send`: with bytes taken it counts them; with none taken
  -- it ends the connection once the count has reached the file length; and when `send` fails it
  -- goes on to use the context that it has just freed.
  gfs_send_lem :
      (bytes : Bytes) (sent : Sent)
      → gfs_send bytes sent (live ctx wire closed) ≡ elim sent [
        | none ↦ undefined
        | some n ↦
            let count = (ctx.bytessent + n) % size_mod in
            done (some n) (
              if leb ctx.filelen count && n == 0
              then over (wire ++ take n bytes) (closed + 1)
              else live (record ctx { bytessent = count }) (wire ++ take n bytes) closed)
      ]
  unfolding gfs_send
  gfs_send_lem bytes none = refl
  gfs_send_lem bytes (some n) = ground arith

-- `send` takes the whole of the bytes, which are not too many for a `size_t`.
pub gfs_send_whole :
    (ctx : Context) (wire : Bytes) (closed : ℕ) (bytes : Bytes)
    → 0 < length bytes
    → ctx.bytessent + length bytes < size_mod
    → gfs_send bytes (some (length bytes)) (live ctx wire closed)
      ≡ done
          (some (length bytes))
          (live (record ctx { bytessent = ctx.bytessent + length bytes }) (wire ++ bytes) closed)
gfs_send_whole ctx wire closed bytes pos small =
    gfs_send-some ctx wire closed bytes (length bytes) pos
    ∙ ap₂
        (λ (count : ℕ) (s : Bytes).
          done (some (length bytes)) (live (record ctx { bytessent = count }) (wire ++ s) closed))
        (omega arith) (take-eq_self (length bytes) bytes (omega arith))

pub header_room-le : (status : Status) → header_room status ≤ 35
header_room-le invalid = omega arith
header_room-le ok = omega arith
header_room-le file_not_found = omega arith
header_room-le error = omega arith

-- A header that `send` takes whole goes to the client as it is, the counters start at its length,
-- and the connection stays open.
pub gfs_sendheader_lem :
    (ctx : Context) (wire : Bytes) (closed : ℕ) (status : Status) (n : ℕ)
    → gfs_sendheader status n (some (length (response_header status n))) (live ctx wire closed)
      ≡ done (some (length (response_header status n))) (
          live
            (record ctx { filelen = n; bytessent = length (response_header status n) })
            (wire ++ response_header status n)
            closed)
unfolding gfs_sendheader
gfs_sendheader_lem ctx wire closed status n =
    let header : Bytes = response_header status n in
    let count : ℕ = length header in
    ap (λ r. and_then r (λ retval. when (failed retval) gfs_abort >> return retval))
      (gfs_send_whole (record ctx { filelen = n; bytessent = 0 }) wire closed header
        (length-response_header-pos status n)
        (omega (arith, length-response_header-le status n, header_room-le status)))
    ∙ ap
        (λ (k : ℕ).
          done (some count)
            (live (record ctx { filelen = n; bytessent = k }) (wire ++ header) closed))
        (omega arith)
