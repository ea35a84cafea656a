-- ===== src/Web/Curl.antt =====
-- `WriteMemoryCallback` and `handle_with_curl` of server/handle_with_curl.c in
-- gios-spr-2018-pr3-master. libcurl has no source here: a transfer is the chunks that it gives to the
-- callback, with the answer of `realloc` to each, and its results.
use intro_to_os.Base.{
  ℕ, ◌+◌, ◌-◌, ◌*◌, ◌/◌, ◌%◌, ◌^◌, ◌==◌, ◌||◌, ◌&&◌, zero, suc, [], ◌∷◌, ◌++◌, List, Option, none,
  some, length, take, ltb, at_most, if◌then◌else◌, Bool, true, false, map,
}
use intro_to_os.Text.{Bytes}
use intro_to_os.Web.File.{join}

abbrev pub bufsize : ℕ
bufsize = 6200

-- Bytes of which some were never written (`none`).
abbrev pub Memory : Type 0
Memory = List (Option ℕ)

pub record BufferStruct : Type 0 where
  pub buffer : Option Memory
  pub size : ℕ

abbrev pub unset : ℕ → Memory
unset zero = []
unset (suc n) = none ∷ unset n

-- What `realloc` keeps of the buffer: nothing of a NULL pointer.
abbrev pub kept : Option Memory → (size : ℕ) → Memory
kept none size = unset size
kept (some memory) size = memory

-- If `realloc` fails the buffer is NULL, and the callback still says that it took the chunk.
unfoldable pub write_memory_callback :
    (grows : Bool) → (chunk : Bytes) → BufferStruct → BufferStruct
write_memory_callback true chunk mem = record {
  buffer = some (kept mem.buffer mem.size ++ map some chunk);
  size = mem.size + length chunk;
}
write_memory_callback false chunk mem = record mem { buffer = none }

-- `curl_easy_perform`: the callback on each chunk.
unfoldable pub perform : List (Bool × Bytes) → BufferStruct → BufferStruct
unfolding write_memory_callback
perform [] mem = mem
perform ((grows, chunk) ∷ chunks) mem = perform chunks (write_memory_callback grows chunk mem)

abbrev pub empty : BufferStruct
empty = record { buffer = none; size = 0 }

-- A natural number as a `double`: rounded to 53 binary digits, to the even one of two neighbours that are
-- equally near. `unit` is the distance of the neighbours.
abbrev pub round_to : (unit n : ℕ) → ℕ
round_to unit n =
    if ltb unit (n % unit * 2) || n % unit * 2 == unit && n / unit % 2 == 1
    then (n / unit + 1) * unit
    else n / unit * unit

unfoldable pub round_loop : ℕ → (unit n : ℕ) → ℕ
round_loop zero unit n = round_to unit n
round_loop (suc fuel) unit n =
    let rest = round_loop fuel (unit * 2) n in
    if ltb (n / unit) (2 ^ 53) then round_to unit n else rest

-- A `size_t` has at most 11 digits more than 53.
unfoldable pub to_double : ℕ → ℕ
unfolding round_loop
to_double n = round_loop 11 1 n

-- How the loop ends: with what the client got and the value of `bytes_transferred`; or still sending.
pub data Looped : Type 0 where
  finished : (wire : Memory) → (bytes_transferred : ℕ) → Looped
  sending : (wire : Memory) → Looped

-- `cl` is the content length, a `double`, with which `bytes_transferred` is compared as a `double`. Each round sends the whole buffer from its start; an answer is that of
-- `gfs_send`, of which -1 (`none`) is added as a `size_t`.
unfoldable pub send_loop :
    (memory : Memory) (cl : ℕ)
    → List (Option ℕ)
    → (bytes_transferred : ℕ) → (wire : Memory) → Looped
unfolding to_double
send_loop memory cl [] done wire =
    if ltb (to_double done) cl then sending wire else finished wire done
send_loop memory cl (none ∷ answers) done wire =
    let more = send_loop memory cl answers ((done + (2 ^ 64 - 1)) % 2 ^ 64) wire in
    if ltb (to_double done) cl then more else finished wire done
send_loop memory cl (some m ∷ answers) done wire =
    let n = at_most m (length memory) in
    let more = send_loop memory cl answers ((done + n) % 2 ^ 64) (wire ++ take n memory) in
    if ltb (to_double done) cl then more else finished wire done

-- The handler writes past its buffer; reads a number or sends a buffer that is not there; returns
-- SERVER_FAILURE; asks for the header FILE_NOT_FOUND; or asks for the header OK with this length, and
-- sends.
pub data Fetched : Type 0 where
  overflow undefined server_failure not_found : Fetched
  served : (cl : ℕ) → Looped → Fetched

-- A NULL buffer with a size that is not 0 is used if there is something to send.
abbrev pub with_buffer : Option Memory → (size cl : ℕ) → List (Option ℕ) → Fetched
with_buffer none zero cl answers = served cl (send_loop [] cl answers 0 [])
with_buffer none (suc size) zero answers = served 0 (finished [] 0)
with_buffer none (suc size) (suc cl) answers = undefined
with_buffer (some memory) size cl answers = served cl (send_loop memory cl answers 0 [])

-- What `curl_easy_getinfo` gives: `none` for an error, `some none` for a negative length. A length is a
-- `double`, so it is exact only up to 2^53.
abbrev pub with_length : Option (Option ℕ) → BufferStruct → List (Option ℕ) → Fetched
with_length none mem answers = server_failure
with_length (some none) mem answers = not_found
with_length (some (some cl)) mem answers = with_buffer mem.buffer mem.size cl answers

-- If the transfer fails, the loop compares with `cl`, which was never assigned.
abbrev pub with_result :
    (performed : Bool) → Option (Option ℕ) → BufferStruct → List (Option ℕ) → Fetched
with_result true info mem answers = with_length info mem answers
with_result false info mem answers = undefined

-- Without a handle `bytes_transferred` is returned, which was never assigned.
abbrev pub with_handle :
    (handle performed : Bool) → Option (Option ℕ) → BufferStruct → List (Option ℕ) → Fetched
with_handle true performed info mem answers = with_result performed info mem answers
with_handle false performed info mem answers = undefined

-- What libcurl gives for a URL.
pub record Transfer : Type 0 where
  pub handle : Bool
  pub performed : Bool
  pub chunks : List (Bool × Bytes)
  pub info : Option (Option ℕ)

abbrev pub with_url : Option Bytes → (curl : Bytes → Transfer) → List (Option ℕ) → Fetched
with_url none curl answers = overflow
with_url (some url) curl answers =
    let t = curl url in with_handle t.handle t.performed t.info (perform t.chunks empty) answers

unfoldable pub handle_with_curl :
    (data_dir path : Bytes) → (curl : Bytes → Transfer) → List (Option ℕ) → Fetched
unfolding join perform send_loop
handle_with_curl data_dir path curl answers = with_url (join bufsize data_dir path) curl answers

-- The wrapper that takes the place of server/handle_with_file.c.
abbrev pub handle_with_file :
    (data_dir path : Bytes) → (curl : Bytes → Transfer) → List (Option ℕ) → Fetched
handle_with_file data_dir path curl answers = handle_with_curl data_dir path curl answers
