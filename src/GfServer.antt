-- ===== src/GfServer.antt =====
-- The Getfile server library, gios-spr-2018-pr1-master/gflib/gfserver.c: the connection context,
-- `gfs_abort`, `gfs_send`, `gfs_sendheader`, and the body of the loop of `gfserver_serve`.
pub mod Header
pub mod Request
pub mod Start
pub mod Main
use intro_to_os.Base.{
  ℕ, ◌+◌, ◌-◌, ◌*◌, ◌^◌, ◌%◌, ◌≡◌, Bool, true, false, ◌&&◌, [], ◌∷◌, ◌++◌, List, Option, none, some,
  ◌==◌, ltb, leb, if◌then◌else◌, length, take, drop, get_elem?,
}
use intro_to_os.Text.{Bytes, codes, nul, c_string, no_nul, strtok, is_space, is_line_end}
use intro_to_os.Text.Compare.{bytes_eq}
use intro_to_os.Text.Decimal.{decimal}

-- gfstatus_t
pub data Status : Type 0 where
  ok file_not_found error invalid : Status

-- struct gfcontext_t
pub record Context : Type 0 where
  pub socket_fd : ℕ
  pub filelen : ℕ
  pub bytessent : ℕ

-- One connection: the context until it is freed, the bytes that went to the client, and how often
-- the socket was closed.
pub record Connection : Type 0 where
  pub context : Option Context
  pub wire : Bytes
  pub closed : ℕ

-- A call ends with its result, or in undefined behaviour (a use or a second free of the context).
pub data Run (A : Type 0) : Type 0 where
  done : A → Connection → Run A
  undefined : Run A

abbrev pub Action : Type 0 → Type 0
Action A = Connection → Run A

abbrev pub return : {A : Type 0} → A → Action A
return = done

module _ {A B : Type 0} where
  abbrev pub and_then : Run A → (A → Action B) → Run B
  and_then (done a c) k = k a c
  and_then undefined k = undefined

  infixl 5 ◌>>=◌ ◌>>◌
  abbrev pub ◌>>=◌ : Action A → (A → Action B) → Action B
  m >>= k = λ c. and_then (m c) k

  abbrev pub ◌>>◌ : Action A → Action B → Action B
  m >> n = m >>= λ _. n

-- What the fields of the context hold.
unfoldable pub get : Action Context
get c = elim (c.context) [ none ↦ undefined | some ctx ↦ done ctx c ]

unfoldable pub set : Context → Action (Unit {0})
set ctx c = elim (c.context) [
  | none ↦ undefined
  | some _ ↦ done tt (record c { context = some ctx })
]

-- The result of one call of `send`: the number of bytes that it took, or `none` for -1.
abbrev pub Sent : Type 0
Sent = Option ℕ

-- `close` and `free`.
unfoldable pub gfs_abort : Action (Unit {0})
gfs_abort c = elim (c.context) [
  | none ↦ undefined
  | some _ ↦ done tt (record c { context = none; closed = c.closed + 1 })
]

abbrev pub size_mod : ℕ
size_mod = 2 ^ 64

-- `bytes_sent` as a `size_t`: -1 is its largest value.
abbrev pub sent_size : Sent → ℕ
sent_size none = size_mod - 1
sent_size (some n) = n

-- `bytes_sent <= 0`
abbrev pub not_positive : Sent → Bool
not_positive none = true
not_positive (some n) = n == 0

abbrev pub when : Bool → Action (Unit {0}) → Action (Unit {0})
when true m = m
when false m = return tt

abbrev pub failed : Sent → Bool
failed none = true
failed (some n) = false

-- The bytes that the kernel accepted.
unfoldable pub transmit : Bytes → Sent → Action (Unit {0})
transmit bytes none c = done tt c
transmit bytes (some n) c = done tt (record c { wire = c.wire ++ take n bytes })

unfoldable pub gfs_send : Bytes → Sent → Action Sent
unfolding get set gfs_abort transmit
gfs_send bytes sent = do
  _ ← get
  transmit bytes sent
  when (failed sent) gfs_abort
  ctx ← get
  set (record ctx { bytessent = (ctx.bytessent + sent_size sent) % size_mod })
  after ← get
  when (leb after.filelen after.bytessent && not_positive sent) gfs_abort
  return sent

abbrev pub status_word : Status → Bytes
status_word ok = codes "OK"
status_word file_not_found = codes "FILE_NOT_FOUND"
status_word error = codes "ERROR"
status_word invalid = codes "INVALID"

abbrev pub scheme : Bytes
scheme = codes "GETFILE"

abbrev pub terminator : Bytes
terminator = 13 ∷ 10 ∷ 13 ∷ 10 ∷ []

-- `snprintf(file_length, sizeof(file_len), "%zu", file_len)` writes seven digits at most.
unfoldable pub file_length : ℕ → Bytes
file_length file_len = take 7 (decimal file_len)

abbrev pub header_of_word : Bytes → ℕ → Bytes
header_of_word word file_len =
    scheme ++ (b' ' ∷ (word ++ (b' ' ∷ (file_length file_len ++ terminator))))

-- The string that `gfs_sendheader` builds.
unfoldable pub response_header : Status → ℕ → Bytes
unfolding file_length
response_header invalid file_len = scheme ++ (b' ' ∷ status_word invalid)
response_header ok file_len = header_of_word (status_word ok) file_len
response_header file_not_found file_len = header_of_word (status_word file_not_found) file_len
response_header error file_len = header_of_word (status_word error) file_len

-- The bytes that it allocates for that string: pointers are 8 bytes long.
abbrev pub header_room : Status → ℕ
header_room invalid = 8 + 8 + 8 + 2
header_room _ = 8 + 8 + 8 + 8 + 3

unfoldable pub gfs_sendheader : Status → ℕ → Sent → Action Sent
unfolding get set gfs_send gfs_abort response_header
gfs_sendheader status file_len sent = do
  ctx ← get
  set (record ctx { filelen = file_len; bytessent = 0 })
  retval ← gfs_send (response_header status file_len) sent
  when (failed retval) gfs_abort
  return retval

abbrev pub bufsize : ℕ
bufsize = 16384

-- What the server does with one accepted connection. `call path` hands the context and the path to
-- the handler; `refuse` sends the message for a malformed request and aborts; `stop` is `exit(1)`;
-- `crash` is undefined behaviour (a NULL or unterminated string).
pub data Served : Type 0 where
  call : Bytes → Served
  refuse : Served
  stop : Served
  crash : Served

-- `recv` overwrites the start of the buffer, which keeps the bytes of earlier requests behind that.
unfoldable pub overwrite : Bytes → Bytes → Bytes
overwrite received buffer = received ++ drop (length received) buffer

-- `if(request_path[strlen(request_path)-1]==' ')`: a space at the end is removed.
abbrev pub trim_space : Bytes → Bytes
trim_space [] = []
trim_space (c ∷ []) = if c == b' ' then [] else c ∷ []
trim_space (c ∷ d ∷ s) = c ∷ trim_space (d ∷ s)

abbrev pub begins_with_slash : Bytes → Bool
begins_with_slash [] = false
begins_with_slash (c ∷ s) = c == b'/'

-- The three comparisons, on tokens that are there.
unfoldable pub validate : (scheme method path : Bytes) → Served
validate request_scheme request_method request_path =
    if bytes_eq request_scheme (codes "GETFILE")
    then (if bytes_eq request_method (codes "GET")
        then (if begins_with_slash (trim_space request_path)
            then call (trim_space request_path)
            else refuse)
        else refuse)
    else refuse

-- `strtok` three times, on the copy of the buffer. A NULL path is given to `strlen`; if a later
-- token is there, the earlier ones are.
abbrev pub with_path :
    (request_scheme request_method : Option Bytes) → Option Bytes × Bytes → Served
with_path (some s) (some m) (some p, rest) = validate s m p
with_path _ _ _ = crash

abbrev pub with_method : (request_scheme : Option Bytes) → Option Bytes × Bytes → Served
with_method s (m, rest) = with_path s m (strtok is_line_end rest)

abbrev pub with_scheme : Option Bytes × Bytes → Served
with_scheme (s, rest) = with_method s (strtok is_space rest)

unfoldable pub parse_request : Bytes → Served
unfolding validate
parse_request text = with_scheme (strtok is_space text)

-- `buffer[0] == '\0'` ends the server; `strcpy` needs a NUL within the buffer.
unfoldable pub answer : Bytes → Served
unfolding parse_request
answer [] = crash
answer (c ∷ buffer) =
    if c == nul
    then stop
    else if no_nul (c ∷ buffer)
    then crash
    else parse_request (c_string (c ∷ buffer))

-- One round: the result of `recv` (`none` for -1) and the buffer so far give the new buffer and
-- what is done.
unfoldable pub serve_one : Option Bytes → Bytes → Bytes × Served
unfolding overwrite answer
serve_one none buffer = (buffer, stop)
serve_one (some received) buffer = (overwrite received buffer, answer (overwrite received buffer))

-- The message that `refuse` sends, with its NUL.
abbrev pub refusal : Bytes
refusal = codes "GETFILE INVALID" ++ (terminator ++ nul ∷ [])

-- The branch of a malformed request: the message, whatever `send` returns, and then the abort.
unfoldable pub refuse_request : Sent → Action (Unit {0})
unfolding get transmit gfs_abort
refuse_request sent = do _ ← get; transmit refusal sent; gfs_abort

-- The inner `for (;;)` over the accepted connections, up to an exit or a crash. The buffer is the
-- same for all of them.
unfoldable pub serve_loop : List (Option Bytes) → Bytes → List Served
unfolding serve_one
serve_loop [] buffer = []
serve_loop (r ∷ rs) buffer =
    let (buffer', s) = serve_one r buffer in
    let rest = serve_loop rs buffer' in
    elim s [ stop ↦ stop ∷ [] | crash ↦ crash ∷ [] | other ↦ other ∷ rest ]
