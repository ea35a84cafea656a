-- ===== src/GfClient.antt =====
-- The Getfile client library, gios-spr-2018-pr1-master/gflib/gfclient.c: the request object and its
-- setters and getters, and `gfc_perform`.
pub mod Parse
pub mod Receive
pub mod Perform
pub mod Served
pub mod Contract
use intro_to_os.Base.{
  ℕ, ◌+◌, ◌-◌, ◌*◌, ◌^◌, ◌%◌, ◌≡◌, Bool, true, false, ◌&&◌, [], ◌∷◌, ◌++◌, List, Option, none, some,
  ◌==◌, ltb, leb, if◌then◌else◌, length, take, drop,
}
use intro_to_os.Text.{Bytes, codes, c_string, no_nul, strtok, is_space, is_line_end}
use intro_to_os.Text.Compare.{bytes_eq}
use intro_to_os.Text.Decimal.{strtoul}
use intro_to_os.Sockets.{Tried, at, none_left, stopped, going_on, Dial, dial_loop}
use intro_to_os.GfServer.{Status, ok, file_not_found, error, invalid, terminator}

-- A callback takes its bytes and the state that its `arg` points to, and leaves a new state.
abbrev pub Callback : Type 0
Callback = Bytes → Bytes → Bytes

-- struct gfcrequest_t. A field is `none` until it is assigned: `gfc_create` only calls `malloc`. The
-- objects behind `headerarg` and `writearg` are taken as the bytes that they hold.
pub record Request : Type 0 where
  pub server : Option Bytes
  pub path : Option Bytes
  pub port : Option ℕ
  pub headerfunc : Option Callback
  pub headerarg : Bytes
  pub writefunc : Option Callback
  pub writearg : Bytes
  pub status : Option Status
  pub filelen : Option ℕ
  pub bytesreceived : Option ℕ

unfoldable pub gfc_create : Request
gfc_create = record {
  server = none;
  path = none;
  port = none;
  headerfunc = none;
  headerarg = [];
  writefunc = none;
  writearg = [];
  status = none;
  filelen = none;
  bytesreceived = none;
}

unfoldable pub gfc_set_server : Request → Bytes → Request
gfc_set_server gfr server = record gfr { server = some server }

unfoldable pub gfc_set_path : Request → Bytes → Request
gfc_set_path gfr path = record gfr { path = some path }

-- The argument is an `unsigned short`.
unfoldable pub gfc_set_port : Request → ℕ → Request
gfc_set_port gfr port = record gfr { port = some (port % 2 ^ 16) }

unfoldable pub gfc_set_headerfunc : Request → Callback → Request
gfc_set_headerfunc gfr headerfunc = record gfr { headerfunc = some headerfunc }

unfoldable pub gfc_set_headerarg : Request → Bytes → Request
gfc_set_headerarg gfr headerarg = record gfr { headerarg = headerarg }

unfoldable pub gfc_set_writefunc : Request → Callback → Request
gfc_set_writefunc gfr writefunc = record gfr { writefunc = some writefunc }

unfoldable pub gfc_set_writearg : Request → Bytes → Request
gfc_set_writearg gfr writearg = record gfr { writearg = writearg }

unfoldable pub gfc_get_status : Request → Option Status
gfc_get_status gfr = gfr.status

unfoldable pub gfc_get_filelen : Request → Option ℕ
gfc_get_filelen gfr = gfr.filelen

unfoldable pub gfc_get_bytesreceived : Request → Option ℕ
gfc_get_bytesreceived gfr = gfr.bytesreceived

unfoldable pub gfc_strstatus : Status → Bytes
gfc_strstatus ok = codes "GF_OK"
gfc_strstatus file_not_found = codes "GF_FILE_NOT_FOUND"
gfc_strstatus error = codes "GF_ERROR"
gfc_strstatus invalid = codes "GF_INVALID"

abbrev pub bufsize : ℕ
bufsize = 4096

abbrev pub size_mod : ℕ
size_mod = 2 ^ 64

-- The header that `gfc_perform` sends.
unfoldable pub request_header : Bytes → Bytes
request_header path = codes "GETFILE" ++ (b' ' ∷ (codes "GET" ++ (b' ' ∷ (path ++ terminator))))

-- What the first packet is read as. `header` has the stated length and where the contents begin.
pub data Response : Type 0 where
  malformed not_found failed no_length : Response
  header : (filelen offset : ℕ) → Response
  overrun : Response

abbrev pub header_length : (s m l : Bytes) → ℕ
header_length s m l = length s + length m + length l + 4 + 2

abbrev pub with_length : (s m : Bytes) → Option Bytes × Bytes → Response
with_length s m (none, rest) = no_length
with_length s m (some l, rest) = header (strtoul l) (header_length s m l)

-- The comparisons on `response_status`; the length comes from a third call of `strtok`.
unfoldable pub with_status : (s : Bytes) → Option Bytes × Bytes → Response
with_status s (none, rest) = malformed
with_status s (some m, rest) =
    if bytes_eq m (codes "INVALID" ++ terminator)
    then malformed
    else if bytes_eq m (codes "FILE_NOT_FOUND" ++ terminator)
    then not_found
    else if bytes_eq m (codes "ERROR" ++ terminator)
    then failed
    else with_length s m (strtok is_line_end rest)

abbrev pub with_scheme : Option Bytes × Bytes → Response
with_scheme (none, rest) = malformed
with_scheme (some s, rest) = with_status s (strtok is_space rest)

-- `recvbuf` is zeroed before `recv`, so it ends in a NUL unless the packet fills it; `strcpy` of a
-- full buffer with no NUL runs over its end.
unfoldable pub parse_response : Bytes → Response
unfolding with_status
parse_response packet =
    if ltb (length packet) bufsize
    then with_scheme (strtok is_space (c_string packet))
    else if no_nul packet
    then overrun
    else with_scheme (strtok is_space (c_string packet))

-- How `gfc_perform` ends: it returns 0 or -1 with the request as it then is, or runs into undefined
-- behaviour. `surplus` returns 0 as well, but its call of `writefunc` got the bytes `copied` and then
-- `unset` bytes that were never written: the request is the one before that call, since the model does
-- not say what the callback makes of them.
pub data Performed : Type 0 where
  success : Request → Performed
  surplus : Request → (copied : Bytes) → (unset : ℕ) → Performed
  failure : Request → Performed
  undefined : Performed

abbrev pub finish : Request → (filelen bytesreceived : ℕ) → Performed
finish gfr filelen bytesreceived =
    if filelen == bytesreceived then success gfr else failure (record gfr { status = some ok })

-- The `while (numbytes > 0 && gfr->filelen > gfr->bytesreceived)` loop and what follows it. Each item
-- of the list is what one `recv` gives (`none` for -1); after the last it gives 0 bytes, as at the
-- end of the stream.
unfoldable pub receive_loop :
    Callback → Request → (numbytes filelen bytesreceived : ℕ) → List (Option Bytes) → Performed
receive_loop write gfr numbytes filelen bytesreceived [] =
    if ltb 0 numbytes && ltb bytesreceived filelen
    then finish (record gfr { writearg = write [] gfr.writearg }) filelen bytesreceived
    else finish gfr filelen bytesreceived
receive_loop write gfr numbytes filelen bytesreceived (r ∷ rs) =
    elim (ltb 0 numbytes && ltb bytesreceived filelen) [
      | false ↦ finish gfr filelen bytesreceived
      | true ↦ elim r [
        | none ↦ failure (record gfr { status = some error })
        | some chunk ↦
            receive_loop write
              (record gfr {
                bytesreceived = some ((bytesreceived + length chunk) % size_mod);
                writearg = write chunk gfr.writearg;
              })
              (length chunk) filelen ((bytesreceived + length chunk) % size_mod) rs
      ]
    ]

-- A response of less than `BUFSIZE` bytes is taken from the first packet. `subbuf` has `bytesreceived`
-- bytes, of which `filelen` are copied from the packet; the others are never written. A header that is
-- longer than the packet makes `bytesreceived` wrap, and no array is that long. (An array of no bytes is
-- taken as the compiler gives it.)
abbrev pub short_response : Callback → Request → Bytes → (filelen offset count : ℕ) → Performed
short_response write gfr packet filelen offset count =
    if ltb count filelen
    then failure (record gfr { status = some ok })
    else if ltb filelen count
    then if ltb (length packet) offset
      then undefined
      else surplus gfr (take filelen (drop offset packet)) (count - filelen)
    else success (record gfr { writearg = write (take filelen (drop offset packet)) gfr.writearg })

-- A longer one: the rest of the packet is written, and then the loop runs. A header that is longer
-- than the packet makes `bytesreceived` wrap and the write read past the buffer.
abbrev pub long_response :
    Callback → Request → Bytes → (filelen offset count : ℕ) → List (Option Bytes) → Performed
long_response write gfr packet filelen offset count rs =
    if ltb (length packet) offset
    then undefined
    else receive_loop write (record gfr { writearg = write (drop offset packet) gfr.writearg })
        (length packet) filelen count rs

abbrev pub accept_header :
    Callback → Request → Bytes → (filelen offset : ℕ) → List (Option Bytes) → Performed
accept_header write gfr packet filelen offset rs =
    let count = (length packet + size_mod - offset) % size_mod in
    let gfr' : Request = record gfr {
      status = some ok;
      filelen = some filelen;
      bytesreceived = some count;
    } in
    if ltb filelen bufsize
    then short_response write gfr' packet filelen offset count
    else long_response write gfr' packet filelen offset count rs

-- Only a response with contents calls `writefunc`.
abbrev pub with_writer :
    Option Callback → Request → Bytes → (filelen offset : ℕ) → List (Option Bytes) → Performed
with_writer none gfr packet filelen offset rs = undefined
with_writer (some write) gfr packet filelen offset rs =
    accept_header write gfr packet filelen offset rs

-- From the parsed header to the end.
unfoldable pub take_response : Request → Bytes → List (Option Bytes) → Response → Performed
unfolding receive_loop
take_response gfr packet rs malformed = failure (record gfr { status = some invalid })
take_response gfr packet rs not_found = success (record gfr { status = some file_not_found })
take_response gfr packet rs failed = success (record gfr { status = some error })
take_response gfr packet rs no_length = failure (record gfr { status = some invalid })
take_response gfr packet rs (header filelen offset) =
    with_writer gfr.writefunc gfr packet filelen offset rs
take_response gfr packet rs overrun = undefined

-- The first `recv`, which gives 0 bytes where the list is empty.
unfoldable pub first_packet : Request → List (Option Bytes) → Performed
unfolding parse_response take_response
first_packet gfr [] = take_response gfr [] [] (parse_response [])
first_packet gfr (none ∷ rs) = failure gfr
first_packet gfr (some packet ∷ rs) = take_response gfr packet rs (parse_response packet)

-- The result of `send` is -1, or not the length of the header, or that length.
abbrev pub after_send : Request → Bytes → (sent : Option ℕ) → List (Option Bytes) → Performed
after_send gfr path none rs = failure gfr
after_send gfr path (some n) rs =
    if n == length (request_header path) then first_packet gfr rs else failure gfr

-- The call of `headerfunc` is not guarded.
abbrev pub call_headerfunc :
    Option Bytes → Option Callback → Request → (sent : Option ℕ) → List (Option Bytes) → Performed
call_headerfunc (some path) (some f) gfr sent rs =
    after_send (record gfr { headerarg = f (request_header path) gfr.headerarg }) path sent rs
call_headerfunc _ _ gfr sent rs = undefined

-- `gfc_perform` behind the connection.
unfoldable pub perform_connected : Request → (sent : Option ℕ) → List (Option Bytes) → Performed
unfolding request_header first_packet
perform_connected gfr sent rs = call_headerfunc gfr.path gfr.headerfunc gfr sent rs

-- The connection to the first address that takes it; -1 if there is no address.
unfoldable pub connect_and_perform :
    Request
    → (found : Option (List ℕ)) → List Dial
    → (sent : Option ℕ) → List (Option Bytes)
    → Tried Performed
unfolding perform_connected
connect_and_perform gfr none rounds sent rs = at (failure gfr)
connect_and_perform gfr (some addresses) rounds sent rs = elim (dial_loop addresses rounds) [
  | none_left ↦ at (failure gfr)
  | stopped ↦ stopped
  | going_on ↦ going_on
  | at p ↦ at (perform_connected gfr sent rs)
]

-- The server and the port are read without a test.
abbrev pub with_server :
    Option Bytes
    → Option ℕ
    → Request
    → (found : Option (List ℕ)) → List Dial
    → (sent : Option ℕ) → List (Option Bytes)
    → Tried Performed
with_server (some server) (some port) gfr found rounds sent rs =
    connect_and_perform gfr found rounds sent rs
with_server _ _ gfr found rounds sent rs = at undefined

-- The whole function. `found` is what `getaddrinfo` finds, `none` if it fails.
unfoldable pub gfc_perform :
    Request
    → (found : Option (List ℕ)) → List Dial
    → (sent : Option ℕ) → List (Option Bytes)
    → Tried Performed
unfolding connect_and_perform
gfc_perform gfr found rounds sent rs = with_server gfr.server gfr.port gfr found rounds sent rs
