-- ===== src/GfClient/Perform.antt =====
-- `gfc_perform` of gflib/gfclient.c against gflib/gfserver.c: what the client gets of a file.
use intro_to_os.Base.{
  ℕ, ◌+◌, ◌-◌, ◌^◌, ◌%◌, ◌≡◌, ◌≢◌, ◌<◌, ◌≤◌, refl, Bool, [], ◌∷◌, ◌++◌, List, Option, none, some,
  lt→ltb, le→ltb, if◌then◌else◌, length, length-append, take-eq_self, drop-append_self, arith, ap,
  ◌∙◌, inl, inr, All, ==_refl, trichotomy,
}
use mathlib.Core.Path.{ap₂}
use intro_to_os.Text.{Bytes}
use intro_to_os.GfServer.{Status, ok, invalid, response_header}
use intro_to_os.GfServer.Header.{length-response_header-pos}
use intro_to_os.Sockets.{at, Dial, dial_loop}
use intro_to_os.GfClient.{
  gfc_perform, with_server, connect_and_perform, Request, Callback, success, failure, undefined,
  header, size_mod, bufsize, parse_response, accept_header, with_writer, call_headerfunc,
  take_response, first_packet, perform_connected, request_header,
}
use intro_to_os.GfClient.Parse.{IsReadable, parse_response-header, strtoul-file_length}
use intro_to_os.GfClient.Receive.{write_all, total, arrive, receive_loop_lem}

-- What the request holds after a transfer of these contents.
abbrev pub received : Callback → Request → (filelen : ℕ) → List Bytes → Request
received write gfr filelen chunks = record gfr {
  status = some ok;
  filelen = some filelen;
  bytesreceived = some filelen;
  writearg = write_all write gfr.writearg chunks;
}

-- How a file may arrive: a first packet with the header and the contents so far, then chunks that
-- are not empty. A file that is shorter than the buffer has to come in the first packet.
pub record Arrives (status : Status) (n : ℕ) (start : Bytes) (chunks : List Bytes) : Type 0 where
  pub stated : status ≢ invalid
  pub few_digits : n < 10 ^ 7
  pub whole : length start + total chunks ≡ n
  pub filled : All (λ chunk. 0 < length chunk) chunks
  pub short_whole : n < bufsize → chunks ≡ []
  pub readable : IsReadable (response_header status n ++ start)
  pub fits : length (response_header status n ++ start) ≤ bufsize

module _ (write : Callback) (gfr : Request) (status : Status) (n : ℕ) (start : Bytes)
    (chunks : List Bytes) (a : Arrives status n start chunks) where
  abbrev head : Bytes
  head = response_header status n

  abbrev packet : Bytes
  packet = head ++ start

  count_lem : (length packet + size_mod - length head) % size_mod ≡ length start
  count_lem = omega (arith, length-append head start, a.fits)

  -- The request once the header has been read.
  abbrev begun : Request
  begun = record gfr { status = some ok; filelen = some n; bytesreceived = some (length start) }

  short_lem :
      n < bufsize
      → accept_header write gfr packet n (length head) (arrive chunks)
        ≡ success (received write gfr n (start ∷ chunks))
  short_lem small =
      let same : length start ≡ n = omega (arith, a.whole, ap total (a.short_whole small)) in
      rw
        (
          count_lem,
          lt→ltb n bufsize small,
          le→ltb (length start) n (omega arith),
          le→ltb n (length start) (omega arith),
          drop-append_self head start,
          a.short_whole small,
        )
        (ap₂
          (λ (k : ℕ) (s : Bytes). success (record gfr {
            status = some ok;
            filelen = some n;
            bytesreceived = some k;
            writearg = write s gfr.writearg;
          }))
          same (take-eq_self n start (omega arith)))

  long_lem :
      bufsize ≤ n
      → accept_header write gfr packet n (length head) (arrive chunks)
        ≡ success (received write gfr n (start ∷ chunks))
  long_lem big =
      rw
        (
          count_lem,
          le→ltb n bufsize big,
          le→ltb (length packet) (length head) (omega (arith, length-append head start)),
          drop-append_self head start,
        )
        (receive_loop_lem write (record begun { writearg = write start gfr.writearg })
          (length packet) n (length start) chunks
          (omega (arith, length-append head start, length-response_header-pos status n))
          (omega (arith, a.few_digits)) a.whole a.filled refl)

  accept_header_lem :
      accept_header write gfr packet n (length head) (arrive chunks)
      ≡ success (received write gfr n (start ∷ chunks))
  accept_header_lem = elim (trichotomy n bufsize) [
    | inl small ↦ short_lem small
    | inr (inl same) ↦ long_lem (omega arith)
    | inr (inr big) ↦ long_lem (omega arith)
  ]

  parsed : parse_response packet ≡ header n (length head)
  parsed =
      parse_response-header status n start a.stated a.readable
      ∙ ap (λ k. header k (length head)) (strtoul-file_length n a.few_digits)

  -- A response that arrives so is taken whole: the writer gets the contents in their order, the
  -- request counts them, and `gfc_perform` returns 0 with status OK. That holds of every status
  -- with which the server states a length.
  first_packet_lem :
      gfr.writefunc ≡ some write
      → first_packet gfr (arrive (packet ∷ chunks))
        ≡ success (received write gfr n (start ∷ chunks))
  unfolding first_packet take_response
  first_packet_lem writes =
      ap (take_response gfr packet (arrive chunks)) parsed
      ∙ ap (λ w. with_writer w gfr packet n (length head) (arrive chunks)) writes
      ∙ accept_header_lem

-- `gfc_perform` with a path and both callbacks set, when `send` takes the header and a response
-- arrives so: it returns 0, the header went to `headerfunc`, the contents went to `writefunc` in
-- their order, and the request has status OK and counts the bytes.
perform_connected_lem :
    (write header_write : Callback) (gfr : Request) (path : Bytes) (status : Status) (n : ℕ)
    (start : Bytes) (chunks : List Bytes)
    → Arrives status n start chunks
    → gfr.path ≡ some path
    → gfr.headerfunc ≡ some header_write
    → gfr.writefunc ≡ some write
    → perform_connected gfr
        (some (length (request_header path)))
        (arrive ((response_header status n ++ start) ∷ chunks))
      ≡ success (record (received write gfr n (start ∷ chunks)) {
        headerarg = header_write (request_header path) gfr.headerarg;
      })
unfolding perform_connected
perform_connected_lem write header_write gfr path status n start chunks a p h w =
    let rs : List (Option Bytes) = arrive ((response_header status n ++ start) ∷ chunks) in
    let sent : Option ℕ = some (length (request_header path)) in
    let gfr' : Request = record gfr {
      headerarg = header_write (request_header path) gfr.headerarg;
    } in
    ap (λ q. call_headerfunc q gfr.headerfunc gfr sent rs) p
    ∙ ap (λ f. call_headerfunc (some path) f gfr sent rs) h
    ∙ ap (λ (b : Bool). if b then first_packet gfr' rs else failure gfr')
        (==_refl (length (request_header path)))
    ∙ first_packet_lem write gfr' status n start chunks a w

-- A request whose `headerfunc` was never set makes `gfc_perform` call a pointer that was never
-- assigned, whatever the network does.
pub perform_connected_unset :
    (gfr : Request) (sent : Option ℕ) (rs : List (Option Bytes))
    → gfr.headerfunc ≡ none
    → perform_connected gfr sent rs ≡ undefined
unfolding perform_connected
perform_connected_unset gfr sent rs h =
    ap (λ f. call_headerfunc gfr.path f gfr sent rs) h ∙ unset gfr.path
  where
    unset : (q : Option Bytes) → call_headerfunc q none gfr sent rs ≡ undefined
    unset none = refl
    unset (some path) = refl

pub dialled :
    (gfr : Request) (p : ℕ) (addresses : List ℕ) (rounds : List Dial) (sent : Option ℕ)
    (rs : List (Option Bytes))
    → dial_loop addresses rounds ≡ at p
    → connect_and_perform gfr (some addresses) rounds sent rs ≡ at (perform_connected gfr sent rs)
unfolding connect_and_perform
dialled gfr p addresses rounds sent rs dials = rw (dials, connect_and_perform) refl

connected :
    (gfr : Request) (server : Bytes) (port p : ℕ) (addresses : List ℕ) (rounds : List Dial)
    (sent : Option ℕ) (rs : List (Option Bytes))
    → gfr.server ≡ some server
    → gfr.port ≡ some port
    → dial_loop addresses rounds ≡ at p
    → gfc_perform gfr (some addresses) rounds sent rs ≡ at (perform_connected gfr sent rs)
unfolding gfc_perform
connected gfr server port p addresses rounds sent rs e1 e2 dials =
    ap (λ h. with_server h gfr.port gfr (some addresses) rounds sent rs) e1
    ∙ ap (λ h. with_server (some server) h gfr (some addresses) rounds sent rs) e2
    ∙ dialled gfr p addresses rounds sent rs dials

-- `gfc_perform` with a server, a port, a path and both callbacks set, when the loop over addresses
-- connects, `send` takes the header, and a response with a stated length arrives as `Arrives` says: it
-- returns 0, the header went to `headerfunc`, the contents went to `writefunc` in their order, and the
-- request has status OK and counts the bytes.
pub gfc_perform_lem :
    (write header_write : Callback) (gfr : Request) (server path : Bytes) (port p : ℕ)
    (addresses : List ℕ) (rounds : List Dial) (status : Status) (n : ℕ) (start : Bytes)
    (chunks : List Bytes)
    → Arrives status n start chunks
    → gfr.server ≡ some server
    → gfr.port ≡ some port
    → gfr.path ≡ some path
    → gfr.headerfunc ≡ some header_write
    → gfr.writefunc ≡ some write
    → dial_loop addresses rounds ≡ at p
    → gfc_perform gfr
        (some addresses)
        rounds
        (some (length (request_header path)))
        (arrive ((response_header status n ++ start) ∷ chunks))
      ≡ at (
          success (record (received write gfr n (start ∷ chunks)) {
            headerarg = header_write (request_header path) gfr.headerarg;
          }))
gfc_perform_lem write header_write gfr server path port p addresses rounds status n start chunks a
      e1 e2 e3 e4 e5 dials =
    connected gfr server port p addresses rounds _ _ e1 e2 dials
    ∙ ap at (perform_connected_lem write header_write gfr path status n start chunks a e3 e4 e5)
