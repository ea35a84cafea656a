-- ===== src/GfClient/Contract.antt =====
-- What gflib/gfclient.h promises of a `gfc_perform` that returns 0, for the one of gflib/gfclient.c.
use intro_to_os.Base.{
  ℕ, ◌≡◌, ◌<◌, ◌+◌, ◌-◌, ltb→lt, ◌⊎◌, inl, inr, refl, ap, drop, ◌∙◌, false, Bool-cases, ltb, ◌==◌,
  List, [], ◌∷◌, Option, none, some, length, arith,
}
use intro_to_os.Text.{Bytes}
use intro_to_os.GfServer.{ok, file_not_found, error}
use intro_to_os.Sockets.{Tried, at, none_left, stopped, going_on, Dial, dial_loop}
use intro_to_os.GfClient.{
  Request, Callback, Performed, success, surplus, failure, undefined, Response, malformed,
  not_found, failed, no_length, header, overrun, bufsize, request_header, receive_loop,
  short_response, long_response, accept_header, with_writer, take_response, parse_response,
  first_packet, after_send, call_headerfunc, perform_connected, connect_and_perform, with_server,
  gfc_perform,
}
use intro_to_os.GfClient.Receive.{OnSuccess, Counted, receive_loop-OnSuccess}

-- The whole file was counted, with status OK; or the server has no such file, or an error.
abbrev pub IsComplete : Request → Type 0
IsComplete gfr =
    ((n : ℕ) × (gfr.status ≡ some ok) × (gfr.filelen ≡ some n) × (gfr.bytesreceived ≡ some n))
    ⊎ ((gfr.status ≡ some file_not_found) ⊎ (gfr.status ≡ some error))

eq_of_ltb : (a b : ℕ) → ltb a b ≡ false → ltb b a ≡ false → a ≡ b
eq_of_ltb a b h k = ground arith

-- What the request says where the call returns 0. Where `writefunc` got bytes that were never set, the
-- status is OK, the stated length is below that of the buffer, and these bytes are counted with it.
abbrev pub Reports : Performed → Type 0
Reports (success gfr) = IsComplete gfr
Reports (surplus gfr copied unset) =
    (n : ℕ) × (gfr.status ≡ some ok)
    × (gfr.filelen ≡ some n)
    × (n < bufsize)
    × (0 < unset)
    × (gfr.bytesreceived ≡ some (n + unset))
Reports (failure gfr) = Unit
Reports undefined = Unit

OnSuccess-Reports :
    {P : Request → Type 0} (p : Performed)
    → OnSuccess P p
    → ((gfr : Request) → P gfr → IsComplete gfr)
    → Reports p
OnSuccess-Reports (success gfr) h k = k gfr h
OnSuccess-Reports (surplus gfr copied unset) h k = absurd h
OnSuccess-Reports (failure gfr) h k = tt
OnSuccess-Reports undefined h k = tt

more_counted : (n count : ℕ) → n < count → count ≡ n + (count - n)
more_counted n count h = omega arith

module _ (write : Callback) (gfr : Request) (packet : Bytes) (n offset count : ℕ)
    (is_ok : gfr.status ≡ some ok) (stated : gfr.filelen ≡ some n)
    (counted : gfr.bytesreceived ≡ some count) where
  short_response-Reports : n < bufsize → Reports (short_response write gfr packet n offset count)
  short_response-Reports below = elim (Bool-cases (ltb count n)) [
    | inl fewer ↦ rw fewer tt
    | inr enough ↦ elim (Bool-cases (ltb n count)) [
      | inl more ↦ elim (Bool-cases (ltb (length packet) offset)) [
        | inl over ↦ rw (enough, more, over) tt
        | inr fits ↦
            let lt : n < count = ltb→lt _ _ more in
            rw (enough, more, fits)
              (n, is_ok, stated, below, omega arith, counted ∙ ap some (more_counted n count lt))
      ]
      | inr same ↦
          rw (enough, same)
            (inl (n, is_ok, stated, counted ∙ ap some (eq_of_ltb count n enough same)))
    ]
  ]

  long_response-Reports :
      (rs : List (Option Bytes)) → Reports (long_response write gfr packet n offset count rs)
  long_response-Reports rs =
      let begun : Request = record gfr { writearg = write (drop offset packet) gfr.writearg } in
      elim (Bool-cases (ltb (length packet) offset)) [
        | inl over ↦ rw over tt
        | inr fits ↦ rw fits (
            OnSuccess-Reports {P = Counted begun n}
              (receive_loop write begun (length packet) n count rs)
              (receive_loop-OnSuccess write begun (length packet) n count rs counted)
              λ gfr' (got, same_status, same_filelen).
                inl (n, same_status ∙ is_ok, same_filelen ∙ stated, got))
      ]

accept_header-Reports :
    (write : Callback) (gfr : Request) (packet : Bytes) (n offset : ℕ) (rs : List (Option Bytes))
    → Reports (accept_header write gfr packet n offset rs)
accept_header-Reports write gfr packet n offset rs = elim (Bool-cases (ltb n bufsize)) [
  | inl short ↦
      rw short (short_response-Reports write _ packet n offset _ refl refl refl (ltb→lt _ _ short))
  | inr long ↦ rw long (long_response-Reports write _ packet n offset _ refl refl refl rs)
]

take_response-Reports :
    (gfr : Request) (packet : Bytes) (rs : List (Option Bytes)) (r : Response)
    → Reports (take_response gfr packet rs r)
unfolding take_response
take_response-Reports gfr packet rs malformed = tt
take_response-Reports gfr packet rs not_found = inr (inl refl)
take_response-Reports gfr packet rs failed = inr (inr refl)
take_response-Reports gfr packet rs no_length = tt
take_response-Reports gfr packet rs (header n offset) = writer gfr.writefunc
  where
    writer : (f : Option Callback) → Reports (with_writer f gfr packet n offset rs)
    writer none = tt
    writer (some write) = accept_header-Reports write gfr packet n offset rs
take_response-Reports gfr packet rs overrun = tt

first_packet-Reports : (gfr : Request) (rs : List (Option Bytes)) → Reports (first_packet gfr rs)
unfolding first_packet
first_packet-Reports gfr [] = take_response-Reports gfr [] [] (parse_response [])
first_packet-Reports gfr (none ∷ rs) = tt
first_packet-Reports gfr (some packet ∷ rs) =
    take_response-Reports gfr packet rs (parse_response packet)

after_send-Reports :
    (gfr : Request) (path : Bytes) (sent : Option ℕ) (rs : List (Option Bytes))
    → Reports (after_send gfr path sent rs)
after_send-Reports gfr path none rs = tt
after_send-Reports gfr path (some n) rs = elim (Bool-cases (n == length (request_header path))) [
  | inl whole ↦ rw whole (first_packet-Reports gfr rs)
  | inr part ↦ rw part tt
]

perform_connected-Reports :
    (gfr : Request) (sent : Option ℕ) (rs : List (Option Bytes))
    → Reports (perform_connected gfr sent rs)
unfolding perform_connected
perform_connected-Reports gfr sent rs = calls gfr.path gfr.headerfunc
  where
    calls :
        (path : Option Bytes) (f : Option Callback) → Reports (call_headerfunc path f gfr sent rs)
    calls none f = tt
    calls (some path) none = tt
    calls (some path) (some f) =
        after_send-Reports (record gfr { headerarg = f (request_header path) gfr.headerarg }) path
          sent rs

-- How the call ends satisfies `P`, if it ends.
abbrev pub OnReturned : (Performed → Type 0) → Tried Performed → Type 0
OnReturned P (at p) = P p
OnReturned P none_left = Unit
OnReturned P stopped = Unit
OnReturned P going_on = Unit

connect_and_perform-Reports :
    (gfr : Request) (found : Option (List ℕ)) (rounds : List Dial) (sent : Option ℕ)
    (rs : List (Option Bytes))
    → OnReturned Reports (connect_and_perform gfr found rounds sent rs)
unfolding connect_and_perform
connect_and_perform-Reports gfr none rounds sent rs = tt
connect_and_perform-Reports gfr (some addresses) rounds sent rs =
    dialled (dial_loop addresses rounds) refl
  where
    dialled :
        (t : Tried ℕ)
        → dial_loop addresses rounds ≡ t
        → OnReturned Reports (connect_and_perform gfr (some addresses) rounds sent rs)
    dialled (at p) e = rw (e, connect_and_perform) (perform_connected-Reports gfr sent rs)
    dialled none_left e = rw (e, connect_and_perform) tt
    dialled stopped e = rw (e, connect_and_perform) tt
    dialled going_on e = rw (e, connect_and_perform) tt

-- Whatever the request holds and the network does: where `gfc_perform` returns 0, the request has status
-- FILE_NOT_FOUND or ERROR; or it has status OK and as many bytes counted as the header of the response
-- stated; or the header stated less than 4096 bytes, the status is OK, more bytes are counted than
-- stated, and `writefunc` got exactly the difference in bytes that were never written.
pub gfc_perform-Reports :
    (gfr : Request) (found : Option (List ℕ)) (rounds : List Dial) (sent : Option ℕ)
    (rs : List (Option Bytes))
    → OnReturned Reports (gfc_perform gfr found rounds sent rs)
unfolding gfc_perform
gfc_perform-Reports gfr found rounds sent rs = server gfr.server gfr.port
  where
    server :
        (host : Option Bytes) (port : Option ℕ)
        → OnReturned Reports (with_server host port gfr found rounds sent rs)
    server none port = tt
    server (some host) none = tt
    server (some host) (some port) = connect_and_perform-Reports gfr found rounds sent rs
