-- ===== src/GfClient/Served.antt =====
-- A handler that sends a file through gflib/gfserver.c, and `gfc_perform` of gflib/gfclient.c at the
-- other end of the connection.
use intro_to_os.Base.{
  ℕ, ◌+◌, ◌^◌, ◌≡◌, ◌≢◌, ◌<◌, ◌≤◌, refl, [], ◌∷◌, ◌++◌, List, some, length, length-append, All,
  arith, ap, sym, ◌∙◌,
}
use mathlib.Core.List.{append_assoc, append-nil}
use mathlib.Core.Path.{ap₂}
use intro_to_os.Text.{Bytes, concat}
use intro_to_os.GfServer.{
  ok, invalid, Context, Run, done, Action, and_then, return, ◌>>◌, gfs_send, gfs_sendheader,
  response_header, size_mod,
}
use intro_to_os.GfServer.Header.{
  live, gfs_send_whole, gfs_sendheader_lem, length-response_header-le, header_room-le,
}
use intro_to_os.Sockets.{at, Dial, dial_loop}
use intro_to_os.GfClient.{gfc_perform, Request, Callback, success, request_header, bufsize}
use intro_to_os.GfClient.Parse.{IsReadable}
use intro_to_os.GfClient.Receive.{write_all, total, arrive}
use intro_to_os.GfClient.Perform.{Arrives, received, gfc_perform_lem}

abbrev Filled : List Bytes → Type 0
Filled = All (λ piece. 0 < length piece)

-- A handler that sends its pieces, each of which `send` takes whole.
abbrev pub send_pieces : List Bytes → Action (Unit {0})
send_pieces [] = return tt
send_pieces (piece ∷ pieces) = gfs_send piece (some (length piece)) >> send_pieces pieces

-- The header OK with the length of the pieces, and the pieces.
abbrev pub send_file : List Bytes → Action (Unit {0})
send_file pieces =
    gfs_sendheader ok (total pieces) (some (length (response_header ok (total pieces))))
    >> send_pieces pieces

total-concat : (pieces : List Bytes) → total pieces ≡ length (concat pieces)
total-concat [] = refl
total-concat (piece ∷ pieces) =
    omega (arith, total-concat pieces, length-append piece (concat pieces))

abbrev at_count : Context → (closed count : ℕ) → Bytes → Run (Unit {0})
at_count ctx closed count wire = done tt (live (record ctx { bytessent = count }) wire closed)

send_pieces_lem :
    (pieces : List Bytes) (ctx : Context) (wire : Bytes) (closed : ℕ)
    → Filled pieces
    → ctx.bytessent + total pieces < size_mod
    → send_pieces pieces (live ctx wire closed)
      ≡ done tt (
          live
            (record ctx { bytessent = ctx.bytessent + total pieces })
            (wire ++ concat pieces)
            closed)
send_pieces_lem [] ctx wire closed filled small =
    ap₂ (at_count ctx closed) (omega arith) (sym (append-nil wire))
send_pieces_lem (piece ∷ pieces) ctx wire closed filled small =
    ap (λ r. and_then r λ _. send_pieces pieces)
      (gfs_send_whole ctx wire closed piece filled.0 (omega (arith, small)))
    ∙ send_pieces_lem pieces (record ctx { bytessent = ctx.bytessent + length piece })
        (wire ++ piece) closed filled.1 (omega (arith, small))
    ∙ ap₂ (at_count ctx closed) (omega arith) (append_assoc wire piece (concat pieces))

-- What the connection holds when the handler has sent a file.
send_file_lem :
    (pieces : List Bytes) (ctx : Context) (wire : Bytes) (closed : ℕ)
    → Filled pieces
    → total pieces < 10 ^ 7
    → send_file pieces (live ctx wire closed)
      ≡ done tt (
          live
            (record ctx {
              filelen = total pieces;
              bytessent = length (response_header ok (total pieces)) + total pieces;
            })
            (wire ++ (response_header ok (total pieces) ++ concat pieces))
            closed)
send_file_lem pieces ctx wire closed filled small =
    let n : ℕ = total pieces in
    let header : Bytes = response_header ok n in
    ap (λ r. and_then r λ _. send_pieces pieces) (gfs_sendheader_lem ctx wire closed ok n)
    ∙ send_pieces_lem pieces (record ctx { filelen = n; bytessent = length header })
        (wire ++ header) closed filled
        (omega (arith, small, length-response_header-le ok n, header_room-le ok))
    ∙ ap (λ s. done tt (live (record ctx { filelen = n; bytessent = length header + n }) s closed))
        (append_assoc wire header (concat pieces))

-- How the network hands the client a file: a first packet with the whole header, and chunks that are
-- not empty. A file that is shorter than the buffer has to come in the first packet.
pub record Network (contents : Bytes) (start : Bytes) (chunks : List Bytes) : Type 0 where
  pub in_order : start ++ concat chunks ≡ contents
  pub filled : Filled chunks
  pub short_whole : length contents < bufsize → chunks ≡ []
  pub readable : IsReadable (response_header ok (length contents) ++ start)
  pub fits : length (response_header ok (length contents) ++ start) ≤ bufsize

abbrev pub append : Callback
append bytes file = file ++ bytes

write_all-append :
    (out : Bytes) (chunks : List Bytes) → write_all append out chunks ≡ out ++ concat chunks
write_all-append out [] = sym (append-nil out)
write_all-append out (chunk ∷ chunks) =
    write_all-append (out ++ chunk) chunks ∙ append_assoc out chunk (concat chunks)

ok-ne_invalid : ok ≢ invalid
ok-ne_invalid e = cc

Network-Arrives :
    (contents start : Bytes) (chunks : List Bytes)
    → length contents < 10 ^ 7
    → Network contents start chunks
    → Arrives ok (length contents) start chunks
Network-Arrives contents start chunks small net = record {
  stated = ok-ne_invalid;
  few_digits = small;
  whole =
      omega
        (arith, total-concat chunks, length-append start (concat chunks), ap length net.in_order);
  filled = net.filled;
  short_whole = net.short_whole;
  readable = net.readable;
  fits = net.fits;
}

-- The handler's calls of `gfs_sendheader` and `gfs_send` put the header and the pieces on the wire, and
-- the client that gets them as `Network` says has the pieces, joined in their order, behind what its
-- file held; its request has status OK and counts the bytes. The pieces are not empty, `send` takes each
-- whole, and they come to less than 10 million bytes. The client has a server, a port, a path and both
-- callbacks set, connects, and `send` takes its request.
pub send_file-gfc_perform :
    (pieces : List Bytes) (ctx : Context) (gfr : Request) (header_write : Callback)
    (server path : Bytes) (port p : ℕ) (addresses : List ℕ) (rounds : List Dial) (start : Bytes)
    (chunks : List Bytes)
    → Filled pieces
    → total pieces < 10 ^ 7
    → Network (concat pieces) start chunks
    → gfr.server ≡ some server
    → gfr.port ≡ some port
    → gfr.path ≡ some path
    → gfr.headerfunc ≡ some header_write
    → gfr.writefunc ≡ some append
    → dial_loop addresses rounds ≡ at p
    → let packet : Bytes = response_header ok (length (concat pieces)) ++ start in
      (ctx' : Context) × (gfr' : Request) × (send_file pieces (live ctx [] 0)
        ≡ done tt (live ctx' (packet ++ concat chunks) 0))
      × (gfc_perform gfr
            (some addresses)
            rounds
            (some (length (request_header path)))
            (arrive (packet ∷ chunks))
          ≡ at (success gfr'))
      × (gfr'.writearg ≡ gfr.writearg ++ concat pieces)
      × (gfr'.status ≡ some ok)
      × (gfr'.bytesreceived ≡ some (total pieces))
send_file-gfc_perform pieces ctx gfr header_write server path port p addresses rounds start chunks
      filled small net e1 e2 e3 e4 e5 dials =
    let contents : Bytes = concat pieces in
    let n : ℕ = length contents in
    let header : Bytes = response_header ok n in
    (
      record ctx {
        filelen = total pieces;
        bytessent = length (response_header ok (total pieces)) + total pieces;
      },
      record (received append gfr n (start ∷ chunks)) {
        headerarg = header_write (request_header path) gfr.headerarg;
      },
      send_file_lem pieces ctx [] 0 filled small
          ∙ ap
              (λ s. done tt (
                live
                  (record ctx {
                    filelen = total pieces;
                    bytessent = length (response_header ok (total pieces)) + total pieces;
                  })
                  s 0))
              (ap (λ k. response_header ok k ++ contents) (total-concat pieces)
                ∙ ap (λ s. header ++ s) (sym net.in_order)
                ∙ sym (append_assoc header start (concat chunks))),
      gfc_perform_lem append header_write gfr server path port p addresses rounds ok n start chunks
          (Network-Arrives contents start chunks (omega (arith, small, total-concat pieces)) net) e1
          e2 e3 e4 e5 dials,
      write_all-append (gfr.writearg ++ start) chunks
          ∙ append_assoc gfr.writearg start (concat chunks)
          ∙ ap (λ s. gfr.writearg ++ s) net.in_order,
      refl,
      ap some (sym (total-concat pieces)),
    )
