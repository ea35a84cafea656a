-- ===== src/Tests/Getfile.antt =====
-- Runs of the theorems on gflib/gfserver.c and gflib/gfclient.c.
use intro_to_os.Base.{
  false, drop, List, ℕ, ◌≡◌, ◌≢◌, ◌<◌, refl, [], ◌∷◌, ◌++◌, none, some, length, arith,
  length-append, inl,
}
use intro_to_os.Text.{no_nul, Bytes, codes, nul, is_line_end}
use intro_to_os.Text.Token.{IsToken}
use intro_to_os.GfServer.{
  ok, file_not_found, invalid, Context, done, response_header, call, serve_one,
}
use intro_to_os.GfServer.Header.{length-response_header-le, response_header-div, live}
use intro_to_os.GfServer.Request.{serve_one-call}
use intro_to_os.GfClient.{gfc_perform, Request, success, request_header}
use intro_to_os.GfClient.Receive.{arrive}
use intro_to_os.Sockets.{at, dial_loop, refused, connected}
use intro_to_os.GfClient.Served.{append, send_file, Network, send_file-gfc_perform}
use intro_to_os.GfClient.Contract.{Reports, OnReturned, gfc_perform-Reports}
use intro_to_os.GfClient.Perform.{gfc_perform_lem, received, Arrives}

abbrev three_bytes : Bytes
three_bytes = codes "abc"

abbrev ready_request : Request
ready_request = record {
  server = some (codes "localhost");
  path = some (codes "/a");
  port = some 6200;
  headerfunc = some append;
  headerarg = [];
  writefunc = some append;
  writearg = [];
  status = none;
  filelen = none;
  bytesreceived = none;
}

room_bound : length (response_header ok 3 ++ three_bytes) < 4096
room_bound =
    omega (arith, length-append (response_header ok 3) three_bytes, length-response_header-le ok 3)

ok-ne_invalid : ok ≢ invalid
ok-ne_invalid e = cc

three_bytes-Arrives : Arrives ok 3 three_bytes []
three_bytes-Arrives = record {
  stated = ok-ne_invalid;
  few_digits = omega arith;
  whole = refl;
  filled = tt;
  short_whole = λ small. refl;
  readable = inl room_bound;
  fits = omega (arith, room_bound);
}

dials : dial_loop {A = ℕ} (1 ∷ 2 ∷ []) (refused ∷ connected ∷ []) ≡ at 1
unfolding dial_loop
dials = refl

gfc_perform_lem_example :
    gfc_perform ready_request
      (some (1 ∷ 2 ∷ []))
      (refused ∷ connected ∷ [])
      (some (length (request_header (codes "/a"))))
      (arrive ((response_header ok 3 ++ three_bytes) ∷ []))
    ≡ at (
        success (record (received append ready_request 3 (three_bytes ∷ [])) {
          headerarg = request_header (codes "/a");
        }))
gfc_perform_lem_example =
    gfc_perform_lem append append ready_request (codes "localhost") (codes "/a") 6200 1 (1 ∷ 2 ∷ [])
      (refused ∷ connected ∷ []) ok 3 three_bytes [] three_bytes-Arrives refl refl refl refl refl
      dials

abbrev two_pieces : List Bytes
two_pieces = codes "ab" ∷ codes "c" ∷ []

three_bytes-Network : Network three_bytes three_bytes []
three_bytes-Network = record {
  in_order = refl;
  filled = tt;
  short_whole = λ small. refl;
  readable = inl room_bound;
  fits = omega (arith, room_bound);
}

abbrev new_context : Context
new_context = record { socket_fd = 4; filelen = 0; bytessent = 0 }

send_file-gfc_perform_example :
    (ctx' : Context) × (gfr' : Request) × (send_file two_pieces (live new_context [] 0)
      ≡ done tt (live ctx' ((response_header ok 3 ++ three_bytes) ++ []) 0))
    × (gfc_perform ready_request
          (some (1 ∷ 2 ∷ []))
          (refused ∷ connected ∷ [])
          (some (length (request_header (codes "/a"))))
          (arrive ((response_header ok 3 ++ three_bytes) ∷ []))
        ≡ at (success gfr'))
    × (gfr'.writearg ≡ three_bytes)
    × (gfr'.status ≡ some ok)
    × (gfr'.bytesreceived ≡ some 3)
send_file-gfc_perform_example =
    send_file-gfc_perform two_pieces new_context ready_request append (codes "localhost")
      (codes "/a") 6200 1 (1 ∷ 2 ∷ []) (refused ∷ connected ∷ []) three_bytes []
      (omega arith, (omega arith, tt)) (omega arith) three_bytes-Network refl refl refl refl refl
      dials

not_found_bound : length (response_header file_not_found 0 ++ []) < 4096
not_found_bound = omega (
  arith,
  length-append (response_header file_not_found 0) [],
  length-response_header-le file_not_found 0,
)

not_found-ne_invalid : file_not_found ≢ invalid
not_found-ne_invalid e = cc

gfc_perform-Reports_example : OnReturned Reports (
    gfc_perform ready_request
      (some (1 ∷ 2 ∷ []))
      (refused ∷ connected ∷ [])
      (some (length (request_header (codes "/a"))))
      (arrive ((response_header ok 3 ++ three_bytes) ∷ [])))
gfc_perform-Reports_example =
    gfc_perform-Reports ready_request (some (1 ∷ 2 ∷ [])) (refused ∷ connected ∷ [])
      (some (length (request_header (codes "/a"))))
      (arrive ((response_header ok 3 ++ three_bytes) ∷ []))

abbrev context : Context
context = record { socket_fd = 4; filelen = 3; bytessent = 20 }

response_header-div_example : response_header ok 12345678 ≡ response_header ok 1234567
response_header-div_example = response_header-div ok 12345678 (omega arith) (omega arith)

path-IsToken : IsToken is_line_end (codes "/a")
path-IsToken = record { filled = omega arith; free = refl }

abbrev cleared : Bytes
cleared =
    nul ∷ nul ∷ nul ∷ nul ∷ nul ∷ nul ∷ nul ∷ nul ∷ nul ∷ nul ∷ nul ∷ nul ∷ nul ∷ nul ∷ nul ∷ nul
    ∷ nul ∷ nul ∷ nul ∷ nul ∷ []

nul_behind : no_nul (drop (length (request_header (codes "/a"))) cleared) ≡ false
unfolding request_header
nul_behind = refl

serve_one-call_example :
    (serve_one (some (request_header (codes "/a"))) cleared).1 ≡ call (codes "/a")
serve_one-call_example = serve_one-call (codes "/a") cleared path-IsToken refl refl refl nul_behind
