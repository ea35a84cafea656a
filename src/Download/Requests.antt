-- ===== src/Download/Requests.antt =====
-- The request of gflib/gfclient_download.c in the library that this program is linked with,
-- gflib/gfclient.c.
use intro_to_os.Base.{ℕ, ◌++◌, ◌≡◌, refl, ap, ◌∙◌, List, Option, some}
use intro_to_os.Text.{Bytes}
use intro_to_os.Sockets.{Dial, at, dial_loop}
use intro_to_os.GfClient.{
  Request, Callback, undefined, gfc_create, gfc_set_server, gfc_set_path, gfc_set_port,
  gfc_set_writefunc, gfc_set_writearg, gfc_perform,
}
use intro_to_os.GfClient.Perform.{perform_connected_unset, dialled}

-- `writecb` appends to the file.
abbrev pub writecb : Callback
writecb chunk file = file ++ chunk

-- The calls between `openFile` and `gfc_perform`.
unfoldable pub request_of : (server req_path : Bytes) → (port : ℕ) → (file : Bytes) → Request
unfolding gfc_create gfc_set_server gfc_set_path gfc_set_port gfc_set_writefunc gfc_set_writearg
request_of server req_path port file =
    gfc_set_writearg
      (gfc_set_writefunc
        (gfc_set_port (gfc_set_path (gfc_set_server gfc_create server) req_path) port) writecb)
      file

-- Whatever the server, the path and the port are: once the client library is connected, it calls a
-- header callback that the program never set, before it sends anything.
pub gfc_perform-request_of :
    (server req_path file : Bytes) (port p : ℕ) (addresses : List ℕ) (rounds : List Dial)
    (sent : Option ℕ) (rs : List (Option Bytes))
    → dial_loop addresses rounds ≡ at p
    → gfc_perform (request_of server req_path port file) (some addresses) rounds sent rs
      ≡ at undefined
unfolding gfc_perform request_of gfc_create gfc_set_server gfc_set_path gfc_set_port
    gfc_set_writefunc gfc_set_writearg
gfc_perform-request_of server req_path file port p addresses rounds sent rs dials =
    dialled (request_of server req_path port file) p addresses rounds sent rs dials
    ∙ ap at (perform_connected_unset (request_of server req_path port file) sent rs refl)
