-- ===== src/GfServer/Start.antt =====
-- The server object of gflib/gfserver.c, and `gfserver_serve` from its start.
use intro_to_os.Base.{ℕ, ◌%◌, ◌^◌, Bool, List, Option, none, some, if◌then◌else◌}
use intro_to_os.Text.{Bytes}
use intro_to_os.Text.Decimal.{decimal}
use intro_to_os.Sockets.{at, none_left, stopped, going_on, Bind, bind_loop}
use intro_to_os.GfServer.{Served, serve_loop}

-- The port is never assigned, or points to an array that held these bytes and is gone:
-- `gfserver_set_port` stores the address of a local array.
pub data Port : Type 0 where
  unset : Port
  dangling : Bytes → Port

-- struct gfserver_t, whose handler has the type `Handler`. A field is `none` until it is assigned.
pub record Server (Handler : Type 0) : Type 0 where
  pub port : Port
  pub arg : Option Bytes
  pub handler : Option Handler
  pub max_npending : Option ℕ

module _ {Handler : Type 0} where
  unfoldable pub gfserver_create : Server Handler
  gfserver_create = record { port = unset; arg = none; handler = none; max_npending = none }

  unfoldable pub gfserver_set_handlerarg : Server Handler → Bytes → Server Handler
  gfserver_set_handlerarg gfs arg = record gfs { arg = some arg }

  unfoldable pub gfserver_set_handler : Server Handler → Handler → Server Handler
  gfserver_set_handler gfs handler = record gfs { handler = some handler }

  unfoldable pub gfserver_set_maxpending : Server Handler → ℕ → Server Handler
  gfserver_set_maxpending gfs max_npending = record gfs { max_npending = some max_npending }

  -- `port` is an `unsigned short`.
  unfoldable pub gfserver_set_port : Server Handler → ℕ → Server Handler
  gfserver_set_port gfs port = record gfs { port = dangling (decimal (port % 2 ^ 16)) }

-- Where `gfserver_serve` gets: an exit, the loop over addresses, or the connections that it serves.
pub data Serving : Type 0 where
  exited : ℕ → Serving
  binding : Serving
  serving : List Served → Serving

-- `found` is what `getaddrinfo` finds for the port, as long as the bytes behind the pointer stand.
-- `buffer` is what the buffer holds at first, and `rs` are the requests of the connections.
unfoldable pub gfserver_serve :
    (found : Option (List ℕ))
    → List Bind
    → (listens : Bool) → List (Option Bytes)
    → (buffer : Bytes) → Serving
unfolding bind_loop serve_loop
gfserver_serve none rounds listens rs buffer = exited 1
gfserver_serve (some addresses) rounds listens rs buffer = elim (bind_loop addresses rounds) [
  | none_left ↦ exited 1
  | stopped ↦ exited 1
  | going_on ↦ binding
  | at p ↦ if listens then serving (serve_loop rs buffer) else exited 1
]
