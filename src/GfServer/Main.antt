-- ===== src/GfServer/Main.antt =====
-- `main` of gflib/gfserver_main.c and of mtgf/gfserver_main.c, and mtgf/handler.c. The server library of
-- mtgf is an object file; here both programs are taken with that of gflib.
use intro_to_os.Base.{
  ℕ, ◌%◌, ◌^◌, ◌-◌, Bool, true, false, ◌||◌, ◌==◌, leb, List, [], ◌∷◌, Option, if◌then◌else◌,
}
use intro_to_os.Text.{Bytes, codes}
use intro_to_os.Text.Decimal.{atoi}
use intro_to_os.Launch.{Started, ready, exited, ◌>>=◌}
use intro_to_os.Content.{Open, Allocates, Entry, Loaded, content_init}
use intro_to_os.GfServer.Start.{
  Server, gfserver_create, gfserver_set_port, gfserver_set_maxpending, gfserver_set_handler,
}

-- What `getopt_long` returns, with `optarg`. Both programs list `t` in their short options; only mtgf has
-- a case for it.
pub data ServerOption : Type 0 where
  port content nthreads : Bytes → ServerOption
  help other : ServerOption

pub record Config : Type 0 where
  pub port : ℕ
  pub content_map : Bytes
  pub nthreads : ℕ

abbrev pub defaults : Config
defaults = record { port = 6200; content_map = codes "content.txt"; nthreads = 8 }

-- `has_threads` is false for gflib, where `-t` falls to the default case.
unfoldable pub options : (has_threads : Bool) → List ServerOption → Config → Started Config
options b [] c = ready c
options b (ServerOption.port text ∷ os) c = options b os (record c { port = atoi text % 2 ^ 16 })
options b (ServerOption.content text ∷ os) c = options b os (record c { content_map = text })
options true (ServerOption.nthreads text ∷ os) c =
    options true os (record c { nthreads = atoi text })
options false (ServerOption.nthreads text ∷ os) c = exited 1
options b (ServerOption.help ∷ os) c = exited 0
options b (ServerOption.other ∷ os) c = exited 1

-- `nthreads < 1` of the `int` with this pattern.
abbrev pub at_least_one : ℕ → ℕ
at_least_one n = if n == 0 || leb (2 ^ 31) n then 1 else n

-- What the program has at `gfserver_serve`: the table, the server object, and the number of threads,
-- which it does not use.
pub record Prepared (Handler : Type 0) : Type 0 where
  pub table : Loaded
  pub server : Server Handler
  pub nthreads : ℕ

module _ {Handler : Type 0} (getfile_handler : Handler) where
  -- The server object; its argument is NULL, which is left unassigned here.
  abbrev pub configured : (portno pending : ℕ) → Server Handler
  configured portno pending =
      gfserver_set_handler
        (gfserver_set_maxpending (gfserver_set_port gfserver_create portno) pending) getfile_handler

  unfoldable pub main_gflib :
      Open
      → Allocates
      → (sorted : List Entry → List Entry) → (files : Bytes → Option Bytes) → List ServerOption
      → Started (Prepared Handler)
  unfolding options content_init gfserver_set_port gfserver_set_maxpending gfserver_set_handler
      gfserver_create
  main_gflib opens allocates sorted files os = do
    c ← options false os defaults
    ready (record {
      table = content_init opens allocates sorted (files c.content_map);
      server = configured c.port 6;
      nthreads = c.nthreads;
    })

  -- `catches` is whether both calls of `signal` succeed.
  unfoldable pub main_mtgf :
      (catches : Bool)
      → Open
      → Allocates
      → (sorted : List Entry → List Entry) → (files : Bytes → Option Bytes) → List ServerOption
      → Started (Prepared Handler)
  unfolding options content_init gfserver_set_port gfserver_set_maxpending gfserver_set_handler
      gfserver_create
  main_mtgf false opens allocates sorted files os = exited 1
  main_mtgf true opens allocates sorted files os = do
    c ← options true os defaults
    ready (record {
      table = content_init opens allocates sorted (files c.content_map);
      server = configured c.port 64;
      nthreads = at_least_one c.nthreads;
    })

-- `-ENOSYS` as a `ssize_t`: the handler of mtgf sends nothing.
abbrev pub getfile_handler : ℕ
getfile_handler = 2 ^ 64 - 38
