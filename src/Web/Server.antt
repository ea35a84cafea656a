-- ===== src/Web/Server.antt =====
-- `main` of server/webproxy.c in gios-spr-2018-pr3-master: the options, the tests, and the calls of the
-- server library, which has no source.
use intro_to_os.Base.{ℕ, ◌^◌, ◌%◌, ◌+◌, ◌||◌, [], ◌∷◌, List, ltb, if◌then◌else◌, zero, suc}
use intro_to_os.Text.{Bytes, codes}
use intro_to_os.Text.Decimal.{atoi}
use intro_to_os.Launch.{Started, ready, exited, ◌>>=◌}

-- What `getopt_long` returns, with `optarg`.
pub data ServerOption : Type 0 where
  port server thread_count : Bytes → ServerOption
  experimental help other : ServerOption

pub record Config : Type 0 where
  pub port : ℕ
  pub nworkerthreads : ℕ
  pub source : Bytes

-- DEFAULT_SOURCE
abbrev pub default_source : Bytes
default_source = codes "s3.amazonaws.com/content.udacity-data.com"

abbrev pub defaults : Config
defaults = record { port = 6200; nworkerthreads = 2; source = default_source }

-- The numbers are `unsigned short`. The default case falls through to that of `-h`, with status 1.
unfoldable pub options : List ServerOption → Config → Started Config
options [] c = ready c
options (ServerOption.port text ∷ os) c = options os (record c { port = atoi text % 2 ^ 16 })
options (ServerOption.server text ∷ os) c = options os (record c { source = text })
options (ServerOption.thread_count text ∷ os) c =
    options os (record c { nworkerthreads = atoi text % 2 ^ 16 })
options (ServerOption.experimental ∷ os) c = options os c
options (ServerOption.help ∷ os) c = exited 0
options (ServerOption.other ∷ os) c = exited 1

-- `exit(__LINE__)`; `source` is never NULL.
unfoldable pub check : Config → Started Config
check c =
    if ltb c.nworkerthreads 1 || ltb 1024 c.nworkerthreads
    then exited 96
    else if ltb c.port 1024
    then exited 102
    else ready c

-- A call of `gfserver_init` or `gfserver_setopt`.
pub data Call : Type 0 where
  init port maxnpending : ℕ → Call
  worker_func : (name : Bytes) → Call
  worker_arg : (thread : ℕ) → Bytes → Call

-- `for(i = 0; i < nworkerthreads; i++)`, with `n` threads left.
unfoldable pub worker_args : (n i : ℕ) → Bytes → List Call
worker_args zero i source = []
worker_args (suc n) i source = worker_arg i source ∷ worker_args n (i + 1) source

-- The calls before `gfserver_serve`.
abbrev pub setup : (portno pending nworkerthreads : ℕ) → (function arg : Bytes) → List Call
setup portno pending nworkerthreads function arg =
    init nworkerthreads
    ∷ Call.port portno
    ∷ maxnpending pending
    ∷ worker_func function
    ∷ worker_args nworkerthreads 0 arg

unfoldable pub main : List ServerOption → Started (List Call)
unfolding options check worker_args
main os = do
  c ← options os defaults
  c' ← check c
  ready (setup c'.port 12 c'.nworkerthreads (codes "handle_with_curl") c'.source)
