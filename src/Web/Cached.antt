-- ===== src/Web/Cached.antt =====
-- `main` of cache/webproxy.c in gios-spr-2018-pr3-master: the options, the tests, the shared memory and
-- the message queue.
use intro_to_os.Base.{
  ℕ, ◌^◌, ◌%◌, ◌*◌, Bool, ◌||◌, ◌==◌, [], ◌∷◌, List, ltb, if◌then◌else◌, Option, none, some,
}
use intro_to_os.Text.{Bytes, codes}
use intro_to_os.Text.Decimal.{atoi}
use intro_to_os.Launch.{Started, ready, exited, ◌>>=◌}
use intro_to_os.Cache.Message.{extend}
use intro_to_os.Web.Server.{default_source, Call, setup, worker_args}

-- What `getopt_long` returns, with `optarg`.
pub data ProxyOption : Type 0 where
  segment_count port server thread_count segment_size : Bytes → ProxyOption
  hidden experimental help other : ProxyOption

pub record Config : Type 0 where
  pub port : ℕ
  pub nworkerthreads : ℕ
  pub nsegments : ℕ
  pub segsize : ℕ
  pub source : Bytes

abbrev pub defaults : Config
defaults = record {
  port = 6200;
  nworkerthreads = 3;
  nsegments = 3;
  segsize = 6200;
  source = default_source;
}

-- `unsigned short`, `unsigned int` and `size_t`.
unfoldable pub options : List ProxyOption → Config → Started Config
options [] c = ready c
options (ProxyOption.segment_count text ∷ os) c =
    options os (record c { nsegments = atoi text % 2 ^ 32 })
options (ProxyOption.port text ∷ os) c = options os (record c { port = atoi text % 2 ^ 16 })
options (ProxyOption.server text ∷ os) c = options os (record c { source = text })
options (ProxyOption.thread_count text ∷ os) c =
    options os (record c { nworkerthreads = atoi text % 2 ^ 16 })
options (ProxyOption.segment_size text ∷ os) c =
    options os (record c { segsize = extend (atoi text) })
options (ProxyOption.hidden ∷ os) c = options os c
options (ProxyOption.experimental ∷ os) c = options os c
options (ProxyOption.help ∷ os) c = exited 0
options (ProxyOption.other ∷ os) c = exited 1

-- `exit(__LINE__)`; `source` is never NULL.
unfoldable pub check : Config → Started Config
check c =
    if ltb c.nworkerthreads 1 || ltb 1024 c.nworkerthreads
    then exited 116
    else if ltb c.port 1024
    then exited 122
    else if ltb c.segsize 128
    then exited 134
    else if ltb c.nsegments 1
    then exited 140
    else ready c

-- The product of the two as a `size_t`.
unfoldable pub total_mm_size : (nsegments segsize : ℕ) → ℕ
total_mm_size nsegments segsize = nsegments * segsize % 2 ^ 64

-- What the system calls find: whether the memory opens, gets its size and is mapped; the keys of
-- `ftok`, of which `none` is -1; and the queue for a key.
pub record System : Type 0 where
  pub opens : Bool
  pub truncates : ℕ → Bool
  pub maps : ℕ → Bool
  pub key : Option ℕ
  pub key_cache_to_proxy : Option ℕ
  pub queue : (key : Option ℕ) → Option ℕ

-- `_sig_handler`: SIGINT and SIGTERM stop the server and the program; it returns from any other.
abbrev pub sig_handler : {A : Type 0} → (signo : ℕ) → A → Started A
sig_handler signo next = if signo == 2 || signo == 15 then exited signo else ready next

-- The first `ftok`. If it fails, `_sig_handler(1)` is called, and `key` stays -1.
abbrev pub with_key : {A : Type 0} → Option ℕ → Started A → Started A
with_key none next = sig_handler 1 tt >>= λ _. next
with_key (some key) next = next

-- The second `ftok` and `msgget`.
abbrev pub with_keys : {A : Type 0} → Option ℕ → Option ℕ → A → Started A
with_keys none msqid next = exited 1
with_keys (some key) none next = exited 1
with_keys (some key) (some msqid) next = ready next

-- The memory and the queue, in front of what comes then.
unfoldable pub prepare : {A : Type 0} → System → (size : ℕ) → A → Started A
prepare sys size next =
    if sys.opens
    then (if sys.truncates size
        then (if sys.maps size
            then with_key sys.key (with_keys sys.key_cache_to_proxy (sys.queue sys.key) next)
            else exited 1)
        else exited 1)
    else exited 1

-- Up to `gfserver_serve`: the size of the memory and the calls of the server library.
unfoldable pub main : List ProxyOption → System → Started (ℕ × List Call)
unfolding options check total_mm_size prepare worker_args
main os sys = do
  c ← options os defaults
  c' ← check c
  prepare sys (total_mm_size c'.nsegments c'.segsize) (
    total_mm_size c'.nsegments c'.segsize,
    setup c'.port 42 c'.nworkerthreads (codes "handle_with_cache") (codes "temp"),
  )
