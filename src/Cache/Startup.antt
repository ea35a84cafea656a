-- ===== src/Cache/Startup.antt =====
-- `main` and `_sig_handler` of cache/simplecached.c.
use intro_to_os.Base.{
  ℕ, ◌≡◌, refl, Bool, ◌||◌, ◌==◌, [], ◌∷◌, List, Option, none, some, if◌then◌else◌, zero, suc,
  length, total, arith,
}
use intro_to_os.Text.{Bytes}
use intro_to_os.Content.{
  Open, Allocates, Entry, Loaded, loaded, exited, undefined, no_fuel, simplecache_init,
  simplecache_destroy,
}
use intro_to_os.Launch.{Started, ready, overflow}
use intro_to_os.Cache.Daemon.{DaemonOption, Config, defaults, options, check, failure}
use intro_to_os.Cache.System.{Worker, waiting, works}

-- What the daemon shares with the proxy or between its threads.
pub data Shared : Type 0 where
  commands replies segment command_mutex response_mutex : Shared

-- SIGINT, SIGTERM and SIGSEGV remove all of it and end the process with the number of the signal; the
-- handler returns from any other (`none`).
unfoldable pub sig_handler : (signo : ℕ) → Option (List Shared × ℕ)
sig_handler signo =
    if signo == 2 || (signo == 15 || signo == 11)
    then some (commands ∷ replies ∷ segment ∷ command_mutex ∷ response_mutex ∷ [], signo)
    else none

-- What the system calls of `main` give: whether both calls of `signal`, the two of `ftok`, and the
-- `msgget` that creates the queue of replies succeed. The other `msgget` is tried until it does.
pub record Calls : Type 0 where
  pub catches : Bool
  pub has_key : Bool
  pub has_key_back : Bool
  pub creates : Bool

-- The daemon serves, with its table and its threads; ends, with the descriptors that it closed; or its
-- table faults.
pub data Daemon : Type 0 where
  serving : List Entry → List Worker → Daemon
  ended : (status : ℕ) → (closed : List ℕ) → Daemon
  faulted : Daemon

-- `pthread_create` for each thread.
unfoldable pub create_workers : ℕ → List Worker
create_workers zero = []
create_workers (suc n) = waiting ∷ create_workers n

-- Behind `simplecache_init`.
unfoldable pub connect : Calls → (nthreads : ℕ) → List Entry → Daemon
unfolding create_workers simplecache_destroy
connect calls nthreads items =
    if calls.has_key
    then (if calls.has_key_back
        then (if calls.creates
            then serving items (create_workers nthreads)
            else ended failure (simplecache_destroy items))
        else ended failure (simplecache_destroy items))
    else ended failure (simplecache_destroy items)

abbrev pub with_table : Calls → (nthreads : ℕ) → Loaded → Daemon
with_table calls nthreads (loaded items capacity) = connect calls nthreads items
with_table calls nthreads (exited status) = ended status []
with_table calls nthreads undefined = faulted
with_table calls nthreads no_fuel = faulted

abbrev pub with_config :
    Open
    → Allocates
    → (sorted : List Entry → List Entry) → (files : Bytes → Option Bytes) → Calls
    → Started Config
    → Daemon
with_config opens allocates sorted files calls (ready c) =
    if calls.catches
    then with_table calls c.nthreads (simplecache_init opens allocates sorted (files c.cachedir))
    else ended failure []
with_config opens allocates sorted files calls (Started.exited status) = ended status []
with_config opens allocates sorted files calls overflow = faulted

abbrev pub checked : Started Config → Started Config
checked (ready c) = check c
checked (Started.exited status) = Started.exited status
checked overflow = overflow

unfoldable pub main :
    Open
    → Allocates
    → (sorted : List Entry → List Entry) → (files : Bytes → Option Bytes) → Calls
    → List DaemonOption
    → Daemon
unfolding options check simplecache_init connect
main opens allocates sorted files calls os =
    with_config opens allocates sorted files calls (checked (options os defaults))

-- The threads start out of work, so that `one_client-served` holds of a system with them.
pub create_workers-free :
    (n : ℕ) → (total works (create_workers n) ≡ 0) × (length (create_workers n) ≡ n)
unfolding create_workers
create_workers-free zero = (refl, refl)
create_workers-free (suc n) =
    let rest = create_workers-free n in (omega (arith, rest.0), omega (arith, rest.1))
