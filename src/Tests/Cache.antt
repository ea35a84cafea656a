-- ===== src/Tests/Cache.antt =====
-- Runs of the theorems on cache/handle_with_cache.c and cache/simplecached.c.
use intro_to_os.Base.{Bool, false, Option, none, ◌≡◌, refl, true, List, [], ◌∷◌, some, arith}
use intro_to_os.Text.{Bytes, codes}
use intro_to_os.Text.Compare.{bytes_eq}
use intro_to_os.Content.{Entry, entry}
use intro_to_os.Cache.Proxy.{served}
use intro_to_os.Cache.System.{asking, waiting, system, ◌⟶*◌, file_len}
use intro_to_os.Cache.System as System
use intro_to_os.Text.Decimal.{atoi, scan_digits}
use intro_to_os.Content.{simplecache_init, init, load_loop}
use intro_to_os.Cache.Daemon.{nthreads, options, check}
use intro_to_os.Cache.Startup.{Calls, serving, create_workers, connect, main}
use intro_to_os.Cache.System.{Worker}
use intro_to_os.Cache.Crossed.{two_clients, two_clients_crossed}

abbrev listed : List Entry
listed = entry 5 (codes "/a") ∷ []

abbrev abc : Bytes
abc = codes "abc"

abbrev pick : (is_a is_b : Bool) → Option Bytes
pick true is_b = some abc
pick false true = some (codes "de")
pick false false = none

-- A daemon with two files.
abbrev listed_file : Bytes → Option Bytes
listed_file p = pick (bytes_eq p (codes "/a")) (bytes_eq p (codes "/b"))

a_listed : listed_file (codes "/a") ≡ some abc
unfolding bytes_eq
a_listed = refl

b_listed : listed_file (codes "/b") ≡ some (codes "de")
unfolding bytes_eq
b_listed = refl

abbrev crossed : System.System
crossed =
    system [] (file_len 2 ∷ []) (codes "de")
      (System.served (codes "/a") (codes "de") ∷ asking (codes "/b") ∷ []) (waiting ∷ [])

two_clients_crossed_example : ◌⟶*◌ listed_file (two_clients (codes "/a") (codes "/b") []) crossed
two_clients_crossed_example =
    two_clients_crossed listed_file (codes "/a") (codes "/b") [] (codes "abc") (codes "de") a_listed
      b_listed (omega arith)

abbrev all_well : Calls
all_well = record { catches = true; has_key = true; has_key_back = true; creates = true }

abbrev two_workers : List Worker
two_workers = waiting ∷ waiting ∷ []

daemon_serves :
    main
      (λ n path. none)
      (λ n. true)
      (λ xs. xs)
      (λ name. some [])
      all_well
      (nthreads (codes "2") ∷ [])
    ≡ serving [] two_workers
unfolding main options check atoi scan_digits connect create_workers simplecache_init init load_loop
daemon_serves = refl
