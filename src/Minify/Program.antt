-- ===== src/Minify/Program.antt =====
-- `main` of rpc_mt/minifyjpeg_main.c as a whole: the options, the workload, the threads, and the join.
-- `pthread_create`, whose result the program does not look at, is taken to succeed.
use intro_to_os.Base.{
  ℕ, ◌+◌, ◌^◌, ◌≡◌, ◌<◌, inl, inr, Bool, true, false, [], List, Option, none, some, if◌then◌else◌,
  ltb, ◌==◌, map, zero, suc, ==_iff, Bool-cases,
}
use intro_to_os.Text.{Bytes}
use intro_to_os.Launch.{Started, ready}
use intro_to_os.Minify.Worker.{Request, Worker, Pool, Disk, Process, running, run}
use intro_to_os.Minify.Worker as Worker
use intro_to_os.Minify.Main.{
  Loaded, loaded, load_loop, start, join_loop, MinifyOption, Config, defaults, options,
}
use intro_to_os.Minify.Laws.{OnRunning}
use intro_to_os.Minify.Once.{active, count, run-handled}

-- `load_requests`: `none` is a file that does not open.
unfoldable pub load_requests : Option (List Bytes) → Started (List Request)
unfolding load_loop
load_requests none = Started.exited 1
load_requests (some words) = elim (load_loop words) [
  | loaded requests ↦ ready requests
  | Loaded.overflow ↦ Started.overflow
]

-- `i < nthreads` of the `int` with this pattern.
abbrev pub threads_of : ℕ → ℕ
threads_of nthreads = if ltb nthreads (2 ^ 31) then nthreads else 0

-- `get_minify_client` for each thread, from `i` on: the program ends where one fails.
unfoldable pub connect_all : (connects : ℕ → Bool) → (n i : ℕ) → Bool
connect_all connects zero i = true
connect_all connects (suc n) i =
    let rest = connect_all connects n (i + 1) in if connects i then rest else false

-- How the program ends: with `code` if it was assigned, behind the last join; with threads that still
-- run; or before.
pub data Ended : Type 0 where
  finished : (code : Option ℕ) → Pool → Ended
  joining : Pool → Ended
  exited : ℕ → Ended
  undefined : Ended

abbrev pub code_of : Worker → ℕ
code_of w = w.code

-- `join_loop` joins every thread before it ends.
abbrev pub join : Process → Ended
join (running s) =
    if active s == 0 then finished (join_loop 0 none (map code_of s.workers)).1 s else joining s
join (Worker.exited status) = exited status
join Worker.undefined = undefined

module _ (can_write : Bytes → Bool) (minify_via_rpc : Bytes → ℕ × Bytes) (connects : ℕ → Bool)
    (begin : ℕ → List Request → Disk → Pool) (schedule : List ℕ) (disk : Disk) where
  abbrev pub with_clients : (connected : Bool) → (n : ℕ) → List Request → Ended
  with_clients true n requests =
      join (run can_write minify_via_rpc schedule (begin n requests disk))
  with_clients false n requests = exited 1

  abbrev pub with_requests : (n : ℕ) → Started (List Request) → Ended
  with_requests n (ready requests) = with_clients (connect_all connects n 0) n requests
  with_requests n (Started.exited status) = exited status
  with_requests n Started.overflow = undefined

  abbrev pub with_config : (words : Bytes → Option (List Bytes)) → Started Config → Ended
  with_config words (ready c) =
      with_requests (threads_of c.nthreads) (load_requests (words c.workload))
  with_config words (Started.exited status) = exited status
  with_config words Started.overflow = undefined

-- A thread that runs before all are created takes its steps in the schedule too.
unfoldable pub main :
    (can_write : Bytes → Bool) (minify_via_rpc : Bytes → ℕ × Bytes) (connects : ℕ → Bool)
    (schedule : List ℕ) (disk : Disk) (os : List MinifyOption) (words : Bytes → Option (List Bytes))
    → Ended
unfolding options load_requests connect_all run start join_loop
main can_write minify_via_rpc connects schedule disk os words =
    with_config can_write minify_via_rpc connects start schedule disk words (options os defaults)

-- Where the program ends behind its last join, what it has satisfies `P`.
abbrev pub OnFinished : (Option ℕ → Pool → Type 0) → Ended → Type 0
OnFinished P (finished code s) = P code s
OnFinished P (joining s) = Unit
OnFinished P (exited status) = Unit
OnFinished P undefined = Unit

pub OnFinished-join :
    (P : Pool → Type 0) (r : Process)
    → OnRunning (λ s. active s ≡ 0 → P s) r
    → OnFinished (λ code s. P s) (join r)
OnFinished-join P (running s) h = elim (Bool-cases (active s == 0)) [
  | inl over ↦ rw over (h ((==_iff (active s) 0).0 over))
  | inr going ↦ rw going tt
]
OnFinished-join P (Worker.exited status) h = tt
OnFinished-join P Worker.undefined h = tt

-- Every request of the workload was worked on, as often as it stands there.
abbrev pub IsHandled : (Request → Bool) → List Request → Pool → Type 0
IsHandled p requests s = (s.queue ≡ []) × (count p s.handled ≡ count p requests)

module _ (can_write : Bytes → Bool) (minify_via_rpc : Bytes → ℕ × Bytes) (connects : ℕ → Bool)
    (schedule : List ℕ) (disk : Disk) (p : Request → Bool) where
  with_clients-IsHandled :
      (connected : Bool) (n : ℕ) (requests : List Request)
      → 0 < n
      → OnFinished
          (λ code s. IsHandled p requests s)
          (with_clients can_write minify_via_rpc connects start schedule disk connected n requests)
  with_clients-IsHandled true n requests pos =
      OnFinished-join (IsHandled p requests)
        (run can_write minify_via_rpc schedule (start n requests disk))
        (run-handled can_write minify_via_rpc schedule n requests disk p pos)
  with_clients-IsHandled false n requests pos = tt

  -- If the options are accepted with a number of threads that is at least 1 and the workload is read,
  -- then, however the threads take turns, a program that ends behind its last join has worked on each
  -- request of the workload exactly as often as it stands there, and its queue is empty.
  pub main-IsHandled :
      (os : List MinifyOption) (words : Bytes → Option (List Bytes)) (c : Config)
      (requests : List Request)
      → options os defaults ≡ ready c
      → 0 < threads_of c.nthreads
      → load_requests (words c.workload) ≡ ready requests
      → OnFinished
          (λ code s. IsHandled p requests s)
          (main can_write minify_via_rpc connects schedule disk os words)
  unfolding main
  main-IsHandled os words c requests accepted pos read =
      rw (accepted, read)
        (with_clients-IsHandled (connect_all connects (threads_of c.nthreads) 0)
          (threads_of c.nthreads) requests pos)
