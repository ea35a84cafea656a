-- ===== src/Minify/Ended.antt =====
-- The program of rpc_mt/minifyjpeg_main.c ends, if every thread gets its turns.
use intro_to_os.Base.{
  ℕ, zero, suc, ◌+◌, ◌*◌, ◌≡◌, ◌<◌, ◌≤◌, refl, Bool, true, false, List, Option, ◌==◌, ==_iff,
  if◌then◌else◌, All, length, total, arith,
}
use intro_to_os.Text.{Bytes}
use intro_to_os.Launch.{ready}
use intro_to_os.Minify.Worker.{Request, Disk, Pool, Process, running, exited, undefined, run}
use intro_to_os.Minify.Main.{MinifyOption, Config, defaults, options, start, new_workers}
use intro_to_os.Minify.Laws.{OnRunning}
use intro_to_os.Minify.Once.{active}
use intro_to_os.Minify.Lock.{measure, effort, start-IsExclusive}
use intro_to_os.Minify.Fair.{IsRound, concat_turns, run-rounds}
use intro_to_os.Minify.Program.{load_requests, connect_all, threads_of, Ended, join, main}
use intro_to_os.Minify.Program as Program
use intro_to_os.Minify.Written.{Planned}
use intro_to_os.Minify.Finished.{AllWritten, Completes, run-AllWritten, length-new_workers}

-- The program ends behind its last join, and what it has satisfies `P`.
abbrev pub Finishes : (Option ℕ → Pool → Type 0) → Ended → Type 0
Finishes P (Program.finished code s) = P code s
Finishes P (Program.joining s) = ⊥
Finishes P (Program.exited status) = ⊥
Finishes P Program.undefined = ⊥

joined :
    (P : Option ℕ → Pool → Type 0) (code : Option ℕ) (s : Pool) (over : Bool)
    → over ≡ true
    → Completes P (if over then Program.finished code s else Program.joining s)
    → Finishes P (if over then Program.finished code s else Program.joining s)
joined P code s true e h = h
joined P code s false e h = cc

join-Finishes :
    (P : Option ℕ → Pool → Type 0) (r : Process)
    → OnRunning (λ s. active s ≡ 0) r
    → Completes P (join r)
    → Finishes P (join r)
join-Finishes P (running s) over h = joined P _ s (active s == 0) ((==_iff (active s) 0).1 over) h
join-Finishes P (exited status) over h = h
join-Finishes P undefined over h = h

effort-new_workers : (n : ℕ) → total (λ w. effort w.phase) (new_workers n) ≡ 2 * n
unfolding new_workers
effort-new_workers zero = refl
effort-new_workers (suc n) = omega (arith, effort-new_workers n)

measure-start :
    (n : ℕ) (requests : List Request) (disk : Disk)
    → measure (start n requests disk) ≡ 3 * length requests + 2 * n
unfolding start
measure-start n requests disk = omega (arith, effort-new_workers n)

-- Let the options be accepted with a number of threads that is at least 1, the workload be read, and
-- every thread get its client. Let each request of the workload be such that its input is there and the
-- call gives the picture for its output, which is no input and can be written. If the threads take turns
-- so that each has one in every round, and there are three rounds for each request and two for each
-- thread, then the program ends behind its last join, with status 0 and with its picture in every output.
pub main-Finishes :
    (can_write : Bytes → Bool) (minify_via_rpc : Bytes → ℕ × Bytes) (picture : Bytes → Bytes)
    (is_input : Bytes → Bool) (disk : Disk) (requests : List Request) (connects : ℕ → Bool)
    (rounds : List (List ℕ)) (os : List MinifyOption) (words : Bytes → Option (List Bytes))
    (c : Config)
    → options os defaults ≡ ready c
    → 0 < threads_of c.nthreads
    → load_requests (words c.workload) ≡ ready requests
    → connect_all connects (threads_of c.nthreads) 0 ≡ true
    → All (Planned can_write minify_via_rpc picture is_input disk) requests
    → All (IsRound (threads_of c.nthreads)) rounds
    → 3 * length requests + 2 * threads_of c.nthreads ≤ length rounds
    → Finishes
        (AllWritten can_write minify_via_rpc picture is_input disk requests)
        (main can_write minify_via_rpc connects (concat_turns rounds) disk os words)
unfolding main start
main-Finishes can_write minify_via_rpc picture is_input disk requests connects rounds os words c
      accepted pos read connected planned fair enough =
    let n : ℕ = threads_of c.nthreads in
    rw (accepted, read, connected)
      (join-Finishes (AllWritten can_write minify_via_rpc picture is_input disk requests)
        (run can_write minify_via_rpc (concat_turns rounds) (start n requests disk))
        (run-rounds can_write minify_via_rpc n rounds (start n requests disk) fair
          (start-IsExclusive n requests disk) (length-new_workers n)
          (omega (arith, measure-start n requests disk, enough)))
        (run-AllWritten can_write minify_via_rpc picture is_input disk requests planned
          (concat_turns rounds) n pos))
