-- ===== src/Minify/Finished.antt =====
-- What the program of rpc_mt/minifyjpeg_main.c has written when it ends.
use intro_to_os.Base.{
  ℕ, zero, suc, ◌≡◌, ◌<◌, inl, inr, Bool, true, false, refl, sym, ◌∙◌, ap, [], ◌∷◌, List, Option,
  none, some, ◌==◌, ==_iff, get_elem?, if◌then◌else◌, arith, Bool-cases, All, All-get_elem?,
  All-positions, map, length, total-pos, total-get_elem?, All-map,
}
use mathlib.Core.Path.{subst}
use intro_to_os.Text.{Bytes}
use intro_to_os.Text.Compare.{bytes_eq, bytes_eq_refl, eq_of_bytes_eq}
use intro_to_os.Launch.{ready}
use intro_to_os.Minify.Worker.{
  Request, Worker, Disk, Pool, Process, running, exited, undefined, run,
}
use intro_to_os.Minify.Main.{MinifyOption, Config, defaults, options, start, new_workers, join_loop}
use intro_to_os.Minify.Laws.{OnRunning, run-OnRunning}
use intro_to_os.Minify.Once.{active, count, one, run-handled}
use intro_to_os.Minify.Fair.{Moves-length}
use intro_to_os.Minify.Join.{first_failure, join_loop_lem}
use intro_to_os.Minify.Written.{Runs, Planned, IsWritten, Kept, run-Kept, start-Kept}
use intro_to_os.Minify.Program.{
  load_requests, connect_all, threads_of, Ended, code_of, join, with_clients, with_config, main,
}
use intro_to_os.Minify.Program as Program

-- The program does not exit and is not undefined, and where it ends behind its last join, what it has
-- satisfies `P`.
abbrev pub Completes : (Option ℕ → Pool → Type 0) → Ended → Type 0
Completes P (Program.finished code s) = P code s
Completes P (Program.joining s) = Unit
Completes P (Program.exited status) = ⊥
Completes P Program.undefined = ⊥

-- Whether this is the output of a request.
abbrev names : Bytes → Option Bytes → Bool
names o none = false
names o (some name) = bytes_eq name o

names-some : (o : Bytes) (name : Option Bytes) → names o name ≡ true → name ≡ some o
names-some o none e = cc
names-some o (some name) e = ap some (eq_of_bytes_eq name o e)

one-true : (b : Bool) → 0 < one b → b ≡ true
one-true true pos = refl
one-true false pos = absurd (omega arith)

same_some : (a b : Bytes) → some a ≡ some b → a ≡ b
same_some a b e = cc

zeros_behind :
    (ws : List Worker) → All (λ w. w.code ≡ 0) ws → first_failure (some 0) (map code_of ws) ≡ some 0
zeros_behind [] all = refl
zeros_behind (w ∷ ws) all =
    ap (λ c. if c == 0 then first_failure (some 0) (map code_of ws) else some c) all.0
    ∙ zeros_behind ws all.1

first_zero :
    (ws : List Worker)
    → 0 < length ws
    → All (λ w. w.code ≡ 0) ws
    → first_failure none (map code_of ws) ≡ some 0
first_zero [] pos all = absurd (omega arith)
first_zero (w ∷ ws) pos all =
    ap (λ c. if c == 0 then first_failure (some 0) (map code_of ws) else some c) all.0
    ∙ zeros_behind ws all.1

pub length-new_workers : (n : ℕ) → length (new_workers n) ≡ n
unfolding new_workers
length-new_workers zero = refl
length-new_workers (suc n) = ap suc (length-new_workers n)

module _ (can_write : Bytes → Bool) (minify_via_rpc : Bytes → ℕ × Bytes) (picture : Bytes → Bytes)
    (is_input : Bytes → Bool) (disk : Disk) (requests : List Request) where
  -- The status is 0 and the output of each request holds its picture.
  abbrev pub AllWritten : Option ℕ → Pool → Type 0
  AllWritten code s =
      (code ≡ some 0)
      × All (IsWritten can_write minify_via_rpc picture is_input disk s.disk) requests

  module _ (planned : All (Planned can_write minify_via_rpc picture is_input disk) requests) where
    abbrev Fine : Pool → Type 0
    Fine = Kept can_write minify_via_rpc picture is_input disk

    -- What one request left behind, if the same requests were worked on.
    request-IsWritten :
        (s : Pool)
        → Fine s
        → ((p : Request → Bool) → count p s.handled ≡ count p requests)
        → (i : ℕ) (r : Request) → get_elem? requests i ≡ some r
        → IsWritten can_write minify_via_rpc picture is_input disk s.disk r
    request-IsWritten s k same i r got =
        let p =
          All-get_elem? (Planned can_write minify_via_rpc picture is_input disk) requests i r
            planned got in
        let mine : Request → Bool = λ q. names p.output q.outputfilename in
        let named : mine r ≡ true = ap (names p.output) p.named ∙ bytes_eq_refl p.output in
        let (j, q, found, pos) =
          total-pos (λ q. one (mine q)) s.handled
            (omega (
              arith,
              same mine,
              total-get_elem? (λ q. one (mine q)) requests i r got,
              ap one named,
            )) in
        let (o, named', holds) =
          All-get_elem? (IsWritten can_write minify_via_rpc picture is_input disk s.disk) s.handled
            j q k.written found in
        let same_name : o ≡ p.output =
          same_some o p.output
            (sym named' ∙ names-some p.output q.outputfilename (one-true _ pos)) in
        (p.output, p.named, subst (λ n. s.disk n ≡ some (picture n)) same_name holds)

    over-AllWritten :
        (n : ℕ) (s : Pool)
        → 0 < n
        → Fine s
        → length s.workers ≡ n
        → ((p : Request → Bool) → count p s.handled ≡ count p requests)
        → AllWritten (join_loop 0 none (map code_of s.workers)).1 s
    over-AllWritten n s pos k size same = (
      ap (λ r. r.1) (join_loop_lem 0 none (map code_of s.workers))
          ∙ first_zero s.workers (omega (arith, size))
              (All-map _ _ s.workers k.workers λ w fine. fine.1),
      All-positions _ requests (request-IsWritten s k same),
    )

    join-AllWritten :
        (n : ℕ) (r : Process)
        → 0 < n
        → Runs Fine r
        → OnRunning (λ s. length s.workers ≡ n) r
        → ((p : Request → Bool)
            → OnRunning
                (λ s. active s ≡ 0 → (s.queue ≡ []) × (count p s.handled ≡ count p requests))
                r)
        → Completes AllWritten (join r)
    join-AllWritten n (running s) pos k size handled = elim (Bool-cases (active s == 0)) [
      | inl over ↦
          rw over (over-AllWritten n s pos k size λ p. (handled p ((==_iff (active s) 0).0 over)).1)
      | inr going ↦ rw going tt
    ]
    join-AllWritten n (exited status) pos k size handled = absurd k
    join-AllWritten n undefined pos k size handled = absurd k

    pub run-AllWritten :
        (schedule : List ℕ) (n : ℕ)
        → 0 < n
        → Completes AllWritten
            (join (run can_write minify_via_rpc schedule (start n requests disk)))
    unfolding start
    run-AllWritten schedule n pos =
        join-AllWritten n (run can_write minify_via_rpc schedule (start n requests disk)) pos
          (run-Kept can_write minify_via_rpc picture is_input disk schedule (start n requests disk)
            (start-Kept can_write minify_via_rpc picture is_input disk n requests planned))
          (run-OnRunning can_write minify_via_rpc (λ s. length s.workers ≡ n) schedule
            (start n requests disk) (length-new_workers n) (Moves-length n))
          (λ p. run-handled can_write minify_via_rpc schedule n requests disk p pos)

    -- Let the options be accepted with a number of threads that is at least 1, the workload be read, and
    -- every thread get its client. Let each request of the workload be such that its input is there and
    -- the call gives the picture for its output, which is no input and can be written. Then, however the
    -- threads take turns, the program does not exit before its end and is not undefined, and where it ends
    -- behind its last join its status is 0 and every output holds its picture.
    pub main-AllWritten :
        (connects : ℕ → Bool) (schedule : List ℕ) (os : List MinifyOption)
        (words : Bytes → Option (List Bytes)) (c : Config)
        → options os defaults ≡ ready c
        → 0 < threads_of c.nthreads
        → load_requests (words c.workload) ≡ ready requests
        → connect_all connects (threads_of c.nthreads) 0 ≡ true
        → Completes AllWritten (main can_write minify_via_rpc connects schedule disk os words)
    unfolding main
    main-AllWritten connects schedule os words c accepted pos read connected =
        rw (accepted, read, connected) (run-AllWritten schedule (threads_of c.nthreads) pos)
