-- ===== src/Minify/Unset.antt =====
-- gios-spr-2018-pr4-master/minifyjpeg_main.c, which is the program of rpc_mt but for one allocation: a
-- worker returns a cell from `malloc` in place of `calloc`.
use intro_to_os.Base.{
  ℕ, zero, suc, ◌+◌, ◌≡◌, inl, inr, Bool, true, false, refl, ◌∙◌, ap, [], ◌∷◌, List, Option, none,
  some, ◌==◌, map, arith, Bool-cases, ◌<◌,
}
use intro_to_os.Base.{total}
use mathlib.Core.Path.{subst}
use intro_to_os.Text.{Bytes}
use intro_to_os.Launch.{ready}
use intro_to_os.Minify.Worker.{
  Request, waiting, Worker, worker, Disk, Pool, Process, running, exited, undefined, run,
}
use intro_to_os.Minify.Main.{MinifyOption, Config, defaults, options, join_loop, start, new_workers}
use intro_to_os.Minify.Laws.{OnRunning, run-OnRunning, is_working}
use intro_to_os.Minify.Once.{one, active}
use intro_to_os.Minify.Idle.{IsIdle, Moves-IsIdle}
use intro_to_os.Minify.Join.{first_failure, join_loop_lem}
use intro_to_os.Minify.Program.{
  load_requests, connect_all, threads_of, Ended, code_of, join, with_clients, with_config,
  OnFinished, OnFinished-join,
}
use intro_to_os.Minify.Program as Program

-- The workers from `i` on; `left` is what `malloc` leaves in the cell of each.
unfoldable pub unset_workers : (left : ℕ → ℕ) → (nthreads i : ℕ) → List Worker
unset_workers left zero i = []
unset_workers left (suc n) i = worker waiting (left i) ∷ unset_workers left n (i + 1)

unfoldable pub start_unset : (left : ℕ → ℕ) → (nthreads : ℕ) → List Request → Disk → Pool
unfolding unset_workers
start_unset left nthreads requests disk = record {
  locked = false;
  queue = requests;
  workers = unset_workers left nthreads 0;
  disk = disk;
  handled = [];
}

unfoldable pub main :
    (can_write : Bytes → Bool) (minify_via_rpc : Bytes → ℕ × Bytes) (connects : ℕ → Bool)
    (left : ℕ → ℕ) (schedule : List ℕ) (disk : Disk) (os : List MinifyOption)
    (words : Bytes → Option (List Bytes))
    → Ended
unfolding options load_requests connect_all run start_unset join_loop
main can_write minify_via_rpc connects left schedule disk os words =
    with_config can_write minify_via_rpc connects (start_unset left) schedule disk words
      (options os defaults)

-- The cells of `n` workers from `i` on.
abbrev pub cells_from : (left : ℕ → ℕ) → (n i : ℕ) → List ℕ
cells_from left zero i = []
cells_from left (suc n) i = left i ∷ cells_from left n (i + 1)

none_works_first :
    (left : ℕ → ℕ) (n i : ℕ) → total (λ w. one (is_working w.phase)) (unset_workers left n i) ≡ 0
unfolding unset_workers
none_works_first left zero i = refl
none_works_first left (suc n) i = omega (arith, none_works_first left n (i + 1))

codes_first : (left : ℕ → ℕ) (n i : ℕ) → map code_of (unset_workers left n i) ≡ cells_from left n i
unfolding unset_workers
codes_first left zero i = refl
codes_first left (suc n) i = ap (λ cs. left i ∷ cs) (codes_first left n (i + 1))

-- With cells that hold 0, the workers start as those of rpc_mt do.
zero_workers : (n i : ℕ) → unset_workers (λ j. 0) n i ≡ new_workers n
unfolding unset_workers new_workers
zero_workers zero i = refl
zero_workers (suc n) i = ap (λ ws. worker waiting 0 ∷ ws) (zero_workers n (i + 1))

-- What `main` returns of `n` cells.
abbrev pub IsCode : (left : ℕ → ℕ) → ℕ → Option ℕ → Type 0
IsCode left n code = code ≡ first_failure none (cells_from left n 0)

module _ (can_write : Bytes → Bool) (minify_via_rpc : Bytes → ℕ × Bytes) (connects : ℕ → Bool)
    (left : ℕ → ℕ) (schedule : List ℕ) (disk : Disk) where
  join-IsCode :
      (n : ℕ) (r : Process)
      → OnRunning (IsIdle (cells_from left n 0)) r
      → OnFinished (λ code s. IsCode left n code) (join r)
  join-IsCode n (running s) (empty, none_works, same) = elim (Bool-cases (active s == 0)) [
    | inl over ↦ rw over (
        ap (λ r. r.1) (join_loop_lem 0 none (map code_of s.workers)) ∙ ap (first_failure none) same)
    | inr going ↦ rw going tt
  ]
  join-IsCode n (exited status) h = tt
  join-IsCode n undefined h = tt

  with_clients-IsCode :
      (connected : Bool) (n : ℕ)
      → OnFinished
          (λ code s. IsCode left n code)
          (with_clients can_write minify_via_rpc connects
            (start_unset left)
            schedule
            disk
            connected
            n
            [])
  unfolding start_unset
  with_clients-IsCode true n =
      join-IsCode n (run can_write minify_via_rpc schedule (start_unset left n [] disk)) (
        run-OnRunning can_write minify_via_rpc (IsIdle (cells_from left n 0)) schedule
          (start_unset left n [] disk) (refl, none_works_first left n 0, codes_first left n 0)
          (Moves-IsIdle (cells_from left n 0)))
  with_clients-IsCode false n = tt

  main-IsCode :
      (os : List MinifyOption) (words : Bytes → Option (List Bytes)) (c : Config)
      → options os defaults ≡ ready c
      → load_requests (words c.workload) ≡ ready []
      → OnFinished
          (λ code s. IsCode left (threads_of c.nthreads) code)
          (main can_write minify_via_rpc connects left schedule disk os words)
  unfolding main
  main-IsCode os words c accepted read =
      rw (accepted, read)
        (with_clients-IsCode (connect_all connects (threads_of c.nthreads) 0)
          (threads_of c.nthreads))

first_failure-zeros : (n i : ℕ) → first_failure (some 0) (cells_from (λ j. 0) n i) ≡ some 0
first_failure-zeros zero i = refl
first_failure-zeros (suc n) i = first_failure-zeros n (i + 1)

start-zero : start_unset (λ j. 0) ≡ start
unfolding start start_unset
start-zero = λ i n requests disk. record {
  locked = false;
  queue = requests;
  workers = zero_workers n 0 i;
  disk = disk;
  handled = [];
}

-- With cells that hold 0 the program is the one of rpc_mt.
main-zero :
    (can_write : Bytes → Bool) (minify_via_rpc : Bytes → ℕ × Bytes) (connects : ℕ → Bool)
    (schedule : List ℕ) (disk : Disk) (os : List MinifyOption) (words : Bytes → Option (List Bytes))
    → main can_write minify_via_rpc connects (λ j. 0) schedule disk os words
      ≡ Program.main can_write minify_via_rpc connects schedule disk os words
unfolding main Program.main
main-zero can_write minify_via_rpc connects schedule disk os words =
    ap
      (λ begin.
        with_config can_write minify_via_rpc connects begin schedule disk words
          (options os defaults))
      start-zero

OnFinished-map :
    (P Q : Option ℕ → Type 0) (end : Ended)
    → OnFinished (λ code s. P code) end
    → ((code : Option ℕ) → P code → Q code)
    → OnFinished (λ code s. Q code) end
OnFinished-map P Q (Program.finished code s) h k = k code h
OnFinished-map P Q (Program.joining s) h k = tt
OnFinished-map P Q (Program.exited status) h k = tt
OnFinished-map P Q Program.undefined h k = tt

zeros : (n : ℕ) → 0 < n → first_failure none (cells_from (λ j. 0) n 0) ≡ some 0
zeros zero pos = absurd (omega arith)
zeros (suc n) pos = first_failure-zeros n 1

-- Let the workload be empty, and at least one thread be asked for. Whatever `malloc` leaves in the cells
-- of the threads, and however they take turns: if the program of minifyjpeg_main.c ends behind its last
-- join, its status is the first of these numbers that is not 0, or 0 if there is none; if that of rpc_mt
-- does, its status is 0.
pub main-first_failure :
    (can_write : Bytes → Bool) (minify_via_rpc : Bytes → ℕ × Bytes) (connects : ℕ → Bool)
    (left : ℕ → ℕ) (schedule : List ℕ) (disk : Disk) (os : List MinifyOption)
    (words : Bytes → Option (List Bytes)) (c : Config)
    → options os defaults ≡ ready c
    → 0 < threads_of c.nthreads
    → load_requests (words c.workload) ≡ ready []
    → OnFinished
        (λ code s. IsCode left (threads_of c.nthreads) code)
        (main can_write minify_via_rpc connects left schedule disk os words)
      × OnFinished
          (λ code s. code ≡ some 0)
          (Program.main can_write minify_via_rpc connects schedule disk os words)
main-first_failure can_write minify_via_rpc connects left schedule disk os words c accepted pos
      read =
    (
      main-IsCode can_write minify_via_rpc connects left schedule disk os words c accepted read,
      OnFinished-map _ (λ code. code ≡ some 0) _
          (subst (OnFinished (λ code s. IsCode (λ j. 0) (threads_of c.nthreads) code))
            (main-zero can_write minify_via_rpc connects schedule disk os words)
            (main-IsCode can_write minify_via_rpc connects (λ j. 0) schedule disk os words c
              accepted read))
          (λ code e. e ∙ zeros (threads_of c.nthreads) pos),
    )
