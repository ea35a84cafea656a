-- ===== src/Minify/Lock.antt =====
-- The mutex of rpc_mt/minifyjpeg_main.c: exclusion, and progress of the workers.
use intro_to_os.Base.{
  lt-get_elem?, ℕ, zero, suc, ◌+◌, ◌*◌, ◌≡◌, ◌<◌, ◌≤◌, ◌⊎◌, inl, inr, Bool, true, false, refl, sym,
  ◌∙◌, ap, [], ◌∷◌, List, some, get_elem?, length, arith, Bool-cases, trichotomy,
}
use intro_to_os.Text.{Bytes}
use intro_to_os.Minify.Worker.{
  Request, Phase, waiting, testing, returned, working, Worker, worker, Disk, Pool, Process, running,
  exited, undefined, and_then, step_of, step, run,
}
use intro_to_os.Minify.Main.{start, new_workers}
use intro_to_os.Base.{total, total-set_elem, total-pos}
use intro_to_os.Minify.Laws.{
  Effect, acquires, takes, leaves, finishes, Moves, Steps, Blocked, OnRunning, run-OnRunning,
  step_of-Steps,
}
use intro_to_os.Minify.Once.{is_active, active}

abbrev pub at_test : Phase → ℕ
at_test testing = 1
at_test waiting = 0
at_test returned = 0
at_test (working r) = 0

abbrev pub holders : Bool → ℕ
holders true = 1
holders false = 0

-- One worker stands between lock and unlock if the mutex is taken, and none otherwise.
abbrev pub IsExclusive : Pool → Type 0
IsExclusive s = total (λ w. at_test w.phase) s.workers ≡ holders s.locked

holders-le : (b : Bool) → holders b ≤ 1
holders-le true = omega arith
holders-le false = omega arith

-- A step keeps the balance of the mutex or gives it back.
Effect-holders :
    (s s' : Pool) (from to : Phase)
    → Effect s s' from to
    → (holders s'.locked + at_test from ≡ holders s.locked + at_test to)
      ⊎ (((at_test from ≡ 1) × (at_test to ≡ 0)) × (holders s'.locked ≡ 0))
Effect-holders s s' _ _ (acquires free taken queue handled) =
    inl (omega (arith, ap holders free, ap holders taken))
Effect-holders s s' _ _ (takes r rs before free queue handled) = inr ((refl, refl), ap holders free)
Effect-holders s s' _ _ (leaves before free queue handled) = inr ((refl, refl), ap holders free)
Effect-holders s s' _ _ (finishes r lock queue handled) = inl (omega (arith, ap holders lock))

pub Moves-IsExclusive : (s s' : Pool) → IsExclusive s → Moves s s' → IsExclusive s'
Moves-IsExclusive s s' h m =
    let weight = λ (w : Worker). at_test w.phase in
    let put = ap (total weight) m.put in
    let changed =
      total-set_elem weight m.index (worker m.from m.code) (worker m.to m.code') s.workers m.got in
    elim (Effect-holders s s' m.from m.to m.effect) [
      | inl balance ↦ omega (arith, h, put, changed, balance)
      | inr (moved, free) ↦
          omega (arith, h, put, changed, moved.0, moved.1, free, holders-le s.locked)
    ]

no_one_tests : (n : ℕ) → total (λ w. at_test w.phase) (new_workers n) ≡ 0
unfolding new_workers
no_one_tests zero = refl
no_one_tests (suc n) = omega (arith, no_one_tests n)

pub start-IsExclusive :
    (n : ℕ) (requests : List Request) (disk : Disk) → IsExclusive (start n requests disk)
unfolding start
start-IsExclusive n requests disk = no_one_tests n

-- The queue is tested and popped by one worker at a time: whatever the schedule, the mutex is taken
-- exactly when a worker stands between lock and unlock, and then only one does.
pub run-IsExclusive :
    (can_write : Bytes → Bool) (minify_via_rpc : Bytes → ℕ × Bytes) (schedule : List ℕ) (n : ℕ)
    (requests : List Request) (disk : Disk)
    → OnRunning IsExclusive (run can_write minify_via_rpc schedule (start n requests disk))
run-IsExclusive can_write minify_via_rpc schedule n requests disk =
    run-OnRunning can_write minify_via_rpc IsExclusive schedule (start n requests disk)
      (start-IsExclusive n requests disk) Moves-IsExclusive

-- The steps that a worker in this phase still takes without new requests.
abbrev pub effort : Phase → ℕ
effort waiting = 2
effort testing = 1
effort (working r) = 3
effort returned = 0

abbrev pub measure : Pool → ℕ
measure s = 3 * length s.queue + total (λ w. effort w.phase) s.workers

Effect-measure :
    (s s' : Pool) (from to : Phase)
    → Effect s s' from to
    → 3 * length s'.queue + effort to < 3 * length s.queue + effort from
Effect-measure s s' _ _ (acquires free taken queue handled) = omega (arith, ap length queue)
Effect-measure s s' _ _ (takes r rs before free queue handled) =
    omega (arith, ap length before, ap length queue)
Effect-measure s s' _ _ (leaves before free queue handled) = omega (arith, ap length queue)
Effect-measure s s' _ _ (finishes r lock queue handled) = omega (arith, ap length queue)

pub Moves-measure : (s s' : Pool) → Moves s s' → measure s' < measure s
Moves-measure s s' m =
    let weight = λ (w : Worker). effort w.phase in
    omega (
      arith,
      Effect-measure s s' m.from m.to m.effect,
      ap (total weight) m.put,
      total-set_elem weight m.index (worker m.from m.code) (worker m.to m.code') s.workers m.got,
    )

-- A step after which less is left to do, and the mutex is as it should be.
abbrev pub Advanced : Pool → Pool → Type 0
Advanced s s' = (measure s' < measure s) × IsExclusive s'

Steps-Advanced :
    (s : Pool) (phase : Phase) (r : Process)
    → IsExclusive s
    → (Blocked s phase → ⊥)
    → OnRunning (Steps s phase) r
    → OnRunning (Advanced s) r
Steps-Advanced s phase (running s') h free (inl m) =
    (Moves-measure s s' m, Moves-IsExclusive s s' h m)
Steps-Advanced s phase (running s') h free (inr (e, blocked)) = absurd (free blocked)
Steps-Advanced s phase (exited code) h free steps = tt
Steps-Advanced s phase undefined h free steps = tt

free-at_test : (s : Pool) (phase : Phase) → 0 < at_test phase → Blocked s phase → ⊥
free-at_test s testing pos blocked = blocked
free-at_test s waiting pos blocked = absurd (omega arith)
free-at_test s returned pos blocked = absurd (omega arith)
free-at_test s (working r) pos blocked = absurd (omega arith)

true-ne_false : true ≡ false → ⊥
true-ne_false e = cc

free-is_active :
    (s : Pool) (phase : Phase) → s.locked ≡ false → 0 < is_active phase → Blocked s phase → ⊥
free-is_active s testing unlocked pos blocked = blocked
free-is_active s waiting unlocked pos blocked = true-ne_false (sym blocked ∙ unlocked)
free-is_active s returned unlocked pos blocked = absurd (omega arith)
free-is_active s (working r) unlocked pos blocked = blocked

module _ (can_write : Bytes → Bool) (minify_via_rpc : Bytes → ℕ × Bytes) where
  advance :
      (s : Pool) (i : ℕ) (w : Worker)
      → IsExclusive s
      → get_elem? s.workers i ≡ some w
      → (Blocked s w.phase → ⊥)
      → OnRunning (Advanced s) (step can_write minify_via_rpc i s)
  unfolding step
  advance s i w h got free =
      rw (got, step)
        (Steps-Advanced s w.phase (step_of can_write minify_via_rpc i w.phase w.code s) h free
          (step_of-Steps can_write minify_via_rpc i w.code s w.phase got))

  -- The workers never block each other for good: while the mutex is as it should be and not all
  -- workers have returned, there is a worker whose step leaves less to do.
  pub step-Advanced :
      (s : Pool)
      → IsExclusive s
      → 0 < active s
      → (i : ℕ) × (i < length s.workers)
        × OnRunning (Advanced s) (step can_write minify_via_rpc i s)
  step-Advanced s h some_left = elim (Bool-cases s.locked) [
    | inl taken ↦
        let (i, w, got, pos) =
          total-pos (λ (w : Worker). at_test w.phase) s.workers
            (omega (arith, h, ap holders taken)) in
        (i, lt-get_elem? s.workers i w got, advance s i w h got (free-at_test s w.phase pos))
    | inr unlocked ↦
        let (i, w, got, pos) = total-pos (λ (w : Worker). is_active w.phase) s.workers some_left in
        (
          i,
          lt-get_elem? s.workers i w got,
          advance s i w h got (free-is_active s w.phase unlocked pos),
        )
  ]

  -- A schedule from here on after which all workers have returned, or the process has ended.
  abbrev pub Ends : Pool → Type 0
  Ends s =
      (schedule : List ℕ) × OnRunning (λ s'. active s' ≡ 0)
        (run can_write minify_via_rpc schedule s)

  Ends-and_then :
      (s : Pool) (r : Process)
      → OnRunning (Advanced s) r
      → ((s' : Pool) → Advanced s s' → Ends s')
      → (schedule : List ℕ) × OnRunning
          (λ s'. active s' ≡ 0)
          (and_then r (run can_write minify_via_rpc schedule))
  Ends-and_then s (running s') a next = next s' a
  Ends-and_then s (exited code) a next = ([], tt)
  Ends-and_then s undefined a next = ([], tt)

  Ends-measure : (fuel : ℕ) (s : Pool) → measure s < fuel → IsExclusive s → Ends s
  unfolding run
  Ends-measure zero s small h = absurd (omega arith)
  Ends-measure (suc fuel) s small h = elim (trichotomy 0 (active s)) [
    | inl some_left ↦
        let (i, small_index, a) = step-Advanced s h some_left in
        let (schedule, e) =
          Ends-and_then s (step can_write minify_via_rpc i s) a
            λ s' b. Ends-measure fuel s' (omega (arith, b.0)) b.1 in
        (i ∷ schedule, e)
    | inr none_left ↦ ([], grind arith)
  ]

  -- From every pool whose mutex is as it should be, some schedule lets all workers return or ends
  -- the process: the workers cannot get stuck.
  run-Ends : (s : Pool) → IsExclusive s → Ends s
  run-Ends s h = Ends-measure (measure s + 1) s (omega arith) h
