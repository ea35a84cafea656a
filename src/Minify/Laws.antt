-- ===== src/Minify/Laws.antt =====
-- The steps of the workers of rpc_mt/minifyjpeg_main.c as a relation, and what every schedule keeps.
use intro_to_os.Base.{
  set_elem, ℕ, ◌≡◌, ◌⊎◌, inl, inr, Bool, true, false, refl, sym, [], ◌∷◌, List, Option, none, some,
  ◌==◌, get_elem?,
}
use mathlib.Core.Path.{subst}
use intro_to_os.Text.{Bytes}
use intro_to_os.Minify.Worker.{
  Request, Phase, waiting, testing, returned, working, Worker, worker, Pool, Process, running,
  exited, undefined, store, work, lock, test_queue, step_of, step, and_then, run,
}

-- What a step does besides moving one worker from a phase to another.
pub data Effect (s s' : Pool) : Phase → Phase → Type 0 where
  acquires :
      s.locked ≡ false
      → s'.locked ≡ true
      → s'.queue ≡ s.queue
      → s'.handled ≡ s.handled
      → Effect s s' waiting testing
  takes :
      (r : Request) (rs : List Request)
      → s.queue ≡ r ∷ rs
      → s'.locked ≡ false
      → s'.queue ≡ rs
      → s'.handled ≡ s.handled
      → Effect s s' testing (working r)
  leaves :
      s.queue ≡ []
      → s'.locked ≡ false
      → s'.queue ≡ s.queue
      → s'.handled ≡ s.handled
      → Effect s s' testing returned
  finishes :
      (r : Request)
      → s'.locked ≡ s.locked
      → s'.queue ≡ s.queue
      → s'.handled ≡ r ∷ s.handled
      → Effect s s' (working r) waiting

abbrev pub is_working : Phase → Bool
is_working waiting = false
is_working testing = false
is_working returned = false
is_working (working r) = true

pub record Moves (s s' : Pool) : Type 0 where
  pub index : ℕ
  pub from : Phase
  pub to : Phase
  pub code : ℕ
  pub code' : ℕ
  pub got : get_elem? s.workers index ≡ some (worker from code)
  pub put : s'.workers ≡ set_elem index (worker to code') s.workers
  pub kept : is_working from ≡ false → code' ≡ code
  pub effect : Effect s s' from to

-- Why a worker in this phase may stay.
abbrev pub Blocked : Pool → Phase → Type 0
Blocked s waiting = s.locked ≡ true
Blocked s testing = ⊥
Blocked s returned = Unit
Blocked s (working r) = ⊥

abbrev pub OnRunning : (Pool → Type 0) → Process → Type 0
OnRunning P (running s) = P s
OnRunning P (exited code) = Unit
OnRunning P undefined = Unit

abbrev pub Steps : Pool → Phase → Pool → Type 0
Steps s phase s' = Moves s s' ⊎ ((s' ≡ s) × Blocked s phase)

OnRunning-map :
    (s : Pool) (phase : Phase) (P : Pool → Type 0) (r : Process)
    → OnRunning (Steps s phase) r
    → P s
    → ((s' : Pool) → Moves s s' → P s')
    → OnRunning P r
OnRunning-map s phase P (running s') (inl m) p k = k s' m
OnRunning-map s phase P (running s') (inr (e, blocked)) p k = subst P (sym e) p
OnRunning-map s phase P (exited code) h p k = tt
OnRunning-map s phase P undefined h p k = tt

pub OnRunning-and_then :
    (P : Pool → Type 0) (r : Process) (k : Pool → Process)
    → OnRunning P r
    → ((s : Pool) → P s → OnRunning P (k s))
    → OnRunning P (and_then r k)
OnRunning-and_then P (running s) k h next = next s h
OnRunning-and_then P (exited code) k h next = tt
OnRunning-and_then P undefined k h next = tt

module _ (can_write : Bytes → Bool) (minify_via_rpc : Bytes → ℕ × Bytes) (i code : ℕ)
    (s : Pool) where
  lock-Steps :
      (b : Bool)
      → s.locked ≡ b
      → get_elem? s.workers i ≡ some (worker waiting code)
      → OnRunning (Steps s waiting) (lock can_write minify_via_rpc i code b s)
  unfolding lock
  lock-Steps true e got = inr (refl, e)
  lock-Steps false e got = inl (record {
    index = i;
    from = waiting;
    to = testing;
    code = code;
    code' = code;
    got = got;
    put = refl;
    kept = λ e. refl;
    effect = acquires e refl refl refl;
  })

  test_queue-Steps :
      (queue : List Request)
      → s.queue ≡ queue
      → get_elem? s.workers i ≡ some (worker testing code)
      → OnRunning (Steps s testing) (test_queue can_write minify_via_rpc i code queue s)
  unfolding test_queue
  test_queue-Steps [] e got = inl (record {
    index = i;
    from = testing;
    to = returned;
    code = code;
    code' = code;
    got = got;
    put = refl;
    kept = λ e. refl;
    effect = leaves e refl refl refl;
  })
  test_queue-Steps (r ∷ queue) e got = inl (record {
    index = i;
    from = testing;
    to = working r;
    code = code;
    code' = code;
    got = got;
    put = refl;
    kept = λ e. refl;
    effect = takes r queue e refl refl refl;
  })

  store-Steps :
      (r : Request) (success : Bool) (code' : ℕ) (name : Option Bytes) (dst : Bytes)
      → get_elem? s.workers i ≡ some (worker (working r) code)
      → OnRunning
          (Steps s (working r))
          (store can_write minify_via_rpc i r success code' name dst s)
  unfolding store
  store-Steps r true code' none dst got = tt
  store-Steps r true code' (some name) dst got = inl (record {
    index = i;
    from = working r;
    to = waiting;
    code = code;
    code' = code';
    got = got;
    put = refl;
    kept = λ e. cc;
    effect = finishes r refl refl refl;
  })
  store-Steps r false code' name dst got = inl (record {
    index = i;
    from = working r;
    to = waiting;
    code = code;
    code' = code';
    got = got;
    put = refl;
    kept = λ e. cc;
    effect = finishes r refl refl refl;
  })

  work-Steps :
      (r : Request) (src : Option Bytes)
      → get_elem? s.workers i ≡ some (worker (working r) code)
      → OnRunning (Steps s (working r)) (work can_write minify_via_rpc i r src s)
  unfolding work
  work-Steps r none got = tt
  work-Steps r (some src) got =
      store-Steps r ((minify_via_rpc src).0 == 0) (minify_via_rpc src).0 r.outputfilename
        (minify_via_rpc src).1 got

  pub step_of-Steps :
      (phase : Phase)
      → get_elem? s.workers i ≡ some (worker phase code)
      → OnRunning (Steps s phase) (step_of can_write minify_via_rpc i phase code s)
  unfolding step_of
  step_of-Steps waiting got = lock-Steps s.locked refl got
  step_of-Steps testing got = test_queue-Steps s.queue refl got
  step_of-Steps (working r) got = work-Steps r (s.disk r.inputfilename) got
  step_of-Steps returned got = inr (refl, tt)

module _ (can_write : Bytes → Bool) (minify_via_rpc : Bytes → ℕ × Bytes) where
  step-OnRunning :
      (P : Pool → Type 0) (i : ℕ) (s : Pool) (w : Option Worker)
      → get_elem? s.workers i ≡ w
      → P s
      → ((s' : Pool) → Moves s s' → P s')
      → OnRunning P (step can_write minify_via_rpc i s)
  unfolding step
  step-OnRunning P i s none e p k = rw (e, step) p
  step-OnRunning P i s (some w) e p k =
      rw (e, step)
        (OnRunning-map s w.phase P (step_of can_write minify_via_rpc i w.phase w.code s)
          (step_of-Steps can_write minify_via_rpc i w.code s w.phase e) p k)

  -- What holds at first and is kept by every step holds after every schedule.
  pub run-OnRunning :
      (P : Pool → Type 0) (schedule : List ℕ) (s : Pool)
      → P s
      → ((s s' : Pool) → P s → Moves s s' → P s')
      → OnRunning P (run can_write minify_via_rpc schedule s)
  unfolding run
  run-OnRunning P [] s p k = p
  run-OnRunning P (i ∷ schedule) s p k =
      OnRunning-and_then P (step can_write minify_via_rpc i s)
        (run can_write minify_via_rpc schedule)
        (step-OnRunning P i s (get_elem? s.workers i) refl p λ s' m. k s s' p m)
        λ s' p'. run-OnRunning P schedule s' p' k
