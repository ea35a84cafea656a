-- ===== src/Minify/Worker.antt =====
-- The worker threads of rpc_mt/minifyjpeg_main.c: `worker_main` in steps, one thread at a time, with
-- `minify_via_rpc` as a parameter.
use intro_to_os.Base.{
  set_elem, ℕ, Bool, true, false, [], ◌∷◌, List, Option, none, some, ◌==◌, if◌then◌else◌, get_elem?,
}
use intro_to_os.Text.{Bytes}
use intro_to_os.Text.Compare.{bytes_eq}

-- request_t; the output name is `none` if `fscanf` read only one word.
pub record Request : Type 0 where
  pub inputfilename : Bytes
  pub outputfilename : Option Bytes

-- Where a worker stands: at `pthread_mutex_lock`, at the test of the loop with the mutex held, at
-- work on a request without it, or behind its `return`.
pub data Phase : Type 0 where
  waiting testing returned : Phase
  working : Request → Phase

-- `code` is what `*code` holds; `calloc` sets it to 0.
pub record Worker : Type 0 where
  pub phase : Phase
  pub code : ℕ

abbrev pub worker : Phase → ℕ → Worker
worker p c = record { phase = p; code = c }

abbrev pub Disk : Type 0
Disk = Bytes → Option Bytes

-- The shared state: the mutex, the queue, the workers, the files, and the requests that were worked
-- on so far, a history that the code does not keep.
pub record Pool : Type 0 where
  pub locked : Bool
  pub queue : List Request
  pub workers : List Worker
  pub disk : Disk
  pub handled : List Request

-- The process goes on, exits, or reads an output name that was never assigned.
pub data Process : Type 0 where
  running : Pool → Process
  exited : ℕ → Process
  undefined : Process

-- `fopen(filename, "w")` and `fwrite`; if the file does not open nothing is written, and the result
-- is ignored.
abbrev pub write_to_file : (can_write : Bytes → Bool) → Bytes → Bytes → Disk → Disk
write_to_file can_write name bytes disk = λ other.
    if can_write name then (if bytes_eq other name then some bytes else disk other) else disk other

abbrev pub and_then : Process → (Pool → Process) → Process
and_then (running s) k = k s
and_then (exited code) k = exited code
and_then undefined k = undefined

module _ (can_write : Bytes → Bool) (minify_via_rpc : Bytes → ℕ × Bytes) where
  -- What follows the call of `minify_via_rpc`: `success` is whether it returned 0.
  unfoldable pub store :
      ℕ
      → Request
      → (success : Bool) → (code : ℕ) → (name : Option Bytes) → (dst : Bytes) → Pool
      → Process
  store i request true code none dst s = undefined
  store i request true code (some name) dst s = running (record s {
    workers = set_elem i (worker waiting code) s.workers;
    disk = write_to_file can_write name dst s.disk;
    handled = request ∷ s.handled;
  })
  store i request false code name dst s = running (record s {
    workers = set_elem i (worker waiting code) s.workers;
    handled = request ∷ s.handled;
  })

  -- The work on a request, whose file `read_from_file` reads or exits.
  unfoldable pub work : ℕ → Request → (src : Option Bytes) → Pool → Process
  unfolding store
  work i request none s = exited 1
  work i request (some src) s =
      let (code, dst) = minify_via_rpc src in
      store i request (code == 0) code request.outputfilename dst s

  -- `pthread_mutex_lock`: at a taken mutex the worker stays.
  unfoldable pub lock : ℕ → (code : ℕ) → (locked : Bool) → Pool → Process
  lock i code true s = running s
  lock i code false s =
      running (record s { locked = true; workers = set_elem i (worker testing code) s.workers })

  -- `while(!steque_isempty(&queue))` with the mutex held: it is given back in both branches.
  unfoldable pub test_queue : ℕ → (code : ℕ) → (queue : List Request) → Pool → Process
  test_queue i code [] s =
      running (record s { locked = false; workers = set_elem i (worker returned code) s.workers })
  test_queue i code (request ∷ queue) s = running (record s {
    locked = false;
    queue = queue;
    workers = set_elem i (worker (working request) code) s.workers;
  })

  -- One step of the worker `i`, which stands in this phase.
  unfoldable pub step_of : ℕ → Phase → ℕ → Pool → Process
  unfolding work lock test_queue
  step_of i waiting code s = lock i code s.locked s
  step_of i testing code s = test_queue i code s.queue s
  step_of i (working request) code s = work i request (s.disk request.inputfilename) s
  step_of i returned code s = running s

  unfoldable pub step : ℕ → Pool → Process
  unfolding step_of
  step i s = elim (get_elem? s.workers i) [ none ↦ running s | some w ↦ step_of i w.phase w.code s ]

  -- The workers take their steps in the order of a schedule.
  unfoldable pub run : List ℕ → Pool → Process
  unfolding step
  run [] s = running s
  run (i ∷ schedule) s = and_then (step i s) (run schedule)
