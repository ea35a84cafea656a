-- ===== src/Minify/Main.antt =====
-- `load_requests` and `main` of rpc_mt/minifyjpeg_main.c: the queue before the threads start, and the
-- loop that joins them.
use intro_to_os.Base.{
  ℕ, zero, suc, ◌+◌, false, [], ◌∷◌, List, Option, none, some, ◌==◌, if◌then◌else◌, ltb, length,
}
use intro_to_os.Text.{Bytes, codes}
use intro_to_os.Text.Decimal.{atoi}
use intro_to_os.Launch.{Started, ready}
use intro_to_os.Minify.Worker.{Request, Worker, worker, waiting, Pool, Disk}

-- How the reading of the workload ends; the names have room for 255 bytes.
pub data Loaded : Type 0 where
  loaded : List Request → Loaded
  overflow : Loaded

abbrev pub add_request : Request → Loaded → Loaded
add_request request (loaded requests) = loaded (request ∷ requests)
add_request request overflow = overflow

abbrev pub name_room : ℕ
name_room = 256

-- The loop over `fscanf(…, "%s %s", …)` on the words of the workload. A last word alone is still
-- a request, since `fscanf` returns 1 and not EOF.
unfoldable pub load_loop : List Bytes → Loaded
load_loop [] = loaded []
load_loop (input ∷ []) =
    if ltb (length input) name_room
    then loaded (record { inputfilename = input; outputfilename = none } ∷ [])
    else overflow
load_loop (input ∷ output ∷ words) =
    let rest = load_loop words in
    if ltb (length input) name_room
    then if ltb (length output) name_room
      then add_request (record { inputfilename = input; outputfilename = some output }) rest
      else overflow
    else overflow

-- The workers that are created and what they start with.
unfoldable pub new_workers : (nthreads : ℕ) → List Worker
new_workers zero = []
new_workers (suc n) = worker waiting 0 ∷ new_workers n

unfoldable pub start : (nthreads : ℕ) → List Request → Disk → Pool
unfolding new_workers
start nthreads requests disk = record {
  locked = false;
  queue = requests;
  workers = new_workers nthreads;
  disk = disk;
  handled = [];
}

-- The inner loop, which joins the threads from `i` on and ignores what they return.
unfoldable pub drain : (i : ℕ) → List ℕ → List ℕ
drain i [] = []
drain i (c ∷ codes) = i ∷ drain (i + 1) codes

-- The join loop from `i` on, over what the threads from there return: the threads that it joins, in
-- order, and `code`, which is not assigned before the first one.
unfoldable pub join_loop : (i : ℕ) → (code : Option ℕ) → List ℕ → List ℕ × Option ℕ
unfolding drain
join_loop i code [] = ([], code)
join_loop i code (c ∷ codes) =
    let (joined, last) = join_loop (i + 1) (some c) codes in
    if c == 0 then (i ∷ joined, last) else (i ∷ drain (i + 1) codes, some c)

pub data MinifyOption : Type 0 where
  server workload nthreads : Bytes → MinifyOption
  help other : MinifyOption

pub record Config : Type 0 where
  pub server : Bytes
  pub workload : Bytes
  pub nthreads : ℕ

abbrev pub defaults : Config
defaults = record { server = codes "localhost"; workload = codes "workload.txt"; nthreads = 1 }

unfoldable pub options : List MinifyOption → Config → Started Config
options [] c = ready c
options (MinifyOption.server text ∷ os) c = options os (record c { server = text })
options (MinifyOption.workload text ∷ os) c = options os (record c { workload = text })
options (MinifyOption.nthreads text ∷ os) c = options os (record c { nthreads = atoi text })
options (MinifyOption.help ∷ os) c = Started.exited 0
options (MinifyOption.other ∷ os) c = Started.exited 1
