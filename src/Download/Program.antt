-- ===== src/Download/Program.antt =====
-- `main` of gflib/gfclient_download.c and mtgf/gfclient_download.c. The client library is a parameter
-- here: mtgf has it only as an object file.
use intro_to_os.Base.{
  ℕ, ◌*◌, ◌%◌, ◌^◌, zero, suc, [], ◌∷◌, List, Option, none, some, length, ltb, if◌then◌else◌, Bool,
  true, false,
}
use intro_to_os.Text.{Bytes, codes}
use intro_to_os.Text.Decimal.{atoi}
use intro_to_os.Launch.{Started, ready}
use intro_to_os.GfServer.{Status, ok, file_not_found, error, invalid}
use intro_to_os.Download.Workload.{
  workload_init, workload_get_path, Loaded, loaded, failure, overflow,
}
use intro_to_os.Download.Names.{Variant, sequential, multithreaded, local_path}
use intro_to_os.Download.Files.{Disk, Access, open_file, unlink, write}

-- What `gfc_perform` does for one request: the bytes that it gives to `writecb`, whether its result is
-- below 0, and the status of the request.
pub record Performed : Type 0 where
  pub text : Bytes
  pub failed : Bool
  pub status : Status

abbrev pub is_ok : Status → Bool
is_ok ok = true
is_ok file_not_found = false
is_ok error = false
is_ok invalid = false

-- The two tests behind `gfc_perform`, each of which removes the file.
unfoldable pub clean_up : (name : Bytes) → Performed → Disk → Disk
clean_up name p disk =
    let closed = if p.failed then unlink name disk else disk in
    if is_ok p.status then closed else unlink name closed

-- How the loop ends: the files, the end of the program, or undefined behaviour.
pub data Downloaded : Type 0 where
  finished : Disk → Downloaded
  ended : ℕ → Disk → Downloaded
  undefined : Downloaded

-- One request in front of the rest: the path, its name, the stream, the request.
abbrev pub with_stream :
    (opens : Bool) → (name : Bytes) → Performed → Disk → (next : Disk → Downloaded) → Downloaded
with_stream true name p disk next = next (clean_up name p (write name p.text disk))
with_stream false name p disk next = ended 1 disk

abbrev pub with_name :
    Access → Option Bytes → Performed → Disk → (next : Disk → Downloaded) → Downloaded
with_name access none p disk next = undefined
with_name access (some name) p disk next = with_stream (open_file access name) name p disk next

unfoldable pub request :
    Variant
    → Access
    → (path : Option Bytes) → (counter : ℕ) → (perform : ℕ → Bytes → Performed) → Disk
    → (next : Disk → Downloaded) → Downloaded
unfolding local_path open_file
request v access none counter perform disk next = undefined
request v access (some req_path) counter perform disk next =
    if ltb v.longest (length req_path)
    then ended 1 disk
    else with_name access (local_path v req_path counter) (perform counter req_path) disk next

-- The loop, with `n` requests left. The counters of `workload_get_path` and of `localPath` both count
-- the rounds.
unfoldable pub request_loop :
    Variant
    → Access
    → List Bytes
    → (perform : ℕ → Bytes → Performed) → (n counter : ℕ) → Disk
    → Downloaded
unfolding request workload_get_path
request_loop v access paths perform zero counter disk = finished disk
request_loop v access paths perform (suc n) counter disk =
    let (path, next) = workload_get_path paths counter in
    request v access path counter perform disk (request_loop v access paths perform n next)

-- What `getopt_long` returns, with `optarg`. `-t` is only an option of mtgf; `-l` there is `-w`. `-x` is
-- accepted and then falls to the default case.
pub data DownloadOption : Type 0 where
  nrequests port server workload_path nthreads : Bytes → DownloadOption
  help other : DownloadOption

pub record Config : Type 0 where
  pub server : Bytes
  pub port : ℕ
  pub workload_path : Bytes
  pub nrequests : ℕ
  pub nthreads : ℕ

abbrev pub defaults : (nthreads : ℕ) → Config
defaults n = record {
  server = codes "localhost";
  port = 6200;
  workload_path = codes "workload.txt";
  nrequests = 4;
  nthreads = n;
}

unfoldable pub options : (has_threads : Bool) → List DownloadOption → Config → Started Config
options b [] c = ready c
options b (DownloadOption.nrequests text ∷ os) c = options b os (record c { nrequests = atoi text })
options b (DownloadOption.port text ∷ os) c = options b os (record c { port = atoi text % 2 ^ 16 })
options b (DownloadOption.server text ∷ os) c = options b os (record c { server = text })
options b (DownloadOption.workload_path text ∷ os) c =
    options b os (record c { workload_path = text })
options true (DownloadOption.nthreads text ∷ os) c =
    options true os (record c { nthreads = atoi text })
options false (DownloadOption.nthreads text ∷ os) c = Started.exited 1
options b (DownloadOption.help ∷ os) c = Started.exited 0
options b (DownloadOption.other ∷ os) c = Started.exited 1

-- The rounds of `i < nrequests * nthreads`, the product of two `int` with these patterns: none if it is
-- below 0; a product out of range wraps around here, as compilers do it.
unfoldable pub rounds : Config → ℕ
rounds c =
    let product = c.nrequests * c.nthreads % 2 ^ 32 in if ltb product (2 ^ 31) then product else 0

abbrev pub with_workload :
    Variant → Access → Loaded → (perform : ℕ → Bytes → Performed) → (n : ℕ) → Disk → Downloaded
with_workload v access failure perform n disk = ended 1 disk
with_workload v access overflow perform n disk = undefined
with_workload v access (loaded paths) perform n disk = request_loop v access paths perform n 0 disk

abbrev pub with_config :
    Variant
    → Access
    → Started Config
    → (words : Bytes → Option (List Bytes)) → (perform : Config → ℕ → Bytes → Performed) → Disk
    → Downloaded
with_config v access (ready c) words perform disk =
    with_workload v access (workload_init (words c.workload_path)) (perform c) (rounds c) disk
with_config v access (Started.exited code) words perform disk = ended code disk
with_config v access Started.overflow words perform disk = undefined

-- `main` of gflib, and that of mtgf. `words` is what `fscanf` reads from a file.
unfoldable pub main_sequential :
    List DownloadOption
    → Access
    → (words : Bytes → Option (List Bytes)) → (perform : Config → ℕ → Bytes → Performed) → Disk
    → Downloaded
unfolding options workload_init rounds request_loop
main_sequential os access words perform disk =
    with_config sequential access (options false os (defaults 1)) words perform disk

unfoldable pub main_multithreaded :
    List DownloadOption
    → Access
    → (words : Bytes → Option (List Bytes)) → (perform : Config → ℕ → Bytes → Performed) → Disk
    → Downloaded
unfolding options workload_init rounds request_loop
main_multithreaded os access words perform disk =
    with_config multithreaded access (options true os (defaults 4)) words perform disk
