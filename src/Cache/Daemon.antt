-- ===== src/Cache/Daemon.antt =====
-- One round of `worker` in cache/simplecached.c: a command in, a reply and the segment out.
use intro_to_os.Base.{
  ℕ, Bool, true, false, [], ◌∷◌, List, Option, none, some, length, ◌==◌, if◌then◌else◌, ltb, ◌||◌,
}
use intro_to_os.Text.{Bytes, codes, padded}
use intro_to_os.Text.Decimal.{atoi}
use intro_to_os.Content.{Entry, Lookup, returned, faulted, simplecache_get}
use intro_to_os.Launch.{Started, ready}
use intro_to_os.Cache.Message.{bufsize, parse_command, not_found, reply}
use intro_to_os.Cache.Chunks.{Copied, copied, read_error, copying, copy_loop, read_count}

-- How a round ends: back to waiting, with the reply it sent and the segment if it wrote one; with the
-- end of the thread, which may hold `response_mutex`; still reading; or with the end of the process.
pub data Round : Type 0 where
  replied : (text : Bytes) → (segment : Option Bytes) → Round
  ended : (text : Option Bytes) → (holding : Bool) → Round
  reading : Round
  exited : ℕ → Round
  crashed : Round

-- CACHE_FAILURE is -1, of which the exit status has the low eight bits.
abbrev pub failure : ℕ
failure = 255

-- `msgsnd`, which may fail.
abbrev pub send_reply : (sends : Bool) → Bytes → Option Bytes → Round
send_reply sends text segment = if sends then replied text segment else exited failure

abbrev pub after_copy : (sends : Bool) → (file_len : ℕ) → Copied → Round
after_copy sends file_len (copied segment) = send_reply sends (reply file_len) (some segment)
after_copy sends file_len (read_error segment) = ended none true
after_copy sends file_len (copying segment) = reading

-- If `shm_open` fails, `mmap` fails too, and the first `memcpy` goes to its failure value.
abbrev pub without_segment : (sends : Bool) → (file : Bytes) → List (Option ℕ) → Round
without_segment sends [] reads = send_reply sends (reply 0) none
without_segment sends (c ∷ file) [] = reading
without_segment sends (c ∷ file) (none ∷ reads) = ended none true
without_segment sends (c ∷ file) (some k ∷ reads) =
    if read_count k bufsize (length (c ∷ file)) == 0 then ended none true else crashed

-- With the file found: `ftruncate` gives the segment its length, and the loop fills it.
unfoldable pub write_segment :
    (sends : Bool) → (file : Bytes) → (segment : Option Bytes) → List (Option ℕ) → Round
unfolding copy_loop padded
write_segment sends file none reads = without_segment sends file reads
write_segment sends file (some segment) reads =
    after_copy sends (length file) (copy_loop bufsize file reads 0 (padded (length file) segment))

-- If `fstat` fails the daemon answers, removes the queue of replies, and the thread ends.
abbrev pub stat_failed : (sends removes : Bool) → Round
stat_failed sends removes =
    if sends
    then (if removes then ended (some not_found) false else exited failure)
    else exited failure

-- `shm_open(NULL)`
abbrev pub with_segment :
    (shm_name : Option Bytes)
    → (segments : Bytes → Option Bytes) → (sends : Bool) → (file : Bytes) → List (Option ℕ)
    → Round
with_segment none segments sends file reads = crashed
with_segment (some shm_name) segments sends file reads =
    write_segment sends file (segments shm_name) reads

-- Behind `fstat`: `none` if it fails.
abbrev pub after_stat :
    Option Bytes
    → (shm_name : Option Bytes) → (segments : Bytes → Option Bytes) → (sends removes : Bool)
    → List (Option ℕ)
    → Round
after_stat none shm_name segments sends removes reads = stat_failed sends removes
after_stat (some file) shm_name segments sends removes reads =
    with_segment shm_name segments sends file reads

-- What `simplecache_get` found; `files` is what `fstat` and `pread` find behind a descriptor.
abbrev pub after_lookup :
    Lookup
    → (files : ℕ → Option Bytes) → (shm_name : Option Bytes) → (segments : Bytes → Option Bytes)
    → (sends removes : Bool) → List (Option ℕ)
    → Round
after_lookup faulted files shm_name segments sends removes reads = crashed
after_lookup (returned none) files shm_name segments sends removes reads =
    send_reply sends not_found none
after_lookup (returned (some cache_fd)) files shm_name segments sends removes reads =
    after_stat (files cache_fd) shm_name segments sends removes reads

-- `simplecache_get(NULL)` compares with NULL unless the table is empty.
unfoldable pub lookup : List Entry → (path_name : Option Bytes) → Lookup
lookup items (some path) = simplecache_get items path
lookup [] none = returned none
lookup (e ∷ items) none = faulted

abbrev pub with_command :
    Option Bytes × Option Bytes
    → List Entry
    → (files : ℕ → Option Bytes) → (segments : Bytes → Option Bytes) → (sends removes : Bool)
    → List (Option ℕ)
    → Round
with_command (path_name, shm_name) items files segments sends removes reads =
    after_lookup (lookup items path_name) files shm_name segments sends removes reads

-- One round: what `msgrcv` gives, `none` for -1.
unfoldable pub worker_round :
    Option Bytes
    → List Entry
    → (files : ℕ → Option Bytes) → (segments : Bytes → Option Bytes) → (sends removes : Bool)
    → List (Option ℕ)
    → Round
unfolding parse_command write_segment lookup
worker_round none items files segments sends removes reads = exited failure
worker_round (some text) items files segments sends removes reads =
    with_command (parse_command text) items files segments sends removes reads

pub data DaemonOption : Type 0 where
  cachedir nthreads : Bytes → DaemonOption
  hidden experimental help other : DaemonOption

pub record Config : Type 0 where
  pub cachedir : Bytes
  pub nthreads : ℕ

abbrev pub defaults : Config
defaults = record { cachedir = codes "locals.txt"; nthreads = 3 }

-- The default case falls through to that of `-h`, with status 1.
unfoldable pub options : List DaemonOption → Config → Started Config
options [] c = ready c
options (DaemonOption.cachedir text ∷ os) c = options os (record c { cachedir = text })
options (DaemonOption.nthreads text ∷ os) c = options os (record c { nthreads = atoi text })
options (DaemonOption.hidden ∷ os) c = options os c
options (DaemonOption.experimental ∷ os) c = options os c
options (DaemonOption.help ∷ os) c = Started.exited 0
options (DaemonOption.other ∷ os) c = Started.exited 1

-- `exit(__LINE__)` on line 248 has the status 248.
unfoldable pub check : Config → Started Config
check c = if ltb 6200 c.nthreads || ltb c.nthreads 1 then Started.exited 248 else ready c
