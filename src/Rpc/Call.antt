-- ===== src/Rpc/Call.antt =====
-- `get_minify_client` and `minify_via_rpc` of rpc_mt/minify_via_rpc.c, with the stub as a parameter,
-- and `main` of rpc_mt/minifyjpeg_svc.c.
use intro_to_os.Base.{
  ℕ, ◌^◌, ◌%◌, ◌≡◌, ◌<◌, ◌≤◌, Bool, true, false, List, [], ◌∷◌, Option, none, some, length, take,
  ltb, leb, if◌then◌else◌, arith, zero, suc, ◌+◌,
}
use intro_to_os.Text.{Bytes}
use intro_to_os.Text.Decimal.{atoi}
use intro_to_os.Launch.{Started, ready, exited, ◌>>=◌}

-- A client handle with its timeout in seconds.
pub record Client : Type 0 where
  pub handle : ℕ
  pub timeout : ℕ

-- `clnt_create` gives `none` for NULL.
abbrev pub get_minify_client : Option ℕ → Started Client
get_minify_client none = exited 1
get_minify_client (some handle) = ready (record { handle = handle; timeout = 5 })

-- What the stub gives: its status and, if it decodes an answer, the bytes of that.
abbrev pub Stub : Type 0
Stub = Bytes → ℕ × Option Bytes

-- The call returns a status and the image, whose length is not assigned without an answer (`none`); or
-- the answer is written past the buffer.
pub data Called : Type 0 where
  returned : (clnt_stat : ℕ) → (dst : Option Bytes) → Called
  overflow : Called

-- The answer is decoded into a buffer that has the length of the source.
abbrev pub with_answer : (src_len : ℕ) → ℕ × Option Bytes → Called
with_answer src_len (clnt_stat, none) = returned clnt_stat none
with_answer src_len (clnt_stat, some dst) =
    if leb (length dst) src_len then returned clnt_stat (some dst) else overflow

-- `src_len` becomes an `u_int`.
unfoldable pub minify_via_rpc : (minifyjpeg_proc_1 : Stub) → (src_val : Bytes) → Called
minify_via_rpc minifyjpeg_proc_1 src_val =
    with_answer (length src_val) (minifyjpeg_proc_1 (take (length src_val % 2 ^ 32) src_val))

pub data ServiceOption : Type 0 where
  thread_count : Bytes → ServiceOption
  help other : ServiceOption

-- The number of threads is an `unsigned short`.
unfoldable pub options : List ServiceOption → (nworkerthreads : ℕ) → Started ℕ
options [] n = ready n
options (thread_count text ∷ os) n = options os (atoi text % 2 ^ 16)
options (help ∷ os) n = exited 0
options (other ∷ os) n = exited 1

-- `exit(__LINE__)` on line 177.
unfoldable pub check : ℕ → Started ℕ
check n = if ltb 1024 n then exited 177 else ready n

-- The transports, each created and registered.
abbrev pub register : {A : Type 0} → List Bool → A → Started A
register [] next = ready next
register (true ∷ bs) next = register bs next
register (false ∷ bs) next = exited 1

-- `pthread_create` for each thread: the first that fails ends the program with -1.
abbrev pub create_threads : (n i : ℕ) → (creates : ℕ → Bool) → {A : Type 0} → Started A → Started A
create_threads zero i creates next = next
create_threads (suc n) i creates next =
    let rest = create_threads n (i + 1) creates next in if creates i then rest else exited 255

-- Up to `svc_run`: the number of threads.
unfoldable pub main :
    List ServiceOption → (creates : ℕ → Bool) → (transports : List Bool) → Started ℕ
unfolding options check
main os creates transports = do
  n ← options os 2
  n' ← check n
  create_threads n' 0 creates (register transports n')

pub le→leb : (a b : ℕ) → a ≤ b → leb a b ≡ true
le→leb a b h = ground arith

pub lt→leb : (a b : ℕ) → a < b → leb b a ≡ false
lt→leb a b h = ground arith
