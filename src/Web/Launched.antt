-- ===== src/Web/Launched.antt =====
-- What holds when cache/webproxy.c calls `gfserver_serve`.
use native.Mathlib.Nat.{mul-le-mul}
use intro_to_os.Base.{
  ℕ, ◌^◌, ◌+◌, ◌*◌, ◌≡◌, ◌<◌, ◌≤◌, refl, true, false, ◌||◌, [], ◌∷◌, List, ltb, zero, suc, Option,
  none, some, length, All, arith, ap,
}
use intro_to_os.Text.{Bytes, codes}
use intro_to_os.Text.Decimal.{atoi}
use intro_to_os.Launch.{
  Started, ready, WhenReady, WhenReady->>=, WhenReady-guard, WhenReady-require, WhenReady-self,
}
use intro_to_os.Cache.Message.{extend}
use intro_to_os.Web.Server.{Call, setup, worker_args}
use intro_to_os.Web.Cached.{
  ProxyOption, segment_size, Config, defaults, options, check, total_mm_size, System, with_keys,
  with_key, prepare, main,
}

-- Every segment size that is given is an `int` that is not negative.
abbrev pub IsSmall : ProxyOption → Type 0
IsSmall (segment_size text) = atoi text < 2 ^ 31
IsSmall _ = Unit

-- What the options keep.
abbrev IsKept : Config → Type 0
IsKept c = (c.port < 2 ^ 16) × (c.nsegments < 2 ^ 32) × (c.segsize < 2 ^ 31)

extend-small : (w : ℕ) → w < 2 ^ 31 → extend w < 2 ^ 31
extend-small w h = ground arith

options-IsKept :
    (os : List ProxyOption) (c : Config)
    → All IsSmall os
    → IsKept c
    → WhenReady IsKept (options os c)
unfolding options
options-IsKept [] c small h = h
options-IsKept (ProxyOption.segment_count text ∷ os) c small h =
    options-IsKept os _ small.1 (h.0, omega arith, h.2)
options-IsKept (ProxyOption.port text ∷ os) c small h =
    options-IsKept os _ small.1 (omega arith, h.1, h.2)
options-IsKept (ProxyOption.server text ∷ os) c small h = options-IsKept os _ small.1 h
options-IsKept (ProxyOption.thread_count text ∷ os) c small h = options-IsKept os _ small.1 h
options-IsKept (ProxyOption.segment_size text ∷ os) c small h =
    options-IsKept os _ small.1 (h.0, h.1, extend-small (atoi text) small.0)
options-IsKept (ProxyOption.hidden ∷ os) c small h = options-IsKept os _ small.1 h
options-IsKept (ProxyOption.experimental ∷ os) c small h = options-IsKept os _ small.1 h
options-IsKept (ProxyOption.help ∷ os) c small h = tt
options-IsKept (ProxyOption.other ∷ os) c small h = tt

-- What the tests add.
abbrev IsChecked : Config → Type 0
IsChecked c =
    (1 ≤ c.nworkerthreads)
    × (c.nworkerthreads ≤ 1024)
    × (1024 ≤ c.port)
    × (128 ≤ c.segsize)
    × (1 ≤ c.nsegments)

threads_range : (n : ℕ) → (ltb n 1 || ltb 1024 n) ≡ false → (1 ≤ n) × (n ≤ 1024)
threads_range n h = ground arith

not_below : (k n : ℕ) → ltb n k ≡ false → k ≤ n
not_below k n h = ground arith

check-IsChecked :
    (Q : Config → Type 0) (c : Config) → Q c → WhenReady (λ d. Q d × IsChecked d) (check c)
unfolding check
check-IsChecked Q c h =
    let P = λ (d : Config). Q d × IsChecked d in
    WhenReady-guard _ P (ltb c.nworkerthreads 1 || ltb 1024 c.nworkerthreads) _ λ threads.
      WhenReady-guard _ P (ltb c.port 1024) _ λ port.
        WhenReady-guard _ P (ltb c.segsize 128) _ λ size.
          WhenReady-guard _ P (ltb c.nsegments 1) _ λ segments. (
            h,
            (
              (threads_range c.nworkerthreads threads).0,
              (threads_range c.nworkerthreads threads).1,
              not_below 1024 c.port port,
              not_below 128 c.segsize size,
              not_below 1 c.nsegments segments,
            ),
          )

-- The product does not wrap around, and has room for each segment.
total_mm_size_exact :
    (nsegments segsize : ℕ)
    → nsegments < 2 ^ 32
    → segsize < 2 ^ 31
    → total_mm_size nsegments segsize ≡ nsegments * segsize
unfolding total_mm_size
total_mm_size_exact nsegments segsize few small =
    let le : nsegments * segsize ≤ 2 ^ 32 * 2 ^ 31 =
      mul-le-mul {n₂ = 2 ^ 32} {m₂ = 2 ^ 31} (omega arith) (omega arith) in
    omega arith

length-worker_args : (n i : ℕ) (source : Bytes) → length (worker_args n i source) ≡ n
unfolding worker_args
length-worker_args zero i source = refl
length-worker_args (suc n) i source = ap suc (length-worker_args n (i + 1) source)

-- What the program has then: the memory has room for all segments, of 128 bytes at least, and the
-- system gave it; the port and the number of threads are in range, and each thread gets its argument.
abbrev pub IsLaunched : List ProxyOption → System → ℕ × List Call → Type 0
IsLaunched os sys (size, calls) =
    (c : Config) × (options os defaults ≡ ready c)
    × (size ≡ c.nsegments * c.segsize)
    × (128 ≤ c.segsize)
    × (1 ≤ c.nsegments)
    × (sys.truncates size ≡ true)
    × (sys.maps size ≡ true)
    × (1024 ≤ c.port)
    × (c.port < 2 ^ 16)
    × (length calls ≡ 4 + c.nworkerthreads)
    × (1 ≤ c.nworkerthreads)
    × (c.nworkerthreads ≤ 1024)

WhenReady-with_keys :
    {A : Type 0} (P : A → Type 0) (back msqid : Option ℕ) (next : A)
    → P next
    → WhenReady P (with_keys back msqid next)
WhenReady-with_keys P none msqid next h = tt
WhenReady-with_keys P (some k) none next h = tt
WhenReady-with_keys P (some k) (some m) next h = h

WhenReady-with_key :
    {A : Type 0} (P : A → Type 0) (key : Option ℕ) (m : Started A)
    → WhenReady P m
    → WhenReady P (with_key key m)
WhenReady-with_key P none m h = h
WhenReady-with_key P (some k) m h = h

WhenReady-prepare :
    {A : Type 0} (P : A → Type 0) (sys : System) (size : ℕ) (next : A)
    → (sys.truncates size ≡ true → sys.maps size ≡ true → P next)
    → WhenReady P (prepare sys size next)
unfolding prepare
WhenReady-prepare P sys size next k = WhenReady-require _ P sys.opens _ λ opens.
    WhenReady-require _ P (sys.truncates size) _ λ truncates.
      WhenReady-require _ P (sys.maps size) _ λ maps.
        WhenReady-with_key P sys.key _
          (WhenReady-with_keys P sys.key_cache_to_proxy (sys.queue sys.key) next (k truncates maps))

-- What is known between the options and the tests.
abbrev IsRead : List ProxyOption → Config → Type 0
IsRead os c = IsKept c × (options os defaults ≡ ready c)

abbrev calls_of : Config → List Call
calls_of c = setup c.port 42 c.nworkerthreads (codes "handle_with_cache") (codes "temp")

launch :
    (os : List ProxyOption) (sys : System) (c : Config)
    → IsRead os c × IsChecked c
    → sys.truncates (total_mm_size c.nsegments c.segsize) ≡ true
    → sys.maps (total_mm_size c.nsegments c.segsize) ≡ true
    → IsLaunched os sys (total_mm_size c.nsegments c.segsize, calls_of c)
launch os sys c (read, checked) truncates maps = (
  c,
  read.1,
  total_mm_size_exact c.nsegments c.segsize read.0.1 read.0.2,
  checked.3,
  checked.4,
  truncates,
  maps,
  checked.2,
  read.0.0,
  omega (arith, length-worker_args c.nworkerthreads 0 (codes "temp")),
  checked.0,
  checked.1,
)

-- If every segment size that is given is an `int` that is not negative, and the program gets as far
-- as `gfserver_serve`, then the shared memory has the size of all segments together, without
-- wrapping around, each segment has at least 128 bytes, the system could give that size and map it,
-- the port and the number of threads are in their ranges, and there is one call for each thread.
pub main-IsLaunched :
    (os : List ProxyOption) (sys : System)
    → All IsSmall os
    → WhenReady (IsLaunched os sys) (main os sys)
unfolding main
main-IsLaunched os sys small =
    WhenReady->>= (IsRead os) (IsLaunched os sys) (options os defaults) _
      (WhenReady-self IsKept (options os defaults)
        (options-IsKept os defaults small (omega arith, omega arith, omega arith)))
      λ c read.
        WhenReady->>= (λ d. IsRead os d × IsChecked d) (IsLaunched os sys) (check c) _
          (check-IsChecked (IsRead os) c read)
          λ d h.
            WhenReady-prepare (IsLaunched os sys) sys (total_mm_size d.nsegments d.segsize)
              (total_mm_size d.nsegments d.segsize, calls_of d) (launch os sys d h)
