-- ===== src/Rpc/Service.antt =====
-- The threads of rpc_mt/minifyjpeg_svc.c: the boss, which queues requests without the mutex, and the
-- workers. The links of the queue change in one step, and its counter `N` in two: a load and a store.
use intro_to_os.Base.{
  ℕ, ◌+◌, ◌-◌, ◌≡◌, ◌≢◌, Bool, true, false, [], ◌∷◌, ◌++◌, List, some, get_elem?, set_elem,
}
use intro_to_os.Text.{Bytes}

-- thread_data: the transport of the client and the image.
pub record ThreadData : Type 0 where
  pub transp : ℕ
  pub image : Bytes

-- The boss waits for a request in `svc_run`; or has decoded one; or is in `steque_enqueue`, behind
-- the links, with the `N` that it has loaded.
pub data Boss : Type 0 where
  listening : Boss
  decoded : ThreadData → Boss
  linked : (count : ℕ) → Boss

-- A worker stands at the mutex; at the test of the loop with the mutex; in `steque_pop`, behind the
-- links, with the `N` that it has loaded; or at work without the mutex.
pub data Worker : Type 0 where
  waiting testing : Worker
  popped : ThreadData → (count : ℕ) → Worker
  working : ThreadData → Worker

-- The mutex, the queue by its links, its counter, the threads, and two histories that the code does not
-- keep: the requests that were answered, and those that were accepted.
pub data System : Type 0 where
  system :
      (locked : Bool)
      → (workqueue : List ThreadData) → (count : ℕ) → Boss
      → List Worker
      → (answered accepted : List ThreadData) → System

infix 40 ◌⟶◌ ◌⟶*◌
-- A step of one thread. A request that `svc_getargs` cannot decode leaves everything as it is. A
-- `steque_pop` with no links ends the process, which is no step: it is `Exits`.
pub data ◌⟶◌ : System → System → Type 0 where
  decode :
      (d : ThreadData) {l : Bool} {q : List ThreadData} {n : ℕ} {ws : List Worker}
      {old : List ThreadData} {all : List ThreadData}
      → system l q n listening ws old all ⟶ system l q n (decoded d) ws old (d ∷ all)
  reject :
      {l : Bool} {q : List ThreadData} {n : ℕ} {ws : List Worker} {old : List ThreadData}
      {all : List ThreadData}
      → system l q n listening ws old all ⟶ system l q n listening ws old all
  link :
      (d : ThreadData) {l : Bool} {q : List ThreadData} {n : ℕ} {ws : List Worker}
      {old : List ThreadData} {all : List ThreadData}
      → system l q n (decoded d) ws old all ⟶ system l (q ++ d ∷ []) n (linked n) ws old all
  count_up :
      (m : ℕ) {l : Bool} {q : List ThreadData} {n : ℕ} {ws : List Worker} {old : List ThreadData}
      {all : List ThreadData}
      → system l q n (linked m) ws old all ⟶ system l q (m + 1) listening ws old all
  lock :
      (i : ℕ) {q : List ThreadData} {n : ℕ} {b : Boss} {ws : List Worker} {old : List ThreadData}
      {all : List ThreadData}
      → get_elem? ws i ≡ some waiting
      → system false q n b ws old all ⟶ system true q n b (set_elem i testing ws) old all
  unlock :
      (i : ℕ) {l : Bool} {q : List ThreadData} {b : Boss} {ws : List Worker} {old : List ThreadData}
      {all : List ThreadData}
      → get_elem? ws i ≡ some testing
      → system l q 0 b ws old all ⟶ system false q 0 b (set_elem i waiting ws) old all
  pop :
      (i n : ℕ) (d : ThreadData) {l : Bool} {q : List ThreadData} {b : Boss} {ws : List Worker}
      {old : List ThreadData} {all : List ThreadData}
      → n ≢ 0
      → get_elem? ws i ≡ some testing
      → system l (d ∷ q) n b ws old all ⟶ system l q n b (set_elem i (popped d n) ws) old all
  count_down :
      (i m : ℕ) (d : ThreadData) {l : Bool} {q : List ThreadData} {n : ℕ} {b : Boss}
      {ws : List Worker} {old : List ThreadData} {all : List ThreadData}
      → get_elem? ws i ≡ some (popped d m)
      → system l q n b ws old all ⟶ system false q (m - 1) b (set_elem i (working d) ws) old all
  answer :
      (i : ℕ) (d : ThreadData) {l : Bool} {q : List ThreadData} {n : ℕ} {b : Boss}
      {ws : List Worker} {old : List ThreadData} {all : List ThreadData}
      → get_elem? ws i ≡ some (working d)
      → system l q n b ws old all ⟶ system l q n b (set_elem i waiting ws) (d ∷ old) all

pub data ◌⟶*◌ : System → System → Type 0 where
  done : {s : System} → s ⟶* s
  more : {s t u : System} → s ⟶ t → t ⟶* u → s ⟶* u

-- A worker is in front of a `steque_pop` that finds no links: the process exits.
pub data Exits : System → Type 0 where
  underflow :
      (i n : ℕ) {l : Bool} {b : Boss} {ws : List Worker} {old : List ThreadData}
      {all : List ThreadData}
      → n ≢ 0
      → get_elem? ws i ≡ some testing
      → Exits (system l [] n b ws old all)
