-- ===== src/Cache/System.antt =====
-- Proxy threads and daemon threads at once: `handle_with_cache` of cache/handle_with_cache.c and
-- `worker` of cache/simplecached.c around the two queues and the one segment that they all share. The
-- calls on the queue of commands, and `shm_open`, `ftruncate`, `mmap` and `gfs_send`, are taken to succeed.
use intro_to_os.Base.{
  ℕ, ◌+◌, ◌-◌, ◌%◌, ◌^◌, ◌≡◌, Bool, true, false, all_of, [], ◌∷◌, ◌++◌, List, Option, none, some,
  ◌==◌, ltb, if◌then◌else◌, get_elem?, set_elem, length, take, map,
}
use intro_to_os.Text.{Bytes}

-- A thread of the proxy: before its command for a path; behind `msgsnd`; behind `msgrcv`, with the
-- length that it read; done, with the bytes that it sent; or done with the header FILE_NOT_FOUND.
pub data Client : Type 0 where
  idle asking : (path : Bytes) → Client
  told : (path : Bytes) → (file_len : ℕ) → Client
  served : (path : Bytes) → (sent : Bytes) → Client
  refused : (path : Bytes) → Client

-- A thread of the daemon: before `msgrcv`; with the path of a command; ended by a failure of `pread`,
-- while it held `response_mutex`; or ended behind the removal of the queue of replies.
pub data Worker : Type 0 where
  waiting : Worker
  busy : (path : Bytes) → Worker
  stuck gone : Worker

abbrev pub works : Worker → ℕ
works (busy p) = 1
works _ = 0

-- `response_mutex` is not held by a thread that has ended.
abbrev pub is_unlocked : List Worker → Bool
is_unlocked = all_of (λ d. elim d [ stuck ↦ false | _ ↦ true ])

-- The queue of replies is there.
abbrev pub has_queue : List Worker → Bool
has_queue = all_of (λ d. elim d [ gone ↦ false | _ ↦ true ])

-- A text NOT_FOUND, or one of `(int) file_len`, by its 32 bits.
pub data Reply : Type 0 where
  not_found : Reply
  file_len : ℕ → Reply

abbrev pub length_reply : Bytes → Reply
length_reply contents = file_len (length contents % 2 ^ 32)

-- What the proxy makes of a reply: -1 is refused as well, and the `int` becomes a `size_t`.
abbrev pub heard : (path : Bytes) → Reply → Client
heard path not_found = refused path
heard path (file_len n) =
    if n == 2 ^ 32 - 1
    then refused path
    else told path (if ltb n (2 ^ 31) then n else n + 2 ^ 64 - 2 ^ 32)

-- The queue of commands, the queue of replies, the segment, and the threads.
pub data System : Type 0 where
  system :
      (commands : List Bytes)
      → (replies : List Reply) → (segment : Bytes) → List Client
      → List Worker
      → System

-- What the daemon finds for the command that asks for a path: `none` if it is not listed.
module _ (file : Bytes → Option Bytes) where
  infix 40 ◌⟶◌ ◌⟶*◌
  -- A step of one thread. The daemon fills the segment and answers under `response_mutex`, in one step;
  -- the proxy's `msgrcv` with type 0 takes the first reply, whoever asked for it. A failure of `fstat`
  -- removes the queue of replies: a proxy thread in `msgrcv` is refused then, and a daemon thread that
  -- sends a reply ends the daemon. A failure of `pread` leaves the segment as far as it was filled.
  pub data ◌⟶◌ : System → System → Type 0 where
    ask :
        (i : ℕ) (p : Bytes) {cs : List Bytes} {rs : List Reply} {seg : Bytes} {ps : List Client}
        {ds : List Worker}
        → get_elem? ps i ≡ some (idle p)
        → system cs rs seg ps ds ⟶ system (cs ++ p ∷ []) rs seg (set_elem i (asking p) ps) ds
    take_command :
        (j : ℕ) (p : Bytes) {cs : List Bytes} {rs : List Reply} {seg : Bytes} {ps : List Client}
        {ds : List Worker}
        → get_elem? ds j ≡ some waiting
        → system (p ∷ cs) rs seg ps ds ⟶ system cs rs seg ps (set_elem j (busy p) ds)
    answer :
        (j : ℕ) (p contents : Bytes) {cs : List Bytes} {rs : List Reply} {seg : Bytes}
        {ps : List Client} {ds : List Worker}
        → get_elem? ds j ≡ some (busy p)
        → file p ≡ some contents
        → is_unlocked ds ≡ true
        → has_queue ds ≡ true
        → system cs rs seg ps ds
          ⟶ system cs (rs ++ length_reply contents ∷ []) contents ps (set_elem j waiting ds)
    refuse :
        (j : ℕ) (p : Bytes) {cs : List Bytes} {rs : List Reply} {seg : Bytes} {ps : List Client}
        {ds : List Worker}
        → get_elem? ds j ≡ some (busy p)
        → file p ≡ none
        → has_queue ds ≡ true
        → system cs rs seg ps ds ⟶ system cs (rs ++ not_found ∷ []) seg ps (set_elem j waiting ds)
    fail_fstat :
        (j : ℕ) (p contents : Bytes) {cs : List Bytes} {rs : List Reply} {seg : Bytes}
        {ps : List Client} {ds : List Worker}
        → get_elem? ds j ≡ some (busy p)
        → file p ≡ some contents
        → has_queue ds ≡ true
        → system cs rs seg ps ds ⟶ system cs [] seg ps (set_elem j gone ds)
    fail_pread :
        (j : ℕ) (p contents filled : Bytes) {cs : List Bytes} {rs : List Reply} {seg : Bytes}
        {ps : List Client} {ds : List Worker}
        → get_elem? ds j ≡ some (busy p)
        → file p ≡ some contents
        → is_unlocked ds ≡ true
        → system cs rs seg ps ds ⟶ system cs rs filled ps (set_elem j stuck ds)
    fail_msgsnd :
        (j : ℕ) (p filled : Bytes) {cs : List Bytes} {rs : List Reply} {seg : Bytes}
        {ps : List Client} {ds : List Worker}
        → get_elem? ds j ≡ some (busy p)
        → has_queue ds ≡ false
        → system cs rs seg ps ds ⟶ system cs rs filled ps (map (λ d. gone) ds)
    hear :
        (i : ℕ) (p : Bytes) (r : Reply) {cs : List Bytes} {rs : List Reply} {seg : Bytes}
        {ps : List Client} {ds : List Worker}
        → get_elem? ps i ≡ some (asking p)
        → has_queue ds ≡ true
        → system cs (r ∷ rs) seg ps ds ⟶ system cs rs seg (set_elem i (heard p r) ps) ds
    fail_msgrcv :
        (i : ℕ) (p : Bytes) {cs : List Bytes} {rs : List Reply} {seg : Bytes} {ps : List Client}
        {ds : List Worker}
        → get_elem? ps i ≡ some (asking p)
        → has_queue ds ≡ false
        → system cs rs seg ps ds ⟶ system cs rs seg (set_elem i (refused p) ps) ds
    send :
        (i : ℕ) (p : Bytes) (n : ℕ) {cs : List Bytes} {rs : List Reply} {seg : Bytes}
        {ps : List Client} {ds : List Worker}
        → get_elem? ps i ≡ some (told p n)
        → system cs rs seg ps ds ⟶ system cs rs seg (set_elem i (served p (take n seg)) ps) ds
    next :
        (i : ℕ) (p q w : Bytes) {cs : List Bytes} {rs : List Reply} {seg : Bytes} {ps : List Client}
        {ds : List Worker}
        → get_elem? ps i ≡ some (served p w)
        → system cs rs seg ps ds ⟶ system cs rs seg (set_elem i (idle q) ps) ds
    next_refused :
        (i : ℕ) (p q : Bytes) {cs : List Bytes} {rs : List Reply} {seg : Bytes} {ps : List Client}
        {ds : List Worker}
        → get_elem? ps i ≡ some (refused p)
        → system cs rs seg ps ds ⟶ system cs rs seg (set_elem i (idle q) ps) ds

  pub data ◌⟶*◌ : System → System → Type 0 where
    here : {s : System} → s ⟶* s
    then : {s t u : System} → s ⟶ t → t ⟶* u → s ⟶* u
