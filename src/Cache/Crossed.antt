-- ===== src/Cache/Crossed.antt =====
-- One thread of the proxy against two (cache/handle_with_cache.c, with the daemon of
-- cache/simplecached.c): whose file a thread sends.
use intro_to_os.Base.{
  ℕ, ◌^◌, ◌<◌, ◌≡◌, ◌⊎◌, refl, ap, false, [], ◌∷◌, List, Option, some, get_elem?, total, length,
  take,
}
use intro_to_os.Text.{Bytes}
use intro_to_os.Cache.Threads.{heard-length_reply}
use intro_to_os.Cache.System.{
  Client, idle, asking, told, served, refused, Worker, waiting, busy, works, Reply, not_found,
  length_reply, has_queue, System, system, ask, take_command, answer, hear, send, ◌⟶*◌, here, then,
}

-- Two threads of the proxy, with a request each, and one thread of the daemon.
abbrev pub two_clients : (p q segment : Bytes) → System
two_clients p q segment = system [] [] segment (idle p ∷ idle q ∷ []) (waiting ∷ [])

-- With two threads of the proxy, the one that asked for `p` can send the beginning of the file of `q`, if
-- both are listed and the file of `p` has less than 2^31 bytes: the daemon fills the one segment with the
-- file of `q` before the first thread has read its own.
pub two_clients_crossed :
    (file : Bytes → Option Bytes) (p q segment a b : Bytes)
    → file p ≡ some a
    → file q ≡ some b
    → length a < 2 ^ 31
    → ◌⟶*◌ file (two_clients p q segment) (
        system []
          (length_reply b ∷ [])
          b
          (served p (take (length a) b) ∷ asking q ∷ [])
          (waiting ∷ []))
two_clients_crossed file p q segment a b of_p of_q small = then (ask 0 p refl) (
    then (ask 1 q refl) (
      then (take_command 0 p refl) (
        then (answer 0 p a refl of_p refl refl) (
          then (take_command 0 q refl) (
            then (answer 0 q b refl of_q refl refl) (
              then (hear 0 p (length_reply a) refl refl)
                (then (send 0 p (length a) (ap some (heard-length_reply p a small))) here)))))))

module _ (file : Bytes → Option Bytes) where
  -- No message is under way.
  abbrev Quiet : List Bytes → List Reply → List Worker → Type 0
  Quiet commands replies workers = (commands ≡ []) × (replies ≡ []) × (total works workers ≡ 0)

  -- The one request that is under way: as a command, in the hands of the daemon, as a reply with the file
  -- in the segment, as a reply that there is none, or lost in a failure.
  data Pending (p : Bytes) (commands : List Bytes) (replies : List Reply) (segment : Bytes)
      (workers : List Worker) : Type 0 where
    as_command :
        commands ≡ p ∷ []
        → replies ≡ []
        → total works workers ≡ 0
        → Pending p commands replies segment workers
    in_work :
        commands ≡ []
        → replies ≡ []
        → total works workers ≡ 1
        → ((j : ℕ) (q : Bytes) → get_elem? workers j ≡ some (busy q) → q ≡ p)
        → Pending p commands replies segment workers
    as_reply :
        commands ≡ []
        → replies ≡ length_reply segment ∷ []
        → file p ≡ some segment
        → total works workers ≡ 0
        → Pending p commands replies segment workers
    as_refusal :
        commands ≡ []
        → replies ≡ not_found ∷ []
        → total works workers ≡ 0
        → Pending p commands replies segment workers
    lost :
        commands ≡ []
        → replies ≡ []
        → total works workers ≡ 0
        → Pending p commands replies segment workers

  abbrev Serves : Client → List Bytes → List Reply → Bytes → List Worker → Type 0
  Serves (idle p) cs rs seg ds = Quiet cs rs ds
  Serves (asking p) cs rs seg ds = Pending p cs rs seg ds
  Serves (told p n) cs rs seg ds = Quiet cs rs ds × ((n ≡ length seg) × (file p ≡ some seg))
  Serves (served p w) cs rs seg ds = Quiet cs rs ds × (file p ≡ some w)
  Serves (refused p) cs rs seg ds = Quiet cs rs ds

  -- Not with a file that was found.
  abbrev IsOut : Client → Type 0
  IsOut (idle p) = Unit
  IsOut (asking p) = Unit
  IsOut (refused p) = Unit
  IsOut (told p n) = ⊥
  IsOut (served p w) = ⊥

  -- The one thread is served as above; or no reply comes any more.
  abbrev OneClient : System → Type 0
  OneClient (system cs rs seg ps ds) =
      (c : Client) × (ps ≡ c ∷ []) × (Serves c cs rs seg ds ⊎ (IsOut c × (has_queue ds ≡ false)))
