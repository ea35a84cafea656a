-- ===== src/Rpc/Race.antt =====
-- What the boss of rpc_mt/minifyjpeg_svc.c risks by queueing without the mutex.
use intro_to_os.Base.{refl, true, false, [], ◌∷◌, arith}
use intro_to_os.Rpc.Service.{
  ThreadData, listening, waiting, testing, System, system, decode, link, count_up, lock, pop,
  count_down, answer, Exits, underflow, ◌⟶*◌, done, more,
}

-- A service with one worker that waits, and nothing queued.
abbrev pub one_worker : System
one_worker = system false [] 0 listening (waiting ∷ []) [] []

-- Nothing but new requests can happen: the counter says that the queue is empty, and it is not.
abbrev pub stuck : (d e : ThreadData) → System
stuck d e = system false (e ∷ []) 0 listening (waiting ∷ []) (d ∷ []) (e ∷ d ∷ [])

one_worker-stuck : (d e : ThreadData) → one_worker ⟶* stuck d e
one_worker-stuck d e = more (decode d) (
    more (link d) (
      more (count_up 0) (
        more (lock 0 refl) (
          more (pop 0 1 d (λ h. absurd (omega (arith, h))) refl) (
            more (decode e) (
              more (link e) (
                more (count_up 1)
                  (more (count_down 0 1 d refl) (more (answer 0 d refl) done)))))))))

-- Both requests are answered, the counter says that there is another, and the worker is at the test.
abbrev pub exhausted : (d e : ThreadData) → System
exhausted d e = system true [] 1 listening (testing ∷ []) (e ∷ d ∷ []) (e ∷ d ∷ [])

one_worker-exhausted : (d e : ThreadData) → one_worker ⟶* exhausted d e
one_worker-exhausted d e = more (decode d) (
    more (link d) (
      more (count_up 0) (
        more (decode e) (
          more (link e) (
            more (lock 0 refl) (
              more (pop 0 1 d (λ h. absurd (omega (arith, h))) refl) (
                more (count_down 0 1 d refl) (
                  more (count_up 1) (
                    more (answer 0 d refl) (
                      more (lock 0 refl) (
                        more (pop 0 2 e (λ h. absurd (omega (arith, h))) refl) (
                          more (count_down 0 2 e refl)
                            (more (answer 0 e refl) (more (lock 0 refl) done))))))))))))))

-- With one worker and any two requests, the order of the stores to the counter decides: if the worker
-- stores its count behind that of the boss, the second request stays in a queue whose counter is 0; if
-- the boss stores its count behind that of the worker, both are answered, and then the service exits,
-- since it pops from an empty queue.
pub one_worker-races :
    (d e : ThreadData)
    → (one_worker ⟶* stuck d e) × ((one_worker ⟶* exhausted d e) × Exits (exhausted d e))
one_worker-races d e = (
  one_worker-stuck d e,
  (one_worker-exhausted d e, underflow 0 1 (λ h. absurd (omega (arith, h))) refl),
)
