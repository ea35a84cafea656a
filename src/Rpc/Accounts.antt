-- ===== src/Rpc/Accounts.antt =====
-- Where the requests of rpc_mt/minifyjpeg_svc.c are, and who holds its mutex.
use intro_to_os.Base.{
  ℕ, zero, suc, ◌+◌, ◌≡◌, refl, Bool, true, false, [], ◌∷◌, ◌++◌, List, some, get_elem?, set_elem,
  total, total-set_elem, total-append, one_of, of_list, of_list_eq, arith,
}
use intro_to_os.Rpc.Service.{
  ThreadData, Boss, listening, decoded, linked, Worker, waiting, testing, popped, working, System,
  system, ◌⟶◌, decode, reject, link, count_up, lock, unlock, pop, count_down, answer, ◌⟶*◌, done,
  more,
}

module _ (p : ThreadData → Bool) where
  abbrev one : ThreadData → ℕ
  one = one_of p

  abbrev pub at_boss : Boss → ℕ
  at_boss listening = 0
  at_boss (decoded d) = one d
  at_boss (linked n) = 0

  abbrev pub at_worker : Worker → ℕ
  at_worker waiting = 0
  at_worker testing = 0
  at_worker (popped d n) = one d
  at_worker (working d) = one d

  -- The accepted requests of this kind are with the boss, in the queue, with a worker, or answered.
  abbrev pub IsAccounted : System → Type 0
  IsAccounted (system locked queue count boss workers answered accepted) =
      total one accepted
      ≡ at_boss boss + total one queue + total at_worker workers + total one answered

  ⟶-IsAccounted : (s t : System) → s ⟶ t → IsAccounted s → IsAccounted t
  ⟶-IsAccounted _ _ (decode d) h = omega (arith, h)
  ⟶-IsAccounted _ _ reject h = h
  ⟶-IsAccounted _ _ (link d {l} {q}) h = omega (arith, h, total-append one q (d ∷ []))
  ⟶-IsAccounted _ _ (count_up m) h = omega (arith, h)
  ⟶-IsAccounted _ _ (lock i {q} {n} {b} {ws} held) h =
      omega (arith, h, total-set_elem at_worker i waiting testing ws held)
  ⟶-IsAccounted _ _ (unlock i {l} {q} {b} {ws} held) h =
      omega (arith, h, total-set_elem at_worker i testing waiting ws held)
  ⟶-IsAccounted _ _ (pop i n d {l} {q} {b} {ws} counted held) h =
      omega (arith, h, total-set_elem at_worker i testing (popped d n) ws held)
  ⟶-IsAccounted _ _ (count_down i m d {l} {q} {n} {b} {ws} held) h =
      omega (arith, h, total-set_elem at_worker i (popped d m) (working d) ws held)
  ⟶-IsAccounted _ _ (answer i d {l} {q} {n} {b} {ws} held) h =
      omega (arith, h, total-set_elem at_worker i (working d) waiting ws held)

  -- As long as the links of the queue change in one step: however the boss and the workers take turns,
  -- each accepted request is in exactly one place, with the boss, in the queue, with a worker, or
  -- answered, if it was so at first: the numbers agree for the requests of any kind.
  ⟶*-IsAccounted : (s t : System) → s ⟶* t → IsAccounted s → IsAccounted t
  ⟶*-IsAccounted s t done h = h
  ⟶*-IsAccounted s t (more step rest) h = ⟶*-IsAccounted _ t rest (⟶-IsAccounted s _ step h)

abbrev pub inside : Worker → ℕ
inside waiting = 0
inside testing = 1
inside (popped d n) = 1
inside (working d) = 0

abbrev pub holders : Bool → ℕ
holders true = 1
holders false = 0

-- One worker is inside if the mutex is taken, and none if it is free.
abbrev pub IsExclusive : System → Type 0
IsExclusive (system locked queue count boss workers answered accepted) =
    total inside workers ≡ holders locked

one_holder :
    (l : Bool) (ws : List Worker) (i : ℕ) (v w : Worker)
    → get_elem? ws i ≡ some v
    → inside v ≡ 1
    → inside w ≡ 0
    → total inside ws ≡ holders l
    → total inside (set_elem i w ws) ≡ 0
one_holder true ws i v w held busy free h =
    omega (arith, h, busy, free, total-set_elem inside i v w ws held)
one_holder false ws i v w held busy free h =
    omega (arith, h, busy, free, total-set_elem inside i v w ws held)

⟶-IsExclusive : (s t : System) → s ⟶ t → IsExclusive s → IsExclusive t
⟶-IsExclusive _ _ (decode d) h = h
⟶-IsExclusive _ _ reject h = h
⟶-IsExclusive _ _ (link d) h = h
⟶-IsExclusive _ _ (count_up m) h = h
⟶-IsExclusive _ _ (lock i {q} {n} {b} {ws} held) h =
    omega (arith, h, total-set_elem inside i waiting testing ws held)
⟶-IsExclusive _ _ (unlock i {l} {q} {b} {ws} held) h =
    one_holder l ws i testing waiting held refl refl h
⟶-IsExclusive _ _ (pop i n d {l} {q} {b} {ws} counted held) h =
    omega (arith, h, total-set_elem inside i testing (popped d n) ws held)
⟶-IsExclusive _ _ (count_down i m d {l} {q} {n} {b} {ws} held) h =
    one_holder l ws i (popped d m) (working d) held refl refl h
⟶-IsExclusive _ _ (answer i d {l} {q} {n} {b} {ws} held) h =
    omega (arith, h, total-set_elem inside i (working d) waiting ws held)

-- However the threads take turns, one worker at most is between its lock and its unlock, and none if
-- the mutex is free, if it was so at first.
⟶*-IsExclusive : (s t : System) → s ⟶* t → IsExclusive s → IsExclusive t
⟶*-IsExclusive s t done h = h
⟶*-IsExclusive s t (more step rest) h = ⟶*-IsExclusive _ t rest (⟶-IsExclusive s _ step h)

-- The requests that are under way or answered.
abbrev pub in_boss : Boss → List ThreadData
in_boss listening = []
in_boss (decoded d) = d ∷ []
in_boss (linked n) = []

abbrev pub in_worker : Worker → List ThreadData
in_worker waiting = []
in_worker testing = []
in_worker (popped d n) = d ∷ []
in_worker (working d) = d ∷ []

unfoldable pub in_workers : List Worker → List ThreadData
in_workers [] = []
in_workers (w ∷ ws) = in_worker w ++ in_workers ws

abbrev pub held : System → List ThreadData
held (system locked queue count boss workers answered accepted) =
    in_boss boss ++ (queue ++ (in_workers workers ++ answered))

abbrev pub accepted_of : System → List ThreadData
accepted_of (system locked queue count boss workers answered accepted) = accepted

-- The service behind the creation of its threads.
unfoldable pub new_workers : ℕ → List Worker
new_workers zero = []
new_workers (suc n) = waiting ∷ new_workers n

abbrev pub fresh : (nworkerthreads : ℕ) → System
fresh n = system false [] 0 listening (new_workers n) [] []

module _ (p : ThreadData → Bool) where
  total-in_boss : (b : Boss) → total (one_of p) (in_boss b) ≡ at_boss p b
  total-in_boss listening = refl
  total-in_boss (decoded d) = omega arith
  total-in_boss (linked n) = refl

  total-in_worker : (w : Worker) → total (one_of p) (in_worker w) ≡ at_worker p w
  total-in_worker waiting = refl
  total-in_worker testing = refl
  total-in_worker (popped d n) = omega arith
  total-in_worker (working d) = omega arith

  total-in_workers : (ws : List Worker) → total (one_of p) (in_workers ws) ≡ total (at_worker p) ws
  unfolding in_workers
  total-in_workers [] = refl
  total-in_workers (w ∷ ws) = omega (
    arith,
    total-append (one_of p) (in_worker w) (in_workers ws),
    total-in_worker w,
    total-in_workers ws,
  )

  new_workers-free : (n : ℕ) → total (at_worker p) (new_workers n) ≡ 0
  unfolding new_workers
  new_workers-free zero = refl
  new_workers-free (suc n) = omega (arith, new_workers-free n)

  total-held :
      (s : System) → IsAccounted p s → total (one_of p) (held s) ≡ total (one_of p) (accepted_of s)
  total-held (system l q n b ws old all) h = omega (
    arith,
    h,
    total-append (one_of p) (in_boss b) (q ++ (in_workers ws ++ old)),
    total-append (one_of p) q (in_workers ws ++ old),
    total-append (one_of p) (in_workers ws) old,
    total-in_boss b,
    total-in_workers ws,
  )

-- As long as the links of the queue change in one step: from the start of the service with any number
-- of workers, however the threads take turns, the requests that are with the boss, in the queue, with
-- a worker, or answered, are those that were accepted, as a bag.
pub ⟶*-of_list : (n : ℕ) (t : System) → fresh n ⟶* t → of_list (held t) ≡ of_list (accepted_of t)
⟶*-of_list n t steps =
    of_list_eq (held t) (accepted_of t)
      λ p. total-held p t (⟶*-IsAccounted p (fresh n) t steps (omega (arith, new_workers-free p n)))
