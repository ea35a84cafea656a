-- ===== src/Minify/Once.antt =====
-- The requests of the workload in rpc_mt/minifyjpeg_main.c: where each of them is.
use intro_to_os.Base.{
  ℕ, zero, suc, ◌+◌, ◌≡◌, ◌<◌, ◌≤◌, ◌⊎◌, inl, inr, Bool, true, false, refl, ◌∙◌, ap, [], ◌∷◌, List,
  length, arith,
}
use intro_to_os.Text.{Bytes}
use intro_to_os.Minify.Worker.{
  Request, Phase, waiting, testing, returned, working, Worker, worker, Disk, Pool, Process, running,
  exited, undefined, run,
}
use intro_to_os.Minify.Main.{start, new_workers}
use intro_to_os.Base.{total, total-set_elem, length-set_elem}
use intro_to_os.Minify.Laws.{
  Effect, acquires, takes, leaves, finishes, Moves, OnRunning, run-OnRunning,
}

abbrev pub one : Bool → ℕ
one true = 1
one false = 0

-- How many of the requests satisfy `p`.
abbrev pub count : (Request → Bool) → List Request → ℕ
count p = total (λ r. one (p r))

-- How many requests with `p` a worker in this phase has in hand.
abbrev pub in_hand : (Request → Bool) → Phase → ℕ
in_hand p (working r) = one (p r)
in_hand p waiting = 0
in_hand p testing = 0
in_hand p returned = 0

abbrev pub accounted : (Request → Bool) → Pool → ℕ
accounted p s = count p s.queue + total (λ w. in_hand p w.phase) s.workers + count p s.handled

Effect-accounted :
    (p : Request → Bool) (s s' : Pool) (from to : Phase)
    → Effect s s' from to
    → count p s'.queue + in_hand p to + count p s'.handled
      ≡ count p s.queue + in_hand p from + count p s.handled
Effect-accounted p s s' _ _ (acquires free taken queue handled) =
    omega (arith, ap (count p) queue, ap (count p) handled)
Effect-accounted p s s' _ _ (takes r rs before free queue handled) =
    omega (arith, ap (count p) before, ap (count p) queue, ap (count p) handled)
Effect-accounted p s s' _ _ (leaves before free queue handled) =
    omega (arith, ap (count p) queue, ap (count p) handled)
Effect-accounted p s s' _ _ (finishes r lock queue handled) =
    omega (arith, ap (count p) queue, ap (count p) handled)

Moves-accounted : (p : Request → Bool) (s s' : Pool) → Moves s s' → accounted p s' ≡ accounted p s
Moves-accounted p s s' m =
    let weight = λ (w : Worker). in_hand p w.phase in
    omega (
      arith,
      Effect-accounted p s s' m.from m.to m.effect,
      ap (total weight) m.put,
      total-set_elem weight m.index (worker m.from m.code) (worker m.to m.code') s.workers m.got,
    )

abbrev pub has_returned : Phase → ℕ
has_returned returned = 1
has_returned waiting = 0
has_returned testing = 0
has_returned (working r) = 0

-- A worker returns only when the queue is empty.
abbrev Drained : Pool → Type 0
Drained s = (total (λ w. has_returned w.phase) s.workers ≡ 0) ⊎ (length s.queue ≡ 0)

Effect-Drained :
    (s s' : Pool) (from to : Phase)
    → Effect s s' from to
    → ((has_returned to ≡ has_returned from) ⊎ (length s'.queue ≡ 0))
      × (length s'.queue ≤ length s.queue)
Effect-Drained s s' _ _ (acquires free taken queue handled) =
    (inl refl, omega (arith, ap length queue))
Effect-Drained s s' _ _ (takes r rs before free queue handled) =
    (inl refl, omega (arith, ap length queue, ap length before))
Effect-Drained s s' _ _ (leaves before free queue handled) =
    (inr (ap length (queue ∙ before)), omega (arith, ap length queue))
Effect-Drained s s' _ _ (finishes r lock queue handled) = (inl refl, omega (arith, ap length queue))

Moves-Drained : (s s' : Pool) → Drained s → Moves s s' → Drained s'
Moves-Drained s s' d m =
    let weight = λ (w : Worker). has_returned w.phase in
    let e = Effect-Drained s s' m.from m.to m.effect in
    let put = ap (total weight) m.put in
    let changed =
      total-set_elem weight m.index (worker m.from m.code) (worker m.to m.code') s.workers m.got in
    elim e.0 [
      | inl same ↦ elim d [
        | inl no_one ↦ inl (omega (arith, same, no_one, put, changed))
        | inr empty ↦ inr (omega (arith, e.1, empty))
      ]
      | inr empty ↦ inr empty
    ]

-- How many workers have not returned yet.
abbrev pub is_active : Phase → ℕ
is_active returned = 0
is_active waiting = 1
is_active testing = 1
is_active (working r) = 1

abbrev pub active : Pool → ℕ
active s = total (λ w. is_active w.phase) s.workers

phase_returned :
    (p : Request → Bool) (phase : Phase)
    → is_active phase ≡ 0
    → (in_hand p phase ≡ 0) × (has_returned phase ≡ 1)
phase_returned p returned h = (refl, refl)
phase_returned p waiting h = absurd (omega arith)
phase_returned p testing h = absurd (omega arith)
phase_returned p (working r) h = absurd (omega arith)

all_returned :
    (p : Request → Bool) (ws : List Worker)
    → total (λ w. is_active w.phase) ws ≡ 0
    → (total (λ w. in_hand p w.phase) ws ≡ 0) × (total (λ w. has_returned w.phase) ws ≡ length ws)
all_returned p [] h = (refl, refl)
all_returned p (w ∷ ws) h =
    let here = phase_returned p w.phase (omega arith) in
    let rest = all_returned p ws (omega arith) in
    (omega (arith, here.0, rest.0), omega (arith, here.1, rest.1))

-- What the pool keeps from its start with this many workers and these requests.
abbrev Kept : (Request → Bool) → ℕ → List Request → Pool → Type 0
Kept p n requests s = (accounted p s ≡ count p requests) × Drained s × (length s.workers ≡ n)

new_workers_lem :
    (p : Request → Bool) (n : ℕ)
    → (total (λ w. in_hand p w.phase) (new_workers n) ≡ 0)
      × (total (λ w. has_returned w.phase) (new_workers n) ≡ 0)
      × (length (new_workers n) ≡ n)
unfolding new_workers
new_workers_lem p zero = (refl, refl, refl)
new_workers_lem p (suc n) =
    let rest = new_workers_lem p n in (omega (arith, rest.0), omega (arith, rest.1), ap suc rest.2)

start-Kept :
    (p : Request → Bool) (n : ℕ) (requests : List Request) (disk : Disk)
    → Kept p n requests (start n requests disk)
unfolding start
start-Kept p n requests disk =
    let fresh = new_workers_lem p n in (omega (arith, fresh.0), inl fresh.1, fresh.2)

OnRunning-weaken :
    {P Q : Pool → Type 0} (r : Process) → OnRunning P r → ((s : Pool) → P s → Q s) → OnRunning Q r
OnRunning-weaken (running s) h k = k s h
OnRunning-weaken (exited code) h k = tt
OnRunning-weaken undefined h k = tt

empty : (queue : List Request) → length queue ≡ 0 → queue ≡ []
empty [] h = refl
empty (r ∷ queue) h = absurd (omega arith)

finished :
    (p : Request → Bool) (n : ℕ) (requests : List Request) (s : Pool)
    → 0 < n
    → Kept p n requests s
    → active s ≡ 0
    → (s.queue ≡ []) × (count p s.handled ≡ count p requests)
finished p n requests s pos kept over =
    let all = all_returned p s.workers over in
    let no_queue = empty s.queue (elim kept.1 [
      | inl no_one ↦ absurd (omega (arith, no_one, all.1, kept.2))
      | inr drained ↦ drained
    ]) in
    (no_queue, omega (arith, kept.0, all.0, ap (count p) no_queue))

-- In a pool that was started with one worker or more, once all workers have returned each request of
-- the workload has been worked on exactly as often as it stands there, whatever the schedule, unless
-- the process ended before.
pub run-handled :
    (can_write : Bytes → Bool) (minify_via_rpc : Bytes → ℕ × Bytes) (schedule : List ℕ) (n : ℕ)
    (requests : List Request) (disk : Disk) (p : Request → Bool)
    → 0 < n
    → OnRunning
        (λ s. active s ≡ 0 → (s.queue ≡ []) × (count p s.handled ≡ count p requests))
        (run can_write minify_via_rpc schedule (start n requests disk))
run-handled can_write minify_via_rpc schedule n requests disk p pos =
    OnRunning-weaken (run can_write minify_via_rpc schedule (start n requests disk))
      (run-OnRunning can_write minify_via_rpc (Kept p n requests) schedule (start n requests disk)
        (start-Kept p n requests disk)
        λ s s' kept m. (
          Moves-accounted p s s' m ∙ kept.0,
          Moves-Drained s s' kept.1 m,
          ap length m.put ∙ length-set_elem m.index (worker m.to m.code') s.workers ∙ kept.2,
        ))
      λ s kept over. finished p n requests s pos kept over
