-- ===== src/Minify/Fair.antt =====
-- The workers of rpc_mt/minifyjpeg_main.c under a schedule that lets each of them run again and again.
use intro_to_os.Base.{
  ℕ, zero, suc, ◌≡◌, ◌<◌, ◌≤◌, ◌⊎◌, inl, inr, refl, sym, ◌∙◌, ap, [], ◌∷◌, ◌++◌, List, Option, none,
  some, get_elem?, length, total, length-set_elem, total-get_elem?, Bool, arith, All, trichotomy,
}
use mathlib.Core.Path.{subst}
use intro_to_os.Text.{Bytes}
use intro_to_os.Minify.Worker.{
  Phase, waiting, testing, returned, working, worker, Worker, Pool, Process, running, exited,
  undefined, and_then, step_of, step, run,
}
use intro_to_os.Minify.Laws.{
  Effect, acquires, takes, leaves, finishes, Moves, Steps, OnRunning, step_of-Steps, run-OnRunning,
}
use intro_to_os.Minify.Once.{active, is_active}
use intro_to_os.Minify.Lock.{
  IsExclusive, Advanced, effort, measure, Moves-measure, Moves-IsExclusive, step-Advanced,
}

-- Each of `n` workers has a turn in this part of a schedule.
abbrev pub IsRound : (n : ℕ) → List ℕ → Type 0
IsRound n turns = (i : ℕ) → i < n → (k : ℕ) × (get_elem? turns k ≡ some i)

abbrev pub concat_turns : List (List ℕ) → List ℕ
concat_turns [] = []
concat_turns (turns ∷ rounds) = turns ++ concat_turns rounds

OnRunning-weaken :
    {P Q : Pool → Type 0} (r : Process) → OnRunning P r → ((s : Pool) → P s → Q s) → OnRunning Q r
OnRunning-weaken (running s) h k = k s h
OnRunning-weaken (exited status) h k = tt
OnRunning-weaken undefined h k = tt

OnRunning-bind :
    {P : Pool → Type 0} (Q : Pool → Type 0) (r : Process) (k : Pool → Process)
    → OnRunning P r
    → ((s : Pool) → P s → OnRunning Q (k s))
    → OnRunning Q (and_then r k)
OnRunning-bind Q (running s) k h next = next s h
OnRunning-bind Q (exited status) k h next = tt
OnRunning-bind Q undefined k h next = tt

OnRunning-both :
    (P Q : Pool → Type 0) (r : Process)
    → OnRunning P r
    → OnRunning Q r
    → OnRunning (λ s. P s × Q s) r
OnRunning-both P Q (running s) h k = (h, k)
OnRunning-both P Q (exited status) h k = tt
OnRunning-both P Q undefined h k = tt

and_then_assoc :
    (r : Process) (f g : Pool → Process)
    → and_then (and_then r f) g ≡ and_then r (λ s. and_then (f s) g)
and_then_assoc (running s) f g = refl
and_then_assoc (exited status) f g = refl
and_then_assoc undefined f g = refl

and_then_cong :
    (r : Process) (f g : Pool → Process) → ((s : Pool) → f s ≡ g s) → and_then r f ≡ and_then r g
and_then_cong (running s) f g h = h s
and_then_cong (exited status) f g h = refl
and_then_cong undefined f g h = refl

same_some : (a b : ℕ) → some a ≡ some b → a ≡ b
same_some a b e = cc

-- Only a worker that has not returned moves.
Effect-is_active : (s s' : Pool) (from to : Phase) → Effect s s' from to → 0 < is_active from
Effect-is_active s s' _ _ (acquires free taken queue handled) = omega arith
Effect-is_active s s' _ _ (takes r rs before free queue handled) = omega arith
Effect-is_active s s' _ _ (leaves before free queue handled) = omega arith
Effect-is_active s s' _ _ (finishes r lock queue handled) = omega arith

Moves-active : (s s' : Pool) → active s ≡ 0 → Moves s s' → active s' ≡ 0
Moves-active s s' over m = absurd (
    omega (
      arith,
      over,
      Effect-is_active s s' m.from m.to m.effect,
      total-get_elem? (λ (w : Worker). is_active w.phase) s.workers m.index (worker m.from m.code)
          m.got,
    ))

is_active-le : (phase : Phase) → is_active phase ≤ effort phase
is_active-le waiting = omega arith
is_active-le testing = omega arith
is_active-le returned = omega arith
is_active-le (working r) = omega arith

total-le : (ws : List Worker) → total (λ w. is_active w.phase) ws ≤ total (λ w. effort w.phase) ws
total-le [] = omega arith
total-le (w ∷ ws) = omega (arith, is_active-le w.phase, total-le ws)

pub Moves-length : (n : ℕ) (s s' : Pool) → length s.workers ≡ n → Moves s s' → length s'.workers ≡ n
Moves-length n s s' e m =
    ap length m.put ∙ length-set_elem m.index (worker m.to m.code') s.workers ∙ e

module _ (can_write : Bytes → Bool) (minify_via_rpc : Bytes → ℕ × Bytes) where
  run-append :
      (a b : List ℕ) (s : Pool)
      → run can_write minify_via_rpc (a ++ b) s
        ≡ and_then (run can_write minify_via_rpc a s) (run can_write minify_via_rpc b)
  unfolding run
  run-append [] b s = refl
  run-append (i ∷ a) b s =
      and_then_cong (step can_write minify_via_rpc i s) _ _ (run-append a b)
      ∙ sym (
          and_then_assoc (step can_write minify_via_rpc i s) (run can_write minify_via_rpc a)
            (run can_write minify_via_rpc b))

  -- A step leaves less to do or changes nothing.
  step-cases :
      (i : ℕ) (s : Pool) (w : Option Worker)
      → get_elem? s.workers i ≡ w
      → OnRunning (λ s'. Moves s s' ⊎ (s' ≡ s)) (step can_write minify_via_rpc i s)
  unfolding step
  step-cases i s none e = rw (e, step) (inr refl)
  step-cases i s (some w) e =
      rw (e, step)
        (OnRunning-weaken (step_of can_write minify_via_rpc i w.phase w.code s)
          (step_of-Steps can_write minify_via_rpc i w.code s w.phase e) λ s' steps. moved s' steps)
    where
      moved : (s' : Pool) → Steps s w.phase s' → Moves s s' ⊎ (s' ≡ s)
      moved s' (inl m) = inl m
      moved s' (inr (same, blocked)) = inr same

  run-least :
      (turns : List ℕ) (s : Pool)
      → OnRunning (λ s'. measure s' ≤ measure s) (run can_write minify_via_rpc turns s)
  run-least turns s =
      run-OnRunning can_write minify_via_rpc (λ s'. measure s' ≤ measure s) turns s (omega arith)
        λ t t' least m. omega (arith, least, Moves-measure t t' m)

  run-over :
      (turns : List ℕ) (s : Pool)
      → active s ≡ 0
      → OnRunning (λ s'. active s' ≡ 0) (run can_write minify_via_rpc turns s)
  run-over turns s over =
      run-OnRunning can_write minify_via_rpc (λ s'. active s' ≡ 0) turns s over Moves-active

  less_behind :
      (turns : List ℕ) (s s' : Pool)
      → measure s' < measure s
      → OnRunning (λ t. measure t < measure s) (run can_write minify_via_rpc turns s')
  less_behind turns s s' less =
      OnRunning-weaken (run can_write minify_via_rpc turns s') (run-least turns s')
        λ t least. omega (arith, least, less)

  -- If a step of one worker leaves less to do, then so do turns in which this worker has one.
  run-reaches :
      (turns : List ℕ) (k i : ℕ) (s : Pool)
      → get_elem? turns k ≡ some i
      → OnRunning (Advanced s) (step can_write minify_via_rpc i s)
      → OnRunning (λ t. measure t < measure s) (run can_write minify_via_rpc turns s)
  unfolding run
  run-reaches [] k i s got a = cc
  run-reaches (j ∷ turns) zero i s got a =
      OnRunning-bind (λ t. measure t < measure s) (step can_write minify_via_rpc j s)
        (run can_write minify_via_rpc turns)
        (subst (λ n. OnRunning (Advanced s) (step can_write minify_via_rpc n s))
          (same_some i j (sym got)) a)
        λ s' advanced. less_behind turns s s' advanced.0
  run-reaches (j ∷ turns) (suc k) i s got a =
      OnRunning-bind (λ t. measure t < measure s) (step can_write minify_via_rpc j s)
        (run can_write minify_via_rpc turns) (step-cases j s (get_elem? s.workers j) refl)
        λ s' moved. elim moved [
          | inl m ↦ less_behind turns s s' (Moves-measure s s' m)
          | inr same ↦
              subst
                (λ t. OnRunning (λ u. measure u < measure s) (run can_write minify_via_rpc turns t))
                (sym same) (run-reaches turns k i s got a)
        ]

  -- What a pool of `n` workers has come to: less is left to do, or all have returned.
  abbrev Nearer : ℕ → Pool → Pool → Type 0
  Nearer n s t =
      ((measure t < measure s) ⊎ (active t ≡ 0)) × (IsExclusive t × (length t.workers ≡ n))

  run-round :
      (n : ℕ) (turns : List ℕ) (s : Pool)
      → IsRound n turns
      → IsExclusive s
      → length s.workers ≡ n
      → OnRunning (Nearer n s) (run can_write minify_via_rpc turns s)
  run-round n turns s round h size =
      OnRunning-both (λ t. (measure t < measure s) ⊎ (active t ≡ 0)) _
        (run can_write minify_via_rpc turns s)
        (elim (trichotomy 0 (active s)) [
          | inl some_left ↦
              let (i, lt, a) = step-Advanced can_write minify_via_rpc s h some_left in
              let (k, got) = round i (omega (arith, lt, size)) in
              OnRunning-weaken (run can_write minify_via_rpc turns s)
                (run-reaches turns k i s got a) λ t less. inl less
          | inr none_left ↦
              OnRunning-weaken (run can_write minify_via_rpc turns s)
                (run-over turns s (grind arith)) λ t over. inr over
        ])
        (OnRunning-both IsExclusive (λ t. length t.workers ≡ n)
          (run can_write minify_via_rpc turns s)
          (run-OnRunning can_write minify_via_rpc IsExclusive turns s h Moves-IsExclusive)
          (run-OnRunning can_write minify_via_rpc (λ t. length t.workers ≡ n) turns s size
            (Moves-length n)))

  pub run-rounds :
      (n : ℕ) (rounds : List (List ℕ)) (s : Pool)
      → All (IsRound n) rounds
      → IsExclusive s
      → length s.workers ≡ n
      → measure s ≤ length rounds
      → OnRunning (λ t. active t ≡ 0) (run can_write minify_via_rpc (concat_turns rounds) s)
  unfolding run
  run-rounds n [] s all h size few = omega (arith, few, total-le s.workers)
  run-rounds n (turns ∷ rounds) s all h size few =
      subst (OnRunning (λ t. active t ≡ 0)) (sym (run-append turns (concat_turns rounds) s)) (
        OnRunning-bind (λ t. active t ≡ 0) (run can_write minify_via_rpc turns s)
          (run can_write minify_via_rpc (concat_turns rounds)) (run-round n turns s all.0 h size)
          λ t (nearer, (exclusive, same_size)). elim nearer [
            | inl less ↦ run-rounds n rounds t all.1 exclusive same_size (omega (arith, few, less))
            | inr over ↦ run-over (concat_turns rounds) t over
          ])
