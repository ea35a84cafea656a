-- ===== src/Minify/Idle.antt =====
-- The workers of the RPC client where there is no request left.
use intro_to_os.Base.{ℕ, ◌≡◌, Bool, true, false, refl, ◌∙◌, ap, [], List, map, arith}
use intro_to_os.Base.{total, total-set_elem, map-set_elem}
use intro_to_os.Minify.Worker.{Phase, waiting, Worker, worker, Pool}
use intro_to_os.Minify.Laws.{Effect, acquires, takes, leaves, finishes, Moves, is_working}
use intro_to_os.Minify.Once.{one}
use intro_to_os.Minify.Program.{code_of}

-- No one has a request, and the workers would return these codes.
abbrev pub IsIdle : List ℕ → Pool → Type 0
IsIdle codes s =
    (s.queue ≡ [])
    × (total (λ w. one (is_working w.phase)) s.workers ≡ 0)
    × (map code_of s.workers ≡ codes)

Effect-IsIdle :
    (s s' : Pool) (from to : Phase)
    → Effect s s' from to
    → s.queue ≡ []
    → is_working from ≡ false
    → (s'.queue ≡ []) × (is_working to ≡ false)
Effect-IsIdle s s' _ _ (acquires free taken queue handled) e idle = (queue ∙ e, refl)
Effect-IsIdle s s' _ _ (takes r rs before free queue handled) e idle = cc
Effect-IsIdle s s' _ _ (leaves before free queue handled) e idle = (queue ∙ e, refl)
Effect-IsIdle s s' _ _ (finishes r lock queue handled) e idle = cc

one-false : (b : Bool) → one b ≡ 0 → b ≡ false
one-false true e = absurd (omega (arith, e))
one-false false e = refl

pub Moves-IsIdle : (codes : List ℕ) (s s' : Pool) → IsIdle codes s → Moves s s' → IsIdle codes s'
Moves-IsIdle codes s s' (empty, none_works, same) m =
    let weight = λ (w : Worker). one (is_working w.phase) in
    let from_idle : is_working m.from ≡ false = one-false _ (
      omega (
        arith,
        none_works,
        total-set_elem weight m.index (worker m.from m.code) (worker waiting 0) s.workers m.got,
      )) in
    let (empty', to_idle) = Effect-IsIdle s s' m.from m.to m.effect empty from_idle in
    (
      empty',
      omega (
        arith,
        none_works,
        ap (total weight) m.put,
        ap one to_idle,
        total-set_elem weight m.index (worker m.from m.code) (worker m.to m.code') s.workers m.got,
      ),
      ap (map code_of) m.put
          ∙ map-set_elem code_of m.index (worker m.from m.code) (worker m.to m.code') s.workers
              m.got (m.kept from_idle)
          ∙ same,
    )
