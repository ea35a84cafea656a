-- ===== src/Minify/Join.antt =====
-- What the join loop of `main` in rpc_mt/minifyjpeg_main.c comes to.
use intro_to_os.Base.{
  ℕ, zero, suc, ◌+◌, ◌≡◌, inl, inr, refl, ap, [], ◌∷◌, List, Option, some, ◌==◌, ==_iff,
  if◌then◌else◌, length, Bool-cases,
}
use intro_to_os.Minify.Main.{drain, join_loop}

-- The numbers of `count` threads from `i` on.
abbrev pub threads_from : (i count : ℕ) → List ℕ
threads_from i zero = []
threads_from i (suc count) = i ∷ threads_from (i + 1) count

-- The first code that is not 0; or 0, if there is a code; or what was there before.
abbrev pub first_failure : Option ℕ → List ℕ → Option ℕ
first_failure before [] = before
first_failure before (c ∷ codes) = if c == 0 then first_failure (some 0) codes else some c

drain_lem : (i : ℕ) (codes : List ℕ) → drain i codes ≡ threads_from i (length codes)
unfolding drain
drain_lem i [] = refl
drain_lem i (c ∷ codes) = ap (λ is. i ∷ is) (drain_lem (i + 1) codes)

-- The loop joins each thread once and in order, whatever the threads return, and `main` returns the
-- first code that is not 0, or 0 if there is none; with no thread it returns what was never assigned.
pub join_loop_lem :
    (i : ℕ) (before : Option ℕ) (codes : List ℕ)
    → join_loop i before codes ≡ (threads_from i (length codes), first_failure before codes)
unfolding join_loop
join_loop_lem i before [] = refl
join_loop_lem i before (c ∷ codes) = elim (Bool-cases (c == 0)) [
  | inl zero_code ↦
      rw (zero_code, join_loop_lem (i + 1) (some c) codes, join_loop)
        (ap (λ n. (i ∷ threads_from (i + 1) (length codes), first_failure (some n) codes))
          ((==_iff c 0).0 zero_code))
  | inr failed ↦ rw (failed, drain_lem (i + 1) codes, join_loop) refl
]
