-- ===== src/Steque/Copies.antt =====
-- cache/steque.c and server/steque.c of gios-spr-2018-pr3-master, which are one text: that of mtgf/steque.c but
-- for the status with which an underflow ends the process.
use intro_to_os.Base.{
  ℕ, zero, suc, ◌+◌, ◌-◌, ◌≡◌, refl, true, false, not, ◌==◌, if◌then◌else◌, ap, ◌∙◌, Bool-cases,
  inl, inr, arith,
}
use intro_to_os.Steque.{Steque, steque_isempty}
use intro_to_os.Steque as Mtgf
use intro_to_os.Steque.Memory.{
  null, Item, Command, Outcome, exited, undefined, return, exit, ◌>>=◌, ◌>>◌, read, free, continue,
  Memory,
}

-- `exit(-1)`
abbrev pub steque_failure : ℕ
steque_failure = 255

unfoldable pub steque_pop : Steque → Command (Item × Steque)
steque_pop this = if this.front == null then exit steque_failure else do
  n ← read this.front
  free this.front
  return (
    n.item,
    record {
      front = n.next;
      back = if n.next == null then null else this.back;
      count = this.count - 1;
    },
  )

unfoldable pub steque_front : Steque → Command Item
steque_front this =
    if this.front == null then exit steque_failure else do n ← read this.front; return n.item

unfoldable pub destroy_loop : ℕ → Steque → Command Steque
unfolding steque_pop steque_isempty
destroy_loop zero this = λ m. undefined
destroy_loop (suc fuel) this = elim (not (steque_isempty this)) [
  | true ↦ steque_pop this >>= λ (item, rest). destroy_loop fuel rest
  | false ↦ return this
]

unfoldable pub steque_destroy : Steque → Command Steque
unfolding destroy_loop
steque_destroy this = destroy_loop (this.count + 1) this

-- The same end, but for the status of an exit.
abbrev failing : {A : Type 0} → Outcome A → Outcome A
failing (Outcome.done a m) = Outcome.done a m
failing (exited status) = exited steque_failure
failing undefined = undefined

failing-continue :
    {A B : Type 0} (o : Outcome A) (k k' : A → Command B)
    → ((a : A) (m : Memory) → k' a m ≡ failing (k a m))
    → continue (failing o) k' ≡ failing (continue o k)
failing-continue (Outcome.done a m) k k' h = h a m
failing-continue (exited status) k k' h = refl
failing-continue undefined k k' h = refl

steque_pop-failing :
    (this : Steque) (m : Memory) → steque_pop this m ≡ failing (Mtgf.steque_pop this m)
unfolding steque_pop Mtgf.steque_pop read free
steque_pop-failing this m = ground arith

steque_front-failing :
    (this : Steque) (m : Memory) → steque_front this m ≡ failing (Mtgf.steque_front this m)
unfolding steque_front Mtgf.steque_front read
steque_front-failing this m = ground arith

destroy_loop-failing :
    (fuel : ℕ) (this : Steque) (m : Memory)
    → destroy_loop fuel this m ≡ failing (Mtgf.destroy_loop fuel this m)
unfolding destroy_loop Mtgf.destroy_loop
destroy_loop-failing zero this m = refl
destroy_loop-failing (suc fuel) this m = elim (Bool-cases (steque_isempty this)) [
  | inl empty ↦ rw (empty, destroy_loop, Mtgf.destroy_loop) refl
  | inr filled ↦
      rw (filled, destroy_loop, Mtgf.destroy_loop)
        (ap (λ o. continue o λ (item, rest). destroy_loop fuel rest) (steque_pop-failing this m)
          ∙ failing-continue (Mtgf.steque_pop this m) _ _ λ a m'. destroy_loop-failing fuel a.1 m')
]

-- Each function ends as that of mtgf/steque.c does, but that an underflow gives the status -1.
copies-failing :
    (this : Steque) (m : Memory)
    → (steque_pop this m ≡ failing (Mtgf.steque_pop this m))
      × (steque_front this m ≡ failing (Mtgf.steque_front this m))
      × (steque_destroy this m ≡ failing (Mtgf.steque_destroy this m))
unfolding steque_destroy Mtgf.steque_destroy
copies-failing this m = (
  steque_pop-failing this m,
  steque_front-failing this m,
  destroy_loop-failing (this.count + 1) this m,
)
