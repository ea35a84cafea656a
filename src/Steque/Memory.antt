-- ===== src/Steque/Memory.antt =====
-- The memory that steque.c works on: nodes at addresses, commands that read, write and free
-- them, and total correctness of a command.
use intro_to_os.Base.{ℕ, Option, none, some, ◌==◌, if◌then◌else◌}

abbrev pub Ptr : Type 0
Ptr = ℕ

abbrev pub null : Ptr
null = 0

-- A `steque_item` is a `void *`.
abbrev pub Item : Type 0
Item = ℕ

-- struct node
pub record Node : Type 0 where
  pub item : Item
  pub next : Ptr

abbrev pub node : Item → Ptr → Node
node v q = record { item = v; next = q }

-- The allocated nodes.
abbrev pub Memory : Type 0
Memory = Ptr → Option Node

abbrev pub put : Ptr → Option Node → Memory → Memory
put p c m = λ a. if a == p then c else m a

-- How a command ends: with a result, by `exit`, or in undefined behaviour.
pub data Outcome (A : Type 0) : Type 0 where
  done : A → Memory → Outcome A
  exited : ℕ → Outcome A
  undefined : Outcome A

abbrev pub Command : Type 0 → Type 0
Command A = Memory → Outcome A

abbrev pub return : {A : Type 0} → A → Command A
return = done

abbrev pub exit : {A : Type 0} → ℕ → Command A
exit code m = exited code

module _ {A B : Type 0} where
  abbrev pub continue : Outcome A → (A → Command B) → Outcome B
  continue (done a m) k = k a m
  continue (exited code) k = exited code
  continue undefined k = undefined

  infixl 5 ◌>>=◌ ◌>>◌
  abbrev pub ◌>>=◌ : Command A → (A → Command B) → Command B
  c >>= k = λ m. continue (c m) k

  abbrev pub ◌>>◌ : Command A → Command B → Command B
  c >> d = c >>= λ _. d

-- A read of `*p`: undefined unless a node stands at `p`.
unfoldable pub read : Ptr → Command Node
read p m = if p == null then undefined else elim (m p) [ none ↦ undefined | some n ↦ done n m ]

-- `malloc` returned `p`, and both fields are assigned. The code does not test for NULL.
unfoldable pub create : Ptr → Node → Command (Unit {0})
create p n m = if p == null then undefined else done tt (put p (some n) m)

-- `p->next = q`
unfoldable pub link : Ptr → Ptr → Command (Unit {0})
unfolding read
link p q = do n ← read p; λ m. done tt (put p (some (node n.item q)) m)

unfoldable pub free : Ptr → Command (Unit {0})
unfolding read
free p = do n ← read p; λ m. done tt (put p none m)

-- The command ends normally, in a result and a memory that satisfy `P`.
abbrev pub Returns : {A : Type 0} → (A → Memory → Type 0) → Outcome A → Type 0
Returns P (done a m) = P a m
Returns P (exited code) = ⊥
Returns P undefined = ⊥
