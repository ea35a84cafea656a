-- ===== src/Steque.antt =====
-- The functions of gios-spr-2018-pr1-master/mtgf/steque.c, a stack-ended queue of linked nodes.
-- A `steque_t` lives outside the memory of nodes, so a function that updates one returns it.
pub mod Memory
pub mod Chain
pub mod Rep
pub mod Insert
pub mod Remove
pub mod Cycle
pub mod Copies
use intro_to_os.Base.{ℕ, zero, suc, ◌+◌, ◌-◌, ◌^◌, ltb, Bool, true, false, not, ◌==◌, if◌then◌else◌}
use Memory.{
  Ptr, null, Item, node, Command, undefined, return, exit, ◌>>=◌, ◌>>◌, read, create, link, free,
}

-- steque_t. `count` is the field `N`, an `int`: a function that would count past `int_max` is undefined
-- there.
pub record Steque : Type 0 where
  pub front : Ptr
  pub back : Ptr
  pub count : ℕ

abbrev pub exit_failure : ℕ
exit_failure = 1

unfoldable pub steque_init : Steque
steque_init = record { front = null; back = null; count = 0 }

abbrev pub int_max : ℕ
int_max = 2 ^ 31 - 1

-- `N++`, which overflows the `int` at its largest value.
unfoldable pub count_up : Steque → Command Steque
count_up this m =
    if ltb this.count int_max then return (record this { count = this.count + 1 }) m else undefined

-- `fresh` is what `malloc` returns.
unfoldable pub steque_enqueue : (fresh : Ptr) → Steque → Item → Command Steque
unfolding count_up
steque_enqueue fresh this item =
    if this.back == null
    then (do
      create fresh (node item null)
      count_up (record { front = fresh; back = fresh; count = this.count }))
    else do
      create fresh (node item null)
      link this.back fresh
      count_up (record this { back = fresh })

unfoldable pub steque_push : (fresh : Ptr) → Steque → Item → Command Steque
unfolding count_up
steque_push fresh this item = do
  create fresh (node item this.front)
  count_up (record {
    front = fresh;
    back = if this.back == null then fresh else this.back;
    count = this.count;
  })

unfoldable pub steque_size : Steque → ℕ
steque_size this = this.count

unfoldable pub steque_isempty : Steque → Bool
steque_isempty this = this.count == 0

unfoldable pub steque_pop : Steque → Command (Item × Steque)
steque_pop this = if this.front == null then exit exit_failure else do
  n ← read this.front
  free this.front
  return (
    n.item,
    record {
      front = n.next;
      back = if n.next == null then null else this.back;
      count = this.count - 1;
    },
  )

-- The four assignments in the order of the source.
unfoldable pub steque_cycle : Steque → Command Steque
steque_cycle this = if this.back == null then return this else do
  link this.back this.front
  n ← read this.front
  link this.front null
  return (record this { front = n.next; back = this.front })

unfoldable pub steque_front : Steque → Command Item
steque_front this =
    if this.front == null then exit exit_failure else do n ← read this.front; return n.item

-- The loop of `steque_destroy`, on fuel.
unfoldable pub destroy_loop : ℕ → Steque → Command Steque
unfolding steque_pop steque_isempty
destroy_loop zero this = λ m. undefined
destroy_loop (suc fuel) this = elim (not (steque_isempty this)) [
  | true ↦ steque_pop this >>= λ (item, rest). destroy_loop fuel rest
  | false ↦ return this
]

-- It runs one round for each node and tests `steque_isempty` once more.
unfoldable pub steque_destroy : Steque → Command Steque
unfolding destroy_loop
steque_destroy this = destroy_loop (this.count + 1) this
