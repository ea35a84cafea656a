-- ===== src/Steque/Rep.antt =====
-- What it means that a steque stands for a list of cells, and the commands of the memory at such
-- cells (for mtgf/steque.c).
use intro_to_os.Base.{
  ◌≡◌, ◌≢◌, refl, Bool, true, false, ◌||◌, ==_refl, Option, some, none, [], ◌∷◌, arith, ◌==◌,
  length,
}
use intro_to_os.Steque.{Steque, steque_init}
use intro_to_os.Steque.Memory.{
  Ptr, null, Item, Node, node, Memory, put, Outcome, read, create, link, free,
}
use intro_to_os.Steque.Chain.{Cells, has, head_of, last_from, last_item, Chain, Chain-last}

-- `this` stands for the nodes `xs` of the memory.
pub record Rep (m : Memory) (this : Steque) (xs : Cells) : Type 0 where
  pub chain : Chain m null xs
  pub front : this.front ≡ head_of null xs
  pub back : this.back ≡ last_from null xs
  pub count : this.count ≡ length xs

-- No node changed but at the addresses of `xs`.
abbrev pub SameOutside : Cells → Memory → Memory → Type 0
SameOutside xs m m' = (p : Ptr) → has p xs ≡ false → m' p ≡ m p

Rep-init : (m : Memory) → Rep m steque_init []
unfolding steque_init
Rep-init m = record { chain = tt; front = refl; back = refl; count = refl }

-- The last address of a chain is no null pointer.
pub last-ne_null :
    (m : Memory) (stop a : Ptr) (v : Item) (xs : Cells)
    → Chain m stop ((a, v) ∷ xs)
    → last_from a xs ≢ null
last-ne_null m stop a v [] h = h.0
last-ne_null m stop a v ((b, w) ∷ xs) h = last-ne_null m stop b w xs h.3

pub create-done :
    (m : Memory) (p : Ptr) (n : Node) → p ≢ null → create p n m ≡ Outcome.done tt (put p (some n) m)
unfolding create
create-done m p n h = ground arith

pub put_self : (m : Memory) (p : Ptr) (c : Option Node) → put p c m p ≡ c
put_self m p c = rw ==_refl

pub or-left : (a b : Bool) → (a || b) ≡ false → a ≡ false
or-left true b e = e
or-left false b e = refl

pub or-right : (a b : Bool) → (a || b) ≡ false → b ≡ false
or-right true b e = cc
or-right false b e = e

pub ne_null→test : (p : Ptr) → p ≢ null → (p == null) ≡ false
ne_null→test p h = ground arith

module _ (m : Memory) where
  pub read-node : (a : Ptr) (n : Node) → a ≢ null → m a ≡ some n → read a m ≡ Outcome.done n m
  unfolding read
  read-node a n h e = rw (ne_null→test a h, e)

  pub link-node :
      (a q : Ptr) (n : Node)
      → a ≢ null
      → m a ≡ some n
      → link a q m ≡ Outcome.done tt (put a (some (node n.item q)) m)
  unfolding link
  link-node a q n h e = rw (read-node a n h e)

  pub free-node :
      (a : Ptr) (n : Node) → a ≢ null → m a ≡ some n → free a m ≡ Outcome.done tt (put a none m)
  unfolding free
  free-node a n h e = rw (read-node a n h e)

-- `link` at the last node of a chain.
pub link-last :
    (m : Memory) (stop end a : Ptr) (v : Item) (xs : Cells)
    → Chain m stop ((a, v) ∷ xs)
    → link (last_from a xs) end m
      ≡ Outcome.done tt (put (last_from a xs) (some (node (last_item v xs) end)) m)
link-last m stop end a v xs h =
    link-node m (last_from a xs) end (node (last_item v xs) stop) (last-ne_null m stop a v xs h)
      (Chain-last m stop a v xs h)
