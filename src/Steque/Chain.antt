-- ===== src/Steque/Chain.antt =====
-- What a chain of nodes stands for, and what writes do to it (for mtgf/steque.c).
use intro_to_os.Base.{
  suc, ◌≡◌, ◌≢◌, refl, Bool, true, false, ◌||◌, some, none, Option, List, [], ◌∷◌, ◌++◌, arith, ◌∙◌,
  ◌==◌, map, length,
}
use intro_to_os.Steque.Memory.{Ptr, null, Item, Node, node, Memory, put}

-- The address and the item of each node, from the front to the back.
abbrev pub Cells : Type 0
Cells = List (Ptr × Item)

-- The contents alone, without the addresses.
abbrev pub items_of : Cells → List Item
items_of = map (λ (a, v). v)

abbrev pub has : Ptr → Cells → Bool
has p [] = false
has p ((a, v) ∷ xs) = (p == a) || has p xs

abbrev pub head_of : Ptr → Cells → Ptr
head_of stop [] = stop
head_of stop ((a, v) ∷ xs) = a

abbrev pub last_from : Ptr → Cells → Ptr
last_from p [] = p
last_from p ((a, v) ∷ xs) = last_from a xs

abbrev pub last_item : Item → Cells → Item
last_item w [] = w
last_item w ((a, v) ∷ xs) = last_item v xs

-- Distinct nodes, each with its item and the address of the next one; the last leads to `stop`.
abbrev pub Chain : Memory → Ptr → Cells → Type 0
Chain m stop [] = Unit
Chain m stop ((a, v) ∷ xs) =
    (a ≢ null) × (has a xs ≡ false) × (m a ≡ some (node v (head_of stop xs))) × Chain m stop xs

pub Chain-put :
    (m : Memory) (stop p : Ptr) (c : Option Node) (xs : Cells)
    → Chain m stop xs
    → has p xs ≡ false
    → Chain (put p c m) stop xs
Chain-put m stop p c [] h out = tt
Chain-put m stop p c ((a, v) ∷ xs) h out =
    (h.0, h.1, ground arith, Chain-put m stop p c xs h.3 (ground arith))

pub has-last_from : (p : Ptr) (w : Item) (xs : Cells) → has (last_from p xs) ((p, w) ∷ xs) ≡ true
has-last_from p w [] = ground arith
has-last_from p w ((a, v) ∷ xs) = ground (arith, has-last_from a v xs)

pub Chain-last :
    (m : Memory) (stop a : Ptr) (v : Item) (xs : Cells)
    → Chain m stop ((a, v) ∷ xs)
    → m (last_from a xs) ≡ some (node (last_item v xs) stop)
Chain-last m stop a v [] h = h.2
Chain-last m stop a v ((b, w) ∷ xs) h = Chain-last m stop b w xs h.3

pub ne_of_has : (a b : Ptr) (xs : Cells) → has a xs ≡ false → has b xs ≡ true → (a == b) ≡ false
ne_of_has a b [] out mem = cc
ne_of_has a b ((c, v) ∷ xs) out mem = ground (arith, ne_of_has a b xs)

pub put_other : (m : Memory) (p a : Ptr) (c : Option Node) → (a == p) ≡ false → put p c m a ≡ m a
put_other m p a c e = rw e

-- To redirect the last node is to change where the chain ends.
pub Chain-redirect :
    (m : Memory) (stop end a : Ptr) (v : Item) (xs : Cells)
    → Chain m stop ((a, v) ∷ xs)
    → Chain (put (last_from a xs) (some (node (last_item v xs) end)) m) end ((a, v) ∷ xs)
Chain-redirect m stop end a v [] h = (h.0, h.1, ground arith, tt)
Chain-redirect m stop end a v ((b, w) ∷ xs) h = (
  h.0,
  h.1,
  put_other m (last_from b xs) a _
        (ne_of_has a (last_from b xs) ((b, w) ∷ xs) h.1 (has-last_from b w xs))
      ∙ h.2,
  Chain-redirect m stop end b w xs h.3,
)

head_of-append_one :
    (stop p : Ptr) (v : Item) (xs : Cells) → head_of stop (xs ++ (p, v) ∷ []) ≡ head_of p xs
head_of-append_one stop p v [] = refl
head_of-append_one stop p v ((a, w) ∷ xs) = refl

has-append_one :
    (q p : Ptr) (v : Item) (xs : Cells) → has q (xs ++ (p, v) ∷ []) ≡ ((q == p) || has q xs)
has-append_one q p v [] = refl
has-append_one q p v ((a, w) ∷ xs) = ground (arith, has-append_one q p v xs)

pub last_from-append_one : (q p : Ptr) (v : Item) (xs : Cells) → last_from q (xs ++ (p, v) ∷ []) ≡ p
last_from-append_one q p v [] = refl
last_from-append_one q p v ((a, w) ∷ xs) = last_from-append_one a p v xs

-- A chain that ends at a node of its own can be extended by that node.
pub Chain-append_one :
    (m : Memory) (p : Ptr) (v : Item) (xs : Cells)
    → Chain m p xs
    → p ≢ null
    → has p xs ≡ false
    → m p ≡ some (node v null)
    → Chain m null (xs ++ (p, v) ∷ [])
Chain-append_one m p v [] h ne out e = (ne, refl, e, tt)
Chain-append_one m p v ((a, w) ∷ xs) h ne out e = (
  h.0,
  ground (arith, has-append_one a p v xs),
  ground (arith, head_of-append_one null p v xs),
  Chain-append_one m p v xs h.3 ne (ground arith) e,
)

-- An address that holds no node is not in a chain.
pub not-has_of_none :
    (m : Memory) (stop p : Ptr) (xs : Cells) → Chain m stop xs → m p ≡ none → has p xs ≡ false
not-has_of_none m stop p [] h e = refl
not-has_of_none m stop p ((a, v) ∷ xs) h e = ground (arith, not-has_of_none m stop p xs h.3 e)

items_of-append_one :
    (p : Ptr) (v : Item) (xs : Cells) → items_of (xs ++ (p, v) ∷ []) ≡ items_of xs ++ v ∷ []
items_of-append_one p v [] = refl
items_of-append_one p v ((a, w) ∷ xs) = ground (arith, items_of-append_one p v xs)

pub length-append_one :
    (p : Ptr) (v : Item) (xs : Cells) → length (xs ++ (p, v) ∷ []) ≡ suc (length xs)
length-append_one p v [] = refl
length-append_one p v ((a, w) ∷ xs) = omega (arith, length-append_one p v xs)
