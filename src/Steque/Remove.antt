-- ===== src/Steque/Remove.antt =====
-- `steque_pop`, `steque_front`, `steque_destroy` and the size tests of mtgf/steque.c on the cells
-- of a steque.
use intro_to_os.Base.{
  ℕ, suc, ◌+◌, ◌≡◌, refl, ◌↔◌, true, false, ◌∙◌, ap, ◌↔◌, none, [], ◌∷◌, arith, ◌==◌, if◌then◌else◌,
  length, ◌<◌, zero,
}
use intro_to_os.Steque.{
  Steque, steque_pop, steque_front, steque_size, steque_isempty, steque_destroy, destroy_loop,
  exit_failure,
}
use intro_to_os.Steque.Memory.{
  Ptr, null, Item, Memory, put, Command, continue, Outcome, exited, Returns,
}
use intro_to_os.Steque.Chain.{Cells, has, head_of, last_from, Chain, Chain-put}
use intro_to_os.Steque.Rep.{Rep, ne_null→test, read-node, free-node}

module _ (m : Memory) (this : Steque) where
  pop_back :
      (b : Ptr) (a : Ptr) (xs : Cells)
      → Chain m null xs
      → b ≡ last_from a xs
      → (if head_of null xs == null then null else b) ≡ last_from null xs
  pop_back b a [] h e = refl
  pop_back b a ((c, w) ∷ xs) h e = rw (ne_null→test c h.0) e

  -- Popping returns the front item, frees its node and leaves the rest.
  pub pop-cons :
      (a : Ptr) (v : Item) (xs : Cells)
      → Rep m this ((a, v) ∷ xs)
      → Returns
          (λ (item, this') m'. (item ≡ v) × (m' ≡ put a none m) × Rep m' this' xs)
          (steque_pop this m)
  unfolding steque_pop
  pop-cons a v xs r =
      rw
        (
          r.front,
          ne_null→test a r.chain.0,
          read-node m a _ r.chain.0 r.chain.2,
          free-node m a _ r.chain.0 r.chain.2,
        )
        (
          refl,
          refl,
          record {
            chain = Chain-put m null a none xs r.chain.3 r.chain.1;
            front = refl;
            back = pop_back this.back a xs r.chain.3 r.back;
            count = omega (arith, r.count);
          },
        )

  pop-nil : Rep m this [] → steque_pop this m ≡ exited exit_failure
  unfolding steque_pop
  pop-nil r = rw r.front

  front-cons :
      (a : Ptr) (v : Item) (xs : Cells)
      → Rep m this ((a, v) ∷ xs)
      → steque_front this m ≡ Outcome.done v m
  unfolding steque_front
  front-cons a v xs r = rw (r.front, ne_null→test a r.chain.0, read-node m a _ r.chain.0 r.chain.2)

  front-nil : Rep m this [] → steque_front this m ≡ exited exit_failure
  unfolding steque_front
  front-nil r = rw r.front

-- Exactly the nodes of `xs` are given back.
abbrev pub Freed : Cells → Memory → Memory → Type 0
Freed xs m m' = (p : Ptr) → m' p ≡ (if has p xs then none else m p)

Freed-cons :
    (a p : Ptr) (v : Item) (xs : Cells) (m m' : Memory)
    → m' p ≡ (if has p xs then none else put a none m p)
    → m' p ≡ (if has p ((a, v) ∷ xs) then none else m p)
Freed-cons a p v xs m m' h = ground arith

Returns-mono :
    {A : Type 0} {P Q : A → Memory → Type 0} (o : Outcome A)
    → Returns P o
    → ((a : A) (m : Memory) → P a m → Q a m)
    → Returns Q o
Returns-mono (Outcome.done a m) h k = k a m h
Returns-mono (exited code) h k = h
Returns-mono Outcome.undefined h k = h

Returns-bind :
    {A B : Type 0} {P : A → Memory → Type 0} (Q : B → Memory → Type 0) (o : Outcome A)
    (k : A → Command B)
    → Returns P o
    → ((a : A) (m : Memory) → P a m → Returns Q (k a m))
    → Returns Q (continue o k)
Returns-bind Q (Outcome.done a m) k h next = next a m h
Returns-bind Q (exited code) k h next = absurd h
Returns-bind Q Outcome.undefined k h next = absurd h

isempty-nil : (m : Memory) (this : Steque) → Rep m this [] → steque_isempty this ≡ true
unfolding steque_isempty
isempty-nil m this r = rw r.count

isempty-cons :
    (m : Memory) (this : Steque) (c : Ptr × Item) (xs : Cells)
    → Rep m this (c ∷ xs)
    → steque_isempty this ≡ false
unfolding steque_isempty
isempty-cons m this c xs r = ground (arith, r.count)

destroy_loop-Freed :
    (fuel : ℕ) (m : Memory) (this : Steque) (xs : Cells)
    → length xs < fuel
    → Rep m this xs
    → Returns (λ this' m'. Rep m' this' [] × Freed xs m m') (destroy_loop fuel this m)
unfolding destroy_loop
destroy_loop-Freed zero m this xs lt r = absurd (omega arith)
destroy_loop-Freed (suc fuel) m this [] lt r =
    rw (isempty-nil m this r, destroy_loop) (r, λ p. refl)
destroy_loop-Freed (suc fuel) m this ((a, v) ∷ xs) lt r =
    rw (isempty-cons m this (a, v) xs r, destroy_loop)
      (Returns-bind _ (steque_pop this m) _ (pop-cons m this a v xs r)
        λ (item, this') m' (e, f, r').
          Returns-mono (destroy_loop fuel this' m')
            (destroy_loop-Freed fuel m' this' xs (omega arith) r')
            λ end m2 (re, fr). (
              re,
              λ p.
                  Freed-cons a p v xs m m2
                    (fr p ∙ ap (λ (g : Memory). if has p xs then none else g p) f),
            ))

-- `steque_destroy` empties the steque and frees each node once.
pub destroy_lem :
    (m : Memory) (this : Steque) (xs : Cells)
    → Rep m this xs
    → Returns (λ this' m'. Rep m' this' [] × Freed xs m m') (steque_destroy this m)
unfolding steque_destroy
destroy_lem m this xs r = destroy_loop-Freed (this.count + 1) m this xs (omega (arith, r.count)) r

-- `steque_size` and `steque_isempty` tell the number of items.
size_lem :
    (m : Memory) (this : Steque) (xs : Cells)
    → Rep m this xs
    → (steque_size this ≡ length xs) × ((steque_isempty this ≡ true) ↔ (xs ≡ []))
unfolding steque_size
size_lem m this [] r = (r.count, ((λ _. refl), λ _. isempty-nil m this r))
size_lem m this (c ∷ xs) r = (r.count, ((λ e. cc (isempty-cons m this c xs r)), λ e. cc))
