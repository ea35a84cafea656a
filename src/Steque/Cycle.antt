-- ===== src/Steque/Cycle.antt =====
-- `steque_cycle` of mtgf/steque.c on the cells of a steque.
use intro_to_os.Base.{◌≡◌, refl, true, false, sym, ◌∙◌, some, [], ◌∷◌, ◌++◌, arith, ◌==◌}
use intro_to_os.Steque.{Steque, steque_cycle}
use intro_to_os.Steque.Memory.{Ptr, null, Item, node, Memory, put, Returns}
use intro_to_os.Steque.Chain.{
  Cells, has, last_from, last_item, Chain, Chain-put, has-last_from, ne_of_has, put_other,
  Chain-redirect, last_from-append_one, Chain-append_one, length-append_one,
}
use intro_to_os.Steque.Rep.{
  Rep, SameOutside, last-ne_null, link-last, put_self, or-left, or-right, ne_null→test, read-node,
  link-node,
}

abbrev pub Cycled : Memory → Ptr → Item → Cells → Steque → Memory → Type 0
Cycled m a v xs this' m' = Rep m' this' (xs ++ (a, v) ∷ []) × SameOutside ((a, v) ∷ xs) m m'

module _ (m : Memory) (this : Steque) (a : Ptr) (v : Item) where
  cycle_one : Rep m this ((a, v) ∷ []) → Returns (Cycled m a v []) (steque_cycle this m)
  unfolding steque_cycle
  cycle_one r =
      let m1 : Memory = put a (some (node v a)) m in
      rw
        (
          r.back,
          r.front,
          ne_null→test a r.chain.0,
          link-node m a a (node v null) r.chain.0 r.chain.2,
          read-node m1 a (node v a) r.chain.0 (put_self m a _),
          link-node m1 a null (node v a) r.chain.0 (put_self m a _),
        )
        (
          record {
            chain = (r.chain.0, refl, put_self m1 a _, tt);
            front = refl;
            back = refl;
            count = r.count;
          },
          λ p o. put_other m1 a p _ (or-left _ _ o) ∙ put_other m a p _ (or-left _ _ o),
        )

  cycle_more :
      (b : Ptr) (w : Item) (ys : Cells)
      → Rep m this ((a, v) ∷ (b, w) ∷ ys)
      → Returns (Cycled m a v ((b, w) ∷ ys)) (steque_cycle this m)
  unfolding steque_cycle
  cycle_more b w ys r =
      let cells : Cells = (b, w) ∷ ys in
      let end : Ptr = last_from b ys in
      let m1 : Memory = put end (some (node (last_item w ys) a)) m in
      let mem : has end cells ≡ true = has-last_from b w ys in
      let apart : (a == end) ≡ false = ne_of_has a end cells r.chain.1 mem in
      let e1 : m1 a ≡ some (node v b) = put_other m end a _ apart ∙ r.chain.2 in
      let moved : Chain m1 a cells = Chain-redirect m null a b w ys r.chain.3 in
      rw
        (
          r.back,
          r.front,
          ne_null→test _ (last-ne_null m null b w ys r.chain.3),
          link-last m null a b w ys r.chain.3,
          read-node m1 a (node v b) r.chain.0 e1,
          link-node m1 a null (node v b) r.chain.0 e1,
        )
        (
          record {
            chain =
                Chain-append_one _ a v cells (Chain-put m1 a a _ cells moved r.chain.1) r.chain.0
                  r.chain.1 (put_self m1 a _);
            front = refl;
            back = sym (last_from-append_one b a v ys);
            count = omega (arith, r.count, length-append_one a v ys);
          },
          λ p o.
              put_other m1 a p _ (or-left _ _ o)
              ∙ put_other m end p _ (ne_of_has p end cells (or-right _ _ o) mem),
        )

-- Cycling moves the front node behind the others, and touches no node but its own.
pub cycle_lem :
    (m : Memory) (this : Steque) (a : Ptr) (v : Item) (xs : Cells)
    → Rep m this ((a, v) ∷ xs)
    → Returns (Cycled m a v xs) (steque_cycle this m)
cycle_lem m this a v [] r = cycle_one m this a v r
cycle_lem m this a v ((b, w) ∷ ys) r = cycle_more m this a v b w ys r
