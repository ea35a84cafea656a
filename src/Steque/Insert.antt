-- ===== src/Steque/Insert.antt =====
-- `steque_enqueue` and `steque_push` of mtgf/steque.c on the cells of a steque.
use intro_to_os.Base.{
  ◌≡◌, ◌≢◌, ◌<◌, length, ltb, lt→ltb, true, refl, false, sym, ◌∙◌, ap, some, none, [], ◌∷◌, ◌++◌,
  arith, ◌==◌, if◌then◌else◌,
}
use intro_to_os.Steque.{Steque, int_max, steque_enqueue, steque_push}
use intro_to_os.Steque.Memory.{Ptr, null, Item, node, Memory, put, Returns}
use intro_to_os.Steque.Chain.{
  Cells, has, last_from, Chain, Chain-put, has-last_from, ne_of_has, put_other, Chain-redirect,
  last_from-append_one, Chain-append_one, not-has_of_none, length-append_one,
}
use intro_to_os.Steque.Rep.{
  Rep, SameOutside, last-ne_null, link-last, create-done, put_self, or-left, or-right, ne_null→test,
}

abbrev pub Enqueued : Memory → Ptr → Item → Cells → Steque → Memory → Type 0
Enqueued m fresh v xs this m' =
    Rep m' this (xs ++ (fresh, v) ∷ []) × SameOutside ((fresh, v) ∷ xs) m m'

module _ (m : Memory) (this : Steque) (fresh : Ptr) (v : Item) (ne : fresh ≢ null) where
  -- A steque of few cells can be counted up.
  roomy : (xs : Cells) → Rep m this xs → length xs < int_max → ltb this.count int_max ≡ true
  roomy xs r small = lt→ltb _ _ (omega (arith, r.count))

  enqueue_empty : Rep m this [] → Returns (Enqueued m fresh v []) (steque_enqueue fresh this v m)
  unfolding steque_enqueue
  enqueue_empty r =
      rw (r.back, create-done m fresh (node v null) ne, roomy [] r (omega arith))
        (
          record {
            chain = (ne, refl, ground arith, tt);
            front = refl;
            back = refl;
            count = omega (arith, r.count);
          },
          ground arith,
        )

  enqueue_cons :
      (a : Ptr) (w : Item) (xs : Cells)
      → m fresh ≡ none
      → Rep m this ((a, w) ∷ xs)
      → length ((a, w) ∷ xs) < int_max
      → Returns (Enqueued m fresh v ((a, w) ∷ xs)) (steque_enqueue fresh this v m)
  unfolding steque_enqueue
  enqueue_cons a w xs unused r small =
      let m0 : Memory = put fresh (some (node v null)) m in
      let cells : Cells = (a, w) ∷ xs in
      let out : has fresh cells ≡ false = not-has_of_none m null fresh cells r.chain unused in
      let before : Chain m0 null cells = Chain-put m null fresh _ cells r.chain out in
      let full : (last_from a xs == null) ≡ false =
        ne_null→test _ (last-ne_null m null a w xs r.chain) in
      let apart : (fresh == last_from a xs) ≡ false =
        ne_of_has fresh (last_from a xs) cells out (has-last_from a w xs) in
      rw
        (
          r.back,
          full,
          create-done m fresh (node v null) ne,
          link-last m0 null fresh a w xs before,
          roomy cells r small,
        )
        (
          record {
            chain =
                Chain-append_one _ fresh v cells (Chain-redirect m0 null fresh a w xs before) ne out
                  (put_other m0 (last_from a xs) fresh _ apart
                    ∙ put_self m fresh (some (node v null)));
            front = r.front;
            back = sym (last_from-append_one a fresh v xs);
            count = omega (arith, r.count, length-append_one fresh v xs);
          },
          λ p o.
              put_other m0 (last_from a xs) p _
                (ne_of_has p (last_from a xs) cells (or-right _ _ o) (has-last_from a w xs))
              ∙ put_other m fresh p _ (or-left _ _ o),
        )

  -- On a steque of fewer than 2^31 - 1 nodes, enqueueing puts the item behind the others, in the fresh node
  -- that `malloc` returned.
  pub enqueue-append :
      (xs : Cells)
      → m fresh ≡ none
      → Rep m this xs
      → length xs < int_max
      → Returns (Enqueued m fresh v xs) (steque_enqueue fresh this v m)
  enqueue-append [] unused r small = enqueue_empty r
  enqueue-append ((a, w) ∷ xs) unused r small = enqueue_cons a w xs unused r small

  push_back :
      (xs : Cells)
      → Rep m this xs
      → (if this.back == null then fresh else this.back) ≡ last_from fresh xs
  push_back [] r = rw r.back
  push_back ((a, w) ∷ xs) r = rw (r.back, ne_null→test _ (last-ne_null m null a w xs r.chain))

  -- On a steque of fewer than 2^31 - 1 nodes, pushing puts the item before the others, in the fresh node
  -- that `malloc` returned, and changes no other node.
  pub push-cons :
      (xs : Cells)
      → m fresh ≡ none
      → Rep m this xs
      → length xs < int_max
      → Returns
          (λ this' m'. Rep m' this' ((fresh, v) ∷ xs) × SameOutside ((fresh, v) ∷ []) m m')
          (steque_push fresh this v m)
  unfolding steque_push
  push-cons xs unused r small =
      let out : has fresh xs ≡ false = not-has_of_none m null fresh xs r.chain unused in
      rw (create-done m fresh (node v this.front) ne, roomy xs r small)
        (
          record {
            chain = (
              ne,
              out,
              put_self m fresh _ ∙ ap (λ q. some (node v q)) r.front,
              Chain-put m null fresh _ xs r.chain out,
            );
            front = refl;
            back = push_back xs r;
            count = omega (arith, r.count);
          },
          λ p o. put_other m fresh p _ (or-left _ _ o),
        )
