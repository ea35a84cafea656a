-- ===== src/Rpc/Links.antt =====
-- The boss of rpc_mt/minifyjpeg_svc.c queues without the mutex: `steque_enqueue` of rpc_mt/steque.c in the
-- parts between which a `steque_pop` of a worker can run, on the same nodes.
use intro_to_os.Base.{
  ◌-◌, ◌+◌, ◌≡◌, ◌≢◌, refl, sym, ◌∙◌, Bool, true, false, some, none, [], ◌∷◌, ◌++◌, arith, ◌==◌,
  if◌then◌else◌,
}
use intro_to_os.Steque.{Steque, count_up, steque_enqueue, steque_pop}
use intro_to_os.Steque.Memory.{
  Ptr, null, Item, node, Memory, put, Command, Outcome, exited, undefined, return, ◌>>=◌, ◌>>◌,
  create, link, read, Returns, continue,
}
use intro_to_os.Steque.Chain.{
  Cells, has, head_of, last_from, Chain, Chain-put, has-last_from, ne_of_has, put_other,
  Chain-redirect, last_from-append_one, Chain-append_one, not-has_of_none, length-append_one,
}
use intro_to_os.Steque.Rep.{
  Rep, last-ne_null, link-last, create-done, put_self, or-left, or-right, ne_null→test, read-node,
  free-node,
}

-- The store to `front`, or through the pointer that `back` is.
unfoldable pub link_node : (back fresh : Ptr) → (back_was_null : Bool) → Steque → Command Steque
link_node back fresh true this = return (record this { front = fresh })
link_node back fresh false this = do link back fresh; return this

-- `this->back = node` and `this->N++`, behind a `steque_pop`: an `int` that was just counted down does not
-- overflow when it is counted up.
abbrev pub set_back : (fresh : Ptr) → Steque → Steque
set_back fresh this = record this { back = fresh; count = this.count + 1 }

unfoldable pub enqueue_parts : (fresh : Ptr) → Steque → Item → Command Steque
unfolding link_node count_up
enqueue_parts fresh this item = do
  create fresh (node item null)
  this' ← link_node this.back fresh (this.back == null) this
  count_up (record this' { back = fresh })

-- What a worker pops, and the steque, if its `steque_pop` runs behind the test of `back`. The boss then
-- stores through the `back` that it has tested, or reads it again.
unfoldable pub enqueue_around_pop :
    (reads_again : Bool) → (fresh : Ptr) → Steque → Item → Command (Item × Steque)
unfolding link_node steque_pop
enqueue_around_pop reads_again fresh this item = do
  create fresh (node item null)
  (popped, rest) ← steque_pop this
  this' ← link_node (if reads_again then rest.back else this.back) fresh (this.back == null) rest
  return (popped, set_back fresh this')

stored :
    (fresh : Ptr) (this : Steque) (o : Outcome (Unit {0}))
    → continue (continue o λ _. return this) (λ this'. count_up (record this' { back = fresh }))
      ≡ continue o λ _. count_up (record this { back = fresh })
stored fresh this (Outcome.done tt m) = refl
stored fresh this (exited status) = refl
stored fresh this undefined = refl

linked :
    (fresh : Ptr) (this : Steque) (b : Bool) (o : Outcome (Unit {0}))
    → continue o (λ _.
      link_node this.back fresh b this >>= λ this'. count_up (record this' { back = fresh }))
      ≡ continue o (
          if b
          then (λ _. count_up (record { front = fresh; back = fresh; count = this.count }))
          else λ _. link this.back fresh >> count_up (record this { back = fresh }))
unfolding link_node
linked fresh this true (Outcome.done tt m) = refl
linked fresh this false (Outcome.done tt m) = stored fresh this (link this.back fresh m)
linked fresh this true (exited status) = refl
linked fresh this false (exited status) = refl
linked fresh this true undefined = refl
linked fresh this false undefined = refl

branch :
    (c : Command (Unit {0})) (f g : Unit {0} → Command Steque) (b : Bool) (m : Memory)
    → continue (c m) (if b then f else g) ≡ (if b then (c >>= f) else (c >>= g)) m
branch c f g true m = refl
branch c f g false m = refl

-- The parts are those of `steque_enqueue`.
enqueue_parts-steque_enqueue :
    (fresh : Ptr) (this : Steque) (item : Item) (m : Memory)
    → enqueue_parts fresh this item m ≡ steque_enqueue fresh this item m
unfolding enqueue_parts steque_enqueue link_node
enqueue_parts-steque_enqueue fresh this item m =
    linked fresh this (this.back == null) (create fresh (node item null) m)
    ∙ branch (create fresh (node item null)) _ _ (this.back == null) m

-- The worker gets the first item and the steque holds the others, with the new one last.
abbrev pub Queued : (v : Item) → Cells → Outcome (Item × Steque) → Type 0
Queued v xs = Returns (λ (popped, this') m'. (popped ≡ v) × Rep m' this' xs)

-- What becomes of it, by the nodes in the steque.
abbrev pub AroundPop : (fresh : Ptr) → Item → Cells → Outcome (Item × Steque) → Type 0
AroundPop fresh w [] end = end ≡ exited 1
AroundPop fresh w ((a, v) ∷ []) end = end ≡ undefined
AroundPop fresh w ((a, v) ∷ (b, u) ∷ xs) end = Queued v (((b, u) ∷ xs) ++ (fresh, w) ∷ []) end

-- `steque_pop` in one equation.
pop-done :
    (m : Memory) (this : Steque) (a : Ptr) (v : Item) (xs : Cells)
    → Rep m this ((a, v) ∷ xs)
    → steque_pop this m
      ≡ Outcome.done
          (
            v,
            record {
              front = head_of null xs;
              back = if head_of null xs == null then null else this.back;
              count = this.count - 1;
            },
          )
          (put a none m)
unfolding steque_pop
pop-done m this a v xs r =
    rw
      (
        r.front,
        ne_null→test a r.chain.0,
        read-node m a _ r.chain.0 r.chain.2,
        free-node m a _ r.chain.0 r.chain.2,
      )
      refl

either_way : {A : Type 0} (b : Bool) (x : A) → (if b then x else x) ≡ x
either_way true x = refl
either_way false x = refl

-- The store goes through a null pointer or to a node that is not there any more.
link-gone :
    (reads_again : Bool) (m : Memory) (a fresh : Ptr)
    → link (if reads_again then null else a) fresh (put a none m) ≡ undefined
unfolding link read
link-gone true m a fresh = refl
link-gone false m a fresh = ground arith

module _ (reads_again : Bool) (m : Memory) (this : Steque) (fresh : Ptr) (w : Item)
    (ne : fresh ≢ null) (unused : m fresh ≡ none) where
  abbrev m0 : Memory
  m0 = put fresh (some (node w null)) m

  Rep-m0 : (xs : Cells) → Rep m this xs → Rep m0 this xs
  Rep-m0 xs r = record {
    chain = Chain-put m null fresh _ xs r.chain (not-has_of_none m null fresh xs r.chain unused);
    front = r.front;
    back = r.back;
    count = r.count;
  }

  around_nil : Rep m this [] → enqueue_around_pop reads_again fresh this w m ≡ exited 1
  unfolding enqueue_around_pop steque_pop
  around_nil r = rw (r.front, create-done m fresh (node w null) ne) refl

  around_one :
      (a : Ptr) (v : Item)
      → Rep m this ((a, v) ∷ [])
      → enqueue_around_pop reads_again fresh this w m ≡ undefined
  unfolding enqueue_around_pop
  around_one a v r =
      rw
        (
          create-done m fresh (node w null) ne,
          pop-done m0 this a v [] (Rep-m0 ((a, v) ∷ []) r),
          r.back,
          ne_null→test a r.chain.0,
        )
        (rw (link-gone reads_again m0 a fresh))

  around_cons :
      (a b : Ptr) (v u : Item) (xs : Cells)
      → Rep m this ((a, v) ∷ (b, u) ∷ xs)
      → Queued v (((b, u) ∷ xs) ++ (fresh, w) ∷ []) (enqueue_around_pop reads_again fresh this w m)
  unfolding enqueue_around_pop
  around_cons a b v u xs r =
      let cells : Cells = (b, u) ∷ xs in
      let r0 : Rep m0 this ((a, v) ∷ cells) = Rep-m0 ((a, v) ∷ cells) r in
      let m1 : Memory = put a none m0 in
      let after : Chain m1 null cells = Chain-put m0 null a none cells r0.chain.3 r0.chain.1 in
      let all_out : has fresh ((a, v) ∷ cells) ≡ false =
        not-has_of_none m null fresh ((a, v) ∷ cells) r.chain unused in
      let out : has fresh cells ≡ false = or-right (fresh == a) _ all_out in
      let full : (last_from b xs == null) ≡ false =
        ne_null→test _ (last-ne_null m null b u xs r.chain.3) in
      let apart : (fresh == last_from b xs) ≡ false =
        ne_of_has fresh (last_from b xs) cells out (has-last_from b u xs) in
      rw
        (
          create-done m fresh (node w null) ne,
          pop-done m0 this a v cells r0,
          r.back,
          full,
          ne_null→test b r0.chain.3.0,
          either_way reads_again (last_from b xs),
          link-last m1 null fresh b u xs after,
        )
        (
          refl,
          record {
            chain =
                Chain-append_one _ fresh w cells (Chain-redirect m1 null fresh b u xs after) ne out
                  (put_other m1 (last_from b xs) fresh _ apart
                    ∙ put_other m0 a fresh none (or-left (fresh == a) _ all_out)
                    ∙ put_self m fresh (some (node w null)));
            front = refl;
            back = sym (last_from-append_one b fresh w xs);
            count = omega (arith, r.count, length-append_one fresh w xs);
          },
        )

  -- A `steque_pop` of a worker that runs between the boss's test of `back` and its store, on a steque of
  -- one node, makes the store undefined, through the pointer that was tested, whose node is freed, and
  -- through one that is read again, which is null. With two nodes or more the worker gets the first item,
  -- and the steque holds the others with the new one last. An empty steque ends the process.
  pub enqueue_around_pop-AroundPop :
      (xs : Cells)
      → Rep m this xs
      → AroundPop fresh w xs (enqueue_around_pop reads_again fresh this w m)
  enqueue_around_pop-AroundPop [] r = around_nil r
  enqueue_around_pop-AroundPop ((a, v) ∷ []) r = around_one a v r
  enqueue_around_pop-AroundPop ((a, v) ∷ (b, u) ∷ xs) r = around_cons a b v u xs r
