-- ===== src/Tests/Queue.antt =====
-- Runs of the theorems on mtgf/steque.c and rpc_mt/steque.c.
use intro_to_os.Base.{◌≡◌, ◌≢◌, refl, false, [], ◌∷◌, none, some, arith}
use intro_to_os.Steque.{
  Steque, steque_enqueue, steque_push, steque_pop, steque_cycle, steque_destroy,
}
use intro_to_os.Steque.Memory.{Memory, put, node, Returns, null, undefined}
use intro_to_os.Steque.Chain.{Cells}
use intro_to_os.Steque.Rep.{Rep, SameOutside}
use intro_to_os.Steque.Insert.{Enqueued, enqueue-append, push-cons}
use intro_to_os.Steque.Remove.{pop-cons, destroy_lem, Freed}
use intro_to_os.Rpc.Links.{enqueue_around_pop, enqueue_around_pop-AroundPop}
use intro_to_os.Steque.Cycle.{Cycled, cycle_lem}

-- Two nodes, at 1 and 2, with the items 7 and 8.
abbrev two_nodes : Memory
two_nodes = put 1 (some (node 7 2)) (put 2 (some (node 8 null)) (λ _. none))

abbrev two_items : Steque
two_items = record { front = 1; back = 2; count = 2 }

abbrev tail_item : Cells
tail_item = (2, 8) ∷ []

one_ne_null : 1 ≢ null
one_ne_null e = omega arith

two_ne_null : 2 ≢ null
two_ne_null e = omega arith

three_ne_null : 3 ≢ null
three_ne_null e = omega arith

two_items-Rep : Rep two_nodes two_items ((1, 7) ∷ tail_item)
two_items-Rep = record {
  chain = (one_ne_null, refl, refl, (two_ne_null, refl, refl, tt));
  front = refl;
  back = refl;
  count = refl;
}

enqueue-append_example :
    Returns (Enqueued two_nodes 3 9 ((1, 7) ∷ tail_item)) (steque_enqueue 3 two_items 9 two_nodes)
enqueue-append_example =
    enqueue-append two_nodes two_items 3 9 three_ne_null ((1, 7) ∷ tail_item) refl two_items-Rep
      (omega arith)

pop-cons_example :
    Returns
      (λ (item, this') m'. (item ≡ 7) × (m' ≡ put 1 none two_nodes) × Rep m' this' tail_item)
      (steque_pop two_items two_nodes)
pop-cons_example = pop-cons two_nodes two_items 1 7 tail_item two_items-Rep

cycle_lem_example : Returns (Cycled two_nodes 1 7 tail_item) (steque_cycle two_items two_nodes)
cycle_lem_example = cycle_lem two_nodes two_items 1 7 tail_item two_items-Rep

destroy_lem_example :
    Returns
      (λ this' m'. Rep m' this' [] × Freed ((1, 7) ∷ tail_item) two_nodes m')
      (steque_destroy two_items two_nodes)
destroy_lem_example = destroy_lem two_nodes two_items ((1, 7) ∷ tail_item) two_items-Rep

-- One node, at 1, with the item 7.
abbrev one_node : Memory
one_node = put 1 (some (node 7 null)) (λ _. none)

abbrev one_item : Steque
one_item = record { front = 1; back = 1; count = 1 }

one_item-Rep : Rep one_node one_item ((1, 7) ∷ [])
one_item-Rep = record {
  chain = (one_ne_null, refl, refl, tt);
  front = refl;
  back = refl;
  count = refl;
}

enqueue_around_pop-AroundPop_example : enqueue_around_pop false 3 one_item 9 one_node ≡ undefined
enqueue_around_pop-AroundPop_example =
    enqueue_around_pop-AroundPop false one_node one_item 3 9 three_ne_null refl ((1, 7) ∷ [])
      one_item-Rep

push-cons_example :
    Returns
      (λ this' m'.
        Rep m' this' ((3, 9) ∷ (1, 7) ∷ tail_item) × SameOutside ((3, 9) ∷ []) two_nodes m')
      (steque_push 3 two_items 9 two_nodes)
push-cons_example =
    push-cons two_nodes two_items 3 9 three_ne_null ((1, 7) ∷ tail_item) refl two_items-Rep
      (omega arith)
