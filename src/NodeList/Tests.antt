-- ===== src/NodeList/Tests.antt =====
-- Runs of src/utils/list.c on a heap of three nodes: 10 and 20 are linked, 30 is not in the list.
use eaf.Prelude.{◌≡◌, refl, none, some, [], ◌∷◌, arith, ◌==◌, if◌then◌else◌}
use eaf.NodeList.{
  null, Handle, Heap, push_back, push_front, insert_before, insert_after, erase, pop_front,
  pop_back,
}
use eaf.NodeList.Chain.{cell, IsList, Yields, SameOutside}
use eaf.NodeList.Push.{Lists, push_back_lem, push_front_lem}
use eaf.NodeList.Insert.{insert_before_lem, insert_after_lem}
use eaf.NodeList.Erase.{erase_lem, pop_front_lem, pop_back_lem}

abbrev heap : Heap
heap a =
    if a == 10
    then some (cell null 20)
    else if a == 20
    then some (cell 10 null)
    else if a == 30
    then some (cell 7 7)
    else none

abbrev pair : Handle
pair = record { head = 10; tail = 20; size = 2 }

pair-IsList : IsList heap pair (10 ∷ 20 ∷ [])
pair-IsList = record {
  chain = (refl, (omega arith), (refl, (omega arith), tt));
  distinct = (refl, (refl, tt));
  head = refl;
  tail = refl;
  size = refl;
}

push_back_lem_example :
    Yields (push_back pair 30 heap) (Lists heap (30 ∷ 10 ∷ 20 ∷ []) (10 ∷ 20 ∷ 30 ∷ []))
push_back_lem_example =
    push_back_lem heap pair 30 refl (omega arith) (10 ∷ 20 ∷ []) pair-IsList refl

push_front_lem_example :
    Yields (push_front pair 30 heap) (Lists heap (30 ∷ 10 ∷ 20 ∷ []) (30 ∷ 10 ∷ 20 ∷ []))
push_front_lem_example =
    push_front_lem heap pair 30 refl (omega arith) (10 ∷ 20 ∷ []) pair-IsList refl

insert_before_lem_example :
    Yields (insert_before pair 20 30 heap) (Lists heap (30 ∷ 10 ∷ 20 ∷ []) (10 ∷ 30 ∷ 20 ∷ []))
insert_before_lem_example =
    insert_before_lem heap pair 30 20 refl (omega arith) (10 ∷ []) [] pair-IsList refl

insert_after_lem_example :
    Yields (insert_after pair 10 30 heap) (Lists heap (30 ∷ 10 ∷ 20 ∷ []) (10 ∷ 30 ∷ 20 ∷ []))
insert_after_lem_example =
    insert_after_lem heap pair 30 10 refl (omega arith) [] (20 ∷ []) pair-IsList refl

erase_lem_example : Yields (erase pair 20 heap) (Lists heap (10 ∷ 20 ∷ []) (10 ∷ []))
erase_lem_example = erase_lem heap pair 20 (10 ∷ []) [] pair-IsList

pop_front_lem_example :
    Yields
      (pop_front pair heap)
      (λ (p, l') g. (p ≡ 10) × IsList g l' (20 ∷ []) × SameOutside (10 ∷ 20 ∷ []) heap g)
pop_front_lem_example = pop_front_lem heap pair (10 ∷ 20 ∷ []) pair-IsList

pop_back_lem_example :
    Yields
      (pop_back pair heap)
      (λ (p, l') g. (p ≡ 20) × IsList g l' (10 ∷ []) × SameOutside (10 ∷ 20 ∷ []) heap g)
pop_back_lem_example = pop_back_lem heap pair (10 ∷ []) 20 pair-IsList
