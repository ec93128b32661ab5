-- ===== src/UtilsList/Tests.antt =====
-- Lists of three nodes.
use esp_qcloud.Prelude.{◌≡◌, refl, true, none, some, [], ◌∷◌, arith, Option, ◌==◌, if◌then◌else◌}
use esp_qcloud.UtilsList.Heap.{
  Ptr, null, ListNode, Memory, set_next, load, set_prev, free_node, Run, done, fault, out_of_fuel,
  write, ◌>>◌,
}
use esp_qcloud.UtilsList.Heap.Points.{Points}
use esp_qcloud.UtilsList.Heap.Links.{Cells, node}
use esp_qcloud.UtilsList.Heap.Returns.{Returns}
use esp_qcloud.UtilsList.{
  LinkedList, list_new, list_node_new, list_rpush, list_rpop, list_lpop, list_remove, list_destroy,
  list_find, list_at, link_next, link_prev, release, pos, negsuc, is_match,
}
use esp_qcloud.UtilsList.Shape.{IsList}
use esp_qcloud.UtilsList.Push.{Appends, rpush-Appends}
use esp_qcloud.UtilsList.Pop.{Pops, rpop-Pops, lpop-Pops}
use esp_qcloud.UtilsList.Remove.{IsTaken, remove-Taken}
use esp_qcloud.UtilsList.Destroy.{IsDestroyed, destroy-Destroyed}
use esp_qcloud.UtilsList.Search.{find-first_match, at-address}
use esp_qcloud.UtilsList.Life.{Reaches, created, rpushed, removed, Reaches-IsList}

-- Nodes 1, 5 and 3 in a list, and node 9 alone.
abbrev nodes : Ptr → Option ListNode
nodes a =
    if a == 1
    then some (node 0 5 10)
    else (if a == 5
        then some (node 1 3 20)
        else (if a == 3 then some (node 5 0 30) else (if a == 9 then some (node 7 7 40) else none)))

abbrev memory : Memory
memory = record { nodes = nodes; lists = 1; iterators = 0; released = [] }

abbrev list : LinkedList
list = record { head = 1; tail = 3; len = 3; has_free = true; matches = none }

abbrev cells : Cells
cells = (1, 10) ∷ (5, 20) ∷ (3, 30) ∷ []

there : Points nodes 1 (node 0 5 10) × Points nodes 5 (node 1 3 20) × Points nodes 3 (node 5 0 30)
there = (
  record { ne_null = λ e. absurd (omega arith); holds = refl },
  record { ne_null = λ e. absurd (omega arith); holds = refl },
  record { ne_null = λ e. absurd (omega arith); holds = refl },
)

is_list : IsList nodes list cells
is_list = record {
  head = refl;
  tail = refl;
  len = refl;
  links = (there.0, (there.1, (there.2, tt)));
  distinct = (refl, (refl, (refl, tt)));
}

rpush-Appends_example : Returns (Appends memory 9 40 cells) (list_rpush list 9 memory)
rpush-Appends_example =
    rpush-Appends {m = memory} cells is_list
      (record {
        before = 7;
        after = 7;
        there = record { ne_null = λ e. absurd (omega arith); holds = refl };
        apart = refl;
      })
      (omega arith)

rpop-Pops_example : Returns (Pops memory 3 30 ((1, 10) ∷ (5, 20) ∷ [])) (list_rpop list memory)
rpop-Pops_example = rpop-Pops memory list ((1, 10) ∷ (5, 20) ∷ []) 3 30 is_list

lpop-Pops_example : Returns (Pops memory 1 10 ((5, 20) ∷ (3, 30) ∷ [])) (list_lpop list memory)
lpop-Pops_example = lpop-Pops memory list 1 10 ((5, 20) ∷ (3, 30) ∷ []) is_list

remove-Taken_example :
    Returns (IsTaken memory list ((1, 10) ∷ []) 5 20 ((3, 30) ∷ [])) (list_remove list 5 memory)
remove-Taken_example = remove-Taken memory list ((1, 10) ∷ []) 5 20 ((3, 30) ∷ []) is_list

destroy-Destroyed_example :
    Returns (λ _. IsDestroyed memory list cells 0) (list_destroy list memory)
destroy-Destroyed_example = destroy-Destroyed memory list cells is_list

find-first_match_example : list_find true list 20 memory ≡ done 5 memory
unfolding is_match
find-first_match_example = find-first_match true memory list 20 cells is_list

at-address_example :
    (list_at true list (pos 0) memory ≡ done 1 memory)
    × (list_at true list (negsuc 0) memory ≡ done 3 memory)
at-address_example = at-address true memory list cells 0 is_list

abbrev unused : Memory
unused = record { nodes = λ a. none; lists = 0; iterators = 0; released = [] }

abbrev fresh : LinkedList
fresh = record { head = null; tail = null; len = 0; has_free = true; matches = none }

-- A node 4 is pushed to an empty list, a node 6 behind it, and node 4 is removed.
abbrev after : {A : Type 0} → Run A → Memory
after (done a m) = m
after fault = unused
after out_of_fuel = unused

abbrev new : Memory
new = record unused { lists = 1 }

abbrev one : LinkedList
one = record fresh { head = 4; tail = 4; len = 1 }

abbrev two : LinkedList
two = record fresh { head = 4; tail = 6; len = 2 }

abbrev left : LinkedList
left = record fresh { head = 6; tail = 6; len = 1 }

abbrev with_one : Memory
with_one = after ((list_node_new 4 50 >> list_rpush fresh 4) new)

abbrev with_two : Memory
with_two = after ((list_node_new 6 60 >> list_rpush one 6) with_one)

abbrev with_left : Memory
with_left = after (list_remove two 4 with_two)

Reaches-one : Reaches with_one one ((4, 50) ∷ [])
unfolding list_new list_node_new list_rpush set_next load write set_prev
Reaches-one =
    rpushed 4 4 50 (created unused true none refl) (λ e. absurd (omega arith)) refl (omega arith)
      refl

Reaches-two : Reaches with_two two ((4, 50) ∷ (6, 60) ∷ [])
unfolding list_node_new list_rpush set_next load write set_prev
Reaches-two = rpushed 6 6 60 Reaches-one (λ e. absurd (omega arith)) refl (omega arith) refl

Reaches-left : Reaches with_left left ((6, 60) ∷ [])
unfolding list_node_new list_rpush set_next load write set_prev list_remove link_next link_prev
    release free_node
Reaches-left = removed [] 4 50 ((6, 60) ∷ []) Reaches-two refl

Reaches-IsList_example : IsList with_left.nodes left ((6, 60) ∷ [])
Reaches-IsList_example = Reaches-IsList Reaches-left
