-- ===== src/UtilsList/Life.antt =====
-- The life of a list, from `list_new` on.
use esp_qcloud.Prelude.{
  inr, inl, Bool-cases, ℕ, ◌+◌, ◌^◌, ◌<◌, ◌≡◌, ◌≢◌, refl, ap, Bool, true, false, Option, none, some,
  [], ◌∷◌, ◌++◌, arith, ◌==◌, length,
}
use esp_qcloud.UtilsList.Heap.{Ptr, null, ListNode, Memory, write, done, ◌>>◌}
use esp_qcloud.UtilsList.Heap.Points.{with_nodes, write_self}
use esp_qcloud.UtilsList.Heap.Links.{Cells, has, node, Links, frame-write}
use esp_qcloud.UtilsList.Heap.Returns.{Returns, returns, returned}
use esp_qcloud.UtilsList.{
  LinkedList, list_new, list_node_new, list_rpush, list_lpush, list_rpop, list_lpop, list_remove,
}
use esp_qcloud.UtilsList.Shape.{IsList}
use esp_qcloud.UtilsList.Push.{Appends, Prepends, IsFree, rpush-Appends, lpush-Prepends}
use esp_qcloud.UtilsList.Pop.{rpop-Pops, lpop-Pops}
use esp_qcloud.UtilsList.Remove.{IsTaken, remove-Taken}

-- The memory, the list and its nodes that a program comes to that makes a list, with what `free` and
-- `match` it sets, and then makes nodes at unused addresses and pushes them, pops nodes, and removes nodes.
pub data Reaches : Memory → LinkedList → Cells → Type 0 where
  created :
      (m : Memory) {g : Memory} {self : LinkedList} (has_free : Bool)
      (matches : Option (ℕ → ℕ → Bool))
      → list_new true m ≡ done (some self) g
      → Reaches g (record self { has_free = has_free; matches = matches }) []
  rpushed :
      {m g : Memory} {self self' : LinkedList} {xs : Cells} (p q v : ℕ)
      → Reaches m self xs
      → p ≢ null
      → m.nodes p ≡ none
      → length xs + 1 < 2 ^ 32
      → (list_node_new p v >> list_rpush self p) m ≡ done (q, self') g
      → Reaches g self' (xs ++ ((p, v) ∷ []))
  lpushed :
      {m g : Memory} {self self' : LinkedList} {xs : Cells} (p q v : ℕ)
      → Reaches m self xs
      → p ≢ null
      → m.nodes p ≡ none
      → length xs + 1 < 2 ^ 32
      → (list_node_new p v >> list_lpush self p) m ≡ done (q, self') g
      → Reaches g self' ((p, v) ∷ xs)
  rpopped :
      {m g : Memory} {self self' : LinkedList} {xs : Cells} (p q v : ℕ)
      → Reaches m self (xs ++ ((p, v) ∷ []))
      → list_rpop self m ≡ done (q, self') g
      → Reaches g self' xs
  lpopped :
      {m g : Memory} {self self' : LinkedList} {xs : Cells} (p q v : ℕ)
      → Reaches m self ((p, v) ∷ xs)
      → list_lpop self m ≡ done (q, self') g
      → Reaches g self' xs
  removed :
      {m g : Memory} {self self' : LinkedList} (ys : Cells) (p v : ℕ) (zs : Cells)
      → Reaches m self (ys ++ ((p, v) ∷ zs))
      → list_remove self p m ≡ done self' g
      → Reaches g self' (ys ++ zs)

abbrev NewEmpty : Bool → Option (ℕ → ℕ → Bool) → Option LinkedList → Memory → Type 0
NewEmpty has_free matches none g = Unit {0}
NewEmpty has_free matches (some self) g =
    IsList g.nodes (record self { has_free = has_free; matches = matches }) []

new_empty :
    (m : Memory) (has_free : Bool) (matches : Option (ℕ → ℕ → Bool))
    → Returns (NewEmpty has_free matches) (list_new true m)
unfolding list_new
new_empty m has_free matches =
    returns (record { head = refl; tail = refl; len = refl; links = tt; distinct = tt })

-- An unused address is not in a list.
unused :
    (h : Ptr → Option ListNode) (before a : Ptr) (xs : Cells) (stop : Ptr)
    → Links h before xs stop
    → h a ≡ none
    → has a xs ≡ false
unused h before a [] stop s e = refl
unused h before a ((p, v) ∷ xs) stop (n, s) e =
    let later = unused h p a xs stop s e in
    elim (Bool-cases (a == p)) [
      | inl y ↦ absurd (let same : a ≡ p = ground arith in cc (ap h same, e, n.holds))
      | inr o ↦ ground arith
    ]

-- The memory with a new node.
abbrev made : Memory → ℕ → ℕ → Memory
made m p v = with_nodes (write m.nodes p (some (node null null v))) m

makes : (m : Memory) (p v : ℕ) → p ≢ null → list_node_new p v m ≡ done p (made m p v)
unfolding list_node_new
makes m p v e = let there : (p == null) ≡ false = ground (arith, e) in rw there refl

module _ (m : Memory) {self : LinkedList} {xs : Cells} (is : IsList m.nodes self xs) (p v : ℕ)
    (e : p ≢ null) (new : m.nodes p ≡ none) where
  is_free : IsFree (made m p v) p v xs
  is_free = record {
    before = null;
    after = null;
    there = record { ne_null = e; holds = write_self m.nodes p _ };
    apart = unused m.nodes null p xs null is.links new;
  }

  still : IsList (made m p v).nodes self xs
  still = record {
    head = is.head;
    tail = is.tail;
    len = is.len;
    links = frame-write m.nodes null xs null p _ is.links is_free.apart;
    distinct = is.distinct;
  }

  rpushes :
      length xs + 1 < 2 ^ 32
      → Returns (Appends (made m p v) p v xs) ((list_node_new p v >> list_rpush self p) m)
  rpushes small = rw (makes m p v e) (rpush-Appends xs still is_free small)

  lpushes :
      length xs + 1 < 2 ^ 32
      → Returns (Prepends (made m p v) p v xs) ((list_node_new p v >> list_lpush self p) m)
  lpushes small = rw (makes m p v e) (lpush-Prepends xs still is_free small)

-- Every list that a program reaches is one: doubly linked, without a node twice, with its head, its tail
-- and its count, and its nodes are those that were pushed and not taken off, in order.
pub Reaches-IsList :
    {m : Memory} {self : LinkedList} {xs : Cells} → Reaches m self xs → IsList m.nodes self xs
Reaches-IsList (created m has_free matches e) = returned (new_empty m has_free matches) e
Reaches-IsList (rpushed {m} p q v r e new small runs) =
    (returned (rpushes m (Reaches-IsList r) p v e new small) runs).1
Reaches-IsList (lpushed {m} p q v r e new small runs) =
    (returned (lpushes m (Reaches-IsList r) p v e new small) runs).1
Reaches-IsList (rpopped {m} {self} {xs} p q v r runs) =
    (returned (rpop-Pops m self xs p v (Reaches-IsList r)) runs).1
Reaches-IsList (lpopped {m} {self} {xs} p q v r runs) =
    (returned (lpop-Pops m self p v xs (Reaches-IsList r)) runs).1
Reaches-IsList (removed {m} {self} ys p v zs r runs) =
    IsTaken.list (returned (remove-Taken m self ys p v zs (Reaches-IsList r)) runs)
