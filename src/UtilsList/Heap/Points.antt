-- ===== src/UtilsList/Heap/Points.antt =====
-- A command at a node that is there.
use esp_qcloud.Prelude.{refl, Option, ◌≡◌, ◌≢◌, false, none, some, arith, ◌==◌}
use esp_qcloud.UtilsList.Heap.{
  Ptr, null, ListNode, Memory, write, done, load, set_next, set_prev, free_node,
}

abbrev pub with_nodes : (Ptr → Option ListNode) → Memory → Memory
with_nodes h m = record m { nodes = h }

-- There is a node at `p`, and it is `n`.
pub record Points (h : Ptr → Option ListNode) (p : Ptr) (n : ListNode) : Type 0 where
  pub ne_null : p ≢ null
  pub holds : h p ≡ some n

pub not_null :
    {h : Ptr → Option ListNode} {p : Ptr} {n : ListNode} → Points h p n → (p == null) ≡ false
not_null e = ground (arith, e.ne_null)

module _ (m : Memory) {p : Ptr} {n : ListNode} (e : Points m.nodes p n) where
  pub load-done : load p m ≡ done n m
  unfolding load
  load-done = rw (not_null e, e.holds)

  pub set_next-done :
      (q : Ptr)
      → set_next p q m ≡ done tt (with_nodes (write m.nodes p (some (record n { next = q }))) m)
  unfolding set_next
  set_next-done q = rw load-done

  pub set_prev-done :
      (q : Ptr)
      → set_prev p q m ≡ done tt (with_nodes (write m.nodes p (some (record n { prev = q }))) m)
  unfolding set_prev
  set_prev-done q = rw load-done

  pub free_node-done : free_node p m ≡ done tt (with_nodes (write m.nodes p none) m)
  unfolding free_node
  free_node-done = rw load-done

module _ {h : Ptr → Option ListNode} {p : Ptr} {n : ListNode} where
  pub Points-write : Points h p n → (n' : ListNode) → Points (write h p (some n')) p n'
  unfolding write
  Points-write e n' = record { ne_null = e.ne_null; holds = ground arith }

  pub Points-write_ne :
      Points h p n → (q : Ptr) (c : Option ListNode) → (p == q) ≡ false → Points (write h q c) p n
  unfolding write
  Points-write_ne e q c apart = record { ne_null = e.ne_null; holds = rw (apart, e.holds) }

pub write_ne :
    (h : Ptr → Option ListNode) (p : Ptr) (c : Option ListNode) (a : Ptr)
    → (a == p) ≡ false
    → write h p c a ≡ h a
unfolding write
write_ne h p c a apart = rw apart refl

pub write_self : (h : Ptr → Option ListNode) (p : Ptr) (c : Option ListNode) → write h p c p ≡ c
unfolding write
write_self h p c = ground arith
