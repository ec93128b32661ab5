-- ===== src/UtilsList.antt =====
-- The doubly linked list of sdk_src/utils_list.c. The struct `List` is a value outside the memory of the
-- nodes, so a function that changes one returns the new value. `free` is set or not; what it is
-- given is kept in the memory. Whether an allocation succeeds is an argument.
pub mod Heap
pub mod Shape
pub mod Push
pub mod Remove
pub mod Destroy
pub mod Search
pub mod Pop
pub mod Life
mod Tests
use esp_qcloud.Prelude.{
  ℕ, zero, suc, ◌+◌, ◌-◌, ◌%◌, ◌^◌, Option, none, some, Bool, true, false, List, [], ◌∷◌, ◌++◌,
  ◌==◌, ltb, if◌then◌else◌,
}
use esp_qcloud.UtilsList.Heap.{
  Ptr, null, ListNode, Memory, Cmd, done, out_of_fuel, pure, ◌>>=◌, ◌>>◌, store, load, set_next,
  set_prev, free_node,
}

pub record LinkedList : Type 0 where
  pub head : Ptr
  pub tail : Ptr
  pub len : ℕ
  pub has_free : Bool
  pub matches : Option (ℕ → ℕ → Bool)

pub data ListDirection : Type 0 where
  list_head list_tail : ListDirection

pub record ListIterator : Type 0 where
  pub next : Ptr
  pub direction : ListDirection

-- Integers of C, as positive and negative.
pub data ℤ : Type 0 where
  pos negsuc : ℕ → ℤ

unfoldable pub list_new : Bool → Cmd (Option LinkedList)
list_new false m = done none m
list_new true m =
    done (some (record { head = null; tail = null; len = 0; has_free = false; matches = none }))
      (record m { lists = m.lists + 1 })

-- At `fresh`, if there is memory.
unfoldable pub list_node_new : Ptr → ℕ → Cmd Ptr
list_node_new fresh val =
    if fresh == null
    then pure null
    else do store fresh (some (record { prev = null; next = null; val = val })); pure fresh

-- `self->free(val)`, if it is set.
unfoldable pub release : LinkedList → ℕ → Cmd (Unit {0})
release self val m =
    done tt (record m { released = if self.has_free then m.released ++ (val ∷ []) else m.released })

unfoldable pub destroy_loop : LinkedList → ℕ → Ptr → Cmd (Unit {0})
destroy_loop self zero curr = pure tt
destroy_loop self (suc len) curr = do
  n ← load curr
  release self n.val
  free_node curr
  destroy_loop self len n.next

unfoldable pub list_destroy : LinkedList → Cmd (Unit {0})
list_destroy self = do
  destroy_loop self self.len self.head
  (λ m. done tt (record m { lists = m.lists - 1 }))

unfoldable pub list_rpush : LinkedList → Ptr → Cmd (Ptr × LinkedList)
list_rpush self node =
    if node == null
    then pure (null, self)
    else (if self.len == 0
        then (do
          set_next node null
          set_prev node null
          pure (node, record self { head = node; tail = node; len = (self.len + 1) % 2 ^ 32 }))
        else (do
          set_prev node self.tail
          set_next node null
          set_next self.tail node
          pure (node, record self { tail = node; len = (self.len + 1) % 2 ^ 32 })))

unfoldable pub list_lpush : LinkedList → Ptr → Cmd (Ptr × LinkedList)
list_lpush self node =
    if node == null
    then pure (null, self)
    else (if self.len == 0
        then (do
          set_next node null
          set_prev node null
          pure (node, record self { head = node; tail = node; len = (self.len + 1) % 2 ^ 32 }))
        else (do
          set_next node self.head
          set_prev node null
          set_prev self.head node
          pure (node, record self { head = node; len = (self.len + 1) % 2 ^ 32 })))

-- The node that is taken off has no neighbours any more.
unfoldable pub unlinked : Ptr → LinkedList → Cmd (Ptr × LinkedList)
unlinked node self = do set_prev node null; set_next node null; pure (node, self)

unfoldable pub list_rpop : LinkedList → Cmd (Ptr × LinkedList)
list_rpop self =
    if self.len == 0
    then pure (null, self)
    else (if self.len - 1 == 0
        then unlinked self.tail (record self { head = null; tail = null; len = self.len - 1 })
        else (do
          n ← load self.tail
          set_next n.prev null
          unlinked self.tail (record self { tail = n.prev; len = self.len - 1 })))

unfoldable pub list_lpop : LinkedList → Cmd (Ptr × LinkedList)
list_lpop self =
    if self.len == 0
    then pure (null, self)
    else (if self.len - 1 == 0
        then unlinked self.head (record self { head = null; tail = null; len = self.len - 1 })
        else (do
          n ← load self.head
          set_prev n.next null
          unlinked self.head (record self { head = n.next; len = self.len - 1 })))

unfoldable pub link_next : LinkedList → Ptr → Ptr → Cmd LinkedList
link_next self prev next =
    if prev == null then pure (record self { head = next }) else (do set_next prev next; pure self)

unfoldable pub link_prev : LinkedList → Ptr → Ptr → Cmd LinkedList
link_prev self next prev =
    if next == null then pure (record self { tail = prev }) else (do set_prev next prev; pure self)

unfoldable pub list_remove : LinkedList → Ptr → Cmd LinkedList
list_remove self node = do
  n ← load node
  self ← link_next self n.prev n.next
  n ← load node
  self ← link_prev self n.next n.prev
  n ← load node
  release self n.val
  free_node node
  pure (if self.len == 0 then self else record self { len = self.len - 1 })

unfoldable pub list_iterator_new_from_node : Bool → Ptr → ListDirection → Cmd (Option ListIterator)
list_iterator_new_from_node false node direction m = done none m
list_iterator_new_from_node true node direction m =
    done (some (record { next = node; direction = direction }))
      (record m { iterators = m.iterators + 1 })

unfoldable pub start_of : LinkedList → ListDirection → Ptr
start_of self list_head = self.head
start_of self list_tail = self.tail

unfoldable pub list_iterator_new : Bool → LinkedList → ListDirection → Cmd (Option ListIterator)
list_iterator_new allocated self direction =
    list_iterator_new_from_node allocated (start_of self direction) direction

unfoldable pub along : ListDirection → ListNode → Ptr
along list_head n = n.next
along list_tail n = n.prev

unfoldable pub list_iterator_next : ListIterator → Cmd (Ptr × ListIterator)
list_iterator_next it =
    if it.next == null
    then pure (null, it)
    else (do n ← load it.next; pure (it.next, record it { next = along it.direction n }))

unfoldable pub list_iterator_destroy : ListIterator → Cmd (Unit {0})
list_iterator_destroy it m = done tt (record m { iterators = m.iterators - 1 })

unfoldable pub is_match : LinkedList → ℕ → ℕ → Bool
is_match self val other = elim self.matches [ none ↦ val == other | some f ↦ f val other ]

-- The loop, from the node that the iterator gave.
unfoldable pub find_loop : LinkedList → ℕ → ℕ → Ptr → ListIterator → Cmd Ptr
find_loop self val zero node it = λ _. out_of_fuel
find_loop self val (suc fuel) node it =
    if node == null then (do list_iterator_destroy it; pure null) else (do
      n ← load node
      (if is_match self val n.val
          then (do list_iterator_destroy it; pure node)
          else (do (following, it) ← list_iterator_next it; find_loop self val fuel following it)))

unfoldable pub find_from : LinkedList → ℕ → Option ListIterator → Cmd Ptr
find_from self val none = pure null
find_from self val (some it) = do
  (node, it) ← list_iterator_next it
  find_loop self val (self.len + 1) node it

unfoldable pub list_find : Bool → LinkedList → ℕ → Cmd Ptr
list_find allocated self val = do
  it ← list_iterator_new allocated self list_head
  find_from self val it

unfoldable pub at_loop : ℕ → Ptr → ListIterator → Cmd Ptr
at_loop zero node it = do list_iterator_destroy it; pure node
at_loop (suc index) node it = do (following, it) ← list_iterator_next it; at_loop index following it

unfoldable pub at_from : ℕ → Option ListIterator → Cmd Ptr
at_from index none = pure null
at_from index (some it) = do (node, it) ← list_iterator_next it; at_loop index node it

unfoldable pub at_index : Bool → LinkedList → ListDirection → ℕ → Cmd Ptr
at_index allocated self direction index =
    if ltb index self.len
    then (do it ← list_iterator_new allocated self direction; at_from index it)
    else pure null

-- `~index` of a negative index counts from the end.
unfoldable pub list_at : Bool → LinkedList → ℤ → Cmd Ptr
list_at allocated self (pos index) = at_index allocated self list_head index
list_at allocated self (negsuc index) = at_index allocated self list_tail index
