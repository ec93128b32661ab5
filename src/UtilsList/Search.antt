-- ===== src/UtilsList/Search.antt =====
-- Nodes that are found by their value or their place.
use mathlib.Core.List.{reverse, reverse_aux}
use esp_qcloud.Prelude.{
  ℕ, zero, suc, ◌+◌, ◌-◌, ◌<◌, ◌≡◌, refl, sym, ap, ◌∙◌, Bool, true, false, Bool-cases, inl, inr,
  Option, [], ◌∷◌, arith, ltb, length, if◌then◌else◌,
}
use esp_qcloud.UtilsList.Heap.{Ptr, null, ListNode, Memory, done, ◌>>=◌}
use esp_qcloud.UtilsList.Heap.Points.{Points, not_null, load-done}
use esp_qcloud.UtilsList.Heap.Links.{Cells, first, last, node, Links}
use esp_qcloud.UtilsList.{
  LinkedList, ListDirection, ListIterator, list_head, list_tail, list_find, find_loop, find_from,
  is_match, list_iterator_new, list_iterator_new_from_node, start_of, list_iterator_next,
  list_iterator_destroy, along, pos, negsuc, list_at, at_index, at_from, at_loop,
}
use esp_qcloud.UtilsList.Shape.{IsList}

-- An iterator meets these nodes, and then NULL.
abbrev Walk : (Ptr → Option ListNode) → ListDirection → Cells → Type 0
Walk h d [] = Unit {0}
Walk h d ((p, v) ∷ xs) =
    ((n : ListNode) × Points h p n × (n.val ≡ v) × (along d n ≡ first xs null)) × Walk h d xs

Walk-forth :
    (h : Ptr → Option ListNode) (before : Ptr) (xs : Cells)
    → Links h before xs null
    → Walk h list_head xs
unfolding along
Walk-forth h before [] s = tt
Walk-forth h before ((p, v) ∷ xs) (e, s) =
    ((node before (first xs null) v, e, refl, refl), Walk-forth h p xs s)

Walk-back :
    (h : Ptr → Option ListNode) (before : Ptr) (xs : Cells) (stop : Ptr) (seen : Cells)
    → Links h before xs stop
    → Walk h list_tail seen
    → before ≡ first seen null
    → Walk h list_tail (reverse_aux xs seen)
unfolding along
Walk-back h before [] stop seen s w e = w
Walk-back h before ((p, v) ∷ xs) stop seen (n, s) w e =
    Walk-back h p xs stop ((p, v) ∷ seen) s ((node before (first xs stop) v, n, refl, e), w) refl

first-reverse :
    (before : Ptr) (xs seen : Cells)
    → before ≡ first seen null
    → last before xs ≡ first (reverse_aux xs seen) null
first-reverse before [] seen e = e
first-reverse before ((p, v) ∷ xs) seen e = first-reverse p xs ((p, v) ∷ seen) refl

length-reverse : (xs seen : Cells) → length (reverse_aux xs seen) ≡ length xs + length seen
length-reverse [] seen = omega arith
length-reverse (x ∷ xs) seen = omega (arith, length-reverse xs (x ∷ seen))

abbrev rest : Cells → Cells
rest [] = []
rest (x ∷ xs) = xs

abbrev at : ListDirection → Cells → ListIterator
at d xs = record { next = first xs null; direction = d }

nexts :
    (m : Memory) (d : ListDirection) (xs : Cells)
    → Walk m.nodes d xs
    → list_iterator_next (at d xs) m ≡ done (first xs null, at d (rest xs)) m
unfolding list_iterator_next
nexts m d [] w = refl
nexts m d ((p, v) ∷ xs) ((n, e, same, goes), w) =
    rw (not_null e) (rw (load-done m e) (rw goes refl))

-- The first node whose value matches, or NULL.
abbrev pub first_match : LinkedList → ℕ → Cells → Ptr
first_match self val [] = null
first_match self val ((p, v) ∷ xs) = if is_match self val v then p else first_match self val xs

abbrev closed : Memory → Memory
closed m = record m { iterators = m.iterators - 1 }

finds :
    (m : Memory) (self : LinkedList) (val fuel : ℕ) (xs : Cells)
    → Walk m.nodes list_head xs
    → length xs < fuel
    → find_loop self val fuel (first xs null) (at list_head (rest xs)) m
      ≡ done (first_match self val xs) (closed m)
unfolding find_loop list_iterator_destroy
finds m self val zero xs w enough = absurd (omega arith)
finds m self val (suc fuel) [] w enough = refl
finds m self val (suc fuel) ((p, v) ∷ xs) ((k, e, same, goes), w) enough = rw (not_null e) (
    rw (load-done m e) (
      rw same (elim (Bool-cases (is_match self val v)) [
        | inl y ↦ rw y refl
        | inr n ↦ rw n (rw (nexts m list_head xs w) (finds m self val fuel xs w (omega arith)))
      ])))

-- The memory behind an iterator that was made and destroyed.
closes : (m : Memory) → closed (record m { iterators = m.iterators + 1 }) ≡ m
closes m =
    let same : m.iterators + 1 - 1 ≡ m.iterators = omega arith in
    ap (λ n. record m { iterators = n }) same

-- Without memory for the iterator the search finds nothing.
abbrev pub if_allocated : Bool → Ptr → Ptr
if_allocated allocated p = if allocated then p else null

-- `list_find` gives the first node of the list whose value matches, by `match` if that is set and
-- by its pointer if not, or NULL; and NULL if there is no memory for the iterator. It leaves the memory as it was,
-- the number of iterators included.
pub find-first_match :
    (allocated : Bool) (m : Memory) (self : LinkedList) (val : ℕ) (xs : Cells)
    → IsList m.nodes self xs
    → list_find allocated self val m ≡ done (if_allocated allocated (first_match self val xs)) m
unfolding list_find list_iterator_new list_iterator_new_from_node find_from start_of
find-first_match false m self val xs is = refl
find-first_match true m self val xs is =
    let o = record m { iterators = m.iterators + 1 } in
    let w = Walk-forth m.nodes null xs is.links in
    let enough : length xs < self.len + 1 = let l = is.len in omega arith in
    simp is.head (
      rw (nexts o list_head xs w) (
        finds o self val (self.len + 1) xs w enough
        ∙ ap (done (first_match self val xs)) (closes m)))

-- The address at a place, or NULL behind the end.
abbrev pub address : Cells → ℕ → Ptr
address [] i = null
address ((p, v) ∷ xs) zero = p
address ((p, v) ∷ xs) (suc i) = address xs i

reaches :
    (m : Memory) (d : ListDirection) (i : ℕ) (xs : Cells)
    → Walk m.nodes d xs
    → at_loop i (first xs null) (at d (rest xs)) m ≡ done (address xs i) (closed m)
unfolding at_loop list_iterator_destroy list_iterator_next
reaches m d zero [] w = refl
reaches m d zero ((p, v) ∷ xs) w = refl
reaches m d (suc i) [] w = reaches m d i [] w
reaches m d (suc i) ((p, v) ∷ xs) (e, w) = rw (nexts m d xs w) (reaches m d i xs w)

address_beyond : (xs : Cells) (i : ℕ) → ltb i (length xs) ≡ false → address xs i ≡ null
address_beyond [] i beyond = refl
address_beyond (x ∷ xs) zero beyond = absurd (ground arith)
address_beyond (x ∷ xs) (suc i) beyond = address_beyond xs i (ground arith)

iterates :
    (allocated : Bool) (m : Memory) (self : LinkedList) (d : ListDirection) (xs : Cells) (i : ℕ)
    → start_of self d ≡ first xs null
    → Walk m.nodes d xs
    → (do it ← list_iterator_new allocated self d; at_from i it) m
      ≡ done (if_allocated allocated (address xs i)) m
unfolding at_from list_iterator_new list_iterator_new_from_node
iterates false m self d xs i starts w = refl
iterates true m self d xs i starts w =
    let o = record m { iterators = m.iterators + 1 } in
    rw starts (rw (nexts o d xs w) (reaches o d i xs w ∙ ap (done (address xs i)) (closes m)))

if_null : (b : Bool) → null ≡ (if b then null else null)
if_null true = refl
if_null false = refl

indexes :
    (allocated : Bool) (m : Memory) (self : LinkedList) (d : ListDirection) (xs : Cells) (i : ℕ)
    → self.len ≡ length xs
    → start_of self d ≡ first xs null
    → Walk m.nodes d xs
    → at_index allocated self d i m ≡ done (if_allocated allocated (address xs i)) m
unfolding at_index at_from list_iterator_new list_iterator_new_from_node
indexes allocated m self d xs i count starts w = simp count (elim (Bool-cases (ltb i (length xs))) [
  | inl y ↦ rw y (iterates allocated m self d xs i starts w)
  | inr n ↦ rw (n, address_beyond xs i n) (ap (λ p. done p m) (if_null allocated))
])

-- `list_at` gives the node at the place of a positive index, counted from the head, and of a
-- negative one counted from the tail, -1 being the last; NULL where the list has no such place
-- or there is no memory for the iterator. It leaves the memory as it was.
pub at-address :
    (allocated : Bool) (m : Memory) (self : LinkedList) (xs : Cells) (i : ℕ)
    → IsList m.nodes self xs
    → (list_at allocated self (pos i) m ≡ done (if_allocated allocated (address xs i)) m)
      × (list_at allocated self (negsuc i) m
          ≡ done (if_allocated allocated (address (reverse xs) i)) m)
unfolding list_at start_of
at-address allocated m self xs i is =
    let count : length (reverse xs) ≡ length xs = let l = length-reverse xs [] in omega arith in
    let w = Walk-back m.nodes null xs null [] is.links tt refl in
    (
      indexes allocated m self list_head xs i is.len is.head (Walk-forth m.nodes null xs is.links),
      indexes allocated m self list_tail (reverse xs) i (is.len ∙ sym count)
          (is.tail ∙ first-reverse null xs [] refl) w,
    )
