-- ===== src/UtilsList/Pop.antt =====
-- The first or the last node that is taken off a list.
use mathlib.Core.Path.{subst, subst⁻¹}
use esp_qcloud.Prelude.{
  ℕ, ◌+◌, ◌-◌, ◌≡◌, refl, sym, ◌∙◌, false, some, [], ◌∷◌, ◌++◌, arith, ◌==◌, length, length-append,
}
use esp_qcloud.UtilsList.Heap.{Ptr, null, Memory, write}
use esp_qcloud.UtilsList.Heap.Points.{
  Points, Points-write, Points-write_ne, with_nodes, load-done, set_next-done, set_prev-done,
  write_self,
}
use esp_qcloud.UtilsList.Heap.Links.{
  Cells, has, first, last, last-append, first-append, first_same, node, frame-write, Links-split,
  relink_first, relink_last, ends, parted, not_last,
}
use esp_qcloud.UtilsList.Heap.Returns.{Returns, returns}
use esp_qcloud.UtilsList.{LinkedList, list_rpop, list_lpop, unlinked}
use esp_qcloud.UtilsList.Shape.{IsList, OnlyNodes}

-- The node `p` was taken off, alone with its value, and `xs` are left.
abbrev pub Pops : Memory → ℕ → ℕ → Cells → Ptr × LinkedList → Memory → Type 0
Pops m p v xs r g =
    (r.0 ≡ p) × IsList g.nodes r.1 xs × (g.nodes p ≡ some (node null null v)) × OnlyNodes m g

unlinks :
    (m : Memory) (self : LinkedList) (p v before after : ℕ) (xs : Cells)
    → Points m.nodes p (node before after v)
    → has p xs ≡ false
    → IsList m.nodes self xs
    → Returns (Pops m p v xs) (unlinked p self m)
unfolding unlinked
unlinks m self p v before after xs e out is =
    let a = node null after v in
    let h = write m.nodes p (some a) in
    rw (set_prev-done m e null) (
      rw (set_next-done (with_nodes h m) (Points-write e a) null) (
        returns (
          refl,
          record {
            head = is.head;
            tail = is.tail;
            len = is.len;
            links =
                frame-write h null xs null p _
                  (frame-write m.nodes null xs null p (some a) is.links out) out;
            distinct = is.distinct;
          },
          write_self h p _,
          refl,
        )))

lpop_only :
    (m : Memory) (self : LinkedList) (p v : ℕ)
    → IsList m.nodes self ((p, v) ∷ [])
    → Returns (Pops m p v []) (list_lpop self m)
unfolding list_lpop
lpop_only m self p v is =
    let (e, end) = is.links in
    simp (is.len, is.head)
      (unlinks m (record self { head = null; tail = null; len = 0 }) p v _ _ [] e refl
        (record { head = refl; tail = refl; len = refl; links = tt; distinct = tt }))

lpop_more :
    (m : Memory) (self : LinkedList) (p v t w : ℕ) (zs : Cells)
    → IsList m.nodes self ((p, v) ∷ (t, w) ∷ zs)
    → Returns (Pops m p v ((t, w) ∷ zs)) (list_lpop self m)
unfolding list_lpop
lpop_more m self p v t w zs is =
    let (e, (f, s)) = is.links in
    let (out, (off, d)) = is.distinct in
    let apart : (p == t) ≡ false = ground arith in
    let c = node null (first zs null) w in
    let g = write m.nodes t (some c) in
    let more : (self.len - 1 == 0) ≡ false = let l = is.len in ground arith in
    let some_nodes : (self.len == 0) ≡ false = let l = is.len in ground arith in
    let left : self.len - 1 ≡ length ((t, w) ∷ zs) = let l = is.len in omega arith in
    simp (some_nodes, more, is.head)
      (rw (load-done m e) (
        rw (set_prev-done m f null) (
          unlinks (with_nodes g m) (record self { head = t; len = self.len - 1 }) p v _ _
            ((t, w) ∷ zs) (Points-write_ne e t (some c) apart) out
            (record {
              head = refl;
              tail = is.tail;
              len = left;
              links = relink_first m.nodes p null t w zs null (f, s) off;
              distinct = (off, d);
            }))))

-- The first node is taken off: it is alone with its value, and the list is the rest, linked both
-- ways, with its head, its tail and its count. Nothing but nodes changes.
pub lpop-Pops :
    (m : Memory) (self : LinkedList) (p v : ℕ) (xs : Cells)
    → IsList m.nodes self ((p, v) ∷ xs)
    → Returns (Pops m p v xs) (list_lpop self m)
lpop-Pops m self p v [] is = lpop_only m self p v is
lpop-Pops m self p v ((t, w) ∷ xs) is = lpop_more m self p v t w xs is

rpop_only :
    (m : Memory) (self : LinkedList) (p v : ℕ)
    → IsList m.nodes self ((p, v) ∷ [])
    → Returns (Pops m p v []) (list_rpop self m)
unfolding list_rpop
rpop_only m self p v is =
    let (e, end) = is.links in
    simp (is.len, is.tail)
      (unlinks m (record self { head = null; tail = null; len = 0 }) p v _ _ [] e refl
        (record { head = refl; tail = refl; len = refl; links = tt; distinct = tt }))

rpop_more :
    (m : Memory) (self : LinkedList) (ws : Cells) (t w p v : ℕ)
    → IsList m.nodes self ((ws ++ ((t, w) ∷ [])) ++ ((p, v) ∷ []))
    → Returns (Pops m p v (ws ++ ((t, w) ∷ []))) (list_rpop self m)
unfolding list_rpop
rpop_more m self ws t w p v is =
    let ys = ws ++ ((t, w) ∷ []) in
    let (s, (e, end)) = Links-split m.nodes null ys ((p, v) ∷ []) null is.links in
    let (front, (f, end')) = Links-split m.nodes null ws ((t, w) ∷ []) p s in
    let d = parted ys p v [] is.distinct in
    let before : last null ys ≡ t = last-append null ws ((t, w) ∷ []) in
    let at_tail : self.tail ≡ p = is.tail ∙ last-append null ys ((p, v) ∷ []) in
    let c = node (last null ws) null w in
    let g = write m.nodes t (some c) in
    let count : self.len ≡ length ys + 1 = is.len ∙ length-append ys ((p, v) ∷ []) in
    let longer : length ys ≡ length ws + 1 = length-append ws ((t, w) ∷ []) in
    let more : (self.len - 1 == 0) ≡ false = ground arith in
    let some_nodes : (self.len == 0) ≡ false = ground arith in
    simp (some_nodes, more, at_tail)
      (rw (load-done m e) (
        rw before (
          rw (set_next-done m f null) (
            unlinks (with_nodes g m) (record self { tail = t; len = self.len - 1 }) p v _ _ ys
              (Points-write_ne e t (some c) (not_last p ws t w d.not_before)) d.not_before
              (record {
                head = is.head ∙ first-append ys ((p, v) ∷ []) null ∙ first_same ws (t, w) p null;
                tail = sym before;
                len = omega arith;
                links =
                    relink_last m.nodes null ws t w p null s (parted ws t w [] d.before).not_before;
                distinct = d.before;
              })))))

-- The last node is taken off: it is alone with its value, and the list is the rest, linked both
-- ways, with its head, its tail and its count. Nothing but nodes changes.
pub rpop-Pops :
    (m : Memory) (self : LinkedList) (xs : Cells) (p v : ℕ)
    → IsList m.nodes self (xs ++ ((p, v) ∷ []))
    → Returns (Pops m p v xs) (list_rpop self m)
rpop-Pops m self [] p v is = rpop_only m self p v is
rpop-Pops m self (x ∷ xs) p v is =
    let (ws, (t, w), e) = ends x xs in
    subst⁻¹ (λ l. Returns (Pops m p v l) (list_rpop self m)) e
      (rpop_more m self ws t w p v (subst (λ l. IsList m.nodes self (l ++ ((p, v) ∷ []))) e is))
