-- ===== src/UtilsList/Remove.antt =====
-- A node that is taken out of a list.
use mathlib.Core.Path.{subst, subst⁻¹}
use esp_qcloud.Prelude.{
  ℕ, suc, ◌+◌, ◌≡◌, refl, sym, ◌∙◌, false, Option, none, some, [], ◌∷◌, ◌++◌, arith, ◌==◌, length,
  length-append, if◌then◌else◌,
}
use esp_qcloud.UtilsList.Heap.{Ptr, null, ListNode, Memory, write, done}
use esp_qcloud.UtilsList.Heap.Points.{
  Points, not_null, with_nodes, load-done, set_next-done, set_prev-done, free_node-done, write_ne,
  write_self,
}
use esp_qcloud.UtilsList.Heap.Links.{
  Cells, has, Distinct, Distinct-append, first, last, last-append, first-append, first_same, node,
  Links, frame, frame-write, Links-append, Links-split, relink_first, relink_last, parted, not_last,
  not_among, in_neither, ends,
}
use esp_qcloud.UtilsList.Heap.Returns.{Returns, returns}
use esp_qcloud.UtilsList.{LinkedList, list_remove, link_next, link_prev, release}
use esp_qcloud.UtilsList.Shape.{IsList}

-- The part of a list before a node gets another successor.
record IsJoined (m : Memory) (self : LinkedList) (ys : Cells) (q : Ptr) (g : Ptr → Option ListNode)
    : Type 0 where
  runs :
      link_next self (last null ys) q m ≡ done (record self { head = first ys q }) (with_nodes g m)
  links : Links g null ys q
  same : (a : Ptr) → has a ys ≡ false → g a ≡ m.nodes a

joins_behind :
    (m : Memory) (self : LinkedList) (ws : Cells) (t w stop q : ℕ)
    → self.head ≡ first (ws ++ ((t, w) ∷ [])) stop
    → Links m.nodes null (ws ++ ((t, w) ∷ [])) stop
    → Distinct (ws ++ ((t, w) ∷ []))
    → (g : Ptr → Option ListNode) × IsJoined m self (ws ++ ((t, w) ∷ [])) q g
unfolding link_next
joins_behind m self ws t w stop q head s d =
    let ys = ws ++ ((t, w) ∷ []) in
    let (front, (e, end)) = Links-split m.nodes null ws ((t, w) ∷ []) stop s in
    let heads : self.head ≡ first ys q = head ∙ first_same ws (t, w) stop q in
    let g = write m.nodes t (some (node (last null ws) q w)) in
    (
      g,
      record {
        runs =
            rw (last-append null ws ((t, w) ∷ []))
              (rw (not_null e) (rw (set_next-done m e q) (rw (sym heads) refl)));
        links = relink_last m.nodes null ws t w stop q s ((parted ws t w [] d).not_before);
        same = λ a out. write_ne m.nodes t _ a (not_last a ws t w out);
      },
    )

joins :
    (m : Memory) (self : LinkedList) (ys : Cells) (stop q : ℕ)
    → self.head ≡ first ys stop
    → Links m.nodes null ys stop
    → Distinct ys
    → (g : Ptr → Option ListNode) × IsJoined m self ys q g
unfolding link_next
joins m self [] stop q head s d =
    (m.nodes, record { runs = refl; links = tt; same = λ a out. refl })
joins m self (y ∷ ys) stop q head s d =
    let (ws, (t, w), e) = ends y ys in
    subst⁻¹ (λ zs. (g : Ptr → Option ListNode) × IsJoined m self zs q g) e
      (joins_behind m self ws t w stop q (subst (λ zs. self.head ≡ first zs stop) e head)
        (subst (λ zs. Links m.nodes null zs stop) e s) (subst Distinct e d))

-- The part of a list behind a node gets another predecessor.
record IsJoinedBack (m : Memory) (self : LinkedList) (zs : Cells) (q : Ptr)
    (g : Ptr → Option ListNode) : Type 0 where
  runs :
      link_prev self (first zs null) q m ≡ done (record self { tail = last q zs }) (with_nodes g m)
  links : Links g q zs null
  same : (a : Ptr) → has a zs ≡ false → g a ≡ m.nodes a

joins_back :
    (m : Memory) (self : LinkedList) (before : ℕ) (zs : Cells) (q : ℕ)
    → self.tail ≡ last before zs
    → Links m.nodes before zs null
    → Distinct zs
    → (g : Ptr → Option ListNode) × IsJoinedBack m self zs q g
unfolding link_prev write
joins_back m self before [] q tail s d =
    (m.nodes, record { runs = refl; links = tt; same = λ a out. refl })
joins_back m self before ((t, w) ∷ zs) q tail (e, s) (out, d) = (
  write m.nodes t (some (node q (first zs null) w)),
  record {
    runs = rw (not_null e) (rw (set_prev-done m e q) (rw (sym tail) refl));
    links = relink_first m.nodes before q t w zs null (e, s) out;
    same = λ a o. ground arith;
  },
)

-- The list `self` without its node `p`.
pub record IsTaken (m : Memory) (self : LinkedList) (ys : Cells) (p v : ℕ) (zs : Cells)
    (self' : LinkedList) (g : Memory) : Type 0 where
  pub list : IsList g.nodes self' (ys ++ zs)
  pub gone : g.nodes p ≡ none
  pub released : g.released ≡ (if self.has_free then m.released ++ (v ∷ []) else m.released)
  pub same : (a : Ptr) → has a (ys ++ ((p, v) ∷ zs)) ≡ false → g.nodes a ≡ m.nodes a

-- The node that is removed is freed, and its value is given to `free` if that is set. The list is the one
-- without the node, linked both ways, with its head, its tail and its count. No other node changes.
pub remove-Taken :
    (m : Memory) (self : LinkedList) (ys : Cells) (p v : ℕ) (zs : Cells)
    → IsList m.nodes self (ys ++ ((p, v) ∷ zs))
    → Returns (IsTaken m self ys p v zs) (list_remove self p m)
unfolding list_remove release
remove-Taken m self ys p v zs is =
    let xs = ys ++ ((p, v) ∷ zs) in
    let d = parted ys p v zs is.distinct in
    let (front, (e, back)) = Links-split m.nodes null ys ((p, v) ∷ zs) null is.links in
    let n = node (last null ys) (first zs null) v in
    let (g, j) =
      joins m self ys p (first zs null) (is.head ∙ first-append ys ((p, v) ∷ zs) null) front
        d.before in
    let m1 = with_nodes g m in
    let self1 = record self { head = first ys (first zs null) } in
    let e1 : Points g p n = record {
      ne_null = e.ne_null;
      holds = j.same p d.not_before ∙ e.holds;
    } in
    let back1 = frame m.nodes g p zs null back (λ a i. j.same a (d.apart_back a i)) in
    let (k, b) =
      joins_back m1 self1 p zs (last null ys) (is.tail ∙ last-append null ys ((p, v) ∷ zs)) back1
        d.behind in
    let m2 = with_nodes k m1 in
    let e2 : Points k p n = record {
      ne_null = e.ne_null;
      holds = b.same p d.not_behind ∙ e1.holds;
    } in
    let front2 = frame g k null ys (first zs null) j.links (λ a i. b.same a (d.apart a i)) in
    let m3 = record m2 {
      released = if self.has_free then m.released ++ (v ∷ []) else m.released;
    } in
    let count : length xs ≡ length ys + suc (length zs) = length-append ys ((p, v) ∷ zs) in
    let some_nodes : (self.len == 0) ≡ false = let l = is.len in ground arith in
    rw (load-done m e) (
      rw j.runs (
        rw (load-done m1 e1) (
          rw b.runs (
            rw (load-done m2 e2) (
              rw (free_node-done m3 e2) (
                rw some_nodes (
                  returns (record {
                    list = record {
                      head = sym (first-append ys zs null);
                      tail = sym (last-append null ys zs);
                      len = (let l = is.len in omega (arith, length-append ys zs));
                      links =
                          frame-write k null (ys ++ zs) null p none
                            (Links-append k null ys zs null front2 b.links)
                            (in_neither p ys zs d.not_before d.not_behind);
                      distinct = Distinct-append ys zs d.before d.behind d.apart;
                    };
                    gone = write_self k p none;
                    released = refl;
                    same = λ a out.
                        (let (o, n, i) = not_among a ys p v zs out in
                          write_ne k p none a n ∙ b.same a i ∙ j.same a o);
                  }))))))))
