-- ===== src/UtilsList/Destroy.antt =====
-- The end of a list.
use mathlib.Core.List.{append_assoc, append-nil}
use esp_qcloud.Prelude.{
  ℕ, ◌-◌, ◌≡◌, refl, sym, ap, ◌∙◌, Bool, true, false, Option, none, List, [], ◌∷◌, ◌++◌, arith,
  length, if◌then◌else◌,
}
use esp_qcloud.UtilsList.Heap.{Ptr, null, ListNode, Memory, write}
use esp_qcloud.UtilsList.Heap.Points.{with_nodes, load-done, free_node-done}
use esp_qcloud.UtilsList.Heap.Links.{Cells, has, Distinct, first, Links, frame-write}
use esp_qcloud.UtilsList.Heap.Returns.{Returns, returns}
use esp_qcloud.UtilsList.Heap.Returns
use esp_qcloud.UtilsList.{LinkedList, list_destroy, destroy_loop, release}
use esp_qcloud.UtilsList.Shape.{IsList}

abbrev pub values : Cells → List ℕ
values [] = []
values ((p, v) ∷ xs) = v ∷ values xs

-- `h` without the nodes of the list.
abbrev pub Without : Cells → (Ptr → Option ListNode) → (Ptr → Option ListNode) → Type 0
Without xs h g = (a : Ptr) → g a ≡ (if has a xs then none else h a)

pub record IsDestroyed (m : Memory) (self : LinkedList) (xs : Cells) (lists : ℕ) (g : Memory)
    : Type 0 where
  pub nodes : Without xs m.nodes g.nodes
  pub released : g.released ≡ (if self.has_free then m.released ++ values xs else m.released)
  pub lists_left : g.lists ≡ lists
  pub iterators : g.iterators ≡ m.iterators

given_none : (b : Bool) (l : List ℕ) → l ≡ (if b then l ++ [] else l)
given_none true l = sym (append-nil l)
given_none false l = refl

given_one :
    (b : Bool) (l : List ℕ) (v : ℕ) (vs : List ℕ)
    → let l1 = if b then l ++ (v ∷ []) else l in
      (if b then l1 ++ vs else l1) ≡ (if b then l ++ (v ∷ vs) else l)
given_one true l v vs = append_assoc l (v ∷ []) vs
given_one false l v vs = refl

destroys :
    (m : Memory) (self : LinkedList) (before : Ptr) (xs : Cells)
    → Links m.nodes before xs null
    → Distinct xs
    → Returns (λ _. IsDestroyed m self xs m.lists) (destroy_loop self (length xs) (first xs null) m)
unfolding destroy_loop release write
destroys m self before [] s d = returns (record {
  nodes = λ a. refl;
  released = given_none self.has_free m.released;
  lists_left = refl;
  iterators = refl;
})
destroys m self before ((p, v) ∷ xs) (e, s) (out, d) =
    let m1 = record m { released = if self.has_free then m.released ++ (v ∷ []) else m.released } in
    let h = write m.nodes p none in
    rw (load-done m e) (
      rw (free_node-done m1 e) (
        Returns.mono
          (destroys (with_nodes h m1) self p xs (frame-write m.nodes p xs null p none s out) d)
          (λ _ g gone. record {
            nodes = λ a. (let here = gone.nodes a in ground arith);
            released = gone.released ∙ given_one self.has_free m.released v (values xs);
            lists_left = gone.lists_left;
            iterators = gone.iterators;
          })))

-- `list_destroy` frees exactly the nodes of the list, and none twice, gives `free` their values in
-- order if it is set, and frees the list.
pub destroy-Destroyed :
    (m : Memory) (self : LinkedList) (xs : Cells)
    → IsList m.nodes self xs
    → Returns (λ _. IsDestroyed m self xs (m.lists - 1)) (list_destroy self m)
unfolding list_destroy destroy_loop release
destroy-Destroyed m self xs is = rw is.head (
    rw is.len (
      Returns.bind (destroys m self null xs is.links is.distinct) (λ _ g gone. returns (record {
        nodes = gone.nodes;
        released = gone.released;
        lists_left = ap (λ n. n - 1) gone.lists_left;
        iterators = gone.iterators;
      }))))
