-- ===== src/UtilsList/Push.antt =====
-- A node that is pushed to the end of a list, or in front of it.
use mathlib.Core.Path.{subst, subst⁻¹}
use esp_qcloud.Prelude.{
  ap, ℕ, ◌+◌, ◌^◌, ◌<◌, ◌≡◌, refl, sym, ◌∙◌, false, some, [], ◌∷◌, ◌++◌, arith, ◌==◌, length,
  length-append,
}
use esp_qcloud.UtilsList.Heap.{Ptr, null, Memory, write}
use esp_qcloud.UtilsList.Heap.Points.{
  Points, Points-write, Points-write_ne, not_null, with_nodes, set_next-done, set_prev-done,
}
use esp_qcloud.UtilsList.Heap.Links.{
  Cells, has, last-append, first-append, first_same, node, frame-write, Links-append, Links-split,
  relink_first, relink_last, ends, Distinct-push, parted, not_last,
}
use esp_qcloud.UtilsList.Heap.Returns.{Returns, returns}
use esp_qcloud.UtilsList.{LinkedList, list_rpush, list_lpush}
use esp_qcloud.UtilsList.Shape.{IsList, OnlyNodes}

-- `p` is a node with value `v` that is not in the list.
pub record IsFree (m : Memory) (p v : ℕ) (xs : Cells) : Type 0 where
  pub before : Ptr
  pub after : Ptr
  pub there : Points m.nodes p (node before after v)
  pub apart : has p xs ≡ false

abbrev pub Appends : Memory → ℕ → ℕ → Cells → Ptr × LinkedList → Memory → Type 0
Appends m p v xs r g = (r.0 ≡ p) × IsList g.nodes r.1 (xs ++ ((p, v) ∷ [])) × OnlyNodes m g

abbrev pub Prepends : Memory → ℕ → ℕ → Cells → Ptr × LinkedList → Memory → Type 0
Prepends m p v xs r g = (r.0 ≡ p) × IsList g.nodes r.1 ((p, v) ∷ xs) × OnlyNodes m g

module _ {m : Memory} {self : LinkedList} {p v : ℕ} where
  rpush_empty :
      IsList m.nodes self [] → IsFree m p v [] → Returns (Appends m p v []) (list_rpush self p m)
  unfolding list_rpush
  rpush_empty is fresh =
      let e = fresh.there in
      let a = node fresh.before null v in
      rw (not_null e) (
        rw is.len (
          rw (set_next-done m e null) (
            rw (set_prev-done (with_nodes (write m.nodes p (some a)) m) (Points-write e a) null) (
              returns (
                refl,
                record {
                  head = refl;
                  tail = refl;
                  len = refl;
                  links = (Points-write (Points-write e a) _, tt);
                  distinct = (refl, tt);
                },
                refl,
              )))))

  rpush_behind :
      (ys : Cells) (t w : ℕ)
      → IsList m.nodes self (ys ++ ((t, w) ∷ []))
      → IsFree m p v (ys ++ ((t, w) ∷ []))
      → length ys + 2 < 2 ^ 32
      → Returns (Appends m p v (ys ++ ((t, w) ∷ []))) (list_rpush self p m)
  unfolding list_rpush
  rpush_behind ys t w is fresh small =
      let xs = ys ++ ((t, w) ∷ []) in
      let e = fresh.there in
      let a = node t fresh.after v in
      let b = node t null v in
      let h1 = write m.nodes p (some a) in
      let h2 = write h1 p (some b) in
      let at_tail : self.tail ≡ t = is.tail ∙ last-append null ys ((t, w) ∷ []) in
      let count : length xs ≡ length ys + 1 = length-append ys ((t, w) ∷ []) in
      let some_nodes : (self.len == 0) ≡ false = let l = is.len in ground arith in
      let e1 = Points-write e a in
      let links2 =
        frame-write h1 null xs null p (some b)
          (frame-write m.nodes null xs null p (some a) is.links fresh.apart) fresh.apart in
      let (front, (f, end)) = Links-split h2 null ys ((t, w) ∷ []) null links2 in
      let old = (parted ys t w [] is.distinct).not_before in
      let other : (p == t) ≡ false = not_last p ys t w fresh.apart in
      rw (not_null e) (
        rw some_nodes (
          rw at_tail (
            rw (set_prev-done m e t) (
              rw (set_next-done (with_nodes h1 m) e1 null) (
                rw (set_next-done (with_nodes h2 m) f p) (
                  returns (
                    refl,
                    record {
                      head =
                          is.head
                          ∙ first_same ys (t, w) null p
                          ∙ sym (first-append xs ((p, v) ∷ []) null);
                      tail = sym (last-append null xs ((p, v) ∷ []));
                      len = (let l = is.len in omega (arith, length-append xs ((p, v) ∷ [])));
                      links =
                          Links-append _ null xs ((p, v) ∷ []) null
                            (relink_last h2 null ys t w null p links2 old)
                            (
                              rw (last-append null ys ((t, w) ∷ []))
                                  (Points-write_ne (Points-write e1 b) t _ other),
                              tt,
                            );
                      distinct = Distinct-push xs p v is.distinct fresh.apart;
                    },
                    refl,
                  )))))))

  -- The node that is pushed is the last of the list, behind the nodes that were there: both directions
  -- of the links, the head, the tail and the count fit the longer list. Nothing but nodes changes.
  pub rpush-Appends :
      (xs : Cells)
      → IsList m.nodes self xs
      → IsFree m p v xs
      → length xs + 1 < 2 ^ 32
      → Returns (Appends m p v xs) (list_rpush self p m)
  rpush-Appends [] is fresh small = rpush_empty is fresh
  rpush-Appends (x ∷ xs) is fresh small =
      let (ys, (t, w), e) = ends x xs in
      let count : length (x ∷ xs) ≡ length ys + 1 =
        ap (λ l. length l) e ∙ length-append ys ((t, w) ∷ []) in
      subst⁻¹ (λ zs. Returns (Appends m p v zs) (list_rpush self p m)) e
        (rpush_behind ys t w (subst (IsList m.nodes self) e is) (subst (IsFree m p v) e fresh)
          (omega arith))

  lpush_empty :
      IsList m.nodes self [] → IsFree m p v [] → Returns (Prepends m p v []) (list_lpush self p m)
  unfolding list_lpush
  lpush_empty is fresh =
      let e = fresh.there in
      let a = node fresh.before null v in
      rw (not_null e) (
        rw is.len (
          rw (set_next-done m e null) (
            rw (set_prev-done (with_nodes (write m.nodes p (some a)) m) (Points-write e a) null) (
              returns (
                refl,
                record {
                  head = refl;
                  tail = refl;
                  len = refl;
                  links = (Points-write (Points-write e a) _, tt);
                  distinct = (refl, tt);
                },
                refl,
              )))))

  -- The node that is pushed is the first of the list, before the nodes that were there: both
  -- directions of the links, the head, the tail and the count fit the longer list. Nothing but nodes changes.
  pub lpush-Prepends :
      (xs : Cells)
      → IsList m.nodes self xs
      → IsFree m p v xs
      → length xs + 1 < 2 ^ 32
      → Returns (Prepends m p v xs) (list_lpush self p m)
  unfolding list_lpush
  lpush-Prepends [] is fresh small = lpush_empty is fresh
  lpush-Prepends ((t, w) ∷ ys) is fresh small =
      let xs = (t, w) ∷ ys in
      let e = fresh.there in
      let a = node fresh.before t v in
      let b = node null t v in
      let h1 = write m.nodes p (some a) in
      let h2 = write h1 p (some b) in
      let some_nodes : (self.len == 0) ≡ false = let l = is.len in ground arith in
      let e1 = Points-write e a in
      let links2 =
        frame-write h1 null xs null p (some b)
          (frame-write m.nodes null xs null p (some a) is.links fresh.apart) fresh.apart in
      let other : (p == t) ≡ false = let out = fresh.apart in ground arith in
      let f = links2.0 in
      rw (not_null e) (
        rw some_nodes (
          rw is.head (
            rw (set_next-done m e t) (
              rw (set_prev-done (with_nodes h1 m) e1 null) (
                rw (set_prev-done (with_nodes h2 m) f p) (
                  returns (
                    refl,
                    record {
                      head = refl;
                      tail = is.tail;
                      len = (let l = is.len in omega arith);
                      links = (
                        Points-write_ne (Points-write e1 b) t _ other,
                        relink_first h2 null p t w ys null links2 is.distinct.0,
                      );
                      distinct = (fresh.apart, is.distinct);
                    },
                    refl,
                  )))))))
