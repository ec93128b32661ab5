-- ===== src/UtilsList/Heap/Links.antt =====
-- Doubly linked segments and their footprints.
use mathlib.Core.Bool.{or_assoc}
use mathlib.Core.Path.{subst}
use esp_qcloud.Prelude.{
  inr, inl, Bool-cases, ap, ℕ, ◌≡◌, refl, sym, Bool, true, false, ◌||◌, Option, some, List, [], ◌∷◌,
  ◌++◌, ◌∙◌, arith, ◌==◌,
}
use esp_qcloud.UtilsList.Heap.{Ptr, ListNode, write}
use esp_qcloud.UtilsList.Heap.Points.{Points, Points-write}

-- What a list stands for: the address and the value of each node, in order.
abbrev pub Cells : Type 0
Cells = List (Ptr × ℕ)

abbrev pub has : Ptr → Cells → Bool
has a [] = false
has a ((p, v) ∷ xs) = (a == p) || has a xs

abbrev pub Distinct : Cells → Type 0
Distinct [] = Unit {0}
Distinct ((p, v) ∷ xs) = (has p xs ≡ false) × Distinct xs

-- The address of the first node, or what stands behind an empty segment.
abbrev pub first : Cells → Ptr → Ptr
first [] stop = stop
first ((p, v) ∷ xs) stop = p

-- The address of the last node, or what stands before an empty segment.
abbrev pub last : Ptr → Cells → Ptr
last before [] = before
last before ((p, v) ∷ xs) = last p xs

abbrev pub node : Ptr → Ptr → ℕ → ListNode
node before after v = record { prev = before; next = after; val = v }

-- The nodes `xs` are linked both ways, behind `before` and before `stop`.
abbrev pub Links : (Ptr → Option ListNode) → Ptr → Cells → Ptr → Type 0
Links h before [] stop = Unit {0}
Links h before ((p, v) ∷ xs) stop = Points h p (node before (first xs stop) v) × Links h p xs stop

pub has-append : (a : Ptr) (xs ys : Cells) → has a (xs ++ ys) ≡ (has a xs || has a ys)
has-append a [] ys = refl
has-append a ((p, v) ∷ xs) ys = rw (has-append a xs ys, or_assoc)

pub first-append : (xs ys : Cells) (stop : Ptr) → first (xs ++ ys) stop ≡ first xs (first ys stop)
first-append [] ys stop = refl
first-append (x ∷ xs) ys stop = refl

-- What stands behind a segment that is not empty does not matter to its first node.
pub first_same :
    (ws : Cells) (x : Ptr × ℕ) (a b : Ptr) → first (ws ++ (x ∷ [])) a ≡ first (ws ++ (x ∷ [])) b
first_same [] x a b = refl
first_same (w ∷ ws) x a b = refl

pub last-append : (before : Ptr) (xs ys : Cells) → last before (xs ++ ys) ≡ last (last before xs) ys
last-append before [] ys = refl
last-append before ((p, v) ∷ xs) ys = last-append p xs ys

module _ (h : Ptr → Option ListNode) where
  -- A segment survives any change that spares its own addresses.
  pub frame :
      (g : Ptr → Option ListNode) (before : Ptr) (xs : Cells) (stop : Ptr)
      → Links h before xs stop
      → ((a : Ptr) → has a xs ≡ true → g a ≡ h a)
      → Links g before xs stop
  frame g before [] stop s same = tt
  frame g before ((p, v) ∷ xs) stop (e, s) same = (
    record { ne_null = e.ne_null; holds = same p (ground arith) ∙ e.holds },
    frame g p xs stop s (λ a i. same a (ground arith)),
  )

  pub frame-write :
      (before : Ptr) (xs : Cells) (stop a : Ptr) (c : Option ListNode)
      → Links h before xs stop
      → has a xs ≡ false
      → Links (write h a c) before xs stop
  unfolding write
  frame-write before xs stop a c s out = frame (write h a c) before xs stop s (λ b i. ground arith)

  pub Links-append :
      (before : Ptr) (xs ys : Cells) (stop : Ptr)
      → Links h before xs (first ys stop)
      → Links h (last before xs) ys stop
      → Links h before (xs ++ ys) stop
  Links-append before [] ys stop s t = t
  Links-append before ((p, v) ∷ xs) ys stop (e, s) t =
      (rw (first-append xs ys stop) e, Links-append p xs ys stop s t)

  pub Links-split :
      (before : Ptr) (xs ys : Cells) (stop : Ptr)
      → Links h before (xs ++ ys) stop
      → Links h before xs (first ys stop) × Links h (last before xs) ys stop
  Links-split before [] ys stop s = (tt, s)
  Links-split before ((p, v) ∷ xs) ys stop (e, s) =
      let (front, back) = Links-split p xs ys stop s in
      ((rw (sym (first-append xs ys stop)) e, front), back)

module _ (h : Ptr → Option ListNode) where
  -- The first node gets another predecessor.
  pub relink_first :
      (before before' p v : ℕ) (xs : Cells) (stop : Ptr)
      → Links h before ((p, v) ∷ xs) stop
      → has p xs ≡ false
      → Links (write h p (some (node before' (first xs stop) v))) before' ((p, v) ∷ xs) stop
  relink_first before before' p v xs stop (e, s) out =
      (Points-write e _, frame-write h p xs stop p _ s out)

  -- The last node gets another successor.
  pub relink_last :
      (before : Ptr) (xs : Cells) (p v : ℕ) (stop stop' : Ptr)
      → Links h before (xs ++ ((p, v) ∷ [])) stop
      → has p xs ≡ false
      → Links (write h p (some (node (last before xs) stop' v))) before (xs ++ ((p, v) ∷ [])) stop'
  relink_last before xs p v stop stop' s out =
      let (front, (e, end)) = Links-split h before xs ((p, v) ∷ []) stop s in
      Links-append _ before xs ((p, v) ∷ []) stop'
        (frame-write h before xs p p (some (node (last before xs) stop' v)) front out)
        (Points-write e _, tt)

pub Distinct-split :
    (xs ys : Cells)
    → Distinct (xs ++ ys)
    → Distinct xs × Distinct ys × ((a : Ptr) → has a xs ≡ true → has a ys ≡ false)
Distinct-split [] ys d = (tt, d, λ a i. absurd (ground arith))
Distinct-split ((p, v) ∷ xs) ys (out, d) =
    let (front, back, apart) = Distinct-split xs ys d in
    let here = has-append p xs ys in
    ((ground arith, front), back, λ a i. let there = apart a in ground arith)

pub Distinct-append :
    (xs ys : Cells)
    → Distinct xs
    → Distinct ys
    → ((a : Ptr) → has a xs ≡ true → has a ys ≡ false)
    → Distinct (xs ++ ys)
Distinct-append [] ys d e apart = e
Distinct-append ((p, v) ∷ xs) ys (out, d) e apart =
    let here = has-append p xs ys in
    let away = apart p (ground arith) in
    (ground arith, Distinct-append xs ys d e (λ a i. apart a (ground arith)))

-- A list that is not empty has a last node.
pub ends : (x : Ptr × ℕ) (xs : Cells) → (ys : Cells) × (y : Ptr × ℕ) × (x ∷ xs ≡ ys ++ (y ∷ []))
ends x [] = ([], x, refl)
ends x (x' ∷ xs) = let (ys, y, e) = ends x' xs in (x ∷ ys, y, ap (λ l. x ∷ l) e)

pub Distinct-push :
    (xs : Cells) (p v : ℕ) → Distinct xs → has p xs ≡ false → Distinct (xs ++ ((p, v) ∷ []))
Distinct-push xs p v d out =
    Distinct-append xs ((p, v) ∷ []) d (refl, tt)
      (λ a i. elim (Bool-cases (a == p)) [
        | inl y ↦
            absurd
              (let same : a ≡ p = ground arith in cc (subst (λ q. has q xs ≡ true) same i, out))
        | inr n ↦ ground arith
      ])

-- A list without twins around one of its nodes.
pub record IsParted (ys : Cells) (p : Ptr) (zs : Cells) : Type 0 where
  pub before : Distinct ys
  pub behind : Distinct zs
  pub not_before : has p ys ≡ false
  pub not_behind : has p zs ≡ false
  pub apart : (a : Ptr) → has a ys ≡ true → has a zs ≡ false
  pub apart_back : (a : Ptr) → has a zs ≡ true → has a ys ≡ false

-- What would contradict the other holds for neither.
flip : (b c : Bool) → (b ≡ true → c ≡ false) → c ≡ true → b ≡ false
flip true c h e = absurd (let f = h refl in cc (e, f))
flip false c h e = refl

pub parted : (ys : Cells) (p v : ℕ) (zs : Cells) → Distinct (ys ++ ((p, v) ∷ zs)) → IsParted ys p zs
parted ys p v zs d =
    let (front, (out, back), apart) = Distinct-split ys ((p, v) ∷ zs) d in
    record {
      before = front;
      behind = back;
      not_before = flip (has p ys) (has p ((p, v) ∷ zs)) (apart p) (ground arith);
      not_behind = out;
      apart = λ a i. let o = apart a i in ground arith;
      apart_back = λ a i. flip (has a ys) (has a ((p, v) ∷ zs)) (apart a) (ground arith);
    }

pub not_last :
    (a : Ptr) (ys : Cells) (p v : ℕ) → has a (ys ++ ((p, v) ∷ [])) ≡ false → (a == p) ≡ false
not_last a ys p v out = let here = has-append a ys ((p, v) ∷ []) in ground arith

pub not_among :
    (a : Ptr) (ys : Cells) (p v : ℕ) (zs : Cells)
    → has a (ys ++ ((p, v) ∷ zs)) ≡ false
    → (has a ys ≡ false) × ((a == p) ≡ false) × (has a zs ≡ false)
not_among a ys p v zs out =
    let here = has-append a ys ((p, v) ∷ zs) in (ground arith, ground arith, ground arith)

pub in_neither :
    (a : Ptr) (ys zs : Cells) → has a ys ≡ false → has a zs ≡ false → has a (ys ++ zs) ≡ false
in_neither a ys zs h k = has-append a ys zs ∙ rw (h, k) refl
