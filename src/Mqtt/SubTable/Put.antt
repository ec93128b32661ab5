-- ===== src/Mqtt/SubTable/Put.antt =====
-- The table of subscriptions after a SUBACK.
use esp_qcloud.Prelude.{
  ℕ, zero, suc, ◌+◌, ◌≤◌, ◌<◌, ◌≡◌, refl, ap, sym, ◌∙◌, arith, Option, none, some, Bool, true,
  false, List, [], ◌∷◌, set, length, length-set, All, if◌then◌else◌, ok, ◌>>=◌, ◌⊎◌, inl, inr,
  Bool-cases,
}
use esp_qcloud.Mqtt.Client.{SubTopicHandle}
use esp_qcloud.Mqtt.SubTable.Alike.{alike, NoTwins, holds, alike_sym, alike_self}
use esp_qcloud.Mqtt.SubTable.{
  same_filter, check_handle_is_identical, is_occupied, note_free, keep, scan, placed, put_handle,
}

-- What the loop does at one place.
identical_lem :
    (f g : Option (List ℕ)) (s h : SubTopicHandle)
    → s.topic_filter ≡ f
    → h.topic_filter ≡ g
    → is_occupied g ≡ true
    → (if is_occupied f then check_handle_is_identical s h else ok false) ≡ ok (alike s h)
unfolding check_handle_is_identical same_filter
identical_lem none none s h e1 e2 o = ground arith
identical_lem none (some g) s h e1 e2 o = ground arith
identical_lem (some f) none s h e1 e2 o = ground arith
identical_lem (some f) (some g) s h e1 e2 o = simp (e1, e2) refl

-- The table with the user data of an alike handle changed, if there is one.
abbrev updated : List SubTopicHandle → SubTopicHandle → Option (List SubTopicHandle)
updated [] h = none
updated (s ∷ ss) h =
    if alike s h
    then some (record s { handler_user_data = h.handler_user_data } ∷ ss)
    else keep s (updated ss h)

abbrev free_at : List SubTopicHandle → SubTopicHandle → ℕ → Option ℕ → Option ℕ
free_at [] h i f = f
free_at (s ∷ ss) h i f =
    if alike s h then f else free_at ss h (i + 1) (note_free (is_occupied s.topic_filter) i f)

scan_lem :
    (ss : List SubTopicHandle) (h : SubTopicHandle) (i : ℕ) (f : Option ℕ)
    → is_occupied h.topic_filter ≡ true
    → scan ss h i f ≡ ok (updated ss h, free_at ss h i f)
unfolding scan
scan_lem [] h i f o = refl
scan_lem (s ∷ ss) h i f o = rw (identical_lem s.topic_filter h.topic_filter s h refl refl o) (
    rw (scan_lem ss h (i + 1) (note_free (is_occupied s.topic_filter) i f) o)
      (elim (Bool-cases (alike s h)) [ inl e ↦ rw e refl | inr e ↦ rw e refl ]))

keep-some :
    (s : SubTopicHandle) (r : Option (List SubTopicHandle)) (table : List SubTopicHandle)
    → keep s r ≡ some table
    → (ss : List SubTopicHandle) × (r ≡ some ss) × (table ≡ s ∷ ss)
keep-some s none table e = ground arith
keep-some s (some ss) table e = (ss, refl, ground arith)

updated_cases :
    (s : SubTopicHandle) (ss : List SubTopicHandle) (h : SubTopicHandle)
    (table : List SubTopicHandle)
    → updated (s ∷ ss) h ≡ some table
    → (alike s h ≡ true × (table ≡ record s { handler_user_data = h.handler_user_data } ∷ ss))
      ⊎ (alike s h ≡ false
          × ((rest : List SubTopicHandle) × (updated ss h ≡ some rest) × (table ≡ s ∷ rest)))
updated_cases s ss h table e = elim (Bool-cases (alike s h)) [
  | inl y ↦ inl (y, ground arith)
  | inr n ↦ inr (n, keep-some s (updated ss h) table (ground arith))
]

updated-All :
    (t : SubTopicHandle) (ss : List SubTopicHandle) (h : SubTopicHandle)
    (table : List SubTopicHandle)
    → updated ss h ≡ some table
    → All (λ s. alike t s ≡ false) ss
    → All (λ s. alike t s ≡ false) table
updated-All t [] h table e a = ground arith
updated-All t (s ∷ ss) h table e (a, more) = elim (updated_cases s ss h table e) [
  | inl (y, eq) ↦ rw eq (a, more)
  | inr (n, (rest, er, eq)) ↦ rw eq (a, updated-All t ss h rest er more)
]

-- What the table keeps if an alike handle is found.
updated_lem :
    (ss : List SubTopicHandle) (h : SubTopicHandle) (table : List SubTopicHandle)
    → updated ss h ≡ some table
    → NoTwins ss
    → NoTwins table × (length table ≡ length ss) × (holds h table ≡ true)
updated_lem [] h table e d = ground arith
updated_lem (s ∷ ss) h table e (d, more) = elim (updated_cases s ss h table e) [
  | inl (y, eq) ↦ rw eq ((d, more), refl, ground arith)
  | inr (n, (rest, er, eq)) ↦
      let (dr, lr, hr) = updated_lem ss h rest er more in
      rw eq ((updated-All s ss h rest er d, dr), ap suc lr, ground arith)
]

keep-none : (s : SubTopicHandle) (r : Option (List SubTopicHandle)) → keep s r ≡ none → r ≡ none
keep-none s none e = refl
keep-none s (some x) e = ground arith

updated-none :
    (ss : List SubTopicHandle) (h : SubTopicHandle)
    → updated ss h ≡ none
    → All (λ s. alike s h ≡ false) ss
updated-none [] h e = tt
updated-none (s ∷ ss) h e = elim (Bool-cases (alike s h)) [
  | inl y ↦ ground arith
  | inr n ↦ (n, updated-none ss h (keep-none s (updated ss h) (ground arith)))
]

updated_rest :
    (s : SubTopicHandle) (ss : List SubTopicHandle) (h : SubTopicHandle)
    → updated (s ∷ ss) h ≡ none
    → updated ss h ≡ none
updated_rest s ss h e =
    let (n, more) = updated-none (s ∷ ss) h e in keep-none s (updated ss h) (ground (arith, n))

note_free_cases :
    (b : Bool) (i j : ℕ) (f : Option ℕ) → note_free b i f ≡ some j → (f ≡ some j) ⊎ (i ≡ j)
unfolding note_free
note_free_cases true i j f e = inl e
note_free_cases false i j none e = inr (ground arith)
note_free_cases false i j (some x) e = inl e

free_at_bound :
    (ss : List SubTopicHandle) (h : SubTopicHandle) (i j : ℕ) (f : Option ℕ)
    → updated ss h ≡ none
    → free_at ss h i f ≡ some j
    → (f ≡ some j) ⊎ (i ≤ j × (j < i + length ss))
free_at_bound [] h i j f u e = inl e
free_at_bound (s ∷ ss) h i j f u e =
    let (n, more) = updated-none (s ∷ ss) h u in
    elim (free_at_bound ss h (i + 1) j (note_free (is_occupied s.topic_filter) i f)
      (updated_rest s ss h u) (ground (arith, n))) [
        | inl e' ↦ elim (note_free_cases (is_occupied s.topic_filter) i j f e') [
          | inl q ↦ inl q
          | inr q ↦ inr (omega (arith, q), omega (arith, q))
        ]
        | inr (lo, hi) ↦ inr (omega (arith, lo), omega (arith, hi))
      ]

set-All {ℓ} :
    (P : SubTopicHandle → Type ℓ) (ss : List SubTopicHandle) (j : ℕ) (h : SubTopicHandle)
    → All P ss
    → P h
    → All P (set ss j h)
set-All P [] j h a p = tt
set-All P (s ∷ ss) zero h (a, more) p = (p, more)
set-All P (s ∷ ss) (suc j) h (a, more) p = (a, set-All P ss j h more p)

All-sym :
    (ss : List SubTopicHandle) (h : SubTopicHandle)
    → All (λ s. alike s h ≡ false) ss
    → All (λ t. alike h t ≡ false) ss
All-sym [] h a = tt
All-sym (s ∷ ss) h (a, more) = (rw (alike_sym h s) a, All-sym ss h more)

set-NoTwins :
    (ss : List SubTopicHandle) (j : ℕ) (h : SubTopicHandle)
    → All (λ s. alike s h ≡ false) ss
    → NoTwins ss
    → NoTwins (set ss j h)
set-NoTwins [] j h a d = tt
set-NoTwins (s ∷ ss) zero h (a, more) (d, rest) = (All-sym ss h more, rest)
set-NoTwins (s ∷ ss) (suc j) h (a, more) (d, rest) =
    (set-All (λ t. alike s t ≡ false) ss j h d a, set-NoTwins ss j h more rest)

holds-set :
    (ss : List SubTopicHandle) (j : ℕ) (h : SubTopicHandle)
    → alike h h ≡ true
    → j < length ss
    → holds h (set ss j h) ≡ true
holds-set [] j h e l = absurd (omega arith)
holds-set (s ∷ ss) zero h e l = ground arith
holds-set (s ∷ ss) (suc j) h e l = ground (arith, holds-set ss j h e)

ok_set :
    (table : List SubTopicHandle) (j : ℕ) (h : SubTopicHandle) (after : List SubTopicHandle)
    → ok (set table j h) ≡ ok after
    → after ≡ set table j h
ok_set table j h after e = ground arith

placed_lem :
    (table : List SubTopicHandle) (h : SubTopicHandle) (u : Option (List SubTopicHandle))
    (f : Option ℕ) (after : List SubTopicHandle)
    → is_occupied h.topic_filter ≡ true
    → NoTwins table
    → updated table h ≡ u
    → free_at table h 0 none ≡ f
    → placed table h (u, f) ≡ ok after
    → NoTwins after × (length after ≡ length table) × (holds h after ≡ true)
unfolding placed
placed_lem table h (some t) f after o d eu ef e = updated_lem table h after (ground arith) d
placed_lem table h none none after o d eu ef e = ground arith
placed_lem table h none (some j) after o d eu ef e = rw (ok_set table j h after e) (
  set-NoTwins table j h (updated-none table h eu) d,
  length-set table j h,
  holds-set table j h (alike_self h o) (elim (free_at_bound table h 0 j none eu ef) [
    | inl q ↦ ground arith
    | inr (lo, hi) ↦ omega (arith, hi)
  ]),
)

-- A handle with a topic filter that is put into a table without twins is in the table then, with
-- its user data; the table keeps its length, and has no twins.
pub put_handle-NoTwins :
    (table : List SubTopicHandle) (h : SubTopicHandle) (after : List SubTopicHandle)
    → is_occupied h.topic_filter ≡ true
    → NoTwins table
    → put_handle table h ≡ ok after
    → NoTwins after × (length after ≡ length table) × (holds h after ≡ true)
unfolding put_handle
put_handle-NoTwins table h after o d e =
    placed_lem table h (updated table h) (free_at table h 0 none) after o d refl refl
      (sym (ap (λ r. r >>= placed table h) (scan_lem table h 0 none o)) ∙ e)
