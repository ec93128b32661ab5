-- ===== src/Mqtt/Topic/Levels.antt =====
-- Filters with the wildcard '+' against the levels of a name, as the MQTT protocol has it.
use esp_qcloud.Prelude.{
  ℕ, ◌≡◌, ◌≢◌, refl, arith, Option, none, some, Bool, true, false, ◌&&◌, List, [], ◌∷◌, ◌++◌, All,
  ok,
}
use esp_qcloud.Mqtt.Topic.{
  slash, plus, hash, is_topic_equals, match_loop, is_topic_matched, skip_level, last_of,
  filter_left, begins_with_hash,
}

-- A level of a filter: a text, or the wildcard '+'.
pub data Level : Type 0 where
  text : List ℕ → Level
  single : Level

abbrev pub level_string : Level → List ℕ
level_string (text t) = t
level_string single = plus ∷ []

-- The levels after the first, each behind a separator.
abbrev pub filter_tail : List Level → List ℕ
filter_tail [] = []
filter_tail (l ∷ ls) = slash ∷ (level_string l ++ filter_tail ls)

abbrev pub name_tail : List (List ℕ) → List ℕ
name_tail [] = []
name_tail (s ∷ ss) = slash ∷ (s ++ name_tail ss)

-- A level of the filter admits a level of the name.
abbrev pub admits : Level → List ℕ → Bool
admits (text t) s = is_topic_equals t s
admits single s = true

-- Level by level, with the same number of levels.
abbrev pub admits_all : List Level → List (List ℕ) → Bool
admits_all [] [] = true
admits_all (l ∷ ls) (s ∷ ss) = admits l s && admits_all ls ss
admits_all _ _ = false

abbrev pub IsPlain : ℕ → Type 0
IsPlain c = (c ≢ slash) × (c ≢ plus) × (c ≢ hash)

abbrev pub IsLevel : Level → Type 0
IsLevel (text t) = All IsPlain t
IsLevel single = Unit {0}

abbrev pub IsSegment : List ℕ → Type 0
IsSegment s = All (λ c. c ≢ slash) s

-- The last of these levels is not empty.
abbrev pub EndsFilled : List ℕ → List (List ℕ) → Type 0
EndsFilled s [] = s ≢ []
EndsFilled s (t ∷ ts) = EndsFilled t ts

-- The rest of a match that is decided by what follows a level.
abbrev Decides : List Level → List (List ℕ) → Type 0
Decides ls ss =
    (before : Option ℕ) → match_loop (filter_tail ls) before (name_tail ss) ≡ ok (admits_all ls ss)

no_hash :
    (l : Level) (ls : List Level)
    → IsLevel l
    → begins_with_hash (level_string l ++ filter_tail ls) ≡ false
no_hash (text []) [] h = refl
no_hash (text []) (m ∷ ls) h = refl
no_hash (text (c ∷ t)) ls h = ground arith
no_hash single ls h = refl

-- A filter that is left before a separator, or before a plain byte, refuses the name.
left_at_slash :
    (l : Level) (ls : List Level) (before : Option ℕ)
    → IsLevel l
    → filter_left slash (level_string l ++ filter_tail ls) before ≡ ok false
unfolding filter_left
left_at_slash l ls before h = rw (no_hash l ls h)

left_at_plain :
    (f : ℕ) (t : List ℕ) (ls : List Level) (before : Option ℕ)
    → IsPlain f
    → All IsPlain t
    → filter_left f (t ++ filter_tail ls) before ≡ ok false
unfolding filter_left
left_at_plain f t ls before hf ht = ground (arith, no_hash (text t) ls ht)

match_text :
    (ls : List Level) (ss : List (List ℕ)) (t s : List ℕ) (before : Option ℕ)
    → All IsLevel ls
    → Decides ls ss
    → All IsPlain t
    → IsSegment s
    → match_loop (t ++ filter_tail ls) before (s ++ name_tail ss)
      ≡ ok (is_topic_equals t s && admits_all ls ss)
unfolding match_loop is_topic_equals
match_text ls ss [] [] before hl rest ht hs = rest before
match_text [] ss [] (c ∷ s) before hl rest ht hs = refl
match_text (l ∷ ls) ss [] (c ∷ s) before hl rest ht hs = ground (arith, left_at_slash l ls before)
match_text ls [] (f ∷ t) [] before hl rest ht hs = ground (arith, left_at_plain f t ls before)
match_text ls (n ∷ ss) (f ∷ t) [] before hl rest ht hs = ground (arith, left_at_plain f t ls before)
match_text ls ss (f ∷ t) (c ∷ s) before hl rest ht hs =
    ground (arith, left_at_plain f t ls before, match_text ls ss t s (some c) hl rest)

-- '+' stops at the separator behind the level.
skip_level_segment :
    (c : ℕ) (s : List ℕ) (ss : List (List ℕ))
    → IsSegment s
    → skip_level c (s ++ name_tail ss) ≡ (some (last_of c s), name_tail ss)
unfolding skip_level last_of
skip_level_segment c [] [] h = refl
skip_level_segment c [] (n ∷ ss) h = ground arith
skip_level_segment c (d ∷ s) ss h = ground (arith, skip_level_segment d s ss)

match_single :
    (ls : List Level) (ss : List (List ℕ)) (s : List ℕ) (before : Option ℕ)
    → Decides ls ss
    → IsSegment s
    → EndsFilled s ss
    → match_loop (plus ∷ filter_tail ls) before (s ++ name_tail ss) ≡ ok (admits_all ls ss)
unfolding match_loop
match_single ls [] [] before rest hs he = absurd (he refl)
match_single ls (n ∷ ss) [] before rest hs he = ground (arith, rest before)
match_single ls ss (c ∷ s) before rest hs he =
    ground (arith, skip_level_segment c s ss, rest (some (last_of c s)))

match_level :
    (l : Level) (ls : List Level) (s : List ℕ) (ss : List (List ℕ)) (before : Option ℕ)
    → IsLevel l
    → All IsLevel ls
    → IsSegment s
    → EndsFilled s ss
    → Decides ls ss
    → match_loop (level_string l ++ filter_tail ls) before (s ++ name_tail ss)
      ≡ ok (admits l s && admits_all ls ss)
match_level (text t) ls s ss before hl hls hs he rest = match_text ls ss t s before hls rest hl hs
match_level single ls s ss before hl hls hs he rest = match_single ls ss s before rest hs he

abbrev TailFilled : List (List ℕ) → Type 0
TailFilled [] = Unit {0}
TailFilled (s ∷ ss) = EndsFilled s ss

tail_filled : (s : List ℕ) (ss : List (List ℕ)) → EndsFilled s ss → TailFilled ss
tail_filled s [] h = tt
tail_filled s (t ∷ ts) h = h

decides :
    (ls : List Level) (ss : List (List ℕ))
    → All IsLevel ls
    → All IsSegment ss
    → TailFilled ss
    → Decides ls ss
unfolding match_loop
decides [] [] hl hs he before = refl
decides [] (s ∷ ss) hl hs he before = refl
decides (l ∷ ls) [] hl hs he before = left_at_slash l ls before hl.0
decides (l ∷ ls) (s ∷ ss) (hl, hls) (hs, hss) he before =
    match_level l ls s ss (some slash) hl hls hs he (decides ls ss hls hss (tail_filled s ss he))

-- A filter made of levels without '#', each a plain text or '+', matches a topic name whose last
-- level is not empty exactly when the two have the same number of levels, and each text level
-- equals the level of the name at its place. The match reads no byte outside the name.
pub is_topic_matched_levels :
    (l : Level) (ls : List Level) (s : List ℕ) (ss : List (List ℕ))
    → All IsLevel (l ∷ ls)
    → All IsSegment (s ∷ ss)
    → EndsFilled s ss
    → is_topic_matched (level_string l ++ filter_tail ls) (s ++ name_tail ss)
      ≡ ok (admits_all (l ∷ ls) (s ∷ ss))
unfolding is_topic_matched
is_topic_matched_levels l ls s ss (hl, hls) (hs, hss) he =
    match_level l ls s ss none hl hls hs he (decides ls ss hls hss (tail_filled s ss he))
