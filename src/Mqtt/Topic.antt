-- ===== src/Mqtt/Topic.antt =====
-- Topic filters against topic names: `_is_topic_equals` and `_is_topic_matched` of
-- sdk_src/mqtt_client_common.c. A string is the list of its bytes, without the terminator.
pub mod Levels
pub mod Multi
use esp_qcloud.Prelude.{
  ℕ, Option, none, some, Bool, true, false, ◌&&◌, ◌||◌, not, List, [], ◌∷◌, ◌==◌, if◌then◌else◌,
  Outcome, ok, fault,
}

abbrev pub slash : ℕ
slash = b'/'

abbrev pub plus : ℕ
plus = b'+'

abbrev pub hash : ℕ
hash = b'#'

unfoldable pub is_topic_equals : List ℕ → List ℕ → Bool
is_topic_equals [] [] = true
is_topic_equals (x ∷ xs) (y ∷ ys) = x == y && is_topic_equals xs ys
is_topic_equals _ _ = false

-- Whether `*(curf + 1)` is '#'.
abbrev pub begins_with_hash : List ℕ → Bool
begins_with_hash [] = false
begins_with_hash (f ∷ fs) = f == hash

-- `*(curn - 1) == '/'`; before the name there is no byte to read.
last_is_slash : Option ℕ → Outcome Bool
last_is_slash none = fault
last_is_slash (some c) = ok (c == slash)

-- The answer where the filter has `f` left. `before` is `*(curn - 1)`, if `curn` has moved.
filter_left : ℕ → List ℕ → Option ℕ → Outcome Bool
unfolding last_is_slash
filter_left f fs before =
    if f == hash || begins_with_hash fs
    then ok true
    else if f == plus
    then last_is_slash before
    else ok false

-- The two `break`s.
breaks : ℕ → ℕ → Bool
breaks f c =
    not (f == plus && c == slash)
    && ((c == slash && not (f == slash)) || (not (f == plus) && (not (f == hash) && not (f == c))))

-- '+' skips to the next separator: the byte before it, and what is left.
skip_level : ℕ → List ℕ → Option ℕ × List ℕ
skip_level c [] = (some c, [])
skip_level c (d ∷ ds) =
    let (before, left) = skip_level d ds in
    (if d == slash then some c else before, if d == slash then d ∷ ds else left)

-- '#' skips to the end.
last_of : ℕ → List ℕ → ℕ
last_of c [] = c
last_of c (d ∷ ds) = last_of d ds

-- Where `curn` stands after a round that does not break.
next_name : ℕ → Option ℕ → ℕ → List ℕ → Option ℕ × List ℕ
next_name f before c cs =
    if f == plus && c == slash
    then (before, c ∷ cs)
    else if f == plus
    then skip_level c cs
    else if f == hash
    then (some (last_of c cs), [])
    else (some c, cs)

-- Each round steps the filter by one byte.
match_loop : List ℕ → Option ℕ → List ℕ → Outcome Bool
unfolding filter_left breaks next_name skip_level last_of
match_loop [] before [] = ok true
match_loop [] before (c ∷ cs) = ok false
match_loop (f ∷ fs) before [] = filter_left f fs before
match_loop (f ∷ fs) before (c ∷ cs) =
    let (before', left) = next_name f before c cs in
    let rest = match_loop fs before' left in if breaks f c then filter_left f fs before else rest

unfoldable pub is_topic_matched : List ℕ → List ℕ → Outcome Bool
unfolding match_loop
is_topic_matched topic_filter topic_name = match_loop topic_filter none topic_name
