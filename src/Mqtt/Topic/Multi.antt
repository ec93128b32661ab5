-- ===== src/Mqtt/Topic/Multi.antt =====
-- Filters that end in '#', and where the match and the MQTT protocol differ.
use esp_qcloud.Prelude.{
  ℕ, ◌≡◌, ◌≢◌, refl, arith, Option, none, some, Bool, true, false, List, [], ◌∷◌, ◌++◌, ◌&&◌, ◌==◌,
  All, ok,
}
use esp_qcloud.Mqtt.Topic.{slash, plus, hash, match_loop, is_topic_matched, filter_left}

-- No wildcard, while separators are allowed.
abbrev pub IsLiteral : List ℕ → Type 0
IsLiteral p = All (λ c. (c ≢ plus) × (c ≢ hash)) p

abbrev pub starts_with : List ℕ → List ℕ → Bool
starts_with [] name = true
starts_with (c ∷ p) [] = false
starts_with (c ∷ p) (d ∷ name) = c == d && starts_with p name

multi_left : (before : Option ℕ) (name : List ℕ) → match_loop (hash ∷ []) before name ≡ ok true
unfolding match_loop
multi_left before [] = refl
multi_left before (c ∷ cs) = ground arith

separated_left :
    (before : Option ℕ) (name : List ℕ) → match_loop (slash ∷ hash ∷ []) before name ≡ ok true
unfolding match_loop
separated_left before [] = refl
separated_left before (c ∷ cs) = ground (arith, multi_left (some c) cs)

literal_left :
    (f : ℕ) (p : List ℕ) (before : Option ℕ)
    → IsLiteral (f ∷ p)
    → filter_left f (p ++ (slash ∷ hash ∷ [])) before ≡ ok false
unfolding filter_left
literal_left f [] before h = ground arith
literal_left f (c ∷ p) before h = ground arith

match_multi :
    (p name : List ℕ) (before : Option ℕ)
    → IsLiteral p
    → match_loop (p ++ (slash ∷ hash ∷ [])) before name ≡ ok (starts_with p name)
unfolding match_loop
match_multi [] name before h = separated_left before name
match_multi (f ∷ p) [] before h = literal_left f p before h
match_multi (f ∷ p) (c ∷ name) before (hf, hp) =
    ground (arith, literal_left f p before (hf, hp), match_multi p name (some c) hp)

-- A filter that is a text without wildcards and then "/#" matches a topic name exactly when the
-- name starts with the text, whether a separator follows there or not.
pub is_topic_matched_multi :
    (p name : List ℕ)
    → IsLiteral p
    → is_topic_matched (p ++ (slash ∷ hash ∷ [])) name ≡ ok (starts_with p name)
unfolding is_topic_matched
is_topic_matched_multi p name h = match_multi p name none h

match_empty_level :
    (q fs : List ℕ) (before : Option ℕ)
    → IsLiteral q
    → match_loop (q ++ (slash ∷ plus ∷ fs)) before (q ++ (slash ∷ [])) ≡ ok true
unfolding match_loop filter_left
match_empty_level [] fs before h = ground arith
match_empty_level (c ∷ q) fs before (hc, hq) = ground (arith, match_empty_level q fs (some c) hq)

-- A name that ends in a separator is matched by every filter that continues its text with '+',
-- whatever levels the filter has behind that.
pub is_topic_matched_empty_level :
    (q fs : List ℕ)
    → IsLiteral q
    → is_topic_matched (q ++ (slash ∷ plus ∷ fs)) (q ++ (slash ∷ [])) ≡ ok true
unfolding is_topic_matched
is_topic_matched_empty_level q fs h = match_empty_level q fs none h
