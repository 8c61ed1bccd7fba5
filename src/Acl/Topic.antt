-- ===== src/Acl/Topic.antt =====
-- internal/cluster/acl/match.go: shared filters, topic matching and the specificity score.
pub mod Levels
use keel_mqtt_gateway.Prelude.{
  ℕ, ◌+◌, Bool, true, false, not, ◌&&◌, ◌||◌, Option, none, some, List, [], ◌∷◌, Str, codes, str_eq,
  has_prefix, split, split_n, is_nil, ◌==◌, leb, if◌then◌else◌,
}

abbrev pub slash : ℕ
slash = b'/'

abbrev pub hash : Str
hash = codes "#"

abbrev pub plus : Str
plus = codes "+"

abbrev pub dollar : Str
dollar = codes "$"

-- The simple folding of strings.EqualFold onto lower-case ASCII: the letters A to Z, and the one
-- other code point that folds to a letter of "$share", U+017F (the bytes 0xC5 0xBF), to s.
unfoldable pub fold_case : Str → Str
fold_case [] = []
fold_case (c ∷ []) = (if leb b'A' c && leb c b'Z' then c + 32 else c) ∷ []
fold_case (c ∷ d ∷ s) =
    let after = fold_case s in
    let onward = fold_case (d ∷ s) in
    if c == 0xC5 && d == 0xBF
    then b's' ∷ after
    else (if leb b'A' c && leb c b'Z' then c + 32 else c) ∷ onward

-- The three parts of SplitN, tested in the order of the source.
shared_parts : List Str → Option (Str × Str)
unfolding fold_case str_eq
shared_parts (prefix ∷ group ∷ filter ∷ []) =
    if not (str_eq (fold_case prefix) (codes "$share")) || is_nil group || is_nil filter
    then none
    else some (group, filter)
shared_parts _ = none

-- SharedFilter: the group and the underlying filter; `none` is ok = false.
unfoldable pub shared_filter : Str → Option (Str × Str)
unfolding shared_parts split_n
shared_filter filter = shared_parts (split_n slash 2 filter)

-- A wildcard in the first level never matches a topic whose first level starts with $.
unfoldable pub dollar_blocked : List Str → List Str → Bool
unfolding str_eq has_prefix
dollar_blocked fs [] = false
dollar_blocked [] (t ∷ ts) = has_prefix t dollar
dollar_blocked (f ∷ fs) (t ∷ ts) =
    has_prefix t dollar && (not (str_eq f t) && (str_eq f hash || str_eq f plus))

-- The loop over the filter's levels; its index stands for how far both lists are consumed.
unfoldable pub match_levels : List Str → List Str → Bool
unfolding str_eq
match_levels [] ts = is_nil ts
match_levels (f ∷ fs) [] = if str_eq f hash then is_nil fs else false
match_levels (f ∷ fs) (t ∷ ts) =
    let rest = match_levels fs ts in
    if str_eq f hash
    then is_nil fs
    else if str_eq f plus
    then rest
    else if not (str_eq f t)
    then false
    else rest

-- MatchTopic.
unfoldable pub match_topic : Str → Str → Bool
unfolding str_eq split dollar_blocked match_levels
match_topic filter topic =
    let f_parts = split slash filter in
    let t_parts = split slash topic in
    if str_eq filter topic
    then true
    else if dollar_blocked f_parts t_parts
    then false
    else match_levels f_parts t_parts

abbrev level_score : Str → ℕ
level_score p = if str_eq p hash then 1 else if str_eq p plus then 10 else 100

score_levels : List Str → ℕ
score_levels [] = 0
score_levels (p ∷ ps) = level_score p + score_levels ps

-- specificity.
unfoldable pub specificity : Str → ℕ
unfolding str_eq split score_levels
specificity filter = score_levels (split slash filter)
