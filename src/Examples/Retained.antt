-- ===== src/Examples/Retained.antt =====
-- Retained messages in a Redis whose keys are looked up in a function.
use keel_mqtt_gateway.Prelude.{
  ◌≡◌, refl, true, false, not, ◌&&◌, ◌||◌, Option, none, some, List, [], ◌∷◌, Str, codes, str_eq,
  str_eq_refl, has_some, if◌then◌else◌, arith,
}
use keel_mqtt_gateway.Routing.Table.{member, set_add, set_remove}
use keel_mqtt_gateway.Routing.Table.Members.{member-set_add, member-set_remove}
use keel_mqtt_gateway.Broker.Retained.{
  listed, Redis, retained_key, contains_wildcard, set_retained, match_retained,
}
use keel_mqtt_gateway.Broker.Retained.History.{
  Call, index_topic, stored, wanted, answer_for, run, IsIndexed, match_retained_lem, index_is_lost,
}

-- A missing key is an empty set.
data Value : Type 0 where
  text : Str → Value
  elements : List Str → Value

abbrev text_of : Value → Option Str
text_of (text v) = some v
text_of (elements xs) = none

abbrev elements_of : Value → Option (List Str)
elements_of (text v) = none
elements_of (elements xs) = some xs

abbrev add : Str → Value → Value
add x (text v) = text v
add x (elements xs) = elements (set_add x xs)

abbrev remove : Str → Value → Value
remove x (text v) = text v
remove x (elements xs) = elements (set_remove x xs)

-- The state with the value at one key replaced by what a function makes of it.
abbrev at_key : Str → (Value → Value) → (Str → Value) → Str → Value
at_key j f w k = if str_eq j k then f (w k) else w k

text_of-at_key :
    (j k : Str) (v : Value) (w : Str → Value)
    → text_of (at_key j (λ _. v) w k) ≡ (if str_eq j k then text_of v else text_of (w k))
text_of-at_key j k v w = ground arith

elements_of-at_key :
    (j k : Str) (v : Value) (w : Str → Value)
    → elements_of (at_key j (λ _. v) w k)
      ≡ (if str_eq j k then elements_of v else elements_of (w k))
elements_of-at_key j k v w = ground arith

elsewhere :
    (j k : Str) (f : Value → Value) (w : Str → Value)
    → str_eq j k ≡ false
    → elements_of (at_key j f w k) ≡ elements_of (w k)
elsewhere j k f w h = rw h refl

same_text :
    (j k : Str) (f : Value → Value) (w : Str → Value)
    → ((v : Value) → text_of (f v) ≡ text_of v)
    → text_of (at_key j f w k) ≡ text_of (w k)
same_text j k f w h = ground (arith, h (w k))

add-text_of : (x : Str) (v : Value) → text_of (add x v) ≡ text_of v
add-text_of x (text v) = refl
add-text_of x (elements xs) = refl

remove-text_of : (x : Str) (v : Value) → text_of (remove x v) ≡ text_of v
remove-text_of x (text v) = refl
remove-text_of x (elements xs) = refl

add-elements_of :
    (x : Str) (v : Value) → has_some (elements_of (add x v)) ≡ has_some (elements_of v)
add-elements_of x (text v) = refl
add-elements_of x (elements xs) = refl

remove-elements_of :
    (x : Str) (v : Value) → has_some (elements_of (remove x v)) ≡ has_some (elements_of v)
remove-elements_of x (text v) = refl
remove-elements_of x (elements xs) = refl

listed-add :
    (x y : Str) (v : Value)
    → has_some (elements_of v) ≡ true
    → listed y (elements_of (add x v)) ≡ (str_eq x y || listed y (elements_of v))
listed-add x y (text v) h = ground arith
listed-add x y (elements xs) h = member-set_add x y xs

listed-remove :
    (x y : Str) (v : Value)
    → listed y (elements_of (remove x v)) ≡ (not (str_eq x y) && listed y (elements_of v))
listed-remove x y (text v) = ground arith
listed-remove x y (elements xs) = member-set_remove x y xs

abbrev keyed : Redis
keyed = record {
  W = Str → Value;
  set = λ j v w. at_key j (λ _. text v) w;
  del = λ j w. at_key j (λ _. elements []) w;
  sadd = λ j x w. (at_key j (add x) w, has_some (elements_of (w j)));
  srem = λ j x w. (at_key j (remove x) w, has_some (elements_of (w j)));
  get = λ k w. text_of (w k);
  smembers = λ k w. elements_of (w k);
  get-set = λ j v w k. text_of-at_key j k (text v) w;
  smembers-set = λ j v w k. elements_of-at_key j k (text v) w;
  get-del = λ j w k. text_of-at_key j k (elements []) w;
  smembers-del = λ j w k. elsewhere j k (λ _. elements []) w;
  get-sadd = λ j x w k. same_text j k (add x) w (add-text_of x);
  get-srem = λ j x w k. same_text j k (remove x) w (remove-text_of x);
  readable-sadd = λ j x w. rw (str_eq_refl j) (add-elements_of x (w j));
  readable-srem = λ j x w. rw (str_eq_refl j) (remove-elements_of x (w j));
  listed-sadd = λ j x w y h. rw (str_eq_refl j) (listed-add x y (w j) h);
  listed-srem = λ j x w y. rw (str_eq_refl j) (listed-remove x y (w j));
}

abbrev nothing : Str → Value
nothing k = elements []

nothing-IsIndexed : IsIndexed keyed nothing
nothing-IsIndexed = record { readable = refl; indexed = λ t. refl }

-- "t/a" is written twice, and "t/b" written and cleared.
abbrev calls : List Call
calls =
    (true, codes "t/a", codes "1")
    ∷ (true, codes "t/b", codes "2")
    ∷ (true, codes "t/a", codes "3")
    ∷ (true, codes "t/b", [])
    ∷ []

match_retained_lem_example :
    answer_for
      (codes "t/a")
      (match_retained keyed (codes "t/+") [] (run keyed calls nothing) (run keyed calls nothing))
    ≡ (if not (member (codes "t/a") []) && wanted (codes "t/+") (codes "t/a")
        then stored (codes "t/a") calls (text_of (nothing (retained_key (codes "t/a"))))
        else none)
unfolding str_eq
match_retained_lem_example =
    match_retained_lem keyed calls nothing (codes "t/+") [] (refl, (refl, (refl, (refl, tt))))
      nothing-IsIndexed (codes "t/a")

index_is_lost_example :
    match_retained keyed
      (codes "#")
      []
      (set_retained keyed true index_topic (codes "1") (run keyed calls nothing)).0
      (run keyed calls nothing)
    ≡ none
unfolding contains_wildcard
index_is_lost_example =
    index_is_lost keyed (run keyed calls nothing) (run keyed calls nothing) (codes "#") (codes "1")
      [] refl refl
