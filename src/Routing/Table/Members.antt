-- ===== src/Routing/Table/Members.antt =====
-- router.go: which topics of which nodes each operation adds to the table and takes from it.
use keel_mqtt_gateway.Prelude.{
  ◌≡◌, refl, subst, Bool, true, false, not, ◌&&◌, ◌||◌, Option, none, some, List, [], ◌∷◌, Str,
  str_eq, str_eq_iff, lookup, lookup-insert, lookup-delete, any-append, map, if◌then◌else◌, arith,
}
use keel_mqtt_gateway.Routing.Table.{
  member, set_add, Table, topics_of, add_local, set_remove, store_rest, remove_from, remove_local,
  remove_all,
}

-- Does the table say that the node has a subscriber for the topic?
unfoldable pub has : Str → Str → Table → Bool
unfolding lookup
has topic node_id m = member topic (topics_of (lookup node_id m))

pub member-eq :
    (x y : Str) (xs : List Str) → member x xs ≡ true → str_eq x y ≡ true → member y xs ≡ true
member-eq x y xs h e = subst (λ z. member z xs ≡ true) ((str_eq_iff x y).0 e) h

pub member-set_add :
    (x y : Str) (xs : List Str) → member y (set_add x xs) ≡ (str_eq x y || member y xs)
member-set_add x y xs = ground (arith, any-append (λ z. str_eq z y) xs (x ∷ []), member-eq x y xs)

pub member-set_remove :
    (x y : Str) (xs : List Str) → member y (set_remove x xs) ≡ (not (str_eq x y) && member y xs)
member-set_remove x y [] = ground arith
member-set_remove x y (z ∷ xs) =
    ground (arith, member-set_remove x y xs, str_eq_iff z x, str_eq_iff z y, str_eq_iff x y)

pub has-add_local :
    (t n t' n' : Str) (m : Table)
    → has t n (add_local t' n' m) ≡ ((str_eq t' t && str_eq n' n) || has t n m)
unfolding add_local has
has-add_local t n t' n' m = ground (
  arith,
  lookup-insert n' n (set_add t' (topics_of (lookup n' m))) m,
  member-set_add t' t (topics_of (lookup n' m)),
  str_eq_iff n' n,
)

topics_of-store_rest :
    (n n' : Str) (topics : List Str) (m : Table)
    → topics_of (lookup n (store_rest n' topics m))
      ≡ (if str_eq n' n then topics else topics_of (lookup n m))
topics_of-store_rest n n' [] m = ground (arith, lookup-delete n' n m)
topics_of-store_rest n n' (t ∷ topics) m = ground (arith, lookup-insert n' n (t ∷ topics) m)

has-remove_from :
    (t n t' n' : Str) (o : Option (List Str)) (m : Table)
    → lookup n' m ≡ o
    → has t n (remove_from t' n' o m) ≡ (not (str_eq t' t && str_eq n' n) && has t n m)
unfolding has
has-remove_from t n t' n' none m e = ground (arith, str_eq_iff n' n)
has-remove_from t n t' n' (some topics) m e = ground (
  arith,
  topics_of-store_rest n n' (set_remove t' topics) m,
  member-set_remove t' t topics,
  str_eq_iff n' n,
)

pub has-remove_local :
    (t n t' n' : Str) (m : Table)
    → has t n (remove_local t' n' m) ≡ (not (str_eq t' t && str_eq n' n) && has t n m)
unfolding remove_local
has-remove_local t n t' n' m = has-remove_from t n t' n' (lookup n' m) m refl

pub has-remove_all :
    (t n : Str) (topics : List Str) (n' : Str) (m : Table)
    → has t n (remove_all topics n' m) ≡ (not (member t topics && str_eq n' n) && has t n m)
unfolding remove_all
has-remove_all t n [] n' m = refl
has-remove_all t n (t' ∷ topics) n' m =
    ground
      (arith, has-remove_all t n topics n' (remove_local t' n' m), has-remove_local t n t' n' m)

pub has-empty : (t n : Str) → has t n [] ≡ false
unfolding has lookup
has-empty t n = refl

-- A node with a topic is one of the keys of the table.
pub has-listed :
    (key node : Str) (m : Table) → has key node m ≡ true → member node (map (λ e. e.0) m) ≡ true
unfolding has lookup
has-listed key node [] h = h
has-listed key node ((n, topics) ∷ m) h = ground (arith, has-listed key node m)

-- Each stands once.
abbrev pub IsDistinct : List Str → Type 0
IsDistinct [] = Unit
IsDistinct (x ∷ xs) = (member x xs ≡ false) × IsDistinct xs
