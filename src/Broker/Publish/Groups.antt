-- ===== src/Broker/Publish/Groups.antt =====
-- hooks.go: which node serves a shared group, by the filters that a forward carries and the
-- subscribers that remain where it arrives.
use keel_mqtt_gateway.Prelude.{
  ◌≡◌, refl, ap, subst, ◌∙◌, inl, inr, Bool, true, false, Option, none, some, List, [], ◌∷◌, Str,
  Dict, str_eq, str_eq_iff, lookup, IsMap, keep, if◌then◌else◌, Bool-cases, arith,
}
use keel_mqtt_gateway.Routing.Table.{member}
use keel_mqtt_gateway.Broker.Publish.{
  filters_at, shared_filters_for_node, Subscribers, is_chosen, with_members, keep_shared,
  on_select_subscribers,
}

-- Is the node the one that was chosen?
abbrev pub is_at : Str → Option Str → Bool
unfolding str_eq
is_at n none = false
is_at n (some target) = str_eq target n

member-filters_at :
    (f n : Str) (selected : Dict Str)
    → IsMap selected
    → member f (filters_at n selected) ≡ is_at n (lookup f selected)
unfolding filters_at lookup is_at
member-filters_at f n [] u = refl
member-filters_at f n ((g, t) ∷ selected) u = elim (Bool-cases (str_eq g f)) [
  | inl e ↦ ground (arith, member-filters_at f n selected u.1, (str_eq_iff g f).0 e, u.0)
  | inr e ↦ ground (arith, member-filters_at f n selected u.1)
]

module _ (connected : Str → Bool) where
  abbrev pub some_members : List Str → Option (List Str)
  some_members [] = none
  some_members (c ∷ members) = some (c ∷ members)

  -- The members that are connected, if there are any.
  abbrev pub remaining : Option (List Str) → Option (List Str)
  remaining none = none
  remaining (some members) = some_members (keep connected members)

  lookup-with_members :
      (f g : Str) (members : List Str) (rest : Dict (List Str))
      → (str_eq g f ≡ true → lookup f rest ≡ none)
      → lookup f (with_members connected g members rest)
        ≡ (if str_eq g f then some_members members else lookup f rest)
  unfolding lookup
  lookup-with_members f g [] rest h = ground arith
  lookup-with_members f g (c ∷ members) rest h = refl

  lookup-keep_shared :
      (f : Str) (chosen : Option (List Str)) (shared : Dict (List Str))
      → IsMap shared
      → lookup f (keep_shared connected chosen shared)
        ≡ (if is_chosen connected chosen f then remaining (lookup f shared) else none)
  unfolding keep_shared is_chosen lookup
  lookup-keep_shared f chosen [] u = ground arith
  lookup-keep_shared f chosen ((g, members) ∷ shared) u =
      let rest = keep_shared connected chosen shared in
      let ih = lookup-keep_shared f chosen shared u.1 in
      let here = lookup-with_members f g (keep connected members) rest in
      elim (Bool-cases (str_eq g f)) [
        | inl e ↦
            let q : g ≡ f = (str_eq_iff g f).0 e in
            let absent : lookup f shared ≡ none = subst (λ x. lookup x shared ≡ none) q u.0 in
            let same : is_chosen connected chosen g ≡ is_chosen connected chosen f =
              ap (is_chosen connected chosen) q in
            ground (arith, here, ih)
        | inr e ↦ ground (arith, here, ih)
      ]

  -- Where a publish arrives with the shared filters that the plan gives to a node, the subscribers
  -- of a shared filter remain exactly if the plan chose that node for the filter: then those of its
  -- members that are connected, if there are any; both maps hold each filter once.
  pub shared_group_node :
      (has_store : Bool) (subs : Subscribers) (selected : Dict Str) (f n : Str)
      → IsMap subs.shared
      → IsMap selected
      → let filters = shared_filters_for_node (some selected) n in
        lookup f (on_select_subscribers connected true has_store filters subs).shared
        ≡ (if is_at n (lookup f selected) then remaining (lookup f subs.shared) else none)
  unfolding on_select_subscribers shared_filters_for_node is_chosen
  shared_group_node has_store subs selected f n u v =
      lookup-keep_shared f (some (filters_at n selected)) subs.shared u
      ∙ ap (λ b. if b then remaining (lookup f subs.shared) else none)
          (member-filters_at f n selected v)
