-- ===== src/Session/Ownership/Handoff.antt =====
-- offline_ownership.go, Place: what each way that its calls can fail leaves in the routing table.
use keel_mqtt_gateway.Prelude.{
  ◌≡◌, refl, sym, ap, ◌∙◌, inl, inr, Bool, true, false, not, ◌&&◌, ◌||◌, Option, none, some, List,
  [], ◌∷◌, Str, str_eq, str_eq_iff, str_eq_refl, has_some, Option-cases, arith,
}
use keel_mqtt_gateway.Routing.Table.{member, Table, add_local}
use keel_mqtt_gateway.Routing.Table.Members.{has, has-add_local, has-remove_local}
use keel_mqtt_gateway.Routing.Keys.{Base64, ownership_key}
use keel_mqtt_gateway.Session.Reconciler.{is_owner}
use keel_mqtt_gateway.Session.Ownership.{
  offline_route_key, Index, first_node, Reply, refused, unpublished, done, is_stored, is_done,
  Routes, subscribe_with, add_if, remove_old, current_owner, place,
}

first_node-member :
    (xs : List Str) (node : Str) → member node xs ≡ true → has_some (first_node xs) ≡ true
first_node-member [] node h = ground arith
first_node-member (x ∷ xs) node h = refl

first_node-none : (xs : List Str) (node : Str) → first_node xs ≡ none → member node xs ≡ false
first_node-none [] node h = refl
first_node-none (x ∷ xs) node h = ground arith

member-first_node :
    (xs : List Str) (node : Str) → is_owner (first_node xs) node ≡ true → member node xs ≡ true
member-first_node [] node h = ground arith
member-first_node (x ∷ xs) node h = ground (arith, str_eq_iff x node)

-- No ownership key is an offline route key.
keys_differ :
    (base64 : Base64) (client_id filter filter' : Str)
    → str_eq (offline_route_key filter') (ownership_key base64 client_id filter) ≡ false
unfolding str_eq ownership_key
keys_differ base64 client_id filter filter' = refl

has-add_if :
    (ok : Bool) (t' n' : Str) (m : Table) (t n : Str)
    → has t n (add_if ok t' n' m) ≡ ((ok && (str_eq t' t && str_eq n' n)) || has t n m)
unfolding add_if
has-add_if true t' n' m t n = ground (arith, has-add_local t n t' n' m)
has-add_if false t' n' m t n = refl

has-remove_old :
    (ok : Bool) (key new_owner : Str) (old : Option Str) (m : Table) (t n : Str)
    → has t n (remove_old ok key new_owner old m)
      ≡ (not (ok && (is_owner old n && not (str_eq n new_owner)) && str_eq key t) && has t n m)
unfolding remove_old
has-remove_old ok key new_owner none m t n = ground arith
has-remove_old ok key new_owner (some old) m t n =
    ground (arith, has-remove_local t n key old m, str_eq_iff old n)

-- A removal that spares the new owner commutes with the additions before it.
removed_late :
    (gone here there new owned routed before : Bool)
    → gone && new ≡ false
    → (not (gone && here) && ((routed && (there && new)) || ((owned && (here && new)) || before)))
      ≡ ((owned && (here && new)) || (routed && (there && new)) || (not (gone && here) && before))
removed_late gone here there new owned routed before h = ground arith

not_removed : (key o : Str) (old : Option Str) (m : Table) → m ≡ remove_old false key o old m
unfolding remove_old
not_removed key o none m = refl
not_removed key o (some old) m = ground arith

module _ {base64 : Base64} (index : Index base64) where
  pub owner_known :
      (c f n : Str) (m : Table)
      → has (ownership_key base64 c f) n m ≡ true
      → has_some (current_owner index c f m) ≡ true
  unfolding current_owner
  owner_known c f n m h = first_node-member _ n (index.nodes_for-has c f n m ∙ h)

  unowned :
      (c f n : Str) (m : Table)
      → current_owner index c f m ≡ none
      → has (ownership_key base64 c f) n m ≡ false
  unfolding current_owner
  unowned c f n m h = sym (index.nodes_for-has c f n m) ∙ first_node-none _ n h

  pub owner-has :
      (c f n : Str) (m : Table)
      → is_owner (current_owner index c f m) n ≡ true
      → has (ownership_key base64 c f) n m ≡ true
  unfolding current_owner
  owner-has c f n m h = sym (index.nodes_for-has c f n m) ∙ member-first_node _ n h

  -- What one of the two tables goes through: additions and removals as far as its flags say.
  through : Bool → Bool → Bool → Str → Str → Str → Option Str → Table → Table
  unfolding add_if remove_old
  through owned routed removed c f o old m =
      let key = ownership_key base64 c f in
      remove_old removed key o old (add_if routed (offline_route_key f) o (add_if owned key o m))

  -- The flags of a table that a call changes once it has come this far.
  abbrev flag_2 : Reply → Bool → Bool
  flag_2 r1 written = is_done r1 && written

  abbrev flag_3 : Reply → Reply → Bool → Bool
  flag_3 r1 r2 written = is_done r1 && is_done r2 && written

  place-through :
      (r1 r2 r3 : Reply) (c f o : Str) (s : Routes)
      → let old = current_owner index c f s.live in
        place index r1 r2 r3 c f o s ≡ (
          record {
            live =
                through
                  (is_done r1)
                  (flag_2 r1 (is_done r2))
                  (flag_3 r1 r2 (is_done r3))
                  c
                  f
                  o
                  old
                  s.live;
            kept =
                through
                  (is_stored r1)
                  (flag_2 r1 (is_stored r2))
                  (flag_3 r1 r2 (is_stored r3))
                  c
                  f
                  o
                  old
                  s.kept;
          },
          (is_done r1 && is_done r2),
        )
  unfolding place subscribe_with add_if through
  place-through refused r2 r3 c f o s =
      let key = ownership_key base64 c f in
      let old = current_owner index c f s.live in
      λ i. (
        record { live = not_removed key o old s.live i; kept = not_removed key o old s.kept i },
        false,
      )
  place-through unpublished r2 r3 c f o s =
      let key = ownership_key base64 c f in
      let old = current_owner index c f s.live in
      λ i. (
        record {
          live = not_removed key o old s.live i;
          kept = not_removed key o old (add_local key o s.kept) i;
        },
        false,
      )
  place-through done refused r3 c f o s =
      let key = ownership_key base64 c f in
      let old = current_owner index c f s.live in
      λ i. (
        record {
          live = not_removed key o old (add_local key o s.live) i;
          kept = not_removed key o old (add_local key o s.kept) i;
        },
        false,
      )
  place-through done unpublished r3 c f o s =
      let key = ownership_key base64 c f in
      let old = current_owner index c f s.live in
      λ i. (
        record {
          live = not_removed key o old (add_local key o s.live) i;
          kept =
              not_removed key o old (add_local (offline_route_key f) o (add_local key o s.kept)) i;
        },
        false,
      )
  place-through done done r3 c f o s = refl

  -- What a table says after it went through this, of every topic and node.
  abbrev pub said : Bool → Bool → Bool → Str → Str → Str → Option Str → Table → Str → Str → Bool
  said owned routed removed c f o old m t n =
      let key = ownership_key base64 c f in
      (owned && (str_eq key t && str_eq o n))
      || (routed && (str_eq (offline_route_key f) t && str_eq o n))
      || (not (removed && (is_owner old n && not (str_eq n o)) && str_eq key t) && has t n m)

  has-through :
      (owned routed removed : Bool) (c f o : Str) (old : Option Str) (m : Table) (t n : Str)
      → has t n (through owned routed removed c f o old m)
        ≡ said owned routed removed c f o old m t n
  unfolding through
  has-through owned routed removed c f o old m t n =
      let key = ownership_key base64 c f in
      let m1 = add_if owned key o m in
      let m2 = add_if routed (offline_route_key f) o m1 in
      rw
        (
          has-remove_old removed key o old m2 t n,
          has-add_if routed (offline_route_key f) o m1 t n,
          has-add_if owned key o m t n,
        )
        (removed_late (removed && (is_owner old n && not (str_eq n o))) (str_eq key t)
          (str_eq (offline_route_key f) t) (str_eq o n) owned routed (has t n m)
          (ground (arith, str_eq_iff o n, str_eq_refl o)))

  pub has-live :
      (r1 r2 r3 : Reply) (c f o : Str) (s : Routes) (t n : Str)
      → has t n (place index r1 r2 r3 c f o s).0.live
        ≡ said
            (is_done r1)
            (is_done r1 && is_done r2)
            (is_done r1 && is_done r2 && is_done r3)
            c
            f
            o
            (current_owner index c f s.live)
            s.live
            t
            n
  has-live r1 r2 r3 c f o s t n =
      ap (λ x. has t n x.0.live) (place-through r1 r2 r3 c f o s)
      ∙ has-through (is_done r1) (flag_2 r1 (is_done r2)) (flag_3 r1 r2 (is_done r3)) c f o
          (current_owner index c f s.live) s.live t n

  has-kept :
      (r1 r2 r3 : Reply) (c f o : Str) (s : Routes) (t n : Str)
      → has t n (place index r1 r2 r3 c f o s).0.kept
        ≡ said
            (is_stored r1)
            (is_done r1 && is_stored r2)
            (is_done r1 && is_done r2 && is_stored r3)
            c
            f
            o
            (current_owner index c f s.live)
            s.kept
            t
            n
  has-kept r1 r2 r3 c f o s t n =
      ap (λ x. has t n x.0.kept) (place-through r1 r2 r3 c f o s)
      ∙ has-through (is_stored r1) (flag_2 r1 (is_stored r2)) (flag_3 r1 r2 (is_stored r3)) c f o
          (current_owner index c f s.live) s.kept t n

  pub placed_first :
      (r2 r3 : Reply) (c f o : Str) (s : Routes)
      → has (ownership_key base64 c f) o (place index done r2 r3 c f o s).0.live ≡ true
  placed_first r2 r3 c f o s =
      has-live done r2 r3 c f o s (ownership_key base64 c f) o
      ∙ rw (str_eq_refl (ownership_key base64 c f), str_eq_refl o) refl

  owner-place :
      (r1 r2 r3 : Reply) (c f o : Str) (s : Routes)
      → has_some (current_owner index c f (place index r1 r2 r3 c f o s).0.live)
        ≡ (is_done r1 || has_some (current_owner index c f s.live))
  unfolding place subscribe_with add_if
  owner-place refused r2 r3 c f o s = refl
  owner-place unpublished r2 r3 c f o s = refl
  owner-place done r2 r3 c f o s =
      owner_known c f o (place index done r2 r3 c f o s).0.live (placed_first r2 r3 c f o s)

  -- However far each of its calls comes, refused by the store, stored and not published, or both,
  -- and where the index answers an ownership key with exactly the nodes that are subscribed to it,
  -- Place succeeds exactly if both of its subscriptions are stored and published, and the filter
  -- has an owner in the table afterwards exactly if it had one or the first is; the table of the
  -- published events and the one that the store's keys make each hold what they held, with the new
  -- owner under the ownership key and under the offline route, and without the old owner under the
  -- ownership key where that is another node, as far as the calls came: none is made after an error
  -- of one before it.
  pub place_lem :
      (r1 r2 r3 : Reply) (c f o : Str) (s : Routes)
      → let old = current_owner index c f s.live in
        let s' = (place index r1 r2 r3 c f o s).0 in
        ((place index r1 r2 r3 c f o s).1 ≡ (is_done r1 && is_done r2))
        × (has_some (current_owner index c f s'.live) ≡ (is_done r1 || has_some old))
        × ((t n : Str)
            → has t n s'.live
              ≡ said
                  (is_done r1)
                  (is_done r1 && is_done r2)
                  (is_done r1 && is_done r2 && is_done r3)
                  c
                  f
                  o
                  old
                  s.live
                  t
                  n)
        × ((t n : Str)
            → has t n s'.kept
              ≡ said
                  (is_stored r1)
                  (is_done r1 && is_stored r2)
                  (is_done r1 && is_done r2 && is_stored r3)
                  c
                  f
                  o
                  old
                  s.kept
                  t
                  n)
  place_lem r1 r2 r3 c f o s = (
    ap (λ x. x.1) (place-through r1 r2 r3 c f o s),
    owner-place r1 r2 r3 c f o s,
    has-live r1 r2 r3 c f o s,
    has-kept r1 r2 r3 c f o s,
  )

  sole_owner :
      (c f o : Str) (m : Table)
      → has_some (current_owner index c f m) ≡ true
      → ((n : Str) → has (ownership_key base64 c f) n m ≡ true → str_eq n o ≡ true)
      → is_owner (current_owner index c f m) o ≡ true
  sole_owner c f o m h alone = elim (Option-cases (current_owner index c f m)) [
    | inl e ↦ ground arith
    | inr (n, e) ↦ rw e (alone n (owner-has c f n m (rw e (str_eq_refl n))))
  ]

  -- When a filter without an owner is placed, the first subscription is stored and published and
  -- the second is not both, Place answers an error and the new owner is from then on read as the
  -- current one, the test by which the reconciler passes a placement over; the table has the
  -- offline routes of the filter that it had, and the store gained the new owner's only if it took
  -- the second write.
  pub half_placed :
      (r2 r3 : Reply) (c f o : Str) (s : Routes)
      → is_done r2 ≡ false
      → current_owner index c f s.live ≡ none
      → let s' = (place index done r2 r3 c f o s).0 in
        ((place index done r2 r3 c f o s).1 ≡ false)
        × (is_owner (current_owner index c f s'.live) o ≡ true)
        × ((n : Str) → has (offline_route_key f) n s'.live ≡ has (offline_route_key f) n s.live)
        × ((n : Str)
            → has (offline_route_key f) n s'.kept
              ≡ ((is_stored r2 && str_eq o n) || has (offline_route_key f) n s.kept))
  half_placed r2 r3 c f o s u h =
      let key = ownership_key base64 c f in
      let route = offline_route_key f in
      (
        (place_lem done r2 r3 c f o s).0 ∙ u,
        sole_owner c f o (place index done r2 r3 c f o s).0.live (owner-place done r2 r3 c f o s)
            (λ n k. ground (
              arith,
              has-live done r2 r3 c f o s key n,
              k,
              u,
              unowned c f n s.live h,
              str_eq_iff o n,
              str_eq_refl o,
            )),
        λ n.
            has-live done r2 r3 c f o s route n
            ∙ ground (arith, u, keys_differ base64 c f f, str_eq_iff key route, str_eq_refl route),
        λ n.
            has-kept done r2 r3 c f o s route n
            ∙ ground (arith, u, keys_differ base64 c f f, str_eq_iff key route, str_eq_refl route),
      )
