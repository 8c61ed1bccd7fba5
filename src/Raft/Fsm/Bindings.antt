-- ===== src/Raft/Fsm/Bindings.antt =====
-- fsm.go, the role and binding operations: what a deleted role leaves behind, and the shape of the
-- binding table.
use keel_mqtt_gateway.Prelude.{
  ℕ, ◌≡◌, refl, sym, subst, inl, inr, Bool, false, not, ◌&&◌, Option, none, List, [], ◌∷◌, ◌++◌,
  Str, Dict, str_eq, str_eq_iff, lookup, insert, lookup-delete, IsMap, AllValues, insert-IsMap,
  delete-IsMap, insert-AllValues, delete-AllValues, lookup-AllValues, any, any-append, is_nil,
  Bool-cases, Option-cases, arith,
}
use keel_mqtt_gateway.Raft.Command.{Command, op_delete_role}
use keel_mqtt_gateway.Raft.Fsm.{
  State, ApplyResult, without_role, rebind, drop_role, delete_role, names_of, bound_to,
  create_binding, store_kept, delete_binding, claim_session, release_session, apply, apply_log,
  replay,
}
use keel_mqtt_gateway.Raft.Fsm.Steps.{
  Step, claims, releases, creates_role, deletes_role, creates_binding, deletes_binding, enables,
  disables, sets_primary, revokes, rejects, apply-Step, keeps-apply_log, apply-delete_role,
}

abbrev pub names_role : Str → List Str → Bool
names_role role = any (λ rn. str_eq rn role)

names_role-without_role :
    (role other : Str) (names : List Str)
    → names_role other (without_role role names)
      ≡ (not (str_eq role other) && names_role other names)
names_role-without_role role other [] = ground arith
names_role-without_role role other (rn ∷ names) = ground (
  arith,
  names_role-without_role role other names,
  str_eq_iff rn role,
  str_eq_iff rn other,
  str_eq_iff role other,
)

drop_role-lookup-none :
    (role p : Str) (m : Dict (List Str)) → lookup p m ≡ none → lookup p (drop_role role m) ≡ none
unfolding drop_role lookup
drop_role-lookup-none role p [] h = refl
drop_role-lookup-none role p ((q, names) ∷ m) h =
    let rest = drop_role-lookup-none role p m in
    skip (without_role role names) (rest (ground arith))
  where
    skip :
        (kept : List Str)
        → lookup p (drop_role role m) ≡ none
        → lookup p (rebind q kept (drop_role role m)) ≡ none
    skip [] e = e
    skip (rn ∷ kept) e = ground arith

drop_role-bound_to :
    (role p : Str) (m : Dict (List Str))
    → IsMap m
    → bound_to p (drop_role role m) ≡ without_role role (bound_to p m)
unfolding drop_role lookup
drop_role-bound_to role p [] u = refl
drop_role-bound_to role p ((q, names) ∷ m) u =
    here (without_role role names) (drop_role-bound_to role p m u.1) refl
  where
    here :
        (kept : List Str)
        → bound_to p (drop_role role m) ≡ without_role role (bound_to p m)
        → kept ≡ without_role role names
        → bound_to p (rebind q kept (drop_role role m))
          ≡ without_role role (bound_to p ((q, names) ∷ m))
    here [] ih e = ground (arith, str_eq_iff q p, drop_role-lookup-none role q m u.0)
    here (rn ∷ kept) ih e = ground arith

-- No principal is left with the role.
pub drop_role-clean :
    (role : Str) (m : Dict (List Str))
    → AllValues (λ names. names_role role names ≡ false) (drop_role role m)
unfolding drop_role
drop_role-clean role [] = tt
drop_role-clean role ((q, names) ∷ m) =
    here (without_role role names) (drop_role-clean role m)
      (ground (arith, names_role-without_role role role names, str_eq_iff role role))
  where
    here :
        (kept : List Str)
        → AllValues (λ names. names_role role names ≡ false) (drop_role role m)
        → names_role role kept ≡ false
        → AllValues (λ names. names_role role names ≡ false) (rebind q kept (drop_role role m))
    here [] ih h = ih
    here (rn ∷ kept) ih h = (h, ih)

-- Deleting a role takes it from every principal and leaves each its other roles, in order, where
-- the binding table has one entry for each principal.
pub delete_role_lem :
    (now : ℕ) (cmd : Command) (s : State) (p : Str)
    → cmd.op ≡ op_delete_role
    → IsMap s.bindings
    → let t = (apply now cmd s).0 in
      (lookup cmd.role_name t.roles ≡ none)
      × (bound_to p t.bindings ≡ without_role cmd.role_name (bound_to p s.bindings))
      × (names_role cmd.role_name (bound_to p t.bindings) ≡ false)
unfolding delete_role
delete_role_lem now cmd s p h u = rw (apply-delete_role now cmd s h) (
  ground (
    arith,
    lookup-delete cmd.role_name cmd.role_name s.roles,
    str_eq_iff cmd.role_name cmd.role_name,
  ),
  drop_role-bound_to cmd.role_name p s.bindings u,
  ground (
    arith,
    drop_role-bound_to cmd.role_name p s.bindings u,
    names_role-without_role cmd.role_name cmd.role_name (bound_to p s.bindings),
    str_eq_iff cmd.role_name cmd.role_name,
  ),
)

-- No name stands twice.
abbrev pub Distinct : List Str → Type 0
Distinct [] = Unit
Distinct (rn ∷ names) = (names_role rn names ≡ false) × Distinct names

abbrev pub ProperNames : List Str → Type 0
ProperNames names = (is_nil names ≡ false) × Distinct names

-- The binding table has one entry for each principal, and in it at least one role, none twice.
pub record BindingsValid (m : Dict (List Str)) : Type 0 where
  pub one_entry : IsMap m
  pub proper : AllValues ProperNames m

without_role-Distinct :
    (role : Str) (names : List Str) → Distinct names → Distinct (without_role role names)
without_role-Distinct role [] d = tt
without_role-Distinct role (rn ∷ names) d =
    ground (arith, without_role-Distinct role names d.1, names_role-without_role role rn names)

Distinct-append :
    (names : List Str) (rn : Str)
    → Distinct names
    → names_role rn names ≡ false
    → Distinct (names ++ rn ∷ [])
Distinct-append [] rn d h = (refl, tt)
Distinct-append (x ∷ names) rn d h = ground (
  arith,
  Distinct-append names rn d.1,
  any-append (λ y. str_eq y x) names (rn ∷ []),
  str_eq_iff rn x,
  str_eq_iff x rn,
)

append-ne-nil : (names : List Str) (rn : Str) → is_nil (names ++ rn ∷ []) ≡ false
append-ne-nil [] rn = refl
append-ne-nil (x ∷ names) rn = refl

bound_to-Distinct : (p : Str) (m : Dict (List Str)) → BindingsValid m → Distinct (bound_to p m)
bound_to-Distinct p m v = elim (Option-cases (lookup p m)) [
  | inl e ↦ subst (λ o. Distinct (names_of o)) (sym e) tt
  | inr (names, e) ↦
      subst (λ o. Distinct (names_of o)) (sym e) (lookup-AllValues ProperNames p m v.proper e).1
]

rebind-BindingsValid :
    (p : Str) (kept : List Str) (m : Dict (List Str))
    → Distinct kept
    → lookup p m ≡ none
    → BindingsValid m
    → BindingsValid (rebind p kept m)
rebind-BindingsValid p [] m d h v = v
rebind-BindingsValid p (rn ∷ kept) m d h v = record {
  one_entry = (h, v.one_entry);
  proper = ((refl, d), v.proper);
}

drop_role-BindingsValid :
    (role : Str) (m : Dict (List Str)) → BindingsValid m → BindingsValid (drop_role role m)
unfolding drop_role
drop_role-BindingsValid role [] v = v
drop_role-BindingsValid role ((p, names) ∷ m) v =
    rebind-BindingsValid p (without_role role names) (drop_role role m)
      (without_role-Distinct role names v.proper.0.1) (drop_role-lookup-none role p m v.one_entry.0)
      (drop_role-BindingsValid role m (record { one_entry = v.one_entry.1; proper = v.proper.1 }))

insert-BindingsValid :
    (p : Str) (names : List Str) (m : Dict (List Str))
    → ProperNames names
    → BindingsValid m
    → BindingsValid (insert p names m)
insert-BindingsValid p names m h v = record {
  one_entry = insert-IsMap p names m v.one_entry;
  proper = insert-AllValues ProperNames p names m h v.proper;
}

store_kept-BindingsValid :
    (p : Str) (kept : List Str) (m : Dict (List Str))
    → Distinct kept
    → BindingsValid m
    → BindingsValid (store_kept p kept m)
store_kept-BindingsValid p [] m d v = record {
  one_entry = delete-IsMap p m v.one_entry;
  proper = delete-AllValues ProperNames p m v.proper;
}
store_kept-BindingsValid p (rn ∷ kept) m d v = insert-BindingsValid p (rn ∷ kept) m (refl, d) v

create_binding-BindingsValid :
    (cmd : Command) (s : State)
    → BindingsValid s.bindings
    → BindingsValid (create_binding cmd s).bindings
unfolding create_binding
create_binding-BindingsValid cmd s v =
    let names = bound_to cmd.principal s.bindings in
    elim (Bool-cases (names_role cmd.role_name names)) [
      | inl e ↦ rw e v
      | inr e ↦ rw e (
          insert-BindingsValid cmd.principal (names ++ cmd.role_name ∷ []) s.bindings
            (
              append-ne-nil names cmd.role_name,
              Distinct-append names cmd.role_name (bound_to-Distinct cmd.principal s.bindings v) e,
            )
            v)
    ]

Step-BindingsValid :
    {now : ℕ} {cmd : Command} {s : State} {o : Str} {r : State × ApplyResult}
    → Step now cmd s o r
    → BindingsValid s.bindings
    → BindingsValid (r.0).bindings
unfolding claim_session
Step-BindingsValid (claims h) v = v
Step-BindingsValid (releases h) v = unfold release_session in ground arith
Step-BindingsValid (creates_role h) v = v
Step-BindingsValid {cmd} {s} (deletes_role h) v =
    unfold delete_role in drop_role-BindingsValid cmd.role_name s.bindings v
Step-BindingsValid {cmd} {s} (creates_binding h) v = create_binding-BindingsValid cmd s v
Step-BindingsValid {cmd} {s} (deletes_binding h) v =
    unfold delete_binding in
    store_kept-BindingsValid cmd.principal
      (without_role cmd.role_name (bound_to cmd.principal s.bindings)) s.bindings
      (without_role-Distinct cmd.role_name (bound_to cmd.principal s.bindings)
        (bound_to-Distinct cmd.principal s.bindings v))
      v
Step-BindingsValid (enables h) v = v
Step-BindingsValid (disables h) v = v
Step-BindingsValid (sets_primary h) v = v
Step-BindingsValid (revokes h) v = v
Step-BindingsValid rejects v = v

-- Every log keeps a valid binding table valid: one entry for each principal, never an empty one,
-- and no role bound twice.
pub replay-BindingsValid :
    (log : List (ℕ × Option Command)) (s : State)
    → BindingsValid s.bindings
    → BindingsValid (replay log s).bindings
unfolding replay
replay-BindingsValid [] s v = v
replay-BindingsValid ((now, entry) ∷ log) s v = replay-BindingsValid log (apply_log now entry s).0 (
    keeps-apply_log (λ t. BindingsValid t.bindings) now entry s
      (λ cmd. Step-BindingsValid (apply-Step now cmd s) v) v)
