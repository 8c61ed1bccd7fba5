-- ===== src/Routing/Offline/Selection.antt =====
-- router.go: the choice of one owner for each shared group, whose owner keys come out of a map.
use mathlib.Core.List.{Perm, Permᴰ}
use mathlib.Core.Logic.{∥∥₁_elim}
use keel_mqtt_gateway.Prelude.{
  ◌≡◌, refl, ap, ap₂, ◌∙◌, true, false, Option, none, some, List, Str, str_eq_iff, str_lt_irrefl,
  str_lt_asymm, str_lt_trans_not, str_lt_antisym, arith,
}
use keel_mqtt_gateway.Routing.Offline.{
  OfflineSharedSelection, is_below, is_better, owner_of, choose, choose_owner,
}

is_below_asymm : (s t : OfflineSharedSelection) → is_below s t ≡ true → is_below t s ≡ false
unfolding is_below
is_below_asymm s t h = ground (
  arith,
  str_lt_asymm s.node_id t.node_id,
  str_lt_asymm s.client_id t.client_id,
  str_eq_iff s.node_id t.node_id,
  str_eq_iff t.node_id s.node_id,
  str_lt_irrefl s.node_id,
)

is_below_antisym :
    (s t : OfflineSharedSelection) → is_below s t ≡ false → is_below t s ≡ false → s ≡ t
unfolding is_below
is_below_antisym s t h k = ground (
  arith,
  str_lt_antisym s.node_id t.node_id,
  str_lt_antisym s.client_id t.client_id,
  str_eq_iff s.node_id t.node_id,
  str_eq_iff t.node_id s.node_id,
)

is_below_trans_not :
    (r s t : OfflineSharedSelection)
    → is_below r s ≡ false
    → is_below s t ≡ false
    → is_below r t ≡ false
unfolding is_below
is_below_trans_not r s t h k = ground (
  arith,
  str_lt_trans_not r.node_id s.node_id t.node_id,
  str_lt_trans_not r.client_id s.client_id t.client_id,
  str_lt_antisym r.node_id s.node_id,
  str_lt_antisym s.node_id t.node_id,
  str_lt_trans_not s.node_id t.node_id r.node_id,
  str_lt_trans_not t.node_id r.node_id s.node_id,
  str_lt_asymm r.node_id t.node_id,
  str_lt_asymm s.node_id r.node_id,
  str_lt_asymm t.node_id s.node_id,
  str_eq_iff r.node_id s.node_id,
  str_eq_iff s.node_id t.node_id,
  str_eq_iff r.node_id t.node_id,
)

-- Which of two owners is considered first does not matter.
choose_comm :
    (x y c : Option OfflineSharedSelection) → choose y (choose x c) ≡ choose x (choose y c)
unfolding choose is_better
choose_comm none y c = refl
choose_comm (some s) none c = refl
choose_comm (some s) (some t) none =
    ground (arith, is_below_asymm s t, is_below_asymm t s, is_below_antisym s t)
choose_comm (some s) (some t) (some c) = ground (
  arith,
  is_below_asymm s t,
  is_below_asymm t s,
  is_below_antisym s t,
  is_below_trans_not s t c,
  is_below_trans_not t s c,
  is_below_asymm s c,
  is_below_asymm t c,
  is_below_trans_not s c t,
  is_below_trans_not t c s,
)

choose_owner-Permᴰ :
    {xs ys : List Str}
    → Permᴰ xs ys
    → (c : Option OfflineSharedSelection) → choose_owner xs c ≡ choose_owner ys c
unfolding choose_owner
choose_owner-Permᴰ Permᴰ.nil c = refl
choose_owner-Permᴰ (Permᴰ.cons {a} {l₂} e d) c =
    choose_owner-Permᴰ d (choose (owner_of a) c)
    ∙ ap (λ z. choose_owner l₂ (choose (owner_of z) c)) e
choose_owner-Permᴰ (Permᴰ.swap {a} {b} {l} e f) c =
    ap (choose_owner l) (choose_comm (owner_of a) (owner_of b) c)
    ∙ ap₂ (λ y z. choose_owner l (choose (owner_of y) (choose (owner_of z) c))) e f
choose_owner-Permᴰ (Permᴰ.trans d f) c = choose_owner-Permᴰ d c ∙ choose_owner-Permᴰ f c

-- The owner that is chosen for a shared group does not depend on the order in which the matching
-- owner keys are visited.
pub choose_owner-Perm :
    (xs ys : List Str) → Perm xs ys → choose_owner xs none ≡ choose_owner ys none
choose_owner-Perm xs ys h = ∥∥₁_elim h (hlevel) (λ d. choose_owner-Permᴰ d none)
