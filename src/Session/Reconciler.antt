-- ===== src/Session/Reconciler.antt =====
-- internal/session/reconciler.go: ReconcileOnce, over CurrentOwner and Place of offline_ownership.go.
-- The inventory is `none` where its fetch fails, and how far the calls of Place come is an input.
pub mod Placed
use keel_mqtt_gateway.Prelude.{
  ℕ, ◌+◌, ◌≡◌, Bool, true, false, not, ◌&&◌, Option, none, some, List, [], ◌∷◌, Str, str_eq, is_nil,
  if◌then◌else◌,
}
use keel_mqtt_gateway.Routing.Keys.{Base64}
use keel_mqtt_gateway.Session.Offline.{OfflineSubscription, OfflineSession}
use keel_mqtt_gateway.Session.Placement.{owner}
use keel_mqtt_gateway.Session.Ownership.{Index, Reply, Routes, current_owner, place}

-- How far the calls come that Place makes for a client and a filter.
pub record Calls : Type 0 where
  pub owned : Reply
  pub routed : Reply
  pub removed : Reply

-- known && current == newOwner
abbrev pub is_owner : Option Str → Str → Bool
is_owner none new_owner = false
is_owner (some current) new_owner = str_eq current new_owner

module _ {base64 : Base64} (index : Index base64) (calls : Str → Str → Calls) where
  -- One round of the inner loop, with `moved`.
  unfoldable pub visit : Str → Str → OfflineSubscription → Routes × ℕ → Routes × ℕ
  unfolding str_eq current_owner place
  visit client_id new_owner sub (w, moved) =
      let called = calls client_id sub.filter in
      let (w', placed) =
        place index called.owned called.routed called.removed client_id sub.filter new_owner w in
      if is_owner (current_owner index client_id sub.filter w.live) new_owner
      then (w, moved)
      else if not placed
      then (w', moved)
      else (w', moved + 1)

  -- The inner loop, over the subscriptions of one session.
  unfoldable pub sub_loop : Str → Str → List OfflineSubscription → Routes × ℕ → Routes × ℕ
  unfolding visit
  sub_loop client_id new_owner [] state = state
  sub_loop client_id new_owner (sub ∷ subs) state =
      sub_loop client_id new_owner subs (visit client_id new_owner sub state)

  abbrev pub place_session : Option Str → OfflineSession → Routes × ℕ → Routes × ℕ
  place_session none s state = state
  place_session (some new_owner) s state = sub_loop s.client_id new_owner s.subscriptions state

  -- The outer loop.
  unfoldable pub session_loop : List Str → List OfflineSession → Routes × ℕ → Routes × ℕ
  unfolding sub_loop owner
  session_loop live_edges [] state = state
  session_loop live_edges (s ∷ sessions) state =
      session_loop live_edges sessions (place_session (owner s.client_id live_edges) s state)

  -- ReconcileOnce: the state, and how many placements moved.
  unfoldable pub reconcile_once : List Str → Option (List OfflineSession) → Routes → Routes × ℕ
  unfolding session_loop
  reconcile_once live_edges inventory w =
      let reconciled : Routes × ℕ = elim inventory [
        | none ↦ (w, 0)
        | some sessions ↦ session_loop live_edges sessions (w, 0)
      ] in
      if is_nil live_edges then (w, 0) else reconciled
