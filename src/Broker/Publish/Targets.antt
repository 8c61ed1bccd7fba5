-- ===== src/Broker/Publish/Targets.antt =====
-- hooks.go: which nodes a publish goes to, and who serves a shared group.
use keel_mqtt_gateway.Prelude.{
  ◌≡◌, refl, ap, subst, ◌∙◌, inl, inr, Bool, true, false, not, ◌&&◌, ◌||◌, Option, some, List, [],
  ◌∷◌, ◌++◌, Str, Dict, str_eq, str_eq_iff, is_nil, any-append, if◌then◌else◌, if_cases, Bool-cases,
  arith,
}
use keel_mqtt_gateway.Routing.Table.{member, set_add}
use keel_mqtt_gateway.Routing.Table.Members.{member-set_add, IsDistinct}
use keel_mqtt_gateway.Broker.Device.{DeviceInfo}
use keel_mqtt_gateway.Broker.Publish.{
  add_nodes, fan_out_plan, shared_filters_for_node, PublishCall, delivers_offline, forwards,
  outputs, updates_last_seen, forward_cluster_targets, Plan, forward_to_cluster_subscribers, passes,
  afterwards, Packet, on_publish,
}

member-add_nodes :
    (n : Str) (xs out : List Str) → member n (add_nodes xs out) ≡ (member n xs || member n out)
unfolding add_nodes
member-add_nodes n [] out = refl
member-add_nodes n (x ∷ xs) out =
    ground (arith, member-add_nodes n xs (set_add x out), member-set_add x n out)

member-fan_out :
    (n : Str) (live offline : List Str)
    → member n (fan_out_plan live offline) ≡ (member n live || member n offline)
unfolding fan_out_plan
member-fan_out n live [] = ground arith
member-fan_out n live (x ∷ offline) =
    ground (arith, member-add_nodes n (x ∷ offline) (add_nodes live []), member-add_nodes n live [])

snoc-IsDistinct :
    (x : Str) (xs : List Str) → IsDistinct xs → member x xs ≡ false → IsDistinct (xs ++ x ∷ [])
snoc-IsDistinct x [] d h = (refl, tt)
snoc-IsDistinct x (y ∷ xs) d h = (
  ground (arith, any-append (λ z. str_eq z y) xs (x ∷ []), str_eq_iff x y, str_eq_iff y x, d.0),
  snoc-IsDistinct x xs d.1 (ground arith),
)

add_nodes-IsDistinct : (xs out : List Str) → IsDistinct out → IsDistinct (add_nodes xs out)
unfolding add_nodes
add_nodes-IsDistinct [] out d = d
add_nodes-IsDistinct (x ∷ xs) out d =
    add_nodes-IsDistinct xs (set_add x out)
      (if_cases IsDistinct (member x out) out (out ++ x ∷ []) (λ _. d) (snoc-IsDistinct x out d))

pub fan_out-IsDistinct :
    (live offline : List Str) → IsDistinct live → IsDistinct (fan_out_plan live offline)
unfolding fan_out_plan
fan_out-IsDistinct live [] d = d
fan_out-IsDistinct live (x ∷ offline) d =
    add_nodes-IsDistinct (x ∷ offline) (add_nodes live []) (add_nodes-IsDistinct live [] tt)

-- The filters that each forward to the node carries, in order.
pub forwards_to : Str → List PublishCall → List (Option (List Str))
unfolding str_eq
forwards_to n [] = []
forwards_to n (forwards m fs ∷ calls) =
    let rest = forwards_to n calls in if str_eq m n then fs ∷ rest else rest
forwards_to n (delivers_offline ∷ calls) = forwards_to n calls
forwards_to n (outputs ∷ calls) = forwards_to n calls
forwards_to n (updates_last_seen d ∷ calls) = forwards_to n calls

forwards_to-append :
    (n : Str) (xs ys : List PublishCall)
    → forwards_to n ys ≡ []
    → forwards_to n (xs ++ ys) ≡ forwards_to n xs
unfolding forwards_to
forwards_to-append n [] ys h = h
forwards_to-append n (forwards m fs ∷ xs) ys h = ground (arith, forwards_to-append n xs ys h)
forwards_to-append n (delivers_offline ∷ xs) ys h = forwards_to-append n xs ys h
forwards_to-append n (outputs ∷ xs) ys h = forwards_to-append n xs ys h
forwards_to-append n (updates_last_seen d ∷ xs) ys h = forwards_to-append n xs ys h

-- A node that is listed once, and is not this one, gets one forward.
forwards_to-targets :
    (n self : Str) (nodes : List Str) (shared : Option (Dict Str))
    → IsDistinct nodes
    → forwards_to n (forward_cluster_targets self nodes shared) ≡ (
        if member n nodes && not (str_eq n self) then shared_filters_for_node shared n ∷ [] else [])
unfolding forwards_to forward_cluster_targets
forwards_to-targets n self [] shared d = refl
forwards_to-targets n self (m ∷ nodes) shared d = elim (Bool-cases (str_eq m n)) [
  | inl e ↦
      let q : m ≡ n = (str_eq_iff m n).0 e in
      let absent : member n nodes ≡ false = subst (λ x. member x nodes ≡ false) q d.0 in
      let same : str_eq m self ≡ str_eq n self = ap (λ x. str_eq x self) q in
      let filters = ap (shared_filters_for_node shared) q in
      ground (arith, forwards_to-targets n self nodes shared d.1)
  | inr e ↦ ground (arith, forwards_to-targets n self nodes shared d.1)
]

module _ (self : Str) (plan : Plan) where
  abbrev pub is_target : Str → Bool
  unfolding str_eq
  is_target n = (member n plan.live || member n plan.offline) && not (str_eq n self)

  abbrev forwarded : List Str → List PublishCall × Option (List Str)
  unfolding forward_cluster_targets shared_filters_for_node
  forwarded nodes = (
    delivers_offline ∷ forward_cluster_targets self nodes plan.shared_nodes,
    shared_filters_for_node plan.shared_nodes self,
  )

  -- Without nodes there is nothing to forward, so the test for them changes nothing.
  any_nodes :
      (nodes : List Str)
      → (if is_nil nodes
          then (delivers_offline ∷ [], shared_filters_for_node plan.shared_nodes self)
          else forwarded nodes)
        ≡ forwarded nodes
  unfolding forwarded forward_cluster_targets
  any_nodes [] = refl
  any_nodes (x ∷ nodes) = refl

  cluster_lem :
      forward_to_cluster_subscribers true true self plan
      ≡ forwarded (fan_out_plan plan.live plan.offline)
  unfolding forward_to_cluster_subscribers forwarded
  cluster_lem = any_nodes (fan_out_plan plan.live plan.offline)

  forwards_to-cluster :
      (n : Str) (after : List PublishCall)
      → IsDistinct plan.live
      → forwards_to n after ≡ []
      → forwards_to n ((forwarded (fan_out_plan plan.live plan.offline)).0 ++ after)
        ≡ (if is_target n then shared_filters_for_node plan.shared_nodes n ∷ [] else [])
  unfolding is_target forwards_to forwarded
  forwards_to-cluster n after d h =
      let nodes = fan_out_plan plan.live plan.offline in
      forwards_to-append n (forward_cluster_targets self nodes plan.shared_nodes) after h
      ∙ forwards_to-targets n self nodes plan.shared_nodes
          (fan_out-IsDistinct plan.live plan.offline d)
      ∙ ap
          (λ b.
            if b && not (str_eq n self)
            then shared_filters_for_node plan.shared_nodes n ∷ []
            else [])
          (member-fan_out n plan.live plan.offline)

  -- The connectors and the provider get no forward.
  forwards_to-after : (n d : Str) (b : Bool) → forwards_to n (afterwards b d) ≡ []
  unfolding forwards_to
  forwards_to-after n d true = refl
  forwards_to-after n d false = refl

  accepted :
      (zero_uuid : Str) (allows has_outputs within_volume : Bool) (info : DeviceInfo) (pk : Packet)
      → (str_eq info.tenant_id zero_uuid || allows) ≡ true
      → let sent = forwarded (fan_out_plan plan.live plan.offline) in
        on_publish true true self plan zero_uuid allows has_outputs within_volume (some info) pk
        ≡ (sent.0 ++ afterwards (has_outputs && within_volume) info.id, passes sent.1)
  unfolding on_publish
  accepted zero_uuid allows has_outputs within_volume info pk ok =
      let free : (not (str_eq info.tenant_id zero_uuid) && not allows) ≡ false = ground arith in
      rw (free, cluster_lem) refl

  -- In a cluster with a forwarder, where the live nodes are distinct, a publish that the limiter
  -- allows, or whose tenant is the zero UUID, passes with the shared filters chosen for this node;
  -- every other node that the plan of the router names, among the live nodes or the offline ones,
  -- gets one forward, with the filters that the plan chooses for it, and no other node gets any;
  -- the quota of the output connectors changes nothing of this.
  pub on_publish-forwards :
      (zero_uuid : Str) (allows has_outputs within_volume : Bool) (info : DeviceInfo) (pk : Packet)
      (n : Str)
      → IsDistinct plan.live
      → (str_eq info.tenant_id zero_uuid || allows) ≡ true
      → let o =
          on_publish true true self plan zero_uuid allows has_outputs within_volume
            (some info)
            pk in
        (o.1 ≡ passes (shared_filters_for_node plan.shared_nodes self))
        × (forwards_to n o.0
            ≡ (if is_target n then shared_filters_for_node plan.shared_nodes n ∷ [] else []))
  on_publish-forwards zero_uuid allows has_outputs within_volume info pk n d ok =
      let after = afterwards (has_outputs && within_volume) info.id in
      rw (accepted zero_uuid allows has_outputs within_volume info pk ok) (
        unfold forwarded in refl,
        forwards_to-cluster n after d (forwards_to-after n info.id (has_outputs && within_volume)),
      )
