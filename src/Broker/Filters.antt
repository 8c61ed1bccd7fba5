-- ===== src/Broker/Filters.antt =====
-- internal/broker/hooks.go: which local clients use a filter, and so which filters the node has in
-- the cluster's routing table. The registry takes every call at once: a call is its effect on the
-- table of routing/router.go.
pub mod Users
pub mod History
use keel_mqtt_gateway.Prelude.{
  Bool, true, false, Option, none, some, List, [], ◌∷◌, ◌++◌, Str, Dict, str_eq, lookup, insert,
  delete, is_nil, if◌then◌else◌,
}
use keel_mqtt_gateway.Routing.Table.{member, set_remove, Table, topics_of, add_local, remove_all}

-- clusterFilterRefs: the clients that use each filter.
abbrev pub FilterRefs : Type 0
FilterRefs = Dict (List Str)

unfoldable pub users_of : FilterRefs → Str → List Str
unfolding lookup
users_of refs filter = topics_of (lookup filter refs)

-- What addClusterFilterRef leaves, and whether the client is the filter's first.
pub record Added : Type 0 where
  pub refs : FilterRefs
  pub is_first : Bool

-- addClusterFilterRef, for the filter's clients: a missing set is an empty one.
abbrev pub add_user : Str → Str → List Str → FilterRefs → Added
unfolding insert str_eq
add_user client_id filter clients refs =
    if member client_id clients
    then record { refs = refs; is_first = false }
    else record { refs = insert filter (clients ++ client_id ∷ []) refs; is_first = is_nil clients }

-- addClusterFilterRef.
unfoldable pub add_cluster_filter_ref : Str → Str → FilterRefs → Added
unfolding users_of add_user
add_cluster_filter_ref client_id filter refs = add_user client_id filter (users_of refs filter) refs

-- What removeClusterFilterRefs leaves, and the filters that nobody uses any more.
pub record Removed : Type 0 where
  pub refs : FilterRefs
  pub last_users : List Str

abbrev pub drop_user : Str → List Str → FilterRefs → Removed
unfolding insert delete
drop_user filter [] refs = record { refs = delete filter refs; last_users = filter ∷ [] }
drop_user filter (c ∷ clients) refs = record {
  refs = insert filter (c ∷ clients) refs;
  last_users = [];
}

-- One round of the loop of removeClusterFilterRefs.
abbrev pub remove_one : Str → Str → Option (List Str) → FilterRefs → Removed
unfolding drop_user
remove_one client_id filter none refs = record { refs = refs; last_users = filter ∷ [] }
remove_one client_id filter (some clients) refs =
    drop_user filter (set_remove client_id clients) refs

-- removeClusterFilterRefs.
unfoldable pub remove_cluster_filter_refs : Str → List Str → FilterRefs → Removed
unfolding remove_one lookup
remove_cluster_filter_refs client_id [] refs = record { refs = refs; last_users = [] }
remove_cluster_filter_refs client_id (filter ∷ filters) refs =
    let one = remove_one client_id filter (lookup filter refs) refs in
    let more = remove_cluster_filter_refs client_id filters one.refs in
    record { refs = more.refs; last_users = one.last_users ++ more.last_users }

-- The hooks' references and the routing table.
pub record Routes : Type 0 where
  pub refs : FilterRefs
  pub table : Table

module _ (node_id : Str) where
  -- One round of the loop of subscribeClusterFilters.
  abbrev pub subscribe_one : Str → Str → Routes → Routes
  unfolding add_cluster_filter_ref add_local
  subscribe_one client_id filter s =
      let added = add_cluster_filter_ref client_id filter s.refs in
      record {
        refs = added.refs;
        table = if added.is_first then add_local filter node_id s.table else s.table;
      }

  -- subscribeClusterFilters and subscribeClusterFiltersFromStorage, over the filters; OnSubscribed,
  -- over those of the packet.
  unfoldable pub subscribe_cluster_filters : Str → List Str → Routes → Routes
  unfolding subscribe_one
  subscribe_cluster_filters client_id [] s = s
  subscribe_cluster_filters client_id (filter ∷ filters) s =
      subscribe_cluster_filters client_id filters (subscribe_one client_id filter s)

  -- OnUnsubscribed, over the filters of the packet.
  unfoldable pub on_unsubscribed : Str → List Str → Routes → Routes
  unfolding remove_cluster_filter_refs remove_all
  on_unsubscribed client_id filters s =
      let removed = remove_cluster_filter_refs client_id filters s.refs in
      record { refs = removed.refs; table = remove_all removed.last_users node_id s.table }

  -- unsubscribeClusterFilters, over the filters that the client holds. An empty batch would stand
  -- for all filters of the node, so none is sent.
  unfoldable pub unsubscribe_cluster_filters : Str → List Str → Routes → Routes
  unfolding remove_cluster_filter_refs remove_all
  unsubscribe_cluster_filters client_id subs s =
      if is_nil subs
      then s
      else let removed = remove_cluster_filter_refs client_id subs s.refs in
        record {
          refs = removed.refs;
          table =
              if is_nil removed.last_users
              then s.table
              else remove_all removed.last_users node_id s.table;
        }
