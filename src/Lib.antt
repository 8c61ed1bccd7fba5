-- ===== src/Lib.antt =====
-- The control plane of keel-mqtt-gateway: a development about the Go packages that decide who a
-- client is and what it may do, which node owns a session, what is queued for a client that is
-- away, and how load moves between nodes.
--
-- The parts and how they meet. The hooks of the MQTT server (internal/broker) authenticate a
-- connection with what internal/auth reads from it, track it, claim its session in the cluster,
-- check each access, forward each publish, and tell the routing table which filters the node's
-- clients use. Every core node holds a replica of a state machine (internal/cluster/raft): a log of
-- commands claims and releases sessions, changes roles, bindings and rulesets, and revokes
-- certificates. An access check reads that state, gathers rules and asks internal/cluster/acl. A
-- session without a connection is placed on an edge node by hashing (internal/session), which
-- matches each publish against its subscriptions with the matcher of internal/cluster/acl and
-- queues it. A rebalancing pass (internal/cluster/lifecycle) reads which node owns which session
-- and evicts some. Which node has a subscriber for a topic is kept in a table
-- (internal/cluster/routing) that follows the events of a store. The leader watches which core's
-- Redis is the primary (internal/cluster/membership). Publishes leave the gateway through a bounded
-- buffer (internal/connector).
--
-- Which file models what:
--   Acl/Topic: internal/cluster/acl/match.go (SharedFilter, MatchTopic, specificity)
--   Acl/Model: internal/cluster/acl/model.go
--   Acl/Evaluate: internal/cluster/acl/evaluate.go (Evaluate and its closure consider)
--   Acl/Standard: internal/cluster/acl/standard.go
--   Raft/Command, Raft/Fsm: internal/cluster/raft/command.go, fsm.go (one function for each larger
--     case of Apply, the switch itself, and replay for a log)
--   Raft/Reads: fsm.go (sessionOwner, isRevoked, evaluateACL and the other reads)
--   Raft/Snapshot: fsm.go (Snapshot, Persist, Restore)
--   Raft/Revocation: internal/cluster/raft/revocation_cache.go
--   Raft/AclCache: internal/cluster/raft/acl_cache.go, and ACLSnapshot of rpc_server.go and
--     remote_registry.go
--   Session/Ownership: internal/cluster/raft/offline_ownership.go (CurrentOwner, Place, Clear)
--   Session/Placement: internal/session/placement.go
--   Session/Offline: internal/session/offline_session.go
--   Session/Delivery: internal/session/delivery.go
--   Session/Reconciler: internal/session/reconciler.go (ReconcileOnce, over Session/Ownership)
--   Connector/Buffer: internal/connector/buffer.go (Push, Next and Close, and their steps)
--   Connector/Buffered: internal/connector/buffered.go (Forward, forwardWithRetry)
--   Lifecycle/Rebalance: internal/cluster/lifecycle/rebalance.go (LiveEdgeNodes, Rebalance)
--   Lifecycle/Sweep: internal/cluster/lifecycle/routing_sweep.go (tick)
--   Routing/Keys, Routing/Table: internal/cluster/routing/router.go (the keys; byNode, Subscribe,
--     Unsubscribe, UnsubscribeBatch, PurgeNode, applyEvent, and the loop of reconcile)
--   Broker/Device: the identity of a connection (internal/auth/auth.go, internal/broker/hooks.go)
--   Broker/Authenticate: hooks.go (authenticate, authenticateCert), internal/auth/crypto.go
--     (DetectAuthMethod, VerifyCertificate, ParseClientIdentifier), tenant_config.go (Get, load),
--     device_ca_cache.go (the list that fetch makes)
--   Broker/Topics: hooks.go (OnACLCheck, isAllowedPublish, isAllowedConsumerSubscribe)
--   Broker/Connections: hooks.go (OnConnectAuthenticate, claimClusterSession, OnDisconnect,
--     OnClientExpired), and in Connections/World their critical sections as steps
--   Broker/Filters: hooks.go (addClusterFilterRef, removeClusterFilterRefs and their callers)
--   Broker/Publish: hooks.go (OnPublish, forwardToClusterSubscribers, fanOutPlan,
--     OnSelectSubscribers)
--   Broker/Limits: internal/broker/ratelimit.go (allow, sweep)
--   Broker/Retained: internal/broker/retained.go (Set, Delete, Match)
--   Broker/PacketIds: internal/broker/offline_packet_id.go
--   Broker/Inflight: internal/broker/redis_session.go (the fields of messages in flight, the fenced
--     scripts, OnQosPublish, OnQosComplete, OnQosDropped, ActivateDirectionalSchema, and the
--     messages in flight of migrateLegacySchema)
--   Broker/Dispatch: internal/broker/offline_delivery_dispatch.go, OwnedOfflineSessions of
--     redis_session.go
--   Broker/OfflineQueue: redis_session.go (QueueOfflineInflight)
--   Routing/Shared: internal/cluster/routing/router.go (offlineShared and offlineSharedOwners, in
--     addLocalLocked, removeLocalLocked, applyEvent and reconcile)
--   Routing/Reassert: internal/cluster/routing/reconciler.go (LocalSubscriptions, reconcileOnce)
--   Routing/Offline: internal/cluster/routing/router.go (the offline owners of a publish)
--   Membership/Failover: internal/cluster/membership/redis_failover.go (reconcileRedisPrimary and
--     what it calls)
-- The children of each hold the proofs. Prelude has what they share, and Examples the concrete
-- inputs.
--
-- How Go is read. A string is the list of its bytes. A map is an association list, in which a range
-- visits the entries in the order they stand; theorems about any order of the rules or of the nodes
-- say what a range may change. A pointer to a client is a number, a UUID the text of it. An int
-- that is never negative is a natural number, and a uint64 is one below 2 ^ 64, with the modulus
-- written out. A call under a lock is one step. Every loop is a recursion on the list that it
-- ranges over; the loop of Next is modelled one round at a time. A loop that the source bounds by a
-- number of attempts or of packet IDs counts down from it. Two run on fuel: isAllowedPublish on the
-- length of its topic, which each of its calls shortens, and the pages of OwnedOfflineSessions on
-- the number of its IDs. A mean and a threshold that are float64 are fractions of natural numbers.
--
-- Parameters: the clock that OpRevokeCertificate reads, the JSON codec of a snapshot, the queue of
-- offline deliveries, the downstream connector, the shuffle and the evictor of a rebalancing pass,
-- the base64 codec, the commands of Redis, how far each of them comes before its reply is lost, the
-- answers of the topic index, the index of the owners of shared filters, the token buckets, whether
-- a store takes a write and a channel its event, the test for a UUID, X.509 chains, JWTs, what the
-- database answers to a login and to the query for a tenant, the PEM of the service for device CAs,
-- the answers of raft and Redis to a failover, and whether a context is done.
--
-- Not modelled: of the broker, the hooks that resume a session and deliver retained messages, and
-- its storage of sessions; the topic index of live routes, membership, the gRPC and HTTP layers,
-- the caches of authentication, configuration, and the MQTT server in thirdparty/, a copy of
-- another project. They are I/O, or wait for a later extension.
pub mod Prelude
pub mod Acl
pub mod Raft
pub mod Session
pub mod Connector
pub mod Lifecycle
pub mod Routing
pub mod Membership
pub mod Broker
pub mod Examples
