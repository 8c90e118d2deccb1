-- ===== src/Lib.antt =====
-- A verification library for the access controller: a Go service that stores relation tuples
-- (namespace:object#relation@subject), namespace configs with rewrite rules for the relations, and
-- answers whether a subject has a relation to an object. Nodes form a cluster: each object has an
-- owner on a hash ring, and a node forwards the check of an object to its owner.
--
-- The parts, in the order in which they build on one another (paths from the repository's root):
--
--   Prelude, Map, Text   Shared names and lemmas. A Go map is an association list (Map) whose order
--                        is that of one iteration; a Go string is a list of bytes (Text).
--   Time                 time.Time: an instant, a location and a monotonic reading. `==` compares
--                        all three, Equal and After only the instants.
--   Status               The errors of the RPCs: gRPC codes, NamespaceConfigError and ToStatus of
--                        internal/namespace-manager/namespacemgr.go.
--   Config               Namespace configs and rewrite rules; rewriteFromNamespaceConfig is
--                        rewrite_from_config and validateRewriteRelations is validate_rewrite, both
--                        of internal/access-controller.go.
--   Tuple                internal/relation-tuple.go: subjects, tuples, their text forms and their
--                        protobuf messages.
--   Snapshots            The in-memory PeerNamespaceConfigStore of
--                        internal/namespace-manager/namespacemgr.go: SetNamespaceConfigSnapshot is
--                        set_snapshot, ListNamespaceConfigSnapshots is list_snapshots, and so on.
--   Choose               chooseNamespaceConfigSnapshot of internal/access-controller.go, loop by
--                        loop, over the store of Snapshots.
--   Context              The values that a request's context carries: the checksum of the ring and
--                        the config timestamp of each namespace.
--   Check                check, checkRewrite and checkLeaf of internal/access-controller.go. Join is
--                        the end of checkRewrite, where the first message of the children's
--                        goroutines wins; Proxy is the call of the owner with its retries; Semantics
--                        says what a check means, with no evaluation order. The theorems are in
--                        Sound, Ends and Cycle, over the lemmas of Rules, Rewrites, Pins and Total.
--   Membership           The ClientRouter of internal/client-router.go and NotifyJoin and NotifyLeave of
--                        internal/access-controller.go; the ring of the hashing library is a
--                        parameter with the laws that it documents.
--   Gossip               LocalState and MergeRemoteState of internal/access-controller.go, with
--                        NodeMetadata of internal/node.go; the JSON encodings are parameters.
--                        Entries says what a store holds after a merge, Sent what is serialized,
--                        and Replicated what a node knows of a peer after a merge of its state.
--   Result, Handler      The RPC handlers of internal/access-controller.go: CheckRpc is Check, WriteRpc
--                        is WriteRelationTuplesTxn (Accepted says what it accepts, Applied what it
--                        does), ListRpc is ListRelationTuples, ConfigRpc is WriteConfig and
--                        ReadConfig, with WrapTransaction of
--                        internal/namespace-manager/postgres/manager.go. The tuple store and the
--                        namespace manager are parameters on a database in some state.
--                        Fleet lets nodes answer one another by CheckRpc; ExpandRpc is Expand.
--   Check.Threads        The goroutines of checkRewrite (one for each child, one that waits for them)
--                        and its select, as steps of a system; Sound and Complete relate them to
--                        Join, Settles bounds them, Leaks says which of them never end.
--   Tree, Expand         internal/tree.go, and expand and expandWithRewrite of
--                        internal/access-controller.go. Meaning says which users a tree stands for;
--                        Sound, Complete and Members compare them with the grants of a check, Ends
--                        says when an expansion returns, Depth when it does not, and Intersections
--                        what is lost under an intersection.
--   Store                SQLStore of internal/datastores/sql-store.go: SubjectSets is subject_sets,
--                        RowCount is row_count, ListRelationTuples is list_relation_tuples, and
--                        TransactRelationTuples is transact_relation_tuples of Store.Transaction.
--                        Rows and Effects say what is assumed of the database; Agreement, Malformed,
--                        Listing, Tables, Lookups and Written have the theorems.
--   Manager              internal/namespace-manager/postgres/manager.go: withTransaction is
--                        with_transaction, UpsertConfig is upsert_config, GetConfig is get_config, and
--                        so on. A transaction's NOW() is the time at which it starts. Newest says
--                        which row the query of GetConfig selects, Stored what UpsertConfig leaves;
--                        Saved and Rules have the theorems.
--   Changelog            iterator.Value of the same file (value), the call of TopChanges in
--                        NewAccessController with the loop over its rows (preload), and a round of
--                        watchNamespaceConfigs (watch_round). Recent has the query of TopChanges;
--                        Replayed and Recent have the theorems.
--   Hashring             ConsistentHashring.Checksum of internal/hashring/hashring.go.
--   Examples             The theorems at concrete inputs.
--
-- State and fuel. A check reads the node's store and tuples and changes neither, so a `Node` is an
-- argument. `check` follows stored tuples and need not end; it runs on fuel, and `none` means that
-- it still runs: the fuel ran out, or a call of a peer, which has no deadline of its own, hangs. Fuel
-- is enough when it exceeds a rank that falls along the references and no call hangs; an expansion runs
-- on fuel in the same way. The loop that retries a proxied call runs on 7 rounds, which it cannot use
-- up.
--
-- Parameters. What the code calls outside the repository is an argument: the tuple store
-- (TupleReader), the ring with its checksum, the router's clients and the peers' answers
-- (ring_checksum and Peers, which may change from one look to the next; a call may also hang), and the
-- order in which goroutines end (Scheduler, which neither invents nor loses a child's result).
--
-- Not modelled: the database, whose tables are parameters of Store and Manager with the documented
-- meaning of the queries and statements; the ORDER BY of TopChanges, a parameter; goqu and protojson; the endless loop of watchNamespaceConfigs around its rounds, with its
-- back-off; the wiring of cmd/access-controller/main.go and NewAccessController; the health checker;
-- logging. Store and tuples do not change while one request is evaluated.
pub mod Prelude
pub mod Map
pub mod Text
pub mod Time
pub mod Status
pub mod Result
pub mod Config
pub mod Tuple
pub mod Snapshots
pub mod Choose
pub mod Context
pub mod Check
pub mod Membership
pub mod Gossip
pub mod Handler
pub mod Tree
pub mod Expand
pub mod Store
pub mod Manager
pub mod Changelog
pub mod Hashring
mod Examples
