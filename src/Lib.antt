-- ===== src/Lib.antt =====
-- ConfluxQuery: the configuration, the authentication providers, the session manager, the query
-- gateway with its retained results, the cluster store in memory, and the metadata cache.
--
-- Parts and files. Paths are from the root of the repository.
--   * Base: the names that all parts share: Boolean tests, lists over native numbers, `Result`, and
--     `Exec`, a method that changes a state and may fail; what was written before an error stays.
--   * Dict: `HashMap` and `BTreeMap` as association lists, with their laws and the counting of values.
--   * Text: the methods of Rust's `str` that the program uses.
--   * Target, Driver: the data of crates/qcli-config/src/lib.rs and crates/qcli-driver-api/src/lib.rs
--     that the gateway uses.
--   * ConfigFile: crates/qcli-config/src/lib.rs, from the text of a file to its targets: `parse`
--     (ConfigFile/Sections), `expand_environment` (Substitution), the rules for names and values
--     (Names), `resolve`, `load` and `discover_targets` (Resolve).
--   * Auth: crates/qcli-auth/src/lib.rs, `ApiKeyAuthenticator` (Auth/Keys), `OidcAuthenticator`
--     (Auth/Oidc) and `CompositeAuthenticator` (Auth/Composite).
--   * Session: crates/qcli-core/src/lib.rs, `SessionManager` with `restore`, `create`,
--     `create_with_overrides`, `snapshot` (here `snapshot_of`), `set_option`, `set_options`,
--     `switch_target`, `mutate` and `close`; Session/Ids has `next_session_id`.
--   * Limits, Results, Redaction, Record: crates/qcli-service/src/lib.rs, `ServiceLimits`; the
--     retention of batches by `store_batch` and `finish_results`, their pages, partitions and readers;
--     the redaction of session properties; the record of a query, its events, and `collect_query`,
--     the task that drains it (Record/Collect).
--   * Query: crates/qcli-core/src/lib.rs, `QueryService` and `QueryHandle`: what the task of a query
--     sends and what `next_item` hands out (Query/Draining).
--   * Gateway: crates/qcli-service/src/lib.rs, the gateway on one node: `ServiceState` and the checks
--     of ownership, quota and target; Gateway/Cleanup has `cleanup_expired` and `begin_shutdown`,
--     Gateway/Sessions, Gateway/Queries, Gateway/Reading and Gateway/Statements the operations. The
--     principal comes from crates/qcli-auth/src/lib.rs.
--   * Cluster: crates/qcli-cluster/src/lib.rs, `MemoryClusterStateStore`.
--     Cluster/Access has what a principal reads and writes of its own resources.
--   * Shared: crates/qcli-service/src/lib.rs, the operations whose names end in `_clustered`, on a node
--     that is its own gateway and the store (Shared/Sessions, Shared/Queries); Shared/Statuses,
--     Shared/Recovery, Shared/Travel, Shared/Permits and Shared/Overwriting have the theorems.
--   * Metadata: crates/qcli-metadata/src/lib.rs, `MetadataService` with its cache; Metadata/Unbounded
--     is the service that it is compared with.
-- The files below each part say in their first lines what they are about.
--
-- How the parts meet: the configuration gives the targets, and a provider turns a credential into the
-- principal of a call. A gateway call checks the principal, expires what is old, and calls the session
-- manager or registers a record; the collecting task then writes the record, and result reading reads
-- what was retained.
--
-- State and time. A call is one step on the state, with the locks of the source taken inside it. The
-- clock is an argument `now` of each call, in milliseconds; a `Uuid` is an argument as well, and so are
-- the environment and the local minute of a new session. Where a call awaits an adapter, what other
-- calls do meanwhile is an argument. Calls that interleave between a check and its entry are not
-- modelled.
--
-- Numbers. `u64`, `usize` and `i64` counters wrap as in a release build; saturating operations
-- saturate. Versions and fencing tokens that are `i64` are compared for equality only by the code and
-- stand as their 64 bits; the theorem that orders tokens keeps them below 2^63, where that is their
-- order.
--
-- Fuel. `read_all` and `follow_pages` model a client that reads until there is no more; one step more
-- than there are batches, or rows, is enough, and their theorems say so. `next_item` has three rounds:
-- two of them can close a channel, and the third returns.
--
-- Parameters. Arrow batches and schemas are the types `B` and `X` with a record `Arrow` of operations;
-- `ArrowLaws` states what is documented of `num_rows` and `slice`. The disk is a record of the steps
-- that fail. `Hashing` stands for the crate argon2, with `IsHashing` for what it says of its hashes,
-- `Library` for the crates jsonwebtoken and serde_json, and `decode` for the reader of TOML. Files, their
-- modes and the environment are arguments.
--
-- Not modelled: the text of error messages, poisoned locks, the broadcast of events, tasks that panic,
-- the reading errors of spill files, the errors of writing JSON, the results in the object store with
-- the task that publishes them and the clustered prepared statements, the Postgres store and the
-- object store, the HTTP and Flight SQL servers, the command line, and the drivers: they are I/O,
-- protocol glue, or left for an extension of this library.
pub mod Base
pub mod Text
pub mod Dict
pub mod Target
pub mod Driver
pub mod Session
pub mod Limits
pub mod Results
pub mod Redaction
pub mod Record
pub mod Gateway
pub mod Query
pub mod Cluster
pub mod Shared
pub mod ConfigFile
pub mod Auth
pub mod Metadata
