-- ===== src/Lib.antt =====
-- Pomerium: the databroker, the identity manager and the authorize service that live on it, the
-- cookies of sessions, the policies with the routes that the control plane makes of them for envoy,
-- and the xDS manager.
--
-- The program's parts and the files that model them (paths from the repository's root):
--   internal/scheduler/scheduler.go: Scheduler. A priority queue of keys over two B-trees.
--   internal/signal/signal.go: Signal. Wake-ups over channels of capacity one.
--   pkg/storage/storage.go: Storage; pkg/storage/inmemory/backend.go: Storage/InMemory, a table of
--   records and the log of their changes; pkg/storage/inmemory/stream.go: Storage/InMemory/Stream.
--   pkg/storage/encrypted.go, with pkg/cryptutil/encrypt.go: Storage/Encrypted, a wrapper that
--   encrypts the data of the records of another backend.
--   pkg/storage/redis (redis.go, stream.go): Storage/Redis, a backend that several clients share.
--   pkg/grpc/databroker/databroker.go: Databroker; pkg/grpc/databroker/syncer.go: Databroker/Syncer;
--   internal/databroker/server.go: Databroker/Server, with its method Sync over the in-memory
--   backend in Databroker/Server/Streaming.
--   internal/identity/manager: Identity. data.go is Identity/Data, misc.go is Identity/Keys (tokens
--   in Identity/Data), manager.go is Identity/Manager with Users, Directory (mergeGroups, mergeUsers
--   and what leads to them) and Loop (refreshLoop, with sync.go) below it.
--   internal/sessions: Sessions (errors.go, middleware.go), Sessions/Header and Sessions/Cookie, over
--   Strings/Decimal for the numbers in the cookies' names.
--   authorize: Authorize/Store (evaluator/store.go and sync.go), Authorize/Evaluator
--   (evaluator/evaluator.go, custom.go and functions.go), Authorize/Check and Authorize/Requests
--   (grpc.go).
--   internal/controlplane/xdsmgr/xdsmgr.go: ControlPlane/Xds. The delta streams of xDS.
--   config: Config (helpers.go), Config/Weights (custom.go), Config/Policy with Validation, Values and
--   Messages (policy.go; claims.go of internal/identity, pkg/protoutil/struct.go, pkg/grpc/config),
--   Config/Options (options.go).
--   internal/controlplane/xds_routes.go: ControlPlane/Routes, with Policies and Pomerium;
--   internal/controlplane/xds_listeners.go: ControlPlane/Routes/Hosts, the domains;
--   internal/controlplane/xds_clusters.go: ControlPlane/Clusters.
--   internal/urlutil/url.go: Urlutil/Hosts. The hosts and domains of URLs.
--   internal/urlutil/signed.go: Urlutil. URLs that are signed with a key that the services share.
--   internal/registry/inmemory.go: Registry. The services that run, with leases that expire.
--
-- How they interact: the server puts records into a backend; a put appends to the backend's log of
-- changes and wakes the streams of Sync through the signal; a syncer fetches a snapshot, then the
-- changes past it, and tells its handler; the manager is such a handler, keeps the sessions in a
-- collection and a scheduler, and writes what the identity provider answers back to the server. The
-- authorize service is another such handler: its store mirrors the records, and Check looks a
-- request's session up in it, which the request carries in a cookie or a header. The xDS manager
-- sends envoy the configuration's resources. Envoy takes a request by the routes that the control
-- plane makes of the policies, and asks authorize, which looks for the policy itself.
--
-- How state is modelled. An object is a record, and a method returns the new one; each method holds
-- its object's lock, so it is one step. `time.Now()`, random numbers and the answers of other
-- services are arguments. A wait is a list of what wakes it. Go strings are lists of bytes; a
-- uint64 is a number with its wrap-around written out; a time or a duration is an integer of
-- nanoseconds, a time since Go's zero time, and does not overflow. A Go map is a list of entries
-- with distinct keys (GoMap), whose order stands for the order of `range`.
--
-- Parameters: the B-tree of github.com/google/btree is the interface BTree, which states its
-- documentation through the items in order, with a sorted list as an instance; protobuf messages
-- are packed and unpacked by functions that are given, and so are the AEAD cipher, url.Parse, rego's
-- results, the encoders of cookies and the identity provider with its directory. What signed URLs use
-- of net/url, HMAC, base64 and strconv is the interface UrlLibrary; what hosts and policies use of net
-- and net/url is Net and UrlText, of files and certificates Files, of hashes Conversions, of the JSON
-- of claims Json, of certificates and sockets' digests ClusterLibrary. A redis server is the interface
-- Redis, with the documented effect of its commands, where a score is a float64 and exact below 2^53;
-- a transaction under WATCH is executed only if the last version is the one that it read. Envoy is the
-- interface Envoy: how it compares a path, and that it takes the first route that matches.
--
-- Fuel: the loop of removeChangesBefore has the number of changes as fuel, and takes out every
-- change that it should (Expiry.run-IsTrimmed); a run of Next over a stream has
-- one round more than there are changes (Streaming.send_changes).
-- The loops of refreshLoop over what is due have fuel; more than there are keys that are due is enough
-- for the sessions (Sessions.refresh_sessions_ends). The rounds of a redis transaction are the
-- hundred of the source; deliveries counts calls of Next.
--
-- Not modelled: logging, metrics and tracing; gRPC and TLS transport; rego, which the
-- evaluator calls; the messages that Check builds for envoy, the listeners of the control plane and
-- its clusters' settings of DNS, timeouts and HTTP; the reading of the configuration; proxy,
-- authenticate and the clients of vendors, which PROJECT.json lists.
mod Prelude
pub mod BTree
pub mod GoMap
pub mod Signal
pub mod Strings
pub mod Storage
pub mod Databroker
pub mod Identity
pub mod Urlutil
pub mod Config
mod Tests
pub mod Scheduler
pub mod Registry
pub mod ControlPlane
pub mod Sessions
pub mod Authorize
