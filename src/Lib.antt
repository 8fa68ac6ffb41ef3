-- ===== src/Lib.antt =====
-- A model of stoker-operator, the Kubernetes operator that syncs a git repository to Ignition
-- gateways: its controller, its webhooks and the engine that puts the files in place.
--
-- The parts, and how they meet. A GatewaySync object (api/v1alpha1/gatewaysync_types.go) names a
-- repository, a ref and sync profiles. The webhook receiver (internal/webhook/receiver.go) lets a
-- promotion tool ask for another ref, in annotations of the object. The pod injector
-- (internal/webhook/inject.go) adds the agent's container to gateway pods that ask for it. The
-- reconciler (internal/controller) resolves the ref, tells the agents by a ConfigMap, finds the
-- gateways, collects what their agents report, grants them a role and sums all up in conditions.
-- The agent (internal/agent) reads that ConfigMap, fetches the repository, turns its profile into a plan
-- for the sync engine, asks the gateway to scan the files (internal/ignition) and writes its status
-- where the controller collects it. The sync engine (internal/syncengine) stages the mapped files,
-- merges them into the live directory and removes what is left over there.
--
-- The files. A function keeps its name, in snake case; what a handler does after a call that can fail
-- or branch is a function of its own, called in the code's order.
--   Prelude     tests, lists, maps as association lists, and Go's functions on text
--   Api         the object's types, pods, and the names in pkg/types and pkg/conditions
--   Engine      internal/syncengine: Disk is the file system, Exclude exclude.go, Copy copy.go, and
--               Plan with its children plan.go and engine.go
--   Webhook     internal/webhook: Receiver is receiver.go and hmac.go, Json what the decoder yields,
--               Inject with its children inject.go
--   Git         internal/git: Remote is LsRemote of client.go, GoGit and Native its two clients'
--               clone and fetch, Auth auth.go, GitHubApp githubapp.go, and Run the sequence of calls
--               that change the world and can fail
--   Ignition    internal/ignition: Client is client.go, Designer designer.go
--   Agent       internal/agent: Health, Watcher and Config are the files of those names, ConfigMaps
--               configmap.go; Context, Closures and Profile are profile.go; State, Sync, Loop and Retry
--               are agent.go, Sync its syncs, Loop its cycles, and Retry the delay after an error
--   Controller  internal/controller: Backoff, Validate, Profiles, Ref, Metadata, Steps and Reconcile
--               are parts of gatewaysync_controller.go, Discovery is gateway_discovery.go, Conditions
--               its two summaries with setCondition, and Rbac rbac.go
-- Laws, and the modules named for what they show (Keeps, Kept, Safety, DryRun, Summary,
-- Convergence, Paths, Scan, Key, Described, Found, Failure, and Meet, on the ConfigMaps by which
-- agents and controller meet), hold proofs; Tests hold runs at concrete data.
--
-- What stands for what. An error is a value (Option, a sum, or the outcome of a file operation)
-- and keeps its cause where the code looks at it; a message is left out or a parameter. A map is
-- an association list, and a theorem that needs each key once says so. The disk maps paths, as
-- lists of components, to files, directories and symbolic links; a symbolic link is never
-- followed, so that the results on a sync speak of the runs that meet no link to a directory on
-- the way to a file, a call fails only by the shape of the disk, and a walk visits the entries
-- that are there when it starts. The API server is its answers: whether each call succeeds, and
-- the objects that it holds. The configured directories of the agent are absolute. A reconcile
-- takes one instant, and no other reconcile or webhook runs between its steps. Each call that an
-- agent makes is answered by the number of calls before it, so that two reads of one object may
-- differ; a gateway answers by the requests that it was sent before; and a cycle of an agent,
-- which holds a lock, runs alone. The agent's wait for designer sessions is the list of its ticks
-- up to the timeout or the cancellation, and its polls for the metadata and for the port are as
-- many as are given. Instants and durations are natural numbers, in milliseconds, for the backoff
-- and the conditions in seconds, and for the agent's backoff in nanoseconds, where a delay is an
-- int64 with its overflow; an int32 of a status is its pattern of bits; a polling interval below
-- zero is not modelled. The decimal text of a number is computed with fuel 20, as a 64-bit
-- integer has at most 20 digits; all other recursion is structural.
--
-- Parameters, with what is asked of them: the glob matcher of doublestar, SHA-256 and HMAC, the
-- JSON decoder and encoder, time.ParseDuration, sort.Strings (it keeps which texts there are),
-- go-git's calls, the git program and the files that its client writes, the replacement of tokens
-- in a text, PEM, x509, JWT and HTTP of the exchange of a GitHub App's key, text/template on a
-- text with template syntax, sjson, the agent's clone or fetch of the repository, its
-- environment, and what os.Stat finds at a symbolic link.
--
-- Not modelled: metrics, events, logs, the HTTP servers, the programs' flags and wiring,
-- generated code, charts and manifests, tickers and pauses, and cancelled contexts.
pub mod Prelude
pub mod Api
pub mod Engine
pub mod Webhook
pub mod Git
pub mod Ignition
pub mod Agent
pub mod Controller
