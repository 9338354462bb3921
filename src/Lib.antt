-- ===== src/Lib.antt =====
-- DI-orchestrator: the operator that runs DIJobs on Kubernetes, as definitions and theorems.
--
-- A DIJob asks for tasks with replicas. The reconciler (pkg/controllers/dijob_controller.go) reads
-- the job, its pods and its services, validates the job, and moves it by its phase
-- (pkg/controllers/dijob.go): it creates pods, removes redundant or failed ones, and changes the
-- job's phase and conditions (pkg/context/status.go); at the end it writes the status to the
-- cluster. A change of phase comes back as an event, and the handlers (pkg/controllers/handler.go)
-- then count restarts and reschedules and record what happened. The allocator (pkg/allocator) is
-- called for new jobs and from time to time; its one policy allocates no node. The server
-- (pkg/server) answers requests about the replicas of a job from the same pods and the same status.
--
-- The parts, and the files that model them:
--   Base, Text, Dict    helpers: lists, integers, int32, Go strings as bytes, Go maps as
--                       association lists
--   Kube                the fields of the Kubernetes objects that the program uses
--   Job                 pkg/api/v2alpha1/dijob_types.go, the constants of pkg/common/config.go
--   Machine             errors, results (a value, an error, a panic), the state of a handler (the
--                       job it points to, the log of calls, the readings of the clock), and the
--                       cluster as a parameter `Api`
--   Machine/Poll        what wait.Poll promises, a hypothesis of some theorems
--   Machine/Store       what the API server promises of pods, a hypothesis of some theorems
--   Machine/Along       actions that keep to a relation between states, and to kinds of calls
--   Utils               pkg/utils: util.go (Names, Spec, Pods, Filters, Objects), filters.go
--                       (Filters), validator.go (Validator)
--   Status              pkg/context/status.go: in memory (Status), in the cluster (Status/Cluster),
--                       for objects that are no DIJobs (Status/Incorrect)
--   Pods                pkg/context/pod.go: Build (BuildPod, BuildService), Calls (create, delete,
--                       list), CleanUp (DeletePodsAndServices); Removal (pkg/context/job.go)
--   Controller          pkg/controllers: Replicas, Checks and Steps (dijob.go), Handlers
--                       (handler.go), Reconcile (dijob_controller.go, reconcileReplicas), Events
--                       (the handlers of events, pkg/common/event_handler.go)
--   Server              pkg/server: Requests (processor.go, utils.go), Responses (handlers.go,
--                       types), Routes (server.go); a request is the id of its path and the
--                       bound body
--   Allocator           pkg/allocator: Resources (GetDIJobDefaultResources, GetPodResources), Jobs
--                       (job.go), Nodes (node.go, pkg/context/node.go), Allocate (allocator.go,
--                       types/fit_policy.go)
--   Commands            cmd: flags and options (cmd/common, Operator, Serve), runCommand (Operator,
--                       Serve), the command line (Root), SetupWithManager (Watches),
--                       pkg/context/context.go
--   Tests               a small cluster, on which the theorems are applied
-- A function of the code has its name in snake case. A pointer to a job that a function writes
-- through is the job of the state; a function that can panic has a result `none` or `panic`.
--
-- Bounds: counters of the status are int32 and wrap around. Replicas of a task are natural numbers,
-- since the resource's validation makes them at least 1. The ranks that strconv.Atoi reads are in
-- the range of a 64-bit int, or an error. The loops are structural recursion; fuel is needed in
-- `itoa` alone, one round for each digit, and its argument is fuel enough.
-- Go does not fix the order of a range over a map; the association list gives one order.
--
-- Not modelled: log lines, the schemes, generated code (the deep copies: values are immutable here),
-- the choice of a route and its handler, which is gin's.
-- The API server, the event recorder, the clock, wait.Poll, DeepEqual, the arithmetic of resource
-- quantities, strings.ToUpper, the manager of controller-runtime, cobra and pflag, and
-- floating-point numbers are parameters. Durations of the allocator do not overflow.
pub mod Allocator
pub mod Base
pub mod Text
pub mod Dict
pub mod Kube
pub mod Job
pub mod Machine
pub mod Utils
pub mod Status
pub mod Pods
pub mod Commands
pub mod Controller
pub mod Server
pub mod Tests
