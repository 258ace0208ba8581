-- ===== src/Lib.antt =====
-- The RouteStack node agent.
--
-- The agent runs on a node, claims operations from the control plane, runs each by a handler and
-- reports how it ended. The handlers use managers for services, tunnels, firewall rules, health
-- checks, components and certificates, and these use the Docker socket and commands of the host.
--
-- Files, and the code that they model:
--   World             what the agent calls, as explicit state: the Docker daemon, the host's commands,
--                     TCP, the clock and encoding/json are fields of a record, free to answer each
--                     call by all calls before it; a function of type M takes the calls made so far
--                     and returns its result and the calls with its own; an error is its message
--   Paths             internal/filesystem/paths.go
--   Json              how encoding/json fills structs
--   Executor          internal/executor/executor.go: Register, Execute, evictLoop, SafeOperationError;
--                     Threads has Execute and evictLoop as the steps of any number of goroutines
--                     around the mutex, Registry the maps without their order
--   Agent/Poll        internal/agent/agent.go: operationPollLoop over the claims that it gets; a nil
--                     result without an error ends the program, as its log line does
--   Agent/Round       the same loop, with its calls of the control plane
--   Agent/Run         the same file: Run, with both loops and evictLoop as goroutines that take steps
--                     in any order; a timer may fire at any moment after it is set
--   Api/Retry         internal/api/client.go: doWithRetry and its tests on errors and statuses. The
--                     loop recurses on the attempts that are left, max_retries + 1 at the start
--   Api/Calls         the same file: Enroll, Heartbeat, ClaimOperation and CompleteOperation
--   Api/Probe         internal/api/heartbeat_linux.go, on the texts and numbers that the kernel gives,
--                     and heartbeat_other.go (Other)
--   Api/Heartbeat     internal/api/heartbeat.go, and sendHeartbeat of internal/agent/agent.go
--   Docker/Types      internal/docker/client.go: the types and how they are decoded
--   Docker/Client     the same file: pull, inspect, exec, start, stop, remove, adopt, logs
--   Docker/Find       the same file: List and FindContainer
--   Docker/Create     the same file: buildCreateRequest and Create; a request is a map whose entries
--                     come in the order in which they are set
--   Components        internal/components/spec.go and internal/installer/installer.go
--   Service           internal/service/spec.go and internal/service/manager.go
--   Tunnel            internal/tunnel/tunnel.go
--   Health            internal/health/manager.go
--   Firewall          internal/firewall/manager.go; Firewall/Commands has what iptables documents on
--                     the effect of each command on the chain
--   Certs             internal/certs/manager.go
--   Handlers          internal/executor/handlers.go: the payloads (Payload, Certificate), the results
--                     (Encode), the handlers (Containers, Managers); Managers/Contract and
--                     Managers/Revision have operations of contracts/operations.json; Table is the
--                     registration in cmd/routestack-agent/main.go, Stub a handler without use
--   Redact            internal/redact/redact.go: the four patterns and RedactSecrets. The executor and
--                     the poll loop take the redaction as a parameter, which it instantiates
--   Agent/Config      internal/agent/config.go: LoadConfig and applyDefaults
--   State             internal/state/state.go: LoadState and IsEnrolled
--   Enroll            internal/api/enroll.go: GenerateKeyAndCSR and Enroll; cmdEnroll of
--                     cmd/routestack-agent/main.go, from its flags on
--   Program           cmd/routestack-agent/main.go: main, and cmdRun from its flags on
--   Files             Save of internal/state/state.go and writeFileAtomic of internal/api/enroll.go,
--                     with all disks on the way, and the failure of each system call as an input
--   Base              texts as lists of code points, integers, association lists, quoting
--   Examples          the theorems at concrete inputs
--
-- Numbers are natural or integer. Arithmetic on machine words that can wrap, the delay of doWithRetry
-- and the counters of /proc, is written with its wrap-around. Time is counted in seconds, a delay in
-- nanoseconds. Agent/Round takes the number of iterations, and what is said of it holds for each.
--
-- Not modelled: logging, the context of calls other than doWithRetry's, TLS, file permissions, the
-- time stamp of a health report, and the parsing of flags. Cryptography, PEM, YAML, the text form of
-- JSON and floating-point numbers are parameters. What the agent does not use is left out:
-- ParsePort, RevisionFromString, NewManagerWithBinary and NewManagerWithRunner.
mod Base
pub mod Json
pub mod World
pub mod Paths
pub mod Api
pub mod Executor
pub mod Agent
pub mod Docker
pub mod Components
pub mod Service
pub mod Tunnel
pub mod Health
pub mod Firewall
pub mod Certs
pub mod Redact
pub mod State
pub mod Enroll
pub mod Handlers
pub mod Files
pub mod Program
pub mod Examples
