-- ===== src/Lib.antt =====
-- gobetween, a layer-4 load balancer: a model of its core, and what is proved of it.
--
-- A server of gobetween has a scheduler, one goroutine that owns the table of the backends. It gets
-- lists of backends from a discovery, results from the workers of a healthcheck, rates from the
-- counters of the statistics, and from the connections operations (connected, disconnected, refused,
-- bytes passed) and requests for an election, which it hands to a balancer.
--
-- Base: names of the libraries, Boolean tests, lists over native numbers, signed integers, texts as
--   bytes, maps from texts, and addresses (net.SplitHostPort and its kin).
-- Core, Core/Table: src/core, and a Go map from targets as an association list. The order of the
--   list is the order in which Go iterates; no theorem rests on it.
-- Config: the records of src/config/config.go.
-- Balance: src/balance. Leastconn (leastconn.go, leastbandwidth.go, over the loop of Scan), Weight
--   (weight.go), Roundrobin (roundrobin.go), Iphash (iphash.go, iphash1.go, with the hash of Fnv),
--   Middleware (balance/middleware), and Registry (registry.go), whose elect is Elect of any balancer
--   that New composes. Their child modules hold the proofs.
-- Healthcheck: src/healthcheck. Types (the statuses), Worker (worker.go, process), Workers
--   (healthcheck.go, UpdateWorkers), Probe (probe.go, ping.go, exec.go); Probe/Received and
--   Probe/Verdicts have proofs, and Manager/Healthcheck/Probes connects it with the preparation.
-- Scheduler: src/server/scheduler/scheduler.go. One function for each handler; Loop has the cases of
--   the select in Start as events, and runs of them. Discovery, Update, Totality, WellFormed, Ledger,
--   Elect and Underflow hold the proofs.
-- Access: src/server/modules/access (access.go, rule.go).
-- Stats: src/stats. Counter and Backends (counters/counter.go, counters/backendscounter.go), Handler
--   (handler.go, store.go, stats.go); Rates and Handler/Current have proofs.
-- Metrics: src/metrics/metrics.go. Observed runs its functions beside the scheduler; Series, Removed,
--   Update, Reports and Swept have proofs.
-- Utils: src/utils. Time (time.go) and Sources (sources.go); Sources/Network has proofs.
-- Tcp: src/server/tcp. Clients (the map of clients in server.go), Server (Start, wrap, the settings of
--   connections and the stop), Handle (handle in server.go), Proxy (the statistics of proxy.go).
--   Session, Totality and Server/Closing have proofs; Session states them in the events of the
--   scheduler.
-- Udp: src/server/udp. Session (session/session.go: the goroutine that writes, the one that listens, and
--   the calls of Write and Close, as labels of a step relation), Server (server.go: the map of sessions
--   and the way of a datagram), Stop (Start and the stop). Session/Counts, Responses, Requests, Stuck,
--   Server/Sessions and Stop/Sessions have proofs.
-- Create: src/server/server.go, New of both servers, and New of src/discovery/discovery.go with its
--   registry and the constructors that read a section of their own (json.go and plaintext.go).
--   Sections and Panics connect it with the preparation of Manager.
-- Manager: src/manager/manager.go. Prepare with Healthcheck and Discovery (normalizeDefaults and
--   prepareConfig, in its stages), Binds (expandBinds), Plan (planReload), Servers (create and
--   deleteServer, over the calls that they make), Reload (Reload with rollbackReload), Start
--   (Initialize and DumpConfig). Verdict has the errors. Prepare/Sound connects a prepared
--   configuration with the balancers of Balance, and Reload/Result puts preparation, expansion, plan
--   and launch together.
-- Discovery: src/discovery/discovery.go. The goroutine of Start as a state machine: its phase, and
--   what it does next, alone or with the other end of a channel. Trace has proofs. Fetch
--   models the fetches of src/discovery/static.go, exec.go, plaintext.go and lxd.go, with the lines of
--   src/utils/parsers/backend.go, over what their calls give.
--
-- State is passed explicitly: a handler is a function from a state to a state and the list of the
-- effects that it has on channels and on the metrics. A panic, which ends the process, is `none`, or
-- `panics` of an election and of a verdict. The runs of Go's scheduler are arbitrary sequences of
-- events, since one goroutine owns each state; the two goroutines of a UDP session share one, and take
-- turns in any order. All loops of the source that are modelled are structural recursions, so there is
-- no fuel, but for the digits of strconv.Itoa, where the number itself, plus one, is enough. Machine
-- integers wrap at 2 ^ 64 (2 ^ 32 for hashes), as written in each definition.
--
-- What the code takes from libraries is a parameter: rand.Intn, strings.ToLower and regular
-- expressions (Env in Balance/Types), package net (Net in Access), durations, strconv.Unquote and
-- the like (Library in Manager/Verdict), text/template (Template in Manager/Binds), reflect.DeepEqual
-- and the success of the calls of servers and services (Env in Manager/Servers), the client of Prometheus
-- (Client in Metrics), what the calls of a probe give (Answers in Healthcheck/Probe), and what the fetches
-- use (TextLibrary in Discovery/Fetch/Lines, Service and Container in Discovery/Fetch/Lxd). What a connection
-- meets is the record Meeting in Tcp/Handle, what a datagram meets Datagram in Udp/Server. A pointer
-- to a section of a configuration is an Option; prepareConfig writes through such pointers, and
-- left_behind in Manager/Prepare is what it leaves to its caller. That the children of one expansion
-- share these sections, and the original configuration too, is not modelled.
--
-- Not modelled: the getters of the manager; goroutines and tickers as such, the
-- buffers of packets, logs and TLS, which only move data in and out; the HTTP API and the
-- command line; and the fetchers of Docker, Consul, JSON and SRV, which call services.
mod Base
pub mod Core
pub mod Config
pub mod Balance
pub mod Healthcheck
pub mod Scheduler
pub mod Access
pub mod Stats
pub mod Metrics
pub mod Utils
pub mod Tcp
pub mod Udp
pub mod Discovery
pub mod Create
pub mod Manager
