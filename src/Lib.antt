-- ===== src/Lib.antt =====
-- The Go services of the benchmark platform: programs are uploaded, run in microVMs, measured and
-- ranked.
--
-- - services/submission-api takes uploads and queues them as jobs. Its workers claim pending jobs,
--   have the orchestrator spawn a machine, have the bot fleet benchmark it, read the metrics that
--   the ingester has stored, and write the score.
-- - services/sandbox-orchestrator keeps the registry of machines: SpawnVM reserves an id and an
--   address, prepares the TAP interface and the disk, boots, and pins and limits the process;
--   TeardownVM undoes this. A prober can measure latencies on a TAP interface, and its consumer
--   sends them to the broker.
-- - services/telemetry-ingester moves the metrics from the broker's topic to the database.
-- - services/leaderboard ranks the stored metrics.
-- - sandbox/quota.go limits a machine's memory and CPUs by a cgroup.
--
-- Files:
-- - Prelude, with Tests, Lists, Results, Int, Text, Dict, Digits, Family and FilePath below it:
--   what all parts share. A Go string is the list of its code points, a map is an association list,
--   an `int64` is an integer, and an error is a constructor.
-- - Orchestrator/Address (findFreeIPIndex of main.go, GenerateIPFromIndex of network.go, the MAC
--   address and VSOCK identifier of firecracker.go and main.go), with Printing and Free;
--   Orchestrator/TapName (tapNameForVM); Orchestrator/Network (network.go), with Cleanup;
--   Orchestrator/Disk (disk.go), with Workspace; Orchestrator/Vmm (firecracker.go), with Boot;
--   Orchestrator/Hardening (the cores and the cgroup of a machine, in firecracker.go), with Cores
--   and RoundRobin; Orchestrator/Provisioner (what the handlers call); Orchestrator/Server (the
--   handlers of main.go), with Reservation, Handlers, Teardown, Calls, Interleaving and Process
--   (main); Orchestrator/Host (the handlers over network.go, disk.go and firecracker.go together),
--   with Interfaces, Tidy, Lifetime and Shutdown.
-- - Orchestrator/Prober (ebpf_prober.go), with Resources, Closing and Release;
--   Orchestrator/LatencyRecord and Orchestrator/Consumer (ebpf_consumer.go), with Delivery and
--   Lifetime (StartProbeConsumer and StopProbeConsumer), which has Safety.
-- - Ingester/Payload, Ingester/Consumer (runConsumerLoop) and Ingester/Storage (runStorageWorker
--   and persistBatch, with Accounting and Bounds) and Ingester/Pipeline (both at once, with the
--   channel between them), with Transfer, and Ingester/Restart (the lives of the process, which
--   resume at the committed offsets), with Covers, all of telemetry-ingester/main.go.
-- - Float64: `float64` as an interface with the laws that the scores rest on, and Fixed, an
--   instance in fixed-point numbers.
-- - Score: calculateScore of submission-api/main.go and of leaderboard/main.go, with Parts, Bounds
--   and Order.
-- - Submission/Jobs (the table of jobs), Submission/Handlers (handleSubmit, handleStatus),
--   Submission/Metrics (pollBenchmarkMetrics), Submission/Worker (processNextJob, runBenchmarkSync
--   and the loop of startWorkerPool), with Outcome, Claims, Waiting and Queue, Submission/Pool (the
--   workers at once, with handleSubmit beside them), with Exclusive, Alone, Resubmission and
--   Restart, and Submission/Service (the routes and the answers), all of submission-api/main.go.
-- - Leaderboard (the handlers of leaderboard/main.go), with Order (the comparison of sort.Slice),
--   Best (the map bestRuns), Boards (lists of rows), Ranking and Detail, and Leaderboard/Service (the routes and the
--   answers), with Cors.
-- - Http (writeJSON, writeError, withLogging, withRecovery and withCORS of both servers), with
--   Answers and Headers.
-- - Quota (sandbox/quota.go), with Paths and Limits.
-- - Platform (a worker of submission-api/main.go over the handlers of sandbox-orchestrator/main.go),
--   with Rounds, Restores, and Fleet (all workers at once), which has Fresh.
-- - Startup (initDB, main and App.run of the submission API, the leaderboard and the ingester),
--   with Tables (what the schema statements do), Keeps and Mains.
-- - Examples: tests and the theorems at concrete inputs.
--
-- State is passed explicitly, and the host, the database, the broker and remote services are
-- parameters over a world, or inputs that say what each call answers. Handlers that run at once are
-- a step relation whose steps are their locked sections (Orchestrator/Server/Interleaving), and so
-- are the goroutines of the ingester (Ingester/Pipeline) and the workers of the queue
-- (Submission/Pool), whose steps are their transactions and statements. Loops are structural: over
-- the events, rounds or passes that they meet, over the rows of a table, and, in findFreeIPIndex,
-- over the 253 indices from 2 to 254. The loop of a worker takes as many rounds as there are
-- inputs; as many rounds as there are pending jobs are enough to empty the queue.
--
-- Not modelled: what is logged, the limits of pools, servers and clients (connections, timeouts,
-- header sizes), generated protobuf and eBPF loader code, the text of the SQL statements beyond
-- what they do, and the Rust, C and TypeScript parts. SpawnVM has the call of AttachProber
-- commented out, so the handlers' machines have no prober, and the prober and its consumer stand on
-- their own; the size check in init of ebpf_consumer.go is the constant of
-- Orchestrator/LatencyRecord. In Submission/Pool the row locks of the database are taken as
-- PostgreSQL documents them, and in Ingester/Restart the group resumes after a committed offset as
-- Kafka documents it. In Platform a call is always answered, and in Platform/Restores the worker is
-- alone with the orchestrator.
-- Orchestrator/Server/Calls serves one call after the other, and Orchestrator/Host/Lifetime,
-- Orchestrator/Host/Shutdown and Platform/Restores stand on it: calls that overlap are steps of
-- Orchestrator/Server/Interleaving, where what a handler does to the host is not followed. In
-- Ingester the rows are those of the transactions whose Commit has returned no error; what a Commit
-- writes that returns one is not followed. The clsact qdisc and the pin directory that AttachProber
-- makes are not among the resources of Orchestrator/Prober. ServeMux is followed for paths that it
-- does not clean or redirect.
pub mod Prelude
pub mod Orchestrator
pub mod Ingester
pub mod Float64
pub mod Score
pub mod Submission
pub mod Leaderboard
pub mod Http
pub mod Quota
pub mod Platform
pub mod Startup
mod Examples
