-- ===== src/Lib.antt =====
-- The data plane of the model gateway: a Go service under dataplane/ that authenticates requests for
-- language models, applies limits, budgets and policy, and routes them to deployments.
--
-- The parts and the files that model them. Paths are from the root of the repository.
--   Core/Errors      dataplane/internal/core/errors.go: codes, errors, wrapping. A Go result
--                    `(value, error)` is `Result`, with `ok` or `err`.
--   Core/Trust, Core/Budget, Core/Catalog, Core/Identity, Core/Guardrail, Core/Ports
--                    the files of those names in dataplane/internal/core (guardrails are in ports.go).
--   Core/Snapshot    core/snapshot.go: NewGlobalLayer, NewTenantLayer, Compose, the With functions.
--                    Each loop of the source is one function on its list. Its children hold the
--                    lookups (Lookups) and the proofs (Catalogue, Aliases, Tenancy, Access).
--   Holder           dataplane/internal/snapshot/holder.go: the snapshot that is served. Generations
--                    stand in a heap, and a run is a list of events, in which the load and the
--                    compare-and-swap of Acquire are apart: `takes g` tries a generation g that may
--                    have been displaced since it was loaded.
--                    Holder/Subscriber is subscriber.go, which polls a source and swaps in what it gets.
--   Policy           dataplane/internal/policy: Evaluate, Decode and Cache.For, whose two critical
--                    sections are apart; `later` is what other calls did to the cache in between.
--   Guardrails       dataplane/internal/guardrails/chain.go: Run with its loop's body (visit),
--                    evaluate, and dispatch, which queues an evaluation off the request path;
--                    finish_off_path is the end of its goroutine.
--   Limits           dataplane/internal/limits: Bucket, the lease arithmetic (Lease), and Limiter,
--                    whose operations take the limiter, the store and the clock's readings, and
--                    return the next limiter and store. take_permit is Limiter.take by a goroutine
--                    that no other comes between; Limiter/Racing has its critical sections apart.
--   MemKv            dataplane/internal/adapters/memkv: the in-process store. It fills the interface
--                    KvStore of Core/Ports and its laws, which the proofs about Limits take.
--   Router/Breaker   dataplane/internal/router/breaker.go: the circuit breaker of a deployment.
--   Router/Selection, Router/Health, Router/Floats
--                    router/router.go, Select, and router/health.go. A `Reach` says which guard of
--                    Select's loop stopped a deployment; floats are an interface.
--   Router/Execution router/router.go, Execute: `turn` is the body of its loop and `rounds` the loop.
--   Router/Prober    router/prober.go: which deployments are idle, and what a probe reports.
--   Pii              dataplane/internal/pii: detect.go, transform.go but for the vault (Transform), and
--                    the restorer of stream.go (Stream).
--   Shadow           dataplane/internal/shadow/shadow.go: the mirror's sampling, queue and workers.
--   Gateway          dataplane/internal/gateway/pipeline.go: the request, the services, and the log of
--                    what was done. Its children are the stages (Stages), protect (Protect), the
--                    records for telemetry (Reporting, with audit.go), adapt and Handle (Handling),
--                    HandleStream and Finish (Streaming), ShadowCall (Shadowing), and the proofs
--                    (Ledger, Accounting, Streams, Masking, Sending, Floors,
--                    Shadows, Staleness). Handle and HandleStream are chains of functions, one from
--                    each stage on, as each stage may end the call.
--   Common           tests on numbers, lists, maps, int64 arithmetic, decimal notation.
--
-- How they interact: a request leases a snapshot from the holder, finds its principal in it, is
-- checked against its model list, the tenant's policy and the principal's budgets, is admitted by the
-- limiter, which leases permits from the store, passes the tenant's guardrails, and is tried on the
-- deployments that Select returns, as their breakers allow, with a body masked for each of them.
--
-- Representation. Numbers are natural numbers where the source's type has no sign or the value is
-- never negative; money and counters are integers in which every operation wraps to 64 bits. Instants
-- count nanoseconds since the zero time. Maps are association lists, iterated in the order of the
-- list. A function that reads the clock takes each reading as an argument. Methods that hold a mutex
-- are single steps. Loops are structural recursions on the list that they range over, and no function
-- here needs fuel but the printing of a number, where the number bounds its digits: Acquire's loop is
-- modelled by its rounds, and its theorem says that one round is enough where nothing comes between
-- the load and the reference; and what workers do until Mirror.Wait returns is a schedule of steps,
-- which its theorem bounds.
--
-- Parameters: the store of Limits (the source's interface KVStore), net/netip's addresses and blocks,
-- the protobuf decoder of a policy, the guardrails, whose n-th answer may be any, floating point
-- numbers, the spans that regular expressions find, the HMACs, and what the pipeline calls through
-- interfaces: the providers, the credentials, the NER detector, the vault and the limiter, which answer
-- anything and change a world of their own. Of the store alone is anything assumed, by the laws of
-- Core/Ports; one theorem on the order of scores assumes laws of the comparison of floats.
--
-- Not modelled: the vault of PII handling, and admission control; in the pipeline, spans, logging and durations; the adapters of outside services, HTTP,
-- telemetry, configuration and generated code, which are input and output; the control plane, which is
-- another program.
pub mod Common
pub mod Core
pub mod Router
pub mod MemKv
pub mod Limits
pub mod Guardrails
pub mod Pii
pub mod Gateway
pub mod Shadow
pub mod Policy
pub mod Holder
