-- ===== src/Lib.antt =====
-- Verification library of canticle (mxlrcgo-svc), a service that finds lyrics for a music library.
--
-- The program scans libraries into a work queue. A worker takes one row at a time, looks in its cache
-- and asks the orchestrator for lyrics, which dispatches the lookup over provider lanes. A lane is a
-- provider behind a circuit breaker; a provider paces its own requests, and the lane tells it of
-- throttles and successes. The outcome class of an error decides what becomes of a lane's breaker,
-- what the dispatch returns, and what the worker reports to the queue. A web front end guards its
-- login by a rate limiter.
--
-- Parts, each with the file that models it:
-- - Common (Tests, Lists, Int, Assoc): Boolean tests on the native numbers, lists, Go's int64 with
--   its wrap-around, and maps as association lists. It models no file.
-- - Backoff: internal/backoff/backoff.go. geometric is Geometric, miss_cooldown is MissCooldown. The
--   loop runs at most as many rounds as there are attempts, so it is recursion on the rounds left.
-- - Circuit: internal/circuit/breaker.go. Breaker is the state under the mutex, and each method is
--   a function from it; the clock is an argument. step and run compose the methods.
-- - Limiter: internal/web/ratelimit.go. LoginLimiter with allow, fail and success, and the
--   evictions. A method that reads the clock more than once gets a record of readings.
-- - Pacer: the pacing in internal/musixmatch/client.go. pace is split at the point where it drops
--   the lock: reserve takes a slot, cancel gives it back. Pacer.Spacing interleaves concurrent calls as
--   a list of events. An interval is an int64 and its product with the level's power wraps.
-- - Queue: internal/queue/queue.go and priority.go. Fifo is InputsQueue. The durable queue is a store
--   of tables, and a statement or a transaction is a function from it: Enqueue (Enqueue, Cleanup), Claim
--   (Dequeue), Results (Complete, Release, Fail, Defer, RetireMiss), Recheck (RecheckDeferred,
--   RecheckRetired, Retry, ClearDone), Cancel (CancelByLibrary), Counters (RecordProviderHit and its
--   like). Stamps (SetProviderLane, SetInstrumentalResult,
--   SetOutcomeType, ResetInstrumental), Listing (List and the counts). Calls composes them; Effects,
--   Steps, TableSteps and StampSteps are what any call does to the rows, and Lookup what a lookup
--   finds afterwards. NormalizeKey of internal/normalize stands on a
--   Unicode library, and is a parameter; the draws of RANDOM() are a function of the row's id.
-- - Cache: internal/cache/cache.go, a table of lyrics by normalised key and bucket of length.
-- - Normalize: DurationBucket of internal/normalize/normalize.go, and resolve_artist.go.
-- - Worker: internal/worker/worker.go. Settings is the setters, Services what a round works on and what
--   it has from the outside, Song is song, Reports and Misses the branches of RunOnce that report to
--   the queue, Once is RunOnce, and Loop is run. The worker calls the modelled queue, cache and
--   orchestrator. A call that may fail has its failure as an input, and so have the clock, the
--   detector, the verifier, the file writer and the JSON codec. Wiring states what the setters keep,
--   Calls, Settles, Verdicts and Written what a round does to the row that it claims, and Loop.Idle what
--   the loop leaves of the queue.
-- - Models: internal/models/models.go, the records that the parts share.
-- - Errors: the sentinels of internal/musixmatch/client.go, wrapping and errors.Is, and the classes
--   of internal/orchestrator/errors.go.
-- - Orchestrator: internal/orchestrator. Suitability is suitability.go, Lane is lane.go, Dispatch,
--   Ordered and Mode are orchestrator.go, and Parallel is parallel.go. The provider's reply and the context's
--   Err() are inputs of a call. In parallel mode the goroutines and the timer are a list of arrivals,
--   in the order in which the collector's select takes them.
--
-- - Scan: internal/scan/enqueuer.go, with SetStatus and ListPendingByLibrary of repository.go. The
--   enqueuer turns a library's pending results into work; it calls the modelled cache and queue. Linked,
--   Fates and Pending state what it leaves.
-- - Lyrics: internal/lyrics/writer.go and slugify.go. Name is SidecarName and Slugify, Content the text
--   of a file, and Lyrics itself WriteLRC over a file system that is a map from paths to texts. Written
--   and Stale state what a write leaves, Derived what names it derives.
-- - Paths: what internal/scan and internal/lyrics call of Go's path/filepath on Unix. It models no
--   file.
-- - Trustnet: internal/trustnet/trustnet.go. An address is any type and a network a test on it, and the
--   parsing by Go's net is a parameter. Spoofing states what a client can forge.
--
-- A run is finite because its list of calls, lanes, arrivals or rounds is. The only definitions with
-- fuel are geometric_loop, with as many rounds as there are attempts, and decimal, with one more than
-- the number, which has fewer digits. A float64 is the integer of its bit pattern, which is ordered as
-- the floats are.
--
-- Not modelled: of the work queue, the listing of instrumental rows for a reconcile; the Jaro-Winkler
-- score and NormalizeKey; the scanner and the scheduler of the scans; the confinement of the lyrics
-- files to a root, and their parser; the configuration; HTTP, SQL and external processes; logging, and
-- the template code.
pub mod Common
pub mod Backoff
pub mod Circuit
pub mod Limiter
pub mod Pacer
pub mod Models
pub mod Errors
pub mod Normalize
pub mod Paths
pub mod Cache
pub mod Orchestrator
pub mod Queue
pub mod Worker
pub mod Scan
pub mod Lyrics
pub mod Trustnet
