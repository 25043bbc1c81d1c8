-- ===== src/Lib.antt =====
-- A model of logateway, an HTTP log gateway: requests are authenticated, their messages dispatched to
-- the sinks of a project, and messages that a sink cannot take go to a write-ahead log (WAL), from
-- which they are replayed.
--
-- Parts, and how they interact:
--   Auth       internal/auth/auth.go: Middleware.Handler (handle), consumeNonce (consume_nonce), the
--              int64 arithmetic of the timestamp window (in_window), verifyHMAC; staticKeyStore of
--              internal/server/server.go.
--   Dispatch   internal/project/dispatcher.go: dispatchImpl (dispatch_impl) copies a message to every
--              worker pool of its project, after the project's pipeline; ReplayBackoff
--              (replay_backoff); the callback of internal/server/server.go that replays one WAL
--              entry (replay_entry). Setup is Initialize (initialize): from the references of a
--              project to its sinks and worker pools.
--   Pipeline   internal/pipeline: the processors and the chain (process, process_chain).
--   Sink       internal/sink/worker.go: Circuit is the circuit breaker with its recovery goroutine,
--              Pool the queue, the attempts, the fallback to the WAL; Registry, Settings, Redis and
--              Kafka are the factories of internal/sink and what they make of their settings.
--   Wal        internal/wal/wal.go: Name is the names of segments, Disk the directory and the files
--              and buffers over it, Segments the scans of the directory, Entry the entries and
--              encoding/json, Writer and Open the Writer, Scan and Replay the replay, Reader is
--              ReadAll; Log is the contract of all of it, a log of entries per segment.
--   Message    internal/message/message.go with the conversions to and from WAL entries.
--   Config     internal/config/config.go: the records, applyDefaults, GetProject; Reload is load with
--              its callbacks and the loop of watchLoop.
--   RateLimit  internal/ratelimit/ratelimit.go: the limiter of the gateway and those of the projects.
--   Server     internal/server: Middleware, Upload and Route are the upload route with its middlewares
--              in the order of buildRouter (serve), from the request to the message that is handed
--              over; Setup is New with initWAL and resolveBackpressure (new_gateway); Delivery is a
--              request with the task that dispatches its message (upload).
--   Observability  internal/observability/observability.go: the health checker and its endpoints.
--   Logging    internal/logging: the writer of a log file that changes at midnight (write), over the
--              files and buffers of Wal.Disk, and the filter by level (filter_write).
--   Prelude    what the parts share; Tests runs the theorems at concrete inputs.
--
-- State and steps. A method that runs under a mutex is a function from the state before to the state
-- after with what it returns. Every call of the operating system, of a sink or of a clock has its
-- outcome as an argument (Faults, SegmentFaults, Attempts), so a theorem over all of them covers every
-- failure. Goroutines are sequences of such steps (Circuit.run, Accounts.run). A panic is a result of
-- its own. A string is the list of its bytes.
--
-- Code that is not here is a parameter: encoding/json (Codec with its laws IsCodec; Json), HMAC-SHA256
-- (Mac), the WAL writer as the pools see it (write_message), golang.org/x/time/rate (Limiters with the
-- laws IsLimiters), time.Duration's text and float64 (Formats with the laws IsFormats), strings.ToLower
-- and strings.EqualFold.
--
-- Bounds and fuel: int and int64 have 64 bits; where the source computes with them close to the
-- bounds (segment numbers, the timestamp window, the duration of a nonce, the sequence number) the
-- wrap-around is written out, and sizes of files and counters of failures are natural numbers. The
-- digits of a number take 20 rounds, which is enough for 64 bits; the loop of consumeNonce that makes
-- room takes as many rounds as the cache has entries, and each removes one.
--
-- Not modelled: gin and the goroutine pool, whose outcomes are arguments; the shutdown of the server;
-- the clients of Redis and Kafka behind their settings; fsnotify; metrics, which only
-- write out; GetPoolStatus; the sample client; a nil message; the panic of a send that races with the
-- closing of a channel; the rounding of float64 in CanAcceptReplay.
pub mod Prelude
pub mod Wal
pub mod Config
pub mod Auth
pub mod Message
pub mod Sink
pub mod RateLimit
pub mod Server
pub mod Observability
pub mod Logging
pub mod Pipeline
pub mod Tests
pub mod Dispatch
