-- ===== src/Lib.antt =====
-- kode-bridge is HTTP over local sockets and named pipes. This library models the parts of it that hold
-- state or decide something; `Base` has the shared names, sequences and 64-bit words, `Errors` the error
-- type of the repository (src/errors.rs), and `Bytes` the standard library's functions on bytes.
--
-- Parts, files and source:
-- * `Retry` is `RetryExecutor` of src/retry.rs. `execute_loop` is the loop of `execute`; the
--   answers of the operation are a function of the number of the call. Its fuel is `max_attempts + 1`,
--   since every turn counts an attempt. Floating point and random draws are parameters.
-- * `Breaker` is `CircuitBreaker` of src/retry.rs. A call takes the clock reading before it and after
--   the operation. The count of failures wraps at 2 ^ 64, as in a release build.
-- * `Pool` is src/pool.rs. A step is what a caller does between two points where others may run: the
--   critical sections under the lock of the queue, and the acquisitions and releases of permits. The
--   semaphore is an interface; physical connections are numbers.
-- * `Cache` and `ParserCache` are `ResponseCache` and `HttpParserCache` of src/parser_cache.rs. A hash
--   map is a list of entries in its order of iteration.
-- * `Codec` is `HttpIpcCodec` of src/codec.rs, which the server of src/ipc_http_server.rs reads requests
--   and writes responses with. The crates httparse and http are one parameter.
-- * `Metrics` is src/metrics.rs: the trackers, the collector and the health check. A counter is a
--   number that wraps at 2 ^ 64. An event is what one call does without another in between; a
--   `request_start` is a `starts`, an `inserts` where its method has no counter, and a `throughput_at`.
-- * `HttpClient` is the request builder and the response reader of src/http_client.rs. A stream is the
--   bytes that arrive before its end. The loops over it take fuel of one more than its length, since
--   each turn takes a byte. A chunk of 2 ^ 63 bytes or more panics, as no vector is that long; for any
--   other vector the memory is taken to be enough. `Accessors` is what a caller reads from a response, that of src/response.rs
--   included.
-- * `Server` is src/ipc_http_server.rs: `Router` the routes, `Replies` the response builder,
--   `Connection` the loop of `handle_connection`, and `Accept` the accept loop of `serve` with the tasks
--   that it spawns, as a step relation. What arrives on a connection, what a handler comes to and how a
--   write ends are the turns of a list; the loop takes one turn each round. The crates url and path_tree
--   are one parameter.
-- * `Client` is src/ipc_http_client.rs: `Connections` how a request gets a connection, `Requests` the
--   request builder and its timeouts, `Exchange` one exchange, its rounds under `Retry` and how it is
--   counted, `Sending` a request from its builder to its answer, and `Batch` the batches of PUT requests.
-- * `StreamClient` is src/stream_client.rs and src/ipc_stream_client.rs: `Head` the head of a streamed
--   response, `Lines` what is done with its lines, `Requests` the builder and the connections. An event
--   is what the wait for a line comes to and how long it takes. The loop of `Head` takes fuel of one more
--   than the length of the stream, since each turn takes a byte.
-- * `StreamServer` is src/ipc_stream_server.rs: `Messages` the messages and their bytes, `Source` the task
--   that broadcasts what a source gives, `Delivery` the task of a client, `Registry` the accept loop with
--   the registry of clients, as a step relation.
-- * `Transport` is src/transport. `Unix` is the listener on a Unix socket: commands over a system that
--   is a parameter and in which other processes may act between two calls; the loop of `bind_socket`
--   takes fuel, and two rounds are enough where no other process acts. `Windows` is the paths of named
--   pipes, `Windows/Stream` a stream with its flushes, `Windows/Trust` how a client opens a pipe and
--   checks the process of the server, `Windows/Instances` the listener.
-- * `Config` is src/config.rs: the defaults, the validation, the builder and the environment.
-- * `Wire` puts the two sides together: a request from the builder of `HttpClient` to the decoder of
--   `Codec`, and a response from the encoder of `Codec` to `StreamClient`. What the parsers of httparse
--   make of a head is a hypothesis.
--
-- The pool hands its connections to `Client`, which reads its answers with `HttpClient`, runs under
-- `Retry` and reports to `Metrics`; `Client/Reuse` is about what becomes of a connection after an
-- exchange. `Server` reads and writes with `Codec`, and takes its permits from the same semaphore as
-- `Pool`. The breaker and the caches stand for callers of the library, but for the parsers that
-- `HttpClient` takes from `ParserCache`.
--
-- Instants and durations are numbers of nanoseconds, without an upper bound; `duration_since` stops at 0
-- as in the source.
--
-- Not modelled: the broadcast channel of src/ipc_stream_server.rs, which is that of tokio, the reading and
-- writing of configuration files, accessors that only pass a field on, logging, and the security descriptors of
-- src/transport/windows.rs, which are memory that Windows owns.
mod Base
pub mod Errors
pub mod Retry
pub mod Breaker
pub mod Pool
pub mod Cache
pub mod ParserCache
pub mod Bytes
pub mod Codec
pub mod Metrics
pub mod HttpClient
pub mod Server
pub mod StreamClient
pub mod StreamServer
pub mod Transport
pub mod Config
pub mod Wire
pub mod Client
