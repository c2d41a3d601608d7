-- ===== src/Lib.antt =====
-- A model of the event API: clients hold a connection (a WebSocket or an event stream) and subscribe
-- to event types with conditions; events arrive over NATS and are sent to the connections whose
-- subscriptions they meet.
--
-- The parts, and how they work together. `internal/nats` keeps one registry for the process, which
-- links NATS subjects to the channels of the sessions. Every connection has an `EventMap`
-- (`internal/app/connection/connection.go`), its subscriptions by event type, which links each of
-- them to a subject of the registry. A message of NATS goes through the channel of the session to
-- the loop `Read` of its transport, which hands it to `OnDispatch` of the handler
-- (`internal/app/connection/handle.go`); commands of the client go to the other methods of the
-- handler. The handler writes to the client through the interface `Connection`.
--
-- - Base: strings as bytes, maps as association lists, Boolean tests, counting.
-- - Nats: the registry (`internal/nats/subscription.go`, `message.go`). `subscribe`, `unsubscribe`,
--   `close` and `handle_message` are the methods `Subscribe`, `Unsubscribe`, `Close` and the function
--   `handleMessage`; the writes into the shared array of a slice are written out. Nats.History is a
--   history of calls, next to the set of pairs that it stands for.
-- - Connection.Types: the types of the imported packages and, in `Env`, the functions of theirs that
--   the code calls; `EnvLaws` states what the code relies on.
-- - Connection.Cache, Connection.Buffer: `cache.go` and `buffer.go`.
-- - Connection.EventMap: `EventMap` and `EventChannel`. The child View gives the abstract view, one
--   list of entries for each event type, and the invariant. The child Linking sets the dispatch keys
--   of the entries against the registry, over histories of calls of one event map among those of
--   other sessions; Connection.Handler.Lifting carries what the event map keeps over to the handler,
--   and the Rounds of both transports to their loops.
-- - Connection.Session: the state of a connection with the registry that it is linked to, and the
--   interface `Connection` as a record of operations, with its laws.
-- - Connection.WebSocket, Connection.EventStream: the transports, which fill that record and its
--   laws. Connection.WebSocket.Reading is `websocket_read.go`: both loops of `Read`, with one round of
--   a loop as a step, so that a history is an interleaving of rounds. In the same way
--   Connection.EventStream.Reading is `eventstream_read.go` with `SSE` of `internal/app/v3/v3.go`,
--   whose parsing of the URL is Connection.EventStream.Url. Connection.WebSocket.Flow runs the loops,
--   the registry and the channel together.
-- - Connection.Handler: the commands, and in Dispatching the dispatches, over any `Connection`.
-- - Server: the counters of the live connections (`internal/app/connect.go`), the guards of `Middleware`
--   (`internal/app/server.go`) and the health endpoint (`internal/health/health.go`). Server.Requests is
--   `handleV3` behind the routes (`internal/app/handlers.go`, `routes.go`), Server.Shutdown the loop that
--   ends the server and the end of the process in `cmd/main.go`, over an explicit sequence of events.
--   Server.Writing is what is written to a response. The counters come with the observations of the
--   metrics and with the tick of the statistics, which a greeting reports (Server.Population). The deferred log
--   entry of `Middleware` is modelled up to its panic, with `r.Response` as an input; what net/http
--   then does with the response is not.
-- - Configure: the configuration (`internal/configure/config.go`) with what the connections and `main`
--   read of it, the walk `BindEnvs` over its fields, as a walk over a tree of fields, and the levels of
--   `internal/configure/logging.go`.
-- - Monitoring: the metrics and their registration (`internal/monitoring/prom.go`,
--   `internal/instance/monitoring.go`), over a registerer of prometheus that is a parameter.
--   Server.Startup is `main` of `cmd/main.go` from its first line on, which puts these together; whether
--   `configure.New`, panicwrap, `nats.Init` and `app.New` meet an error is an input.
-- - Redis: the redis channels of the process (`internal/instance/redis.go`) and how a message is handed
--   out to the Go channels that subscribed it. The rest of the program does not use it at present.
-- - Connection.Samples, Connection.Fixtures and the modules Examples: concrete inputs.
--
-- A result `none` of a step is a panic. The registry of a session is the whole process's registry at
-- the time of the step; each method that takes a lock is one step, and so is each round of a loop, a
-- whole `OnDispatch` among them, which takes no lock: what happens inside a round of the other loop, and
-- two goroutines at the set of hashes at once, are not represented. `SendClose` ends the connection at
-- once: at the shutdown of the server it waits for five seconds before `ForceClose`, and what is written
-- in that time is not represented either. The order of a map is the order of
-- its association list. Random numbers, the outcomes of writes, the time, what a socket reads and what
-- a `select` finds ready are inputs. All loops are structural; that of
-- `Nats.scan_subs` counts its rounds, one for each element of the slice, and that of `Redis.fan_out` counts
-- down from the length of the slice.
--
-- Not modelled: what viper, pflag and zap do with the configuration, the mutation of sessions (its
-- handler is commented-out code), the start of the listeners and their log entries, and the process
-- context of `internal/global`, whose methods forward; what the upgrade of a request and the
-- constructors answer is an input of Server.Requests.
pub mod Base
pub mod Configure
pub mod Connection
pub mod Monitoring
pub mod Nats
pub mod Redis
pub mod Server
