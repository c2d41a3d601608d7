-- ===== src/Server.antt =====
-- internal/app/connect.go, the guards of `Middleware` in internal/app/server.go, and
-- internal/health/health.go: the counters of the live connections and what is admitted by them.
-- A counter is the bit pattern of an int32.
pub mod Counting
pub mod Population
pub mod Writing
pub mod Requests
pub mod Admission
pub mod Shutdown
pub mod Ending
pub mod Graceful
pub mod Startup
mod Examples
use event_api.Base.{
  Option, none, some, ℕ, zero, suc, ℤ, pos, negsuc, ◌+◌, ◌-◌, ◌%◌, ◌^◌, Bool, true, false,
  if◌then◌else◌, ltb, ◌==◌, at_least, ◌&&◌, ◌||◌, not, Bytes, codes, bytes_dec, ite, List, [], ◌∷◌,
}
use event_api.Connection.Types.{ApiConfig, Env}
use event_api.Connection.Session.{Session}
use event_api.Connection.WebSocket.{greet}

-- `Transport`
pub data Transport : Type 0 where
  event_stream web_socket : Transport

-- `EventV3` of the monitoring, what `TrackConnection` and the statistics change of it: a gauge is its
-- value, a histogram the number of its observations.
pub record Metrics : Type 0 where
  pub total_connections : ℕ
  pub total_connection_duration_seconds : ℕ
  pub current_connections : ℤ
  pub current_event_streams : ℤ
  pub current_web_sockets : ℤ

-- `Server`, the fields that change, with the metrics and `ConcurrencyValue` of its instances.
pub record Server : Type 0 where
  pub locked : Bool
  pub active_conns : ℕ
  pub active_event_streams : ℕ
  pub active_web_sockets : ℕ
  pub concurrency_value : ℕ
  pub metrics : Metrics

-- `Inc` and `Dec` of a gauge.
abbrev pub inc : ℤ → ℤ
inc (pos n) = pos (suc n)
inc (negsuc zero) = pos 0
inc (negsuc (suc n)) = negsuc n

abbrev pub dec : ℤ → ℤ
dec (pos zero) = negsuc 0
dec (pos (suc n)) = pos n
dec (negsuc n) = negsuc (suc n)

-- The metrics of `TrackConnection` when a connection begins, and when it has ended.
abbrev pub count_begin : Transport → Metrics → Metrics
count_begin event_stream m = record m {
  current_event_streams = inc m.current_event_streams;
  current_connections = inc m.current_connections;
  total_connections = suc m.total_connections;
}
count_begin web_socket m = record m {
  current_web_sockets = inc m.current_web_sockets;
  current_connections = inc m.current_connections;
  total_connections = suc m.total_connections;
}

abbrev pub count_end : Transport → Metrics → Metrics
count_end event_stream m = record m {
  current_connections = dec m.current_connections;
  total_connections = suc m.total_connections;
  total_connection_duration_seconds = suc m.total_connection_duration_seconds;
  current_event_streams = dec m.current_event_streams;
}
count_end web_socket m = record m {
  current_connections = dec m.current_connections;
  total_connections = suc m.total_connections;
  total_connection_duration_seconds = suc m.total_connection_duration_seconds;
  current_web_sockets = dec m.current_web_sockets;
}

-- `atomic.AddInt32(p, 1)` and `atomic.AddInt32(p, -1)`
abbrev pub up : ℕ → ℕ
up n = (n + 1) % 4294967296

abbrev pub down : ℕ → ℕ
down n = (n + 4294967295) % 4294967296

-- `n >= limit` of two int32.
abbrev pub int32_at_least : ℕ → ℤ → Bool
int32_at_least n (pos m) = if ltb n 2147483648 then at_least n (pos m) else false
int32_at_least n (negsuc m) = if ltb n 2147483648 then true else ltb (4294967295 - n) (suc m)

-- The counters of `New`.
unfoldable pub new_server : Server
new_server = record {
  locked = false;
  active_conns = 0;
  active_event_streams = 0;
  active_web_sockets = 0;
  concurrency_value = 0;
  metrics = record {
    total_connections = 0;
    total_connection_duration_seconds = 0;
    current_connections = pos 0;
    current_event_streams = pos 0;
    current_web_sockets = pos 0;
  };
}

-- `TrackConnection` once the connection is ready.
unfoldable pub begin : Transport → Server → Server
begin event_stream s = record s {
  active_conns = up s.active_conns;
  active_event_streams = up s.active_event_streams;
  metrics = count_begin event_stream s.metrics;
}
begin web_socket s = record s {
  active_conns = up s.active_conns;
  active_web_sockets = up s.active_web_sockets;
  metrics = count_begin web_socket s.metrics;
}

-- `TrackConnection` after the end of the connection, its deferred function included.
unfoldable pub finish : Transport → Server → Server
finish event_stream s = record s {
  active_conns = down s.active_conns;
  active_event_streams = down s.active_event_streams;
  metrics = count_end event_stream s.metrics;
}
finish web_socket s = record s {
  active_conns = down s.active_conns;
  active_web_sockets = down s.active_web_sockets;
  metrics = count_end web_socket s.metrics;
}

-- A tick of the statistics of `New`: `ConcurrencyValue` is what a greeting calls the population.
unfoldable pub tick_stats : Server → Server
tick_stats s = record s { concurrency_value = s.active_conns }

-- `Greet` of a WebSocket, which reads `gctx.Inst().ConcurrencyValue`.
unfoldable pub greet_from : {S : Type 0} → Env S → Server → Session S → Session S × Bool
unfolding greet
greet_from env srv s = greet env srv.concurrency_value s

-- The shutdown of `New`: `srv.locked = true`.
unfoldable pub lock : Server → Server
lock s = record s { locked = true }

-- A status with a body, or the next handler.
pub data Response : Type 0 where
  status : ℕ → Bytes → Response
  next : Response

-- What `Middleware` does for a request: what it writes or calls, and whether its deferred log entry
-- panics afterwards.
pub record Passage : Type 0 where
  pub does : Response
  pub panics : Bool

-- The deferred function: it reads `r.Response.StatusCode`, and panics where `r.Response` is nil.
unfoldable pub log_entry : Option ℕ → Bool
log_entry none = true
log_entry (some code) = false

-- `Middleware`, but for the header `X-Pod-Name`. The status of `r.Response`, if there is one, is an
-- input.
unfoldable pub middleware : ApiConfig → Option ℕ → Server → Passage
unfolding log_entry
middleware cfg response s = record {
  does =
      if s.locked
      then status 423 (codes "This server is going down for restart!")
      else if int32_at_least s.active_conns cfg.connection_limit
      then status 503 (codes "This server is full!")
      else next;
  panics = log_entry response;
}

-- `ConnectionLimit-1` of an int32.
unfoldable pub minus_one : ℤ → ℤ
minus_one (pos zero) = negsuc 0
minus_one (pos (suc n)) = pos n
minus_one (negsuc n) = if n == 2147483647 then pos 2147483647 else negsuc (suc n)

-- The health endpoint: the status that it answers, where `srv` is there.
unfoldable pub health : ApiConfig → Bool → Bytes → Server → ℕ
unfolding minus_one
health cfg is_get path s =
    if not is_get
      || (ite (bytes_dec path (codes "/concurrency")) true false
          && int32_at_least s.active_conns (minus_one cfg.connection_limit))
    then 410
    else 200
