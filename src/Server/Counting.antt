-- ===== src/Server/Counting.antt =====
-- internal/app/connect.go: the counters against the number of live connections.
use event_api.Base.{
  Option, none, some, ◌↔◌, ℕ, suc, pos, refl, ap, sym, ◌∙◌, ◌+◌, ◌%◌, ◌≤◌, ◌<◌, ◌≡◌, ◌⊎◌, inl, inr,
  true, false, arith, if◌then◌else◌, leb, Bool-cases, codes, Bytes, bytes_dec, ite,
}
use event_api.Connection.Types.{ApiConfig}
use event_api.Server.{
  Server, Metrics, inc, dec, event_stream, web_socket, new_server, begin, finish, lock, tick_stats,
  log_entry, middleware, status, next, health, minus_one, health, minus_one,
}

-- The states that the server reaches with so many live event streams and WebSockets: connections
-- begin and end in any order, and only a live one ends.
pub data Reach : ℕ → ℕ → Server → Type 0 where
  start : Reach 0 0 new_server
  stream_begins : {e w : ℕ} {s : Server} → Reach e w s → Reach (suc e) w (begin event_stream s)
  socket_begins : {e w : ℕ} {s : Server} → Reach e w s → Reach e (suc w) (begin web_socket s)
  stream_ends : {e w : ℕ} {s : Server} → Reach (suc e) w s → Reach e w (finish event_stream s)
  socket_ends : {e w : ℕ} {s : Server} → Reach e (suc w) s → Reach e w (finish web_socket s)
  ticks : {e w : ℕ} {s : Server} → Reach e w s → Reach e w (tick_stats s)
  locks : {e w : ℕ} {s : Server} → Reach e w s → Reach e w (lock s)

-- Each counter is the number of its live connections, modulo 2 ^ 32, and each gauge of the metrics is
-- that number itself. A connection is observed as one more in the total when it begins and again when
-- it has ended.
pub record Counts (e w : ℕ) (s : Server) : Type 0 where
  pub streams : s.active_event_streams ≡ e % 4294967296
  pub sockets : s.active_web_sockets ≡ w % 4294967296
  pub all : s.active_conns ≡ (e + w) % 4294967296
  pub stream_gauge : s.metrics.current_event_streams ≡ pos e
  pub socket_gauge : s.metrics.current_web_sockets ≡ pos w
  pub gauge : s.metrics.current_connections ≡ pos (e + w)
  pub observed :
      s.metrics.total_connections
      ≡ (e + w)
        + (s.metrics.total_connection_duration_seconds
            + s.metrics.total_connection_duration_seconds)

new_server-Counts : Counts 0 0 new_server
unfolding new_server
new_server-Counts = record {
  streams = omega arith;
  sockets = omega arith;
  all = omega arith;
  stream_gauge = refl;
  socket_gauge = refl;
  gauge = refl;
  observed = refl;
}

one_more : (e w : ℕ) → e + suc w ≡ suc (e + w)
one_more e w = omega arith

one_less : (e w : ℕ) → suc e + w ≡ suc (e + w)
one_less e w = omega arith

module _ {e w : ℕ} {s : Server} where
  begin_stream-Counts : Counts e w s → Counts (suc e) w (begin event_stream s)
  unfolding begin
  begin_stream-Counts c = record {
    streams = omega (arith, c.streams);
    sockets = c.sockets;
    all = omega (arith, c.all);
    stream_gauge = ap inc c.stream_gauge;
    socket_gauge = c.socket_gauge;
    gauge = ap inc c.gauge ∙ ap pos (sym (one_less e w));
    observed = omega (arith, c.observed);
  }

  begin_socket-Counts : Counts e w s → Counts e (suc w) (begin web_socket s)
  unfolding begin
  begin_socket-Counts c = record {
    streams = c.streams;
    sockets = omega (arith, c.sockets);
    all = omega (arith, c.all);
    stream_gauge = c.stream_gauge;
    socket_gauge = ap inc c.socket_gauge;
    gauge = ap inc c.gauge ∙ ap pos (omega arith);
    observed = omega (arith, c.observed);
  }

  finish_stream-Counts : Counts (suc e) w s → Counts e w (finish event_stream s)
  unfolding finish
  finish_stream-Counts c = record {
    streams = omega (arith, c.streams);
    sockets = c.sockets;
    all = omega (arith, c.all);
    stream_gauge = ap dec c.stream_gauge;
    socket_gauge = c.socket_gauge;
    gauge = ap dec (c.gauge ∙ ap pos (one_less e w));
    observed = omega (arith, c.observed);
  }

  finish_socket-Counts : Counts e (suc w) s → Counts e w (finish web_socket s)
  unfolding finish
  finish_socket-Counts c = record {
    streams = c.streams;
    sockets = omega (arith, c.sockets);
    all = omega (arith, c.all);
    stream_gauge = c.stream_gauge;
    socket_gauge = ap dec c.socket_gauge;
    gauge = ap dec (c.gauge ∙ ap pos (one_more e w));
    observed = omega (arith, c.observed);
  }

  -- What changes neither the counters nor the metrics.
  same-Counts :
      (s' : Server)
      → s'.active_event_streams ≡ s.active_event_streams
      → s'.active_web_sockets ≡ s.active_web_sockets
      → s'.active_conns ≡ s.active_conns
      → s'.metrics ≡ s.metrics
      → Counts e w s
      → Counts e w s'
  same-Counts s' a b n m c = record {
    streams = a ∙ c.streams;
    sockets = b ∙ c.sockets;
    all = n ∙ c.all;
    stream_gauge = ap (λ (x : Metrics). x.current_event_streams) m ∙ c.stream_gauge;
    socket_gauge = ap (λ (x : Metrics). x.current_web_sockets) m ∙ c.socket_gauge;
    gauge = ap (λ (x : Metrics). x.current_connections) m ∙ c.gauge;
    observed =
        ap (λ (x : Metrics). x.total_connections) m
        ∙ c.observed
        ∙ ap
            (λ (x : Metrics).
              (e + w) + (x.total_connection_duration_seconds + x.total_connection_duration_seconds))
            (sym m);
  }

-- In every state that the server reaches, each counter is the number of its live connections, and
-- the counter of all is their sum, modulo 2 ^ 32; each gauge of the metrics is the number itself; and
-- the total of the connections has been observed once for each live connection and twice for each
-- that has ended.
pub Reach-Counts : {e w : ℕ} {s : Server} → Reach e w s → Counts e w s
unfolding lock tick_stats
Reach-Counts start = new_server-Counts
Reach-Counts (stream_begins r) = begin_stream-Counts (Reach-Counts r)
Reach-Counts (socket_begins r) = begin_socket-Counts (Reach-Counts r)
Reach-Counts (stream_ends r) = finish_stream-Counts (Reach-Counts r)
Reach-Counts (socket_ends r) = finish_socket-Counts (Reach-Counts r)
Reach-Counts (ticks {e} {w} {s} r) = same-Counts (tick_stats s) refl refl refl refl (Reach-Counts r)
Reach-Counts (locks {e} {w} {s} r) = same-Counts (lock s) refl refl refl refl (Reach-Counts r)

log_entry-nil : (response : Option ℕ) → (log_entry response ≡ true) ↔ (response ≡ none)
unfolding log_entry
log_entry-nil none = (λ h. refl, λ h. refl)
log_entry-nil (some code) = (λ h. cc, λ h. cc)

-- With fewer than 2 ^ 31 live connections and a limit that is not negative, `Middleware` passes a
-- request on exactly if the server is not locked and has fewer live connections than the limit.
-- Otherwise it writes status 423 and its body where the server is locked, and 503 where it is full. In
-- each case it panics afterwards, in its deferred log entry, exactly if `r.Response` is nil.
pub middleware-Reach :
    (cfg : ApiConfig) (limit : ℕ) (response : Option ℕ) {e w : ℕ} {s : Server}
    → cfg.connection_limit ≡ pos limit
    → Reach e w s
    → e + w < 2147483648
    → (((s.locked ≡ true)
          × ((middleware cfg response s).does
              ≡ status 423 (codes "This server is going down for restart!")))
        ⊎ ((s.locked ≡ false)
            × (limit ≤ e + w)
            × ((middleware cfg response s).does ≡ status 503 (codes "This server is full!")))
        ⊎ ((s.locked ≡ false) × (e + w < limit) × ((middleware cfg response s).does ≡ next)))
      × (((middleware cfg response s).panics ≡ true) ↔ (response ≡ none))
unfolding middleware
middleware-Reach cfg limit response {e} {w} {s} limited r few =
    let c = Reach-Counts r in
    let same : s.active_conns ≡ e + w = omega (arith, c.all, few) in
    (
      elim (Bool-cases s.locked) [
        | inl shut ↦ inl (shut, ground arith)
        | inr serving ↦ elim (Bool-cases (leb limit (e + w))) [
          | inl full ↦ inr (inl (serving, ground arith, ground arith))
          | inr room ↦ inr (inr (serving, ground arith, ground arith))
        ]
      ],
      log_entry-nil response,
    )

-- The health endpoint reports 410 for `/concurrency` from one live connection below a positive limit
-- on, and 200 before; any other request with GET gets 200.
pub health-Reach :
    (cfg : ApiConfig) (limit : ℕ) {e w : ℕ} {s : Server} (path : Bytes)
    → cfg.connection_limit ≡ pos (suc limit)
    → Reach e w s
    → e + w < 2147483648
    → health cfg true path s
      ≡ ite (bytes_dec path (codes "/concurrency")) (if leb limit (e + w) then 410 else 200) 200
unfolding health minus_one
health-Reach cfg limit {e} {w} {s} path limited r few =
    let c = Reach-Counts r in
    let same : s.active_conns ≡ e + w = omega (arith, c.all, few) in ground (arith, same)
