-- ===== src/Server/Population.antt =====
-- internal/app/server.go, internal/app/connection/websocket: the population that a greeting names.
use event_api.Base.{
  ℕ, ◌+◌, ◌%◌, ◌<◌, ◌≡◌, refl, [], ◌∷◌, ◌++◌, true, false, none, arith, ap, ◌∙◌, suc,
}
use event_api.Connection.Types.{Env, Message, Opcode, hello_payload}
use event_api.Connection.Session.{Session, json}
use event_api.Connection.WebSocket.{greet, write}
use event_api.Server.{
  Server, event_stream, web_socket, new_server, begin, finish, lock, tick_stats, greet_from,
}
use event_api.Server.Counting.{
  Reach, Reach-Counts, start, stream_begins, socket_begins, stream_ends, socket_ends, ticks, locks,
}

-- The states that the server reaches with so many live event streams and WebSockets, and with so many
-- connections that were live when the statistics ticked last, none before the first tick.
pub data Since : ℕ → ℕ → ℕ → Server → Type 0 where
  started : Since 0 0 0 new_server
  stream_began : {n e w : ℕ} {s : Server} → Since n e w s → Since n (suc e) w (begin event_stream s)
  socket_began : {n e w : ℕ} {s : Server} → Since n e w s → Since n e (suc w) (begin web_socket s)
  stream_ended :
      {n e w : ℕ} {s : Server} → Since n (suc e) w s → Since n e w (finish event_stream s)
  socket_ended : {n e w : ℕ} {s : Server} → Since n e (suc w) s → Since n e w (finish web_socket s)
  ticked : {n e w : ℕ} {s : Server} → Since n e w s → Since (e + w) e w (tick_stats s)
  locked : {n e w : ℕ} {s : Server} → Since n e w s → Since n e w (lock s)

Since-Reach : {n e w : ℕ} {s : Server} → Since n e w s → Reach e w s
Since-Reach started = start
Since-Reach (stream_began r) = stream_begins (Since-Reach r)
Since-Reach (socket_began r) = socket_begins (Since-Reach r)
Since-Reach (stream_ended r) = stream_ends (Since-Reach r)
Since-Reach (socket_ended r) = socket_ends (Since-Reach r)
Since-Reach (ticked r) = ticks (Since-Reach r)
Since-Reach (locked r) = locks (Since-Reach r)

-- What a greeting reads is the number at the last tick.
Since-concurrency_value :
    {n e w : ℕ} {s : Server} → Since n e w s → s.concurrency_value ≡ n % 4294967296
unfolding new_server begin finish tick_stats lock
Since-concurrency_value started = omega arith
Since-concurrency_value (stream_began r) = Since-concurrency_value r
Since-concurrency_value (socket_began r) = Since-concurrency_value r
Since-concurrency_value (stream_ended r) = Since-concurrency_value r
Since-concurrency_value (socket_ended r) = Since-concurrency_value r
Since-concurrency_value (ticked r) = (Reach-Counts (Since-Reach r)).all
Since-concurrency_value (locked r) = Since-concurrency_value r

module _ {S : Type 0} (env : Env S) (s : Session S) where
  abbrev pub hello_message : ℕ → Message
  hello_message population = record {
    op = Opcode.hello;
    command = none;
    content = hello_payload s.heartbeat_interval s.session_id s.subscription_limit population;
  }

  greet-sent :
      (population : ℕ)
      → s.done ≡ false
      → env.write_ok s.attempts ≡ true
      → (greet env population s).0.sent ≡ s.sent ++ json (hello_message population) ∷ []
  unfolding greet write
  greet-sent population live ok = rw live (rw ok refl)

  -- Whatever connections have begun and ended since, the greeting of a live WebSocket, whose write
  -- succeeds, names the session, its interval and limit, and as the population the number of
  -- connections that were live at the last tick of the statistics, where these were fewer than 2 ^ 31,
  -- or 0 before the first tick.
  pub greet_from-Since :
      {n e w : ℕ} {srv : Server}
      → Since n e w srv
      → n < 2147483648
      → s.done ≡ false
      → env.write_ok s.attempts ≡ true
      → (greet_from env srv s).0.sent ≡ s.sent ++ json (hello_message n) ∷ []
  unfolding greet_from
  greet_from-Since {n} {e} {w} {srv} r few live ok =
      let same : srv.concurrency_value ≡ n = omega (arith, Since-concurrency_value r, few) in
      greet-sent srv.concurrency_value live ok
      ∙ ap (λ k. s.sent ++ json (hello_message k) ∷ []) same
