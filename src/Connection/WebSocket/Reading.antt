-- ===== src/Connection/WebSocket/Reading.antt =====
-- internal/app/connection/websocket/websocket_read.go: the two loops of a WebSocket. `Read` is the
-- loop of the server; the goroutine that it starts is the loop of the client's messages. A step is
-- one round of one of the loops, so that a history is any interleaving of rounds. `none` is a panic. The
-- code holds no lock for a round: what the other loop does inside one is not represented, nor are two
-- writes of the set of hashes at once, which the Go map of `cache.go` does not stand.
-- What a `select` finds ready, what the socket reads, the time and whether the throttle lets a call
-- through are inputs of a step. The event buffer is never set, so the wait for it is left out.
use Prim.Native.String.{String}
use event_api.Base.{
  ℕ, List, [], ◌∷◌, Option, none, some, Bool, true, false, Bytes, codes, if◌then◌else◌, not,
}
use event_api.Connection.Types.{
  Env, ApiConfig, CloseCode, RawMessage, Message, Opcode, reconnect_payload,
}
use event_api.Connection.Session.{Session, subscribe_events}
use event_api.Connection.Handler
use event_api.Connection.Handler.{Reply, failed, refused, accepted}
use event_api.Connection.Handler.Dispatching.{on_dispatch, on_bridge, fire_timer}
use event_api.Connection.WebSocket.{
  connection, destroy, greet, set_ready, send_close, send_error, send_heartbeat, write,
}

-- How far a loop has come.
pub data Phase : Type 0 where
  waiting running over : Phase

-- The state of `Read`: the session, the two loops, and the flag `deferred`.
pub record Loop (S : Type 0) : Type 0 where
  pub session : Session S
  pub server : Phase
  pub client : Phase
  pub deferred : Bool

-- What `ReadJSON` gives: a close error, any other error with its text, or a message.
pub data Input : Type 0 where
  closed : ℕ → Input
  unreadable : String → Input
  received : RawMessage → Input

-- The cases of the server's `select`; a dispatch is `none` when its channel is closed.
pub data Signal : Type 0 where
  ended stopping ttl_over heartbeat_due : Signal
  dispatched : Option Bytes → Signal

-- One round of one of the goroutines of a connection.
pub data Action : Type 0 where
  greeting : ℕ → Action
  serve : ℕ → Signal → Action
  start_reading : Bytes → Action
  read : ℕ → Bool → Input → Action
  fire : ℕ → Action
  shutting_down : Action

-- `IsClientSentOp`
unfoldable pub is_client_sent_op : Opcode → Bool
is_client_sent_op Opcode.heartbeat = true
is_client_sent_op Opcode.identify = true
is_client_sent_op Opcode.resume = true
is_client_sent_op Opcode.subscribe = true
is_client_sent_op Opcode.unsubscribe = true
is_client_sent_op Opcode.signal = true
is_client_sent_op Opcode.bridge = true
is_client_sent_op _ = false

-- Whether the loop goes on after a handler: it stops at an error.
abbrev pub goes_on : Reply → Bool
goes_on failed = false
goes_on refused = true
goes_on accepted = true

abbrev pub reply_to : {S : Type 0} → Option (Session S × Reply) → Option (Session S × Bool)
reply_to none = none
reply_to (some (s, r)) = some (s, goes_on r)

-- The error of a throttled call does not end the loop: the next read overwrites it.
abbrev pub throttled : {S : Type 0} → Option (Session S × Reply) → Option (Session S × Bool)
throttled none = none
throttled (some (s, r)) = some (s, true)

module _ {S : Type 0} (env : Env S) (cfg : ApiConfig) where
  -- The switch on the opcode.
  unfoldable pub handle_command :
      ℕ → Bool → Opcode → RawMessage → Session S → Option (Session S × Bool)
  handle_command now runs Opcode.resume m s =
      let (s', r) = Handler.on_resume env cfg (connection env) m s in some (s', goes_on r)
  handle_command now runs Opcode.subscribe m s =
      reply_to (Handler.subscribe env cfg (connection env) m s)
  handle_command now runs Opcode.unsubscribe m s =
      reply_to (Handler.unsubscribe env cfg (connection env) m s)
  handle_command now runs Opcode.bridge m s =
      if runs then throttled (on_bridge env (connection env) now m s) else some (s, true)
  handle_command now runs _ m s = some (s, true)

  -- One round of the client's loop: whether there is another.
  unfoldable pub read_input : ℕ → Bool → Input → Session S → Option (Session S × Bool)
  unfolding is_client_sent_op handle_command
  read_input now runs (closed code) s = some (s, false)
  read_input now runs (unreadable txt) s =
      some (send_close env CloseCode.invalid_payload (send_error env txt [] s), false)
  read_input now runs (received m) s =
      if not (is_client_sent_op m.op)
      then some (send_close env CloseCode.unknown_operation s, false)
      else handle_command now runs m.op m s

  -- The start of the client's loop, once the connection is ready; `whisper` is
  -- `events.EventTypeWhisper`. An error of the subscription is only logged.
  unfoldable pub start_client : Bytes → Loop S → Option (Loop S)
  start_client whisper l =
      if l.session.done
      then some (record l { client = over })
      else elim (subscribe_events env whisper ((codes "session_id", l.session.session_id) ∷ [])
          (record { ttl = none; auto = true }) l.session) [
            | none ↦ none
            | some (s, o) ↦ some (record l { session = s; client = running })
          ]

  -- The end of the client's loop: its deferred function.
  abbrev pub end_client : Loop S → Loop S
  end_client l = record l { session = destroy env l.session; client = over; deferred = true }

  unfoldable pub client_step : ℕ → Bool → Input → Loop S → Option (Loop S)
  unfolding read_input
  client_step now runs i l = elim (read_input now runs i l.session) [
    | none ↦ none
    | some (s, more) ↦
        some (if more then record l { session = s } else end_client (record l { session = s }))
  ]

  -- The end of `Read`: its deferred function.
  abbrev pub end_server : Loop S → Session S → Loop S
  end_server l s = record l { session = destroy env s; server = over }

  -- The start of the server's loop: the greeting.
  unfoldable pub start_server : ℕ → Loop S → Loop S
  start_server population l =
      let (s, ok) = greet env population l.session in
      if ok then record l { session = set_ready env s; server = running } else end_server l s

  -- A message of the dispatch channel.
  unfoldable pub receive : ℕ → Bytes → Loop S → Option (Loop S)
  receive now raw l = elim (env.unmarshal_dispatch raw) [
    | none ↦ some l
    | some p ↦ elim (on_dispatch env (connection env) now p l.session) [
      | none ↦ none
      | some s ↦ some (record l { session = s })
    ]
  ]

  -- One round of the server's loop.
  unfoldable pub server_step : ℕ → Signal → Loop S → Option (Loop S)
  unfolding receive
  server_step now ended l = some (end_server l l.session)
  server_step now stopping l = some (end_server l (send_close env CloseCode.restart l.session))
  server_step now ttl_over l =
      let m : Message = record {
        op = Opcode.reconnect;
        command = none;
        content = reconnect_payload "The server requested a reconnect";
      } in
      some (end_server l (send_close env CloseCode.reconnect (write env m l.session).0))
  server_step now heartbeat_due l =
      if l.deferred
      then some l
      else let (s, ok) = send_heartbeat env l.session in
        some (if ok then record l { session = s } else end_server l s)
  server_step now (dispatched none) l = some (end_server l l.session)
  server_step now (dispatched (some raw)) l = receive now raw l

  -- The goroutine of `TrackConnection`, at the shutdown of the server.
  unfoldable pub shut_down : Loop S → Loop S
  shut_down l = record l { session = send_close env CloseCode.restart l.session }

  -- The goroutine of a timer.
  unfoldable pub timer_step : ℕ → Loop S → Option (Loop S)
  timer_step id l = elim (fire_timer env id l.session) [
    | none ↦ none
    | some s ↦ some (record l { session = s })
  ]

  -- A round of any of the goroutines.
  unfoldable pub perform : Action → Loop S → Option (Loop S)
  unfolding start_server server_step start_client client_step timer_step shut_down
  perform (greeting population) l = some (start_server population l)
  perform (serve now x) l = server_step now x l
  perform (start_reading whisper) l = start_client whisper l
  perform (read now runs i) l = client_step now runs i l
  perform (fire id) l = timer_step id l
  perform shutting_down l = some (shut_down l)

  -- A history of rounds.
  unfoldable pub perform_all : List Action → Loop S → Option (Loop S)
  unfolding perform
  perform_all [] l = some l
  perform_all (a ∷ more) l = elim (perform a l) [ none ↦ none | some l' ↦ perform_all more l' ]

-- The state in which `Read` starts.
unfoldable pub new_loop : {S : Type 0} → Session S → Loop S
new_loop s = record { session = s; server = waiting; client = waiting; deferred = false }
