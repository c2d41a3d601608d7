-- ===== src/Connection/EventStream/Reading.antt =====
-- internal/app/connection/eventstream/eventstream_read.go, and `SSE` of internal/app/v3/v3.go: the
-- loop of an event stream, and the goroutine that makes the subscriptions of its URL. A step is one
-- round; what the `select` finds ready is an input. `none` is a panic.
use event_api.Base.{ℕ, List, [], ◌∷◌, Option, none, some, Bool, true, false, Bytes, if◌then◌else◌}
use event_api.Connection.Types.{Env, ApiConfig, CloseCode, RawMessage, SubscribePayload}
use event_api.Connection.Session.{Session}
use event_api.Connection.Handler
use event_api.Connection.Handler.{Reply, failed, refused, accepted}
use event_api.Connection.Handler.Dispatching.{on_dispatch, fire_timer}
use event_api.Connection.EventStream.{
  connection, destroy, greet, set_ready, set_writer, send_close, send_heartbeat,
}
use event_api.Connection.EventStream.Url.{parse_subscriptions}

-- The cases of the `select`; a dispatch is `none` when its channel is closed.
pub data Signal : Type 0 where
  request_done ended stopping heartbeat_due liveness : Signal
  dispatched : Option Bytes → Signal

-- The session, and whether `Read` still runs.
pub record Loop (S : Type 0) : Type 0 where
  pub session : Session S
  pub running : Bool

-- One round of one of the goroutines.
pub data Action : Type 0 where
  greeting : ℕ → Action
  serve : ℕ → Signal → Action
  subscribe_url : Bytes → Action
  fire : ℕ → Action
  shutting_down : Action

module _ {S : Type 0} (env : Env S) (cfg : ApiConfig) (to_raw : SubscribePayload → RawMessage) where
  -- The deferred function of `Read`.
  abbrev pub end_loop : Session S → Loop S
  end_loop s = record { session = destroy env s; running = false }

  -- `SSE` up to the loop of `Read`: the writer, and the greeting.
  unfoldable pub start : ℕ → Session S → Loop S
  unfolding set_writer
  start population s =
      let (s', ok) = greet env population (set_writer env s) in
      if ok then record { session = set_ready env s'; running = true } else end_loop s'

  unfoldable pub receive : ℕ → Bytes → Loop S → Option (Loop S)
  receive now raw l = elim (env.unmarshal_dispatch raw) [
    | none ↦ some l
    | some p ↦ elim (on_dispatch env (connection env) now p l.session) [
      | none ↦ none
      | some s ↦ some (record l { session = s })
    ]
  ]

  -- One round of `Read`.
  unfoldable pub read_step : ℕ → Signal → Loop S → Option (Loop S)
  unfolding receive
  read_step now request_done l = some (end_loop l.session)
  read_step now ended l = some (end_loop l.session)
  read_step now stopping l = some (end_loop (send_close env CloseCode.restart l.session))
  read_step now heartbeat_due l =
      let (s, ok) = send_heartbeat env l.session in
      some (if ok then record l { session = s } else end_loop s)
  read_step now liveness l = some l
  read_step now (dispatched none) l = some (end_loop l.session)
  read_step now (dispatched (some raw)) l = receive now raw l

  -- The loop over the subscriptions of the URL: it stops where a request is not granted.
  unfoldable pub subscribe_all : List SubscribePayload → Session S → Option (Session S)
  subscribe_all [] s = some s
  subscribe_all (p ∷ ps) s = elim (Handler.subscribe env cfg (connection env) (to_raw p) s) [
    | none ↦ none
    | some (s', accepted) ↦ subscribe_all ps s'
    | some (s', refused) ↦ some s'
    | some (s', failed) ↦ some s'
  ]

  -- The goroutine of `SSE`, once the connection is ready.
  unfoldable pub subscribe_listed : Bytes → Session S → Option (Session S)
  unfolding subscribe_all
  subscribe_listed sub s = if s.done then some s else subscribe_all (parse_subscriptions sub) s

  abbrev pub with_session : Loop S → Option (Session S) → Option (Loop S)
  with_session l none = none
  with_session l (some s) = some (record l { session = s })

  unfoldable pub perform : Action → Loop S → Option (Loop S)
  unfolding start read_step subscribe_listed
  perform (greeting population) l = some (start population l.session)
  perform (serve now x) l = read_step now x l
  perform (subscribe_url sub) l = with_session l (subscribe_listed sub l.session)
  perform (fire id) l = with_session l (fire_timer env id l.session)
  perform shutting_down l = some (record l { session = send_close env CloseCode.restart l.session })

  -- A history of rounds.
  unfoldable pub perform_all : List Action → Loop S → Option (Loop S)
  unfolding perform
  perform_all [] l = some l
  perform_all (a ∷ more) l = elim (perform a l) [ none ↦ none | some l' ↦ perform_all more l' ]
