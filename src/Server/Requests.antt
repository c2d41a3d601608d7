-- ===== src/Server/Requests.antt =====
-- internal/app/handlers.go, internal/app/routes.go and internal/app/health.go: how a request becomes a
-- connection. What the upgrade, the constructors and the response writer answer are inputs, as are the
-- header values after `strings.ToLower`.
use Prim.Native.String.{String}
use event_api.Base.{
  ℕ, Option, none, some, Bool, true, false, Bytes, codes, bytes_dec, ite, if◌then◌else◌, ◌||◌, not,
}
use event_api.Connection.Types.{ApiConfig}
use event_api.Server.Writing.{Written, unwritten, write_bytes_response, set_event_stream_headers}
use event_api.Server.{Server, Transport, event_stream, web_socket, status, next, middleware}

-- The routes of `setRoutes`; both of its patterns for `/v3` are `v3`. Other paths are the router's.
pub data Route : Type 0 where
  v3 health_check : Route

-- An error of `Upgrade`: its text, and what `Upgrade` has already written of a response.
pub record UpgradeError : Type 0 where
  pub text : Bytes
  pub written : Written

-- What `Middleware` and `handleV3` read and meet: an error is its text, and `response` is the status
-- of `r.Response`, if that is not nil.
pub record Request : Type 0 where
  pub route : Route
  pub upgrade_header : Bytes
  pub connection_header : Bytes
  pub upgrade_error : Option UpgradeError
  pub session_error : Option Bytes
  pub flushes : Bool
  pub response : Option ℕ

-- What a request comes to: a response, a connection that is served and tracked, a connection that is
-- tracked though it is never served, or no answer. What has been written of the response is listed where
-- net/http writes it; a WebSocket has left net/http.
pub data Handled : Type 0 where
  answered : Written → Handled
  served : Transport → Written → Handled
  stranded : Transport → Written → Handled
  dropped : Handled

abbrev pub answer : ℕ → Bytes → Handled
answer code res = answered (write_bytes_response code res unwritten)

abbrev pub is_value : String → Bytes → Bool
is_value name v = ite (bytes_dec v (codes name)) true false

-- The WebSocket branch.
unfoldable pub open_websocket : Request → Handled
unfolding write_bytes_response
open_websocket q = elim q.upgrade_error [
  | some e ↦ answered (write_bytes_response 400 e.text e.written)
  | none ↦
      let w : Written = record unwritten { hijacked = true } in
      elim q.session_error [
        | some e ↦ answered (write_bytes_response 400 e w)
        | none ↦ served web_socket w
      ]
]

-- The branch of an event stream: `TrackConnection` starts before `SSE` looks for the flusher.
unfoldable pub open_event_stream : Request → Handled
unfolding set_event_stream_headers write_bytes_response
open_event_stream q = elim q.session_error [
  | some e ↦ dropped
  | none ↦
      let w = set_event_stream_headers unwritten in
      if q.flushes
      then served event_stream w
      else stranded event_stream (write_bytes_response 400 (codes "EventStream Not Supported") w)
]

-- `handleV3`
unfoldable pub handle_v3 : ApiConfig → Request → Handled
unfolding open_websocket open_event_stream write_bytes_response
handle_v3 cfg q =
    if not cfg.v3
    then answer 503 (codes "Service unavailable")
    else if is_value "websocket" q.upgrade_header || is_value "upgrade" q.connection_header
    then open_websocket q
    else open_event_stream q

-- The router behind `Middleware`, up to the deferred log entry of the latter.
unfoldable pub handle_request : ApiConfig → Server → Request → Handled
unfolding handle_v3
handle_request cfg s q = elim (middleware cfg q.response s).does [
  | status code body ↦ answer code body
  | next ↦ elim q.route [ v3 ↦ handle_v3 cfg q | health_check ↦ answer 200 (codes "OK") ]
]
