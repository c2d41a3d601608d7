-- ===== src/Server/Admission.antt =====
-- internal/app: for which requests a connection is tracked.
use event_api.Base.{
  ℕ, ◌+◌, ◌<◌, ◌≡◌, refl, inl, inr, Option, none, some, Bool, true, false, pos, arith, Option-cases,
  not, Bytes, codes, ◌&&◌, ◌||◌, ltb,
}
use event_api.Connection.Types.{ApiConfig}
use event_api.Server.{Server}
use event_api.Server.Counting.{Reach, middleware-Reach}
use event_api.Server.Requests.{
  Request, UpgradeError, Route, is_value, open_websocket, open_event_stream, v3, health_check,
  Handled, answer, answered, served, stranded, dropped, handle_v3, handle_request,
}

-- Whether `TrackConnection` has been started for the connection of a request.
abbrev pub is_tracked : Handled → Bool
is_tracked (answered w) = false
is_tracked (served t w) = true
is_tracked (stranded t w) = true
is_tracked dropped = false

abbrev pub is_v3 : Route → Bool
is_v3 v3 = true
is_v3 health_check = false

abbrev is_missing : {A : Type 0} → Option A → Bool
is_missing none = true
is_missing (some e) = false

-- The upgrade, where one is asked for, and the constructor of the connection succeed.
abbrev pub opens : Request → Bool
opens q =
    is_missing q.session_error
    && (is_missing q.upgrade_error
        || not (is_value "websocket" q.upgrade_header || is_value "upgrade" q.connection_header))

open_websocket-is_tracked :
    (q : Request) (ue : Option UpgradeError) (se : Option Bytes)
    → q.upgrade_error ≡ ue
    → q.session_error ≡ se
    → is_tracked (open_websocket q) ≡ (is_missing q.session_error && is_missing q.upgrade_error)
unfolding open_websocket
open_websocket-is_tracked q none none u s = rw (u, s) refl
open_websocket-is_tracked q none (some e) u s = rw (u, s) refl
open_websocket-is_tracked q (some e) none u s = rw (u, s) refl
open_websocket-is_tracked q (some e) (some e') u s = rw (u, s) refl

open_event_stream-is_tracked :
    (q : Request) → is_tracked (open_event_stream q) ≡ is_missing q.session_error
unfolding open_event_stream
open_event_stream-is_tracked q = elim (Option-cases q.session_error) [
  | inl fits ↦ ground arith
  | inr (e, bad) ↦ ground arith
]

handle_v3-is_tracked :
    (cfg : ApiConfig) (q : Request) → is_tracked (handle_v3 cfg q) ≡ (cfg.v3 && opens q)
unfolding handle_v3
handle_v3-is_tracked cfg q = ground (
  arith,
  open_event_stream-is_tracked q,
  open_websocket-is_tracked q q.upgrade_error q.session_error refl refl,
)

route-is_tracked :
    (cfg : ApiConfig) (q : Request) (route : Route)
    → is_tracked (elim route as (λ _. Handled) [
      | v3 ↦ handle_v3 cfg q
      | health_check ↦ answer 200 (codes "OK")
    ])
      ≡ (is_v3 route && cfg.v3 && opens q)
route-is_tracked cfg q v3 = handle_v3-is_tracked cfg q
route-is_tracked cfg q health_check = refl

-- With fewer than 2 ^ 31 live connections and a limit that is not negative, the tracking of a
-- connection is started for a request exactly if the server is not locked, fewer connections than
-- the limit are live, the request is on the route `/v3`, that API is enabled, and the connection
-- opens.
pub handle_request-Reach :
    (cfg : ApiConfig) (limit : ℕ) (q : Request) {e w : ℕ} {s : Server}
    → cfg.connection_limit ≡ pos limit
    → Reach e w s
    → e + w < 2147483648
    → is_tracked (handle_request cfg s q)
      ≡ ((not s.locked && ltb (e + w) limit) && (is_v3 q.route && cfg.v3 && opens q))
unfolding handle_request
handle_request-Reach cfg limit q {e} {w} {s} limited r few =
    ground
      (arith, middleware-Reach cfg limit q.response limited r few, route-is_tracked cfg q q.route)
