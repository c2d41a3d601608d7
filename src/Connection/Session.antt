-- ===== src/Connection/Session.antt =====
-- internal/app/connection: the state of one connection, for both transports, with the registry of
-- the process that it is linked to, and the interface `Connection` through which the handler
-- reaches the transport.
use Prim.Native.String.{String}
use event_api.Base.{
  ℕ, ℤ, suc, ◌+◌, ◌%◌, ◌^◌, ◌≡◌, ◌⊎◌, List, [], Option, none, some, Bool, true, false, Bytes,
  if◌then◌else◌, ◌==◌,
}
use event_api.Nats.{Registry}
use event_api.Connection.Types.{
  Env, ApiConfig, CloseCode, Message, Opcode, Payload, Field, EventCondition,
  EventSubscriptionProperties,
}
use event_api.Connection.Buffer.{EventBuffer}
use event_api.Connection.Cache.{Cache, new_cache}
use event_api.Connection.EventMap.{EventMap, Outcome, Error}
use event_api.Connection.EventMap

-- What reached the client: a WebSocket message, a piece of an event stream, or a control frame.
pub data Chunk : Type 0 where
  json : Message → Chunk
  event : Bytes → Chunk
  close_frame : CloseCode → Chunk

-- A goroutine of `OnDispatch` that waits to remove a subscription.
pub record Timer : Type 0 where
  pub ttl : ℕ
  pub id : ℕ

-- `WebSocket` and `EventStream`. `done` is `ctx.Err() != nil`, `writable` is `writer != nil`,
-- `socket_closed` is set by `c.Close()`; `attempts` and `draws` count the writes and the random
-- numbers; `seq` is the bit pattern of an int64 and `heartbeat_count` is a uint64.
pub record Session (S : Type 0) : Type 0 where
  pub session_id : Bytes
  pub heartbeat_interval : ℕ
  pub subscription_limit : ℤ
  pub done : Bool
  pub ready : Bool
  pub socket_closed : Bool
  pub writable : Bool
  pub seq : ℕ
  pub heartbeat_count : ℕ
  pub sent : List Chunk
  pub attempts : ℕ
  pub draws : ℕ
  pub events : EventMap
  pub registry : Registry
  pub cache : Cache S
  pub buffer : Option EventBuffer
  pub timers : List Timer

-- What of a session the writing of a message leaves alone.
pub record SameCore {S : Type 0} (s s' : Session S) : Type 0 where
  pub events : s'.events ≡ s.events
  pub registry : s'.registry ≡ s.registry
  pub cache : s'.cache ≡ s.cache
  pub timers : s'.timers ≡ s.timers
  pub draws : s'.draws ≡ s.draws
  pub done : s'.done ≡ s.done

-- The methods of `Connection` that the handler calls. A write answers whether its error is nil.
pub record Connection (S : Type 0) : Type 0 where
  pub write : Message → Session S → Session S × Bool
  pub send_ack : Opcode → Payload → Session S → Session S × Bool
  pub send_error : String → List (String × Field) → Session S → Session S
  pub send_close : CloseCode → Session S → Session S
  pub has_actor : Session S → Bool

-- What the handler relies on, whichever the transport: messages change nothing of the session but
-- what has been sent, a close ends the connection and may destroy the event map, and nobody is
-- authenticated.
pub record ConnectionLaws {S : Type 0} (conn : Connection S) : Type 0 where
  pub write_core : (m : Message) (s : Session S) → SameCore s (conn.write m s).0
  pub ack_core : (op : Opcode) (d : Payload) (s : Session S) → SameCore s (conn.send_ack op d s).0
  pub error_core :
      (txt : String) (fields : List (String × Field)) (s : Session S)
      → SameCore s (conn.send_error txt fields s)
  pub close_done : (code : CloseCode) (s : Session S) → (conn.send_close code s).done ≡ true
  pub close_events :
      (code : CloseCode) (s : Session S)
      → (((conn.send_close code s).events ≡ s.events)
          × ((conn.send_close code s).registry ≡ s.registry))
        ⊎ (((conn.send_close code s).events ≡ (EventMap.Removal.destroy s.events s.registry).0)
            × ((conn.send_close code s).registry
                ≡ (EventMap.Removal.destroy s.events s.registry).1))
  pub no_actor : (s : Session S) → conn.has_actor s ≡ false

-- `int64` and `uint64` counters.
abbrev pub next64 : ℕ → ℕ
next64 n = (n + 1) % 2 ^ 64

-- `Events().Destroy`, shared by the transports.
unfoldable pub destroy_events : {S : Type 0} → Session S → Session S
destroy_events s =
    let (events, registry) = EventMap.Removal.destroy s.events s.registry in
    record s { events = events; registry = registry }

module _ {S : Type 0} (env : Env S) where
  -- The state of a new connection, up to what the transports add.
  unfoldable pub new_session : ApiConfig → Bytes → Bytes → ℕ → Registry → Session S
  new_session cfg raw_id hex_id ch registry = record {
    session_id = hex_id;
    heartbeat_interval = if cfg.heartbeat_interval == 0 then 45000 else cfg.heartbeat_interval;
    subscription_limit = cfg.subscription_limit;
    done = false;
    ready = false;
    socket_closed = false;
    writable = false;
    seq = 0;
    heartbeat_count = 0;
    sent = [];
    attempts = 0;
    draws = 0;
    events = EventMap.new_event_map ch raw_id;
    registry = registry;
    cache = new_cache env;
    buffer = none;
    timers = [];
  }

  -- A method of the event map, as a step of the session; `none` is a panic.
  abbrev pub with_outcome : Session S → Option Outcome → Option (Session S × Outcome)
  with_outcome s none = none
  with_outcome s (some o) = some (record s { events = o.events; registry = o.registry }, o)

  -- `conn.Events().Subscribe(…)`, which draws a random identifier.
  unfoldable pub subscribe_events :
      Bytes
      → EventCondition
      → EventSubscriptionProperties
      → Session S
      → Option (Session S × Outcome)
  subscribe_events t cond props s =
      with_outcome (record s { draws = suc s.draws })
        (EventMap.subscribe env (env.rand s.draws) t cond props s.events s.registry)

  -- `conn.Events().Unsubscribe(…)`
  unfoldable pub unsubscribe_events :
      Bytes → EventCondition → Session S → Option (Session S × Outcome)
  unsubscribe_events t cond s = with_outcome s (EventMap.unsubscribe env t cond s.events s.registry)

  -- `conn.Events().UnsubscribeWithID(…)`
  unfoldable pub unsubscribe_ids : List ℕ → Session S → Option (Session S × Outcome)
  unsubscribe_ids ids s =
      with_outcome s (EventMap.Removal.unsubscribe_with_id env ids s.events s.registry)
