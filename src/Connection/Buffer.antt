-- ===== src/Connection/Buffer.antt =====
-- internal/app/connection/buffer.go: the event buffer of a dead connection. Its storage is switched
-- off in the source ("redis is disabled"): the operations succeed without an effect, and a recovery
-- is always refused.
use event_api.Base.{ℕ, ◌+◌, List, ◌++◌, Option, none, Bytes, codes}
use event_api.Connection.Types.{DispatchPayload}

-- `eventBuffer`: the keys under which it would store, and the time at which it ends.
pub record EventBuffer : Type 0 where
  pub state_key : Bytes
  pub event_store_key : Bytes
  pub sub_store_key : Bytes
  pub ttl : ℕ

pub data BufferError : Type 0 where
  buffer_closed not_recoverable : BufferError

-- `NewEventBuffer` at time `now`.
unfoldable pub new_event_buffer : Bytes → ℕ → ℕ → EventBuffer
new_event_buffer session_id ttl now = record {
  state_key = codes "events:session:" ++ (session_id ++ codes ":recovery");
  event_store_key = codes "events:session:" ++ (session_id ++ codes ":event_buffer");
  sub_store_key = codes "events:session:" ++ (session_id ++ codes ":sub_buffer");
  ttl = now + ttl;
}

-- `Start`, `Push` and `Cleanup` return no error.
unfoldable pub start : EventBuffer → EventBuffer × Option BufferError
start b = (b, none)

unfoldable pub push : DispatchPayload → EventBuffer → EventBuffer × Option BufferError
push msg b = (b, none)

unfoldable pub cleanup : EventBuffer → EventBuffer × Option BufferError
cleanup b = (b, none)

-- `Recover`: the events and subscriptions, or an error.
unfoldable pub recover : EventBuffer → Option (List DispatchPayload) × BufferError
recover b = (none, not_recoverable)
