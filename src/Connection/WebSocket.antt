-- ===== src/Connection/WebSocket.antt =====
-- internal/app/connection/websocket/websocket.go: the WebSocket transport.
-- The `select` at the end of `SendClose` waits, five seconds at the shutdown of the server and not at all
-- otherwise, before the deferred `ForceClose`. Here the connection ends at once: what the loop of the
-- client still writes in those seconds is not represented.
pub mod Reading
pub mod Steps
pub mod Hearing
pub mod Ending
pub mod Sending
pub mod Refusals
pub mod Dispatches
pub mod Flow
pub mod Cleanup
pub mod Rounds
pub mod Linked
use Prim.Native.String.{String}
use event_api.Base.{
  ℕ, ℤ, suc, ◌≡◌, refl, List, [], ◌∷◌, ◌++◌, Option, none, some, Bool, true, false, Bytes,
  if◌then◌else◌, arith, inl,
}
use event_api.Connection.Types.{
  Env, CloseCode, Message, Opcode, Payload, Field, hello, heartbeat, ack, error, end_of_stream,
  hello_payload, heartbeat_payload, error_payload, end_of_stream_payload,
}
use event_api.Connection.Session.{
  Session, Connection, ConnectionLaws, SameCore, json, close_frame, next64, destroy_events,
}

module _ {S : Type 0} (env : Env S) where
  -- `Write`: after the end of the connection it does nothing.
  unfoldable pub write : Message → Session S → Session S × Bool
  write m s =
      if s.done
      then (s, true)
      else if env.write_ok s.attempts
      then (record s { attempts = suc s.attempts; sent = s.sent ++ json m ∷ [] }, true)
      else (record s { attempts = suc s.attempts }, false)

  -- `ForceClose`
  unfoldable pub force_close : Session S → Session S
  force_close s = record s { socket_closed = true; done = true }

  -- The control frame of `SendClose`.
  pub write_control : CloseCode → Session S → Session S
  write_control code s =
      if env.write_ok s.attempts
      then record s { attempts = suc s.attempts; sent = s.sent ++ close_frame code ∷ [] }
      else record s { attempts = suc s.attempts }

  -- `SendClose` without its wait; the deferred `ForceClose` runs on every way out but the first.
  unfoldable pub send_close : CloseCode → Session S → Session S
  unfolding write write_control force_close
  send_close code s =
      if s.done
      then s
      else let (s', ok) =
          write
            (record { op = end_of_stream; command = none; content = end_of_stream_payload code })
            s in
        force_close (if ok then write_control code s' else s')

  -- `Greet`; `population` is `ConcurrencyValue`, which `greet_from` of Server reads.
  unfoldable pub greet : ℕ → Session S → Session S × Bool
  unfolding write
  greet population s =
      write
        (record {
          op = hello;
          command = none;
          content = hello_payload s.heartbeat_interval s.session_id s.subscription_limit population;
        })
        s

  -- `SendHeartbeat`
  unfoldable pub send_heartbeat : Session S → Session S × Bool
  unfolding write
  send_heartbeat s =
      let n = next64 s.heartbeat_count in
      write (record { op = heartbeat; command = none; content = heartbeat_payload n })
        (record s { heartbeat_count = n })

  -- `SendAck`
  unfoldable pub send_ack : Opcode → Payload → Session S → Session S × Bool
  unfolding write
  send_ack cmd d s = write (record { op = ack; command = some cmd; content = d }) s

  -- `SendError`; the error of the write is only logged.
  unfoldable pub send_error : String → List (String × Field) → Session S → Session S
  unfolding write
  send_error txt fields s =
      (write (record { op = error; command = none; content = error_payload txt fields }) s).0

  -- `Actor` is nil.
  unfoldable pub has_actor : Session S → Bool
  has_actor s = false

  -- `SetReady`
  unfoldable pub set_ready : Session S → Session S
  set_ready s = record s { ready = true }

  -- `Destroy`
  unfoldable pub destroy : Session S → Session S
  unfolding force_close set_ready
  destroy s = destroy_events (set_ready (force_close s))

  -- The transport as the handler sees it.
  abbrev pub connection : Connection S
  connection = record {
    write = write;
    send_ack = send_ack;
    send_error = send_error;
    send_close = send_close;
    has_actor = has_actor;
  }

  pub write-SameCore : (m : Message) (s : Session S) → SameCore s (write m s).0
  unfolding write
  write-SameCore m s = ground arith

  send_ack-SameCore : (op : Opcode) (d : Payload) (s : Session S) → SameCore s (send_ack op d s).0
  unfolding send_ack
  send_ack-SameCore op d s = ground arith

  send_error-SameCore :
      (txt : String) (fields : List (String × Field)) (s : Session S)
      → SameCore s (send_error txt fields s)
  unfolding send_error
  send_error-SameCore txt fields s = ground arith

  send_close-done : (code : CloseCode) (s : Session S) → (send_close code s).done ≡ true
  unfolding send_close
  send_close-done code s = ground arith

  pub send_close-events :
      (code : CloseCode) (s : Session S)
      → ((send_close code s).events ≡ s.events) × ((send_close code s).registry ≡ s.registry)
  unfolding send_close
  send_close-events code s = ground arith

  -- The transport keeps what the handler relies on.
  pub connection-ConnectionLaws : ConnectionLaws connection
  unfolding has_actor
  connection-ConnectionLaws = record {
    write_core = write-SameCore;
    ack_core = send_ack-SameCore;
    error_core = send_error-SameCore;
    close_done = send_close-done;
    close_events = λ code s. inl (send_close-events code s);
    no_actor = λ s. refl;
  }
