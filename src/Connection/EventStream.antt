-- ===== src/Connection/EventStream.antt =====
-- internal/app/connection/eventstream/eventstream.go: the server-sent events transport.
pub mod Url
pub mod Reading
pub mod Serving
pub mod Printing
pub mod Cleanup
pub mod Rounds
pub mod Linked
use Prim.Native.String.{String}
use event_api.Base.{
  ℕ, suc, ◌≡◌, refl, List, [], ◌∷◌, ◌++◌, Option, none, some, Bool, true, false, Bytes, codes,
  if◌then◌else◌, ap, arith, not, ◌⊎◌, inl, inr,
}
use event_api.Nats.{Registry}
use event_api.Connection.EventMap.{EventMap}
use event_api.Connection.EventMap.Removal
use event_api.Connection.Types.{
  Env, ApiConfig, CloseCode, Message, Opcode, Payload, Field, hello, heartbeat, ack, error,
  end_of_stream, hello_payload, heartbeat_payload, error_payload, end_of_stream_payload,
}
use event_api.Connection.Session.{
  Session, Connection, ConnectionLaws, SameCore, event, next64, destroy_events, new_session,
}

module _ {S : Type 0} (env : Env S) where
  -- `NewEventStream`: `generated` is what `GenerateSessionID` answers, `to_hex` is
  -- `hex.EncodeToString`, and `none` is an error.
  unfoldable pub new_event_stream :
      ApiConfig → (Bytes → Bytes) → Option Bytes → ℕ → Registry → Option (Session S)
  new_event_stream cfg to_hex generated ch r = elim generated [
    | none ↦ none
    | some raw_id ↦ some (new_session env cfg raw_id (to_hex raw_id) ch r)
  ]

  -- The text of one event.
  pub event_text : Message → Bytes → ℕ → Bytes
  event_text m body seq =
      codes "event: "
      ++ (env.op_name m.op
          ++ (codes "\ndata: "
              ++ (body ++ (codes "\nid: " ++ (env.format_int seq ++ codes "\n\n")))))

  -- `Write`, which does not ask whether the connection has ended.
  unfoldable pub write : Message → Session S → Session S × Bool
  unfolding event_text
  write m s = if not s.writable then (s, false) else elim (env.marshal m) [
    | none ↦ (s, false)
    | some body ↦
        if env.write_ok s.attempts
        then (
          record s {
            attempts = suc s.attempts;
            sent = s.sent ++ event (event_text m body s.seq) ∷ [];
            seq = next64 s.seq;
          },
          true,
        )
        else (record s { attempts = suc s.attempts }, false)
  ]

  -- `SetWriter`
  unfoldable pub set_writer : Session S → Session S
  set_writer s = record s { writable = true }

  -- `SetReady`
  unfoldable pub set_ready : Session S → Session S
  set_ready s = record s { ready = true }

  -- `Destroy`
  unfoldable pub destroy : Session S → Session S
  unfolding set_ready
  destroy s = destroy_events (set_ready (record s { done = true }))

  -- `SendClose` without its wait, of five seconds at the shutdown of the server: an error of the write
  -- is only logged, and the deferred `Destroy` runs.
  unfoldable pub send_close : CloseCode → Session S → Session S
  unfolding write destroy
  send_close code s =
      if s.done
      then s
      else destroy
          (write
            (record { op = end_of_stream; command = none; content = end_of_stream_payload code })
            s).0

  -- `Greet`
  unfoldable pub greet : ℕ → Session S → Session S × Bool
  unfolding write
  greet population s =
      write
        (record {
          op = hello;
          command = none;
          content = hello_payload s.heartbeat_interval s.session_id s.subscription_limit population;
        })
        s

  -- `SendHeartbeat`
  unfoldable pub send_heartbeat : Session S → Session S × Bool
  unfolding write
  send_heartbeat s =
      let n = next64 s.heartbeat_count in
      write (record { op = heartbeat; command = none; content = heartbeat_payload n })
        (record s { heartbeat_count = n })

  -- `SendAck`
  unfoldable pub send_ack : Opcode → Payload → Session S → Session S × Bool
  unfolding write
  send_ack cmd d s = write (record { op = ack; command = some cmd; content = d }) s

  -- `SendError`
  unfoldable pub send_error : String → List (String × Field) → Session S → Session S
  unfolding write
  send_error txt fields s =
      (write (record { op = error; command = none; content = error_payload txt fields }) s).0

  -- `Actor` is nil.
  unfoldable pub has_actor : Session S → Bool
  has_actor s = false

  -- The transport as the handler sees it.
  abbrev pub connection : Connection S
  connection = record {
    write = write;
    send_ack = send_ack;
    send_error = send_error;
    send_close = send_close;
    has_actor = has_actor;
  }

  pub write-SameCore : (m : Message) (s : Session S) → SameCore s (write m s).0
  unfolding write
  write-SameCore m s = ground arith

  send_ack-SameCore : (op : Opcode) (d : Payload) (s : Session S) → SameCore s (send_ack op d s).0
  unfolding send_ack
  send_ack-SameCore op d s = write-SameCore _ s

  send_error-SameCore :
      (txt : String) (fields : List (String × Field)) (s : Session S)
      → SameCore s (send_error txt fields s)
  unfolding send_error
  send_error-SameCore txt fields s = write-SameCore _ s

  send_close-done : (code : CloseCode) (s : Session S) → (send_close code s).done ≡ true
  unfolding send_close destroy_events
  send_close-done code s = ground arith

  destroy_pair :
      (e e' : EventMap) (r r' : Registry)
      → e ≡ e'
      → r ≡ r'
      → Removal.destroy e r ≡ Removal.destroy e' r'
  destroy_pair e e' r r' p q = cc

  one_of_two :
      (b : Bool) (s s' : Session S) (e : EventMap) (r : Registry) (d : EventMap × Registry)
      → (s.events ≡ e) × (s.registry ≡ r)
      → (s'.events ≡ d.0) × (s'.registry ≡ d.1)
      → (((if b then s else s').events ≡ e) × ((if b then s else s').registry ≡ r))
        ⊎ (((if b then s else s').events ≡ d.0) × ((if b then s else s').registry ≡ d.1))
  one_of_two true s s' e r d p q = inl p
  one_of_two false s s' e r d p q = inr q

  send_close-events :
      (code : CloseCode) (s : Session S)
      → (((send_close code s).events ≡ s.events) × ((send_close code s).registry ≡ s.registry))
        ⊎ (((send_close code s).events ≡ (Removal.destroy s.events s.registry).0)
            × ((send_close code s).registry ≡ (Removal.destroy s.events s.registry).1))
  unfolding send_close destroy_events
  send_close-events code s =
      let m : Message = record {
        op = end_of_stream;
        command = none;
        content = end_of_stream_payload code;
      } in
      let same = write-SameCore m s in
      let moved =
        destroy_pair (write m s).0.events s.events (write m s).0.registry s.registry same.events
          same.registry in
      one_of_two s.done s (destroy (write m s).0) s.events s.registry
        (Removal.destroy s.events s.registry) (refl, refl)
        (ap (λ q. q.0) moved, ap (λ q. q.1) moved)

  -- The transport keeps what the handler relies on.
  pub connection-ConnectionLaws : ConnectionLaws connection
  unfolding has_actor
  connection-ConnectionLaws = record {
    write_core = write-SameCore;
    ack_core = send_ack-SameCore;
    error_core = send_error-SameCore;
    close_done = send_close-done;
    close_events = send_close-events;
    no_actor = λ s. refl;
  }
