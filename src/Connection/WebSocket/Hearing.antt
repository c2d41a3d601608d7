-- ===== src/Connection/WebSocket/Hearing.antt =====
-- internal/app/connection/websocket/websocket_read.go: a round of the loop of the client, as a step
-- of a history.
use event_api.Base.{ℕ, ◌≡◌, refl, inl, inr, [], Option, some, Bool, true, false, Bool-cases, ap}
use event_api.Connection.Types
use event_api.Connection.Types.{
  Env, EnvLaws, ApiConfig, CloseCode, RawMessage, Message, Opcode, Payload, Field, resumed,
  reconnect_payload,
}
use event_api.Connection.EventMap.View.{IsValid}
use event_api.Connection.Session.{Session}
use event_api.Connection.WebSocket.{
  connection, connection-ConnectionLaws, send_close, send_error, send_ack,
}
use event_api.Connection.WebSocket.Reading.{
  Input, closed, unreadable, received, handle_command, read_input, is_client_sent_op, goes_on,
  reply_to, throttled,
}
use event_api.Connection.Handler.{Reply, on_resume}
use event_api.Connection.Handler.Answering.{
  IsAnswered, subscribe-IsAnswered, unsubscribe-IsAnswered,
}
use event_api.Connection.Handler.Safety.{on_bridge-IsAnswered}
use event_api.Connection.WebSocket.Steps.{
  connection-IsMute, IsStep, then-IsStep, write-IsStep, send_error-IsStep, send_close-IsStep,
}

module _ {S : Type 0} (env : Env S) (sets : EnvLaws env) (cfg : ApiConfig) where
  -- What a command leaves behind.
  pub record IsHeard (s : Session S) (run : Option (Session S × Bool)) : Type 0 where
    pub after : Session S
    pub more : Bool
    pub returns : run ≡ some (after, more)
    pub step : IsStep s after

  heard :
      {s : Session S} {run : Option (Session S × Reply)}
      → IsAnswered (connection env) s run
      → IsHeard s (reply_to run)
  heard {s} {run} a = record {
    after = a.after;
    more = goes_on a.reply;
    returns = ap reply_to a.returns;
    step = record { valid = a.valid; ends = a.quiet (connection-IsMute env) };
  }

  IsHeard-throttled :
      {s : Session S} {run : Option (Session S × Reply)}
      → IsAnswered (connection env) s run
      → IsHeard s (throttled run)
  IsHeard-throttled {s} {run} a = record {
    after = a.after;
    more = true;
    returns = ap throttled a.returns;
    step = record { valid = a.valid; ends = a.quiet (connection-IsMute env) };
  }

  unheard : (s : Session S) → IsValid s.events → IsHeard s (some (s, true))
  unheard s v = record {
    after = s;
    more = true;
    returns = refl;
    step = record { valid = v; ends = λ h. (h, refl) };
  }

  handle_command-IsHeard :
      (now : ℕ) (runs : Bool) (op : Opcode) (m : RawMessage) (s : Session S)
      → IsValid s.events
      → IsHeard s (handle_command env cfg now runs op m s)
  unfolding handle_command on_resume send_ack
  handle_command-IsHeard now runs Opcode.resume m s v = record {
    after = (send_ack env Types.resume (resumed false 0 0) s).0;
    more = true;
    returns = refl;
    step = write-IsStep env _ s v;
  }
  handle_command-IsHeard now runs Opcode.subscribe m s v =
      heard
        (subscribe-IsAnswered env sets cfg (connection env) (connection-ConnectionLaws env) m s v)
  handle_command-IsHeard now runs Opcode.unsubscribe m s v =
      heard
        (unsubscribe-IsAnswered env sets cfg (connection env) (connection-ConnectionLaws env) m s v)
  handle_command-IsHeard now true Opcode.bridge m s v =
      IsHeard-throttled
        (on_bridge-IsAnswered env sets (connection env) (connection-ConnectionLaws env) now m s v)
  handle_command-IsHeard now false Opcode.bridge m s v = unheard s v
  handle_command-IsHeard now runs _ m s v = unheard s v

  pub read_input-IsHeard :
      (now : ℕ) (runs : Bool) (i : Input) (s : Session S)
      → IsValid s.events
      → IsHeard s (read_input env cfg now runs i s)
  unfolding read_input
  read_input-IsHeard now runs (closed code) s v = record {
    after = s;
    more = false;
    returns = refl;
    step = record { valid = v; ends = λ h. (h, refl) };
  }
  read_input-IsHeard now runs (unreadable txt) s v =
      let said = send_error env txt [] s in
      record {
        after = send_close env CloseCode.invalid_payload said;
        more = false;
        returns = refl;
        step =
            then-IsStep (send_error-IsStep env txt [] s v)
              (send_close-IsStep env CloseCode.invalid_payload said);
      }
  read_input-IsHeard now runs (received m) s v = elim (Bool-cases (is_client_sent_op m.op)) [
    | inl known ↦
        let rest = handle_command-IsHeard now runs m.op m s v in
        record {
          after = rest.after;
          more = rest.more;
          returns = rw (known, read_input) rest.returns;
          step = rest.step;
        }
    | inr bad ↦ record {
      after = send_close env CloseCode.unknown_operation s;
      more = false;
      returns = rw (bad, read_input) refl;
      step = send_close-IsStep env CloseCode.unknown_operation s v;
    }
  ]
