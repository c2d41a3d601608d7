-- ===== src/Connection/WebSocket/Steps.antt =====
-- internal/app/connection/websocket/websocket.go: the methods of the transport, as steps of a history.
use Prim.Native.String.{String}
use event_api.Base.{ℕ, ◌≡◌, refl, List, true, arith, ◌∙◌}
use event_api.Connection.Types.{Env, CloseCode, Message, Field}
use event_api.Connection.EventMap.View.{IsValid}
use event_api.Connection.Session.{Session, destroy_events}
use event_api.Connection.WebSocket.{
  connection, destroy, greet, set_ready, send_close, send_error, send_ack, send_heartbeat, write,
  force_close,
}
use event_api.Connection.Handler.Granting.{destroy-IsValid}
use event_api.Connection.Handler.Answering.{IsMute}

module _ {S : Type 0} (env : Env S) where
  pub connection-IsMute : IsMute (connection env)
  unfolding write send_ack send_error send_close
  connection-IsMute = record {
    write_mute = λ m s ended. ground arith;
    ack_mute = λ op d s ended. ground arith;
    error_mute = λ txt fields s ended. ground arith;
    close_mute = λ code s ended. ground arith;
  }

-- A step that keeps the event map valid, and after the end changes nothing of what has been sent.
pub record IsStep {S : Type 0} (s s' : Session S) : Type 0 where
  pub valid : IsValid s'.events
  pub ends : s.done ≡ true → (s'.done ≡ true) × (s'.sent ≡ s.sent)

pub then-IsStep :
    {S : Type 0} {s s' s'' : Session S}
    → IsStep s s'
    → (IsValid s'.events → IsStep s' s'')
    → IsStep s s''
then-IsStep a b =
    let next = b a.valid in
    record {
      valid = next.valid;
      ends = λ h. let one = a.ends h in let two = next.ends one.0 in (two.0, two.1 ∙ one.1);
    }

module _ {S : Type 0} (env : Env S) where
  pub destroy-IsStep : (s : Session S) → IsValid s.events → IsStep s (destroy env s)
  unfolding destroy destroy_events force_close set_ready
  destroy-IsStep s v = record {
    valid = destroy-IsValid s.events s.registry v;
    ends = λ h. (refl, refl);
  }

  pub write-IsStep : (m : Message) (s : Session S) → IsValid s.events → IsStep s (write env m s).0
  unfolding write
  write-IsStep m s v = record { valid = ground arith; ends = λ h. ground arith }

  pub send_error-IsStep :
      (txt : String) (fields : List (String × Field)) (s : Session S)
      → IsValid s.events
      → IsStep s (send_error env txt fields s)
  unfolding send_error
  send_error-IsStep txt fields s v = write-IsStep _ s v

  pub send_heartbeat-IsStep : (s : Session S) → IsValid s.events → IsStep s (send_heartbeat env s).0
  unfolding send_heartbeat write
  send_heartbeat-IsStep s v = record { valid = ground arith; ends = λ h. ground arith }

  pub greet-IsStep : (n : ℕ) (s : Session S) → IsValid s.events → IsStep s (greet env n s).0
  unfolding greet
  greet-IsStep n s v = write-IsStep _ s v

  pub set_ready-IsStep : (s : Session S) → IsValid s.events → IsStep s (set_ready env s)
  unfolding set_ready
  set_ready-IsStep s v = record { valid = v; ends = λ h. (h, refl) }

  pub send_close-IsStep :
      (code : CloseCode) (s : Session S) → IsValid s.events → IsStep s (send_close env code s)
  unfolding send_close
  send_close-IsStep code s v = record { valid = ground arith; ends = λ h. ground arith }
