-- ===== src/Connection/WebSocket/Rounds.antt =====
-- internal/app/connection/websocket: what the rounds of the goroutines of a WebSocket keep of its event map
-- and the registry.
use event_api.Base.{
  ℕ, List, [], ◌∷◌, Option, none, some, Bool, true, false, Bytes, if◌then◌else◌, not, All, codes,
}
use event_api.Nats.{Registry}
use event_api.Connection.Types.{
  Env, ApiConfig, CloseCode, RawMessage, Message, Opcode, reconnect_payload,
}
use event_api.Connection.EventMap.{EventMap}
use event_api.Connection.Session.{Session, destroy_events, subscribe_events}
use event_api.Connection.Handler
use event_api.Connection.Handler.{Reply}
use event_api.Connection.Handler.Dispatching.{on_dispatch, on_bridge}
use event_api.Connection.Handler.Lifting.{
  Holds, Holds-either, Holds-then, IsPreserved, On, OnFirst, same-On, close-On, subscribe_events-On,
  on_dispatch-On,
}
use event_api.Connection.Handler.Commands.{subscribe-On, unsubscribe-On, on_resume-On, on_bridge-On}
use event_api.Connection.WebSocket.{
  connection, connection-ConnectionLaws, write-SameCore, destroy, force_close, set_ready,
  send_close, send_error, send_heartbeat, write, greet,
}
use event_api.Connection.WebSocket.Reading.{
  Loop, over, running, Signal, ended, stopping, ttl_over, heartbeat_due, dispatched, Input, closed,
  unreadable, received, handle_command, read_input, is_client_sent_op, reply_to, throttled,
  server_step, receive, start_server, end_server, end_client, client_step, start_client, shut_down,
  Action, greeting, serve, start_reading, read, fire, shutting_down, perform, perform_all,
}

-- A round that is not the end of a time to live.
abbrev pub IsTimeless : Action → Type 0
IsTimeless (fire id) = ⊥
IsTimeless _ = Unit

module _ {S : Type 0} (env : Env S) (T : EventMap → Registry → Type 0) (keeps : IsPreserved env T)
    (cfg : ApiConfig) where
  abbrev Tied : Session S → Type 0
  Tied = On env T keeps

  abbrev TiedFirst : {X : Type 0} → Session S × X → Type 0
  TiedFirst = OnFirst env T keeps

  -- The property, of a loop.
  abbrev pub TiedLoop : Loop S → Type 0
  TiedLoop l = Tied l.session

  destroy-On : (s : Session S) → Tied s → Tied (destroy env s)
  unfolding destroy destroy_events set_ready force_close
  destroy-On s h = keeps.destroys s.events s.registry h

  closed-On : (code : CloseCode) (s : Session S) → Tied s → Tied (send_close env code s)
  closed-On = close-On env T keeps (connection env) (connection-ConnectionLaws env)

  write-On : (m : Message) (s : Session S) → Tied s → Tied (write env m s).0
  write-On m s h = same-On env T keeps s (write env m s).0 (write-SameCore env m s) h

  reply_to-On :
      (run : Option (Session S × Reply)) → Holds TiedFirst run → Holds TiedFirst (reply_to run)
  reply_to-On none h = h
  reply_to-On (some q) h = h

  throttled-On :
      (run : Option (Session S × Reply)) → Holds TiedFirst run → Holds TiedFirst (throttled run)
  throttled-On none h = h
  throttled-On (some q) h = h

  handle_command-On :
      (now : ℕ) (runs : Bool) (op : Opcode) (m : RawMessage) (s : Session S)
      → Tied s
      → Holds TiedFirst (handle_command env cfg now runs op m s)
  unfolding handle_command
  handle_command-On now runs Opcode.resume m s h =
      on_resume-On env T keeps cfg (connection env) (connection-ConnectionLaws env) m s h
  handle_command-On now runs Opcode.subscribe m s h =
      reply_to-On (Handler.subscribe env cfg (connection env) m s)
        (subscribe-On env T keeps cfg (connection env) (connection-ConnectionLaws env) m s h)
  handle_command-On now runs Opcode.unsubscribe m s h =
      reply_to-On (Handler.unsubscribe env cfg (connection env) m s)
        (unsubscribe-On env T keeps cfg (connection env) (connection-ConnectionLaws env) m s h)
  handle_command-On now true Opcode.bridge m s h =
      throttled-On (on_bridge env (connection env) now m s)
        (on_bridge-On env T keeps cfg (connection env) (connection-ConnectionLaws env) now m s h)
  handle_command-On now false Opcode.bridge m s h = h
  handle_command-On now runs _ m s h = h

  if-On : {A : Type 0} (P : A → Type 0) (b : Bool) (x y : A) → P x → P y → P (if b then x else y)
  if-On P true x y h k = h
  if-On P false x y h k = k

  read_input-On :
      (now : ℕ) (runs : Bool) (i : Input) (s : Session S)
      → Tied s
      → Holds TiedFirst (read_input env cfg now runs i s)
  unfolding read_input send_error
  read_input-On now runs (closed code) s h = h
  read_input-On now runs (unreadable txt) s h =
      closed-On CloseCode.invalid_payload (send_error env txt [] s) (write-On _ s h)
  read_input-On now runs (received m) s h =
      if-On (Holds TiedFirst) (not (is_client_sent_op m.op))
        (some (send_close env CloseCode.unknown_operation s, false))
        (handle_command env cfg now runs m.op m s) (closed-On CloseCode.unknown_operation s h)
        (handle_command-On now runs m.op m s h)

  start_client-On :
      (whisper : Bytes) (l : Loop S) → TiedLoop l → Holds TiedLoop (start_client env cfg whisper l)
  unfolding start_client
  start_client-On whisper l h =
      if-On (Holds TiedLoop) l.session.done (some (record l { client = over })) _ h (
        Holds-then TiedFirst TiedLoop
          (subscribe_events env whisper ((codes "session_id", l.session.session_id) ∷ [])
            (record { ttl = none; auto = true }) l.session)
          _
          (subscribe_events-On env T keeps whisper ((codes "session_id", l.session.session_id) ∷ [])
            (record { ttl = none; auto = true }) l.session h)
          (λ q k. k))

  client_step-On :
      (now : ℕ) (runs : Bool) (i : Input) (l : Loop S)
      → TiedLoop l
      → Holds TiedLoop (client_step env cfg now runs i l)
  unfolding client_step
  client_step-On now runs i l h =
      Holds-then TiedFirst TiedLoop (read_input env cfg now runs i l.session) _
        (read_input-On now runs i l.session h)
        (λ q k.
          if-On TiedLoop q.1 (record l { session = q.0 })
            (end_client env cfg (record l { session = q.0 })) k (destroy-On q.0 k))

  start_server-On :
      (population : ℕ) (l : Loop S) → TiedLoop l → TiedLoop (start_server env cfg population l)
  unfolding start_server greet set_ready
  start_server-On population l h =
      let (s, ok) = greet env population l.session in
      let k : Tied s = write-On _ l.session h in
      if-On TiedLoop ok (record l { session = set_ready env s; server = running })
        (end_server env cfg l s) k (destroy-On s k)

  receive-On :
      (now : ℕ) (raw : Bytes) (l : Loop S) → TiedLoop l → Holds TiedLoop (receive env cfg now raw l)
  unfolding receive
  receive-On now raw l h = Holds-either TiedLoop (env.unmarshal_dispatch raw) (some l) _ h (λ p.
      Holds-then Tied TiedLoop (on_dispatch env (connection env) now p l.session) _
        (on_dispatch-On env T keeps (connection env) (connection-ConnectionLaws env) now p l.session
          h)
        (λ s k. k))

  server_step-On :
      (now : ℕ) (x : Signal) (l : Loop S)
      → TiedLoop l
      → Holds TiedLoop (server_step env cfg now x l)
  unfolding server_step send_heartbeat
  server_step-On now ended l h = destroy-On l.session h
  server_step-On now stopping l h =
      destroy-On (send_close env CloseCode.restart l.session)
        (closed-On CloseCode.restart l.session h)
  server_step-On now ttl_over l h =
      let m : Message = record {
        op = Opcode.reconnect;
        command = none;
        content = reconnect_payload "The server requested a reconnect";
      } in
      let s = (write env m l.session).0 in
      destroy-On (send_close env CloseCode.reconnect s)
        (closed-On CloseCode.reconnect s (write-On m l.session h))
  server_step-On now heartbeat_due l h =
      let (s, ok) = send_heartbeat env l.session in
      let k : Tied s = write-On _ _ h in
      if-On (Holds TiedLoop) l.deferred (some l) _ h
        (if-On TiedLoop ok (record l { session = s }) (end_server env cfg l s) k (destroy-On s k))
  server_step-On now (dispatched none) l h = destroy-On l.session h
  server_step-On now (dispatched (some raw)) l h = receive-On now raw l h

  perform-On :
      (a : Action) (l : Loop S) → IsTimeless a → TiedLoop l → Holds TiedLoop (perform env cfg a l)
  unfolding perform shut_down
  perform-On (greeting population) l t h = start_server-On population l h
  perform-On (serve now x) l t h = server_step-On now x l h
  perform-On (start_reading whisper) l t h = start_client-On whisper l h
  perform-On (read now runs i) l t h = client_step-On now runs i l h
  perform-On (fire id) l t h = absurd t
  perform-On shutting_down l t h = closed-On CloseCode.restart l.session h

  -- What `Subscribe`, `Unsubscribe` and `Destroy` keep, every history of rounds without the end of a time
  -- to live keeps.
  pub perform_all-On :
      (history : List Action) (l : Loop S)
      → All IsTimeless history
      → TiedLoop l
      → Holds TiedLoop (perform_all env cfg history l)
  unfolding perform_all
  perform_all-On [] l t h = h
  perform_all-On (a ∷ more) l t h =
      Holds-then TiedLoop TiedLoop (perform env cfg a l) (perform_all env cfg more)
        (perform-On a l t.0 h) (λ l' k. perform_all-On more l' t.1 k)
