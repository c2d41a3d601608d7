-- ===== src/Connection/WebSocket/Cleanup.antt =====
-- internal/app/connection/websocket/websocket_read.go: what the end of `Read` leaves behind.
use event_api.Base.{
  ◌≡◌, refl, ◌≢◌, [], Option, none, some, Bool, true, false, Bytes, arith, sym, subst, ◌∙◌,
  if◌then◌else◌, ℕ,
}
use event_api.Nats.{Subscription, is_subscribed}
use event_api.Nats.Laws.{IsConsistent}
use event_api.Connection.Types.{
  Env, ApiConfig, CloseCode, Message, reconnect_payload, heartbeat_payload, hello_payload, Opcode,
  DispatchPayload,
}
use event_api.Connection.EventMap.{Outcome}
use event_api.Connection.EventMap.Expiry.{IsGone, destroy-IsGone}
use event_api.Connection.Handler.Dispatching.{on_dispatch, fire_timer}
use event_api.Connection.Session.{Session, destroy_events, next64}
use event_api.Connection.WebSocket.{
  connection, write-SameCore, send_close-events, destroy, force_close, set_ready, send_close,
  send_heartbeat, write, greet,
}
use event_api.Connection.WebSocket.Reading.{
  Loop, running, over, Signal, ended, stopping, ttl_over, heartbeat_due, dispatched, server_step,
  receive, start_server, end_server, end_client, client_step, read_input, start_client, timer_step,
  Action, greeting, serve, start_reading, read, fire, shutting_down, perform,
}

-- A session whose resources are free: it has ended, nobody waits for it, its socket is closed, and its
-- event map and its NATS subscriptions are gone.
pub record IsReleased {S : Type 0} (sub : Subscription) (s : Session S) : Type 0 where
  pub ended : s.done ≡ true
  pub waited : s.ready ≡ true
  pub closed : s.socket_closed ≡ true
  pub emptied : s.events.m ≡ []
  pub unsubscribed : (at : Bytes) → is_subscribed s.registry sub.session_id at ≡ false
  pub consistent : IsConsistent s.registry

module _ {S : Type 0} (env : Env S) where
  -- `Destroy` of a session that has the event map and the registry of another one.
  destroy-IsReleased :
      (s s' : Session S)
      → s'.events ≡ s.events
      → s'.registry ≡ s.registry
      → s.events.once ≡ false
      → IsConsistent s.registry
      → IsReleased s.events.subscription (destroy env s')
  unfolding destroy destroy_events force_close set_ready
  destroy-IsReleased s s' same_events same_registry live c =
      let gone : IsGone s.events.subscription (destroy env s').events (destroy env s').registry =
        rw (same_events, same_registry) (destroy-IsGone s.events s.registry live c) in
      record {
        ended = refl;
        waited = refl;
        closed = refl;
        emptied = gone.emptied;
        unsubscribed = gone.unsubscribed;
        consistent = gone.consistent;
      }

  module _ (cfg : ApiConfig) (l l' : Loop S) where
    same_server : {l2 : Loop S} → some l2 ≡ some l' → l2.server ≡ l.server → l'.server ≡ l.server
    same_server same kept = cc

    -- A round that only changes the session leaves the loop of the server as it is.
    session_server :
        (o : Option (Session S))
        → elim o as (λ _. Option (Loop S)) [
          | none ↦ none
          | some s ↦ some (record l { session = s })
        ]
          ≡ some l'
        → l'.server ≡ l.server
    session_server none h = absurd (ground arith)
    session_server (some s) h = same_server h refl

    receive_server :
        (now : ℕ) (u : Option DispatchPayload)
        → elim u as (λ _. Option (Loop S)) [
          | none ↦ some l
          | some d ↦
              elim (on_dispatch env (connection env) now d l.session) as (λ _. Option (Loop S)) [
                | none ↦ none
                | some s ↦ some (record l { session = s })
              ]
        ]
          ≡ some l'
        → l'.server ≡ l.server
    receive_server now none h = same_server h refl
    receive_server now (some d) h =
        session_server (on_dispatch env (connection env) now d l.session) h

    module _ (live : l.session.events.once ≡ false) (c : IsConsistent l.session.registry) where
      -- A round that ends the loop with a session which has the event map and the registry of `l`.
      ends-IsReleased :
          (s : Session S)
          → s.events ≡ l.session.events
          → s.registry ≡ l.session.registry
          → some (end_server env cfg l s) ≡ some l'
          → IsReleased l.session.events.subscription l'.session
      ends-IsReleased s same_events same_registry same =
          subst
            (λ (o : Option (Loop S)). elim o as (λ _. Type 0) [
              | none ↦ Unit
              | some k ↦ IsReleased l.session.events.subscription k.session
            ])
            same (destroy-IsReleased l.session s same_events same_registry live c)

      closing-IsReleased :
          (code : CloseCode) (s : Session S)
          → s.events ≡ l.session.events
          → s.registry ≡ l.session.registry
          → some (end_server env cfg l (send_close env code s)) ≡ some l'
          → IsReleased l.session.events.subscription l'.session
      closing-IsReleased code s same_events same_registry same =
          let kept = send_close-events env code s in
          ends-IsReleased (send_close env code s) (kept.0 ∙ same_events) (kept.1 ∙ same_registry)
            same

      heartbeat-IsReleased :
          (silent : Bool) (s : Session S) (ok : Bool)
          → s.events ≡ l.session.events
          → s.registry ≡ l.session.registry
          → l.server ≢ over
          → (if silent
              then some l
              else some (if ok then record l { session = s } else end_server env cfg l s))
            ≡ some l'
          → l'.server ≡ over
          → IsReleased l.session.events.subscription l'.session
      heartbeat-IsReleased true s ok e r going run h =
          absurd (going (sym (same_server run refl) ∙ h))
      heartbeat-IsReleased false s true e r going run h =
          absurd (going (sym (same_server run refl) ∙ h))
      heartbeat-IsReleased false s false e r going run h = ends-IsReleased s e r run

      -- Whichever round of the loop of the server ends it.
      server_step-IsReleased :
          (now : ℕ) (x : Signal)
          → l.server ≢ over
          → server_step env cfg now x l ≡ some l'
          → l'.server ≡ over
          → IsReleased l.session.events.subscription l'.session
      unfolding server_step receive send_heartbeat
      server_step-IsReleased now ended going run over' = ends-IsReleased l.session refl refl run
      server_step-IsReleased now stopping going run over' =
          closing-IsReleased CloseCode.restart l.session refl refl run
      server_step-IsReleased now ttl_over going run over' =
          let m : Message = record {
            op = Opcode.reconnect;
            command = none;
            content = reconnect_payload "The server requested a reconnect";
          } in
          let core = write-SameCore env m l.session in
          closing-IsReleased CloseCode.reconnect (write env m l.session).0 core.events core.registry
            run
      server_step-IsReleased now heartbeat_due going run over' =
          let s : Session S = record l.session {
            heartbeat_count = next64 l.session.heartbeat_count;
          } in
          let m : Message = record {
            op = Opcode.heartbeat;
            command = none;
            content = heartbeat_payload (next64 l.session.heartbeat_count);
          } in
          let core = write-SameCore env m s in
          heartbeat-IsReleased l.deferred (write env m s).0 (write env m s).1 core.events
            core.registry going run over'
      server_step-IsReleased now (dispatched none) going run over' =
          ends-IsReleased l.session refl refl run
      server_step-IsReleased now (dispatched (some raw)) going run over' =
          absurd (going (sym (receive_server now (env.unmarshal_dispatch raw) run) ∙ over'))

      greeting-IsReleased :
          (s : Session S) (ok : Bool)
          → s.events ≡ l.session.events
          → s.registry ≡ l.session.registry
          → some (
              if ok
              then record l { session = set_ready env s; server = running }
              else end_server env cfg l s)
            ≡ some l'
          → l'.server ≡ over
          → IsReleased l.session.events.subscription l'.session
      greeting-IsReleased s true e r run h = absurd (cc)
      greeting-IsReleased s false e r run h = ends-IsReleased s e r run

      client_server :
          (o : Option (Session S × Bool))
          → elim o as (λ _. Option (Loop S)) [
            | none ↦ none
            | some (s, more) ↦ some (
                if more
                then record l { session = s }
                else end_client env cfg (record l { session = s }))
          ]
            ≡ some l'
          → l'.server ≡ l.server
      client_server none h = absurd (ground arith)
      client_server (some (s, true)) h = same_server h refl
      client_server (some (s, false)) h = same_server h refl

      start_client_server :
          (dead : Bool) (u : Option (Session S × Outcome))
          → (if dead then some (record l { client = over }) else elim u as (λ _. Option (Loop S)) [
            | none ↦ none
            | some (s, o) ↦ some (record l { session = s; client = running })
          ])
            ≡ some l'
          → l'.server ≡ l.server
      start_client_server true u h = same_server h refl
      start_client_server false none h = absurd (ground arith)
      start_client_server false (some (s, o)) h = same_server h refl

      -- Where the event map of a WebSocket has not been destroyed and the registry is consistent, a round
      -- that ends the loop of the server, whichever it is, frees what the connection holds: the session
      -- has ended, nobody waits for it to be ready, its socket is closed, its event map is empty, and no
      -- subject of the registry has its session any more.
      pub perform-IsReleased :
          (a : Action)
          → l.server ≢ over
          → perform env cfg a l ≡ some l'
          → l'.server ≡ over
          → IsReleased l.session.events.subscription l'.session
      unfolding perform start_server greet start_client client_step timer_step
      perform-IsReleased (greeting population) going run h =
          let m : Message = record {
            op = Opcode.hello;
            command = none;
            content =
                hello_payload l.session.heartbeat_interval l.session.session_id
                  l.session.subscription_limit population;
          } in
          let core = write-SameCore env m l.session in
          greeting-IsReleased (write env m l.session).0 (write env m l.session).1 core.events
            core.registry run h
      perform-IsReleased (serve now x) going run h = server_step-IsReleased now x going run h
      perform-IsReleased (start_reading whisper) going run h =
          absurd (going (sym (start_client_server l.session.done _ run) ∙ h))
      perform-IsReleased (read now runs i) going run h =
          absurd (going (sym (client_server (read_input env cfg now runs i l.session) run) ∙ h))
      perform-IsReleased (fire id) going run h =
          absurd (going (sym (session_server (fire_timer env id l.session) run) ∙ h))
      perform-IsReleased shutting_down going run h = absurd (going (sym (same_server run refl) ∙ h))
