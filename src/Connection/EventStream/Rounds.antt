-- ===== src/Connection/EventStream/Rounds.antt =====
-- internal/app/connection/eventstream: what the rounds of the goroutines of an event stream keep of its
-- event map and the registry.
use event_api.Base.{
  ℕ, List, [], ◌∷◌, Option, none, some, Bool, true, false, Bytes, if◌then◌else◌, All,
}
use event_api.Nats.{Registry}
use event_api.Connection.Types.{Env, ApiConfig, CloseCode, RawMessage, SubscribePayload, Message}
use event_api.Connection.EventMap.{EventMap}
use event_api.Connection.Session.{Session, destroy_events}
use event_api.Connection.Handler
use event_api.Connection.Handler.{Reply, failed, refused, accepted}
use event_api.Connection.Handler.Dispatching.{on_dispatch}
use event_api.Connection.Handler.Lifting.{
  Holds, Holds-either, Holds-then, IsPreserved, On, OnFirst, same-On, close-On, on_dispatch-On,
}
use event_api.Connection.Handler.Commands.{subscribe-On}
use event_api.Connection.EventStream.{
  connection, connection-ConnectionLaws, write-SameCore, destroy, set_ready, set_writer, send_close,
  send_heartbeat, write, greet,
}
use event_api.Connection.EventStream.Url.{parse_subscriptions}
use event_api.Connection.EventStream.Reading.{
  Loop, Signal, request_done, ended, stopping, heartbeat_due, liveness, dispatched, Action,
  greeting, serve, subscribe_url, fire, shutting_down, end_loop, start, receive, read_step,
  subscribe_all, subscribe_listed, with_session, perform, perform_all,
}

-- A round that is not the end of a time to live.
abbrev pub IsUntimed : Action → Type 0
IsUntimed (fire id) = ⊥
IsUntimed _ = Unit

module _ {S : Type 0} (env : Env S) (T : EventMap → Registry → Type 0) (keeps : IsPreserved env T)
    (cfg : ApiConfig) (to_raw : SubscribePayload → RawMessage) where
  abbrev Tied : Session S → Type 0
  Tied = On env T keeps

  -- The property, of a loop.
  abbrev pub TiedStream : Loop S → Type 0
  TiedStream l = Tied l.session

  destroy-On : (s : Session S) → Tied s → Tied (destroy env s)
  unfolding destroy destroy_events set_ready
  destroy-On s h = keeps.destroys s.events s.registry h

  closed-On : (code : CloseCode) (s : Session S) → Tied s → Tied (send_close env code s)
  closed-On = close-On env T keeps (connection env) (connection-ConnectionLaws env)

  write-On : (m : Message) (s : Session S) → Tied s → Tied (write env m s).0
  write-On m s h = same-On env T keeps s (write env m s).0 (write-SameCore env m s) h

  if-On : (b : Bool) (x y : Loop S) → TiedStream x → TiedStream y → TiedStream (if b then x else y)
  if-On true x y h k = h
  if-On false x y h k = k

  start-On :
      (population : ℕ) (s : Session S) → Tied s → TiedStream (start env cfg to_raw population s)
  unfolding start greet set_writer set_ready
  start-On population s h =
      let (s', ok) = greet env population (set_writer env s) in
      let k : Tied s' = write-On _ (set_writer env s) h in
      if-On ok (record { session = set_ready env s'; running = true }) (end_loop env cfg to_raw s')
        k (destroy-On s' k)

  receive-On :
      (now : ℕ) (raw : Bytes) (l : Loop S)
      → TiedStream l
      → Holds TiedStream (receive env cfg to_raw now raw l)
  unfolding receive
  receive-On now raw l h = Holds-either TiedStream (env.unmarshal_dispatch raw) (some l) _ h (λ p.
      Holds-then Tied TiedStream (on_dispatch env (connection env) now p l.session) _
        (on_dispatch-On env T keeps (connection env) (connection-ConnectionLaws env) now p l.session
          h)
        (λ s k. k))

  read_step-On :
      (now : ℕ) (x : Signal) (l : Loop S)
      → TiedStream l
      → Holds TiedStream (read_step env cfg to_raw now x l)
  unfolding read_step send_heartbeat
  read_step-On now request_done l h = destroy-On l.session h
  read_step-On now ended l h = destroy-On l.session h
  read_step-On now stopping l h =
      destroy-On (send_close env CloseCode.restart l.session)
        (closed-On CloseCode.restart l.session h)
  read_step-On now heartbeat_due l h =
      let (s, ok) = send_heartbeat env l.session in
      let k : Tied s = write-On _ _ h in
      if-On ok (record l { session = s }) (end_loop env cfg to_raw s) k (destroy-On s k)
  read_step-On now liveness l h = h
  read_step-On now (dispatched none) l h = destroy-On l.session h
  read_step-On now (dispatched (some raw)) l h = receive-On now raw l h

  subscribe_all-On :
      (ps : List SubscribePayload) (s : Session S)
      → Tied s
      → Holds Tied (subscribe_all env cfg to_raw ps s)
  unfolding subscribe_all
  subscribe_all-On [] s h = h
  subscribe_all-On (p ∷ ps) s h =
      Holds-then (OnFirst env T keeps) Tied
        (Handler.subscribe env cfg (connection env) (to_raw p) s) _
        (subscribe-On env T keeps cfg (connection env) (connection-ConnectionLaws env) (to_raw p) s
          h)
        (λ q k. go q.0 q.1 k (λ s' k'. subscribe_all-On ps s' k'))
    where
      go :
          (s' : Session S) (r : Reply)
          → Tied s'
          → ((s' : Session S) → Tied s' → Holds Tied (subscribe_all env cfg to_raw ps s'))
          → Holds Tied (elim r as (λ _. Option (Session S)) [
            | accepted ↦ subscribe_all env cfg to_raw ps s'
            | refused ↦ some s'
            | failed ↦ some s'
          ])
      go s' accepted k rest = rest s' k
      go s' refused k rest = k
      go s' failed k rest = k

  subscribe_listed-On :
      (sub : Bytes) (s : Session S) → Tied s → Holds Tied (subscribe_listed env cfg to_raw sub s)
  unfolding subscribe_listed
  subscribe_listed-On sub s h = go s.done
    where
      go :
          (b : Bool)
          → Holds Tied
              (if b then some s else subscribe_all env cfg to_raw (parse_subscriptions sub) s)
      go true = h
      go false = subscribe_all-On (parse_subscriptions sub) s h

  with_session-On :
      (l : Loop S) (run : Option (Session S))
      → Holds Tied run
      → Holds TiedStream (with_session env cfg to_raw l run)
  with_session-On l none h = h
  with_session-On l (some s) h = h

  perform-On :
      (a : Action) (l : Loop S)
      → IsUntimed a
      → TiedStream l
      → Holds TiedStream (perform env cfg to_raw a l)
  unfolding perform
  perform-On (greeting population) l t h = start-On population l.session h
  perform-On (serve now x) l t h = read_step-On now x l h
  perform-On (subscribe_url sub) l t h =
      with_session-On l (subscribe_listed env cfg to_raw sub l.session)
        (subscribe_listed-On sub l.session h)
  perform-On (fire id) l t h = absurd t
  perform-On shutting_down l t h = closed-On CloseCode.restart l.session h

  -- What `Subscribe`, `Unsubscribe` and `Destroy` keep, every history of rounds without the end of a time
  -- to live keeps.
  pub perform_stream-On :
      (history : List Action) (l : Loop S)
      → All IsUntimed history
      → TiedStream l
      → Holds TiedStream (perform_all env cfg to_raw history l)
  unfolding perform_all
  perform_stream-On [] l t h = h
  perform_stream-On (a ∷ more) l t h =
      Holds-then TiedStream TiedStream (perform env cfg to_raw a l)
        (perform_all env cfg to_raw more) (perform-On a l t.0 h)
        (λ l' k. perform_stream-On more l' t.1 k)
