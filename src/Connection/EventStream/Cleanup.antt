-- ===== src/Connection/EventStream/Cleanup.antt =====
-- internal/app/connection/eventstream/eventstream_read.go: what the end of `Read` leaves behind.
use event_api.Base.{
  ◌≡◌, refl, Option, none, some, Bool, true, false, subst, if◌then◌else◌, arith, ℕ,
}
use event_api.Nats.{Subscription}
use event_api.Nats.Laws.{IsConsistent}
use event_api.Connection.Types.{
  Env, ApiConfig, CloseCode, RawMessage, SubscribePayload, DispatchPayload, Message, hello,
  heartbeat, end_of_stream, hello_payload, heartbeat_payload, end_of_stream_payload,
}
use event_api.Connection.EventMap.Expiry.{IsGone, destroy-IsGone, destroy_again}
use event_api.Connection.Handler.Dispatching.{on_dispatch}
use event_api.Connection.Session.{Session, destroy_events, next64}
use event_api.Connection.EventStream.{
  connection, write-SameCore, destroy, set_ready, set_writer, send_close, send_heartbeat, write,
  greet,
}
use event_api.Connection.EventStream.Reading.{
  Loop, Signal, request_done, ended, stopping, heartbeat_due, liveness, dispatched, Action,
  greeting, serve, subscribe_url, fire, shutting_down, end_loop, start, receive, read_step,
  with_session, perform,
}

-- A stream whose resources are free: it has ended, nobody waits for it, and its event map and its NATS
-- subscriptions are gone.
pub record IsFreed {S : Type 0} (sub : Subscription) (s : Session S) : Type 0 where
  pub ended : s.done ≡ true
  pub waited : s.ready ≡ true
  pub gone : IsGone sub s.events s.registry

-- Whether a round is one that `Read` makes: the greeting, or a round of its loop.
abbrev pub is_reading : Action → Bool → Bool
is_reading (greeting n) running = true
is_reading _ running = running

module _ {S : Type 0} (env : Env S) where
  -- `Destroy` of a session that has the event map and the registry of another one.
  destroy-IsFreed :
      (s s' : Session S)
      → s'.events ≡ s.events
      → s'.registry ≡ s.registry
      → s.events.once ≡ false
      → IsConsistent s.registry
      → IsFreed s.events.subscription (destroy env s')
  unfolding destroy destroy_events set_ready
  destroy-IsFreed s s' same_events same_registry live c = record {
    ended = refl;
    waited = refl;
    gone = rw (same_events, same_registry) (destroy-IsGone s.events s.registry live c);
  }

  -- A second `Destroy` changes nothing of it.
  destroy-IsFreed_again :
      (sub : Subscription) (s : Session S) → IsFreed sub s → IsFreed sub (destroy env s)
  unfolding destroy destroy_events set_ready
  destroy-IsFreed_again sub s f = record {
    ended = refl;
    waited = refl;
    gone = rw (destroy_again s.events s.registry f.gone.once) f.gone;
  }

  one_of_two-IsFreed :
      (sub : Subscription) (b : Bool) (s s' : Session S)
      → IsFreed sub (destroy env s)
      → IsFreed sub (destroy env s')
      → IsFreed sub (destroy env (if b then s else s'))
  one_of_two-IsFreed sub true s s' f g = f
  one_of_two-IsFreed sub false s s' f g = g

  abbrev heartbeat_message : ℕ → Message
  heartbeat_message n = record { op = heartbeat; command = none; content = heartbeat_payload n }

  abbrev hello_message : Session S → ℕ → Message
  hello_message s population = record {
    op = hello;
    command = none;
    content = hello_payload s.heartbeat_interval s.session_id s.subscription_limit population;
  }

  -- A round that frees the stream wherever it ends `Read`.
  abbrev Frees : Subscription → Option (Loop S) → Type 0
  Frees sub run = (l' : Loop S) → run ≡ some l' → l'.running ≡ false → IsFreed sub l'.session

  none-Frees : (sub : Subscription) → Frees sub none
  none-Frees sub l' run = absurd (ground arith)

  running-Frees : (sub : Subscription) (l : Loop S) → l.running ≡ true → Frees sub (some l)
  running-Frees sub l going l' run over = absurd (cc)

  freed-Frees : (sub : Subscription) (l : Loop S) → IsFreed sub l.session → Frees sub (some l)
  freed-Frees sub l f l' run over = subst (λ (k : Loop S). IsFreed sub k.session) (some_same run) f
    where
      some_same : {a b : Loop S} → some a ≡ some b → a ≡ b
      some_same p = cc

  if-Frees :
      (sub : Subscription) (b : Bool) (l k : Loop S)
      → (b ≡ true → Frees sub (some l))
      → (b ≡ false → Frees sub (some k))
      → Frees sub (some (if b then l else k))
  if-Frees sub true l k f g = f refl
  if-Frees sub false l k f g = g refl

  module _ (cfg : ApiConfig) (to_raw : SubscribePayload → RawMessage) (l : Loop S) where
    abbrev sub_of : Subscription
    sub_of = l.session.events.subscription

    with_session-Frees :
        (run : Option (Session S))
        → l.running ≡ true
        → Frees sub_of (with_session env cfg to_raw l run)
    with_session-Frees none going = none-Frees sub_of
    with_session-Frees (some s) going = running-Frees sub_of (record l { session = s }) going

    receive-Frees :
        (now : ℕ) (u : Option DispatchPayload)
        → l.running ≡ true
        → Frees sub_of (elim u as (λ _. Option (Loop S)) [
          | none ↦ some l
          | some p ↦
              elim (on_dispatch env (connection env) now p l.session) as (λ _. Option (Loop S)) [
                | none ↦ none
                | some s ↦ some (record l { session = s })
              ]
        ])
    receive-Frees now none going = running-Frees sub_of l going
    receive-Frees now (some p) going =
        with_session-Frees (on_dispatch env (connection env) now p l.session) going

    module _ (live : l.session.events.once ≡ false) (c : IsConsistent l.session.registry) where
      end_loop-Frees :
          (s : Session S)
          → s.events ≡ l.session.events
          → s.registry ≡ l.session.registry
          → Frees sub_of (some (end_loop env cfg to_raw s))
      end_loop-Frees s e r =
          freed-Frees sub_of (end_loop env cfg to_raw s) (destroy-IsFreed l.session s e r live c)

      closing-IsFreed :
          (code : CloseCode) → IsFreed sub_of (destroy env (send_close env code l.session))
      unfolding send_close
      closing-IsFreed code =
          let m : Message = record {
            op = end_of_stream;
            command = none;
            content = end_of_stream_payload code;
          } in
          let core = write-SameCore env m l.session in
          one_of_two-IsFreed sub_of l.session.done l.session (destroy env (write env m l.session).0)
            (destroy-IsFreed l.session l.session refl refl live c)
            (destroy-IsFreed_again sub_of (destroy env (write env m l.session).0) (
              destroy-IsFreed l.session (write env m l.session).0 core.events core.registry live c))

      read_step-Frees :
          (now : ℕ) (x : Signal)
          → l.running ≡ true
          → Frees sub_of (read_step env cfg to_raw now x l)
      unfolding read_step receive send_heartbeat
      read_step-Frees now request_done going = end_loop-Frees l.session refl refl
      read_step-Frees now ended going = end_loop-Frees l.session refl refl
      read_step-Frees now stopping going = freed-Frees sub_of _ (closing-IsFreed CloseCode.restart)
      read_step-Frees now heartbeat_due going =
          let (s, ok) = send_heartbeat env l.session in
          let core =
            write-SameCore env (heartbeat_message (next64 l.session.heartbeat_count))
              (record l.session { heartbeat_count = next64 l.session.heartbeat_count }) in
          let next : Loop S = record l { session = s } in
          if-Frees sub_of ok next (end_loop env cfg to_raw s) (λ _. running-Frees sub_of next going)
            (λ _. end_loop-Frees s core.events core.registry)
      read_step-Frees now liveness going = running-Frees sub_of l going
      read_step-Frees now (dispatched none) going = end_loop-Frees l.session refl refl
      read_step-Frees now (dispatched (some raw)) going =
          receive-Frees now (env.unmarshal_dispatch raw) going

      -- Where the event map of an event stream has not been destroyed and the registry is consistent, the
      -- round in which `Read` ends, whichever it is and the failed greeting included, frees what the
      -- connection holds: the session has ended, nobody waits for it to be ready, its event map is
      -- destroyed and empty, and no subject of the registry has its session any more.
      pub perform-IsFreed :
          (a : Action) (l' : Loop S)
          → is_reading a l.running ≡ true
          → perform env cfg to_raw a l ≡ some l'
          → l'.running ≡ false
          → IsFreed l.session.events.subscription l'.session
      unfolding perform start greet set_writer
      perform-IsFreed (greeting population) l' going run over =
          let s0 = set_writer env l.session in
          let (s, ok) = greet env population s0 in
          let core = write-SameCore env (hello_message s0 population) s0 in
          let next : Loop S = record { session = set_ready env s; running = true } in
          if-Frees sub_of ok next (end_loop env cfg to_raw s) (λ _. running-Frees sub_of next refl)
            (λ _. end_loop-Frees s core.events core.registry) l' run over
      perform-IsFreed (serve now x) l' going run over = read_step-Frees now x going l' run over
      perform-IsFreed (subscribe_url text) l' going run over =
          with_session-Frees _ going l' run over
      perform-IsFreed (fire id) l' going run over = with_session-Frees _ going l' run over
      perform-IsFreed shutting_down l' going run over = running-Frees sub_of _ going l' run over
