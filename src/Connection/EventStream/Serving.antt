-- ===== src/Connection/EventStream/Serving.antt =====
-- internal/app/connection/eventstream: the interleavings of the goroutines of an event stream.
use event_api.Base.{
  ℕ, ◌≡◌, refl, inl, inr, List, [], ◌∷◌, Option, none, some, true, Bytes, Option-cases, Bool-cases,
  arith, ap, sym, subst,
}
use event_api.Connection.Types.{Env, EnvLaws, ApiConfig, CloseCode, RawMessage, SubscribePayload}
use event_api.Connection.EventMap.View.{IsValid}
use event_api.Connection.Session.{Session, destroy_events}
use event_api.Connection.EventStream.{
  connection, connection-ConnectionLaws, destroy, greet, set_ready, set_writer, send_close,
  send_heartbeat, write-SameCore,
}
use event_api.Connection.EventStream.Reading.{
  Signal, request_done, ended, stopping, heartbeat_due, liveness, dispatched, Loop, Action,
  greeting, serve, subscribe_url, fire, shutting_down, end_loop, start, receive, read_step,
  subscribe_all, subscribe_listed, with_session, perform, perform_all,
}
use event_api.Connection.EventStream.Url.{parse_subscriptions}
use event_api.Connection.Handler
use event_api.Connection.Handler.{Reply, failed, refused, accepted}
use event_api.Connection.Handler.Granting.{destroy-IsValid}
use event_api.Connection.Handler.Answering.{subscribe-IsAnswered, send_close-IsValid}
use event_api.Connection.Handler.Safety.{on_dispatch-IsHandled}
use event_api.Connection.Handler.Dispatching.{fire_timer}
use event_api.Connection.Handler.Effects.{fire_timer-IsSilent}

module _ {S : Type 0} (env : Env S) (sets : EnvLaws env) (cfg : ApiConfig)
    (to_raw : SubscribePayload → RawMessage) where
  -- A step that returns and leaves a valid event map.
  record IsServed (run : Option (Loop S)) : Type 0 where
    after : Loop S
    returns : run ≡ some after
    valid : IsValid after.session.events

  -- The same, of a step of the session.
  record IsKept (run : Option (Session S)) : Type 0 where
    after : Session S
    returns : run ≡ some after
    valid : IsValid after.events

  end_loop-IsValid :
      (s : Session S) → IsValid s.events → IsValid (end_loop env cfg to_raw s).session.events
  unfolding destroy destroy_events set_ready
  end_loop-IsValid s v = destroy-IsValid s.events s.registry v

  end_loop-IsServed :
      (s : Session S) → IsValid s.events → IsServed (some (end_loop env cfg to_raw s))
  end_loop-IsServed s v = record {
    after = end_loop env cfg to_raw s;
    returns = refl;
    valid = end_loop-IsValid s v;
  }

  close-IsValid :
      (code : CloseCode) (s : Session S) → IsValid s.events → IsValid (send_close env code s).events
  close-IsValid = send_close-IsValid env sets cfg (connection env) (connection-ConnectionLaws env)

  greet-IsValid : (n : ℕ) (s : Session S) → IsValid s.events → IsValid (greet env n s).0.events
  unfolding greet
  greet-IsValid n s v = subst IsValid (sym (write-SameCore env _ s).events) v

  send_heartbeat-IsValid :
      (s : Session S) → IsValid s.events → IsValid (send_heartbeat env s).0.events
  unfolding send_heartbeat
  send_heartbeat-IsValid s v = subst IsValid (sym (write-SameCore env _ _).events) v

  start-IsServed :
      (n : ℕ) (s : Session S) → IsValid s.events → IsServed (some (start env cfg to_raw n s))
  unfolding start set_writer set_ready
  start-IsServed n s v =
      let s' : Session S = (greet env n (set_writer env s)).0 in
      let v' = greet-IsValid n (set_writer env s) v in
      elim (Bool-cases (greet env n (set_writer env s)).1) [
        | inl ok ↦ record {
          after = record { session = set_ready env s'; running = true };
          returns = rw ok refl;
          valid = v';
        }
        | inr bad ↦ record {
          after = end_loop env cfg to_raw s';
          returns = rw bad refl;
          valid = end_loop-IsValid s' v';
        }
      ]

  receive-IsServed :
      (now : ℕ) (raw : Bytes) (l : Loop S)
      → IsValid l.session.events
      → IsServed (receive env cfg to_raw now raw l)
  unfolding receive
  receive-IsServed now raw l v = elim (Option-cases (env.unmarshal_dispatch raw)) [
    | inl bad ↦ record { after = l; returns = rw (bad, receive) refl; valid = v }
    | inr (p, ok) ↦
        let done =
          on_dispatch-IsHandled env sets (connection env) (connection-ConnectionLaws env) now p
            l.session v in
        record {
          after = record l { session = done.after };
          returns = rw (ok, receive) (rw (done.returns, receive) refl);
          valid = done.valid;
        }
  ]

  read_step-IsServed :
      (now : ℕ) (x : Signal) (l : Loop S)
      → IsValid l.session.events
      → IsServed (read_step env cfg to_raw now x l)
  unfolding read_step
  read_step-IsServed now request_done l v = end_loop-IsServed l.session v
  read_step-IsServed now ended l v = end_loop-IsServed l.session v
  read_step-IsServed now stopping l v =
      end_loop-IsServed (send_close env CloseCode.restart l.session)
        (close-IsValid CloseCode.restart l.session v)
  read_step-IsServed now heartbeat_due l v =
      let s : Session S = (send_heartbeat env l.session).0 in
      let v' = send_heartbeat-IsValid l.session v in
      elim (Bool-cases (send_heartbeat env l.session).1) [
        | inl ok ↦ record { after = record l { session = s }; returns = rw ok refl; valid = v' }
        | inr bad ↦ record {
          after = end_loop env cfg to_raw s;
          returns = rw bad refl;
          valid = end_loop-IsValid s v';
        }
      ]
  read_step-IsServed now liveness l v = record { after = l; returns = refl; valid = v }
  read_step-IsServed now (dispatched none) l v = end_loop-IsServed l.session v
  read_step-IsServed now (dispatched (some raw)) l v = receive-IsServed now raw l v

  subscribe_all-IsKept :
      (ps : List SubscribePayload) (s : Session S)
      → IsValid s.events
      → IsKept (subscribe_all env cfg to_raw ps s)
  unfolding subscribe_all
  subscribe_all-IsKept [] s v = record { after = s; returns = refl; valid = v }
  subscribe_all-IsKept (p ∷ ps) s v =
      let one =
        subscribe-IsAnswered env sets cfg (connection env) (connection-ConnectionLaws env)
          (to_raw p) s v in
      go one.after one.reply one.returns one.valid (subscribe_all-IsKept ps one.after one.valid)
    where
      go :
          (s' : Session S) (r : Reply)
          → Handler.subscribe env cfg (connection env) (to_raw p) s ≡ some (s', r)
          → IsValid s'.events
          → IsKept (subscribe_all env cfg to_raw ps s')
          → IsKept (subscribe_all env cfg to_raw (p ∷ ps) s)
      go s' accepted run v' rest = record {
        after = rest.after;
        returns = rw (run, subscribe_all) rest.returns;
        valid = rest.valid;
      }
      go s' refused run v' rest = record {
        after = s';
        returns = rw (run, subscribe_all) refl;
        valid = v';
      }
      go s' failed run v' rest = record {
        after = s';
        returns = rw (run, subscribe_all) refl;
        valid = v';
      }

  subscribe_listed-IsKept :
      (sub : Bytes) (s : Session S)
      → IsValid s.events
      → IsKept (subscribe_listed env cfg to_raw sub s)
  unfolding subscribe_listed
  subscribe_listed-IsKept sub s v =
      let all = subscribe_all-IsKept (parse_subscriptions sub) s v in
      elim (Bool-cases s.done) [
        | inl gone ↦ record { after = s; returns = ground arith; valid = v }
        | inr live ↦ record {
          after = all.after;
          returns = ground (arith, all.returns);
          valid = all.valid;
        }
      ]

  kept-IsServed :
      (l : Loop S) {run : Option (Session S)}
      → IsKept run
      → IsServed (with_session env cfg to_raw l run)
  kept-IsServed l {run} k = record {
    after = record l { session = k.after };
    returns = ap (with_session env cfg to_raw l) k.returns;
    valid = k.valid;
  }

  fire-IsKept : (id : ℕ) (s : Session S) → IsValid s.events → IsKept (fire_timer env id s)
  fire-IsKept id s v =
      let fired = fire_timer-IsSilent env sets id s v in
      record { after = fired.after; returns = fired.returns; valid = fired.valid }

  perform-IsServed :
      (a : Action) (l : Loop S) → IsValid l.session.events → IsServed (perform env cfg to_raw a l)
  unfolding perform
  perform-IsServed (greeting n) l v = start-IsServed n l.session v
  perform-IsServed (serve now x) l v = read_step-IsServed now x l v
  perform-IsServed (subscribe_url sub) l v =
      kept-IsServed l (subscribe_listed-IsKept sub l.session v)
  perform-IsServed (fire id) l v = kept-IsServed l (fire-IsKept id l.session v)
  perform-IsServed shutting_down l v = record {
    after = record l { session = send_close env CloseCode.restart l.session };
    returns = refl;
    valid = close-IsValid CloseCode.restart l.session v;
  }

  -- From a session with a valid event map, every history of rounds of an event stream, in any
  -- interleaving, with any inputs and any URL, runs to its end: nothing panics, and the event map is
  -- valid afterwards.
  pub perform_stream-IsValid :
      (history : List Action) (l : Loop S)
      → IsValid l.session.events
      → (l' : Loop S) × (perform_all env cfg to_raw history l ≡ some l') × IsValid l'.session.events
  unfolding perform_all
  perform_stream-IsValid [] l v = (l, refl, v)
  perform_stream-IsValid (a ∷ more) l v =
      let one = perform-IsServed a l v in
      let (l', run, v') = perform_stream-IsValid more one.after one.valid in
      (l', rw (one.returns, perform_all) run, v')
