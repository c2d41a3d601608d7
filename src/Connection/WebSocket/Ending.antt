-- ===== src/Connection/WebSocket/Ending.antt =====
-- internal/app/connection/websocket: the interleavings of the loops of a WebSocket, before and after
-- the end of the connection.
use event_api.Base.{
  ℕ, ◌≡◌, refl, inl, inr, List, [], ◌∷◌, Option, none, some, Bool, true, Bytes, codes, Option-cases,
  Bool-cases, ◌∙◌,
}
use event_api.Connection.Types.{
  Env, EnvLaws, ApiConfig, CloseCode, Message, Opcode, reconnect_payload,
}
use event_api.Connection.EventMap.View.{IsValid}
use event_api.Connection.WebSocket.{
  connection, connection-ConnectionLaws, greet, send_close, send_heartbeat, write,
}
use event_api.Connection.WebSocket.Reading.{
  Loop, running, over, Input, Signal, ended, stopping, ttl_over, heartbeat_due, dispatched,
  start_client, client_step, end_client, end_server, start_server, receive, server_step, shut_down,
  timer_step, Action, greeting, serve, start_reading, read, fire, shutting_down, perform,
  perform_all,
}
use event_api.Connection.Handler.Safety.{on_dispatch-IsHandled}
use event_api.Connection.Handler.Effects.{fire_timer-IsSilent, subscribe_events_total}
use event_api.Connection.WebSocket.Steps.{
  connection-IsMute, IsStep, then-IsStep, destroy-IsStep, write-IsStep, send_heartbeat-IsStep,
  greet-IsStep, set_ready-IsStep, send_close-IsStep,
}
use event_api.Connection.WebSocket.Hearing.{read_input-IsHeard}

module _ {S : Type 0} (env : Env S) (sets : EnvLaws env) (cfg : ApiConfig) where
  -- A step of the loops.
  record IsRound (l : Loop S) (run : Option (Loop S)) : Type 0 where
    after : Loop S
    returns : run ≡ some after
    step : IsStep l.session after.session

  client_step-IsRound :
      (now : ℕ) (runs : Bool) (i : Input) (l : Loop S)
      → IsValid l.session.events
      → IsRound l (client_step env cfg now runs i l)
  unfolding client_step
  client_step-IsRound now runs i l v =
      let in_ = read_input-IsHeard env sets cfg now runs i l.session v in
      elim (Bool-cases in_.more) [
        | inl goes ↦ record {
          after = record l { session = in_.after };
          returns = rw (in_.returns, client_step) (rw goes refl);
          step = in_.step;
        }
        | inr stops ↦ record {
          after = end_client env cfg (record l { session = in_.after });
          returns = rw (in_.returns, client_step) (rw stops refl);
          step = then-IsStep in_.step (destroy-IsStep env in_.after);
        }
      ]

  start_client-IsRound :
      (whisper : Bytes) (l : Loop S)
      → IsValid l.session.events
      → IsRound l (start_client env cfg whisper l)
  unfolding start_client
  start_client-IsRound whisper l v =
      let (s', o, run, v', d, q) =
        subscribe_events_total env sets whisper ((codes "session_id", l.session.session_id) ∷ [])
          (record { ttl = none; auto = true }) l.session v in
      elim (Bool-cases l.session.done) [
        | inl gone ↦ record {
          after = record l { client = over };
          returns = rw (gone, start_client) refl;
          step = record { valid = v; ends = λ h. (h, refl) };
        }
        | inr live ↦ record {
          after = record l { session = s'; client = running };
          returns = rw (run, start_client) (rw live refl);
          step = record { valid = v'; ends = λ h. (d ∙ h, q) };
        }
      ]

  start_server-IsStep :
      (n : ℕ) (l : Loop S)
      → IsValid l.session.events
      → IsStep l.session (start_server env cfg n l).session
  unfolding start_server
  start_server-IsStep n l v = elim (Bool-cases (greet env n l.session).1) [
    | inl ok ↦ rw ok (
        then-IsStep (greet-IsStep env n l.session v)
          (set_ready-IsStep env (greet env n l.session).0))
    | inr bad ↦ rw bad (
        then-IsStep (greet-IsStep env n l.session v) (destroy-IsStep env (greet env n l.session).0))
  ]

  receive-IsRound :
      (now : ℕ) (raw : Bytes) (l : Loop S)
      → IsValid l.session.events
      → IsRound l (receive env cfg now raw l)
  unfolding receive
  receive-IsRound now raw l v = elim (Option-cases (env.unmarshal_dispatch raw)) [
    | inl bad ↦ record {
      after = l;
      returns = rw (bad, receive) refl;
      step = record { valid = v; ends = λ h. (h, refl) };
    }
    | inr (p, ok) ↦
        let done =
          on_dispatch-IsHandled env sets (connection env) (connection-ConnectionLaws env) now p
            l.session v in
        record {
          after = record l { session = done.after };
          returns = rw (ok, receive) (rw (done.returns, receive) refl);
          step = record { valid = done.valid; ends = done.quiet (connection-IsMute env) };
        }
  ]

  server_step-IsRound :
      (now : ℕ) (x : Signal) (l : Loop S)
      → IsValid l.session.events
      → IsRound l (server_step env cfg now x l)
  unfolding server_step
  server_step-IsRound now ended l v = record {
    after = end_server env cfg l l.session;
    returns = refl;
    step = destroy-IsStep env l.session v;
  }
  server_step-IsRound now stopping l v =
      let s = send_close env CloseCode.restart l.session in
      record {
        after = end_server env cfg l s;
        returns = refl;
        step =
            then-IsStep (send_close-IsStep env CloseCode.restart l.session v)
              (destroy-IsStep env s);
      }
  server_step-IsRound now ttl_over l v =
      let m : Message = record {
        op = Opcode.reconnect;
        command = none;
        content = reconnect_payload "The server requested a reconnect";
      } in
      let s = (write env m l.session).0 in
      let s' = send_close env CloseCode.reconnect s in
      record {
        after = end_server env cfg l s';
        returns = refl;
        step = then-IsStep (write-IsStep env m l.session v) (λ w.
            then-IsStep (send_close-IsStep env CloseCode.reconnect s w) (destroy-IsStep env s'));
      }
  server_step-IsRound now heartbeat_due l v = elim (Bool-cases l.deferred) [
    | inl late ↦ record {
      after = l;
      returns = rw (late, server_step) refl;
      step = record { valid = v; ends = λ h. (h, refl) };
    }
    | inr due ↦ elim (Bool-cases (send_heartbeat env l.session).1) [
      | inl ok ↦ record {
        after = record l { session = (send_heartbeat env l.session).0 };
        returns = rw (due, server_step) (rw ok refl);
        step = send_heartbeat-IsStep env l.session v;
      }
      | inr bad ↦ record {
        after = end_server env cfg l (send_heartbeat env l.session).0;
        returns = rw (due, server_step) (rw bad refl);
        step =
            then-IsStep (send_heartbeat-IsStep env l.session v)
              (destroy-IsStep env (send_heartbeat env l.session).0);
      }
    ]
  ]
  server_step-IsRound now (dispatched none) l v = record {
    after = end_server env cfg l l.session;
    returns = refl;
    step = destroy-IsStep env l.session v;
  }
  server_step-IsRound now (dispatched (some raw)) l v = receive-IsRound now raw l v

  timer_step-IsRound :
      (id : ℕ) (l : Loop S) → IsValid l.session.events → IsRound l (timer_step env cfg id l)
  unfolding timer_step
  timer_step-IsRound id l v =
      let fired = fire_timer-IsSilent env sets id l.session v in
      record {
        after = record l { session = fired.after };
        returns = rw (fired.returns, timer_step) refl;
        step = record { valid = fired.valid; ends = λ h. (fired.lives ∙ h, fired.sent) };
      }

  perform-IsRound :
      (a : Action) (l : Loop S) → IsValid l.session.events → IsRound l (perform env cfg a l)
  unfolding perform shut_down
  perform-IsRound (greeting n) l v = record {
    after = start_server env cfg n l;
    returns = refl;
    step = start_server-IsStep n l v;
  }
  perform-IsRound (serve now x) l v = server_step-IsRound now x l v
  perform-IsRound (start_reading whisper) l v = start_client-IsRound whisper l v
  perform-IsRound (read now runs i) l v = client_step-IsRound now runs i l v
  perform-IsRound (fire id) l v = timer_step-IsRound id l v
  perform-IsRound shutting_down l v = record {
    after = shut_down env cfg l;
    returns = refl;
    step = send_close-IsStep env CloseCode.restart l.session v;
  }

  perform_all-IsStep :
      (history : List Action) (l : Loop S)
      → IsValid l.session.events
      → (l' : Loop S) × (perform_all env cfg history l ≡ some l') × IsStep l.session l'.session
  unfolding perform_all
  perform_all-IsStep [] l v = (l, refl, record { valid = v; ends = λ h. (h, refl) })
  perform_all-IsStep (a ∷ more) l v =
      let one = perform-IsRound a l v in
      let (l', run, step) = perform_all-IsStep more one.after one.step.valid in
      (l', rw (one.returns, perform_all) run, then-IsStep one.step (λ w. step))

  -- From a session with a valid event map, every history of rounds, in any interleaving and with
  -- any inputs, runs to its end: nothing panics, and the event map is valid afterwards.
  pub perform_all-IsValid :
      (history : List Action) (l : Loop S)
      → IsValid l.session.events
      → (l' : Loop S) × (perform_all env cfg history l ≡ some l') × IsValid l'.session.events
  perform_all-IsValid history l v =
      let (l', run, step) = perform_all-IsStep history l v in (l', run, step.valid)

  -- From a session that has ended, every history of rounds runs to its end, the session stays ended,
  -- and nothing more is sent.
  pub perform_all_ended :
      (history : List Action) (l : Loop S)
      → IsValid l.session.events
      → l.session.done ≡ true
      → (l' : Loop S) × (perform_all env cfg history l ≡ some l')
        × (l'.session.done ≡ true)
        × (l'.session.sent ≡ l.session.sent)
  perform_all_ended history l v h =
      let (l', run, step) = perform_all-IsStep history l v in
      let still = step.ends h in (l', run, still.0, still.1)
