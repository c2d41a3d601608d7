-- ===== src/Connection/Handler/Answering.antt =====
-- internal/app/connection/handle.go: `Subscribe` and `Unsubscribe` over any transport, before and after
-- the end of the connection.
use event_api.Base.{◌≡◌, refl, inl, inr, List, Option, some, true, Option-cases, sym, subst, ◌∙◌}
use Prim.Native.String.{String}
use event_api.Connection.Types
use event_api.Connection.Types.{
  Env, EnvLaws, ApiConfig, CloseCode, RawMessage, SubscribePayload, DispatchPayload, Message,
  Opcode, Payload, Field, subscribed, unsubscribed, resumed,
}
use event_api.Connection.EventMap.{already_subscribed, not_subscribed, count_of}
use event_api.Connection.EventMap.View.{IsValid}
use event_api.Connection.Session.{Session, Connection, ConnectionLaws}
use event_api.Connection.Handler.{
  Reply, failed, refused, accepted, Refusal, refuse, plain, no_properties, add_subscription,
  subscribe, unsubscribe, check_subscribe,
}
use event_api.Connection.Handler.Granting.{destroy-IsValid}
use event_api.Connection.Handler.Effects.{subscribe_events_total, unsubscribe_events_total}

-- A transport that sends nothing once the connection has ended.
pub record IsMute {S : Type 0} (conn : Connection S) : Type 0 where
  pub write_mute : (m : Message) (s : Session S) → s.done ≡ true → (conn.write m s).0.sent ≡ s.sent
  pub ack_mute :
      (op : Opcode) (d : Payload) (s : Session S)
      → s.done ≡ true
      → (conn.send_ack op d s).0.sent ≡ s.sent
  pub error_mute :
      (txt : String) (fields : List (String × Field)) (s : Session S)
      → s.done ≡ true
      → (conn.send_error txt fields s).sent ≡ s.sent
  pub close_mute :
      (code : CloseCode) (s : Session S) → s.done ≡ true → (conn.send_close code s).sent ≡ s.sent

-- Over a mute transport, what happens after the end leaves the connection ended, and nothing more
-- is sent.
abbrev pub IsQuiet : {S : Type 0} → Connection S → Session S → Session S → Type 0
IsQuiet conn s s' = IsMute conn → s.done ≡ true → (s'.done ≡ true) × (s'.sent ≡ s.sent)

pub after-IsQuiet :
    {S : Type 0} {conn : Connection S} (s s' s'' : Session S)
    → s'.done ≡ s.done
    → s'.sent ≡ s.sent
    → IsQuiet conn s' s''
    → IsQuiet conn s s''
after-IsQuiet s s' s'' d q k mute ended = let rest = k mute (d ∙ ended) in (rest.0, rest.1 ∙ q)

-- A handler that returns, keeps the event map valid, and is quiet.
pub record IsAnswered {S : Type 0} (conn : Connection S) (s : Session S)
    (run : Option (Session S × Reply)) : Type 0 where
  pub after : Session S
  pub reply : Reply
  pub returns : run ≡ some (after, reply)
  pub valid : IsValid after.events
  pub quiet : IsQuiet conn s after

-- A run that returns, keeps the event map valid, and is quiet.
pub record IsHandled {S : Type 0} (conn : Connection S) (s : Session S) (run : Option (Session S))
    : Type 0 where
  pub after : Session S
  pub returns : run ≡ some after
  pub valid : IsValid after.events
  pub quiet : IsQuiet conn s after

module _ {S : Type 0} (env : Env S) (sets : EnvLaws env) (cfg : ApiConfig) (conn : Connection S)
    (laws : ConnectionLaws conn) where
  pub send_close-IsValid :
      (code : CloseCode) (s : Session S)
      → IsValid s.events
      → IsValid (conn.send_close code s).events
  send_close-IsValid code s v = elim (laws.close_events code s) [
    | inl (same, _) ↦ subst IsValid (sym same) v
    | inr (gone, _) ↦ subst IsValid (sym gone) (destroy-IsValid s.events s.registry v)
  ]

  refuse-IsValid :
      (x : Refusal) (s : Session S) → IsValid s.events → IsValid (refuse env cfg conn x s).events
  refuse-IsValid x s v =
      send_close-IsValid x.code (conn.send_error x.txt x.fields s)
        (subst IsValid (sym (laws.error_core x.txt x.fields s).events) v)

  refuse-IsQuiet : (x : Refusal) (s : Session S) → IsQuiet conn s (refuse env cfg conn x s)
  refuse-IsQuiet x s mute ended =
      let said = conn.send_error x.txt x.fields s in
      (
        laws.close_done x.code said,
        mute.close_mute x.code said ((laws.error_core x.txt x.fields s).done ∙ ended)
            ∙ mute.error_mute x.txt x.fields s ended,
      )

  ack-IsQuiet :
      (op : Opcode) (d : Payload) (s : Session S) → IsQuiet conn s (conn.send_ack op d s).0
  ack-IsQuiet op d s mute ended = ((laws.ack_core op d s).done ∙ ended, mute.ack_mute op d s ended)

  close-IsQuiet : (code : CloseCode) (s : Session S) → IsQuiet conn s (conn.send_close code s)
  close-IsQuiet code s mute ended = (laws.close_done code s, mute.close_mute code s ended)

  add_subscription-IsAnswered :
      (p : SubscribePayload) (s : Session S)
      → IsValid s.events
      → IsAnswered conn s (add_subscription env cfg conn p s)
  add_subscription-IsAnswered p s v =
      let (s', o, run, v', d, q) =
        subscribe_events_total env sets p.event_type p.condition no_properties s v in
      elim (Option-cases o.error) [
        | inl ok ↦
            let said = subscribed o.id p.event_type p.condition in
            record {
              after = (conn.send_ack Types.subscribe said s').0;
              reply = accepted;
              returns = rw (run, add_subscription) (rw (ok, add_subscription) refl);
              valid = subst IsValid (sym (laws.ack_core Types.subscribe said s').events) v';
              quiet =
                  after-IsQuiet s s' ((conn.send_ack Types.subscribe said s').0) d q
                    (ack-IsQuiet Types.subscribe said s');
            }
        | inr (already_subscribed, bad) ↦
            let x : Refusal =
              plain "Already subscribed to this event" CloseCode.already_subscribed in
            record {
              after = refuse env cfg conn x s';
              reply = refused;
              returns = rw (run, add_subscription) (rw (bad, add_subscription) refl);
              valid = refuse-IsValid x s' v';
              quiet = after-IsQuiet s s' (refuse env cfg conn x s') d q (refuse-IsQuiet x s');
            }
        | inr (not_subscribed, bad) ↦ record {
          after = s';
          reply = failed;
          returns = rw (run, add_subscription) (rw (bad, add_subscription) refl);
          valid = v';
          quiet = after-IsQuiet s s' s' d q (λ mute ended. (ended, refl));
        }
      ]

  -- `Subscribe` returns on every message, keeps the event map valid, and is quiet.
  pub subscribe-IsAnswered :
      (m : RawMessage) (s : Session S)
      → IsValid s.events
      → IsAnswered conn s (subscribe env cfg conn m s)
  unfolding subscribe
  subscribe-IsAnswered m s v = elim (Option-cases (env.convert_subscribe m)) [
    | inl bad ↦ record {
      after = s;
      reply = failed;
      returns = rw (bad, subscribe) refl;
      valid = v;
      quiet = λ mute ended. (ended, refl);
    }
    | inr (p, ok) ↦
        elim (Option-cases
          (check_subscribe cfg.subscription_limit (count_of s.events) (conn.has_actor s) p)) [
            | inl fits ↦
                let rest = add_subscription-IsAnswered p s v in
                record {
                  after = rest.after;
                  reply = rest.reply;
                  returns = rw (ok, subscribe) (rw (fits, subscribe) rest.returns);
                  valid = rest.valid;
                  quiet = rest.quiet;
                }
            | inr (x, unfit) ↦ record {
              after = refuse env cfg conn x s;
              reply = refused;
              returns = rw (ok, subscribe) (rw (unfit, subscribe) refl);
              valid = refuse-IsValid x s v;
              quiet = refuse-IsQuiet x s;
            }
          ]
  ]

  -- `Unsubscribe` returns on every message, keeps the event map valid, and is quiet.
  pub unsubscribe-IsAnswered :
      (m : RawMessage) (s : Session S)
      → IsValid s.events
      → IsAnswered conn s (unsubscribe env cfg conn m s)
  unfolding unsubscribe
  unsubscribe-IsAnswered m s v = elim (Option-cases (env.convert_subscribe m)) [
    | inl bad ↦ record {
      after = s;
      reply = failed;
      returns = rw (bad, unsubscribe) refl;
      valid = v;
      quiet = λ mute ended. (ended, refl);
    }
    | inr (p, ok) ↦
        let (s', o, run, v', d, q) =
          unsubscribe_events_total env sets p.event_type p.condition s v in
        elim (Option-cases o.error) [
          | inl fine ↦
              let said = unsubscribed p.event_type p.condition in
              record {
                after = (conn.send_ack Types.unsubscribe said s').0;
                reply = accepted;
                returns =
                    rw (ok, unsubscribe) (rw (run, unsubscribe) (rw (fine, unsubscribe) refl));
                valid = subst IsValid (sym (laws.ack_core Types.unsubscribe said s').events) v';
                quiet =
                    after-IsQuiet s s' ((conn.send_ack Types.unsubscribe said s').0) d q
                      (ack-IsQuiet Types.unsubscribe said s');
              }
          | inr (already_subscribed, bad) ↦ record {
            after = s';
            reply = failed;
            returns = rw (ok, unsubscribe) (rw (run, unsubscribe) (rw (bad, unsubscribe) refl));
            valid = v';
            quiet = after-IsQuiet s s' s' d q (λ mute ended. (ended, refl));
          }
          | inr (not_subscribed, bad) ↦ record {
            after = conn.send_close CloseCode.not_subscribed s';
            reply = accepted;
            returns = rw (ok, unsubscribe) (rw (run, unsubscribe) (rw (bad, unsubscribe) refl));
            valid = send_close-IsValid CloseCode.not_subscribed s' v';
            quiet =
                after-IsQuiet s s' (conn.send_close CloseCode.not_subscribed s') d q
                  (close-IsQuiet CloseCode.not_subscribed s');
          }
        ]
  ]

  -- On a valid event map the `Unsubscribe` command returns on every message, and the event map is
  -- valid afterwards.
  pub unsubscribe-IsValid :
      (m : RawMessage) (s : Session S)
      → IsValid s.events
      → (s' : Session S) × (r : Reply) × (unsubscribe env cfg conn m s ≡ some (s', r))
        × IsValid s'.events
  unsubscribe-IsValid m s v =
      let did = unsubscribe-IsAnswered m s v in (did.after, did.reply, did.returns, did.valid)
