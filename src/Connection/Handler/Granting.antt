-- ===== src/Connection/Handler/Granting.antt =====
-- internal/app/connection/handle.go: what the command `Subscribe` does to a connection, over any
-- transport that keeps the laws of `Connection`.
use event_api.Base.{
  suc, ◌≡◌, refl, ◌⊎◌, inl, inr, [], ◌∷◌, Option, none, some, Bool, true, false, ite, Bytes,
  bytes_dec, arith, Option-cases, ap, sym, ◌∙◌, if◌then◌else◌, ◌++◌, if_pos,
}
use event_api.Nats
use event_api.Connection.Types
use event_api.Connection.Types.{
  CloseCode, subscribed, Env, EnvLaws, ApiConfig, RawMessage, SubscribePayload, EventCondition,
}
use event_api.Connection.EventMap.{Outcome, Error, already_subscribed, not_subscribed, count_of}
use event_api.Connection.EventMap
use event_api.Connection.EventMap.Removal.{destroy}
use event_api.Connection.EventMap.View.{Entry, view, IsValid, find_entry}
use event_api.Connection.EventMap.Subscribing.{subscribe-Subscribed, extend, linked, answer}
use event_api.Connection.Session.{Session, Connection, ConnectionLaws, subscribe_events}
use event_api.Connection.Handler.{
  add_subscription, no_properties, plain, Reply, refused, accepted, Refusal, refuse, subscribe,
}
use event_api.Connection.Handler.Validation.{IsAcceptable, check_subscribe-IsAcceptable}

module _ (e e' : EventMap.EventMap) (v : IsValid e) (v' : IsValid e') where
  IsValid-either :
      (b : Bool) (r r' : Nats.Registry)
      → IsValid (if◌then◌else◌ {A = EventMap.EventMap × Nats.Registry} b (e, r) (e', r')).0
  IsValid-either true r r' = v
  IsValid-either false r r' = v'

pub destroy-IsValid :
    (e : EventMap.EventMap) (r : Nats.Registry) → IsValid e → IsValid (destroy e r).0
unfolding destroy
destroy-IsValid e r v =
    IsValid-either e
      (record e { once = true; m = []; cancelled = EventMap.Removal.cancel_all e.m e.cancelled }) v
      (record { channels = tt }) e.once r (Nats.close e.subscription r)

answer_error :
    (found : Option Entry) (err : Error) → answer found ≡ some err → err ≡ already_subscribed
answer_error none err h = cc
answer_error (some en) err h = ground arith

module _ {S : Type 0} (env : Env S) (cfg : ApiConfig) (conn : Connection S)
    (laws : ConnectionLaws conn) (m : RawMessage) (p : SubscribePayload)
    (decoded : env.convert_subscribe m ≡ some p) (s : Session S) where
  -- An acceptable request is granted exactly if no subscription of its type matches, or the first
  -- that matches was made automatically. Then the new entry is appended to those of the type if none
  -- matched, and its dispatch key is subscribed; otherwise neither the entries nor the registry
  -- change. Any other acceptable request is refused as already subscribed and ends the connection.
  -- There is no panic.
  pub subscribe_acceptable :
      IsValid s.events
      → IsAcceptable cfg.subscription_limit (count_of s.events) (conn.has_actor s) p
      → (s' : Session S) × (reply : Reply) × (subscribe env cfg conn m s ≡ some (s', reply))
        × (((answer (find_entry env p.condition (view s.events p.event_type)) ≡ none)
              × (reply ≡ accepted)
              × ((u : Bytes)
                  → view s'.events u
                    ≡ ite
                        (bytes_dec u p.event_type)
                        (extend
                          (find_entry env p.condition (view s.events p.event_type))
                          (view s.events p.event_type)
                          (record {
                            id = env.rand s.draws;
                            condition = p.condition;
                            properties = record { ttl = none; auto = false };
                          }))
                        (view s.events u))
              × (s'.registry
                  ≡ linked (find_entry env p.condition (view s.events p.event_type)) s.registry (
                      Nats.subscribe s.events.subscription
                        (env.dispatch_key p.event_type p.condition ∷ [])
                        s.registry)))
            ⊎ ((answer (find_entry env p.condition (view s.events p.event_type))
                  ≡ some already_subscribed)
                × (reply ≡ refused)
                × (s'.done ≡ true)))
  unfolding subscribe subscribe_events
  subscribe_acceptable v a =
      let (o, run, did) =
        subscribe-Subscribed env (env.rand s.draws) p.event_type p.condition no_properties s.events
          s.registry v in
      let after : Session S = record s {
        draws = suc s.draws;
        events = o.events;
        registry = o.registry;
      } in
      let fits =
        (check_subscribe-IsAcceptable cfg.subscription_limit (count_of s.events) (conn.has_actor s)
            p).1
          a in
      elim (Option-cases o.error) [
        | inl ok ↦
            let core =
              laws.ack_core Types.subscribe (subscribed o.id p.event_type p.condition) after in
            (
              (conn.send_ack Types.subscribe (subscribed o.id p.event_type p.condition) after).0,
              accepted,
              rw (decoded, subscribe)
                  (rw (fits, subscribe)
                    (rw (run, subscribe_events, add_subscription)
                      (rw (ok, add_subscription) refl))),
              inl (
                sym did.answers ∙ ok,
                refl,
                λ u. ap (λ e. view e u) core.events ∙ did.views u,
                core.registry ∙ did.links,
              ),
            )
        | inr (err, bad) ↦
            let why =
              answer_error (find_entry env p.condition (view s.events p.event_type)) err
                (sym did.answers ∙ bad) in
            let known : o.error ≡ some already_subscribed = bad ∙ ap some why in
            let x : Refusal =
              plain "Already subscribed to this event" CloseCode.already_subscribed in
            (
              refuse env cfg conn x after,
              refused,
              rw (decoded, subscribe)
                  (rw (fits, subscribe)
                    (rw (run, subscribe_events, add_subscription)
                      (rw (known, add_subscription) refl))),
              inr (
                sym did.answers ∙ known,
                refl,
                laws.close_done x.code (conn.send_error x.txt x.fields after),
              ),
            )
      ]

  -- What a granted request leaves before its acknowledgement: a session that differs in its draws, its
  -- event map and its registry only, with the new entry at the end of those of its type, and with its
  -- dispatch key subscribed.
  pub record IsGranted (after : Session S) : Type 0 where
    pub rest :
        after ≡ record s { draws = suc s.draws; events = after.events; registry = after.registry }
    pub valid : IsValid after.events
    pub entries :
        view after.events p.event_type
        ≡ view s.events p.event_type
          ++ (record {
            id = env.rand s.draws;
            condition = p.condition;
            properties = record { ttl = none; auto = false };
          })
            ∷ []
    pub registered :
        after.registry
        ≡ Nats.subscribe s.events.subscription
            (env.dispatch_key p.event_type p.condition ∷ [])
            s.registry

  -- An acceptable request that no subscription of its type matches is granted and acknowledged.
  pub subscribe-IsGranted :
      IsValid s.events
      → IsAcceptable cfg.subscription_limit (count_of s.events) (conn.has_actor s) p
      → find_entry env p.condition (view s.events p.event_type) ≡ none
      → (after : Session S) × (subscribe env cfg conn m s
          ≡ some (
            (conn.send_ack Types.subscribe
                (subscribed (env.rand s.draws) p.event_type p.condition)
                after).0,
            accepted,
          ))
        × IsGranted after
  unfolding subscribe subscribe_events
  subscribe-IsGranted v a new =
      let (o, run, did) =
        subscribe-Subscribed env (env.rand s.draws) p.event_type p.condition no_properties s.events
          s.registry v in
      let after : Session S = record s {
        draws = suc s.draws;
        events = o.events;
        registry = o.registry;
      } in
      let fits =
        (check_subscribe-IsAcceptable cfg.subscription_limit (count_of s.events) (conn.has_actor s)
            p).1
          a in
      let ok : o.error ≡ none = did.answers ∙ ap answer new in
      (
        after,
        rw (decoded, subscribe)
            (rw (fits, subscribe)
              (rw (run, subscribe_events, add_subscription)
                (rw (ok, add_subscription) (rw did.identifies refl)))),
        record {
          rest = refl;
          valid = did.valid;
          entries =
              did.views p.event_type
              ∙ if_pos (bytes_dec p.event_type p.event_type) refl _ _
              ∙ rw new refl;
          registered = did.links ∙ rw new refl;
        },
      )
