-- ===== src/Connection/Handler/Commands.antt =====
-- internal/app/connection/handle.go: what the commands of a client keep of an event map and the registry.
use event_api.Base.{ℕ, List, [], ◌∷◌, Option, none, some, false}
use event_api.Nats.{Registry}
use event_api.Connection.Types
use event_api.Connection.Types.{
  Env, ApiConfig, CloseCode, RawMessage, SubscribePayload, DispatchPayload, subscribed,
  unsubscribed, resumed,
}
use event_api.Connection.EventMap.{
  EventMap, Error, Outcome, already_subscribed, not_subscribed, count_of,
}
use event_api.Connection.Session.{
  Session, Connection, ConnectionLaws, subscribe_events, unsubscribe_events,
}
use event_api.Connection.Handler.{
  Reply, failed, refused, accepted, Refusal, refuse, plain, no_properties, add_subscription,
  subscribe, unsubscribe, on_resume, check_subscribe,
}
use event_api.Connection.Handler.Dispatching.{on_dispatch, dispatch_all, on_bridge}
use event_api.Connection.Handler.Lifting.{
  Holds, Holds-either, Holds-then, IsPreserved, On, OnFirst, same-On, close-On, subscribe_events-On,
  unsubscribe_events-On, on_dispatch-On,
}

module _ {S : Type 0} (env : Env S) (T : EventMap → Registry → Type 0) (keeps : IsPreserved env T)
    (cfg : ApiConfig) (conn : Connection S) (laws : ConnectionLaws conn) where
  abbrev Tied : Session S → Type 0
  Tied = On env T keeps

  abbrev TiedFirst : {X : Type 0} → Session S × X → Type 0
  TiedFirst = OnFirst env T keeps

  refuse-On : (x : Refusal) (s : Session S) → Tied s → Tied (refuse env cfg conn x s)
  refuse-On x s h = close-On env T keeps conn laws x.code (conn.send_error x.txt x.fields s) (
      same-On env T keeps s (conn.send_error x.txt x.fields s) (laws.error_core x.txt x.fields s) h)

  add_subscription-On :
      (p : SubscribePayload) (s : Session S)
      → Tied s
      → Holds TiedFirst (add_subscription env cfg conn p s)
  add_subscription-On p s h =
      Holds-then TiedFirst TiedFirst (subscribe_events env p.event_type p.condition no_properties s)
        _ (subscribe_events-On env T keeps p.event_type p.condition no_properties s h)
        (λ q k. go q.0 q.1 q.1.error k)
    where
      go :
          (s' : Session S) (o : Outcome) (e : Option Error)
          → Tied s'
          → Holds TiedFirst (elim e as (λ _. Option (Session S × Reply)) [
            | none ↦ some (
              (conn.send_ack Types.subscribe (subscribed o.id p.event_type p.condition) s').0,
              accepted,
            )
            | some already_subscribed ↦ some (
              refuse env cfg conn
                  (plain "Already subscribed to this event" CloseCode.already_subscribed)
                  s',
              refused,
            )
            | some not_subscribed ↦ some (s', failed)
          ])
      go s' o none k =
          let said = subscribed o.id p.event_type p.condition in
          same-On env T keeps s' (conn.send_ack Types.subscribe said s').0
            (laws.ack_core Types.subscribe said s') k
      go s' o (some already_subscribed) k = refuse-On _ s' k
      go s' o (some not_subscribed) k = k

  pub subscribe-On :
      (m : RawMessage) (s : Session S) → Tied s → Holds TiedFirst (subscribe env cfg conn m s)
  unfolding subscribe
  subscribe-On m s h = Holds-either TiedFirst (env.convert_subscribe m) (some (s, failed)) _ h (λ p.
      checked p (check_subscribe cfg.subscription_limit (count_of s.events) (conn.has_actor s) p))
    where
      checked :
          (p : SubscribePayload) (c : Option Refusal)
          → Holds TiedFirst (elim c as (λ _. Option (Session S × Reply)) [
            | some x ↦ some (refuse env cfg conn x s, refused)
            | none ↦ add_subscription env cfg conn p s
          ])
      checked p none = add_subscription-On p s h
      checked p (some x) = refuse-On x s h

  pub unsubscribe-On :
      (m : RawMessage) (s : Session S) → Tied s → Holds TiedFirst (unsubscribe env cfg conn m s)
  unfolding unsubscribe
  unsubscribe-On m s h =
      Holds-either TiedFirst (env.convert_subscribe m) (some (s, failed)) _ h (λ p.
        Holds-then TiedFirst TiedFirst (unsubscribe_events env p.event_type p.condition s) _
          (unsubscribe_events-On env T keeps p.event_type p.condition s h)
          (λ q k. answered p q.0 q.1.error k))
    where
      answered :
          (p : SubscribePayload) (s' : Session S) (e : Option Error)
          → Tied s'
          → Holds TiedFirst (elim e as (λ _. Option (Session S × Reply)) [
            | none ↦ some (
              (conn.send_ack Types.unsubscribe (unsubscribed p.event_type p.condition) s').0,
              accepted,
            )
            | some not_subscribed ↦ some (conn.send_close CloseCode.not_subscribed s', accepted)
            | some already_subscribed ↦ some (s', failed)
          ])
      answered p s' none k =
          let said = unsubscribed p.event_type p.condition in
          same-On env T keeps s' (conn.send_ack Types.unsubscribe said s').0
            (laws.ack_core Types.unsubscribe said s') k
      answered p s' (some not_subscribed) k =
          close-On env T keeps conn laws CloseCode.not_subscribed s' k
      answered p s' (some already_subscribed) k = k

  pub on_resume-On : (m : RawMessage) (s : Session S) → Tied s → Tied (on_resume env cfg conn m s).0
  unfolding on_resume
  on_resume-On m s h =
      same-On env T keeps s (conn.send_ack Types.resume (resumed false 0 0) s).0
        (laws.ack_core Types.resume (resumed false 0 0) s) h

  dispatch_all-On :
      (now : ℕ) (ps : List DispatchPayload) (s : Session S)
      → Tied s
      → Holds Tied (dispatch_all env conn now ps s)
  unfolding dispatch_all
  dispatch_all-On now [] s h = h
  dispatch_all-On now (p ∷ ps) s h =
      Holds-then Tied Tied (on_dispatch env conn now p s) (dispatch_all env conn now ps)
        (on_dispatch-On env T keeps conn laws now p s h) (λ s' k. dispatch_all-On now ps s' k)

  pub on_bridge-On :
      (now : ℕ) (m : RawMessage) (s : Session S)
      → Tied s
      → Holds TiedFirst (on_bridge env conn now m s)
  unfolding on_bridge
  on_bridge-On now m s h =
      Holds-either TiedFirst (env.bridge s.session_id m) (some (s, failed)) _ h (λ ps.
        Holds-then Tied TiedFirst (dispatch_all env conn now ps s) (λ s'. some (s', accepted))
          (dispatch_all-On now ps s h) (λ s' k. k))
