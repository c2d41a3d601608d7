-- ===== src/Connection/Handler/Lifting.antt =====
-- internal/app/connection/handle.go: what the methods of the handler keep of an event map and the registry
-- that its own operations keep.
use event_api.Base.{
  ℕ, suc, ◌≡◌, refl, inl, inr, List, [], ◌∷◌, ◌++◌, Option, none, some, Bool, true, false, Bytes,
  if◌then◌else◌, ltb, sym, subst,
}
use event_api.Nats.{Registry}
use event_api.Connection.Types.{
  Env, CloseCode, EventCondition, EventSubscriptionProperties, DispatchPayload, SessionEffect,
  SessionEffectSubscription,
}
use event_api.Connection.EventMap
use event_api.Connection.EventMap.{
  EventMap, Outcome, Error, already_subscribed, not_subscribed, count_of,
}
use event_api.Connection.EventMap.Removal.{destroy}
use event_api.Connection.Session.{
  Session, Timer, Connection, ConnectionLaws, SameCore, subscribe_events, unsubscribe_events,
  with_outcome,
}
use event_api.Connection.Buffer.{EventBuffer, push}
use event_api.Connection.Handler.Dispatching.{
  filter_dispatch, dedupe, add_subscriptions, remove_subscriptions, remove_hashes, apply_effect,
  deliver, on_dispatch, dispatch_message,
}

-- A property of what a run leaves, if it leaves anything.
abbrev pub Holds : {A : Type 0} → (A → Type 0) → Option A → Type 0
Holds P none = Unit
Holds P (some a) = P a

pub Holds-then :
    {A B : Type 0} (P : A → Type 0) (Q : B → Type 0) (o : Option A) (f : A → Option B)
    → Holds P o
    → ((a : A) → P a → Holds Q (f a))
    → Holds Q (elim o as (λ _. Option B) [ none ↦ none | some a ↦ f a ])
Holds-then P Q none f h k = tt
Holds-then P Q (some a) f h k = k a h

pub Holds-either :
    {A B : Type 0} (Q : B → Type 0) (o : Option A) (x : Option B) (f : A → Option B)
    → Holds Q x
    → ((a : A) → Holds Q (f a))
    → Holds Q (elim o as (λ _. Option B) [ none ↦ x | some a ↦ f a ])
Holds-either Q none x f h k = h
Holds-either Q (some a) x f h k = k a

-- A property of an event map and the registry that `Subscribe`, `Unsubscribe` and `Destroy` keep.
pub record IsPreserved {S : Type 0} (env : Env S) (T : EventMap → Registry → Type 0) : Type 0 where
  pub subscribes :
      (id : ℕ) (t : Bytes) (cond : EventCondition) (props : EventSubscriptionProperties)
      (e : EventMap) (r : Registry) (o : Outcome)
      → T e r
      → EventMap.subscribe env id t cond props e r ≡ some o
      → T o.events o.registry
  pub unsubscribes :
      (t : Bytes) (cond : EventCondition) (e : EventMap) (r : Registry) (o : Outcome)
      → T e r
      → EventMap.unsubscribe env t cond e r ≡ some o
      → T o.events o.registry
  pub destroys : (e : EventMap) (r : Registry) → T e r → T (destroy e r).0 (destroy e r).1

module _ {S : Type 0} (env : Env S) (T : EventMap → Registry → Type 0)
    (keeps : IsPreserved env T) where
  -- The property, of a session.
  abbrev pub On : Session S → Type 0
  On s = T s.events s.registry

  abbrev pub OnFirst : {X : Type 0} → Session S × X → Type 0
  OnFirst q = On q.0

  with_outcome-On :
      (s : Session S) (u : Option Outcome)
      → ((o : Outcome) → u ≡ some o → T o.events o.registry)
      → Holds OnFirst (with_outcome env s u)
  with_outcome-On s none h = tt
  with_outcome-On s (some o) h = h o refl

  pub subscribe_events-On :
      (t : Bytes) (cond : EventCondition) (props : EventSubscriptionProperties) (s : Session S)
      → On s
      → Holds OnFirst (subscribe_events env t cond props s)
  unfolding subscribe_events
  subscribe_events-On t cond props s h =
      with_outcome-On (record s { draws = suc s.draws })
        (EventMap.subscribe env (env.rand s.draws) t cond props s.events s.registry)
        (λ o run. keeps.subscribes (env.rand s.draws) t cond props s.events s.registry o h run)

  pub unsubscribe_events-On :
      (t : Bytes) (cond : EventCondition) (s : Session S)
      → On s
      → Holds OnFirst (unsubscribe_events env t cond s)
  unfolding unsubscribe_events
  unsubscribe_events-On t cond s h =
      with_outcome-On s (EventMap.unsubscribe env t cond s.events s.registry)
        (λ o run. keeps.unsubscribes t cond s.events s.registry o h run)

  pub same-On : (s s' : Session S) → SameCore s s' → On s → On s'
  same-On s s' c h =
      subst (λ r. T s'.events r) (sym c.registry) (subst (λ e. T e s.registry) (sym c.events) h)

  -- The effects of a dispatch.
  add_subscriptions-On :
      (now : ℕ) (es : List SessionEffectSubscription) (s : Session S)
      → On s
      → Holds On (add_subscriptions env now es s)
  unfolding add_subscriptions
  add_subscriptions-On now [] s h = h
  add_subscriptions-On now (e ∷ es) s h =
      Holds-then OnFirst On (subscribe_events env e.event_type e.condition _ s) _
        (subscribe_events-On e.event_type e.condition _ s h)
        (λ q k.
          add_subscriptions-On now es
            (if ltb 0 e.ttl
              then record q.0 { timers = q.0.timers ++ record { ttl = e.ttl; id = q.1.id } ∷ [] }
              else q.0)
            (timed (ltb 0 e.ttl) q.0 (q.0.timers ++ record { ttl = e.ttl; id = q.1.id } ∷ []) k))
    where
      timed :
          (b : Bool) (a : Session S) (ts : List Timer)
          → On a
          → On (if b then record a { timers = ts } else a)
      timed true a ts k = k
      timed false a ts k = k

  remove_subscriptions-On :
      (es : List SessionEffectSubscription) (s : Session S)
      → On s
      → Holds On (remove_subscriptions env es s)
  unfolding remove_subscriptions
  remove_subscriptions-On [] s h = h
  remove_subscriptions-On (e ∷ es) s h =
      Holds-then OnFirst On (unsubscribe_events env e.event_type e.condition s) _
        (unsubscribe_events-On e.event_type e.condition s h)
        (λ q k. remove_subscriptions-On es q.0 k)

  remove_hashes-On : (hs : List ℕ) (s : Session S) → On s → On (remove_hashes env hs s)
  unfolding remove_hashes
  remove_hashes-On [] s h = h
  remove_hashes-On (x ∷ hs) s h = remove_hashes-On hs _ h

  apply_effect-On :
      (now : ℕ) (x : Option SessionEffect) (s : Session S)
      → On s
      → Holds On (apply_effect env now x s)
  unfolding apply_effect
  apply_effect-On now none s h = h
  apply_effect-On now (some x) s h =
      Holds-then On On (add_subscriptions env now x.add_subscriptions s) _
        (add_subscriptions-On now x.add_subscriptions s h)
        (λ s' k.
          Holds-then On On (remove_subscriptions env x.remove_subscriptions s') _
            (remove_subscriptions-On x.remove_subscriptions s' k)
            (λ s'' k'. remove_hashes-On x.remove_hashes s'' k'))

  dedupe-On : (h : Option ℕ) (s : Session S) → On s → On (dedupe env h s).0
  unfolding dedupe
  dedupe-On none s k = k
  dedupe-On (some h) s k = k

  module _ (conn : Connection S) (laws : ConnectionLaws conn) where
    pub close-On : (code : CloseCode) (s : Session S) → On s → On (conn.send_close code s)
    close-On code s h = elim (laws.close_events code s) [
      | inl (e, r) ↦ moved s.events s.registry e r h
      | inr (e, r) ↦
          moved (destroy s.events s.registry).0 (destroy s.events s.registry).1 e r
            (keeps.destroys s.events s.registry h)
    ]
      where
        moved :
            (e : EventMap) (r : Registry)
            → (conn.send_close code s).events ≡ e
            → (conn.send_close code s).registry ≡ r
            → T e r
            → On (conn.send_close code s)
        moved e r p q k =
            subst (λ x. T (conn.send_close code s).events x) (sym q) (subst (λ x. T x r) (sym p) k)

    deliver-On :
        (p : DispatchPayload) (matches : List ℕ) (s : Session S)
        → On s
        → On (deliver env conn p matches s)
    unfolding deliver
    deliver-On p matches s h = go s.buffer
      where
        go :
            (b : Option EventBuffer)
            → On (elim b as (λ _. Session S) [
              | some b ↦ record s { buffer = some (push p b).0 }
              | none ↦ (conn.write (dispatch_message env conn p matches) s).0
            ])
        go none =
            same-On s (conn.write (dispatch_message env conn p matches) s).0
              (laws.write_core (dispatch_message env conn p matches) s) h
        go (some b) = h

    if-Holds :
        (b : Bool) (x y : Option (Session S))
        → Holds On x
        → Holds On y
        → Holds On (if b then x else y)
    if-Holds true x y h k = h
    if-Holds false x y h k = k

    pub on_dispatch-On :
        (now : ℕ) (p : DispatchPayload) (s : Session S)
        → On s
        → Holds On (on_dispatch env conn now p s)
    unfolding on_dispatch
    on_dispatch-On now p s h = go (filter_dispatch env p s)
      where
        sent :
            (matches : List ℕ)
            → Holds On (
                let (s', fresh) = dedupe env p.hash s in
                if fresh
                then elim (apply_effect env now p.effect s') as (λ _. Option (Session S)) [
                  | none ↦ none
                  | some s'' ↦ some (deliver env conn p matches s'')
                ]
                else some s')
        sent matches =
            let (s', fresh) = dedupe env p.hash s in
            if-Holds fresh
              (elim (apply_effect env now p.effect s') as (λ _. Option (Session S)) [
                | none ↦ none
                | some s'' ↦ some (deliver env conn p matches s'')
              ])
              (some s')
              (Holds-then On On (apply_effect env now p.effect s')
                (λ s''. some (deliver env conn p matches s''))
                (apply_effect-On now p.effect s' (dedupe-On p.hash s h))
                (λ s'' k. deliver-On p matches s'' k))
              (dedupe-On p.hash s h)

        go :
            (f : Option (Option (List ℕ)))
            → Holds On (elim f as (λ _. Option (Session S)) [
              | none ↦ none
              | some none ↦ some s
              | some (some matches) ↦
                  let (s', fresh) = dedupe env p.hash s in
                  if fresh
                  then elim (apply_effect env now p.effect s') as (λ _. Option (Session S)) [
                    | none ↦ none
                    | some s'' ↦ some (deliver env conn p matches s'')
                  ]
                  else some s'
            ])
        go none = tt
        go (some none) = h
        go (some (some matches)) = sent matches
