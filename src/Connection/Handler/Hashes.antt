-- ===== src/Connection/Handler/Hashes.antt =====
-- internal/app/connection/handle.go with internal/app/connection/cache.go: what the effects of a dispatch
-- keep of the hashes that a session has seen.
use event_api.Base.{
  ℕ, suc, ◌≡◌, refl, List, [], ◌∷◌, ◌++◌, Option, none, some, Bool, true, false, Bytes,
  if◌then◌else◌, ltb, ite, ℕ_discrete, arith,
}
use event_api.Connection.Types.{
  Env, EnvLaws, EventCondition, EventSubscriptionProperties, SessionEffect,
  SessionEffectSubscription, contains,
}
use event_api.Connection.Cache.{Cache, add_dispatch, expire_dispatch, has_dispatch}
use event_api.Connection.EventMap
use event_api.Connection.EventMap.{Outcome}
use event_api.Connection.Session.{
  Session, Timer, subscribe_events, unsubscribe_events, with_outcome,
}
use event_api.Connection.Handler.Dispatching.{
  dedupe, add_subscriptions, remove_subscriptions, remove_hashes, apply_effect,
}
use event_api.Connection.Handler.Lifting.{Holds, Holds-then}

-- The effect does not make the session forget the hash.
abbrev pub Spares : ℕ → Option SessionEffect → Type 0
Spares h none = Unit
Spares h (some x) = contains h x.remove_hashes ≡ false

module _ {S : Type 0} (env : Env S) (sets : EnvLaws env) (h : ℕ) where
  -- The session has seen the hash.
  abbrev pub Knows : Session S → Type 0
  Knows s = has_dispatch env h s.cache ≡ true

  abbrev KnowsFirst : Session S × Outcome → Type 0
  KnowsFirst q = Knows q.0

  with_outcome-Knows :
      (s : Session S) (u : Option Outcome) → Knows s → Holds KnowsFirst (with_outcome env s u)
  with_outcome-Knows s none k = tt
  with_outcome-Knows s (some o) k = k

  subscribe_events-Knows :
      (t : Bytes) (cond : EventCondition) (props : EventSubscriptionProperties) (s : Session S)
      → Knows s
      → Holds KnowsFirst (subscribe_events env t cond props s)
  unfolding subscribe_events
  subscribe_events-Knows t cond props s k =
      with_outcome-Knows (record s { draws = suc s.draws })
        (EventMap.subscribe env (env.rand s.draws) t cond props s.events s.registry) k

  unsubscribe_events-Knows :
      (t : Bytes) (cond : EventCondition) (s : Session S)
      → Knows s
      → Holds KnowsFirst (unsubscribe_events env t cond s)
  unfolding unsubscribe_events
  unsubscribe_events-Knows t cond s k =
      with_outcome-Knows s (EventMap.unsubscribe env t cond s.events s.registry) k

  add_subscriptions-Knows :
      (now : ℕ) (es : List SessionEffectSubscription) (s : Session S)
      → Knows s
      → Holds Knows (add_subscriptions env now es s)
  unfolding add_subscriptions
  add_subscriptions-Knows now [] s k = k
  add_subscriptions-Knows now (e ∷ es) s k =
      Holds-then KnowsFirst Knows (subscribe_events env e.event_type e.condition _ s) _
        (subscribe_events-Knows e.event_type e.condition _ s k)
        (λ q k'.
          add_subscriptions-Knows now es
            (if ltb 0 e.ttl
              then record q.0 { timers = q.0.timers ++ record { ttl = e.ttl; id = q.1.id } ∷ [] }
              else q.0)
            (timed (ltb 0 e.ttl) q.0 (q.0.timers ++ record { ttl = e.ttl; id = q.1.id } ∷ []) k'))
    where
      timed :
          (b : Bool) (a : Session S) (ts : List Timer)
          → Knows a
          → Knows (if b then record a { timers = ts } else a)
      timed true a ts k = k
      timed false a ts k = k

  remove_subscriptions-Knows :
      (es : List SessionEffectSubscription) (s : Session S)
      → Knows s
      → Holds Knows (remove_subscriptions env es s)
  unfolding remove_subscriptions
  remove_subscriptions-Knows [] s k = k
  remove_subscriptions-Knows (e ∷ es) s k =
      Holds-then KnowsFirst Knows (unsubscribe_events env e.event_type e.condition s) _
        (unsubscribe_events-Knows e.event_type e.condition s k)
        (λ q k'. remove_subscriptions-Knows es q.0 k')

  expire_dispatch-other :
      (x : ℕ) (c : Cache S)
      → ite (ℕ_discrete h x) true false ≡ false
      → has_dispatch env h c ≡ true
      → has_dispatch env h (expire_dispatch env x c) ≡ true
  unfolding has_dispatch expire_dispatch
  expire_dispatch-other x c other k = ground (arith, sets.has-delete h x c.dispatch)

  not_first :
      (x : ℕ) (xs : List ℕ) → contains h (x ∷ xs) ≡ false → ite (ℕ_discrete h x) true false ≡ false
  unfolding contains
  not_first x xs e = ground arith

  not_rest : (x : ℕ) (xs : List ℕ) → contains h (x ∷ xs) ≡ false → contains h xs ≡ false
  unfolding contains
  not_rest x xs e = ground arith

  remove_hashes-Knows :
      (hs : List ℕ) (s : Session S)
      → contains h hs ≡ false
      → Knows s
      → Knows (remove_hashes env hs s)
  unfolding remove_hashes
  remove_hashes-Knows [] s e k = k
  remove_hashes-Knows (x ∷ hs) s e k =
      remove_hashes-Knows hs (record s { cache = expire_dispatch env x s.cache }) (not_rest x hs e)
        (expire_dispatch-other x s.cache (not_first x hs e) k)

  pub apply_effect-Knows :
      (now : ℕ) (x : Option SessionEffect) (s : Session S)
      → Spares h x
      → Knows s
      → Holds Knows (apply_effect env now x s)
  unfolding apply_effect
  apply_effect-Knows now none s e k = k
  apply_effect-Knows now (some x) s e k =
      Holds-then Knows Knows (add_subscriptions env now x.add_subscriptions s) _
        (add_subscriptions-Knows now x.add_subscriptions s k)
        (λ s' k'.
          Holds-then Knows Knows (remove_subscriptions env x.remove_subscriptions s') _
            (remove_subscriptions-Knows x.remove_subscriptions s' k')
            (λ s'' k''. remove_hashes-Knows x.remove_hashes s'' e k''))

  pub dedupe-Knows : (x : Option ℕ) (s : Session S) → Knows s → Knows (dedupe env x s).0
  unfolding dedupe has_dispatch add_dispatch
  dedupe-Knows none s k = k
  dedupe-Knows (some x) s k = ground (arith, sets.has-add h x s.cache.dispatch)

  pub dedupe-own : (s : Session S) → Knows (dedupe env (some h) s).0
  unfolding dedupe has_dispatch add_dispatch
  dedupe-own s = ground (arith, sets.has-add h h s.cache.dispatch)

  pub dedupe-stale :
      (s : Session S)
      → Knows s
      → ((dedupe env (some h) s).1 ≡ false) × ((dedupe env (some h) s).0.sent ≡ s.sent)
  unfolding dedupe has_dispatch add_dispatch
  dedupe-stale s k = (ground arith, refl)
