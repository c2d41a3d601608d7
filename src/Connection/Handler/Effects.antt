-- ===== src/Connection/Handler/Effects.antt =====
-- internal/app/connection/handle.go: the effects of a dispatch on the event map and the timers.
use event_api.Base.{
  ℕ, suc, ◌≡◌, refl, inl, inr, List, [], ◌∷◌, Option, none, some, Bool, true, false, Bytes,
  if◌then◌else◌, ltb, bytes_dec, Option-cases, Bool-cases, arith, sym, subst, if_pos, if_neg, ◌∙◌,
  ◌++◌, ◌+◌,
}
use event_api.Connection.Types.{
  Env, EnvLaws, DispatchPayload, SessionEffect, SessionEffectSubscription, EventCondition,
  EventSubscriptionProperties,
}
use event_api.Connection.EventMap.{Outcome, is_nil}
use event_api.Connection.EventMap.View.{IsValid}
use event_api.Connection.EventMap.Lookup.{get}
use event_api.Connection.EventMap.Subscribing.{subscribe-Subscribed}
use event_api.Connection.EventMap.Unsubscribing.{unsubscribe-Unsubscribed}
use event_api.Connection.EventMap.Matching.{reached, reached-is_hit}
use event_api.Connection.EventMap.Expiry.{length-unsubscribe_with_id}
use event_api.Connection.Cache.{expire_dispatch}
use event_api.Connection.Session.{
  Session, Timer, subscribe_events, unsubscribe_events, unsubscribe_ids,
}
use event_api.Connection.Handler.Dispatching.{
  filter_dispatch, add_subscriptions, remove_subscriptions, remove_hashes, apply_effect, fire_timer,
}

-- A run that returns, keeps the event map valid, leaves open whether the connection has ended, and
-- sends nothing.
pub record IsSilent {S : Type 0} (s : Session S) (run : Option (Session S)) : Type 0 where
  pub after : Session S
  pub returns : run ≡ some after
  pub valid : IsValid after.events
  pub lives : after.done ≡ s.done
  pub sent : after.sent ≡ s.sent

module _ {S : Type 0} (env : Env S) (sets : EnvLaws env) where
  pub subscribe_events_total :
      (t : Bytes) (cond : EventCondition) (props : EventSubscriptionProperties) (s : Session S)
      → IsValid s.events
      → (s' : Session S) × (o : Outcome) × (subscribe_events env t cond props s ≡ some (s', o))
        × IsValid s'.events
        × (s'.done ≡ s.done)
        × (s'.sent ≡ s.sent)
  unfolding subscribe_events
  subscribe_events_total t cond props s v =
      let (o, run, did) =
        subscribe-Subscribed env (env.rand s.draws) t cond props s.events s.registry v in
      (
        record s { draws = suc s.draws; events = o.events; registry = o.registry },
        o,
        rw (run, subscribe_events) refl,
        did.valid,
        refl,
        refl,
      )

  pub unsubscribe_events_total :
      (t : Bytes) (cond : EventCondition) (s : Session S)
      → IsValid s.events
      → (s' : Session S) × (o : Outcome) × (unsubscribe_events env t cond s ≡ some (s', o))
        × IsValid s'.events
        × (s'.done ≡ s.done)
        × (s'.sent ≡ s.sent)
  unfolding unsubscribe_events
  unsubscribe_events_total t cond s v =
      let (o, run, did) = unsubscribe-Unsubscribed env sets t s.events s.registry cond v in
      (
        record s { events = o.events; registry = o.registry },
        o,
        rw (run, unsubscribe_events) refl,
        did.valid,
        refl,
        refl,
      )

  timer_core :
      (b : Bool) (timer : Timer) (s : Session S)
      → IsValid s.events
      → IsValid (if b then record s { timers = s.timers ++ timer ∷ [] } else s).events
        × ((if b then record s { timers = s.timers ++ timer ∷ [] } else s).done ≡ s.done)
        × ((if b then record s { timers = s.timers ++ timer ∷ [] } else s).sent ≡ s.sent)
  timer_core true timer s v = (v, refl, refl)
  timer_core false timer s v = (v, refl, refl)

  add_subscriptions-IsSilent :
      (now : ℕ) (es : List SessionEffectSubscription) (s : Session S)
      → IsValid s.events
      → IsSilent s (add_subscriptions env now es s)
  unfolding add_subscriptions
  add_subscriptions-IsSilent now [] s v = record {
    after = s;
    returns = refl;
    valid = v;
    lives = refl;
    sent = refl;
  }
  add_subscriptions-IsSilent now (e ∷ es) s v =
      let props : EventSubscriptionProperties = record {
        ttl = if ltb 0 e.ttl then some (now + e.ttl) else none;
        auto = true;
      } in
      let (s', o, run, v', d, q) = subscribe_events_total e.event_type e.condition props s v in
      let next : Session S =
        if ltb 0 e.ttl
        then record s' { timers = s'.timers ++ record { ttl = e.ttl; id = o.id } ∷ [] }
        else s' in
      let (vn, dn, qn) = timer_core (ltb 0 e.ttl) (record { ttl = e.ttl; id = o.id }) s' v' in
      let rest = add_subscriptions-IsSilent now es next vn in
      record {
        after = rest.after;
        returns = rw (run, add_subscriptions) rest.returns;
        valid = rest.valid;
        lives = rest.lives ∙ dn ∙ d;
        sent = rest.sent ∙ qn ∙ q;
      }

  remove_subscriptions-IsSilent :
      (es : List SessionEffectSubscription) (s : Session S)
      → IsValid s.events
      → IsSilent s (remove_subscriptions env es s)
  unfolding remove_subscriptions
  remove_subscriptions-IsSilent [] s v = record {
    after = s;
    returns = refl;
    valid = v;
    lives = refl;
    sent = refl;
  }
  remove_subscriptions-IsSilent (e ∷ es) s v =
      let (s', o, run, v', d, q) = unsubscribe_events_total e.event_type e.condition s v in
      let rest = remove_subscriptions-IsSilent es s' v' in
      record {
        after = rest.after;
        returns = rw (run, remove_subscriptions) rest.returns;
        valid = rest.valid;
        lives = rest.lives ∙ d;
        sent = rest.sent ∙ q;
      }

  remove_hashes_core :
      (hs : List ℕ) (s : Session S)
      → ((remove_hashes env hs s).events ≡ s.events)
        × ((remove_hashes env hs s).done ≡ s.done)
        × ((remove_hashes env hs s).sent ≡ s.sent)
  unfolding remove_hashes
  remove_hashes_core [] s = (refl, refl, refl)
  remove_hashes_core (h ∷ hs) s =
      remove_hashes_core hs (record s { cache = expire_dispatch env h s.cache })

  pub apply_effect-IsSilent :
      (now : ℕ) (x : Option SessionEffect) (s : Session S)
      → IsValid s.events
      → IsSilent s (apply_effect env now x s)
  unfolding apply_effect
  apply_effect-IsSilent now none s v = record {
    after = s;
    returns = refl;
    valid = v;
    lives = refl;
    sent = refl;
  }
  apply_effect-IsSilent now (some x) s v =
      let add = add_subscriptions-IsSilent now x.add_subscriptions s v in
      let drop = remove_subscriptions-IsSilent x.remove_subscriptions add.after add.valid in
      let core = remove_hashes_core x.remove_hashes drop.after in
      record {
        after = remove_hashes env x.remove_hashes drop.after;
        returns = rw (add.returns, apply_effect) (rw (drop.returns, apply_effect) refl);
        valid = subst IsValid (sym core.0) drop.valid;
        lives = core.1 ∙ drop.lives ∙ add.lives;
        sent = core.2 ∙ drop.sent ∙ add.sent;
      }

  pub filter_dispatch_total :
      (p : DispatchPayload) (s : Session S)
      → IsValid s.events
      → (found : Option (List ℕ)) × (filter_dispatch env p s ≡ some found)
  unfolding filter_dispatch reached
  filter_dispatch_total p s v =
      let (out, run, _) = reached-is_hit env sets p.event_type p.conditions s.events v in
      elim (Bool-cases (is_nil p.whisper)) [
        | inr whispered ↦ elim (bytes_dec p.whisper s.session_id) [
          | yes e ↦ (some [], rw (whispered, filter_dispatch) (rw (if_pos _ e) refl))
          | no n ↦ (none, rw (whispered, filter_dispatch) (rw (if_neg _ n) refl))
        ]
        | inl plain ↦ elim (Option-cases (get env p.event_type s.events)) [
          | inl absent ↦ (none, rw (plain, filter_dispatch) (rw (absent, filter_dispatch) refl))
          | inr (ec, present) ↦ elim (Bool-cases (is_nil out)) [
            | inl e ↦ (none, ground arith)
            | inr e ↦ (some out, ground arith)
          ]
        ]
      ]

  -- A timer that fires does not panic and keeps the map valid.
  pub fire_timer-IsSilent :
      (id : ℕ) (s : Session S) → IsValid s.events → IsSilent s (fire_timer env id s)
  unfolding fire_timer unsubscribe_ids
  fire_timer-IsSilent id s v =
      let (o, run, v', _, _) =
        length-unsubscribe_with_id env sets (id ∷ []) s.events s.registry v in
      elim (Bool-cases s.done) [
        | inl ended ↦ record {
          after = s;
          returns = ground arith;
          valid = v;
          lives = refl;
          sent = refl;
        }
        | inr live ↦ record {
          after = record s { events = o.events; registry = o.registry };
          returns = ground arith;
          valid = v';
          lives = refl;
          sent = refl;
        }
      ]
