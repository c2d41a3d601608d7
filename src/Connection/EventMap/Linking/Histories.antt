-- ===== src/Connection/EventMap/Linking/Histories.antt =====
-- internal/app/connection/connection.go with internal/nats/subscription.go: histories of the calls of one
-- event map, among the calls that other sessions make on the registry.
use event_api.Base.{
  ℕ, ◌≡◌, refl, List, [], ◌∷◌, Option, none, some, Bool, false, Bytes, arith, ap, sym, ◌∙◌, subst,
  All, ◌&&◌,
}
use event_api.Nats.{Subscription, Registry, is_subscribed}
use event_api.Nats.Laws.{of_session}
use event_api.Nats.History as Calls
use event_api.Nats.History.{update, StandsFor, perform-StandsFor}
use event_api.Connection.Types.{Env, EnvLaws, EventCondition, EventSubscriptionProperties}
use event_api.Connection.EventMap.{EventMap, Outcome, subscribe, unsubscribe, is_nil}
use event_api.Connection.EventMap.Removal.{destroy}
use event_api.Connection.EventMap.Linking.{KeyLaws, IsLinked}
use event_api.Connection.EventMap.Linking.Calls.{
  subscribe-IsLinked, unsubscribe-IsLinked, destroy-IsLinked,
}

-- A call of a method of the event map, or what another session does to the registry.
pub data Operation : Type 0 where
  subscribing : ℕ → Bytes → EventCondition → EventSubscriptionProperties → Operation
  unsubscribing : Bytes → EventCondition → Operation
  destroying : Operation
  foreign : Calls.Operation → Operation

abbrev caller : Calls.Operation → Subscription
caller (Calls.subscribing s joins) = s
caller (Calls.unsubscribing s unsub) = s
caller (Calls.closing s) = s

-- The calls that are not of the event map are made for other sessions, and if `exact` is set, each
-- `Unsubscribe` has a condition.
abbrev pub IsAllowed : Bool → Bytes → Operation → Type 0
IsAllowed exact sid (subscribing id t cond props) = Unit
IsAllowed exact sid (unsubscribing t cond) = (exact && is_nil cond) ≡ false
IsAllowed exact sid destroying = Unit
IsAllowed exact sid (foreign op) = of_session sid (caller op) ≡ false

abbrev state_of : Option Outcome → Option (EventMap × Registry)
state_of none = none
state_of (some o) = some (o.events, o.registry)

module _ {S : Type 0} (env : Env S) where
  -- One call; `none` is a panic.
  unfoldable pub perform : Operation → EventMap → Registry → Option (EventMap × Registry)
  perform (subscribing id t cond props) e r = state_of (subscribe env id t cond props e r)
  perform (unsubscribing t cond) e r = state_of (unsubscribe env t cond e r)
  perform destroying e r = some (destroy e r)
  perform (foreign op) e r = some (e, Calls.perform op r)

  unfoldable pub perform_all : List Operation → EventMap → Registry → Option (EventMap × Registry)
  unfolding perform
  perform_all [] e r = some (e, r)
  perform_all (op ∷ more) e r = elim (perform op e r) [
    | none ↦ none
    | some (e', r') ↦ perform_all more e' r'
  ]

  module _ (sets : EnvLaws env) (keys : KeyLaws env) (exact : Bool) where
    foreign-IsLinked :
        (op : Calls.Operation) (e : EventMap) (r : Registry)
        → of_session e.subscription.session_id (caller op) ≡ false
        → IsLinked env exact e r
        → IsLinked env exact e (Calls.perform op r)
    foreign-IsLinked op e r other l =
        let sid = e.subscription.session_id in
        let did =
          perform-StandsFor op r (is_subscribed r)
            (record { consistent = l.consistent; same = λ s at. refl }) in
        record {
          valid = l.valid;
          consistent = did.consistent;
          single = l.single;
          linked = λ t k h.
              did.same sid k ∙ update_foreign op (is_subscribed r) sid k other ∙ l.linked t k h;
          only = λ x k h.
              l.only x k
                (sym (did.same sid k ∙ update_foreign op (is_subscribed r) sid k other) ∙ h);
        }
      where
        update_foreign :
            (op : Calls.Operation) (has : Calls.Pairs) (sid at : Bytes)
            → of_session sid (caller op) ≡ false
            → update op has sid at ≡ has sid at
        update_foreign (Calls.subscribing s joins) has sid at h = ground (arith)
        update_foreign (Calls.unsubscribing s unsub) has sid at h = ground (arith)
        update_foreign (Calls.closing s) has sid at h = ground (arith)

    -- The state after one call.
    record IsKept (e : EventMap) (run : Option (EventMap × Registry)) : Type 0 where
      events : EventMap
      registry : Registry
      returns : run ≡ some (events, registry)
      linked : IsLinked env exact events registry
      same : events.subscription ≡ e.subscription

    perform-IsKept :
        (op : Operation) (e : EventMap) (r : Registry)
        → IsAllowed exact e.subscription.session_id op
        → IsLinked env exact e r
        → IsKept e (perform op e r)
    unfolding perform
    perform-IsKept (subscribing id t cond props) e r other l =
        let (o, run, l', same) = subscribe-IsLinked env sets keys exact id t cond props e r l in
        record {
          events = o.events;
          registry = o.registry;
          returns = ap state_of run;
          linked = l';
          same = same;
        }
    perform-IsKept (unsubscribing t cond) e r other l =
        let (o, run, l', same) = unsubscribe-IsLinked env sets keys exact t cond e r other l in
        record {
          events = o.events;
          registry = o.registry;
          returns = ap state_of run;
          linked = l';
          same = same;
        }
    perform-IsKept destroying e r other l =
        let (l', same) = destroy-IsLinked env sets keys exact e r l in
        record {
          events = (destroy e r).0;
          registry = (destroy e r).1;
          returns = refl;
          linked = l';
          same = same;
        }
    perform-IsKept (foreign op) e r other l = record {
      events = e;
      registry = Calls.perform op r;
      returns = refl;
      linked = foreign-IsLinked op e r other l;
      same = refl;
    }

    -- The event map and the registry stay linked: where two conditions have one dispatch key only if
    -- their types are equal and the first matches the second, every history of `Subscribe`, `Unsubscribe`
    -- and `Destroy` of an event map, among any calls of other sessions on the registry, runs without a
    -- panic from a linked state to a linked one. There no two entries of the map have the same dispatch
    -- key, the session is subscribed in the registry to the key of every entry, the map is valid, and the
    -- registry is consistent. Where `exact` is set, no `Unsubscribe` may be without a condition, and the
    -- session is subscribed to nothing but the keys of the entries, if it was so before.
    -- `UnsubscribeWithID` is not among the calls.
    pub perform_all-IsLinked :
        (ops : List Operation) (e : EventMap) (r : Registry)
        → All (IsAllowed exact e.subscription.session_id) ops
        → IsLinked env exact e r
        → (e' : EventMap) × (r' : Registry) × (perform_all ops e r ≡ some (e', r'))
          × IsLinked env exact e' r'
    unfolding perform_all
    perform_all-IsLinked [] e r others l = (e, r, refl, l)
    perform_all-IsLinked (op ∷ more) e r others l =
        let one = perform-IsKept op e r others.0 l in
        let others' =
          subst (λ (s : Subscription). All (IsAllowed exact s.session_id) more) (sym one.same)
            others.1 in
        let (e', r', run, l') =
          perform_all-IsLinked more one.events one.registry others' one.linked in
        (e', r', rw (one.returns, perform_all) run, l')
