-- ===== src/Connection/EventMap/Late.antt =====
-- internal/app/connection/connection.go: a subscription that comes after `EventMap.Destroy`.
use event_api.Base.{
  List, Option, All, subst, sym, false, is_listed, ℕ, ◌≡◌, refl, [], ◌∷◌, none, some, true, Bytes,
  ap, ◌∙◌, arith,
}
use event_api.Nats
use event_api.Nats.{Registry, is_subscribed}
use event_api.Nats.Subscribing.{is_subscribed-subscribe, subscribe-IsConsistent}
use event_api.Nats.Laws.{IsConsistent, of_session}
use event_api.Nats.History as Calls
use event_api.Nats.History.{update, perform-StandsFor}
use event_api.Connection.EventMap.Linking.Histories.{
  Operation, subscribing, unsubscribing, destroying, foreign, perform, perform_all,
}
use event_api.Connection.Types.{Env, EventCondition, EventSubscriptionProperties}
use event_api.Connection.EventMap.{EventMap, Outcome, subscribe}
use event_api.Connection.EventMap.Removal.{destroy}
use event_api.Connection.EventMap.View.{Entry, IsValid, view, find_entry}
use event_api.Connection.EventMap.Subscribing.{subscribe-Subscribed, answer, linked}

is_subscribed_new :
    (sub : Nats.Subscription) (key : Bytes) (r : Registry)
    → is_subscribed (Nats.subscribe sub (key ∷ []) r) sub.session_id key ≡ true
unfolding is_listed
is_subscribed_new sub key r =
    ground (arith, is_subscribed-subscribe sub (key ∷ []) r sub.session_id key)

destroy_again : (e : EventMap) (r : Registry) → e.once ≡ true → destroy e r ≡ (e, r)
unfolding destroy
destroy_again e r h = rw h refl

-- Any call but `Unsubscribe` of the event map; what other sessions do to the registry is free.
abbrev pub IsLate : Bytes → Operation → Type 0
IsLate sid (subscribing id t cond props) = Unit
IsLate sid (unsubscribing t cond) = true ≡ false
IsLate sid destroying = Unit
IsLate sid (foreign (Calls.subscribing s joins)) = of_session sid s ≡ false
IsLate sid (foreign (Calls.unsubscribing s unsub)) = of_session sid s ≡ false
IsLate sid (foreign (Calls.closing s)) = of_session sid s ≡ false

update-late :
    (op : Calls.Operation) (has : Calls.Pairs) (sid at : Bytes)
    → IsLate sid (foreign op)
    → has sid at ≡ true
    → update op has sid at ≡ true
update-late (Calls.subscribing s joins) has sid at other h = ground arith
update-late (Calls.unsubscribing s unsub) has sid at other h = ground arith
update-late (Calls.closing s) has sid at other h = ground arith

subscribe-keeps :
    (sub : Nats.Subscription) (key : Bytes) (r : Registry) (sid at : Bytes)
    → is_subscribed r sid at ≡ true
    → is_subscribed (Nats.subscribe sub (key ∷ []) r) sid at ≡ true
subscribe-keeps sub key r sid at h = ground (arith, is_subscribed-subscribe sub (key ∷ []) r sid at)

module _ {S : Type 0} (env : Env S) (sid key : Bytes) where
  -- A destroyed event map whose session is subscribed to the key.
  record IsStranded (e : EventMap) (r : Registry) : Type 0 where
    valid : IsValid e
    once : e.once ≡ true
    own : e.subscription.session_id ≡ sid
    consistent : IsConsistent r
    held : is_subscribed r sid key ≡ true

  linked-IsStranded :
      (f : Option Entry) (sub : Nats.Subscription) (k : Bytes) (e : EventMap) (r : Registry)
      → IsStranded e r
      → IsConsistent (linked f r (Nats.subscribe sub (k ∷ []) r))
        × (is_subscribed (linked f r (Nats.subscribe sub (k ∷ []) r)) sid key ≡ true)
  linked-IsStranded none sub k e r h =
      (subscribe-IsConsistent sub (k ∷ []) r h.consistent, subscribe-keeps sub k r sid key h.held)
  linked-IsStranded (some en) sub k e r h = (h.consistent, h.held)

  perform-IsStranded :
      (op : Operation) (e : EventMap) (r : Registry)
      → IsLate sid op
      → IsStranded e r
      → (e' : EventMap) × (r' : Registry) × (perform env op e r ≡ some (e', r')) × IsStranded e' r'
  unfolding perform
  perform-IsStranded (subscribing id t cond props) e r late h =
      let (o, run, did) = subscribe-Subscribed env id t cond props e r h.valid in
      let new =
        linked-IsStranded (find_entry env cond (view e t)) e.subscription (env.dispatch_key t cond)
          e r h in
      (
        o.events,
        o.registry,
        rw run refl,
        record {
          valid = did.valid;
          once = did.keeps_once ∙ h.once;
          own = ap (λ (s : Nats.Subscription). s.session_id) did.keeps_link ∙ h.own;
          consistent = subst IsConsistent (sym did.links) new.0;
          held = ap (λ x. is_subscribed x sid key) did.links ∙ new.1;
        },
      )
  perform-IsStranded (unsubscribing t cond) e r late h = absurd (ground arith)
  perform-IsStranded destroying e r late h = (e, r, ap some (destroy_again e r h.once), h)
  perform-IsStranded (foreign op) e r late h =
      let did =
        perform-StandsFor op r (is_subscribed r)
          (record { consistent = h.consistent; same = λ s at. refl }) in
      (
        e,
        Calls.perform op r,
        refl,
        record {
          valid = h.valid;
          once = h.once;
          own = h.own;
          consistent = did.consistent;
          held = did.same sid key ∙ update-late op (is_subscribed r) sid key late h.held;
        },
      )

  perform_all-IsStranded :
      (ops : List Operation) (e : EventMap) (r : Registry)
      → All (IsLate sid) ops
      → IsStranded e r
      → (e' : EventMap) × (r' : Registry) × (perform_all env ops e r ≡ some (e', r'))
        × IsStranded e' r'
  unfolding perform_all
  perform_all-IsStranded [] e r late h = (e, r, refl, h)
  perform_all-IsStranded (op ∷ more) e r late h =
      let (e', r', run, h') = perform-IsStranded op e r late.0 h in
      let (e'', r'', runs, h'') = perform_all-IsStranded more e' r' late.1 h' in
      (e'', r'', rw (run, perform_all) runs, h'')

module _ {S : Type 0} (env : Env S) where
  -- A valid event map that has been destroyed still takes a new subscription that no entry matches,
  -- without an error, and links it to its dispatch key. On a consistent registry the session then stays
  -- subscribed to that key over every history of `Subscribe` and `Destroy` of the event map and of the
  -- calls of other sessions, none of which panics.
  -- `Unsubscribe` and `UnsubscribeWithID` are not among them.
  pub destroy-subscribe_late :
      (id : ℕ) (t : Bytes) (cond : EventCondition) (props : EventSubscriptionProperties)
      (e : EventMap) (r : Registry) (ops : List Operation)
      → IsValid e
      → e.once ≡ true
      → IsConsistent r
      → find_entry env cond (view e t) ≡ none
      → All (IsLate e.subscription.session_id) ops
      → (o : Outcome) × (e' : EventMap) × (r' : Registry) × (subscribe env id t cond props e r
          ≡ some o)
        × (o.error ≡ none)
        × (perform_all env ops o.events o.registry ≡ some (e', r'))
        × (is_subscribed r' e.subscription.session_id (env.dispatch_key t cond) ≡ true)
  destroy-subscribe_late id t cond props e r ops v gone c new late =
      let (o, run, did) = subscribe-Subscribed env id t cond props e r v in
      let key = env.dispatch_key t cond in
      let sid = e.subscription.session_id in
      let left : o.registry ≡ Nats.subscribe e.subscription (key ∷ []) r =
        did.links ∙ ap (λ f. linked f r (Nats.subscribe e.subscription (key ∷ []) r)) new in
      let (e', r', runs, h) =
        perform_all-IsStranded env sid key ops o.events o.registry late (record {
          valid = did.valid;
          once = did.keeps_once ∙ gone;
          own = ap (λ (s : Nats.Subscription). s.session_id) did.keeps_link;
          consistent =
              subst IsConsistent (sym left) (subscribe-IsConsistent e.subscription (key ∷ []) r c);
          held = ap (λ x. is_subscribed x sid key) left ∙ is_subscribed_new e.subscription key r;
        }) in
      (o, e', r', run, did.answers ∙ ap answer new, runs, h.held)
