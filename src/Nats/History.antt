-- ===== src/Nats/History.antt =====
-- internal/nats/subscription.go: the registry against its abstract view, the set of the pairs of a
-- session and a subject, over any history of calls.
use event_api.Base.{
  is_listed, ◌≡◌, refl, List, [], ◌∷◌, Bool, false, ◌||◌, ◌&&◌, not, Bytes, lookup, ap, ◌∙◌,
}
use event_api.Nats.{Subscription, Registry, init, is_subscribed, subscribe, unsubscribe, close}
use event_api.Nats.Laws.{IsConsistent, of_session, is_text}
use event_api.Nats.Subscribing.{is_subscribed-subscribe, subscribe-IsConsistent, init-IsConsistent}
use event_api.Nats.Unsubscribing.{is_subscribed-unsubscribe, unsubscribe-IsConsistent}
use event_api.Nats.Closing.{is_subscribed-close, close-IsConsistent}

-- A call of a method of `Subscription`. The callers of `Unsubscribe` give one subject.
pub data Operation : Type 0 where
  subscribing : Subscription → List Bytes → Operation
  unsubscribing : Subscription → Bytes → Operation
  closing : Subscription → Operation

unfoldable pub perform : Operation → Registry → Registry
perform (subscribing s joins) r = subscribe s joins r
perform (unsubscribing s unsub) r = unsubscribe s (unsub ∷ []) r
perform (closing s) r = close s r

unfoldable pub perform_all : List Operation → Registry → Registry
unfolding perform
perform_all [] r = r
perform_all (op ∷ more) r = perform_all more (perform op r)

-- The abstract view: which session is subscribed to which subject.
abbrev pub Pairs : Type 0
Pairs = Bytes → Bytes → Bool

abbrev pub update : Operation → Pairs → Pairs
update (subscribing s joins) has sid at = has sid at || (of_session sid s && is_listed at joins)
update (unsubscribing s unsub) has sid at = has sid at && not (of_session sid s && is_text at unsub)
update (closing s) has sid at = has sid at && not (of_session sid s)

unfoldable pub update_all : List Operation → Pairs → Pairs
update_all [] has = has
update_all (op ∷ more) has = update_all more (update op has)

-- A registry that is consistent and stands for a set of pairs.
pub record StandsFor (r : Registry) (has : Pairs) : Type 0 where
  pub consistent : IsConsistent r
  pub same : (sid at : Bytes) → is_subscribed r sid at ≡ has sid at

pub perform-StandsFor :
    (op : Operation) (r : Registry) (has : Pairs)
    → StandsFor r has
    → StandsFor (perform op r) (update op has)
unfolding perform
perform-StandsFor (subscribing s joins) r has h = record {
  consistent = subscribe-IsConsistent s joins r h.consistent;
  same = λ sid at.
      is_subscribed-subscribe s joins r sid at
      ∙ ap (λ b. b || (of_session sid s && is_listed at joins)) (h.same sid at);
}
perform-StandsFor (unsubscribing s unsub) r has h = record {
  consistent = unsubscribe-IsConsistent s unsub r h.consistent;
  same = λ sid at.
      is_subscribed-unsubscribe s unsub r sid at h.consistent
      ∙ ap (λ b. b && not (of_session sid s && is_text at unsub)) (h.same sid at);
}
perform-StandsFor (closing s) r has h = record {
  consistent = close-IsConsistent s r h.consistent;
  same = λ sid at.
      (is_subscribed-close s r sid at h.consistent).0
      ∙ ap (λ b. b && not (of_session sid s)) (h.same sid at);
}

-- The registry implements the set of the pairs of a session and a subject: any history of calls, by
-- any sessions, on a registry that stands for a set leaves one that stands for the set that the same
-- calls leave, where `Subscribe` adds the pairs of its session with the given subjects,
-- `Unsubscribe` of one subject takes that pair away, and `Close` takes all pairs of its session away.
pub perform_all-StandsFor :
    (ops : List Operation) (r : Registry) (has : Pairs)
    → StandsFor r has
    → StandsFor (perform_all ops r) (update_all ops has)
unfolding perform_all update_all
perform_all-StandsFor [] r has h = h
perform_all-StandsFor (op ∷ more) r has h =
    perform_all-StandsFor more (perform op r) (update op has) (perform-StandsFor op r has h)

-- The registry that `Init` makes stands for the empty set.
pub init-StandsFor : StandsFor init (λ sid at. false)
unfolding init is_subscribed lookup
init-StandsFor = record { consistent = init-IsConsistent; same = λ sid at. refl }
