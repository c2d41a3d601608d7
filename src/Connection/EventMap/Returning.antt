-- ===== src/Connection/EventMap/Returning.antt =====
-- internal/app/connection/connection.go: `EventMap.Unsubscribe` after `EventMap.Subscribe`.
use event_api.Base.{
  is_listed, ℕ, ◌≡◌, refl, inl, inr, List, [], ◌∷◌, ◌++◌, none, some, Bool, true, false, ite, Bytes,
  bytes_dec, occurrences, occurrences-append, if_pos, if_neg, arith, ap, sym, ◌∙◌,
}
use event_api.Nats
use event_api.Nats.{Registry, is_subscribed}
use event_api.Nats.Laws.{IsConsistent}
use event_api.Nats.Subscribing.{is_subscribed-subscribe, subscribe-IsConsistent}
use event_api.Nats.Unsubscribing.{is_subscribed-unsubscribe}
use event_api.Connection.Types.{Env, EnvLaws, EventCondition, EventSubscriptionProperties}
use event_api.Connection.EventMap.{EventMap, Outcome, subscribe, unsubscribe, is_nil}
use event_api.Connection.EventMap.View.{Entry, IsValid, view, find_entry, match_index-find_entry}
use event_api.Connection.EventMap.Subscribing.{subscribe-Subscribed, answer}
use event_api.Connection.EventMap.Withdrawals.{without, left_entries, refusal, unlinked}
use event_api.Connection.EventMap.Unsubscribing.{unsubscribe-Unsubscribed}

-- A registry that gains a subscription and loses it again is as before.
is_subscribed_again :
    (sub : Nats.Subscription) (key : Bytes) (r : Registry) (sid at : Bytes)
    → IsConsistent r
    → is_subscribed r sub.session_id key ≡ false
    → is_subscribed (Nats.unsubscribe sub (key ∷ []) (Nats.subscribe sub (key ∷ []) r)) sid at
      ≡ is_subscribed r sid at
unfolding is_listed
is_subscribed_again sub key r sid at c fresh = ground (
  arith,
  is_subscribed-unsubscribe sub key (Nats.subscribe sub (key ∷ []) r) sid at
      (subscribe-IsConsistent sub (key ∷ []) r c),
  is_subscribed-subscribe sub (key ∷ []) r sid at,
)

module _ {S : Type 0} (env : Env S) (sets : EnvLaws env) where
  find_entry-append :
      (cond : EventCondition) (es : List Entry) (new : Entry)
      → find_entry env cond es ≡ none
      → env.cond_match new.condition cond ≡ true
      → find_entry env cond (es ++ new ∷ []) ≡ some new
  unfolding find_entry
  find_entry-append cond [] new h self = ground arith
  find_entry-append cond (en ∷ es) new h self = ground (arith, find_entry-append cond es new)

  occurrences-without :
      (cond : EventCondition) (es : List Entry) (new : Entry) (q : Entry → Bool)
      → find_entry env cond es ≡ none
      → env.cond_match new.condition cond ≡ true
      → occurrences q (without env cond (es ++ new ∷ [])) ≡ occurrences q es
  unfolding occurrences
  occurrences-without cond es new q h self =
      let found = find_entry-append cond es new h self in
      elim (match_index-find_entry env cond (es ++ new ∷ [])) [
        | inl (f, m) ↦ absurd (cc)
        | inr (i, en, f, m, g) ↦
            let same : en ≡ new = cc in
            let took = sets.slice_remove-occurrences Entry q (es ++ new ∷ []) i g in
            ap
              (λ o. occurrences q (elim o as (λ _. List Entry) [
                | none ↦ es ++ new ∷ []
                | some k ↦ env.slice_remove Entry (es ++ new ∷ []) k
              ]))
              m
            ∙ ground (arith, took, occurrences-append q es (new ∷ []), ap q same)
      ]

  refusal_found :
      (cond : EventCondition) (es : List Entry) (en : Entry)
      → is_nil cond ≡ false
      → find_entry env cond es ≡ some en
      → refusal env cond es ≡ none
  refusal_found cond es en named found = rw named (rw found refl)

  unlinked_found :
      (t : Bytes) (cond : EventCondition) (es : List Entry) (en : Entry) (e : EventMap)
      (r : Registry)
      → is_nil cond ≡ false
      → find_entry env cond es ≡ some en
      → unlinked env t cond es e r
        ≡ Nats.unsubscribe e.subscription (env.dispatch_key t en.condition ∷ []) r
  unlinked_found t cond es en e r named found = rw named (rw found refl)

  -- What is left of each event type, by the views after the two operations.
  occurrences_again :
      (t : Bytes) (cond : EventCondition) (new : Entry) (v v1 v2 : Bytes → List Entry)
      → is_nil cond ≡ false
      → find_entry env cond (v t) ≡ none
      → env.cond_match new.condition cond ≡ true
      → ((u : Bytes) → v1 u ≡ ite (bytes_dec u t) (v t ++ new ∷ []) (v u))
      → ((u : Bytes) → v2 u ≡ ite (bytes_dec u t) (left_entries env cond (v1 t)) (v1 u))
      → (u : Bytes) (q : Entry → Bool) → occurrences q (v2 u) ≡ occurrences q (v u)
  occurrences_again t cond new v v1 v2 named h self first second u q = elim (bytes_dec u t) [
    | yes p ↦
        let there : v1 t ≡ v t ++ new ∷ [] =
          first t ∙ if_pos (bytes_dec t t) refl (v t ++ new ∷ []) (v t) in
        ap (occurrences q) (
          second u
          ∙ if_pos (bytes_dec u t) p (left_entries env cond (v1 t)) (v1 u)
          ∙ ap (left_entries env cond) there
          ∙ rw named refl)
        ∙ occurrences-without cond (v t) new q h self
        ∙ ap (λ x. occurrences q (v x)) (sym p)
    | no n ↦ ap (occurrences q) (
        second u
        ∙ if_neg (bytes_dec u t) n (left_entries env cond (v1 t)) (v1 u)
        ∙ first u
        ∙ if_neg (bytes_dec u t) n (v t ++ new ∷ []) (v u))
  ]

  -- On a valid map and a consistent registry, where no subscription of the type matches, the session
  -- does not have the dispatch key and the condition, which is not empty, matches itself: `Subscribe`
  -- and then `Unsubscribe` with the same condition both succeed, and afterwards each event type has
  -- the entries that it had, each as often, and each session is subscribed to what it was.
  pub subscribe-unsubscribe :
      (id : ℕ) (t : Bytes) (cond : EventCondition) (props : EventSubscriptionProperties)
      (e : EventMap) (r : Registry)
      → IsValid e
      → IsConsistent r
      → find_entry env cond (view e t) ≡ none
      → is_subscribed r e.subscription.session_id (env.dispatch_key t cond) ≡ false
      → is_nil cond ≡ false
      → env.cond_match cond cond ≡ true
      → (o : Outcome) × (o' : Outcome) × (subscribe env id t cond props e r ≡ some o)
        × (o.error ≡ none)
        × (unsubscribe env t cond o.events o.registry ≡ some o')
        × (o'.error ≡ none)
        × IsValid o'.events
        × ((u : Bytes) (q : Entry → Bool)
            → occurrences q (view o'.events u) ≡ occurrences q (view e u))
        × ((sid at : Bytes) → is_subscribed o'.registry sid at ≡ is_subscribed r sid at)
  subscribe-unsubscribe id t cond props e r v c new fresh named self =
      let (o, run, did) = subscribe-Subscribed env id t cond props e r v in
      let (o', back, undid) =
        unsubscribe-Unsubscribed env sets t o.events o.registry cond did.valid in
      let entry : Entry = record { id = id; condition = cond; properties = props } in
      let there : view o.events t ≡ view e t ++ entry ∷ [] =
        did.views t ∙ if_pos (bytes_dec t t) refl _ _ ∙ rw new refl in
      let found : find_entry env cond (view o.events t) ≡ some entry =
        ap (find_entry env cond) there ∙ find_entry-append cond (view e t) entry new self in
      let key = env.dispatch_key t cond in
      let left : o'.registry
          ≡ Nats.unsubscribe e.subscription (key ∷ [])
              (Nats.subscribe e.subscription (key ∷ []) r) =
        undid.links
        ∙ unlinked_found t cond (view o.events t) entry o.events o.registry named found
        ∙ ap (λ s. Nats.unsubscribe s (key ∷ []) o.registry) did.keeps_link
        ∙ ap (Nats.unsubscribe e.subscription (key ∷ [])) (did.links ∙ rw new refl) in
      (
        o,
        o',
        run,
        did.answers ∙ ap answer new,
        back,
        undid.answers ∙ refusal_found cond (view o.events t) entry named found,
        undid.valid,
        occurrences_again t cond entry (view e) (view o.events) (view o'.events) named new self
            (λ u. did.views u ∙ rw new refl) undid.views,
        λ sid at.
            ap (λ x. is_subscribed x sid at) left
            ∙ is_subscribed_again e.subscription key r sid at c fresh,
      )
