-- ===== src/Connection/EventMap/Linking/Calls.antt =====
-- internal/app/connection/connection.go with internal/nats/subscription.go: what one call of a method of
-- an event map means for its dispatch keys in the registry.
use event_api.Base.{
  ℕ, ◌≡◌, refl, inl, inr, some, Bool, true, false, ite, Bytes, bytes_dec, arith, ap, sym, ◌∙◌,
  subst, Bool-cases, Option-cases, ◌⊎◌, ◌&&◌,
}
use event_api.Nats.{Subscription, Registry, is_subscribed}
use event_api.Connection.Types.{Env, EnvLaws, EventCondition, EventSubscriptionProperties}
use event_api.Connection.EventMap.{EventMap, Outcome, subscribe, unsubscribe, is_nil}
use event_api.Connection.EventMap.Removal.{destroy}
use event_api.Connection.EventMap.Expiry.{destroy-IsGone, destroy_again}
use event_api.Connection.EventMap.View.{Entry, IsValid, view, find_entry, match_index-find_entry}
use event_api.Connection.EventMap.Subscribing.{subscribe-Subscribed}
use event_api.Connection.EventMap.Unsubscribing.{unsubscribe-Unsubscribed}
use event_api.Connection.EventMap.Linking.{empty-IsLinked, KeyLaws, IsLinked}
use event_api.Connection.EventMap.Linking.Steps.{
  append-IsLinked, forget-IsLinked, remove-IsLinked, unchanged-IsLinked,
}
use event_api.Connection.EventMap.Withdrawals.{ite_stale_at, left_entries, unlinked, without}

module _ {S : Type 0} (env : Env S) (sets : EnvLaws env) (keys : KeyLaws env) (exact : Bool) where
  pub subscribe-IsLinked :
      (id : ℕ) (t : Bytes) (cond : EventCondition) (props : EventSubscriptionProperties)
      (e : EventMap) (r : Registry)
      → IsLinked env exact e r
      → (o : Outcome) × (subscribe env id t cond props e r ≡ some o)
        × IsLinked env exact o.events o.registry
        × (o.events.subscription ≡ e.subscription)
  subscribe-IsLinked id t cond props e r l =
      let (o, run, did) = subscribe-Subscribed env id t cond props e r l.valid in
      let new : Entry = record { id = id; condition = cond; properties = props } in
      elim (Option-cases (find_entry env cond (view e t))) [
        | inl fresh ↦ (
          o,
          run,
          subst (IsLinked env exact o.events) (sym (did.links ∙ rw fresh refl)) (
              append-IsLinked env keys t e o.events exact r l did.keeps_link did.valid new fresh
                (λ u. did.views u ∙ rw fresh refl)),
          did.keeps_link,
        )
        | inr (en, found) ↦ (
          o,
          run,
          subst (IsLinked env exact o.events) (sym (did.links ∙ rw found refl)) (
              unchanged-IsLinked env keys t e o.events exact r l did.keeps_link did.valid (λ u.
                did.views u
                ∙ ap (λ x. ite (bytes_dec u t) x (view e u)) (rw found refl)
                ∙ sym (ite_stale_at (view e) (bytes_dec u t) refl))),
          did.keeps_link,
        )
      ]

  pub unsubscribe-IsLinked :
      (t : Bytes) (cond : EventCondition) (e : EventMap) (r : Registry)
      → (exact && is_nil cond) ≡ false
      → IsLinked env exact e r
      → (o : Outcome) × (unsubscribe env t cond e r ≡ some o)
        × IsLinked env exact o.events o.registry
        × (o.events.subscription ≡ e.subscription)
  unsubscribe-IsLinked t cond e r named l =
      let (o, run, did) = unsubscribe-Unsubscribed env sets t e r cond l.valid in
      (
        o,
        run,
        go o did.views did.links did.keeps_link did.valid (Bool-cases (is_nil cond)),
        did.keeps_link,
      )
    where
      go :
          (o : Outcome)
          → ((u : Bytes)
              → view o.events u ≡ ite (bytes_dec u t) (left_entries env cond (view e t)) (view e u))
          → o.registry ≡ unlinked env t cond (view e t) e r
          → o.events.subscription ≡ e.subscription
          → IsValid o.events
          → (is_nil cond ≡ true) ⊎ (is_nil cond ≡ false)
          → IsLinked env exact o.events o.registry
      go o views links kept v (inl all) =
          subst (IsLinked env exact o.events) (sym (links ∙ rw all refl)) (
            forget-IsLinked env keys t e o.events exact r l kept v (ground (arith, named, all))
              (λ u. views u ∙ rw all refl))
      go o views links kept v (inr one) = elim (match_index-find_entry env cond (view e t)) [
        | inl (f, m) ↦ subst (IsLinked env exact o.events) (sym (links ∙ rw (one, f) refl)) (
            unchanged-IsLinked env keys t e o.events exact r l kept v (λ u.
              views u
              ∙ sym (ite_stale_at (view e) (bytes_dec u t) (rw one (rw (m, without) refl)))))
        | inr (i, en, f, m, g) ↦
            subst (IsLinked env exact o.events) (sym (links ∙ rw (one, f) refl)) (
              remove-IsLinked env keys t e o.events exact r l kept v sets i en g
                (λ u. views u ∙ rw one (rw (m, without) refl)))
      ]

  pub destroy-IsLinked :
      (e : EventMap) (r : Registry)
      → IsLinked env exact e r
      → IsLinked env exact (destroy e r).0 (destroy e r).1
        × ((destroy e r).0.subscription ≡ e.subscription)
  destroy-IsLinked e r l = elim (Bool-cases e.once) [
    | inl gone ↦
        subst
          (λ (o : EventMap × Registry).
            IsLinked env exact o.0 o.1 × (o.0.subscription ≡ e.subscription))
          (sym (destroy_again e r gone)) (l, refl)
    | inr live ↦
        let gone = destroy-IsGone e r live l.consistent in
        let kept : (destroy e r).0.subscription ≡ e.subscription = unfold destroy in rw live refl in
        (
          empty-IsLinked env exact (destroy e r).0 (destroy e r).1 gone.emptied gone.consistent
              (λ k.
                ap (λ (s : Subscription). is_subscribed (destroy e r).1 s.session_id k) kept
                ∙ gone.unsubscribed k),
          kept,
        )
  ]
