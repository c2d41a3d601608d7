-- ===== src/Connection/EventMap/Unsubscribing.antt =====
-- internal/app/connection/connection.go, `EventMap.Unsubscribe` against its view.
use event_api.Base.{
  ℕ, ◌≡◌, refl, ◌⊎◌, inl, inr, List, [], Option, none, some, true, false, ite, Bytes, bytes_dec,
  insert, delete, lookup, if◌then◌else◌, Bool-cases, Option-cases, ap, sym, subst, ◌∙◌,
}
use event_api.Nats.{Registry}
use event_api.Connection.Types.{Env, EnvLaws, EventCondition, EventSubscriptionProperties}
use event_api.Connection.EventMap.{
  EventChannel, EventMap, not_subscribed, Outcome, unsubscribe, unsubscribe_channel, match_index,
  remove_subscription, is_nil, cancel,
}
use event_api.Connection.EventMap.View.{
  Entry, channel_of, channel_entries, view, entries_at, IsValid, IsChannel-at, find_entry,
  match_index-find_entry, get_elem?-map, insert-IsValid, view-insert, delete-IsValid, view-delete,
  entry_ids, entry_conditions, entry_properties,
}
use event_api.Connection.EventMap.Withdrawals.{
  entry_ids-nil, nil_of, ne_nil_of, without, left_entries, Unsubscribed, is_nil-filled,
  ite_stale_at,
}

module _ {S : Type 0} (env : Env S) (laws : EnvLaws env) (t : Bytes) (e : EventMap)
    (r : Registry) where
  abbrev removed_channel : Option ℕ → List Entry → ℕ → EventChannel
  removed_channel ctx es i = record {
    ctx = ctx;
    ids = env.slice_remove ℕ (entry_ids es) i;
    conditions = env.slice_remove EventCondition (entry_conditions es) i;
    properties = env.slice_remove EventSubscriptionProperties (entry_properties es) i;
  }

  removed-channel_of :
      (ctx : Option ℕ) (es : List Entry) (i : ℕ)
      → removed_channel ctx es i ≡ channel_of ctx (env.slice_remove Entry es i)
  removed-channel_of ctx es i = λ k. record {
    ctx = ctx;
    ids = sym (laws.slice_remove-map Entry ℕ (λ en. en.id) es i) k;
    conditions = sym (laws.slice_remove-map Entry EventCondition (λ en. en.condition) es i) k;
    properties =
        sym (laws.slice_remove-map Entry EventSubscriptionProperties (λ en. en.properties) es i) k;
  }

  remove_subscription-views :
      (ctx : Option ℕ) (es : List Entry) (i id : ℕ) (c : EventCondition)
      → IsValid e
      → let o = remove_subscription env t (channel_of ctx es) i id c e r in
        IsValid o.events
        × ((u : Bytes)
            → view o.events u ≡ ite (bytes_dec u t) (env.slice_remove Entry es i) (view e u))
        × (o.events.count ≡ e.count)
        × (o.events.subscription ≡ e.subscription)
  unfolding remove_subscription
  remove_subscription-views ctx es i id c v =
      let rest = env.slice_remove Entry es i in
      let chan = removed-channel_of ctx es i in
      let nil_same : is_nil (env.slice_remove ℕ (entry_ids es) i) ≡ is_nil rest =
        ap (λ (ec : EventChannel). is_nil ec.ids) chan ∙ entry_ids-nil rest in
      let dropped : EventMap = record e {
        m = delete bytes_dec t e.m;
        cancelled = cancel ctx e.cancelled;
      } in
      let kept : EventMap = record e { m = insert bytes_dec t (removed_channel ctx es i) e.m } in
      let stored = ap (λ ec. insert bytes_dec t ec e.m) chan in
      elim (Bool-cases (is_nil rest)) [
        | inl empty ↦ rw (nil_same ∙ empty) (
          delete-IsValid e dropped t refl v,
          λ u. rw (nil_of rest empty) (view-delete e dropped t refl u),
          refl,
          refl,
        )
        | inr more ↦ rw (nil_same ∙ more) (
          insert-IsValid e kept t ctx rest stored (ne_nil_of rest more) v,
          view-insert e kept t ctx rest stored,
          refl,
          refl,
        )
      ]

  unsubscribe_channel-Unsubscribed :
      (cond : EventCondition) (ctx : Option ℕ) (es : List Entry)
      → is_nil cond ≡ false
      → view e t ≡ es
      → IsValid e
      → (o : Outcome) × (unsubscribe_channel env t cond (channel_of ctx es) e r ≡ some o)
        × Unsubscribed env t cond e r o
  unfolding unsubscribe_channel
  unsubscribe_channel-Unsubscribed cond ctx es h at v = elim (match_index-find_entry env cond es) [
    | inl (f, x) ↦ (
      record { events = e; registry = r; id = 0; error = some not_subscribed },
      rw (x, unsubscribe_channel),
      record {
        valid = v;
        views = unchanged (rw (h, at) (rw (x, without)));
        answers = rw (h, at, f);
        links = rw (h, at, f);
        counts = refl;
        keeps_link = refl;
      },
    )
    | inr (i, en, f, x, g) ↦
        let o = remove_subscription env t (channel_of ctx es) i en.id en.condition e r in
        let (valid', views', counts', link') =
          remove_subscription-views ctx es i en.id en.condition v in
        (
          o,
          rw (x, unsubscribe_channel)
              (rw (get_elem?-map (λ en. en.id) es i g, get_elem?-map (λ en. en.condition) es i g)),
          record {
            valid = valid';
            views = λ u.
                views' u ∙ ap (λ l. ite (bytes_dec u t) l (view e u)) (sym (after_removal i x));
            answers = rw (h, at, f) (unfold remove_subscription in refl);
            links = rw (h, at, f) (unfold remove_subscription in refl);
            counts = counts';
            keeps_link = link';
          },
        )
  ]
    where
      unchanged :
          left_entries env cond (view e t) ≡ es
          → (u : Bytes)
          → view e u ≡ ite (bytes_dec u t) (left_entries env cond (view e t)) (view e u)
      unchanged full u = ite_stale_at (view e) (bytes_dec u t) (full ∙ sym at)

      after_removal :
          (i : ℕ)
          → match_index env cond (entry_conditions es) ≡ some i
          → left_entries env cond (view e t) ≡ env.slice_remove Entry es i
      after_removal i x = rw (h, at) (rw (x, without))

  absent_case :
      (cond : EventCondition)
      → IsValid e
      → lookup bytes_dec t e.m ≡ none
      → (is_nil cond ≡ true) ⊎ (is_nil cond ≡ false)
      → (o : Outcome) × (some (record {
        events = if is_nil cond then record e { m = delete bytes_dec t e.m } else e;
        registry = r;
        id = 0;
        error = some not_subscribed;
      })
          ≡ some o)
        × Unsubscribed env t cond e r o
  absent_case cond v absent (inl all) =
      let at : view e t ≡ [] = ap entries_at absent in
      (
        record {
          events = record e { m = delete bytes_dec t e.m };
          registry = r;
          id = 0;
          error = some not_subscribed;
        },
        rw all,
        record {
          valid = delete-IsValid e (record e { m = delete bytes_dec t e.m }) t refl v;
          views = λ u. rw all (view-delete e (record e { m = delete bytes_dec t e.m }) t refl u);
          answers = rw (all, at);
          links = rw all;
          counts = refl;
          keeps_link = refl;
        },
      )
  absent_case cond v absent (inr one) =
      let at : view e t ≡ [] = ap entries_at absent in
      (
        record { events = e; registry = r; id = 0; error = some not_subscribed },
        rw one,
        record {
          valid = v;
          views = λ u. ite_stale_at (view e) (bytes_dec u t) (nothing_left cond one at ∙ sym at);
          answers = rw (one, at) (unfold find_entry in refl);
          links = rw (one, at) (unfold find_entry in refl);
          counts = refl;
          keeps_link = refl;
        },
      )
    where
      nothing_left :
          (c : EventCondition)
          → is_nil c ≡ false
          → view e t ≡ []
          → left_entries env c (view e t) ≡ []
      nothing_left c h a = rw (h, a) (unfold match_index in refl)

  present_case :
      (cond : EventCondition)
      → IsValid e
      → (ec : EventChannel) → lookup bytes_dec t e.m ≡ some ec
      → (is_nil cond ≡ true) ⊎ (is_nil cond ≡ false)
      → (o : Outcome) × ((if is_nil cond
            then some (record {
              events = record e { m = delete bytes_dec t e.m };
              registry = r;
              id = 0;
              error = none;
            })
            else unsubscribe_channel env t cond ec e r)
          ≡ some o)
        × Unsubscribed env t cond e r o
  present_case cond v ec present (inl all) =
      let at : view e t ≡ channel_entries ec = ap entries_at present in
      (
        record {
          events = record e { m = delete bytes_dec t e.m };
          registry = r;
          id = 0;
          error = none;
        },
        rw all,
        record {
          valid = delete-IsValid e (record e { m = delete bytes_dec t e.m }) t refl v;
          views = λ u. rw all (view-delete e (record e { m = delete bytes_dec t e.m }) t refl u);
          answers = rw (all, at, is_nil-filled (IsChannel-at v t ec present));
          links = rw all;
          counts = refl;
          keeps_link = refl;
        },
      )
  present_case cond v ec present (inr one) =
      let h = IsChannel-at v t ec present in
      rw one (
        subst
          (λ (c : EventChannel).
            (o : Outcome) × (unsubscribe_channel env t cond c e r ≡ some o)
            × Unsubscribed env t cond e r o)
          (sym h.aligned)
          (unsubscribe_channel-Unsubscribed cond ec.ctx (channel_entries ec) one
            (ap entries_at present) v))

  -- On a valid map `Unsubscribe` does not panic and keeps the map valid. Without a condition it
  -- drops all entries of the event type and leaves the registry as it is; with one it removes the
  -- first entry that matches and gives up that entry's dispatch key. The error is
  -- `ErrNotSubscribed` exactly if there was nothing to remove. Other types are untouched.
  pub unsubscribe-Unsubscribed :
      (cond : EventCondition)
      → IsValid e
      → (o : Outcome) × (unsubscribe env t cond e r ≡ some o) × Unsubscribed env t cond e r o
  unfolding unsubscribe
  unsubscribe-Unsubscribed cond v = elim (Option-cases (lookup bytes_dec t e.m)) [
    | inl absent ↦ rw (absent, unsubscribe) (absent_case cond v absent (Bool-cases (is_nil cond)))
    | inr (ec, present) ↦
        rw (present, unsubscribe) (present_case cond v ec present (Bool-cases (is_nil cond)))
  ]
