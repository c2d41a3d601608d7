-- ===== src/Connection/EventMap/Subscribing.antt =====
-- internal/app/connection/connection.go, `EventMap.Subscribe` against its view.
use event_api.Base.{
  ℕ, suc, ◌≡◌, refl, ◌≢◌, inl, inr, List, [], ◌∷◌, ◌++◌, Option, none, some, ite, Bytes, bytes_dec,
  insert, lookup, if◌then◌else◌, Option-cases, ap, sym, subst, ◌∙◌,
}
use event_api.Nats
use event_api.Nats.{Registry}
use event_api.Connection.Types.{Env, EventCondition, EventSubscriptionProperties}
use event_api.Connection.EventMap.{
  EventChannel, EventMap, Error, already_subscribed, Outcome, subscribe, subscribe_channel,
  append_subscription,
}
use event_api.Connection.EventMap.View.{
  Entry, channel_of, channel_entries, view, IsValid, find_entry, IsChannel-at, not_nil,
  match_index-find_entry, get_elem?-map, entries_at, insert-IsValid, view-insert, entry_ids,
  entry_conditions, entry_properties,
}

-- What `Subscribe` answers, leaves in the registry and leaves of a type's entries, by the first
-- entry that matches.
abbrev pub answer : Option Entry → Option Error
answer none = none
answer (some en) = if en.properties.auto then none else some already_subscribed

abbrev pub extend : Option Entry → List Entry → Entry → List Entry
extend none es new = es ++ new ∷ []
extend (some en) es new = es

abbrev pub linked : Option Entry → Registry → Registry → Registry
linked none before after = after
linked (some en) before after = before

append-ne-nil : (es : List Entry) (new : Entry) → es ++ new ∷ [] ≢ []
append-ne-nil [] new = λ h. cc
append-ne-nil (en ∷ es) new = λ h. cc

-- A branch that restates the view at the same key changes nothing.
ite_stale : (v : Bytes → List Entry) {u t : Bytes} (d : Dec (u ≡ t)) → ite d (v t) (v u) ≡ v u
ite_stale v (yes p) = sym (ap v p)
ite_stale v (no p) = refl

append-channel_of :
    (ctx : Option ℕ) (es : List Entry) (new : Entry)
    → record {
      ctx = ctx;
      ids = entry_ids es ++ new.id ∷ [];
      conditions = entry_conditions es ++ new.condition ∷ [];
      properties = entry_properties es ++ new.properties ∷ [];
    }
      ≡ channel_of ctx (es ++ new ∷ [])
append-channel_of ctx [] new = refl
append-channel_of ctx (en ∷ es) new =
    ap
      (λ (ec : EventChannel). record {
        ctx = ctx;
        ids = en.id ∷ ec.ids;
        conditions = en.condition ∷ ec.conditions;
        properties = en.properties ∷ ec.properties;
      })
      (append-channel_of ctx es new)

module _ {S : Type 0} (env : Env S) (id : ℕ) (t : Bytes) (cond : EventCondition)
    (props : EventSubscriptionProperties) where
  abbrev new_entry : Entry
  new_entry = record { id = id; condition = cond; properties = props }

  -- What a run of `Subscribe` promises of its outcome.
  pub record Subscribed (e : EventMap) (r : Registry) (o : Outcome) : Type 0 where
    pub valid : IsValid o.events
    pub views :
        (u : Bytes)
        → view o.events u
          ≡ ite
              (bytes_dec u t)
              (extend (find_entry env cond (view e t)) (view e t) new_entry)
              (view e u)
    pub answers : o.error ≡ answer (find_entry env cond (view e t))
    pub links :
        o.registry
        ≡ linked
            (find_entry env cond (view e t))
            r
            (Nats.subscribe e.subscription (env.dispatch_key t cond ∷ []) r)
    pub counts : o.events.count ≡ e.count
    pub identifies : o.id ≡ id
    pub keeps_link : o.events.subscription ≡ e.subscription
    pub keeps_once : o.events.once ≡ e.once

  Subscribed-found :
      (e e' : EventMap) (r : Registry) (en : Entry)
      → find_entry env cond (view e t) ≡ some en
      → e'.m ≡ e.m
      → e'.count ≡ e.count
      → e'.subscription ≡ e.subscription
      → e'.once ≡ e.once
      → IsValid e
      → Subscribed e r (record { events = e'; registry = r; id = id; error = answer (some en) })
  Subscribed-found e e' r en f m c l d v = record {
    valid = record { channels = rw m v.channels };
    views = λ u.
        rw f (
          ap (λ n. entries_at (lookup bytes_dec u n)) m ∙ sym (ite_stale (view e) (bytes_dec u t)));
    answers = rw f;
    links = rw f;
    counts = c;
    identifies = refl;
    keeps_link = l;
    keeps_once = d;
  }

  Subscribed-new :
      (e e' : EventMap) (r : Registry) (ctx : Option ℕ) (es : List Entry)
      → find_entry env cond (view e t) ≡ none
      → view e t ≡ es
      → e'.m ≡ e.m
      → e'.count ≡ e.count
      → e'.subscription ≡ e.subscription
      → e'.once ≡ e.once
      → IsValid e
      → Subscribed e r (append_subscription env id t cond props (channel_of ctx es) e' r)
  unfolding append_subscription
  Subscribed-new e e' r ctx es f at m c s d v =
      let new = es ++ new_entry ∷ [] in
      let out = (append_subscription env id t cond props (channel_of ctx es) e' r).events in
      let stored : out.m ≡ insert bytes_dec t (channel_of ctx new) e.m =
        ap (λ ec. insert bytes_dec t ec e'.m) (append-channel_of ctx es new_entry)
        ∙ ap (insert bytes_dec t (channel_of ctx new)) m in
      record {
        valid = insert-IsValid e out t ctx new stored (append-ne-nil es new_entry) v;
        views = λ u. rw (f, at) (view-insert e out t ctx new stored u);
        answers = rw f;
        links = rw (f, s);
        counts = c;
        identifies = refl;
        keeps_link = s;
        keeps_once = d;
      }

  subscribe_channel-Subscribed :
      (e e' : EventMap) (r : Registry) (ctx : Option ℕ) (es : List Entry)
      → view e t ≡ es
      → e'.m ≡ e.m
      → e'.count ≡ e.count
      → e'.subscription ≡ e.subscription
      → e'.once ≡ e.once
      → IsValid e
      → (o : Outcome) × (subscribe_channel env id t cond props (channel_of ctx es) e' r ≡ some o)
        × Subscribed e r o
  unfolding subscribe_channel
  subscribe_channel-Subscribed e e' r ctx es at m c s d v =
      elim (match_index-find_entry env cond es) [
        | inl (f, x) ↦ (
          append_subscription env id t cond props (channel_of ctx es) e' r,
          rw (x, subscribe_channel),
          Subscribed-new e e' r ctx es (ap (find_entry env cond) at ∙ f) at m c s d v,
        )
        | inr (i, en, f, x, g) ↦ (
          record { events = e'; registry = r; id = id; error = answer (some en) },
          rw (x, subscribe_channel) (rw (get_elem?-map (λ en. en.properties) es i g)),
          Subscribed-found e e' r en (ap (find_entry env cond) at ∙ f) m c s d v,
        )
      ]

  -- On a valid map `Subscribe` does not panic, keeps the map valid and the count as it is, and
  -- looks for an entry of the event type that matches. If there is none the new entry is appended
  -- to those of the type and its dispatch key is subscribed, without an error; if there is one,
  -- neither the entries nor the registry change, and the error is `ErrAlreadySubscribed` unless
  -- that entry was automatic. The entries of other types are untouched.
  pub subscribe-Subscribed :
      (e : EventMap) (r : Registry)
      → IsValid e
      → (o : Outcome) × (subscribe env id t cond props e r ≡ some o) × Subscribed e r o
  unfolding subscribe
  subscribe-Subscribed e r v = elim (Option-cases (lookup bytes_dec t e.m)) [
    | inl absent ↦
        rw (absent, subscribe)
          (subscribe_channel-Subscribed e (record e { next_ctx = suc e.next_ctx }) r
            (some e.next_ctx) [] (ap entries_at absent) refl refl refl refl v)
    | inr (ec, present) ↦
        let h = IsChannel-at v t ec present in
        rw (present, subscribe)
          (rw (not_nil ec h) (
            subst
              (λ (c : EventChannel).
                (o : Outcome) × (subscribe_channel env id t cond props c e r ≡ some o)
                × Subscribed e r o)
              (sym h.aligned)
              (subscribe_channel-Subscribed e e r ec.ctx (channel_entries ec)
                (ap entries_at present) refl refl refl refl v)))
  ]
