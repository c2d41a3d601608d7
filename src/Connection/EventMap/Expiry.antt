-- ===== src/Connection/EventMap/Expiry.antt =====
-- internal/app/connection/connection.go: what `EventMap.UnsubscribeWithID` does to the view, what
-- follows for a subscription whose time has run out, and what `EventMap.Destroy` leaves.
use event_api.Base.{
  ℕ, ◌≡◌, refl, List, [], ◌∷◌, Option, none, some, true, false, if_pos, Bytes, bytes_dec, Map,
  lookup, length, All, arith, ap, sym, ◌∙◌, not, ◌&&◌, Bool, if_neg, ◌⊎◌, inl, inr, some_injective,
}
use event_api.Nats
use event_api.Nats.{Subscription, Registry, is_subscribed}
use event_api.Nats.Laws.{IsConsistent, of_session}
use event_api.Nats.Closing.{is_subscribed-close, close-IsConsistent}
use event_api.Nats.Unsubscribing.{is_subscribed-unsubscribe}
use event_api.Connection.EventMap.Identifiers.{contains-id_index}
use event_api.Connection.Types.{contains, Env, EnvLaws, EventSubscriptionProperties}
use event_api.Connection.EventMap.{EventChannel, EventMap, Outcome, not_subscribed, subscribe}
use event_api.Connection.EventMap.Removal.{
  id_index, ids_index, remove_ids, unsubscribe_with_id, left_channel, destroy,
}
use event_api.Connection.EventMap.View.{
  Entry, channel_of, view, entries_at, IsChannel, IsValid, find_entry,
}
use event_api.Connection.EventMap.Subscribing.{subscribe-Subscribed, linked}
use event_api.Connection.EventMap.Leftovers.{left-channel_of, remove_ids-length}

module _ {S : Type 0} (env : Env S) (laws : EnvLaws env) where
  -- On a valid map `UnsubscribeWithID` does not panic, the map stays valid, and every event type keeps
  -- as many entries as it had.
  pub length-unsubscribe_with_id :
      (ids : List ℕ) (e : EventMap) (r : Registry)
      → IsValid e
      → (o : Outcome) × (unsubscribe_with_id env ids e r ≡ some o)
        × IsValid o.events
        × ((t : Bytes) → length (view o.events t) ≡ length (view e t))
        × (o.events.count ≡ e.count)
  unfolding unsubscribe_with_id
  length-unsubscribe_with_id ids e r v =
      let (m', key, h, v', l) = remove_ids-length env laws ids e.m v.channels in
      rw (h, unsubscribe_with_id) (go m' v' l key)
    where
      go :
          (m' : Map Bytes EventChannel)
          → All (λ kv. IsChannel kv.1) m'
          → ((t : Bytes)
              → length (entries_at (lookup bytes_dec t m'))
                ≡ length (entries_at (lookup bytes_dec t e.m)))
          → (key : Option Bytes)
          → (o : Outcome) × ((elim key as (λ _. Option Outcome) [
            | none ↦ some (record { events = e; registry = r; id = 0; error = some not_subscribed })
            | some k ↦ some (record {
              events = record e { m = m' };
              registry = Nats.unsubscribe e.subscription (k ∷ []) r;
              id = 0;
              error = none;
            })
          ])
              ≡ some o)
            × IsValid o.events
            × ((t : Bytes) → length (view o.events t) ≡ length (view e t))
            × (o.events.count ≡ e.count)
      go m' v' l none = (
        record { events = e; registry = r; id = 0; error = some not_subscribed },
        refl,
        v,
        λ t. refl,
        refl,
      )
      go m' v' l (some k) = (
        record {
          events = record e { m = m' };
          registry = Nats.unsubscribe e.subscription (k ∷ []) r;
          id = 0;
          error = none;
        },
        refl,
        record { channels = v' },
        l,
        refl,
      )

ids_index_self : (id : ℕ) → ids_index (id ∷ []) (id ∷ []) ≡ some 0
unfolding ids_index id_index
ids_index_self id = ground arith

ids_index_absent : (id : ℕ) (vs : List ℕ) → contains id vs ≡ false → ids_index (id ∷ []) vs ≡ none
unfolding ids_index
ids_index_absent id vs h = rw (contains-id_index id vs h, ids_index) refl

module _ {S : Type 0} (env : Env S) (laws : EnvLaws env) (t : Bytes) (ctx : Option ℕ)
    (en : Entry) where
  abbrev key : Bytes
  key = env.dispatch_key t en.condition

  -- No channel of another type has the identifier of the entry.
  abbrev pub IsAlone : Map Bytes EventChannel → Type 0
  IsAlone = All λ kv. (kv.0 ≡ t) ⊎ (contains en.id kv.1.ids ≡ false)

  left_one : left_channel env (channel_of ctx (en ∷ [])) 0 ≡ channel_of ctx (en ∷ [])
  left_one =
      left-channel_of env laws ctx (en ∷ []) 0 ∙ ap (channel_of ctx) (laws.slice_left-one Entry en)

  remove_ids-only :
      (m : Map Bytes EventChannel)
      → lookup bytes_dec t m ≡ some (channel_of ctx (en ∷ []))
      → IsAlone m
      → remove_ids env (en.id ∷ []) m ≡ some (m, some key)
  unfolding remove_ids lookup
  remove_ids-only [] there alone = absurd (ground arith)
  remove_ids-only ((u, ec) ∷ m) there alone = elim (bytes_dec t u) [
    | yes same ↦
        let here : ec ≡ channel_of ctx (en ∷ []) =
          some_injective
            (sym (if_pos (bytes_dec t u) same (some ec) (lookup bytes_dec t m)) ∙ there) in
        rw here (
          rw (sym same) (
            rw (ids_index_self en.id, remove_ids)
              (ap (λ (c : EventChannel). some ((t, c) ∷ m, some key)) left_one)))
    | no other ↦
        let rest =
          remove_ids-only m
            (sym (if_neg (bytes_dec t u) other (some ec) (lookup bytes_dec t m)) ∙ there) alone.1 in
        elim alone.0 [
          | inl same ↦ absurd (other (sym same))
          | inr absent ↦
              rw (ids_index_absent en.id ec.ids absent, remove_ids) (rw (rest, remove_ids) refl)
        ]
  ]

  module _ (e : EventMap) (r : Registry)
      (there : lookup bytes_dec t e.m ≡ some (channel_of ctx (en ∷ []))) (alone : IsAlone e.m) where
    unsubscribe_with_id-expired :
        (o : Outcome) × (unsubscribe_with_id env (en.id ∷ []) e r ≡ some o)
        × (o.events ≡ e)
        × (o.error ≡ none)
        × (o.registry ≡ Nats.unsubscribe e.subscription (key ∷ []) r)
    unfolding unsubscribe_with_id
    unsubscribe_with_id-expired = (
      record {
        events = e;
        registry = Nats.unsubscribe e.subscription (key ∷ []) r;
        id = 0;
        error = none;
      },
      rw (remove_ids-only e.m there alone, unsubscribe_with_id),
      refl,
      refl,
      refl,
    )

    -- After its time to live an automatic subscription cannot be renewed. On a valid map and a
    -- consistent registry, where the subscription is the only entry of its event type, no other type
    -- has an entry with its identifier, and its condition matches itself, `UnsubscribeWithID` gives up
    -- its dispatch key and leaves the map as it was; a later `Subscribe` with the same condition then
    -- answers without an error, and the session is still not subscribed to the key.
    pub renewal_lost :
        (id : ℕ) (props : EventSubscriptionProperties)
        → IsValid e
        → IsConsistent r
        → env.cond_match en.condition en.condition ≡ true
        → en.properties.auto ≡ true
        → (o : Outcome) × (o' : Outcome) × (unsubscribe_with_id env (en.id ∷ []) e r ≡ some o)
          × (o.events ≡ e)
          × (subscribe env id t en.condition props o.events o.registry ≡ some o')
          × (o'.error ≡ none)
          × (is_subscribed o'.registry e.subscription.session_id key ≡ false)
    renewal_lost id props v c self automatic =
        let (o, run, same, _, reg) = unsubscribe_with_id-expired in
        let (o', again, s) =
          subscribe-Subscribed env id t en.condition props o.events o.registry (rw same v) in
        let f : find_entry env en.condition (view o.events t) ≡ some en =
          ap (λ (m : EventMap). find_entry env en.condition (view m t)) same
          ∙ ap (λ l. find_entry env en.condition (entries_at l)) there
          ∙ unfold find_entry in rw self in
        let final : o'.registry ≡ Nats.unsubscribe e.subscription (key ∷ []) r =
          s.links
          ∙ ap
              (λ x.
                linked x o.registry (Nats.subscribe o.events.subscription (key ∷ []) o.registry))
              f
          ∙ reg in
        (
          o,
          o',
          run,
          same,
          again,
          s.answers ∙ rw f (rw automatic),
          rw final (
              ground (
                arith,
                is_subscribed-unsubscribe e.subscription key r e.subscription.session_id key c,
              )),
        )

-- `Destroy` empties the map and closes its NATS subscription, so that on a consistent registry the
-- session is subscribed to nothing and other sessions are untouched; a second call does nothing.
pub destroy_lem :
    (e : EventMap) (r : Registry) (sid at : Bytes)
    → e.once ≡ false
    → IsConsistent r
    → ((destroy e r).0.m ≡ [])
      × (is_subscribed (destroy e r).1 sid at
          ≡ (is_subscribed r sid at && not (of_session sid e.subscription)))
      × IsConsistent (destroy e r).1
      × (destroy (destroy e r).0 (destroy e r).1 ≡ destroy e r)
unfolding destroy
destroy_lem e r sid at h c = rw h (
  refl,
  (is_subscribed-close e.subscription r sid at c).0,
  close-IsConsistent e.subscription r c,
  refl,
)

-- An event map that has been destroyed, and a registry without its session.
pub record IsGone (sub : Subscription) (e : EventMap) (r : Registry) : Type 0 where
  pub once : e.once ≡ true
  pub emptied : e.m ≡ []
  pub unsubscribed : (at : Bytes) → is_subscribed r sub.session_id at ≡ false
  pub consistent : IsConsistent r

of_session_self : (sub : Subscription) → of_session sub.session_id sub ≡ true
of_session_self sub = ground arith

and_not : (a b : Bool) → b ≡ true → (a && not b) ≡ false
and_not a b h = ground arith

pub destroy-IsGone :
    (e : EventMap) (r : Registry)
    → e.once ≡ false
    → IsConsistent r
    → IsGone e.subscription (destroy e r).0 (destroy e r).1
unfolding destroy
destroy-IsGone e r live c =
    let all = λ (at : Bytes). destroy_lem e r e.subscription.session_id at live c in
    record {
      once = rw live refl;
      emptied = (all []).0;
      unsubscribed = λ at. (all at).1 ∙ and_not _ _ (of_session_self e.subscription);
      consistent = (all []).2;
    }

pub destroy_again : (e : EventMap) (r : Registry) → e.once ≡ true → destroy e r ≡ (e, r)
unfolding destroy
destroy_again e r gone = rw gone refl
