-- ===== src/Connection/Examples/EventMaps.antt =====
-- internal/app/connection: the theorems on event maps at concrete inputs.
use event_api.Base.{
  true, ℕ, ◌≡◌, refl, List, [], ◌∷◌, none, some, Bool, false, Bytes, codes, bytes_dec, length,
  occurrences, lookup, All, ◌⊎◌, inl,
}
use event_api.Nats
use event_api.Nats.{Registry}
use event_api.Nats.Subscribing.{init-IsConsistent}
use event_api.Connection.Types.{contains}
use event_api.Connection.EventMap.{EventMap, Outcome, subscribe, unsubscribe, not_subscribed}
use event_api.Connection.EventMap.View.{Entry, IsValid, view, find_entry}
use event_api.Connection.EventMap.Subscribing.{subscribe-Subscribed, Subscribed}
use event_api.Connection.EventMap.Withdrawals.{Unsubscribed}
use event_api.Connection.EventMap.Unsubscribing.{unsubscribe-Unsubscribed}
use event_api.Connection.EventMap.Conditions.{is_hit}
use event_api.Connection.EventMap.Matching.{reached, reached-is_hit, audience}
use event_api.Connection.EventMap.Removal.{unsubscribe_with_id}
use event_api.Connection.EventMap.Expiry.{renewal_lost}
use event_api.Connection.EventMap.Identifiers.{HasNone, Picked, left_map, unsubscribe_with_id_lem}
use event_api.Connection.Samples.{sample_env, sample_env-EnvLaws, emote_update, object_is_1}
use event_api.Connection.EventMap.Returning.{subscribe-unsubscribe}
use event_api.Connection.EventMap.Late.{destroy-subscribe_late}
use event_api.Nats.History as Calls
use event_api.Connection.EventMap.Linking.Histories.{Operation, destroying, foreign, perform_all}
use event_api.Connection.Fixtures.{first_entry, one_entry, no_ttl, one_entry-IsValid, entity_update}

reached-is_hit_example :
    (out : List ℕ) × (reached sample_env emote_update (object_is_1 ∷ []) one_entry ≡ some out)
    × ((x : ℕ)
        → contains x out
          ≡ is_hit sample_env x (object_is_1 ∷ []) (audience sample_env emote_update one_entry))
reached-is_hit_example =
    reached-is_hit sample_env sample_env-EnvLaws emote_update (object_is_1 ∷ []) one_entry
      one_entry-IsValid

subscribe-Subscribed_example :
    (o : Outcome) × (subscribe sample_env 5 entity_update object_is_1 no_ttl one_entry Nats.init
      ≡ some o)
    × Subscribed sample_env 5 entity_update object_is_1 no_ttl one_entry Nats.init o
subscribe-Subscribed_example =
    subscribe-Subscribed sample_env 5 entity_update object_is_1 no_ttl one_entry Nats.init
      one_entry-IsValid

unsubscribe-Unsubscribed_example :
    (o : Outcome) × (unsubscribe sample_env emote_update object_is_1 one_entry Nats.init ≡ some o)
    × Unsubscribed sample_env emote_update object_is_1 one_entry Nats.init o
unsubscribe-Unsubscribed_example =
    unsubscribe-Unsubscribed sample_env sample_env-EnvLaws emote_update one_entry Nats.init
      object_is_1 one_entry-IsValid

unsubscribe_with_id_lem_example :
    (o : Outcome) × (unsubscribe_with_id sample_env (100 ∷ []) one_entry Nats.init ≡ some o)
    × ((All (λ kv. HasNone (100 ∷ []) kv.1) one_entry.m
          × (o.events ≡ one_entry)
          × (o.registry ≡ Nats.init)
          × (o.error ≡ some not_subscribed))
        ⊎ ((k : Picked sample_env (100 ∷ []) one_entry.m) × (o.events
              ≡ record one_entry { m = left_map sample_env sample_env-EnvLaws (100 ∷ []) k })
            × (length (sample_env.slice_left Entry k.entries k.index) ≡ length k.entries)
            × (o.registry
                ≡ Nats.unsubscribe one_entry.subscription
                    (sample_env.dispatch_key k.event_type k.entry.condition ∷ [])
                    Nats.init)
            × (o.error ≡ none)))
unsubscribe_with_id_lem_example =
    unsubscribe_with_id_lem sample_env sample_env-EnvLaws (100 ∷ []) one_entry Nats.init
      one_entry-IsValid

renewal_lost_example :
    (o : Outcome) × (o' : Outcome) × (unsubscribe_with_id sample_env (100 ∷ []) one_entry Nats.init
      ≡ some o)
    × (o.events ≡ one_entry)
    × (subscribe sample_env 7 emote_update object_is_1 no_ttl o.events o.registry ≡ some o')
    × (o'.error ≡ none)
    × (Nats.is_subscribed o'.registry (codes "a") emote_update ≡ false)
unfolding bytes_dec lookup
renewal_lost_example =
    renewal_lost sample_env sample_env-EnvLaws emote_update none first_entry one_entry Nats.init
      refl (inl refl, tt) 7 no_ttl one_entry-IsValid init-IsConsistent refl refl

subscribe-unsubscribe_example :
    (o : Outcome) × (o' : Outcome) × (subscribe sample_env 5 entity_update object_is_1 no_ttl
        one_entry Nats.init
      ≡ some o)
    × (o.error ≡ none)
    × (unsubscribe sample_env entity_update object_is_1 o.events o.registry ≡ some o')
    × (o'.error ≡ none)
    × IsValid o'.events
    × ((u : Bytes) (q : Entry → Bool)
        → occurrences q (view o'.events u) ≡ occurrences q (view one_entry u))
    × ((sid at : Bytes)
        → Nats.is_subscribed o'.registry sid at ≡ Nats.is_subscribed Nats.init sid at)
unfolding find_entry bytes_dec Nats.is_subscribed lookup Nats.init
subscribe-unsubscribe_example =
    subscribe-unsubscribe sample_env sample_env-EnvLaws 5 entity_update object_is_1 no_ttl one_entry
      Nats.init one_entry-IsValid init-IsConsistent refl refl refl refl

abbrev destroyed : EventMap
destroyed = record one_entry { m = []; once = true }

destroyed-IsValid : IsValid destroyed
destroyed-IsValid = record { channels = tt }

-- `Destroy` comes again, and another session ends.
abbrev afterwards : List Operation
afterwards = destroying ∷ foreign (Calls.closing (record { ch = 1; session_id = codes "b" })) ∷ []

destroy-subscribe_late_example :
    (o : Outcome) × (e' : EventMap) × (r' : Registry) × (subscribe sample_env 5 entity_update
        object_is_1 no_ttl destroyed Nats.init
      ≡ some o)
    × (o.error ≡ none)
    × (perform_all sample_env afterwards o.events o.registry ≡ some (e', r'))
    × (Nats.is_subscribed r' (codes "a") entity_update ≡ true)
unfolding find_entry lookup bytes_dec
destroy-subscribe_late_example =
    destroy-subscribe_late sample_env 5 entity_update object_is_1 no_ttl destroyed Nats.init
      afterwards destroyed-IsValid refl init-IsConsistent refl (tt, (refl, tt))
