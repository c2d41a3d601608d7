-- ===== src/Connection/Examples/Handlers.antt =====
-- internal/app/connection: the theorems on commands and dispatches at concrete inputs.
use event_api.Base.{
  not, ℕ, pos, ◌≡◌, refl, ◌⊎◌, ◌↔◌, List, [], ◌∷◌, none, some, true, false, Bytes, codes, bytes_dec,
  ite, length, ◌≤◌, occurrences, if◌then◌else◌,
}
use event_api.Nats
use event_api.Nats.{Registry}
use event_api.Connection.Types.{contains}
use event_api.Connection.Cache.{admitted, has_dispatch}
use event_api.Connection.Cache.{occurrences-admitted}
use event_api.Connection.EventMap.{count_of, is_nil, already_subscribed}
use event_api.Connection.EventMap.View.{IsValid, view, find_entry}
use event_api.Connection.EventMap.Subscribing.{answer, extend, linked}
use event_api.Connection.EventMap.Conditions.{is_hit}
use event_api.Connection.EventMap.Matching.{audience}
use event_api.Connection.Session.{Session}
use event_api.Connection.WebSocket.{connection, connection-ConnectionLaws}
use event_api.Connection.WebSocket
use event_api.Connection.Handler.{Reply, refused, Refusal, check_subscribe, check_condition, refuse}
use event_api.Connection.Handler
use event_api.Connection.Handler.Validation.{
  IsAcceptable, IsShort, check_subscribe-IsAcceptable, check_condition-eleven,
}
use event_api.Connection.Handler.Granting.{subscribe_acceptable}
use event_api.Connection.Handler.Refusals.{IsRefusal}
use event_api.Connection.WebSocket.Refusals.{farewell, subscribe_refused}
use event_api.Connection.Handler.Dispatching.{on_dispatch}
use event_api.Connection.Handler.Once.{dispatch_each, on_dispatch_once}
use event_api.Connection.WebSocket.Dispatches.{IsSent, dispatches_matching, whispers_named}
use event_api.Connection.Samples.{
  sample_env, sample_env-EnvLaws, emote_update, object_is_1, plain_dispatch,
}
use event_api.Connection.Handler.Withdrawing.{IsWithdrawn, unsubscribe-IsWithdrawn}
use event_api.Connection.Fixtures.{
  one_entry, sample_cfg, sample_session, no_ttl, one_entry-IsValid, entity_update, whisper,
  subscribe_message, bad_message, good_request, bad_request, good_request-IsAcceptable, not_dotted,
  is_seven,
}

dispatches_matching_example :
    (matches : List ℕ) × (s' : Session (List ℕ)) × ((x : ℕ)
      → contains x matches
        ≡ is_hit sample_env x (object_is_1 ∷ []) (audience sample_env emote_update one_entry))
    × (on_dispatch sample_env (connection sample_env) 0 (plain_dispatch emote_update) sample_session
        ≡ some s')
    × IsSent sample_env
        (plain_dispatch emote_update)
        matches
        (not (is_nil matches))
        sample_session
        s'
dispatches_matching_example =
    dispatches_matching sample_env sample_env-EnvLaws 0 (plain_dispatch emote_update) sample_session
      refl refl one_entry-IsValid

whispers_named_example :
    (s' : Session (List ℕ)) × (on_dispatch sample_env
        (connection sample_env)
        0
        whisper
        sample_session
      ≡ some s')
    × IsSent sample_env whisper []
        (ite (bytes_dec (codes "b") (codes "a")) true false)
        sample_session
        s'
whispers_named_example =
    whispers_named sample_env sample_env-EnvLaws 0 whisper sample_session refl (λ h. cc)

on_dispatch_once_example :
    (s1 : Session (List ℕ)) × (s2 : Session (List ℕ)) × (s3 : Session (List ℕ)) × (on_dispatch
        sample_env
        (connection sample_env)
        0
        (plain_dispatch emote_update)
        sample_session
      ≡ some s1)
    × (dispatch_each sample_env (connection sample_env) ((1, whisper) ∷ []) s1 ≡ some s2)
    × (on_dispatch sample_env (connection sample_env) 2 (plain_dispatch entity_update) s2 ≡ some s3)
    × ((s1.sent ≡ []) ⊎ (s3.sent ≡ s2.sent))
on_dispatch_once_example =
    on_dispatch_once sample_env sample_env-EnvLaws 7 (connection sample_env)
      (connection-ConnectionLaws sample_env) 0 2 (plain_dispatch emote_update)
      (plain_dispatch entity_update) ((1, whisper) ∷ []) sample_session refl refl tt (tt, tt)
      one_entry-IsValid

check_subscribe-IsAcceptable_example :
    (check_subscribe (pos 500) 0 false good_request ≡ none)
    ↔ IsAcceptable (pos 500) 0 false good_request
check_subscribe-IsAcceptable_example = check_subscribe-IsAcceptable (pos 500) 0 false good_request

check_condition-eleven_example :
    (check_condition 1 0 object_is_1 ≡ none) ↔ (IsShort object_is_1 × (length object_is_1 ≤ 11))
check_condition-eleven_example = check_condition-eleven 1 object_is_1

subscribe_refused_example :
    (x : Refusal) × (s' : Session (List ℕ)) × IsRefusal
      (pos 500)
      (count_of one_entry)
      false
      bad_request
      x.txt
      x.code
    × (Handler.subscribe sample_env sample_cfg (connection sample_env) bad_message sample_session
        ≡ some (s', refused))
    × (s'.sent ≡ farewell x)
    × (s'.done ≡ true)
    × (s'.events ≡ one_entry)
    × (s'.registry ≡ Nats.init)
unfolding count_of
subscribe_refused_example =
    subscribe_refused sample_env sample_cfg bad_message bad_request refl sample_session not_dotted
      refl (λ k. refl)

subscribe_acceptable_example :
    (s' : Session (List ℕ)) × (reply : Reply) × (Handler.subscribe sample_env sample_cfg
        (connection sample_env)
        subscribe_message
        sample_session
      ≡ some (s', reply))
    × (((answer (find_entry sample_env object_is_1 (view one_entry entity_update)) ≡ none)
          × (reply ≡ Handler.accepted)
          × ((u : Bytes)
              → view s'.events u
                ≡ ite
                    (bytes_dec u entity_update)
                    (extend
                      (find_entry sample_env object_is_1 (view one_entry entity_update))
                      (view one_entry entity_update)
                      (record { id = 100; condition = object_is_1; properties = no_ttl }))
                    (view one_entry u))
          × (s'.registry
              ≡ linked
                  (find_entry sample_env object_is_1 (view one_entry entity_update))
                  Nats.init
                  (Nats.subscribe one_entry.subscription (entity_update ∷ []) Nats.init)))
        ⊎ ((answer (find_entry sample_env object_is_1 (view one_entry entity_update))
              ≡ some already_subscribed)
            × (reply ≡ refused)
            × (s'.done ≡ true)))
unfolding count_of WebSocket.has_actor
subscribe_acceptable_example =
    subscribe_acceptable sample_env sample_cfg (connection sample_env)
      (connection-ConnectionLaws sample_env) subscribe_message good_request refl sample_session
      one_entry-IsValid good_request-IsAcceptable

unsubscribe-IsWithdrawn_example :
    (s' : Session (List ℕ)) × (reply : Reply) × (Handler.unsubscribe sample_env sample_cfg
        (connection sample_env)
        subscribe_message
        sample_session
      ≡ some (s', reply))
    × IsValid s'.events
    × IsWithdrawn sample_env sample_env-EnvLaws sample_cfg
        (connection sample_env)
        (connection-ConnectionLaws sample_env)
        subscribe_message
        sample_session
        s'
        reply
unsubscribe-IsWithdrawn_example =
    unsubscribe-IsWithdrawn sample_env sample_env-EnvLaws sample_cfg (connection sample_env)
      (connection-ConnectionLaws sample_env) subscribe_message sample_session one_entry-IsValid

occurrences-admitted_example :
    occurrences is_seven (admitted sample_env (7 ∷ 8 ∷ 7 ∷ []) (record { dispatch = [] })) ≡ (
      if has_dispatch sample_env 7 (record { dispatch = [] })
      then 0
      else if contains 7 (7 ∷ 8 ∷ 7 ∷ [])
      then 1
      else 0)
occurrences-admitted_example =
    occurrences-admitted sample_env sample_env-EnvLaws 7 (7 ∷ 8 ∷ 7 ∷ []) (record { dispatch = [] })
