-- ===== src/Connection/Examples/Transports.antt =====
-- internal/app/connection: the theorems on the two transports at concrete inputs.
use event_api.Base.{
  ℕ, ◌≡◌, refl, List, [], ◌∷◌, some, true, codes, bytes_dec, arith, suc, ◌++◌, lookup,
}
use event_api.Nats
use event_api.Nats.{Registry}
use event_api.Connection.Types
use event_api.Connection.Types.{
  ApiConfig, EventCondition, RawMessage, SubscribePayload, DispatchPayload, contains,
  EventSubscriptionProperties, Message,
}
use event_api.Connection.Cache.{has_dispatch}
use event_api.Connection.EventMap.{count_of}
use event_api.Connection.EventMap.View.{IsValid, find_entry}
use event_api.Connection.EventStream.Reading as Stream
use event_api.Connection.EventStream.Serving.{perform_stream-IsValid}
use event_api.Connection.EventStream.Url.{parse_subscriptions}
use event_api.Connection.EventStream.Printing.{print_url, assign_all, parse_subscriptions-print}
use event_api.Connection.WebSocket.{connection, connection-ConnectionLaws}
use event_api.Connection.WebSocket
use event_api.Connection.WebSocket.Reading
use event_api.Connection.WebSocket.Reading.{
  Loop, new_loop, Action, greeting, serve, start_reading, read, shutting_down, received, stopping,
  perform, perform_all,
}
use event_api.Nats.Delivery.{replicate}
use event_api.Connection.Session.{json, Session, new_session}
use event_api.Connection.EventStream
use event_api.Connection.EventMap
use event_api.Connection.EventStream.Cleanup.{IsFreed, perform-IsFreed}
use event_api.Connection.WebSocket.Sending.{ack_message}
use event_api.Connection.WebSocket.Flow.{perform_arrives}
use event_api.Connection.EventMap.Hits.{meets}
use event_api.Connection.Handler.Dispatching.{dispatch_message}
use event_api.Connection.WebSocket.Ending.{perform_all-IsValid, perform_all_ended}
use event_api.Connection.Samples.{sample_env, sample_env-EnvLaws, object_is_1, plain_dispatch}
use event_api.Connection.WebSocket.Cleanup.{IsReleased, perform-IsReleased}
use event_api.Nats.Subscribing.{init-IsConsistent}
use event_api.Connection.Fixtures.{
  one_entry, sample_session, sample_cfg, one_entry-IsValid, entity_update, subscribe_message,
  good_request, good_request-IsAcceptable, no_messages, ended_session, sample_loop, sample_history,
  stream_loop, to_raw, stream_history, small_item, small_item-IsItem,
}

perform_all-IsValid_example :
    (l' : Loop (List ℕ)) × (perform_all sample_env sample_cfg sample_history sample_loop ≡ some l')
    × IsValid l'.session.events
perform_all-IsValid_example =
    perform_all-IsValid sample_env sample_env-EnvLaws sample_cfg sample_history sample_loop
      one_entry-IsValid

perform_stream-IsValid_example :
    (l' : Stream.Loop (List ℕ)) × (Stream.perform_all sample_env sample_cfg to_raw stream_history
        stream_loop
      ≡ some l')
    × IsValid l'.session.events
perform_stream-IsValid_example =
    perform_stream-IsValid sample_env sample_env-EnvLaws sample_cfg to_raw stream_history
      stream_loop one_entry-IsValid

parse_subscriptions-print_example :
    parse_subscriptions (print_url (small_item ∷ []))
    ≡ record { event_type = codes "a.b"; condition = assign_all small_item.condition [] } ∷ []
parse_subscriptions-print_example = parse_subscriptions-print small_item [] (small_item-IsItem, tt)

perform_all_ended_example :
    (l' : Loop (List ℕ)) × (perform_all sample_env sample_cfg sample_history
        (record sample_loop { session = ended_session })
      ≡ some l')
    × (l'.session.done ≡ true)
    × (l'.session.sent ≡ [])
perform_all_ended_example =
    perform_all_ended sample_env sample_env-EnvLaws sample_cfg sample_history
      (record sample_loop { session = ended_session }) one_entry-IsValid refl

perform_arrives_example :
    (l1 : Loop (List ℕ)) × (l2 : Loop (List ℕ)) × (matches : List ℕ) × (k : ℕ) × (perform sample_env
        sample_cfg
        (read 0 true (received subscribe_message))
        sample_loop
      ≡ some l1)
    × (Nats.handle_message
          (codes "base")
          (codes "base" ++ b'.' ∷ entity_update)
          entity_update
          l1.session.registry
          no_messages
          0
        ≡ replicate (suc k) entity_update)
    × (perform sample_env sample_cfg (serve 1 (Reading.dispatched (some entity_update))) l1
        ≡ some l2)
    × (contains 100 matches ≡ true)
    × (l2.session.sent
        ≡ json (ack_message Types.subscribe (Types.subscribed 100 entity_update object_is_1))
          ∷ json (
              dispatch_message sample_env
                (connection sample_env)
                (plain_dispatch entity_update)
                matches)
          ∷ [])
unfolding count_of WebSocket.has_actor meets Nats.is_subscribed find_entry bytes_dec contains
    has_dispatch lookup Nats.init
perform_arrives_example =
    perform_arrives sample_env sample_env-EnvLaws sample_cfg sample_loop subscribe_message
      good_request refl refl 0 1 true (codes "base") entity_update no_messages
      (plain_dispatch entity_update) one_entry-IsValid good_request-IsAcceptable refl refl refl refl
      (λ k. refl) (omega arith) refl refl
      (record { open_to_all = refl; no_effect = refl; unseen = λ h e. refl }) refl

abbrev released_loop : Loop (List ℕ)
released_loop = record sample_loop {
  session =
      WebSocket.destroy sample_env
        (WebSocket.send_close sample_env Types.CloseCode.restart sample_session);
  server = Reading.over;
}

perform-IsReleased_example : IsReleased one_entry.subscription released_loop.session
unfolding Reading.server_step perform
perform-IsReleased_example =
    perform-IsReleased sample_env sample_cfg sample_loop released_loop refl init-IsConsistent
      (serve 2 stopping) (λ h. cc) refl refl

-- A new event stream, whose `Read` ends with its request.
abbrev new_stream : Session (List ℕ)
new_stream = new_session sample_env sample_cfg (codes "raw") (codes "hex") 0 Nats.init

abbrev served_stream : Stream.Loop (List ℕ)
served_stream = Stream.start sample_env sample_cfg to_raw 3 new_stream

perform-IsFreed_example :
    IsFreed served_stream.session.events.subscription
      (Stream.end_loop sample_env sample_cfg to_raw served_stream.session).session
unfolding new_session Stream.start EventStream.greet EventStream.set_ready EventMap.new_event_map
    Stream.perform
perform-IsFreed_example =
    perform-IsFreed sample_env sample_cfg to_raw served_stream refl init-IsConsistent
      (Stream.serve 4 Stream.request_done)
      (Stream.end_loop sample_env sample_cfg to_raw served_stream.session) refl refl refl
