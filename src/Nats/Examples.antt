-- ===== src/Nats/Examples.antt =====
-- internal/nats/subscription.go: the theorems at concrete inputs.
use event_api.Base.{
  ℕ, List, false, ◌≡◌, refl, ap, [], ◌∷◌, ◌++◌, Bytes, codes, bytes_dec, lookup, get_list,
  occurrences, arith,
}
use event_api.Nats.{Subscription, Registry, init, subscribe, unsubscribe, handle_message, Channels}
use event_api.Nats.Laws.{IsConsistent}
use event_api.Nats.Subscribing.{subscribe-IsConsistent, init-IsConsistent}
use event_api.Nats.Unsubscribing.{unsubscribe_two_stale}
use event_api.Nats.History.{
  Operation, subscribing, unsubscribing, closing, perform_all, update_all, StandsFor,
  init-StandsFor, perform_all-StandsFor,
}
use event_api.Nats.Delivery.{handle_message-replicate, replicate, least, room, of_channel}

abbrev sub_a : Subscription
sub_a = record { ch = 1; session_id = codes "a" }

abbrev x_key : Bytes
x_key = codes "x"

abbrev y_key : Bytes
y_key = codes "y"

-- The session "a" with the subjects x, y and z.
abbrev three_keys : Registry
three_keys = record {
  subjects = (x_key, sub_a ∷ []) ∷ (y_key, sub_a ∷ []) ∷ (codes "z", sub_a ∷ []) ∷ [];
  sessions = (codes "a", x_key ∷ y_key ∷ codes "z" ∷ []) ∷ [];
}

abbrev head_of : Bytes → ℕ
head_of [] = 0
head_of (c ∷ s) = c

abbrev no_messages : Channels
no_messages c = []

joined-IsConsistent : IsConsistent (subscribe sub_a (x_key ∷ []) init)
joined-IsConsistent = subscribe-IsConsistent sub_a (x_key ∷ []) init init-IsConsistent

unsubscribe_two_stale_example :
    get_list bytes_dec (codes "a") (unsubscribe sub_a (x_key ∷ y_key ∷ []) three_keys).sessions
    ≡ codes "z" ∷ codes "z" ∷ []
unfolding bytes_dec lookup
unsubscribe_two_stale_example =
    unsubscribe_two_stale sub_a x_key y_key (codes "z") three_keys
      (λ h. absurd (omega (arith, ap head_of h))) (λ h. absurd (omega (arith, ap head_of h))) refl
      refl refl

handle_message-replicate_example :
    handle_message
      (codes "events")
      (codes "events" ++ b'.' ∷ x_key)
      (codes "m")
      three_keys
      no_messages
      1
    ≡ []
      ++ replicate
          (least
            (occurrences (of_channel 1) (get_list bytes_dec x_key three_keys.subjects))
            (room []))
          (codes "m")
handle_message-replicate_example =
    handle_message-replicate (codes "events") x_key (codes "m") three_keys no_messages 1

-- Two sessions: "a" joins x and y and leaves x, "b" joins x and closes.
abbrev sample_calls : List Operation
sample_calls =
    subscribing sub_a (x_key ∷ y_key ∷ [])
    ∷ subscribing (record { ch = 2; session_id = codes "b" }) (x_key ∷ [])
    ∷ unsubscribing sub_a x_key
    ∷ closing (record { ch = 2; session_id = codes "b" })
    ∷ []

perform_all-StandsFor_example :
    StandsFor (perform_all sample_calls init) (update_all sample_calls (λ sid at. false))
perform_all-StandsFor_example =
    perform_all-StandsFor sample_calls init (λ sid at. false) init-StandsFor
