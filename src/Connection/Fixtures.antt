-- ===== src/Connection/Fixtures.antt =====
-- internal/app/connection: a session, its event map, messages and histories to run the code on.
use event_api.Base.{
  ℕ, pos, ◌≡◌, refl, inl, List, [], ◌∷◌, none, some, Bool, true, false, Bytes, codes, occurrences,
  arith, ℕ_discrete,
}
use event_api.Nats
use event_api.Nats.{Registry}
use event_api.Connection.Types
use event_api.Connection.Types.{
  ApiConfig, EventCondition, RawMessage, SubscribePayload, DispatchPayload, contains,
  EventSubscriptionProperties, Message,
}
use event_api.Connection.Cache.{is_hash}
use event_api.Connection.EventMap.{EventMap}
use event_api.Connection.EventMap.View.{Entry, IsValid, channel_of, channel_of-IsChannel}
use event_api.Connection.EventStream.Reading as Stream
use event_api.Connection.EventStream.Printing.{Item, IsItem, print_item}
use event_api.Connection.Session.{Session}
use event_api.Connection.WebSocket.Reading
use event_api.Connection.WebSocket.Reading.{
  Loop, new_loop, Action, greeting, serve, start_reading, read, shutting_down, received, stopping,
  perform_all,
}
use event_api.Connection.Handler.Validation.{IsAcceptable, is_byte}
use event_api.Connection.Samples.{emote_update, object_is_1, plain_dispatch}

abbrev pub first_entry : Entry
first_entry = record {
  id = 100;
  condition = object_is_1;
  properties = record { ttl = none; auto = true };
}

abbrev pub one_entry : EventMap
one_entry = record {
  subscription = record { ch = 0; session_id = codes "a" };
  count = 0;
  m = (emote_update, channel_of none (first_entry ∷ [])) ∷ [];
  once = false;
  next_ctx = 1;
  cancelled = [];
}

abbrev pub sample_cfg : ApiConfig
sample_cfg = record {
  v3 = true;
  heartbeat_interval = 0;
  subscription_limit = pos 500;
  connection_limit = pos 100;
  ttl = 60;
}

abbrev pub sample_session : Session (List ℕ)
sample_session = record {
  session_id = codes "a";
  heartbeat_interval = 45000;
  subscription_limit = pos 500;
  done = false;
  ready = true;
  socket_closed = false;
  writable = true;
  seq = 0;
  heartbeat_count = 0;
  sent = [];
  attempts = 0;
  draws = 0;
  events = one_entry;
  registry = Nats.init;
  cache = record { dispatch = [] };
  buffer = none;
  timers = [];
}

abbrev pub no_ttl : EventSubscriptionProperties
no_ttl = record { ttl = none; auto = false }

pub one_entry-IsValid : IsValid one_entry
one_entry-IsValid = record {
  channels = (channel_of-IsChannel none (first_entry ∷ []) (λ h. cc), tt);
}

abbrev pub entity_update : Bytes
entity_update = codes "user.update"

abbrev pub whisper : DispatchPayload
whisper = record (plain_dispatch emote_update) { whisper = codes "b" }

abbrev pub subscribe_message : RawMessage
subscribe_message = record { op = Types.subscribe; payload = entity_update }

abbrev pub bad_message : RawMessage
bad_message = record { op = Types.subscribe; payload = codes "user" }

abbrev pub good_request : SubscribePayload
good_request = record { event_type = entity_update; condition = object_is_1 }

abbrev pub bad_request : SubscribePayload
bad_request = record { event_type = codes "user"; condition = object_is_1 }

one_dot : occurrences (is_byte b'.') entity_update ≡ 1
unfolding occurrences ℕ_discrete
one_dot = refl

pub good_request-IsAcceptable : IsAcceptable (pos 500) 0 false good_request
good_request-IsAcceptable = record {
  dotted = omega (arith, one_dot);
  targeted = inl (λ h. cc);
  within_limit = refl;
  short_type = omega arith;
  short_condition = ((omega arith, omega arith), tt);
  few_conditions = omega arith;
}

pub not_dotted : ¬ IsAcceptable (pos 500) 0 false bad_request
unfolding occurrences
not_dotted a = absurd (ground (arith, a.dotted))

abbrev pub ended_session : Session (List ℕ)
ended_session = record sample_session { done = true }

abbrev pub sample_loop : Loop (List ℕ)
sample_loop = record {
  session = sample_session;
  server = Reading.waiting;
  client = Reading.waiting;
  deferred = false;
}

abbrev pub sample_history : List Action
sample_history =
    greeting 3
    ∷ start_reading (codes "whisper.self")
    ∷ read 0 true (received subscribe_message)
    ∷ serve 1 (Reading.dispatched (some emote_update))
    ∷ shutting_down
    ∷ serve 2 stopping
    ∷ []

abbrev pub is_seven : ℕ → Bool
is_seven = is_hash 7

abbrev pub stream_loop : Stream.Loop (List ℕ)
stream_loop = record { session = sample_session; running = false }

abbrev pub to_raw : SubscribePayload → RawMessage
to_raw p = record { op = Types.subscribe; payload = p.event_type }

abbrev pub stream_history : List Stream.Action
stream_history =
    Stream.greeting 3
    ∷ Stream.subscribe_url (codes "@emote.update<object_id=1>")
    ∷ Stream.serve 1 (Stream.dispatched (some emote_update))
    ∷ Stream.shutting_down
    ∷ Stream.serve 2 Stream.stopping
    ∷ []

abbrev pub small_item : Item
small_item = record { word = codes "a"; name = codes "b"; condition = (codes "k", codes "v") ∷ [] }

pub small_item-IsItem : IsItem small_item
unfolding print_item ℕ_discrete
small_item-IsItem = record {
  some_word = refl;
  words = (refl, tt);
  some_name = refl;
  names = (refl, tt);
  plain = (((refl, tt), (refl, tt), (refl, (refl, (refl, tt)))), tt);
  one_line = (refl, (refl, (refl, tt)));
  no_comma = (refl, (refl, (refl, (refl, (refl, (refl, (refl, (refl, tt))))))));
}

abbrev pub no_messages : Nats.Channels
no_messages c = []
