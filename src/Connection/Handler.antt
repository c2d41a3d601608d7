-- ===== src/Connection/Handler.antt =====
-- internal/app/connection/handle.go: the commands of a client, and the dispatches to it, over any
-- transport. `none` is a panic.
pub mod Lifting
pub mod Commands
pub mod Linked
pub mod Dispatching
pub mod Validation
pub mod Granting
pub mod Refusals
pub mod Effects
pub mod Audience
pub mod Answering
pub mod Safety
pub mod Hashes
pub mod Once
pub mod Withdrawing
use Prim.Native.String.{String}
use event_api.Base.{
  ℕ, ℤ, suc, List, [], ◌∷◌, Option, none, some, Bool, true, false, Bytes, codes, if◌then◌else◌,
  ◌&&◌, ◌||◌, not, ltb, split, length, at_least,
}
use event_api.Connection.Types.{
  Env, ApiConfig, CloseCode, RawMessage, SubscribePayload, EventCondition, Field, num, text,
  subscribed, unsubscribed, resumed, EventSubscriptionProperties,
}
use event_api.Connection.Types
use event_api.Connection.EventMap.{
  Outcome, Error, already_subscribed, not_subscribed, count_of, is_nil,
}
use event_api.Connection.Session.{Session, Connection, subscribe_events, unsubscribe_events}

-- `EVENT_TYPE_MAX_LENGTH`, `SUBSCRIPTION_CONDITION_MAX` and so on.
abbrev pub event_type_max_length : ℕ
event_type_max_length = 64

abbrev pub subscription_condition_max : ℕ
subscription_condition_max = 10

abbrev pub subscription_condition_key_max_length : ℕ
subscription_condition_key_max_length = 64

abbrev pub subscription_condition_value_max_length : ℕ
subscription_condition_value_max_length = 128

-- What a command handler returns: an error, or the flag of `Subscribe`.
pub data Reply : Type 0 where
  failed refused accepted : Reply

-- A refusal: the text and fields of the error message, and the close code.
pub record Refusal : Type 0 where
  pub txt : String
  pub fields : List (String × Field)
  pub code : CloseCode

abbrev key_too_large : Bytes → Bytes → ℕ → Refusal
key_too_large k v pos = record {
  txt = "Subscription Condition Key Too Large";
  fields =
      ("key", text k)
      ∷ ("key_index", num pos)
      ∷ ("value", text v)
      ∷ ("key_length", num (length k))
      ∷ ("key_length_most", num subscription_condition_key_max_length)
      ∷ ("value_length", num (length v))
      ∷ ("value_length_most", num subscription_condition_value_max_length)
      ∷ [];
  code = CloseCode.rate_limit;
}

-- The loop over the condition, from position `pos` on; `total` is `len(msg.Data.Condition)`.
pub check_condition : ℕ → ℕ → EventCondition → Option Refusal
check_condition total pos [] = none
check_condition total pos ((k, v) ∷ rest) =
    if ltb subscription_condition_max pos
    then some (record {
      txt = "Subscription Condition Too Large";
      fields =
          ("condition_keys", num total)
          ∷ ("condition_keys_most", num subscription_condition_max)
          ∷ [];
      code = CloseCode.rate_limit;
    })
    else if ltb subscription_condition_key_max_length (length k)
        || ltb subscription_condition_value_max_length (length v)
    then some (key_too_large k v pos)
    else check_condition total (suc pos) rest

abbrev pub plain : String → CloseCode → Refusal
plain txt code = record { txt = txt; fields = []; code = code }

-- The guards of `Subscribe`, in their order, up to the call of `Events().Subscribe`. The limit is
-- the configuration's; `count` is `Events().Count()`.
pub check_subscribe : ℤ → ℕ → Bool → SubscribePayload → Option Refusal
unfolding check_condition
check_subscribe limit count actor p =
    if is_nil p.event_type
    then some (plain "Missing event type" CloseCode.invalid_payload)
    else if ltb (length (split b'.' p.event_type)) 2
    then some (plain "Bad event type path" CloseCode.invalid_payload)
    else if is_nil p.condition && not actor
    then some (
        plain "Wildcard event target subscription requires authentication"
          CloseCode.insufficient_privilege)
    else if at_least count limit
    then some (plain "Too Many Active Subscriptions!" CloseCode.rate_limit)
    else if ltb event_type_max_length (length p.event_type)
    then some (record {
      txt = "Event Type Too Large";
      fields =
          ("event_type", text p.event_type)
          ∷ ("event_type_length", num (length p.event_type))
          ∷ ("event_type_length_most", num event_type_max_length)
          ∷ [];
      code = CloseCode.rate_limit;
    })
    else check_condition (length p.condition) 0 p.condition

-- The zero `EventSubscriptionProperties`.
abbrev pub no_properties : EventSubscriptionProperties
no_properties = record { ttl = none; auto = false }

module _ {S : Type 0} (env : Env S) (cfg : ApiConfig) (conn : Connection S) where
  -- `SendError`, then `SendClose`.
  abbrev pub refuse : Refusal → Session S → Session S
  refuse x s = conn.send_close x.code (conn.send_error x.txt x.fields s)

  -- `Subscribe` after its guards; the error of the acknowledgement is dropped.
  abbrev pub add_subscription : SubscribePayload → Session S → Option (Session S × Reply)
  add_subscription p s = elim (subscribe_events env p.event_type p.condition no_properties s) [
    | none ↦ none
    | some (s', o) ↦ elim o.error [
      | none ↦ some (
        (conn.send_ack Types.subscribe (subscribed o.id p.event_type p.condition) s').0,
        accepted,
      )
      | some already_subscribed ↦ some (
        refuse (plain "Already subscribed to this event" CloseCode.already_subscribed) s',
        refused,
      )
      | some not_subscribed ↦ some (s', failed)
    ]
  ]

  -- `Subscribe`
  unfoldable pub subscribe : RawMessage → Session S → Option (Session S × Reply)
  unfolding check_subscribe
  subscribe m s = elim (env.convert_subscribe m) [
    | none ↦ some (s, failed)
    | some p ↦
        elim (check_subscribe cfg.subscription_limit (count_of s.events) (conn.has_actor s) p) [
          | some x ↦ some (refuse x s, refused)
          | none ↦ add_subscription p s
        ]
  ]

  -- `Unsubscribe`; the reply is `failed` or `accepted`.
  unfoldable pub unsubscribe : RawMessage → Session S → Option (Session S × Reply)
  unsubscribe m s = elim (env.convert_subscribe m) [
    | none ↦ some (s, failed)
    | some p ↦ elim (unsubscribe_events env p.event_type p.condition s) [
      | none ↦ none
      | some (s', o) ↦ elim o.error [
        | none ↦ some (
          (conn.send_ack Types.unsubscribe (unsubscribed p.event_type p.condition) s').0,
          accepted,
        )
        | some not_subscribed ↦ some (conn.send_close CloseCode.not_subscribed s', accepted)
        | some already_subscribed ↦ some (s', failed)
      ]
    ]
  ]

  -- `OnResume`: the resume is refused, with an acknowledgement.
  unfoldable pub on_resume : RawMessage → Session S → Session S × Reply
  on_resume m s = ((conn.send_ack Types.resume (resumed false 0 0) s).0, accepted)
