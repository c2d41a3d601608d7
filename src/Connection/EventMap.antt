-- ===== src/Connection/EventMap.antt =====
-- internal/app/connection/connection.go: `EventMap`, the subscriptions of one connection by event
-- type, with its link to the NATS registry. Each method holds the lock `mx` of the map.
-- A result `none` is a panic: an index out of range.
pub mod Lookup
pub mod Removal
pub mod View
pub mod Subscribing
pub mod Withdrawals
pub mod Unsubscribing
pub mod Conditions
pub mod Matching
pub mod Hits
pub mod Returning
pub mod Linking
pub mod Late
pub mod Leftovers
pub mod Identifiers
pub mod Expiry
use event_api.Base.{
  ℕ, zero, suc, List, [], ◌∷◌, ◌++◌, Option, none, some, Bool, true, false, ite, ◌&&◌, Bytes, codes,
  bytes_dec, ℕ_discrete, Map, insert, delete, lookup, get_elem?, length, leb, if◌then◌else◌,
}
use event_api.Nats
use event_api.Nats.{Subscription, Registry}
use event_api.Connection.Types.{Env, EventCondition, EventSubscriptionProperties}

-- `EventChannel`; `ctx` is the context that `Subscribe` derives, by the order of creation (`none`:
-- the zero value, in a channel that `Get` makes up).
pub record EventChannel : Type 0 where
  pub ctx : Option ℕ
  pub ids : List ℕ
  pub conditions : List EventCondition
  pub properties : List EventSubscriptionProperties

-- `EventMap`; `next_ctx` and `cancelled` keep the contexts that were derived and cancelled.
pub record EventMap : Type 0 where
  pub subscription : Subscription
  pub count : ℕ
  pub m : Map Bytes EventChannel
  pub once : Bool
  pub next_ctx : ℕ
  pub cancelled : List ℕ

-- `ErrAlreadySubscribed`, `ErrNotSubscribed`.
pub data Error : Type 0 where
  already_subscribed not_subscribed : Error

-- `NewEventMap`, with the channel that `nats.NewSub` makes.
unfoldable pub new_event_map : ℕ → Bytes → EventMap
new_event_map ch session_id = record {
  subscription = record { ch = ch; session_id = session_id };
  count = 0;
  m = [];
  once = false;
  next_ctx = 0;
  cancelled = [];
}

-- What a method leaves behind: the map, the registry, and the values that it returns.
pub record Outcome : Type 0 where
  pub events : EventMap
  pub registry : Registry
  pub id : ℕ
  pub error : Option Error

abbrev pub is_nil {ℓ} : {A : Type ℓ} → List A → Bool
is_nil [] = true
is_nil (x ∷ xs) = false

abbrev pub cancel : Option ℕ → List ℕ → List ℕ
cancel none cs = cs
cancel (some c) cs = c ∷ cs

abbrev pub empty_channel : Option ℕ → EventChannel
empty_channel ctx = record { ctx = ctx; ids = []; conditions = []; properties = [] }

-- `Count`.
unfoldable pub count_of : EventMap → ℕ
count_of e = e.count

module _ {S : Type 0} (env : Env S) where
  -- The index at which the loop `for i, c := range ec.Conditions` finds `c.Match(cond)`.
  unfoldable pub match_index : EventCondition → List EventCondition → Option ℕ
  match_index cond [] = none
  match_index cond (c ∷ cs) =
      if env.cond_match c cond
      then some 0
      else elim (match_index cond cs) [ none ↦ none | some i ↦ some (suc i) ]

  -- The end of `Subscribe`: the entry is appended, stored and linked to its dispatch key.
  unfoldable pub append_subscription :
      ℕ
      → Bytes
      → EventCondition
      → EventSubscriptionProperties
      → EventChannel
      → EventMap
      → Registry
      → Outcome
  append_subscription id t cond props ec e r = record {
    events = record e {
      m =
          insert bytes_dec t
            (record {
              ctx = ec.ctx;
              ids = ec.ids ++ id ∷ [];
              conditions = ec.conditions ++ cond ∷ [];
              properties = ec.properties ++ props ∷ [];
            })
            e.m;
    };
    registry = Nats.subscribe e.subscription (env.dispatch_key t cond ∷ []) r;
    id = id;
    error = none;
  }

  -- The loop of `Subscribe` over the conditions of the channel, and what follows it.
  unfoldable pub subscribe_channel :
      ℕ
      → Bytes
      → EventCondition
      → EventSubscriptionProperties
      → EventChannel
      → EventMap
      → Registry
      → Option Outcome
  unfolding append_subscription match_index
  subscribe_channel id t cond props ec e r = elim (match_index cond ec.conditions) [
    | none ↦ some (append_subscription id t cond props ec e r)
    | some i ↦ elim (get_elem? ec.properties i) [
      | none ↦ none
      | some p ↦ some (record {
        events = e;
        registry = r;
        id = id;
        error = if p.auto then none else some already_subscribed;
      })
    ]
  ]

  -- `Subscribe`, where `id` is what `rand.Uint32` gives.
  unfoldable pub subscribe :
      ℕ
      → Bytes
      → EventCondition
      → EventSubscriptionProperties
      → EventMap
      → Registry
      → Option Outcome
  unfolding subscribe_channel
  subscribe id t cond props e r = elim (lookup bytes_dec t e.m) [
    | none ↦
        subscribe_channel id t cond props (empty_channel (some e.next_ctx))
          (record e { next_ctx = suc e.next_ctx }) r
    | some ec ↦
        if is_nil ec.conditions && is_nil cond
        then some (record { events = e; registry = r; id = id; error = some already_subscribed })
        else subscribe_channel id t cond props ec e r
  ]

  -- `Unsubscribe` past its loop: the channel without the entry at `i` is stored, or dropped and
  -- cancelled when it is empty.
  unfoldable pub remove_subscription :
      Bytes → EventChannel → ℕ → ℕ → EventCondition → EventMap → Registry → Outcome
  remove_subscription t ec i id c e r =
      let ec' : EventChannel = record {
        ctx = ec.ctx;
        ids = env.slice_remove ℕ ec.ids i;
        conditions = env.slice_remove EventCondition ec.conditions i;
        properties = env.slice_remove EventSubscriptionProperties ec.properties i;
      } in
      record {
        events =
            if is_nil ec'.ids
            then record e { m = delete bytes_dec t e.m; cancelled = cancel ec.ctx e.cancelled }
            else record e { m = insert bytes_dec t ec' e.m };
        registry = Nats.unsubscribe e.subscription (env.dispatch_key t c ∷ []) r;
        id = id;
        error = none;
      }

  -- `Unsubscribe` with a condition, on the channel of the type.
  unfoldable pub unsubscribe_channel :
      Bytes → EventCondition → EventChannel → EventMap → Registry → Option Outcome
  unfolding remove_subscription match_index
  unsubscribe_channel t cond ec e r = elim (match_index cond ec.conditions) [
    | none ↦ some (record { events = e; registry = r; id = 0; error = some not_subscribed })
    | some i ↦ elim (get_elem? ec.ids i) [
      | none ↦ none
      | some id ↦ elim (get_elem? ec.conditions i) [
        | none ↦ none
        | some c ↦ some (remove_subscription t ec i id c e r)
      ]
    ]
  ]

  -- `Unsubscribe`.
  unfoldable pub unsubscribe : Bytes → EventCondition → EventMap → Registry → Option Outcome
  unfolding unsubscribe_channel
  unsubscribe t cond e r = elim (lookup bytes_dec t e.m) [
    | none ↦ some (record {
      events = if is_nil cond then record e { m = delete bytes_dec t e.m } else e;
      registry = r;
      id = 0;
      error = some not_subscribed;
    })
    | some ec ↦
        if is_nil cond
        then some (record {
          events = record e { m = delete bytes_dec t e.m };
          registry = r;
          id = 0;
          error = none;
        })
        else unsubscribe_channel t cond ec e r
  ]
