-- ===== src/Connection/EventMap/Removal.antt =====
-- internal/app/connection/connection.go: `EventMap.UnsubscribeWithID` and `EventMap.Destroy`.
-- `UnsubscribeWithID` assigns the shortened slices to the loop's copy of the channel and not to the
-- map, so the map keeps its own slice headers over the arrays that `SliceRemove` has written to:
-- they read `slice_left`.
use event_api.Base.{
  ℕ, suc, List, [], ◌∷◌, Option, none, some, true, ite, Bytes, ℕ_discrete, Map, get_elem?,
  if◌then◌else◌,
}
use event_api.Nats
use event_api.Nats.{Subscription, Registry}
use event_api.Connection.Types.{Env, EventCondition, EventSubscriptionProperties}
use event_api.Connection.EventMap.{EventChannel, EventMap, not_subscribed, Outcome, cancel}

-- `for i, v := range value.ID`: the position of an identifier.
unfoldable pub id_index : ℕ → List ℕ → Option ℕ
id_index id [] = none
id_index id (v ∷ vs) =
    ite (ℕ_discrete v id) (some 0) (elim (id_index id vs) [ none ↦ none | some i ↦ some (suc i) ])

-- `for _, id := range id`: the position of the first of the identifiers that the channel has.
unfoldable pub ids_index : List ℕ → List ℕ → Option ℕ
unfolding id_index
ids_index [] vs = none
ids_index (id ∷ ids) vs = elim (id_index id vs) [ none ↦ ids_index ids vs | some i ↦ some i ]

-- The contexts of all channels, the last first.
unfoldable pub cancel_all : Map Bytes EventChannel → List ℕ → List ℕ
cancel_all [] cs = cs
cancel_all ((t, ec) ∷ m) cs = cancel_all m (cancel ec.ctx cs)

-- `Destroy`.
unfoldable pub destroy : EventMap → Registry → EventMap × Registry
unfolding cancel_all
destroy e r = if e.once then (e, r) else (
  record e { once = true; m = []; cancelled = cancel_all e.m e.cancelled },
  Nats.close e.subscription r,
)

module _ {S : Type 0} (env : Env S) where
  -- What the map's own slices of a channel read after a removal from the copy.
  abbrev pub left_channel : EventChannel → ℕ → EventChannel
  left_channel ec i = record {
    ctx = ec.ctx;
    ids = env.slice_left ℕ ec.ids i;
    conditions = env.slice_left EventCondition ec.conditions i;
    properties = env.slice_left EventSubscriptionProperties ec.properties i;
  }

  -- The loop over the map: the entries afterwards and the dispatch key that is given up, if any.
  unfoldable pub remove_ids :
      List ℕ → Map Bytes EventChannel → Option (Map Bytes EventChannel × Option Bytes)
  unfolding ids_index
  remove_ids ids [] = some ([], none)
  remove_ids ids ((t, ec) ∷ m) = elim (ids_index ids ec.ids) [
    | none ↦ elim (remove_ids ids m) [ none ↦ none | some (m', key) ↦ some ((t, ec) ∷ m', key) ]
    | some i ↦ elim (get_elem? ec.conditions i) [
      | none ↦ none
      | some c ↦ some ((t, left_channel ec i) ∷ m, some (env.dispatch_key t c))
    ]
  ]

  -- `UnsubscribeWithID`.
  unfoldable pub unsubscribe_with_id : List ℕ → EventMap → Registry → Option Outcome
  unfolding remove_ids
  unsubscribe_with_id ids e r = elim (remove_ids ids e.m) [
    | none ↦ none
    | some (m, none) ↦
        some (record { events = e; registry = r; id = 0; error = some not_subscribed })
    | some (m, some key) ↦ some (record {
      events = record e { m = m };
      registry = Nats.unsubscribe e.subscription (key ∷ []) r;
      id = 0;
      error = none;
    })
  ]
