-- ===== src/Connection/EventMap/Lookup.antt =====
-- internal/app/connection/connection.go: `EventMap.Get`, which joins the channel of an event type
-- with that of its wildcard, and `EventChannel.Match`, which picks the subscriptions whose
-- conditions a dispatch meets.
use event_api.Base.{
  ℕ, suc, List, [], ◌∷◌, ◌++◌, Option, none, some, Bytes, codes, ◌&&◌, bytes_dec, lookup, get_elem?,
  length, leb, if◌then◌else◌,
}
use event_api.Connection.Types.{Env, EventCondition}
use event_api.Connection.EventMap.{EventChannel, EventMap, empty_channel, is_nil}

-- The wildcard's entries behind those of the channel; `none` where there is neither.
unfoldable pub join_channels : Option EventChannel → Option EventChannel → Option EventChannel
join_channels none none = none
join_channels (some ec) none = some ec
join_channels none (some c) = some (record (empty_channel none) {
  ids = c.ids;
  conditions = c.conditions;
  properties = c.properties;
})
join_channels (some ec) (some c) = some (record ec {
  ids = ec.ids ++ c.ids;
  conditions = ec.conditions ++ c.conditions;
  properties = ec.properties ++ c.properties;
})

module _ {S : Type 0} (env : Env S) where
  -- `fmt.Sprintf("%s.*", t.ObjectName())`
  unfoldable pub wildcard : Bytes → Bytes
  wildcard t = env.object_name t ++ codes ".*"

  -- `Get`.
  unfoldable pub get : Bytes → EventMap → Option EventChannel
  unfolding wildcard join_channels
  get t e = join_channels (lookup bytes_dec t e.m) (lookup bytes_dec (wildcard t) e.m)

  -- One round of the inner loop of `Match`: `ec.ID[i]` may be out of range.
  abbrev add_match : EventCondition → List ℕ → ℕ → EventCondition → S → Option S
  add_match c ids i e matches =
      if env.cond_match e c && leb i (length ids)
      then elim (get_elem? ids i) [ none ↦ none | some id ↦ some (env.set_add id matches) ]
      else some matches

  -- `for i, e := range ec.Conditions`
  unfoldable pub match_condition : EventCondition → List ℕ → ℕ → List EventCondition → S → Option S
  match_condition c ids i [] matches = some matches
  match_condition c ids i (e ∷ es) matches = elim (add_match c ids i e matches) [
    | none ↦ none
    | some found ↦ match_condition c ids (suc i) es found
  ]

  -- `for _, c := range cond`
  unfoldable pub match_all : List EventCondition → EventChannel → S → Option S
  unfolding match_condition
  match_all [] ec matches = some matches
  match_all (c ∷ cond) ec matches = elim (match_condition c ec.ids 0 ec.conditions matches) [
    | none ↦ none
    | some found ↦ match_all cond ec found
  ]

  -- `Match`.
  unfoldable pub match_channel : List EventCondition → EventChannel → Option (List ℕ)
  unfolding match_all
  match_channel cond ec =
      if is_nil ec.conditions then some ec.ids else elim (match_all cond ec env.empty_set) [
        | none ↦ none
        | some matches ↦ some (env.set_values matches)
      ]
