-- ===== src/Connection/EventMap/Matching.antt =====
-- internal/app/connection/connection.go: `EventMap.Get` and `EventChannel.Match` against the view:
-- which subscriptions a dispatch reaches.
use mathlib.Core.List.{map-append, append-nil}
use event_api.Base.{
  ℕ, ◌≡◌, refl, ◌≢◌, List, [], ◌∷◌, ◌++◌, Option, none, some, Bytes, bytes_dec, lookup, sym, subst,
}
use event_api.Connection.Types.{Env, EnvLaws, EventCondition, contains}
use event_api.Connection.EventMap.{EventChannel, EventMap}
use event_api.Connection.EventMap.Lookup.{get, join_channels, wildcard, match_channel}
use event_api.Connection.EventMap.View.{
  Entry, channel_of, channel_entries, channel_entries-channel_of, view, entries_at, IsChannel,
  IsValid, IsChannel-at, channel_of-IsChannel, entry_ids, entry_conditions, entry_properties,
}
use event_api.Connection.EventMap.Conditions.{is_hit, is_hit-nil, match_channel-is_hit}

join-channel_of :
    (ctx : Option ℕ) (es fs : List Entry)
    → record {
      ctx = ctx;
      ids = entry_ids es ++ entry_ids fs;
      conditions = entry_conditions es ++ entry_conditions fs;
      properties = entry_properties es ++ entry_properties fs;
    }
      ≡ channel_of ctx (es ++ fs)
join-channel_of ctx es fs = λ i. record {
  ctx = ctx;
  ids = sym (map-append (λ (en : Entry). en.id) es fs) i;
  conditions = sym (map-append (λ (en : Entry). en.condition) es fs) i;
  properties = sym (map-append (λ (en : Entry). en.properties) es fs) i;
}

append-ne-nil_left : (es fs : List Entry) → es ≢ [] → es ++ fs ≢ []
append-ne-nil_left [] fs h = absurd (h refl)
append-ne-nil_left (en ∷ es) fs h = λ e. cc

-- A channel that stands for entries, as `Get` may return it.
abbrev Found : List Entry → Option EventChannel → Type 0
Found es none = es ≡ []
Found es (some ec) = IsChannel ec × (channel_entries ec ≡ es)

Found-channel_of :
    (ctx : Option ℕ) (es : List Entry) → es ≢ [] → Found es (some (channel_of ctx es))
Found-channel_of ctx es h = (channel_of-IsChannel ctx es h, channel_entries-channel_of ctx es)

-- What is stored for a type.
abbrev Stored : Option EventChannel → Type 0
Stored none = Unit
Stored (some ec) = IsChannel ec

join_channels-Found :
    (a b : Option EventChannel)
    → Stored a
    → Stored b
    → Found (entries_at a ++ entries_at b) (join_channels a b)
unfolding join_channels
join_channels-Found none none ha hb = refl
join_channels-Found (some ec) none ha hb = (ha, sym (append-nil (channel_entries ec)))
join_channels-Found none (some c) ha hb =
    subst
      (λ (k : EventChannel). Found (channel_entries c) (
        some (record {
          ctx = none;
          ids = k.ids;
          conditions = k.conditions;
          properties = k.properties;
        })))
      (sym hb.aligned) (Found-channel_of none (channel_entries c) hb.filled)
join_channels-Found (some ec) (some c) ha hb =
    let es = channel_entries ec in
    let fs = channel_entries c in
    subst (λ (k : EventChannel). Found (es ++ fs) (join_channels (some k) (some c)))
      (sym ha.aligned)
      (subst
        (λ (k : EventChannel).
          Found (es ++ fs) (join_channels (some (channel_of ec.ctx es)) (some k)))
        (sym hb.aligned)
        (subst (λ (k : EventChannel). Found (es ++ fs) (some k))
          (sym (join-channel_of ec.ctx es fs))
          (Found-channel_of ec.ctx (es ++ fs) (append-ne-nil_left es fs ha.filled))))

lookup-Stored :
    (e : EventMap) (t : Bytes) (o : Option EventChannel)
    → lookup bytes_dec t e.m ≡ o
    → IsValid e
    → Stored o
lookup-Stored e t none h v = tt
lookup-Stored e t (some ec) h v = IsChannel-at v t ec h

module _ {S : Type 0} (env : Env S) where
  -- The subscriptions that a dispatch of a type can reach: those of the type and of its wildcard.
  abbrev pub audience : Bytes → EventMap → List Entry
  audience t e = view e t ++ view e (wildcard env t)

  -- `Get` and then `Match`, as a dispatch goes through them; `none` is a panic.
  unfoldable pub reached : Bytes → List EventCondition → EventMap → Option (List ℕ)
  reached t conds e = elim (get env t e) [ none ↦ some [] | some ec ↦ match_channel env conds ec ]

  -- On a valid map the lookup for a dispatch does not panic, and it gives an identifier exactly if
  -- that belongs to a subscription to the event type, or to the wildcard of its object, whose
  -- condition matches one of the conditions of the dispatch.
  pub reached-is_hit :
      (laws : EnvLaws env) (t : Bytes) (conds : List EventCondition) (e : EventMap)
      → IsValid e
      → (out : List ℕ) × (reached t conds e ≡ some out)
        × ((x : ℕ) → contains x out ≡ is_hit env x conds (audience t e))
  unfolding reached get contains
  reached-is_hit laws t conds e v =
      go (join_channels (lookup bytes_dec t e.m) (lookup bytes_dec (wildcard env t) e.m)) (
        join_channels-Found (lookup bytes_dec t e.m) (lookup bytes_dec (wildcard env t) e.m)
          (lookup-Stored e t _ refl v) (lookup-Stored e (wildcard env t) _ refl v))
    where
      go :
          (o : Option EventChannel)
          → Found (audience t e) o
          → (out : List ℕ) × ((elim o as (λ _. Option (List ℕ)) [
            | none ↦ some []
            | some ec ↦ match_channel env conds ec
          ])
              ≡ some out)
            × ((x : ℕ) → contains x out ≡ is_hit env x conds (audience t e))
      go none h = ([], refl, λ x. rw h (sym (is_hit-nil env x conds)))
      go (some ec) h = rw (sym h.1) (match_channel-is_hit env laws conds ec h.0)
