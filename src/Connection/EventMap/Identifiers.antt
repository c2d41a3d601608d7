-- ===== src/Connection/EventMap/Identifiers.antt =====
-- internal/app/connection/connection.go: which channel `EventMap.UnsubscribeWithID` picks, and what it
-- leaves of the map.
use event_api.Base.{
  ℕ, ◌≡◌, refl, ◌⊎◌, inl, inr, List, [], ◌∷◌, ◌++◌, Option, none, some, true, false, ℕ_discrete,
  Bytes, Map, get_elem?, length, All, Option-cases, arith, ap, sym, ◌∙◌,
}
use event_api.Nats
use event_api.Nats.{Registry}
use event_api.Connection.Types.{Env, EnvLaws, contains}
use event_api.Connection.EventMap.{EventChannel, EventMap, Outcome, not_subscribed}
use event_api.Connection.EventMap.Removal.{
  id_index, ids_index, remove_ids, unsubscribe_with_id, left_channel,
}
use event_api.Connection.EventMap.View.{
  Entry, channel_of, channel_entries, IsChannel, IsValid, entry_ids, get_elem?-map,
}
use event_api.Connection.EventMap.Leftovers.{left-channel_of, id_index-entry}

-- A channel holds none of the identifiers.
abbrev pub HasNone : List ℕ → EventChannel → Type 0
HasNone ids ec = All (λ id. contains id ec.ids ≡ false) ids

id_index-contains : (id : ℕ) (vs : List ℕ) → id_index id vs ≡ none → contains id vs ≡ false
unfolding id_index contains
id_index-contains id [] h = refl
id_index-contains id (v ∷ vs) h = elim (Option-cases (id_index id vs)) [
  | inl absent ↦ ground (arith, id_index-contains id vs absent)
  | inr (i, there) ↦ absurd (ground arith)
]

pub contains-id_index : (id : ℕ) (vs : List ℕ) → contains id vs ≡ false → id_index id vs ≡ none
unfolding id_index contains
contains-id_index id [] h = refl
contains-id_index id (v ∷ vs) h = elim (ℕ_discrete v id) [
  | yes p ↦ absurd (ground arith)
  | no p ↦
      let rest : id_index id vs ≡ none = contains-id_index id vs (ground arith) in
      ground (arith, rest)
]

ids_index-HasNone :
    (ids vs : List ℕ) → ids_index ids vs ≡ none → All (λ id. contains id vs ≡ false) ids
unfolding ids_index
ids_index-HasNone [] vs h = tt
ids_index-HasNone (id ∷ ids) vs h = elim (Option-cases (id_index id vs)) [
  | inl absent ↦ (id_index-contains id vs absent, ids_index-HasNone ids vs (ground arith))
  | inr (i, there) ↦ absurd (ground arith)
]

ids_index-named :
    (ids : List ℕ) (es : List Entry) (i : ℕ)
    → ids_index ids (entry_ids es) ≡ some i
    → (en : Entry) × (get_elem? es i ≡ some en) × (contains en.id ids ≡ true)
unfolding ids_index contains
ids_index-named [] es i e = absurd (ground arith)
ids_index-named (id ∷ ids) es i e = elim (Option-cases (id_index id (entry_ids es))) [
  | inl absent ↦ let (en, g, h) = ids_index-named ids es i (ground arith) in (en, g, ground arith)
  | inr (j, found) ↦
      let (en, g, h) = id_index-entry id es j found in (en, ground arith, ground arith)
]

-- The channel that the loop picks: the first in the map's order with one of the identifiers, and in
-- it an entry that has one of them.
pub record Picked {S : Type 0} (env : Env S) (ids : List ℕ) (m : Map Bytes EventChannel)
    : Type 0 where
  pub before : Map Bytes EventChannel
  pub after : Map Bytes EventChannel
  pub event_type : Bytes
  pub ctx : Option ℕ
  pub entries : List Entry
  pub index : ℕ
  pub entry : Entry
  pub splits : m ≡ before ++ (event_type, channel_of ctx entries) ∷ after
  pub passes : All (λ kv. HasNone ids kv.1) before
  pub at : get_elem? entries index ≡ some entry
  pub named : contains entry.id ids ≡ true

module _ {S : Type 0} (env : Env S) (laws : EnvLaws env) (ids : List ℕ) where
  -- The map afterwards: the picked channel reads what `SliceRemove` leaves of its slices.
  abbrev pub left_map : {m : Map Bytes EventChannel} → Picked env ids m → Map Bytes EventChannel
  left_map k =
      k.before
      ++ (k.event_type, channel_of k.ctx (env.slice_left Entry k.entries k.index)) ∷ k.after

  remove_ids-Picked :
      (m : Map Bytes EventChannel)
      → All (λ kv. IsChannel kv.1) m
      → ((remove_ids env ids m ≡ some (m, none)) × All (λ kv. HasNone ids kv.1) m)
        ⊎ ((k : Picked env ids m) × (remove_ids env ids m
              ≡ some (left_map k, some (env.dispatch_key k.event_type k.entry.condition))))
  unfolding remove_ids
  remove_ids-Picked [] v = inl (refl, tt)
  remove_ids-Picked ((u, ec) ∷ m) v = elim (Option-cases (ids_index ids ec.ids)) [
    | inl absent ↦ elim (remove_ids-Picked m v.1) [
      | inl (e, none_there) ↦
          inl (rw (absent, remove_ids) (rw e), (ids_index-HasNone ids ec.ids absent, none_there))
      | inr (k, e) ↦ inr (
        record {
          before = (u, ec) ∷ k.before;
          after = k.after;
          event_type = k.event_type;
          ctx = k.ctx;
          entries = k.entries;
          index = k.index;
          entry = k.entry;
          splits = ap (λ (l : Map Bytes EventChannel). (u, ec) ∷ l) k.splits;
          passes = (ids_index-HasNone ids ec.ids absent, k.passes);
          at = k.at;
          named = k.named;
        },
        rw (absent, remove_ids) (rw e),
      )
    ]
    | inr (i, found) ↦
        let es = channel_entries ec in
        let (en, g, n) =
          ids_index-named ids es i
            (ap (λ (c : EventChannel). ids_index ids c.ids) (sym v.0.aligned) ∙ found) in
        let c : get_elem? ec.conditions i ≡ some en.condition =
          ap (λ (c : EventChannel). get_elem? c.conditions i) v.0.aligned
          ∙ get_elem?-map (λ (x : Entry). x.condition) es i g in
        let left =
          ap (λ (c : EventChannel). left_channel env c i) v.0.aligned
          ∙ left-channel_of env laws ec.ctx es i in
        inr (
          record {
            before = [];
            after = m;
            event_type = u;
            ctx = ec.ctx;
            entries = es;
            index = i;
            entry = en;
            splits = ap (λ (c : EventChannel). (u, c) ∷ m) v.0.aligned;
            passes = tt;
            at = g;
            named = n;
          },
          rw (found, remove_ids)
              (rw c (
                ap (λ (c : EventChannel). some ((u, c) ∷ m, some (env.dispatch_key u en.condition)))
                  left)),
        )
  ]

  -- On a valid event map `UnsubscribeWithID` does not panic. Either no channel has any of the
  -- identifiers: then it answers that the connection is not subscribed and changes nothing. Or it
  -- picks the first channel, in the map's order, that has one of them, and in it an entry with one
  -- of them: then the key of that entry is given up, the count and all other channels stay as they
  -- were, and the picked channel keeps its number of entries, but reads what `SliceRemove` leaves of
  -- the caller's slice.
  pub unsubscribe_with_id_lem :
      (e : EventMap) (r : Registry)
      → IsValid e
      → (o : Outcome) × (unsubscribe_with_id env ids e r ≡ some o)
        × ((All (λ kv. HasNone ids kv.1) e.m
              × (o.events ≡ e)
              × (o.registry ≡ r)
              × (o.error ≡ some not_subscribed))
            ⊎ ((k : Picked env ids e.m) × (o.events ≡ record e { m = left_map k })
                × (length (env.slice_left Entry k.entries k.index) ≡ length k.entries)
                × (o.registry
                    ≡ Nats.unsubscribe e.subscription
                        (env.dispatch_key k.event_type k.entry.condition ∷ [])
                        r)
                × (o.error ≡ none)))
  unfolding unsubscribe_with_id
  unsubscribe_with_id_lem e r v = elim (remove_ids-Picked e.m v.channels) [
    | inl (h, nowhere) ↦ (
      record { events = e; registry = r; id = 0; error = some not_subscribed },
      rw (h, unsubscribe_with_id),
      inl (nowhere, refl, refl, refl),
    )
    | inr (k, h) ↦ (
      record {
        events = record e { m = left_map k };
        registry =
            Nats.unsubscribe e.subscription (env.dispatch_key k.event_type k.entry.condition ∷ [])
              r;
        id = 0;
        error = none;
      },
      rw (h, unsubscribe_with_id),
      inr (k, refl, laws.slice_left-length Entry k.entries k.index, refl, refl),
    )
  ]
