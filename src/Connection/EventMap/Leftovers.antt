-- ===== src/Connection/EventMap/Leftovers.antt =====
-- internal/app/connection/connection.go: the loop of `EventMap.UnsubscribeWithID` over the channels of the map.
use event_api.Base.{
  ℕ, ◌≡◌, refl, ◌≢◌, inl, inr, List, [], ◌∷◌, Option, none, some, ite, ℕ_discrete, Bytes, bytes_dec,
  Map, lookup, get_elem?, length, All, Option-cases, arith, ap, sym, ◌∙◌,
}
use event_api.Connection.Types.{Env, EnvLaws, EventCondition, EventSubscriptionProperties}
use event_api.Connection.EventMap.{EventChannel}
use event_api.Connection.EventMap.Removal.{id_index, ids_index, remove_ids, left_channel}
use event_api.Connection.EventMap.View.{
  Entry, channel_of, channel_entries, channel_entries-channel_of, entries_at, IsChannel, entry_ids,
  get_elem?-map, channel_of-IsChannel,
}

-- The position found is that of an entry.
pub id_index-entry :
    (id : ℕ) (es : List Entry) (i : ℕ)
    → id_index id (entry_ids es) ≡ some i
    → (en : Entry) × (get_elem? es i ≡ some en) × (en.id ≡ id)
unfolding id_index
id_index-entry id [] i e = absurd (ground arith)
id_index-entry id (en ∷ es) i e = elim (ℕ_discrete en.id id) [
  | yes p ↦ (en, ground arith, p)
  | no p ↦ elim (Option-cases (id_index id (entry_ids es))) [
    | inl none_left ↦ absurd (ground arith)
    | inr (j, found) ↦ let (x, g, h) = id_index-entry id es j found in (x, ground arith, h)
  ]
]

ids_index-entry :
    (ids : List ℕ) (es : List Entry) (i : ℕ)
    → ids_index ids (entry_ids es) ≡ some i
    → (en : Entry) × (get_elem? es i ≡ some en)
unfolding ids_index
ids_index-entry [] es i e = absurd (ground arith)
ids_index-entry (id ∷ ids) es i e = elim (Option-cases (id_index id (entry_ids es))) [
  | inl absent ↦ ids_index-entry ids es i (ground arith)
  | inr (j, found) ↦ let (en, g, _) = id_index-entry id es j found in (en, ground arith)
]

length-ite :
    {P : Type 0} (d : Dec P) (a b x y : Option EventChannel)
    → length (entries_at a) ≡ length (entries_at b)
    → length (entries_at x) ≡ length (entries_at y)
    → length (entries_at (ite d a x)) ≡ length (entries_at (ite d b y))
length-ite (yes p) a b x y h k = h
length-ite (no p) a b x y h k = k

length-nil : (es : List Entry) → length es ≡ 0 → es ≡ []
length-nil [] h = refl
length-nil (en ∷ es) h = absurd (omega arith)

module _ {S : Type 0} (env : Env S) (laws : EnvLaws env) where
  pub left-channel_of :
      (ctx : Option ℕ) (es : List Entry) (i : ℕ)
      → left_channel env (channel_of ctx es) i ≡ channel_of ctx (env.slice_left Entry es i)
  left-channel_of ctx es i = λ k. record {
    ctx = ctx;
    ids = sym (laws.slice_left-map Entry ℕ (λ en. en.id) es i) k;
    conditions = sym (laws.slice_left-map Entry EventCondition (λ en. en.condition) es i) k;
    properties =
        sym (laws.slice_left-map Entry EventSubscriptionProperties (λ en. en.properties) es i) k;
  }

  slice_left-ne-nil : (es : List Entry) (i : ℕ) → es ≢ [] → env.slice_left Entry es i ≢ []
  slice_left-ne-nil es i h e =
      h (length-nil es (sym (laws.slice_left-length Entry es i) ∙ ap length e))

  -- The channel that a removal leaves in the map has as many entries as before.
  left-IsChannel :
      (ec : EventChannel) (i : ℕ)
      → IsChannel ec
      → IsChannel (left_channel env ec i)
        × (length (channel_entries (left_channel env ec i)) ≡ length (channel_entries ec))
  left-IsChannel ec i h =
      let es = channel_entries ec in
      let e =
        ap (λ (c : EventChannel). left_channel env c i) h.aligned ∙ left-channel_of ec.ctx es i in
      (
        rw e (
            channel_of-IsChannel ec.ctx (env.slice_left Entry es i)
              (slice_left-ne-nil es i h.filled)),
        ap (λ (c : EventChannel). length (channel_entries c)) e
            ∙ ap length (channel_entries-channel_of ec.ctx (env.slice_left Entry es i))
            ∙ laws.slice_left-length Entry es i,
      )

  -- The loop over the channels does not panic, and leaves as many entries of every type.
  pub remove_ids-length :
      (ids : List ℕ) (m : Map Bytes EventChannel)
      → All (λ kv. IsChannel kv.1) m
      → (m' : Map Bytes EventChannel) × (key : Option Bytes) × (remove_ids env ids m
          ≡ some (m', key))
        × All (λ kv. IsChannel kv.1) m'
        × ((t : Bytes)
            → length (entries_at (lookup bytes_dec t m'))
              ≡ length (entries_at (lookup bytes_dec t m)))
  unfolding remove_ids lookup
  remove_ids-length ids [] v = ([], none, refl, tt, λ t. refl)
  remove_ids-length ids ((u, ec) ∷ m) v = elim (Option-cases (ids_index ids ec.ids)) [
    | inl absent ↦
        let (m', key, e, v', h) = remove_ids-length ids m v.1 in
        (
          (u, ec) ∷ m',
          key,
          rw (absent, remove_ids) (rw e),
          (v.0, v'),
          λ t.
              length-ite (bytes_dec t u) (some ec) (some ec) (lookup bytes_dec t m')
                (lookup bytes_dec t m) refl (h t),
        )
    | inr (i, found) ↦
        let (en, g) =
          ids_index-entry ids (channel_entries ec) i
            (ap (λ (c : EventChannel). ids_index ids c.ids) (sym v.0.aligned) ∙ found) in
        let c : get_elem? ec.conditions i ≡ some en.condition =
          ap (λ (c : EventChannel). get_elem? c.conditions i) v.0.aligned
          ∙ get_elem?-map (λ en. en.condition) (channel_entries ec) i g in
        let (w, l) = left-IsChannel ec i v.0 in
        (
          (u, left_channel env ec i) ∷ m,
          some (env.dispatch_key u en.condition),
          rw (found, remove_ids) (rw c),
          (w, v.1),
          λ t.
              length-ite (bytes_dec t u) (some (left_channel env ec i)) (some ec)
                (lookup bytes_dec t m) (lookup bytes_dec t m) l refl,
        )
  ]
