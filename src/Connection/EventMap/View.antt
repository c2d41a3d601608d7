-- ===== src/Connection/EventMap/View.antt =====
-- internal/app/connection/connection.go: the abstract view of an `EventMap`. The three slices of a
-- channel stand for one list of entries; a map is valid if every channel is such a triple and holds
-- at least one entry.
use event_api.Base.{
  ℕ, zero, suc, ◌≡◌, refl, ◌≢◌, ◌⊎◌, inl, inr, List, [], ◌∷◌, map, Option, none, some, false, ite,
  Bytes, bytes_dec, insert, lookup, lookup-insert, get_elem?, if◌then◌else◌, Bool-cases, arith, ap,
  sym, subst, ap-ite, if_pos, if_neg, ◌∙◌, delete, lookup-delete, All, Map,
}
use event_api.Connection.Types.{Env, EventCondition, EventSubscriptionProperties}
use event_api.Connection.EventMap.{EventChannel, EventMap, match_index, is_nil}

-- One subscription of a channel.
pub record Entry : Type 0 where
  pub id : ℕ
  pub condition : EventCondition
  pub properties : EventSubscriptionProperties

abbrev pub entry_ids : List Entry → List ℕ
entry_ids = map (λ en. en.id)

abbrev pub entry_conditions : List Entry → List EventCondition
entry_conditions = map (λ en. en.condition)

abbrev pub entry_properties : List Entry → List EventSubscriptionProperties
entry_properties = map (λ en. en.properties)

-- The channel that stands for a list of entries.
abbrev pub channel_of : Option ℕ → List Entry → EventChannel
channel_of ctx es = record {
  ctx = ctx;
  ids = entry_ids es;
  conditions = entry_conditions es;
  properties = entry_properties es;
}

-- The entries, read off the three slices.
abbrev pub zip_entries :
    List ℕ → List EventCondition → List EventSubscriptionProperties → List Entry
zip_entries (i ∷ is) (c ∷ cs) (p ∷ ps) =
    record { id = i; condition = c; properties = p } ∷ zip_entries is cs ps
zip_entries _ _ _ = []

abbrev pub channel_entries : EventChannel → List Entry
channel_entries ec = zip_entries ec.ids ec.conditions ec.properties

abbrev pub entries_at : Option EventChannel → List Entry
entries_at none = []
entries_at (some ec) = channel_entries ec

-- The subscriptions of a map to an event type, in the order in which they were made.
abbrev pub view : EventMap → Bytes → List Entry
view e t = entries_at (lookup bytes_dec t e.m)

pub channel_entries-channel_of :
    (ctx : Option ℕ) (es : List Entry) → channel_entries (channel_of ctx es) ≡ es
channel_entries-channel_of ctx [] = refl
channel_entries-channel_of ctx (en ∷ es) = ap (◌∷◌ en) (channel_entries-channel_of ctx es)

-- A channel as the map may store it.
pub record IsChannel (ec : EventChannel) : Type 0 where
  pub aligned : ec ≡ channel_of ec.ctx (channel_entries ec)
  pub filled : channel_entries ec ≢ []

pub record IsValid (e : EventMap) : Type 0 where
  pub channels : All (λ kv. IsChannel kv.1) e.m

pub channel_of-IsChannel :
    (ctx : Option ℕ) (es : List Entry) → es ≢ [] → IsChannel (channel_of ctx es)
channel_of-IsChannel ctx es h = record {
  aligned = ap (channel_of ctx) (sym (channel_entries-channel_of ctx es));
  filled = rw (channel_entries-channel_of ctx es) h;
}

filled-conditions :
    (ctx : Option ℕ) (es : List Entry) → es ≢ [] → is_nil (channel_of ctx es).conditions ≡ false
filled-conditions ctx [] h = absurd (h refl)
filled-conditions ctx (en ∷ es) h = refl

pub not_nil : (ec : EventChannel) → IsChannel ec → is_nil ec.conditions ≡ false
not_nil ec h =
    ap (λ (c : EventChannel). is_nil c.conditions) h.aligned
    ∙ filled-conditions ec.ctx (channel_entries ec) h.filled

module _ {S : Type 0} (env : Env S) where
  -- The first entry whose condition matches.
  unfoldable pub find_entry : EventCondition → List Entry → Option Entry
  find_entry cond [] = none
  find_entry cond (en ∷ es) =
      if env.cond_match en.condition cond then some en else find_entry cond es

  pub match_index-find_entry :
      (cond : EventCondition) (es : List Entry)
      → ((find_entry cond es ≡ none) × (match_index env cond (entry_conditions es) ≡ none))
        ⊎ ((i : ℕ) × (en : Entry) × (find_entry cond es ≡ some en)
            × (match_index env cond (entry_conditions es) ≡ some i)
            × (get_elem? es i ≡ some en))
  unfolding find_entry match_index
  match_index-find_entry cond [] = inl (refl, refl)
  match_index-find_entry cond (en ∷ es) = elim (Bool-cases (env.cond_match en.condition cond)) [
    | inl hit ↦ rw hit (inr (0, en, refl, refl, refl))
    | inr miss ↦ elim (match_index-find_entry cond es) [
      | inl (f, m) ↦ rw miss (inl (f, rw m))
      | inr (i, found, f, m, g) ↦ rw miss (inr (suc i, found, f, rw m, g))
    ]
  ]

pub get_elem?-map {ℓ} :
    {A B : Type ℓ} (f : A → B) (xs : List A) (i : ℕ) {x : A}
    → get_elem? xs i ≡ some x
    → get_elem? (map f xs) i ≡ some (f x)
get_elem?-map f [] i e = absurd (ground arith)
get_elem?-map f (y ∷ xs) zero e = ground arith
get_elem?-map f (y ∷ xs) (suc i) e = get_elem?-map f xs i e

-- What is stored under a type is a channel.
lookup-All :
    (t : Bytes) (m : Map Bytes EventChannel) (ec : EventChannel)
    → All (λ kv. IsChannel kv.1) m
    → lookup bytes_dec t m ≡ some ec
    → IsChannel ec
unfolding lookup
lookup-All t [] ec v found = cc
lookup-All t ((u, c) ∷ m) ec v found = elim (bytes_dec t u) [
  | yes p ↦ let same : c ≡ ec = ground arith in subst IsChannel same v.0
  | no p ↦ lookup-All t m ec v.1 (ground arith)
]

pub IsChannel-at :
    {e : EventMap}
    → IsValid e
    → (t : Bytes) (ec : EventChannel) → lookup bytes_dec t e.m ≡ some ec
    → IsChannel ec
IsChannel-at {e} v t ec found = lookup-All t e.m ec v.channels found

All-insert :
    (t : Bytes) (ec : EventChannel) (m : Map Bytes EventChannel)
    → IsChannel ec
    → All (λ kv. IsChannel kv.1) m
    → All (λ kv. IsChannel kv.1) (insert bytes_dec t ec m)
unfolding insert
All-insert t ec [] h v = (h, tt)
All-insert t ec ((u, c) ∷ m) h v = elim (bytes_dec t u) [
  | yes p ↦ rw (if_pos _ p) (h, v.1)
  | no p ↦ rw (if_neg _ p) (v.0, All-insert t ec m h v.1)
]

All-delete :
    (t : Bytes) (m : Map Bytes EventChannel)
    → All (λ kv. IsChannel kv.1) m
    → All (λ kv. IsChannel kv.1) (delete bytes_dec t m)
unfolding delete
All-delete t [] v = tt
All-delete t ((u, c) ∷ m) v = elim (bytes_dec t u) [
  | yes p ↦ rw (if_pos _ p) (All-delete t m v.1)
  | no p ↦ rw (if_neg _ p) (v.0, All-delete t m v.1)
]

-- Storing a channel that stands for entries keeps the map valid, and changes one view.
module _ (e out : EventMap) (t : Bytes) (ctx : Option ℕ) (es : List Entry)
    (stored : out.m ≡ insert bytes_dec t (channel_of ctx es) e.m) where
  pub insert-IsValid : es ≢ [] → IsValid e → IsValid out
  insert-IsValid h v = record {
    channels =
        rw stored (All-insert t (channel_of ctx es) e.m (channel_of-IsChannel ctx es h) v.channels);
  }

  pub view-insert : (u : Bytes) → view out u ≡ ite (bytes_dec u t) es (view e u)
  view-insert u =
      ap entries_at
        (ap (lookup bytes_dec u) stored ∙ lookup-insert bytes_dec t u (channel_of ctx es) e.m)
      ∙ ap-ite entries_at (bytes_dec u t) (some (channel_of ctx es)) (lookup bytes_dec u e.m)
      ∙ ap (λ l. ite (bytes_dec u t) l (view e u)) (channel_entries-channel_of ctx es)

-- Dropping a channel keeps the map valid, and empties one view.
module _ (e out : EventMap) (t : Bytes) (dropped : out.m ≡ delete bytes_dec t e.m) where
  pub delete-IsValid : IsValid e → IsValid out
  delete-IsValid v = record { channels = rw dropped (All-delete t e.m v.channels) }

  pub view-delete : (u : Bytes) → view out u ≡ ite (bytes_dec u t) [] (view e u)
  view-delete u =
      ap entries_at (ap (lookup bytes_dec u) dropped ∙ lookup-delete bytes_dec t u e.m)
      ∙ ap-ite entries_at (bytes_dec u t) none (lookup bytes_dec u e.m)
