-- ===== src/Redis/Upstream.antt =====
-- internal/instance/redis.go: which redis channels the process listens to after a removal.
use event_api.Base.{
  ℕ, ◌≤◌, ◌≡◌, refl, ◌≢◌, inl, inr, List, [], ◌∷◌, Option, none, some, Bool, true, ite, Bytes,
  bytes_dec, entries, lookup, get_list, get_elem?, swap_remove, occurrences,
  occurrences-swap_remove, lookup-insert, lookup-delete, get_list-insert, get_list-delete,
  Option-cases, Bool-cases, arith, ap,
}
use event_api.Redis.{
  RedisSub, RedisInst, join_channel, events_subscribe, index_of, store_subs, leave_channel,
  leave_channels, is_address, keys,
}
use event_api.Nats.Laws.{is_text}
use event_api.Redis.Listening.{
  listening, is_there, IsConsistent, keys-insert, keys-delete, keys-lookup,
  join_channel-IsConsistent,
}

pub index_of-found :
    (p : RedisSub → Bool) (l : List RedisSub) (i : ℕ)
    → index_of p l ≡ some i
    → (x : RedisSub) × (get_elem? l i ≡ some x) × (p x ≡ true)
unfolding index_of
index_of-found p [] i h = absurd (ground arith)
index_of-found p (x ∷ l) i h = elim (Bool-cases (p x)) [
  | inl here ↦ (x, ground arith, here)
  | inr later ↦ elim (Option-cases (index_of p l)) [
    | inl gone ↦ absurd (ground arith)
    | inr (j, found) ↦
        let (y, at, passes) = index_of-found p l j found in (y, ground (arith, at), passes)
  ]
]

module _ (t : Bytes) (l : List RedisSub) (r : RedisInst) where
  pub get_list-store_subs :
      (u : Bytes)
      → get_list bytes_dec u (store_subs t l r).subs
        ≡ ite (bytes_dec u t) l (get_list bytes_dec u r.subs)
  unfolding store_subs
  get_list-store_subs u = go l
    where
      go :
          (l : List RedisSub)
          → get_list bytes_dec u (store_subs t l r).subs
            ≡ ite (bytes_dec u t) l (get_list bytes_dec u r.subs)
      go [] = get_list-delete bytes_dec t u r.subs
      go (s ∷ l) = get_list-insert bytes_dec t u (s ∷ l) r.subs

-- Storing what is left of a slice that was there.
module _ (t : Bytes) (l : List RedisSub) (r : RedisInst) (c : IsConsistent r)
    (there : is_there (lookup bytes_dec t r.subs) ≡ true)
    (fewer : (a : ℕ)
      → occurrences (is_address a) l
        ≤ occurrences (is_address a) (get_list bytes_dec t r.subs)) where
  store_subs-linked :
      (u : Bytes)
      → listening u (store_subs t l r).calls ≡ is_there (lookup bytes_dec u (store_subs t l r).subs)
  unfolding store_subs listening
  store_subs-linked u = go l
    where
      go :
          (l : List RedisSub)
          → listening u (store_subs t l r).calls
            ≡ is_there (lookup bytes_dec u (store_subs t l r).subs)
      go [] = ground (arith, lookup-delete bytes_dec t u r.subs, c.linked u)
      go (s ∷ l) =
          ground (arith, lookup-insert bytes_dec t u (s ∷ l) r.subs, c.linked u, c.linked t)

  store_subs-occupied : (u : Bytes) → lookup bytes_dec u (store_subs t l r).subs ≢ some []
  unfolding store_subs
  store_subs-occupied u = go l
    where
      go : (l : List RedisSub) → lookup bytes_dec u (store_subs t l r).subs ≢ some []
      go [] h = ground (arith, lookup-delete bytes_dec t u r.subs, c.occupied u)
      go (s ∷ l) h = ground (arith, lookup-insert bytes_dec t u (s ∷ l) r.subs, c.occupied u)

  store_subs-single : (u : Bytes) → occurrences (is_text u) (keys (store_subs t l r).subs) ≤ 1
  unfolding store_subs
  store_subs-single u = go l
    where
      go : (l : List RedisSub) → occurrences (is_text u) (keys (store_subs t l r).subs) ≤ 1
      go [] = ground (arith, keys-delete u t r.subs, c.single u)
      go (s ∷ l) = ground (arith, keys-insert u t (s ∷ l) r.subs, keys-lookup t r.subs, c.single u)

  store_subs-next : (store_subs t l r).next_address ≡ r.next_address
  unfolding store_subs
  store_subs-next = go l
    where
      go : (l : List RedisSub) → (store_subs t l r).next_address ≡ r.next_address
      go [] = refl
      go (s ∷ l) = refl

  pub store_subs-IsConsistent : IsConsistent (store_subs t l r)
  store_subs-IsConsistent = record {
    linked = store_subs-linked;
    occupied = store_subs-occupied;
    single = store_subs-single;
    distinct = λ u a. ground (
      arith,
      ap (occurrences (is_address a)) (get_list-store_subs t l r u),
      c.distinct u a,
      c.distinct t a,
      fewer a,
    );
    fresh = λ u a h. ground (
      arith,
      ap (occurrences (is_address a)) (get_list-store_subs t l r u),
      store_subs-next,
      c.fresh u a,
      c.fresh t a,
      fewer a,
    );
  }

-- A found element shows that the slice is not the nil slice of a missing key.
pub found-is_there :
    (o : Option (List RedisSub)) (i : ℕ) (x : RedisSub)
    → get_elem? (entries o) i ≡ some x
    → is_there o ≡ true
found-is_there none i x h = cc
found-is_there (some l) i x h = refl

leave_channel-IsConsistent :
    (p : RedisSub → Bool) (t : Bytes) (r : RedisInst)
    → IsConsistent r
    → IsConsistent (leave_channel p t r)
unfolding leave_channel
leave_channel-IsConsistent p t r c =
    let l = get_list bytes_dec t r.subs in
    elim (Option-cases (index_of p l)) [
      | inl none_of ↦ rw (none_of, leave_channel) c
      | inr (i, found) ↦
          let (x, at, passes) = index_of-found p l i found in
          rw (found, leave_channel)
            (store_subs-IsConsistent t (swap_remove l i) r c
              (found-is_there (lookup bytes_dec t r.subs) i x at)
              (λ a. omega (arith, occurrences-swap_remove (is_address a) l i at)))
    ]

pub leave_channels-IsConsistent :
    (p : RedisSub → Bool) (topics : List Bytes) (r : RedisInst)
    → IsConsistent r
    → IsConsistent (leave_channels p topics r)
unfolding leave_channels
leave_channels-IsConsistent p [] r c = c
leave_channels-IsConsistent p (t ∷ rest) r c =
    leave_channels-IsConsistent p rest (leave_channel p t r) (leave_channel-IsConsistent p t r c)

pub events_subscribe-IsConsistent :
    (ch close : ℕ) (topics : List Bytes) (r : RedisInst)
    → IsConsistent r
    → IsConsistent (events_subscribe ch close topics r)
unfolding events_subscribe
events_subscribe-IsConsistent ch close [] r c = c
events_subscribe-IsConsistent ch close (e ∷ rest) r c =
    events_subscribe-IsConsistent ch close rest (join_channel ch close e r)
      (join_channel-IsConsistent ch close e r c)
