-- ===== src/Redis/Listening.antt =====
-- internal/instance/redis.go: which redis channels the process listens to, and `EventsSubscribe`.
use event_api.Base.{
  ℕ, ◌+◌, ◌≤◌, ◌≡◌, refl, ◌≢◌, List, [], ◌∷◌, ◌++◌, Option, none, some, Bool, true, false, ite,
  Bytes, bytes_dec, Map, insert, delete, lookup, get_list, ℕ_discrete, occurrences,
  occurrences-append, lookup-insert, get_list-insert, arith,
}
use event_api.Redis.{
  RedisSub, Call, subscribe, unsubscribe, RedisInst, wrap_redis, join_channel, is_address, keys,
}
use event_api.Nats.Laws.{is_text}

-- Whether the process listens to a channel: what the last call about it says.
unfoldable pub listening : Bytes → List Call → Bool
listening t [] = false
listening t (subscribe u ∷ calls) = ite (bytes_dec t u) true (listening t calls)
listening t (unsubscribe u ∷ calls) = ite (bytes_dec t u) false (listening t calls)

abbrev pub is_there : {V : Type 0} → Option V → Bool
is_there none = false
is_there (some v) = true

pub record IsConsistent (r : RedisInst) : Type 0 where
  pub linked : (t : Bytes) → listening t r.calls ≡ is_there (lookup bytes_dec t r.subs)
  pub occupied : (t : Bytes) → lookup bytes_dec t r.subs ≢ some []
  pub single : (t : Bytes) → occurrences (is_text t) (keys r.subs) ≤ 1
  pub distinct : (t : Bytes) (a : ℕ) → occurrences (is_address a) (get_list bytes_dec t r.subs) ≤ 1
  pub fresh :
      (t : Bytes) (a : ℕ)
      → r.next_address ≤ a
      → occurrences (is_address a) (get_list bytes_dec t r.subs) ≡ 0

abbrev absent : {V : Type 0} → Option V → ℕ
absent none = 1
absent (some v) = 0

pub keys-insert :
    {V : Type 0} (t k : Bytes) (v : V) (m : Map Bytes V)
    → occurrences (is_text t) (keys (insert bytes_dec k v m))
      ≡ occurrences (is_text t) (keys m) + ite (bytes_dec t k) (absent (lookup bytes_dec k m)) 0
unfolding insert lookup occurrences
keys-insert t k v [] = ground arith
keys-insert t k v ((j, w) ∷ m) = ground (arith, keys-insert t k v m)

pub keys-delete :
    {V : Type 0} (t k : Bytes) (m : Map Bytes V)
    → occurrences (is_text t) (keys (delete bytes_dec k m))
      ≡ ite (bytes_dec t k) 0 (occurrences (is_text t) (keys m))
unfolding delete occurrences
keys-delete t k [] = ground arith
keys-delete t k ((j, w) ∷ m) = ground (arith, keys-delete t k m)

pub keys-lookup :
    {V : Type 0} (t : Bytes) (m : Map Bytes V)
    → lookup bytes_dec t m ≡ none
    → occurrences (is_text t) (keys m) ≡ 0
unfolding lookup occurrences
keys-lookup t [] h = refl
keys-lookup t ((j, w) ∷ m) h = ground (arith, keys-lookup t m)

pub wrap_redis-IsConsistent : IsConsistent wrap_redis
unfolding wrap_redis listening lookup occurrences
wrap_redis-IsConsistent = record {
  linked = λ t. refl;
  occupied = λ t h. cc;
  single = λ t. omega arith;
  distinct = λ t a. omega arith;
  fresh = λ t a h. refl;
}

append-occupied : {A : Type 0} (l : List A) (x : A) → some (l ++ x ∷ []) ≢ some []
append-occupied [] x = λ h. cc
append-occupied (y ∷ l) x = λ h. cc

module _ (ch close : ℕ) (e : Bytes) (r : RedisInst) (c : IsConsistent r) where
  abbrev joined : RedisSub
  joined = record { address = r.next_address; ch = ch; close = close }

  addresses-join :
      (t : Bytes) (a : ℕ)
      → occurrences (is_address a) (get_list bytes_dec t (join_channel ch close e r).subs)
        ≡ occurrences (is_address a) (get_list bytes_dec t r.subs)
          + ite (bytes_dec t e) (ite (ℕ_discrete r.next_address a) 1 0) 0
  unfolding join_channel occurrences
  addresses-join t a = ground (
    arith,
    get_list-insert bytes_dec e t (get_list bytes_dec e r.subs ++ joined ∷ []) r.subs,
    occurrences-append (is_address a) (get_list bytes_dec e r.subs) (joined ∷ []),
  )

  join_channel-linked :
      (t : Bytes)
      → listening t (join_channel ch close e r).calls
        ≡ is_there (lookup bytes_dec t (join_channel ch close e r).subs)
  unfolding join_channel listening
  join_channel-linked t = ground (
    arith,
    lookup-insert bytes_dec e t (get_list bytes_dec e r.subs ++ joined ∷ []) r.subs,
    c.linked t,
    c.linked e,
  )

  join_channel-occupied :
      (t : Bytes) → lookup bytes_dec t (join_channel ch close e r).subs ≢ some []
  unfolding join_channel
  join_channel-occupied t h = ground (
    arith,
    lookup-insert bytes_dec e t (get_list bytes_dec e r.subs ++ joined ∷ []) r.subs,
    c.occupied t,
    append-occupied (get_list bytes_dec e r.subs) joined,
  )

  join_channel-single :
      (t : Bytes) → occurrences (is_text t) (keys (join_channel ch close e r).subs) ≤ 1
  unfolding join_channel
  join_channel-single t = ground (
    arith,
    keys-insert t e (get_list bytes_dec e r.subs ++ joined ∷ []) r.subs,
    keys-lookup e r.subs,
    c.single t,
  )

  pub join_channel-IsConsistent : IsConsistent (join_channel ch close e r)
  unfolding join_channel
  join_channel-IsConsistent = record {
    linked = join_channel-linked;
    occupied = join_channel-occupied;
    single = join_channel-single;
    distinct = λ t a. ground (arith, addresses-join t a, c.distinct t a, c.fresh t a);
    fresh = λ t a h. ground (arith, addresses-join t a, c.fresh t a);
  }
