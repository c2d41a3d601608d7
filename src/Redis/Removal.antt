-- ===== src/Redis/Removal.antt =====
-- internal/instance/redis.go: how many subscriptions `Unsubscribe` and `RemoveChannel` take away.
use event_api.Base.{
  ℕ, ◌-◌, ◌≤◌, ◌≡◌, refl, inl, inr, List, [], ◌∷◌, none, some, Bool, ite, Bytes, bytes_dec, Map,
  entries, lookup, get_list, swap_remove, occurrences, occurrences-swap_remove, Option-cases, arith,
  ap,
}
use event_api.Redis.{
  RedisSub, RedisInst, index_of, leave_channel, leave_channels, is_channel, keys, remove_channel,
}
use event_api.Redis.Listening.{IsConsistent}
use event_api.Redis.Upstream.{index_of-found, get_list-store_subs}
use event_api.Nats.Laws.{is_text}

index_of-none :
    (p : RedisSub → Bool) (l : List RedisSub) → index_of p l ≡ none → occurrences p l ≡ 0
unfolding index_of occurrences
index_of-none p [] h = refl
index_of-none p (x ∷ l) h = ground (arith, index_of-none p l)

module _ (p : RedisSub → Bool) where
  occurrences-leave_channel :
      (t u : Bytes) (r : RedisInst)
      → occurrences p (get_list bytes_dec u (leave_channel p t r).subs)
        ≡ ite
            (bytes_dec u t)
            (occurrences p (get_list bytes_dec u r.subs) - 1)
            (occurrences p (get_list bytes_dec u r.subs))
  unfolding leave_channel
  occurrences-leave_channel t u r =
      let l = get_list bytes_dec t r.subs in
      elim (Option-cases (index_of p l)) [
        | inl none_of ↦ rw (none_of, leave_channel) (ground (arith, index_of-none p l none_of))
        | inr (i, found) ↦
            let (x, at, passes) = index_of-found p l i found in
            rw (found, leave_channel)
              (ground (
                arith,
                ap (occurrences p) (get_list-store_subs t (swap_remove l i) r u),
                occurrences-swap_remove p l i at,
              ))
      ]

  -- Each of the given redis channels loses one subscription that passes the test for each time that
  -- it is given, as long as there is one.
  occurrences-leave_channels :
      (topics : List Bytes) (u : Bytes) (r : RedisInst)
      → occurrences p (get_list bytes_dec u (leave_channels p topics r).subs)
        ≡ occurrences p (get_list bytes_dec u r.subs) - occurrences (is_text u) topics
  unfolding leave_channels occurrences
  occurrences-leave_channels [] u r = omega arith
  occurrences-leave_channels (t ∷ rest) u r = ground (
    arith,
    occurrences-leave_channels rest u (leave_channel p t r),
    occurrences-leave_channel t u r,
  )

keys-there :
    {V : Type 0} (t : Bytes) (v : V) (m : Map Bytes V)
    → lookup bytes_dec t m ≡ some v
    → 1 ≤ occurrences (is_text t) (keys m)
unfolding lookup occurrences
keys-there t v [] h = absurd (ground arith)
keys-there t v ((j, w) ∷ m) h = ground (arith, keys-there t v m)

-- On a consistent state `RemoveChannel` takes one subscription of the Go channel off each redis
-- channel that has one, and no more: where the Go channel is subscribed twice, one stays.
pub remove_channel-one :
    (ch : ℕ) (u : Bytes) (r : RedisInst)
    → IsConsistent r
    → occurrences (is_channel ch) (get_list bytes_dec u (remove_channel ch r).subs)
      ≡ occurrences (is_channel ch) (get_list bytes_dec u r.subs) - 1
unfolding remove_channel occurrences
remove_channel-one ch u r c =
    let gone = occurrences-leave_channels (is_channel ch) (keys r.subs) u r in
    elim (Option-cases (lookup bytes_dec u r.subs)) [
      | inl absent ↦
          let none_left : occurrences (is_channel ch) (get_list bytes_dec u r.subs) ≡ 0 =
            ap (λ o. occurrences (is_channel ch) (entries o)) absent in
          omega (arith, gone, none_left)
      | inr (l, present) ↦ omega (arith, gone, c.single u, keys-there u l r.subs present)
    ]
