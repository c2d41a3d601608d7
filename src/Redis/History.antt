-- ===== src/Redis/History.antt =====
-- internal/instance/redis.go: any history of uses of the instance.
use event_api.Base.{
  ◌≡◌, refl, ◌⊎◌, inl, inr, List, [], ◌∷◌, Option, none, some, Bytes, bytes_dec, lookup,
}
use event_api.Redis.{
  wrap_redis, is_channel, keys, remove_channel, Channels, Fan, Operation, subscribing,
  unsubscribing, removing, receiving, perform, perform_all,
}
use event_api.Redis.Listening.{IsConsistent, listening, is_there, wrap_redis-IsConsistent}
use event_api.Redis.Upstream.{events_subscribe-IsConsistent, leave_channels-IsConsistent}
use event_api.Redis.Fanout.{receive-visit_all}

-- A run that panics, or leaves a consistent instance.
abbrev IsKept : Option Fan → Type 0
IsKept run = (run ≡ none) ⊎ ((out : Fan) × (run ≡ some out) × IsConsistent out.redis)

perform-IsKept : (op : Operation) (f : Fan) → IsConsistent f.redis → IsKept (perform op f)
unfolding perform remove_channel
perform-IsKept (subscribing ch close topics) f c =
    inr (_, refl, events_subscribe-IsConsistent ch close topics f.redis c)
perform-IsKept (unsubscribing ch topics) f c =
    inr (_, refl, leave_channels-IsConsistent (is_channel ch) topics f.redis c)
perform-IsKept (removing ch) f c =
    inr (_, refl, leave_channels-IsConsistent (is_channel ch) (keys f.redis.subs) f.redis c)
perform-IsKept (receiving closing channel payload) f c =
    elim (receive-visit_all closing channel payload f c) [
      | inl (v, g) ↦ inl g
      | inr (out, v, g, left, others, kept) ↦ inr (out, g, kept)
    ]

perform_all-IsKept :
    (history : List Operation) (f : Fan) → IsConsistent f.redis → IsKept (perform_all history f)
unfolding perform_all
perform_all-IsKept [] f c = inr (f, refl, c)
perform_all-IsKept (op ∷ more) f c = elim (perform-IsKept op f c) [
  | inl stuck ↦ inl (rw (stuck, perform_all) refl)
  | inr (f', went, c') ↦ elim (perform_all-IsKept more f' c') [
    | inl stuck ↦ inl (rw (went, perform_all) stuck)
    | inr (out, run, kept) ↦ inr (out, rw (went, perform_all) run, kept)
  ]
]

-- Every history of uses of a new instance either panics, at a send to a closed Go channel, or leaves
-- the process listening to exactly the redis channels that have a subscription: the last call that it
-- made about a channel was a subscription exactly if the channel has an entry, and no entry is empty.
pub perform_all-listening :
    (history : List Operation) (chans : Channels) (t : Bytes)
    → (perform_all history (record { redis = wrap_redis; chans = chans }) ≡ none)
      ⊎ ((out : Fan) × (perform_all history (record { redis = wrap_redis; chans = chans })
            ≡ some out)
          × (listening t out.redis.calls ≡ is_there (lookup bytes_dec t out.redis.subs))
          × ¬ (lookup bytes_dec t out.redis.subs ≡ some []))
perform_all-listening history chans t =
    elim (perform_all-IsKept history (record { redis = wrap_redis; chans = chans })
      wrap_redis-IsConsistent) [
        | inl stuck ↦ inl stuck
        | inr (out, run, c) ↦ inr (out, run, c.linked t, c.occupied t)
      ]
