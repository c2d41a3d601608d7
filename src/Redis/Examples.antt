-- ===== src/Redis/Examples.antt =====
-- internal/instance/redis.go: the theorems at concrete inputs.
use mathlib.Core.List.{reverse}
use event_api.Base.{
  ℕ, ◌-◌, ◌≡◌, ◌⊎◌, List, [], ◌∷◌, none, some, Bool, false, Bytes, codes, bytes_dec, ite, lookup,
  get_list, occurrences,
}
use event_api.Redis.{
  RedisSub, RedisInst, wrap_redis, events_subscribe, remove_channel, is_channel, Channels, Fan,
  receive, Operation, subscribing, removing, receiving, perform_all,
}
use event_api.Redis.Listening.{IsConsistent, listening, is_there, wrap_redis-IsConsistent}
use event_api.Redis.Upstream.{events_subscribe-IsConsistent}
use event_api.Redis.Removal.{remove_channel-one}
use event_api.Redis.Fanout.{receive-visit_all, visit_all, stays}
use event_api.Redis.History.{perform_all-listening}

abbrev topic : Bytes
topic = codes "t"

abbrev closing : ℕ → Bool
closing c = false

abbrev empty_channels : Channels
empty_channels c = record { items = []; capacity = 10; closed = false }

-- The Go channel 1 twice, and the Go channel 2.
abbrev three_subs : RedisInst
three_subs =
    events_subscribe 2 5 (topic ∷ []) (events_subscribe 1 4 (topic ∷ topic ∷ []) wrap_redis)

three_subs-IsConsistent : IsConsistent three_subs
three_subs-IsConsistent =
    events_subscribe-IsConsistent 2 5 (topic ∷ [])
      (events_subscribe 1 4 (topic ∷ topic ∷ []) wrap_redis)
      (events_subscribe-IsConsistent 1 4 (topic ∷ topic ∷ []) wrap_redis wrap_redis-IsConsistent)

remove_channel-one_example :
    occurrences (is_channel 1) (get_list bytes_dec topic (remove_channel 1 three_subs).subs)
    ≡ occurrences (is_channel 1) (get_list bytes_dec topic three_subs.subs) - 1
remove_channel-one_example = remove_channel-one 1 topic three_subs three_subs-IsConsistent

abbrev fan : Fan
fan = record { redis = three_subs; chans = empty_channels }

receive-visit_all_example :
    ((visit_all closing
          (codes "m")
          (reverse (get_list bytes_dec topic three_subs.subs))
          empty_channels
        ≡ none)
      × (receive closing topic (codes "m") fan ≡ none))
    ⊎ ((out : Fan) × (visit_all closing
            (codes "m")
            (reverse (get_list bytes_dec topic three_subs.subs))
            empty_channels
          ≡ some out.chans)
        × (receive closing topic (codes "m") fan ≡ some out)
        × ((p : RedisSub → Bool)
            → occurrences p (get_list bytes_dec topic out.redis.subs)
              ≡ occurrences
                  (stays closing (codes "m") p)
                  (get_list bytes_dec topic three_subs.subs))
        × ((u : Bytes)
            → get_list bytes_dec u out.redis.subs
              ≡ ite
                  (bytes_dec u topic)
                  (get_list bytes_dec topic out.redis.subs)
                  (get_list bytes_dec u three_subs.subs))
        × IsConsistent out.redis)
receive-visit_all_example = receive-visit_all closing topic (codes "m") fan three_subs-IsConsistent

abbrev sample_history : List Operation
sample_history =
    subscribing 1 4 (topic ∷ topic ∷ []) ∷ receiving closing topic (codes "m") ∷ removing 1 ∷ []

perform_all-listening_example :
    (perform_all sample_history (record { redis = wrap_redis; chans = empty_channels }) ≡ none)
    ⊎ ((out : Fan) × (perform_all sample_history
            (record { redis = wrap_redis; chans = empty_channels })
          ≡ some out)
        × (listening topic out.redis.calls ≡ is_there (lookup bytes_dec topic out.redis.subs))
        × ¬ (lookup bytes_dec topic out.redis.subs ≡ some []))
perform_all-listening_example = perform_all-listening sample_history empty_channels topic
