-- ===== src/Redis.antt =====
-- internal/instance/redis.go: the subscriptions of the process to redis channels, each of which fans
-- out to Go channels. Every operation holds the lock `subsMtx`; the calls of the library's `PubSub`
-- are kept as a list, and their errors are only logged. `none` is a panic.
pub mod Listening
pub mod Upstream
pub mod Removal
pub mod Slices
pub mod Fanout
pub mod History
mod Examples
use event_api.Base.{
  ℕ, zero, suc, ◌≡◌, List, [], ◌∷◌, ◌++◌, map, Option, none, some, Bool, true, false, ite, Bytes,
  bytes_dec, Map, insert, delete, lookup, get_list, get_elem?, length, swap_remove, ℕ_discrete, ltb,
  if◌then◌else◌,
}

-- `redisSub`, with the address of its pointer; `ch` and `close` are channels by their pointers.
pub record RedisSub : Type 0 where
  pub address : ℕ
  pub ch : ℕ
  pub close : ℕ

-- The calls of `r.sub`.
pub data Call : Type 0 where
  subscribe unsubscribe : Bytes → Call

-- `RedisInst`; the newest call is first, and `next_address` is the next pointer that is handed out.
pub record RedisInst : Type 0 where
  pub subs : Map Bytes (List RedisSub)
  pub calls : List Call
  pub next_address : ℕ

-- The maps as `WrapRedis` makes them.
unfoldable pub wrap_redis : RedisInst
wrap_redis = record { subs = []; calls = []; next_address = 0 }

-- One round of the loop of `EventsSubscribe`.
unfoldable pub join_channel : ℕ → ℕ → Bytes → RedisInst → RedisInst
join_channel ch close e r =
    let new : RedisSub = record { address = r.next_address; ch = ch; close = close } in
    record {
      subs = insert bytes_dec e (get_list bytes_dec e r.subs ++ new ∷ []) r.subs;
      calls = elim (lookup bytes_dec e r.subs) [ none ↦ subscribe e ∷ r.calls | some _ ↦ r.calls ];
      next_address = suc r.next_address;
    }

-- `EventsSubscribe`
unfoldable pub events_subscribe : ℕ → ℕ → List Bytes → RedisInst → RedisInst
unfolding join_channel
events_subscribe ch close [] r = r
events_subscribe ch close (e ∷ rest) r = events_subscribe ch close rest (join_channel ch close e r)

-- The position of the first subscription that passes a test.
unfoldable pub index_of : (RedisSub → Bool) → List RedisSub → Option ℕ
index_of p [] = none
index_of p (s ∷ subs) =
    if p s then some 0 else elim (index_of p subs) [ none ↦ none | some i ↦ some (suc i) ]

-- `removeRedisSub`, stored; an empty slice is deleted, and the redis channel given up.
unfoldable pub store_subs : Bytes → List RedisSub → RedisInst → RedisInst
store_subs sub [] r = record r {
  subs = delete bytes_dec sub r.subs;
  calls = unsubscribe sub ∷ r.calls;
}
store_subs sub (s ∷ l) r = record r { subs = insert bytes_dec sub (s ∷ l) r.subs }

-- The inner loop of `eventsUnsubscribe`, `Unsubscribe` and `RemoveChannel`, which breaks at the first
-- subscription that passes the test.
unfoldable pub leave_channel : (RedisSub → Bool) → Bytes → RedisInst → RedisInst
unfolding index_of store_subs
leave_channel p sub r = elim (index_of p (get_list bytes_dec sub r.subs)) [
  | none ↦ r
  | some i ↦ store_subs sub (swap_remove (get_list bytes_dec sub r.subs) i) r
]

unfoldable pub leave_channels : (RedisSub → Bool) → List Bytes → RedisInst → RedisInst
unfolding leave_channel
leave_channels p [] r = r
leave_channels p (sub ∷ rest) r = leave_channels p rest (leave_channel p sub r)

-- `v != rsub` of two pointers, and `v.ch != ch`.
abbrev pub is_address : ℕ → RedisSub → Bool
is_address a v = ite (ℕ_discrete v.address a) true false

abbrev pub is_channel : ℕ → RedisSub → Bool
is_channel ch v = ite (ℕ_discrete v.ch ch) true false

-- `eventsUnsubscribe`
abbrev pub events_unsubscribe : RedisSub → List Bytes → RedisInst → RedisInst
events_unsubscribe rsub = leave_channels (is_address rsub.address)

-- `Unsubscribe`
abbrev pub unsubscribe_from : ℕ → List Bytes → RedisInst → RedisInst
unsubscribe_from ch = leave_channels (is_channel ch)

abbrev pub keys : {V : Type 0} → Map Bytes V → List Bytes
keys = map (λ kv. kv.0)

-- `RemoveChannel`: the loop over the map visits each key once; its entries change only at that key.
unfoldable pub remove_channel : ℕ → RedisInst → RedisInst
unfolding leave_channels
remove_channel ch r = leave_channels (is_channel ch) (keys r.subs) r

-- A Go channel. A receiver that waits counts as a place of the buffer.
pub record Chan : Type 0 where
  pub items : List Bytes
  pub capacity : ℕ
  pub closed : Bool

abbrev pub Channels : Type 0
Channels = ℕ → Chan

abbrev pub update : ℕ → Chan → Channels → Channels
update ch v chans c = ite (ℕ_discrete c ch) v (chans c)

-- `select { case sub.ch <- &payload: default: }`; a send to a closed channel panics.
unfoldable pub try_send : ℕ → Bytes → Channels → Option Channels
try_send ch payload chans =
    let c = chans ch in
    if c.closed
    then none
    else if ltb (length c.items) c.capacity
    then some (update ch (record c { items = c.items ++ payload ∷ [] }) chans)
    else some chans

-- `select { case <-sub.ch: default: close(sub.ch) }`: an item that waits is taken.
abbrev pub take_or_close : Chan → Chan
take_or_close c = elim c.items [
  | [] ↦ record c { closed = true }
  | x ∷ rest ↦ record c { items = rest }
]

unfoldable pub release : ℕ → Channels → Channels
release ch chans = update ch (take_or_close (chans ch)) chans

-- What the loop of `WrapRedis` does to the Go channel of one subscription; `closing` says which
-- `close` channels are ready.
unfoldable pub visit : (ℕ → Bool) → Bytes → RedisSub → Channels → Option Channels
unfolding try_send release
visit closing payload s chans =
    if closing s.close then some (release s.ch chans) else try_send s.ch payload chans

-- The state of the loop.
pub record Fan : Type 0 where
  pub redis : RedisInst
  pub chans : Channels

-- `for i := len(…) - 1; i >= 0; i--`, from `i = k - 1` on; the slice is read anew in every round.
unfoldable pub fan_out : (ℕ → Bool) → Bytes → Bytes → ℕ → Fan → Option Fan
unfolding visit leave_channels
fan_out closing channel payload zero f = some f
fan_out closing channel payload (suc i) f =
    elim (get_elem? (get_list bytes_dec channel f.redis.subs) i) [
      | none ↦ none
      | some s ↦ elim (visit closing payload s f.chans) [
        | none ↦ none
        | some chans ↦ fan_out closing channel payload i (record {
          redis = if closing s.close then events_unsubscribe s (channel ∷ []) f.redis else f.redis;
          chans = chans;
        })
      ]
    ]

-- One message of the loop of `WrapRedis`.
unfoldable pub receive : (ℕ → Bool) → Bytes → Bytes → Fan → Option Fan
unfolding fan_out
receive closing channel payload f =
    fan_out closing channel payload (length (get_list bytes_dec channel f.redis.subs)) f

-- One use of the instance: a method, or a message of redis.
pub data Operation : Type 0 where
  subscribing : ℕ → ℕ → List Bytes → Operation
  unsubscribing : ℕ → List Bytes → Operation
  removing : ℕ → Operation
  receiving : (ℕ → Bool) → Bytes → Bytes → Operation

unfoldable pub perform : Operation → Fan → Option Fan
unfolding events_subscribe leave_channels remove_channel receive
perform (subscribing ch close topics) f =
    some (record f { redis = events_subscribe ch close topics f.redis })
perform (unsubscribing ch topics) f = some (record f { redis = unsubscribe_from ch topics f.redis })
perform (removing ch) f = some (record f { redis = remove_channel ch f.redis })
perform (receiving closing channel payload) f = receive closing channel payload f

-- A history of uses.
unfoldable pub perform_all : List Operation → Fan → Option Fan
unfolding perform
perform_all [] f = some f
perform_all (op ∷ more) f = elim (perform op f) [ none ↦ none | some f' ↦ perform_all more f' ]
