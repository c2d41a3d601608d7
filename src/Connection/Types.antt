-- ===== src/Connection/Types.antt =====
-- The types that internal/app/connection takes from github.com/seventv/api/data/events and
-- github.com/seventv/common/utils, and the functions of those packages that it calls. The packages
-- are not part of the repository: their functions are the fields of `Env`, and what the code relies
-- on is stated in `EnvLaws`.
use Prim.Native.String.{String}
use event_api.Base.{
  ℤ, ℕ, ◌+◌, ◌≡◌, Option, some, List, ◌∷◌, [], Bool, true, false, Bytes, Map, map, length,
  get_elem?, occurrences, ite, ℕ_discrete, if◌then◌else◌,
}

-- `events.EventCondition`, a map; the order of the list is the order of its iteration.
abbrev pub EventCondition : Type 0
EventCondition = Map Bytes Bytes

-- `events.CloseCode`, those that the code sends.
pub data CloseCode : Type 0 where
  unknown_operation invalid_payload rate_limit restart already_subscribed : CloseCode
  not_subscribed insufficient_privilege reconnect : CloseCode

-- `events.Opcode`.
pub data Opcode : Type 0 where
  dispatch hello heartbeat reconnect ack error end_of_stream : Opcode
  identify resume subscribe unsubscribe signal bridge : Opcode
  -- any other number
  unknown : ℕ → Opcode

-- `events.SubscribePayload`, also `events.UnsubscribePayload`.
pub record SubscribePayload : Type 0 where
  pub event_type : Bytes
  pub condition : EventCondition

-- The entries of `events.SessionEffect`: a subscription with its time to live in nanoseconds.
pub record SessionEffectSubscription : Type 0 where
  pub event_type : Bytes
  pub condition : EventCondition
  pub ttl : ℕ

pub record SessionEffect : Type 0 where
  pub add_subscriptions : List SessionEffectSubscription
  pub remove_subscriptions : List SessionEffectSubscription
  pub remove_hashes : List ℕ

-- `events.DispatchPayload`; `body` stands for the parts that the code passes on unread.
pub record DispatchPayload : Type 0 where
  pub event_type : Bytes
  pub conditions : List EventCondition
  pub whisper : Bytes
  pub hash : Option ℕ
  pub effect : Option SessionEffect
  pub matches : List ℕ
  pub body : Bytes

-- `events.Message[json.RawMessage]` as a client sends it.
pub record RawMessage : Type 0 where
  pub op : Opcode
  pub payload : Bytes

-- `EventSubscriptionProperties`: the time at which the subscription ends (none: the zero time).
pub record EventSubscriptionProperties : Type 0 where
  pub ttl : Option ℕ
  pub auto : Bool

-- `internal/configure/config.go`, the settings of the API that the connections read.
-- `heartbeat_interval` is an uint32, `ttl` counts minutes; `subscription_limit` is an int32.
pub record ApiConfig : Type 0 where
  pub v3 : Bool
  pub heartbeat_interval : ℕ
  pub subscription_limit : ℤ
  pub connection_limit : ℤ
  pub ttl : ℕ

-- What a message carries beside its opcode. Of a `hello`: the interval, the session, the limit and
-- the population; of an `ack`: what is acknowledged.
pub data Field : Type 0 where
  num : ℕ → Field
  text : Bytes → Field

pub data Payload : Type 0 where
  hello_payload : ℕ → Bytes → ℤ → ℕ → Payload
  heartbeat_payload : ℕ → Payload
  subscribed : ℕ → Bytes → EventCondition → Payload
  unsubscribed : Bytes → EventCondition → Payload
  resumed : Bool → ℕ → ℕ → Payload
  error_payload : String → List (String × Field) → Payload
  end_of_stream_payload : CloseCode → Payload
  reconnect_payload : String → Payload
  dispatch_payload : DispatchPayload → Payload

-- A message to the client; `command` is the opcode that an `ack` names.
pub record Message : Type 0 where
  pub op : Opcode
  pub command : Option Opcode
  pub content : Payload

pub record Env (S : Type 0) : Type 1 where
  -- `EventCondition.Match`
  pub cond_match : EventCondition → EventCondition → Bool
  -- `events.CreateDispatchKey(t, cond, false)`
  pub dispatch_key : Bytes → EventCondition → Bytes
  -- `EventType.ObjectName`
  pub object_name : Bytes → Bytes
  -- `events.ConvertMessage`, none on an error
  pub convert_subscribe : RawMessage → Option SubscribePayload
  -- `json.Unmarshal` of a dispatch, none on an error
  pub unmarshal_dispatch : Bytes → Option DispatchPayload
  -- `events.ConvertMessage` of a bridged command, its encoding with the session's identifier, the
  -- request to the bridge and the decoding of the answer; none on an error of any of these
  pub bridge : Bytes → RawMessage → Option (List DispatchPayload)
  -- `utils.SliceRemove(s, i)`: what it returns, and what `s` itself reads as afterwards
  pub slice_remove : (A : Type 0) → List A → ℕ → List A
  pub slice_left : (A : Type 0) → List A → ℕ → List A
  -- `json.Marshal` of a message's data, none on an error; the name of an opcode in lower case; `%d`
  pub marshal : Message → Option Bytes
  pub op_name : Opcode → Bytes
  pub format_int : ℕ → Bytes
  -- the outcome of the transport's n-th write, and the n-th number that `rand.Uint32` gives
  pub write_ok : ℕ → Bool
  pub rand : ℕ → ℕ
  -- `utils.Set[uint32]`
  pub empty_set : S
  pub set_has : ℕ → S → Bool
  pub set_add : ℕ → S → S
  pub set_delete : ℕ → S → S
  pub set_values : S → List ℕ

-- Whether a number is in a list.
unfoldable pub contains : ℕ → List ℕ → Bool
contains x [] = false
contains x (y ∷ ys) = ite (ℕ_discrete x y) true (contains x ys)

-- `SliceRemove` is one generic function: it treats the slices of a channel alike, takes the element
-- at the index away and no other, and cannot change the length of the caller's slice or invent
-- elements. `Set` is a set.
pub record EnvLaws {S : Type 0} (env : Env S) : Type 1 where
  pub slice_remove-map :
      (A B : Type 0) (f : A → B) (xs : List A) (i : ℕ)
      → map f (env.slice_remove A xs i) ≡ env.slice_remove B (map f xs) i
  pub slice_remove-occurrences :
      (A : Type 0) (p : A → Bool) (xs : List A) (i : ℕ) {x : A}
      → get_elem? xs i ≡ some x
      → occurrences p (env.slice_remove A xs i) + (if p x then 1 else 0) ≡ occurrences p xs
  pub slice_left-map :
      (A B : Type 0) (f : A → B) (xs : List A) (i : ℕ)
      → map f (env.slice_left A xs i) ≡ env.slice_left B (map f xs) i
  pub slice_left-length :
      (A : Type 0) (xs : List A) (i : ℕ) → length (env.slice_left A xs i) ≡ length xs
  pub slice_left-one : (A : Type 0) (x : A) → env.slice_left A (x ∷ []) 0 ≡ x ∷ []
  pub has-empty_set : (x : ℕ) → env.set_has x env.empty_set ≡ false
  pub has-add :
      (x y : ℕ) (s : S)
      → env.set_has x (env.set_add y s) ≡ ite (ℕ_discrete x y) true (env.set_has x s)
  pub has-delete :
      (x y : ℕ) (s : S)
      → env.set_has x (env.set_delete y s) ≡ ite (ℕ_discrete x y) false (env.set_has x s)
  pub contains-values : (x : ℕ) (s : S) → contains x (env.set_values s) ≡ env.set_has x s
