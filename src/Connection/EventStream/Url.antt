-- ===== src/Connection/EventStream/Url.antt =====
-- internal/app/v3/v3.go: the subscriptions that the URL of an event stream lists,
-- `@<type><<key>=<value>;…>,…`. The pattern is that of `SSE_SUBSCRIPTION_ITEM`: its first part is
-- anchored, its classes exclude what follows them, and `.+` is greedy, so there is one way to match.
use event_api.Base.{
  ℕ, List, [], ◌∷◌, ◌++◌, Option, none, some, Bool, true, false, Bytes, bytes_dec, insert,
  if◌then◌else◌, ◌&&◌, ◌||◌, not, leb, split, ite, ℕ_discrete,
}
use event_api.Connection.Types.{EventCondition, SubscribePayload}
use event_api.Connection.EventMap.{is_nil}

abbrev pub is_byte : ℕ → ℕ → Bool
is_byte b c = ite (ℕ_discrete c b) true false

abbrev is_between : ℕ → ℕ → ℕ → Bool
is_between a b c = leb a c && leb c b

abbrev pub is_alphanumeric : ℕ → Bool
is_alphanumeric c = is_between b'0' b'9' c || (is_between b'A' b'Z' c || is_between b'a' b'z' c)

-- `\w`
abbrev pub is_word : ℕ → Bool
is_word c = is_alphanumeric c || is_byte b'_' c

-- `[a-zA-Z0-9*]`
abbrev pub is_name : ℕ → Bool
is_name c = is_alphanumeric c || is_byte b'*' c

-- `.`
abbrev pub is_any : ℕ → Bool
is_any c = not (is_byte 10 c)

-- The longest prefix of a class, and the rest.
unfoldable pub span : (ℕ → Bool) → Bytes → Bytes × Bytes
span p [] = ([], [])
span p (c ∷ s) = let rest = span p s in if p c then (c ∷ rest.0, rest.1) else ([], c ∷ s)

-- What stands before the last occurrence of a byte.
unfoldable pub before_last : ℕ → Bytes → Option Bytes
before_last b [] = none
before_last b (c ∷ s) = elim (before_last b s) [
  | some r ↦ some (c ∷ r)
  | none ↦ if is_byte b c then some [] else none
]

-- `(\<(?P<CND>.+)\>)?`: the group `CND`, empty where it does not take part.
unfoldable pub find_condition : Bytes → Bytes
unfolding span before_last
find_condition [] = []
find_condition (c ∷ s) =
    if is_byte b'<' c
    then elim (before_last b'>' (span is_any s).0) [ none ↦ [] | some cnd ↦ cnd ]
    else []

-- After `^\w+`: the rest of the pattern.
unfoldable pub find_name : Bytes → Bytes → Option (Bytes × Bytes)
unfolding find_condition
find_name w [] = none
find_name w (c ∷ s) =
    let (n, rest) = span is_name s in
    if is_byte b'.' c && not (is_nil n) then some (w ++ c ∷ n, find_condition rest) else none

-- `FindStringSubmatch`: the groups `EVT` and `CND`.
unfoldable pub find_item : Bytes → Option (Bytes × Bytes)
unfolding find_name
find_item s = let (w, rest) = span is_word s in if is_nil w then none else find_name w rest

-- One round of the loop over the conditions: `cm[kv[0]] = kv[1]` if there are two parts.
abbrev pub assign : List Bytes → EventCondition → EventCondition
assign (k ∷ v ∷ []) cm = insert bytes_dec k v cm
assign _ cm = cm

unfoldable pub parse_pairs : List Bytes → EventCondition → EventCondition
parse_pairs [] cm = cm
parse_pairs (cond ∷ rest) cm = parse_pairs rest (assign (split b'=' cond) cm)

unfoldable pub parse_condition : Bytes → EventCondition
unfolding parse_pairs
parse_condition cnd = parse_pairs (split b';' cnd) []

-- The loop over the items: an item that the pattern does not match is passed over.
unfoldable pub parse_items : List Bytes → List SubscribePayload
unfolding find_item parse_condition
parse_items [] = []
parse_items (item ∷ rest) = elim (find_item item) [
  | none ↦ parse_items rest
  | some (evt, cnd) ↦
      record { event_type = evt; condition = parse_condition cnd } ∷ parse_items rest
]

-- The subscriptions of an unescaped `sub`.
unfoldable pub parse_subscriptions : Bytes → List SubscribePayload
unfolding parse_items
parse_subscriptions [] = []
parse_subscriptions (c ∷ s) = if is_byte b'@' c then parse_items (split b',' s) else []
