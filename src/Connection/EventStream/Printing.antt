-- ===== src/Connection/EventStream/Printing.antt =====
-- internal/app/v3/v3.go: the parsing of the URL of an event stream against a printer.
use event_api.Base.{
  ℕ, ◌≡◌, refl, List, [], ◌∷◌, ◌++◌, map, some, Bool, true, false, Bytes, bytes_dec, insert, All,
  split, ℕ_discrete, arith, ap, ◌∙◌,
}
use event_api.Connection.Types.{EventCondition, SubscribePayload}
use event_api.Connection.EventMap.{is_nil}
use event_api.Connection.EventStream.Url.{
  is_byte, is_word, is_name, is_any, span, before_last, find_condition, find_name, find_item,
  assign, parse_pairs, parse_condition, parse_items, parse_subscriptions,
}

-- A text without a byte.
abbrev pub IsFree : ℕ → Bytes → Type 0
IsFree b = All (λ c. is_byte b c ≡ false)

-- A text of a class.
abbrev pub IsOf : (ℕ → Bool) → Bytes → Type 0
IsOf p = All (λ c. p c ≡ true)

split-free : (b : ℕ) (s : Bytes) → IsFree b s → split b s ≡ s ∷ []
unfolding split
split-free b [] h = refl
split-free b (c ∷ s) h = ground (arith, split-free b s h.1, h.0)

split-append : (b : ℕ) (s t : Bytes) → IsFree b s → split b (s ++ b ∷ t) ≡ s ∷ split b t
unfolding split
split-append b [] t h = ground arith
split-append b (c ∷ s) t h = ground (arith, split-append b s t h.1, h.0)

span-all : (p : ℕ → Bool) (s : Bytes) → IsOf p s → span p s ≡ (s, [])
unfolding span
span-all p [] h = refl
span-all p (c ∷ s) h = ground (arith, span-all p s h.1, h.0)

span-append :
    (p : ℕ → Bool) (s : Bytes) (c : ℕ) (t : Bytes)
    → IsOf p s
    → p c ≡ false
    → span p (s ++ c ∷ t) ≡ (s, c ∷ t)
unfolding span
span-append p [] c t h stop = ground arith
span-append p (d ∷ s) c t h stop = ground (arith, span-append p s c t h.1 stop, h.0)

before_last-append : (b : ℕ) (s : Bytes) → before_last b (s ++ b ∷ []) ≡ some s
unfolding before_last
before_last-append b [] = ground arith
before_last-append b (c ∷ s) = rw (before_last-append b s) refl

-- The texts of a list, with a separator between them.
unfoldable pub join : ℕ → List Bytes → Bytes
join b [] = []
join b (s ∷ []) = s
join b (s ∷ s' ∷ rest) = s ++ b ∷ join b (s' ∷ rest)

split-join :
    (b : ℕ) (s : Bytes) (rest : List Bytes)
    → All (IsFree b) (s ∷ rest)
    → split b (join b (s ∷ rest)) ≡ s ∷ rest
unfolding join
split-join b s [] h = split-free b s h.0
split-join b s (s' ∷ rest) h =
    split-append b s (join b (s' ∷ rest)) h.0 ∙ ap (◌∷◌ s) (split-join b s' rest h.1)

unfoldable pub print_pair : Bytes × Bytes → Bytes
print_pair (k, v) = k ++ b'=' ∷ v

-- The assignments of a list of pairs, in order.
pub assign_all : EventCondition → EventCondition → EventCondition
assign_all [] cm = cm
assign_all ((k, v) ∷ rest) cm = assign_all rest (insert bytes_dec k v cm)

abbrev pub IsPlain : Bytes × Bytes → Type 0
IsPlain kv = IsFree b'=' kv.0 × IsFree b'=' kv.1 × IsFree b';' (print_pair kv)

split-pair : (k v : Bytes) → IsFree b'=' k → IsFree b'=' v → split b'=' (k ++ b'=' ∷ v) ≡ k ∷ v ∷ []
split-pair k v hk hv = split-append b'=' k v hk ∙ ap (◌∷◌ k) (split-free b'=' v hv)

parse_pairs-print :
    (cond cm : EventCondition)
    → All IsPlain cond
    → parse_pairs (map print_pair cond) cm ≡ assign_all cond cm
unfolding parse_pairs assign_all print_pair
parse_pairs-print [] cm h = refl
parse_pairs-print ((k, v) ∷ rest) cm h =
    ap (λ kv. parse_pairs (map print_pair rest) (assign kv cm)) (split-pair k v h.0.0 h.0.1)
    ∙ (parse_pairs-print rest (insert bytes_dec k v cm) h.1)

IsFree-pairs : (cond : EventCondition) → All IsPlain cond → All (IsFree b';') (map print_pair cond)
IsFree-pairs [] h = tt
IsFree-pairs (kv ∷ rest) h = (h.0.2, IsFree-pairs rest h.1)

-- A condition as the URL spells it.
unfoldable pub print_condition : EventCondition → Bytes
unfolding join print_pair
print_condition cond = join b';' (map print_pair cond)

-- The condition that a URL spells is read back as the assignments of its pairs, in order, if no key
-- and no value has a separator in it.
parse_condition-print :
    (cond : EventCondition)
    → All IsPlain cond
    → parse_condition (print_condition cond) ≡ assign_all cond []
unfolding parse_condition print_condition parse_pairs split assign_all join
parse_condition-print [] h = refl
parse_condition-print (kv ∷ rest) h =
    ap (λ l. parse_pairs l [])
      (split-join b';' (print_pair kv) (map print_pair rest) (IsFree-pairs (kv ∷ rest) h))
    ∙ parse_pairs-print (kv ∷ rest) [] h

-- An item of a URL: the event type is a word, a dot and a name.
pub record Item : Type 0 where
  pub word : Bytes
  pub name : Bytes
  pub condition : EventCondition

abbrev pub event_type_of : Item → Bytes
event_type_of it = it.word ++ b'.' ∷ it.name

unfoldable pub print_item : Item → Bytes
unfolding print_condition
print_item it = it.word ++ b'.' ∷ (it.name ++ b'<' ∷ (print_condition it.condition ++ b'>' ∷ []))

-- What the printer can spell.
pub record IsItem (it : Item) : Type 0 where
  pub some_word : is_nil it.word ≡ false
  pub words : IsOf is_word it.word
  pub some_name : is_nil it.name ≡ false
  pub names : IsOf is_name it.name
  pub plain : All IsPlain it.condition
  pub one_line : IsOf is_any (print_condition it.condition)
  pub no_comma : IsFree b',' (print_item it)

All-append : (p : ℕ → Bool) (s t : Bytes) → IsOf p s → IsOf p t → IsOf p (s ++ t)
All-append p [] t h k = k
All-append p (c ∷ s) t h k = (h.0, All-append p s t h.1 k)

find_condition-print :
    (cnd : Bytes) → IsOf is_any cnd → find_condition (b'<' ∷ (cnd ++ b'>' ∷ [])) ≡ cnd
unfolding find_condition ℕ_discrete
find_condition-print cnd h =
    let whole =
      span-all is_any (cnd ++ b'>' ∷ []) (All-append is_any cnd (b'>' ∷ []) h (refl, tt)) in
    let cut = before_last-append b'>' cnd in
    rw (whole, find_condition) (rw (cut, find_condition) refl)

find_item-print :
    (it : Item)
    → IsItem it
    → find_item (print_item it) ≡ some (event_type_of it, print_condition it.condition)
unfolding find_item find_name print_item ℕ_discrete
find_item-print it h =
    let first =
      span-append is_word it.word b'.'
        (it.name ++ b'<' ∷ (print_condition it.condition ++ b'>' ∷ [])) h.words refl in
    let second =
      span-append is_name it.name b'<' (print_condition it.condition ++ b'>' ∷ []) h.names refl in
    let third = find_condition-print (print_condition it.condition) h.one_line in
    rw (first, find_item)
      (rw (h.some_word, find_item)
        (rw (second, find_name) (rw (h.some_name, find_name) (rw third refl))))

abbrev payload_of : Item → SubscribePayload
payload_of it = record { event_type = event_type_of it; condition = assign_all it.condition [] }

parse_items-print :
    (items : List Item)
    → All IsItem items
    → parse_items (map print_item items) ≡ map payload_of items
unfolding parse_items
parse_items-print [] h = refl
parse_items-print (it ∷ rest) h =
    rw (find_item-print it h.0, parse_items)
      (rw (parse_condition-print it.condition h.0.plain)
        (ap (◌∷◌ (payload_of it)) (parse_items-print rest h.1)))

IsFree-items : (items : List Item) → All IsItem items → All (IsFree b',') (map print_item items)
IsFree-items [] h = tt
IsFree-items (it ∷ rest) h = (h.0.no_comma, IsFree-items rest h.1)

-- The URL of a list of items.
pub print_url : List Item → Bytes
unfolding join print_item
print_url items = b'@' ∷ join b',' (map print_item items)

-- The URL of a list of items is read back as those items, in order: each event type, and the
-- assignments of its condition. It holds of items whose parts are of the classes of the pattern and
-- have no separator in them; at least one item is there.
pub parse_subscriptions-print :
    (it : Item) (rest : List Item)
    → All IsItem (it ∷ rest)
    → parse_subscriptions (print_url (it ∷ rest)) ≡ map payload_of (it ∷ rest)
unfolding parse_subscriptions print_url ℕ_discrete
parse_subscriptions-print it rest h =
    ap parse_items
      (split-join b',' (print_item it) (map print_item rest) (IsFree-items (it ∷ rest) h))
    ∙ parse_items-print (it ∷ rest) h
