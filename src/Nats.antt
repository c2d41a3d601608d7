-- ===== src/Nats.antt =====
-- internal/nats: the process-wide registry that links NATS subjects to client subscriptions.
-- `subscription.go`, `message.go`, and `Close` of `nats.go`. Every function of the package runs
-- under the mutex `mx`, so each is one step on the registry.
pub mod Laws
pub mod Subscribing
pub mod Scanning
pub mod Unsubscribing
pub mod Closing
pub mod Delivery
pub mod Arrival
pub mod History
mod Examples
use event_api.Base.{
  ℕ, zero, suc, List, [], ◌∷◌, ◌++◌, Option, none, some, Bool, true, false, ite, Bytes, bytes_dec,
  Map, insert, delete, lookup, get_list, get_elem?, length, move_last, swap_remove, ℕ_discrete, ltb,
  if◌then◌else◌,
}

-- `Subscription`: the pointer to the channel `Ch`, and the session.
pub record Subscription : Type 0 where
  pub ch : ℕ
  pub session_id : Bytes

-- The globals `subjects` and `sessions`.
pub record Registry : Type 0 where
  pub subjects : Map Bytes (List Subscription)
  pub sessions : Map Bytes (List Bytes)

-- The maps as `Init` makes them.
unfoldable pub init : Registry
init = record { subjects = []; sessions = [] }

-- The loop of `isSubscribed`.
pub has_session : Bytes → List Subscription → Bool
has_session sid [] = false
has_session sid (s ∷ subs) = ite (bytes_dec s.session_id sid) true (has_session sid subs)

unfoldable pub is_subscribed : Registry → Bytes → Bytes → Bool
unfolding has_session
is_subscribed r sid subject = has_session sid (get_list bytes_dec subject r.subjects)

-- One round of the loop of `Subscribe`, past its guard.
pub join_subject : Subscription → Bytes → Registry → Registry
join_subject s join r = record {
  subjects = insert bytes_dec join (get_list bytes_dec join r.subjects ++ s ∷ []) r.subjects;
  sessions =
      insert bytes_dec s.session_id (get_list bytes_dec s.session_id r.sessions ++ join ∷ [])
        r.sessions;
}

unfoldable pub subscribe : Subscription → List Bytes → Registry → Registry
unfolding is_subscribed join_subject
subscribe s [] r = r
subscribe s (join ∷ rest) r =
    subscribe s rest (if is_subscribed r s.session_id join then r else join_subject s join r)

-- The position at which the inner loop of `Unsubscribe` and of `Close` breaks.
pub index_session : Bytes → List Subscription → Option ℕ
index_session sid [] = none
index_session sid (s ∷ subs) =
    ite (bytes_dec s.session_id sid) (some 0)
      (elim (index_session sid subs) [ none ↦ none | some i ↦ some (suc i) ])

abbrev pub remove_session : Bytes → List Subscription → List Subscription
remove_session sid subs = elim (index_session sid subs) [
  | none ↦ subs
  | some i ↦ swap_remove subs i
]

-- `if len(subjects[subject]) == 0 { delete(subjects, subject) }`, with the slice just written.
abbrev pub store_subs :
    Bytes → List Subscription → Map Bytes (List Subscription) → Map Bytes (List Subscription)
store_subs subject [] m = delete bytes_dec subject m
store_subs subject (s ∷ subs) m = insert bytes_dec subject (s ∷ subs) m

-- The session's subscription is taken off a subject; a subject without an entry is passed over.
pub drop_subject : Bytes → Bytes → Map Bytes (List Subscription) → Map Bytes (List Subscription)
unfolding index_session
drop_subject sid subject m = elim (lookup bytes_dec subject m) [
  | none ↦ m
  | some subs ↦ store_subs subject (remove_session sid subs) m
]

-- The state of `Unsubscribe`: the registry, and the local slice `subs`, whose header keeps its
-- length while `removeSubject` writes into its array.
pub record Scan : Type 0 where
  pub subs : List Bytes
  pub registry : Registry

-- The body of the loop over `subs`, where the subject at `i` is the one to remove. The flag says
-- whether the loop breaks.
pub remove_at : Bytes → Bytes → ℕ → Scan → Scan × Bool
unfolding drop_subject
remove_at sid subject i sc =
    let subs' = move_last sc.subs i in
    let sessions' = insert bytes_dec sid (swap_remove sc.subs i) sc.registry.sessions in
    elim (lookup bytes_dec subject sc.registry.subjects) [
      | none ↦ (
        record {
          subs = subs';
          registry = record { subjects = sc.registry.subjects; sessions = sessions' };
        },
        false,
      )
      | some _ ↦ (
        record {
          subs = subs';
          registry = record {
            subjects = drop_subject sid subject sc.registry.subjects;
            sessions = sessions';
          };
        },
        true,
      )
    ]

-- `for i, subject := range subs`, with `k` rounds left.
pub scan_subs : Bytes → Bytes → ℕ → ℕ → Scan → Scan
unfolding remove_at
scan_subs sid unsub zero i sc = sc
scan_subs sid unsub (suc k) i sc =
    let next = scan_subs sid unsub k (suc i) sc in
    let (sc', found) = remove_at sid unsub i sc in
    let again = scan_subs sid unsub k (suc i) sc' in
    elim (get_elem? sc.subs i) [
      | none ↦ next
      | some subject ↦ ite (bytes_dec subject unsub) (if found then sc' else again) next
    ]

-- `for _, unsub := range unsubscribeFrom`.
pub scan_all : Bytes → List Bytes → Scan → Scan
unfolding scan_subs
scan_all sid [] sc = sc
scan_all sid (unsub ∷ rest) sc = scan_all sid rest (scan_subs sid unsub (length sc.subs) 0 sc)

unfoldable pub unsubscribe : Subscription → List Bytes → Registry → Registry
unfolding scan_all
unsubscribe s froms r = elim (lookup bytes_dec s.session_id r.sessions) [
  | none ↦ r
  | some subs ↦ (scan_all s.session_id froms (record { subs = subs; registry = r })).registry
]

-- The loop of `Close`.
pub close_subjects :
    Bytes → List Bytes → Map Bytes (List Subscription) → Map Bytes (List Subscription)
unfolding drop_subject
close_subjects sid [] m = m
close_subjects sid (subject ∷ rest) m = close_subjects sid rest (drop_subject sid subject m)

unfoldable pub close : Subscription → Registry → Registry
unfolding close_subjects
close s r = elim (lookup bytes_dec s.session_id r.sessions) [
  | none ↦ r
  | some subs ↦ record {
    subjects = close_subjects s.session_id subs r.subjects;
    sessions = delete bytes_dec s.session_id r.sessions;
  }
]

-- `make(chan []byte, 10)`.
abbrev pub channel_capacity : ℕ
channel_capacity = 10

-- The channels by their pointers: what each holds, oldest first.
abbrev pub Channels : Type 0
Channels = ℕ → List Bytes

-- `select { case sub.Ch <- msg.Data: default: }`.
pub try_send : ℕ → Bytes → Channels → Channels
try_send ch msg chans c = elim (ℕ_discrete c ch) [
  | yes _ ↦ if ltb (length (chans c)) channel_capacity then chans c ++ msg ∷ [] else chans c
  | no _ ↦ chans c
]

-- The loop of `handleMessage`.
unfoldable pub send_all : List Subscription → Bytes → Channels → Channels
unfolding try_send
send_all [] msg chans = chans
send_all (s ∷ subs) msg chans = send_all subs msg (try_send s.ch msg chans)

-- `strings.TrimPrefix`.
pub strip : Bytes → Bytes → Option Bytes
strip [] s = some s
strip (p ∷ ps) [] = none
strip (p ∷ ps) (c ∷ s) = ite (ℕ_discrete p c) (strip ps s) none

unfoldable pub trim_prefix : Bytes → Bytes → Bytes
unfolding strip
trim_prefix s p = elim (strip p s) [ none ↦ s | some rest ↦ rest ]

-- `handleMessage`, where `base` is `baseSubject`.
unfoldable pub handle_message : Bytes → Bytes → Bytes → Registry → Channels → Channels
unfolding trim_prefix send_all
handle_message base subject msg r chans =
    send_all (get_list bytes_dec (trim_prefix subject (base ++ b'.' ∷ [])) r.subjects) msg chans
