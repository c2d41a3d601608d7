-- ===== src/Nats/Delivery.antt =====
-- internal/nats/message.go: what a message puts into the channels.
use event_api.Base.{
  ℕ, ◌≢◌, sym, if_pos, if_neg, some, if◌then◌else◌, Bool-cases, ltb, ltb→lt, inl, inr, zero, suc,
  ◌+◌, ◌-◌, ◌≤◌, ◌≡◌, refl, ite, List, [], ◌∷◌, ◌++◌, Bool, true, false, Bytes, bytes_dec, get_list,
  occurrences, length, length-append, arith, ◌∙◌, ap, ℕ_discrete,
}
use mathlib.Core.List.{append_assoc, append-nil}
use event_api.Nats.{
  Subscription, Registry, Channels, channel_capacity, try_send, send_all, strip, trim_prefix,
  handle_message,
}

abbrev pub replicate {ℓ} : {A : Type ℓ} → ℕ → A → List A
replicate zero a = []
replicate (suc n) a = a ∷ replicate n a

-- The subscriptions that hold a given channel.
abbrev pub of_channel : ℕ → Subscription → Bool
of_channel c s = ite (ℕ_discrete c s.ch) true false

abbrev pub room : List Bytes → ℕ
room queue = channel_capacity - length queue

-- The smaller of two numbers.
abbrev pub least : ℕ → ℕ → ℕ
least zero b = 0
least (suc a) zero = 0
least (suc a) (suc b) = suc (least a b)

least-zero : (n : ℕ) → least n 0 ≡ 0
least-zero zero = refl
least-zero (suc n) = refl

-- What a queue holds after one send that does not block.
abbrev sent_once : Bytes → List Bytes → List Bytes
sent_once msg queue = if ltb (length queue) channel_capacity then queue ++ msg ∷ [] else queue

fill : ℕ → Bytes → List Bytes → List Bytes
fill zero msg queue = queue
fill (suc n) msg queue = fill n msg (sent_once msg queue)

fill-replicate :
    (n : ℕ) (msg : Bytes) (queue : List Bytes)
    → fill n msg queue ≡ queue ++ replicate (least n (room queue)) msg
unfolding fill
fill-replicate zero msg queue = sym (append-nil queue)
fill-replicate (suc n) msg queue = elim (Bool-cases (ltb (length queue) channel_capacity)) [
  | inl free ↦
      let q = queue ++ msg ∷ [] in
      let more : room queue ≡ suc (room q) =
        omega (arith, ltb→lt _ _ free, length-append queue (msg ∷ [])) in
      rw free (
        fill-replicate n msg q
        ∙ rw more (append_assoc queue (msg ∷ []) (replicate (least n (room q)) msg)))
  | inr full ↦
      let none_left : room queue ≡ 0 = ground arith in
      rw full (
        fill-replicate n msg queue
        ∙ rw none_left (ap (λ k. queue ++ replicate k msg) (least-zero n)))
]

length-fill-le :
    (n : ℕ) (msg : Bytes) (queue : List Bytes)
    → length queue ≤ channel_capacity
    → length (fill n msg queue) ≤ channel_capacity
unfolding fill
length-fill-le zero msg queue h = h
length-fill-le (suc n) msg queue h =
    length-fill-le n msg (sent_once msg queue) (ground (arith, length-append queue (msg ∷ [])))

one_more : (n : ℕ) → suc n ≡ 1 + n
one_more n = omega arith

no_more : (n : ℕ) → n ≡ 0 + n
no_more n = omega arith

try_send_own :
    (ch c : ℕ) (msg : Bytes) (chans : Channels)
    → c ≡ ch
    → try_send ch msg chans c ≡ sent_once msg (chans c)
unfolding try_send
try_send_own ch c msg chans p = ground arith

try_send_other :
    (ch c : ℕ) (msg : Bytes) (chans : Channels) → c ≢ ch → try_send ch msg chans c ≡ chans c
unfolding try_send
try_send_other ch c msg chans p = ground arith

send_all-fill :
    (subs : List Subscription) (msg : Bytes) (chans : Channels) (c : ℕ)
    → send_all subs msg chans c ≡ fill (occurrences (of_channel c) subs) msg (chans c)
unfolding send_all fill occurrences
send_all-fill [] msg chans c = refl
send_all-fill (s ∷ subs) msg chans c = elim (ℕ_discrete c s.ch) [
  | yes p ↦
      send_all-fill subs msg (try_send s.ch msg chans) c
      ∙ rw (try_send_own s.ch c msg chans p, if_pos (ℕ_discrete c s.ch) p)
          (ap (λ n. fill n msg (chans c)) (one_more (occurrences (of_channel c) subs)))
  | no p ↦
      send_all-fill subs msg (try_send s.ch msg chans) c
      ∙ rw (try_send_other s.ch c msg chans p, if_neg (ℕ_discrete c s.ch) p)
          (ap (λ n. fill n msg (chans c)) (no_more (occurrences (of_channel c) subs)))
]

strip-append : (p s : Bytes) → strip p (p ++ s) ≡ some s
unfolding strip
strip-append [] s = refl
strip-append (c ∷ p) s = rw (if_pos (ℕ_discrete c c) refl) (strip-append p s)

trim_prefix-append :
    (base subject : Bytes) → trim_prefix (base ++ b'.' ∷ subject) (base ++ b'.' ∷ []) ≡ subject
unfolding trim_prefix
trim_prefix-append base subject =
    rw (sym (append_assoc base (b'.' ∷ []) subject))
      (rw (strip-append (base ++ b'.' ∷ []) subject, trim_prefix))

-- A message on a subject of the base goes to the subject's subscriptions and nowhere else: a
-- channel gets one copy for each of its subscriptions to the subject, as far as there is room for
-- them, behind what it held.
pub handle_message-replicate :
    (base subject msg : Bytes) (r : Registry) (chans : Channels) (c : ℕ)
    → handle_message base (base ++ b'.' ∷ subject) msg r chans c
      ≡ chans c
        ++ replicate
            (least
              (occurrences (of_channel c) (get_list bytes_dec subject r.subjects))
              (room (chans c)))
            msg
unfolding handle_message trim_prefix
handle_message-replicate base subject msg r chans c = rw (trim_prefix-append base subject) (
    send_all-fill (get_list bytes_dec subject r.subjects) msg chans c
    ∙ fill-replicate _ msg (chans c))

-- No message makes a channel hold more than its capacity.
pub length-handle_message-le :
    (base subject msg : Bytes) (r : Registry) (chans : Channels) (c : ℕ)
    → length (chans c) ≤ channel_capacity
    → length (handle_message base subject msg r chans c) ≤ channel_capacity
unfolding handle_message
length-handle_message-le base subject msg r chans c h =
    let subs = get_list bytes_dec (trim_prefix subject (base ++ b'.' ∷ [])) r.subjects in
    rw (send_all-fill subs msg chans c) (length-fill-le _ msg (chans c) h)
