-- ===== src/Nats/Arrival.antt =====
-- internal/nats: a message that comes after a subscription.
use event_api.Base.{
  ℕ, zero, suc, ◌<◌, ◌≤◌, ◌≡◌, refl, [], ◌∷◌, ◌++◌, false, Bytes, bytes_dec, get_list,
  get_list-insert, occurrences, occurrences-append, length, arith, ap, ◌∙◌,
}
use event_api.Nats.{
  Subscription, Registry, Channels, channel_capacity, handle_message, is_subscribed, join_subject,
  subscribe,
}
use event_api.Nats.Delivery.{replicate, of_channel, room, least, handle_message-replicate}

-- A new subscription of a channel to a subject is there for the next message.
occurrences-subscribe :
    (sub : Subscription) (key : Bytes) (r : Registry)
    → is_subscribed r sub.session_id key ≡ false
    → 1
      ≤ occurrences
          (of_channel sub.ch)
          (get_list bytes_dec key (subscribe sub (key ∷ []) r).subjects)
unfolding subscribe join_subject occurrences
occurrences-subscribe sub key r fresh = rw fresh (
    ground (
      arith,
      get_list-insert bytes_dec key key (get_list bytes_dec key r.subjects ++ sub ∷ []) r.subjects,
      occurrences-append (of_channel sub.ch) (get_list bytes_dec key r.subjects) (sub ∷ []),
    ))

one_or_more : (a b : ℕ) → 1 ≤ a → 1 ≤ b → (k : ℕ) × (least a b ≡ suc k)
one_or_more zero b h k = absurd (omega arith)
one_or_more (suc a) zero h k = absurd (omega arith)
one_or_more (suc a) (suc b) h k = (least a b, refl)

-- Where a session was not subscribed to a subject, its channel gets the next message on it, if there
-- is room, behind what it held.
pub handle_message-subscribe :
    (base raw key : Bytes) (sub : Subscription) (r : Registry) (chans : Channels)
    → is_subscribed r sub.session_id key ≡ false
    → length (chans sub.ch) < channel_capacity
    → (k : ℕ) × (handle_message base
          (base ++ b'.' ∷ key)
          raw
          (subscribe sub (key ∷ []) r)
          chans
          sub.ch
        ≡ chans sub.ch ++ replicate (suc k) raw)
handle_message-subscribe base raw key sub r chans fresh free =
    let after : Registry = subscribe sub (key ∷ []) r in
    let (k, e) =
      one_or_more (occurrences (of_channel sub.ch) (get_list bytes_dec key after.subjects))
        (room (chans sub.ch)) (occurrences-subscribe sub key r fresh) (omega (arith, free)) in
    (
      k,
      handle_message-replicate base key raw after chans sub.ch
          ∙ ap (λ n. chans sub.ch ++ replicate n raw) e,
    )
