-- ===== src/Nats/Closing.antt =====
-- internal/nats/subscription.go, `Close`: who is subscribed afterwards.
use event_api.Base.{
  ◌-◌, ◌≡◌, ◌≢◌, ite, List, [], ◌∷◌, Bytes, bytes_dec, Map, lookup, occurrences, lookup-delete,
  get_list-delete, Option-cases, none, some, arith, inl, inr, ◌&&◌, not,
}
use event_api.Nats.{Subscription, Registry, is_subscribed, close_subjects, close, drop_subject}
use event_api.Nats.Laws.{
  of_session, is_text, on_subject, in_session, IsConsistent, on_subject-drop_subject,
  drop_subject-occupied,
}
use event_api.Nats.Subscribing.{is_subscribed-on_subject}

on_subject-close_subjects :
    (sid : Bytes) (subs : List Bytes) (m : Map Bytes (List Subscription)) (other at : Bytes)
    → on_subject other at (close_subjects sid subs m)
      ≡ ite
          (bytes_dec other sid)
          (on_subject other at m - occurrences (is_text at) subs)
          (on_subject other at m)
unfolding close_subjects occurrences
on_subject-close_subjects sid [] m other at = ground arith
on_subject-close_subjects sid (u ∷ subs) m other at = ground (
  arith,
  on_subject-close_subjects sid subs (drop_subject sid u m) other at,
  on_subject-drop_subject sid u other at m,
)

close_subjects-occupied :
    (sid : Bytes) (subs : List Bytes) (m : Map Bytes (List Subscription)) (at : Bytes)
    → ((t : Bytes) → lookup bytes_dec t m ≢ some [])
    → lookup bytes_dec at (close_subjects sid subs m) ≢ some []
unfolding close_subjects
close_subjects-occupied sid [] m at h = h at
close_subjects-occupied sid (u ∷ subs) m at h =
    close_subjects-occupied sid subs _ at (λ t. drop_subject-occupied sid u t m (h t))

module _ (s : Subscription) (r : Registry) (h : IsConsistent r) where
  on_subject-close :
      (sid at : Bytes)
      → on_subject sid at (close s r).subjects
        ≡ ite (bytes_dec sid s.session_id) 0 (on_subject sid at r.subjects)
  on_subject-close sid at = elim (Option-cases (lookup bytes_dec s.session_id r.sessions)) [
    | inl e ↦ unfold close occurrences in rw (e, close) (ground (arith, e, h.agree s.session_id at))
    | inr (subs, e) ↦
        unfold close in
        rw (e, close)
          (ground (
            arith,
            e,
            h.agree sid at,
            on_subject-close_subjects s.session_id subs r.subjects sid at,
          ))
  ]

  in_session-close :
      (sid at : Bytes)
      → in_session sid at (close s r).sessions
        ≡ ite (bytes_dec sid s.session_id) 0 (in_session sid at r.sessions)
  in_session-close sid at = elim (Option-cases (lookup bytes_dec s.session_id r.sessions)) [
    | inl e ↦ unfold close occurrences in rw (e, close) (ground (arith, e))
    | inr (subs, e) ↦
        unfold close occurrences in
        rw (e, close) (ground (arith, e, get_list-delete bytes_dec s.session_id sid r.sessions))
  ]

  occupied-close : (at : Bytes) → lookup bytes_dec at (close s r).subjects ≢ some []
  occupied-close at = elim (Option-cases (lookup bytes_dec s.session_id r.sessions)) [
    | inl e ↦ unfold close in rw (e, close) (h.occupied at)
    | inr (subs, e) ↦
        unfold close in
        rw (e, close) (close_subjects-occupied s.session_id subs r.subjects at h.occupied)
  ]

-- On a consistent registry `Close` ends every subscription of its session, forgets the session's
-- list, and leaves every other session's subscriptions as they were.
pub is_subscribed-close :
    (s : Subscription) (r : Registry) (sid at : Bytes)
    → IsConsistent r
    → (is_subscribed (close s r) sid at ≡ (is_subscribed r sid at && not (of_session sid s)))
      × (lookup bytes_dec s.session_id (close s r).sessions ≡ none)
is_subscribed-close s r sid at h = (
  ground (
    arith,
    is_subscribed-on_subject r sid at,
    is_subscribed-on_subject (close s r) sid at,
    on_subject-close s r h sid at,
  ),
  elim (Option-cases (lookup bytes_dec s.session_id r.sessions)) [
    | inl e ↦ unfold close in rw (e, close) e
    | inr (subs, e) ↦
        unfold close in
        rw (e, close) (ground (arith, lookup-delete bytes_dec s.session_id s.session_id r.sessions))
  ],
)

-- `Close` keeps the two maps in step and leaves no subject with an empty list.
pub close-IsConsistent :
    (s : Subscription) (r : Registry) → IsConsistent r → IsConsistent (close s r)
close-IsConsistent s r h = record {
  agree = λ sid at.
      ground (arith, h.agree sid at, on_subject-close s r h sid at, in_session-close s r h sid at);
  single = λ sid at. ground (arith, h.single sid at, on_subject-close s r h sid at);
  occupied = occupied-close s r h;
}
