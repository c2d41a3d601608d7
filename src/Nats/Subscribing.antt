-- ===== src/Nats/Subscribing.antt =====
-- internal/nats/subscription.go, `Subscribe`: who is subscribed afterwards.
use event_api.Base.{
  is_listed, ◌+◌, ◌≡◌, refl, ◌≢◌, ite, List, [], ◌∷◌, ◌++◌, true, false, Bytes, bytes_dec, lookup,
  get_list, occurrences, occurrences-append, lookup-insert, get_list-insert, if◌then◌else◌, arith,
  inl, inr, Bool-cases, ◌||◌, ◌&&◌,
}
use event_api.Nats.{Subscription, Registry, init, is_subscribed, join_subject, subscribe}
use event_api.Nats.Laws.{
  of_session, is_text, on_subject, in_session, IsConsistent, positive, has_session-occurrences,
}

pub is_subscribed-on_subject :
    (r : Registry) (sid subject : Bytes)
    → is_subscribed r sid subject ≡ positive (on_subject sid subject r.subjects)
unfolding is_subscribed
is_subscribed-on_subject r sid subject = has_session-occurrences sid _

module _ (s : Subscription) (join : Bytes) (r : Registry) where
  on_subject-join :
      (sid at : Bytes)
      → on_subject sid at (join_subject s join r).subjects
        ≡ on_subject sid at r.subjects
          + ite (bytes_dec at join) (ite (bytes_dec s.session_id sid) 1 0) 0
  unfolding join_subject occurrences
  on_subject-join sid at = ground (
    arith,
    get_list-insert bytes_dec join at (get_list bytes_dec join r.subjects ++ s ∷ []) r.subjects,
    occurrences-append (of_session sid) (get_list bytes_dec join r.subjects) (s ∷ []),
  )

  in_session-join :
      (sid at : Bytes)
      → in_session sid at (join_subject s join r).sessions
        ≡ in_session sid at r.sessions
          + ite (bytes_dec at join) (ite (bytes_dec s.session_id sid) 1 0) 0
  unfolding join_subject occurrences
  in_session-join sid at = ground (
    arith,
    get_list-insert bytes_dec s.session_id sid
        (get_list bytes_dec s.session_id r.sessions ++ join ∷ []) r.sessions,
    occurrences-append (is_text at) (get_list bytes_dec s.session_id r.sessions) (join ∷ []),
  )

  append-ne-nil : {A : Type 0} (xs : List A) (x : A) → xs ++ x ∷ [] ≢ []
  append-ne-nil [] x = λ e. cc
  append-ne-nil (y ∷ xs) x = λ e. cc

  join_subject-IsConsistent :
      is_subscribed r s.session_id join ≡ false
      → IsConsistent r
      → IsConsistent (join_subject s join r)
  join_subject-IsConsistent fresh h = record {
    agree = λ sid at. omega (arith, on_subject-join sid at, in_session-join sid at, h.agree sid at);
    single = λ sid at. ground (
      arith,
      on_subject-join sid at,
      h.single sid at,
      is_subscribed-on_subject r s.session_id join,
    );
    occupied = λ at.
        unfold join_subject in
        ground (
          arith,
          h.occupied at,
          lookup-insert bytes_dec join at (get_list bytes_dec join r.subjects ++ s ∷ []) r.subjects,
          append-ne-nil (get_list bytes_dec join r.subjects) s,
        );
  }

-- One round of `Subscribe`, with its guard.
abbrev try_join : Subscription → Bytes → Registry → Registry
try_join s join r = if is_subscribed r s.session_id join then r else join_subject s join r

is_subscribed-try_join :
    (s : Subscription) (join : Bytes) (r : Registry) (sid at : Bytes)
    → is_subscribed (try_join s join r) sid at
      ≡ ite
          (bytes_dec at join)
          (ite (bytes_dec s.session_id sid) true (is_subscribed r sid at))
          (is_subscribed r sid at)
is_subscribed-try_join s join r sid at = elim (Bool-cases (is_subscribed r s.session_id join)) [
  | inl old ↦ rw old (ground (arith, old))
  | inr new ↦ rw new (
      ground (
        arith,
        is_subscribed-on_subject r sid at,
        is_subscribed-on_subject (join_subject s join r) sid at,
        on_subject-join s join r sid at,
      ))
]

-- After `Subscribe` a session is subscribed to a subject exactly if it was before, or if it is the
-- session of the subscription and the subject is one of those that were asked for.
pub is_subscribed-subscribe :
    (s : Subscription) (joins : List Bytes) (r : Registry) (sid at : Bytes)
    → is_subscribed (subscribe s joins r) sid at
      ≡ (is_subscribed r sid at || (of_session sid s && is_listed at joins))
unfolding subscribe is_listed
is_subscribed-subscribe s [] r sid at = ground arith
is_subscribed-subscribe s (join ∷ joins) r sid at = ground (
  arith,
  is_subscribed-subscribe s joins (try_join s join r) sid at,
  is_subscribed-try_join s join r sid at,
)

-- `Subscribe` keeps the two maps in step, with any list of subjects, also one with repetitions.
pub subscribe-IsConsistent :
    (s : Subscription) (joins : List Bytes) (r : Registry)
    → IsConsistent r
    → IsConsistent (subscribe s joins r)
unfolding subscribe
subscribe-IsConsistent s [] r h = h
subscribe-IsConsistent s (join ∷ joins) r h =
    elim (Bool-cases (is_subscribed r s.session_id join)) [
      | inl old ↦ rw old (subscribe-IsConsistent s joins r h)
      | inr new ↦ rw new (
          subscribe-IsConsistent s joins (join_subject s join r)
            (join_subject-IsConsistent s join r new h))
    ]

-- The registry that `Init` makes is consistent.
pub init-IsConsistent : IsConsistent init
unfolding init occurrences bytes_dec lookup
init-IsConsistent = record {
  agree = λ sid at. refl;
  single = λ sid at. omega arith;
  occupied = λ at e. cc;
}
