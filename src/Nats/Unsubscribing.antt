-- ===== src/Nats/Unsubscribing.antt =====
-- internal/nats/subscription.go: `Unsubscribe` of one subject, and of two.
use event_api.Base.{
  ℕ, sym, ◌≡◌, refl, ◌≢◌, ◌⊎◌, ite, if_pos, if_neg, List, [], ◌∷◌, Bool, Bytes, bytes_dec, Map,
  insert, lookup, get_list, get_elem?, length, swap_remove, occurrences, occurrences-swap_remove,
  get_elem?-occurrences, get_list-insert, Option-cases, some, arith, inl, inr, ◌&&◌, not, ap, ◌∙◌,
  entries,
}
use event_api.Nats.{
  Subscription, Registry, is_subscribed, Scan, scan_subs, unsubscribe, drop_subject, remove_session,
}
use event_api.Nats.Laws.{
  of_session, is_text, on_subject, in_session, IsConsistent, on_subject-drop_subject,
  drop_subject-occupied, lookup-store_subs_ne,
}
use event_api.Nats.Subscribing.{is_subscribed-on_subject}
use event_api.Nats.Scanning.{
  Stops, removed, remove_at-removed, scan_subs-Stops, scan_subs_absent, no_position,
}

position :
    (t : Bytes) (subs : List Bytes)
    → occurrences (is_text t) subs ≡ 0
    → (j : ℕ) → get_elem? subs j ≢ some t
position t subs e j g = ground (arith, e, get_elem?-occurrences (is_text t) subs j g)

-- What one call with one subject does to a consistent registry.
abbrev Left : Subscription → Bytes → Registry → Registry → Type 0
Left s unsub r out =
    ((out ≡ r) × (in_session s.session_id unsub r.sessions ≡ 0))
    ⊎ ((subs : List Bytes) × (j : ℕ) × (lookup bytes_dec s.session_id r.sessions ≡ some subs)
        × (get_elem? subs j ≡ some unsub)
        × (out ≡ record {
          subjects = drop_subject s.session_id unsub r.subjects;
          sessions = insert bytes_dec s.session_id (swap_remove subs j) r.sessions;
        }))

-- With one subject the call is one scan.
unsubscribe-scan_subs :
    (s : Subscription) (unsub : Bytes) (r : Registry) {subs : List Bytes}
    → lookup bytes_dec s.session_id r.sessions ≡ some subs
    → unsubscribe s (unsub ∷ []) r
      ≡ (scan_subs s.session_id unsub
          (length subs)
          0
          (record { subs = subs; registry = r })).registry
unfolding unsubscribe
unsubscribe-scan_subs s unsub r e = rw (e, unsubscribe)

module _ (s : Subscription) (unsub : Bytes) (r : Registry) (subs : List Bytes)
    (e : lookup bytes_dec s.session_id r.sessions ≡ some subs) where
  in_session-subs : in_session s.session_id unsub r.sessions ≡ occurrences (is_text unsub) subs
  in_session-subs = ap (λ o. occurrences (is_text unsub) (entries o)) e

  Left-absent : occurrences (is_text unsub) subs ≡ 0 → Left s unsub r (unsubscribe s (unsub ∷ []) r)
  Left-absent c = inl (
    unsubscribe-scan_subs s unsub r e
        ∙ ap (λ (sc : Scan). sc.registry)
            (scan_subs_absent s.session_id unsub (length subs) 0 _ (position unsub subs c)),
    in_session-subs ∙ c,
  )

  Left-Stops :
      {l : List Subscription}
      → lookup bytes_dec unsub r.subjects ≡ some l
      → (out : Scan)
      → (scan_subs s.session_id unsub (length subs) 0 (record { subs = subs; registry = r })) ≡ out
      → Stops s.session_id unsub (length subs) 0 (record { subs = subs; registry = r }) out
      → Left s unsub r (unsubscribe s (unsub ∷ []) r)
  Left-Stops f out o (inl (_, nowhere)) = Left-absent (no_position unsub subs nowhere)
  Left-Stops f out o (inr (j, g, found)) = inr (
    subs,
    j,
    e,
    g,
    unsubscribe-scan_subs s unsub r e
        ∙ ap (λ (sc : Scan). sc.registry) (o ∙ found)
        ∙ ap (λ (p : Scan × Bool). p.0.registry) (remove_at-removed s.session_id unsub j _ f),
  )

unsubscribe-Left :
    (s : Subscription) (unsub : Bytes) (r : Registry)
    → IsConsistent r
    → Left s unsub r (unsubscribe s (unsub ∷ []) r)
unsubscribe-Left s unsub r h = elim (Option-cases (lookup bytes_dec s.session_id r.sessions)) [
  | inl e ↦ inl (unfold unsubscribe in rw (e, unsubscribe), unfold occurrences in ground (arith, e))
  | inr (subs, e) ↦ elim (Option-cases (lookup bytes_dec unsub r.subjects)) [
    | inl f ↦ Left-absent s unsub r subs e (
        unfold occurrences in
        ground (arith, f, h.agree s.session_id unsub, in_session-subs s unsub r subs e))
    | inr (l, f) ↦
        Left-Stops s unsub r subs e f _ refl
          (scan_subs-Stops s.session_id unsub (length subs) 0 _ f)
  ]
]

-- The counts after one `Unsubscribe`: the pair of the session and the subject falls to 0, and
-- nothing else changes, on both sides.
module _ (s : Subscription) (unsub : Bytes) (r : Registry) (h : IsConsistent r)
    (sid at : Bytes) where
  on_subject-Left :
      (out : Registry)
      → Left s unsub r out
      → on_subject sid at out.subjects
        ≡ ite
            (bytes_dec at unsub)
            (ite (bytes_dec sid s.session_id) 0 (on_subject sid at r.subjects))
            (on_subject sid at r.subjects)
  on_subject-Left out (inl (e, c)) = ground (arith, h.agree s.session_id unsub)
  on_subject-Left out (inr (subs, j, e, g, o)) =
      ground (arith, on_subject-drop_subject s.session_id unsub sid at r.subjects, h.single sid at)

  in_session-Left :
      (out : Registry)
      → Left s unsub r out
      → in_session sid at out.sessions
        ≡ ite
            (bytes_dec at unsub)
            (ite (bytes_dec sid s.session_id) 0 (in_session sid at r.sessions))
            (in_session sid at r.sessions)
  in_session-Left out (inl (e, c)) = ground arith
  in_session-Left out (inr (subs, j, e, g, o)) = ground (
    arith,
    get_list-insert bytes_dec s.session_id sid (swap_remove subs j) r.sessions,
    occurrences-swap_remove (is_text at) subs j g,
    h.single sid at,
    h.agree sid at,
  )

-- On a consistent registry, after `Unsubscribe` of one subject a session is subscribed to a subject
-- exactly if it was before and the pair is not the one that was taken off.
pub is_subscribed-unsubscribe :
    (s : Subscription) (unsub : Bytes) (r : Registry) (sid at : Bytes)
    → IsConsistent r
    → is_subscribed (unsubscribe s (unsub ∷ []) r) sid at
      ≡ (is_subscribed r sid at && not (of_session sid s && is_text at unsub))
is_subscribed-unsubscribe s unsub r sid at h = ground (
  arith,
  is_subscribed-on_subject r sid at,
  is_subscribed-on_subject (unsubscribe s (unsub ∷ []) r) sid at,
  on_subject-Left s unsub r h sid at _ (unsubscribe-Left s unsub r h),
)

Left-occupied :
    (s : Subscription) (unsub : Bytes) (r : Registry) (at : Bytes)
    → IsConsistent r
    → (out : Registry) → Left s unsub r out
    → lookup bytes_dec at out.subjects ≢ some []
Left-occupied s unsub r at h out (inl (e, c)) = rw e (h.occupied at)
Left-occupied s unsub r at h out (inr (subs, j, e, g, o)) =
    rw o (drop_subject-occupied s.session_id unsub at r.subjects (h.occupied at))

-- `Unsubscribe` of one subject keeps the two maps in step and leaves no subject with an empty list.
pub unsubscribe-IsConsistent :
    (s : Subscription) (unsub : Bytes) (r : Registry)
    → IsConsistent r
    → IsConsistent (unsubscribe s (unsub ∷ []) r)
unsubscribe-IsConsistent s unsub r h =
    let left = unsubscribe-Left s unsub r h in
    record {
      agree = λ sid at. ground (
        arith,
        h.agree sid at,
        on_subject-Left s unsub r h sid at _ left,
        in_session-Left s unsub r h sid at _ left,
      );
      single = λ sid at. ground (arith, h.single sid at, on_subject-Left s unsub r h sid at _ left);
      occupied = λ at. Left-occupied s unsub r at h _ left;
    }

lookup-drop_subject_ne :
    (sid subject at : Bytes) (m : Map Bytes (List Subscription))
    → at ≢ subject
    → lookup bytes_dec at (drop_subject sid subject m) ≡ lookup bytes_dec at m
unfolding drop_subject
lookup-drop_subject_ne sid subject at m h = elim (Option-cases (lookup bytes_dec subject m)) [
  | inl e ↦ rw (e, drop_subject)
  | inr (subs, e) ↦
      rw (e, drop_subject) (lookup-store_subs_ne subject at (remove_session sid subs) m h)
]

-- The registry after the first of two removals, and the array that the second one walks.
abbrev after_first : Bytes → Bytes → Bytes → Bytes → Registry → Scan
after_first sid a b c r = record {
  subs = c ∷ b ∷ c ∷ [];
  registry = record {
    subjects = drop_subject sid a r.subjects;
    sessions = insert bytes_dec sid (c ∷ b ∷ []) r.sessions;
  };
}

first_scan :
    (sid a b c : Bytes) (r : Registry) {la : List Subscription}
    → lookup bytes_dec a r.subjects ≡ some la
    → scan_subs sid a 3 0 (record { subs = a ∷ b ∷ c ∷ []; registry = r }) ≡ after_first sid a b c r
unfolding scan_subs
first_scan sid a b c r fa = rw (
  if_pos (bytes_dec a a) refl,
  remove_at-removed sid a 0 (record { subs = a ∷ b ∷ c ∷ []; registry = r }) fa,
)

second_scan_at :
    (sid a b c : Bytes) (r : Registry) {lb : List Subscription}
    → a ≢ b
    → b ≢ c
    → lookup bytes_dec b r.subjects ≡ some lb
    → scan_subs sid b 3 0 (after_first sid a b c r) ≡ removed sid b 1 (after_first sid a b c r)
unfolding scan_subs
second_scan_at sid a b c r ab bc fb =
    let f : lookup bytes_dec b (after_first sid a b c r).registry.subjects ≡ some _ =
      lookup-drop_subject_ne sid a b r.subjects (λ e. ab (sym e)) ∙ fb in
    rw (if_neg (bytes_dec c b) (λ e. bc (sym e))) (
      rw (if_pos (bytes_dec b b) refl) (rw (remove_at-removed sid b 1 (after_first sid a b c r) f)))

second_scan :
    (sid a b c : Bytes) (r : Registry) {lb : List Subscription}
    → a ≢ b
    → b ≢ c
    → lookup bytes_dec b r.subjects ≡ some lb
    → (scan_subs sid b 3 0 (after_first sid a b c r)).registry.sessions
      ≡ insert bytes_dec sid (c ∷ c ∷ []) (insert bytes_dec sid (c ∷ b ∷ []) r.sessions)
second_scan sid a b c r ab bc fb =
    ap (λ (sc : Scan). sc.registry.sessions) (second_scan_at sid a b c r ab bc fb)

-- `Unsubscribe` of two subjects works on the slice of before the first removal. Where the session
-- has three distinct subjects and the first two go, the third is listed twice afterwards.
pub unsubscribe_two_stale :
    (s : Subscription) (a b c : Bytes) (r : Registry) {la lb : List Subscription}
    → a ≢ b
    → b ≢ c
    → lookup bytes_dec s.session_id r.sessions ≡ some (a ∷ b ∷ c ∷ [])
    → lookup bytes_dec a r.subjects ≡ some la
    → lookup bytes_dec b r.subjects ≡ some lb
    → get_list bytes_dec s.session_id (unsubscribe s (a ∷ b ∷ []) r).sessions ≡ c ∷ c ∷ []
unfolding unsubscribe
unsubscribe_two_stale s a b c r ab bc e fa fb =
    rw (e, unsubscribe)
      (rw (first_scan s.session_id a b c r fa) (
        rw (second_scan s.session_id a b c r ab bc fb) (
          ground (
            arith,
            get_list-insert bytes_dec s.session_id s.session_id (c ∷ c ∷ [])
                (insert bytes_dec s.session_id (c ∷ b ∷ []) r.sessions),
          ))))
