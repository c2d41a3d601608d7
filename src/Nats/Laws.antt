-- ===== src/Nats/Laws.antt =====
-- internal/nats/subscription.go: what keeps `subjects` and `sessions` in step.
use event_api.Base.{
  ℕ, zero, suc, ◌-◌, ◌≤◌, ◌≡◌, refl, ◌≢◌, ◌⊎◌, inl, inr, ite, List, [], ◌∷◌, none, some, Bool, true,
  false, Bytes, bytes_dec, Map, lookup, get_list, get_elem?, occurrences, Option-cases,
  occurrences-swap_remove, lookup-insert, lookup-delete, get_list-insert, get_list-delete, arith,
}
use event_api.Nats.{
  Subscription, Registry, has_session, index_session, remove_session, store_subs, drop_subject,
}

-- The tests by which the two maps are counted.
abbrev pub of_session : Bytes → Subscription → Bool
of_session sid s = ite (bytes_dec s.session_id sid) true false

abbrev pub is_text : Bytes → Bytes → Bool
is_text t u = ite (bytes_dec u t) true false

-- How often a session stands on a subject's list, and a subject on a session's list.
abbrev pub on_subject : Bytes → Bytes → Map Bytes (List Subscription) → ℕ
on_subject sid subject m = occurrences (of_session sid) (get_list bytes_dec subject m)

abbrev pub in_session : Bytes → Bytes → Map Bytes (List Bytes) → ℕ
in_session sid subject m = occurrences (is_text subject) (get_list bytes_dec sid m)

pub record IsConsistent (r : Registry) : Type 0 where
  pub agree :
      (sid subject : Bytes) → on_subject sid subject r.subjects ≡ in_session sid subject r.sessions
  pub single : (sid subject : Bytes) → on_subject sid subject r.subjects ≤ 1
  pub occupied : (subject : Bytes) → lookup bytes_dec subject r.subjects ≢ some []

-- A number as a flag.
abbrev pub positive : ℕ → Bool
positive zero = false
positive (suc n) = true

pub has_session-occurrences :
    (sid : Bytes) (subs : List Subscription)
    → has_session sid subs ≡ positive (occurrences (of_session sid) subs)
unfolding has_session occurrences
has_session-occurrences sid [] = refl
has_session-occurrences sid (s ∷ subs) = ground (arith, has_session-occurrences sid subs)

index_session-cases :
    (sid : Bytes) (subs : List Subscription)
    → ((index_session sid subs ≡ none) × (occurrences (of_session sid) subs ≡ 0))
      ⊎ ((i : ℕ) × (s : Subscription) × (index_session sid subs ≡ some i)
          × (get_elem? subs i ≡ some s)
          × (s.session_id ≡ sid))
unfolding index_session occurrences
index_session-cases sid [] = inl (refl, refl)
index_session-cases sid (s ∷ subs) = elim (bytes_dec s.session_id sid) [
  | yes here ↦ inr (0, s, ground arith, refl, here)
  | no there ↦ elim (index_session-cases sid subs) [
    | inl (e, c) ↦ inl (ground arith, ground arith)
    | inr (i, t, e, g, h) ↦ inr (suc i, t, ground arith, g, h)
  ]
]

-- Taking a session off a list lowers its count by one, down to 0, and no other count.
pub occurrences-remove_session :
    (sid other : Bytes) (subs : List Subscription)
    → occurrences (of_session other) (remove_session sid subs)
      ≡ ite
          (bytes_dec other sid)
          (occurrences (of_session other) subs - 1)
          (occurrences (of_session other) subs)
occurrences-remove_session sid other subs = elim (index_session-cases sid subs) [
  | inl (e, c) ↦ rw (e, remove_session) (ground (arith, c))
  | inr (i, s, e, g, h) ↦
      rw (e, remove_session)
        (ground (arith, g, h, occurrences-swap_remove (of_session other) subs i g))
]

get_list-store_subs :
    (subject other : Bytes) (subs : List Subscription) (m : Map Bytes (List Subscription))
    → get_list bytes_dec other (store_subs subject subs m)
      ≡ ite (bytes_dec other subject) subs (get_list bytes_dec other m)
get_list-store_subs subject other [] m = get_list-delete bytes_dec subject other m
get_list-store_subs subject other (s ∷ subs) m =
    get_list-insert bytes_dec subject other (s ∷ subs) m

-- After `drop_subject` exactly one count has fallen, by one, down to 0.
pub on_subject-drop_subject :
    (sid subject other at : Bytes) (m : Map Bytes (List Subscription))
    → on_subject other at (drop_subject sid subject m)
      ≡ ite
          (bytes_dec at subject)
          (ite (bytes_dec other sid) (on_subject other at m - 1) (on_subject other at m))
          (on_subject other at m)
unfolding drop_subject occurrences
on_subject-drop_subject sid subject other at m = elim (Option-cases (lookup bytes_dec subject m)) [
  | inl e ↦ rw (e, drop_subject) (ground (arith, e))
  | inr (subs, e) ↦
      rw (e, drop_subject)
        (ground (
          arith,
          get_list-store_subs subject at (remove_session sid subs) m,
          occurrences-remove_session sid other subs,
        ))
]

pub lookup-store_subs_ne :
    (subject at : Bytes) (subs : List Subscription) (m : Map Bytes (List Subscription))
    → at ≢ subject
    → lookup bytes_dec at (store_subs subject subs m) ≡ lookup bytes_dec at m
lookup-store_subs_ne subject at [] m h = ground (arith, lookup-delete bytes_dec subject at m)
lookup-store_subs_ne subject at (s ∷ subs) m h =
    ground (arith, lookup-insert bytes_dec subject at (s ∷ subs) m)

store_subs-occupied :
    (subject at : Bytes) (subs : List Subscription) (m : Map Bytes (List Subscription))
    → lookup bytes_dec at m ≢ some []
    → lookup bytes_dec at (store_subs subject subs m) ≢ some []
store_subs-occupied subject at [] m h = ground (arith, lookup-delete bytes_dec subject at m)
store_subs-occupied subject at (s ∷ subs) m h =
    ground (arith, lookup-insert bytes_dec subject at (s ∷ subs) m)

-- No subject is left with an empty list.
pub drop_subject-occupied :
    (sid subject at : Bytes) (m : Map Bytes (List Subscription))
    → lookup bytes_dec at m ≢ some []
    → lookup bytes_dec at (drop_subject sid subject m) ≢ some []
unfolding drop_subject
drop_subject-occupied sid subject at m h = elim (Option-cases (lookup bytes_dec subject m)) [
  | inl e ↦ rw (e, drop_subject) h
  | inr (subs, e) ↦
      rw (e, drop_subject) (store_subs-occupied subject at (remove_session sid subs) m h)
]
