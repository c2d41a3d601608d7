-- ===== src/Nats/Scanning.antt =====
-- internal/nats/subscription.go: the inner loop of `Unsubscribe` over the local slice.
use event_api.Base.{
  ℕ, subst, ℕ_discrete, zero, suc, ◌+◌, ◌≤◌, ◌<◌, ◌≡◌, refl, ◌≢◌, ◌⊎◌, if_pos, if_neg, List, [],
  ◌∷◌, true, Bytes, bytes_dec, insert, lookup, get_elem?, length, move_last, swap_remove,
  occurrences, Option-cases, some, arith, inl, inr,
}
use event_api.Nats.{Subscription, Scan, remove_at, scan_subs, drop_subject}
use event_api.Nats.Laws.{is_text}

-- Where the scan stops: at the first position that holds the subject, or nowhere.
abbrev pub Stops : Bytes → Bytes → ℕ → ℕ → Scan → Scan → Type 0
Stops sid unsub k i sc out =
    ((out ≡ sc) × ((j : ℕ) → i ≤ j → j < i + k → get_elem? sc.subs j ≢ some unsub))
    ⊎ ((j : ℕ) × (get_elem? sc.subs j ≡ some unsub) × (out ≡ (remove_at sid unsub j sc).0))

Stops-later :
    (sid unsub : Bytes) (k i : ℕ) (sc out : Scan)
    → get_elem? sc.subs i ≢ some unsub
    → Stops sid unsub k (suc i) sc out
    → Stops sid unsub (suc k) i sc out
Stops-later sid unsub k i sc out h (inl (e, none_later)) = inl (
  e,
  λ j p q. elim (ℕ_discrete i j) [
    | yes here ↦ subst (λ n. get_elem? sc.subs n ≢ some unsub) here h
    | no there ↦ none_later j (omega arith) (omega arith)
  ],
)
Stops-later sid unsub k i sc out h (inr found) = inr found

-- What `remove_at` leaves where the subject has an entry.
abbrev pub removed : Bytes → Bytes → ℕ → Scan → Scan
removed sid unsub i sc = record {
  subs = move_last sc.subs i;
  registry = record {
    subjects = drop_subject sid unsub sc.registry.subjects;
    sessions = insert bytes_dec sid (swap_remove sc.subs i) sc.registry.sessions;
  };
}

pub remove_at-removed :
    (sid unsub : Bytes) (i : ℕ) (sc : Scan) {l : List Subscription}
    → lookup bytes_dec unsub sc.registry.subjects ≡ some l
    → remove_at sid unsub i sc ≡ (removed sid unsub i sc, true)
unfolding remove_at
remove_at-removed sid unsub i sc e = rw (e, remove_at)

pub scan_subs-Stops :
    (sid unsub : Bytes) (k i : ℕ) (sc : Scan) {l : List Subscription}
    → lookup bytes_dec unsub sc.registry.subjects ≡ some l
    → Stops sid unsub k i sc (scan_subs sid unsub k i sc)
unfolding scan_subs
scan_subs-Stops sid unsub zero i sc e = inl (refl, λ j p q. absurd (omega arith))
scan_subs-Stops sid unsub (suc k) i sc e = elim (Option-cases (get_elem? sc.subs i)) [
  | inl out ↦
      rw (out, scan_subs)
        (Stops-later sid unsub k i sc _ (λ g. cc) (scan_subs-Stops sid unsub k (suc i) sc e))
  | inr (t, here) ↦ elim (bytes_dec t unsub) [
    | yes p ↦ inr (
      i,
      ground arith,
      rw (here, scan_subs) (rw (if_pos _ p, remove_at-removed sid unsub i sc e)),
    )
    | no p ↦
        rw (here, scan_subs)
          (rw (if_neg _ p) (
            Stops-later sid unsub k i sc _ (λ g. p (ground arith))
              (scan_subs-Stops sid unsub k (suc i) sc e)))
  ]
]

pub scan_subs_absent :
    (sid unsub : Bytes) (k i : ℕ) (sc : Scan)
    → ((j : ℕ) → get_elem? sc.subs j ≢ some unsub)
    → scan_subs sid unsub k i sc ≡ sc
unfolding scan_subs
scan_subs_absent sid unsub zero i sc h = refl
scan_subs_absent sid unsub (suc k) i sc h = elim (Option-cases (get_elem? sc.subs i)) [
  | inl out ↦ rw (out, scan_subs) (scan_subs_absent sid unsub k (suc i) sc h)
  | inr (t, here) ↦ elim (bytes_dec t unsub) [
    | yes p ↦ absurd (h i (ground arith))
    | no p ↦ rw (here, scan_subs) (rw (if_neg _ p) (scan_subs_absent sid unsub k (suc i) sc h))
  ]
]

pub no_position :
    (t : Bytes) (subs : List Bytes)
    → ((j : ℕ) → 0 ≤ j → j < 0 + length subs → get_elem? subs j ≢ some t)
    → occurrences (is_text t) subs ≡ 0
unfolding occurrences
no_position t [] h = refl
no_position t (u ∷ subs) h =
    ground (arith, h 0, no_position t subs (λ j p q. h (suc j) (omega arith) (omega arith)))
