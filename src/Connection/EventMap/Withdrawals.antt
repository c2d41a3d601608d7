-- ===== src/Connection/EventMap/Withdrawals.antt =====
-- internal/app/connection/connection.go: what `EventMap.Unsubscribe` promises of its outcome.
use event_api.Base.{
  ◌≡◌, refl, ◌≢◌, inl, inr, List, [], ◌∷◌, Option, none, some, true, false, ite, Bytes, bytes_dec,
  if◌then◌else◌, Bool-cases, ap, sym, ◌∙◌,
}
use event_api.Nats
use event_api.Nats.{Registry}
use event_api.Connection.Types.{Env, EventCondition}
use event_api.Connection.EventMap.{
  EventChannel, EventMap, Error, not_subscribed, Outcome, match_index, is_nil,
}
use event_api.Connection.EventMap.View.{
  Entry, channel_entries, view, IsChannel, IsValid, find_entry, entry_ids, entry_conditions,
}

pub entry_ids-nil : (es : List Entry) → is_nil (entry_ids es) ≡ is_nil es
entry_ids-nil [] = refl
entry_ids-nil (en ∷ es) = refl

pub nil_of : (es : List Entry) → is_nil es ≡ true → es ≡ []
nil_of [] h = refl
nil_of (en ∷ es) h = cc

pub ne_nil_of : (es : List Entry) → is_nil es ≡ false → es ≢ []
ne_nil_of [] h = λ _. cc
ne_nil_of (en ∷ es) h = λ p. cc

module _ {S : Type 0} (env : Env S) where
  -- The entries of a type after `Unsubscribe` with a condition: without the first that matches.
  abbrev pub without : EventCondition → List Entry → List Entry
  without cond es = elim (match_index env cond (entry_conditions es)) [
    | none ↦ es
    | some i ↦ env.slice_remove Entry es i
  ]

  abbrev pub left_entries : EventCondition → List Entry → List Entry
  left_entries cond es = if is_nil cond then [] else without cond es

  -- Its error and its registry, by what there was.
  abbrev pub refusal : EventCondition → List Entry → Option Error
  refusal cond es =
      if is_nil cond
      then (if is_nil es then some not_subscribed else none)
      else elim (find_entry env cond es) [ none ↦ some not_subscribed | some _ ↦ none ]

  abbrev pub unlinked : Bytes → EventCondition → List Entry → EventMap → Registry → Registry
  unlinked t cond es e r = if is_nil cond then r else elim (find_entry env cond es) [
    | none ↦ r
    | some en ↦ Nats.unsubscribe e.subscription (env.dispatch_key t en.condition ∷ []) r
  ]

  -- What a run of `Unsubscribe` promises of its outcome.
  pub record Unsubscribed (t : Bytes) (cond : EventCondition) (e : EventMap) (r : Registry)
      (o : Outcome) : Type 0 where
    pub valid : IsValid o.events
    pub views :
        (u : Bytes)
        → view o.events u ≡ ite (bytes_dec u t) (left_entries cond (view e t)) (view e u)
    pub answers : o.error ≡ refusal cond (view e t)
    pub links : o.registry ≡ unlinked t cond (view e t) e r
    pub counts : o.events.count ≡ e.count
    pub keeps_link : o.events.subscription ≡ e.subscription

pub is_nil-filled : {ec : EventChannel} → IsChannel ec → is_nil (channel_entries ec) ≡ false
is_nil-filled {ec} h = elim (Bool-cases (is_nil (channel_entries ec))) [
  | inl empty ↦ absurd (h.filled (nil_of (channel_entries ec) empty))
  | inr more ↦ more
]

pub ite_stale_at :
    (v : Bytes → List Entry) {u t : Bytes} {l : List Entry} (d : Dec (u ≡ t))
    → l ≡ v t
    → v u ≡ ite d l (v u)
ite_stale_at v (yes p) h = ap v p ∙ sym h
ite_stale_at v (no p) h = refl
