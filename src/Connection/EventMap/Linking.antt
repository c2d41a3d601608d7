-- ===== src/Connection/EventMap/Linking.antt =====
-- internal/app/connection/connection.go with internal/nats/subscription.go: the dispatch keys of the
-- entries of an event map in the registry.
pub mod Steps
pub mod Calls
pub mod Histories
use event_api.Base.{
  ℕ, ◌≡◌, refl, ◌≢◌, ◌<◌, ◌≤◌, inl, inr, List, [], ◌∷◌, ◌++◌, Option, none, some, Bool, true, false,
  ite, Bytes, lookup, bytes_dec, occurrences, occurrences-append, if_pos, if_neg, arith, ap, sym,
  ◌∙◌, is_listed, subst,
}
use event_api.Nats
use event_api.Nats.{Registry, is_subscribed}
use event_api.Nats.Laws.{IsConsistent, is_text, of_session}
use event_api.Nats.Subscribing.{is_subscribed-subscribe, subscribe-IsConsistent}
use event_api.Nats.Unsubscribing.{is_subscribed-unsubscribe, unsubscribe-IsConsistent}
use event_api.Connection.Types.{Env, EnvLaws, EventCondition}
use event_api.Connection.EventMap.{EventMap}
use event_api.Connection.EventMap.View.{entries_at, Entry, IsValid, view, find_entry}

module _ {S : Type 0} (env : Env S) where
  -- How many of the entries of a type have a dispatch key.
  abbrev pub has_key : Bytes → Bytes → Entry → Bool
  has_key k t en = is_text k (env.dispatch_key t en.condition)

  abbrev pub with_key : Bytes → Bytes → List Entry → ℕ
  with_key k t es = occurrences (has_key k t) es

  -- Two conditions have one dispatch key only if their types are equal and the first matches the
  -- second.
  pub record KeyLaws : Type 0 where
    pub tells :
        (t u : Bytes) (c d : EventCondition)
        → env.dispatch_key t c ≡ env.dispatch_key u d
        → (t ≡ u) × (env.cond_match c d ≡ true)

  -- A valid event map and a consistent registry, where no two entries have the same dispatch key, and
  -- the session is subscribed to the key of each; if `exact` is set, it is subscribed to nothing else.
  pub record IsLinked (exact : Bool) (e : EventMap) (r : Registry) : Type 0 where
    pub valid : IsValid e
    pub consistent : IsConsistent r
    pub single : (t k : Bytes) → with_key k t (view e t) ≤ 1
    pub linked :
        (t k : Bytes)
        → 0 < with_key k t (view e t)
        → is_subscribed r e.subscription.session_id k ≡ true
    pub only :
        exact ≡ true
        → (k : Bytes) → is_subscribed r e.subscription.session_id k ≡ true
        → (t : Bytes) × (0 < with_key k t (view e t))

  pub empty-IsLinked :
      (exact : Bool) (e : EventMap) (r : Registry)
      → e.m ≡ []
      → IsConsistent r
      → ((k : Bytes) → is_subscribed r e.subscription.session_id k ≡ false)
      → IsLinked exact e r
  unfolding occurrences lookup
  empty-IsLinked exact e r empty c free =
      let none_at =
        λ (t k : Bytes). ap (λ m. with_key k t (entries_at (lookup bytes_dec t m))) empty in
      record {
        valid = record { channels = rw empty tt };
        consistent = c;
        single = λ t k. omega (arith, none_at t k);
        linked = λ t k h. absurd (omega (arith, none_at t k, h));
        only = λ x k h. absurd (ground (arith, free k, h));
      }

  -- An entry with the key.
  with_key-entry :
      (k t : Bytes) (es : List Entry)
      → 0 < with_key k t es
      → (c : EventCondition) × (env.dispatch_key t c ≡ k)
  unfolding occurrences
  with_key-entry k t [] h = absurd (omega arith)
  with_key-entry k t (en ∷ es) h = elim (bytes_dec (env.dispatch_key t en.condition) k) [
    | yes p ↦ (en.condition, p)
    | no n ↦ with_key-entry k t es (ground arith)
  ]

  module _ (keys : KeyLaws) where
    -- Where nothing matches, no entry has the key.
    pub with_key-find_entry :
        (t : Bytes) (cond : EventCondition) (es : List Entry)
        → find_entry env cond es ≡ none
        → with_key (env.dispatch_key t cond) t es ≡ 0
    unfolding find_entry occurrences
    with_key-find_entry t cond [] h = refl
    with_key-find_entry t cond (en ∷ es) h =
        elim (bytes_dec (env.dispatch_key t en.condition) (env.dispatch_key t cond)) [
          | yes p ↦ let hit = (keys.tells t t en.condition cond p).1 in absurd (ground arith)
          | no n ↦ ground (arith, with_key-find_entry t cond es)
        ]

    -- Entries of different types have different keys.
    pub key_apart :
        (k t u : Bytes) (c : EventCondition) (es : List Entry)
        → u ≢ t
        → 0 < with_key k u es
        → env.dispatch_key t c ≢ k
    key_apart k t u c es n h p =
        let (d, q) = with_key-entry k u es h in n (keys.tells u t d c (q ∙ sym p)).0
