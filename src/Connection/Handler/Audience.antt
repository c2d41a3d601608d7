-- ===== src/Connection/Handler/Audience.antt =====
-- internal/app/connection/handle.go: which dispatches `OnDispatch` sends.
use event_api.Base.{
  ℕ, ◌≡◌, refl, ◌≢◌, inl, inr, List, [], ◌∷◌, none, some, false, Bytes, if◌then◌else◌, ite,
  bytes_dec, Option-cases, Bool-cases, arith, if_pos, if_neg, ◌∙◌,
}
use event_api.Connection.Types.{Env, EnvLaws, DispatchPayload, contains}
use event_api.Connection.EventMap.{is_nil}
use event_api.Connection.EventMap.View.{IsValid}
use event_api.Connection.EventMap.Lookup.{get}
use event_api.Connection.EventMap.Conditions.{is_hit}
use event_api.Connection.EventMap.Matching.{reached, reached-is_hit, audience}
use event_api.Connection.Session.{Session, Connection}
use event_api.Connection.Handler.Dispatching.{
  filter_dispatch, dedupe, apply_effect, deliver, on_dispatch,
}

module _ {S : Type 0} (env : Env S) (sets : EnvLaws env) where
  filter_dispatch_plain :
      (p : DispatchPayload) (s : Session S)
      → p.whisper ≡ []
      → IsValid s.events
      → (matches : List ℕ) × ((x : ℕ)
          → contains x matches ≡ is_hit env x p.conditions (audience env p.event_type s.events))
        × (filter_dispatch env p s ≡ some (if is_nil matches then none else some matches))
  unfolding filter_dispatch reached
  filter_dispatch_plain p s w v =
      let (out, run, hits) = reached-is_hit env sets p.event_type p.conditions s.events v in
      (
        out,
        hits,
        elim (Option-cases (get env p.event_type s.events)) [
          | inl absent ↦ ground arith
          | inr (ec, present) ↦ ground arith
        ],
      )

  whisper_named : (w : Bytes) → w ≢ [] → is_nil w ≡ false
  whisper_named [] h = absurd (h refl)
  whisper_named (c ∷ w) h = refl

  filter_whisper :
      (p : DispatchPayload) (s : Session S)
      → p.whisper ≢ []
      → filter_dispatch env p s
        ≡ ite (bytes_dec p.whisper s.session_id) (some (some [])) (some none)
  unfolding filter_dispatch
  filter_whisper p s w = rw (whisper_named p.whisper w, filter_dispatch) refl

  module _ (conn : Connection S) (now : ℕ) (p : DispatchPayload) (s : Session S)
      (plain : p.effect ≡ none) where
    -- What `OnDispatch` does past its filter, where there is no effect.
    abbrev pub sent_once : List ℕ → Session S
    sent_once matches =
        let (s', fresh) = dedupe env p.hash s in if fresh then deliver env conn p matches s' else s'

    on_dispatch_passed :
        (matches : List ℕ)
        → filter_dispatch env p s ≡ some (some matches)
        → on_dispatch env conn now p s ≡ some (sent_once matches)
    unfolding on_dispatch apply_effect
    on_dispatch_passed matches f = elim (Bool-cases (dedupe env p.hash s).1) [
      | inl fresh ↦ ground arith
      | inr stale ↦ ground arith
    ]

    on_dispatch_skipped :
        filter_dispatch env p s ≡ some none → on_dispatch env conn now p s ≡ some s
    unfolding on_dispatch
    on_dispatch_skipped f = rw (f, on_dispatch) refl

    on_dispatch_filtered :
        (matches : List ℕ)
        → filter_dispatch env p s ≡ some (if is_nil matches then none else some matches)
        → on_dispatch env conn now p s ≡ some (if is_nil matches then s else sent_once matches)
    on_dispatch_filtered [] f = on_dispatch_skipped f
    on_dispatch_filtered (x ∷ matches) f = on_dispatch_passed (x ∷ matches) f

    -- With no match nothing of the connection changes; otherwise the dispatch goes on to the dedupe.
    pub on_dispatch_plain :
        p.whisper ≡ []
        → IsValid s.events
        → (matches : List ℕ) × ((x : ℕ)
            → contains x matches ≡ is_hit env x p.conditions (audience env p.event_type s.events))
          × (on_dispatch env conn now p s ≡ some (if is_nil matches then s else sent_once matches))
    on_dispatch_plain w v =
        let (out, hits, f) = filter_dispatch_plain p s w v in
        (out, hits, on_dispatch_filtered out f)

    -- A whisper goes on to the dedupe exactly in the session that it names.
    pub on_dispatch_whisper :
        p.whisper ≢ []
        → on_dispatch env conn now p s
          ≡ some (ite (bytes_dec p.whisper s.session_id) (sent_once []) s)
    on_dispatch_whisper w = elim (bytes_dec p.whisper s.session_id) [
      | yes e ↦ rw (if_pos _ e) (
          on_dispatch_passed [] (
            filter_whisper p s w
            ∙ if_pos (bytes_dec p.whisper s.session_id) e (some (some [])) (some none)))
      | no n ↦ rw (if_neg _ n) (
          on_dispatch_skipped (
            filter_whisper p s w
            ∙ if_neg (bytes_dec p.whisper s.session_id) n (some (some [])) (some none)))
    ]
