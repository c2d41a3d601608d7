-- ===== src/Connection/Handler/Once.antt =====
-- internal/app/connection/handle.go with internal/app/connection/cache.go: the hash of a dispatch between
-- two dispatches that carry it.
use event_api.Base.{
  ℕ, ◌≡◌, refl, ◌⊎◌, inl, inr, List, [], ◌∷◌, Option, none, some, Bool, true, false, if◌then◌else◌,
  arith, All, sym, subst, ◌∙◌,
}
use event_api.Connection.Types.{Env, EnvLaws, DispatchPayload}
use event_api.Connection.Cache.{has_dispatch}
use event_api.Connection.Buffer.{EventBuffer, push}
use event_api.Connection.EventMap.View.{IsValid}
use event_api.Connection.Session.{Session, Connection, ConnectionLaws}
use event_api.Connection.Handler.Dispatching.{
  filter_dispatch, dedupe, apply_effect, deliver, on_dispatch, dispatch_message,
}
use event_api.Connection.Handler.Lifting.{Holds, Holds-then}
use event_api.Connection.Handler.Safety.{on_dispatch-IsHandled}
use event_api.Connection.Handler.Hashes.{
  Spares, apply_effect-Knows, dedupe-Knows, dedupe-own, dedupe-stale,
}

module _ {S : Type 0} (env : Env S) where
  -- The dispatches of a history, each at its time.
  unfoldable pub dispatch_each :
      Connection S → List (ℕ × DispatchPayload) → Session S → Option (Session S)
  dispatch_each conn [] s = some s
  dispatch_each conn (d ∷ ds) s = elim (on_dispatch env conn d.0 d.1 s) [
    | none ↦ none
    | some s' ↦ dispatch_each conn ds s'
  ]

module _ {S : Type 0} (env : Env S) (sets : EnvLaws env) (h : ℕ) where
  -- The session has seen the hash.
  abbrev Known : Session S → Type 0
  Known s = has_dispatch env h s.cache ≡ true

  module _ (conn : Connection S) (laws : ConnectionLaws conn) where
    deliver-Knows :
        (p : DispatchPayload) (matches : List ℕ) (s : Session S)
        → Known s
        → Known (deliver env conn p matches s)
    unfolding deliver
    deliver-Knows p matches s k = go s.buffer
      where
        go :
            (b : Option EventBuffer)
            → Known (elim b as (λ _. Session S) [
              | some b ↦ record s { buffer = some (push p b).0 }
              | none ↦ (conn.write (dispatch_message env conn p matches) s).0
            ])
        go none = rw (laws.write_core (dispatch_message env conn p matches) s).cache k
        go (some b) = k

    -- What follows the filter.
    abbrev passed : ℕ → DispatchPayload → List ℕ → Session S × Bool → Option (Session S)
    passed now p matches q =
        if q.1
        then elim (apply_effect env now p.effect q.0) as (λ _. Option (Session S)) [
          | none ↦ none
          | some s'' ↦ some (deliver env conn p matches s'')
        ]
        else some q.0

    passed-Knows :
        (now : ℕ) (p : DispatchPayload) (matches : List ℕ) (q : Session S × Bool)
        → Spares h p.effect
        → Known q.0
        → Holds Known (passed now p matches q)
    passed-Knows now p matches (s, true) e k =
        Holds-then Known Known (apply_effect env now p.effect s)
          (λ s''. some (deliver env conn p matches s''))
          (apply_effect-Knows env sets h now p.effect s e k)
          (λ s'' k'. deliver-Knows p matches s'' k')
    passed-Knows now p matches (s, false) e k = k

    -- The run of a dispatch past its filter, or a skip.
    abbrev filtered :
        ℕ → DispatchPayload → Session S → Option (Option (List ℕ)) → Option (Session S)
    filtered now p s f = elim f as (λ _. Option (Session S)) [
      | none ↦ none
      | some none ↦ some s
      | some (some matches) ↦ passed now p matches (dedupe env p.hash s)
    ]

    filtered-Knows :
        (now : ℕ) (p : DispatchPayload) (s : Session S) (f : Option (Option (List ℕ)))
        → Spares h p.effect
        → Known s
        → Holds Known (filtered now p s f)
    filtered-Knows now p s none e k = tt
    filtered-Knows now p s (some none) e k = k
    filtered-Knows now p s (some (some matches)) e k =
        passed-Knows now p matches (dedupe env p.hash s) e (dedupe-Knows env sets h p.hash s k)

    -- A dispatch with the hash is skipped, or the hash is known afterwards.
    filtered-first :
        (now : ℕ) (p : DispatchPayload) (s : Session S) (f : Option (Option (List ℕ)))
        → p.hash ≡ some h
        → Spares h p.effect
        → Holds (λ s'. (s'.sent ≡ s.sent) ⊎ Known s') (filtered now p s f)
    filtered-first now p s none named e = tt
    filtered-first now p s (some none) named e = inl refl
    filtered-first now p s (some (some matches)) named e =
        weaken (passed now p matches (dedupe env p.hash s)) (
          passed-Knows now p matches (dedupe env p.hash s) e
            (subst (λ x. Known (dedupe env x s).0) (sym named) (dedupe-own env sets h s)))
      where
        weaken :
            (o : Option (Session S)) → Holds Known o → Holds (λ s'. (s'.sent ≡ s.sent) ⊎ Known s') o
        weaken none k = tt
        weaken (some s') k = inr k

    -- Where the hash is known nothing is sent.
    filtered-again :
        (now : ℕ) (p : DispatchPayload) (s : Session S) (f : Option (Option (List ℕ)))
        → p.hash ≡ some h
        → Known s
        → Holds (λ s'. s'.sent ≡ s.sent) (filtered now p s f)
    filtered-again now p s none named k = tt
    filtered-again now p s (some none) named k = refl
    filtered-again now p s (some (some matches)) named k =
        let stale = dedupe-stale env sets h s k in
        rw named (go (dedupe env (some h) s) stale.0 stale.1)
      where
        go :
            (q : Session S × Bool)
            → q.1 ≡ false
            → q.0.sent ≡ s.sent
            → Holds (λ s'. s'.sent ≡ s.sent) (passed now p matches q)
        go (s', true) e same = absurd (ground arith)
        go (s', false) e same = same

    -- What holds of a run holds of the session that it leaves.
    left :
        (P : Session S → Type 0) {o : Option (Session S)} {s' : Session S}
        → o ≡ some s'
        → Holds P o
        → P s'
    left P run k = subst (Holds P) run k

    on_dispatch-filtered :
        (now : ℕ) (p : DispatchPayload) (s : Session S)
        → on_dispatch env conn now p s ≡ filtered now p s (filter_dispatch env p s)
    unfolding on_dispatch
    on_dispatch-filtered now p s = refl

    dispatch_each-Knows :
        (ds : List (ℕ × DispatchPayload)) (s : Session S)
        → All (λ d. Spares h d.1.effect) ds
        → IsValid s.events
        → (s' : Session S) × (dispatch_each env conn ds s ≡ some s')
          × IsValid s'.events
          × (Known s → Known s')
    unfolding dispatch_each
    dispatch_each-Knows [] s spare v = (s, refl, v, λ k. k)
    dispatch_each-Knows (d ∷ ds) s spare v =
        let one = on_dispatch-IsHandled env sets conn laws d.0 d.1 s v in
        let (s', run, v', keeps) = dispatch_each-Knows ds one.after spare.1 one.valid in
        (
          s',
          rw (one.returns, dispatch_each) run,
          v',
          λ k. keeps (
              left Known (sym (on_dispatch-filtered d.0 d.1 s) ∙ one.returns)
                (filtered-Knows d.0 d.1 s (filter_dispatch env d.1 s) spare.0 k)),
        )

    -- Over a transport that keeps the laws of `Connection`, from a valid event map: of two dispatches with
    -- one hash at most one is sent, whatever their types, conditions, whispers, bodies and times, and
    -- whatever other dispatches come in between, as long as neither the effect of the first nor that of
    -- one in between removes the hash. All of them run without a panic, and either the first sends
    -- nothing, or the second does.
    pub on_dispatch_once :
        (now now' : ℕ) (p p' : DispatchPayload) (between : List (ℕ × DispatchPayload))
        (s : Session S)
        → p.hash ≡ some h
        → p'.hash ≡ some h
        → Spares h p.effect
        → All (λ d. Spares h d.1.effect) between
        → IsValid s.events
        → (s1 : Session S) × (s2 : Session S) × (s3 : Session S) × (on_dispatch env conn now p s
            ≡ some s1)
          × (dispatch_each env conn between s1 ≡ some s2)
          × (on_dispatch env conn now' p' s2 ≡ some s3)
          × ((s1.sent ≡ s.sent) ⊎ (s3.sent ≡ s2.sent))
    on_dispatch_once now now' p p' between s named named' spare spares v =
        let one = on_dispatch-IsHandled env sets conn laws now p s v in
        let (s2, run, v2, keeps) = dispatch_each-Knows between one.after spares one.valid in
        let two = on_dispatch-IsHandled env sets conn laws now' p' s2 v2 in
        (
          one.after,
          s2,
          two.after,
          one.returns,
          run,
          two.returns,
          elim (left (λ s'. (s'.sent ≡ s.sent) ⊎ Known s')
              (sym (on_dispatch-filtered now p s) ∙ one.returns)
              (filtered-first now p s (filter_dispatch env p s) named spare)) [
                | inl silent ↦ inl silent
                | inr known ↦ inr (
                    left (λ s'. s'.sent ≡ s2.sent)
                      (sym (on_dispatch-filtered now' p' s2) ∙ two.returns)
                      (filtered-again now' p' s2 (filter_dispatch env p' s2) named' (keeps known)))
              ],
        )
