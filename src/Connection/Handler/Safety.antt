-- ===== src/Connection/Handler/Safety.antt =====
-- internal/app/connection/handle.go: `OnDispatch` and `OnBridge` over any transport, before and after
-- the end of the connection.
use event_api.Base.{
  ℕ, ◌≡◌, refl, inl, inr, List, [], ◌∷◌, Option, none, some, true, Option-cases, Bool-cases, ap,
  sym, subst, ◌∙◌,
}
use event_api.Connection.Types.{Env, EnvLaws, RawMessage, DispatchPayload}
use event_api.Connection.EventMap.View.{IsValid}
use event_api.Connection.Session.{Session, Connection, ConnectionLaws}
use event_api.Connection.Handler.{failed, accepted}
use event_api.Connection.Handler.Dispatching.{
  deliver, dedupe, filter_dispatch, on_dispatch, dispatch_all, on_bridge, dispatch_message,
}
use event_api.Connection.Handler.Effects.{apply_effect-IsSilent, filter_dispatch_total}
use event_api.Connection.Handler.Answering.{IsMute, IsQuiet, after-IsQuiet, IsAnswered, IsHandled}

module _ {S : Type 0} (env : Env S) (sets : EnvLaws env) (conn : Connection S)
    (laws : ConnectionLaws conn) where
  deliver_ends :
      (p : DispatchPayload) (matches : List ℕ) (s : Session S)
      → ((deliver env conn p matches s).events ≡ s.events)
        × IsQuiet conn s (deliver env conn p matches s)
  unfolding deliver
  deliver_ends p matches s =
      let m = dispatch_message env conn p matches in
      elim (Option-cases s.buffer) [
        | inl live ↦
            rw (live, deliver)
              (
                (laws.write_core m s).events,
                λ mute ended. ((laws.write_core m s).done ∙ ended, mute.write_mute m s ended),
              )
        | inr (b, dead) ↦ rw (dead, deliver) (refl, λ mute ended. (ended, refl))
      ]

  dedupe_ends :
      (h : Option ℕ) (s : Session S)
      → ((dedupe env h s).0.events ≡ s.events)
        × ((dedupe env h s).0.done ≡ s.done)
        × ((dedupe env h s).0.sent ≡ s.sent)
  unfolding dedupe
  dedupe_ends none s = (refl, refl, refl)
  dedupe_ends (some h) s = (refl, refl, refl)

  go_on-IsHandled :
      (now : ℕ) (p : DispatchPayload) (matches : List ℕ) (s : Session S)
      → IsValid s.events
      → filter_dispatch env p s ≡ some (some matches)
      → IsHandled conn s (on_dispatch env conn now p s)
  unfolding on_dispatch
  go_on-IsHandled now p matches s v f =
      let s' : Session S = (dedupe env p.hash s).0 in
      let core = dedupe_ends p.hash s in
      let fx = apply_effect-IsSilent env sets now p.effect s' (subst IsValid (sym core.0) v) in
      let out = deliver_ends p matches fx.after in
      elim (Bool-cases (dedupe env p.hash s).1) [
        | inl fresh ↦ record {
          after = deliver env conn p matches fx.after;
          returns =
              rw (f, on_dispatch) (rw (fresh, on_dispatch) (rw (fx.returns, on_dispatch) refl));
          valid = subst IsValid (sym out.0) fx.valid;
          quiet =
              after-IsQuiet s fx.after (deliver env conn p matches fx.after) (fx.lives ∙ core.1)
                (fx.sent ∙ core.2) out.1;
        }
        | inr stale ↦ record {
          after = s';
          returns = rw (f, on_dispatch) (rw (stale, on_dispatch) refl);
          valid = subst IsValid (sym core.0) v;
          quiet = λ mute ended. (core.1 ∙ ended, core.2);
        }
      ]

  -- `OnDispatch` returns on every dispatch, keeps the event map valid, and is quiet.
  pub on_dispatch-IsHandled :
      (now : ℕ) (p : DispatchPayload) (s : Session S)
      → IsValid s.events
      → IsHandled conn s (on_dispatch env conn now p s)
  unfolding on_dispatch
  on_dispatch-IsHandled now p s v =
      let (found, f) = filter_dispatch_total env sets p s v in
      elim (Option-cases found) [
        | inl skip ↦ record {
          after = s;
          returns = rw (f, on_dispatch) (rw (skip, on_dispatch) refl);
          valid = v;
          quiet = λ mute ended. (ended, refl);
        }
        | inr (matches, pass) ↦ go_on-IsHandled now p matches s v (f ∙ ap some pass)
      ]

  dispatch_all-IsHandled :
      (now : ℕ) (ps : List DispatchPayload) (s : Session S)
      → IsValid s.events
      → IsHandled conn s (dispatch_all env conn now ps s)
  unfolding dispatch_all
  dispatch_all-IsHandled now [] s v = record {
    after = s;
    returns = refl;
    valid = v;
    quiet = λ mute ended. (ended, refl);
  }
  dispatch_all-IsHandled now (p ∷ ps) s v =
      let first = on_dispatch-IsHandled now p s v in
      let rest = dispatch_all-IsHandled now ps first.after first.valid in
      record {
        after = rest.after;
        returns = rw (first.returns, dispatch_all) rest.returns;
        valid = rest.valid;
        quiet = λ mute ended.
            let one = first.quiet mute ended in
            let two = rest.quiet mute one.0 in (two.0, two.1 ∙ one.1);
      }

  -- `OnBridge` returns on every message, keeps the event map valid, and is quiet.
  pub on_bridge-IsAnswered :
      (now : ℕ) (m : RawMessage) (s : Session S)
      → IsValid s.events
      → IsAnswered conn s (on_bridge env conn now m s)
  unfolding on_bridge
  on_bridge-IsAnswered now m s v = elim (Option-cases (env.bridge s.session_id m)) [
    | inl bad ↦ record {
      after = s;
      reply = failed;
      returns = rw (bad, on_bridge) refl;
      valid = v;
      quiet = λ mute ended. (ended, refl);
    }
    | inr (ps, ok) ↦
        let all = dispatch_all-IsHandled now ps s v in
        record {
          after = all.after;
          reply = accepted;
          returns = rw (ok, on_bridge) (rw (all.returns, on_bridge) refl);
          valid = all.valid;
          quiet = all.quiet;
        }
  ]

  -- On a valid event map `OnDispatch` returns on every dispatch, whatever its filter, its hash and its
  -- effect, and the event map is valid afterwards.
  on_dispatch-IsValid :
      (now : ℕ) (p : DispatchPayload) (s : Session S)
      → IsValid s.events
      → (s' : Session S) × (on_dispatch env conn now p s ≡ some s') × IsValid s'.events
  on_dispatch-IsValid now p s v =
      let done = on_dispatch-IsHandled now p s v in (done.after, done.returns, done.valid)

  -- Over a transport that sends nothing after the end, `OnDispatch` on a connection that has ended
  -- returns, leaves it ended, and sends nothing.
  on_dispatch_ended :
      (now : ℕ) (p : DispatchPayload) (s : Session S)
      → IsMute conn
      → IsValid s.events
      → s.done ≡ true
      → (s' : Session S) × (on_dispatch env conn now p s ≡ some s')
        × (s'.done ≡ true)
        × (s'.sent ≡ s.sent)
  on_dispatch_ended now p s mute v h =
      let done = on_dispatch-IsHandled now p s v in
      let still = done.quiet mute h in (done.after, done.returns, still.0, still.1)
