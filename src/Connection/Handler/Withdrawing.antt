-- ===== src/Connection/Handler/Withdrawing.antt =====
-- internal/app/connection/handle.go: what the command `Unsubscribe` does, branch by branch, over any
-- transport that keeps the laws of `Connection`.
use event_api.Base.{
  ◌≡◌, refl, inl, inr, List, Option, none, some, true, ite, Bytes, bytes_dec, Option-cases, arith,
  ap, sym, subst, ◌∙◌,
}
use event_api.Connection.Types
use event_api.Connection.Types.{
  Env, EnvLaws, ApiConfig, CloseCode, EventCondition, RawMessage, SubscribePayload, unsubscribed,
}
use event_api.Connection.EventMap.{Error, not_subscribed}
use event_api.Connection.EventMap.View.{Entry, IsValid, view, find_entry}
use event_api.Connection.EventMap.Withdrawals.{left_entries, refusal, unlinked}
use event_api.Connection.EventMap.Unsubscribing.{unsubscribe-Unsubscribed}
use event_api.Connection.Handler.{Reply, failed, accepted, unsubscribe}
use event_api.Connection.Handler.Answering.{unsubscribe-IsAnswered}
use event_api.Connection.Session.{Session, Connection, ConnectionLaws, unsubscribe_events}

refusal_error :
    {S : Type 0} (env : Env S) (cond : EventCondition) (es : List Entry) (err : Error)
    → refusal env cond es ≡ some err
    → err ≡ not_subscribed
refusal_error env cond es err h = elim (Option-cases (find_entry env cond es)) [
  | inl missing ↦ ground arith
  | inr (en, found) ↦ ground arith
]

same_session :
    {S : Type 0} {o : Option (Session S × Reply)} {s s' : Session S} {r r' : Reply}
    → o ≡ some (s, r)
    → o ≡ some (s', r')
    → s ≡ s'
same_session p q = cc

module _ {S : Type 0} (env : Env S) (sets : EnvLaws env) (cfg : ApiConfig) (conn : Connection S)
    (laws : ConnectionLaws conn) (m : RawMessage) (s : Session S) where
  -- What the command does: nothing but an error if the message does not decode; otherwise it takes the
  -- entries away and the dispatch key back, or closes the connection because there is none.
  pub data IsWithdrawn (s' : Session S) (reply : Reply) : Type 0 where
    undecoded : env.convert_subscribe m ≡ none → s' ≡ s → reply ≡ failed → IsWithdrawn s' reply
    withdrawn :
        (p : SubscribePayload)
        → env.convert_subscribe m ≡ some p
        → refusal env p.condition (view s.events p.event_type) ≡ none
        → reply ≡ accepted
        → ((u : Bytes)
            → view s'.events u
              ≡ ite
                  (bytes_dec u p.event_type)
                  (left_entries env p.condition (view s.events p.event_type))
                  (view s.events u))
        → s'.registry
          ≡ unlinked env p.event_type p.condition (view s.events p.event_type) s.events s.registry
        → IsWithdrawn s' reply
    closed :
        (p : SubscribePayload)
        → env.convert_subscribe m ≡ some p
        → refusal env p.condition (view s.events p.event_type) ≡ some not_subscribed
        → reply ≡ accepted
        → s'.done ≡ true
        → IsWithdrawn s' reply

  unsubscribe_branches :
      IsValid s.events
      → (s' : Session S) × (reply : Reply) × (unsubscribe env cfg conn m s ≡ some (s', reply))
        × IsWithdrawn s' reply
  unfolding unsubscribe unsubscribe_events
  unsubscribe_branches v = elim (Option-cases (env.convert_subscribe m)) [
    | inl bad ↦ (s, failed, rw (bad, unsubscribe) refl, undecoded bad refl refl)
    | inr (p, ok) ↦
        let (o, run, did) =
          unsubscribe-Unsubscribed env sets p.event_type s.events s.registry p.condition v in
        let after : Session S = record s { events = o.events; registry = o.registry } in
        elim (Option-cases o.error) [
          | inl fine ↦
              let said = unsubscribed p.event_type p.condition in
              let core = laws.ack_core Types.unsubscribe said after in
              (
                (conn.send_ack Types.unsubscribe said after).0,
                accepted,
                rw (ok, unsubscribe)
                    (rw (run, unsubscribe_events, unsubscribe) (rw (fine, unsubscribe) refl)),
                withdrawn p ok (sym did.answers ∙ fine) refl
                    (λ u. ap (λ e. view e u) core.events ∙ did.views u) (core.registry ∙ did.links),
              )
          | inr (err, bad) ↦
              let why : o.error ≡ some not_subscribed =
                bad
                ∙ ap some (
                    refusal_error env p.condition (view s.events p.event_type) err
                      (sym did.answers ∙ bad)) in
              (
                conn.send_close CloseCode.not_subscribed after,
                accepted,
                rw (ok, unsubscribe)
                    (rw (run, unsubscribe_events, unsubscribe) (rw (why, unsubscribe) refl)),
                closed p ok (sym did.answers ∙ why) refl
                    (laws.close_done CloseCode.not_subscribed after),
              )
        ]
  ]

  -- On a valid event map the `Unsubscribe` command returns on every message and leaves a valid event
  -- map. A message that does not decode changes nothing and is an error. Otherwise, where there is
  -- nothing to take away the connection is closed; else the entries of the type lose the first one
  -- that matches, with its dispatch key, or all of them if the request has no condition, and the
  -- entries of other types stay.
  pub unsubscribe-IsWithdrawn :
      IsValid s.events
      → (s' : Session S) × (reply : Reply) × (unsubscribe env cfg conn m s ≡ some (s', reply))
        × IsValid s'.events
        × IsWithdrawn s' reply
  unsubscribe-IsWithdrawn v =
      let (s', reply, run, branch) = unsubscribe_branches v in
      let did = unsubscribe-IsAnswered env sets cfg conn laws m s v in
      (
        s',
        reply,
        run,
        subst (λ (x : Session S). IsValid x.events) (same_session did.returns run) did.valid,
        branch,
      )
