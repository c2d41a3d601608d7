-- ===== src/Connection/WebSocket/Sending.antt =====
-- internal/app/connection/websocket/websocket.go: what a live WebSocket, whose writes succeed, sends.
use event_api.Base.{
  ℕ, suc, ◌≡◌, refl, List, [], ◌∷◌, ◌++◌, none, some, true, false, arith, ◌∙◌, Option-cases, inl,
  inr,
}
use event_api.Connection.Types.{Env, EnvLaws, DispatchPayload, Opcode, Payload, contains, Message}
use event_api.Connection.Cache.{add_dispatch, has_dispatch}
use event_api.Connection.EventMap.{is_nil}
use event_api.Connection.EventMap.View.{IsValid}
use event_api.Connection.EventMap.Conditions.{is_hit}
use event_api.Connection.EventMap.Matching.{audience}
use event_api.Connection.Session.{Session, json}
use event_api.Connection.Handler
use event_api.Connection.Handler.{accepted}
use event_api.Connection.Handler.Dispatching.{on_dispatch, dispatch_message}
use event_api.Connection.Handler.Audience.{on_dispatch_plain, sent_once}
use event_api.Connection.WebSocket.{connection, send_ack, write}

not_nil_of : (x : ℕ) (xs : List ℕ) → contains x xs ≡ true → is_nil xs ≡ false
unfolding contains
not_nil_of x [] h = absurd (ground arith)
not_nil_of x (y ∷ xs) h = refl

-- The acknowledgement of a command.
abbrev pub ack_message : Opcode → Payload → Message
ack_message op content = record { op = Opcode.ack; command = some op; content = content }

-- A dispatch that has neither a whisper nor an effect, and whose hash the session has not seen.
pub record IsPlain {S : Type 0} (env : Env S) (s : Session S) (d : DispatchPayload) : Type 0 where
  pub open_to_all : d.whisper ≡ []
  pub no_effect : d.effect ≡ none
  pub unseen : (h : ℕ) → d.hash ≡ some h → has_dispatch env h s.cache ≡ false

module _ {S : Type 0} (env : Env S) (sets : EnvLaws env) where
  sent_once-sends :
      (now : ℕ) (d : DispatchPayload) (s : Session S) (plain : IsPlain env s d) (matches : List ℕ)
      → s.buffer ≡ none
      → s.done ≡ false
      → ((k : ℕ) → env.write_ok k ≡ true)
      → (sent_once env sets (connection env) now d s plain.no_effect matches).sent
        ≡ s.sent ++ json (dispatch_message env (connection env) d matches) ∷ []
  unfolding Handler.Dispatching.deliver Handler.Dispatching.dedupe write add_dispatch has_dispatch
  sent_once-sends now d s plain matches unbuffered live writes = elim (Option-cases d.hash) [
    | inl unnamed ↦ rw unnamed (rw unbuffered (rw live (rw (writes s.attempts) refl)))
    | inr (h, named) ↦
        rw named (rw (plain.unseen h named) (rw unbuffered (rw live (rw (writes s.attempts) refl))))
  ]

  -- A live session, all of whose writes succeed, sends a plain dispatch that one of its entries
  -- meets.
  pub on_dispatch-sends :
      (now : ℕ) (d : DispatchPayload) (s : Session S) (x : ℕ)
      → IsPlain env s d
      → IsValid s.events
      → is_hit env x d.conditions (audience env d.event_type s.events) ≡ true
      → s.buffer ≡ none
      → s.done ≡ false
      → ((k : ℕ) → env.write_ok k ≡ true)
      → (matches : List ℕ) × (s' : Session S) × (on_dispatch env (connection env) now d s ≡ some s')
        × (contains x matches ≡ true)
        × (s'.sent ≡ s.sent ++ json (dispatch_message env (connection env) d matches) ∷ [])
  on_dispatch-sends now d s x plain v hit unbuffered live writes =
      let (matches, hits, run) =
        on_dispatch_plain env sets (connection env) now d s plain.no_effect plain.open_to_all v in
      let named : contains x matches ≡ true = hits x ∙ hit in
      let s' : Session S = sent_once env sets (connection env) now d s plain.no_effect matches in
      (
        matches,
        s',
        run ∙ simp (not_nil_of x matches named),
        named,
        sent_once-sends now d s plain matches unbuffered live writes,
      )

  pub send_ack-sent :
      (op : Opcode) (content : Payload) (s : Session S)
      → s.done ≡ false
      → ((k : ℕ) → env.write_ok k ≡ true)
      → (send_ack env op content s).0 ≡ record s {
        attempts = suc s.attempts;
        sent = s.sent ++ json (ack_message op content) ∷ [];
      }
  unfolding send_ack write
  send_ack-sent op content s live writes = rw live (rw (writes s.attempts) refl)
