-- ===== src/Connection/WebSocket/Refusals.antt =====
-- internal/app/connection/handle.go over internal/app/connection/websocket/websocket.go: what a client
-- hears when `Subscribe` refuses its request.
use Prim.Native.String.{String}
use event_api.Base.{
  ap, ℕ, suc, ◌≡◌, refl, ◌∙◌, inl, inr, List, [], ◌∷◌, ◌++◌, none, some, true, false, arith,
  Option-cases,
}
use event_api.Connection.Types.{
  CloseCode, Field, Env, ApiConfig, RawMessage, SubscribePayload, Opcode, error_payload,
  end_of_stream_payload,
}
use event_api.Connection.EventMap.{count_of}
use event_api.Connection.Session.{Session, Chunk, json, close_frame}
use event_api.Connection.Handler.{Refusal, refused, check_subscribe, subscribe}
use event_api.Connection.Handler.Validation.{IsAcceptable, check_subscribe-IsAcceptable}
use event_api.Connection.Handler.Refusals.{IsRefusal, check_subscribe-IsRefusal}
use event_api.Connection.WebSocket.{connection, has_actor, send_error, send_close, write}
use event_api.Connection.WebSocket

-- What the client is sent: the error, the end of the stream, and the control frame.
abbrev pub farewell : Refusal → List Chunk
farewell x =
    json (record { op = Opcode.error; command = none; content = error_payload x.txt x.fields })
    ∷ json (record {
      op = Opcode.end_of_stream;
      command = none;
      content = end_of_stream_payload x.code;
    })
    ∷ close_frame x.code
    ∷ []

append_three :
    {A : Type 0} (l : List A) (a b c : A)
    → ((l ++ a ∷ []) ++ b ∷ []) ++ c ∷ [] ≡ l ++ a ∷ b ∷ c ∷ []
append_three [] a b c = refl
append_three (x ∷ l) a b c = λ k. x ∷ append_three l a b c k

module _ {S : Type 0} (env : Env S) where
  send_error-live :
      (txt : String) (fields : List (String × Field)) (s : Session S)
      → s.done ≡ false
      → ((k : ℕ) → env.write_ok k ≡ true)
      → send_error env txt fields s ≡ record s {
        attempts = suc s.attempts;
        sent =
            s.sent
            ++ json
                (record { op = Opcode.error; command = none; content = error_payload txt fields })
              ∷ [];
      }
  unfolding send_error write
  send_error-live txt fields s live writes =
      rw (live, send_error) (rw (writes s.attempts, send_error) refl)

  send_close-live :
      (code : CloseCode) (s : Session S)
      → s.done ≡ false
      → ((k : ℕ) → env.write_ok k ≡ true)
      → (send_close env code s).sent
        ≡ (s.sent
            ++ json (record {
              op = Opcode.end_of_stream;
              command = none;
              content = end_of_stream_payload code;
            })
              ∷ [])
          ++ close_frame code ∷ []
  unfolding send_close write WebSocket.write_control WebSocket.force_close
  send_close-live code s live writes =
      ground (arith, live, writes s.attempts, writes (suc s.attempts))

module _ {S : Type 0} (env : Env S) (cfg : ApiConfig) (m : RawMessage) (p : SubscribePayload)
    (decoded : env.convert_subscribe m ≡ some p) (s : Session S) where
  refuse-sent :
      (x : Refusal)
      → s.done ≡ false
      → ((k : ℕ) → env.write_ok k ≡ true)
      → (send_close env x.code (send_error env x.txt x.fields s)).sent ≡ s.sent ++ farewell x
  refuse-sent x live writes =
      ap (λ (q : Session S). (send_close env x.code q).sent)
        (send_error-live env x.txt x.fields s live writes)
      ∙ send_close-live env x.code
          (record s {
            attempts = suc s.attempts;
            sent =
                s.sent
                ++ json (record {
                  op = Opcode.error;
                  command = none;
                  content = error_payload x.txt x.fields;
                })
                  ∷ [];
          })
          live writes
      ∙ append_three s.sent _ _ _

  refuse-rest :
      (x : Refusal)
      → ((send_close env x.code (send_error env x.txt x.fields s)).done ≡ true)
        × ((send_close env x.code (send_error env x.txt x.fields s)).events ≡ s.events)
        × ((send_close env x.code (send_error env x.txt x.fields s)).registry ≡ s.registry)
  unfolding send_close send_error write WebSocket.write_control WebSocket.force_close
  refuse-rest x = ground arith

  -- A request that is not acceptable is refused on a live WebSocket whose writes succeed: of what is
  -- wrong with it, the first in the order of `IsRefusal` gives the text of the error and the close
  -- code. The client is sent the error, the end of the stream with that code and the control frame
  -- with that code, and nothing else; the connection has ended; the event map and the registry are as
  -- they were.
  pub subscribe_refused :
      ¬ IsAcceptable cfg.subscription_limit (count_of s.events) false p
      → s.done ≡ false
      → ((k : ℕ) → env.write_ok k ≡ true)
      → (x : Refusal) × (s' : Session S) × IsRefusal cfg.subscription_limit
          (count_of s.events)
          false
          p
          x.txt
          x.code
        × (subscribe env cfg (connection env) m s ≡ some (s', refused))
        × (s'.sent ≡ s.sent ++ farewell x)
        × (s'.done ≡ true)
        × (s'.events ≡ s.events)
        × (s'.registry ≡ s.registry)
  unfolding subscribe has_actor
  subscribe_refused bad live writes =
      elim (Option-cases (check_subscribe cfg.subscription_limit (count_of s.events) false p)) [
        | inl fits ↦ absurd (
            bad (
              (check_subscribe-IsAcceptable cfg.subscription_limit (count_of s.events) false p).0
                fits))
        | inr (x, e) ↦ (
          x,
          send_close env x.code (send_error env x.txt x.fields s),
          check_subscribe-IsRefusal cfg.subscription_limit (count_of s.events) false p x e,
          rw (decoded, subscribe) (rw e refl),
          refuse-sent x live writes,
          (refuse-rest x).0,
          (refuse-rest x).1,
          (refuse-rest x).2,
        )
      ]
