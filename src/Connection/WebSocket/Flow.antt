-- ===== src/Connection/WebSocket/Flow.antt =====
-- internal/app/connection and internal/nats: from the command that subscribes to the event that
-- arrives, through the client's loop, the registry, the channel and the server's loop.
use event_api.Base.{
  ℕ, suc, ◌<◌, ◌≡◌, refl, List, [], ◌∷◌, ◌++◌, Option, none, some, Bool, true, false, Bytes, length,
  ap, sym, subst, ◌∙◌, not, if◌then◌else◌,
}
use event_api.Nats.{Channels, channel_capacity, handle_message, is_subscribed}
use event_api.Nats.Delivery.{replicate}
use event_api.Nats.Arrival.{handle_message-subscribe}
use event_api.Connection.Types.{
  Env, EnvLaws, ApiConfig, RawMessage, SubscribePayload, DispatchPayload, Opcode, Payload, contains,
  subscribed, CloseCode,
}
use event_api.Connection.Cache.{has_dispatch}
use event_api.Connection.EventMap.{count_of}
use event_api.Connection.EventMap.View.{Entry, IsValid, view, find_entry}
use event_api.Connection.EventMap.Lookup.{wildcard}
use event_api.Connection.EventMap.Conditions.{is_hit}
use event_api.Connection.EventMap.Matching.{audience}
use event_api.Connection.EventMap.Hits.{meets, is_hit-meets}
use event_api.Connection.Session.{Session, json}
use event_api.Connection.Handler
use event_api.Connection.Handler.{accepted}
use event_api.Connection.Handler.Validation.{IsAcceptable}
use event_api.Connection.Handler.Granting.{subscribe-IsGranted, IsGranted}
use event_api.Connection.Handler.Dispatching.{on_dispatch, dispatch_message}
use event_api.Connection.WebSocket.{
  connection, connection-ConnectionLaws, has_actor, send_close, send_ack,
}
use event_api.Connection.WebSocket.Reading
use event_api.Connection.WebSocket.Reading.{
  Loop, Action, read, serve, received, dispatched, perform, receive, read_input, client_step,
}
use event_api.Connection.WebSocket.Sending.{ack_message, IsPlain, on_dispatch-sends, send_ack-sent}

module _ {S : Type 0} (env : Env S) (sets : EnvLaws env) where
  module _ (cfg : ApiConfig) (l : Loop S) (m : RawMessage) (p : SubscribePayload)
      (asks : m.op ≡ Opcode.subscribe) (decoded : env.convert_subscribe m ≡ some p) where
    read_accepted :
        (now : ℕ) (runs : Bool) (s' : Session S)
        → Handler.subscribe env cfg (connection env) m l.session ≡ some (s', accepted)
        → perform env cfg (read now runs (received m)) l ≡ some (record l { session = s' })
    unfolding perform client_step read_input Reading.is_client_sent_op Reading.handle_command
    read_accepted now runs s' run =
        ap
          (λ op.
            elim (if not (Reading.is_client_sent_op op)
                then some (send_close env CloseCode.unknown_operation l.session, false)
                else Reading.handle_command env cfg now runs op m l.session)
              as (λ _. Option (Loop S)) [
                | none ↦ none
                | some (s, more) ↦ some (
                    if more
                    then record l { session = s }
                    else Reading.end_client env cfg (record l { session = s }))
              ])
          asks
        ∙ rw run refl

    -- The round of the client's loop that grants a request.
    read-IsGranted :
        (now : ℕ) (runs : Bool)
        → IsValid l.session.events
        → IsAcceptable cfg.subscription_limit
            (count_of l.session.events)
            (has_actor env l.session)
            p
        → find_entry env p.condition (view l.session.events p.event_type) ≡ none
        → (after : Session S) × (perform env cfg (read now runs (received m)) l
            ≡ some (record l {
              session =
                  (send_ack env Opcode.subscribe
                    (subscribed (env.rand l.session.draws) p.event_type p.condition)
                    after).0;
            }))
          × IsGranted env cfg
              (connection env)
              (connection-ConnectionLaws env)
              m
              p
              decoded
              l.session
              after
    read-IsGranted now runs v fits new =
        let (after, run, granted) =
          subscribe-IsGranted env cfg (connection env) (connection-ConnectionLaws env) m p decoded
            l.session v fits new in
        (after, read_accepted now runs _ run, granted)

    -- The round of the server's loop that takes the event.
    serve_arrived :
        (now : ℕ) (raw : Bytes) (d : DispatchPayload) (l1 : Loop S) (s' : Session S)
        → env.unmarshal_dispatch raw ≡ some d
        → on_dispatch env (connection env) now d l1.session ≡ some s'
        → perform env cfg (serve now (dispatched (some raw))) l1 ≡ some (record l1 { session = s' })
    unfolding perform Reading.server_step receive
    serve_arrived now raw d l1 s' decodes run = rw (decodes, receive) (rw run refl)

    abbrev granted_payload : Payload
    granted_payload = subscribed (env.rand l.session.draws) p.event_type p.condition

    abbrev granted_entry : Entry
    granted_entry = record {
      id = env.rand l.session.draws;
      condition = p.condition;
      properties = record { ttl = none; auto = false };
    }

    module _ (after : Session S)
        (did : IsGranted env cfg
          (connection env)
          (connection-ConnectionLaws env)
          m
          p
          decoded
          l.session
          after)
        (live : l.session.done ≡ false) (writes : (k : ℕ) → env.write_ok k ≡ true) where
      abbrev acked : Session S
      acked = (send_ack env Opcode.subscribe granted_payload after).0

      -- What the acknowledgement of a granted request leaves.
      acked_lem : acked ≡ record l.session {
        draws = suc l.session.draws;
        events = after.events;
        registry = after.registry;
        attempts = suc l.session.attempts;
        sent = l.session.sent ++ json (ack_message Opcode.subscribe granted_payload) ∷ [];
      }
      acked_lem =
          send_ack-sent env sets Opcode.subscribe granted_payload after
            (ap (λ (s : Session S). s.done) did.rest ∙ live) writes
          ∙ ap
              (λ (s : Session S). record s {
                attempts = suc s.attempts;
                sent = s.sent ++ json (ack_message Opcode.subscribe granted_payload) ∷ [];
              })
              did.rest

      -- The new entry is hit by a dispatch of its type that meets its condition.
      is_hit-acked :
          (d : DispatchPayload)
          → d.event_type ≡ p.event_type
          → meets env p.condition d.conditions ≡ true
          → is_hit env granted_entry.id d.conditions (audience env d.event_type acked.events) ≡ true
      is_hit-acked d typed met =
          let there : view acked.events d.event_type
              ≡ view l.session.events p.event_type ++ granted_entry ∷ [] =
            ap (λ (s : Session S). view s.events d.event_type) acked_lem
            ∙ ap (view after.events) typed
            ∙ did.entries in
          let wild = view acked.events (wildcard env d.event_type) in
          ap (λ es. is_hit env granted_entry.id d.conditions (es ++ wild)) there
          ∙ is_hit-meets env d.conditions granted_entry (view l.session.events p.event_type) wild
              met

      IsPlain-acked : (d : DispatchPayload) → IsPlain env l.session d → IsPlain env acked d
      IsPlain-acked d plain = record {
        open_to_all = plain.open_to_all;
        no_effect = plain.no_effect;
        unseen =
            λ h e. ap (λ (s : Session S). has_dispatch env h s.cache) acked_lem ∙ plain.unseen h e;
      }

    -- On a live connection with a valid event map, whose writes succeed: an acceptable request which
    -- no subscription of its type matches, and whose dispatch key the session is not subscribed to, is
    -- granted by the client's loop. Then a message on that key gets into the channel of the session, if
    -- there is room, and when the message decodes to a dispatch of the event type, without a whisper
    -- and an effect and not seen before by its hash, one of whose conditions the subscription meets, the
    -- server's loop that takes it sends the client the dispatch, which names the new subscription,
    -- after the acknowledgement.
    pub perform_arrives :
        (now now' : ℕ) (runs : Bool) (base raw : Bytes) (chans : Channels) (d : DispatchPayload)
        → IsValid l.session.events
        → IsAcceptable cfg.subscription_limit
            (count_of l.session.events)
            (has_actor env l.session)
            p
        → find_entry env p.condition (view l.session.events p.event_type) ≡ none
        → is_subscribed l.session.registry l.session.events.subscription.session_id
            (env.dispatch_key p.event_type p.condition)
          ≡ false
        → l.session.buffer ≡ none
        → l.session.done ≡ false
        → ((k : ℕ) → env.write_ok k ≡ true)
        → length (chans l.session.events.subscription.ch) < channel_capacity
        → env.unmarshal_dispatch raw ≡ some d
        → d.event_type ≡ p.event_type
        → IsPlain env l.session d
        → meets env p.condition d.conditions ≡ true
        → (l1 : Loop S) × (l2 : Loop S) × (matches : List ℕ) × (k : ℕ) × (perform env cfg
              (read now runs (received m))
              l
            ≡ some l1)
          × (handle_message base
                (base ++ b'.' ∷ env.dispatch_key p.event_type p.condition)
                raw
                l1.session.registry
                chans
                l.session.events.subscription.ch
              ≡ chans l.session.events.subscription.ch ++ replicate (suc k) raw)
          × (perform env cfg (serve now' (dispatched (some raw))) l1 ≡ some l2)
          × (contains (env.rand l.session.draws) matches ≡ true)
          × (l2.session.sent
              ≡ (l.session.sent
                  ++ json (
                      ack_message Opcode.subscribe
                        (subscribed (env.rand l.session.draws) p.event_type p.condition))
                    ∷ [])
                ++ json (dispatch_message env (connection env) d matches) ∷ [])
    perform_arrives now now' runs base raw chans d v fits new fresh unbuffered live writes free
          decodes typed plain met =
        let (after, granting, did) = read-IsGranted now runs v fits new in
        let s1 = acked after did live writes in
        let now_acked = acked_lem after did live writes in
        let key = env.dispatch_key p.event_type p.condition in
        let ch = l.session.events.subscription.ch in
        let (k, arrives) =
          handle_message-subscribe base raw key l.session.events.subscription l.session.registry
            chans fresh free in
        let (matches, s2, run, named, sent) =
          on_dispatch-sends env sets now' d s1 granted_entry.id
            (IsPlain-acked after did live writes d plain)
            (subst (λ (s : Session S). IsValid s.events) (sym now_acked) did.valid)
            (is_hit-acked after did live writes d typed met)
            (ap (λ (s : Session S). s.buffer) now_acked ∙ unbuffered)
            (ap (λ (s : Session S). s.done) now_acked ∙ live) writes in
        let l1 : Loop S = record l { session = s1 } in
        (
          l1,
          record l1 { session = s2 },
          matches,
          k,
          granting,
          ap (λ (s : Session S). handle_message base (base ++ b'.' ∷ key) raw s.registry chans ch)
                now_acked
              ∙ ap (λ r. handle_message base (base ++ b'.' ∷ key) raw r chans ch) did.registered
              ∙ arrives,
          serve_arrived now' raw d l1 s2 decodes run,
          named,
          sent
              ∙ ap
                  (λ (s : Session S).
                    s.sent ++ json (dispatch_message env (connection env) d matches) ∷ [])
                  now_acked,
        )
