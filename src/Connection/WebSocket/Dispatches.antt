-- ===== src/Connection/WebSocket/Dispatches.antt =====
-- internal/app/connection/handle.go over internal/app/connection/websocket/websocket.go: what
-- `OnDispatch` does to a WebSocket and its client.
use event_api.Base.{
  ℕ, ◌≡◌, refl, ◌≢◌, List, [], ◌∷◌, ◌++◌, Option, none, some, Bool, true, false, not, ◌&&◌, ◌||◌,
  if◌then◌else◌, ite, bytes_dec, ℕ_discrete, arith,
}
use event_api.Connection.Types.{
  Env, EnvLaws, DispatchPayload, Opcode, dispatch_payload, contains, Message,
}
use event_api.Connection.Buffer.{EventBuffer, push}
use event_api.Connection.Cache.{add_dispatch, has_dispatch}
use event_api.Connection.EventMap.{is_nil}
use event_api.Connection.EventMap.View.{IsValid}
use event_api.Connection.EventMap.Conditions.{is_hit}
use event_api.Connection.EventMap.Matching.{audience}
use event_api.Connection.Session.{Session, json}
use event_api.Connection.Handler.Dispatching.{on_dispatch, dedupe, deliver}
use event_api.Connection.Handler.Audience.{on_dispatch_plain, on_dispatch_whisper, sent_once}
use event_api.Connection.WebSocket.{connection, write}

-- The message for the client: the type and the body of the dispatch, with its matches only.
abbrev pub message_of : DispatchPayload → List ℕ → Message
message_of d matches = record {
  op = Opcode.dispatch;
  command = none;
  content = dispatch_payload (record {
    event_type = d.event_type;
    conditions = [];
    whisper = [];
    hash = none;
    effect = none;
    matches = matches;
    body = d.body;
  });
}

abbrev pub is_missing : {A : Type 0} → Option A → Bool
is_missing none = true
is_missing (some x) = false

abbrev pub is_of : Option ℕ → ℕ → Bool
is_of none x = false
is_of (some h) x = ite (ℕ_discrete x h) true false

module _ {S : Type 0} (env : Env S) where
  -- Whether the session has seen the hash, if there is one.
  abbrev pub is_known : Option ℕ → Session S → Bool
  is_known none s = false
  is_known (some h) s = has_dispatch env h s.cache

  -- What a dispatch that the session accepts, or not, leaves of it: the client gets one message more,
  -- with the matches, exactly if the dispatch is accepted, its hash is new, the connection is live and
  -- not buffered, and the write succeeds; the hash is remembered exactly if it is accepted; and
  -- nothing else of these changes.
  pub record IsSent (d : DispatchPayload) (matches : List ℕ) (accepts : Bool) (s s' : Session S)
      : Type 0 where
    pub sent : s'.sent ≡ (
        if accepts
          && (not (is_known d.hash s)
              && (is_missing s.buffer && (not s.done && env.write_ok s.attempts)))
        then s.sent ++ json (message_of d matches) ∷ []
        else s.sent)
    pub hashes :
        (x : ℕ)
        → has_dispatch env x s'.cache ≡ (has_dispatch env x s.cache || (accepts && is_of d.hash x))
    pub events : s'.events ≡ s.events
    pub registry : s'.registry ≡ s.registry
    pub timers : s'.timers ≡ s.timers
    pub done : s'.done ≡ s.done
    pub buffer : s'.buffer ≡ s.buffer

  skipped-IsSent :
      (d : DispatchPayload) (matches : List ℕ) (s : Session S) → IsSent d matches false s s
  skipped-IsSent d matches s = record {
    sent = refl;
    hashes = λ x. ground arith;
    events = refl;
    registry = refl;
    timers = refl;
    done = refl;
    buffer = refl;
  }

  module _ (sets : EnvLaws env) (now : ℕ) (d : DispatchPayload) (s : Session S)
      (plain : d.effect ≡ none) where
    abbrev after : List ℕ → Session S
    after matches = sent_once env sets (connection env) now d s plain matches

    -- With its hash and its buffer known.
    parts :
        (matches : List ℕ) (hash : Option ℕ) (buffer : Option EventBuffer)
        → d.hash ≡ hash
        → s.buffer ≡ buffer
        → IsSent d matches true s (after matches)
    unfolding deliver dedupe write add_dispatch has_dispatch push
    parts matches none none unnamed free = record {
      sent = rw unnamed (rw free (ground arith));
      hashes = λ x. rw unnamed (rw free (ground arith));
      events = rw unnamed (rw free (ground arith));
      registry = rw unnamed (rw free (ground arith));
      timers = rw unnamed (rw free (ground arith));
      done = rw unnamed (rw free (ground arith));
      buffer = rw unnamed (rw free (ground arith));
    }
    parts matches none (some b) unnamed held = record {
      sent = rw unnamed (rw held (ground arith));
      hashes = λ x. rw unnamed (rw held (ground arith));
      events = rw unnamed (rw held (ground arith));
      registry = rw unnamed (rw held (ground arith));
      timers = rw unnamed (rw held (ground arith));
      done = rw unnamed (rw held (ground arith));
      buffer = rw unnamed (rw held (ground arith));
    }
    parts matches (some h) none named free = record {
      sent = rw named (rw free (ground arith));
      hashes = λ x. rw named (rw free (ground (arith, sets.has-add x h s.cache.dispatch)));
      events = rw named (rw free (ground arith));
      registry = rw named (rw free (ground arith));
      timers = rw named (rw free (ground arith));
      done = rw named (rw free (ground arith));
      buffer = rw named (rw free (ground arith));
    }
    parts matches (some h) (some b) named held = record {
      sent = rw named (rw held (ground arith));
      hashes = λ x. rw named (rw held (ground (arith, sets.has-add x h s.cache.dispatch)));
      events = rw named (rw held (ground arith));
      registry = rw named (rw held (ground arith));
      timers = rw named (rw held (ground arith));
      done = rw named (rw held (ground arith));
      buffer = rw named (rw held (ground arith));
    }

    sent_once-IsSent : (matches : List ℕ) → IsSent d matches true s (after matches)
    sent_once-IsSent matches = parts matches d.hash s.buffer refl refl

    -- On a valid event map, over a WebSocket, a dispatch without a whisper and without an effect gets a
    -- list of matches that holds exactly the identifiers of the subscriptions to its event type, or to
    -- the wildcard of its object, whose condition matches one of the dispatch's conditions. The session
    -- accepts it exactly if there is a match: the client is sent one message, that names the event type,
    -- the body and these matches, exactly if moreover the hash is new, the connection is live and not
    -- buffered, and the write succeeds; the hash is remembered where the dispatch is accepted; and the
    -- event map, the registry and the timers stay as they were.
    pub dispatches_matching :
        d.whisper ≡ []
        → IsValid s.events
        → (matches : List ℕ) × (s' : Session S) × ((x : ℕ)
            → contains x matches ≡ is_hit env x d.conditions (audience env d.event_type s.events))
          × (on_dispatch env (connection env) now d s ≡ some s')
          × IsSent d matches (not (is_nil matches)) s s'
    dispatches_matching open_to_all v =
        let (matches, hits, run) =
          on_dispatch_plain env sets (connection env) now d s plain open_to_all v in
        go matches hits run
      where
        go :
            (matches : List ℕ)
            → ((x : ℕ)
                → contains x matches
                  ≡ is_hit env x d.conditions (audience env d.event_type s.events))
            → on_dispatch env (connection env) now d s
              ≡ some (if is_nil matches then s else after matches)
            → (matches : List ℕ) × (s' : Session S) × ((x : ℕ)
                → contains x matches
                  ≡ is_hit env x d.conditions (audience env d.event_type s.events))
              × (on_dispatch env (connection env) now d s ≡ some s')
              × IsSent d matches (not (is_nil matches)) s s'
        go [] hits run = ([], s, hits, run, skipped-IsSent d [] s)
        go (x ∷ xs) hits run = (x ∷ xs, after (x ∷ xs), hits, run, sent_once-IsSent (x ∷ xs))

    -- Over a WebSocket a whisper without an effect is accepted exactly in the session that it names,
    -- whatever the subscriptions: there the client is sent one message, without matches, exactly if the
    -- hash is new, the connection is live and not buffered, and the write succeeds, and the hash is
    -- remembered. In every other session nothing is sent and nothing is remembered. In each the event
    -- map, the registry and the timers stay as they were.
    pub whispers_named :
        d.whisper ≢ []
        → (s' : Session S) × (on_dispatch env (connection env) now d s ≡ some s')
          × IsSent d [] (ite (bytes_dec d.whisper s.session_id) true false) s s'
    whispers_named named =
        go (bytes_dec d.whisper s.session_id)
          (on_dispatch_whisper env sets (connection env) now d s plain named)
      where
        go :
            (found : Dec (d.whisper ≡ s.session_id))
            → on_dispatch env (connection env) now d s ≡ some (ite found (after []) s)
            → (s' : Session S) × (on_dispatch env (connection env) now d s ≡ some s')
              × IsSent d [] (ite found true false) s s'
        go (yes e) run = (after [], run, sent_once-IsSent [])
        go (no n) run = (s, run, skipped-IsSent d [] s)
