-- ===== src/Connection/Handler/Dispatching.antt =====
-- internal/app/connection/handle.go: `OnDispatch` and `OnBridge`. Time enters as `now`; the
-- goroutine that `OnDispatch` starts for a time to live becomes a timer of the session. Errors that
-- the code only logs leave no trace.
use event_api.Base.{
  ℕ, ◌+◌, List, [], ◌∷◌, ◌++◌, Option, none, some, Bool, true, if◌then◌else◌, ltb, ite, bytes_dec,
}
use event_api.Connection.Types.{
  Env, RawMessage, DispatchPayload, SessionEffect, SessionEffectSubscription, Message, dispatch,
  dispatch_payload,
}
use event_api.Connection.Cache.{add_dispatch, expire_dispatch}
use event_api.Connection.Buffer.{push}
use event_api.Connection.EventMap.{is_nil}
use event_api.Connection.EventMap.Lookup.{get, match_channel}
use event_api.Connection.Session.{
  Session, Connection, subscribe_events, unsubscribe_events, unsubscribe_ids,
}
use event_api.Connection.Handler.{Reply, failed, accepted}

module _ {S : Type 0} (env : Env S) where
  -- The filter by event type, condition and whisper: `some none` where the dispatch is skipped, and
  -- otherwise the matches.
  unfoldable pub filter_dispatch : DispatchPayload → Session S → Option (Option (List ℕ))
  filter_dispatch p s =
      if is_nil p.whisper
      then elim (get env p.event_type s.events) [
        | none ↦ some none
        | some ev ↦ elim (match_channel env p.conditions ev) [
          | none ↦ none
          | some matches ↦ if is_nil matches then some none else some (some matches)
        ]
      ]
      else ite (bytes_dec p.whisper s.session_id) (some (some [])) (some none)

  -- The dedupe by hash: whether the dispatch goes on.
  unfoldable pub dedupe : Option ℕ → Session S → Session S × Bool
  dedupe none s = (s, true)
  dedupe (some h) s =
      let (cache, fresh) = add_dispatch env h s.cache in (record s { cache = cache }, fresh)

  -- The loop over `Effect.AddSubscriptions`.
  unfoldable pub add_subscriptions :
      ℕ → List SessionEffectSubscription → Session S → Option (Session S)
  add_subscriptions now [] s = some s
  add_subscriptions now (e ∷ es) s =
      elim (subscribe_events env e.event_type e.condition
        (record { ttl = if ltb 0 e.ttl then some (now + e.ttl) else none; auto = true }) s) [
          | none ↦ none
          | some (s', o) ↦ add_subscriptions now es (
              if ltb 0 e.ttl
              then record s' { timers = s'.timers ++ record { ttl = e.ttl; id = o.id } ∷ [] }
              else s')
        ]

  -- The loop over `Effect.RemoveSubscriptions`.
  unfoldable pub remove_subscriptions :
      List SessionEffectSubscription → Session S → Option (Session S)
  remove_subscriptions [] s = some s
  remove_subscriptions (e ∷ es) s = elim (unsubscribe_events env e.event_type e.condition s) [
    | none ↦ none
    | some (s', o) ↦ remove_subscriptions es s'
  ]

  -- The loop over `Effect.RemoveHashes`.
  unfoldable pub remove_hashes : List ℕ → Session S → Session S
  remove_hashes [] s = s
  remove_hashes (h ∷ hs) s = remove_hashes hs (record s { cache = expire_dispatch env h s.cache })

  unfoldable pub apply_effect : ℕ → Option SessionEffect → Session S → Option (Session S)
  unfolding add_subscriptions remove_subscriptions remove_hashes
  apply_effect now none s = some s
  apply_effect now (some x) s = elim (add_subscriptions now x.add_subscriptions s) [
    | none ↦ none
    | some s' ↦ elim (remove_subscriptions x.remove_subscriptions s') [
      | none ↦ none
      | some s'' ↦ some (remove_hashes x.remove_hashes s'')
    ]
  ]

  module _ (conn : Connection S) where
    -- What is sent of a dispatch.
    abbrev pub dispatch_message : DispatchPayload → List ℕ → Message
    dispatch_message p matches = record {
      op = dispatch;
      command = none;
      content = dispatch_payload (record {
        event_type = p.event_type;
        conditions = [];
        whisper = [];
        hash = none;
        effect = none;
        matches = matches;
        body = p.body;
      });
    }

    -- The end of `OnDispatch`: into the buffer of a dead connection, or to the client.
    unfoldable pub deliver : DispatchPayload → List ℕ → Session S → Session S
    deliver p matches s = elim s.buffer [
      | some b ↦ record s { buffer = some (push p b).0 }
      | none ↦ (conn.write (dispatch_message p matches) s).0
    ]

    -- `OnDispatch`
    unfoldable pub on_dispatch : ℕ → DispatchPayload → Session S → Option (Session S)
    unfolding dedupe deliver apply_effect filter_dispatch
    on_dispatch now p s = elim (filter_dispatch p s) [
      | none ↦ none
      | some none ↦ some s
      | some (some matches) ↦
          let (s', fresh) = dedupe p.hash s in
          if fresh
          then elim (apply_effect now p.effect s') [
            | none ↦ none
            | some s'' ↦ some (deliver p matches s'')
          ]
          else some s'
    ]

    -- The loop of `OnBridge` over the answers.
    unfoldable pub dispatch_all : ℕ → List DispatchPayload → Session S → Option (Session S)
    dispatch_all now [] s = some s
    dispatch_all now (p ∷ ps) s = elim (on_dispatch now p s) [
      | none ↦ none
      | some s' ↦ dispatch_all now ps s'
    ]

    -- `OnBridge`
    unfoldable pub on_bridge : ℕ → RawMessage → Session S → Option (Session S × Reply)
    unfolding dispatch_all
    on_bridge now m s = elim (env.bridge s.session_id m) [
      | none ↦ some (s, failed)
      | some ps ↦ elim (dispatch_all now ps s) [ none ↦ none | some s' ↦ some (s', accepted) ]
    ]

  -- The goroutine of a timer, when its time has come: unless the connection has ended, it removes
  -- the subscription by its identifier.
  unfoldable pub fire_timer : ℕ → Session S → Option (Session S)
  fire_timer id s =
      if s.done
      then some s
      else elim (unsubscribe_ids env (id ∷ []) s) [ none ↦ none | some (s', o) ↦ some s' ]
