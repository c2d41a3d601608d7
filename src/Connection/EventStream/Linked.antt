-- ===== src/Connection/EventStream/Linked.antt =====
-- internal/app/connection/eventstream with internal/nats: the subscriptions of an event stream in the registry.
use event_api.Base.{◌≡◌, List, some, false, All, subst}
use event_api.Connection.Types.{Env, EnvLaws, ApiConfig, RawMessage, SubscribePayload}
use event_api.Connection.EventMap.Linking.{KeyLaws, IsLinked}
use event_api.Connection.Handler.Lifting.{Holds}
use event_api.Connection.Handler.Linked.{IsLinked-IsPreserved}
use event_api.Connection.EventStream.Reading.{Loop, Action, perform_all}
use event_api.Connection.EventStream.Rounds.{IsUntimed, TiedStream, perform_stream-On}
use event_api.Connection.EventStream.Serving.{perform_stream-IsValid}

module _ {S : Type 0} (env : Env S) (sets : EnvLaws env) (keys : KeyLaws env) (cfg : ApiConfig)
    (to_raw : SubscribePayload → RawMessage) where
  -- Where two conditions have one dispatch key only if their types are equal and the first matches the
  -- second: from a session that is linked to the registry, every history of rounds of an event stream, in
  -- any interleaving and with any inputs and any URL, but without the end of a time to live, runs without a panic
  -- and leaves the session linked. No two of its entries have one dispatch key, and it is subscribed in
  -- the registry to the key of each.
  pub perform_streams-IsLinked :
      (history : List Action) (l : Loop S)
      → All IsUntimed history
      → IsLinked env false l.session.events l.session.registry
      → (l' : Loop S) × (perform_all env cfg to_raw history l ≡ some l')
        × IsLinked env false l'.session.events l'.session.registry
  perform_streams-IsLinked history l t h =
      let (l', run, v) = perform_stream-IsValid env sets cfg to_raw history l h.valid in
      (
        l',
        run,
        subst
            (Holds
              (TiedStream env (IsLinked env false) (IsLinked-IsPreserved env sets keys) cfg to_raw))
            run
            (perform_stream-On env (IsLinked env false) (IsLinked-IsPreserved env sets keys) cfg
              to_raw history l t h),
      )
