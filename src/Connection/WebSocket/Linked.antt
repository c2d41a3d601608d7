-- ===== src/Connection/WebSocket/Linked.antt =====
-- internal/app/connection/websocket with internal/nats: the subscriptions of a WebSocket in the registry.
use event_api.Base.{◌≡◌, List, some, false, All, subst}
use event_api.Connection.Types.{Env, EnvLaws, ApiConfig}
use event_api.Connection.EventMap.Linking.{KeyLaws, IsLinked}
use event_api.Connection.Handler.Lifting.{Holds}
use event_api.Connection.Handler.Linked.{IsLinked-IsPreserved}
use event_api.Connection.WebSocket.Reading.{Loop, Action, perform_all}
use event_api.Connection.WebSocket.Rounds.{IsTimeless, TiedLoop, perform_all-On}
use event_api.Connection.WebSocket.Ending.{perform_all-IsValid}

module _ {S : Type 0} (env : Env S) (sets : EnvLaws env) (keys : KeyLaws env)
    (cfg : ApiConfig) where
  -- Where two conditions have one dispatch key only if their types are equal and the first matches the
  -- second: from a session that is linked to the registry, every history of rounds of a WebSocket, in
  -- any interleaving and with any inputs, but without the end of a time to live, runs without a panic
  -- and leaves the session linked. No two of its entries have one dispatch key, and it is subscribed in
  -- the registry to the key of each.
  pub perform_loops-IsLinked :
      (history : List Action) (l : Loop S)
      → All IsTimeless history
      → IsLinked env false l.session.events l.session.registry
      → (l' : Loop S) × (perform_all env cfg history l ≡ some l')
        × IsLinked env false l'.session.events l'.session.registry
  perform_loops-IsLinked history l t h =
      let (l', run, v) = perform_all-IsValid env sets cfg history l h.valid in
      (
        l',
        run,
        subst (Holds (TiedLoop env (IsLinked env false) (IsLinked-IsPreserved env sets keys) cfg))
            run
            (perform_all-On env (IsLinked env false) (IsLinked-IsPreserved env sets keys) cfg
              history l t h),
      )
