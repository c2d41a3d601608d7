-- ===== src/Connection/Handler/Linked.antt =====
-- internal/app/connection/connection.go: the link between the event map and the registry, as a property
-- that the handler keeps.
use event_api.Base.{◌≡◌, refl, Option, some, false, subst}
use event_api.Connection.Types.{Env, EnvLaws}
use event_api.Connection.EventMap.{Outcome}
use event_api.Connection.EventMap.Linking.{KeyLaws, IsLinked}
use event_api.Connection.EventMap.Linking.Calls.{
  subscribe-IsLinked, unsubscribe-IsLinked, destroy-IsLinked,
}
use event_api.Connection.Handler.Lifting.{IsPreserved}

module _ {S : Type 0} (env : Env S) (sets : EnvLaws env) (keys : KeyLaws env) where
  same_outcome : {run : Option Outcome} {o o' : Outcome} → run ≡ some o → run ≡ some o' → o ≡ o'
  same_outcome p q = cc

  pub IsLinked-IsPreserved : IsPreserved env (IsLinked env false)
  IsLinked-IsPreserved = record {
    subscribes = λ id t cond props e r o l run.
        let (o', run', l', _) = subscribe-IsLinked env sets keys false id t cond props e r l in
        subst (λ (x : Outcome). IsLinked env false x.events x.registry) (same_outcome run' run) l';
    unsubscribes = λ t cond e r o l run.
        let (o', run', l', _) = unsubscribe-IsLinked env sets keys false t cond e r refl l in
        subst (λ (x : Outcome). IsLinked env false x.events x.registry) (same_outcome run' run) l';
    destroys = λ e r l. (destroy-IsLinked env sets keys false e r l).0;
  }
