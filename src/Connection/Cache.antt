-- ===== src/Connection/Cache.antt =====
-- internal/app/connection/cache.go: the hashes of the dispatches that a connection has seen, so
-- that a dispatch with a known hash is dropped.
use event_api.Base.{
  ℕ, occurrences, refl, ◌≡◌, ite, ℕ_discrete, Bool, true, false, not, List, [], ◌∷◌, arith,
  if◌then◌else◌,
}
use event_api.Connection.Types.{Env, EnvLaws, contains}

-- `cacheInst`.
pub record Cache (S : Type 0) : Type 0 where
  pub dispatch : S

module _ {S : Type 0} (env : Env S) where
  unfoldable pub new_cache : Cache S
  new_cache = record { dispatch = env.empty_set }

  unfoldable pub has_dispatch : ℕ → Cache S → Bool
  has_dispatch h c = env.set_has h c.dispatch

  unfoldable pub add_dispatch : ℕ → Cache S → Cache S × Bool
  add_dispatch h c =
      let had = env.set_has h c.dispatch in
      (record { dispatch = env.set_add h c.dispatch }, not had)

  unfoldable pub expire_dispatch : ℕ → Cache S → Cache S
  expire_dispatch h c = record { dispatch = env.set_delete h c.dispatch }

  -- The hashes of a history that are let through: those whose `AddDispatch` answers true.
  pub admitted : List ℕ → Cache S → List ℕ
  admitted [] c = []
  admitted (h ∷ hs) c =
      let step = add_dispatch h c in
      let rest = admitted hs step.0 in if step.1 then h ∷ rest else rest

module _ {S : Type 0} (env : Env S) (laws : EnvLaws env) (c : Cache S) where
  -- `AddDispatch` answers true exactly if the hash was not there, and afterwards the cache holds
  -- what it held and the hash.
  pub has_dispatch-add_dispatch :
      (h x : ℕ)
      → ((add_dispatch env h c).1 ≡ not (has_dispatch env h c))
        × (has_dispatch env x (add_dispatch env h c).0
            ≡ ite (ℕ_discrete x h) true (has_dispatch env x c))
  unfolding add_dispatch has_dispatch
  has_dispatch-add_dispatch h x = (refl, laws.has-add x h c.dispatch)

  -- A hash is let through once: a second `AddDispatch` answers false, and after `ExpireDispatch` it
  -- answers true again.
  pub add_dispatch_again :
      (h : ℕ)
      → ((add_dispatch env h (add_dispatch env h c).0).1 ≡ false)
        × ((add_dispatch env h (expire_dispatch env h (add_dispatch env h c).0)).1 ≡ true)
  unfolding add_dispatch expire_dispatch
  add_dispatch_again h = (
    ground (arith, laws.has-add h h c.dispatch),
    ground (arith, laws.has-delete h h (env.set_add h c.dispatch)),
  )

abbrev pub is_hash : ℕ → ℕ → Bool
is_hash h x = ite (ℕ_discrete h x) true false

module _ {S : Type 0} (env : Env S) (laws : EnvLaws env) where
  -- Of any history of hashes each one is let through at most once: exactly once if it occurs and
  -- the cache did not hold it, and never if the cache held it.
  pub occurrences-admitted :
      (h : ℕ) (hs : List ℕ) (c : Cache S)
      → occurrences (is_hash h) (admitted env hs c)
        ≡ (if has_dispatch env h c then 0 else if contains h hs then 1 else 0)
  unfolding admitted occurrences has_dispatch add_dispatch contains
  occurrences-admitted h [] c = ground arith
  occurrences-admitted h (x ∷ hs) c =
      ground
        (arith, occurrences-admitted h hs (add_dispatch env x c).0, laws.has-add h x c.dispatch)
