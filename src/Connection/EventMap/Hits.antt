-- ===== src/Connection/EventMap/Hits.antt =====
-- internal/app/connection/connection.go: a dispatch that meets an entry which has just been added.
use event_api.Base.{ℕ, ◌≡◌, refl, List, [], ◌∷◌, ◌++◌, Bool, true, false, ◌||◌, arith}
use event_api.Connection.Types.{Env, EventCondition}
use event_api.Connection.EventMap.View.{Entry}
use event_api.Connection.EventMap.Conditions.{hit_by, is_hit}

module _ {S : Type 0} (env : Env S) where
  -- Whether a condition of a subscription meets one of those of a dispatch.
  unfoldable pub meets : EventCondition → List EventCondition → Bool
  meets mine [] = false
  meets mine (c ∷ conds) = env.cond_match mine c || meets mine conds

  hit_by-append :
      (x : ℕ) (c : EventCondition) (es fs : List Entry)
      → hit_by env x c (es ++ fs) ≡ (hit_by env x c es || hit_by env x c fs)
  unfolding hit_by
  hit_by-append x c [] fs = refl
  hit_by-append x c (en ∷ es) fs = ground (arith, hit_by-append x c es fs)

  hit_by-here :
      (c : EventCondition) (en : Entry) (es fs : List Entry)
      → env.cond_match en.condition c ≡ true
      → hit_by env en.id c ((es ++ en ∷ []) ++ fs) ≡ true
  unfolding hit_by
  hit_by-here c en es fs h =
      ground (arith, hit_by-append en.id c (es ++ en ∷ []) fs, hit_by-append en.id c es (en ∷ []))

  -- An entry that meets a condition of the dispatch is hit, wherever it stands.
  pub is_hit-meets :
      (conds : List EventCondition) (en : Entry) (es fs : List Entry)
      → meets en.condition conds ≡ true
      → is_hit env en.id conds ((es ++ en ∷ []) ++ fs) ≡ true
  unfolding is_hit meets
  is_hit-meets [] en es fs h = h
  is_hit-meets (c ∷ conds) en es fs h =
      ground (arith, hit_by-here c en es fs, is_hit-meets conds en es fs)
