-- ===== src/Connection/EventMap/Conditions.antt =====
-- internal/app/connection/connection.go: `EventChannel.Match` against the entries of a channel.
use event_api.Base.{
  ℕ, zero, suc, ◌+◌, ◌<◌, ◌≡◌, refl, List, [], ◌∷◌, Option, some, Bool, true, false, ◌||◌, ite,
  ℕ_discrete, get_elem?, length, leb, Bool-cases, arith, ap, ◌∙◌, inl, inr,
}
use event_api.Connection.Types.{Env, EnvLaws, EventCondition, contains}
use event_api.Connection.EventMap.{EventChannel}
use event_api.Connection.EventMap.Lookup.{match_condition, match_all, match_channel}
use event_api.Connection.EventMap.View.{
  Entry, channel_of, channel_entries, IsChannel, entry_ids, entry_conditions, not_nil,
}

get_elem?-lt : {A : Type 0} (xs : List A) (i : ℕ) {x : A} → get_elem? xs i ≡ some x → i < length xs
get_elem?-lt [] i e = absurd (ground arith)
get_elem?-lt (y ∷ xs) zero e = omega arith
get_elem?-lt (y ∷ xs) (suc i) e = omega (arith, get_elem?-lt xs i e)

shift : (k i : ℕ) → k + suc i ≡ suc k + i
shift k i = omega arith

at_zero : (i : ℕ) → i ≡ 0 + i
at_zero i = omega arith

leb_lt : (i n : ℕ) → i < n → leb i n ≡ true
leb_lt i n p = ground arith

module _ {S : Type 0} (env : Env S) where
  -- Whether an identifier belongs to an entry that one condition meets.
  unfoldable pub hit_by : ℕ → EventCondition → List Entry → Bool
  hit_by x c [] = false
  hit_by x c (en ∷ es) =
      (ite (ℕ_discrete x en.id) (env.cond_match en.condition c) false) || hit_by x c es

  -- Whether it belongs to an entry that some condition of the dispatch meets.
  unfoldable pub is_hit : ℕ → List EventCondition → List Entry → Bool
  unfolding hit_by
  is_hit x [] es = false
  is_hit x (c ∷ conds) es = hit_by x c es || is_hit x conds es

pub is_hit-nil :
    {S : Type 0} (env : Env S) (x : ℕ) (conds : List EventCondition) → is_hit env x conds [] ≡ false
unfolding is_hit
is_hit-nil env x [] = refl
is_hit-nil env x (c ∷ conds) = is_hit-nil env x conds

module _ {S : Type 0} (env : Env S) (laws : EnvLaws env) where
  match_condition_hit :
      (c : EventCondition) (ids : List ℕ) (i : ℕ) (e : EventCondition) (es : List EventCondition)
      (found : S) {id : ℕ}
      → env.cond_match e c ≡ true
      → get_elem? ids i ≡ some id
      → match_condition env c ids i (e ∷ es) found
        ≡ match_condition env c ids (suc i) es (env.set_add id found)
  unfolding match_condition
  match_condition_hit c ids i e es found m here =
      rw (match_condition, m) (rw (leb_lt i (length ids) (get_elem?-lt ids i here), here))

  match_condition_miss :
      (c : EventCondition) (ids : List ℕ) (i : ℕ) (e : EventCondition) (es : List EventCondition)
      (found : S)
      → env.cond_match e c ≡ false
      → match_condition env c ids i (e ∷ es) found ≡ match_condition env c ids (suc i) es found
  unfolding match_condition
  match_condition_miss c ids i e es found m = rw (m, match_condition)

  -- The inner loop, from index `i` on: what it adds to the set are the entries that match.
  match_condition-hit_by :
      (c : EventCondition) (ids : List ℕ) (es : List Entry) (i : ℕ) (found : S)
      → ((k : ℕ) → get_elem? ids (k + i) ≡ get_elem? (entry_ids es) k)
      → (out : S) × (match_condition env c ids i (entry_conditions es) found ≡ some out)
        × ((x : ℕ) → env.set_has x out ≡ (env.set_has x found || hit_by env x c es))
  unfolding match_condition hit_by
  match_condition-hit_by c ids [] i found h = (found, refl, λ x. ground arith)
  match_condition-hit_by c ids (en ∷ es) i found h =
      let rest = λ (k : ℕ). ap (get_elem? ids) (shift k i) ∙ h (suc k) in
      let here : get_elem? ids i ≡ some en.id = ap (get_elem? ids) (at_zero i) ∙ h 0 in
      elim (Bool-cases (env.cond_match en.condition c)) [
        | inl yes_match ↦
            let (out, e, k) =
              match_condition-hit_by c ids es (suc i) (env.set_add en.id found) rest in
            (
              out,
              match_condition_hit c ids i en.condition (entry_conditions es) found yes_match here
                  ∙ e,
              λ x. ground (arith, yes_match, k x, laws.has-add x en.id found),
            )
        | inr no_match ↦
            let (out, e, k) = match_condition-hit_by c ids es (suc i) found rest in
            (
              out,
              match_condition_miss c ids i en.condition (entry_conditions es) found no_match ∙ e,
              λ x. ground (arith, no_match, k x),
            )
      ]

  match_all-is_hit :
      (conds : List EventCondition) (ctx : Option ℕ) (es : List Entry) (found : S)
      → (out : S) × (match_all env conds (channel_of ctx es) found ≡ some out)
        × ((x : ℕ) → env.set_has x out ≡ (env.set_has x found || is_hit env x conds es))
  unfolding match_all is_hit
  match_all-is_hit [] ctx es found = (found, refl, λ x. ground arith)
  match_all-is_hit (c ∷ conds) ctx es found =
      let (mid, e, h) =
        match_condition-hit_by c (entry_ids es) es 0 found
          (λ k. ap (get_elem? (entry_ids es)) (plus_zero k)) in
      let (out, f, k) = match_all-is_hit conds ctx es mid in
      (out, rw (e, match_all) f, λ x. ground (arith, h x, k x))
    where
      plus_zero : (k : ℕ) → k + 0 ≡ k
      plus_zero k = omega arith

  -- `Match` on a channel that stands for some entries does not panic, and its answer holds exactly
  -- the identifiers of the entries that some condition of the dispatch meets.
  pub match_channel-is_hit :
      (conds : List EventCondition) (ec : EventChannel)
      → IsChannel ec
      → (out : List ℕ) × (match_channel env conds ec ≡ some out)
        × ((x : ℕ) → contains x out ≡ is_hit env x conds (channel_entries ec))
  unfolding match_channel
  match_channel-is_hit conds ec h =
      let (found, e, k) = match_all-is_hit conds ec.ctx (channel_entries ec) env.empty_set in
      (
        env.set_values found,
        rw (not_nil ec h)
            (rw (ap (λ (c : EventChannel). match_all env conds c env.empty_set) h.aligned ∙ e)),
        λ x.
            laws.contains-values x found
            ∙ k x
            ∙ ap (λ b. b || is_hit env x conds (channel_entries ec)) (laws.has-empty_set x),
      )
