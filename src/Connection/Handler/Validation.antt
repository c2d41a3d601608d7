-- ===== src/Connection/Handler/Validation.antt =====
-- internal/app/connection/handle.go: which subscriptions pass the guards of `Subscribe`.
use event_api.Base.{
  ℕ, ℤ, suc, ◌+◌, ◌≤◌, ◌≡◌, refl, ◌≢◌, ◌↔◌, ◌⊎◌, inl, inr, List, [], ◌∷◌, none, Bool, true, false,
  not, ◌&&◌, Bytes, split, length, at_least, All, ite, occurrences, ℕ_discrete, arith,
}
use event_api.Connection.Types.{SubscribePayload, EventCondition}
use event_api.Connection.EventMap.{is_nil}
use event_api.Connection.Handler.{
  check_condition, check_subscribe, event_type_max_length, subscription_condition_max,
  subscription_condition_key_max_length, subscription_condition_value_max_length,
}

-- Every key and every value of a condition is short enough.
abbrev pub IsShort : EventCondition → Type 0
IsShort = All λ kv.
    (length kv.0 ≤ subscription_condition_key_max_length)
    × (length kv.1 ≤ subscription_condition_value_max_length)

check_condition-none :
    (total pos : ℕ) (cond : EventCondition)
    → check_condition total pos cond ≡ none
    → IsShort cond × ((cond ≡ []) ⊎ (pos + length cond ≤ subscription_condition_max + 1))
unfolding check_condition
check_condition-none total pos [] h = (tt, inl refl)
check_condition-none total pos ((k, v) ∷ rest) h =
    ground (arith, check_condition-none total (suc pos) rest)

check_condition_fits :
    (total pos : ℕ) (cond : EventCondition)
    → IsShort cond
    → pos + length cond ≤ subscription_condition_max + 1
    → check_condition total pos cond ≡ none
unfolding check_condition
check_condition_fits total pos [] s h = refl
check_condition_fits total pos ((k, v) ∷ rest) s h =
    ground (arith, check_condition_fits total (suc pos) rest s.1)

-- The loop over a condition lets it through exactly if every key has at most 64 bytes, every value
-- at most 128, and there are at most eleven of them: one more than the maximum that the refusal
-- names.
pub check_condition-eleven :
    (total : ℕ) (cond : EventCondition)
    → (check_condition total 0 cond ≡ none)
      ↔ (IsShort cond × (length cond ≤ subscription_condition_max + 1))
check_condition-eleven total cond = (
  λ h. ground (arith, check_condition-none total 0 cond h),
  λ h. check_condition_fits total 0 cond h.0 (omega arith),
)

abbrev pub is_byte : ℕ → ℕ → Bool
is_byte b c = ite (ℕ_discrete c b) true false

pub length-split : (sep : ℕ) (s : Bytes) → length (split sep s) ≡ 1 + occurrences (is_byte sep) s
unfolding split occurrences
length-split sep [] = omega arith
length-split sep (c ∷ s) = ground (arith, length-split sep s)

-- The requests that `Subscribe` may grant.
pub record IsAcceptable (limit : ℤ) (count : ℕ) (actor : Bool) (p : SubscribePayload) : Type 0 where
  pub dotted : 1 ≤ occurrences (is_byte b'.') p.event_type
  pub targeted : (p.condition ≢ []) ⊎ (actor ≡ true)
  pub within_limit : at_least count limit ≡ false
  pub short_type : length p.event_type ≤ event_type_max_length
  pub short_condition : IsShort p.condition
  pub few_conditions : length p.condition ≤ subscription_condition_max + 1

pub nil_true : {A : Type 0} (l : List A) → is_nil l ≡ true → l ≡ []
nil_true [] h = refl
nil_true (x ∷ l) h = cc

nil_false : {A : Type 0} (l : List A) → l ≢ [] → is_nil l ≡ false
nil_false [] h = absurd (h refl)
nil_false (x ∷ l) h = refl

pub targeted_or :
    (cond : EventCondition) (actor : Bool)
    → (is_nil cond && not actor) ≡ false
    → (cond ≢ []) ⊎ (actor ≡ true)
targeted_or [] true h = inr refl
targeted_or [] false h = cc
targeted_or (kv ∷ cond) actor h = inl (λ e. cc)

not_anonymous :
    (cond : EventCondition) (actor : Bool)
    → (cond ≢ []) ⊎ (actor ≡ true)
    → (is_nil cond && not actor) ≡ false
not_anonymous cond actor (inl h) = rw (nil_false cond h)
not_anonymous [] actor (inr h) = rw h
not_anonymous (kv ∷ cond) actor (inr h) = refl

some_type : (t : Bytes) → 1 ≤ occurrences (is_byte b'.') t → is_nil t ≡ false
unfolding occurrences
some_type [] h = absurd (omega arith)
some_type (c ∷ t) h = refl

module _ (limit : ℤ) (count : ℕ) (actor : Bool) (p : SubscribePayload) where
  IsAcceptable-of_none :
      check_subscribe limit count actor p ≡ none → IsAcceptable limit count actor p
  unfolding check_subscribe
  IsAcceptable-of_none h =
      let shape = length-split b'.' p.event_type in
      let loop = (check_condition-eleven (length p.condition) p.condition).0 (ground arith) in
      record {
        dotted = ground (arith, shape);
        targeted = ground (arith, targeted_or p.condition actor (ground arith));
        within_limit = ground arith;
        short_type = ground arith;
        short_condition = loop.0;
        few_conditions = loop.1;
      }

  none_of_acceptable : IsAcceptable limit count actor p → check_subscribe limit count actor p ≡ none
  unfolding check_subscribe
  none_of_acceptable a =
      let shape = length-split b'.' p.event_type in
      let loop =
        (check_condition-eleven (length p.condition) p.condition).1
          (a.short_condition, a.few_conditions) in
      ground (
        arith,
        shape,
        loop,
        not_anonymous p.condition actor a.targeted,
        some_type p.event_type a.dotted,
      )

  -- `Subscribe` has no objection exactly to the acceptable requests: the event type has a dot and at
  -- most 64 bytes, there is a condition or an authenticated user, the count of subscriptions is below
  -- the limit, and the condition passes its loop.
  pub check_subscribe-IsAcceptable :
      (check_subscribe limit count actor p ≡ none) ↔ IsAcceptable limit count actor p
  check_subscribe-IsAcceptable = (IsAcceptable-of_none, none_of_acceptable)
