-- ===== src/Connection/Handler/Refusals.antt =====
-- internal/app/connection/handle.go: what `Subscribe` answers a request that does not pass its guards.
use Prim.Native.String.{String}
use event_api.Base.{
  ℕ, ℤ, suc, ◌+◌, ◌≤◌, ◌<◌, ◌≡◌, refl, ◌≢◌, ◌⊎◌, List, [], ◌∷◌, ◌++◌, Option, some, Bool, true,
  false, not, ◌&&◌, ◌||◌, if◌then◌else◌, Bytes, split, length, at_least, ltb, occurrences, arith,
  ap, subst, some_injective,
}
use event_api.Connection.Types.{CloseCode, SubscribePayload, EventCondition}
use event_api.Connection.EventMap.{is_nil}
use event_api.Connection.Handler.{
  check_condition, check_subscribe, Refusal, event_type_max_length, subscription_condition_max,
  subscription_condition_key_max_length, subscription_condition_value_max_length,
}
use event_api.Connection.Handler.Validation.{IsShort, is_byte, length-split, nil_true, targeted_or}

-- Why the loop over a condition, that has passed `pos` pairs before, refuses it: the first pair that
-- it does not pass comes after too many others, or else its key or its value is too long.
pub data IsUnfit (pos : ℕ) (cond : EventCondition) : String → CloseCode → Type 0 where
  too_many :
      (before after : EventCondition) (k v : Bytes)
      → cond ≡ before ++ (k, v) ∷ after
      → IsShort before
      → 10 < pos + length before
      → IsUnfit pos cond "Subscription Condition Too Large" CloseCode.rate_limit
  too_large :
      (before after : EventCondition) (k v : Bytes)
      → cond ≡ before ++ (k, v) ∷ after
      → IsShort before
      → pos + length before ≤ 10
      → (64 < length k) ⊎ (128 < length v)
      → IsUnfit pos cond "Subscription Condition Key Too Large" CloseCode.rate_limit

-- The error and the close code that a request is refused with: of what is wrong with it, the first in
-- this order.
pub data IsRefusal (limit : ℤ) (count : ℕ) (actor : Bool) (p : SubscribePayload)
    : String → CloseCode → Type 0 where
  missing_type :
      p.event_type ≡ []
      → IsRefusal limit count actor p "Missing event type" CloseCode.invalid_payload
  no_path :
      p.event_type ≢ []
      → occurrences (is_byte b'.') p.event_type ≡ 0
      → IsRefusal limit count actor p "Bad event type path" CloseCode.invalid_payload
  wildcard :
      1 ≤ occurrences (is_byte b'.') p.event_type
      → p.condition ≡ []
      → actor ≡ false
      → IsRefusal limit count actor p "Wildcard event target subscription requires authentication"
          CloseCode.insufficient_privilege
  too_many_subscriptions :
      1 ≤ occurrences (is_byte b'.') p.event_type
      → (p.condition ≢ []) ⊎ (actor ≡ true)
      → at_least count limit ≡ true
      → IsRefusal limit count actor p "Too Many Active Subscriptions!" CloseCode.rate_limit
  long_type :
      1 ≤ occurrences (is_byte b'.') p.event_type
      → (p.condition ≢ []) ⊎ (actor ≡ true)
      → at_least count limit ≡ false
      → 64 < length p.event_type
      → IsRefusal limit count actor p "Event Type Too Large" CloseCode.rate_limit
  unfit :
      {txt : String} {code : CloseCode}
      → 1 ≤ occurrences (is_byte b'.') p.event_type
      → (p.condition ≢ []) ⊎ (actor ≡ true)
      → at_least count limit ≡ false
      → length p.event_type ≤ 64
      → IsUnfit 0 p.condition txt code
      → IsRefusal limit count actor p txt code

-- What refuses by a guard, or after it.
by_guard :
    (P : Refusal → Type 0) (b : Bool) (y x : Refusal) (rest : Option Refusal)
    → (if b then some y else rest) ≡ some x
    → (b ≡ true → P y)
    → (b ≡ false → rest ≡ some x → P x)
    → P x
by_guard P true y x rest e here later = subst P (some_injective e) (here refl)
by_guard P false y x rest e here later = later refl e

one_more :
    {pos : ℕ} {k v : Bytes} {rest : EventCondition} {txt : String} {code : CloseCode}
    → length k ≤ 64
    → length v ≤ 128
    → IsUnfit (suc pos) rest txt code
    → IsUnfit pos ((k, v) ∷ rest) txt code
one_more {k = k} {v = v} a b (too_many before after k' v' e short many) =
    too_many ((k, v) ∷ before) after k' v' (ap (λ (c : EventCondition). (k, v) ∷ c) e)
      ((a, b), short) (omega arith)
one_more {k = k} {v = v} a b (too_large before after k' v' e short few long) =
    too_large ((k, v) ∷ before) after k' v' (ap (λ (c : EventCondition). (k, v) ∷ c) e)
      ((a, b), short) (omega arith) long

long_one : (a b : ℕ) → (ltb 64 a || ltb 128 b) ≡ true → (64 < a) ⊎ (128 < b)
long_one a b h = ground arith

check_condition-IsUnfit :
    (total pos : ℕ) (cond : EventCondition) (x : Refusal)
    → check_condition total pos cond ≡ some x
    → IsUnfit pos cond x.txt x.code
unfolding check_condition
check_condition-IsUnfit total pos [] x e = absurd (ground arith)
check_condition-IsUnfit total pos ((k, v) ∷ rest) x e =
    by_guard (λ r. IsUnfit pos ((k, v) ∷ rest) r.txt r.code) (ltb subscription_condition_max pos) _
      x _ e (λ many. too_many [] rest k v refl tt (ground arith))
      (λ few e'.
        by_guard (λ r. IsUnfit pos ((k, v) ∷ rest) r.txt r.code)
          (ltb subscription_condition_key_max_length (length k)
            || ltb subscription_condition_value_max_length (length v))
          _ x _ e'
          (λ long.
            too_large [] rest k v refl tt (ground arith) (long_one (length k) (length v) long))
          (λ short e''.
            one_more (ground arith) (ground arith)
              (check_condition-IsUnfit total (suc pos) rest x e'')))

not_nil_of : {A : Type 0} (xs : List A) → is_nil xs ≡ false → xs ≢ []
not_nil_of [] h = cc
not_nil_of (x ∷ xs) h = λ e. cc

pub check_subscribe-IsRefusal :
    (limit : ℤ) (count : ℕ) (actor : Bool) (p : SubscribePayload) (x : Refusal)
    → check_subscribe limit count actor p ≡ some x
    → IsRefusal limit count actor p x.txt x.code
unfolding check_subscribe
check_subscribe-IsRefusal limit count actor p x e =
    let parts = length-split b'.' p.event_type in
    by_guard Is (is_nil p.event_type) _ x _ e (λ h. missing_type (nil_true p.event_type h))
      (λ there e1.
        by_guard Is (ltb (length (split b'.' p.event_type)) 2) _ x _ e1
          (λ h. no_path (not_nil_of p.event_type there) (ground (arith, parts)))
          (λ path e2.
            let dotted : 1 ≤ occurrences (is_byte b'.') p.event_type = ground (arith, parts) in
            by_guard Is (is_nil p.condition && not actor) _ x _ e2
              (λ h. wildcard dotted (nil_true p.condition (ground arith)) (ground arith))
              (λ target e3.
                by_guard Is (at_least count limit) _ x _ e3
                  (λ h. too_many_subscriptions dotted (targeted_or p.condition actor target) h)
                  (λ room e4.
                    by_guard Is (ltb event_type_max_length (length p.event_type)) _ x _ e4
                      (λ h.
                        long_type dotted (targeted_or p.condition actor target) room (ground arith))
                      (λ short e5.
                        unfit dotted (targeted_or p.condition actor target) room (ground arith)
                          (check_condition-IsUnfit (length p.condition) 0 p.condition x e5))))))
  where
    Is : Refusal → Type 0
    Is r = IsRefusal limit count actor p r.txt r.code
