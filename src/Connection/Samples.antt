-- ===== src/Connection/Samples.antt =====
-- internal/app/connection: concrete functions in the place of those that the code calls from other
-- packages, which keep what `EnvLaws` states of them. Sets are lists; `SliceRemove` moves the last
-- element into the hole; a condition matches if it is equal; an encoded dispatch is its event type.
use event_api.Base.{
  ℕ, zero, suc, ◌+◌, ◌≡◌, refl, List, [], ◌∷◌, map, none, some, Bool, true, false, Bytes, codes,
  bytes_dec, ite, ℕ_discrete, move_last, swap_remove, occurrences-swap_remove, set, length,
  length-set, last_or, init, ap, ◌∙◌, arith, ◌&&◌,
}
use event_api.Connection.Types.{Env, EnvLaws, EventCondition, DispatchPayload, contains}

map-init : {A B : Type 0} (f : A → B) (xs : List A) → map f (init xs) ≡ init (map f xs)
map-init f [] = refl
map-init f (x ∷ []) = refl
map-init f (x ∷ y ∷ xs) = ap (◌∷◌ (f x)) (map-init f (y ∷ xs))

map-set :
    {A B : Type 0} (f : A → B) (xs : List A) (i : ℕ) (v : A)
    → map f (set xs i v) ≡ set (map f xs) i (f v)
map-set f [] i v = refl
map-set f (x ∷ xs) zero v = refl
map-set f (x ∷ xs) (suc i) v = ap (◌∷◌ (f x)) (map-set f xs i v)

last_or-map :
    {A B : Type 0} (f : A → B) (d : A) (xs : List A) → f (last_or d xs) ≡ last_or (f d) (map f xs)
last_or-map f d [] = refl
last_or-map f d (x ∷ xs) = last_or-map f x xs

map-move_last :
    {A B : Type 0} (f : A → B) (xs : List A) (i : ℕ)
    → map f (move_last xs i) ≡ move_last (map f xs) i
map-move_last f [] i = refl
map-move_last f (x ∷ xs) i =
    map-set f (x ∷ xs) i (last_or x xs) ∙ ap (set (map f (x ∷ xs)) i) (last_or-map f x xs)

length-move_last : {A : Type 0} (xs : List A) (i : ℕ) → length (move_last xs i) ≡ length xs
length-move_last [] i = refl
length-move_last (x ∷ xs) i = length-set (x ∷ xs) i (last_or x xs)

-- A set without a number.
unfoldable pub without : ℕ → List ℕ → List ℕ
without x [] = []
without x (y ∷ ys) = ite (ℕ_discrete x y) (without x ys) (y ∷ without x ys)

contains-without :
    (x y : ℕ) (s : List ℕ) → contains x (without y s) ≡ ite (ℕ_discrete x y) false (contains x s)
unfolding contains without
contains-without x y [] = ground arith
contains-without x y (z ∷ s) = ground (arith, contains-without x y s)

abbrev pub same_text : Bytes → Bytes → Bool
same_text a b = ite (bytes_dec a b) true false

abbrev pub same_condition : EventCondition → EventCondition → Bool
same_condition [] [] = true
same_condition ((k, v) ∷ c) ((k', v') ∷ d) =
    same_text k k' && (same_text v v' && same_condition c d)
same_condition _ _ = false

abbrev pub emote_update : Bytes
emote_update = codes "emote.update"

abbrev pub object_is_1 : EventCondition
object_is_1 = (codes "object_id", codes "1") ∷ []

abbrev pub plain_dispatch : Bytes → DispatchPayload
plain_dispatch t = record {
  event_type = t;
  conditions = object_is_1 ∷ [];
  whisper = [];
  hash = some 7;
  effect = none;
  matches = [];
  body = [];
}

abbrev pub sample_env : Env (List ℕ)
sample_env = record {
  cond_match = same_condition;
  dispatch_key = λ t c. t;
  object_name = λ t. codes "emote";
  convert_subscribe = λ m. some (record { event_type = m.payload; condition = object_is_1 });
  unmarshal_dispatch = λ raw. some (plain_dispatch raw);
  bridge = λ sid m. some (plain_dispatch m.payload ∷ []);
  slice_remove = λ A xs i. swap_remove xs i;
  slice_left = λ A xs i. move_last xs i;
  marshal = λ m. some (codes "{}");
  op_name = λ op. codes "op";
  format_int = λ n. codes "0";
  write_ok = λ n. true;
  rand = λ n. n + 100;
  empty_set = [];
  set_has = contains;
  set_add = λ x s. x ∷ s;
  set_delete = without;
  set_values = λ s. s;
}

pub sample_env-EnvLaws : EnvLaws sample_env
unfolding contains
sample_env-EnvLaws = record {
  slice_remove-map = λ A B f xs i. map-init f (move_last xs i) ∙ ap init (map-move_last f xs i);
  slice_remove-occurrences = λ A p xs i e. occurrences-swap_remove p xs i e;
  slice_left-map = λ A B f xs i. map-move_last f xs i;
  slice_left-length = λ A xs i. length-move_last xs i;
  slice_left-one = λ A x. refl;
  has-empty_set = λ x. refl;
  has-add = λ x y s. refl;
  has-delete = contains-without;
  contains-values = λ x s. refl;
}
