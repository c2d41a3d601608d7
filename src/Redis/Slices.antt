-- ===== src/Redis/Slices.antt =====
-- internal/instance/redis.go: a removal from the middle of a slice, as the loop of `WrapRedis` makes it.
use event_api.Base.{
  ◌≤◌, ◌≡◌, refl, List, [], ◌∷◌, ◌++◌, some, Bool, get_elem?, length, set, swap_remove, move_last,
  init, last_or, occurrences, occurrences-append, arith, ap, ◌∙◌,
}
use event_api.Redis.{RedisSub, index_of, is_address}

-- What `removeRedisSub` puts into the hole and leaves of the rest.
abbrev pub moved : {A : Type 0} → List A → List A
moved [] = []
moved (y ∷ ys) = last_or y ys ∷ init (y ∷ ys)

pub get_elem?-middle :
    {A : Type 0} (a : List A) (x : A) (b : List A) → get_elem? (a ++ x ∷ b) (length a) ≡ some x
get_elem?-middle [] x b = refl
get_elem?-middle (y ∷ a) x b = get_elem?-middle a x b

last_or-middle :
    {A : Type 0} (d : A) (a : List A) (x : A) (b : List A) → last_or d (a ++ x ∷ b) ≡ last_or x b
last_or-middle d [] x b = refl
last_or-middle d (y ∷ a) x b = last_or-middle y a x b

set-middle :
    {A : Type 0} (a : List A) (x v : A) (b : List A) → set (a ++ x ∷ b) (length a) v ≡ a ++ v ∷ b
set-middle [] x v b = refl
set-middle (y ∷ a) x v b = ap (◌∷◌ y) (set-middle a x v b)

init-append : {A : Type 0} (a : List A) (x : A) (b : List A) → init (a ++ x ∷ b) ≡ a ++ init (x ∷ b)
init-append [] x b = refl
init-append (y ∷ []) x b = refl
init-append (y ∷ z ∷ a) x b = ap (◌∷◌ y) (init-append (z ∷ a) x b)

init-moved : {A : Type 0} (x : A) (b : List A) → init (last_or x b ∷ b) ≡ moved b
init-moved x [] = refl
init-moved x (y ∷ b) = refl

move_last-middle :
    {A : Type 0} (a : List A) (x : A) (b : List A)
    → move_last (a ++ x ∷ b) (length a) ≡ a ++ last_or x b ∷ b
move_last-middle [] x b = refl
move_last-middle (y ∷ a) x b =
    set-middle (y ∷ a) x (last_or y (a ++ x ∷ b)) b
    ∙ ap (λ v. (y ∷ a) ++ v ∷ b) (last_or-middle y a x b)

pub swap_remove-middle :
    {A : Type 0} (a : List A) (x : A) (b : List A)
    → swap_remove (a ++ x ∷ b) (length a) ≡ a ++ moved b
swap_remove-middle a x b =
    ap init (move_last-middle a x b)
    ∙ init-append a (last_or x b) b
    ∙ ap (λ l. a ++ l) (init-moved x b)

pub occurrences-moved :
    (p : RedisSub → Bool) (b : List RedisSub) → occurrences p (moved b) ≡ occurrences p b
unfolding occurrences
occurrences-moved p [] = refl
occurrences-moved p (y ∷ []) = refl
occurrences-moved p (y ∷ z ∷ b) = ground (arith, occurrences-moved p (z ∷ b))

-- With distinct addresses the search for a pointer finds it where it was read.
pub index_of-middle :
    (a : List RedisSub) (x : RedisSub) (b : List RedisSub)
    → occurrences (is_address x.address) (a ++ x ∷ b) ≤ 1
    → index_of (is_address x.address) (a ++ x ∷ b) ≡ some (length a)
unfolding index_of occurrences
index_of-middle [] x b h = ground arith
index_of-middle (y ∷ a) x b h =
    ground (arith, index_of-middle a x b, occurrences-append (is_address x.address) a (x ∷ b))
