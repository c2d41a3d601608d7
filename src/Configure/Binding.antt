-- ===== src/Configure/Binding.antt =====
-- internal/configure/config.go: the keys of `BindEnvs` against the paths of the values.
use event_api.Base.{
  is_listed, ◌≡◌, refl, List, [], ◌∷◌, ◌++◌, map, none, some, Bool, true, false, ◌||◌, Bytes,
  bytes_dec, ite, arith, ap, sym, ◌∙◌, ◌↔◌, inl, inr, Bool-cases, if_pos,
}
use mathlib.Core.List.{append_assoc, append-nil}
use event_api.Configure.{Shape, value, struct, Fields, end, field, join, bind_envs, bind_field}

-- The paths from the root to the values, by their tags, a field without a tag left out.
unfoldable mutual
  pub paths : Fields → List (List Bytes)
  paths end = []
  paths (field none s rest) = paths rest
  paths (field (some tag) s rest) = map (◌∷◌ tag) (paths_below s) ++ paths rest

  pub paths_below : Shape → List (List Bytes)
  paths_below value = [] ∷ []
  paths_below (struct fs) = paths fs

-- Whether one gets from the root to a value by following tags.
unfoldable mutual
  pub leads : Fields → List Bytes → Bool
  leads end path = false
  leads (field none s rest) path = leads rest path
  leads (field (some tag) s rest) [] = leads rest []
  leads (field (some tag) s rest) (t ∷ path) =
      ite (bytes_dec t tag) (leads_below s path) false || leads rest (t ∷ path)

  pub leads_below : Shape → List Bytes → Bool
  leads_below value [] = true
  leads_below value (t ∷ path) = false
  leads_below (struct fs) path = leads fs path

abbrev pub same_path : List Bytes → List Bytes → Bool
same_path [] [] = true
same_path (s ∷ p) (t ∷ q) = ite (bytes_dec s t) (same_path p q) false
same_path _ _ = false

-- Whether a path is listed.
unfoldable pub is_path : List Bytes → List (List Bytes) → Bool
is_path p [] = false
is_path p (q ∷ qs) = same_path p q || is_path p qs

is_path-append :
    (p : List Bytes) (qs rs : List (List Bytes))
    → is_path p (qs ++ rs) ≡ (is_path p qs || is_path p rs)
unfolding is_path
is_path-append p [] rs = refl
is_path-append p (q ∷ qs) rs = ground (arith, is_path-append p qs rs)

is_path-map-nil : (tag : Bytes) (qs : List (List Bytes)) → is_path [] (map (◌∷◌ tag) qs) ≡ false
unfolding is_path
is_path-map-nil tag [] = refl
is_path-map-nil tag (q ∷ qs) = is_path-map-nil tag qs

is_path-map :
    (tag t : Bytes) (p : List Bytes) (qs : List (List Bytes))
    → is_path (t ∷ p) (map (◌∷◌ tag) qs) ≡ ite (bytes_dec t tag) (is_path p qs) false
unfolding is_path
is_path-map tag t p [] = ground arith
is_path-map tag t p (q ∷ qs) = ground (arith, is_path-map tag t p qs)

mutual
  unfolding is_path paths leads

  is_path-leads : (fs : Fields) (p : List Bytes) → is_path p (paths fs) ≡ leads fs p
  is_path-leads end p = refl
  is_path-leads (field none s rest) p = is_path-leads rest p
  is_path-leads (field (some tag) s rest) [] = ground (
    arith,
    is_path-append [] (map (◌∷◌ tag) (paths_below s)) (paths rest),
    is_path-map-nil tag (paths_below s),
    is_path-leads rest [],
  )
  is_path-leads (field (some tag) s rest) (t ∷ p) = ground (
    arith,
    is_path-append (t ∷ p) (map (◌∷◌ tag) (paths_below s)) (paths rest),
    is_path-map tag t p (paths_below s),
    is_path-leads_below s p,
    is_path-leads rest (t ∷ p),
  )

  is_path-leads_below : (s : Shape) (p : List Bytes) → is_path p (paths_below s) ≡ leads_below s p
  is_path-leads_below value [] = refl
  is_path-leads_below value (t ∷ p) = refl
  is_path-leads_below (struct fs) p = is_path-leads fs p

-- The keys of some paths below a path.
abbrev keys_below : List Bytes → List (List Bytes) → List Bytes
keys_below parts = map (λ p. join b'.' (parts ++ p))

keys_below-field :
    (parts : List Bytes) (tag : Bytes) (qs rs : List (List Bytes))
    → keys_below (parts ++ tag ∷ []) qs ++ keys_below parts rs
      ≡ keys_below parts (map (◌∷◌ tag) qs ++ rs)
keys_below-field parts tag [] rs = refl
keys_below-field parts tag (q ∷ qs) rs =
    rw (append_assoc parts (tag ∷ []) q)
      (ap (◌∷◌ (join b'.' (parts ++ tag ∷ q))) (keys_below-field parts tag qs rs))

mutual
  unfolding bind_envs paths

  bind_envs-paths :
      (fs : Fields) (parts : List Bytes) → bind_envs fs parts ≡ keys_below parts (paths fs)
  bind_envs-paths end parts = refl
  bind_envs-paths (field none s rest) parts = bind_envs-paths rest parts
  bind_envs-paths (field (some tag) s rest) parts =
      rw (bind_field-paths s (parts ++ tag ∷ []), bind_envs-paths rest parts)
        (keys_below-field parts tag (paths_below s) (paths rest))

  bind_field-paths :
      (s : Shape) (parts : List Bytes) → bind_field s parts ≡ keys_below parts (paths_below s)
  bind_field-paths value parts = ap (λ p. join b'.' p ∷ []) (sym (append-nil parts))
  bind_field-paths (struct fs) parts = bind_envs-paths fs parts

same_path_refl : (p : List Bytes) → same_path p p ≡ true
same_path_refl [] = refl
same_path_refl (s ∷ p) = ground (arith, same_path_refl p)

same_path_eq : (p q : List Bytes) → same_path p q ≡ true → p ≡ q
same_path_eq [] [] h = refl
same_path_eq [] (t ∷ q) h = cc
same_path_eq (s ∷ p) [] h = cc
same_path_eq (s ∷ p) (t ∷ q) h = ground (arith, same_path_eq p q)

module _ (f : List Bytes → Bytes) (k : Bytes) where
  is_listed-of_path :
      (p : List Bytes) (qs : List (List Bytes))
      → is_path p qs ≡ true
      → k ≡ f p
      → is_listed k (map f qs) ≡ true
  unfolding is_path is_listed
  is_listed-of_path p [] h e = h
  is_listed-of_path p (q ∷ qs) h e = elim (Bool-cases (same_path p q)) [
    | inl same ↦ rw (if_pos (bytes_dec k (f q)) (e ∙ ap f (same_path_eq p q same))) refl
    | inr other ↦ ground (arith, is_listed-of_path p qs)
  ]

  path_of-is_listed :
      (qs : List (List Bytes))
      → is_listed k (map f qs) ≡ true
      → (p : List Bytes) × (is_path p qs ≡ true) × (k ≡ f p)
  unfolding is_path is_listed
  path_of-is_listed [] h = cc
  path_of-is_listed (q ∷ qs) h = elim (bytes_dec k (f q)) [
    | yes e ↦ (q, ground (arith, same_path_refl q), e)
    | no n ↦
        let (p, there, e) = path_of-is_listed qs (ground arith) in (p, ground (arith, there), e)
  ]

-- `BindEnvs` binds one key for each path of tags to a value, in the order of the fields, which is the
-- tags of the path joined by dots; so a key is bound exactly if one gets from the root to a value by
-- following tags whose join is the key. A field without a tag is left out with all that it holds.
pub bind_envs_lem :
    (fs : Fields)
    → (bind_envs fs [] ≡ map (join b'.') (paths fs))
      × ((k : Bytes)
          → (is_listed k (bind_envs fs []) ≡ true)
            ↔ ((p : List Bytes) × (leads fs p ≡ true) × (k ≡ join b'.' p)))
bind_envs_lem fs =
    let keys = bind_envs-paths fs [] in
    (
      keys,
      λ k. (
        λ h.
            let (p, there, e) =
              path_of-is_listed (join b'.') k (paths fs) (ap (is_listed k) (sym keys) ∙ h) in
            (p, sym (is_path-leads fs p) ∙ there, e),
        λ h.
            ap (is_listed k) keys
            ∙ is_listed-of_path (join b'.') k h.0 (paths fs) (is_path-leads fs h.0 ∙ h.1) h.2,
      ),
    )
