-- ===== src/Connection/EventMap/Linking/Steps.antt =====
-- internal/app/connection/connection.go with internal/nats/subscription.go: what an entry that is
-- appended or removed means for the dispatch keys in the registry.
use event_api.Base.{
  ℕ, ◌≡◌, refl, ◌≢◌, ◌<◌, ◌≤◌, ◌⊎◌, inl, inr, List, [], ◌∷◌, ◌++◌, none, some, Bool, true, false,
  ite, Bytes, bytes_dec, occurrences, occurrences-append, if_pos, if_neg, arith, ap, sym, ◌∙◌,
  is_listed, subst, get_elem?,
}
use event_api.Nats
use event_api.Nats.{Registry, is_subscribed}
use event_api.Nats.Laws.{IsConsistent}
use event_api.Nats.Subscribing.{is_subscribed-subscribe, subscribe-IsConsistent}
use event_api.Nats.Unsubscribing.{is_subscribed-unsubscribe, unsubscribe-IsConsistent}
use event_api.Connection.Types.{Env, EnvLaws}
use event_api.Connection.EventMap.{EventMap}
use event_api.Connection.EventMap.View.{Entry, IsValid, view, find_entry}
use event_api.Connection.EventMap.Linking.{
  has_key, with_key, KeyLaws, IsLinked, with_key-find_entry, key_apart,
}

-- A session is subscribed to a key that it has been given, and to those that it had.
pub is_subscribed_more :
    (sub : Nats.Subscription) (key : Bytes) (r : Registry) (k : Bytes)
    → (key ≡ k) ⊎ (is_subscribed r sub.session_id k ≡ true)
    → is_subscribed (Nats.subscribe sub (key ∷ []) r) sub.session_id k ≡ true
unfolding is_listed
is_subscribed_more sub key r k (inl p) =
    ground (arith, is_subscribed-subscribe sub (key ∷ []) r sub.session_id k, sym p)
is_subscribed_more sub key r k (inr h) =
    ground (arith, is_subscribed-subscribe sub (key ∷ []) r sub.session_id k)

-- It keeps the keys that it does not give up.
pub is_subscribed_less :
    (sub : Nats.Subscription) (key : Bytes) (r : Registry) (k : Bytes)
    → IsConsistent r
    → key ≢ k
    → is_subscribed r sub.session_id k ≡ true
    → is_subscribed (Nats.unsubscribe sub (key ∷ []) r) sub.session_id k ≡ true
is_subscribed_less sub key r k c n h =
    ground
      (arith, is_subscribed-unsubscribe sub key r sub.session_id k c, λ (p : k ≡ key). n (sym p))

-- The keys that a session has after it has been given one, or has given one up, are not new.
is_subscribed_before :
    (sub : Nats.Subscription) (key : Bytes) (r : Registry) (k : Bytes)
    → key ≢ k
    → is_subscribed (Nats.subscribe sub (key ∷ []) r) sub.session_id k ≡ true
    → is_subscribed r sub.session_id k ≡ true
unfolding is_listed
is_subscribed_before sub key r k n h = ground (
  arith,
  is_subscribed-subscribe sub (key ∷ []) r sub.session_id k,
  h,
  λ (p : k ≡ key). n (sym p),
)

is_subscribed_left :
    (sub : Nats.Subscription) (key : Bytes) (r : Registry) (k : Bytes)
    → IsConsistent r
    → is_subscribed (Nats.unsubscribe sub (key ∷ []) r) sub.session_id k ≡ true
    → (is_subscribed r sub.session_id k ≡ true) × (key ≢ k)
is_subscribed_left sub key r k c h =
    let same = is_subscribed-unsubscribe sub key r sub.session_id k c in
    (ground (arith, same, h), λ p. absurd (ground (arith, same, h, sym p)))

module _ {S : Type 0} (env : Env S) (keys : KeyLaws env) (t : Bytes) (e e' : EventMap) where
  -- What the entries of a type count to, where those of `t` are replaced.
  count_after :
      (es : List Entry)
      → ((u : Bytes) → view e' u ≡ ite (bytes_dec u t) es (view e u))
      → (u k : Bytes)
      → ((u ≡ t) × (with_key env k u (view e' u) ≡ with_key env k t es))
        ⊎ ((u ≢ t) × (with_key env k u (view e' u) ≡ with_key env k u (view e u)))
  count_after es views u k = elim (bytes_dec u t) [
    | yes p ↦ inl (
      p,
      ap (with_key env k u) (views u ∙ if_pos (bytes_dec u t) p es (view e u))
          ∙ ap (λ x. with_key env k x es) p,
    )
    | no n ↦ inr (n, ap (with_key env k u) (views u ∙ if_neg (bytes_dec u t) n es (view e u)))
  ]

  module _ (exact : Bool) (r : Registry) (l : IsLinked env exact e r)
      (same : e'.subscription ≡ e.subscription) (v : IsValid e') where
    pub append-IsLinked :
        (new : Entry)
        → find_entry env new.condition (view e t) ≡ none
        → ((u : Bytes) → view e' u ≡ ite (bytes_dec u t) (view e t ++ new ∷ []) (view e u))
        → IsLinked env exact e'
            (Nats.subscribe e.subscription (env.dispatch_key t new.condition ∷ []) r)
    unfolding occurrences
    append-IsLinked new fresh views =
        let key = env.dispatch_key t new.condition in
        let r' = Nats.subscribe e.subscription (key ∷ []) r in
        let absent = with_key-find_entry env keys t new.condition (view e t) fresh in
        let split = λ (k : Bytes). occurrences-append (has_key env k t) (view e t) (new ∷ []) in
        let moved = λ (k : Bytes) (h : is_subscribed r' e.subscription.session_id k ≡ true).
          ap (λ (s : Nats.Subscription). is_subscribed r' s.session_id k) same ∙ h in
        let moved_back = λ (k : Bytes) (h : is_subscribed r' e'.subscription.session_id k ≡ true).
          ap (λ (s : Nats.Subscription). is_subscribed r' s.session_id k) (sym same) ∙ h in
        record {
          valid = v;
          consistent = subscribe-IsConsistent e.subscription (key ∷ []) r l.consistent;
          single = λ u k. elim (count_after (view e t ++ new ∷ []) views u k) [
            | inl (p, n) ↦ elim (bytes_dec key k) [
              | yes q ↦
                  let absent' = subst (λ x. with_key env x t (view e t) ≡ 0) q absent in
                  ground (arith, n, split k, absent')
              | no q ↦ ground (arith, n, split k, l.single t k)
            ]
            | inr (p, n) ↦ omega (arith, n, l.single u k)
          ];
          linked = λ u k h. elim (count_after (view e t ++ new ∷ []) views u k) [
            | inl (p, n) ↦ elim (bytes_dec key k) [
              | yes q ↦ moved k (is_subscribed_more e.subscription key r k (inl q))
              | no q ↦ moved k (
                  is_subscribed_more e.subscription key r k
                    (inr (l.linked t k (ground (arith, n, split k, h)))))
            ]
            | inr (p, n) ↦ moved k (
                is_subscribed_more e.subscription key r k
                  (inr (l.linked u k (omega (arith, n, h)))))
          ];
          only = λ x k h. elim (bytes_dec key k) [
            | yes q ↦ (
              t,
              elim (count_after (view e t ++ new ∷ []) views t k) [
                | inl (p, n) ↦ ground (arith, n, split k, q)
                | inr (p, n) ↦ absurd (p refl)
              ],
            )
            | no q ↦
                let (u, n0) =
                  l.only x k (is_subscribed_before e.subscription key r k q (moved_back k h)) in
                (
                  u,
                  elim (count_after (view e t ++ new ∷ []) views u k) [
                    | inl (p, n) ↦
                        let n1 = subst (λ y. 0 < with_key env k y (view e y)) p n0 in
                        omega (arith, n, split k, n1)
                    | inr (p, n) ↦ omega (arith, n, n0)
                  ],
                )
          ];
        }

    pub unchanged-IsLinked : ((u : Bytes) → view e' u ≡ view e u) → IsLinked env exact e' r
    unchanged-IsLinked views = record {
      valid = v;
      consistent = l.consistent;
      single = λ u k. subst (λ es. with_key env k u es ≤ 1) (sym (views u)) (l.single u k);
      linked = λ u k h.
          ap (λ (s : Nats.Subscription). is_subscribed r s.session_id k) same
          ∙ l.linked u k (subst (λ es. 0 < with_key env k u es) (views u) h);
      only = λ x k h.
          let (u, n) =
            l.only x k
              (ap (λ (s : Nats.Subscription). is_subscribed r s.session_id k) (sym same) ∙ h) in
          (u, subst (λ es. 0 < with_key env k u es) (sym (views u)) n);
    }

    -- A map whose entries of one type are gone, while the registry stays.
    pub forget-IsLinked :
        exact ≡ false
        → ((u : Bytes) → view e' u ≡ ite (bytes_dec u t) [] (view e u))
        → IsLinked env exact e' r
    unfolding occurrences
    forget-IsLinked loose views = record {
      valid = v;
      consistent = l.consistent;
      single = λ u k. elim (count_after [] views u k) [
        | inl (p, n) ↦ omega (arith, n)
        | inr (p, n) ↦ omega (arith, n, l.single u k)
      ];
      linked = λ u k h. elim (count_after [] views u k) [
        | inl (p, n) ↦ absurd (omega (arith, n, h))
        | inr (p, n) ↦
            ap (λ (s : Nats.Subscription). is_subscribed r s.session_id k) same
            ∙ l.linked u k (omega (arith, n, h))
      ];
      only = λ x. absurd (ground (arith, loose, x));
    }

    pub remove-IsLinked :
        (sets : EnvLaws env) (i : ℕ) (en : Entry)
        → get_elem? (view e t) i ≡ some en
        → ((u : Bytes)
            → view e' u ≡ ite (bytes_dec u t) (env.slice_remove Entry (view e t) i) (view e u))
        → IsLinked env exact e'
            (Nats.unsubscribe e.subscription (env.dispatch_key t en.condition ∷ []) r)
    remove-IsLinked sets i en at views =
        let key = env.dispatch_key t en.condition in
        let r' = Nats.unsubscribe e.subscription (key ∷ []) r in
        let rest = env.slice_remove Entry (view e t) i in
        let took =
          λ (k : Bytes). sets.slice_remove-occurrences Entry (has_key env k t) (view e t) i at in
        let kept =
          λ (k : Bytes) (n : key ≢ k) (h : is_subscribed r e.subscription.session_id k ≡ true).
            ap (λ (s : Nats.Subscription). is_subscribed r' s.session_id k) same
            ∙ is_subscribed_less e.subscription key r k l.consistent n h in
        record {
          valid = v;
          consistent = unsubscribe-IsConsistent e.subscription key r l.consistent;
          single = λ u k. elim (count_after rest views u k) [
            | inl (p, n) ↦ omega (arith, n, took k, l.single t k)
            | inr (p, n) ↦ omega (arith, n, l.single u k)
          ];
          linked = λ u k h. elim (count_after rest views u k) [
            | inl (p, n) ↦ elim (bytes_dec key k) [
              | yes q ↦ absurd (ground (arith, n, took k, l.single t k, h))
              | no q ↦ kept k q (l.linked t k (omega (arith, n, took k, h)))
            ]
            | inr (p, n) ↦
                let h' : 0 < with_key env k u (view e u) = omega (arith, n, h) in
                kept k (key_apart env keys k t u en.condition (view e u) p h') (l.linked u k h')
          ];
          only = λ x k h.
              let (had, q) =
                is_subscribed_left e.subscription key r k l.consistent (
                  ap (λ (s : Nats.Subscription). is_subscribed r' s.session_id k) (sym same) ∙ h) in
              let (u, n0) = l.only x k had in
              (
                u,
                elim (count_after rest views u k) [
                  | inl (p, n) ↦
                      let n1 = subst (λ y. 0 < with_key env k y (view e y)) p n0 in
                      ground (arith, n, took k, n1, q)
                  | inr (p, n) ↦ omega (arith, n, n0)
                ],
              );
        }
