-- ===== src/Redis/Fanout.antt =====
-- internal/instance/redis.go: the loop that hands a message to the Go channels, backwards over a slice
-- that it shortens meanwhile.
use mathlib.Core.List.{reverse, reverse-cons, reverse-reverse, append-nil, append_assoc}
use event_api.Base.{
  ℕ, ◌+◌, ◌≤◌, ◌≡◌, refl, ◌⊎◌, inl, inr, List, [], ◌∷◌, ◌++◌, Option, none, some, Bool, not, ◌&&◌,
  ite, Bytes, bytes_dec, get_list, get_elem?, length, length-append, swap_remove, occurrences,
  occurrences-append, Option-cases, Bool-cases, arith, ap, sym, if_pos, ◌∙◌,
}
use event_api.Redis.{
  RedisSub, RedisInst, index_of, leave_channel, leave_channels, is_address, Channels, visit, Fan,
  fan_out, receive,
}
use event_api.Redis.Listening.{IsConsistent}
use event_api.Redis.Upstream.{get_list-store_subs, leave_channels-IsConsistent}
use event_api.Redis.Slices.{
  moved, get_elem?-middle, swap_remove-middle, occurrences-moved, index_of-middle,
}

module _ (closing : ℕ → Bool) (payload : Bytes) where
  -- What the loop does to the Go channels, one subscription after the other.
  pub visit_all : List RedisSub → Channels → Option Channels
  visit_all [] chans = some chans
  visit_all (s ∷ rest) chans = elim (visit closing payload s chans) [
    | none ↦ none
    | some chans' ↦ visit_all rest chans'
  ]

  -- The subscriptions that pass a test and are not about to close.
  abbrev pub stays : (RedisSub → Bool) → RedisSub → Bool
  stays p s = p s && not (closing s.close)

length-reverse : {A : Type 0} (l : List A) → length (reverse l) ≡ length l
length-reverse [] = refl
length-reverse (x ∷ l) =
    ap length (reverse-cons x l)
    ∙ length-append (reverse l) (x ∷ [])
    ∙ omega (arith, length-reverse l)

occurrences-reverse :
    {A : Type 0} (p : A → Bool) (l : List A) → occurrences p (reverse l) ≡ occurrences p l
unfolding occurrences
occurrences-reverse p [] = refl
occurrences-reverse p (x ∷ l) =
    ap (occurrences p) (reverse-cons x l)
    ∙ occurrences-append p (reverse l) (x ∷ [])
    ∙ omega (arith, occurrences-reverse p l)

reverse-step : {A : Type 0} (x : A) (rs dn : List A) → reverse (x ∷ rs) ++ dn ≡ reverse rs ++ x ∷ dn
reverse-step x rs dn = ap (λ l. l ++ dn) (reverse-cons x rs) ∙ append_assoc (reverse rs) (x ∷ []) dn

same_at : (v : Bytes → List RedisSub) {u t : Bytes} (d : Dec (u ≡ t)) → v u ≡ ite d (v t) (v u)
same_at v (yes p) = ap v p
same_at v (no p) = refl

module _ (closing : ℕ → Bool) (channel payload : Bytes) where
  -- What a run of the loop leaves: of the visited subscriptions those that do not close, and the
  -- others as they were; no other redis channel changes.
  pub record IsFanned (rs dn : List RedisSub) (f out : Fan) : Type 0 where
    pub left :
        (p : RedisSub → Bool)
        → occurrences p (get_list bytes_dec channel out.redis.subs)
          ≡ occurrences (stays closing payload p) rs + occurrences p dn
    pub others :
        (u : Bytes)
        → get_list bytes_dec u out.redis.subs
          ≡ ite
              (bytes_dec u channel)
              (get_list bytes_dec channel out.redis.subs)
              (get_list bytes_dec u f.redis.subs)
    pub consistent : IsConsistent out.redis

  abbrev dropped : RedisSub → RedisInst → RedisInst
  dropped x r = leave_channels (is_address x.address) (channel ∷ []) r

  get_list-dropped :
      (a : List RedisSub) (x : RedisSub) (b : List RedisSub) (r : RedisInst)
      → get_list bytes_dec channel r.subs ≡ a ++ x ∷ b
      → IsConsistent r
      → (u : Bytes)
      → get_list bytes_dec u (dropped x r).subs
        ≡ ite (bytes_dec u channel) (a ++ moved b) (get_list bytes_dec u r.subs)
  unfolding leave_channels leave_channel
  get_list-dropped a x b r e c u =
      let l = get_list bytes_dec channel r.subs in
      let once : occurrences (is_address x.address) (a ++ x ∷ b) ≤ 1 =
        omega (arith, c.distinct channel x.address, ap (occurrences (is_address x.address)) e) in
      let found = ap (index_of (is_address x.address)) e ∙ index_of-middle a x b once in
      let rest = ap (λ k. swap_remove k (length a)) e ∙ swap_remove-middle a x b in
      rw (found, leave_channel)
        (get_list-store_subs channel (swap_remove l (length a)) r u
          ∙ ap (λ k. ite (bytes_dec u channel) k (get_list bytes_dec u r.subs)) rest)

  fan_out-visit_all :
      (rs dn : List RedisSub) (f : Fan)
      → get_list bytes_dec channel f.redis.subs ≡ reverse rs ++ dn
      → IsConsistent f.redis
      → ((visit_all closing payload rs f.chans ≡ none)
          × (fan_out closing channel payload (length rs) f ≡ none))
        ⊎ ((out : Fan) × (visit_all closing payload rs f.chans ≡ some out.chans)
            × (fan_out closing channel payload (length rs) f ≡ some out)
            × IsFanned rs dn f out)
  unfolding fan_out visit_all occurrences
  fan_out-visit_all [] dn f e c = inr (
    f,
    refl,
    refl,
    record {
      left = λ p. omega (arith, ap (occurrences p) e);
      others = λ u. same_at (λ t. get_list bytes_dec t f.redis.subs) (bytes_dec u channel);
      consistent = c;
    },
  )
  fan_out-visit_all (x ∷ rs) dn f e c =
      let e' = e ∙ reverse-step x rs dn in
      let here : get_elem? (get_list bytes_dec channel f.redis.subs) (length rs) ≡ some x =
        ap (λ l. get_elem? l (length rs)) e'
        ∙ ap (get_elem? (reverse rs ++ x ∷ dn)) (sym (length-reverse rs))
        ∙ get_elem?-middle (reverse rs) x dn in
      elim (Option-cases (visit closing payload x f.chans)) [
        | inl stuck ↦
            inl (rw (stuck, visit_all) refl, rw (here, fan_out) (rw (stuck, fan_out) refl))
        | inr (chans, went) ↦ elim (Bool-cases (closing x.close)) [
          | inl shuts ↦
              let f' : Fan = record { redis = dropped x f.redis; chans = chans } in
              let at = get_list-dropped (reverse rs) x dn f.redis e' c in
              elim (fan_out-visit_all rs (moved dn) f'
                (at channel ∙ if_pos (bytes_dec channel channel) refl _ _)
                (leave_channels-IsConsistent (is_address x.address) (channel ∷ []) f.redis c)) [
                  | inl (v, g) ↦
                      inl (
                        rw (went, visit_all) v,
                        rw (here, fan_out) (rw (went, fan_out) (rw shuts g)),
                      )
                  | inr (out, v, g, fanned) ↦ inr (
                    out,
                    rw (went, visit_all) v,
                    rw (here, fan_out) (rw (went, fan_out) (rw shuts g)),
                    record {
                      left = λ p. ground (arith, fanned.left p, occurrences-moved p dn);
                      others = λ u. ground (arith, fanned.others u, at u);
                      consistent = fanned.consistent;
                    },
                  )
                ]
          | inr open_ ↦
              elim (fan_out-visit_all rs (x ∷ dn) (record { redis = f.redis; chans = chans }) e'
                c) [
                  | inl (v, g) ↦
                      inl (
                        rw (went, visit_all) v,
                        rw (here, fan_out) (rw (went, fan_out) (rw open_ g)),
                      )
                  | inr (out, v, g, fanned) ↦ inr (
                    out,
                    rw (went, visit_all) v,
                    rw (here, fan_out) (rw (went, fan_out) (rw open_ g)),
                    record {
                      left = λ p. ground (arith, fanned.left p);
                      others = fanned.others;
                      consistent = fanned.consistent;
                    },
                  )
                ]
        ]
      ]

  -- A message is handed out as if the loop went over the slice that it found, from its end, once: it
  -- panics exactly if one of those sends does, and the Go channels are as those visits leave them.
  -- Then the redis channel keeps exactly the subscriptions that are not about to close, as often as
  -- they were there; other redis channels keep theirs, and the state stays consistent.
  pub receive-visit_all :
      (f : Fan)
      → IsConsistent f.redis
      → ((visit_all closing payload (reverse (get_list bytes_dec channel f.redis.subs)) f.chans
            ≡ none)
          × (receive closing channel payload f ≡ none))
        ⊎ ((out : Fan) × (visit_all closing payload
                (reverse (get_list bytes_dec channel f.redis.subs))
                f.chans
              ≡ some out.chans)
            × (receive closing channel payload f ≡ some out)
            × ((p : RedisSub → Bool)
                → occurrences p (get_list bytes_dec channel out.redis.subs)
                  ≡ occurrences (stays closing payload p) (get_list bytes_dec channel f.redis.subs))
            × ((u : Bytes)
                → get_list bytes_dec u out.redis.subs
                  ≡ ite
                      (bytes_dec u channel)
                      (get_list bytes_dec channel out.redis.subs)
                      (get_list bytes_dec u f.redis.subs))
            × IsConsistent out.redis)
  unfolding receive occurrences
  receive-visit_all f c =
      let l = get_list bytes_dec channel f.redis.subs in
      let rounds : fan_out closing channel payload (length (reverse l)) f
          ≡ fan_out closing channel payload (length l) f =
        ap (λ n. fan_out closing channel payload n f) (length-reverse l) in
      elim (fan_out-visit_all (reverse l) [] f (sym (append-nil _ ∙ reverse-reverse l)) c) [
        | inl (v, g) ↦ inl (v, sym rounds ∙ g)
        | inr (out, v, g, fanned) ↦ inr (
          out,
          v,
          sym rounds ∙ g,
          λ p. omega (arith, fanned.left p, occurrences-reverse (stays closing payload p) l),
          fanned.others,
          fanned.consistent,
        )
      ]
