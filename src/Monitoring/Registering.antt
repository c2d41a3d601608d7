-- ===== src/Monitoring/Registering.antt =====
-- internal/monitoring/prom.go: the registration of the metrics, and their labels.
use event_api.Base.{
  ◌≡◌, refl, List, [], ◌∷◌, map, Option, none, some, Bool, true, false, ◌||◌, ite, Bytes, bytes_dec,
  codes, is_listed, insert, lookup, lookup-insert, All, arith, ap, sym, ◌∙◌, if_pos, if_neg, subst,
}
use event_api.Configure.{KeyValue}
use event_api.Monitoring.{
  Labels, add_labels, Metric, new_prometheus, Registerer, register, registered,
}

-- The last value that a list of settings gives a key.
unfoldable pub last_value : Bytes → List KeyValue → Option Bytes
last_value k [] = none
last_value k (v ∷ kv) = elim (last_value k kv) [
  | none ↦ ite (bytes_dec k v.key) (some v.value) none
  | some later ↦ some later
]

abbrev or_else : Option Bytes → Option Bytes → Option Bytes
or_else none b = b
or_else (some a) b = some a

or_else-none : (a : Option Bytes) → or_else a none ≡ a
or_else-none none = refl
or_else-none (some a) = refl

lookup-add_labels :
    (k : Bytes) (kv : List KeyValue) (mp : Labels)
    → lookup bytes_dec k (add_labels kv mp) ≡ or_else (last_value k kv) (lookup bytes_dec k mp)
unfolding add_labels last_value
lookup-add_labels k [] mp = refl
lookup-add_labels k (v ∷ kv) mp = ground (
  arith,
  lookup-add_labels k kv (insert bytes_dec v.key v.value mp),
  lookup-insert bytes_dec v.key k v.value mp,
)

-- What prometheus documents: a metric is registered if its name is not taken and the names of its
-- labels are allowed, and then its name is taken too; `MustRegister` registers one after the other.
pub record RegistererLaws {R : Type 0} (reg : Registerer R) : Type 0 where
  pub registers :
      (m : Metric) (r : R)
      → is_listed m.name (reg.taken r) ≡ false
      → All (λ kv. reg.allowed kv.0 ≡ true) m.const_labels
      → (r' : R) × (reg.register_one m r ≡ some r') × (reg.taken r' ≡ m.name ∷ reg.taken r)
  pub nothing : (r : R) → reg.must_register [] r ≡ some r
  pub in_turn :
      (m : Metric) (ms : List Metric) (r r' : R)
      → reg.register_one m r ≡ some r'
      → reg.must_register (m ∷ ms) r ≡ reg.must_register ms r'

All-insert :
    (p : Bytes → Bool) (k v : Bytes) (mp : Labels)
    → p k ≡ true
    → All (λ kv. p kv.0 ≡ true) mp
    → All (λ kv. p kv.0 ≡ true) (insert bytes_dec k v mp)
unfolding insert
All-insert p k v [] h a = (h, tt)
All-insert p k v ((j, w) ∷ mp) h a = elim (bytes_dec k j) [
  | yes e ↦ rw (if_pos _ e) (h, a.1)
  | no n ↦ rw (if_neg _ n) (a.0, All-insert p k v mp h a.1)
]

All-add_labels :
    (p : Bytes → Bool) (kv : List KeyValue) (mp : Labels)
    → All (λ v. p v.key ≡ true) kv
    → All (λ kv. p kv.0 ≡ true) mp
    → All (λ kv. p kv.0 ≡ true) (add_labels kv mp)
unfolding add_labels
All-add_labels p [] mp h a = a
All-add_labels p (v ∷ kv) mp h a =
    All-add_labels p kv (insert bytes_dec v.key v.value mp) h.1
      (All-insert p v.key v.value mp h.0 a)

-- The names of metrics are distinct, and none is among those taken.
abbrev AreNew : List Metric → List Bytes → Type 0
AreNew [] names = Unit
AreNew (m ∷ ms) names = (is_listed m.name names ≡ false) × AreNew ms (m.name ∷ names)

abbrev names_of : List Metric → List Bytes
names_of = map (λ m. m.name)

listed_swap :
    (k n : Bytes) (ns taken : List Bytes)
    → (is_listed k ns || is_listed k (n ∷ taken)) ≡ (is_listed k (n ∷ ns) || is_listed k taken)
unfolding is_listed
listed_swap k n ns taken = ground arith

abbrev event_names : List Bytes
event_names =
    codes "events_v3_total_connections"
    ∷ codes "events_v3_total_connection_duration_seconds"
    ∷ codes "events_v3_current_connections"
    ∷ codes "events_v3_current_event_streams"
    ∷ codes "events_v3_current_event_websockets"
    ∷ codes "events_v3_heartbeats"
    ∷ codes "events_v3_dispatches"
    ∷ []

module _ {R : Type 0} (reg : Registerer R) (laws : RegistererLaws reg) where
  registers_all :
      (ms : List Metric) (r : R)
      → AreNew ms (reg.taken r)
      → All (λ m. All (λ kv. reg.allowed kv.0 ≡ true) m.const_labels) ms
      → (r' : R) × (reg.must_register ms r ≡ some r')
        × ((k : Bytes)
            → is_listed k (reg.taken r') ≡ (is_listed k (names_of ms) || is_listed k (reg.taken r)))
  unfolding is_listed
  registers_all [] r new a = (r, laws.nothing r, λ k. refl)
  registers_all (m ∷ ms) r new a =
      let (r1, ok, names) = laws.registers m r new.0 a.0 in
      let (r2, run, all) = registers_all ms r1 (subst (AreNew ms) (sym names) new.1) a.1 in
      (
        r2,
        laws.in_turn m ms r r1 ok ∙ run,
        λ k.
            all k
            ∙ ap (λ l. is_listed k (names_of ms) || is_listed k l) names
            ∙ listed_swap k m.name (names_of ms) (reg.taken r),
      )

  -- Where the names of the labels are allowed and none of the seven names is taken, `Register` does
  -- not panic, and afterwards exactly these names are taken besides those that were. Each metric has
  -- for every label the last value that the configuration lists for it.
  pub register-new_prometheus :
      (kv : List KeyValue) (r : R)
      → All (λ v. reg.allowed v.key ≡ true) kv
      → All (λ n. is_listed n (reg.taken r) ≡ false) event_names
      → (r' : R) × (register reg (new_prometheus kv) r ≡ some r')
        × ((n : Bytes)
            → is_listed n (reg.taken r') ≡ (is_listed n event_names || is_listed n (reg.taken r)))
        × ((k : Bytes)
            → All
                (λ m. lookup bytes_dec k m.const_labels ≡ last_value k kv)
                (registered (new_prometheus kv)))
  unfolding register new_prometheus is_listed bytes_dec lookup
  register-new_prometheus kv r a new =
      let ok = All-add_labels reg.allowed kv [] a tt in
      let (r', run, names) =
        registers_all (registered (new_prometheus kv)) r
          (
            new.0,
            (
              new.1.0,
              (
                new.1.1.0,
                (new.1.1.1.0, (new.1.1.1.1.0, (new.1.1.1.1.1.0, (new.1.1.1.1.1.1.0, tt)))),
              ),
            ),
          )
          (ok, (ok, (ok, (ok, (ok, (ok, (ok, tt))))))) in
      (
        r',
        run,
        names,
        λ k.
            let has = lookup-add_labels k kv [] ∙ or_else-none (last_value k kv) in
            (has, (has, (has, (has, (has, (has, (has, tt))))))),
      )
