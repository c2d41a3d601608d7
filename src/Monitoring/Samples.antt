-- ===== src/Monitoring/Samples.antt =====
-- internal/monitoring: a registerer and labels to run the code on.
use event_api.Base.{
  refl, List, [], ◌∷◌, Option, none, some, not, Bytes, codes, is_listed, if◌then◌else◌,
}
use event_api.Configure.{KeyValue}
use event_api.Monitoring.{Metric, Registerer}
use event_api.Monitoring.Registering.{RegistererLaws}

-- A registerer that keeps the names and refuses one that it has, and labels called `le`.
abbrev put : Metric → List Bytes → Option (List Bytes)
put m names = if is_listed m.name names then none else some (m.name ∷ names)

abbrev put_all : List Metric → List Bytes → Option (List Bytes)
put_all [] names = some names
put_all (m ∷ ms) names = elim (put m names) [ none ↦ none | some names' ↦ put_all ms names' ]

abbrev pub names_only : Registerer (List Bytes)
names_only = record {
  register_one = put;
  must_register = put_all;
  taken = λ names. names;
  allowed = λ n. not (is_listed n (codes "le" ∷ []));
}

pub names_only-RegistererLaws : RegistererLaws names_only
names_only-RegistererLaws = record {
  registers = λ m names free a. (m.name ∷ names, rw free refl, refl);
  nothing = λ names. refl;
  in_turn = λ m ms names names' ok. rw (ok, put_all) refl;
}

abbrev pub labels : List KeyValue
labels =
    record { key = codes "pod"; value = codes "a" }
    ∷ record { key = codes "zone"; value = codes "b" }
    ∷ record { key = codes "pod"; value = codes "c" }
    ∷ []
