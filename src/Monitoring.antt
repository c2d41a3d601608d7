-- ===== src/Monitoring.antt =====
-- internal/monitoring/prom.go and internal/instance/monitoring.go: the metrics and their registration.
-- The registerer of prometheus is a parameter.
pub mod Registering
pub mod Samples
mod Examples
use event_api.Base.{
  ℕ, List, [], ◌∷◌, ◌++◌, map, Option, none, some, Bool, true, false, ite, Bytes, codes, bytes_dec,
  Map, insert, lookup,
}
use event_api.Configure.{KeyValue}

-- `prometheus.Labels`
abbrev pub Labels : Type 0
Labels = Map Bytes Bytes

-- `labelsFromKeyValue`
unfoldable pub add_labels : List KeyValue → Labels → Labels
add_labels [] mp = mp
add_labels (v ∷ kv) mp = add_labels kv (insert bytes_dec v.key v.value mp)

abbrev pub labels_from_key_value : List KeyValue → Labels
labels_from_key_value kv = add_labels kv []

pub data Kind : Type 0 where
  histogram gauge : Kind

-- `HistogramOpts` and `GaugeOpts`, with the kind.
pub record Metric : Type 0 where
  pub kind : Kind
  pub name : Bytes
  pub const_labels : Labels
  pub help : Bytes

-- `EventV3`
pub record EventV3 : Type 0 where
  pub total_connections : Metric
  pub total_connection_duration_seconds : Metric
  pub current_connections : Metric
  pub current_event_streams : Metric
  pub current_web_sockets : Metric
  pub heartbeats : Metric
  pub dispatches : Metric

-- `NewPrometheus`, from the labels of the configuration.
unfoldable pub new_prometheus : List KeyValue → EventV3
unfolding add_labels
new_prometheus kv = record {
  total_connections = record {
    kind = histogram;
    name = codes "events_v3_total_connections";
    const_labels = labels_from_key_value kv;
    help = codes "The total number of connections";
  };
  total_connection_duration_seconds = record {
    kind = histogram;
    name = codes "events_v3_total_connection_duration_seconds";
    const_labels = labels_from_key_value kv;
    help = codes "The total number of seconds used on connections";
  };
  current_connections = record {
    kind = gauge;
    name = codes "events_v3_current_connections";
    const_labels = labels_from_key_value kv;
    help = codes "The current number of connections";
  };
  current_event_streams = record {
    kind = gauge;
    name = codes "events_v3_current_event_streams";
    const_labels = labels_from_key_value kv;
    help = codes "The current number of connections via EventStream transport";
  };
  current_web_sockets = record {
    kind = gauge;
    name = codes "events_v3_current_event_websockets";
    const_labels = labels_from_key_value kv;
    help = codes "The current number of connections via WebSocket transport";
  };
  heartbeats = record {
    kind = histogram;
    name = codes "events_v3_heartbeats";
    const_labels = labels_from_key_value kv;
    help = codes "The number of heartbeats sent out to clients";
  };
  dispatches = record {
    kind = histogram;
    name = codes "events_v3_dispatches";
    const_labels = labels_from_key_value kv;
    help = codes "The number of dispatches sent out to clients";
  };
}

-- A registerer of prometheus: `Register`, `none` on an error, `MustRegister`, `none` when it panics, the
-- names that are taken, and which names a label may have.
pub record Registerer (R : Type 0) : Type 0 where
  pub register_one : Metric → R → Option R
  pub must_register : List Metric → R → Option R
  pub taken : R → List Bytes
  pub allowed : Bytes → Bool

-- The metrics that `Register` hands over.
abbrev pub registered : EventV3 → List Metric
registered e =
    e.total_connections ∷ e.total_connection_duration_seconds ∷ e.current_connections
    ∷ e.current_event_streams ∷ e.current_web_sockets ∷ e.heartbeats ∷ e.dispatches ∷ []

-- `Register`
unfoldable pub register : {R : Type 0} → Registerer R → EventV3 → R → Option R
register reg e = reg.must_register (registered e)
