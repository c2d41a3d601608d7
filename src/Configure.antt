-- ===== src/Configure.antt =====
-- internal/configure: the configuration of the process. What viper and pflag read and merge is theirs;
-- `BindEnvs`, which walks over the fields by reflection, is a walk over a tree of fields.
pub mod Binding
mod Examples
use Prim.Native.String.{String}
use event_api.Base.{
  ℕ, ℤ, List, [], ◌∷◌, ◌++◌, Option, none, some, Bool, Bytes, codes, bytes_dec, ite,
}
use event_api.Connection.Types.{ApiConfig}
use event_api.Server.Shutdown.{Enabled}

-- `KeyValue`
pub record KeyValue : Type 0 where
  pub key : Bytes
  pub value : Bytes

-- The structs of `Config`, each under the name of its field.
pub record Redis : Type 0 where
  pub username : Bytes
  pub password : Bytes
  pub addresses : List Bytes
  pub database : ℤ
  pub sentinel : Bool
  pub master_name : Bytes

pub record Nats : Type 0 where
  pub url : Bytes
  pub subject : Bytes

pub record Api : Type 0 where
  pub enabled : Bool
  pub bind : Bytes
  pub heartbeat_interval : ℕ
  pub subscription_limit : ℤ
  pub connection_limit : ℤ
  pub ttl : ℕ
  pub v1 : Bool
  pub v3 : Bool
  pub bridge_url : Bytes

pub record Monitoring : Type 0 where
  pub enabled : Bool
  pub bind : Bytes
  pub labels : List KeyValue

-- `PProf` and `Health`.
pub record Endpoint : Type 0 where
  pub enabled : Bool
  pub bind : Bytes

pub record Config : Type 0 where
  pub level : Bytes
  pub config_file : Bytes
  pub no_header : Bool
  pub redis : Redis
  pub nats : Nats
  pub api : Api
  pub monitoring : Monitoring
  pub pprof : Endpoint
  pub health : Endpoint
  pub pod_name : Bytes

-- What the connections read of it.
abbrev pub api_config : Config → ApiConfig
api_config c = record {
  v3 = c.api.v3;
  heartbeat_interval = c.api.heartbeat_interval;
  subscription_limit = c.api.subscription_limit;
  connection_limit = c.api.connection_limit;
  ttl = c.api.ttl;
}

-- What `main` reads of it.
abbrev pub enabled : Config → Enabled
enabled c = record {
  api_enabled = c.api.enabled;
  pprof_enabled = c.pprof.enabled;
  health_enabled = c.health.enabled;
  monitoring_enabled = c.monitoring.enabled;
}

-- The levels of zap.
pub data Level : Type 0 where
  debug info warn error panic fatal : Level

abbrev when : Bytes → String → Level → Level → Level
when level name l other = ite (bytes_dec level (codes name)) l other

-- The switch of `initLogging`.
unfoldable pub init_logging : Bytes → Level
init_logging level = when level "debug" debug (
    when level "info" info (
      when level "warn" warn
        (when level "error" error (when level "panic" panic (when level "fatal" fatal info)))))

-- A type as reflection shows it to `BindEnvs`: the fields of a struct with their tag `mapstructure`,
-- which a field may lack; any other type is a value.
mutual
  pub data Shape : Type 0 where
    value : Shape
    struct : Fields → Shape

  pub data Fields : Type 0 where
    end : Fields
    field : Option Bytes → Shape → Fields → Fields

-- `strings.Join`
unfoldable pub join : ℕ → List Bytes → Bytes
join sep [] = []
join sep (s ∷ []) = s
join sep (s ∷ t ∷ rest) = s ++ sep ∷ join sep (t ∷ rest)

-- `BindEnvs`: the keys given to `BindEnv`, in order.
unfoldable mutual
  pub bind_envs : Fields → List Bytes → List Bytes
  bind_envs end parts = []
  bind_envs (field none s rest) parts = bind_envs rest parts
  bind_envs (field (some tag) s rest) parts =
      bind_field s (parts ++ tag ∷ []) ++ bind_envs rest parts

  -- The switch on the kind, with the tag at the end of the parts.
  pub bind_field : Shape → List Bytes → List Bytes
  bind_field value parts = join b'.' parts ∷ []
  bind_field (struct fs) parts = bind_envs fs parts

-- A field with a tag.
abbrev tagged : String → Shape → Fields → Fields
tagged name s rest = field (some (codes name)) s rest

abbrev plain : String → Fields → Fields
plain name rest = tagged name value rest

-- The fields of `Config`.
abbrev pub config_fields : Fields
config_fields = plain "level" (
    plain "config_file" (
      plain "noheader" (
        tagged "redis"
          (struct (
            plain "username" (
              plain "password" (
                plain "addresses"
                  (plain "database" (plain "sentinel" (plain "master_name" end)))))))
          (tagged "nats" (struct (plain "url" (plain "subject" end))) (
            tagged "api"
              (struct (
                plain "enabled" (
                  plain "bind" (
                    plain "heartbeat_interval" (
                      plain "subscription_limit" (
                        plain "connection_limit"
                          (plain "ttl" (plain "v1" (plain "v3" (plain "bridge_url" end))))))))))
              (tagged "monitoring" (struct (plain "enabled" (plain "bind" (plain "labels" end)))) (
                tagged "pprof" (struct (plain "enabled" (plain "bind" end))) (
                  tagged "health" (struct (plain "enabled" (plain "bind" end)))
                    (tagged "pod" (struct (plain "name" end)) end)))))))))
