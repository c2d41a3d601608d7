-- ===== src/Server/Examples.antt =====
-- internal/app: the theorems at concrete inputs.
use event_api.Base.{
  ◌↔◌, ℕ, Option, some, List, [], ◌∷◌, ◌++◌, none, some, ltb, not, ◌&&◌, pos, ◌+◌, ◌≤◌, ◌<◌, ◌≡◌,
  refl, ◌⊎◌, true, false, arith, codes, ite, bytes_dec, leb, if◌then◌else◌,
}
use event_api.Connection.Types.{ApiConfig}
use event_api.Server.{
  Server, event_stream, web_socket, new_server, begin, finish, middleware, status, next, health,
  tick_stats, greet_from,
}
use event_api.Server.Requests.{
  Request, v3, handle_request, handle_v3, Handled, answered, served, stranded, dropped,
}
use event_api.Server.Admission.{is_tracked, is_v3, opens, handle_request-Reach}
use event_api.Server.Shutdown.{
  Enabled, signal, minute, ended, failed, Component, api, run_main, start_main,
}
use event_api.Server.Ending.{exit_or_one, run_main-exits}
use event_api.Connection.Samples.{sample_env}
use event_api.Connection.Fixtures.{sample_session}
use event_api.Connection.Session.{json}
use event_api.Configure.{Config, enabled}
use event_api.Monitoring.Samples.{labels}
use event_api.Server.Population.{
  hello_message, greet_from-Since, started, stream_began, socket_began, stream_ended, ticked,
}
use event_api.Server.Counting.{
  Reach, start, stream_begins, socket_begins, stream_ends, Counts, Reach-Counts, middleware-Reach,
  health-Reach,
}

abbrev two_live : Server
two_live = begin web_socket (begin web_socket (finish event_stream (begin event_stream new_server)))

abbrev two_live-Reach : Reach 0 2 two_live
two_live-Reach = socket_begins (socket_begins (stream_ends (stream_begins start)))

abbrev cfg : ApiConfig
cfg = record {
  v3 = true;
  heartbeat_interval = 45000;
  subscription_limit = pos 500;
  connection_limit = pos 2;
  ttl = 60;
}

Reach-Counts_example : Counts 0 2 two_live
Reach-Counts_example = Reach-Counts two_live-Reach

-- net/http sets `Response` of a client's requests only.
abbrev no_response : Option ℕ
no_response = none

middleware-Reach_example :
    (((two_live.locked ≡ true)
        × ((middleware cfg no_response two_live).does
            ≡ status 423 (codes "This server is going down for restart!")))
      ⊎ ((two_live.locked ≡ false)
          × (2 ≤ 0 + 2)
          × ((middleware cfg no_response two_live).does
              ≡ status 503 (codes "This server is full!")))
      ⊎ ((two_live.locked ≡ false)
          × (0 + 2 < 2)
          × ((middleware cfg no_response two_live).does ≡ next)))
    × (((middleware cfg no_response two_live).panics ≡ true) ↔ (no_response ≡ none))
middleware-Reach_example = middleware-Reach cfg 2 no_response refl two_live-Reach (omega arith)

health-Reach_example :
    health cfg true (codes "/concurrency") two_live
    ≡ ite
        (bytes_dec (codes "/concurrency") (codes "/concurrency"))
        (if leb 1 (0 + 2) then 410 else 200)
        200
health-Reach_example = health-Reach cfg 1 (codes "/concurrency") refl two_live-Reach (omega arith)

-- A request for an event stream.
abbrev plain_request : Request
plain_request = record {
  route = v3;
  upgrade_header = [];
  connection_header = codes "keep-alive";
  upgrade_error = none;
  session_error = none;
  flushes = true;
  response = none;
}

handle_request-Reach_example : is_tracked (handle_request cfg two_live plain_request) ≡ (
    (not two_live.locked && ltb (0 + 2) 2)
    && (is_v3 plain_request.route && cfg.v3 && opens plain_request))
handle_request-Reach_example =
    handle_request-Reach cfg 2 plain_request refl two_live-Reach (omega arith)

abbrev flags : Enabled
flags = record {
  api_enabled = true;
  pprof_enabled = false;
  health_enabled = true;
  monitoring_enabled = false;
}

abbrev ends : List Component
ends = Component.health ∷ api ∷ []

run_main-exits_example :
    ((code : ℕ) × ((run_main
          (ended api ∷ [] ++ signal ∷ ([] ++ minute ∷ []))
          (start_main flags)).exit
        ≡ some code))
    × ((d : Component)
        → (run_main (ended api ∷ [] ++ failed d ∷ []) (start_main flags)).exit
          ≡ some (exit_or_one (run_main (ended api ∷ []) (start_main flags)).exit))
run_main-exits_example = run_main-exits flags (ended api ∷ []) [] []

-- A configuration with the API, the health endpoint and the metrics.
abbrev config : Config
config = record {
  level = codes "info";
  config_file = codes "config.yaml";
  no_header = false;
  redis = record {
    username = [];
    password = [];
    addresses = [];
    database = pos 0;
    sentinel = false;
    master_name = [];
  };
  nats = record { url = codes "nats"; subject = codes "events" };
  api = record {
    enabled = true;
    bind = [];
    heartbeat_interval = 0;
    subscription_limit = pos 500;
    connection_limit = pos 100;
    ttl = 60;
    v1 = false;
    v3 = true;
    bridge_url = [];
  };
  monitoring = record { enabled = true; bind = []; labels = labels };
  pprof = record { enabled = false; bind = [] };
  health = record { enabled = true; bind = [] };
  pod_name = codes "pod";
}

-- A third connection begins after the tick.
greet_from-Since_example :
    (greet_from sample_env (begin web_socket (tick_stats two_live)) sample_session).0.sent
    ≡ sample_session.sent ++ json (hello_message sample_env sample_session 2) ∷ []
greet_from-Since_example =
    greet_from-Since sample_env sample_session
      (socket_began (ticked (socket_began (socket_began (stream_ended (stream_began started))))))
      (omega arith) refl refl

abbrev code_of : Handled → Option ℕ
code_of (answered w) = w.code
code_of (served t w) = w.code
code_of (stranded t w) = w.code
code_of dropped = none

-- Without a flusher the status is the one that was written with the headers.
stranded_code : code_of (handle_v3 cfg (record plain_request { flushes = false })) ≡ some 200
unfolding handle_v3 bytes_dec
stranded_code = refl
