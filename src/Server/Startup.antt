-- ===== src/Server/Startup.antt =====
-- cmd/main.go from its first line on. What the loading of the configuration, panicwrap, the connection
-- to NATS and the set-up of the server answer are inputs; a panic ends the process with 2, and `Fatal`
-- with 1.
use event_api.Base.{ℕ, ℤ, pos, negsuc, List, [], ◌&&◌, none, some, Bool, false, if◌then◌else◌}
use event_api.Configure.{Config, enabled}
use event_api.Monitoring.{Registerer, new_prometheus, register}
use event_api.Server.Shutdown.{Main, Event, start_main, run_main}

-- Whether `configure.New` meets an error, whether `BasicWrap` fails, its exit status, which is negative
-- in the process that runs on, whether `nats.Init` fails, and whether `app.New` cannot make the kill file
-- or watch it.
pub record Answers : Type 0 where
  pub config_error : Bool
  pub wrap_error : Bool
  pub exit_status : ℤ
  pub nats_error : Bool
  pub server_error : Bool

-- A process that has exited.
abbrev pub exited : ℕ → Main
exited code = record { pending = []; cancelled = false; exit = some code }

module _ {R : Type 0} (reg : Registerer R) (fresh : R) where
  -- The components that are enabled: that of the server comes first, that of the monitoring registers
  -- the metrics.
  unfoldable pub start_components : Config → Answers → Main
  start_components c a =
      if c.api.enabled && a.server_error
      then exited 1
      else if c.monitoring.enabled
      then elim (register reg (new_prometheus c.monitoring.labels) fresh) [
        | none ↦ exited 2
        | some r ↦ start_main (enabled c)
      ]
      else start_main (enabled c)

  -- `main` up to the wait for its end.
  unfoldable pub set_up : Config → Answers → Main
  unfolding start_components
  set_up c a =
      if a.config_error then exited 1 else if a.wrap_error then exited 2 else elim a.exit_status [
        | pos code ↦ exited code
        | negsuc n ↦ if a.nats_error then exited 1 else start_components c a
      ]

  -- `main`
  unfoldable pub main : Config → Answers → List Event → Main
  unfolding set_up
  main c a events = run_main events (set_up c a)

  -- The process runs on, and nothing of its set-up fails.
  abbrev pub fine : ℕ → Answers
  fine n = record {
    config_error = false;
    wrap_error = false;
    exit_status = negsuc n;
    nats_error = false;
    server_error = false;
  }
