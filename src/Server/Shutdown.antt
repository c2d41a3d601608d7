-- ===== src/Server/Shutdown.antt =====
-- internal/app/server.go: the goroutine of `New` that shuts the server down, and cmd/main.go, which
-- waits for it. The timers, the signals of the process and the counter that a tick reads are inputs.
use event_api.Base.{ℕ, List, [], ◌∷◌, Option, none, some, Bool, true, false, if◌then◌else◌, ◌==◌}

-- What the `select` of the loop finds ready: the timeout, or a tick, with the counter at that time.
pub data Wake : Type 0 where
  timeout : Wake
  tick : ℕ → Wake

-- The loop, up to the label `shutdown`: whether it gets there, and what wakes it afterwards.
unfoldable pub wait_for_end : List Wake → Bool × List Wake
wait_for_end [] = (false, [])
wait_for_end (timeout ∷ rest) = (true, rest)
wait_for_end (tick active ∷ rest) = elim (active == 0) [
  | true ↦ (true, rest)
  | false ↦ wait_for_end rest
]

-- The components whose `done` channels `main` waits for.
pub data Component : Type 0 where
  api pprof health monitoring : Component

-- The flags `Enabled` of the configuration.
pub record Enabled : Type 0 where
  pub api_enabled : Bool
  pub pprof_enabled : Bool
  pub health_enabled : Bool
  pub monitoring_enabled : Bool

abbrev pub when : Bool → Component → List Component → List Component
when b c rest = if b then c ∷ rest else rest

-- `dones`, in order.
unfoldable pub dones : Enabled → List Component
dones c = when c.api_enabled api (
    when c.pprof_enabled pprof
      (when c.health_enabled health (when c.monitoring_enabled monitoring [])))

-- What `main` meets: a signal of the process, the end of a component, the passing of the minute that
-- starts with the first signal, and a listener of a component that returns an error. The listener of
-- the API does so when `Shutdown` closes it, as net/http documents: the goroutine of `New` that ends that
-- component brings both about, in either order.
pub data Event : Type 0 where
  signal minute : Event
  ended failed : Component → Event

-- `main` past its set-up: the components that have not ended, whether the first signal has come, and
-- the status with which the process has exited.
pub record Main : Type 0 where
  pub pending : List Component
  pub cancelled : Bool
  pub exit : Option ℕ

abbrev pub same_component : Component → Component → Bool
same_component api api = true
same_component pprof pprof = true
same_component health health = true
same_component monitoring monitoring = true
same_component _ _ = false

unfoldable pub without : Component → List Component → List Component
without c [] = []
without c (d ∷ ds) = let rest = without c ds in if same_component c d then rest else d ∷ rest

-- `close(done)` once all the channels of `dones` are closed, which ends the process with 0.
abbrev pub settle : Main → Main
settle m = elim m.pending [
  | [] ↦ if m.cancelled then record m { exit = some 0 } else m
  | c ∷ cs ↦ m
]

abbrev pub react : Event → Main → Main
react signal m =
    if m.cancelled then record m { exit = some 1 } else settle (record m { cancelled = true })
react minute m = if m.cancelled then record m { exit = some 1 } else m
react (ended c) m = settle (record m { pending = without c m.pending })
react (failed c) m = record m { exit = some 1 }

-- One event; after its exit the process does nothing.
unfoldable pub main_step : Event → Main → Main
unfolding without
main_step e m = elim m.exit [ some code ↦ m | none ↦ react e m ]

unfoldable pub run_main : List Event → Main → Main
unfolding main_step
run_main [] m = m
run_main (e ∷ es) m = run_main es (main_step e m)

unfoldable pub start_main : Enabled → Main
unfolding dones
start_main c = record { pending = dones c; cancelled = false; exit = none }
