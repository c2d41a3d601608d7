-- ===== src/Server/Graceful.antt =====
-- cmd/main.go: the end of the process once every component has ended, over sequences of events.
use event_api.Base.{
  ℕ, Option, ◌&&◌, ◌++◌, ◌∙◌, ◌≡◌, refl, inl, inr, List, [], ◌∷◌, map, none, some, Bool, true,
  false, ◌||◌, Bool-cases, ap,
}
use event_api.Server.Shutdown.{
  Component, Enabled, dones, Event, signal, ended, failed, Main, same_component, without, settle,
  main_step, run_main, start_main,
}
use event_api.Server.Ending.{run_main-gone, run_main-append, run_main-failed, exit_or_one}

abbrev pub is_among : Component → List Component → Bool
is_among d [] = false
is_among d (c ∷ cs) = same_component c d || is_among d cs

-- Whether all of the components are among those that have ended.
abbrev pub all_among : List Component → List Component → Bool
all_among [] order = true
all_among (d ∷ l) order = is_among d order && all_among l order

all_among-without :
    (c : Component) (cs l : List Component) → all_among (without c l) cs ≡ all_among l (c ∷ cs)
unfolding without
all_among-without c cs [] = refl
all_among-without c cs (d ∷ l) = elim (Bool-cases (same_component c d)) [
  | inl gone ↦ rw gone (all_among-without c cs l)
  | inr stays ↦ rw stays (ap (λ b. is_among d cs && b) (all_among-without c cs l))
]

-- What the end of a component leaves of a process that only waits.
abbrev waiting : List Component → Main
waiting l = record { pending = l; cancelled = true; exit = none }

-- The status of a process that waits for some components, once others have ended.
abbrev pub status_of : Bool → Option ℕ
status_of true = some 0
status_of false = none

run_main-settle :
    (order l : List Component)
    → (run_main (map ended order) (settle (waiting l))).exit ≡ status_of (all_among l order)
unfolding run_main main_step
run_main-settle [] [] = refl
run_main-settle [] (d ∷ l) = refl
run_main-settle (c ∷ cs) [] =
    ap (λ (m : Main). m.exit)
      (run_main-gone (map ended (c ∷ cs)) (record { pending = []; cancelled = true; exit = some 0 })
        0 refl)
run_main-settle (c ∷ cs) (d ∷ l) =
    run_main-settle cs (without c (d ∷ l)) ∙ ap status_of (all_among-without c cs (d ∷ l))

pub run_main_ended :
    (c : Enabled) (order : List Component)
    → (run_main (signal ∷ map ended order) (start_main c)).exit
      ≡ status_of (all_among (dones c) order)
unfolding run_main main_step start_main
run_main_ended c order = run_main-settle order (dones c)

pub run_main_failed :
    (c : Enabled) (before : List Component) (d : Component) (after : List Event)
    → (run_main (signal ∷ (map ended before ++ failed d ∷ after)) (start_main c)).exit
      ≡ some (exit_or_one (status_of (all_among (dones c) before)))
run_main_failed c before d after =
    ap (λ (m : Main). m.exit)
      (run_main-append (signal ∷ map ended before) (failed d ∷ after) (start_main c))
    ∙ run_main-failed d after (run_main (signal ∷ map ended before) (start_main c))
    ∙ ap (λ o. some (exit_or_one o)) (run_main_ended c before)
