-- ===== src/Server/Ending.antt =====
-- internal/app/server.go and cmd/main.go: the end of the shutdown, over sequences of events.
use event_api.Base.{
  ℕ, ◌+◌, ◌≡◌, refl, inl, inr, List, [], ◌∷◌, ◌++◌, map, Option, none, some, Bool, true, false,
  ◌||◌, if◌then◌else◌, ◌==◌, arith, Bool-cases, Option-cases, ◌<◌, ap, sym, ◌∙◌,
}
use event_api.Server.{Server}
use event_api.Server.Counting.{Reach, Reach-Counts}
use event_api.Server.Shutdown.{
  Wake, timeout, tick, wait_for_end, Component, Enabled, Event, signal, minute, ended, failed, Main,
  without, settle, react, main_step, run_main, start_main,
}

-- The loop ends whatever its ticks read, at the latest at its timeout.
wait_for_end-timeout :
    (counts : List ℕ) (rest : List Wake)
    → (wait_for_end (map tick counts ++ timeout ∷ rest)).0 ≡ true
unfolding wait_for_end
wait_for_end-timeout [] rest = refl
wait_for_end-timeout (n ∷ counts) rest = ground (arith, wait_for_end-timeout counts rest)

-- The loop of the shutdown ends at the latest at its timeout, whatever its ticks read before; and a
-- tick in a reachable state with fewer than 2 ^ 32 live connections ends it exactly if none is live.
pub wait_for_end-Reach :
    (counts : List ℕ) (rest : List Wake) {e w : ℕ} {s : Server}
    → Reach e w s
    → e + w < 4294967296
    → ((wait_for_end (map tick counts ++ timeout ∷ rest)).0 ≡ true)
      × (wait_for_end (tick s.active_conns ∷ rest)
          ≡ (if e + w == 0 then (true, rest) else wait_for_end rest))
unfolding wait_for_end
wait_for_end-Reach counts rest {e} {w} {s} r few =
    let same : s.active_conns ≡ e + w = omega (arith, (Reach-Counts r).all, few) in
    (
      wait_for_end-timeout counts rest,
      rw same (elim_if (e + w == 0) (true, rest) (wait_for_end rest)),
    )
  where
    elim_if :
        (b : Bool) (x y : Bool × List Wake)
        → elim b as (λ _. Bool × List Wake) [ true ↦ x | false ↦ y ] ≡ (if b then x else y)
    elim_if true x y = refl
    elim_if false x y = refl

abbrev has_exit : Option ℕ → Bool
has_exit none = false
has_exit (some code) = true

-- The process is on its way out, or out.
abbrev is_over : Main → Bool
is_over m = m.cancelled || has_exit m.exit

main_step-exit :
    (e : Event) (m : Main) → has_exit m.exit ≡ true → has_exit (main_step e m).exit ≡ true
unfolding main_step
main_step-exit e m h = elim (Option-cases m.exit) [
  | inl running ↦ ground arith
  | inr (code, out) ↦ rw (out, main_step) h
]

settle_list :
    (l : List Component) (m : Main)
    → (elim l as (λ _. Main) [
      | [] ↦ if m.cancelled then record m { exit = some 0 } else m
      | c ∷ cs ↦ m
    ]).cancelled
      ≡ m.cancelled
settle_list [] m = ground arith
settle_list (c ∷ cs) m = refl

settle-cancelled : (m : Main) → (settle m).cancelled ≡ m.cancelled
settle-cancelled m = settle_list m.pending m

react-cancelled : (e : Event) (m : Main) → m.cancelled ≡ true → (react e m).cancelled ≡ true
unfolding without
react-cancelled signal m h = ground (arith, settle-cancelled (record m { cancelled = true }))
react-cancelled minute m h = ground arith
react-cancelled (ended c) m h = settle-cancelled (record m { pending = without c m.pending }) ∙ h
react-cancelled (failed c) m h = h

main_step-cancelled : (e : Event) (m : Main) → m.cancelled ≡ true → (main_step e m).cancelled ≡ true
unfolding main_step
main_step-cancelled e m h = elim (Option-cases m.exit) [
  | inl running ↦ rw (running, main_step) (react-cancelled e m h)
  | inr (code, out) ↦ rw (out, main_step) h
]

main_step-is_over : (e : Event) (m : Main) → is_over m ≡ true → is_over (main_step e m) ≡ true
main_step-is_over e m h = elim (Bool-cases m.cancelled) [
  | inl c ↦ ground (arith, main_step-cancelled e m c)
  | inr n ↦ ground (arith, main_step-exit e m)
]

run_main-is_over : (es : List Event) (m : Main) → is_over m ≡ true → is_over (run_main es m) ≡ true
unfolding run_main
run_main-is_over [] m h = h
run_main-is_over (e ∷ es) m h = run_main-is_over es (main_step e m) (main_step-is_over e m h)

run_main-exit :
    (es : List Event) (m : Main) → has_exit m.exit ≡ true → has_exit (run_main es m).exit ≡ true
unfolding run_main
run_main-exit [] m h = h
run_main-exit (e ∷ es) m h = run_main-exit es (main_step e m) (main_step-exit e m h)

signal-is_over : (m : Main) → is_over (main_step signal m) ≡ true
unfolding main_step
signal-is_over m = elim (Option-cases m.exit) [
  | inl running ↦
      rw (running, main_step) (ground (arith, settle-cancelled (record m { cancelled = true })))
  | inr (code, out) ↦ rw (out, main_step) (ground arith)
]

minute-exit : (m : Main) → is_over m ≡ true → has_exit (main_step minute m).exit ≡ true
unfolding main_step
minute-exit m h = elim (Option-cases m.exit) [
  | inl running ↦ rw (running, main_step) (ground arith)
  | inr (code, out) ↦ rw (out, main_step) (ground arith)
]

pub run_main-append :
    (es fs : List Event) (m : Main) → run_main (es ++ fs) m ≡ run_main fs (run_main es m)
unfolding run_main
run_main-append [] fs m = refl
run_main-append (e ∷ es) fs m = run_main-append es fs (main_step e m)

has_exit-some : (o : Option ℕ) → has_exit o ≡ true → (code : ℕ) × (o ≡ some code)
has_exit-some none h = cc
has_exit-some (some code) h = (code, refl)

stay_if :
    (o : Option ℕ) (m x : Main) (code : ℕ)
    → o ≡ some code
    → elim o as (λ _. Main) [ some k ↦ m | none ↦ x ] ≡ m
stay_if none m x code h = absurd (ground arith)
stay_if (some k) m x code h = refl

main_step-gone : (e : Event) (m : Main) (code : ℕ) → m.exit ≡ some code → main_step e m ≡ m
unfolding main_step
main_step-gone e m code h = stay_if m.exit m (react e m) code h

pub run_main-gone : (es : List Event) (m : Main) (code : ℕ) → m.exit ≡ some code → run_main es m ≡ m
unfolding run_main
run_main-gone [] m code h = refl
run_main-gone (e ∷ es) m code h =
    ap (run_main es) (main_step-gone e m code h) ∙ run_main-gone es m code h

-- The status with which the process has exited, or 1.
abbrev pub exit_or_one : Option ℕ → ℕ
exit_or_one none = 1
exit_or_one (some code) = code

pub run_main-failed :
    (c : Component) (after : List Event) (m : Main)
    → (run_main (failed c ∷ after) m).exit ≡ some (exit_or_one m.exit)
unfolding run_main main_step
run_main-failed c after m = elim (Option-cases m.exit) [
  | inl running ↦
      rw (running, main_step)
        (ap (λ (k : Main). k.exit) (run_main-gone after (record m { exit = some 1 }) 1 refl))
  | inr (code, out) ↦
      ap (λ (k : Main). k.exit) (run_main-gone (failed c ∷ after) m code out)
      ∙ out
      ∙ sym (ap (λ o. some (exit_or_one o)) out)
]

-- Whatever else happens, the process has exited once a signal has come and the minute after it has
-- passed. It has also exited once the listener of a component has returned an error, with status 1
-- if it had not exited before.
pub run_main-exits :
    (c : Enabled) (before between after : List Event)
    → ((code : ℕ) × ((run_main (before ++ signal ∷ (between ++ minute ∷ after)) (start_main c)).exit
          ≡ some code))
      × ((d : Component)
          → (run_main (before ++ failed d ∷ after) (start_main c)).exit
            ≡ some (exit_or_one (run_main before (start_main c)).exit))
unfolding run_main
run_main-exits c before between after =
    let m0 : Main = run_main before (start_main c) in
    let m1 : Main = run_main between (main_step signal m0) in
    let over = run_main-is_over between (main_step signal m0) (signal-is_over m0) in
    let gone = run_main-exit after (main_step minute m1) (minute-exit m1 over) in
    let split =
      run_main-append before (signal ∷ (between ++ minute ∷ after)) (start_main c)
      ∙ run_main-append between (minute ∷ after) (main_step signal m0) in
    let (code, e) = has_exit-some (run_main after (main_step minute m1)).exit gone in
    (
      (code, ap (λ (m : Main). m.exit) split ∙ e),
      λ d.
          ap (λ (m : Main). m.exit) (run_main-append before (failed d ∷ after) (start_main c))
          ∙ run_main-failed d after m0,
    )
