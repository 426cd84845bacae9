-- ===== src/App/Tests.antt =====
-- Runs of a small App, and the theorems at such runs. The world is a list of numbers.
use goplatform.Prelude.{
  ℕ, ◌+◌, pos, ◌≡◌, refl, true, Option, none, some, List, [], ◌∷◌, reverse, map, str_eq,
  if◌then◌else◌,
}
use goplatform.Prelude.Loops.{downward}
use goplatform.Errors.{Error, sentinel, failure, text, is}
use goplatform.Errors.Laws.{is_option}
use goplatform.App.{
  Component, Plugin, finish, register, App, new, with_shutdown_timeout, register_component,
  resolved_name, taken, use_plugins, get_component,
}
use goplatform.App.Registry.{UniqueNames, register-UniqueNames, get-register, register_refused}
use goplatform.App.Run.{run}
use goplatform.App.Run.Order.{pick, started_of, stopped_of, opened_of, closed_of, startup_ok}
use goplatform.App.Run.Lifecycle.{run_stops_started, run_closes_plugins, run_starts_all}
use goplatform.App.Run.Reports.{any_call_is, run_error_complete}
use goplatform.App.Run.Phases.{Ascending, run_phases_ordered}

abbrev World : Type 0
World = List ℕ

-- A component that notes its number when it starts and stops.
abbrev noting : ℕ → Option Error → Option Error → Component World
noting n start_err stop_err = record {
  declared = none;
  start = λ ctx w. (n ∷ w, start_err);
  stop = λ ctx w. ((n + 100) ∷ w, stop_err);
  health = none;
}

abbrev down : Error
down = sentinel "down"

abbrev db : Component World
db = record (noting 1 none none) { health = some (λ ctx w. (w, some down)) }

abbrev http : Component World
http = noting 2 none (some down)

abbrev broken : Component World
broken = noting 3 (some down) none

-- A plugin that registers a component of its own.
abbrev metrics : Plugin World
metrics = record {
  name = "metrics";
  init = register "exporter" (noting 4 none none) (λ err. finish err);
  close = λ w. (200 ∷ w, none);
}

abbrev two : App World
two =
    (register_component
      (register_component (use_plugins (new (with_shutdown_timeout (pos 5) ∷ [])) (metrics ∷ []))
        "db" db).0
      "http" http).0

abbrev three : App World
three = (register_component two "broken" broken).0

abbrev idle : World → World
idle w = w

-- All start; the error of a Stop comes back.
two_runs :
    ((run two idle []).world ≡ 200 ∷ 101 ∷ 102 ∷ 104 ∷ 4 ∷ 2 ∷ 1 ∷ [])
    × (is_option "down" (run two idle []).error ≡ true)
unfolding run new register_component taken use_plugins with_shutdown_timeout downward is
two_runs = (refl, refl)

-- The third component fails to start: the other two are stopped, and no plugin is closed.
three_runs :
    ((run three idle []).world ≡ 101 ∷ 102 ∷ 3 ∷ 2 ∷ 1 ∷ [])
    × (closed_of (run three idle []).calls ≡ [])
unfolding run new register_component taken use_plugins with_shutdown_timeout downward pick
three_runs = (refl, refl)

run_stops_started_example :
    stopped_of (run three idle []).calls ≡ reverse (started_of (run three idle []).calls)
run_stops_started_example = run_stops_started three idle []

run_closes_plugins_example : closed_of (run three idle []).calls ≡ (
    if startup_ok (run three idle []).calls
    then reverse (opened_of (run three idle []).calls)
    else [])
run_closes_plugins_example = run_closes_plugins three idle []

two_start : startup_ok (run two idle []).calls ≡ true
unfolding run new register_component taken use_plugins with_shutdown_timeout downward startup_ok
two_start = refl

run_starts_all_example :
    (opened_of (run two idle []).calls ≡ map (λ p. p.name) two.plugins)
    × (started_of (run two idle []).calls ≡ map (λ nc. nc.name) (run two idle []).app.components)
run_starts_all_example = run_starts_all two idle [] two_start

run_error_complete_example :
    is_option "down" (run three idle []).error ≡ any_call_is "down" (run three idle []).calls
run_error_complete_example = run_error_complete three idle [] "down"

run_phases_ordered_example : Ascending 0 (run three idle []).calls
run_phases_ordered_example = run_phases_ordered three idle []

two_unique : UniqueNames two.components
unfolding new register_component taken use_plugins with_shutdown_timeout
two_unique = (refl, (refl, tt))

register-UniqueNames_example : UniqueNames (register_component two "db" http).0.components
register-UniqueNames_example = register-UniqueNames two "db" http two_unique

get-register_example : get_component three "broken" ≡ (
    if taken two.components (resolved_name "broken" broken)
    then get_component two "broken"
    else if str_eq (resolved_name "broken" broken) "broken"
    then some broken
    else get_component two "broken")
get-register_example = get-register two "broken" "broken" broken

abbrev taken_error : Error
taken_error = failure "platform: register: component %q already exists" (text "db" ∷ [])

register_refused_example :
    (taken two.components (resolved_name "db" http) ≡ true)
    × ((register_component two "db" http).0 ≡ two)
unfolding new register_component taken use_plugins with_shutdown_timeout
register_refused_example = register_refused two "db" http {err = taken_error} refl
