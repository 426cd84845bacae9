-- ===== src/App/Run.antt =====
-- App.Run of pkg/platform/app.go. Each loop returns the world that it leaves, the calls that it
-- made with what each returned, and its own result.
pub mod Order
pub mod Lifecycle
pub mod Reports
pub mod Phases
pub mod Names
pub mod Releases
use goplatform.Prelude.{
  ℤ, String, ◌≡◌, refl, ◌⊎◌, inl, inr, Option, none, some, List, [], ◌∷◌, ◌++◌,
}
use goplatform.Prelude.Loops.{downward}
use goplatform.Errors.{Error, text, wrap, join, join2}
use goplatform.App.{
  Ctx, signalled, shutdown, BeforeStartHook, AfterStartHook, BeforeStopHook, AfterStopHook,
  PluginInit, finish, register, component, on_before_start, on_after_start, on_before_stop,
  on_after_stop, act, Plugin, NamedComponent, App, register_component, get_component,
  add_before_start, add_after_start, add_before_stop, add_after_stop,
}

-- A call that Run makes, with the name that it concerns and the error that came back.
pub data Call : Type 0 where
  plugin_init : String → Option Error → Call
  before_start : String → Option Error → Call
  start : String → Option Error → Call
  after_start : Call
  before_stop : Call
  stop : String → Option Error → Call
  after_stop : Option Error → Call
  plugin_close : String → Option Error → Call

pub data StartOutcome (W : Type 0) : Type 0 where
  all_started : List (NamedComponent W) → StartOutcome W
  aborted : Option Error → StartOutcome W

pub record RunResult (W : Type 0) : Type 0 where
  pub app : App W
  pub world : W
  pub calls : List Call
  pub error : Option Error

abbrev pub cons_error : Option Error → String → String → List Error → List Error
cons_error none format name errs = errs
cons_error (some err) format name errs = wrap format (text name ∷ []) err ∷ errs

module _ {W : Type 0} where
  -- `p.Init(a)`
  unfoldable pub run_init : PluginInit W → App W → W → App W × W × Option Error
  unfolding register_component get_component add_before_start add_after_start add_before_stop
      add_after_stop
  run_init (finish err) a w = (a, w, err)
  run_init (register name c next) a w =
      let (a', err) = register_component a name c in run_init (next err) a' w
  run_init (component name next) a w = run_init (next (get_component a name)) a w
  run_init (on_before_start h next) a w = run_init next (add_before_start a h) w
  run_init (on_after_start h next) a w = run_init next (add_after_start a h) w
  run_init (on_before_stop h next) a w = run_init next (add_before_stop a h) w
  run_init (on_after_stop h next) a w = run_init next (add_after_stop a h) w
  run_init (act f next) a w = run_init (next (f w)) a (f w)

  -- 1. Initialize plugins.
  pub init_plugins : App W → List (Plugin W) → W → App W × W × List Call × Option Error
  unfolding run_init
  init_plugins a [] w = (a, w, [], none)
  init_plugins a (p ∷ ps) w =
      let (a', w', err) = run_init p.init a w in
      elim err [
        | some e ↦ (
          a',
          w',
          plugin_init p.name (some e) ∷ [],
          some (wrap "platform: plugin init %q: %w" (text p.name ∷ []) e),
        )
        | none ↦
            let (a'', w'', calls, result) = init_plugins a' ps w' in
            (a'', w'', plugin_init p.name none ∷ calls, result)
      ]

  -- The bodies of the two loops that stop components, over the elements in the order visited.
  pub stop_each : Ctx → List (NamedComponent W) → W → W × List Call × List Error
  stop_each ctx [] w = (w, [], [])
  stop_each ctx (nc ∷ ncs) w =
      let (w', err) = nc.component.stop ctx w in
      let (w'', calls, errs) = stop_each ctx ncs w' in
      (w'', stop nc.name err ∷ calls, cons_error err "platform: stop %q: %w" nc.name errs)

  -- stopStarted
  pub stop_started : ℤ → List (NamedComponent W) → W → W × List Call × Option Error
  unfolding stop_each join
  stop_started timeout started w =
      let (w', calls, errs) = stop_each (shutdown timeout) (downward started) w in
      (w', calls, join errs)

  -- The BeforeStartHooks of one component, up to the first error.
  pub run_before_start : List (BeforeStartHook W) → String → W → W × List Call × Option Error
  run_before_start [] name w = (w, [], none)
  run_before_start (h ∷ hs) name w =
      let (w', err) = h signalled name w in
      elim err [
        | some e ↦ (w', before_start name (some e) ∷ [], some e)
        | none ↦
            let (w'', calls, result) = run_before_start hs name w' in
            (w'', before_start name none ∷ calls, result)
      ]

  -- 2-3. Start components in registration order; a failure stops those that have started.
  pub start_components :
      ℤ
      → List (BeforeStartHook W)
      → List (NamedComponent W)
      → List (NamedComponent W)
      → W
      → W × List Call × StartOutcome W
  unfolding stop_started run_before_start join2
  start_components timeout hooks [] started w = (w, [], all_started started)
  start_components timeout hooks (nc ∷ ncs) started w =
      let (w1, hook_calls, hook_err) = run_before_start hooks nc.name w in
      elim hook_err [
        | some e ↦
            let (w2, calls, stop_err) = stop_started timeout started w1 in
            (
              w2,
              hook_calls ++ calls,
              aborted (
                  join2 (some (wrap "platform: before start hook %q: %w" (text nc.name ∷ []) e))
                    stop_err),
            )
        | none ↦
            let (w2, err) = nc.component.start signalled w1 in
            elim err [
              | some e ↦
                  let (w3, calls, stop_err) = stop_started timeout started w2 in
                  (
                    w3,
                    hook_calls ++ start nc.name (some e) ∷ calls,
                    aborted (
                        join2 (some (wrap "platform: start %q: %w" (text nc.name ∷ []) e))
                          stop_err),
                  )
              | none ↦
                  let (w3, calls, out) =
                    start_components timeout hooks ncs (started ++ nc ∷ []) w2 in
                  (w3, hook_calls ++ start nc.name none ∷ calls, out)
            ]
      ]

  -- 4. AfterStartHooks.
  pub run_after_start : List (AfterStartHook W) → W → W × List Call
  run_after_start [] w = (w, [])
  run_after_start (h ∷ hs) w =
      let (w', calls) = run_after_start hs (h signalled w) in (w', after_start ∷ calls)

  -- 7. BeforeStopHooks.
  pub run_before_stop : Ctx → List (BeforeStopHook W) → W → W × List Call
  run_before_stop ctx [] w = (w, [])
  run_before_stop ctx (h ∷ hs) w =
      let (w', calls) = run_before_stop ctx hs (h ctx w) in (w', before_stop ∷ calls)

  -- 9. AfterStopHooks.
  pub run_after_stop : Ctx → Option Error → List (AfterStopHook W) → W → W × List Call
  run_after_stop ctx err [] w = (w, [])
  run_after_stop ctx err (h ∷ hs) w =
      let (w', calls) = run_after_stop ctx err hs (h ctx err w) in (w', after_stop err ∷ calls)

  -- 10. Close plugins, over the plugins in the order visited.
  pub close_each : List (Plugin W) → W → W × List Call × List Error
  close_each [] w = (w, [], [])
  close_each (p ∷ ps) w =
      let (w', err) = p.close w in
      let (w'', calls, errs) = close_each ps w' in
      (
        w'',
        plugin_close p.name err ∷ calls,
        cons_error err "platform: plugin close %q: %w" p.name errs,
      )

  -- 4-11. From all components started to the result. `wait` is what the world does until the
  -- context is done.
  pub serve :
      App W
      → List (Plugin W)
      → ℤ
      → List (NamedComponent W)
      → (W → W)
      → W
      → W × List Call × Option Error
  unfolding run_after_start run_before_stop stop_each run_after_stop close_each join join2
  serve a plugins timeout started wait w =
      let (w1, calls1) = run_after_start a.after_start w in
      let ctx = shutdown timeout in
      let (w2, calls2) = run_before_stop ctx a.before_stop (wait w1) in
      let (w3, calls3, stop_errs) = stop_each ctx (downward started) w2 in
      let stop_err = join stop_errs in
      let (w4, calls4) = run_after_stop ctx stop_err a.after_stop w3 in
      let (w5, calls5, close_errs) = close_each (downward plugins) w4 in
      (w5, calls1 ++ (calls2 ++ (calls3 ++ (calls4 ++ calls5))), join2 stop_err (join close_errs))

  unfoldable pub run : App W → (W → W) → W → RunResult W
  unfolding init_plugins start_components serve
  run a wait w =
      let (a', w1, calls1, init_err) = init_plugins a a.plugins w in
      elim init_err [
        | some e ↦ record { app = a'; world = w1; calls = calls1; error = some e }
        | none ↦
            let (w2, calls2, out) =
              start_components a.shutdown_timeout a'.before_start a'.components [] w1 in
            elim out [
              | aborted err ↦ record { app = a'; world = w2; calls = calls1 ++ calls2; error = err }
              | all_started started ↦
                  let (w3, calls3, err) = serve a' a.plugins a.shutdown_timeout started wait w2 in
                  record { app = a'; world = w3; calls = calls1 ++ (calls2 ++ calls3); error = err }
            ]
      ]

  -- To split on how the start loop ended.
  pub outcome-cases :
      (out : StartOutcome W)
      → ((err : Option Error) × (out ≡ aborted err))
        ⊎ ((started : List (NamedComponent W)) × (out ≡ all_started started))
  outcome-cases (all_started started) = inr (started, refl)
  outcome-cases (aborted err) = inl (err, refl)
