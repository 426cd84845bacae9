-- ===== src/App/Run/Phases.antt =====
-- The phases of App.Run (pkg/platform/app.go): plugins, start, after-start hooks, before-stop hooks,
-- stop, after-stop hooks, plugins closed.
use goplatform.Prelude.{
  ℕ, ℤ, String, ◌≤◌, ◌≡◌, refl, Option, List, [], ◌∷◌, ◌++◌, arith, Option-cases, inl, inr, All,
  All-append,
}
use goplatform.Prelude.Loops.{downward}
use goplatform.Errors.{Error}
use goplatform.App.{
  Ctx, signalled, BeforeStartHook, AfterStartHook, BeforeStopHook, AfterStopHook, Plugin,
  NamedComponent, App,
}
use goplatform.App.Run.{
  Call, plugin_init, before_start, start, after_start, before_stop, stop, after_stop, plugin_close,
  StartOutcome, all_started, aborted, run_init, init_plugins, stop_each, stop_started,
  run_before_start, start_components, outcome-cases, run_after_start, run_before_stop,
  run_after_stop, close_each, serve, run,
}

abbrev pub phase : Call → ℕ
phase (plugin_init name err) = 0
phase (before_start name err) = 1
phase (start name err) = 1
phase after_start = 2
phase before_stop = 3
phase (stop name err) = 4
phase (after_stop err) = 5
phase (plugin_close name err) = 6

-- From `lo` on, no call belongs to an earlier phase than the call before it.
abbrev pub Ascending : ℕ → List Call → Type 0
Ascending lo [] = Unit
Ascending lo (c ∷ cs) = (lo ≤ phase c) × Ascending (phase c) cs

abbrev AllAt : ℕ → List Call → Type 0
AllAt k = All (λ c. phase c ≡ k)

Ascending-append :
    (lo k : ℕ) (xs ys : List Call) → lo ≤ k → AllAt k xs → Ascending k ys → Ascending lo (xs ++ ys)
Ascending-append lo k [] [] le all up = tt
Ascending-append lo k [] (y ∷ ys) le all up = (omega arith, up.1)
Ascending-append lo k (x ∷ xs) ys le all up =
    (omega arith, rw all.0 (Ascending-append k k xs ys (omega arith) all.1 up))

Ascending-AllAt : (lo k : ℕ) (xs : List Call) → lo ≤ k → AllAt k xs → Ascending lo xs
Ascending-AllAt lo k [] le all = tt
Ascending-AllAt lo k (x ∷ xs) le all =
    (omega arith, rw all.0 (Ascending-AllAt k k xs (omega arith) all.1))

module _ {W : Type 0} where
  stop_each-phase :
      (ctx : Ctx) (ncs : List (NamedComponent W)) (w : W) → AllAt 4 (stop_each ctx ncs w).1
  unfolding stop_each
  stop_each-phase ctx [] w = tt
  stop_each-phase ctx (nc ∷ ncs) w = (refl, stop_each-phase ctx ncs _)

  close_each-phase : (ps : List (Plugin W)) (w : W) → AllAt 6 (close_each ps w).1
  unfolding close_each
  close_each-phase [] w = tt
  close_each-phase (p ∷ ps) w = (refl, close_each-phase ps _)

  run_after_start-phase : (hs : List (AfterStartHook W)) (w : W) → AllAt 2 (run_after_start hs w).1
  unfolding run_after_start
  run_after_start-phase [] w = tt
  run_after_start-phase (h ∷ hs) w = (refl, run_after_start-phase hs _)

  run_before_stop-phase :
      (ctx : Ctx) (hs : List (BeforeStopHook W)) (w : W) → AllAt 3 (run_before_stop ctx hs w).1
  unfolding run_before_stop
  run_before_stop-phase ctx [] w = tt
  run_before_stop-phase ctx (h ∷ hs) w = (refl, run_before_stop-phase ctx hs _)

  run_after_stop-phase :
      (ctx : Ctx) (err : Option Error) (hs : List (AfterStopHook W)) (w : W)
      → AllAt 5 (run_after_stop ctx err hs w).1
  unfolding run_after_stop
  run_after_stop-phase ctx err [] w = tt
  run_after_stop-phase ctx err (h ∷ hs) w = (refl, run_after_stop-phase ctx err hs _)

  stop_started-phase :
      (timeout : ℤ) (started : List (NamedComponent W)) (w : W)
      → AllAt 4 (stop_started timeout started w).1
  unfolding stop_started
  stop_started-phase timeout started w = stop_each-phase _ (downward started) w

  run_before_start-phase :
      (hs : List (BeforeStartHook W)) (name : String) (w : W)
      → AllAt 1 (run_before_start hs name w).1
  unfolding run_before_start
  run_before_start-phase [] name w = tt
  run_before_start-phase (h ∷ hs) name w = elim (Option-cases (h signalled name w).1) [
    | inl e ↦ rw (e, run_before_start) (refl, run_before_start-phase hs name _)
    | inr (err, e) ↦ rw (e, run_before_start) (refl, tt)
  ]

  -- A start loop that goes through stays in phase 1; one that aborts ends with stops.
  abbrev StartPhases : List Call → StartOutcome W → Type 0
  StartPhases calls (all_started started) = AllAt 1 calls
  StartPhases calls (aborted err) = Ascending 1 calls

  after_one :
      (xs : List Call) (c : Call) (calls : List Call) (out : StartOutcome W)
      → AllAt 1 xs
      → phase c ≡ 1
      → StartPhases calls out
      → StartPhases (xs ++ c ∷ calls) out
  after_one xs c calls (all_started started) all e h =
      All-append (λ c'. phase c' ≡ 1) xs _ all (e, h)
  after_one xs c calls (aborted err) all e h =
      Ascending-append 1 1 xs _ (omega arith) all (omega arith, rw e h)

  start_components-phase :
      (timeout : ℤ) (hooks : List (BeforeStartHook W)) (ncs started : List (NamedComponent W))
      (w : W)
      → StartPhases
          (start_components timeout hooks ncs started w).1
          (start_components timeout hooks ncs started w).2
  unfolding start_components
  start_components-phase timeout hooks [] started w = tt
  start_components-phase timeout hooks (nc ∷ ncs) started w =
      let hk = run_before_start-phase hooks nc.name w in
      let w1 = (run_before_start hooks nc.name w).0 in
      elim (Option-cases (run_before_start hooks nc.name w).2) [
        | inl fine ↦ elim (Option-cases (nc.component.start signalled w1).1) [
          | inl up ↦
              rw (fine, up, start_components)
                (after_one _ _ _ _ hk refl (
                  start_components-phase timeout hooks ncs (started ++ nc ∷ [])
                    (nc.component.start signalled w1).0))
          | inr (err, failed) ↦
              rw (fine, failed, start_components)
                (Ascending-append 1 1 _ _ (omega arith) hk (
                  omega arith,
                  Ascending-AllAt 1 4 _ (omega arith) (stop_started-phase timeout started _),
                ))
        ]
        | inr (err, failed) ↦
            rw (failed, start_components)
              (Ascending-append 1 1 _ _ (omega arith) hk
                (Ascending-AllAt 1 4 _ (omega arith) (stop_started-phase timeout started _)))
      ]

  init_plugins-phase : (a : App W) (ps : List (Plugin W)) (w : W) → AllAt 0 (init_plugins a ps w).2
  unfolding init_plugins
  init_plugins-phase a [] w = tt
  init_plugins-phase a (p ∷ ps) w = elim (Option-cases (run_init p.init a w).2) [
    | inl fine ↦
        rw (fine, init_plugins)
          (refl, init_plugins-phase (run_init p.init a w).0 ps (run_init p.init a w).1)
    | inr (err, failed) ↦ rw (failed, init_plugins) (refl, tt)
  ]

  serve-phase :
      (a : App W) (plugins : List (Plugin W)) (timeout : ℤ) (started : List (NamedComponent W))
      (wait : W → W) (w : W)
      → Ascending 1 (serve a plugins timeout started wait w).1
  unfolding serve
  serve-phase a plugins timeout started wait w =
      Ascending-append 1 2 _ _ (omega arith) (run_after_start-phase a.after_start w) (
        Ascending-append 2 3 _ _ (omega arith) (run_before_stop-phase _ a.before_stop _) (
          Ascending-append 3 4 _ _ (omega arith) (stop_each-phase _ (downward started) _) (
            Ascending-append 4 5 _ _ (omega arith) (run_after_stop-phase _ _ a.after_stop _)
              (Ascending-AllAt 5 6 _ (omega arith) (close_each-phase (downward plugins) _)))))

  -- On every run the calls come in the order of the phases: all plugins initialize before any
  -- component starts, the hooks around the wait come between the last start and the first stop,
  -- after-stop hooks follow the last stop, and plugins close after everything else.
  pub run_phases_ordered : (a : App W) (wait : W → W) (w : W) → Ascending 0 (run a wait w).calls
  unfolding run
  run_phases_ordered a wait w =
      let a' = (init_plugins a a.plugins w).0 in
      let w1 = (init_plugins a a.plugins w).1 in
      let h1 = init_plugins-phase a a.plugins w in
      let h2 = start_components-phase a.shutdown_timeout a'.before_start a'.components [] w1 in
      let start = start_components a.shutdown_timeout a'.before_start a'.components [] w1 in
      elim (Option-cases (init_plugins a a.plugins w).3) [
        | inl fine ↦
            elim (outcome-cases
              (start_components a.shutdown_timeout a'.before_start a'.components [] w1).2) [
                | inl (err, e) ↦
                    let h : StartPhases _ (aborted err) = rw e at h2 in
                    rw (fine, e, run) (Ascending-append 0 0 _ _ (omega arith) h1 (weaken _ h))
                | inr (started, e) ↦
                    let h : StartPhases _ (all_started started) = rw e at h2 in
                    rw (fine, e, run)
                      (Ascending-append 0 0 _ _ (omega arith) h1 (
                        Ascending-append 0 1 _ _ (omega arith) h
                          (serve-phase a' a.plugins a.shutdown_timeout started wait _)))
              ]
        | inr (err, failed) ↦ rw (failed, run) (Ascending-AllAt 0 0 _ (omega arith) h1)
      ]
    where
      weaken : (cs : List Call) → Ascending 1 cs → Ascending 0 cs
      weaken [] h = tt
      weaken (c ∷ cs) h = (omega arith, h.1)
