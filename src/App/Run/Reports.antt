-- ===== src/App/Run/Reports.antt =====
-- What the result of App.Run (pkg/platform/app.go) says of the errors that its calls returned.
use goplatform.Prelude.{
  ℤ, String, ◌≡◌, refl, Bool, true, false, ◌&&◌, ◌||◌, Option, none, some, List, [], ◌∷◌, ◌++◌,
  arith, is_none, Option-cases, inl, inr,
}
use goplatform.Prelude.Loops.{downward}
use goplatform.Errors.{Error, Arg, wrap, join, join2, is, any_is}
use goplatform.Errors.Laws.{is_option, is-join}
use goplatform.App.{
  Ctx, signalled, BeforeStartHook, AfterStartHook, BeforeStopHook, AfterStopHook, Plugin,
  NamedComponent, App,
}
use goplatform.App.Run.{
  Call, plugin_init, before_start, start, after_start, before_stop, stop, after_stop, plugin_close,
  StartOutcome, all_started, aborted, cons_error, run_init, init_plugins, stop_each, stop_started,
  run_before_start, start_components, outcome-cases, run_after_start, run_before_stop,
  run_after_stop, close_each, serve, run,
}

-- The error that a call returned. An after-stop hook is handed an error and returns none.
abbrev pub call_error : Call → Option Error
call_error (plugin_init name err) = err
call_error (before_start name err) = err
call_error (start name err) = err
call_error (stop name err) = err
call_error (plugin_close name err) = err
call_error _ = none

unfoldable pub all_ok : List Call → Bool
all_ok [] = true
all_ok (c ∷ cs) = is_none (call_error c) && all_ok cs

-- Some call returned an error that `errors.Is` identifies with the sentinel.
unfoldable pub any_call_is : String → List Call → Bool
any_call_is s [] = false
any_call_is s (c ∷ cs) = is_option s (call_error c) || any_call_is s cs

record Reports (err : Option Error) (calls : List Call) : Type 0 where
  nil_iff : is_none err ≡ all_ok calls
  finds : (s : String) → is_option s err ≡ any_call_is s calls

all_ok-append : (xs ys : List Call) → all_ok (xs ++ ys) ≡ (all_ok xs && all_ok ys)
unfolding all_ok
all_ok-append [] ys = refl
all_ok-append (c ∷ cs) ys = ground (arith, all_ok-append cs ys)

any_call_is-append :
    (s : String) (xs ys : List Call)
    → any_call_is s (xs ++ ys) ≡ (any_call_is s xs || any_call_is s ys)
unfolding any_call_is
any_call_is-append s [] ys = refl
any_call_is-append s (c ∷ cs) ys = ground (arith, any_call_is-append s cs ys)

Reports-nil : Reports none []
unfolding all_ok any_call_is
Reports-nil = record { nil_iff = refl; finds = λ s. refl }

Reports-one : (c : Call) → Reports (call_error c) (c ∷ [])
unfolding all_ok any_call_is
Reports-one c = record { nil_iff = ground arith; finds = λ s. ground arith }

Reports-wrap :
    (format : String) (args : List Arg) (e : Error) {calls : List Call}
    → Reports (some e) calls
    → Reports (some (wrap format args e)) calls
Reports-wrap format args e h = record {
  nil_iff = h.nil_iff;
  finds = λ s. unfold is any_is in ground (arith, h.finds s);
}

module _ {a b : Option Error} {xs ys : List Call} (hx : Reports a xs) (hy : Reports b ys) where
  Reports-join2 : Reports (join2 a b) (xs ++ ys)
  unfolding join2 is any_is
  Reports-join2 = record {
    nil_iff = rw (all_ok-append, ← hx.nil_iff, ← hy.nil_iff) (ground arith);
    finds = λ s. rw (any_call_is-append, ← hx.finds s, ← hy.finds s) (ground arith);
  }

module _ {b : Option Error} {xs ys : List Call} (hx : Reports none xs) (hy : Reports b ys) where
  Reports-after : Reports b (xs ++ ys)
  Reports-after = record {
    nil_iff = rw (all_ok-append, ← hx.nil_iff, ← hy.nil_iff) refl;
    finds = λ s. rw (any_call_is-append, ← hx.finds s, ← hy.finds s) refl;
  }

-- A list of collected errors, one for each failed call.
Reports-cons_error :
    (err : Option Error) (format name : String) (c : Call) (errs : List Error) {cs : List Call}
    → call_error c ≡ err
    → Reports (join errs) cs
    → Reports (join (cons_error err format name errs)) (c ∷ cs)
unfolding all_ok any_call_is
Reports-cons_error none format name c errs e h = record {
  nil_iff = rw e h.nil_iff;
  finds = λ s. rw e (h.finds s);
}
Reports-cons_error (some err) format name c errs e h = record {
  nil_iff = unfold join in rw e refl;
  finds = λ s. rw (e, ← h.finds s, is-join, is-join) (unfold is any_is in ground arith);
}

module _ {W : Type 0} where
  stop_each-Reports :
      (ctx : Ctx) (ncs : List (NamedComponent W)) (w : W)
      → Reports (join (stop_each ctx ncs w).2) (stop_each ctx ncs w).1
  unfolding stop_each
  stop_each-Reports ctx [] w = unfold join in Reports-nil
  stop_each-Reports ctx (nc ∷ ncs) w =
      let (w', err) = nc.component.stop ctx w in
      Reports-cons_error err "platform: stop %q: %w" nc.name (stop nc.name err) _ refl
        (stop_each-Reports ctx ncs w')

  close_each-Reports :
      (ps : List (Plugin W)) (w : W) → Reports (join (close_each ps w).2) (close_each ps w).1
  unfolding close_each
  close_each-Reports [] w = unfold join in Reports-nil
  close_each-Reports (p ∷ ps) w =
      let (w', err) = p.close w in
      Reports-cons_error err "platform: plugin close %q: %w" p.name (plugin_close p.name err) _ refl
        (close_each-Reports ps w')

  run_after_start-Reports :
      (hs : List (AfterStartHook W)) (w : W) → Reports none (run_after_start hs w).1
  unfolding run_after_start
  run_after_start-Reports [] w = Reports-nil
  run_after_start-Reports (h ∷ hs) w =
      Reports-after (Reports-one after_start) (run_after_start-Reports hs _)

  run_before_stop-Reports :
      (ctx : Ctx) (hs : List (BeforeStopHook W)) (w : W) → Reports none (run_before_stop ctx hs w).1
  unfolding run_before_stop
  run_before_stop-Reports ctx [] w = Reports-nil
  run_before_stop-Reports ctx (h ∷ hs) w =
      Reports-after (Reports-one before_stop) (run_before_stop-Reports ctx hs _)

  run_after_stop-Reports :
      (ctx : Ctx) (err : Option Error) (hs : List (AfterStopHook W)) (w : W)
      → Reports none (run_after_stop ctx err hs w).1
  unfolding run_after_stop
  run_after_stop-Reports ctx err [] w = Reports-nil
  run_after_stop-Reports ctx err (h ∷ hs) w =
      Reports-after (Reports-one (after_stop err)) (run_after_stop-Reports ctx err hs _)

  stop_started-Reports :
      (timeout : ℤ) (started : List (NamedComponent W)) (w : W)
      → Reports (stop_started timeout started w).2 (stop_started timeout started w).1
  unfolding stop_started
  stop_started-Reports timeout started w = stop_each-Reports _ (downward started) w

  run_before_start-Reports :
      (hs : List (BeforeStartHook W)) (name : String) (w : W)
      → Reports (run_before_start hs name w).2 (run_before_start hs name w).1
  unfolding run_before_start
  run_before_start-Reports [] name w = Reports-nil
  run_before_start-Reports (h ∷ hs) name w = elim (Option-cases (h signalled name w).1) [
    | inl e ↦
        rw (e, run_before_start)
          (Reports-after (Reports-one (before_start name none))
            (run_before_start-Reports hs name (h signalled name w).0))
    | inr (err, e) ↦ rw (e, run_before_start) (Reports-one (before_start name (some err)))
  ]

  abbrev outcome_error : StartOutcome W → Option Error
  outcome_error (all_started started) = none
  outcome_error (aborted err) = err

  start_components-Reports :
      (timeout : ℤ) (hooks : List (BeforeStartHook W)) (ncs started : List (NamedComponent W))
      (w : W)
      → Reports
          (outcome_error (start_components timeout hooks ncs started w).2)
          (start_components timeout hooks ncs started w).1
  unfolding start_components
  start_components-Reports timeout hooks [] started w = Reports-nil
  start_components-Reports timeout hooks (nc ∷ ncs) started w =
      elim (Option-cases (run_before_start hooks nc.name w).2) [
        | inl fine ↦
            let w1 = (run_before_start hooks nc.name w).0 in
            let hk : Reports none (run_before_start hooks nc.name w).1 =
              rw fine at (run_before_start-Reports hooks nc.name w) in
            elim (Option-cases (nc.component.start signalled w1).1) [
              | inl up ↦
                  rw (fine, up, start_components)
                    (Reports-after hk (
                      Reports-after (Reports-one (start nc.name none)) (
                        start_components-Reports timeout hooks ncs (started ++ nc ∷ [])
                          (nc.component.start signalled w1).0)))
              | inr (err, failed) ↦
                  rw (fine, failed, start_components)
                    (Reports-after hk (
                      Reports-join2 (Reports-wrap _ _ err (Reports-one (start nc.name (some err))))
                        (stop_started-Reports timeout started _)))
            ]
        | inr (err, failed) ↦
            let hk : Reports (some err) (run_before_start hooks nc.name w).1 =
              rw failed at (run_before_start-Reports hooks nc.name w) in
            rw (failed, start_components)
              (Reports-join2 (Reports-wrap _ _ err hk) (stop_started-Reports timeout started _))
      ]

  init_plugins-Reports :
      (a : App W) (ps : List (Plugin W)) (w : W)
      → Reports (init_plugins a ps w).3 (init_plugins a ps w).2
  unfolding init_plugins
  init_plugins-Reports a [] w = Reports-nil
  init_plugins-Reports a (p ∷ ps) w = elim (Option-cases (run_init p.init a w).2) [
    | inl fine ↦
        rw (fine, init_plugins)
          (Reports-after (Reports-one (plugin_init p.name none))
            (init_plugins-Reports (run_init p.init a w).0 ps (run_init p.init a w).1))
    | inr (err, failed) ↦
        rw (failed, init_plugins)
          (Reports-wrap _ _ err (Reports-one (plugin_init p.name (some err))))
  ]

  serve-Reports :
      (a : App W) (plugins : List (Plugin W)) (timeout : ℤ) (started : List (NamedComponent W))
      (wait : W → W) (w : W)
      → Reports
          (serve a plugins timeout started wait w).2
          (serve a plugins timeout started wait w).1
  unfolding serve
  serve-Reports a plugins timeout started wait w =
      Reports-after (run_after_start-Reports a.after_start w) (
        Reports-after (run_before_stop-Reports _ a.before_stop _) (
          Reports-join2 (stop_each-Reports _ (downward started) _) (
            Reports-after (run_after_stop-Reports _ _ a.after_stop _)
              (close_each-Reports (downward plugins) _))))

  run-Reports :
      (a : App W) (wait : W → W) (w : W) → Reports (run a wait w).error (run a wait w).calls
  unfolding run
  run-Reports a wait w =
      let a' = (init_plugins a a.plugins w).0 in
      let w1 = (init_plugins a a.plugins w).1 in
      let h1 = init_plugins-Reports a a.plugins w in
      let h2 = start_components-Reports a.shutdown_timeout a'.before_start a'.components [] w1 in
      elim (Option-cases (init_plugins a a.plugins w).3) [
        | inl fine ↦
            elim (outcome-cases
              (start_components a.shutdown_timeout a'.before_start a'.components [] w1).2) [
                | inl (err, e) ↦ rw (fine, e, run) (Reports-after (rw fine at h1) (rw e at h2))
                | inr (started, e) ↦
                    rw (fine, e, run)
                      (Reports-after (rw fine at h1) (
                        Reports-after (rw e at h2)
                          (serve-Reports a' a.plugins a.shutdown_timeout started wait _)))
              ]
        | inr (err, failed) ↦ rw (failed, run) (rw failed at h1)
      ]

  -- Run returns nil exactly when no call that it made returned an error.
  pub run_nil_iff_all_ok :
      (a : App W) (wait : W → W) (w : W)
      → is_none (run a wait w).error ≡ all_ok (run a wait w).calls
  run_nil_iff_all_ok a wait w = (run-Reports a wait w).nil_iff

  -- No error is lost: `errors.Is` finds a sentinel in what Run returns exactly when it finds it in
  -- the error of some call that Run made, of a plugin, a hook or a component, starting or stopping.
  pub run_error_complete :
      (a : App W) (wait : W → W) (w : W) (s : String)
      → is_option s (run a wait w).error ≡ any_call_is s (run a wait w).calls
  run_error_complete a wait w s = (run-Reports a wait w).finds s
