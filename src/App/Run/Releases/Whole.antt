-- ===== src/App/Run/Releases/Whole.antt =====
-- What a component acquires when it starts is released when Run returns.
use goplatform.Prelude.{
  ℤ, String, sym, subst, Option, List, [], ◌∷◌, reverse, All, All-append, Option-cases, Bool-cases,
  inl, inr,
}
use mathlib.Core.List.{reverse-cons}
use goplatform.Prelude.Loops.{downward-reverse}
use goplatform.Errors.{Error}
use goplatform.App.{
  Ctx, signalled, shutdown, BeforeStartHook, AfterStartHook, BeforeStopHook, AfterStopHook,
  PluginInit, finish, register, component, on_before_start, on_after_start, on_before_stop,
  on_after_stop, act, Plugin, NamedComponent, App, register_component, resolved_name, taken,
  get_component, add_before_start, add_after_start, add_before_stop, add_after_stop,
}
use goplatform.App.Run.{
  run_init, init_plugins, start_components, outcome-cases, run_after_start, run_before_stop,
  run_after_stop, close_each, serve, run,
}
use goplatform.App.Run.Releases.{
  IsQuiet, IsQuietComponent, Once, Once-append_quiet, quiet, no_more, QuietBeforeStart, Kept, Ended,
  held-Kept, stop_downward-releases, start_components-free,
}

module _ {W : Type 0} (free held : W → Type 0) where
  abbrev pub QuietHook : (Ctx → W → W) → Type 0
  QuietHook h = (ctx : Ctx) → IsQuiet free held (h ctx)

  abbrev pub QuietAfterStop : AfterStopHook W → Type 0
  QuietAfterStop h = (ctx : Ctx) (err : Option Error) → IsQuiet free held (h ctx err)

  -- One component of the App acquires the resource, and the other components and the hooks are quiet.
  pub record AcquiresOnce (a : App W) : Type 0 where
    pub components_once : Once free held a.components
    pub before_start_quiet : All (QuietBeforeStart free held) a.before_start
    pub after_start_quiet : All QuietHook a.after_start
    pub before_stop_quiet : All QuietHook a.before_stop
    pub after_stop_quiet : All QuietAfterStop a.after_stop

  -- A plugin that registers quiet components and hooks, and is quiet itself.
  pub QuietInit : PluginInit W → Type 0
  QuietInit (finish err) = Unit
  QuietInit (register name c next) =
      IsQuietComponent free held c × ((err : Option Error) → QuietInit (next err))
  QuietInit (component name next) = (c : Option _) → QuietInit (next c)
  QuietInit (on_before_start h next) = QuietBeforeStart free held h × QuietInit next
  QuietInit (on_after_start h next) = QuietHook h × QuietInit next
  QuietInit (on_before_stop h next) = QuietHook h × QuietInit next
  QuietInit (on_after_stop h next) = QuietAfterStop h × QuietInit next
  QuietInit (act f next) = IsQuiet free held f × ((w : W) → QuietInit (next w))

  abbrev pub QuietPlugin : Plugin W → Type 0
  QuietPlugin p = QuietInit p.init × IsQuiet free held (λ w. (p.close w).0)

  register_component-AcquiresOnce :
      (a : App W) (name : String) (c : _)
      → AcquiresOnce a
      → IsQuietComponent free held c
      → AcquiresOnce (register_component a name c).0
  unfolding register_component
  register_component-AcquiresOnce a name c once q =
      elim (Bool-cases (taken a.components (resolved_name name c))) [
        | inl old ↦ rw (old, register_component) once
        | inr new ↦
            rw (new, register_component)
              (record {
                components_once =
                    Once-append_quiet free held a.components _ once.components_once
                      (quiet q no_more);
                before_start_quiet = once.before_start_quiet;
                after_start_quiet = once.after_start_quiet;
                before_stop_quiet = once.before_stop_quiet;
                after_stop_quiet = once.after_stop_quiet;
              })
      ]

  add_before_start-AcquiresOnce :
      (a : App W) (h : BeforeStartHook W)
      → AcquiresOnce a
      → QuietBeforeStart free held h
      → AcquiresOnce (add_before_start a h)
  unfolding add_before_start
  add_before_start-AcquiresOnce a h once q = record {
    components_once = once.components_once;
    before_start_quiet = All-append _ a.before_start (h ∷ []) once.before_start_quiet (q, tt);
    after_start_quiet = once.after_start_quiet;
    before_stop_quiet = once.before_stop_quiet;
    after_stop_quiet = once.after_stop_quiet;
  }

  add_after_start-AcquiresOnce :
      (a : App W) (h : AfterStartHook W)
      → AcquiresOnce a
      → QuietHook h
      → AcquiresOnce (add_after_start a h)
  unfolding add_after_start
  add_after_start-AcquiresOnce a h once q = record {
    components_once = once.components_once;
    before_start_quiet = once.before_start_quiet;
    after_start_quiet = All-append _ a.after_start (h ∷ []) once.after_start_quiet (q, tt);
    before_stop_quiet = once.before_stop_quiet;
    after_stop_quiet = once.after_stop_quiet;
  }

  add_before_stop-AcquiresOnce :
      (a : App W) (h : BeforeStopHook W)
      → AcquiresOnce a
      → QuietHook h
      → AcquiresOnce (add_before_stop a h)
  unfolding add_before_stop
  add_before_stop-AcquiresOnce a h once q = record {
    components_once = once.components_once;
    before_start_quiet = once.before_start_quiet;
    after_start_quiet = once.after_start_quiet;
    before_stop_quiet = All-append _ a.before_stop (h ∷ []) once.before_stop_quiet (q, tt);
    after_stop_quiet = once.after_stop_quiet;
  }

  add_after_stop-AcquiresOnce :
      (a : App W) (h : AfterStopHook W)
      → AcquiresOnce a
      → QuietAfterStop h
      → AcquiresOnce (add_after_stop a h)
  unfolding add_after_stop
  add_after_stop-AcquiresOnce a h once q = record {
    components_once = once.components_once;
    before_start_quiet = once.before_start_quiet;
    after_start_quiet = once.after_start_quiet;
    before_stop_quiet = once.before_stop_quiet;
    after_stop_quiet = All-append _ a.after_stop (h ∷ []) once.after_stop_quiet (q, tt);
  }

  run_init_keeps :
      (p : PluginInit W) (a : App W) (w : W)
      → QuietInit p
      → AcquiresOnce a
      → free w
      → let s = run_init p a w in AcquiresOnce s.0 × free s.1
  unfolding run_init QuietInit
  run_init_keeps (finish err) a w q once h = (once, h)
  run_init_keeps (register name c next) a w (q, qs) once h =
      run_init_keeps (next (register_component a name c).1) _ w (qs _)
        (register_component-AcquiresOnce a name c once q) h
  run_init_keeps (component name next) a w q once h =
      run_init_keeps (next (get_component a name)) a w (q _) once h
  run_init_keeps (on_before_start hook next) a w (q, qs) once h =
      run_init_keeps next (add_before_start a hook) w qs
        (add_before_start-AcquiresOnce a hook once q) h
  run_init_keeps (on_after_start hook next) a w (q, qs) once h =
      run_init_keeps next (add_after_start a hook) w qs (add_after_start-AcquiresOnce a hook once q)
        h
  run_init_keeps (on_before_stop hook next) a w (q, qs) once h =
      run_init_keeps next (add_before_stop a hook) w qs (add_before_stop-AcquiresOnce a hook once q)
        h
  run_init_keeps (on_after_stop hook next) a w (q, qs) once h =
      run_init_keeps next (add_after_stop a hook) w qs (add_after_stop-AcquiresOnce a hook once q) h
  run_init_keeps (act f next) a w (q, qs) once h =
      run_init_keeps (next (f w)) a (f w) (qs (f w)) once (q.keeps_free w h)

  init_plugins_keeps :
      (ps : List (Plugin W)) (a : App W) (w : W)
      → All QuietPlugin ps
      → AcquiresOnce a
      → free w
      → let s = init_plugins a ps w in AcquiresOnce s.0 × free s.1
  unfolding init_plugins
  init_plugins_keeps [] a w qs once h = (once, h)
  init_plugins_keeps (p ∷ ps) a w (q, qs) once h =
      let (once', h') = run_init_keeps p.init a w q.0 once h in
      elim (Option-cases (run_init p.init a w).2) [
        | inl fine ↦ rw (fine, init_plugins) (init_plugins_keeps ps _ _ qs once' h')
        | inr (e, failed) ↦ rw (failed, init_plugins) (once', h')
      ]

  run_after_start_keeps :
      (Q : W → Type 0)
      → Kept free held Q
      → (hooks : List (AfterStartHook W)) → All QuietHook hooks
      → (w : W) → Q w
      → Q (run_after_start hooks w).0
  unfolding run_after_start
  run_after_start_keeps Q keep [] qs w h = h
  run_after_start_keeps Q keep (hook ∷ hooks) (q, qs) w h =
      run_after_start_keeps Q keep hooks qs _ (keep (hook signalled) (q signalled) w h)

  run_before_stop_keeps :
      (Q : W → Type 0)
      → Kept free held Q
      → (ctx : Ctx) (hooks : List (BeforeStopHook W)) → All QuietHook hooks
      → (w : W) → Q w
      → Q (run_before_stop ctx hooks w).0
  unfolding run_before_stop
  run_before_stop_keeps Q keep ctx [] qs w h = h
  run_before_stop_keeps Q keep ctx (hook ∷ hooks) (q, qs) w h =
      run_before_stop_keeps Q keep ctx hooks qs _ (keep (hook ctx) (q ctx) w h)

  run_after_stop-free :
      (ctx : Ctx) (err : Option Error) (hooks : List (AfterStopHook W))
      → All QuietAfterStop hooks
      → (w : W) → free w
      → free (run_after_stop ctx err hooks w).0
  unfolding run_after_stop
  run_after_stop-free ctx err [] qs w h = h
  run_after_stop-free ctx err (hook ∷ hooks) (q, qs) w h =
      run_after_stop-free ctx err hooks qs _ (IsQuiet.keeps_free (q ctx err) w h)

  close_each-free :
      (ps : List (Plugin W)) (w : W) → All QuietPlugin ps → free w → free (close_each ps w).0
  unfolding close_each
  close_each-free [] w qs h = h
  close_each-free (p ∷ ps) w (q, qs) h = close_each-free ps _ qs (IsQuiet.keeps_free q.1 w h)

  All-reverse : (ps : List (Plugin W)) → All QuietPlugin ps → All QuietPlugin (reverse ps)
  All-reverse [] qs = tt
  All-reverse (p ∷ ps) (q, qs) =
      subst (All QuietPlugin) (sym (reverse-cons p ps))
        (All-append QuietPlugin (reverse ps) (p ∷ []) (All-reverse ps qs) (q, tt))

  serve-free :
      (a : App W) (ps : List (Plugin W)) (timeout : ℤ) (started : List (NamedComponent W))
      (wait : W → W) (w : W)
      → AcquiresOnce a
      → All QuietPlugin ps
      → Once free held started
      → IsQuiet free held wait
      → held w
      → free (serve a ps timeout started wait w).0
  unfolding serve
  serve-free a ps timeout started wait w once qs o q h =
      let h1 =
        run_after_start_keeps held (held-Kept free held) a.after_start once.after_start_quiet w h in
      let h2 =
        run_before_stop_keeps held (held-Kept free held) (shutdown timeout) a.before_stop
          once.before_stop_quiet _ (IsQuiet.keeps_held q _ h1) in
      let h3 = stop_downward-releases free held (shutdown timeout) started _ o h2 in
      let h4 = run_after_stop-free (shutdown timeout) _ a.after_stop once.after_stop_quiet _ h3 in
      rw (downward-reverse ps) (close_each-free (reverse ps) _ (All-reverse ps qs) h4)

  -- A component of which a Start that returns nil acquires a resource, and a Stop releases it, leaves Run
  -- without it, however Run goes: where a plugin, a hook or any component fails, and where nothing does.
  -- The other components, the hooks, the plugins and what happens during the wait have nothing to do with
  -- the resource, but may do anything else.
  pub run-releases :
      (a : App W) (wait : W → W) (w : W)
      → AcquiresOnce a
      → All QuietPlugin a.plugins
      → IsQuiet free held wait
      → free w
      → free (run a wait w).world
  unfolding run
  run-releases a wait w once qs q h =
      let i = init_plugins a a.plugins w in
      let (once', h') = init_plugins_keeps a.plugins a w qs once h in
      let s = start_components a.shutdown_timeout i.0.before_start i.0.components [] i.1 in
      let started =
        start_components-free free held a.shutdown_timeout i.0.before_start once'.before_start_quiet
          i.0.components [] once'.components_once no_more i.1 h' in
      elim (Option-cases i.3) [
        | inl fine ↦ elim (outcome-cases s.2) [
          | inl (err, e) ↦ rw (fine, e, run) (subst (λ o. Ended free held s.0 o) e started)
          | inr (up, e) ↦
              let (o, held_then) = subst (λ o. Ended free held s.0 o) e started in
              rw (fine, e, run)
                (serve-free i.0 a.plugins a.shutdown_timeout up wait s.0 once' qs o q held_then)
        ]
        | inr (e, failed) ↦ rw (failed, run) h'
      ]
