-- ===== src/App/Run/Names.antt =====
-- Plugins that register components keep names unique (pkg/platform/app.go: Run, PluginContext).
use goplatform.Prelude.{
  String, ◌≡◌, List, [], ◌∷◌, ◌++◌, append-nil, append_assoc, Option-cases, inl, inr,
}
use goplatform.App.{
  Component, Plugin, PluginInit, finish, register, component, on_before_start, on_after_start,
  on_before_stop, on_after_stop, act, NamedComponent, App, register_component,
}
use goplatform.App.Registry.{UniqueNames, register-UniqueNames, register_adds}
use goplatform.App.Run.{run_init, init_plugins, start_components, outcome-cases, run}

module _ {W : Type 0} where
  -- A plugin only adds components, behind those that are there, and keeps names unique.
  record Grows (before after : App W) : Type 0 where
    unique : UniqueNames before.components → UniqueNames after.components
    added : List (NamedComponent W)
    grown : after.components ≡ before.components ++ added

  Grows-refl : (a : App W) → Grows a a
  Grows-refl a = record { unique = λ u. u; added = []; grown = rw append-nil }

  Grows-trans : {a b c : App W} → Grows a b → Grows b c → Grows a c
  Grows-trans g h = record {
    unique = λ u. h.unique (g.unique u);
    added = g.added ++ h.added;
    grown = simp (h.grown, g.grown, append_assoc);
  }

  Grows-register :
      (a : App W) (name : String) (c : Component W) → Grows a (register_component a name c).0
  Grows-register a name c = record {
    unique = register-UniqueNames a name c;
    added = (register_adds a name c).0;
    grown = (register_adds a name c).1;
  }

  run_init-Grows : (p : PluginInit W) (a : App W) (w : W) → Grows a (run_init p a w).0
  unfolding run_init
  run_init-Grows (finish err) a w = Grows-refl a
  run_init-Grows (register name c next) a w =
      let (a', err) = register_component a name c in
      Grows-trans (Grows-register a name c) (run_init-Grows (next err) a' w)
  run_init-Grows (component name next) a w = run_init-Grows (next _) a w
  run_init-Grows (on_before_start h next) a w =
      let g = run_init-Grows next _ w in
      record { unique = g.unique; added = g.added; grown = g.grown }
  run_init-Grows (on_after_start h next) a w =
      let g = run_init-Grows next _ w in
      record { unique = g.unique; added = g.added; grown = g.grown }
  run_init-Grows (on_before_stop h next) a w =
      let g = run_init-Grows next _ w in
      record { unique = g.unique; added = g.added; grown = g.grown }
  run_init-Grows (on_after_stop h next) a w =
      let g = run_init-Grows next _ w in
      record { unique = g.unique; added = g.added; grown = g.grown }
  run_init-Grows (act f next) a w = run_init-Grows (next (f w)) a (f w)

  init_plugins-Grows : (a : App W) (ps : List (Plugin W)) (w : W) → Grows a (init_plugins a ps w).0
  unfolding init_plugins
  init_plugins-Grows a [] w = Grows-refl a
  init_plugins-Grows a (p ∷ ps) w =
      let g = run_init-Grows p.init a w in
      elim (Option-cases (run_init p.init a w).2) [
        | inl fine ↦
            rw (fine, init_plugins)
              (Grows-trans g
                (init_plugins-Grows (run_init p.init a w).0 ps (run_init p.init a w).1))
        | inr (err, failed) ↦ rw (failed, init_plugins) g
      ]

  run-Grows : (a : App W) (wait : W → W) (w : W) → Grows a (run a wait w).app
  unfolding run
  run-Grows a wait w =
      let a' = (init_plugins a a.plugins w).0 in
      let w1 = (init_plugins a a.plugins w).1 in
      let g = init_plugins-Grows a a.plugins w in
      elim (Option-cases (init_plugins a a.plugins w).3) [
        | inl fine ↦
            elim (outcome-cases
              (start_components a.shutdown_timeout a'.before_start a'.components [] w1).2) [
                | inl (err, e) ↦ rw (fine, e, run) g
                | inr (started, e) ↦ rw (fine, e, run) g
              ]
        | inr (err, failed) ↦ rw (failed, run) g
      ]

  -- Whatever the plugins register, a run of an App with unique names leaves one with unique names.
  pub run-UniqueNames :
      (a : App W) (wait : W → W) (w : W)
      → UniqueNames a.components
      → UniqueNames (run a wait w).app.components
  run-UniqueNames a wait w = (run-Grows a wait w).unique

  -- A run keeps the registered components, in order, and only adds some behind them.
  pub run_only_adds :
      (a : App W) (wait : W → W) (w : W)
      → (added : List (NamedComponent W)) × ((run a wait w).app.components ≡ a.components ++ added)
  run_only_adds a wait w = ((run-Grows a wait w).added, (run-Grows a wait w).grown)
