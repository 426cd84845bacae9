-- ===== src/App/Run/Lifecycle.antt =====
-- The whole of App.Run (pkg/platform/app.go): what it starts it stops, and what it opens it closes.
use goplatform.Prelude.{
  ℤ, String, ◌≡◌, sym, ap, ◌∙◌, Bool, true, false, List, [], ◌∷◌, ◌++◌, map, reverse, append-nil,
  append_assoc, Option-cases, false≢true, inl, inr, if◌then◌else◌,
}
use goplatform.Prelude.Loops.{downward, downward-reverse, map-reverse}
use goplatform.App.{BeforeStartHook, Plugin, NamedComponent, App, signalled}
use goplatform.App.Run.{
  Call, all_started, aborted, init_plugins, run_before_start, start_components, outcome-cases,
  serve, run,
}
use goplatform.App.Run.Order.{
  Shows, Shows-append, StartShows, stop_each-Shows, close_each-Shows, run_after_start-Shows,
  run_before_stop-Shows, run_after_stop-Shows, start_components-Shows, init_plugins-Shows,
  started_of, stopped_of, opened_of, closed_of, startup_ok,
}

module _ {W : Type 0} where
  serve-Shows :
      (a : App W) (plugins : List (Plugin W)) (timeout : ℤ) (started : List (NamedComponent W))
      (wait : W → W) (w : W)
      → Shows
          (serve a plugins timeout started wait w).1
          []
          (reverse (map (λ nc. nc.name) started))
          []
          (reverse (map (λ p. p.name) plugins))
          true
  unfolding serve
  serve-Shows a plugins timeout started wait w =
      rw
        (
          ← append-nil (reverse (map (λ nc. nc.name) started)),
          ← map-reverse,
          ← map-reverse,
          ← downward-reverse,
          ← downward-reverse,
        )
        (Shows-append (run_after_start-Shows a.after_start w) (
          Shows-append (run_before_stop-Shows _ a.before_stop _) (
            Shows-append (stop_each-Shows _ (downward started) _) (
              Shows-append (run_after_stop-Shows _ _ a.after_stop _)
                (close_each-Shows (downward plugins) _)))))

-- What a run of `a` shows that leaves the App `after`.
record RunShows {W : Type 0} (a after : App W) (calls : List Call) : Type 0 where
  names : List String
  opened : List String
  ok : Bool
  shows : Shows calls names (reverse names) opened (if ok then reverse opened else []) ok
  all_up :
      ok ≡ true
      → (names ≡ map (λ nc. nc.name) after.components) × (opened ≡ map (λ p. p.name) a.plugins)

module _ {W : Type 0} where
  aborted-RunShows :
      (a a' : App W) (calls1 calls2 : List Call) (opened names : List String)
      → Shows calls1 [] [] opened [] true
      → Shows calls2 names (reverse names) [] [] false
      → RunShows a a' (calls1 ++ calls2)
  aborted-RunShows a a' calls1 calls2 opened names h1 h2 = record {
    names = names;
    opened = opened;
    ok = false;
    shows = rw append-nil at (Shows-append h1 h2);
    all_up = λ e. absurd (false≢true e);
  }

  served-RunShows :
      (a a' : App W) (wait : W → W) (w : W) (calls1 calls2 : List Call) (opened : List String)
      (started : List (NamedComponent W))
      → Shows calls1 [] [] opened [] true
      → opened ≡ map (λ p. p.name) a.plugins
      → StartShows [] calls2 (all_started started)
      → started ≡ a'.components
      → RunShows a a'
          (calls1 ++ (calls2 ++ (serve a' a.plugins a.shutdown_timeout started wait w).1))
  served-RunShows a a' wait w calls1 calls2 opened started h1 all (names, h2, same) up = record {
    names = names;
    opened = opened;
    ok = true;
    shows =
        rw (append-nil names, append-nil opened, same, ← all) at
          (Shows-append h1
            (Shows-append h2 (serve-Shows a' a.plugins a.shutdown_timeout started wait w)));
    all_up = λ _. (sym same ∙ ap (map (λ nc. nc.name)) up, all);
  }

  -- A start loop that goes through has started every component, in order.
  start_components_all :
      (timeout : ℤ) (hooks : List (BeforeStartHook W)) (ncs started : List (NamedComponent W))
      (w : W) (all : List (NamedComponent W))
      → (start_components timeout hooks ncs started w).2 ≡ all_started all
      → all ≡ started ++ ncs
  unfolding start_components
  start_components_all timeout hooks [] started w all e = rw append-nil (cc e)
  start_components_all timeout hooks (nc ∷ ncs) started w all e =
      let w1 = (run_before_start hooks nc.name w).0 in
      elim (Option-cases (run_before_start hooks nc.name w).2) [
        | inl fine ↦ elim (Option-cases (nc.component.start signalled w1).1) [
          | inl up ↦
              start_components_all timeout hooks ncs (started ++ nc ∷ []) _ all
                (rw (fine, up, start_components) at e)
              ∙ append_assoc started (nc ∷ []) ncs
          | inr (err, failed) ↦
              let e' : aborted _ ≡ all_started all = rw (fine, failed, start_components) at e in
              cc e'
        ]
        | inr (err, failed) ↦
            let e' : aborted _ ≡ all_started all = rw (failed, start_components) at e in cc e'
      ]

  run-RunShows :
      (a : App W) (wait : W → W) (w : W) → RunShows a (run a wait w).app (run a wait w).calls
  unfolding run
  run-RunShows a wait w =
      let (opened, h1, all) = init_plugins-Shows a a.plugins w in
      let a' = (init_plugins a a.plugins w).0 in
      let w1 = (init_plugins a a.plugins w).1 in
      let h2 = start_components-Shows a.shutdown_timeout a'.before_start a'.components [] w1 in
      let whole = start_components_all a.shutdown_timeout a'.before_start a'.components [] w1 in
      elim (Option-cases (init_plugins a a.plugins w).3) [
        | inl fine ↦
            elim (outcome-cases
              (start_components a.shutdown_timeout a'.before_start a'.components [] w1).2) [
                | inl (err, e) ↦
                    let h : StartShows {W = W} [] _ (aborted err) = rw e at h2 in
                    rw (fine, e, run) (aborted-RunShows a a' _ _ opened h.0 (rw fine at h1) h.1)
                | inr (started, e) ↦
                    rw (fine, e, run)
                      (served-RunShows a a' wait _ _ _ opened started (rw fine at h1) (all fine)
                        (rw e at h2) (whole started e))
              ]
        | inr (err, failed) ↦
            rw (failed, run)
              (record {
                names = [];
                opened = opened;
                ok = false;
                shows = rw failed at h1;
                all_up = λ e. absurd (false≢true e);
              })
      ]

  -- On every run, failed startups included: the components that are stopped are those that started
  -- without an error, each as often as it started, in the reverse order.
  pub run_stops_started :
      (a : App W) (wait : W → W) (w : W)
      → stopped_of (run a wait w).calls ≡ reverse (started_of (run a wait w).calls)
  run_stops_started a wait w =
      let r = run-RunShows a wait w in r.shows.stops ∙ ap reverse (sym r.shows.starts)

  -- The plugins that are closed are those that initialized, in the reverse order, if no plugin, no
  -- before-start hook and no component failed at startup; otherwise no plugin at all is closed.
  pub run_closes_plugins :
      (a : App W) (wait : W → W) (w : W)
      → closed_of (run a wait w).calls
        ≡ (if startup_ok (run a wait w).calls then reverse (opened_of (run a wait w).calls) else [])
  run_closes_plugins a wait w =
      let r = run-RunShows a wait w in rw (r.shows.fine, r.shows.opens) r.shows.closes

  -- If no plugin, no before-start hook and no component failed at startup, then every plugin has
  -- initialized and every component registered by then, the plugins' own included, has started,
  -- each once and in the order of registration.
  pub run_starts_all :
      (a : App W) (wait : W → W) (w : W)
      → startup_ok (run a wait w).calls ≡ true
      → (opened_of (run a wait w).calls ≡ map (λ p. p.name) a.plugins)
        × (started_of (run a wait w).calls ≡ map (λ nc. nc.name) (run a wait w).app.components)
  run_starts_all a wait w fine =
      let r = run-RunShows a wait w in
      let up = r.all_up (sym r.shows.fine ∙ fine) in (r.shows.opens ∙ up.1, r.shows.starts ∙ up.0)
