-- ===== src/App/Run/Order.antt =====
-- The order of the calls that App.Run makes (pkg/platform/app.go): which components it stops, which
-- plugins it closes, and in which order.
use goplatform.Prelude.{
  ℤ, String, ◌≡◌, refl, ap, ◌∙◌, Bool, true, false, ◌&&◌, Option, none, some, List, [], ◌∷◌, ◌++◌,
  map, reverse, append-nil, append_assoc, map-append, arith, cons_some, is_none, Option-cases, inl,
  inr,
}
use goplatform.Prelude.Loops.{downward, downward-reverse, map-reverse}
use goplatform.Errors.{Error}
use goplatform.App.{
  Ctx, signalled, BeforeStartHook, AfterStartHook, BeforeStopHook, AfterStopHook, Plugin,
  NamedComponent, App,
}
use goplatform.App.Run.{
  Call, plugin_init, before_start, start, after_start, before_stop, stop, after_stop, plugin_close,
  StartOutcome, all_started, aborted, run_init, init_plugins, stop_each, stop_started,
  run_before_start, start_components, run_after_start, run_before_stop, run_after_stop, close_each,
}

-- The names of the calls that a selection keeps.
unfoldable pub pick : (Call → Option String) → List Call → List String
pick f [] = []
pick f (c ∷ cs) = cons_some (f c) (pick f cs)

abbrev pub started_name : Call → Option String
started_name (start name none) = some name
started_name _ = none

abbrev pub stopped_name : Call → Option String
stopped_name (stop name err) = some name
stopped_name _ = none

abbrev pub opened_name : Call → Option String
opened_name (plugin_init name none) = some name
opened_name _ = none

abbrev pub closed_name : Call → Option String
closed_name (plugin_close name err) = some name
closed_name _ = none

-- The components that started without an error, and the components that were stopped.
abbrev pub started_of : List Call → List String
started_of = pick started_name

abbrev pub stopped_of : List Call → List String
stopped_of = pick stopped_name

-- The plugins that initialized without an error, and the plugins that were closed.
abbrev pub opened_of : List Call → List String
opened_of = pick opened_name

abbrev pub closed_of : List Call → List String
closed_of = pick closed_name

-- No plugin initialization, before-start hook or start has failed.
abbrev startup_call_ok : Call → Bool
startup_call_ok (plugin_init name (some e)) = false
startup_call_ok (before_start name (some e)) = false
startup_call_ok (start name (some e)) = false
startup_call_ok _ = true

unfoldable pub startup_ok : List Call → Bool
startup_ok [] = true
startup_ok (c ∷ cs) = startup_call_ok c && startup_ok cs

pick-append :
    (f : Call → Option String) (xs ys : List Call) → pick f (xs ++ ys) ≡ pick f xs ++ pick f ys
unfolding pick
pick-append f [] ys = refl
pick-append f (c ∷ cs) ys = ground (arith, pick-append f cs ys)

startup_ok-append : (xs ys : List Call) → startup_ok (xs ++ ys) ≡ (startup_ok xs && startup_ok ys)
unfolding startup_ok
startup_ok-append [] ys = refl
startup_ok-append (c ∷ cs) ys = ground (arith, startup_ok-append cs ys)

-- What a run of calls shows: components started and stopped, plugins opened and closed.
pub record Shows (calls : List Call) (started stopped opened closed : List String) (ok : Bool)
    : Type 0 where
  pub starts : pick started_name calls ≡ started
  pub stops : pick stopped_name calls ≡ stopped
  pub opens : pick opened_name calls ≡ opened
  pub closes : pick closed_name calls ≡ closed
  pub fine : startup_ok calls ≡ ok

pub Shows-nil : Shows [] [] [] [] [] true
unfolding pick startup_ok
Shows-nil = record { starts = refl; stops = refl; opens = refl; closes = refl; fine = refl }

module _ {xs ys : List Call} {a b c d a' b' c' d' : List String} {e e' : Bool}
    (hx : Shows xs a b c d e) (hy : Shows ys a' b' c' d' e') where
  pub Shows-append : Shows (xs ++ ys) (a ++ a') (b ++ b') (c ++ c') (d ++ d') (e && e')
  Shows-append = record {
    starts = simp (pick-append, hx.starts, hy.starts);
    stops = simp (pick-append, hx.stops, hy.stops);
    opens = simp (pick-append, hx.opens, hy.opens);
    closes = simp (pick-append, hx.closes, hy.closes);
    fine = simp (startup_ok-append, hx.fine, hy.fine);
  }

module _ {calls : List Call} {a b c d : List String} {e : Bool} (h : Shows calls a b c d e) where
  Shows-cons :
      (call : Call)
      → Shows
          (call ∷ calls)
          (cons_some (started_name call) a)
          (cons_some (stopped_name call) b)
          (cons_some (opened_name call) c)
          (cons_some (closed_name call) d)
          (startup_call_ok call && e)
  unfolding pick startup_ok
  Shows-cons call = record {
    starts = ap (cons_some (started_name call)) h.starts;
    stops = ap (cons_some (stopped_name call)) h.stops;
    opens = ap (cons_some (opened_name call)) h.opens;
    closes = ap (cons_some (closed_name call)) h.closes;
    fine = ap (λ t. startup_call_ok call && t) h.fine;
  }

module _ {W : Type 0} where
  pub stop_each-Shows :
      (ctx : Ctx) (ncs : List (NamedComponent W)) (w : W)
      → Shows (stop_each ctx ncs w).1 [] (map (λ nc. nc.name) ncs) [] [] true
  unfolding stop_each
  stop_each-Shows ctx [] w = Shows-nil
  stop_each-Shows ctx (nc ∷ ncs) w =
      let (w', err) = nc.component.stop ctx w in
      Shows-cons (stop_each-Shows ctx ncs w') (stop nc.name err)

  pub close_each-Shows :
      (ps : List (Plugin W)) (w : W)
      → Shows (close_each ps w).1 [] [] [] (map (λ p. p.name) ps) true
  unfolding close_each
  close_each-Shows [] w = Shows-nil
  close_each-Shows (p ∷ ps) w =
      let (w', err) = p.close w in Shows-cons (close_each-Shows ps w') (plugin_close p.name err)

  pub run_after_start-Shows :
      (hs : List (AfterStartHook W)) (w : W) → Shows (run_after_start hs w).1 [] [] [] [] true
  unfolding run_after_start
  run_after_start-Shows [] w = Shows-nil
  run_after_start-Shows (h ∷ hs) w = Shows-cons (run_after_start-Shows hs _) after_start

  pub run_before_stop-Shows :
      (ctx : Ctx) (hs : List (BeforeStopHook W)) (w : W)
      → Shows (run_before_stop ctx hs w).1 [] [] [] [] true
  unfolding run_before_stop
  run_before_stop-Shows ctx [] w = Shows-nil
  run_before_stop-Shows ctx (h ∷ hs) w = Shows-cons (run_before_stop-Shows ctx hs _) before_stop

  pub run_after_stop-Shows :
      (ctx : Ctx) (err : Option Error) (hs : List (AfterStopHook W)) (w : W)
      → Shows (run_after_stop ctx err hs w).1 [] [] [] [] true
  unfolding run_after_stop
  run_after_stop-Shows ctx err [] w = Shows-nil
  run_after_stop-Shows ctx err (h ∷ hs) w =
      Shows-cons (run_after_stop-Shows ctx err hs _) (after_stop err)

  stop_started-Shows :
      (timeout : ℤ) (started : List (NamedComponent W)) (w : W)
      → Shows
          (stop_started timeout started w).1
          []
          (reverse (map (λ nc. nc.name) started))
          []
          []
          true
  unfolding stop_started
  stop_started-Shows timeout started w =
      rw (← map-reverse, ← downward-reverse) (stop_each-Shows _ (downward started) w)

  run_before_start-Shows :
      (hs : List (BeforeStartHook W)) (name : String) (w : W)
      → Shows (run_before_start hs name w).1 [] [] [] [] (is_none (run_before_start hs name w).2)
  unfolding run_before_start
  run_before_start-Shows [] name w = Shows-nil
  run_before_start-Shows (h ∷ hs) name w = elim (Option-cases (h signalled name w).1) [
    | inl e ↦
        rw (e, run_before_start)
          (Shows-cons (run_before_start-Shows hs name (h signalled name w).0)
            (before_start name none))
    | inr (err, e) ↦ rw (e, run_before_start) (Shows-cons Shows-nil (before_start name (some err)))
  ]

  -- What the start loop shows, from the names of the components that had started before it.
  abbrev pub StartShows : List String → List Call → StartOutcome W → Type 0
  StartShows before calls (all_started started) =
      (names : List String) × Shows calls names [] [] [] true
      × (map (λ nc. nc.name) started ≡ before ++ names)
  StartShows before calls (aborted err) =
      (names : List String) × Shows calls names (reverse (before ++ names)) [] [] false

  -- One more component has started, and the loop goes on.
  after_start_ok :
      (started : List (NamedComponent W)) (nc : NamedComponent W) (calls : List Call)
      (out : StartOutcome W) {hook_calls : List Call}
      → Shows hook_calls [] [] [] [] true
      → StartShows (map (λ n. n.name) (started ++ nc ∷ [])) calls out
      → StartShows (map (λ n. n.name) started) (hook_calls ++ start nc.name none ∷ calls) out
  after_start_ok started nc calls (all_started all) hk (names, shows, e) = (
    nc.name ∷ names,
    Shows-append hk (Shows-cons shows (start nc.name none)),
    e ∙ simp (map-append, append_assoc),
  )
  after_start_ok started nc calls (aborted err) hk (names, shows) = (
    nc.name ∷ names,
    let e : map (λ n. n.name) (started ++ nc ∷ []) ++ names
            ≡ map (λ n. n.name) started ++ nc.name ∷ names =
          simp (map-append, append_assoc) in
        rw (← e) (Shows-append hk (Shows-cons shows (start nc.name none))),
  )

  pub start_components-Shows :
      (timeout : ℤ) (hooks : List (BeforeStartHook W)) (ncs started : List (NamedComponent W))
      (w : W)
      → StartShows
          (map (λ nc. nc.name) started)
          (start_components timeout hooks ncs started w).1
          (start_components timeout hooks ncs started w).2
  unfolding start_components
  start_components-Shows timeout hooks [] started w = ([], Shows-nil, rw append-nil)
  start_components-Shows timeout hooks (nc ∷ ncs) started w =
      elim (Option-cases (run_before_start hooks nc.name w).2) [
        | inl fine ↦
            let w1 = (run_before_start hooks nc.name w).0 in
            let hk : Shows (run_before_start hooks nc.name w).1 [] [] [] [] true =
              rw fine at (run_before_start-Shows hooks nc.name w) in
            elim (Option-cases (nc.component.start signalled w1).1) [
              | inl up ↦
                  rw (fine, up, start_components)
                    (after_start_ok started nc _ _ hk (
                      start_components-Shows timeout hooks ncs (started ++ nc ∷ [])
                        (nc.component.start signalled w1).0))
              | inr (err, failed) ↦
                  rw (fine, failed, start_components)
                    (
                      [],
                      rw append-nil (
                          Shows-append hk (
                            Shows-cons (stop_started-Shows timeout started _)
                              (start nc.name (some err)))),
                    )
            ]
        | inr (err, failed) ↦
            let hk : Shows (run_before_start hooks nc.name w).1 [] [] [] [] false =
              rw failed at (run_before_start-Shows hooks nc.name w) in
            rw (failed, start_components)
              ([], rw append-nil (Shows-append hk (stop_started-Shows timeout started _)))
      ]

  pub init_plugins-Shows :
      (a : App W) (ps : List (Plugin W)) (w : W)
      → (names : List String) × Shows
          (init_plugins a ps w).2
          []
          []
          names
          []
          (is_none (init_plugins a ps w).3)
        × ((init_plugins a ps w).3 ≡ none → names ≡ map (λ p. p.name) ps)
  unfolding init_plugins
  init_plugins-Shows a [] w = ([], Shows-nil, λ _. refl)
  init_plugins-Shows a (p ∷ ps) w = elim (Option-cases (run_init p.init a w).2) [
    | inl fine ↦
        let (names, shows, all) =
          init_plugins-Shows (run_init p.init a w).0 ps (run_init p.init a w).1 in
        rw (fine, init_plugins)
          (
            p.name ∷ names,
            Shows-cons shows (plugin_init p.name none),
            λ e. ap (λ t. p.name ∷ t) (all e),
          )
    | inr (err, failed) ↦
        rw (failed, init_plugins)
          ([], Shows-cons Shows-nil (plugin_init p.name (some err)), λ e. cc e)
  ]
