-- ===== src/App/Run/Releases.antt =====
-- What a component acquires when it starts, through the loops of Run.
pub mod Whole
use goplatform.Prelude.{
  ℤ, String, ◌≡◌, refl, sym, subst, Option, none, some, List, [], ◌∷◌, ◌++◌, reverse, All,
  Option-cases, inl, inr,
}
use mathlib.Core.List.{reverse-cons}
use goplatform.Prelude.Loops.{downward, downward-reverse}
use goplatform.Errors.{Error}
use goplatform.App.{
  Ctx, signalled, shutdown, BeforeStartHook, AfterStartHook, BeforeStopHook, AfterStopHook,
  Component, Plugin, NamedComponent, App,
}
use goplatform.App.Run.{
  StartOutcome, all_started, aborted, stop_each, stop_started, run_before_start, start_components,
  run_after_start, run_before_stop, run_after_stop, close_each, serve, run,
}

-- `free` holds of a world where the component has not acquired its resource, `held` of one where it has.
module _ {W : Type 0} (free held : W → Type 0) where
  -- A function that has nothing to do with the resource.
  pub record IsQuiet (f : W → W) : Type 0 where
    pub keeps_free : (w : W) → free w → free (f w)
    pub keeps_held : (w : W) → held w → held (f w)

  pub record IsQuietComponent (c : Component W) : Type 0 where
    pub start_quiet : (ctx : Ctx) → IsQuiet (λ w. (c.start ctx w).0)
    pub stop_quiet : (ctx : Ctx) → IsQuiet (λ w. (c.stop ctx w).0)

  -- Start acquires the resource if it returns nil, and Stop releases it, whatever it returns.
  pub record Acquires (c : Component W) : Type 0 where
    pub acquired : (ctx : Ctx) (w : W) → (c.start ctx w).1 ≡ none → free w → held (c.start ctx w).0
    pub not_acquired :
        (ctx : Ctx) (w : W) (e : Error)
        → (c.start ctx w).1 ≡ some e
        → free w
        → free (c.start ctx w).0
    pub released : (ctx : Ctx) (w : W) → held w → free (c.stop ctx w).0

  pub data AllQuiet : List (NamedComponent W) → Type 0 where
    no_more : AllQuiet []
    quiet :
        {nc : NamedComponent W} {ncs : List (NamedComponent W)}
        → IsQuietComponent nc.component
        → AllQuiet ncs
        → AllQuiet (nc ∷ ncs)

  -- One component of the list acquires the resource, and the others are quiet.
  pub data Once : List (NamedComponent W) → Type 0 where
    here :
        {nc : NamedComponent W} {ncs : List (NamedComponent W)}
        → Acquires nc.component
        → AllQuiet ncs
        → Once (nc ∷ ncs)
    there :
        {nc : NamedComponent W} {ncs : List (NamedComponent W)}
        → IsQuietComponent nc.component
        → Once ncs
        → Once (nc ∷ ncs)

  pub AllQuiet-append :
      (xs ys : List (NamedComponent W)) → AllQuiet xs → AllQuiet ys → AllQuiet (xs ++ ys)
  AllQuiet-append [] ys no_more h = h
  AllQuiet-append (x ∷ xs) ys (quiet q qs) h = quiet q (AllQuiet-append xs ys qs h)

  pub Once-append_quiet :
      (xs ys : List (NamedComponent W)) → Once xs → AllQuiet ys → Once (xs ++ ys)
  Once-append_quiet [] ys o h = elim o [ ]
  Once-append_quiet (x ∷ xs) ys (here a qs) h = here a (AllQuiet-append xs ys qs h)
  Once-append_quiet (x ∷ xs) ys (there q o) h = there q (Once-append_quiet xs ys o h)

  quiet-append_Once : (xs ys : List (NamedComponent W)) → AllQuiet xs → Once ys → Once (xs ++ ys)
  quiet-append_Once [] ys no_more h = h
  quiet-append_Once (x ∷ xs) ys (quiet q qs) h = there q (quiet-append_Once xs ys qs h)

  pub AllQuiet-reverse : (xs : List (NamedComponent W)) → AllQuiet xs → AllQuiet (reverse xs)
  AllQuiet-reverse [] no_more = no_more
  AllQuiet-reverse (x ∷ xs) (quiet q qs) =
      subst AllQuiet (sym (reverse-cons x xs))
        (AllQuiet-append (reverse xs) (x ∷ []) (AllQuiet-reverse xs qs) (quiet q no_more))

  pub Once-reverse : (xs : List (NamedComponent W)) → Once xs → Once (reverse xs)
  Once-reverse [] o = elim o [ ]
  Once-reverse (x ∷ xs) (here a qs) =
      subst Once (sym (reverse-cons x xs))
        (quiet-append_Once (reverse xs) (x ∷ []) (AllQuiet-reverse xs qs) (here a no_more))
  Once-reverse (x ∷ xs) (there q o) =
      subst Once (sym (reverse-cons x xs))
        (Once-append_quiet (reverse xs) (x ∷ []) (Once-reverse xs o) (quiet q no_more))

  pub stop_each-free :
      (ctx : Ctx) (ncs : List (NamedComponent W)) (w : W)
      → AllQuiet ncs
      → free w
      → free (stop_each ctx ncs w).0
  unfolding stop_each
  stop_each-free ctx [] w no_more h = h
  stop_each-free ctx (nc ∷ ncs) w (quiet q qs) h =
      stop_each-free ctx ncs _ qs (IsQuiet.keeps_free (q.stop_quiet ctx) w h)

  pub stop_each-releases :
      (ctx : Ctx) (ncs : List (NamedComponent W)) (w : W)
      → Once ncs
      → held w
      → free (stop_each ctx ncs w).0
  unfolding stop_each
  stop_each-releases ctx [] w o h = elim o [ ]
  stop_each-releases ctx (nc ∷ ncs) w (here a qs) h =
      stop_each-free ctx ncs _ qs (a.released ctx w h)
  stop_each-releases ctx (nc ∷ ncs) w (there q o) h =
      stop_each-releases ctx ncs _ o (IsQuiet.keeps_held (q.stop_quiet ctx) w h)

  pub stop_downward-releases :
      (ctx : Ctx) (started : List (NamedComponent W)) (w : W)
      → Once started
      → held w
      → free (stop_each ctx (downward started) w).0
  stop_downward-releases ctx started w o h =
      rw (downward-reverse started)
        (stop_each-releases ctx (reverse started) w (Once-reverse started o) h)

  stop_started-releases :
      (timeout : ℤ) (started : List (NamedComponent W)) (w : W)
      → Once started
      → held w
      → free (stop_started timeout started w).0
  unfolding stop_started
  stop_started-releases timeout started w o h = stop_downward-releases _ started w o h

  stop_started-free :
      (timeout : ℤ) (started : List (NamedComponent W)) (w : W)
      → AllQuiet started
      → free w
      → free (stop_started timeout started w).0
  unfolding stop_started
  stop_started-free timeout started w qs h =
      rw (downward-reverse started)
        (stop_each-free _ (reverse started) w (AllQuiet-reverse started qs) h)

  abbrev pub QuietBeforeStart : BeforeStartHook W → Type 0
  QuietBeforeStart h = (ctx : Ctx) (name : String) → IsQuiet (λ w. (h ctx name w).0)

  -- `Q` is `free` or `held`.
  abbrev pub Kept : (W → Type 0) → Type 0
  Kept Q = (f : W → W) → IsQuiet f → (w : W) → Q w → Q (f w)

  pub run_before_start_keeps :
      (Q : W → Type 0)
      → Kept Q
      → (hooks : List (BeforeStartHook W)) → All QuietBeforeStart hooks
      → (name : String) (w : W) → Q w
      → Q (run_before_start hooks name w).0
  unfolding run_before_start
  run_before_start_keeps Q keep [] qs name w h = h
  run_before_start_keeps Q keep (hook ∷ hooks) (q, qs) name w h =
      let h' = keep (λ w. (hook signalled name w).0) (q signalled name) w h in
      elim (Option-cases (hook signalled name w).1) [
        | inl fine ↦ rw (fine, run_before_start) (run_before_start_keeps Q keep hooks qs name _ h')
        | inr (e, failed) ↦ rw (failed, run_before_start) h'
      ]

  -- How a start loop ends.
  abbrev pub Ended : W → StartOutcome W → Type 0
  Ended w (all_started started) = Once started × held w
  Ended w (aborted err) = free w

  pub free-Kept : Kept free
  free-Kept f q w h = q.keeps_free w h

  pub held-Kept : Kept held
  held-Kept f q w h = q.keeps_held w h

  -- After the component has started.
  start_components-held :
      (timeout : ℤ) (hooks : List (BeforeStartHook W))
      → All QuietBeforeStart hooks
      → (ncs started : List (NamedComponent W)) → AllQuiet ncs
      → Once started
      → (w : W) → held w
      → let s = start_components timeout hooks ncs started w in Ended s.0 s.2
  unfolding start_components
  start_components-held timeout hooks hq [] started no_more o w h = (o, h)
  start_components-held timeout hooks hq (nc ∷ ncs) started (quiet q qs) o w h =
      let w1 = (run_before_start hooks nc.name w).0 in
      let h1 : held w1 = run_before_start_keeps held held-Kept hooks hq nc.name w h in
      let w2 = (nc.component.start signalled w1).0 in
      let h2 : held w2 = IsQuiet.keeps_held (q.start_quiet signalled) w1 h1 in
      elim (Option-cases (run_before_start hooks nc.name w).2) [
        | inl fine ↦ elim (Option-cases (nc.component.start signalled w1).1) [
          | inl up ↦
              rw (fine, up, start_components)
                (start_components-held timeout hooks hq ncs (started ++ nc ∷ []) qs
                  (Once-append_quiet started (nc ∷ []) o (quiet q no_more)) w2 h2)
          | inr (e, failed) ↦
              rw (fine, failed, start_components) (stop_started-releases timeout started w2 o h2)
        ]
        | inr (e, failed) ↦
            rw (failed, start_components) (stop_started-releases timeout started w1 o h1)
      ]

  -- Before that.
  pub start_components-free :
      (timeout : ℤ) (hooks : List (BeforeStartHook W))
      → All QuietBeforeStart hooks
      → (ncs started : List (NamedComponent W)) → Once ncs
      → AllQuiet started
      → (w : W) → free w
      → let s = start_components timeout hooks ncs started w in Ended s.0 s.2
  unfolding start_components
  start_components-free timeout hooks hq [] started o qs w h = elim o [ ]
  start_components-free timeout hooks hq (nc ∷ ncs) started (here a rest) qs w h =
      let w1 = (run_before_start hooks nc.name w).0 in
      let h1 : free w1 = run_before_start_keeps free free-Kept hooks hq nc.name w h in
      let w2 = (nc.component.start signalled w1).0 in
      elim (Option-cases (run_before_start hooks nc.name w).2) [
        | inl fine ↦ elim (Option-cases (nc.component.start signalled w1).1) [
          | inl up ↦
              rw (fine, up, start_components)
                (start_components-held timeout hooks hq ncs (started ++ nc ∷ []) rest
                  (quiet-append_Once started (nc ∷ []) qs (here a no_more)) w2
                  (a.acquired signalled w1 up h1))
          | inr (e, failed) ↦
              rw (fine, failed, start_components)
                (stop_started-free timeout started w2 qs (a.not_acquired signalled w1 e failed h1))
        ]
        | inr (e, failed) ↦
            rw (failed, start_components) (stop_started-free timeout started w1 qs h1)
      ]
  start_components-free timeout hooks hq (nc ∷ ncs) started (there q o) qs w h =
      let w1 = (run_before_start hooks nc.name w).0 in
      let h1 : free w1 = run_before_start_keeps free free-Kept hooks hq nc.name w h in
      let w2 = (nc.component.start signalled w1).0 in
      let h2 : free w2 = IsQuiet.keeps_free (q.start_quiet signalled) w1 h1 in
      elim (Option-cases (run_before_start hooks nc.name w).2) [
        | inl fine ↦ elim (Option-cases (nc.component.start signalled w1).1) [
          | inl up ↦
              rw (fine, up, start_components)
                (start_components-free timeout hooks hq ncs (started ++ nc ∷ []) o
                  (AllQuiet-append started (nc ∷ []) qs (quiet q no_more)) w2 h2)
          | inr (e, failed) ↦
              rw (fine, failed, start_components) (stop_started-free timeout started w2 qs h2)
        ]
        | inr (e, failed) ↦
            rw (failed, start_components) (stop_started-free timeout started w1 qs h1)
      ]
