-- ===== src/Saga.antt =====
-- pkg/workflow/saga/saga.go: steps with compensations, run by Temporal activities.
pub mod Compensation
pub mod Outcome
pub mod Restore
mod Tests
use goplatform.Prelude.{
  ℕ, suc, ◌+◌, ℤ, pos, String, Bool, true, false, Option, none, some, List, [], ◌∷◌, ◌++◌, length,
  if◌then◌else◌,
}
use goplatform.Prelude.Loops.{down}
use goplatform.Errors.{Error, Errors, errorf, num, nil, cons, wrap, to_errors}

-- The two fields of `workflow.ActivityOptions` that the package sets.
pub record ActivityOptions : Type 0 where
  pub start_to_close_timeout : ℤ
  pub maximum_attempts : ℕ

-- Temporal: `ExecuteActivity` schedules an activity and returns a future, `Get` waits for its
-- error. `W` is what activities act on, with the server's state.
pub record Temporal (W A I F : Type 0) : Type 0 where
  pub schedule : ActivityOptions → A → I → W → W × F
  pub get : F → W → W × Option Error

pub record Step (A : Type 0) : Type 0 where
  pub action : A
  pub compensation : Option A  -- nil: the step has none

pub record Options : Type 0 where
  pub parallel_compensation : Bool
  pub continue_on_error : Bool
  pub activity_options : Option ActivityOptions

unfoldable pub with_parallel_compensation : Options → Options
with_parallel_compensation o = record o { parallel_compensation = true }

unfoldable pub with_activity_options : ActivityOptions → Options → Options
with_activity_options ao o = record o { activity_options = some ao }

unfoldable pub with_continue_on_compensation_error : Options → Options
with_continue_on_compensation_error o = record o { continue_on_error = true }

pub record Saga (A : Type 0) : Type 0 where
  pub steps : List (Step A)
  pub opts : Options

abbrev default_options : Options
default_options = record {
  parallel_compensation = false;
  continue_on_error = false;
  activity_options = none;
}

apply_options : Options → List (Options → Options) → Options
apply_options o [] = o
apply_options o (opt ∷ opts) = apply_options (opt o) opts

unfoldable pub new : {A : Type 0} → List (Options → Options) → Saga A
unfolding apply_options
new opts = record { steps = []; opts = apply_options default_options opts }

-- Saga.Step
unfoldable pub add_step : {A : Type 0} → Saga A → A → Option A → Saga A
add_step s action compensation = record s {
  steps = s.steps ++ record { action = action; compensation = compensation } ∷ [];
}

-- What the workflow asks Temporal for: an activity is scheduled, and its result arrives.
pub data Call (A : Type 0) : Type 0 where
  scheduled : A → Call A
  finished : A → Option Error → Call A

-- 30 * time.Second and one attempt.
abbrev default_activity_options : ActivityOptions
default_activity_options = record {
  start_to_close_timeout = pos 30_000_000_000;
  maximum_attempts = 1;
}

unfoldable pub effective_options : Options → ActivityOptions
effective_options o = elim o.activity_options [ none ↦ default_activity_options | some ao ↦ ao ]

-- `fmt.Errorf("%v", errs)`, or nil where none was collected.
unfoldable pub collected : List Error → Option Error
collected [] = none
collected (e ∷ es) = some (errorf "%v" [] nil (cons e (to_errors es)))

abbrev pub compensation_error : ℕ → Error → Error
compensation_error i e = wrap "compensation %d: %w" (num i ∷ []) e

abbrev pub add_error : Option Error → ℕ → List Error → List Error
add_error none i errs = errs
add_error (some e) i errs = compensation_error i e ∷ errs

abbrev pub step_error : ℕ → Error → Option Error → Error
step_error i e none = wrap "saga: step %d failed: %w" (num i ∷ []) e
step_error i e (some comp) =
    errorf "saga: step %d failed: %w; compensation error: %v" (num i ∷ []) (cons e nil)
      (cons comp nil)

module _ {W A I F : Type 0} (t : Temporal W A I F) where
  -- `workflow.ExecuteActivity(ctx, activity, input).Get(ctx, nil)`
  unfoldable pub run_activity : ActivityOptions → A → I → W → W × Option Error
  run_activity ao a input w = let (w', f) = t.schedule ao a input w in t.get f w'

  -- The loop of compensateSequential, over the indices and steps in the order visited.
  pub sequential_loop :
      ActivityOptions → Bool → I → List (ℕ × Step A) → W → W × List (Call A) × List Error
  unfolding run_activity
  sequential_loop ao continue_on_error input [] w = (w, [], [])
  sequential_loop ao continue_on_error input ((i, st) ∷ rest) w = elim st.compensation [
    | none ↦ sequential_loop ao continue_on_error input rest w
    | some comp ↦
        let (w', err) = run_activity ao comp input w in
        let (w'', calls, errs) = sequential_loop ao continue_on_error input rest w' in
        elim err [
          | none ↦ (w'', scheduled comp ∷ finished comp none ∷ calls, errs)
          | some e ↦
              if continue_on_error
              then (
                w'',
                scheduled comp ∷ finished comp (some e) ∷ calls,
                compensation_error i e ∷ errs,
              )
              else (w', scheduled comp ∷ finished comp (some e) ∷ [], compensation_error i e ∷ [])
        ]
  ]

  pub compensate_sequential :
      ActivityOptions → Bool → I → List (Step A) → W → W × List (Call A) × Option Error
  unfolding sequential_loop collected
  compensate_sequential ao continue_on_error input completed w =
      let (w', calls, errs) =
        sequential_loop ao continue_on_error input (down (length completed) completed) w in
      (w', calls, collected errs)

  -- The first loop of compensateParallel: every compensation is scheduled.
  pub schedule_all :
      ActivityOptions → I → List (ℕ × Step A) → W → W × List (Call A) × List (ℕ × A × F)
  schedule_all ao input [] w = (w, [], [])
  schedule_all ao input ((i, st) ∷ rest) w = elim st.compensation [
    | none ↦ schedule_all ao input rest w
    | some comp ↦
        let (w', f) = t.schedule ao comp input w in
        let (w'', calls, futures) = schedule_all ao input rest w' in
        (w'', scheduled comp ∷ calls, (i, comp, f) ∷ futures)
  ]

  -- The second loop: every future is waited for.
  pub await_all : List (ℕ × A × F) → W → W × List (Call A) × List Error
  await_all [] w = (w, [], [])
  await_all ((i, a, f) ∷ rest) w =
      let (w', err) = t.get f w in
      let (w'', calls, errs) = await_all rest w' in
      (w'', finished a err ∷ calls, add_error err i errs)

  pub compensate_parallel :
      ActivityOptions → I → List (Step A) → W → W × List (Call A) × Option Error
  unfolding schedule_all await_all collected
  compensate_parallel ao input completed w =
      let (w1, calls1, futures) = schedule_all ao input (down (length completed) completed) w in
      let (w2, calls2, errs) = await_all futures w1 in (w2, calls1 ++ calls2, collected errs)

  pub compensate :
      ActivityOptions → Options → I → List (Step A) → W → W × List (Call A) × Option Error
  compensate ao opts input [] w = (w, [], none)
  compensate ao opts input (st ∷ sts) w =
      if opts.parallel_compensation
      then compensate_parallel ao input (st ∷ sts) w
      else compensate_sequential ao opts.continue_on_error input (st ∷ sts) w

  -- The loop of Execute: the steps from index `i` on, with those completed before.
  pub execute_loop :
      ActivityOptions
      → Options
      → I
      → ℕ
      → List (Step A)
      → List (Step A)
      → W
      → W × List (Call A) × Option Error
  unfolding run_activity compensate
  execute_loop ao opts input i completed [] w = (w, [], none)
  execute_loop ao opts input i completed (st ∷ rest) w =
      let (w', err) = run_activity ao st.action input w in
      elim err [
        | none ↦
            let (w'', calls, result) =
              execute_loop ao opts input (suc i) (completed ++ st ∷ []) rest w' in
            (w'', scheduled st.action ∷ finished st.action none ∷ calls, result)
        | some e ↦
            let (w'', calls, comp_err) = compensate ao opts input completed w' in
            (
              w'',
              scheduled st.action ∷ finished st.action (some e) ∷ calls,
              some (step_error i e comp_err),
            )
      ]

  unfoldable pub execute : Saga A → I → W → W × List (Call A) × Option Error
  unfolding execute_loop effective_options compensate_sequential compensate_parallel
  execute s input w = execute_loop (effective_options s.opts) s.opts input 0 [] s.steps w
