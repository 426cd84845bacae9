-- ===== src/Saga/Outcome.antt =====
-- What Execute of pkg/workflow/saga/saga.go asks Temporal for, on every path.
use goplatform.Prelude.{
  ℕ, ◌+◌, ◌≡◌, ◌||◌, Option, none, some, List, ◌∷◌, ◌++◌, reverse, length, is_none,
}
use goplatform.Errors.{Error}
use goplatform.Saga.{Step, Options, Saga, Call, scheduled, finished, step_error}
use goplatform.Saga.Compensation.{comps, succeeded, Schedules}

-- The step after `done` failed with `err`. `before` had completed before the loop came to `rest`.
pub record Failed {A : Type 0} (opts : Options) (first : ℕ) (before rest : List (Step A))
    (calls : List (Call A)) (result : Option Error) : Type 0 where
  pub done : List (Step A)
  pub step : Step A
  pub more : List (Step A)
  pub err : Error
  pub comp_calls : List (Call A)
  pub comp_err : Option Error
  pub split : rest ≡ done ++ step ∷ more
  pub made :
      calls ≡ succeeded done ++ scheduled step.action ∷ finished step.action (some err) ∷ comp_calls
  pub undone :
      Schedules
        (comps (reverse (before ++ done)))
        comp_calls
        (is_none comp_err)
        (opts.parallel_compensation || opts.continue_on_error)
  pub reported : result ≡ some (step_error (first + length done) err comp_err)

-- Every step succeeded.
pub record Succeeded {A : Type 0} (rest : List (Step A)) (calls : List (Call A))
    (result : Option Error) : Type 0 where
  pub made : calls ≡ succeeded rest
  pub reported : result ≡ none
