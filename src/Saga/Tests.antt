-- ===== src/Saga/Tests.antt =====
-- A small saga over a list of marks, and the theorems at it.
use goplatform.Prelude.{ℕ, ◌≡◌, refl, Option, none, some, List, [], ◌∷◌, ◌⊎◌, inl, inr}
use goplatform.Prelude.Loops.{down}
use goplatform.Errors.{Error, sentinel}
use goplatform.Saga.{
  Temporal, Saga, execute, new, add_step, with_continue_on_compensation_error, run_activity,
}
use goplatform.Saga.Compensation.{scheduled_of}
use goplatform.Saga.Restore.{execute_restores}

data Act : Type 0 where
  mark : ℕ → Act
  unmark : Act
  refuse : Act

abbrev tail : List ℕ → List ℕ
tail [] = []
tail (x ∷ xs) = xs

-- The future holds the result: the activity runs when it is scheduled.
abbrev perform : Act → List ℕ → List ℕ × Option Error
perform (mark n) w = (n ∷ w, none)
perform unmark w = (tail w, none)
perform refuse w = (w, some (sentinel "refused"))

abbrev server : Temporal (List ℕ) Act (Unit {0}) (Option Error)
server = record { schedule = λ ao a input w. perform a w; get = λ f w. (w, f) }

-- Two marks and a step that fails; the second step has no compensation in `gap`.
abbrev order : Saga Act
order =
    add_step (add_step (add_step (new []) (mark 1) (some unmark)) (mark 2) (some unmark)) refuse
      (some unmark)

abbrev gap : Saga Act
gap =
    add_step
      (add_step
        (add_step (add_step (new (with_continue_on_compensation_error ∷ [])) (mark 1) (some unmark))
          (mark 2) none)
        (mark 3) (some refuse))
      refuse none

order_restores : (execute server order tt (7 ∷ [])).0 ≡ 7 ∷ []
unfolding execute new add_step down
order_restores = refl

gap_schedules :
    scheduled_of (execute server gap tt []).1
    ≡ mark 1 ∷ mark 2 ∷ mark 3 ∷ refuse ∷ refuse ∷ unmark ∷ []
unfolding execute new add_step with_continue_on_compensation_error down scheduled_of
gap_schedules = refl

execute_restores_example :
    ((execute server order tt (7 ∷ [])).2 ≡ none) ⊎ ((execute server order tt (7 ∷ [])).0 ≡ 7 ∷ [])
unfolding new add_step run_activity
execute_restores_example =
    execute_restores server order tt (7 ∷ []) refl
      (λ w h. (refl, refl), (λ w h. (refl, refl), (λ w h. cc, tt)))
      (λ w. inl refl, (λ w. inl refl, (λ w. inr refl, tt)))
