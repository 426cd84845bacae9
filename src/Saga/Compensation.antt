-- ===== src/Saga/Compensation.antt =====
-- The compensations that pkg/workflow/saga/saga.go schedules, and in which order.
use goplatform.Prelude.{
  ℕ, ◌≡◌, refl, sym, ap, Bool, true, false, ◌||◌, Option, none, some, List, [], ◌∷◌, ◌++◌, map,
  reverse, append-nil, inl, inr, cons_some, length, Option-cases, Bool-cases, false≢true,
  if◌then◌else◌, is_none,
}
use goplatform.Prelude.Loops.{down, map-down}
use goplatform.Errors.{Error}
use goplatform.Saga.{
  ActivityOptions, Temporal, Step, Options, Call, scheduled, finished, compensation_error,
  collected, run_activity, sequential_loop, compensate_sequential, schedule_all, await_all,
  compensate_parallel, compensate,
}

module _ {A : Type 0} where
  -- The compensations that a list of steps has, in its order.
  abbrev pub comps : List (Step A) → List A
  comps [] = []
  comps (st ∷ sts) = cons_some st.compensation (comps sts)

  -- The activities scheduled, in order.
  unfoldable pub scheduled_of : List (Call A) → List A
  scheduled_of [] = []
  scheduled_of (scheduled a ∷ cs) = a ∷ scheduled_of cs
  scheduled_of (finished a err ∷ cs) = scheduled_of cs

  -- The calls of steps whose actions succeed.
  abbrev pub succeeded : List (Step A) → List (Call A)
  succeeded [] = []
  succeeded (st ∷ sts) = scheduled st.action ∷ finished st.action none ∷ succeeded sts

  scheduled_of-append :
      (xs ys : List (Call A)) → scheduled_of (xs ++ ys) ≡ scheduled_of xs ++ scheduled_of ys
  unfolding scheduled_of
  scheduled_of-append [] ys = refl
  scheduled_of-append (scheduled a ∷ cs) ys = ap (λ t. a ∷ t) (scheduled_of-append cs ys)
  scheduled_of-append (finished a err ∷ cs) ys = scheduled_of-append cs ys

  -- Of the compensations due, these calls schedule the first ones, and skip some at the end only
  -- if one has failed (not `fine`) and the saga is to stop then (not `all`).
  pub record Schedules (due : List A) (calls : List (Call A)) (fine all : Bool) : Type 0 where
    pub skipped : List A
    pub first : due ≡ scheduled_of calls ++ skipped
    pub unless_failed : fine ≡ true → skipped ≡ []
    pub unless_stopping : all ≡ true → skipped ≡ []

  abbrev steps_of : List (ℕ × Step A) → List (Step A)
  steps_of l = map (λ p. p.1) l

module _ {A : Type 0} {due : List A} {calls : List (Call A)} {fine all : Bool}
    (h : Schedules due calls fine all) where
  -- One more compensation that succeeds, in front; or that fails, where the saga goes on.
  Schedules-cons :
      (comp : A) (err : Option Error) (fine' : Bool)
      → (fine' ≡ true → fine ≡ true)
      → Schedules (comp ∷ due) (scheduled comp ∷ finished comp err ∷ calls) fine' all
  unfolding scheduled_of
  Schedules-cons comp err fine' le = record {
    skipped = h.skipped;
    first = ap (λ t. comp ∷ t) h.first;
    unless_failed = λ f. h.unless_failed (le f);
    unless_stopping = h.unless_stopping;
  }

-- The compensation in front fails, and the saga stops.
Schedules-stop :
    {A : Type 0} (comp : A) (err : Error) (due : List A)
    → Schedules (comp ∷ due) (scheduled comp ∷ finished comp (some err) ∷ []) false false
unfolding scheduled_of
Schedules-stop comp err due = record {
  skipped = due;
  first = refl;
  unless_failed = λ f. absurd (false≢true f);
  unless_stopping = λ f. absurd (false≢true f);
}

Schedules-nil : {A : Type 0} (fine all : Bool) → Schedules {A = A} [] [] fine all
unfolding scheduled_of
Schedules-nil fine all = record {
  skipped = [];
  first = refl;
  unless_failed = λ _. refl;
  unless_stopping = λ _. refl;
}

-- All that is due is scheduled.
Schedules-all :
    {A : Type 0} (calls : List (Call A)) (fine : Bool)
    → Schedules (scheduled_of calls) calls fine true
Schedules-all calls fine = record {
  skipped = [];
  first = sym (append-nil _);
  unless_failed = λ _. refl;
  unless_stopping = λ _. refl;
}

module _ {W A I F : Type 0} (t : Temporal W A I F) (ao : ActivityOptions) (input : I) where
  -- A compensation fails: the loop goes on, or stops there.
  after_failure :
      (all : Bool) (i : ℕ) (comp : A) (err : Error) (w : W) (r : W × List (Call A) × List Error)
      {due : List A}
      → Schedules due r.1 (is_none (collected r.2)) all
      → let s : W × List (Call A) × List Error =
          if all
          then (
            r.0,
            scheduled comp ∷ finished comp (some err) ∷ r.1,
            compensation_error i err ∷ r.2,
          )
          else (w, scheduled comp ∷ finished comp (some err) ∷ [], compensation_error i err ∷ []) in
        Schedules (comp ∷ due) s.1 (is_none (collected s.2)) all
  unfolding collected
  after_failure true i comp err w r h =
      Schedules-cons h comp (some err) false (λ f. absurd (false≢true f))
  after_failure false i comp err w r h = Schedules-stop comp err _

  sequential_loop-Schedules :
      (all : Bool) (l : List (ℕ × Step A)) (w : W)
      → Schedules
          (comps (steps_of l))
          (sequential_loop t ao all input l w).1
          (is_none (collected (sequential_loop t ao all input l w).2))
          all
  unfolding sequential_loop collected
  sequential_loop-Schedules all [] w = Schedules-nil true all
  sequential_loop-Schedules all ((i, st) ∷ rest) w = elim (Option-cases st.compensation) [
    | inl e ↦ rw (e, sequential_loop) (sequential_loop-Schedules all rest w)
    | inr (comp, e) ↦
        let w1 = (run_activity t ao comp input w).0 in
        elim (Option-cases (run_activity t ao comp input w).1) [
          | inl fine ↦
              rw (e, fine, sequential_loop)
                (Schedules-cons (sequential_loop-Schedules all rest w1) comp none _ (λ h. h))
          | inr (err, failed) ↦
              rw (e, failed, sequential_loop)
                (after_failure all i comp err w1 (sequential_loop t ao all input rest w1)
                  (sequential_loop-Schedules all rest w1))
        ]
  ]

  scheduled_of-schedule_all :
      (l : List (ℕ × Step A)) (w : W)
      → scheduled_of (schedule_all t ao input l w).1 ≡ comps (steps_of l)
  unfolding schedule_all scheduled_of
  scheduled_of-schedule_all [] w = refl
  scheduled_of-schedule_all ((i, st) ∷ rest) w = elim (Option-cases st.compensation) [
    | inl e ↦ rw (e, schedule_all) (scheduled_of-schedule_all rest w)
    | inr (comp, e) ↦ rw (e, schedule_all) (ap (λ x. comp ∷ x) (scheduled_of-schedule_all rest _))
  ]

  scheduled_of-await_all : (l : List (ℕ × A × F)) (w : W) → scheduled_of (await_all t l w).1 ≡ []
  unfolding await_all scheduled_of
  scheduled_of-await_all [] w = refl
  scheduled_of-await_all ((i, a, f) ∷ rest) w = scheduled_of-await_all rest _

  sequential-Schedules :
      (all : Bool) (completed : List (Step A)) (w : W)
      → Schedules
          (comps (reverse completed))
          (compensate_sequential t ao all input completed w).1
          (is_none (compensate_sequential t ao all input completed w).2)
          all
  unfolding compensate_sequential
  sequential-Schedules all completed w =
      rw (← map-down) (sequential_loop-Schedules all (down (length completed) completed) w)

  parallel-Schedules :
      (completed : List (Step A)) (w : W)
      → Schedules
          (comps (reverse completed))
          (compensate_parallel t ao input completed w).1
          (is_none (compensate_parallel t ao input completed w).2)
          true
  parallel-Schedules completed w = rw (← all_of) (Schedules-all _ _)
    where
      all_of :
          scheduled_of (compensate_parallel t ao input completed w).1 ≡ comps (reverse completed)
      all_of =
          unfold compensate_parallel in
          simp (
            scheduled_of-append, scheduled_of-schedule_all, scheduled_of-await_all, append-nil,
            map-down,
          )

  -- Compensation schedules what is due, in the reverse order of the completed steps.
  pub compensate-Schedules :
      (opts : Options) (completed : List (Step A)) (w : W)
      → Schedules
          (comps (reverse completed))
          (compensate t ao opts input completed w).1
          (is_none (compensate t ao opts input completed w).2)
          (opts.parallel_compensation || opts.continue_on_error)
  unfolding compensate
  compensate-Schedules opts [] w = Schedules-nil true _
  compensate-Schedules opts (st ∷ sts) w = elim (Bool-cases opts.parallel_compensation) [
    | inl par ↦ rw (par, compensate) (parallel-Schedules (st ∷ sts) w)
    | inr seq ↦ rw (seq, compensate) (sequential-Schedules opts.continue_on_error (st ∷ sts) w)
  ]
