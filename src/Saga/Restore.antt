-- ===== src/Saga/Restore.antt =====
-- The contract of a saga (pkg/workflow/saga/saga.go): all or nothing, if compensations compensate.
use mathlib.Core.List.{reverse-append}
use goplatform.Prelude.{
  ℕ, suc, ◌≡◌, refl, sym, subst, Bool, false, none, some, List, [], ◌∷◌, ◌++◌, map, reverse, ◌⊎◌,
  inl, inr, length, Option-cases, All,
}
use goplatform.Prelude.Loops.{down, map-down}
use goplatform.Saga.{
  ActivityOptions, Temporal, Step, Options, Saga, effective_options, run_activity, sequential_loop,
  compensate_sequential, compensate, execute_loop, execute,
}

module _ {W A I F : Type 0} (t : Temporal W A I F) (ao : ActivityOptions) (input : I) where
  -- A compensation takes back what its action did, and succeeds where the action has succeeded. A
  -- step without a compensation changes nothing.
  abbrev pub Compensates : Step A → Type 0
  Compensates st = elim st.compensation [
    | none ↦
        (w : W)
        → (run_activity t ao st.action input w).1 ≡ none
        → (run_activity t ao st.action input w).0 ≡ w
    | some comp ↦
        (w : W)
        → (run_activity t ao st.action input w).1 ≡ none
        → ((run_activity t ao comp input (run_activity t ao st.action input w).0).1 ≡ none)
          × ((run_activity t ao comp input (run_activity t ao st.action input w).0).0 ≡ w)
  ]

  -- An action that fails changes nothing.
  abbrev pub FailsCleanly : Step A → Type 0
  FailsCleanly st =
      (w : W)
      → ((run_activity t ao st.action input w).1 ≡ none)
        ⊎ ((run_activity t ao st.action input w).0 ≡ w)

  -- Running the compensations of these steps in this order leads from `w` back to `w0`.
  abbrev Rewinds : List (Step A) → W → W → Type 0
  Rewinds [] w w0 = w ≡ w0
  Rewinds (st ∷ sts) w w0 = elim st.compensation [
    | none ↦ Rewinds sts w w0
    | some comp ↦
        ((run_activity t ao comp input w).1 ≡ none)
        × Rewinds sts (run_activity t ao comp input w).0 w0
  ]

  sequential_loop-Rewinds :
      (all : Bool) (l : List (ℕ × Step A)) (w w0 : W)
      → Rewinds (map (λ p. p.1) l) w w0
      → (sequential_loop t ao all input l w).0 ≡ w0
  unfolding sequential_loop
  sequential_loop-Rewinds all [] w w0 h = h
  sequential_loop-Rewinds all ((i, st) ∷ rest) w w0 h = elim (Option-cases st.compensation) [
    | inl e ↦ rw (e, sequential_loop) (sequential_loop-Rewinds all rest w w0 (rw e at h))
    | inr (comp, e) ↦
        let back : ((run_activity t ao comp input w).1 ≡ none)
            × Rewinds (map (λ p. p.1) rest) (run_activity t ao comp input w).0 w0 =
          rw e at h in
        rw (e, back.0, sequential_loop)
          (sequential_loop-Rewinds all rest (run_activity t ao comp input w).0 w0 back.1)
  ]

  compensate-Rewinds :
      (opts : Options) (completed : List (Step A)) (w w0 : W)
      → opts.parallel_compensation ≡ false
      → Rewinds (reverse completed) w w0
      → (compensate t ao opts input completed w).0 ≡ w0
  unfolding compensate compensate_sequential
  compensate-Rewinds opts [] w w0 seq h = h
  compensate-Rewinds opts (st ∷ sts) w w0 seq h =
      rw (seq, compensate)
        (sequential_loop-Rewinds opts.continue_on_error (down (length (st ∷ sts)) (st ∷ sts)) w w0
          (rw (← map-down) at h))

  -- One more step has succeeded.
  Rewinds-cons :
      (st : Step A) (sts : List (Step A)) (w w0 : W)
      → Compensates st
      → (run_activity t ao st.action input w).1 ≡ none
      → Rewinds sts w w0
      → Rewinds (st ∷ sts) (run_activity t ao st.action input w).0 w0
  Rewinds-cons st sts w w0 undo fine h = elim (Option-cases st.compensation) [
    | inl e ↦
        let same : (run_activity t ao st.action input w).0 ≡ w = (rw e at undo) w fine in
        rw (e, same) h
    | inr (comp, e) ↦
        let back : ((run_activity t ao comp input (run_activity t ao st.action input w).0).1 ≡ none)
            × ((run_activity t ao comp input (run_activity t ao st.action input w).0).0 ≡ w) =
          (rw e at undo) w fine in
        rw e (back.0, rw back.1 h)
  ]

  execute_loop-restores :
      (opts : Options) (i : ℕ) (before rest : List (Step A)) (w w0 : W)
      → opts.parallel_compensation ≡ false
      → All Compensates rest
      → All FailsCleanly rest
      → Rewinds (reverse before) w w0
      → let r = execute_loop t ao opts input i before rest w in (r.2 ≡ none) ⊎ (r.0 ≡ w0)
  unfolding execute_loop
  execute_loop-restores opts i before [] w w0 seq undo clean h = inl refl
  execute_loop-restores opts i before (st ∷ rest) w w0 seq undo clean h =
      let w1 = (run_activity t ao st.action input w).0 in
      elim (Option-cases (run_activity t ao st.action input w).1) [
        | inl fine ↦
            let e : st ∷ reverse before ≡ reverse (before ++ st ∷ []) =
              sym (reverse-append before (st ∷ [])) in
            rw (fine, execute_loop)
              (execute_loop-restores opts (suc i) (before ++ st ∷ []) rest w1 w0 seq undo.1 clean.1
                (subst (λ sts. Rewinds sts w1 w0) e
                  (Rewinds-cons st (reverse before) w w0 undo.0 fine h)))
        | inr (err, failed) ↦
            let same : w1 ≡ w = elim (clean.0 w) [ inl fine ↦ cc (fine, failed) | inr e ↦ e ] in
            rw (failed, execute_loop)
              (inr (compensate-Rewinds opts before w1 w0 seq (rw (← same) at h)))
      ]

-- All or nothing: with sequential compensation, if every compensation takes back what its action
-- did and every action that fails changes nothing, then Execute returns nil or leaves the world as
-- it found it. The activities run under the options that Execute gives them.
pub execute_restores :
    {W A I F : Type 0} (t : Temporal W A I F) (s : Saga A) (input : I) (w : W)
    → s.opts.parallel_compensation ≡ false
    → All (Compensates t (effective_options s.opts) input) s.steps
    → All (FailsCleanly t (effective_options s.opts) input) s.steps
    → ((execute t s input w).2 ≡ none) ⊎ ((execute t s input w).0 ≡ w)
unfolding execute
execute_restores t s input w seq undo clean =
    execute_loop-restores t (effective_options s.opts) input s.opts 0 [] s.steps w w seq undo clean
      refl
