-- ===== src/Workflow/Worker.antt =====
-- pkg/workflow/worker.go: the worker, which runs over the connection of a Client. The SDK's worker is a
-- parameter: `Tw` is its type, `F` that of workflow functions and `A` that of activities.
use goplatform.Prelude.{
  String, ◌≡◌, refl, ap, ◌∙◌, sym, subst, Option, none, some, List, [], ◌∷◌, ◌++◌, map,
  append_assoc, append-nil, ◌⊎◌, inl, inr, str_eq, if◌then◌else◌,
}
use goplatform.Errors.{Error, wrap, failure}
use goplatform.Workflow.{Client}

pub record Worker (F A Tw : Type 0) : Type 0 where
  pub task_queue : String
  pub workflows : List F
  pub activities : List A
  pub temporal_worker : Option Tw

pub record WorkerConfig (F A : Type 0) : Type 0 where
  pub task_queue : String
  pub workflows : List F
  pub activities : List A

-- The SDK's worker. `stop` is tw.Stop in its goroutine, raced against the context: the error is
-- `ctx.Err()` where the context was done first.
pub record WorkerOps (W C F A Tw : Type 0) : Type 0 where
  pub new : C → String → W → W × Tw
  pub register_workflow : Tw → F → W → W
  pub register_activity : Tw → A → W → W
  pub start : Tw → W → W × Option Error
  pub stop : Tw → W → W × Option Error

-- A nil client is `none`.
abbrev pub new_worker :
    {C Tp F A Tw : Type 0} → Option (Client C Tp) → WorkerConfig F A → Worker F A Tw ⊎ Error
new_worker none cfg = inr (failure "workflow: client must not be nil" [])
new_worker (some client) cfg =
    if str_eq cfg.task_queue ""
    then inr (failure "workflow: task queue must not be empty" [])
    else inl (record {
      task_queue = cfg.task_queue;
      workflows = cfg.workflows;
      activities = cfg.activities;
      temporal_worker = none;
    })

module _ {W C F A Tw : Type 0} (ops : WorkerOps W C F A Tw) where
  unfoldable pub register_workflows : Tw → List F → W → W
  register_workflows tw [] w = w
  register_workflows tw (wf ∷ wfs) w = register_workflows tw wfs (ops.register_workflow tw wf w)

  unfoldable pub register_activities : Tw → List A → W → W
  register_activities tw [] w = w
  register_activities tw (act ∷ acts) w =
      register_activities tw acts (ops.register_activity tw act w)

  abbrev pub running : Worker F A Tw → Tw → W × Option Error → Worker F A Tw × W × Option Error
  running wk tw (w, none) = (record wk { temporal_worker = some tw }, w, none)
  running wk tw (w, some e) = (wk, w, some (wrap "workflow: start worker: %w" [] e))

  unfoldable pub start_over : Worker F A Tw → C → W → Worker F A Tw × W × Option Error
  unfolding register_workflows register_activities
  start_over wk tc w =
      let (w1, tw) = ops.new tc wk.task_queue w in
      running wk tw (
        ops.start tw (register_activities tw wk.activities (register_workflows tw wk.workflows w1)))

  -- The worker's `temporalWorker`, and the client's connection.
  abbrev pub start_from :
      Worker F A Tw → Option Tw → Option C → W → Worker F A Tw × W × Option Error
  start_from wk (some tw) o w = (wk, w, some (failure "workflow: worker already started" []))
  start_from wk none none w =
      (wk, w, some (failure "workflow: client not started; start the client before the worker" []))
  start_from wk none (some tc) w = start_over wk tc w

  unfoldable pub start :
      {Tp : Type 0} → Client C Tp → Worker F A Tw → W → Worker F A Tw × W × Option Error
  unfolding start_over
  start client wk w = start_from wk wk.temporal_worker client.temporal_client w

  abbrev pub stop_error : Option Error → Option Error
  stop_error none = none
  stop_error (some e) = some (wrap "workflow: worker stop timed out: %w" [] e)

  abbrev pub stop_from : Option Tw → W → W × Option Error
  stop_from none w = (w, none)
  stop_from (some tw) w = let (w', err) = ops.stop tw w in (w', stop_error err)

  unfoldable pub stop : Worker F A Tw → W → Worker F A Tw × W × Option Error
  stop wk w =
      let (w', err) = stop_from wk.temporal_worker w in
      (record wk { temporal_worker = none }, w', err)

-- What an SDK worker has been given, workflows and activities in the order of the calls.
pub record Registers {W C F A Tw : Type 0} (ops : WorkerOps W C F A Tw)
    (known : Tw → W → List (F ⊎ A)) : Type 0 where
  pub new_is_empty :
      (tc : C) (queue : String) (w : W) → let r = ops.new tc queue w in known r.1 r.0 ≡ []
  pub adds_workflow :
      (tw : Tw) (wf : F) (w : W)
      → known tw (ops.register_workflow tw wf w) ≡ known tw w ++ inl wf ∷ []
  pub adds_activity :
      (tw : Tw) (act : A) (w : W)
      → known tw (ops.register_activity tw act w) ≡ known tw w ++ inr act ∷ []
  pub start_keeps : (tw : Tw) (w : W) → known tw (ops.start tw w).0 ≡ known tw w

module _ {W C F A Tw : Type 0} (ops : WorkerOps W C F A Tw) (known : Tw → W → List (F ⊎ A))
    (registers : Registers ops known) where
  known-register_workflows :
      (tw : Tw) (wfs : List F) (w : W)
      → known tw (register_workflows ops tw wfs w) ≡ known tw w ++ map inl wfs
  unfolding register_workflows
  known-register_workflows tw [] w = sym (append-nil (known tw w))
  known-register_workflows tw (wf ∷ wfs) w =
      known-register_workflows tw wfs _
      ∙ rw (registers.adds_workflow tw wf w) (append_assoc (known tw w) _ _)

  known-register_activities :
      (tw : Tw) (acts : List A) (w : W)
      → known tw (register_activities ops tw acts w) ≡ known tw w ++ map inr acts
  unfolding register_activities
  known-register_activities tw [] w = sym (append-nil (known tw w))
  known-register_activities tw (act ∷ acts) w =
      known-register_activities tw acts _
      ∙ rw (registers.adds_activity tw act w) (append_assoc (known tw w) _ _)

  -- What a Start makes of a worker that does not run.
  pub data Started (wk : Worker F A Tw) (r : Worker F A Tw × W × Option Error) : Type 0 where
    ready :
        (tw : Tw)
        → r.0 ≡ record wk { temporal_worker = some tw }
        → r.2 ≡ none
        → known tw r.1 ≡ map inl wk.workflows ++ map inr wk.activities
        → Started wk r
    refused : (e : Error) → r.0 ≡ wk → r.2 ≡ some e → Started wk r

  running-Started :
      (wk : Worker F A Tw) (tw : Tw) (r : W × Option Error)
      → known tw r.0 ≡ map inl wk.workflows ++ map inr wk.activities
      → Started wk (running ops wk tw r)
  running-Started wk tw (w, none) h = ready tw refl refl h
  running-Started wk tw (w, some e) h = refused _ refl refl

  -- A Start of a worker that does not run, over a client that is connected, leaves a running SDK worker
  -- that has been given all workflows and then all activities of the configuration, each once and in
  -- order, and returns nil; or it leaves the worker as it was and returns an error.
  pub start-Started :
      {Tp : Type 0} (client : Client C Tp) (wk : Worker F A Tw) (tc : C) (w : W)
      → wk.temporal_worker ≡ none
      → client.temporal_client ≡ some tc
      → Started wk (start ops client wk w)
  unfolding start
  start-Started client wk tc w idle connected =
      let (w1, tw) = ops.new tc wk.task_queue w in
      let w2 = register_workflows ops tw wk.workflows w1 in
      let w3 = register_activities ops tw wk.activities w2 in
      subst (λ o. Started wk (start_from ops wk o client.temporal_client w)) (sym idle)
        (subst (λ o. Started wk (start_from ops wk none o w)) (sym connected)
          (unfold start_over in
            running-Started wk tw (ops.start tw w3) (
              registers.start_keeps tw w3
              ∙ known-register_activities tw wk.activities w2
              ∙ ap (λ k. k ++ map inr wk.activities)
                  (known-register_workflows tw wk.workflows w1
                    ∙ ap (λ k. k ++ map inl wk.workflows) (registers.new_is_empty tc _ w)))))
