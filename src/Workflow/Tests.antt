-- ===== src/Workflow/Tests.antt =====
-- A worker over a connected client.
use goplatform.Prelude.{ℕ, ◌+◌, refl, none, some, List, [], ◌∷◌, ◌++◌, ◌⊎◌, inl, inr}
use goplatform.Workflow.{Client, new_client, with_namespace}
use goplatform.Workflow.Worker.{Worker, WorkerOps, Registers}

-- The world is what the one worker has been given.
abbrev sdk : WorkerOps (List (ℕ ⊎ ℕ)) ℕ ℕ ℕ ℕ
sdk = record {
  new = λ tc queue w. ([], tc + 1);
  register_workflow = λ tw wf w. w ++ inl wf ∷ [];
  register_activity = λ tw act w. w ++ inr act ∷ [];
  start = λ tw w. (w, none);
  stop = λ tw w. (w, none);
}

sdk-Registers : Registers sdk (λ tw w. w)
sdk-Registers = record {
  new_is_empty = λ tc queue w. refl;
  adds_workflow = λ tw wf w. refl;
  adds_activity = λ tw act w. refl;
  start_keeps = λ tw w. refl;
}

abbrev client : Client ℕ ℕ
client = record (new_client (with_namespace "orders" ∷ [])) { temporal_client = some 4 }

abbrev worker : Worker ℕ ℕ ℕ
worker = record {
  task_queue = "orders";
  workflows = 1 ∷ 2 ∷ [];
  activities = 3 ∷ [];
  temporal_worker = none;
}
