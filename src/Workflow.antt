-- ===== src/Workflow.antt =====
-- pkg/workflow/client.go and types.go: the Temporal client as a component. The Temporal SDK is a
-- parameter: `C` is the type of its connections, `Run` that of workflow runs, `F` that of workflow
-- functions and `V` that of arguments. A mutex makes each method one step, with the calls of
-- ExecuteWorkflow and SignalWorkflow outside of it. The logger is left out.
pub mod Worker
mod Tests
use goplatform.Prelude.{String, Option, none, some, List, [], ◌∷◌, ◌⊎◌, inl, inr}
use goplatform.Errors.{Error, text, wrap, failure}

-- `Tp` is the type of tracer providers.
pub record Client (C Tp : Type 0) : Type 0 where
  pub host_port : String
  pub namespace : String
  pub tracer_provider : Option Tp
  pub temporal_client : Option C

pub record WorkflowOptions : Type 0 where
  pub id : String
  pub task_queue : String

-- `client.Options`, with the interceptors, and the calls of the SDK.
pub record Temporal (W C Tp I Run F V : Type 0) : Type 0 where
  pub new_tracing_interceptor : Tp → I ⊎ Error
  pub dial : String → String → List I → W → W × (C ⊎ Error)
  pub close : C → W → W
  pub execute_workflow : C → String → String → F → List V → W → W × (Run ⊎ Error)
  pub signal_workflow : C → String → String → V → W → W × Option Error
  pub get_id : Run → String
  pub get_run_id : Run → String
  pub get : Run → W → W × (V ⊎ Error)

module _ {C Tp : Type 0} where
  unfoldable pub with_host_port : String → Client C Tp → Client C Tp
  with_host_port host_port c = record c { host_port = host_port }

  unfoldable pub with_namespace : String → Client C Tp → Client C Tp
  with_namespace ns c = record c { namespace = ns }

  unfoldable pub with_tracer_provider : Tp → Client C Tp → Client C Tp
  with_tracer_provider tp c = record c { tracer_provider = some tp }

  unfoldable pub apply_options : Client C Tp → List (Client C Tp → Client C Tp) → Client C Tp
  apply_options c [] = c
  apply_options c (opt ∷ opts) = apply_options (opt c) opts

  unfoldable pub new_client : List (Client C Tp → Client C Tp) → Client C Tp
  unfolding apply_options
  new_client opts =
      apply_options
        (record {
          host_port = "localhost:7233";
          namespace = "default";
          tracer_provider = none;
          temporal_client = none;
        })
        opts

abbrev pub not_started : Error
not_started = failure "workflow: client not started" []

module _ {W C Tp I Run F V : Type 0} (t : Temporal W C Tp I Run F V) where
  -- The interceptors of the dial options.
  abbrev pub interceptors : Option Tp → List I ⊎ Error
  interceptors none = inl []
  interceptors (some tp) = elim (t.new_tracing_interceptor tp) [
    | inl i ↦ inl (i ∷ [])
    | inr e ↦ inr (wrap "workflow: create tracing interceptor: %w" [] e)
  ]

  abbrev pub dialled : Client C Tp → W × (C ⊎ Error) → Client C Tp × W × Option Error
  dialled c (w, inl tc) = (record c { temporal_client = some tc }, w, none)
  dialled c (w, inr e) = (c, w, some (wrap "workflow: dial temporal server: %w" [] e))

  abbrev pub dial_with : Client C Tp → List I ⊎ Error → W → Client C Tp × W × Option Error
  dial_with c (inr e) w = (c, w, some e)
  dial_with c (inl is) w = dialled c (t.dial c.host_port c.namespace is w)

  abbrev pub start_from : Client C Tp → Option C → W → Client C Tp × W × Option Error
  start_from c (some tc) w = (c, w, some (failure "workflow: client already started" []))
  start_from c none w = dial_with c (interceptors c.tracer_provider) w

  unfoldable pub start : Client C Tp → W → Client C Tp × W × Option Error
  start c w = start_from c c.temporal_client w

  abbrev pub stop_from : Client C Tp → Option C → W → Client C Tp × W × Option Error
  stop_from c none w = (c, w, none)
  stop_from c (some tc) w = (record c { temporal_client = none }, t.close tc w, none)

  unfoldable pub stop : Client C Tp → W → Client C Tp × W × Option Error
  stop c w = stop_from c c.temporal_client w

  abbrev pub run_result : Run ⊎ Error → Run ⊎ Error
  run_result (inl run) = inl run
  run_result (inr e) = inr (wrap "workflow: execute workflow: %w" [] e)

  abbrev pub execute_from : Option C → WorkflowOptions → F → List V → W → W × (Run ⊎ Error)
  execute_from none opts wf args w = (w, inr not_started)
  execute_from (some tc) opts wf args w =
      let (w', run) = t.execute_workflow tc opts.id opts.task_queue wf args w in
      (w', run_result run)

  unfoldable pub execute_workflow :
      Client C Tp → WorkflowOptions → F → List V → W → W × (Run ⊎ Error)
  execute_workflow c opts wf args w = execute_from c.temporal_client opts wf args w

  abbrev pub signal_error : String → Option Error → Option Error
  signal_error id none = none
  signal_error id (some e) = some (wrap "workflow: signal workflow %q: %w" (text id ∷ []) e)

  abbrev pub signal_from : Option C → String → String → V → W → W × Option Error
  signal_from none id name arg w = (w, some not_started)
  signal_from (some tc) id name arg w =
      let (w', err) = t.signal_workflow tc id name arg w in (w', signal_error id err)

  unfoldable pub signal_workflow : Client C Tp → String → String → V → W → W × Option Error
  signal_workflow c id name arg w = signal_from c.temporal_client id name arg w
