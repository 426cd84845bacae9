-- ===== src/Command/Tests.antt =====
-- Processes as a list of the numbers of those that run.
use goplatform.Prelude.{
  ℕ, ◌+◌, ◌≡◌, refl, true, false, ◌++◌, ap, ◌∙◌, arith, none, List, [], ◌∷◌, inl, ◌==◌, some, map,
  leb, if◌then◌else◌,
}
use goplatform.Prelude.Bytes.{codes}
use goplatform.Errors.{sentinel}
use goplatform.Scaffold.{component_enabled}
use goplatform.Scaffold.Files.{Begun}
use goplatform.Scaffold.Render.{Fs, slash}
use goplatform.Scaffold.Render.Targets.{
  Template, Found, in_dir, template, visit_of, planned_proto, planned_each,
}
use goplatform.Command.Init.{
  Flags, init_data, go_mod_path, go_mod, module_or_default, run_init, run_init-Begun, components,
  data_of,
}
use goplatform.Command.Components.{contains, components-enabled}
use goplatform.Command.Migrations.{run_migrate_create}
use goplatform.Command.{dir, file, cons, nil, add_recursive, walk, skips}
use goplatform.Command.Runner.{Os, restart}
use goplatform.Command.Dev.{
  RunConfig, Happening, done, event, watch_error, quiet, Watcher, run_dev, watch_dirs, dev_loop,
  debounced, is_go_file,
}
use goplatform.Command.Dev.Returns.{KeepsOthers, has_returned, run_dev-returns}
use goplatform.Command.Laws.{KeepsProcesses, Single, nothing, Call, call_restart, call_stop}

-- The processes that run, and the number of the next one.
abbrev Machine : Type 0
Machine = List ℕ × ℕ

-- "main.go"
abbrev main_go : List ℕ
main_go = 109 ∷ 97 ∷ 105 ∷ 110 ∷ 46 ∷ 103 ∷ 111 ∷ []

abbrev without : ℕ → List ℕ → List ℕ
without p [] = []
without p (q ∷ qs) = let rest = without p qs in if q == p then rest else q ∷ rest

abbrev machine : Os Machine ℕ
machine = record {
  terminate = λ p seconds (w : Machine). (without p w.0, w.1);
  build = λ w. (w, none);
  start = λ (w : Machine). ((w.1 ∷ w.0, w.1 + 1), inl w.1);
}

machine-KeepsProcesses : KeepsProcesses machine (λ (w : Machine). w.0)
machine-KeepsProcesses = record {
  terminated = λ p seconds w h. ap (λ ps. without p ps) h ∙ ground arith;
  gone = λ p seconds w h. ap (λ ps. without p ps) h;
  build_keeps = λ w. refl;
  added = λ w p e. cc;
  not_added = λ w err e. cc;
}

abbrev calls : List Call
calls = call_restart ∷ call_stop ∷ call_restart ∷ call_restart ∷ []

idle : Single {P = ℕ} (record { cmd = none }) []
idle = nothing refl

-- A tree with one file, in a directory "src".
abbrev fsnotify : Watcher Machine
fsnotify = record {
  new_watcher = λ w. (w, none);
  add = λ name path w. (w, none);
  tree = λ name w. dir (115 ∷ 114 ∷ 99 ∷ []) (cons (file main_go) nil);
  close = λ w. w;
}

fsnotify-KeepsOthers : KeepsOthers fsnotify (λ (w : Machine). w.0)
fsnotify-KeepsOthers = record {
  new_keeps = λ w. refl;
  add_keeps = λ name path w. refl;
  close_keeps = λ w. refl;
}

abbrev reloading : RunConfig
reloading = record { no_reload = false; watch_dirs = "src" ∷ [] }

-- A change of main.go, the rebuild, and an error of the watcher.
abbrev happenings : List Happening
happenings = event main_go true false ∷ quiet ∷ watch_error (sentinel "overflow") ∷ []

-- The rebuild has started a second process.
happenings_restart : (run_dev machine fsnotify reloading happenings ([], 1)).1 ≡ (2 ∷ [], 3)
unfolding run_dev restart watch_dirs add_recursive walk skips dev_loop debounced is_go_file
happenings_restart = refl

run_dev-returns_example :
    let s = run_dev machine fsnotify reloading (happenings ++ done ∷ quiet ∷ []) ([], 1) in
    (has_returned s.2 ≡ true) × (s.1.0 ≡ [])
run_dev-returns_example =
    run_dev-returns machine fsnotify (λ (w : Machine). w.0) machine-KeepsProcesses
      fsnotify-KeepsOthers reloading happenings (quiet ∷ []) ([], 1) refl

-- The world is the number of files written, and the disk is full after two.
abbrev small_disk : Fs ℕ (List ℕ)
small_disk = record {
  join = λ a b. a ++ (slash ∷ b);
  dir = λ p. p;
  mkdir_all = λ p w. (w, none);
  write_file = λ p text w. if leb 2 w then (w, some (sentinel "disk full")) else (w + 1, none);
  validate_proto = codes "syntax";
  read_template = λ p. inl p;
  parse = λ p content. inl content;
  execute = λ t d. inl d.module_path;
}

abbrev model_go : Template
model_go = record {
  component = codes "base";
  rest = codes "internal/domain/model.go";
  one_segment = (refl, (refl, (refl, (refl, tt))));
}

abbrev embedded : List Found
embedded = in_dir (codes "templates") ∷ template model_go ∷ template model_go ∷ []

abbrev flags : Flags
flags = record {
  module_path = [];
  postgres = true;
  kafka = false;
  nats = true;
  redis = false;
  temporal = false;
  s3 = false;
  connect = false;
}

default_module : module_or_default [] (codes "ann") (codes "orders") ≡ codes "github.com/ann/orders"
unfolding module_or_default
default_module = refl

run_init-Begun_example :
    let d = init_data small_disk (λ p. p) (codes "ann") (codes "orders") flags in
    Begun
      ((
        go_mod_path small_disk (λ p. p) (codes "ann") (codes "orders"),
        inl (go_mod (module_or_default [] (codes "ann") (codes "orders"))),
      )
          ∷ planned_proto small_disk (codes "orders") d
        ++ planned_each small_disk (codes "orders") d embedded)
      (run_init small_disk (λ p. p) (codes "ann") (map visit_of embedded) (codes "orders") flags 0)
run_init-Begun_example =
    run_init-Begun small_disk (λ p. p) (codes "ann") embedded (codes "orders") flags 0

components-enabled_example :
    contains (components flags) (codes "nats")
    ≡ component_enabled (codes "nats") (data_of (codes "orders") [] flags)
components-enabled_example = components-enabled flags (codes "orders") [] (codes "nats")

-- The down migration finds the disk full.
create_orders :
    (run_migrate_create small_disk
      (codes "20240102030405")
      (codes "migrations")
      (codes "orders")
      1).0
    ≡ 2
unfolding run_migrate_create
create_orders = refl
