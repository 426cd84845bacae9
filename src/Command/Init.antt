-- ===== src/Command/Init.antt =====
-- runInit of cmd/goplatform/init.go, which calls Render. filepath.Base and the variable USER are
-- parameters; the message that is printed is its list of components.
use goplatform.Prelude.{ℕ, Bool, none, some, List, [], ◌∷◌, ◌++◌, map, inl, if◌then◌else◌}
use goplatform.Prelude.Bytes.{codes}
use goplatform.Errors.{wrap}
use goplatform.Scaffold.{Data}
use goplatform.Scaffold.Files.{
  Writing, and_then, made, wrote, Planned, Begun, and_then-Begun, made-Begun, wrote-Begun,
}
use goplatform.Scaffold.Render.{Visit, Fs, render}
use goplatform.Scaffold.Render.Targets.{Found, visit_of, planned_proto, planned_each, render-Begun}

-- The flags. `module_path` is empty where the flag is not given.
pub record Flags : Type 0 where
  pub module_path : List ℕ
  pub postgres : Bool
  pub kafka : Bool
  pub nats : Bool
  pub redis : Bool
  pub temporal : Bool
  pub s3 : Bool
  pub connect : Bool

abbrev pub user_or_default : List ℕ → List ℕ
user_or_default [] = codes "user"
user_or_default (c ∷ cs) = c ∷ cs

-- The module path, for the value of USER and the base of the name.
unfoldable pub module_or_default : List ℕ → List ℕ → List ℕ → List ℕ
module_or_default [] user base =
    codes "github.com/" ++ (user_or_default user ++ (codes "/" ++ base))
module_or_default (c ∷ cs) user base = c ∷ cs

unfoldable pub go_mod : List ℕ → List ℕ
go_mod path = codes "module " ++ (path ++ codes "\n\ngo 1.25\n")

unfoldable pub data_of : List ℕ → List ℕ → Flags → Data
data_of base path f = record {
  name = base;
  module_path = path;
  postgres = f.postgres;
  kafka = f.kafka;
  nats = f.nats;
  redis = f.redis;
  temporal = f.temporal;
  s3 = f.s3;
  connect = f.connect;
}

abbrev pub listed : Bool → List ℕ → List (List ℕ) → List (List ℕ)
listed b name rest = if b then name ∷ rest else rest

-- The components that the message names.
unfoldable pub components : Flags → List (List ℕ)
components f = listed f.postgres (codes "postgres") (
    listed f.kafka (codes "kafka") (
      listed f.nats (codes "nats") (
        listed f.redis (codes "redis") (
          listed f.temporal (codes "temporal")
            (listed f.s3 (codes "s3") (listed f.connect (codes "connect") []))))))

-- `fmt.Errorf("rendering templates: %w", err)`
abbrev pub rendered : {W : Type 0} → Writing W → Writing W
rendered (w, files, none) = (w, files, none)
rendered (w, files, some e) = (w, files, some (wrap "rendering templates: %w" [] e))

rendered-Begun :
    {W : Type 0} (plan : List Planned) (r : Writing W) → Begun plan r → Begun plan (rendered r)
rendered-Begun plan (w, files, none) h = h
rendered-Begun plan (w, files, some e) (left, split, all) = (left, split, tt)

module _ {W T : Type 0} (fs : Fs W T) (base : List ℕ → List ℕ) (user : List ℕ) where
  -- The data that the templates get.
  abbrev pub init_data : List ℕ → Flags → Data
  unfolding data_of module_or_default
  init_data name f = data_of (base name) (module_or_default f.module_path user (base name)) f

  abbrev pub go_mod_path : List ℕ → List ℕ
  go_mod_path name = fs.join name (codes "go.mod")

  unfoldable pub run_init : List Visit → List ℕ → Flags → W → Writing W
  unfolding data_of module_or_default go_mod
  run_init visits name f w =
      let d = init_data name f in
      made "creating project directory: %w" [] (fs.mkdir_all name w) (λ w1.
        and_then
          (wrote "writing go.mod: %w" [] (go_mod_path name) (go_mod d.module_path)
            (fs.write_file (go_mod_path name) (go_mod d.module_path) w1))
          (λ w2. rendered (render fs visits name d w2)))

  -- init writes go.mod, with the module path that was given, or github.com/ with the user and the base of
  -- the name, and then what Render writes for the base of the name and the components of the flags. It
  -- returns nil only if it has written all of that; otherwise it has written some first ones of these files.
  pub run_init-Begun :
      (found : List Found) (name : List ℕ) (f : Flags) (w : W)
      → let d = init_data name f in
        Begun
          ((go_mod_path name, inl (go_mod (module_or_default f.module_path user (base name))))
              ∷ planned_proto fs name d
            ++ planned_each fs name d found)
          (run_init (map visit_of found) name f w)
  unfolding run_init data_of
  run_init-Begun found name f w =
      let d = init_data name f in
      let plan = planned_proto fs name d ++ planned_each fs name d found in
      made-Begun "creating project directory: %w" []
        ((go_mod_path name, inl (go_mod d.module_path)) ∷ plan) (fs.mkdir_all name w) _
        (λ w1.
          and_then-Begun ((go_mod_path name, inl (go_mod d.module_path)) ∷ []) plan _ _
            (wrote-Begun "writing go.mod: %w" [] (go_mod_path name) (go_mod d.module_path)
              (fs.write_file (go_mod_path name) (go_mod d.module_path) w1))
            (λ w2. rendered-Begun plan _ (render-Begun fs name d found w2)))
