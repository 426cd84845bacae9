-- ===== src/Scaffold/Tests.antt =====
-- Names over the letters of ASCII.
use goplatform.Prelude.{
  ℕ, ◌+◌, ◌-◌, ◌≡◌, refl, true, false, none, some, inl, List, [], ◌∷◌, ◌++◌, map, leb, ◌&&◌,
  if◌then◌else◌,
}
use goplatform.Prelude.Bytes.{codes, after_prefix, has_suffix, index_byte}
use goplatform.Errors.{sentinel}
use goplatform.Scaffold.Files.{Begun}
use goplatform.Scaffold.Render.{
  Fs, slash, render, copy_validate, walk_dir, visit, render_template, template_text, component_of,
  after_component, out_rel, replace_all, replace_from,
}
use goplatform.Scaffold.Render.Targets.{
  Template, Found, in_dir, template, visit_of, planned_proto, planned_each, render-Begun,
}
use goplatform.Scaffold.{
  Case, Data, underscore, pascal_case, pascal_from, component_enabled, snake_case,
}
use goplatform.Scaffold.Names.{KeepsLower}

abbrev ascii : Case
ascii = record { upper = λ r. if leb 97 r && leb r 122 then r - 32 else r; lower = λ r. r }

ascii-KeepsLower : KeepsLower ascii
ascii-KeepsLower = record { letters = λ r a z. refl; dash_kept = refl; underscore_kept = refl }

-- "my_app"
abbrev my_app : List ℕ
my_app = 109 ∷ 121 ∷ underscore ∷ 97 ∷ 112 ∷ 112 ∷ []

my_app_pascal : pascal_case ascii my_app ≡ 77 ∷ 121 ∷ 65 ∷ 112 ∷ 112 ∷ []
unfolding pascal_case pascal_from
my_app_pascal = refl

-- The world is the number of files written, and the disk is full after three.
abbrev small_disk : Fs ℕ (List ℕ)
small_disk = record {
  join = λ a b. a ++ (slash ∷ b);
  dir = λ p. p;
  mkdir_all = λ p w. (w, none);
  write_file = λ p text w. if leb 3 w then (w, some (sentinel "disk full")) else (w + 1, none);
  validate_proto = codes "syntax";
  read_template = λ p. inl p;
  parse = λ p content. inl content;
  execute = λ t d. inl d.name;
}

abbrev makefile : Template
makefile = record {
  component = codes "base";
  rest = codes "Makefile";
  one_segment = (refl, (refl, (refl, (refl, tt))));
}

abbrev service_proto : Template
service_proto = record {
  component = codes "connect";
  rest = codes "proto/__name__/v1/service.proto";
  one_segment = (refl, (refl, (refl, (refl, (refl, (refl, (refl, tt)))))));
}

abbrev consumer : Template
consumer = record {
  component = codes "nats";
  rest = codes "consumer.go";
  one_segment = (refl, (refl, (refl, (refl, tt))));
}

abbrev embedded : List Found
embedded =
    in_dir (codes "templates")
    ∷ template makefile
    ∷ template service_proto
    ∷ template consumer
    ∷ template makefile
    ∷ []

abbrev my_data : Data
my_data = record {
  name = codes "my-app";
  module_path = codes "example.org/my-app";
  postgres = false;
  kafka = false;
  nats = false;
  redis = false;
  temporal = false;
  s3 = false;
  connect = true;
}

-- The path of the second template, and the first three files.
service_path :
    out_rel (codes "connect/proto/__name__/v1/service.proto.tmpl") my_data
    ≡ codes "proto/my_app/v1/service.proto"
unfolding out_rel after_component index_byte has_suffix replace_all replace_from after_prefix
    snake_case
service_path = refl

three_files : (render small_disk (map visit_of embedded) (codes "out") my_data 0).0 ≡ 3
unfolding render copy_validate walk_dir visit render_template template_text component_of index_byte
    after_component has_suffix after_prefix component_enabled out_rel replace_all snake_case
three_files = refl

render-Begun_example :
    Begun
      (planned_proto small_disk (codes "out") my_data
        ++ planned_each small_disk (codes "out") my_data embedded)
      (render small_disk (map visit_of embedded) (codes "out") my_data 0)
render-Begun_example = render-Begun small_disk (codes "out") my_data embedded 0
