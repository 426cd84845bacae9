-- ===== src/Scaffold/Render/Targets.antt =====
-- What a rendering writes, in terms of the components and names of the templates.
use goplatform.Prelude.{
  ℕ, ◌≡◌, refl, subst, true, none, List, [], ◌∷◌, ◌++◌, append_assoc, map, ◌⊎◌, inl, inr,
  if◌then◌else◌,
}
use goplatform.Prelude.Bytes.{
  codes, after_prefix, has_suffix, has_suffix-append, rest_length, take-append, Lacks,
  index_byte-append, drop_segment,
}
use goplatform.Errors.{Error, bytes}
use goplatform.Scaffold.{Data, snake_case}
use goplatform.Scaffold.Files.{
  Planned, Begun, and_then-Begun, made-Begun, wrote-Begun, if-Begun, if_not-Begun,
}
use goplatform.Scaffold.Render.{
  Visit, directory, entry, Fs, slash, replace_all, component_of, after_component, out_rel,
  trim_suffix, is_rendered, template_text, render_template, visit, walk_dir, copy_validate,
  validate_dir, validate_path, render, write_text,
}

-- A template: its component, which is one segment, and its path in there without ".tmpl".
pub record Template : Type 0 where
  pub component : List ℕ
  pub rest : List ℕ
  pub one_segment : Lacks slash component

-- Its path among the embedded files.
abbrev pub path_of : Template → List ℕ
path_of t = codes "templates/" ++ (t.component ++ slash ∷ (t.rest ++ codes ".tmpl"))

module _ (t : Template) where
  -- The path without "templates/".
  abbrev rel_of : List ℕ
  rel_of = t.component ++ slash ∷ (t.rest ++ codes ".tmpl")

  path_of_suffix : has_suffix (path_of t) (codes ".tmpl") ≡ true
  path_of_suffix =
      subst (λ p. has_suffix (codes "templates/" ++ p) (codes ".tmpl") ≡ true)
        (append_assoc t.component (slash ∷ t.rest) (codes ".tmpl"))
        (has_suffix-append (codes "templates/" ++ (t.component ++ slash ∷ t.rest)) (codes ".tmpl")
          (codes ".tmpl") refl)

  component_of_rel : component_of rel_of ≡ t.component
  unfolding component_of
  component_of_rel =
      rw (index_byte-append slash t.component (t.rest ++ codes ".tmpl") t.one_segment, component_of)
        (take-append t.component _)

  after_component_rel : after_component rel_of ≡ t.rest ++ codes ".tmpl"
  unfolding after_component
  after_component_rel =
      rw
        (
          index_byte-append slash t.component (t.rest ++ codes ".tmpl") t.one_segment,
          after_component,
        )
        (drop_segment slash t.component _)

  trim_rest : trim_suffix (t.rest ++ codes ".tmpl") (codes ".tmpl") ≡ t.rest
  trim_rest =
      rw
        (
          has_suffix-append t.rest (codes ".tmpl") (codes ".tmpl") refl,
          rest_length t.rest (codes ".tmpl"),
        )
        (take-append t.rest (codes ".tmpl"))

  out_rel_of :
      (d : Data) → out_rel rel_of d ≡ replace_all t.rest (codes "__name__") (snake_case d.name)
  unfolding out_rel
  out_rel_of d = rw (after_component_rel, trim_rest) refl

-- What the walk finds: a directory, or a template.
pub data Found : Type 0 where
  in_dir : List ℕ → Found
  template : Template → Found

abbrev pub visit_of : Found → Visit
visit_of (in_dir path) = directory path
visit_of (template t) = entry (path_of t)

module _ {W T : Type 0} (fs : Fs W T) (output_dir : List ℕ) (d : Data) where
  -- A template of a component that is rendered goes to its own path under the output directory, with the
  -- name of the project put in.
  abbrev pub planned : Found → List Planned
  planned (in_dir path) = []
  planned (template t) =
      if is_rendered t.component d
      then (
        fs.join output_dir (replace_all t.rest (codes "__name__") (snake_case d.name)),
        template_text fs (path_of t) d,
      )
        ∷ []
      else []

  abbrev pub planned_each : List Found → List Planned
  planned_each [] = []
  planned_each (f ∷ fs) = planned f ++ planned_each fs

  abbrev pub planned_proto : List Planned
  planned_proto =
      if d.connect then (validate_path fs output_dir, inl fs.validate_proto) ∷ [] else []

  write_text-Begun :
      (path : List ℕ) (o : List ℕ ⊎ Error) (w : W) → Begun ((path, o) ∷ []) (write_text fs path o w)
  write_text-Begun path (inr e) w = ((path, inr e) ∷ [], refl, tt)
  write_text-Begun path (inl text) w =
      wrote-Begun "writing %s: %w" (bytes path ∷ []) path text (fs.write_file path text w)

  render_template-Begun :
      (path out_path : List ℕ) (w : W)
      → Begun ((out_path, template_text fs path d) ∷ []) (render_template fs path out_path d w)
  unfolding render_template
  render_template-Begun path out_path w =
      made-Begun "creating directory for %s: %w" (bytes out_path ∷ []) _
        (fs.mkdir_all (fs.dir out_path) w) _
        (λ w'. write_text-Begun out_path (template_text fs path d) w')

  visit-Begun : (f : Found) (w : W) → Begun (planned f) (visit fs output_dir d (visit_of f) w)
  unfolding visit after_prefix
  visit-Begun (in_dir path) w = ([], refl, refl)
  visit-Begun (template t) w =
      rw (path_of_suffix t, component_of_rel t, out_rel_of t d)
        (if_not-Begun (is_rendered t.component d) _ w _ (render_template-Begun (path_of t) _ w))

  walk_dir-Begun :
      (found : List Found) (w : W)
      → Begun (planned_each found) (walk_dir fs output_dir d (map visit_of found) w)
  unfolding walk_dir
  walk_dir-Begun [] w = ([], refl, refl)
  walk_dir-Begun (f ∷ found) w =
      and_then-Begun (planned f) (planned_each found) _ _ (visit-Begun f w)
        (λ w'. walk_dir-Begun found w')

  copy_validate-Begun :
      (w : W)
      → Begun
          ((validate_path fs output_dir, inl fs.validate_proto) ∷ [])
          (copy_validate fs output_dir w)
  unfolding copy_validate
  copy_validate-Begun w =
      let path = validate_path fs output_dir in
      made-Begun "creating validate proto directory: %w" [] ((path, inl fs.validate_proto) ∷ [])
        (fs.mkdir_all (validate_dir fs output_dir) w) _
        (λ w'.
          wrote-Begun "writing validate.proto: %w" [] path fs.validate_proto
            (fs.write_file path fs.validate_proto w'))

  proto-Begun :
      (w : W)
      → Begun planned_proto (if d.connect then copy_validate fs output_dir w else (w, [], none))
  proto-Begun w = if-Begun d.connect _ w _ (copy_validate-Begun w)

  -- Render writes, in the order of the walk, validate.proto if ConnectRPC is wanted, and then the templates
  -- of "base" and of the components that are wanted, each executed, under its own path in the component
  -- with the project's name in snake case for "__name__". Where it returns nil it has written all of these;
  -- otherwise some first ones, and nothing else.
  pub render-Begun :
      (found : List Found) (w : W)
      → Begun (planned_proto ++ planned_each found) (render fs (map visit_of found) output_dir d w)
  unfolding render
  render-Begun found w =
      and_then-Begun planned_proto (planned_each found) _ _ (proto-Begun w)
        (λ w'. walk_dir-Begun found w')
