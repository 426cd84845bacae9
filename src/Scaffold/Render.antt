-- ===== src/Scaffold/Render.antt =====
-- Generator.Render of internal/scaffold/scaffold.go. What fs.WalkDir visits in the embedded files is a
-- list. The file system, filepath.Join and filepath.Dir, the embedded files and text/template are
-- parameters; a file that is written is noted with its path and its content.
pub mod Targets
use goplatform.Prelude.{
  ℕ, zero, suc, ◌-◌, String, Bool, not, ◌||◌, Option, none, some, List, [], ◌∷◌, ◌++◌, ◌⊎◌, inl,
  inr, length, ◌==◌, if◌then◌else◌,
}
use goplatform.Prelude.Bytes.{codes, eq_bytes, take, drop, after_prefix, has_suffix, index_byte}
use goplatform.Errors.{Error, bytes, wrap}
use goplatform.Scaffold.Files.{Writing, and_then, made, wrote}
use goplatform.Scaffold.{Data, component_enabled, snake_case}

-- A call of the function that WalkDir is given: with a directory, with another file, with an error.
pub data Visit : Type 0 where
  directory : List ℕ → Visit
  entry : List ℕ → Visit
  broken : Error → Visit

-- `T` is the type of parsed templates. `parse` knows the generator's functions.
pub record Fs (W T : Type 0) : Type 0 where
  pub join : List ℕ → List ℕ → List ℕ
  pub dir : List ℕ → List ℕ
  pub mkdir_all : List ℕ → W → W × Option Error
  pub write_file : List ℕ → List ℕ → W → W × Option Error
  pub validate_proto : List ℕ
  pub read_template : List ℕ → List ℕ ⊎ Error
  pub parse : List ℕ → List ℕ → T ⊎ Error
  pub execute : T → Data → List ℕ ⊎ Error

abbrev pub slash : ℕ
slash = 47

-- strings.ReplaceAll for an `old` that is not empty; so many characters of a match are left to skip.
unfoldable pub replace_from : List ℕ → List ℕ → ℕ → List ℕ → List ℕ
unfolding after_prefix
replace_from old new n [] = []
replace_from old new (suc n) (c ∷ cs) = replace_from old new n cs
replace_from old new zero (c ∷ cs) = elim (after_prefix old (c ∷ cs)) [
  | some rest ↦ new ++ replace_from old new (length old - 1) cs
  | none ↦ c ∷ replace_from old new zero cs
]

unfoldable pub replace_all : List ℕ → List ℕ → List ℕ → List ℕ
unfolding replace_from
replace_all s old new = replace_from old new zero s

abbrev pub trim_prefix : List ℕ → List ℕ → List ℕ
trim_prefix s prefix = elim (after_prefix prefix s) [ some rest ↦ rest | none ↦ s ]

abbrev pub trim_suffix : List ℕ → List ℕ → List ℕ
trim_suffix s suffix = if has_suffix s suffix then take (length s - length suffix) s else s

-- The first segment of a path, and the path after it.
unfoldable pub component_of : List ℕ → List ℕ
unfolding index_byte
component_of rel = elim (index_byte rel slash) [ none ↦ rel | some i ↦ take i rel ]

unfoldable pub after_component : List ℕ → List ℕ
unfolding index_byte
after_component rel = elim (index_byte rel slash) [ none ↦ rel | some i ↦ drop (suc i) rel ]

-- Where the template of a path goes, below the output directory.
unfoldable pub out_rel : List ℕ → Data → List ℕ
unfolding after_component replace_all has_suffix
out_rel rel d =
    replace_all (trim_suffix (after_component rel) (codes ".tmpl")) (codes "__name__")
      (snake_case d.name)

abbrev pub is_rendered : List ℕ → Data → Bool
is_rendered component d = eq_bytes component (codes "base") || component_enabled component d

module _ {W T : Type 0} (fs : Fs W T) where
  -- What a template comes to: its text, parsed and executed.
  abbrev pub executed : List ℕ → Data → T ⊎ Error → List ℕ ⊎ Error
  executed path d (inr e) = inr (wrap "parsing template %s: %w" (bytes path ∷ []) e)
  executed path d (inl t) = elim (fs.execute t d) [
    | inl text ↦ inl text
    | inr e ↦ inr (wrap "executing template %s: %w" (bytes path ∷ []) e)
  ]

  unfoldable pub template_text : List ℕ → Data → List ℕ ⊎ Error
  template_text path d = elim (fs.read_template path) [
    | inl content ↦ executed path d (fs.parse path content)
    | inr e ↦ inr (wrap "reading template %s: %w" (bytes path ∷ []) e)
  ]

  abbrev pub write_text : List ℕ → List ℕ ⊎ Error → W → Writing W
  write_text path (inr e) w = (w, [], some e)
  write_text path (inl text) w =
      wrote "writing %s: %w" (bytes path ∷ []) path text (fs.write_file path text w)

  unfoldable pub render_template : List ℕ → List ℕ → Data → W → Writing W
  unfolding template_text
  render_template path out_path d w =
      made "creating directory for %s: %w" (bytes out_path ∷ []) (fs.mkdir_all (fs.dir out_path) w)
        (λ w'. write_text out_path (template_text path d) w')

  -- The function that WalkDir is given. Where it returns nil the walk goes on.
  unfoldable pub visit : List ℕ → Data → Visit → W → Writing W
  unfolding has_suffix component_of out_rel render_template
  visit output_dir d (broken e) w = (w, [], some e)
  visit output_dir d (directory path) w = (w, [], none)
  visit output_dir d (entry path) w =
      let rel = trim_prefix path (codes "templates/") in
      if not (has_suffix path (codes ".tmpl"))
      then (w, [], none)
      else if not (is_rendered (component_of rel) d)
      then (w, [], none)
      else render_template path (fs.join output_dir (out_rel rel d)) d w

  unfoldable pub walk_dir : List ℕ → Data → List Visit → W → Writing W
  unfolding visit
  walk_dir output_dir d [] w = (w, [], none)
  walk_dir output_dir d (v ∷ vs) w =
      and_then (visit output_dir d v w) (λ w'. walk_dir output_dir d vs w')

  -- The directory of validate.proto.
  abbrev pub validate_dir : List ℕ → List ℕ
  validate_dir output_dir =
      fs.join (fs.join (fs.join output_dir (codes "proto")) (codes "buf")) (codes "validate")

  abbrev pub validate_path : List ℕ → List ℕ
  validate_path output_dir = fs.join (validate_dir output_dir) (codes "validate.proto")

  unfoldable pub copy_validate : List ℕ → W → Writing W
  copy_validate output_dir w =
      let path = validate_path output_dir in
      made "creating validate proto directory: %w" [] (fs.mkdir_all (validate_dir output_dir) w)
        (λ w'.
          wrote "writing validate.proto: %w" [] path fs.validate_proto
            (fs.write_file path fs.validate_proto w'))

  unfoldable pub render : List Visit → List ℕ → Data → W → Writing W
  unfolding copy_validate walk_dir
  render visits output_dir d w =
      and_then (if d.connect then copy_validate output_dir w else (w, [], none))
        (λ w'. walk_dir output_dir d visits w')
