-- ===== src/Config.antt =====
-- pkg/config/loader.go: the loader and its reload on file events. koanf and fsnotify are parameters;
-- `K` is a koanf instance, which a failed load may leave half filled, `W` the files and the
-- environment. The lock makes a reload one step.
pub mod Watching
mod Tests
use goplatform.Prelude.{
  String, ◌≡◌, refl, sym, subst, Bool, true, false, Option, none, some, List, [], ◌∷◌, ◌++◌, inl,
  inr, ◌⊎◌, str_eq, Option-cases, if◌then◌else◌,
}
use Prim.Native.String.{◌++◌ as str_append}
use goplatform.Errors.{Error, text, wrap, failure}

pub record Loader (W K Defaults : Type 0) : Type 0 where
  pub k : K
  pub file_paths : List String
  pub env_prefix : String
  pub defaults : Option Defaults
  pub on_reload_error : Option (Error → W → W)

-- koanf: an empty instance, and the three kinds of `Load` into one.
pub record Koanf (W K Defaults : Type 0) : Type 0 where
  pub fresh : K
  pub load_defaults : Defaults → K → W → W × K × Option Error
  pub load_file : String → K → W → W × K × Option Error
  pub load_env : String → K → W → W × K × Option Error

abbrev pub LoaderOption : Type 0 → Type 0
LoaderOption L = L → L

-- What the `select` of Watch takes.
pub data Event : Type 0 where
  written : Event  -- a file event that has Write
  touched : Event  -- any other file event
  watch_error : Event
  finished : Event  -- the context is done, or a channel is closed

abbrev report : {W : Type 0} → Option (Error → W → W) → Error → W → W
report none e w = w
report (some fn) e w = fn e w

module _ {W K Defaults : Type 0} where
  unfoldable pub with_file : String → LoaderOption (Loader W K Defaults)
  with_file path l = record l { file_paths = l.file_paths ++ path ∷ [] }

  unfoldable pub with_files : List String → LoaderOption (Loader W K Defaults)
  with_files paths l = record l { file_paths = l.file_paths ++ paths }

  unfoldable pub with_env_prefix : String → LoaderOption (Loader W K Defaults)
  with_env_prefix prefix l = record l { env_prefix = prefix }

  unfoldable pub with_defaults : Defaults → LoaderOption (Loader W K Defaults)
  with_defaults defaults l = record l { defaults = some defaults }

  unfoldable pub with_on_reload_error : (Error → W → W) → LoaderOption (Loader W K Defaults)
  with_on_reload_error fn l = record l { on_reload_error = some fn }

  apply_options :
      Loader W K Defaults → List (LoaderOption (Loader W K Defaults)) → Loader W K Defaults
  apply_options l [] = l
  apply_options l (opt ∷ opts) = apply_options (opt l) opts

module _ {W K Defaults : Type 0} (koanf : Koanf W K Defaults) where
  unfoldable pub load_files : List String → K → W → W × K × Option Error
  load_files [] k w = (w, k, none)
  load_files (path ∷ paths) k w =
      let (w', k', err) = koanf.load_file path k w in
      elim err [
        | none ↦ load_files paths k' w'
        | some e ↦ (w', k', some (wrap "config: load file %q: %w" (text path ∷ []) e))
      ]

  unfoldable pub load_env : String → K → W → W × K × Option Error
  load_env prefix k w =
      if str_eq prefix ""
      then (w, k, none)
      else let (w', k', err) = koanf.load_env (str_append prefix "__") k w in
        elim err [
          | none ↦ (w', k', none)
          | some e ↦ (w', k', some (wrap "config: load env: %w" [] e))
        ]

  abbrev after_defaults : Loader W K Defaults → W × K × Option Error → W × K × Option Error
  after_defaults l (w, k, some e) = (w, k, some (wrap "config: load defaults: %w" [] e))
  after_defaults l (w, k, none) =
      let (w', k', err) = load_files l.file_paths k w in
      elim err [ none ↦ load_env l.env_prefix k' w' | some e ↦ (w', k', some e) ]

  -- loadSources, into the instance `k`.
  unfoldable pub load_sources : Loader W K Defaults → K → W → W × K × Option Error
  unfolding load_files load_env
  load_sources l k w = elim l.defaults [
    | none ↦ after_defaults l (w, k, none)
    | some defaults ↦ after_defaults l (koanf.load_defaults defaults k w)
  ]

  unfoldable pub new_loader :
      List (LoaderOption (Loader W K Defaults)) → W → W × (Loader W K Defaults ⊎ Error)
  unfolding apply_options load_sources
  new_loader opts w =
      let l =
        apply_options
          (record {
            k = koanf.fresh;
            file_paths = [];
            env_prefix = "";
            defaults = none;
            on_reload_error = none;
          })
          opts in
      let (w', k, err) = load_sources l l.k w in
      elim err [ none ↦ (w', inl (record l { k = k })) | some e ↦ (w', inr e) ]

  -- A reload: the instance that is then in effect, and the world after the callback.
  unfoldable pub reload : (W → W) → Loader W K Defaults → W → W × Loader W K Defaults
  reload on_change l w =
      let (w', k, err) = load_sources l koanf.fresh w in
      elim err [
        | none ↦ (on_change w', record l { k = k })
        | some e ↦ (report l.on_reload_error e w', l)
      ]

  -- The loop of Watch over the events that come.
  unfoldable pub watch_loop :
      (W → W) → List Event → Loader W K Defaults → W → W × Loader W K Defaults
  watch_loop on_change [] l w = (w, l)
  watch_loop on_change (finished ∷ events) l w = (w, l)
  watch_loop on_change (touched ∷ events) l w = watch_loop on_change events l w
  watch_loop on_change (watch_error ∷ events) l w = watch_loop on_change events l w
  watch_loop on_change (written ∷ events) l w =
      let (w', l') = reload on_change l w in watch_loop on_change events l' w'

  -- `k` is the instance of the loader `l` or what one whole load of the sources gave.
  pub data Complete (l : Loader W K Defaults) (k : K) : Type 0 where
    initial : k ≡ l.k → Complete l k
    loaded :
        (w : W)
        → (load_sources l koanf.fresh w).2 ≡ none
        → k ≡ (load_sources l koanf.fresh w).1
        → Complete l k

  -- A loader that differs from `l` in its instance only.
  abbrev same_sources : Loader W K Defaults → K → Loader W K Defaults
  same_sources l k = record l { k = k }

  load_sources-same :
      (l : Loader W K Defaults) (k k' : K) (w : W)
      → load_sources (same_sources l k) k' w ≡ load_sources l k' w
  unfolding load_sources
  load_sources-same l k k' w = refl

  reload-Complete :
      (on_change : W → W) (l : Loader W K Defaults) (k : K) (w : W)
      → Complete l k
      → (k' : K) × ((reload on_change (same_sources l k) w).1 ≡ same_sources l k') × Complete l k'
  unfolding reload load_sources
  reload-Complete on_change l k w good =
      let same = load_sources-same l k koanf.fresh w in
      elim (Option-cases (load_sources l koanf.fresh w).2) [
        | inl fine ↦
            ((load_sources l koanf.fresh w).1, rw (reload, same, fine) refl, loaded w fine refl)
        | inr (e, failed) ↦ (k, rw (reload, same, failed) refl, good)
      ]

  watch_loop-Complete_any :
      (on_change : W → W) (events : List Event) (l : Loader W K Defaults) (k : K) (w : W)
      → Complete l k
      → Complete l (watch_loop on_change events (same_sources l k) w).1.k
  unfolding watch_loop
  watch_loop-Complete_any on_change [] l k w good = good
  watch_loop-Complete_any on_change (finished ∷ events) l k w good = good
  watch_loop-Complete_any on_change (touched ∷ events) l k w good =
      watch_loop-Complete_any on_change events l k w good
  watch_loop-Complete_any on_change (watch_error ∷ events) l k w good =
      watch_loop-Complete_any on_change events l k w good
  watch_loop-Complete_any on_change (written ∷ events) l k w good =
      let (k', made, good') = reload-Complete on_change l k w good in
      let w' = (reload on_change (same_sources l k) w).0 in
      subst (λ x. Complete l (watch_loop on_change events x w').1.k) (sym made)
        (watch_loop-Complete_any on_change events l k' w' good')

  -- After any events, the instance in effect is the one with which the watch began, or what one
  -- load of all the sources gave that went through: what a failed reload leaves is never used.
  pub watch_loop-Complete :
      (on_change : W → W) (events : List Event) (l : Loader W K Defaults) (w : W)
      → Complete l (watch_loop on_change events l w).1.k
  watch_loop-Complete on_change events l w =
      watch_loop-Complete_any on_change events l l.k w (initial refl)
