-- ===== src/Config/Tests.antt =====
-- A watch over a file whose load always fails. The instances are lists of what was loaded into them.
use goplatform.Prelude.{ℕ, ◌≡◌, refl, String, none, some, List, [], ◌∷◌}
use goplatform.Errors.{sentinel}
use goplatform.Config.{
  Loader, Koanf, written, touched, finished, Complete, watch_loop, reload, load_sources, load_files,
  watch_loop-Complete,
}

abbrev broken : Koanf ℕ (List String) (List String)
broken = record {
  fresh = [];
  load_defaults = λ d k w. (w, d, none);
  load_file = λ path k w. (w, path ∷ k, some (sentinel "bad yaml"));
  load_env = λ prefix k w. (w, prefix ∷ k, none);
}

abbrev loader : Loader ℕ (List String) (List String)
loader = record {
  k = "good" ∷ [];
  file_paths = "app.yaml" ∷ [];
  env_prefix = "";
  defaults = none;
  on_reload_error = some (λ e w. 7);
}

watch_loop-Complete_example :
    Complete broken loader
      (watch_loop broken (λ w. w) (touched ∷ written ∷ finished ∷ []) loader 0).1.k
watch_loop-Complete_example =
    watch_loop-Complete broken (λ w. w) (touched ∷ written ∷ finished ∷ []) loader 0

keeps : watch_loop broken (λ w. w) (touched ∷ written ∷ finished ∷ []) loader 0 ≡ (7, loader)
unfolding watch_loop reload load_sources load_files
keeps = refl
