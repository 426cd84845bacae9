-- ===== src/Config/Watching.antt =====
-- Load and the whole of Watch of pkg/config/loader.go. fsnotify is a parameter: `H` is the type of its
-- watchers. `T` is the type of the target of Load.
use goplatform.Prelude.{String, ◌≡◌, refl, Option, none, some, List, [], ◌∷◌, ◌⊎◌, inl, inr, arith}
use goplatform.Errors.{Error, text, wrap, failure}
use goplatform.Config.{Loader, Koanf, Event, watch_loop}

abbrev pub unmarshalled : {T : Type 0} → T ⊎ Error → T ⊎ Error
unmarshalled (inl target) = inl target
unmarshalled (inr e) = inr (wrap "config: unmarshal: %w" [] e)

unfoldable pub load : {W K Defaults T : Type 0} → (K → T ⊎ Error) → Loader W K Defaults → T ⊎ Error
load unmarshal l = unmarshalled (unmarshal l.k)

pub record Fsnotify (W H : Type 0) : Type 0 where
  pub new_watcher : W → W × (H ⊎ Error)
  pub add : H → String → W → W × Option Error
  pub close : H → W → W

module _ {W H : Type 0} (fs : Fsnotify W H) where
  unfoldable pub add_each : H → List String → W → W × Option Error
  add_each watcher [] w = (w, none)
  add_each watcher (fp ∷ fps) w =
      let (w', err) = fs.add watcher fp w in
      elim err [
        | none ↦ add_each watcher fps w'
        | some e ↦ (w', some (wrap "config: watch: add file %q: %w" (text fp ∷ []) e))
      ]

module _ {W K Defaults H : Type 0} (koanf : Koanf W K Defaults) (fs : Fsnotify W H) where
  -- After the files were added; the events are those that come until the watch ends.
  abbrev pub watching :
      (W → W)
      → List Event
      → Loader W K Defaults
      → H
      → W × Option Error
      → W × Loader W K Defaults × Option Error
  watching on_change events l watcher (w, some e) = (fs.close watcher w, l, some e)
  watching on_change events l watcher (w, none) =
      let (w', l') = watch_loop koanf on_change events l w in (fs.close watcher w', l', none)

  abbrev pub with_watcher :
      (W → W)
      → List Event
      → Loader W K Defaults
      → W × (H ⊎ Error)
      → W × Loader W K Defaults × Option Error
  with_watcher on_change events l (w, inr e) =
      (w, l, some (wrap "config: watch: create watcher: %w" [] e))
  with_watcher on_change events l (w, inl watcher) =
      watching on_change events l watcher (add_each fs watcher l.file_paths w)

  abbrev pub watch_from :
      (W → W)
      → List Event
      → Loader W K Defaults
      → List String
      → W
      → W × Loader W K Defaults × Option Error
  watch_from on_change events l [] w =
      (w, l, some (failure "config: watch: no files configured" []))
  watch_from on_change events l (fp ∷ fps) w = with_watcher on_change events l (fs.new_watcher w)

  unfoldable pub watch :
      (W → W) → List Event → Loader W K Defaults → W → W × Loader W K Defaults × Option Error
  unfolding add_each
  watch on_change events l w = watch_from on_change events l l.file_paths w

  -- A watch that fails leaves the loader as it was.
  watching-failed :
      (on_change : W → W) (events : List Event) (l : Loader W K Defaults) (watcher : H)
      (r : W × Option Error) (e : Error)
      → (watching on_change events l watcher r).2 ≡ some e
      → (watching on_change events l watcher r).1 ≡ l
  watching-failed on_change events l watcher (w, none) e h = ground arith
  watching-failed on_change events l watcher (w, some d) e h = refl
