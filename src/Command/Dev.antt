-- ===== src/Command/Dev.antt =====
-- runDev of cmd/goplatform/run.go: what happens while it waits (events and errors of the watcher, the end
-- of the context, the debounce timer) is a list. On an empty list it waits on. A timer that still runs when
-- runDev returns is not followed: its restart would come after the end of the model.
pub mod Returns
use goplatform.Prelude.{
  ℕ, String, Bool, true, false, ◌||◌, ◌&&◌, not, Option, none, some, List, [], ◌∷◌, if◌then◌else◌,
}
use goplatform.Errors.{Error, text, wrap}
use goplatform.Prelude.Bytes.{codes, has_suffix}
use goplatform.Command.{Node, Path_, add_recursive, unless_failed}
use goplatform.Command.Runner.{Runner, Os, restart, stop}

pub record RunConfig : Type 0 where
  pub no_reload : Bool
  pub watch_dirs : List String

-- `quiet` is the 500 ms without an event after which the timer fires, if one runs.
pub data Happening : Type 0 where
  done : Happening
  event : List ℕ → Bool → Bool → Happening
  events_closed : Happening
  watch_error : Error → Happening
  errors_closed : Happening
  quiet : Happening

pub data Outcome : Type 0 where
  waiting : Outcome
  returned : Option Error → Outcome

-- fsnotify, and the file tree under a directory.
pub record Watcher (W : Type 0) : Type 0 where
  pub new_watcher : W → W × Option Error
  pub add : String → Path_ → W → W × Option Error
  pub tree : String → W → Node
  pub close : W → W

abbrev pub go_suffix : List ℕ
go_suffix = codes ".go"

unfoldable pub is_go_file : List ℕ → Bool
unfolding has_suffix
is_go_file name = has_suffix name go_suffix

-- The file whose change the timer waits to report, after an event with its Write and Create flags.
unfoldable pub debounced : List ℕ → Bool → Bool → Option (List ℕ) → Option (List ℕ)
unfolding is_go_file
debounced name write create timer =
    if not (is_go_file name) then timer else if not write && not create then timer else some name

abbrev pub is_done : Happening → Bool
is_done done = true
is_done (event name write create) = false
is_done events_closed = false
is_done (watch_error e) = false
is_done errors_closed = false
is_done quiet = false

abbrev pub ending : {W P : Type 0} → Option Error → Runner P × W → Runner P × W × Outcome
ending e (r, w) = (r, w, returned e)

module _ {W P : Type 0} (os : Os W P) where
  -- The timer fires: its restart reports an error as output only.
  abbrev pub fire : Option (List ℕ) → Runner P × W → Runner P × W
  fire none s = s
  fire (some name) (r, w) = let s = restart os r w in (s.0, s.1)

  abbrev pub stop_with : Option Error → Runner P × W → Runner P × W × Outcome
  stop_with e (r, w) = ending e (stop os r w)

  unfoldable pub dev_loop : List Happening → Option (List ℕ) → Runner P × W → Runner P × W × Outcome
  unfolding debounced
  dev_loop [] timer (r, w) = (r, w, waiting)
  dev_loop (done ∷ hs) timer s = stop_with none s
  dev_loop (event name write create ∷ hs) timer s =
      dev_loop hs (debounced name write create timer) s
  dev_loop (events_closed ∷ hs) timer s = stop_with none s
  dev_loop (watch_error e ∷ hs) timer s = dev_loop hs timer s
  dev_loop (errors_closed ∷ hs) timer s = stop_with none s
  dev_loop (quiet ∷ hs) timer s = dev_loop hs none (fire timer s)

  unfoldable pub wait_done : List Happening → Runner P × W → Runner P × W × Outcome
  wait_done [] (r, w) = (r, w, waiting)
  wait_done (h ∷ hs) s = let rest = wait_done hs s in if is_done h then stop_with none s else rest

module _ {W : Type 0} (watcher : Watcher W) where
  abbrev pub watch_failed : String → W × Option Error → W × Option Error
  watch_failed dir (w, none) = (w, none)
  watch_failed dir (w, some e) = (w, some (wrap "run: watch %q: %w" (text dir ∷ []) e))

  unfoldable pub watch_dirs : List String → W → W × Option Error
  watch_dirs [] w = (w, none)
  watch_dirs (dir ∷ dirs) w =
      unless_failed (watch_failed dir (add_recursive (watcher.add dir) (watcher.tree dir w) w))
        (λ w'. watch_dirs dirs w')

module _ {W P : Type 0} (os : Os W P) (watcher : Watcher W) where
  -- The deferred Close.
  abbrev pub closing : Runner P × W × Outcome → Runner P × W × Outcome
  closing (r, w, waiting) = (r, w, waiting)
  closing (r, w, returned e) = (r, watcher.close w, returned e)

  abbrev pub watching : List Happening → Runner P → W × Option Error → Runner P × W × Outcome
  watching hs r (w, some e) = stop_with os (some e) (r, w)
  watching hs r (w, none) = dev_loop os hs none (r, w)

  abbrev pub with_watcher :
      RunConfig → List Happening → Runner P → W × Option Error → Runner P × W × Outcome
  with_watcher cfg hs r (w, some e) =
      stop_with os (some (wrap "run: create watcher: %w" [] e)) (r, w)
  with_watcher cfg hs r (w, none) = closing (watching hs r (watch_dirs watcher cfg.watch_dirs w))

  abbrev pub begun :
      RunConfig → List Happening → Runner P × W × Option Error → Runner P × W × Outcome
  begun cfg hs (r, w, some e) = (r, w, returned (some e))
  begun cfg hs (r, w, none) =
      if cfg.no_reload
      then wait_done os hs (r, w)
      else with_watcher cfg hs r (watcher.new_watcher w)

  unfoldable pub run_dev : RunConfig → List Happening → W → Runner P × W × Outcome
  unfolding watch_dirs
  run_dev cfg hs w = begun cfg hs (restart os (record { cmd = none }) w)
