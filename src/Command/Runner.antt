-- ===== src/Command/Runner.antt =====
-- The runner of cmd/goplatform/run.go. The mutex makes restart and stop one step each.
use goplatform.Prelude.{Option, none, some, [], ◌⊎◌, inl, inr, ℕ}
use goplatform.Errors.{Error, wrap}

-- `cmd` is nil, a command that could not be started, or one with its process. `P` is the type of processes.
pub record Runner (P : Type 0) : Type 0 where
  pub cmd : Option (Option P)

-- `terminate` is SIGTERM, the wait with its timeout in seconds, and the kill after that. `start` is what
-- Start of the new command comes to.
pub record Os (W P : Type 0) : Type 0 where
  pub terminate : P → ℕ → W → W
  pub build : W → W × Option Error
  pub start : W → W × (P ⊎ Error)

module _ {W P : Type 0} (os : Os W P) where
  abbrev pub kill : Option (Option P) → ℕ → W → W
  kill none seconds w = w
  kill (some none) seconds w = w
  kill (some (some p)) seconds w = os.terminate p seconds w

  abbrev pub started : W × (P ⊎ Error) → Runner P × W × Option Error
  started (w, inl p) = (record { cmd = some (some p) }, w, none)
  started (w, inr e) = (record { cmd = some none }, w, some (wrap "run: start failed: %w" [] e))

  abbrev pub built : Runner P → W × Option Error → Runner P × W × Option Error
  built r (w, some e) = (r, w, some (wrap "run: build failed: %w" [] e))
  built r (w, none) = started (os.start w)

  unfoldable pub restart : Runner P → W → Runner P × W × Option Error
  restart r w = built r (os.build (kill r.cmd 3 w))

  abbrev pub stopped : Option (Option P) → Option (Option P)
  stopped none = none
  stopped (some none) = some none
  stopped (some (some p)) = none

  unfoldable pub stop : Runner P → W → Runner P × W
  stop r w = (record { cmd = stopped r.cmd }, kill r.cmd 5 w)
