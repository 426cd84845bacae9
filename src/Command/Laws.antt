-- ===== src/Command/Laws.antt =====
-- What the run command watches, and the processes that its runner leaves.
use goplatform.Prelude.{
  ℕ, ◌≡◌, refl, ap, ◌∙◌, Option, none, some, List, [], ◌∷◌, ◌++◌, ◌⊎◌, inl, inr,
}
use goplatform.Prelude.Bytes.{after_prefix}
use goplatform.Errors.{Error}
use goplatform.Postgres.Migrate.{postgres_scheme, postgresql_scheme}
use goplatform.Command.{pgx_scheme, resolve_dsn, Nodes, dir, Path_, skips, walk, add_recursive}
use goplatform.Command.Runner.{Runner, Os, kill, started, built, restart, stop}

-- addRecursive of a directory whose path ends in "." watches nothing, whatever the directory holds, and
-- returns nil: its base counts as hidden. "." is the default of the flag --watch.
pub add_recursive-dot :
    {W : Type 0} (add : Path_ → W → W × Option Error) (children : Nodes) (w : W)
    → add_recursive add (dir (46 ∷ []) children) w ≡ (w, none)
unfolding add_recursive walk skips
add_recursive-dot add children w = refl

-- The DSN of the migrate commands: with the scheme postgres:// or postgresql:// it gets the scheme pgx://
-- and keeps its rest, be it given by the flag or, where that is empty, by POSTGRES_DSN.
pub resolve_dsn-schemes :
    (rest env : List ℕ)
    → (resolve_dsn (postgres_scheme ++ rest) env ≡ inl (pgx_scheme ++ rest))
      × (resolve_dsn (postgresql_scheme ++ rest) env ≡ inl (pgx_scheme ++ rest))
      × (resolve_dsn [] (postgres_scheme ++ rest) ≡ inl (pgx_scheme ++ rest))
      × (resolve_dsn [] (postgresql_scheme ++ rest) ≡ inl (pgx_scheme ++ rest))
unfolding resolve_dsn after_prefix
resolve_dsn-schemes rest env = (refl, refl, refl, refl)

-- Processes as the operating system keeps them: a start that succeeds adds one, and terminating one that
-- runs alone leaves none.
pub record KeepsProcesses {W P : Type 0} (os : Os W P) (running : W → List P) : Type 0 where
  pub terminated :
      (p : P) (seconds : ℕ) (w : W) → running w ≡ p ∷ [] → running (os.terminate p seconds w) ≡ []
  pub gone :
      (p : P) (seconds : ℕ) (w : W) → running w ≡ [] → running (os.terminate p seconds w) ≡ []
  pub build_keeps : (w : W) → running (os.build w).0 ≡ running w
  pub added : (w : W) (p : P) → (os.start w).1 ≡ inl p → running (os.start w).0 ≡ p ∷ running w
  pub not_added : (w : W) (e : Error) → (os.start w).1 ≡ inr e → running (os.start w).0 ≡ running w

-- No process runs, or only that of the runner.
pub data Single {P : Type 0} (r : Runner P) (running : List P) : Type 0 where
  nothing : running ≡ [] → Single r running
  only : (p : P) → r.cmd ≡ some (some p) → running ≡ p ∷ [] → Single r running

-- A call of the runner.
pub data Call : Type 0 where
  call_restart : Call
  call_stop : Call

module _ {W P : Type 0} (os : Os W P) where
  unfoldable pub step : Call → Runner P × W → Runner P × W
  step call_restart (r, w) = let s = restart os r w in (s.0, s.1)
  step call_stop (r, w) = stop os r w

  unfoldable pub steps : List Call → Runner P × W → Runner P × W
  unfolding step
  steps [] s = s
  steps (c ∷ cs) s = steps cs (step c s)

module _ {W P : Type 0} (os : Os W P) (running : W → List P)
    (keeps : KeepsProcesses os running) where
  pub kill-nothing :
      (r : Runner P) (seconds : ℕ) (w : W)
      → Single r (running w)
      → running (kill os r.cmd seconds w) ≡ []
  kill-nothing r seconds w (only p e h) =
      ap (λ o. running (kill os o seconds w)) e ∙ keeps.terminated p seconds w h
  kill-nothing r seconds w (nothing h) = go r.cmd
    where
      go : (o : Option (Option P)) → running (kill os o seconds w) ≡ []
      go none = h
      go (some none) = h
      go (some (some p)) = keeps.gone p seconds w h

  pub built-Single :
      (r : Runner P) (b : W × Option Error)
      → running b.0 ≡ []
      → let s = built os r b in Single s.0 (running s.1)
  built-Single r (w, some e) h = nothing h
  built-Single r (w, none) h = go (os.start w).1 refl
    where
      go :
          (o : P ⊎ Error)
          → (os.start w).1 ≡ o
          → let s = started os ((os.start w).0, o) in Single s.0 (running s.1)
      go (inl p) e = only p refl (keeps.added w p e ∙ ap (λ ps. p ∷ ps) h)
      go (inr err) e = nothing (keeps.not_added w err e ∙ h)

  pub step-Single :
      (c : Call) (r : Runner P) (w : W)
      → Single r (running w)
      → let s = step os c (r, w) in Single s.0 (running s.1)
  unfolding step restart stop
  step-Single call_restart r w single =
      built-Single r _ (keeps.build_keeps _ ∙ kill-nothing r 3 w single)
  step-Single call_stop r w single = nothing (kill-nothing r 5 w single)

  -- After any sequence of restarts and stops, with builds and starts that fail among them, at most one
  -- process runs, and it is the one that the runner holds; after a stop there is none.
  pub steps-Single :
      (cs : List Call) (r : Runner P) (w : W)
      → Single r (running w)
      → let s = steps os cs (r, w) in
        Single s.0 (running s.1) × (running (step os call_stop s).1 ≡ [])
  unfolding steps
  steps-Single [] r w single = (single, unfold step stop in kill-nothing r 5 w single)
  steps-Single (c ∷ cs) r w single =
      let s = step os c (r, w) in steps-Single cs s.0 s.1 (step-Single c r w single)
