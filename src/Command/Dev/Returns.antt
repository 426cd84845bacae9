-- ===== src/Command/Dev/Returns.antt =====
-- What runDev leaves when it returns.
use goplatform.Prelude.{
  ℕ, ◌≡◌, refl, sym, subst, ◌∙◌, String, Bool, true, false, Option, none, some, List, [], ◌∷◌, ◌++◌,
  ◌⊎◌, inl, inr, Bool-cases,
}
use goplatform.Errors.{Error, wrap}
use goplatform.Command.{
  Path_, Node, file, dir, unreadable, Nodes, nil, cons, skips, walk, walk_each, add_recursive,
  unless_failed,
}
use goplatform.Command.Runner.{Runner, Os, started, built, restart, stop}
use goplatform.Command.Laws.{
  KeepsProcesses, Single, call_restart, step, kill-nothing, built-Single, step-Single,
}
use goplatform.Command.Dev.{
  RunConfig, Happening, done, event, events_closed, watch_error, errors_closed, quiet, Outcome,
  waiting, returned, Watcher, fire, stop_with, dev_loop, wait_done, watch_dirs, closing, watching,
  with_watcher, begun, run_dev, watch_failed,
}

abbrev pub has_returned : Outcome → Bool
has_returned waiting = false
has_returned (returned e) = true

-- The watcher does not touch the processes.
pub record KeepsOthers {W P : Type 0} (watcher : Watcher W) (running : W → List P) : Type 0 where
  pub new_keeps : (w : W) → running (watcher.new_watcher w).0 ≡ running w
  pub add_keeps :
      (dir : String) (path : Path_) (w : W) → running (watcher.add dir path w).0 ≡ running w
  pub close_keeps : (w : W) → running (watcher.close w) ≡ running w

module _ {W P : Type 0} (os : Os W P) (running : W → List P)
    (keeps : KeepsProcesses os running) where
  -- It has returned, and nothing runs.
  abbrev Settled : Runner P × W × Outcome → Type 0
  Settled s = (has_returned s.2 ≡ true) × (running s.1 ≡ [])

  stop_with-Settled :
      (e : Option Error) (r : Runner P) (w : W)
      → Single r (running w)
      → Settled (stop_with os e (r, w))
  unfolding stop
  stop_with-Settled e r w single = (refl, kill-nothing os running keeps r 5 w single)

  fire-Single :
      (timer : Option (List ℕ)) (r : Runner P) (w : W)
      → Single r (running w)
      → let s = fire os timer (r, w) in Single s.0 (running s.1)
  unfolding step
  fire-Single none r w single = single
  fire-Single (some name) r w single = step-Single os running keeps call_restart r w single

  dev_loop-Settled :
      (hs rest : List Happening) (timer : Option (List ℕ)) (r : Runner P) (w : W)
      → Single r (running w)
      → Settled (dev_loop os (hs ++ done ∷ rest) timer (r, w))
  unfolding dev_loop
  dev_loop-Settled [] rest timer r w single = stop_with-Settled none r w single
  dev_loop-Settled (done ∷ hs) rest timer r w single = stop_with-Settled none r w single
  dev_loop-Settled (event name write create ∷ hs) rest timer r w single =
      dev_loop-Settled hs rest _ r w single
  dev_loop-Settled (events_closed ∷ hs) rest timer r w single = stop_with-Settled none r w single
  dev_loop-Settled (watch_error e ∷ hs) rest timer r w single =
      dev_loop-Settled hs rest timer r w single
  dev_loop-Settled (errors_closed ∷ hs) rest timer r w single = stop_with-Settled none r w single
  dev_loop-Settled (quiet ∷ hs) rest timer r w single =
      let s = fire os timer (r, w) in
      dev_loop-Settled hs rest none s.0 s.1 (fire-Single timer r w single)

  wait_done-Settled :
      (hs rest : List Happening) (r : Runner P) (w : W)
      → Single r (running w)
      → Settled (wait_done os (hs ++ done ∷ rest) (r, w))
  unfolding wait_done
  wait_done-Settled [] rest r w single = stop_with-Settled none r w single
  wait_done-Settled (done ∷ hs) rest r w single = stop_with-Settled none r w single
  wait_done-Settled (event name write create ∷ hs) rest r w single =
      wait_done-Settled hs rest r w single
  wait_done-Settled (events_closed ∷ hs) rest r w single = wait_done-Settled hs rest r w single
  wait_done-Settled (watch_error e ∷ hs) rest r w single = wait_done-Settled hs rest r w single
  wait_done-Settled (errors_closed ∷ hs) rest r w single = wait_done-Settled hs rest r w single
  wait_done-Settled (quiet ∷ hs) rest r w single = wait_done-Settled hs rest r w single

module _ {W P : Type 0} (running : W → List P) where
  Keeps : W → W × Option Error → Type 0
  Keeps w s = running s.0 ≡ running w

  unless_failed-Keeps :
      (w : W) (s : W × Option Error) (next : W → W × Option Error)
      → running s.0 ≡ running w
      → ((w' : W) → running (next w').0 ≡ running w')
      → running (unless_failed s next).0 ≡ running w
  unless_failed-Keeps w (w', none) next h k = k w' ∙ h
  unless_failed-Keeps w (w', some e) next h k = h

  module _ (add : Path_ → W → W × Option Error)
      (add_keeps : (path : Path_) (w : W) → running (add path w).0 ≡ running w) where
    mutual
      unfolding walk

      walk-Keeps : (path : Path_) (n : Node) (w : W) → running (walk add path n w).0 ≡ running w
      walk-Keeps path (file name) w = refl
      walk-Keeps path (unreadable e) w = refl
      walk-Keeps path (dir base children) w = elim (Bool-cases (skips base)) [
        | inl skipped ↦ rw skipped refl
        | inr kept ↦
            rw kept
              (unless_failed-Keeps w _ _ (add_keeps _ w) (λ w'. walk_each-Keeps _ children w'))
      ]

      walk_each-Keeps :
          (path : Path_) (ns : Nodes) (w : W) → running (walk_each add path ns w).0 ≡ running w
      walk_each-Keeps path nil w = refl
      walk_each-Keeps path (cons n ns) w =
          unless_failed-Keeps w _ _ (walk-Keeps path n w) (λ w'. walk_each-Keeps path ns w')

  watch_dirs-Keeps :
      (watcher : Watcher W) (keeps : KeepsOthers watcher running) (dirs : List String) (w : W)
      → running (watch_dirs watcher dirs w).0 ≡ running w
  unfolding watch_dirs add_recursive
  watch_dirs-Keeps watcher keeps [] w = refl
  watch_dirs-Keeps watcher keeps (d ∷ ds) w =
      let s = walk (watcher.add d) [] (watcher.tree d w) w in
      unless_failed-Keeps w (watch_failed watcher d s) (λ w'. watch_dirs watcher ds w')
        (failed s (walk-Keeps (watcher.add d) (keeps.add_keeps d) [] (watcher.tree d w) w))
        (λ w'. watch_dirs-Keeps watcher keeps ds w')
    where
      failed :
          (s : W × Option Error)
          → running s.0 ≡ running w
          → running (watch_failed watcher d s).0 ≡ running w
      failed (w', none) h = h
      failed (w', some e) h = h

module _ {W P : Type 0} (os : Os W P) (watcher : Watcher W) (running : W → List P)
    (keeps : KeepsProcesses os running) (others : KeepsOthers watcher running) where
  closing-Settled :
      (s : Runner P × W × Outcome)
      → Settled os running keeps s
      → Settled os running keeps (closing os watcher s)
  closing-Settled (r, w, waiting) h = h
  closing-Settled (r, w, returned e) (back, h) = (refl, others.close_keeps w ∙ h)

  watching-Settled :
      (hs rest : List Happening) (r : Runner P) (s : W × Option Error)
      → Single r (running s.0)
      → Settled os running keeps (watching os watcher (hs ++ done ∷ rest) r s)
  watching-Settled hs rest r (w, some e) single =
      stop_with-Settled os running keeps (some e) r w single
  watching-Settled hs rest r (w, none) single =
      dev_loop-Settled os running keeps hs rest none r w single

  with_watcher-Settled :
      (cfg : RunConfig) (hs rest : List Happening) (r : Runner P) (s : W × Option Error)
      → Single r (running s.0)
      → Settled os running keeps (with_watcher os watcher cfg (hs ++ done ∷ rest) r s)
  with_watcher-Settled cfg hs rest r (w, some e) single =
      stop_with-Settled os running keeps (some (wrap "run: create watcher: %w" [] e)) r w single
  with_watcher-Settled cfg hs rest r (w, none) single = closing-Settled _ (
      watching-Settled hs rest r (watch_dirs watcher cfg.watch_dirs w) (
        subst (λ ps. Single r ps) (sym (watch_dirs-Keeps running watcher others cfg.watch_dirs w))
          single))

  built-failed :
      (r : Runner P) (b : W × Option Error) (e : Error)
      → running b.0 ≡ []
      → (built os r b).2 ≡ some e
      → running (built os r b).1 ≡ []
  built-failed r (w, some x) e h failed = h
  built-failed r (w, none) e h failed = go (os.start w).1 refl failed
    where
      go :
          (o : P ⊎ Error)
          → (os.start w).1 ≡ o
          → (started os ((os.start w).0, o)).2 ≡ some e
          → running (started os ((os.start w).0, o)).1 ≡ []
      go (inl p) is fails = absurd cc
      go (inr x) is fails = keeps.not_added w x is ∙ h

  begun-Settled :
      (cfg : RunConfig) (hs rest : List Happening) (s : Runner P × W × Option Error)
      → Single s.0 (running s.1)
      → ((e : Error) → s.2 ≡ some e → running s.1 ≡ [])
      → Settled os running keeps (begun os watcher cfg (hs ++ done ∷ rest) s)
  begun-Settled cfg hs rest (r, w, some e) single failed = (refl, failed e refl)
  begun-Settled cfg hs rest (r, w, none) single failed = elim (Bool-cases cfg.no_reload) [
    | inl off ↦ rw off (wait_done-Settled os running keeps hs rest r w single)
    | inr on ↦ rw on (
        with_watcher-Settled cfg hs rest r (watcher.new_watcher w)
          (subst (λ ps. Single r ps) (sym (others.new_keeps w)) single))
  ]

  -- Where no process runs at first, runDev returns once its context is done, whatever happens before and
  -- after that, and when it returns no process runs: with or without hot reload, and also where a build,
  -- a start, the watcher or the watching of a directory fails.
  pub run_dev-returns :
      (cfg : RunConfig) (hs rest : List Happening) (w : W)
      → running w ≡ []
      → let s = run_dev os watcher cfg (hs ++ done ∷ rest) w in
        (has_returned s.2 ≡ true) × (running s.1 ≡ [])
  unfolding run_dev restart
  run_dev-returns cfg hs rest w h =
      let clear = keeps.build_keeps w ∙ h in
      begun-Settled cfg hs rest _ (built-Single os running keeps _ (os.build w) clear)
        (λ e. built-failed _ (os.build w) e clear)
