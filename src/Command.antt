-- ===== src/Command.antt =====
-- cmd/goplatform: the DSN of the migrate commands (migrate.go), and the directories that the run command
-- (run.go) watches; the children have the commands. A text is the list of its bytes. The file system, the
-- watcher and processes are parameters; flags and output are left out.
pub mod Runner
pub mod Dev
pub mod Init
pub mod Components
pub mod Migrations
pub mod Laws
mod Tests
use goplatform.Prelude.{
  ℕ, String, Bool, true, false, ◌||◌, ◌&&◌, Option, none, some, List, [], ◌∷◌, ◌++◌, ◌⊎◌, inl, inr,
  ◌==◌, if◌then◌else◌,
}
use goplatform.Prelude.Bytes.{codes, eq_bytes, after_prefix}
use goplatform.Errors.{Error, failure}
use goplatform.Postgres.Migrate.{postgres_scheme, postgresql_scheme}

abbrev pub pgx_scheme : List ℕ
pgx_scheme = codes "pgx://"

abbrev pub or_env : List ℕ → List ℕ → List ℕ
or_env [] env = env
or_env (c ∷ cs) env = c ∷ cs

abbrev pub convert_scheme : List ℕ → Option (List ℕ) → Option (List ℕ) → List ℕ
convert_scheme dsn (some rest) o = pgx_scheme ++ rest
convert_scheme dsn none (some rest) = pgx_scheme ++ rest
convert_scheme dsn none none = dsn

abbrev pub resolved : List ℕ → List ℕ ⊎ Error
resolved [] = inr (failure "DSN not set: use --dsn flag or POSTGRES_DSN env var" [])
resolved (c ∷ cs) = inl (
    convert_scheme (c ∷ cs) (after_prefix postgres_scheme (c ∷ cs))
      (after_prefix postgresql_scheme (c ∷ cs)))

-- `env` is the variable POSTGRES_DSN, "" where it is not set.
unfoldable pub resolve_dsn : List ℕ → List ℕ → List ℕ ⊎ Error
unfolding after_prefix
resolve_dsn dsn env = resolved (or_env dsn env)

mutual
  -- A file tree as filepath.Walk meets it. A name is the base of a path; `unreadable` is a path with
  -- which Walk passes an error.
  pub data Node : Type 0 where
    file : List ℕ → Node
    dir : List ℕ → Nodes → Node
    unreadable : Error → Node

  pub data Nodes : Type 0 where
    nil : Nodes
    cons : Node → Nodes → Nodes

abbrev pub is_hidden : List ℕ → Bool
is_hidden [] = false
is_hidden (c ∷ cs) = c == 46

unfoldable pub skips : List ℕ → Bool
skips base =
    is_hidden base
    || eq_bytes base (codes "vendor")
    || eq_bytes base (codes "node_modules")
    || eq_bytes base (codes "tmp")

-- A path is its names, the root's first.
abbrev pub Path_ : Type 0
Path_ = List (List ℕ)

-- Go on unless there was an error.
abbrev pub unless_failed :
    {W : Type 0} → W × Option Error → (W → W × Option Error) → W × Option Error
unless_failed (w, none) next = next w
unless_failed (w, some e) next = (w, some e)

-- `watcher.Add` is `add`.
module _ {W : Type 0} (add : Path_ → W → W × Option Error) where
  unfoldable mutual
    unfolding skips

    pub walk : Path_ → Node → W → W × Option Error
    walk path (file name) w = (w, none)
    walk path (unreadable e) w = (w, some e)
    walk path (dir base children) w =
        if skips base
        then (w, none)
        else unless_failed (add (path ++ base ∷ []) w)
            (λ w'. walk_each (path ++ base ∷ []) children w')

    pub walk_each : Path_ → Nodes → W → W × Option Error
    walk_each path nil w = (w, none)
    walk_each path (cons n ns) w = unless_failed (walk path n w) (λ w'. walk_each path ns w')

  -- `root` is the tree under the given path.
  unfoldable pub add_recursive : Node → W → W × Option Error
  unfolding walk
  add_recursive root w = walk [] root w
