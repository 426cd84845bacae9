-- ===== src/Command/Migrations.antt =====
-- The migrate commands of cmd/goplatform/migrate.go. golang-migrate, filepath.Abs, the clock and the file
-- system are parameters. A command returns its message or an error.
pub mod Settled
use goplatform.Prelude.{
  ℕ, zero, suc, ℤ, pos, negsuc, Option, none, some, List, [], ◌∷◌, ◌++◌, ◌⊎◌, inl, inr, String,
  if◌then◌else◌,
}
use goplatform.Prelude.Bytes.{codes}
use goplatform.Errors.{Error, wrap, is}
use goplatform.Postgres.Migrate.{no_change}
use goplatform.Scaffold.Files.{Writing, and_then, made, wrote}
use goplatform.Scaffold.Render.{Fs}
use goplatform.Command.{resolve_dsn}

-- `M` is the type of migrators. `abs` is filepath.Abs.
pub record Migrators (W M : Type 0) : Type 0 where
  pub abs : List ℕ → List ℕ ⊎ Error
  pub new : List ℕ → List ℕ → W → W × (M ⊎ Error)
  pub up : M → W → W × Option Error
  pub steps : M → ℤ → W → W × Option Error
  pub close : M → W → W

-- The messages of up and down.
pub data Message : Type 0 where
  nothing_to_apply : Message
  applied : Message
  nothing_to_roll_back : Message
  rolled_back : ℤ → Message

abbrev pub negated : ℤ → ℤ
negated (pos zero) = pos zero
negated (pos (suc n)) = negsuc n
negated (negsuc n) = pos (suc n)

abbrev pub source_url : List ℕ ⊎ Error → List ℕ ⊎ Error
source_url (inl path) = inl (codes "file://" ++ path)
source_url (inr e) = inr (wrap "resolving migrations path: %w" [] e)

-- What the error of a migration comes to.
unfoldable pub message_of : String → Message → Message → Option Error → Message ⊎ Error
message_of format idle moved none = inl moved
message_of format idle moved (some e) = if is no_change e then inl idle else inr (wrap format [] e)

module _ {W M : Type 0} (ops : Migrators W M) where
  unfoldable pub resolve_source_url : List ℕ → List ℕ ⊎ Error
  resolve_source_url dir = source_url (ops.abs dir)

  abbrev pub with_migrator :
      W × (M ⊎ Error)
      → (M → W → W × Option Error)
      → (Option Error → Message ⊎ Error)
      → W × (Message ⊎ Error)
  with_migrator (w, inr e) act report = (w, inr (wrap "migrate: init: %w" [] e))
  with_migrator (w, inl m) act report = let (w', err) = act m w in (ops.close m w', report err)

  abbrev pub with_urls :
      List ℕ ⊎ Error
      → List ℕ ⊎ Error
      → (M → W → W × Option Error)
      → (Option Error → Message ⊎ Error)
      → W
      → W × (Message ⊎ Error)
  with_urls (inr e) source act report w = (w, inr e)
  with_urls (inl db) (inr e) act report w = (w, inr e)
  with_urls (inl db) (inl source) act report w = with_migrator (ops.new source db w) act report

  -- `env` is the variable POSTGRES_DSN.
  unfoldable pub migrate_up : List ℕ → List ℕ → List ℕ → W → W × (Message ⊎ Error)
  unfolding resolve_source_url message_of
  migrate_up env dsn dir w =
      with_urls (resolve_dsn dsn env) (resolve_source_url dir) ops.up
        (message_of "migrate: up: %w" nothing_to_apply applied) w

  unfoldable pub migrate_down : List ℕ → List ℕ → List ℕ → ℤ → W → W × (Message ⊎ Error)
  unfolding resolve_source_url message_of
  migrate_down env dsn dir n w =
      with_urls (resolve_dsn dsn env) (resolve_source_url dir) (λ m. ops.steps m (negated n))
        (message_of "migrate: down: %w" nothing_to_roll_back (rolled_back n)) w

-- fmt.Sprintf("%s_%s.up.sql", timestamp, name), and the other one.
unfoldable pub up_name : List ℕ → List ℕ → List ℕ
up_name timestamp name = timestamp ++ (codes "_" ++ (name ++ codes ".up.sql"))

unfoldable pub down_name : List ℕ → List ℕ → List ℕ
down_name timestamp name = timestamp ++ (codes "_" ++ (name ++ codes ".down.sql"))

module _ {W T : Type 0} (fs : Fs W T) where
  unfoldable pub run_migrate_create : List ℕ → List ℕ → List ℕ → W → Writing W
  unfolding up_name down_name
  run_migrate_create timestamp dir name w =
      let up_file = fs.join dir (up_name timestamp name) in
      let down_file = fs.join dir (down_name timestamp name) in
      made "creating migrations directory: %w" [] (fs.mkdir_all dir w) (λ w1.
        and_then (wrote "creating up migration: %w" [] up_file [] (fs.write_file up_file [] w1))
          (λ w2.
            wrote "creating down migration: %w" [] down_file [] (fs.write_file down_file [] w2)))
