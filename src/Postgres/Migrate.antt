-- ===== src/Postgres/Migrate.antt =====
-- pkg/postgres/migrate.go. golang-migrate and iofs are parameters; texts are lists of bytes, since the
-- code looks at the DSN's prefix.
use goplatform.Prelude.{
  ℕ, suc, String, ◌≡◌, refl, ap, ◌∙◌, true, ◌&&◌, Option, none, some, List, [], ◌∷◌, ◌++◌, ◌⊎◌, inl,
  inr, leb, if◌then◌else◌, length, arith,
}
use goplatform.Prelude.Bytes.{codes, eq_bytes, take, drop}
use goplatform.Errors.{Error, wrap, is}

abbrev pub postgres_scheme : List ℕ
postgres_scheme = codes "postgres://"

abbrev pub postgresql_scheme : List ℕ
postgresql_scheme = codes "postgresql://"

abbrev pub pgx5_scheme : List ℕ
pgx5_scheme = codes "pgx5://"

-- The DSN that newMigrate passes on.
unfoldable pub migrate_dsn : List ℕ → List ℕ
migrate_dsn dsn =
    if leb 11 (length dsn) && eq_bytes (take 11 dsn) postgres_scheme
    then pgx5_scheme ++ drop 11 dsn
    else if leb 14 (length dsn) && eq_bytes (take 14 dsn) postgresql_scheme
    then pgx5_scheme ++ drop 14 dsn
    else dsn

-- `Fs` is the file system with the migrations, `D` a source driver, `M` a migrator. `ctx_err` is
-- `ctx.Err()`.
pub record MigrateOps (W Fs D M : Type 0) : Type 0 where
  pub ctx_err : W → Option Error
  pub new_source : Fs → W → W × (D ⊎ Error)
  pub new_migrator : D → List ℕ → W → W × (M ⊎ Error)
  pub up : M → W → W × Option Error
  pub down : M → W → W × Option Error
  pub close : M → W → W

-- migrate.ErrNoChange
abbrev pub no_change : String
no_change = "no change"

-- `err != nil && !errors.Is(err, migrate.ErrNoChange)`
unfoldable pub migrate_error : String → Option Error → Option Error
migrate_error format none = none
migrate_error format (some e) = if is no_change e then none else some (wrap format [] e)

abbrev pub unless_cancelled :
    {W : Type 0} → Option Error → String → W → (W → W × Option Error) → W × Option Error
unless_cancelled (some e) format w next = (w, some (wrap format [] e))
unless_cancelled none format w next = next w

abbrev pub with_text : {M : Type 0} → M ⊎ Error → M ⊎ Error
with_text (inl m) = inl m
with_text (inr e) = inr (wrap "postgres: create migrator: %w" [] e)

module _ {W Fs D M : Type 0} (ops : MigrateOps W Fs D M) where
  abbrev pub with_source : List ℕ → W × (D ⊎ Error) → W × (M ⊎ Error)
  with_source dsn (w, inr e) = (w, inr (wrap "postgres: create migration source: %w" [] e))
  with_source dsn (w, inl d) =
      let (w', made) = ops.new_migrator d (migrate_dsn dsn) w in (w', with_text made)

  unfoldable pub new_migrate : List ℕ → Fs → W → W × (M ⊎ Error)
  unfolding migrate_dsn
  new_migrate dsn source w = with_source dsn (ops.new_source source w)

  -- After newMigrate: run `direction`, then the deferred close.
  abbrev pub with_migrator :
      (M → W → W × Option Error) → String → W × (M ⊎ Error) → W × Option Error
  with_migrator direction format (w, inr e) = (w, some e)
  with_migrator direction format (w, inl m) =
      let (w', err) = direction m w in (ops.close m w', migrate_error format err)

  unfoldable pub migrate : List ℕ → Fs → W → W × Option Error
  unfolding new_migrate migrate_error
  migrate dsn source w =
      unless_cancelled (ops.ctx_err w) "postgres: migrate up: %w" w
        (λ w. with_migrator ops.up "postgres: migrate up: %w" (new_migrate dsn source w))

  unfoldable pub migrate_down : List ℕ → Fs → W → W × Option Error
  unfolding new_migrate migrate_error
  migrate_down dsn source w =
      unless_cancelled (ops.ctx_err w) "postgres: migrate down: %w" w
        (λ w. with_migrator ops.down "postgres: migrate down: %w" (new_migrate dsn source w))

migrate_dsn-postgresql :
    (rest : List ℕ) → migrate_dsn (postgresql_scheme ++ rest) ≡ postgresql_scheme ++ rest
unfolding migrate_dsn
migrate_dsn-postgresql [] = refl
migrate_dsn-postgresql (c ∷ cs) =
    let long : leb 11 (length (postgresql_scheme ++ c ∷ cs)) ≡ true = ground arith in
    let longer : leb 14 (length (postgresql_scheme ++ c ∷ cs)) ≡ true = ground arith in
    rw (long, longer) refl

-- A DSN with the scheme postgres:// reaches golang-migrate with the scheme pgx5:// and the same rest;
-- one with the scheme postgresql://, which pgx accepts as well, reaches it as it is.
pub migrate_dsn-schemes :
    (rest : List ℕ)
    → (migrate_dsn (postgres_scheme ++ rest) ≡ pgx5_scheme ++ rest)
      × (migrate_dsn (postgresql_scheme ++ rest) ≡ postgresql_scheme ++ rest)
unfolding migrate_dsn
migrate_dsn-schemes rest =
    let long : leb 11 (length (postgres_scheme ++ rest)) ≡ true = ground arith in
    (rw long refl, migrate_dsn-postgresql rest)

-- The migrators that are open, as golang-migrate counts them: making one adds one, and closing takes
-- it away.
pub record CountsMigrators {W Fs D M : Type 0} (ops : MigrateOps W Fs D M) (opened : W → ℕ)
    : Type 0 where
  pub source_keeps : (source : Fs) (w : W) → opened (ops.new_source source w).0 ≡ opened w
  pub created :
      (d : D) (dsn : List ℕ) (w : W) (m : M)
      → (ops.new_migrator d dsn w).1 ≡ inl m
      → opened (ops.new_migrator d dsn w).0 ≡ suc (opened w)
  pub not_created :
      (d : D) (dsn : List ℕ) (w : W) (e : Error)
      → (ops.new_migrator d dsn w).1 ≡ inr e
      → opened (ops.new_migrator d dsn w).0 ≡ opened w
  pub up_keeps : (m : M) (w : W) → opened (ops.up m w).0 ≡ opened w
  pub down_keeps : (m : M) (w : W) → opened (ops.down m w).0 ≡ opened w
  pub closed : (m : M) (w : W) (n : ℕ) → opened w ≡ suc n → opened (ops.close m w) ≡ n

module _ {W Fs D M : Type 0} (ops : MigrateOps W Fs D M) (opened : W → ℕ)
    (counts : CountsMigrators ops opened) where
  -- What newMigrate leaves open.
  Leaves : ℕ → W × (M ⊎ Error) → Type 0
  Leaves n (w, inl m) = opened w ≡ suc n
  Leaves n (w, inr e) = opened w ≡ n

  new_migrate-Leaves :
      (dsn : List ℕ) (source : Fs) (w : W) → Leaves (opened w) (new_migrate ops dsn source w)
  unfolding new_migrate Leaves
  new_migrate-Leaves dsn source w = go (ops.new_source source w) (counts.source_keeps source w)
    where
      made :
          (d : D) (w1 : W) (r : M ⊎ Error)
          → (ops.new_migrator d (migrate_dsn dsn) w1).1 ≡ r
          → opened w1 ≡ opened w
          → Leaves (opened w) ((ops.new_migrator d (migrate_dsn dsn) w1).0, with_text r)
      made d w1 (inl m) e kept = counts.created d _ w1 m e ∙ ap suc kept
      made d w1 (inr err) e kept = counts.not_created d _ w1 err e ∙ kept

      go : (r : W × (D ⊎ Error)) → opened r.0 ≡ opened w → Leaves (opened w) (with_source ops dsn r)
      go (w1, inl d) kept = made d w1 (ops.new_migrator d (migrate_dsn dsn) w1).1 refl kept
      go (w1, inr e) kept = kept

  with_migrator-closes :
      (direction : M → W → W × Option Error) (format : String) (n : ℕ) (made : W × (M ⊎ Error))
      → ((m : M) (w : W) → opened (direction m w).0 ≡ opened w)
      → Leaves n made
      → opened (with_migrator ops direction format made).0 ≡ n
  unfolding Leaves
  with_migrator-closes direction format n (w, inl m) keeps left =
      counts.closed m (direction m w).0 n (keeps m w ∙ left)
  with_migrator-closes direction format n (w, inr e) keeps left = left

  unless_cancelled-closes :
      (o : Option Error) (format : String) (w : W) (next : W → W × Option Error)
      → opened (next w).0 ≡ opened w
      → opened (unless_cancelled o format w next).0 ≡ opened w
  unless_cancelled-closes none format w next h = h
  unless_cancelled-closes (some e) format w next h = refl

  -- Migrate and MigrateDown leave no migrator open, on any path.
  pub migrate_closes :
      (dsn : List ℕ) (source : Fs) (w : W)
      → (opened (migrate ops dsn source w).0 ≡ opened w)
        × (opened (migrate_down ops dsn source w).0 ≡ opened w)
  unfolding migrate migrate_down
  migrate_closes dsn source w =
      let left = new_migrate-Leaves dsn source w in
      (
        unless_cancelled-closes (ops.ctx_err w) _ w _
            (with_migrator-closes ops.up _ (opened w) _ counts.up_keeps left),
        unless_cancelled-closes (ops.ctx_err w) _ w _
            (with_migrator-closes ops.down _ (opened w) _ counts.down_keeps left),
      )
