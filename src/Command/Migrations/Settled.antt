-- ===== src/Command/Migrations/Settled.antt =====
-- What the migrate commands leave.
use goplatform.Prelude.{ℕ, suc, ℤ, ◌≡◌, refl, ◌∙◌, ◌≢◌, Option, List, [], ◌∷◌, ◌++◌, ◌⊎◌, inl, inr}
use goplatform.Prelude.Bytes.{codes}
use goplatform.Errors.{Error}
use goplatform.Scaffold.Files.{Begun, and_then-Begun, made-Begun, wrote-Begun}
use goplatform.Scaffold.Render.{Fs}
use goplatform.Command.{resolve_dsn}
use goplatform.Command.Migrations.{
  Migrators, Message, resolve_source_url, with_migrator, with_urls, migrate_up, migrate_down,
  up_name, down_name, run_migrate_create,
}

-- The migrators that are open, as golang-migrate counts them.
pub record CountsMigrators {W M : Type 0} (ops : Migrators W M) (opened : W → ℕ) : Type 0 where
  pub created :
      (source db : List ℕ) (w : W) (m : M)
      → (ops.new source db w).1 ≡ inl m
      → opened (ops.new source db w).0 ≡ suc (opened w)
  pub not_created :
      (source db : List ℕ) (w : W) (e : Error)
      → (ops.new source db w).1 ≡ inr e
      → opened (ops.new source db w).0 ≡ opened w
  pub up_keeps : (m : M) (w : W) → opened (ops.up m w).0 ≡ opened w
  pub steps_keeps : (m : M) (n : ℤ) (w : W) → opened (ops.steps m n w).0 ≡ opened w
  pub closed : (m : M) (w : W) (n : ℕ) → opened w ≡ suc n → opened (ops.close m w) ≡ n

module _ {W M : Type 0} (ops : Migrators W M) (opened : W → ℕ)
    (counts : CountsMigrators ops opened) where
  with_migrator-closes :
      (source db : List ℕ) (act : M → W → W × Option Error)
      (report : Option Error → Message ⊎ Error) (w : W)
      → ((m : M) (w : W) → opened (act m w).0 ≡ opened w)
      → opened (with_migrator ops (ops.new source db w) act report).0 ≡ opened w
  with_migrator-closes source db act report w keeps = go (ops.new source db w).1 refl
    where
      go :
          (o : M ⊎ Error)
          → (ops.new source db w).1 ≡ o
          → opened (with_migrator ops ((ops.new source db w).0, o) act report).0 ≡ opened w
      go (inl m) e = counts.closed m _ (opened w) (keeps m _ ∙ counts.created source db w m e)
      go (inr err) e = counts.not_created source db w err e

  with_urls-closes :
      (db source : List ℕ ⊎ Error) (act : M → W → W × Option Error)
      (report : Option Error → Message ⊎ Error) (w : W)
      → ((m : M) (w : W) → opened (act m w).0 ≡ opened w)
      → opened (with_urls ops db source act report w).0 ≡ opened w
  with_urls-closes (inr e) source act report w keeps = refl
  with_urls-closes (inl db) (inr e) act report w keeps = refl
  with_urls-closes (inl db) (inl source) act report w keeps =
      with_migrator-closes source db act report w keeps

  -- Neither up nor down leaves a migrator open, whatever fails in it.
  pub migrate_commands_close :
      (env dsn dir : List ℕ) (n : ℤ) (w : W)
      → (opened (migrate_up ops env dsn dir w).0 ≡ opened w)
        × (opened (migrate_down ops env dsn dir n w).0 ≡ opened w)
  unfolding migrate_up migrate_down
  migrate_commands_close env dsn dir n w = (
    with_urls-closes (resolve_dsn dsn env) (resolve_source_url ops dir) ops.up _ w counts.up_keeps,
    with_urls-closes (resolve_dsn dsn env) (resolve_source_url ops dir) _ _ w
        (λ m w. counts.steps_keeps m _ w),
  )

append-cancel : (xs ys zs : List ℕ) → xs ++ ys ≡ xs ++ zs → ys ≡ zs
append-cancel [] ys zs h = h
append-cancel (x ∷ xs) ys zs h = append-cancel xs ys zs (cc)

up_name-ne-down_name : (timestamp name : List ℕ) → up_name timestamp name ≢ down_name timestamp name
unfolding up_name down_name
up_name-ne-down_name timestamp name h =
    let e =
      append-cancel (codes "_" ++ name) (codes ".up.sql") (codes ".down.sql")
        (append-cancel timestamp _ _ h) in
    cc

-- create writes two empty files, whose names differ, whatever the name of the migration is: the up
-- migration and then the down migration. It returns nil only if both are written, and where one fails it
-- has written none or the up migration only.
pub run_migrate_create-Begun :
    {W T : Type 0} (fs : Fs W T) (timestamp dir name : List ℕ) (w : W)
    → Begun
        ((fs.join dir (up_name timestamp name), inl [])
          ∷ (fs.join dir (down_name timestamp name), inl [])
          ∷ [])
        (run_migrate_create fs timestamp dir name w)
      × (up_name timestamp name ≢ down_name timestamp name)
unfolding run_migrate_create
run_migrate_create-Begun fs timestamp dir name w =
    let up_file = fs.join dir (up_name timestamp name) in
    let down_file = fs.join dir (down_name timestamp name) in
    (
      made-Begun "creating migrations directory: %w" []
          ((up_file, inl []) ∷ (down_file, inl []) ∷ []) (fs.mkdir_all dir w) _
          (λ w1.
            and_then-Begun ((up_file, inl []) ∷ []) ((down_file, inl []) ∷ []) _ _
              (wrote-Begun "creating up migration: %w" [] up_file [] (fs.write_file up_file [] w1))
              (λ w2.
                wrote-Begun "creating down migration: %w" [] down_file []
                  (fs.write_file down_file [] w2))),
      up_name-ne-down_name timestamp name,
    )
