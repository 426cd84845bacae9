-- ===== src/Platformtest/Database.antt =====
-- NewTestDB of pkg/platformtest/postgres.go. crypto/rand and database/sql with the driver pgx are
-- parameters: `A` is the type of the connections that they open. A step that fails ends the test with the
-- message of `require`; what is left to do when the test ends is clean_up, which collects what it reports
-- with t.Errorf. The time limits are left out.
pub mod Left
use goplatform.Prelude.{
  ℕ, ◌+◌, ◌/◌, ◌%◌, String, Option, none, some, List, [], ◌∷◌, ◌++◌, ◌⊎◌, inl, inr, ltb,
  if◌then◌else◌,
}
use goplatform.Prelude.Bytes.{codes}
use goplatform.Errors.{Error}
use goplatform.Postgres.Db.{Db, PgxPool, new, with_dsn, start, stop}
use goplatform.Platformtest.{replace_db_name}

pub record Sql (W A : Type 0) : Type 0 where
  pub random : W → W × (List ℕ ⊎ Error)
  pub open_db : List ℕ → W → W × (A ⊎ Error)
  pub exec : A → List ℕ → W → W × Option Error
  pub close : A → W → W × Option Error

-- The DB of a test with the name of its database, or the message that ends the test.
pub data Made (P H Tp : Type 0) : Type 0 where
  made : List ℕ → Db P H Tp → Made P H Tp
  failed : String → Made P H Tp

abbrev pub digit : ℕ → ℕ
digit n = if ltb n 10 then 48 + n else 87 + n

-- hex.EncodeToString
abbrev pub hex : List ℕ → List ℕ
hex [] = []
hex (b ∷ bs) = digit (b / 16) ∷ digit (b % 16) ∷ hex bs

abbrev pub create_text : List ℕ → List ℕ
create_text name = codes "CREATE DATABASE " ++ name

abbrev pub drop_text : List ℕ → List ℕ
drop_text name = codes "DROP DATABASE IF EXISTS " ++ name

abbrev pub terminate_text : List ℕ → List ℕ
terminate_text name =
    codes "SELECT pg_terminate_backend(pid) FROM pg_stat_activity WHERE datname = '"
    ++ name
    ++ codes "' AND pid <> pg_backend_pid()"

abbrev pub report : Option Error → String → List String
report none message = []
report (some e) message = message ∷ []

module _ {W A P H Tp Other : Type 0} (sql : Sql W A) (pgx : PgxPool W P H Tp Other) where
  abbrev pub started : List ℕ → Db P H Tp × W × Option Error → W × Made P H Tp
  started name (db, w, none) = (w, made name db)
  started name (db, w, some e) = (w, failed "platformtest: start postgres.DB")

  module _ (dsn : List ℕ) (opts : List (Db P H Tp → Db P H Tp)) where
    -- After closing the connection on which the database was created.
    abbrev pub closed : List ℕ → W × Option Error → W × Made P H Tp
    closed name (w, some e) = (w, failed "platformtest: close admin connection")
    closed name (w, none) =
        started name (start pgx (new (with_dsn (replace_db_name dsn name) ∷ opts)) w)

    abbrev pub executed : A → List ℕ → W × Option Error → W × Made P H Tp
    executed a name (w, some e) = (w, failed "platformtest: create database %s")
    executed a name (w, none) = closed name (sql.close a w)

    abbrev pub opened : List ℕ → W × (A ⊎ Error) → W × Made P H Tp
    opened name (w, inr e) = (w, failed "platformtest: open admin connection")
    opened name (w, inl a) = executed a name (sql.exec a (create_text name) w)

    abbrev pub named : W × (List ℕ ⊎ Error) → W × Made P H Tp
    named (w, inr e) = (w, failed "platformtest: generate random bytes")
    named (w, inl random) =
        let name = codes "test_" ++ hex random in opened name (sql.open_db dsn w)

    unfoldable pub new_test_db : W → W × Made P H Tp
    unfolding new with_dsn replace_db_name start
    new_test_db w = named (sql.random w)

  abbrev pub dropping : A → List ℕ → List String → W → W × List String
  dropping a name reported w =
      let (w1, _err) = sql.exec a (terminate_text name) w in
      let (w2, err) = sql.exec a (drop_text name) w1 in
      ((sql.close a w2).0, reported ++ report err "platformtest: drop database %s: %v")

  abbrev pub cleaning : List ℕ → List String → W × (A ⊎ Error) → W × List String
  cleaning name reported (w, inr e) =
      (w, reported ++ "platformtest: open admin connection for cleanup: %v" ∷ [])
  cleaning name reported (w, inl a) = dropping a name reported w

  unfoldable pub clean_up : List ℕ → List ℕ → Db P H Tp → W → Db P H Tp × W × List String
  unfolding stop
  clean_up dsn name db w =
      let (db', w1, err) = stop pgx db w in
      let (w2, reported) =
        cleaning name (report err "platformtest: stop postgres.DB: %v") (sql.open_db dsn w1) in
      (db', w2, reported)
