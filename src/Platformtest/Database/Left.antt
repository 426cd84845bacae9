-- ===== src/Platformtest/Database/Left.antt =====
-- Which databases exist after NewTestDB and after its cleanup. What the server, database/sql and pgxpool do
-- to the set of databases is a hypothesis.
use goplatform.Prelude.{
  ℕ, String, Bool, true, false, ◌≡◌, refl, ◌∙◌, Option, none, some, List, [], ◌∷◌, ◌++◌, ◌⊎◌, inl,
  inr,
}
use goplatform.Prelude.Bytes.{codes}
use goplatform.Errors.{Error}
use goplatform.Postgres.Db.{
  Db, PgxPool, PoolConfig, apply_config, new, with_dsn, start, start_from, parsed, created, pinged,
}
use goplatform.Platformtest.{replace_db_name}
use goplatform.Platformtest.Database.{
  Sql, hex, create_text, drop_text, terminate_text, started, closed, executed, new_test_db, report,
  cleaning, clean_up,
}

-- `has name` tells whether a database exists.
pub record TracksDatabases {W A P H Tp Other : Type 0} (sql : Sql W A)
    (pgx : PgxPool W P H Tp Other) (has : List ℕ → W → Bool) : Type 0 where
  pub made_one :
      (a : A) (name : List ℕ) (w : W)
      → (sql.exec a (create_text name) w).1 ≡ none
      → has name (sql.exec a (create_text name) w).0 ≡ true
  pub dropped_one :
      (a : A) (name : List ℕ) (w : W)
      → (sql.exec a (drop_text name) w).1 ≡ none
      → has name (sql.exec a (drop_text name) w).0 ≡ false
  pub closing : (a : A) (name : List ℕ) (w : W) → has name (sql.close a w).0 ≡ has name w
  pub pool_made :
      (cfg : PoolConfig H Tp Other) (name : List ℕ) (w : W)
      → has name (pgx.new_with_config cfg w).0 ≡ has name w
  pub pool_pinged : (p : P) (name : List ℕ) (w : W) → has name (pgx.ping p w).0 ≡ has name w
  pub pool_closed : (p : P) (name : List ℕ) (w : W) → has name (pgx.close p w) ≡ has name w

nothing_reported :
    (before : List String) (err : Option Error) (message : String)
    → before ++ report err message ≡ []
    → err ≡ none
nothing_reported before none message h = refl
nothing_reported [] (some e) message h = cc
nothing_reported (m ∷ before) (some e) message h = cc

module _ {W A P H Tp Other : Type 0} (sql : Sql W A) (pgx : PgxPool W P H Tp Other)
    (has : List ℕ → W → Bool) (tracks : TracksDatabases sql pgx has) (name : List ℕ) where
  pinged-has :
      (db : Db P H Tp) (p : P) (r : W × Option Error)
      → has name (pinged pgx db p r).1 ≡ has name r.0
  pinged-has db p (w, none) = refl
  pinged-has db p (w, some e) = tracks.pool_closed p name w

  created-has :
      (db : Db P H Tp) (r : W × (P ⊎ Error)) → has name (created pgx db r).1 ≡ has name r.0
  created-has db (w, inr e) = refl
  created-has db (w, inl p) = pinged-has db p (pgx.ping p w) ∙ tracks.pool_pinged p name w

  parsed-has :
      (db : Db P H Tp) (cfg : PoolConfig H Tp Other ⊎ Error) (w : W)
      → has name (parsed pgx db cfg w).1 ≡ has name w
  parsed-has db (inr e) w = refl
  parsed-has db (inl cfg) w =
      created-has db (pgx.new_with_config (apply_config pgx db cfg) w)
      ∙ tracks.pool_made (apply_config pgx db cfg) name w

  start_from-has :
      (db : Db P H Tp) (pool : Option P) (w : W)
      → has name (start_from pgx db pool w).1 ≡ has name w
  start_from-has db none w = parsed-has db (pgx.parse_config (db.dsn)) w
  start_from-has db (some p) w = refl

  started-has :
      (r : Db P H Tp × W × Option Error) → has name (started sql pgx name r).0 ≡ has name r.1
  started-has (db, w, none) = refl
  started-has (db, w, some e) = refl

  closed-has :
      (dsn : List ℕ) (opts : List (Db P H Tp → Db P H Tp)) (r : W × Option Error)
      → has name (closed sql pgx dsn opts name r).0 ≡ has name r.0
  unfolding start
  closed-has dsn opts (w, some e) = refl
  closed-has dsn opts (w, none) =
      let db = new (with_dsn (replace_db_name dsn name) ∷ opts) in
      started-has (start pgx db w) ∙ start_from-has db (db.pool) w

  executed-has :
      (dsn : List ℕ) (opts : List (Db P H Tp → Db P H Tp)) (a : A) (r : W × Option Error)
      → r.1 ≡ none
      → has name r.0 ≡ true
      → has name (executed sql pgx dsn opts a name r).0 ≡ true
  executed-has dsn opts a (w, none) ok h =
      closed-has dsn opts (sql.close a w) ∙ (tracks.closing a name w ∙ h)
  executed-has dsn opts a (w, some e) ok h = cc

  cleaning-has :
      (reported : List String) (r : W × (A ⊎ Error))
      → (cleaning sql pgx name reported r).1 ≡ []
      → has name (cleaning sql pgx name reported r).0 ≡ false
  cleaning-has [] (w, inr e) h = cc
  cleaning-has (m ∷ reported) (w, inr e) h = cc
  cleaning-has reported (w, inl a) h =
      let w1 = (sql.exec a (terminate_text name) w).0 in
      let r = sql.exec a (drop_text name) w1 in
      tracks.closing a name (r.0)
      ∙ tracks.dropped_one a name w1 (nothing_reported reported (r.1) _ h)

module _ {W A P H Tp Other : Type 0} (sql : Sql W A) (pgx : PgxPool W P H Tp Other)
    (has : List ℕ → W → Bool) (tracks : TracksDatabases sql pgx has) where
  -- Once rand.Read and sql.Open have given a name and a connection and the statement that creates the
  -- database has succeeded, the database exists at the end of NewTestDB, also where a later step ends the
  -- test; and it is gone after a run of the cleanup, in whatever world, that reports nothing.
  pub new_test_db-clean_up :
      (dsn random : List ℕ) (opts : List (Db P H Tp → Db P H Tp)) (a : A) (w w1 w2 w3 : W)
      (db : Db P H Tp)
      → sql.random w ≡ (w1, inl random)
      → sql.open_db dsn w1 ≡ (w2, inl a)
      → (sql.exec a (create_text (codes "test_" ++ hex random)) w2).1 ≡ none
      → (clean_up sql pgx dsn (codes "test_" ++ hex random) db w3).2 ≡ []
      → (has (codes "test_" ++ hex random) (new_test_db sql pgx dsn opts w).0 ≡ true)
        × (has
              (codes "test_" ++ hex random)
              (clean_up sql pgx dsn (codes "test_" ++ hex random) db w3).1
            ≡ false)
  unfolding new_test_db clean_up
  new_test_db-clean_up dsn random opts a w w1 w2 w3 db drawn open_ok ok quiet =
      let name = codes "test_" ++ hex random in
      (
        rw (drawn, open_ok)
            (executed-has sql pgx has tracks name dsn opts a (sql.exec a (create_text name) w2) ok
              (tracks.made_one a name w2 ok)),
        cleaning-has sql pgx has tracks name _ _ quiet,
      )
