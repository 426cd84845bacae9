-- ===== src/Postgres/Db.antt =====
-- pkg/postgres/postgres.go: the options and the lifecycle of DB. pgxpool is a parameter: `P` is the
-- type of its pools. `H` is the type of query hooks and `Tp` that of tracer providers. The mutex makes
-- each method one step, with Ping's ping outside of it. The logger is left out.
use goplatform.Prelude.{
  ℕ, ℤ, pos, String, Bool, Option, none, some, List, [], ◌∷◌, ◌++◌, ◌⊎◌, inl, inr, ltb_ℤ,
  if◌then◌else◌, length, not, is_none,
}
use goplatform.Errors.{Error, nil, cons, errorf, wrap, failure}
use goplatform.Postgres.{err_conn_failed}

pub record Db (P H Tp : Type 0) : Type 0 where
  pub dsn : List ℕ
  pub max_conns : ℤ  -- int32
  pub min_conns : ℤ  -- int32
  pub conn_timeout : ℤ
  pub tp : Option Tp
  pub hooks : List H
  pub pool : Option P

-- What Start sets of a `pgxpool.Config`; the rest of it is `Other`.
pub record PoolConfig (H Tp Other : Type 0) : Type 0 where
  pub max_conns : ℤ
  pub min_conns : ℤ
  pub connect_timeout : ℤ
  pub tracer : Option (List H × Option Tp)
  pub other : Other

pub record PgxPool (W P H Tp Other : Type 0) : Type 0 where
  pub parse_config : List ℕ → PoolConfig H Tp Other ⊎ Error
  pub new_with_config : PoolConfig H Tp Other → W → W × (P ⊎ Error)
  pub ping : P → W → W × Option Error
  pub close : P → W → W

-- `dbConfig`
pub record DbConfig : Type 0 where
  pub dsn : List ℕ
  pub max_conns : ℤ
  pub min_conns : ℤ
  pub conn_timeout : ℤ
  pub hooks_len : ℕ
  pub has_tp : Bool

module _ {P H Tp : Type 0} where
  unfoldable pub with_dsn : List ℕ → Db P H Tp → Db P H Tp
  with_dsn dsn db = record db { dsn = dsn }

  unfoldable pub with_max_conns : ℤ → Db P H Tp → Db P H Tp
  with_max_conns n db = record db { max_conns = n }

  unfoldable pub with_min_conns : ℤ → Db P H Tp → Db P H Tp
  with_min_conns n db = record db { min_conns = n }

  unfoldable pub with_conn_timeout : ℤ → Db P H Tp → Db P H Tp
  with_conn_timeout d db = record db { conn_timeout = d }

  unfoldable pub with_tracer_provider : Tp → Db P H Tp → Db P H Tp
  with_tracer_provider tp db = record db { tp = some tp }

  unfoldable pub with_query_hook : List H → Db P H Tp → Db P H Tp
  with_query_hook hooks db = record db { hooks = db.hooks ++ hooks }

  unfoldable pub apply_db_options : Db P H Tp → List (Db P H Tp → Db P H Tp) → Db P H Tp
  apply_db_options db [] = db
  apply_db_options db (opt ∷ opts) = apply_db_options (opt db) opts

  unfoldable pub new : List (Db P H Tp → Db P H Tp) → Db P H Tp
  unfolding apply_db_options
  new opts =
      apply_db_options
        (record {
          dsn = [];
          max_conns = pos 0;
          min_conns = pos 0;
          conn_timeout = pos 0;
          tp = none;
          hooks = [];
          pool = none;
        })
        opts

  unfoldable pub config : Db P H Tp → DbConfig
  config db = record {
    dsn = db.dsn;
    max_conns = db.max_conns;
    min_conns = db.min_conns;
    conn_timeout = db.conn_timeout;
    hooks_len = length db.hooks;
    has_tp = not (is_none db.tp);
  }

-- A value that is not positive leaves the parsed one.
abbrev pub override : ℤ → ℤ → ℤ
override given parsed = if ltb_ℤ (pos 0) given then given else parsed

abbrev pub attach :
    {H Tp : Type 0} → List H → Option Tp → Option (List H × Option Tp) → Option (List H × Option Tp)
attach [] none before = before
attach [] (some tp) before = some ([], some tp)
attach (h ∷ hs) tp before = some (h ∷ hs, tp)

abbrev pub ping_error : Option Error → Option Error
ping_error none = none
ping_error (some e) = some (wrap "postgres: ping failed: %w" [] err_conn_failed)

abbrev pub conn_failed : String → Error → Error
conn_failed format e = wrap format [] (errorf "%w: %w" [] (cons err_conn_failed (cons e nil)) nil)

module _ {W P H Tp Other : Type 0} (pgx : PgxPool W P H Tp Other) where
  unfoldable pub apply_config : Db P H Tp → PoolConfig H Tp Other → PoolConfig H Tp Other
  apply_config db cfg = record cfg {
    max_conns = override db.max_conns cfg.max_conns;
    min_conns = override db.min_conns cfg.min_conns;
    connect_timeout = override db.conn_timeout cfg.connect_timeout;
    tracer = attach db.hooks db.tp cfg.tracer;
  }

  -- After the first ping of `pool`.
  abbrev pub pinged : Db P H Tp → P → W × Option Error → Db P H Tp × W × Option Error
  pinged db pool (w, none) = (record db { pool = some pool }, w, none)
  pinged db pool (w, some e) = (db, pgx.close pool w, some (conn_failed "postgres: ping: %w" e))

  -- After pgxpool.NewWithConfig.
  abbrev pub created : Db P H Tp → W × (P ⊎ Error) → Db P H Tp × W × Option Error
  created db (w, inr e) = (db, w, some (conn_failed "postgres: create pool: %w" e))
  created db (w, inl pool) = pinged db pool (pgx.ping pool w)

  -- After pgxpool.ParseConfig.
  abbrev pub parsed : Db P H Tp → PoolConfig H Tp Other ⊎ Error → W → Db P H Tp × W × Option Error
  parsed db (inr e) w = (db, w, some (conn_failed "postgres: parse DSN: %w" e))
  parsed db (inl cfg) w = created db (pgx.new_with_config (apply_config db cfg) w)

  abbrev pub start_from : Db P H Tp → Option P → W → Db P H Tp × W × Option Error
  start_from db (some pool) w = (db, w, some (failure "postgres: already started" []))
  start_from db none w = parsed db (pgx.parse_config db.dsn) w

  unfoldable pub start : Db P H Tp → W → Db P H Tp × W × Option Error
  unfolding apply_config err_conn_failed
  start db w = start_from db db.pool w

  abbrev pub stop_from : Db P H Tp → Option P → W → Db P H Tp × W × Option Error
  stop_from db none w = (db, w, none)
  stop_from db (some pool) w = (record db { pool = none }, pgx.close pool w, none)

  unfoldable pub stop : Db P H Tp → W → Db P H Tp × W × Option Error
  stop db w = stop_from db db.pool w

  abbrev pub ping_from : Option P → W → W × Option Error
  ping_from none w = (w, some (wrap "postgres: not connected: %w" [] err_conn_failed))
  ping_from (some pool) w = let (w', err) = pgx.ping pool w in (w', ping_error err)

  unfoldable pub ping : Db P H Tp → W → W × Option Error
  ping db w = ping_from db.pool w

  unfoldable pub health_check : Db P H Tp → W → W × Option Error
  unfolding ping
  health_check db w = ping db w
