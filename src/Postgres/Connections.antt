-- ===== src/Postgres/Connections.antt =====
-- What Start and Stop of the DB do with connection pools.
use goplatform.Prelude.{
  String, Bool, ◌≡◌, refl, sym, subst, ap, ◌∙◌, true, false, Option, none, some, List, [], ◌∷◌, ◌⊎◌,
  inl, inr,
}
use goplatform.Prelude.Living.{Identity, with_one, without, listed, Holds, without_all-with_all}
use goplatform.Errors.{Error, is}
use goplatform.Postgres.{err_conn_failed}
use goplatform.Postgres.Db.{
  Db, PoolConfig, PgxPool, conn_failed, apply_config, pinged, created, parsed, start, start_from,
  stop, stop_from, ping, ping_from,
}

abbrev pub conn_failed_text : String
conn_failed_text = "postgres: connection failed"

-- What a Start comes to: a pool that has answered a ping, or no change and an error that is
-- ErrConnFailed.
pub data Connected {P H Tp : Type 0} (db db' : Db P H Tp) (err : Option Error) : Type 0 where
  connected : (pool : P) → db' ≡ record db { pool = some pool } → err ≡ none → Connected db db' err
  refused :
      (e : Error) → db' ≡ db → err ≡ some e → is conn_failed_text e ≡ true → Connected db db' err

-- The pools that are open. `same` compares pointers: pgxpool gives a new pool, and closing a pool closes
-- that one, also where it was closed before.
pub record TracksPools {W P H Tp Other : Type 0} (pgx : PgxPool W P H Tp Other)
    (same : P → P → Bool) (opened : W → P → Bool) : Type 0 where
  pub identity : Identity same
  pub made :
      (cfg : PoolConfig H Tp Other) (w : W) (pool : P)
      → (pgx.new_with_config cfg w).1 ≡ inl pool
      → opened (pgx.new_with_config cfg w).0 ≡ with_one same pool (opened w)
  pub made_new :
      (cfg : PoolConfig H Tp Other) (w : W) (pool : P)
      → (pgx.new_with_config cfg w).1 ≡ inl pool
      → opened w pool ≡ false
  pub not_made :
      (cfg : PoolConfig H Tp Other) (w : W) (e : Error)
      → (pgx.new_with_config cfg w).1 ≡ inr e
      → opened (pgx.new_with_config cfg w).0 ≡ opened w
  pub ping_keeps : (pool : P) (w : W) → opened (pgx.ping pool w).0 ≡ opened w
  pub closed : (pool : P) (w : W) → opened (pgx.close pool w) ≡ without same pool (opened w)

is-conn_failed : (format : String) (e : Error) → is conn_failed_text (conn_failed format e) ≡ true
unfolding is err_conn_failed
is-conn_failed format e = refl

module _ {W P H Tp Other : Type 0} (pgx : PgxPool W P H Tp Other) where
  pinged-Connected :
      (db : Db P H Tp) (pool : P) (r : W × Option Error)
      → let s = pinged pgx db pool r in Connected db s.0 s.2
  pinged-Connected db pool (w, none) = connected pool refl refl
  pinged-Connected db pool (w, some e) = refused _ refl refl (is-conn_failed _ e)

  created-Connected :
      (db : Db P H Tp) (r : W × (P ⊎ Error)) → let s = created pgx db r in Connected db s.0 s.2
  created-Connected db (w, inl pool) = pinged-Connected db pool (pgx.ping pool w)
  created-Connected db (w, inr e) = refused _ refl refl (is-conn_failed _ e)

  parsed-Connected :
      (db : Db P H Tp) (r : PoolConfig H Tp Other ⊎ Error) (w : W)
      → let s = parsed pgx db r w in Connected db s.0 s.2
  parsed-Connected db (inl cfg) w =
      created-Connected db (pgx.new_with_config (apply_config pgx db cfg) w)
  parsed-Connected db (inr e) w = refused _ refl refl (is-conn_failed _ e)

  -- Start on a DB that has no pool gives it one and returns nil, or leaves it as it was and
  -- returns an error in which errors.Is finds ErrConnFailed.
  pub start-Connected :
      (db : Db P H Tp) (w : W) → db.pool ≡ none → let s = start pgx db w in Connected db s.0 s.2
  unfolding start
  start-Connected db w h =
      subst (λ o. let s = start_from pgx db o w in Connected db s.0 s.2) (sym h)
        (parsed-Connected db (pgx.parse_config db.dsn) w)

-- A call of the DB, with its effect on it and the world.
pub data Call : Type 0 where
  call_start : Call
  call_stop : Call
  call_ping : Call

module _ {W P H Tp Other : Type 0} (pgx : PgxPool W P H Tp Other) where
  unfoldable pub step : Call → Db P H Tp × W → Db P H Tp × W
  step call_start (db, w) = let s = start pgx db w in (s.0, s.1)
  step call_stop (db, w) = let s = stop pgx db w in (s.0, s.1)
  step call_ping (db, w) = (db, (ping pgx db w).0)

  unfoldable pub steps : List Call → Db P H Tp × W → Db P H Tp × W
  unfolding step
  steps [] s = s
  steps (c ∷ cs) s = steps cs (step c s)

module _ {W P H Tp Other : Type 0} (pgx : PgxPool W P H Tp Other) (same : P → P → Bool)
    (opened : W → P → Bool) (tracks : TracksPools pgx same opened) (before : P → Bool) where
  -- The pools that are open are those that were open before, and the one that is held.
  abbrev pub Held : Option P → W → Type 0
  Held o w = Holds same (listed o) before (opened w)

  close_Held : (pool : P) (w : W) → Held (some pool) w → Held none (pgx.close pool w)
  close_Held pool w (h, fresh) = (
    tracks.closed pool w
        ∙ (ap (without same pool) h
            ∙ without_all-with_all same tracks.identity (pool ∷ []) before fresh),
    _,
  )

  pinged_balance :
      (db : Db P H Tp) (pool : P) (r : W × Option Error)
      → db.pool ≡ none
      → Held (some pool) r.0
      → let s = pinged pgx db pool r in Held s.0.pool s.1
  pinged_balance db pool (w, none) free h = h
  pinged_balance db pool (w, some e) free h =
      subst (λ o. Held o (pgx.close pool w)) (sym free) (close_Held pool w h)

  start_balance :
      (db : Db P H Tp) (w : W)
      → db.pool ≡ none
      → opened w ≡ before
      → let s = parsed pgx db (pgx.parse_config db.dsn) w in Held s.0.pool s.1
  start_balance db w free h = go (pgx.parse_config db.dsn)
    where
      made :
          (cfg : PoolConfig H Tp Other) (r : P ⊎ Error)
          → (pgx.new_with_config cfg w).1 ≡ r
          → let s = created pgx db ((pgx.new_with_config cfg w).0, r) in Held s.0.pool s.1
      made cfg (inl pool) e = pinged_balance db pool _ free (
        tracks.ping_keeps pool _ ∙ (tracks.made cfg w pool e ∙ ap (with_one same pool) h),
        (ap (λ (f : P → Bool). f pool) (sym h) ∙ tracks.made_new cfg w pool e, _),
      )
      made cfg (inr err) e =
          subst (λ o. Held o (pgx.new_with_config cfg w).0) (sym free)
            (tracks.not_made cfg w err e ∙ h, _)

      go : (r : PoolConfig H Tp Other ⊎ Error) → let s = parsed pgx db r w in Held s.0.pool s.1
      go (inl cfg) = made (apply_config pgx db cfg) _ refl
      go (inr e) = subst (λ o. Held o w) (sym free) (h, _)

  pub step_balance :
      (c : Call) (db : Db P H Tp) (w : W)
      → Held db.pool w
      → let s = step pgx c (db, w) in Held s.0.pool s.1
  unfolding step start stop ping
  step_balance call_start db w h = go db.pool refl h
    where
      go :
          (o : Option P)
          → db.pool ≡ o
          → Held o w
          → let s = start_from pgx db o w in Held s.0.pool s.1
      go none e h = start_balance db w e h.0
      go (some pool) e h = subst (λ o. Held o w) (sym e) h
  step_balance call_stop db w h = go db.pool refl h
    where
      go :
          (o : Option P)
          → db.pool ≡ o
          → Held o w
          → let s = stop_from pgx db o w in Held s.0.pool s.1
      go none e h = subst (λ o. Held o w) (sym e) h
      go (some pool) e h = close_Held pool w h
  step_balance call_ping db w (h, fresh) = (go db.pool ∙ h, fresh)
    where
      go : (o : Option P) → opened (ping_from pgx o w).0 ≡ opened w
      go none = refl
      go (some pool) = tracks.ping_keeps pool w

  -- After any sequence of Start, Stop and Ping, failed ones included, the pools that are open are
  -- those that were open without the DB, and the DB's own if it has one: none is left behind.
  pub steps_balance :
      (cs : List Call) (db : Db P H Tp) (w : W)
      → Held db.pool w
      → let s = steps pgx cs (db, w) in Held s.0.pool s.1
  unfolding steps
  steps_balance [] db w h = h
  steps_balance (c ∷ cs) db w h =
      let s = step pgx c (db, w) in steps_balance cs s.0 s.1 (step_balance c db w h)
