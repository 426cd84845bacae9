-- ===== src/Postgres/Component.antt =====
-- The DB as a component of an App: the world of the App has the DB and all that is outside of it.
use goplatform.Prelude.{Bool, ◌≡◌, refl, sym, subst, ap, ◌∙◌, Option, none, some}
use goplatform.Errors.{Error}
use goplatform.App as App
use goplatform.App.{Ctx, App}
use goplatform.App.Run.Releases.{Acquires}
use goplatform.Postgres.Db.{Db, PgxPool, start, stop, stop_from, health_check}
use goplatform.Postgres.Connections.{
  Connected, connected, refused, TracksPools, Held, start-Connected, call_start, call_stop, step,
  step_balance,
}

module _ {W P H Tp Other : Type 0} (pgx : PgxPool W P H Tp Other) where
  unfoldable pub db_component : App.Component (Db P H Tp × W)
  unfolding start stop health_check
  db_component = record {
    declared = none;
    start = λ ctx (s : Db P H Tp × W). let (db, w, err) = start pgx s.0 s.1 in ((db, w), err);
    stop = λ ctx (s : Db P H Tp × W). let (db, w, err) = stop pgx s.0 s.1 in ((db, w), err);
    health =
        some
          (λ ctx (s : Db P H Tp × W). let (w, err) = health_check pgx s.0 s.1 in ((s.0, w), err));
  }

module _ {W P H Tp Other : Type 0} (pgx : PgxPool W P H Tp Other) (same : P → P → Bool)
    (opened : W → P → Bool) (tracks : TracksPools pgx same opened) (before : P → Bool) where
  -- The DB has no pool, and the pools are open that were open before; or it has one, which was not.
  abbrev pub NoPool : Db P H Tp × W → Type 0
  NoPool (db, w) = (db.pool ≡ none) × (opened w ≡ before)

  abbrev pub OwnPool : Db P H Tp × W → Type 0
  OwnPool (db, w) =
      (pool : P) × (db.pool ≡ some pool) × Held pgx same opened tracks before (some pool) w

  abbrev Now : Option P → W → Type 0
  Now = Held pgx same opened tracks before

  stop_from-pool :
      (db : Db P H Tp) (o : Option P) (w : W) → db.pool ≡ o → (stop_from pgx db o w).0.pool ≡ none
  stop_from-pool db none w e = e
  stop_from-pool db (some pool) w e = refl

  start_balance :
      (db : Db P H Tp) (w : W) → NoPool (db, w) → let s = start pgx db w in Now s.0.pool s.1
  unfolding step
  start_balance db w (free, h) =
      step_balance pgx same opened tracks before call_start db w
        (subst (λ o. Now o w) (sym free) (h, _))

  start-OwnPool :
      (db : Db P H Tp) (w : W)
      → NoPool (db, w)
      → let s = start pgx db w in s.2 ≡ none → OwnPool (s.0, s.1)
  start-OwnPool db w h fine = go (start-Connected pgx db w h.0)
    where
      go : let s = start pgx db w in Connected db s.0 s.2 → OwnPool (s.0, s.1)
      go (connected pool e nil) =
          let e' = ap (λ (d : Db P H Tp). d.pool) e in
          (pool, e', subst (λ o. Now o (start pgx db w).1) e' (start_balance db w h))
      go (refused err e failed conn) = cc

  start-NoPool :
      (db : Db P H Tp) (w : W) (err : Error)
      → NoPool (db, w)
      → let s = start pgx db w in s.2 ≡ some err → NoPool (s.0, s.1)
  start-NoPool db w err h failed = go (start-Connected pgx db w h.0)
    where
      go : let s = start pgx db w in Connected db s.0 s.2 → NoPool (s.0, s.1)
      go (connected pool e nil) = cc
      go (refused x e failed_then conn) =
          let e' = ap (λ (d : Db P H Tp). d.pool) e ∙ h.0 in
          (e', (subst (λ o. Now o (start pgx db w).1) e' (start_balance db w h)).0)

  stop-NoPool :
      (db : Db P H Tp) (w : W) → OwnPool (db, w) → let s = stop pgx db w in NoPool (s.0, s.1)
  unfolding stop step
  stop-NoPool db w (pool, e, h) =
      let e' = stop_from-pool db db.pool w refl in
      let after =
        step_balance pgx same opened tracks before call_stop db w
          (subst (λ o. Now o w) (sym e) h) in
      (e', (subst (λ o. Now o (stop pgx db w).1) e' after).0)

  -- A Start that returns nil gives the DB a pool of its own, one that returns an error leaves no pool, and
  -- a Stop closes it.
  pub db_component-Acquires : Acquires NoPool OwnPool (db_component pgx)
  unfolding db_component
  db_component-Acquires = record {
    acquired = λ ctx (s : Db P H Tp × W) fine h. start-OwnPool s.0 s.1 h fine;
    not_acquired = λ ctx (s : Db P H Tp × W) e failed h. start-NoPool s.0 s.1 e h failed;
    released = λ ctx (s : Db P H Tp × W) h. stop-NoPool s.0 s.1 h;
  }
