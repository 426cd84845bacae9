-- ===== src/Postgres/Tests.antt =====
-- Transactions over a pool that notes what is done to it.
use goplatform.Prelude.{
  ℕ, suc, ◌*◌, ◌-◌, pos, ◌≡◌, refl, sym, subst, Bool, false, ◌⊎◌, true, none, some, List, [], ◌∷◌,
  inl, ◌==◌, if◌then◌else◌, arith,
}
use goplatform.Prelude.Living.Numbered.{
  Numbered, same_number, numbered_live, make_one, release_one, same_number-Identity, make_one-live,
  make_one-new, release_one-live,
}
use goplatform.Errors.{Error, sentinel}
use goplatform.App as App
use goplatform.App.{App}
use goplatform.App.Run.{run}
use goplatform.App.Run.Releases.{IsQuiet, IsQuietComponent, here, there, quiet, no_more}
use goplatform.App.Run.Releases.Whole.{AcquiresOnce, run-releases}
use goplatform.Postgres.Component.{db_component, NoPool, OwnPool, db_component-Acquires}
use goplatform.Errors.{is}
use goplatform.Postgres.Db.{Db, PgxPool, new, apply_db_options, with_max_conns, with_query_hook}
use goplatform.Postgres.Connections.{
  TracksPools, Held, Call, call_start, call_stop, call_ping, steps, steps_balance,
}
use goplatform.Postgres.Migrate.{
  migrate_dsn, MigrateOps, CountsMigrators, migrate, migrate_error, new_migrate,
}
use goplatform.Postgres.Tracer.{
  hook_data, trace_query_start, trace_query_end, call_hooks, Otel, QueryTracer, Context,
  QueryStartData,
}
use goplatform.Postgres.{
  Pool, Outcome, returned, Transaction, with_tx, conclude, tx_options, outcome_of, with_read_only,
  with_tx_settles,
}

abbrev broken_rollback : Pool (List ℕ) ℕ ℕ
broken_rollback = record {
  begin_tx = λ o w. (1 ∷ w, inl 7);
  commit = λ tx w. (2 ∷ w, none);
  rollback = λ tx w. (3 ∷ w, some (sentinel "gone"));
}

abbrev failing : ℕ → List ℕ → List ℕ × Outcome ℕ
failing tx w = (tx ∷ w, returned (some (sentinel "full")))

with_tx_settles_example :
    let begun = broken_rollback.begin_tx (tx_options (with_read_only ∷ [])) [] in
    let r = with_tx (some broken_rollback) failing (with_read_only ∷ []) [] in
    Transaction (outcome_of failing begun.1 begun.0) r.1 r.2
with_tx_settles_example = with_tx_settles broken_rollback failing (with_read_only ∷ []) []

failing_world : (with_tx (some broken_rollback) failing [] []).0 ≡ 3 ∷ 7 ∷ 1 ∷ []
unfolding with_tx conclude
failing_world = refl

-- A database that answers from the second ping on. The world has the number of pings, and the pools.
abbrev Pools : Type 0
Pools = ℕ × Numbered

abbrev flaky : PgxPool Pools ℕ ℕ ℕ Unit
flaky = record {
  parse_config = λ dsn. inl (record {
    max_conns = pos 4;
    min_conns = pos 0;
    connect_timeout = pos 0;
    tracer = none;
    other = _;
  });
  new_with_config = λ cfg w. ((w.0, make_one w.1), inl w.1.0);
  ping = λ pool w. ((suc w.0, w.1), if w.0 == 0 then some (sentinel "refused") else none);
  close = λ pool w. (w.0, release_one pool w.1);
}

abbrev opened : Pools → ℕ → Bool
opened w = numbered_live w.1

same_pool : (a b : ℕ) (r : ℕ ⊎ Error) → r ≡ inl a → r ≡ inl b → a ≡ b
same_pool a b r e e' = cc

flaky-TracksPools : TracksPools flaky same_number opened
flaky-TracksPools = record {
  identity = same_number-Identity;
  made = λ cfg w pool h. rw (sym (same_pool w.1.0 pool (inl w.1.0) refl h)) (make_one-live w.1);
  made_new = λ cfg w pool h. rw (sym (same_pool w.1.0 pool (inl w.1.0) refl h)) (make_one-new w.1);
  not_made = λ cfg w e h. cc;
  ping_keeps = λ pool w. refl;
  closed = λ pool w. release_one-live pool w.1;
}

abbrev db : Db ℕ ℕ ℕ
db = new (with_max_conns (pos 20) ∷ with_query_hook (1 ∷ 2 ∷ []) ∷ [])

db-pool : db.pool ≡ none
unfolding new apply_db_options with_max_conns with_query_hook
db-pool = refl

abbrev calls : List Call
calls = call_start ∷ call_ping ∷ call_start ∷ call_stop ∷ call_start ∷ []

-- Three pools of others are open.
abbrev others : Pools
others = (0, (3, λ p. false))

steps_balance_example :
    let s = steps flaky calls (db, others) in
    Held flaky same_number opened flaky-TracksPools (opened others) s.0.pool s.1
steps_balance_example =
    steps_balance flaky same_number opened flaky-TracksPools (opened others) calls db others (
      subst (λ o. Held flaky same_number opened flaky-TracksPools (opened others) o others)
        (sym db-pool) (refl, _))

abbrev rest_of_dsn : List ℕ
rest_of_dsn = 100 ∷ 98 ∷ []

-- The world is the number of open migrators.
abbrev up_to_date : MigrateOps ℕ ℕ ℕ ℕ
up_to_date = record {
  ctx_err = λ w. none;
  new_source = λ source w. (w, inl source);
  new_migrator = λ d dsn w. (suc w, inl d);
  up = λ m w. (w, some (sentinel "no change"));
  down = λ m w. (w, some (sentinel "locked"));
  close = λ m w. w - 1;
}

up_to_date-CountsMigrators : CountsMigrators up_to_date (λ w. w)
up_to_date-CountsMigrators = record {
  source_keeps = λ source w. refl;
  created = λ d dsn w m h. refl;
  not_created = λ d dsn w e h. ground arith;
  up_keeps = λ m w. refl;
  down_keeps = λ m w. refl;
  closed = λ m w n h. omega arith;
}

up_to_date_error : (migrate up_to_date rest_of_dsn 5 2).1 ≡ none
unfolding migrate new_migrate migrate_dsn migrate_error is
up_to_date_error = refl

-- The world is the clock; a hook sets it.
abbrev clock : Otel ℕ ℕ ℕ
clock = record {
  start_span = λ tp sql w. (w, tp);
  is_recording = λ span w. true;
  record_error = λ span e w. suc w;
  set_status = λ span err w. w;
  end_span = λ span w. w;
  now = λ w. w;
}

abbrev tracer : QueryTracer ℕ ℕ ℕ
tracer = record { hooks = (λ d w. suc w) ∷ (λ d w. w * 2) ∷ []; tp = some 9 }

abbrev left_over : Context ℕ ℕ
left_over = record { start_time = some 1; query_data = none; span = none }

abbrev select : QueryStartData ℕ
select = record { sql = "select 1"; args = 1 ∷ [] }

-- The hooks, in their order, after the clock has gone from 10 to 25.
tracer_run :
    trace_query_end clock tracer (trace_query_start clock tracer left_over select 10).1 none 25 ≡ 52
unfolding trace_query_start trace_query_end hook_data call_hooks
tracer_run = refl

-- An App with the DB, after a cache, and a server that does not start; the world has the DB.
abbrev DbWorld : Type 0
DbWorld = Db ℕ ℕ ℕ × Pools

abbrev answering : Error → App.Component DbWorld
answering e = record {
  declared = none;
  start = λ ctx s. (s, some e);
  stop = λ ctx s. (s, none);
  health = none;
}

abbrev silent : App.Component DbWorld
silent = record {
  declared = none;
  start = λ ctx s. (s, none);
  stop = λ ctx s. (s, none);
  health = none;
}

abbrev shop : App DbWorld
shop = record {
  components =
      record { name = "cache"; component = silent }
      ∷ record { name = "db"; component = db_component flaky }
      ∷ record { name = "http"; component = answering (sentinel "address in use") }
      ∷ [];
  plugins = [];
  before_start = [];
  after_start = [];
  before_stop = [];
  after_stop = [];
  shutdown_timeout = pos 1;
}

module _ (free held : DbWorld → Type 0) where
  id-IsQuiet : IsQuiet free held (λ s. s)
  id-IsQuiet = record { keeps_free = λ s h. h; keeps_held = λ s h. h }

  silent-IsQuietComponent : IsQuietComponent free held silent
  silent-IsQuietComponent = record {
    start_quiet = λ ctx. id-IsQuiet;
    stop_quiet = λ ctx. id-IsQuiet;
  }

  answering-IsQuietComponent : (e : Error) → IsQuietComponent free held (answering e)
  answering-IsQuietComponent e = record {
    start_quiet = λ ctx. id-IsQuiet;
    stop_quiet = λ ctx. id-IsQuiet;
  }

abbrev none_open : Pools
none_open = (1, (0, λ p. false))

abbrev ShopUnconnected : DbWorld → Type 0
ShopUnconnected = NoPool flaky same_number opened flaky-TracksPools (opened none_open)

abbrev ShopConnected : DbWorld → Type 0
ShopConnected = OwnPool flaky same_number opened flaky-TracksPools (opened none_open)

shop-AcquiresOnce : AcquiresOnce ShopUnconnected ShopConnected shop
shop-AcquiresOnce = record {
  components_once = there (silent-IsQuietComponent ShopUnconnected ShopConnected) (
      here (db_component-Acquires flaky same_number opened flaky-TracksPools (opened none_open)) (
        quiet (answering-IsQuietComponent ShopUnconnected ShopConnected (sentinel "address in use"))
          no_more));
  before_start_quiet = tt;
  after_start_quiet = tt;
  before_stop_quiet = tt;
  after_stop_quiet = tt;
}

run-releases_example : ShopUnconnected (run shop (λ s. s) (db, none_open)).world
run-releases_example =
    run-releases ShopUnconnected ShopConnected shop (λ s. s) (db, none_open) shop-AcquiresOnce tt
      (id-IsQuiet ShopUnconnected ShopConnected) (db-pool, refl)
