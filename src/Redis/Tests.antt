-- ===== src/Redis/Tests.antt =====
-- A Redis server in memory. The world is what it holds, and a JSON document
-- is the value that it encodes.
use goplatform.Prelude.{pos, String, refl, Option, none, some, [], ◌⊎◌, inl, inr, eq_refl}
use goplatform.Prelude.Dict.{Dict, lookup, insert, lookup-insert}
use goplatform.Errors.{Error, sentinel}
use goplatform.Server.Idempotency.{Stored, LawfulStore}
use goplatform.Redis.{Client, Redis, Json, redis_nil}
use goplatform.Redis.Idempotency.{store_of, Reached, store_of-LawfulStore}

abbrev World : Type 0
World = Dict Stored

abbrev reply_nx : Option Stored → String → Stored → World → World × Option Error
reply_nx none key v w = (insert key v w, none)
reply_nx (some u) key v w = (w, some (sentinel redis_nil))

abbrev reply_get : Option Stored → Stored ⊎ Error
reply_get none = inr (sentinel redis_nil)
reply_get (some u) = inl u

abbrev server : Redis World (Unit {0}) Stored
server = record {
  new_client = λ addr password db. tt;
  ping = λ rdb w. (w, none);
  close = λ rdb w. (w, none);
  set = λ rdb key v ttl w. (insert key v w, none);
  set_nx = λ rdb key v ttl w. reply_nx (lookup key w) key v w;
  get = λ rdb key w. (w, reply_get (lookup key w));
  del = λ rdb keys w. ([], none);
}

abbrev json : Json Stored Stored
json = record { marshal = λ v. inl v; unmarshal = λ v. inl v }

abbrev client : Client (Unit {0})
client = record { addr = "localhost:6379"; password = ""; db = pos 0; rdb = some tt }

server-Reached : Reached server tt (λ v. v) lookup
server-Reached = record {
  set_nx_new = λ key v ttl w new. rw new refl;
  set_nx_there = λ key v u ttl w there. rw there (refl, there);
  get_held = λ key u w there. rw there refl;
  set_held = λ key v ttl w. (refl, rw lookup-insert (rw eq_refl refl));
}

store_of-LawfulStore_example : LawfulStore (store_of server json client) lookup
store_of-LawfulStore_example =
    store_of-LawfulStore server json client tt (λ v. v) lookup refl (λ v. refl) (λ v. refl)
      server-Reached
