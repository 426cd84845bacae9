-- ===== src/Redis/Idempotency.antt =====
-- The client of pkg/redis/redis.go as the store of pkg/server/idempotency.go.
use goplatform.Prelude.{ℤ, String, ◌≡◌, refl, Option, none, some, inl}
use goplatform.Errors.{sentinel, is}
use goplatform.Redis.{Client, Redis, Json, redis_nil, set, get, set_nx}
use goplatform.Server.Idempotency.{Store, Stored, LawfulStore}

unfoldable pub store_of : {W Rdb D : Type 0} → Redis W Rdb D → Json Stored D → Client Rdb → Store W
store_of r json c = record {
  set_nx = λ key v ttl w. set_nx r json c key v ttl w;
  get = λ key w. get r json c key w;
  set = λ key v ttl w. set r json c key v ttl w;
}

-- A Redis server that is reached and lets nothing expire: `held` is what a key holds, stored as the
-- JSON that `encode` gives.
pub record Reached {W Rdb D : Type 0} (r : Redis W Rdb D) (rdb : Rdb) (encode : Stored → D)
    (held : String → W → Option Stored) : Type 0 where
  pub set_nx_new :
      (key : String) (bytes : D) (ttl : ℤ) (w : W)
      → held key w ≡ none
      → (r.set_nx rdb key bytes ttl w).1 ≡ none
  pub set_nx_there :
      (key : String) (bytes : D) (u : Stored) (ttl : ℤ) (w : W)
      → held key w ≡ some u
      → ((r.set_nx rdb key bytes ttl w).1 ≡ some (sentinel redis_nil))
        × (held key (r.set_nx rdb key bytes ttl w).0 ≡ some u)
  pub get_held :
      (key : String) (u : Stored) (w : W)
      → held key w ≡ some u
      → (r.get rdb key w).1 ≡ inl (encode u)
  pub set_held :
      (key : String) (v : Stored) (ttl : ℤ) (w : W)
      → ((r.set rdb key (encode v) ttl w).1 ≡ none)
        × (held key (r.set rdb key (encode v) ttl w).0 ≡ some v)

-- A connected client of a Redis server that is reached and lets nothing expire is a lawful
-- idempotency store, if the values' JSON decodes to them.
pub store_of-LawfulStore :
    {W Rdb D : Type 0} (r : Redis W Rdb D) (json : Json Stored D) (c : Client Rdb) (rdb : Rdb)
    (encode : Stored → D) (held : String → W → Option Stored)
    → c.rdb ≡ some rdb
    → ((v : Stored) → json.marshal v ≡ inl (encode v))
    → ((v : Stored) → json.unmarshal (encode v) ≡ inl v)
    → Reached r rdb encode held
    → LawfulStore (store_of r json c) held
unfolding store_of set get set_nx is
store_of-LawfulStore r json c rdb encode held connected marshals unmarshals reached = record {
  set_nx_new = λ key v ttl w new.
      let e = reached.set_nx_new key (encode v) ttl w new in rw (connected, marshals, e) refl;
  set_nx_there = λ key v u ttl w there.
      let (e, kept) = reached.set_nx_there key (encode v) u ttl w there in
      (rw (connected, marshals, e) refl, rw (connected, marshals) kept);
  get_value =
      λ key u w there. let e = reached.get_held key u w there in rw (connected, e, unmarshals) refl;
  set_value = λ key v ttl w.
      let (fine, kept) = reached.set_held key v ttl w in rw (connected, marshals) kept;
}
