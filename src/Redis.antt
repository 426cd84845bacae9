-- ===== src/Redis.antt =====
-- pkg/redis/redis.go: the client. go-redis and encoding/json are parameters; `V` is the type of the
-- values that are stored, `D` that of JSON documents. The lock only guards the read of `rdb`.
mod Tests
pub mod Idempotency
use goplatform.Prelude.{
  ℤ, pos, String, Bool, true, false, Option, none, some, List, [], ◌∷◌, ◌⊎◌, inl, inr,
  if◌then◌else◌,
}
use goplatform.Errors.{Error, sentinel, text, wrap, failure, is}

unfoldable pub err_key_not_found : Error
err_key_not_found = sentinel "redis: key not found"

-- `goredis.Nil`
abbrev pub redis_nil : String
redis_nil = "redis: nil"

pub record Client (Rdb : Type 0) : Type 0 where
  pub addr : String
  pub password : String
  pub db : ℤ
  pub rdb : Option Rdb

abbrev pub ClientOption : Type 0 → Type 0
ClientOption Rdb = Client Rdb → Client Rdb

-- The calls of go-redis. `set_nx` is `SetArgs` with mode NX.
pub record Redis (W Rdb D : Type 0) : Type 0 where
  pub new_client : String → String → ℤ → Rdb
  pub ping : Rdb → W → W × Option Error
  pub close : Rdb → W → W × Option Error
  pub set : Rdb → String → D → ℤ → W → W × Option Error
  pub set_nx : Rdb → String → D → ℤ → W → W × Option Error
  pub get : Rdb → String → W → W × (D ⊎ Error)
  pub del : Rdb → List String → W → W × Option Error

-- json.Marshal and json.Unmarshal at the values' type.
pub record Json (V D : Type 0) : Type 0 where
  pub marshal : V → D ⊎ Error
  pub unmarshal : D → V ⊎ Error

module _ {Rdb : Type 0} where
  unfoldable pub with_addr : String → ClientOption Rdb
  with_addr addr c = record c { addr = addr }

  unfoldable pub with_password : String → ClientOption Rdb
  with_password password c = record c { password = password }

  unfoldable pub with_db : ℤ → ClientOption Rdb
  with_db db c = record c { db = db }

  apply_options : Client Rdb → List (ClientOption Rdb) → Client Rdb
  apply_options c [] = c
  apply_options c (opt ∷ opts) = apply_options (opt c) opts

  unfoldable pub new : List (ClientOption Rdb) → Client Rdb
  unfolding apply_options
  new opts =
      apply_options (record { addr = "localhost:6379"; password = ""; db = pos 0; rdb = none }) opts

abbrev pub wrapped : String → Option Error → Option Error
wrapped format none = none
wrapped format (some e) = some (wrap format [] e)

abbrev pub not_connected : Error
not_connected = failure "redis: not connected" []

module _ {W Rdb D : Type 0} (r : Redis W Rdb D) where
  abbrev start_from : Client Rdb → Option Rdb → W → Client Rdb × W × Option Error
  start_from c (some rdb) w = (c, w, some (failure "redis: already started" []))
  start_from c none w =
      let rdb = r.new_client c.addr c.password c.db in
      let (w', err) = r.ping rdb w in
      elim err [
        | none ↦ (record c { rdb = some rdb }, w', none)
        | some e ↦ (c, (r.close rdb w').0, some (wrap "redis: ping failed: %w" [] e))
      ]

  unfoldable pub start : Client Rdb → W → Client Rdb × W × Option Error
  start c w = start_from c c.rdb w

  abbrev stop_from : Client Rdb → Option Rdb → W → Client Rdb × W × Option Error
  stop_from c none w = (c, w, none)
  stop_from c (some rdb) w =
      let (w', err) = r.close rdb w in
      (record c { rdb = none }, w', wrapped "redis: close failed: %w" err)

  unfoldable pub stop : Client Rdb → W → Client Rdb × W × Option Error
  stop c w = stop_from c c.rdb w

  abbrev health_check_at : Option Rdb → W → W × Option Error
  health_check_at none w = (w, some not_connected)
  health_check_at (some rdb) w =
      let (w', err) = r.ping rdb w in (w', wrapped "redis: health check failed: %w" err)

  unfoldable pub health_check : Client Rdb → W → W × Option Error
  health_check c w = health_check_at c.rdb w

  abbrev del_at : Option Rdb → List String → W → W × Option Error
  del_at none keys w = (w, some not_connected)
  del_at (some rdb) keys w =
      let (w', err) = r.del rdb keys w in (w', wrapped "redis: del keys: %w" err)

  unfoldable pub del : Client Rdb → List String → W → W × Option Error
  del c keys w = del_at c.rdb keys w

  module _ {V : Type 0} (json : Json V D) where
    abbrev set_reply : String → Option Error → Option Error
    set_reply key none = none
    set_reply key (some e) = some (wrap "redis: set key %q: %w" (text key ∷ []) e)

    abbrev set_data : Rdb → String → D ⊎ Error → ℤ → W → W × Option Error
    set_data rdb key (inr e) ttl w = (w, some (wrap "redis: marshal value: %w" [] e))
    set_data rdb key (inl bytes) ttl w =
        let (w', err) = r.set rdb key bytes ttl w in (w', set_reply key err)

    abbrev set_at : Option Rdb → String → V → ℤ → W → W × Option Error
    set_at none key value ttl w = (w, some not_connected)
    set_at (some rdb) key value ttl w = set_data rdb key (json.marshal value) ttl w

    unfoldable pub set : Client Rdb → String → V → ℤ → W → W × Option Error
    set c key value ttl w = set_at c.rdb key value ttl w

    abbrev decoded : String → V ⊎ Error → V ⊎ Error
    decoded key (inl v) = inl v
    decoded key (inr e) = inr (wrap "redis: unmarshal key %q: %w" (text key ∷ []) e)

    abbrev got : String → D ⊎ Error → V ⊎ Error
    got key (inl bytes) = decoded key (json.unmarshal bytes)
    got key (inr e) =
        if is redis_nil e
        then inr (wrap "redis: get key %q: %w" (text key ∷ []) err_key_not_found)
        else inr (wrap "redis: get key %q: %w" (text key ∷ []) e)

    abbrev get_at : Option Rdb → String → W → W × (V ⊎ Error)
    get_at none key w = (w, inr not_connected)
    get_at (some rdb) key w = let (w', reply) = r.get rdb key w in (w', got key reply)

    unfoldable pub get : Client Rdb → String → W → W × (V ⊎ Error)
    get c key w = get_at c.rdb key w

    abbrev set_nx_reply : String → Option Error → Bool ⊎ Error
    set_nx_reply key none = inl true
    set_nx_reply key (some e) =
        if is redis_nil e then inl false else inr (wrap "redis: setnx key %q: %w" (text key ∷ []) e)

    abbrev set_nx_data : Rdb → String → D ⊎ Error → ℤ → W → W × (Bool ⊎ Error)
    set_nx_data rdb key (inr e) ttl w = (w, inr (wrap "redis: marshal value: %w" [] e))
    set_nx_data rdb key (inl bytes) ttl w =
        let (w', err) = r.set_nx rdb key bytes ttl w in (w', set_nx_reply key err)

    abbrev set_nx_at : Option Rdb → String → V → ℤ → W → W × (Bool ⊎ Error)
    set_nx_at none key value ttl w = (w, inr not_connected)
    set_nx_at (some rdb) key value ttl w = set_nx_data rdb key (json.marshal value) ttl w

    unfoldable pub set_nx : Client Rdb → String → V → ℤ → W → W × (Bool ⊎ Error)
    set_nx c key value ttl w = set_nx_at c.rdb key value ttl w
