-- ===== src/Discovery.antt =====
-- pkg/discovery: registry.go and resolver.go. The registry and the clock are parameters; `W` is
-- what they read and change. Each method is one atomic step.
pub mod Pick
pub mod RoundRobin
mod Tests
use goplatform.Prelude.{
  ℕ, ◌+◌, ◌-◌, ◌%◌, ◌^◌, ℤ, pos, String, Bool, true, false, not, ◌||◌, Option, none, some, List, [],
  ◌∷◌, length, get_elem?, ltb_ℤ, sub_ℕ, if◌then◌else◌,
}
use goplatform.Prelude.Dict.{Dict, lookup, insert}
use goplatform.Errors.{Error, text, wrap, failure}

pub record Instance : Type 0 where
  pub id : String
  pub name : String
  pub address : String
  pub port : ℤ
  pub tags : List String
  pub meta : Dict String

-- The two methods of `Registry` that the resolver calls, and `time.Now`. The channel that `Watch`
-- returns is the sequence of `watch_update` steps below.
pub record Registry (W : Type 0) : Type 0 where
  pub discover : String → W → W × List Instance × Option Error
  pub watch : String → W → W × Option Error
  pub now : W → ℕ

pub record ServiceCache : Type 0 where
  pub instances : List Instance
  pub last_update : Option ℕ  -- the zero time is `none`
  pub index : ℕ  -- uint64

pub record Resolver : Type 0 where
  pub ttl : ℤ
  pub services : List String
  pub caches : Dict ServiceCache
  pub running : Bool  -- `cancel` is set and has not been called

unfoldable pub with_ttl : ℤ → Resolver → Resolver
with_ttl d r = record r { ttl = d }

unfoldable pub with_services : List String → Resolver → Resolver
with_services names r = record r { services = names }

apply_options : Resolver → List (Resolver → Resolver) → Resolver
apply_options r [] = r
apply_options r (opt ∷ opts) = apply_options (opt r) opts

unfoldable pub new_resolver : List (Resolver → Resolver) → Resolver
unfolding apply_options
new_resolver opts =
    apply_options (record { ttl = pos 30_000_000_000; services = []; caches = []; running = false })
      opts

abbrev empty_cache : ServiceCache
empty_cache = record { instances = []; last_update = none; index = 0 }

unfoldable pub get_or_create_cache : Resolver → String → Resolver × ServiceCache
get_or_create_cache r service = elim (lookup service r.caches) [
  | some sc ↦ (r, sc)
  | none ↦ (record r { caches = insert service empty_cache r.caches }, empty_cache)
]

abbrev pub put_cache : Resolver → String → ServiceCache → Resolver
put_cache r service sc = record r { caches = insert service sc r.caches }

pub data Picked : Type 0 where
  instance_of : Instance → Picked
  failed : Error → Picked
  panicked : Picked  -- index out of range

abbrev pub is_empty {ℓ} : {A : Type ℓ} → List A → Bool
is_empty [] = true
is_empty (x ∷ xs) = false

-- index.Add(1) - 1, on uint64
abbrev pub u64 : ℕ → ℕ
u64 n = n % 2 ^ 64

-- The end of Pick, with the instances that it has read or discovered.
unfoldable pub choose : Resolver → String → ServiceCache → List Instance → Resolver × Picked
choose r service sc [] =
    (r, failed (failure "discovery: no instances available for %q" (text service ∷ [])))
choose r service sc (x ∷ xs) =
    let added = u64 (sc.index + 1) in
    let idx = u64 (added + 2 ^ 64 - 1) in
    (
      put_cache r service (record sc { index = added }),
      elim (get_elem? (x ∷ xs) (idx % length (x ∷ xs))) [
        | some i ↦ instance_of i
        | none ↦ panicked
      ],
    )

module _ {W : Type 0} (reg : Registry W) where
  unfoldable pub is_fresh : ℤ → Option ℕ → W → Bool
  is_fresh ttl last_update w = elim last_update [
    | none ↦ false
    | some t ↦ ltb_ℤ (sub_ℕ (reg.now w) t) ttl
  ]

  unfoldable pub pick : Resolver → String → W → W × Resolver × Picked
  pick r service w =
      let (r', sc) = get_or_create_cache r service in
      if not (is_fresh r.ttl sc.last_update w) || is_empty sc.instances
      then (let (w', discovered, err) = reg.discover service w in
          elim err [
            | some e ↦ (w', r', failed (wrap "discovery: resolve %q: %w" (text service ∷ []) e))
            | none ↦
                let sc' = record sc { instances = discovered; last_update = some (reg.now w') } in
                let (r'', picked) = choose (put_cache r' service sc') service sc' discovered in
                (w', r'', picked)
          ])
      else (let (r'', picked) = choose r' service sc sc.instances in (w, r'', picked))

  -- A list that arrives on the channel of a watched service.
  unfoldable pub watch_update : Resolver → String → List Instance → W → Resolver
  unfolding get_or_create_cache
  watch_update r service instances w =
      let (r', sc) = get_or_create_cache r service in
      put_cache r' service (record sc { instances = instances; last_update = some (reg.now w) })

  start_watches : Resolver → List String → W → W × Resolver × Option Error
  unfolding get_or_create_cache
  start_watches r [] w = (w, r, none)
  start_watches r (svc ∷ svcs) w =
      let (w', err) = reg.watch svc w in
      elim err [
        | some e ↦ (
          w',
          record r { running = false },
          some (wrap "discovery: watch %q: %w" (text svc ∷ []) e),
        )
        | none ↦ start_watches (get_or_create_cache r svc).0 svcs w'
      ]

  unfoldable pub start : Resolver → W → W × Resolver × Option Error
  unfolding start_watches
  start r w = start_watches (record r { running = true }) r.services w

unfoldable pub stop : Resolver → Resolver
stop r = record r { running = false }
