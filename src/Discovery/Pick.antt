-- ===== src/Discovery/Pick.antt =====
-- Resolver.Pick of pkg/discovery/resolver.go: what it returns, and when it asks the registry.
use native.Mathlib.Nat.{mod-lt}
use goplatform.Prelude.{
  ℕ, ◌+◌, ◌-◌, ◌%◌, ◌^◌, ◌<◌, String, ◌≡◌, ◌≢◌, refl, ◌∙◌, true, false, not, ◌||◌, some, List, [],
  ◌∷◌, arith, length, get_elem?, get_elem?_lt, Bool-cases, Option-cases, inl, inr, str_eq, eq_iff,
  eq_refl,
}
use goplatform.Prelude.Dict.{lookup, lookup-insert}
use goplatform.Errors.{Error, wrap, text}
use goplatform.Discovery.{
  Instance, Registry, ServiceCache, Resolver, Picked, instance_of, failed, panicked,
  get_or_create_cache, put_cache, is_empty, u64, choose, is_fresh, pick,
}

-- An instance that was picked stands in the cache of its service.
abbrev pub Sound : Resolver → String → Picked → Type 0
Sound r service (instance_of i) =
    (sc : ServiceCache) × (n : ℕ) × (lookup service r.caches ≡ some sc)
    × (get_elem? sc.instances n ≡ some i)
Sound r service (failed e) = Unit
Sound r service panicked = ⊥

lookup-put_cache :
    (r : Resolver) (service : String) (sc : ServiceCache)
    → lookup service (put_cache r service sc).caches ≡ some sc
lookup-put_cache r service sc = lookup-insert service service sc r.caches ∙ rw eq_refl refl

mod-lt_length : (n : ℕ) (x : Instance) (xs : List Instance) → n % length (x ∷ xs) < length (x ∷ xs)
mod-lt_length n x xs = mod-lt n (omega arith)

choose-Sound :
    (r : Resolver) (service : String) (sc : ServiceCache)
    → lookup service r.caches ≡ some sc
    → Sound (choose r service sc sc.instances).0 service (choose r service sc sc.instances).1
choose-Sound r service sc h = go sc.instances refl
  where
    go :
        (l : List Instance)
        → sc.instances ≡ l
        → Sound (choose r service sc l).0 service (choose r service sc l).1
    go [] e = unfold choose in tt
    go (x ∷ xs) e =
        let idx = u64 (u64 (sc.index + 1) + 2 ^ 64 - 1) in
        let sc' : ServiceCache = record sc { index = u64 (sc.index + 1) } in
        let (i, at) = get_elem?_lt (x ∷ xs) (idx % length (x ∷ xs)) (mod-lt_length idx x xs) in
        let at' : get_elem? sc'.instances (idx % length (x ∷ xs)) ≡ some i = rw e at in
        unfold choose in
        rw (at, choose) (sc', idx % length (x ∷ xs), lookup-put_cache r service sc', at')

lookup-get_or_create_cache :
    (r : Resolver) (service : String)
    → lookup service (get_or_create_cache r service).0.caches
      ≡ some (get_or_create_cache r service).1
unfolding get_or_create_cache
lookup-get_or_create_cache r service = elim (Option-cases (lookup service r.caches)) [
  | inl e ↦ rw (e, get_or_create_cache) (lookup-put_cache r service _)
  | inr (sc, e) ↦ rw (e, get_or_create_cache) e
]

-- Pick never indexes out of range, and an instance that it returns stands in the cache that it
-- leaves for the service: one read from the registry now or before.
pub pick-Sound :
    {W : Type 0} (reg : Registry W) (r : Resolver) (service : String) (w : W)
    → Sound (pick reg r service w).1 service (pick reg r service w).2
unfolding pick
pick-Sound reg r service w =
    let (r', sc) = get_or_create_cache r service in
    elim (Bool-cases (not (is_fresh reg r.ttl sc.last_update w) || is_empty sc.instances)) [
      | inl stale ↦
          let (w', discovered, err) = reg.discover service w in
          elim (Option-cases (reg.discover service w).2) [
            | inl fine ↦
                let sc' : ServiceCache = record sc {
                  instances = discovered;
                  last_update = some (reg.now w');
                } in
                rw (stale, fine, pick)
                  (choose-Sound (put_cache r' service sc') service sc'
                    (lookup-put_cache r' service sc'))
            | inr (e, broken) ↦ rw (stale, broken, pick) tt
          ]
      | inr fresh ↦
          rw (fresh, pick) (choose-Sound r' service sc (lookup-get_or_create_cache r service))
    ]

-- A failed Discover is reported, wrapped, and every cache keeps its instances, its time and its
-- index; at most an empty cache for the service is new.
pub pick_discover_failed :
    {W : Type 0} (reg : Registry W) (r : Resolver) (service : String) (w : W) (e : Error)
    → (not (is_fresh reg r.ttl (get_or_create_cache r service).1.last_update w)
        || is_empty (get_or_create_cache r service).1.instances)
      ≡ true
    → (reg.discover service w).2 ≡ some e
    → ((pick reg r service w).2 ≡ failed (wrap "discovery: resolve %q: %w" (text service ∷ []) e))
      × ((pick reg r service w).1 ≡ (get_or_create_cache r service).0)
unfolding pick
pick_discover_failed reg r service w e stale broken =
    (rw (stale, broken, pick) refl, rw (stale, broken, pick) refl)

str_ne : (a b : String) → a ≢ b → str_eq a b ≡ false
str_ne a b ne = elim (Bool-cases (str_eq a b)) [
  | inl same ↦ absurd (ne ((eq_iff a b).0 same))
  | inr other ↦ other
]

module _ (service other : String) (ne : service ≢ other) where
  put_cache_other :
      (r : Resolver) (sc : ServiceCache)
      → lookup other (put_cache r service sc).caches ≡ lookup other r.caches
  put_cache_other r sc = lookup-insert service other sc r.caches ∙ rw (str_ne service other ne) refl

  get_or_create_cache_other :
      (r : Resolver) → lookup other (get_or_create_cache r service).0.caches ≡ lookup other r.caches
  unfolding get_or_create_cache
  get_or_create_cache_other r = elim (Option-cases (lookup service r.caches)) [
    | inl e ↦ rw (e, get_or_create_cache) (put_cache_other r _)
    | inr (sc, e) ↦ rw (e, get_or_create_cache) refl
  ]

  choose_other :
      (r : Resolver) (sc : ServiceCache) (l : List Instance)
      → lookup other (choose r service sc l).0.caches ≡ lookup other r.caches
  unfolding choose
  choose_other r sc [] = refl
  choose_other r sc (x ∷ xs) = put_cache_other r (record sc { index = u64 (sc.index + 1) })

-- Pick for one service leaves the caches of all others as they are.
pub pick_others :
    {W : Type 0} (reg : Registry W) (r : Resolver) (service other : String) (w : W)
    → service ≢ other
    → lookup other (pick reg r service w).1.caches ≡ lookup other r.caches
unfolding pick
pick_others reg r service other w ne =
    let (r', sc) = get_or_create_cache r service in
    let kept = get_or_create_cache_other service other ne r in
    elim (Bool-cases (not (is_fresh reg r.ttl sc.last_update w) || is_empty sc.instances)) [
      | inl stale ↦
          let (w', discovered, err) = reg.discover service w in
          elim (Option-cases (reg.discover service w).2) [
            | inl fine ↦
                let sc' : ServiceCache = record sc {
                  instances = discovered;
                  last_update = some (reg.now w');
                } in
                rw (stale, fine, pick)
                  (choose_other service other ne (put_cache r' service sc') sc' discovered
                    ∙ put_cache_other service other ne r' sc'
                    ∙ kept)
            | inr (e, broken) ↦ rw (stale, broken, pick) kept
          ]
      | inr fresh ↦ rw (fresh, pick) (choose_other service other ne r' sc sc.instances ∙ kept)
    ]
