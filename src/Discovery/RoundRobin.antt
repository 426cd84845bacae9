-- ===== src/Discovery/RoundRobin.antt =====
-- Round robin: what a sequence of Picks returns (pkg/discovery/resolver.go).
use goplatform.Prelude.{
  ℕ, suc, ◌+◌, ◌-◌, ◌%◌, ◌^◌, ◌<◌, String, ◌≡◌, refl, ap, ap₂, ◌∙◌, true, Option, none, some, List,
  [], ◌∷◌, arith, All, length, get_elem?, eq_refl,
}
use goplatform.Prelude.Dict.{lookup, lookup-insert}
use goplatform.Discovery.{
  Instance, Registry, ServiceCache, Resolver, Picked, instance_of, panicked, get_or_create_cache,
  put_cache, u64, choose, is_fresh, pick,
}

-- The instance under an index; Pick never comes to the last clause.
abbrev pub nth : List Instance → ℕ → Picked
nth l n = elim (get_elem? l n) [ some i ↦ instance_of i | none ↦ panicked ]

-- `uint64` addition followed by the subtraction gives the old index back.
u64_back : (n : ℕ) → n < 2 ^ 64 → u64 (u64 (n + 1) + 2 ^ 64 - 1) ≡ n
u64_back n h = omega arith

u64_next : (n : ℕ) → suc n < 2 ^ 64 → u64 (n + 1) ≡ suc n
u64_next n h = omega arith

-- Round robin over `l` from index `n` on, one for each world, which it leaves as it finds it.
abbrev pub in_turn : {W : Type 0} → List Instance → ℕ → List W → List (W × Picked)
in_turn l n [] = []
in_turn l n (w ∷ ws) = (w, nth l (n % length l)) ∷ in_turn l (suc n) ws

abbrev pub cache_at : List Instance → Option ℕ → ℕ → ServiceCache
cache_at l last n = record { instances = l; last_update = last; index = n }

module _ {W : Type 0} (reg : Registry W) (service : String) where
  -- Picks one after another, each in the world that it finds. What a Pick does to the world is
  -- dropped: the world that the next one finds is given.
  unfoldable pub picks : Resolver → List W → Resolver × List (W × Picked)
  picks r [] = (r, [])
  picks r (w ∷ ws) =
      let (w', r', picked) = pick reg r service w in
      let (r'', rest) = picks r' ws in (r'', (w', picked) ∷ rest)

  choose-nth :
      (r : Resolver) (x : Instance) (xs : List Instance) (last : Option ℕ) (n : ℕ)
      → suc n < 2 ^ 64
      → choose r service (cache_at (x ∷ xs) last n) (x ∷ xs)
        ≡ (put_cache r service (cache_at (x ∷ xs) last (suc n)), nth (x ∷ xs) (n % length (x ∷ xs)))
  unfolding choose
  choose-nth r x xs last n small =
      ap₂
        (λ a b.
          (put_cache r service (cache_at (x ∷ xs) last a), nth (x ∷ xs) (b % length (x ∷ xs))))
        (u64_next n small) (u64_back n (omega arith))

  -- A Pick that finds a fresh cache with instances asks nobody, and takes the next one.
  pub pick_fresh :
      (r : Resolver) (x : Instance) (xs : List Instance) (last : Option ℕ) (n : ℕ) (w : W)
      → lookup service r.caches ≡ some (cache_at (x ∷ xs) last n)
      → is_fresh reg r.ttl last w ≡ true
      → suc n < 2 ^ 64
      → pick reg r service w ≡ (
        w,
        put_cache r service (cache_at (x ∷ xs) last (suc n)),
        nth (x ∷ xs) (n % length (x ∷ xs)),
      )
  unfolding pick
  pick_fresh r x xs last n w there fresh small =
      let e1 : get_or_create_cache r service ≡ (r, cache_at (x ∷ xs) last n) =
        unfold get_or_create_cache in rw (there, get_or_create_cache) refl in
      rw (e1, pick)
        (rw fresh (ap (λ (c : Resolver × Picked). (w, c.0, c.1)) (choose-nth r x xs last n small)))

  -- Round robin: Picks that all find the cache fresh, however many, return its instances in turn
  -- from the cache's index on, wrapping round at the end of the list, and do not ask the registry.
  -- The index must not overflow uint64 on the way.
  pub picks-in_turn :
      (r : Resolver) (x : Instance) (xs : List Instance) (last : Option ℕ) (n : ℕ) (ws : List W)
      → lookup service r.caches ≡ some (cache_at (x ∷ xs) last n)
      → All (λ w. is_fresh reg r.ttl last w ≡ true) ws
      → n + length ws < 2 ^ 64
      → (picks r ws).1 ≡ in_turn (x ∷ xs) n ws
  unfolding picks
  picks-in_turn r x xs last n [] there fresh small = refl
  picks-in_turn r x xs last n (w ∷ ws) there fresh small =
      let sc' : ServiceCache = cache_at (x ∷ xs) last (suc n) in
      let there' : lookup service (put_cache r service sc').caches ≡ some sc' =
        lookup-insert service service sc' r.caches ∙ rw eq_refl refl in
      rw (pick_fresh r x xs last n w there fresh.0 (omega arith)) (
        ap (λ t. (w, nth (x ∷ xs) (n % length (x ∷ xs))) ∷ t)
          (picks-in_turn (put_cache r service sc') x xs last (suc n) ws there' fresh.1
            (omega arith)))
