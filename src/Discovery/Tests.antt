-- ===== src/Discovery/Tests.antt =====
-- The resolver over a registry with two instances. The world is the clock.
use goplatform.Prelude.{ℕ, pos, ◌+◌, ◌≡◌, refl, false, String, none, some, [], ◌∷◌, arith}
use goplatform.Prelude.Dict.{lookup}
use goplatform.Errors.{sentinel}
use goplatform.Discovery.{Instance, Registry, Resolver, pick, is_fresh}
use goplatform.Discovery.Pick.{Sound, pick-Sound}
use goplatform.Discovery.RoundRobin.{cache_at, picks, in_turn, picks-in_turn}

abbrev node : String → Instance
node id = record {
  id = id;
  name = "api";
  address = "10.0.0.1";
  port = pos 80;
  tags = [];
  meta = [];
}

abbrev two : Registry ℕ
two = record {
  discover = λ s w. (w + 1, node "a" ∷ node "b" ∷ [], none);
  watch = λ s w. (w, none);
  now = λ w. w;
}

abbrev down : Registry ℕ
down = record {
  discover = λ s w. (w, [], some (sentinel "down"));
  watch = λ s w. (w, none);
  now = λ w. w;
}

abbrev empty : Resolver
empty = record { ttl = pos 30; services = []; caches = []; running = false }

abbrev filled : Resolver
filled = record empty { caches = ("api", cache_at (node "a" ∷ node "b" ∷ []) (some 1) 0) ∷ [] }

pick-Sound_example : Sound (pick two empty "api" 4).1 "api" (pick two empty "api" 4).2
pick-Sound_example = pick-Sound two empty "api" 4

picks-in_turn_example :
    (picks two "api" filled (2 ∷ 3 ∷ 4 ∷ [])).1
    ≡ in_turn (node "a" ∷ node "b" ∷ []) 0 (2 ∷ 3 ∷ 4 ∷ [])
unfolding lookup is_fresh
picks-in_turn_example =
    picks-in_turn two "api" filled (node "a") (node "b" ∷ []) (some 1) 0 (2 ∷ 3 ∷ 4 ∷ []) refl
      (refl, (refl, (refl, tt))) (omega arith)
