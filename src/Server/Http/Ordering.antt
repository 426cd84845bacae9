-- ===== src/Server/Http/Ordering.antt =====
-- The order in which the Server builds its router.
use goplatform.Prelude.{
  String, ◌≡◌, Bool-cases, inl, inr, ◌⊎◌, refl, sym, ap, ◌∙◌, Bool, true, false, ◌&&◌, not, List,
  [], ◌∷◌, ◌++◌, append_assoc, append-nil,
}
use goplatform.Prelude.Dict.{Dict}
use goplatform.Errors.{Error}
use goplatform.App.Health.{HealthCheck}
use goplatform.Server.Http.{Handler, Middleware}
use goplatform.Server.Http.Middleware.{recovery, request_logging}
use goplatform.Server.Http.Health.{handle_live, handle_ready, handle_metrics}
use goplatform.Server.Http.Lifecycle.{
  MountEntry, RouteEntry, RouterCall, use_, mount, route, get, Server, Net, mount_handler, route_fn,
  use_middlewares, build, default_middleware, mount_health_endpoints, mount_each, route_each, start,
  listening,
}

-- A call of Use, Mount or Route.
pub data Registration (W F : Type 0) : Type 0 where
  with_use : List (Middleware W) → Registration W F
  with_mount : String → Handler W → Registration W F
  with_route : String → F → Registration W F

module _ {W F Lis : Type 0} where
  abbrev pub register : Registration W F → Server W F Lis → Server W F Lis
  register (with_use ms) s = use_middlewares ms s
  register (with_mount pattern handler) s = mount_handler pattern handler s
  register (with_route pattern fn) s = route_fn pattern fn s

  unfoldable pub register_all : List (Registration W F) → Server W F Lis → Server W F Lis
  register_all [] s = s
  register_all (r ∷ rs) s = register_all rs (register r s)

module _ {W F : Type 0} where
  -- What was registered of each kind, in its order.
  unfoldable pub middlewares_of : List (Registration W F) → List (Middleware W)
  middlewares_of [] = []
  middlewares_of (with_use ms ∷ rs) = ms ++ middlewares_of rs
  middlewares_of (with_mount p h ∷ rs) = middlewares_of rs
  middlewares_of (with_route p f ∷ rs) = middlewares_of rs

  unfoldable pub mounts_of : List (Registration W F) → List (RouterCall W F)
  mounts_of [] = []
  mounts_of (with_use ms ∷ rs) = mounts_of rs
  mounts_of (with_mount p h ∷ rs) = mount (record { pattern = p; handler = h }) ∷ mounts_of rs
  mounts_of (with_route p f ∷ rs) = mounts_of rs

  unfoldable pub routes_of : List (Registration W F) → List (RouterCall W F)
  routes_of [] = []
  routes_of (with_use ms ∷ rs) = routes_of rs
  routes_of (with_mount p h ∷ rs) = routes_of rs
  routes_of (with_route p f ∷ rs) = route (record { pattern = p; fn = f }) ∷ routes_of rs

  -- chi's rule, which it enforces by a panic: no Use after a route; `seen` tells whether there was one.
  unfoldable pub middleware_first : Bool → List (RouterCall W F) → Bool
  middleware_first seen [] = true
  middleware_first seen (use_ ms ∷ cs) = not seen && middleware_first seen cs
  middleware_first seen (mount m ∷ cs) = middleware_first true cs
  middleware_first seen (route r ∷ cs) = middleware_first true cs
  middleware_first seen (get p h ∷ cs) = middleware_first true cs

  mount_each-append :
      (ms : List (MountEntry W)) (m : MountEntry W)
      → mount_each {F = F} (ms ++ m ∷ []) ≡ mount_each ms ++ mount m ∷ []
  unfolding mount_each
  mount_each-append [] m = refl
  mount_each-append (x ∷ ms) m = ap (λ t. mount x ∷ t) (mount_each-append ms m)

  route_each-append :
      (rs : List (RouteEntry F)) (r : RouteEntry F)
      → route_each {W = W} (rs ++ r ∷ []) ≡ route_each rs ++ route r ∷ []
  unfolding route_each
  route_each-append [] r = refl
  route_each-append (x ∷ rs) r = ap (λ t. route x ∷ t) (route_each-append rs r)

-- A server that has not been started, and on which nothing is registered.
pub record Unbuilt {W F Lis : Type 0} (s : Server W F Lis) : Type 0 where
  pub not_built : s.built ≡ false
  pub no_calls : s.router ≡ []
  pub no_middleware : s.pending_middleware ≡ []
  pub no_mounts : s.pending_mounts ≡ []
  pub no_routes : s.pending_routes ≡ []

health_endpoints_first :
    {W : Type 0} (F : Type 0) (checkers : Dict (HealthCheck W)) (seen : Bool)
    → middleware_first seen (mount_health_endpoints {F = F} checkers) ≡ true
unfolding middleware_first mount_health_endpoints
health_endpoints_first F checkers seen = refl

module _ {W F : Type 0} where
  use_after_route :
      (cs : List (RouterCall W F)) (ms : List (Middleware W)) (rest : List (RouterCall W F))
      → middleware_first true (cs ++ use_ ms ∷ rest) ≡ false
  unfolding middleware_first
  use_after_route [] ms rest = refl
  use_after_route (use_ m ∷ cs) ms rest = refl
  use_after_route (mount m ∷ cs) ms rest = use_after_route cs ms rest
  use_after_route (route r ∷ cs) ms rest = use_after_route cs ms rest
  use_after_route (get p h ∷ cs) ms rest = use_after_route cs ms rest

  late_use :
      (front : List (RouterCall W F)) (p : String) (h : Handler W) (cs : List (RouterCall W F))
      (ms : List (Middleware W)) (rest : List (RouterCall W F)) (seen : Bool)
      → middleware_first seen (front ++ get p h ∷ (cs ++ use_ ms ∷ rest)) ≡ false
  unfolding middleware_first
  late_use [] p h cs ms rest seen = use_after_route cs ms rest
  late_use (use_ m ∷ front) p h cs ms rest true = refl
  late_use (use_ m ∷ front) p h cs ms rest false = late_use front p h cs ms rest false
  late_use (mount m ∷ front) p h cs ms rest seen = late_use front p h cs ms rest true
  late_use (route r ∷ front) p h cs ms rest seen = late_use front p h cs ms rest true
  late_use (get q g ∷ front) p h cs ms rest seen = late_use front p h cs ms rest true

  routes_first :
      (rs : List (Registration W F)) (checkers : Dict (HealthCheck W)) (seen : Bool)
      → middleware_first seen (routes_of rs ++ mount_health_endpoints checkers) ≡ true
  unfolding middleware_first routes_of
  routes_first [] checkers seen = health_endpoints_first F checkers seen
  routes_first (with_use ms ∷ rs) checkers seen = routes_first rs checkers seen
  routes_first (with_mount p h ∷ rs) checkers seen = routes_first rs checkers seen
  routes_first (with_route p f ∷ rs) checkers seen = routes_first rs checkers true

  mounts_first :
      (ms rs : List (Registration W F)) (checkers : Dict (HealthCheck W)) (seen : Bool)
      → middleware_first seen (mounts_of ms ++ (routes_of rs ++ mount_health_endpoints checkers))
        ≡ true
  unfolding middleware_first mounts_of
  mounts_first [] rs checkers seen = routes_first rs checkers seen
  mounts_first (with_use _ ∷ ms) rs checkers seen = mounts_first ms rs checkers seen
  mounts_first (with_mount p h ∷ ms) rs checkers seen = mounts_first ms rs checkers true
  mounts_first (with_route p f ∷ ms) rs checkers seen = mounts_first ms rs checkers seen

-- The paths that are not logged.
abbrev pub health_paths : List String
health_paths = "/healthz/live" ∷ "/healthz/ready" ∷ "/metrics" ∷ []

-- The default middleware that is not disabled: whether Recovery is, and whether RequestLogging is.
abbrev pub kept_defaults : {W F : Type 0} → Bool → Bool → List (RouterCall W F)
kept_defaults true true = []
kept_defaults true false = use_ (request_logging health_paths ∷ []) ∷ []
kept_defaults false true = use_ (recovery ∷ []) ∷ []
kept_defaults false false = use_ (recovery ∷ []) ∷ use_ (request_logging health_paths ∷ []) ∷ []

module _ {W F Lis : Type 0} where
  -- The router calls of a server, given what is pending.
  abbrev pub assembled :
      Server W F Lis
      → List (Middleware W)
      → List (RouterCall W F)
      → List (RouterCall W F)
      → List (RouterCall W F)
  assembled s ms mounts routes =
      kept_defaults s.disable_recovery s.disable_request_logging
      ++ (use_ ms
          ∷ (mounts
              ++ (routes
                  ++ (get "/healthz/live" handle_live
                      ∷ get "/healthz/ready" (handle_ready s.checkers)
                      ∷ get "/metrics" handle_metrics
                      ∷ []))))

  default_middleware-kept :
      (s : Server W F Lis)
      → default_middleware s ≡ kept_defaults s.disable_recovery s.disable_request_logging
  unfolding default_middleware
  default_middleware-kept s = elim (Bool-cases s.disable_recovery) [
    | inl off ↦ elim (Bool-cases s.disable_request_logging) [
      | inl quiet ↦ rw (off, quiet) refl
      | inr logs ↦ rw (off, logs) refl
    ]
    | inr on ↦ elim (Bool-cases s.disable_request_logging) [
      | inl quiet ↦ rw (on, quiet) refl
      | inr logs ↦ rw (on, logs) refl
    ]
  ]

  build-register_all :
      (rs : List (Registration W F)) (s : Server W F Lis)
      → s.built ≡ false
      → (build (register_all rs s)).router
        ≡ s.router
          ++ assembled s
              (s.pending_middleware ++ middlewares_of rs)
              (mount_each s.pending_mounts ++ mounts_of rs)
              (route_each s.pending_routes ++ routes_of rs)
  unfolding build register_all middlewares_of mounts_of routes_of mount_health_endpoints
  build-register_all [] s h = rw (sym (default_middleware-kept s)) (simp append-nil refl)
  build-register_all (with_use ms ∷ rs) s h =
      let s' : Server W F Lis = record s { pending_middleware = s.pending_middleware ++ ms } in
      let e : use_middlewares ms s ≡ s' = unfold use_middlewares in rw h refl in
      ap (λ x. (build (register_all rs x)).router) e
      ∙ (build-register_all rs s' h ∙ rw (append_assoc s.pending_middleware ms) refl)
  build-register_all (with_mount p handler ∷ rs) s h =
      let m : MountEntry W = record { pattern = p; handler = handler } in
      let s' : Server W F Lis = record s { pending_mounts = s.pending_mounts ++ m ∷ [] } in
      let e : mount_handler p handler s ≡ s' = unfold mount_handler in rw h refl in
      ap (λ x. (build (register_all rs x)).router) e
      ∙ (build-register_all rs s' h
          ∙ rw (mount_each-append s.pending_mounts m)
              (rw (append_assoc (mount_each s.pending_mounts) (mount m ∷ [])) refl))
  build-register_all (with_route p f ∷ rs) s h =
      let r : RouteEntry F = record { pattern = p; fn = f } in
      let s' : Server W F Lis = record s { pending_routes = s.pending_routes ++ r ∷ [] } in
      let e : route_fn p f s ≡ s' = unfold route_fn in rw h refl in
      ap (λ x. (build (register_all rs x)).router) e
      ∙ (build-register_all rs s' h
          ∙ rw (route_each-append s.pending_routes r)
              (rw (append_assoc (route_each s.pending_routes) (route r ∷ [])) refl))

  -- However Use, Mount and Route are called before it, Start makes its router calls in this order: the
  -- default middleware that is not disabled, Recovery first and then RequestLogging, which skips the paths
  -- of the health endpoints, then the registered middleware, the mounts, the routes, each kind in the order
  -- of registration, and last the health endpoints.
  pub build-order :
      (rs : List (Registration W F)) (s : Server W F Lis)
      → Unbuilt s
      → (build (register_all rs s)).router
        ≡ assembled s (middlewares_of rs) (mounts_of rs) (routes_of rs)
  unfolding mount_each route_each
  build-order rs s u =
      build-register_all rs s u.not_built
      ∙ rw (u.no_calls, u.no_middleware, u.no_mounts, u.no_routes) refl

  first_start :
      (s : Server W F Lis) (rs : List (Registration W F))
      → middleware_first false (assembled s (middlewares_of rs) (mounts_of rs) (routes_of rs))
        ≡ true
  unfolding middleware_first mount_health_endpoints
  first_start s rs =
      let later = mounts_first rs rs s.checkers false in
      elim (Bool-cases s.disable_recovery) [
        | inl off ↦ elim (Bool-cases s.disable_request_logging) [
          | inl quiet ↦ rw (off, quiet) later
          | inr logs ↦ rw (off, logs) later
        ]
        | inr on ↦ elim (Bool-cases s.disable_request_logging) [
          | inl quiet ↦ rw (on, quiet) later
          | inr logs ↦ rw (on, logs) later
        ]
      ]

  router-listening :
      (net : Net W Lis) (s : Server W F Lis) (r : W × (Lis ⊎ Error))
      → (listening net s r).0.router ≡ s.router
  router-listening net s (w, inl ln) = refl
  router-listening net s (w, inr e) = refl

  router-start :
      (net : Net W Lis) (s : Server W F Lis) (w : W) → (start net s w).0.router ≡ (build s).router
  unfolding start
  router-start net s w = router-listening net (build s) (net.listen s.addr w)

  -- The router calls of a built server end with the health endpoints.
  build_ends :
      (s : Server W F Lis)
      → (front : List (RouterCall W F)) × ((build s).router
          ≡ front ++ mount_health_endpoints s.checkers)
  unfolding build
  build_ends s = (
    s.router
        ++ (default_middleware s
            ++ (use_ s.pending_middleware
                ∷ (mount_each s.pending_mounts ++ route_each s.pending_routes))),
    simp append_assoc refl,
  )

  rebuilt :
      (s : Server W F Lis) (front : List (RouterCall W F)) (checkers : Dict (HealthCheck W))
      → s.router ≡ front ++ mount_health_endpoints checkers
      → middleware_first false (build s).router ≡ false
  unfolding build mount_health_endpoints
  rebuilt s front checkers h = rw h (
      rw append_assoc (
        late_use front _ _
          (get "/healthz/ready" (handle_ready checkers)
            ∷ get "/metrics" handle_metrics
            ∷ default_middleware s)
          s.pending_middleware _ false))

  -- chi's rule holds of the router calls of a first Start, whatever was registered before; any further
  -- Start, also after one that failed, calls Use after the routes and breaks it.
  pub start-middleware_first :
      (net : Net W Lis) (rs : List (Registration W F)) (s : Server W F Lis) (w w' : W)
      → Unbuilt s
      → let s1 = (start net (register_all rs s) w).0 in
        (middleware_first false s1.router ≡ true)
        × (middleware_first false (start net s1 w').0.router ≡ false)
  start-middleware_first net rs s w w' u =
      let s0 = register_all rs s in
      let s1 = (start net s0 w).0 in
      let (front, ends) = build_ends s0 in
      (
        ap (middleware_first false) (router-start net s0 w ∙ build-order rs s u) ∙ first_start s rs,
        ap (middleware_first false) (router-start net s1 w')
            ∙ rebuilt s1 front s0.checkers (router-start net s0 w ∙ ends),
      )
