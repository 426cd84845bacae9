-- ===== src/Server/Http/Lifecycle.antt =====
-- The Server of pkg/server/server.go: its options, what it collects before Start, and Start and Stop.
-- The chi router is the list of the calls made on it; the network is a parameter. `F` is the type of
-- `func(chi.Router)` and `Lis` that of listeners. Every method holds the mutex; Stop shuts down outside
-- of it, the server that it has read inside. The logger is left out.
use goplatform.Prelude.{
  ℤ, pos, String, Bool, true, false, Option, none, some, List, [], ◌∷◌, ◌++◌, ◌⊎◌, inl, inr,
  if◌then◌else◌,
}
use goplatform.Prelude.Dict.{Dict}
use goplatform.Errors.{Error, text, wrap}
use goplatform.App.Health.{HealthCheck}
use goplatform.Server.Http.{Handler, Middleware}
use goplatform.Server.Http.Middleware.{recovery, request_logging}
use goplatform.Server.Http.Health.{handle_live, handle_ready, handle_metrics}

pub record MountEntry (W : Type 0) : Type 0 where
  pub pattern : String
  pub handler : Handler W

pub record RouteEntry (F : Type 0) : Type 0 where
  pub pattern : String
  pub fn : F

-- A call on the chi router.
pub data RouterCall (W F : Type 0) : Type 0 where
  use_ : List (Middleware W) → RouterCall W F
  mount : MountEntry W → RouterCall W F
  route : RouteEntry F → RouterCall W F
  get : String → Handler W → RouterCall W F

-- `http.Server`: its handler is the Server's router.
pub record HttpServer : Type 0 where
  pub read_timeout : ℤ
  pub write_timeout : ℤ
  pub idle_timeout : ℤ

pub record Server (W F Lis : Type 0) : Type 0 where
  pub addr : String
  pub read_timeout : ℤ
  pub write_timeout : ℤ
  pub checkers : Dict (HealthCheck W)
  pub disable_recovery : Bool
  pub disable_request_logging : Bool
  pub pending_middleware : List (Middleware W)
  pub pending_mounts : List (MountEntry W)
  pub pending_routes : List (RouteEntry F)
  pub built : Bool
  pub router : List (RouterCall W F)
  pub http_srv : Option HttpServer
  pub listener : Option Lis

-- net.Listen, `go httpSrv.Serve(ln)`, Shutdown, and a listener's address.
pub record Net (W Lis : Type 0) : Type 0 where
  pub listen : String → W → W × (Lis ⊎ Error)
  pub serve : HttpServer → Lis → W → W
  pub shutdown : HttpServer → W → W × Option Error
  pub addr_string : Lis → String

-- 10 * time.Second and 60 * time.Second, in nanoseconds.
abbrev ten_seconds : ℤ
ten_seconds = pos 10_000_000_000

abbrev pub idle : ℤ
idle = pos 60_000_000_000

abbrev pub skip_paths : List String
skip_paths = "/healthz/live" ∷ "/healthz/ready" ∷ "/metrics" ∷ []

module _ {W F : Type 0} where
  unfoldable pub mount_each : List (MountEntry W) → List (RouterCall W F)
  mount_each [] = []
  mount_each (m ∷ ms) = mount m ∷ mount_each ms

  unfoldable pub route_each : List (RouteEntry F) → List (RouterCall W F)
  route_each [] = []
  route_each (r ∷ rs) = route r ∷ route_each rs

  unfoldable pub mount_health_endpoints : Dict (HealthCheck W) → List (RouterCall W F)
  mount_health_endpoints checkers =
      get "/healthz/live" handle_live
      ∷ get "/healthz/ready" (handle_ready checkers)
      ∷ get "/metrics" handle_metrics
      ∷ []

module _ {W F Lis : Type 0} where
  unfoldable pub with_addr : String → Server W F Lis → Server W F Lis
  with_addr addr s = record s { addr = addr }

  unfoldable pub with_read_timeout : ℤ → Server W F Lis → Server W F Lis
  with_read_timeout d s = record s { read_timeout = d }

  unfoldable pub with_write_timeout : ℤ → Server W F Lis → Server W F Lis
  with_write_timeout d s = record s { write_timeout = d }

  unfoldable pub with_health_checkers : Dict (HealthCheck W) → Server W F Lis → Server W F Lis
  with_health_checkers checkers s = record s { checkers = checkers }

  unfoldable pub without_recovery : Server W F Lis → Server W F Lis
  without_recovery s = record s { disable_recovery = true }

  unfoldable pub without_request_logging : Server W F Lis → Server W F Lis
  without_request_logging s = record s { disable_request_logging = true }

  unfoldable pub apply_options :
      Server W F Lis → List (Server W F Lis → Server W F Lis) → Server W F Lis
  apply_options s [] = s
  apply_options s (opt ∷ opts) = apply_options (opt s) opts

  unfoldable pub default_server : Server W F Lis
  default_server = record {
    addr = ":8080";
    read_timeout = ten_seconds;
    write_timeout = ten_seconds;
    checkers = [];
    disable_recovery = false;
    disable_request_logging = false;
    pending_middleware = [];
    pending_mounts = [];
    pending_routes = [];
    built = false;
    router = [];
    http_srv = none;
    listener = none;
  }

  unfoldable pub new : List (Server W F Lis → Server W F Lis) → Server W F Lis
  unfolding apply_options default_server
  new opts = apply_options default_server opts

  abbrev pub router_call : RouterCall W F → Server W F Lis → Server W F Lis
  router_call c s = record s { router = s.router ++ c ∷ [] }

  unfoldable pub mount_handler : String → Handler W → Server W F Lis → Server W F Lis
  mount_handler pattern handler s =
      let entry : MountEntry W = record { pattern = pattern; handler = handler } in
      if s.built
      then router_call (mount entry) s
      else record s { pending_mounts = s.pending_mounts ++ entry ∷ [] }

  unfoldable pub route_fn : String → F → Server W F Lis → Server W F Lis
  route_fn pattern fn s =
      let entry : RouteEntry F = record { pattern = pattern; fn = fn } in
      if s.built
      then router_call (route entry) s
      else record s { pending_routes = s.pending_routes ++ entry ∷ [] }

  unfoldable pub use_middlewares : List (Middleware W) → Server W F Lis → Server W F Lis
  use_middlewares middlewares s =
      if s.built
      then router_call (use_ middlewares) s
      else record s { pending_middleware = s.pending_middleware ++ middlewares }

  unfoldable pub default_middleware : Server W F Lis → List (RouterCall W F)
  default_middleware s =
      (if s.disable_recovery then [] else use_ (recovery ∷ []) ∷ [])
      ++ (if s.disable_request_logging then [] else use_ (request_logging skip_paths ∷ []) ∷ [])

  -- The first half of Start, up to `s.built = true`.
  unfoldable pub build : Server W F Lis → Server W F Lis
  unfolding mount_each route_each default_middleware mount_health_endpoints
  build s = record s {
    router =
        s.router
        ++ (default_middleware s
            ++ (use_ s.pending_middleware
                ∷ (mount_each s.pending_mounts
                    ++ (route_each s.pending_routes ++ mount_health_endpoints s.checkers))));
    built = true;
  }

  unfoldable pub server_addr : Net W Lis → Server W F Lis → String
  server_addr net s = elim s.listener [ none ↦ "" | some ln ↦ net.addr_string ln ]

abbrev pub shut_down : {W Lis : Type 0} → Net W Lis → Option HttpServer → W → W × Option Error
shut_down net none w = (w, none)
shut_down net (some srv) w =
    let (w', err) = net.shutdown srv w in
    elim err [ none ↦ (w', none) | some e ↦ (w', some (wrap "server: shutdown: %w" [] e)) ]

module _ {W F Lis : Type 0} (net : Net W Lis) where
  -- The second half of Start, after net.Listen.
  abbrev pub listening : Server W F Lis → W × (Lis ⊎ Error) → Server W F Lis × W × Option Error
  listening s (w, inr e) = (s, w, some (wrap "server: listen on %s: %w" (text s.addr ∷ []) e))
  listening s (w, inl ln) =
      let srv : HttpServer = record {
        read_timeout = s.read_timeout;
        write_timeout = s.write_timeout;
        idle_timeout = idle;
      } in
      (record s { listener = some ln; http_srv = some srv }, net.serve srv ln w, none)

  unfoldable pub start : Server W F Lis → W → Server W F Lis × W × Option Error
  unfolding build
  start s w = listening (build s) (net.listen s.addr w)

  unfoldable pub stop : Server W F Lis → W → W × Option Error
  stop s w = shut_down net s.http_srv w
