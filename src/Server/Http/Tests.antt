-- ===== src/Server/Http/Tests.antt =====
-- The HTTP server over a connection that keeps what is written.
use goplatform.Prelude.{
  ℕ, ◌≡◌, ◌+◌, refl, none, some, List, [], ◌∷◌, inr, arith, if◌then◌else◌, length,
}
use goplatform.Prelude.Dict.{Dict, Distinct}
use goplatform.Errors.{sentinel}
use goplatform.App.Health.{HealthCheck}
use goplatform.Server.Http.{
  Request, plain_text, Handler, done, panic, write_header, write, Conn, run,
}
use goplatform.Server.Http.RequestIds.{
  generate_request_id, bytes_of, without_dashes, IsBytes, bytes_of-generate_request_id,
}
use goplatform.Server.Http.Middleware.{recovery, request_logging, skipped}
use goplatform.Server.Http.Passing.{
  after_panic, after_return, logged_id, run-recovery, run-request_logging,
}
use goplatform.Server.Http.Health.{handle_ready, ready_run, run-handle_ready}
use goplatform.Server.Http.Lifecycle.{
  Server, Net, new, default_server, apply_options, with_addr, without_recovery, build,
}
use goplatform.Server.Http.Ordering.{
  Registration, with_use, with_mount, with_route, register_all, middlewares_of, mounts_of,
  routes_of, Unbuilt, assembled, build-order,
}

-- The world is the number of writes, and the clock.
abbrev counter : Conn ℕ
counter = record {
  set_header = λ k v w. w;
  write_header = λ code w. w + 1;
  write = λ b w. (w + 1, none);
  log = λ e w. w;
  now = λ w. w;
  random = λ n w. 171 ∷ 2 ∷ 3 ∷ 4 ∷ 5 ∷ 6 ∷ 7 ∷ 8 ∷ 9 ∷ 10 ∷ 11 ∷ 12 ∷ 13 ∷ 14 ∷ 15 ∷ 255 ∷ [];
}

abbrev order_request : Request
order_request = record { method = "GET"; path = "/orders"; request_id = [] }

abbrev breaking : Handler ℕ
breaking r = write_header 201 (panic "boom")

abbrev greeting : Handler ℕ
greeting r = write (plain_text "hello") (λ err. done)

abbrev sixteen : List ℕ
sixteen = counter.random 16 0

bytes_of-generate_request_id_example :
    (length (generate_request_id sixteen) ≡ 36)
    × (bytes_of (without_dashes (generate_request_id sixteen)) ≡ sixteen)
bytes_of-generate_request_id_example =
    bytes_of-generate_request_id sixteen refl (unfold IsBytes in ground arith)

run-recovery_example :
    run counter (recovery breaking order_request) 5
    ≡ after_panic counter order_request (run counter (breaking order_request) 5)
run-recovery_example = run-recovery counter breaking order_request 5

run-request_logging_example :
    run counter (request_logging ("/metrics" ∷ []) greeting order_request) 5 ≡ (
      if skipped ("/metrics" ∷ []) order_request.path
      then run counter (greeting order_request) 5
      else after_return counter order_request
          (logged_id counter order_request.request_id 5)
          5
          (run counter (greeting order_request) 5))
run-request_logging_example = run-request_logging counter ("/metrics" ∷ []) greeting order_request 5

abbrev two_checkers : Dict (HealthCheck ℕ)
two_checkers =
    ("db", λ ctx w. (w + 1, none)) ∷ ("cache", λ ctx w. (w + 1, some (sentinel "down"))) ∷ []

run-handle_ready_example :
    run counter (handle_ready two_checkers order_request) 5 ≡ ready_run counter two_checkers 5
run-handle_ready_example =
    run-handle_ready counter two_checkers order_request 5 (unfold Distinct in (refl, (refl, _)))

abbrev configured : Server ℕ ℕ ℕ
configured = new (with_addr ":9090" ∷ without_recovery ∷ [])

configured-Unbuilt : Unbuilt configured
unfolding new apply_options default_server with_addr without_recovery
configured-Unbuilt = record {
  not_built = refl;
  no_calls = refl;
  no_middleware = refl;
  no_mounts = refl;
  no_routes = refl;
}

-- A port that is in use once.
abbrev busy_port : Net ℕ ℕ
busy_port = record {
  listen = λ addr w. (w + 1, inr (sentinel "in use"));
  serve = λ srv ln w. w;
  shutdown = λ srv w. (w, none);
  addr_string = λ ln. ":9090";
}

abbrev registrations : List (Registration ℕ ℕ)
registrations = with_route "/api" 3 ∷ with_use (recovery ∷ []) ∷ with_mount "/rpc" greeting ∷ []

build-order_example :
    (build (register_all registrations configured)).router
    ≡ assembled configured
        (middlewares_of registrations)
        (mounts_of registrations)
        (routes_of registrations)
build-order_example = build-order registrations configured configured-Unbuilt
