-- ===== src/Observe/Tests.antt =====
-- A logger over a console and an exporter that fails.
use goplatform.Prelude.{
  ℕ, ℤ, pos, sub_ℕ, String, Bool-cases, ap, str_eq, inl, inr, ◌≡◌, ◌+◌, refl, true, false, none,
  some, List, [], ◌∷◌, leb, ◌==◌, if◌then◌else◌,
}
use goplatform.Prelude.Living.Numbered.{
  Numbered, same_number, numbered_live, make_one, release_one, same_number-Identity, make_one-live,
  make_one-new, release_one-live,
}
use goplatform.Errors.{sentinel}
use goplatform.Observe.{
  Derive, attrs, group, Handler, sink, multi, traced, nil, cons, Sinks, new_swap_handler,
  derive_swap, current, build_each, derive, enabled, swap_enabled, swap_handle,
}
use goplatform.Observe.Observer.{
  Observer, Otel, Stopped, stop, stop_settles, with_otlp_endpoint, with_base_handler,
  with_logger_provider,
}
use goplatform.Server.Http.{
  Request, Handler as HttpHandler, Conn, plain_text, write, write_header, done, run,
}
use goplatform.Server.Http.Passing.{committed}
use goplatform.Observe.Requests.{Tracing, milliseconds, http_middleware}
use goplatform.Observe.Requests.Recorded.{WholeMilliseconds, finished, run-http_middleware}
use goplatform.Observe.New.{
  Sdk, Signal, traces, metrics, logs, Setting, otlp_endpoint, base_handler, custom_logger_provider,
  new, provide, apply_options, apply_option, resource_attributes,
}
use goplatform.Observe.Balance.{TracksProviders, Balanced, new_balance}
use goplatform.Observe.Delivery.{leaves, add_each, derive_all, deliver, swap_handle-deliver}

-- The world is what the console has shown; handler 0 is the console, the others fail.
abbrev outputs : Sinks (List ℕ) ℕ ℕ ℕ ℕ
outputs = record {
  enabled = λ k ds l. leb 1 l;
  handle = λ k ds r w. if k == 0 then (r ∷ w, none) else (w, some (sentinel "export"));
  level = λ r. 1;
  add_trace = λ r. r + 100;
}

abbrev combined : Handler ℕ ℕ
combined = multi (cons (traced (sink 0 [])) (cons (sink 1 []) nil))

abbrev derivations : List (Derive ℕ)
derivations = attrs (7 ∷ []) ∷ group "orders" ∷ []

combined_enabled : swap_enabled outputs combined (derive_all derivations new_swap_handler) 1 ≡ true
unfolding swap_enabled current build_each derive enabled derive_swap new_swap_handler derive_all
combined_enabled = refl

swap_handle-deliver_example :
    swap_handle outputs combined (derive_all derivations new_swap_handler) 5 []
    ≡ deliver outputs (add_each derivations (leaves 0 combined)) 5 []
swap_handle-deliver_example =
    swap_handle-deliver outputs (λ r. refl) combined derivations 5 [] combined_enabled

-- Three providers, of which the second does not shut down; the world counts.
abbrev providers : Otel ℕ ℕ ℕ ℕ ℕ
providers = record {
  new_handler = λ name lp. sink lp [];
  shutdown = λ p w. (w + p, if p == 2 then some (sentinel "timeout") else none);
}

abbrev observer : Observer ℕ ℕ ℕ ℕ
observer = record {
  service_name = "orders";
  service_version = "";
  otlp_endpoint = "";
  base_handler = some (sink 0 []);
  swap_root = some combined;
  tp = none;
  mp = none;
  lp = none;
  custom_tp = false;
  custom_mp = false;
  custom_lp = false;
  owned_tp = some 1;
  owned_mp = some 2;
  owned_lp = some 4;
  started = true;
}

stop_settles_example : Stopped providers observer 0 "timeout" (stop providers observer 0)
stop_settles_example = stop_settles providers observer 0 "timeout" refl

-- The world is the number of providers that run; the exporter of metrics cannot be made for "down:4317".
abbrev sdk : Sdk Numbered ℕ ℕ ℕ ℕ
sdk = record {
  new_resource = λ attributes. inl 0;
  new_exporter = λ s endpoint w. elim s [
    | traces ↦ (w, inl 0)
    | metrics ↦ if str_eq endpoint "down:4317" then (w, inr (sentinel "no route")) else (w, inl 0)
    | logs ↦ (w, inl 0)
  ];
  new_provider = λ s res x w. (make_one w, w.0);
  as_interface = λ p. p;
}

abbrev shutting_down : Otel Numbered ℕ ℕ ℕ ℕ
shutting_down = record {
  new_handler = λ name lp. sink lp [];
  shutdown = λ p w. (release_one p w, none);
}

new_exporter_keeps :
    (s : Signal) (endpoint : String) (w : Numbered) → (sdk.new_exporter s endpoint w).0 ≡ w
new_exporter_keeps traces endpoint w = refl
new_exporter_keeps metrics endpoint w = elim (Bool-cases (str_eq endpoint "down:4317")) [
  | inl down ↦ rw down refl
  | inr up ↦ rw up refl
]
new_exporter_keeps logs endpoint w = refl

sdk-TracksProviders : TracksProviders sdk shutting_down same_number numbered_live
sdk-TracksProviders = record {
  identity = same_number-Identity;
  made = λ s res x w. make_one-live w;
  made_new = λ s res x w. make_one-new w;
  exporter_keeps = λ s endpoint w. ap numbered_live (new_exporter_keeps s endpoint w);
  shut = λ p w. release_one-live p w;
}

abbrev none_made : Numbered
none_made = (0, λ p. false)

abbrev settings : String → List (Setting ℕ ℕ ℕ)
settings endpoint =
    otlp_endpoint endpoint ∷ base_handler (sink 0 []) ∷ custom_logger_provider (some 9) ∷ []

-- The provider of traces is left running.
metrics_fail : (new sdk (settings "down:4317") none_made).0.0 ≡ 1
unfolding new provide apply_options apply_option resource_attributes with_otlp_endpoint
    with_base_handler with_logger_provider
metrics_fail = refl

new_balance_example :
    Balanced sdk shutting_down same_number numbered_live sdk-TracksProviders
      (numbered_live none_made)
      (new sdk (settings "otel:4317") none_made)
new_balance_example =
    new_balance sdk shutting_down same_number numbered_live sdk-TracksProviders
      (settings "otel:4317") none_made

-- A connection that does nothing; the world keeps the statuses that are set on spans.
abbrev quiet : Conn (List ℕ)
quiet = record {
  set_header = λ k v w. w;
  write_header = λ code w. w;
  write = λ b w. (w, none);
  log = λ e w. w;
  now = λ w. 7;
  random = λ n w. [];
}

abbrev tracer : Tracing (List ℕ)
tracer = record {
  start = λ name r w. w;
  set_status = λ code w. code ∷ w;
  count = λ method code w. w;
  duration = λ method code d w. w;
  end_span = λ w. w;
}

-- A second WriteHeader, which net/http ignores.
abbrev failing_late : HttpHandler (List ℕ)
failing_late r = write_header 200 (write (plain_text "[1, 2") (λ err. write_header 500 done))

abbrev order_request : Request
order_request = record { method = "GET"; path = "/orders"; request_id = [] }

-- The span has the status 500, the response 200.
late_status :
    ((run quiet (http_middleware tracer failing_late order_request) []).0 ≡ 500 ∷ [])
    × (committed none (run quiet (failing_late order_request) []).1 ≡ some 200)
unfolding run http_middleware committed
late_status = (refl, refl)

two_milliseconds : milliseconds (pos 2_999_999) ≡ pos 2
unfolding milliseconds
two_milliseconds = refl

run-http_middleware_example :
    let ran = run quiet (failing_late order_request) [] in
    (ms : ℤ) × WholeMilliseconds (sub_ℕ (quiet.now ran.0) (quiet.now [])) ms
    × (run quiet (http_middleware tracer failing_late order_request) []
        ≡ finished quiet tracer order_request ms 200 ran)
run-http_middleware_example = run-http_middleware quiet tracer failing_late order_request []
