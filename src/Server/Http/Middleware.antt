-- ===== src/Server/Http/Middleware.antt =====
-- pkg/server/middleware.go: the capturing responseWriter, Recovery and RequestLogging.
use goplatform.Prelude.{ℕ, String, Bool, true, false, List, [], ◌∷◌, str_eq, ◌||◌, if◌then◌else◌}
use goplatform.Prelude.{sub_ℕ}
use goplatform.Server.Http.{
  Request, json_error, panic_recovered, request_completed, Handling, done, panic, set_header,
  write_header, write, log, now, random, call, Handler, Middleware,
}
use goplatform.Server.Http.RequestIds.{generate_request_id}

-- `responseWriter`, without the writer that it wraps.
pub record ResponseWriter : Type 0 where
  pub status_code : ℕ
  pub written : Bool

-- What WriteHeader and Write do to the fields.
unfoldable pub capture : ℕ → ResponseWriter → ResponseWriter
capture code rw = if rw.written then rw else record { status_code = code; written = true }

abbrev pub new_writer : ResponseWriter
new_writer = record { status_code = 200; written = false }

-- A repeated path is in the map once; only membership is read.
unfoldable pub skipped : List String → String → Bool
skipped [] path = false
skipped (p ∷ ps) path = str_eq p path || skipped ps path

module _ {W : Type 0} where
  -- `next.ServeHTTP(rw, r)`, then `after` with the fields of rw: the calls of the handler go through
  -- rw to the wrapped writer. After a panic nothing follows.
  unfoldable pub through : ResponseWriter → Handling W → (ResponseWriter → Handling W) → Handling W
  unfolding capture
  through rw done after = after rw
  through rw (panic p) after = panic p
  through rw (set_header k v next) after = set_header k v (through rw next after)
  through rw (write_header code next) after =
      write_header code (through (capture code rw) next after)
  through rw (write b next) after = write b (λ err. through (capture 200 rw) (next err) after)
  through rw (log e next) after = log e (through rw next after)
  through rw (now next) after = now (λ t. through rw (next t) after)
  through rw (random n next) after = random n (λ bytes. through rw (next bytes) after)
  through rw (call f next) after = call f (λ err. through rw (next err) after)

  -- The deferred function of Recovery where there is a panic.
  unfoldable pub recovered : Request → String → Handling W
  recovered r p = log (panic_recovered p r.method r.path) (
      set_header "Content-Type" "application/json"
        (write_header 500 (write (json_error "internal server error") (λ err. done))))

  unfoldable pub recover : Request → Handling W → Handling W
  unfolding recovered
  recover r done = done
  recover r (panic p) = recovered r p
  recover r (set_header k v next) = set_header k v (recover r next)
  recover r (write_header code next) = write_header code (recover r next)
  recover r (write b next) = write b (λ err. recover r (next err))
  recover r (log e next) = log e (recover r next)
  recover r (now next) = now (λ t. recover r (next t))
  recover r (random n next) = random n (λ bytes. recover r (next bytes))
  recover r (call f next) = call f (λ err. recover r (next err))

  unfoldable pub recovery : Middleware W
  unfolding recover
  recovery next r = recover r (next r)

  -- After the request id is known.
  unfoldable pub logged_request : Handler W → Request → List ℕ → Handling W
  unfolding through
  logged_request next r id = now (λ start. through new_writer (next r) (λ rw.
      now
        (λ end. log (request_completed r.method r.path rw.status_code (sub_ℕ end start) id) done)))

  -- The request's own id, unless it is empty.
  unfoldable pub with_request_id : List ℕ → (List ℕ → Handling W) → Handling W
  unfolding generate_request_id
  with_request_id [] next = random 16 (λ bytes. next (generate_request_id bytes))
  with_request_id (c ∷ cs) next = next (c ∷ cs)

  unfoldable pub request_logging : List String → Middleware W
  unfolding skipped logged_request with_request_id
  request_logging skip next r =
      if skipped skip r.path then next r else with_request_id r.request_id (logged_request next r)
