-- ===== src/Server/Http.antt =====
-- pkg/server/server.go and middleware.go. A handler is a program over the ResponseWriter that it is
-- given, so that a middleware may put a writer of its own in between; net/http, the clock and the
-- random source are the parameter `Conn`.
pub mod Middleware
pub mod Passing
pub mod RequestIds
pub mod Health
pub mod Lifecycle
pub mod Ordering
mod Tests
use goplatform.Prelude.{ℕ, ℤ, String, ◌≡◌, refl, Option, none, some, List, [], ◌∷◌, ◌++◌}
use goplatform.Prelude.Dict.{Dict}
use goplatform.Errors.{Error, Chunk}

-- What the source reads of a request. The id is the text under X-Request-Id, as its bytes.
pub record Request : Type 0 where
  pub method : String
  pub path : String
  pub request_id : List ℕ

-- `healthResponse`
pub record HealthResponse : Type 0 where
  pub status : String
  pub checks : Dict Chunk

-- What is written: plain text, and the JSON of a map and of a healthResponse.
pub data Body : Type 0 where
  plain_text : String → Body
  json_error : String → Body
  json_health : HealthResponse → Body

-- The two entries that the middlewares log. The stack is left out.
pub data Entry : Type 0 where
  panic_recovered : String → String → String → Entry
  request_completed : String → String → ℕ → ℤ → List ℕ → Entry

-- The body of an `http.HandlerFunc`: it returns, panics with a value, calls its ResponseWriter, logs,
-- reads the clock or random bytes, or calls something outside and goes on with the error.
pub data Handling (W : Type 0) : Type 0 where
  done : Handling W
  panic : String → Handling W
  set_header : String → String → Handling W → Handling W
  write_header : ℕ → Handling W → Handling W
  write : Body → (Option Error → Handling W) → Handling W
  log : Entry → Handling W → Handling W
  now : (ℕ → Handling W) → Handling W
  random : ℕ → (List ℕ → Handling W) → Handling W
  call : (W → W × Option Error) → (Option Error → Handling W) → Handling W

abbrev pub Handler : Type 0 → Type 0
Handler W = Request → Handling W

abbrev pub Middleware : Type 0 → Type 0
Middleware W = Handler W → Handler W

-- The connection's own ResponseWriter, the logger, the clock, in nanoseconds, and the random source.
pub record Conn (W : Type 0) : Type 0 where
  pub set_header : String → String → W → W
  pub write_header : ℕ → W → W
  pub write : Body → W → W × Option Error
  pub log : Entry → W → W
  pub now : W → ℕ
  pub random : ℕ → W → List ℕ

-- A call on the connection's ResponseWriter or the logger.
pub data Output : Type 0 where
  header : String → String → Output
  status : ℕ → Output
  body : Body → Output
  logged : Entry → Output

pub data Ending : Type 0 where
  returned : Ending
  panicked : String → Ending

-- A call ahead of the others.
abbrev pub emit : {W : Type 0} → Output → W × List Output × Ending → W × List Output × Ending
emit c (w, calls, ending) = (w, c ∷ calls, ending)

module _ {W : Type 0} (conn : Conn W) where
  -- What running a handler does: the world after it, the calls in order, and how it ends.
  unfoldable pub run : Handling W → W → W × List Output × Ending
  run done w = (w, [], returned)
  run (panic p) w = (w, [], panicked p)
  run (set_header k v next) w = emit (header k v) (run next (conn.set_header k v w))
  run (write_header code next) w = emit (status code) (run next (conn.write_header code w))
  run (write b next) w = let (w1, err) = conn.write b w in emit (body b) (run (next err) w1)
  run (log e next) w = emit (logged e) (run next (conn.log e w))
  run (now next) w = run (next (conn.now w)) w
  run (random n next) w = run (next (conn.random n w)) w
  run (call f next) w = let (w1, err) = f w in run (next err) w1
