-- ===== src/Observe/Requests.antt =====
-- pkg/observe/middleware.go and connectinterceptor.go: the span and the metrics of a request. A handler is
-- that of Server.Http. The tracer and the instruments are parameters; the request's own span, which the
-- context carries, is part of the world.
pub mod Recorded
use Prim.Native.String.{◌++◌ as ◌<>◌}
use goplatform.Prelude.{ℕ, suc, ◌/◌, ℤ, pos, negsuc, String, Option, none, some, sub_ℕ}
use goplatform.Errors.{Error}
use goplatform.Server.Http.{
  Request, Handling, done, panic, set_header, write_header, write, log, now, random, call,
  Middleware,
}

-- `start` takes the name and the request, whose method and URL are attributes. `count` and `duration` take
-- the method and the status that are attributes of the two metrics.
pub record Tracing (W : Type 0) : Type 0 where
  pub start : String → Request → W → W
  pub set_status : ℕ → W → W
  pub count : String → ℕ → W → W
  pub duration : String → ℕ → ℤ → W → W
  pub end_span : W → W

-- A call that returns nothing.
abbrev pub effect : {W : Type 0} → (W → W) → Handling W → Handling W
effect f next = call (λ w. (f w, none)) (λ err. next)

-- time.Duration.Milliseconds, which divides the nanoseconds and rounds towards zero. As a float64 the
-- result is the same number, since a Duration has fewer than 2 ^ 53 milliseconds.
unfoldable pub milliseconds : ℤ → ℤ
milliseconds (pos n) = pos (n / 1_000_000)
milliseconds (negsuc n) = sub_ℕ 0 (suc n / 1_000_000)

module _ {W : Type 0} (tracing : Tracing W) where
  -- `next.ServeHTTP(rec, r)`, and then `after` with the status code of rec. `Write` is that of the wrapped
  -- writer. A panic runs the deferred End.
  unfoldable pub recording : ℕ → Handling W → (ℕ → Handling W) → Handling W
  recording code done after = after code
  recording code (panic p) after = effect tracing.end_span (panic p)
  recording code (set_header k v next) after = set_header k v (recording code next after)
  recording code (write_header c next) after = write_header c (recording c next after)
  recording code (write b next) after = write b (λ err. recording code (next err) after)
  recording code (log e next) after = log e (recording code next after)
  recording code (now next) after = now (λ t. recording code (next t) after)
  recording code (random n next) after = random n (λ bytes. recording code (next bytes) after)
  recording code (call f next) after = call f (λ err. recording code (next err) after)

  -- After the handler.
  unfoldable pub report : Request → ℕ → ℕ → Handling W
  unfolding milliseconds
  report r start code = now (λ end. effect (tracing.set_status code) (
      effect (tracing.count r.method code) (
        effect (tracing.duration r.method code (milliseconds (sub_ℕ end start)))
          (effect tracing.end_span done))))

  unfoldable pub http_middleware : Middleware W
  unfolding recording report milliseconds
  http_middleware next r =
      effect (tracing.start (r.method <> " " <> r.path) r)
        (now (λ start. recording 200 (next r) (report r start)))

-- What a unary call returns, both of its results, or its panic.
pub data Reply (R : Type 0) : Type 0 where
  replied : R → Option Error → Reply R
  panicked : String → Reply R

-- The span of a call: with its procedure, the error that is recorded and set as its status, and its end.
pub record CallSpan (W : Type 0) : Type 0 where
  pub start : String → W → W
  pub record_error : Error → W → W
  pub set_error : Error → W → W
  pub end_span : W → W

module _ {W R : Type 0} (span : CallSpan W) where
  abbrev pub ended : W × Reply R → W × Reply R
  ended (w, replied r none) = (span.end_span w, replied r none)
  ended (w, replied r (some e)) =
      (span.end_span (span.set_error e (span.record_error e w)), replied r (some e))
  ended (w, panicked p) = (span.end_span w, panicked p)

  unfoldable pub connect_interceptor :
      {Q : Type 0} → (Q → W → W × Reply R) → String → Q → W → W × Reply R
  connect_interceptor next procedure req w = ended (next req (span.start procedure w))
