-- ===== src/Observe/Requests/Recorded.antt =====
-- What HTTPMiddleware does to a request, and which status it records.
use Prim.Native.String.{◌++◌ as ◌<>◌}
use goplatform.Prelude.{
  ℕ, suc, ◌+◌, ◌*◌, ◌/◌, ◌%◌, ◌<◌, ℤ, pos, negsuc, ◌≡◌, refl, ap, ◌∙◌, false, Option, none, some,
  List, [], ◌∷◌, sub_ℕ, arith,
}
use goplatform.Server.Http.{
  Request, Handling, done, panic, set_header, write_header, write, log, now, random, call, Handler,
  Conn, Output, header, status, body, logged, Ending, returned, panicked, run, emit,
}
use goplatform.Server.Http.Passing.{commit_with, committed, informational, status_or_ok}
use goplatform.Observe.Requests.{Tracing, milliseconds, recording, report, http_middleware}

-- The status of the last WriteHeader, or `code`.
pub last_status : ℕ → List Output → ℕ
last_status code [] = code
last_status code (header k v ∷ calls) = last_status code calls
last_status code (status c ∷ calls) = last_status c calls
last_status code (body b ∷ calls) = last_status code calls
last_status code (logged e ∷ calls) = last_status code calls

module _ {W : Type 0} (conn : Conn W) (tracing : Tracing W) where
  -- What follows the handler, which took so many milliseconds.
  abbrev pub finished : Request → ℤ → ℕ → W × List Output × Ending → W × List Output × Ending
  finished r ms code (w, calls, returned) =
      let c = last_status code calls in
      (
        tracing.end_span
            (tracing.duration r.method c ms (tracing.count r.method c (tracing.set_status c w))),
        calls,
        returned,
      )
  finished r ms code (w, calls, panicked p) = (tracing.end_span w, calls, panicked p)

  emit-finished :
      (r : Request) (ms : ℤ) (code next_code : ℕ) (c : Output) (s : W × List Output × Ending)
      → ((calls : List Output) → last_status code (c ∷ calls) ≡ last_status next_code calls)
      → emit c (finished r ms next_code s) ≡ finished r ms code (emit c s)
  emit-finished r ms code next_code c (w, calls, returned) h = rw (h calls) refl
  emit-finished r ms code next_code c (w, calls, panicked p) h = refl

  -- In milliseconds, the time from `start` to the end of the handler.
  abbrev took : ℕ → W × List Output × Ending → ℤ
  took start ran = milliseconds (sub_ℕ (conn.now ran.0) start)

  run-recording :
      (h : Handling W) (r : Request) (start code : ℕ) (w : W)
      → let ran = run conn h w in
        run conn (recording tracing code h (report tracing r start)) w
        ≡ finished r (took start ran) code ran
  unfolding run recording report last_status
  run-recording done r start code w = refl
  run-recording (panic p) r start code w = refl
  run-recording (set_header k v next) r start code w =
      let ran = run conn next (conn.set_header k v w) in
      ap (emit (header k v)) (run-recording next r start code _)
      ∙ emit-finished r (took start ran) code code (header k v) ran (λ calls. refl)
  run-recording (write_header c next) r start code w =
      let ran = run conn next (conn.write_header c w) in
      ap (emit (status c)) (run-recording next r start c _)
      ∙ emit-finished r (took start ran) code c (status c) ran (λ calls. refl)
  run-recording (write b next) r start code w =
      let ran = run conn (next (conn.write b w).1) (conn.write b w).0 in
      ap (emit (body b)) (run-recording (next (conn.write b w).1) r start code _)
      ∙ emit-finished r (took start ran) code code (body b) ran (λ calls. refl)
  run-recording (log e next) r start code w =
      let ran = run conn next (conn.log e w) in
      ap (emit (logged e)) (run-recording next r start code _)
      ∙ emit-finished r (took start ran) code code (logged e) ran (λ calls. refl)
  run-recording (now next) r start code w = run-recording (next (conn.now w)) r start code w
  run-recording (random n next) r start code w =
      run-recording (next (conn.random n w)) r start code w
  run-recording (call f next) r start code w = run-recording (next (f w).1) r start code (f w).0

-- The whole milliseconds of a number of nanoseconds: what is left is less than one, and the sign stays.
pub data WholeMilliseconds (d : ℤ) : ℤ → Type 0 where
  forward : (m r : ℕ) → r < 1_000_000 → d ≡ pos (m * 1_000_000 + r) → WholeMilliseconds d (pos m)
  back :
      (m r : ℕ) → r < 1_000_000 → d ≡ sub_ℕ 0 (m * 1_000_000 + r) → WholeMilliseconds d (sub_ℕ 0 m)

milliseconds-Whole : (d : ℤ) → WholeMilliseconds d (milliseconds d)
unfolding milliseconds
milliseconds-Whole (pos n) =
    forward (n / 1_000_000) (n % 1_000_000) (omega arith) (ap pos (omega arith))
milliseconds-Whole (negsuc n) =
    back (suc n / 1_000_000) (suc n % 1_000_000) (omega arith)
      (negsuc_lem n ∙ ap (sub_ℕ 0) (omega arith))
  where
    negsuc_lem : (n : ℕ) → negsuc n ≡ sub_ℕ 0 (suc n)
    negsuc_lem n = ground arith

-- No WriteHeader after the response has committed a status, and none with an informational one.
pub StatusFirst : Option ℕ → List Output → Type 0
StatusFirst o [] = Unit
StatusFirst o (header k v ∷ calls) = StatusFirst o calls
StatusFirst o (logged e ∷ calls) = StatusFirst o calls
StatusFirst o (body b ∷ calls) = StatusFirst (commit_with o (body b)) calls
StatusFirst o (status c ∷ calls) =
    (o ≡ none) × (informational c ≡ false) × StatusFirst (some c) calls

last_status-committed :
    (o : Option ℕ) (calls : List Output)
    → StatusFirst o calls
    → last_status (status_or_ok o) calls ≡ status_or_ok (committed o calls)
unfolding StatusFirst last_status committed commit_with
last_status-committed o [] h = refl
last_status-committed none (header k v ∷ calls) h = last_status-committed none calls h
last_status-committed (some c) (header k v ∷ calls) h = last_status-committed (some c) calls h
last_status-committed none (logged e ∷ calls) h = last_status-committed none calls h
last_status-committed (some c) (logged e ∷ calls) h = last_status-committed (some c) calls h
last_status-committed none (body b ∷ calls) h = last_status-committed (some 200) calls h
last_status-committed (some c) (body b ∷ calls) h = last_status-committed (some c) calls h
last_status-committed none (status c ∷ calls) (e, final, h) =
    rw final (last_status-committed (some c) calls h)
last_status-committed (some x) (status c ∷ calls) (e, final, h) = cc

module _ {W : Type 0} (conn : Conn W) (tracing : Tracing W) where
  -- HTTPMiddleware passes on what the handler does, in the same order and with the same effects, inside a
  -- span that it ends in every case. After a handler that returns it sets the status on the span and records
  -- the count and the duration, all three with the status of the handler's last WriteHeader, 200 if there is
  -- none. The duration is the time that the handler took, of which the clock counts nanoseconds, in whole
  -- milliseconds. After a panic it records nothing.
  pub run-http_middleware :
      (next : Handler W) (r : Request) (w : W)
      → let w1 = tracing.start (r.method <> " " <> r.path) r w in
        let ran = run conn (next r) w1 in
        (ms : ℤ) × WholeMilliseconds (sub_ℕ (conn.now ran.0) (conn.now w1)) ms
        × (run conn (http_middleware tracing next r) w ≡ finished conn tracing r ms 200 ran)
  unfolding run http_middleware
  run-http_middleware next r w =
      let w1 = tracing.start (r.method <> " " <> r.path) r w in
      (_, milliseconds-Whole _, run-recording conn tracing (next r) r (conn.now w1) 200 w1)

  -- The status that is recorded is the one that the response has committed, if the handler calls
  -- WriteHeader at most once, before it writes, and not with an informational status.
  pub recorded_status :
      (next : Handler W) (r : Request) (w : W)
      → StatusFirst none (run conn (next r) w).1
      → last_status 200 (run conn (next r) w).1
        ≡ status_or_ok (committed none (run conn (next r) w).1)
  recorded_status next r w h = last_status-committed none (run conn (next r) w).1 h
