-- ===== src/Server/Http/Passing.antt =====
-- What Recovery and RequestLogging do to a request that passes through them.
use goplatform.Prelude.{
  Bool-cases, inl, inr, ℕ, String, ◌≡◌, refl, sym, subst, ap, ◌∙◌, Bool, true, false, not, ◌&&◌,
  leb, ◌==◌, Option, none, some, List, [], ◌∷◌, ◌++◌, sub_ℕ, if◌then◌else◌,
}
use goplatform.Server.Http.{
  Request, Body, json_error, Entry, panic_recovered, request_completed, Handling, done, panic,
  set_header, write_header, write, log, now, random, call, Handler, Conn, Output, header, status,
  body, logged, Ending, returned, panicked, run, emit,
}
use goplatform.Server.Http.Middleware.{
  ResponseWriter, capture, new_writer, skipped, through, recovered, recover, recovery,
  logged_request, with_request_id, request_logging,
}
use goplatform.Server.Http.RequestIds.{generate_request_id}

-- The status of the first WriteHeader or Write, where a Write is taken for WriteHeader(200).
unfoldable pub first_with : Option ℕ → Output → Option ℕ
first_with (some code) c = some code
first_with none (header k v) = none
first_with none (status code) = some code
first_with none (body b) = some 200
first_with none (logged e) = none

unfoldable pub first_code : Option ℕ → List Output → Option ℕ
unfolding first_with
first_code o [] = o
first_code o (c ∷ calls) = first_code (first_with o c) calls

-- The informational statuses, which net/http sends at once and which are not the response's status; 101 is.
abbrev pub informational : ℕ → Bool
informational code = leb 100 code && (leb code 199 && not (code == 101))

-- What net/http commits: the first status that is not informational stays, and a write without one commits 200.
unfoldable pub commit_with : Option ℕ → Output → Option ℕ
commit_with (some code) c = some code
commit_with none (header k v) = none
commit_with none (status code) = if informational code then none else some code
commit_with none (body b) = some 200
commit_with none (logged e) = none

-- The status that a response has committed after these calls.
unfoldable pub committed : Option ℕ → List Output → Option ℕ
unfolding commit_with
committed o [] = o
committed o (c ∷ calls) = committed (commit_with o c) calls

-- No informational status.
pub FinalOnly : List Output → Type 0
FinalOnly [] = Unit
FinalOnly (status code ∷ calls) = (informational code ≡ false) × FinalOnly calls
FinalOnly (header k v ∷ calls) = FinalOnly calls
FinalOnly (body b ∷ calls) = FinalOnly calls
FinalOnly (logged e ∷ calls) = FinalOnly calls

-- The first status is the one that is committed, if the handler sends no informational one.
pub first_code-committed :
    (o : Option ℕ) (calls : List Output) → FinalOnly calls → first_code o calls ≡ committed o calls
unfolding first_code committed first_with commit_with FinalOnly
first_code-committed o [] final = refl
first_code-committed (some c) (header k v ∷ calls) final = first_code-committed (some c) calls final
first_code-committed (some c) (status x ∷ calls) (h, final) =
    first_code-committed (some c) calls final
first_code-committed (some c) (body b ∷ calls) final = first_code-committed (some c) calls final
first_code-committed (some c) (logged e ∷ calls) final = first_code-committed (some c) calls final
first_code-committed none (header k v ∷ calls) final = first_code-committed none calls final
first_code-committed none (status x ∷ calls) (h, final) =
    rw h (first_code-committed (some x) calls final)
first_code-committed none (body b ∷ calls) final = first_code-committed (some 200) calls final
first_code-committed none (logged e ∷ calls) final = first_code-committed none calls final

-- `statusCode`, with the 200 that stands where there is none.
abbrev pub status_or_ok : Option ℕ → ℕ
status_or_ok none = 200
status_or_ok (some code) = code

abbrev of_option : Option ℕ → ResponseWriter
of_option none = new_writer
of_option (some code) = record { status_code = code; written = true }

-- What follows a handler that went through: nothing after a panic.
abbrev pub then_after :
    {W : Type 0}
    → W × List Output × Ending
    → (W → List Output → W × List Output × Ending)
    → W × List Output × Ending
then_after (w, calls, panicked p) after = (w, calls, panicked p)
then_after (w, calls, returned) after =
    let (w', more, ending) = after w calls in (w', calls ++ more, ending)

emit-then_after :
    {W : Type 0} (c : Output) (r : W × List Output × Ending)
    (after : W → List Output → W × List Output × Ending)
    → emit c (then_after r (λ w calls. after w (c ∷ calls))) ≡ then_after (emit c r) after
emit-then_after c (w, calls, returned) after = refl
emit-then_after c (w, calls, panicked p) after = refl

capture-first_with :
    (o : Option ℕ) (code : ℕ) → capture code (of_option o) ≡ of_option (first_with o (status code))
unfolding capture first_with
capture-first_with none code = refl
capture-first_with (some c) code = refl

first_with-body : (o : Option ℕ) (b : Body) → first_with o (body b) ≡ first_with o (status 200)
unfolding first_with
first_with-body none b = refl
first_with-body (some c) b = refl

first_with-header : (o : Option ℕ) (k v : String) → first_with o (header k v) ≡ o
unfolding first_with
first_with-header none k v = refl
first_with-header (some c) k v = refl

first_with-logged : (o : Option ℕ) (e : Entry) → first_with o (logged e) ≡ o
unfolding first_with
first_with-logged none e = refl
first_with-logged (some c) e = refl

module _ {W : Type 0} (conn : Conn W) where
  abbrev resume :
      Option ℕ → (ResponseWriter → Handling W) → W → List Output → W × List Output × Ending
  resume o after w calls = run conn (after (of_option (first_code o calls))) w

  -- One call, with the writer's fields after it.
  through_call :
      (c : Output) (o : Option ℕ) (rw' : ResponseWriter) (next : Handling W)
      (after : ResponseWriter → Handling W) (w : W)
      → rw' ≡ of_option (first_with o c)
      → run conn (through (of_option (first_with o c)) next after) w
        ≡ then_after (run conn next w) (resume (first_with o c) after)
      → emit c (run conn (through rw' next after) w)
        ≡ then_after (emit c (run conn next w)) (resume o after)
  unfolding first_code
  through_call c o rw' next after w e ih =
      subst
        (λ x.
          emit c (run conn (through x next after) w)
          ≡ then_after (emit c (run conn next w)) (resume o after))
        (sym e) (ap (emit c) ih ∙ emit-then_after c (run conn next w) (resume o after))

  run-through :
      (h : Handling W) (o : Option ℕ) (after : ResponseWriter → Handling W) (w : W)
      → run conn (through (of_option o) h after) w ≡ then_after (run conn h w) (resume o after)
  unfolding run through first_code
  run-through done o after w = refl
  run-through (panic p) o after w = refl
  run-through (set_header k v next) o after w =
      through_call (header k v) o (of_option o) next after _
        (ap of_option (sym (first_with-header o k v)))
        (run-through next (first_with o (header k v)) after _)
  run-through (write_header code next) o after w =
      through_call (status code) o _ next after _ (capture-first_with o code)
        (run-through next (first_with o (status code)) after _)
  run-through (write b next) o after w =
      through_call (body b) o _ (next (conn.write b w).1) after _
        (capture-first_with o 200 ∙ ap of_option (sym (first_with-body o b)))
        (run-through (next (conn.write b w).1) (first_with o (body b)) after _)
  run-through (log e next) o after w =
      through_call (logged e) o (of_option o) next after _
        (ap of_option (sym (first_with-logged o e)))
        (run-through next (first_with o (logged e)) after _)
  run-through (now next) o after w = run-through (next (conn.now w)) o after w
  run-through (random n next) o after w = run-through (next (conn.random n w)) o after w
  run-through (call f next) o after w = run-through (next (f w).1) o after (f w).0

  -- What Recovery adds to the run of a handler.
  abbrev pub after_panic : Request → W × List Output × Ending → W × List Output × Ending
  after_panic r (w, calls, returned) = (w, calls, returned)
  after_panic r (w, calls, panicked p) = (
    (run conn (recovered r p) w).0,
    calls
        ++ (logged (panic_recovered p r.method r.path)
            ∷ header "Content-Type" "application/json"
            ∷ status 500
            ∷ body (json_error "internal server error")
            ∷ []),
    returned,
  )

  emit-after_panic :
      (r : Request) (c : Output) (ran : W × List Output × Ending)
      → emit c (after_panic r ran) ≡ after_panic r (emit c ran)
  emit-after_panic r c (w, calls, returned) = refl
  emit-after_panic r c (w, calls, panicked p) = refl

  run-recover :
      (r : Request) (h : Handling W) (w : W)
      → run conn (recover r h) w ≡ after_panic r (run conn h w)
  unfolding run recover recovered
  run-recover r done w = refl
  run-recover r (panic p) w = refl
  run-recover r (set_header k v next) w =
      ap (emit (header k v)) (run-recover r next (conn.set_header k v w))
      ∙ emit-after_panic r (header k v) (run conn next (conn.set_header k v w))
  run-recover r (write_header code next) w =
      ap (emit (status code)) (run-recover r next (conn.write_header code w))
      ∙ emit-after_panic r (status code) (run conn next (conn.write_header code w))
  run-recover r (write b next) w =
      let (w1, err) = conn.write b w in
      ap (emit (body b)) (run-recover r (next err) w1)
      ∙ emit-after_panic r (body b) (run conn (next err) w1)
  run-recover r (log e next) w =
      ap (emit (logged e)) (run-recover r next (conn.log e w))
      ∙ emit-after_panic r (logged e) (run conn next (conn.log e w))
  run-recover r (now next) w = run-recover r (next (conn.now w)) w
  run-recover r (random n next) w = run-recover r (next (conn.random n w)) w
  run-recover r (call f next) w = run-recover r (next (f w).1) (f w).0

  -- Recovery changes nothing of a handler that returns. Where it panics, the calls that it made stay,
  -- and after them the panic is logged and the answer 500 is written, and the panic ends there.
  pub run-recovery :
      (next : Handler W) (r : Request) (w : W)
      → run conn (recovery next r) w ≡ after_panic r (run conn (next r) w)
  unfolding recovery
  run-recovery next r w = run-recover r (next r) w

  -- The id under which a request is logged: its own, or sixteen random bytes.
  abbrev pub logged_id : List ℕ → W → List ℕ
  logged_id [] w = generate_request_id (conn.random 16 w)
  logged_id (c ∷ cs) w = c ∷ cs

  -- What RequestLogging adds to the run of a handler that it does not skip.
  abbrev pub after_return :
      Request → List ℕ → ℕ → W × List Output × Ending → W × List Output × Ending
  after_return r id start (w, calls, panicked p) = (w, calls, panicked p)
  after_return r id start (w, calls, returned) =
      let entry =
        request_completed r.method r.path (status_or_ok (first_code none calls))
          (sub_ℕ (conn.now w) start) id in
      (conn.log entry w, calls ++ logged entry ∷ [], returned)

  status_code-of_option : (o : Option ℕ) → (of_option o).status_code ≡ status_or_ok o
  status_code-of_option none = refl
  status_code-of_option (some c) = refl

  run-logged_request :
      (next : Handler W) (r : Request) (id : List ℕ) (w : W)
      → run conn (logged_request next r id) w ≡ after_return r id (conn.now w) (run conn (next r) w)
  unfolding run logged_request
  run-logged_request next r id w = run-through (next r) none _ w ∙ finish (run conn (next r) w)
    where
      finish :
          (ran : W × List Output × Ending)
          → then_after ran (
              resume none (λ rw. now (λ end.
                log
                  (request_completed r.method r.path rw.status_code (sub_ℕ end (conn.now w)) id)
                  done)))
            ≡ after_return r id (conn.now w) ran
      finish (w', calls, returned) = rw (status_code-of_option (first_code none calls)) refl
      finish (w', calls, panicked p) = refl

  run-with_request_id :
      (next : Handler W) (r : Request) (id : List ℕ) (w : W)
      → run conn (with_request_id id (logged_request next r)) w
        ≡ after_return r (logged_id id w) (conn.now w) (run conn (next r) w)
  unfolding with_request_id run
  run-with_request_id next r [] w = run-logged_request next r _ w
  run-with_request_id next r (c ∷ cs) w = run-logged_request next r (c ∷ cs) w

  -- RequestLogging passes on what the handler does, in the same order and with the same effects. On a
  -- path that it skips it does nothing else. On another path, after a handler that returns, it logs one
  -- entry, with the status of the handler's first WriteHeader, 200 if it writes before that or does
  -- neither, the time that the handler took, and the request's id or one made of random bytes if that is
  -- empty; after a handler that panics it logs nothing.
  pub run-request_logging :
      (skip : List String) (next : Handler W) (r : Request) (w : W)
      → run conn (request_logging skip next r) w ≡ (
          if skipped skip r.path
          then run conn (next r) w
          else after_return r (logged_id r.request_id w) (conn.now w) (run conn (next r) w))
  unfolding request_logging
  run-request_logging skip next r w = elim (Bool-cases (skipped skip r.path)) [
    | inl skips ↦ rw skips refl
    | inr logs ↦ rw logs (run-with_request_id next r r.request_id w)
  ]

  -- Under the middlewares that Start puts first, a request whose handler panics gets the answer 500
  -- after what the handler has written, and the log has the panic but no entry for the request.
  pub default_chain_panic :
      (skip : List String) (next : Handler W) (r : Request) (w : W) (p : String)
      → (run conn (next r) w).2 ≡ panicked p
      → run conn (recovery (request_logging skip next) r) w ≡ after_panic r (run conn (next r) w)
  default_chain_panic skip next r w p h =
      run-recovery (request_logging skip next) r w
      ∙ ap (after_panic r) (run-request_logging skip next r w ∙ passed (run conn (next r) w) h)
    where
      passed :
          (ran : W × List Output × Ending)
          → ran.2 ≡ panicked p
          → (if skipped skip r.path
              then ran
              else after_return r (logged_id r.request_id w) (conn.now w) ran)
            ≡ ran
      passed ran h = elim (Bool-cases (skipped skip r.path)) [
        | inl skips ↦ rw skips refl
        | inr logs ↦ rw (logs, h) (rw (sym h) refl)
      ]
