-- ===== src/Server/Http/Health.antt =====
-- The health endpoints of pkg/server/server.go. The readiness handler calls each checker in turn;
-- App.Health builds the map of checkers.
use goplatform.Prelude.{
  ℕ, String, ◌≡◌, refl, sym, ap, ap₂, ◌∙◌, Bool, true, false, Option, none, some, List, [], ◌∷◌,
  ◌++◌, str_eq, if◌then◌else◌, Bool-cases, inl, inr, append_assoc, append-nil, arith,
}
use goplatform.Prelude.Dict.{Dict, lookup, insert, Distinct, insert-fresh, lookup-front}
use goplatform.Errors.{Error, Chunk, lit, shown_error}
use goplatform.App.{request, App}
use goplatform.App.Health.{HealthCheck, health_checkers, health_checkers-Distinct}
use goplatform.Server.Http.{
  Request, HealthResponse, plain_text, json_health, Handling, done, set_header, write_header, write,
  call, Handler, Conn, Output, header, status, body, Ending, returned, run, emit,
}

-- The loop's effect on the response for one checker.
unfoldable pub note_check : String → Option Error → HealthResponse → HealthResponse
note_check name none resp = record resp { checks = insert name (lit "ok") resp.checks }
note_check name (some e) resp = record {
  status = "degraded";
  checks = insert name (shown_error e) resp.checks;
}

module _ {W : Type 0} where
  unfoldable pub check_each :
      Dict (HealthCheck W) → HealthResponse → (HealthResponse → Handling W) → Handling W
  unfolding note_check
  check_each [] resp next = next resp
  check_each ((name, check) ∷ rest) resp next =
      call (check request) (λ err. check_each rest (note_check name err resp) next)

  -- The status line and the body.
  unfoldable pub answer : HealthResponse → Handling W
  answer resp =
      write_header (if str_eq resp.status "ok" then 200 else 503)
        (write (json_health resp) (λ err. done))

  unfoldable pub handle_live : Handler W
  handle_live r =
      set_header "Content-Type" "application/json" (
        write_header 200
          (write (json_health (record { status = "ok"; checks = [] })) (λ err. done)))

  unfoldable pub handle_ready : Dict (HealthCheck W) → Handler W
  unfolding check_each answer
  handle_ready checkers r =
      set_header "Content-Type" "application/json"
        (check_each checkers (record { status = "ok"; checks = [] }) answer)

  unfoldable pub handle_metrics : Handler W
  handle_metrics r =
      set_header "Content-Type" "text/plain"
        (write_header 200 (write (plain_text "# metrics placeholder\n") (λ err. done)))

  -- The checkers called one after the other, with what each returns.
  pub results : Dict (HealthCheck W) → W → W × Dict (Option Error)
  results [] w = (w, [])
  results ((name, check) ∷ rest) w =
      let (w1, err) = check request w in
      let (w2, later) = results rest w1 in (w2, (name, err) ∷ later)

abbrev pub check_text : Option Error → Chunk
check_text none = lit "ok"
check_text (some e) = shown_error e

abbrev pub check_texts : Dict (Option Error) → Dict Chunk
check_texts [] = []
check_texts ((name, err) ∷ rest) = (name, check_text err) ∷ check_texts rest

unfoldable pub all_ok : Dict (Option Error) → Bool
all_ok [] = true
all_ok ((name, none) ∷ rest) = all_ok rest
all_ok ((name, some e) ∷ rest) = false

-- The response that the loop makes of the checkers' results.
note_all : Dict (Option Error) → HealthResponse → HealthResponse
note_all [] resp = resp
note_all ((name, err) ∷ rest) resp = note_all rest (note_check name err resp)

status-note_all :
    (errs : Dict (Option Error)) (resp : HealthResponse)
    → (note_all errs resp).status ≡ (if all_ok errs then resp.status else "degraded")
unfolding note_all note_check all_ok
status-note_all [] resp = refl
status-note_all ((name, none) ∷ rest) resp = status-note_all rest _
status-note_all ((name, some e) ∷ rest) resp = status-note_all rest _ ∙ ground arith

checks-note_check :
    (name : String) (err : Option Error) (resp : HealthResponse)
    → lookup name resp.checks ≡ none
    → (note_check name err resp).checks ≡ resp.checks ++ (name, check_text err) ∷ []
unfolding note_check
checks-note_check name none resp fresh = insert-fresh name (lit "ok") resp.checks fresh
checks-note_check name (some e) resp fresh = insert-fresh name (shown_error e) resp.checks fresh

checks-note_all :
    (errs : Dict (Option Error)) (resp : HealthResponse)
    → Distinct (resp.checks ++ check_texts errs)
    → (note_all errs resp).checks ≡ resp.checks ++ check_texts errs
unfolding note_all
checks-note_all [] resp distinct = sym (append-nil resp.checks)
checks-note_all ((name, err) ∷ rest) resp distinct =
    let added =
      checks-note_check name err resp
        (lookup-front resp.checks (check_texts rest) name (check_text err) distinct) in
    checks-note_all rest (note_check name err resp) (rw added (simp append_assoc distinct))
    ∙ rw added (append_assoc resp.checks _ _)

lookup-results :
    {W : Type 0} (checkers : Dict (HealthCheck W)) (w : W) (key : String)
    → lookup key checkers ≡ none
    → lookup key (check_texts (results checkers w).1) ≡ none
unfolding results lookup
lookup-results [] w key h = refl
lookup-results ((name, check) ∷ rest) w key h =
    let later = lookup-results rest (check request w).0 key in ground (arith, h, later)

Distinct-results :
    {W : Type 0} (checkers : Dict (HealthCheck W)) (w : W)
    → Distinct checkers
    → Distinct (check_texts (results checkers w).1)
unfolding results Distinct
Distinct-results [] w h = _
Distinct-results ((name, check) ∷ rest) w (fresh, distinct) = (
  lookup-results rest (check request w).0 name fresh,
  Distinct-results rest (check request w).0 distinct,
)

run-check_each :
    {W : Type 0} (conn : Conn W) (checkers : Dict (HealthCheck W)) (resp : HealthResponse)
    (next : HealthResponse → Handling W) (w : W)
    → let (w', errs) = results checkers w in
      run conn (check_each checkers resp next) w ≡ run conn (next (note_all errs resp)) w'
unfolding run check_each results note_all
run-check_each conn [] resp next w = refl
run-check_each conn ((name, check) ∷ rest) resp next w =
    run-check_each conn rest _ next (check request w).0

-- The body that the readiness endpoint answers with, for these results.
abbrev pub readiness : Dict (Option Error) → HealthResponse
readiness errs = record {
  status = if all_ok errs then "ok" else "degraded";
  checks = check_texts errs;
}

note_all-readiness :
    (errs : Dict (Option Error))
    → Distinct (check_texts errs)
    → note_all errs (record { status = "ok"; checks = [] }) ≡ readiness errs
note_all-readiness errs distinct =
    ap₂ (λ s c. record { status = s; checks = c }) (status-note_all errs _)
      (checks-note_all errs _ distinct)

run-answer :
    {W : Type 0} (conn : Conn W) (errs : Dict (Option Error)) (w : W)
    → let code : ℕ = if all_ok errs then 200 else 503 in
      run conn (answer (readiness errs)) w ≡ (
        (conn.write (json_health (readiness errs)) (conn.write_header code w)).0,
        status code ∷ body (json_health (readiness errs)) ∷ [],
        returned,
      )
unfolding run answer
run-answer conn errs w = elim (Bool-cases (all_ok errs)) [
  | inl fine ↦ rw fine refl
  | inr failed ↦ rw failed refl
]

-- The run of the readiness endpoint.
abbrev pub ready_run : {W : Type 0} → Conn W → Dict (HealthCheck W) → W → W × List Output × Ending
ready_run conn checkers w =
    let (w1, errs) = results checkers (conn.set_header "Content-Type" "application/json" w) in
    let code : ℕ = if all_ok errs then 200 else 503 in
    (
      (conn.write (json_health (readiness errs)) (conn.write_header code w1)).0,
      header "Content-Type" "application/json"
          ∷ status code
          ∷ body (json_health (readiness errs))
          ∷ [],
      returned,
    )

-- GET /healthz/ready calls every checker once, in turn, and then answers once: 200 with "ok" if all
-- of them returned nil, else 503 with "degraded", and in both cases with one check for every checker,
-- under its name, "ok" or the text of its error.
pub run-handle_ready :
    {W : Type 0} (conn : Conn W) (checkers : Dict (HealthCheck W)) (r : Request) (w : W)
    → Distinct checkers
    → run conn (handle_ready checkers r) w ≡ ready_run conn checkers w
unfolding run handle_ready
run-handle_ready conn checkers r w distinct =
    let w0 = conn.set_header "Content-Type" "application/json" w in
    let (w1, errs) = results checkers w0 in
    ap (emit (header "Content-Type" "application/json")) (
      run-check_each conn checkers _ answer w0
      ∙ ap (λ resp. run conn (answer resp) w1)
          (note_all-readiness errs (Distinct-results checkers w0 distinct))
      ∙ run-answer conn errs w1)

-- The readiness endpoint of a server with the checkers of an App: the checks in the answer are those of
-- the App's components, each called once.
pub app_readiness :
    {W : Type 0} (conn : Conn W) (a : App W) (r : Request) (w : W)
    → run conn (handle_ready (health_checkers a) r) w ≡ ready_run conn (health_checkers a) w
app_readiness conn a r w =
    run-handle_ready conn (health_checkers a) r w (health_checkers-Distinct a)
