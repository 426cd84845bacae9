-- ===== src/Postgres/Tracer.antt =====
-- pkg/postgres/tracer.go and hooks.go: the query tracer that calls the query hooks. OpenTelemetry and
-- the clock are parameters; `A` is the type of query arguments and `S` that of spans. A context is
-- what the tracer keeps in it.
use goplatform.Prelude.{
  ℕ, ℤ, String, ◌≡◌, refl, Bool, Option, none, some, List, [], ◌∷◌, sub_ℕ, if◌then◌else◌,
}
use goplatform.Errors.{Error}

pub record QueryHookData (A : Type 0) : Type 0 where
  pub sql : String
  pub args : List A
  pub duration : ℤ
  pub err : Option Error

abbrev pub QueryHook : Type 0 → Type 0 → Type 0
QueryHook W A = QueryHookData A → W → W

pub record QueryStartData (A : Type 0) : Type 0 where
  pub sql : String
  pub args : List A

pub record Context (A S : Type 0) : Type 0 where
  pub start_time : Option ℕ
  pub query_data : Option (QueryStartData A)
  pub span : Option S

-- Starting a span, a span's methods, and time.Now in nanoseconds since the zero time.
pub record Otel (W Tp S : Type 0) : Type 0 where
  pub start_span : Tp → String → W → W × S
  pub is_recording : S → W → Bool
  pub record_error : S → Error → W → W
  pub set_status : S → Option Error → W → W
  pub end_span : S → W → W
  pub now : W → ℕ

pub record QueryTracer (W A Tp : Type 0) : Type 0 where
  pub hooks : List (QueryHook W A)
  pub tp : Option Tp

abbrev time_or_zero : Option ℕ → ℕ
time_or_zero none = 0
time_or_zero (some t) = t

abbrev data_or_empty : {A : Type 0} → Option (QueryStartData A) → QueryStartData A
data_or_empty none = record { sql = ""; args = [] }
data_or_empty (some d) = d

-- `for _, hook := range t.hooks`
unfoldable pub call_hooks : {W A : Type 0} → List (QueryHook W A) → QueryHookData A → W → W
call_hooks [] d w = w
call_hooks (hook ∷ hooks) d w = call_hooks hooks d (hook d w)

module _ {W Tp S : Type 0} (otel : Otel W Tp S) where
  abbrev note_error : S → Option Error → W → W
  note_error span none w = w
  note_error span (some e) w = otel.record_error span e w

  abbrev pub close_span : Option S → Option Error → W → W
  close_span none err w = w
  close_span (some span) err w =
      if otel.is_recording span w
      then otel.end_span span (otel.set_status span err (note_error span err w))
      else w

module _ {W A Tp S : Type 0} (otel : Otel W Tp S) where
  abbrev open_span : Option Tp → QueryStartData A → Context A S → W → W × Context A S
  open_span none data_ ctx w = (w, ctx)
  open_span (some tp) data_ ctx w =
      let (w', span) = otel.start_span tp data_.sql w in (w', record ctx { span = some span })

  unfoldable pub trace_query_start :
      QueryTracer W A Tp → Context A S → QueryStartData A → W → W × Context A S
  trace_query_start t ctx data_ w =
      open_span t.tp data_ (record ctx { start_time = some (otel.now w); query_data = some data_ })
        w

  -- The data that the hooks get.
  unfoldable pub hook_data : Context A S → Option Error → W → QueryHookData A
  hook_data ctx err w =
      let started = data_or_empty ctx.query_data in
      record {
        sql = started.sql;
        args = started.args;
        duration = sub_ℕ (otel.now w) (time_or_zero ctx.start_time);
        err = err;
      }

  unfoldable pub trace_query_end : QueryTracer W A Tp → Context A S → Option Error → W → W
  unfolding hook_data call_hooks
  trace_query_end t ctx err w =
      close_span otel ctx.span err (call_hooks t.hooks (hook_data ctx err w) w)

  -- The data for a query that ran from `w` to `w'`.
  abbrev pub query_data_of : QueryStartData A → W → W → Option Error → QueryHookData A
  query_data_of data_ w w' err = record {
    sql = data_.sql;
    args = data_.args;
    duration = sub_ℕ (otel.now w') (otel.now w);
    err = err;
  }

  hook_data-open_span :
      (tp : Option Tp) (ctx : Context A S) (data_ : QueryStartData A) (w w' : W)
      (err : Option Error)
      → let noted : Context A S = record ctx {
        start_time = some (otel.now w);
        query_data = some data_;
      } in
        hook_data (open_span tp data_ noted w).1 err w' ≡ query_data_of data_ w w' err
  unfolding hook_data
  hook_data-open_span none ctx data_ w w' err = refl
  hook_data-open_span (some tp) ctx data_ w w' err = refl

  -- A query that goes through the tracer, from a context that an earlier query may have left, without
  -- or with a span: at its end every hook is called once, in the order of registration, with the
  -- SQL text, the arguments, the error and the time between start and end of this query.
  pub query_hooks :
      (t : QueryTracer W A Tp) (ctx : Context A S) (data_ : QueryStartData A) (w w' : W)
      (err : Option Error)
      → let ctx' = (trace_query_start t ctx data_ w).1 in
        trace_query_end t ctx' err w'
        ≡ close_span otel ctx'.span err (call_hooks t.hooks (query_data_of data_ w w' err) w')
  unfolding trace_query_end trace_query_start
  query_hooks t ctx data_ w w' err = rw (hook_data-open_span t.tp ctx data_ w w' err) refl
