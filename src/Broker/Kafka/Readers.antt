-- ===== src/Broker/Kafka/Readers.antt =====
-- The readers of the consumer in pkg/broker/kafka/consumer.go: Subscribe, Readers, Start and Stop. `R` is the
-- type of kafka-go's readers and `Cn` that of cancel functions. Each piece between Lock and Unlock is one
-- step; what a subscription's goroutine does is in Process.
use goplatform.Prelude.{String, ◌≡◌, refl, sym, ap, ◌∙◌, Option, none, some, List, [], ◌∷◌, ◌++◌}
use goplatform.Errors.{Error, wrap}
use goplatform.Broker.{Handler, apply_middleware}
use goplatform.Broker.Kafka.Config.{Consumer, ReaderConfig, reader_config}

-- The two fields of the consumer that Subscribe and Stop use.
pub record Subscriptions (R Cn : Type 0) : Type 0 where
  pub readers : List R
  pub cancels : List Cn

-- `kafkago.NewReader`, `context.WithCancel`, the goroutine that runs consumeLoop, a reader's Close and
-- `wg.Wait`.
pub record ReaderOps (W R Cn : Type 0) : Type 0 where
  pub new_reader : ReaderConfig → W → W × R
  pub with_cancel : W → W × Cn
  pub spawn : R → String → Handler W → W → W
  pub cancel : Cn → W → W
  pub close : R → W → W × Option Error
  pub wait : W → W

-- A call that Stop makes.
pub data StopCall (R Cn : Type 0) : Type 0 where
  cancelled : Cn → StopCall R Cn
  closed : R → Option Error → StopCall R Cn
  waited : StopCall R Cn

unfoldable pub readers : {R Cn : Type 0} → Subscriptions R Cn → List R
readers s = s.readers

unfoldable pub start : {W : Type 0} → W → W × Option Error
start w = (w, none)

abbrev pub or_first : Option Error → Option Error → Option Error
or_first none err = err
or_first (some e) err = some e

abbrev pub close_error : Option Error → Option Error
close_error none = none
close_error (some e) = some (wrap "kafka: consumer close: %w" [] e)

module _ {W R Cn : Type 0} (ops : ReaderOps W R Cn) where
  unfoldable pub subscribe :
      Consumer W → Subscriptions R Cn → String → Handler W → W → W × Subscriptions R Cn
  subscribe c s topic handler w =
      let (w1, reader) = ops.new_reader (reader_config c topic) w in
      let (w2, cancel) = ops.with_cancel w1 in
      (
        ops.spawn reader topic (apply_middleware handler c.middlewares) w2,
        record { readers = s.readers ++ reader ∷ []; cancels = s.cancels ++ cancel ∷ [] },
      )

  unfoldable pub cancel_each : List Cn → W → W × List (StopCall R Cn)
  cancel_each [] w = (w, [])
  cancel_each (cn ∷ cns) w =
      let (w', calls) = cancel_each cns (ops.cancel cn w) in (w', cancelled cn ∷ calls)

  -- The loop over the readers; `first` is firstErr.
  unfoldable pub close_each : List R → Option Error → W → W × List (StopCall R Cn) × Option Error
  close_each [] first w = (w, [], first)
  close_each (r ∷ rs) first w =
      let (w1, err) = ops.close r w in
      let (w2, calls, first') = close_each rs (or_first first err) w1 in
      (w2, closed r err ∷ calls, first')

  unfoldable pub stop : Subscriptions R Cn → W → W × List (StopCall R Cn) × Option Error
  unfolding cancel_each close_each
  stop s w =
      let (w1, cancels) = cancel_each s.cancels w in
      let (w2, closes, first) = close_each s.readers none w1 in
      (ops.wait w2, cancels ++ (closes ++ waited ∷ []), close_error first)

  -- The readers that the calls close, and the first error of a call.
  unfoldable pub closed_readers : List (StopCall R Cn) → List R
  closed_readers [] = []
  closed_readers (cancelled cn ∷ calls) = closed_readers calls
  closed_readers (closed r err ∷ calls) = r ∷ closed_readers calls
  closed_readers (waited ∷ calls) = closed_readers calls

  unfoldable pub first_error : List (StopCall R Cn) → Option Error
  first_error [] = none
  first_error (cancelled cn ∷ calls) = first_error calls
  first_error (closed r err ∷ calls) = or_first err (first_error calls)
  first_error (waited ∷ calls) = first_error calls

  or_first_assoc : (a b c : Option Error) → or_first (or_first a b) c ≡ or_first a (or_first b c)
  or_first_assoc none b c = refl
  or_first_assoc (some e) b c = refl

  or_first-none : (a : Option Error) → or_first a none ≡ a
  or_first-none none = refl
  or_first-none (some e) = refl

  close_each-closes :
      (rs : List R) (first : Option Error) (w : W)
      → let (w', calls, first') = close_each rs first w in
        (closed_readers (calls ++ waited ∷ []) ≡ rs)
        × (first' ≡ or_first first (first_error (calls ++ waited ∷ [])))
  unfolding close_each closed_readers first_error
  close_each-closes [] first w = (refl, sym (or_first-none first))
  close_each-closes (r ∷ rs) first w =
      let (w1, err) = ops.close r w in
      let (closes, reports) = close_each-closes rs (or_first first err) w1 in
      (ap (λ t. r ∷ t) closes, reports ∙ or_first_assoc first err _)

  cancels_close_nothing :
      (cns : List Cn) (w : W) (calls : List (StopCall R Cn))
      → let cancels = (cancel_each cns w).1 in
        (closed_readers (cancels ++ calls) ≡ closed_readers calls)
        × (first_error (cancels ++ calls) ≡ first_error calls)
  unfolding cancel_each closed_readers first_error
  cancels_close_nothing [] w calls = (refl, refl)
  cancels_close_nothing (cn ∷ cns) w calls = cancels_close_nothing cns (ops.cancel cn w) calls

  -- Stop closes every reader once, in the order of the subscriptions, whatever the others return, and its
  -- result is the first error of a close, wrapped, or nil if there is none.
  pub stop-closes :
      (s : Subscriptions R Cn) (w : W)
      → let (w', calls, err) = stop s w in
        (closed_readers calls ≡ s.readers) × (err ≡ close_error (first_error calls))
  unfolding stop
  stop-closes s w =
      let (w1, cancels) = cancel_each s.cancels w in
      let (w2, closes, first) = close_each s.readers none w1 in
      let (nothing, silent) = cancels_close_nothing s.cancels w (closes ++ waited ∷ []) in
      let (all, reports) = close_each-closes s.readers none w1 in
      (nothing ∙ all, ap close_error (reports ∙ sym silent))
