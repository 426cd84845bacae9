-- ===== src/Broker/Retry.antt =====
-- The retry loop that processMessage of pkg/broker/kafka/consumer.go and of
-- pkg/broker/nats/subscriber.go share. `attempt` calls the handler; `wait` is the `select` between
-- the retry timer and `Done()` of the context, true where the timer fires; `made` says what a call
-- of the handler counts as in the list of calls.
use goplatform.Prelude.{
  ℕ, zero, suc, ◌≤◌, ◌≡◌, refl, ap, ℤ, pos, negsuc, Bool, Option, none, some, List, [], ◌∷◌, ◌++◌,
  map, inl, inr, arith, length, Option-cases, Bool-cases, if◌then◌else◌,
}
use goplatform.Errors.{Error}

-- How the loop ends.
pub data Verdict : Type 0 where
  processed : Option Error → Verdict  -- the last handlerErr
  cancelled : Verdict  -- the context was done during a backoff

-- attempts := 1 + maxRetries; `range` over a negative number makes no round.
unfoldable pub attempts : ℤ → ℕ
attempts (pos n) = suc n
attempts (negsuc n) = 0

-- The loop with `k` retries: what the calls of the handler were, and how it ended.
pub data Tried {C : Type 0} (made : Option Error → C) (k : ℕ) (calls : List C) (verdict : Verdict)
    : Type 0 where
  accepted :
      (errs : List Error)
      → length errs ≤ k
      → calls ≡ map (λ e. made (some e)) errs ++ made none ∷ []
      → verdict ≡ processed none
      → Tried made k calls verdict
  exhausted :
      (errs : List Error) (e : Error)
      → length errs ≡ suc k
      → calls ≡ map (λ e. made (some e)) errs
      → verdict ≡ processed (some e)
      → Tried made k calls verdict
  gave_up :
      (errs : List Error)
      → 1 ≤ length errs
      → length errs ≤ k
      → calls ≡ map (λ e. made (some e)) errs
      → verdict ≡ cancelled
      → Tried made k calls verdict

module _ {W C : Type 0} (made : Option Error → C) (attempt : W → W × Option Error)
    (wait : W → W × Bool) where
  unfoldable pub retry_loop : ℕ → W → W × List C × Verdict
  retry_loop zero w = (w, [], processed none)
  retry_loop (suc zero) w = let (w', err) = attempt w in (w', made err ∷ [], processed err)
  retry_loop (suc (suc k)) w =
      let (w1, err) = attempt w in
      let (w2, fired) = wait w1 in
      let (w3, calls, verdict) = retry_loop (suc k) w2 in
      elim err [
        | none ↦ (w1, made none ∷ [], processed none)
        | some e ↦
            if fired
            then (w3, made (some e) ∷ calls, verdict)
            else (w2, made (some e) ∷ [], cancelled)
      ]

  -- One more failed call before the loop.
  Tried-cons :
      (k : ℕ) (e : Error) (calls : List C) (verdict : Verdict)
      → Tried made k calls verdict
      → Tried made (suc k) (made (some e) ∷ calls) verdict
  Tried-cons k e calls verdict (accepted errs le c v) =
      accepted (e ∷ errs) (omega arith) (ap (λ x. made (some e) ∷ x) c) v
  Tried-cons k e calls verdict (exhausted errs d le c v) =
      exhausted (e ∷ errs) d (omega arith) (ap (λ x. made (some e) ∷ x) c) v
  Tried-cons k e calls verdict (gave_up errs lo le c v) =
      gave_up (e ∷ errs) (omega arith) (omega arith) (ap (λ x. made (some e) ∷ x) c) v

  -- With `k` retries the loop ends with an accepted call, after 1 + k failed ones, or during a
  -- backoff after between 1 and `k` failed ones.
  pub retry_loop-Tried : (k : ℕ) (w : W) → let r = retry_loop (suc k) w in Tried made k r.1 r.2
  unfolding retry_loop
  retry_loop-Tried zero w = elim (Option-cases (attempt w).1) [
    | inl fine ↦ rw (fine, retry_loop) (accepted [] (omega arith) refl refl)
    | inr (e, failed) ↦ rw (failed, retry_loop) (exhausted (e ∷ []) e refl refl refl)
  ]
  retry_loop-Tried (suc k) w =
      let (w1, err) = attempt w in
      let (w2, fired) = wait w1 in
      elim (Option-cases (attempt w).1) [
        | inl fine ↦ rw (fine, retry_loop) (accepted [] (omega arith) refl refl)
        | inr (e, failed) ↦ elim (Bool-cases (wait w1).1) [
          | inl on ↦ rw (failed, on, retry_loop) (Tried-cons k e _ _ (retry_loop-Tried k w2))
          | inr off ↦
              rw (failed, off, retry_loop) (gave_up (e ∷ []) (omega arith) (omega arith) refl refl)
        ]
      ]
