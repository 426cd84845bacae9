-- ===== src/Broker/Kafka/Safety.antt =====
-- When the consumer of pkg/broker/kafka/consumer.go commits an offset.
use goplatform.Prelude.{
  String, ℕ, suc, ◌≤◌, ◌≡◌, refl, sym, ap₂, pos, negsuc, Option, none, some, List, [], ◌∷◌, ◌++◌,
  append_assoc, append-nil, subst, map, inl, inr, length, Option-cases,
}
use goplatform.Errors.{Error}
use goplatform.Broker.{Handler}
use goplatform.Broker.Retry.{
  Verdict, attempts, retry_loop, Tried, accepted, exhausted, gave_up, retry_loop-Tried,
}
use goplatform.Broker.Kafka.Config.{Consumer}
use goplatform.Broker.Kafka.Process.{
  FetchedMessage, Reader, Call, handle, dead_letter, commit, to_message, commit_offset, dlq_message,
  route, finish, process_message, consume_loop,
}

-- Handler calls that all failed.
abbrev pub failures : FetchedMessage → List Error → List Call
failures m errs = map (λ e. handle m (some e)) errs

-- What is done with one message by a consumer that retries `k` times.
pub data Settled {W : Type 0} (c : Consumer W) (k : ℕ) (m : FetchedMessage) (calls : List Call)
    : Type 0 where
  by_handler :
      (errs : List Error)
      → length errs ≤ k
      → calls ≡ failures m errs ++ handle m none ∷ commit m ∷ []
      → Settled c k m calls
  by_dlq :
      (errs : List Error)
      → length errs ≡ suc k
      → calls ≡ failures m errs ++ dead_letter m none ∷ commit m ∷ []
      → Settled c k m calls
  dropped :
      (errs : List Error)
      → length errs ≡ suc k
      → c.dlq_publisher ≡ none
      → calls ≡ failures m errs ++ commit m ∷ []
      → Settled c k m calls
  kept :
      (errs : List Error) (d : Error)
      → length errs ≡ suc k
      → calls ≡ failures m errs ++ dead_letter m (some d) ∷ []
      → Settled c k m calls
  interrupted :
      (errs : List Error)
      → 1 ≤ length errs
      → length errs ≤ k
      → calls ≡ failures m errs
      → Settled c k m calls

module _ {W : Type 0} (c : Consumer W) (reader : Reader W) (topic : String) where
  route-Settled :
      (k : ℕ) (m : FetchedMessage) (errs : List Error) (w : W) (o : Option (Handler W))
      → c.dlq_publisher ≡ o
      → length errs ≡ suc k
      → Settled c k m (failures m errs ++ (route c reader topic o m w).1)
  unfolding route
  route-Settled k m errs w none off le = dropped errs le off refl
  route-Settled k m errs w (some publish) on le =
      elim (Option-cases (publish (dlq_message c reader topic m) w).1) [
        | inl fine ↦ rw (route, fine) (by_dlq errs le refl)
        | inr (d, failed) ↦ rw (route, failed) (kept errs d le refl)
      ]

  finish-Settled :
      (k : ℕ) (m : FetchedMessage) (calls : List Call) (verdict : Verdict) (w : W)
      → Tried (handle m) k calls verdict
      → Settled c k m (calls ++ (finish c reader topic verdict m w).1)
  unfolding finish
  finish-Settled k m calls verdict w (accepted errs le made v) =
      rw (v, made, finish, append_assoc) (by_handler errs le refl)
  finish-Settled k m calls verdict w (gave_up errs lo le made v) =
      rw (v, made, finish, append-nil) (interrupted errs lo le refl)
  finish-Settled k m calls verdict w (exhausted errs e le made v) =
      rw (v, made, finish) (route-Settled k m errs w c.dlq_publisher refl le)

  pub process_message_settles :
      (k : ℕ)
      → c.max_retries ≡ pos k
      → (m : FetchedMessage) (handler : Handler W) (w : W)
      → Settled c k m (process_message c reader topic m handler w).1
  unfolding process_message attempts
  process_message_settles k h m handler w =
      subst
        (λ n.
          let (w1, calls, verdict) =
            retry_loop (handle m) (handler (to_message topic m)) (reader.wait_retry c.retry_backoff)
              (attempts n) w in
          Settled c k m (calls ++ (finish c reader topic verdict m w1).1))
        (sym h)
        (let (w1, calls, verdict) =
            retry_loop (handle m) (handler (to_message topic m)) (reader.wait_retry c.retry_backoff)
              (suc k) w in
          finish-Settled k m calls verdict w1 (
            retry_loop-Tried (handle m) (handler (to_message topic m))
              (reader.wait_retry c.retry_backoff) k w))

  -- Messages settled one after the other.
  pub data Settles (k : ℕ) : List FetchedMessage → List Call → Type 0 where
    no_more : Settles k [] []
    next :
        (m : FetchedMessage) (ms : List FetchedMessage) (calls more : List Call)
        → Settled c k m calls
        → Settles k ms more
        → Settles k (m ∷ ms) (calls ++ more)

  -- With `k` retries, the consumer settles the fetched messages one after the other, each once and in
  -- the order of fetching, whatever became of the ones before.
  pub consume_loop-Settles :
      (k : ℕ)
      → c.max_retries ≡ pos k
      → (handler : Handler W) (ms : List FetchedMessage) (w : W)
      → Settles k ms (consume_loop c reader topic handler ms w).1
  unfolding consume_loop
  consume_loop-Settles k h handler [] w = no_more
  consume_loop-Settles k h handler (m ∷ ms) w =
      next m ms _ _ (process_message_settles k h m handler w)
        (consume_loop-Settles k h handler ms (process_message c reader topic m handler w).0)

  process_message-negative :
      (k : ℕ)
      → c.max_retries ≡ negsuc k
      → (m : FetchedMessage) (handler : Handler W) (w : W)
      → (process_message c reader topic m handler w).1 ≡ commit m ∷ []
  unfolding process_message retry_loop finish attempts commit_offset
  process_message-negative k h m handler w =
      subst
        (λ n.
          let (w1, calls, verdict) =
            retry_loop (handle m) (handler (to_message topic m)) (reader.wait_retry c.retry_backoff)
              (attempts n) w in
          calls ++ (finish c reader topic verdict m w1).1 ≡ commit m ∷ [])
        (sym h) refl

  -- With a negative number of retries the consumer calls no handler: it commits every message.
  pub consume_loop_negative :
      (k : ℕ)
      → c.max_retries ≡ negsuc k
      → (handler : Handler W) (ms : List FetchedMessage) (w : W)
      → (consume_loop c reader topic handler ms w).1 ≡ map commit ms
  unfolding consume_loop
  consume_loop_negative k h handler [] w = refl
  consume_loop_negative k h handler (m ∷ ms) w =
      let rest =
        consume_loop_negative k h handler ms (process_message c reader topic m handler w).0 in
      ap₂ (λ x y. x ++ y) (process_message-negative k h m handler w) rest
