-- ===== src/Broker/Membroker.antt =====
-- pkg/broker/membroker/membroker.go: the in-memory broker. Its mutex makes each method one step;
-- Publish works on a snapshot, so what handlers do to the broker does not change a running Publish.
use goplatform.Prelude.{
  String, ◌≡◌, refl, ◌∙◌, Option, none, some, List, [], ◌∷◌, ◌++◌, str_eq, eq_iff, Option-cases,
  Bool-cases, inl, inr, if◌then◌else◌,
}
use goplatform.Prelude.Dict.{Dict, lookup, insert, lookup-insert}
use goplatform.Errors.{Error}
use goplatform.Broker.{Message, Handler, Middleware, PublishHook, apply_middleware, run_hooks}

pub record MemBroker (W : Type 0) : Type 0 where
  pub handlers : Dict (List (Handler W))
  pub hooks : List (PublishHook W)
  pub middlewares : List (Middleware W)

module _ {W : Type 0} where
  unfoldable pub new : MemBroker W
  new = record { handlers = []; hooks = []; middlewares = [] }

  -- `b.handlers[topic]`: nil where the topic has none.
  unfoldable pub handlers_of : MemBroker W → String → List (Handler W)
  handlers_of b topic = elim (lookup topic b.handlers) [ none ↦ [] | some hs ↦ hs ]

  unfoldable pub deliver : List (Middleware W) → List (Handler W) → Message → W → W × Option Error
  deliver mws [] msg w = (w, none)
  deliver mws (h ∷ hs) msg w =
      let (w', err) = apply_middleware h mws msg w in
      elim err [ none ↦ deliver mws hs msg w' | some e ↦ (w', some e) ]

  -- Publish after its snapshot of the hooks, the middlewares and the topic's handlers.
  unfoldable pub publish_snapshot :
      List (PublishHook W) → List (Middleware W) → List (Handler W) → Message → W → W × Option Error
  publish_snapshot hooks mws handlers msg w =
      let (w', msg', err) = run_hooks hooks msg w in
      elim err [ none ↦ deliver mws handlers msg' w' | some e ↦ (w', some e) ]

  unfoldable pub publish : MemBroker W → Message → W → W × Option Error
  publish b msg w = publish_snapshot b.hooks b.middlewares (handlers_of b msg.topic) msg w

  unfoldable pub publish_batch : MemBroker W → List Message → W → W × Option Error
  publish_batch b [] w = (w, none)
  publish_batch b (msg ∷ msgs) w =
      let (w', err) = publish b msg w in
      elim err [ none ↦ publish_batch b msgs w' | some e ↦ (w', some e) ]

  unfoldable pub subscribe : MemBroker W → String → Handler W → MemBroker W
  subscribe b topic handler = record b {
    handlers = insert topic (handlers_of b topic ++ handler ∷ []) b.handlers;
  }

  unfoldable pub with_publish_hook : MemBroker W → PublishHook W → MemBroker W
  with_publish_hook b hook = record b { hooks = b.hooks ++ hook ∷ [] }

  unfoldable pub with_middleware : MemBroker W → List (Middleware W) → MemBroker W
  with_middleware b mw = record b { middlewares = b.middlewares ++ mw }

  -- Go on with `next` from what a step leaves, unless it failed.
  abbrev pub and_then : W × Option Error → (W → W × Option Error) → W × Option Error
  and_then (w, none) next = next w
  and_then (w, some e) next = (w, some e)

  deliver-append :
      (mws : List (Middleware W)) (hs : List (Handler W)) (h : Handler W) (msg : Message) (w : W)
      → deliver mws (hs ++ h ∷ []) msg w
        ≡ and_then (deliver mws hs msg w) (λ w'. apply_middleware h mws msg w')
  unfolding deliver
  deliver-append mws [] h msg w = elim (Option-cases (apply_middleware h mws msg w).1) [
    | inl fine ↦ rw (fine, deliver) refl
    | inr (e, failed) ↦ rw (failed, deliver) refl
  ]
  deliver-append mws (x ∷ hs) h msg w = elim (Option-cases (apply_middleware x mws msg w).1) [
    | inl fine ↦ rw (fine, deliver) (deliver-append mws hs h msg _)
    | inr (e, failed) ↦ rw (failed, deliver) refl
  ]

  handlers_of-subscribe :
      (b : MemBroker W) (topic key : String) (h : Handler W)
      → handlers_of (subscribe b topic h) key
        ≡ (if str_eq topic key then handlers_of b topic ++ h ∷ [] else handlers_of b key)
  unfolding handlers_of subscribe
  handlers_of-subscribe b topic key h = elim (Bool-cases (str_eq topic key)) [
    | inl same ↦
        let e = lookup-insert topic key (handlers_of b topic ++ h ∷ []) b.handlers in
        rw (e, handlers_of) (rw same refl)
    | inr other ↦
        let e = lookup-insert topic key (handlers_of b topic ++ h ∷ []) b.handlers in
        rw (e, handlers_of) (rw other refl)
  ]

  publish_snapshot-append :
      (hooks : List (PublishHook W)) (mws : List (Middleware W)) (hs : List (Handler W))
      (h : Handler W) (msg : Message) (w : W)
      → publish_snapshot hooks mws (hs ++ h ∷ []) msg w
        ≡ and_then
            (publish_snapshot hooks mws hs msg w)
            (λ w'. apply_middleware h mws (run_hooks hooks msg w).1 w')
  unfolding publish_snapshot
  publish_snapshot-append hooks mws hs h msg w = elim (Option-cases (run_hooks hooks msg w).2) [
    | inl fine ↦ rw (fine, publish_snapshot) (deliver-append mws hs h _ _)
    | inr (e, failed) ↦ rw (failed, publish_snapshot) refl
  ]

  -- What Subscribe adds to Publish: on its own topic the new handler, under the middlewares, is
  -- called last, with the message as the hooks leave it, and only if the hooks and all earlier
  -- handlers succeeded; on every other topic nothing changes. The topic that counts is the one
  -- that the message had before the hooks.
  pub publish-subscribe :
      (b : MemBroker W) (topic : String) (h : Handler W) (msg : Message) (w : W)
      → publish (subscribe b topic h) msg w ≡ (
          if str_eq topic msg.topic
          then and_then
              (publish b msg w)
              (λ w'. apply_middleware h b.middlewares (run_hooks b.hooks msg w).1 w')
          else publish b msg w)
  unfolding publish
  publish-subscribe b topic h msg w =
      let snapshot : publish (subscribe b topic h) msg w
          ≡ publish_snapshot b.hooks b.middlewares (handlers_of (subscribe b topic h) msg.topic) msg
              w =
        unfold subscribe in refl in
      elim (Bool-cases (str_eq topic msg.topic)) [
        | inl same ↦
            let t : topic ≡ msg.topic = (eq_iff topic msg.topic).0 same in
            snapshot
            ∙ rw handlers_of-subscribe
                (rw same (rw t (publish_snapshot-append b.hooks b.middlewares _ h msg w)))
        | inr other ↦ snapshot ∙ rw handlers_of-subscribe (rw other refl)
      ]

  -- PublishBatch is its messages one by one: a batch in two parts is the first part, then the
  -- second if the first went through. What has been delivered before an error stays delivered.
  pub publish_batch-append :
      (b : MemBroker W) (xs ys : List Message) (w : W)
      → publish_batch b (xs ++ ys) w ≡ and_then (publish_batch b xs w) (publish_batch b ys)
  unfolding publish_batch
  publish_batch-append b [] ys w = refl
  publish_batch-append b (x ∷ xs) ys w = elim (Option-cases (publish b x w).1) [
    | inl fine ↦ rw (fine, publish_batch) (publish_batch-append b xs ys (publish b x w).0)
    | inr (e, failed) ↦ rw (failed, publish_batch) refl
  ]
