-- ===== src/Broker/Nats/Sessions.antt =====
-- The connection state of the subscriber of pkg/broker/nats/subscriber.go over Start, Subscribe and
-- Stop.
use goplatform.Prelude.{
  ◌≡◌, refl, sym, subst, ◌∙◌, not, Bool, true, false, String, none, some, [], inl, inr, ◌⊎◌,
  is_none, ap,
}
use goplatform.Errors.{Error}
use goplatform.Broker.{Handler}
use goplatform.Broker.Nats.Subscriber.{
  Subscriber, Client, start, stop, subscribe, start_from, stop_from, subscribe_from,
  with_connection, with_jet_stream, open_jet_stream, with_subscription,
}

-- Without a connection there is neither a JetStream context nor a subscription; with one there is a
-- JetStream context exactly in JetStream mode.
pub data IsValid {W Conn Js Sub NatsOpt : Type 0} (s : Subscriber W Conn Js Sub NatsOpt)
    : Type 0 where
  idle : s.conn ≡ none → s.js ≡ none → s.subs ≡ [] → IsValid s
  connected : (c : Conn) → s.conn ≡ some c → is_none s.js ≡ not s.jet_stream → IsValid s

module _ {W Conn Js Sub NatsOpt : Type 0} (n : Client W Conn Js Sub NatsOpt) where
  -- A call of one of the three methods.
  pub data Step (s : Subscriber W Conn Js Sub NatsOpt)
      : Subscriber W Conn Js Sub NatsOpt → Type 0 where
    started : (w : W) → Step s (start n s w).0
    subscribed : (topic : String) (h : Handler W) (w : W) → Step s (subscribe n s topic h w).0
    stopped : (w : W) → Step s (stop n s w).0

  with_connection-IsValid :
      (s : Subscriber W Conn Js Sub NatsOpt) (r : Conn ⊎ Error) (w : W)
      → s.conn ≡ none
      → s.js ≡ none
      → s.subs ≡ []
      → IsValid (with_connection n s r w).0
  with_connection-IsValid s (inr e) w conn js subs = idle conn js subs
  with_connection-IsValid s (inl c) w conn js subs = go s.jet_stream refl
    where
      opened :
          (r : Js ⊎ Error) (w : W) → s.jet_stream ≡ true → IsValid (with_jet_stream n s c r w).0
      opened (inl j) w mode = connected c refl (sym (ap not mode))
      opened (inr e) w mode = idle refl js subs

      go : (b : Bool) → s.jet_stream ≡ b → IsValid (open_jet_stream n s c b w).0
      go false mode = connected c refl (ap is_none js ∙ sym (ap not mode))
      go true mode = opened (n.jet_stream_of c w).1 (n.jet_stream_of c w).0 mode

  start-IsValid :
      (s : Subscriber W Conn Js Sub NatsOpt) (w : W) → IsValid s → IsValid (start n s w).0
  unfolding start
  start-IsValid s w (idle conn js subs) =
      subst (λ o. IsValid (start_from n s o w).0) (sym conn)
        (with_connection-IsValid s _ _ conn js subs)
  start-IsValid s w (connected c conn mode) =
      subst (λ o. IsValid (start_from n s o w).0) (sym conn) (connected c conn mode)

  stop-IsValid : (s : Subscriber W Conn Js Sub NatsOpt) (w : W) → IsValid s → IsValid (stop n s w).0
  unfolding stop
  stop-IsValid s w (idle conn js subs) =
      subst (λ o. IsValid (stop_from n s o w).0) (sym conn) (idle conn js subs)
  stop-IsValid s w (connected c conn mode) =
      subst (λ o. IsValid (stop_from n s o w).0) (sym conn) (idle refl refl refl)

  with_subscription-IsValid :
      (s : Subscriber W Conn Js Sub NatsOpt) (c : Conn) (topic : String) (r : Sub ⊎ Error) (w : W)
      → s.conn ≡ some c
      → is_none s.js ≡ not s.jet_stream
      → IsValid (with_subscription n s topic r w).0
  with_subscription-IsValid s c topic (inl sub) w conn mode = connected c conn mode
  with_subscription-IsValid s c topic (inr e) w conn mode = connected c conn mode

  subscribe-IsValid :
      (s : Subscriber W Conn Js Sub NatsOpt) (topic : String) (h : Handler W) (w : W)
      → IsValid s
      → IsValid (subscribe n s topic h w).0
  unfolding subscribe
  subscribe-IsValid s topic h w (idle conn js subs) =
      subst (λ o. IsValid (subscribe_from n s o topic h w).0) (sym conn) (idle conn js subs)
  subscribe-IsValid s topic h w (connected c conn mode) =
      subst (λ o. IsValid (subscribe_from n s o topic h w).0) (sym conn)
        (with_subscription-IsValid s c topic _ _ conn mode)

  -- However Start, Subscribe and Stop are called and whatever fails in them: without a connection
  -- the subscriber has neither a JetStream context nor a subscription, and with one it has a
  -- JetStream context exactly if it is in JetStream mode.
  pub step-IsValid : (s s' : Subscriber W Conn Js Sub NatsOpt) → Step s s' → IsValid s → IsValid s'
  step-IsValid s s' (started w) valid = start-IsValid s w valid
  step-IsValid s s' (subscribed topic h w) valid = subscribe-IsValid s topic h w valid
  step-IsValid s s' (stopped w) valid = stop-IsValid s w valid
