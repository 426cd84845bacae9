-- ===== src/Broker.antt =====
-- pkg/broker/broker.go: messages, handlers, middleware and publish hooks. `W` is what handlers,
-- hooks and publishers read and change.
pub mod Retry
pub mod Membroker
pub mod Kafka
pub mod Nats
mod Tests
use mathlib.Core.List.{reverse-cons}
use goplatform.Prelude.{
  ℕ, ℤ, ◌++◌, String, ◌≡◌, refl, ap, ◌∙◌, Option, none, some, List, [], ◌∷◌, reverse,
}
use goplatform.Prelude.Loops.{downward, downward-reverse}
use goplatform.Prelude.Dict.{Dict}
use goplatform.Errors.{Error}

-- `[]byte`, and the byte sequences that Go's strings hold in header values.
abbrev pub Bytes : Type 0
Bytes = List ℕ

pub record Message : Type 0 where
  pub topic : String
  pub key : Bytes
  pub value : Bytes
  pub headers : Dict Bytes
  pub partition : ℤ
  pub offset : ℤ

abbrev pub Handler : Type 0 → Type 0
Handler W = Message → W → W × Option Error

abbrev pub Middleware : Type 0 → Type 0
Middleware W = Handler W → Handler W

-- A hook changes the message in place: it returns it beside its error.
abbrev pub PublishHook : Type 0 → Type 0
PublishHook W = Message → W → W × Message × Option Error

module _ {W : Type 0} where
  wrap_each : List (Middleware W) → Handler W → Handler W
  wrap_each [] h = h
  wrap_each (mw ∷ mws) h = wrap_each mws (mw h)

  unfoldable pub apply_middleware : Handler W → List (Middleware W) → Handler W
  unfolding wrap_each
  apply_middleware h mws = wrap_each (downward mws) h

  -- The pipeline of publish hooks, up to the first error.
  unfoldable pub run_hooks : List (PublishHook W) → Message → W → W × Message × Option Error
  run_hooks [] msg w = (w, msg, none)
  run_hooks (h ∷ hs) msg w =
      let (w', msg', err) = h msg w in
      elim err [ none ↦ run_hooks hs msg' w' | some e ↦ (w', msg', some e) ]

  -- The first middleware is the outermost.
  abbrev pub nested : List (Middleware W) → Handler W → Handler W
  nested [] h = h
  nested (mw ∷ mws) h = mw (nested mws h)

  wrap_each-append :
      (xs : List (Middleware W)) (mw : Middleware W) (h : Handler W)
      → wrap_each (xs ++ mw ∷ []) h ≡ mw (wrap_each xs h)
  unfolding wrap_each
  wrap_each-append [] mw h = refl
  wrap_each-append (x ∷ xs) mw h = wrap_each-append xs mw (x h)

  wrap_each-reverse :
      (mws : List (Middleware W)) (h : Handler W) → wrap_each (reverse mws) h ≡ nested mws h
  unfolding wrap_each
  wrap_each-reverse [] h = refl
  wrap_each-reverse (mw ∷ mws) h =
      rw reverse-cons (wrap_each-append (reverse mws) mw h) ∙ ap mw (wrap_each-reverse mws h)

  -- The loop from the last middleware to the first nests them with the first one outermost.
  pub apply_middleware-nested :
      (h : Handler W) (mws : List (Middleware W)) → apply_middleware h mws ≡ nested mws h
  unfolding apply_middleware
  apply_middleware-nested h mws = rw downward-reverse (wrap_each-reverse mws h)
