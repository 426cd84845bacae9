-- ===== src/Observe.antt =====
-- pkg/observe: the log handlers of multihandler.go, tracehandler.go and swaphandler.go. Handlers of
-- other packages are the parameter `Sinks`: `K` names such a handler, and a list of the attributes and
-- groups added to it makes another. `A` is the type of attributes, `R` that of records.
pub mod Delivery
pub mod Observer
pub mod New
pub mod Balance
pub mod Requests
mod Tests
use goplatform.Prelude.{
  String, Bool, true, false, ◌||◌, Option, none, some, List, [], ◌∷◌, ◌++◌, if◌then◌else◌,
}
use goplatform.Errors.{Error}

-- A call of WithAttrs or WithGroup.
pub data Derive (A : Type 0) : Type 0 where
  attrs : List A → Derive A
  group : String → Derive A

mutual
  -- A handler of another package with what was added to it, a multiHandler, a traceHandler.
  pub data Handler (K A : Type 0) : Type 0 where
    sink : K → List (Derive A) → Handler K A
    multi : Handlers K A → Handler K A
    traced : Handler K A → Handler K A

  pub data Handlers (K A : Type 0) : Type 0 where
    nil : Handlers K A
    cons : Handler K A → Handlers K A → Handlers K A

-- Enabled and Handle of the other packages' handlers, the level of a record, and the record with the
-- trace and span of the context added, if that has a valid span.
pub record Sinks (W K A R L : Type 0) : Type 0 where
  pub enabled : K → List (Derive A) → L → Bool
  pub handle : K → List (Derive A) → R → W → W × Option Error
  pub level : R → L
  pub add_trace : R → R

unfoldable mutual
  -- WithAttrs and WithGroup.
  pub derive : {K A : Type 0} → Derive A → Handler K A → Handler K A
  derive d (sink k ds) = sink k (ds ++ d ∷ [])
  derive d (multi hs) = multi (derive_each d hs)
  derive d (traced h) = traced (derive d h)

  pub derive_each : {K A : Type 0} → Derive A → Handlers K A → Handlers K A
  derive_each d nil = nil
  derive_each d (cons h hs) = cons (derive d h) (derive_each d hs)

module _ {W K A R L : Type 0} (sinks : Sinks W K A R L) where
  unfoldable mutual
    pub enabled : Handler K A → L → Bool
    enabled (sink k ds) l = sinks.enabled k ds l
    enabled (multi hs) l = any_enabled hs l
    enabled (traced h) l = enabled h l

    pub any_enabled : Handlers K A → L → Bool
    any_enabled nil l = false
    any_enabled (cons h hs) l = enabled h l || any_enabled hs l

  -- Go on unless there was an error.
  abbrev pub unless_failed : W × Option Error → (W → W × Option Error) → W × Option Error
  unless_failed (w, none) next = next w
  unless_failed (w, some e) next = (w, some e)

  unfoldable mutual
    unfolding enabled any_enabled

    pub handle : Handler K A → R → W → W × Option Error
    handle (sink k ds) r w = sinks.handle k ds r w
    handle (multi hs) r w = handle_each hs r w
    handle (traced h) r w = handle h (sinks.add_trace r) w

    pub handle_each : Handlers K A → R → W → W × Option Error
    handle_each nil r w = (w, none)
    handle_each (cons h hs) r w =
        unless_failed (elim (enabled h (sinks.level r)) [ true ↦ handle h r w | false ↦ (w, none) ])
          (λ w'. handle_each hs r w')

-- A swapHandler: what is applied to the root. The root pointer, which derived handlers share, is an
-- argument of `current`, and a swap is another root.
pub record SwapHandler (A : Type 0) : Type 0 where
  pub builds : List (Derive A)

unfoldable pub new_swap_handler : {A : Type 0} → SwapHandler A
new_swap_handler = record { builds = [] }

unfoldable pub derive_swap : {A : Type 0} → Derive A → SwapHandler A → SwapHandler A
derive_swap d s = record { builds = s.builds ++ d ∷ [] }

unfoldable pub build_each : {K A : Type 0} → List (Derive A) → Handler K A → Handler K A
unfolding derive
build_each [] h = h
build_each (d ∷ ds) h = build_each ds (derive d h)

unfoldable pub current : {K A : Type 0} → Handler K A → SwapHandler A → Handler K A
unfolding build_each
current root s = build_each s.builds root

module _ {W K A R L : Type 0} (sinks : Sinks W K A R L) where
  unfoldable pub swap_enabled : Handler K A → SwapHandler A → L → Bool
  unfolding current enabled
  swap_enabled root s l = enabled sinks (current root s) l

  unfoldable pub swap_handle : Handler K A → SwapHandler A → R → W → W × Option Error
  unfolding current handle
  swap_handle root s r w = handle sinks (current root s) r w
