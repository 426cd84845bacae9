-- ===== src/Observe/Delivery.antt =====
-- To which handlers of other packages a log record goes.
use goplatform.Prelude.{
  ℕ, zero, suc, ◌≡◌, refl, sym, ap, ap₂, ◌∙◌, fun_ext, append-nil, append_assoc, true, false,
  Option, none, some, List, [], ◌∷◌, ◌++◌, map, map-append, Bool-cases, inl, inr, arith,
  if◌then◌else◌,
}
use goplatform.Errors.{Error}
use goplatform.Observe.{
  Derive, Handler, Handlers, sink, multi, traced, nil, cons, Sinks, derive, derive_each, enabled,
  any_enabled, unless_failed, handle, handle_each, SwapHandler, new_swap_handler, derive_swap,
  build_each, current, swap_enabled, swap_handle,
}

-- A handler of another package inside a tree of handlers: what was added to it, and the number of
-- traceHandlers above it.
pub record Leaf (K A : Type 0) : Type 0 where
  pub kind : K
  pub derived : List (Derive A)
  pub traces : ℕ

mutual
  pub leaves : {K A : Type 0} → ℕ → Handler K A → List (Leaf K A)
  leaves n (sink k ds) = record { kind = k; derived = ds; traces = n } ∷ []
  leaves n (multi hs) = leaves_each n hs
  leaves n (traced h) = leaves (suc n) h

  pub leaves_each : {K A : Type 0} → ℕ → Handlers K A → List (Leaf K A)
  leaves_each n nil = []
  leaves_each n (cons h hs) = leaves n h ++ leaves_each n hs

abbrev pub add : {K A : Type 0} → Derive A → Leaf K A → Leaf K A
add d x = record x { derived = x.derived ++ d ∷ [] }

unfoldable pub add_each : {K A : Type 0} → List (Derive A) → List (Leaf K A) → List (Leaf K A)
add_each [] xs = xs
add_each (d ∷ ds) xs = add_each ds (map (add d) xs)

mutual
  unfolding leaves leaves_each derive derive_each

  leaves-derive :
      {K A : Type 0} (d : Derive A) (n : ℕ) (h : Handler K A)
      → leaves n (derive d h) ≡ map (add d) (leaves n h)
  leaves-derive d n (sink k ds) = refl
  leaves-derive d n (multi hs) = leaves_each-derive_each d n hs
  leaves-derive d n (traced h) = leaves-derive d (suc n) h

  leaves_each-derive_each :
      {K A : Type 0} (d : Derive A) (n : ℕ) (hs : Handlers K A)
      → leaves_each n (derive_each d hs) ≡ map (add d) (leaves_each n hs)
  leaves_each-derive_each d n nil = refl
  leaves_each-derive_each d n (cons h hs) =
      ap₂ (λ x y. x ++ y) (leaves-derive d n h) (leaves_each-derive_each d n hs)
      ∙ sym (map-append (add d) (leaves n h) (leaves_each n hs))

leaves-build_each :
    {K A : Type 0} (ds : List (Derive A)) (h : Handler K A)
    → leaves 0 (build_each ds h) ≡ add_each ds (leaves 0 h)
unfolding build_each add_each
leaves-build_each [] h = refl
leaves-build_each (d ∷ ds) h =
    leaves-build_each ds (derive d h) ∙ ap (add_each ds) (leaves-derive d 0 h)

-- The handler that a chain of WithAttrs and WithGroup makes.
unfoldable pub derive_all : {A : Type 0} → List (Derive A) → SwapHandler A → SwapHandler A
derive_all [] s = s
derive_all (d ∷ ds) s = derive_all ds (derive_swap d s)

builds-derive_all :
    {A : Type 0} (ds : List (Derive A)) (s : SwapHandler A)
    → (derive_all ds s).builds ≡ s.builds ++ ds
unfolding derive_all derive_swap
builds-derive_all [] s = sym (append-nil s.builds)
builds-derive_all (d ∷ ds) s =
    builds-derive_all ds (derive_swap d s) ∙ append_assoc s.builds (d ∷ []) ds

module _ {W K A R L : Type 0} (sinks : Sinks W K A R L) where
  unfoldable pub trace : ℕ → R → R
  trace zero r = r
  trace (suc n) r = sinks.add_trace (trace n r)

  abbrev pub offer : Leaf K A → R → W → W × Option Error
  offer x r w =
      if sinks.enabled x.kind x.derived (sinks.level r)
      then sinks.handle x.kind x.derived (trace x.traces r) w
      else (w, none)

  -- The leaves that are enabled get the record one after the other, up to the first error.
  unfoldable pub deliver : List (Leaf K A) → R → W → W × Option Error
  unfolding trace
  deliver [] r w = (w, none)
  deliver (x ∷ xs) r w = unless_failed sinks (offer x r w) (λ w'. deliver xs r w')

  end_of : (x : W × Option Error) → x ≡ unless_failed sinks x (λ w. (w, none))
  end_of (w, none) = refl
  end_of (w, some e) = refl

  unless_failed_assoc :
      (x : W × Option Error) (f g : W → W × Option Error)
      → unless_failed sinks (unless_failed sinks x f) g
        ≡ unless_failed sinks x (λ w. unless_failed sinks (f w) g)
  unless_failed_assoc (w, none) f g = refl
  unless_failed_assoc (w, some e) f g = refl

  deliver-append :
      (xs ys : List (Leaf K A)) (r : R) (w : W)
      → deliver (xs ++ ys) r w ≡ unless_failed sinks (deliver xs r w) (λ w'. deliver ys r w')
  unfolding deliver
  deliver-append [] ys r w = refl
  deliver-append (x ∷ xs) ys r w =
      ap (unless_failed sinks (offer x r w)) (fun_ext (λ w'. deliver-append xs ys r w'))
      ∙ sym (unless_failed_assoc (offer x r w) (λ w'. deliver xs r w') (λ w'. deliver ys r w'))

  mutual
    unfolding leaves leaves_each enabled any_enabled deliver

    deliver_disabled :
        (n : ℕ) (h : Handler K A) (r : R) (w : W)
        → enabled sinks h (sinks.level r) ≡ false
        → deliver (leaves n h) r w ≡ (w, none)
    deliver_disabled n (sink k ds) r w off = rw off refl
    deliver_disabled n (multi hs) r w off = deliver_disabled_each n hs r w off
    deliver_disabled n (traced h) r w off = deliver_disabled (suc n) h r w off

    deliver_disabled_each :
        (n : ℕ) (hs : Handlers K A) (r : R) (w : W)
        → any_enabled sinks hs (sinks.level r) ≡ false
        → deliver (leaves_each n hs) r w ≡ (w, none)
    deliver_disabled_each n nil r w off = refl
    deliver_disabled_each n (cons h hs) r w off =
        deliver-append (leaves n h) (leaves_each n hs) r w
        ∙ rw (deliver_disabled n h r w (ground arith))
            (deliver_disabled_each n hs r w (ground arith))

  module _ (level_kept : (r : R) → sinks.level (sinks.add_trace r) ≡ sinks.level r) where
    level-trace : (n : ℕ) (r : R) → sinks.level (trace n r) ≡ sinks.level r
    unfolding trace
    level-trace zero r = refl
    level-trace (suc n) r = level_kept (trace n r) ∙ level-trace n r

    mutual
      unfolding leaves leaves_each enabled any_enabled handle handle_each deliver trace

      handle-deliver :
          (n : ℕ) (h : Handler K A) (r : R) (w : W)
          → enabled sinks h (sinks.level r) ≡ true
          → handle sinks h (trace n r) w ≡ deliver (leaves n h) r w
      handle-deliver n (sink k ds) r w on = rw on (end_of _)
      handle-deliver n (multi hs) r w on = handle_each-deliver n hs r w
      handle-deliver n (traced h) r w on = handle-deliver (suc n) h r w on

      handle_each-deliver :
          (n : ℕ) (hs : Handlers K A) (r : R) (w : W)
          → handle_each sinks hs (trace n r) w ≡ deliver (leaves_each n hs) r w
      handle_each-deliver n nil r w = refl
      handle_each-deliver n (cons h hs) r w =
          let first : (elim (enabled sinks h (sinks.level (trace n r))) [
            | true ↦ handle sinks h (trace n r) w
            | false ↦ (w, none)
          ])
              ≡ deliver (leaves n h) r w =
            rw (level-trace n r) (elim (Bool-cases (enabled sinks h (sinks.level r))) [
              | inl on ↦ rw on (handle-deliver n h r w on)
              | inr off ↦ rw off (sym (deliver_disabled n h r w off))
            ]) in
          ap₂ (unless_failed sinks) first (fun_ext (λ w'. handle_each-deliver n hs r w'))
          ∙ sym (deliver-append (leaves n h) (leaves_each n hs) r w)

    -- A logger that was derived from a swapHandler by any WithAttrs and WithGroup, before or after a
    -- swap: a record that it is enabled for goes to the handlers of other packages under the new root, from
    -- the first on, to each that is enabled for its level, until one fails. Each has its own
    -- attributes and groups and then all those of the logger, in order, and gets the trace of the
    -- context for every traceHandler above it. Adding the trace must not change the level.
    pub swap_handle-deliver :
        (root : Handler K A) (ds : List (Derive A)) (r : R) (w : W)
        → swap_enabled sinks root (derive_all ds new_swap_handler) (sinks.level r) ≡ true
        → swap_handle sinks root (derive_all ds new_swap_handler) r w
          ≡ deliver (add_each ds (leaves 0 root)) r w
    unfolding swap_enabled swap_handle current new_swap_handler trace
    swap_handle-deliver root ds r w on =
        let built : current root (derive_all ds new_swap_handler) ≡ build_each ds root =
          ap (λ b. build_each b root) (builds-derive_all ds new_swap_handler) in
        ap (λ h. handle sinks h r w) built
        ∙ handle-deliver 0 (build_each ds root) r w
            (ap (λ h. enabled sinks h (sinks.level r)) (sym built) ∙ on)
        ∙ ap (λ xs. deliver xs r w) (leaves-build_each ds root)
