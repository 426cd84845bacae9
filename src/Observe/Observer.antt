-- ===== src/Observe/Observer.antt =====
-- pkg/observe/observer.go: the options, Start and Stop of the Observer, which are one step each. The
-- OpenTelemetry SDK is a parameter: `P` is the type of the providers that the Observer owns, `Lp` that of
-- the interfaces through which providers are used. The root of the swapHandler is a field, and o.logger is
-- left out. Observe.New has New, and Observe.Balance says which providers are left running.
use goplatform.Prelude.{
  String, ◌≡◌, refl, sym, subst, ◌∙◌, Bool, true, false, ◌&&◌, Option, none, some, List, [], ◌∷◌,
  ◌++◌, is_none, Option-cases, inl, inr, arith,
}
use goplatform.Errors.{Error, errorf, wrap, failure, to_errors, is}
use goplatform.Errors as Errors
use goplatform.Errors.Laws.{is_option}
use goplatform.Observe.{Handler, multi, traced, nil, cons}

pub record Observer (K A P Lp : Type 0) : Type 0 where
  pub service_name : String
  pub service_version : String
  pub otlp_endpoint : String
  pub base_handler : Option (Handler K A)
  pub swap_root : Option (Handler K A)  -- of o.swap, where that is not nil
  pub tp : Option Lp
  pub mp : Option Lp
  pub lp : Option Lp
  pub custom_tp : Bool
  pub custom_mp : Bool
  pub custom_lp : Bool
  pub owned_tp : Option P
  pub owned_mp : Option P
  pub owned_lp : Option P
  pub started : Bool

-- otelslog.NewHandler, and Shutdown of a provider.
pub record Otel (W K A P Lp : Type 0) : Type 0 where
  pub new_handler : String → Lp → Handler K A
  pub shutdown : P → W → W × Option Error

module _ {K A P Lp : Type 0} where
  unfoldable pub with_service_name : String → Observer K A P Lp → Observer K A P Lp
  with_service_name name o = record o { service_name = name }

  unfoldable pub with_service_version : String → Observer K A P Lp → Observer K A P Lp
  with_service_version version o = record o { service_version = version }

  unfoldable pub with_otlp_endpoint : String → Observer K A P Lp → Observer K A P Lp
  with_otlp_endpoint endpoint o = record o { otlp_endpoint = endpoint }

  unfoldable pub with_base_handler : Handler K A → Observer K A P Lp → Observer K A P Lp
  with_base_handler h o = record o { base_handler = some h }

  unfoldable pub with_tracer_provider : Option Lp → Observer K A P Lp → Observer K A P Lp
  with_tracer_provider tp o = record o { tp = tp; custom_tp = true }

  unfoldable pub with_meter_provider : Option Lp → Observer K A P Lp → Observer K A P Lp
  with_meter_provider mp o = record o { mp = mp; custom_mp = true }

  unfoldable pub with_logger_provider : Option Lp → Observer K A P Lp → Observer K A P Lp
  with_logger_provider lp o = record o { lp = lp; custom_lp = true }

module _ {W K A P Lp : Type 0} (otel : Otel W K A P Lp) where
  -- The new root: `base` is o.baseHandler.
  abbrev pub start_root : String → Option (Handler K A) → Option Lp → Option (Handler K A)
  start_root name none lp = none
  start_root name (some base) none = some (traced base)
  start_root name (some base) (some lp) =
      some (multi (cons (traced base) (cons (otel.new_handler name lp) nil)))

  -- With the value of o.started.
  abbrev pub start_from : Observer K A P Lp → Bool → Observer K A P Lp × Option Error
  start_from o true = (o, some (failure "observe: already started" []))
  start_from o false = (
    record o {
      swap_root = elim o.swap_root [
        | none ↦ none
        | some root ↦ start_root o.service_name o.base_handler o.lp
      ];
      started = true;
    },
    none,
  )

  unfoldable pub start : Observer K A P Lp → Observer K A P Lp × Option Error
  start o = start_from o o.started

  abbrev wrapped : String → Option Error → List Error → List Error
  wrapped format none errs = errs
  wrapped format (some e) errs = errs ++ wrap format [] e ∷ []

  -- The errors so far, after one more provider.
  unfoldable pub shut_down : String → Option P → W × List Error → W × List Error
  shut_down format none (w, errs) = (w, errs)
  shut_down format (some p) (w, errs) =
      let (w', err) = otel.shutdown p w in (w', wrapped format err errs)

  unfoldable pub shut_down_all : Observer K A P Lp → W → W × List Error
  unfolding shut_down
  shut_down_all o w = shut_down "observe: shutdown logger provider: %w" o.owned_lp (
      shut_down "observe: shutdown meter provider: %w" o.owned_mp
        (shut_down "observe: shutdown tracer provider: %w" o.owned_tp (w, [])))

  abbrev pub stop_error : List Error → Option Error
  stop_error [] = none
  stop_error (e ∷ es) = some (errorf "observe: stop errors: %v" [] Errors.nil (to_errors (e ∷ es)))

  abbrev pub base_root : Option (Handler K A) → Option (Handler K A) → Option (Handler K A)
  base_root none base = none
  base_root (some root) none = some root
  base_root (some root) (some base) = some base

  -- With the value of o.started.
  abbrev pub stop_from : Observer K A P Lp → Bool → W → Observer K A P Lp × W × Option Error
  stop_from o false w = (o, w, none)
  stop_from o true w =
      let (w', errs) = shut_down_all o w in
      (
        record o { swap_root = base_root o.swap_root o.base_handler; started = false },
        w',
        stop_error errs,
      )

  unfoldable pub stop : Observer K A P Lp → W → Observer K A P Lp × W × Option Error
  unfolding shut_down_all
  stop o w = stop_from o o.started w

abbrev none_yet : List Error → Bool
none_yet [] = true
none_yet (e ∷ es) = false

none_yet-append : (es : List Error) (e : Error) → none_yet (es ++ e ∷ []) ≡ false
none_yet-append [] e = refl
none_yet-append (x ∷ es) e = refl

and-false : (b : Bool) → (b && false) ≡ false
and-false b = ground arith

module _ {W K A P Lp : Type 0} (otel : Otel W K A P Lp) where
  is_none-stop_error : (es : List Error) → is_none (stop_error otel es) ≡ none_yet es
  is_none-stop_error [] = refl
  is_none-stop_error (e ∷ es) = refl

  is_option-stop_error : (s : String) (es : List Error) → is_option s (stop_error otel es) ≡ false
  unfolding is
  is_option-stop_error s [] = refl
  is_option-stop_error s (e ∷ es) = refl

  -- The providers that are there, shut down one after the other, and whether each one returned nil.
  unfoldable pub shutdowns : List (Option P) → W → W × Bool
  shutdowns [] w = (w, true)
  shutdowns (none ∷ ps) w = shutdowns ps w
  shutdowns (some p ∷ ps) w =
      let (w1, err) = otel.shutdown p w in
      let (w2, fine) = shutdowns ps w1 in (w2, is_none err && fine)

  shutdowns-shut_down :
      (format : String) (o : Option P) (ps : List (Option P)) (s : W × List Error)
      → let r = shut_down otel format o s in
        ((shutdowns (o ∷ ps) s.0).0 ≡ (shutdowns ps r.0).0)
        × ((none_yet s.1 && (shutdowns (o ∷ ps) s.0).1) ≡ (none_yet r.1 && (shutdowns ps r.0).1))
  unfolding shut_down shutdowns
  shutdowns-shut_down format none ps s = (refl, refl)
  shutdowns-shut_down format (some p) ps (w, errs) = elim (Option-cases (otel.shutdown p w).1) [
    | inl fine ↦ (refl, rw fine refl)
    | inr (e, failed) ↦
        (refl, rw failed (rw (none_yet-append errs (wrap format [] e)) (and-false (none_yet errs))))
  ]

  -- What a Stop of a started Observer comes to.
  abbrev pub Stopped :
      Observer K A P Lp → W → String → Observer K A P Lp × W × Option Error → Type 0
  Stopped o w s (o', w', err) =
      let (shut, fine) = shutdowns (o.owned_tp ∷ o.owned_mp ∷ o.owned_lp ∷ []) w in
      (w' ≡ shut)
      × (is_none err ≡ fine)
      × (is_option s err ≡ false)
      × (o'.started ≡ false)
      × (o'.swap_root ≡ base_root otel o.swap_root o.base_handler)

  -- A Stop of a started Observer shuts down each provider that it owns once, in order, whatever the
  -- others return, puts the base handler back and leaves the Observer stopped. It returns nil exactly if all
  -- of them did; errors.Is finds nothing in an error that it returns.
  pub stop_settles :
      (o : Observer K A P Lp) (w : W) (s : String)
      → o.started ≡ true
      → Stopped o w s (stop otel o w)
  unfolding stop shut_down_all shutdowns
  stop_settles o w s on =
      let s1 = shut_down otel "observe: shutdown tracer provider: %w" o.owned_tp (w, []) in
      let s2 = shut_down otel "observe: shutdown meter provider: %w" o.owned_mp s1 in
      let s3 = shut_down otel "observe: shutdown logger provider: %w" o.owned_lp s2 in
      let h1 =
        shutdowns-shut_down "observe: shutdown tracer provider: %w" o.owned_tp
          (o.owned_mp ∷ o.owned_lp ∷ []) (w, []) in
      let h2 =
        shutdowns-shut_down "observe: shutdown meter provider: %w" o.owned_mp (o.owned_lp ∷ [])
          s1 in
      let h3 = shutdowns-shut_down "observe: shutdown logger provider: %w" o.owned_lp [] s2 in
      subst (λ b. Stopped o w s (stop_from otel o b w)) (sym on)
        (
          sym (h1.0 ∙ h2.0 ∙ h3.0),
          is_none-stop_error s3.1 ∙ ground arith ∙ sym (h1.1 ∙ h2.1 ∙ h3.1),
          is_option-stop_error s s3.1,
          refl,
          refl,
        )
