-- ===== src/Observe/Balance.antt =====
-- Which of the providers that an Observer makes are shut down.
use goplatform.Prelude.{
  ◌≤◌, ◌≡◌, refl, sym, ap, subst, ◌∙◌, String, Bool, true, false, Option, none, some, List, [], ◌∷◌,
  ◌++◌, append-nil, append_assoc, ◌⊎◌, inl, inr, str_eq, Bool-cases, length, arith,
}
use goplatform.Prelude.Living.{
  Identity, with_one, without, without_all, listed, Holds, with_all-append, without_all-append,
  Fresh-append, without_all-with_all,
}
use goplatform.Errors.{Error}
use goplatform.Observe.Observer.{
  Observer, Otel, start, start_from, stop, shut_down, shut_down_all, stop_from,
}
use goplatform.Observe.New.{
  Signal, traces, metrics, logs, Sdk, Setting, service_name, service_version, otlp_endpoint,
  base_handler, custom_tracer_provider, custom_meter_provider, custom_logger_provider, apply_option,
  apply_options, default_observer, provide, provided, with_exporter, with_resource, new,
}

-- The providers that run. `same` compares pointers: the SDK makes a new provider, and shutting one down stops
-- that one, also where it returns an error or where the provider was shut down before.
pub record TracksProviders {W K A R X P Lp : Type 0} (sdk : Sdk W R X P Lp) (otel : Otel W K A P Lp)
    (same : P → P → Bool) (live : W → P → Bool) : Type 0 where
  pub identity : Identity same
  pub made :
      (s : Signal) (res : R) (x : Option X) (w : W)
      → let r = sdk.new_provider s res x w in live r.0 ≡ with_one same r.1 (live w)
  pub made_new :
      (s : Signal) (res : R) (x : Option X) (w : W) → live w (sdk.new_provider s res x w).1 ≡ false
  pub exporter_keeps :
      (s : Signal) (endpoint : String) (w : W) → live (sdk.new_exporter s endpoint w).0 ≡ live w
  pub shut : (p : P) (w : W) → live (otel.shutdown p w).0 ≡ without same p (live w)

-- The providers that an Observer owns.
abbrev pub owned : {K A P Lp : Type 0} → Observer K A P Lp → List P
owned o = listed o.owned_tp ++ (listed o.owned_mp ++ listed o.owned_lp)

apply_option-started :
    {K A P Lp : Type 0} (opt : Setting K A Lp) (o : Observer K A P Lp)
    → (apply_option opt o).started ≡ o.started
unfolding apply_option
apply_option-started (service_name name) o = refl
apply_option-started (service_version version) o = refl
apply_option-started (otlp_endpoint endpoint) o = refl
apply_option-started (base_handler h) o = refl
apply_option-started (custom_tracer_provider tp) o = refl
apply_option-started (custom_meter_provider mp) o = refl
apply_option-started (custom_logger_provider lp) o = refl

apply_options-started :
    {K A P Lp : Type 0} (opts : List (Setting K A Lp)) (o : Observer K A P Lp)
    → (apply_options opts o).started ≡ o.started
unfolding apply_options
apply_options-started [] o = refl
apply_options-started (opt ∷ opts) o =
    apply_options-started opts (apply_option opt o) ∙ apply_option-started opt o

length-listed_1 : {P : Type 0} (o : Option P) → length (listed o) ≤ 2
length-listed_1 none = omega arith
length-listed_1 (some p) = omega arith

length-listed_2 : {P : Type 0} (o o' : Option P) → length (listed o ++ listed o') ≤ 2
length-listed_2 none o = length-listed_1 o
length-listed_2 (some p) none = omega arith
length-listed_2 (some p) (some q) = omega arith

module _ {W K A R X P Lp : Type 0} (sdk : Sdk W R X P Lp) (otel : Otel W K A P Lp)
    (same : P → P → Bool) (live : W → P → Bool) (tracks : TracksProviders sdk otel same live) where
  -- What was made and is running.
  abbrev Running : (P → Bool) → List P → W → Type 0
  Running before qs w = Holds same qs before (live w)

  one_more :
      (before : P → Bool) (qs : List P) (s : Signal) (res : R) (x : Option X) (w : W)
      → Running before qs w
      → let r = sdk.new_provider s res x w in Running before (qs ++ listed (some r.1)) r.0
  one_more before qs s res x w (h, fresh) =
      let q = (sdk.new_provider s res x w).1 in
      (
        tracks.made s res x w
            ∙ (ap (with_one same q) h ∙ sym (with_all-append same qs (q ∷ []) before)),
        Fresh-append same qs (q ∷ []) before fresh
            (ap (λ (f : P → Bool). f q) (sym h) ∙ tracks.made_new s res x w, _),
      )

  -- After one signal: one provider more, or none where a custom one is set or the exporter failed.
  abbrev Provided : (P → Bool) → List P → W × (Option P ⊎ Error) → Type 0
  Provided before qs (w, inl p) = Running before (qs ++ listed p) w
  Provided before qs (w, inr e) = Running before qs w

  with_exporter-Provided :
      (before : P → Bool) (qs : List P) (s : Signal) (res : R) (r : W × (X ⊎ Error))
      → Running before qs r.0
      → Provided before qs (with_exporter sdk s res r)
  with_exporter-Provided before qs s res (w, inl x) h = one_more before qs s res (some x) w h
  with_exporter-Provided before qs s res (w, inr e) h = h

  provide-Provided :
      (before : P → Bool) (qs : List P) (s : Signal) (custom : Bool) (endpoint : String) (res : R)
      (w : W)
      → Running before qs w
      → Provided before qs (provide sdk s custom endpoint res w)
  unfolding provide
  provide-Provided before qs s true endpoint res w h =
      subst (λ l. Running before l w) (sym (append-nil qs)) h
  provide-Provided before qs s false endpoint res w h = elim (Bool-cases (str_eq endpoint "")) [
    | inl empty ↦ rw empty (one_more before qs s res none w h)
    | inr given ↦ rw given (
        with_exporter-Provided before qs s res (sdk.new_exporter s endpoint w)
          (tracks.exporter_keeps s endpoint w ∙ h.0, h.1))
  ]

  -- An Observer that owns the providers that were made, or an error that may leave two of them running.
  abbrev pub Made : (P → Bool) → W × (Observer K A P Lp ⊎ Error) → Type 0
  Made before (w, inl o) = Running before (owned o) w × (o.started ≡ false)
  Made before (w, inr e) = (left : List P) × (length left ≤ 2) × Running before left w

  provided-Made :
      (before : P → Bool) (qs : List P) (r : W × (Option P ⊎ Error))
      (next : Option P → W → W × (Observer K A P Lp ⊎ Error))
      → length qs ≤ 2
      → Provided before qs r
      → ((p : Option P) (w' : W) → Running before (qs ++ listed p) w' → Made before (next p w'))
      → Made before (provided sdk r next)
  provided-Made before qs (w, inl p) next l h m = m p w h
  provided-Made before qs (w, inr err) next l h m = (qs, l, h)

  with_resource-Made :
      (o : Observer K A P Lp) (res : R ⊎ Error) (w : W)
      → o.started ≡ false
      → Made (live w) (with_resource sdk o res w)
  unfolding provide
  with_resource-Made o (inr e) w h = ([], omega arith, (refl, _))
  with_resource-Made o (inl res) w h =
      let before = live w in
      provided-Made before [] _ _ (omega arith)
        (provide-Provided before [] traces o.custom_tp o.otlp_endpoint res w (refl, _))
        (λ tp w1 h1.
          provided-Made before (listed tp) _ _ (length-listed_1 tp)
            (provide-Provided before (listed tp) metrics o.custom_mp o.otlp_endpoint res w1 h1)
            (λ mp w2 h2.
              provided-Made before (listed tp ++ listed mp) _ _ (length-listed_2 tp mp)
                (provide-Provided before (listed tp ++ listed mp) logs o.custom_lp o.otlp_endpoint
                  res w2 h2)
                (λ lp w3 h3. (
                  subst (λ l. Running before l w3)
                      (append_assoc (listed tp) (listed mp) (listed lp)) h3,
                  h,
                ))))

  new-Made : (opts : List (Setting K A Lp)) (w : W) → Made (live w) (new sdk opts w)
  unfolding new
  new-Made opts w =
      with_resource-Made (apply_options opts default_observer) _ w
        (apply_options-started opts default_observer)

  shut_down-live :
      (format : String) (o : Option P) (s : W × List Error)
      → live (shut_down otel format o s).0 ≡ without_all same (listed o) (live s.0)
  unfolding shut_down
  shut_down-live format none (w, errs) = refl
  shut_down-live format (some p) (w, errs) = tracks.shut p w

  shut_down_all-live :
      (o : Observer K A P Lp) (w : W)
      → live (shut_down_all otel o w).0 ≡ without_all same (owned o) (live w)
  unfolding shut_down_all
  shut_down_all-live o w =
      shut_down-live _ o.owned_lp _
      ∙ (ap (without_all same (listed o.owned_lp)) (
            shut_down-live _ o.owned_mp _
            ∙ ap (without_all same (listed o.owned_mp)) (shut_down-live _ o.owned_tp (w, [])))
          ∙ (sym (without_all-append same (listed o.owned_mp) (listed o.owned_lp) _)
              ∙ sym (
                  without_all-append same (listed o.owned_tp)
                    (listed o.owned_mp ++ listed o.owned_lp) (live w))))

  -- Shutting down what an Observer owns.
  released :
      (before : P → Bool) (o : Observer K A P Lp) (w : W)
      → Running before (owned o) w
      → live (shut_down_all otel o w).0 ≡ before
  released before o w (h, fresh) =
      shut_down_all-live o w
      ∙ (ap (without_all same (owned o)) h
          ∙ without_all-with_all same tracks.identity (owned o) before fresh)

  stop_started-live :
      (before : P → Bool) (o : Observer K A P Lp) (w : W)
      → o.started ≡ true
      → Running before (owned o) w
      → live (stop otel o w).1 ≡ before
  unfolding stop
  stop_started-live before o w on h =
      subst (λ b. live (stop_from otel o b w).1 ≡ before) (sym on) (released before o w h)

  stop_idle-live :
      (o : Observer K A P Lp) (w : W) → o.started ≡ false → live (stop otel o w).1 ≡ live w
  unfolding stop
  stop_idle-live o w off = subst (λ b. live (stop_from otel o b w).1 ≡ live w) (sym off) refl

  start_from-started :
      (o : Observer K A P Lp) (b : Bool) → o.started ≡ b → (start_from otel o b).0.started ≡ true
  start_from-started o true on = on
  start_from-started o false off = refl

  start_from-owned : (o : Observer K A P Lp) (b : Bool) → owned (start_from otel o b).0 ≡ owned o
  start_from-owned o true = refl
  start_from-owned o false = refl

  -- Which providers are running after an Observer is stopped, started before that or not, and after an
  -- error of New.
  abbrev pub Balanced : (P → Bool) → W × (Observer K A P Lp ⊎ Error) → Type 0
  Balanced before (w, inl o) =
      (live (stop otel (start otel o).0 w).1 ≡ before)
      × Holds same (owned o) before (live (stop otel o w).1)
  Balanced before (w, inr e) = (left : List P) × (length left ≤ 2) × Holds same left before (live w)

  Made-Balanced :
      (before : P → Bool) (r : W × (Observer K A P Lp ⊎ Error)) → Made before r → Balanced before r
  unfolding start
  Made-Balanced before (w, inr e) h = h
  Made-Balanced before (w, inl o) (h, off) = (
    stop_started-live before (start otel o).0 w (start_from-started o o.started refl)
        (subst (λ l. Running before l w) (sym (start_from-owned o o.started)) h),
    (stop_idle-live o w off ∙ h.0, h.1),
  )

  -- Where New returns an Observer, after a Start and a Stop of it those providers run that ran before New,
  -- whatever errors that gives, so every provider that New made is shut down; after a Stop without a Start
  -- all of those that it made still run. Where New returns an error, up to two that it made still run.
  pub new_balance : (opts : List (Setting K A Lp)) (w : W) → Balanced (live w) (new sdk opts w)
  new_balance opts w = Made-Balanced (live w) (new sdk opts w) (new-Made opts w)
