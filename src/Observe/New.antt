-- ===== src/Observe/New.antt =====
-- New of pkg/observe/observer.go, its getters and SetAsGlobal. `R` is the type of resources, `X` that of
-- exporters.
use goplatform.Prelude.{
  String, Bool, true, false, Option, none, some, List, [], ◌∷◌, ◌⊎◌, inl, inr, str_eq,
  if◌then◌else◌,
}
use goplatform.Errors.{Error, wrap}
use goplatform.Observe.{Handler}
use goplatform.Observe.Observer.{
  Observer, with_service_name, with_service_version, with_otlp_endpoint, with_base_handler,
  with_tracer_provider, with_meter_provider, with_logger_provider,
}

pub data Signal : Type 0 where
  traces : Signal
  metrics : Signal
  logs : Signal

-- The SDK: a resource from its attributes, an OTLP exporter for an endpoint, a provider with the exporter if
-- there is one, and the provider as the interface through which it is used.
pub record Sdk (W R X P Lp : Type 0) : Type 0 where
  pub new_resource : List (String × String) → R ⊎ Error
  pub new_exporter : Signal → String → W → W × (X ⊎ Error)
  pub new_provider : Signal → R → Option X → W → W × P
  pub as_interface : P → Lp

abbrev pub exporter_format : Signal → String
exporter_format traces = "observe: create OTLP trace exporter: %w"
exporter_format metrics = "observe: create OTLP metric exporter: %w"
exporter_format logs = "observe: create OTLP log exporter: %w"

-- A custom provider stays, otherwise the one that was made.
abbrev pub interface_of : {Lp : Type 0} → Option Lp → Option Lp → Option Lp
interface_of none old = old
interface_of (some lp) old = some lp

-- An Option, but for WithLogger.
pub data Setting (K A Lp : Type 0) : Type 0 where
  service_name : String → Setting K A Lp
  service_version : String → Setting K A Lp
  otlp_endpoint : String → Setting K A Lp
  base_handler : Handler K A → Setting K A Lp
  custom_tracer_provider : Option Lp → Setting K A Lp
  custom_meter_provider : Option Lp → Setting K A Lp
  custom_logger_provider : Option Lp → Setting K A Lp

module _ {K A P Lp : Type 0} where
  unfoldable pub apply_option : Setting K A Lp → Observer K A P Lp → Observer K A P Lp
  unfolding with_service_name with_service_version with_otlp_endpoint with_base_handler
      with_tracer_provider with_meter_provider with_logger_provider
  apply_option (service_name name) o = with_service_name name o
  apply_option (service_version version) o = with_service_version version o
  apply_option (otlp_endpoint endpoint) o = with_otlp_endpoint endpoint o
  apply_option (base_handler h) o = with_base_handler h o
  apply_option (custom_tracer_provider tp) o = with_tracer_provider tp o
  apply_option (custom_meter_provider mp) o = with_meter_provider mp o
  apply_option (custom_logger_provider lp) o = with_logger_provider lp o

  abbrev pub default_observer : Observer K A P Lp
  default_observer = record {
    service_name = "unknown";
    service_version = "";
    otlp_endpoint = "";
    base_handler = none;
    swap_root = none;
    tp = none;
    mp = none;
    lp = none;
    custom_tp = false;
    custom_mp = false;
    custom_lp = false;
    owned_tp = none;
    owned_mp = none;
    owned_lp = none;
    started = false;
  }

  unfoldable pub apply_options : List (Setting K A Lp) → Observer K A P Lp → Observer K A P Lp
  unfolding apply_option
  apply_options [] o = o
  apply_options (opt ∷ opts) o = apply_options opts (apply_option opt o)

  unfoldable pub resource_attributes : Observer K A P Lp → List (String × String)
  resource_attributes o =
      ("service.name", o.service_name)
      ∷ (if str_eq o.service_version "" then [] else ("service.version", o.service_version) ∷ [])

  unfoldable pub tracer_provider : Lp → Observer K A P Lp → Lp
  tracer_provider noop o = elim o.tp [ some tp ↦ tp | none ↦ noop ]

  unfoldable pub meter_provider : Lp → Observer K A P Lp → Lp
  meter_provider noop o = elim o.mp [ some mp ↦ mp | none ↦ noop ]

  unfoldable pub logger_provider : Lp → Observer K A P Lp → Lp
  logger_provider noop o = elim o.lp [ some lp ↦ lp | none ↦ noop ]

-- OpenTelemetry's global providers and propagator.
pub record Globals (W Lp : Type 0) : Type 0 where
  pub set_tracer_provider : Lp → W → W
  pub set_meter_provider : Lp → W → W
  pub set_propagator : W → W

abbrev pub if_set : {W Lp : Type 0} → Option Lp → (Lp → W → W) → W → W
if_set none set w = w
if_set (some lp) set w = set lp w

unfoldable pub set_as_global : {W K A P Lp : Type 0} → Globals W Lp → Observer K A P Lp → W → W
set_as_global globals o w =
    globals.set_propagator
      (if_set o.mp globals.set_meter_provider (if_set o.tp globals.set_tracer_provider w))

module _ {W R X P Lp : Type 0} (sdk : Sdk W R X P Lp) where
  abbrev pub owned : W × P → W × (Option P ⊎ Error)
  owned (w, p) = (w, inl (some p))

  abbrev pub with_exporter : Signal → R → W × (X ⊎ Error) → W × (Option P ⊎ Error)
  with_exporter s res (w, inr e) = (w, inr (wrap (exporter_format s) [] e))
  with_exporter s res (w, inl x) = owned (sdk.new_provider s res (some x) w)

  -- The provider of a signal, unless a custom one is set.
  unfoldable pub provide : Signal → Bool → String → R → W → W × (Option P ⊎ Error)
  provide s true endpoint res w = (w, inl none)
  provide s false endpoint res w =
      if str_eq endpoint ""
      then owned (sdk.new_provider s res none w)
      else with_exporter s res (sdk.new_exporter s endpoint w)

  -- Go on with what was made, unless that failed.
  abbrev pub provided :
      {B : Type 0} → W × (Option P ⊎ Error) → (Option P → W → W × (B ⊎ Error)) → W × (B ⊎ Error)
  provided (w, inr e) next = (w, inr e)
  provided (w, inl p) next = next p w

  abbrev pub interface : Option P → Option Lp
  interface none = none
  interface (some p) = some (sdk.as_interface p)

module _ {W R X K A P Lp : Type 0} (sdk : Sdk W R X P Lp) where
  -- The Observer with its providers and its swapHandler.
  abbrev pub complete : Observer K A P Lp → Option P → Option P → Option P → Observer K A P Lp
  complete o tp mp lp = record o {
    tp = interface_of (interface sdk tp) o.tp;
    mp = interface_of (interface sdk mp) o.mp;
    lp = interface_of (interface sdk lp) o.lp;
    owned_tp = tp;
    owned_mp = mp;
    owned_lp = lp;
    swap_root = o.base_handler;
  }

  abbrev pub with_resource : Observer K A P Lp → R ⊎ Error → W → W × (Observer K A P Lp ⊎ Error)
  unfolding provide
  with_resource o (inr e) w = (w, inr (wrap "observe: build resource: %w" [] e))
  with_resource o (inl res) w =
      provided sdk (provide sdk traces o.custom_tp o.otlp_endpoint res w) (λ tp w1.
        provided sdk (provide sdk metrics o.custom_mp o.otlp_endpoint res w1) (λ mp w2.
          provided sdk (provide sdk logs o.custom_lp o.otlp_endpoint res w2)
            (λ lp w3. (w3, inl (complete o tp mp lp)))))

  unfoldable pub new : List (Setting K A Lp) → W → W × (Observer K A P Lp ⊎ Error)
  unfolding apply_options resource_attributes provide
  new opts w =
      let o = apply_options opts default_observer in
      with_resource o (sdk.new_resource (resource_attributes o)) w
