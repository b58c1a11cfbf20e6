-- ===== src/Telemetry/Provider.antt =====
-- internal/telemetry/telemetry.go: the set-up of OpenTelemetry and its shutdown. The SDK is a parameter that
-- tells which of its calls succeed.
pub mod Laws
use rocm_llamacpp_envoy_ai_g.Prelude.{
  ℕ, String, Bool, true, false, not, ◌&&◌, Option, none, some, List, [], ◌∷◌, ◌++◌, ◌==◌,
  if◌then◌else◌,
}

-- Nanoseconds.
abbrev pub default_metric_interval : ℕ
default_metric_interval = 10000000000

pub record Config : Type 0 where
  pub otlp_endpoint : String
  pub otlp_traces_enabled : Bool
  pub otlp_metrics_enabled : Bool
  pub prometheus_enabled : Bool
  pub runtime_instrumentation_enabled : Bool
  pub host_instrumentation_enabled : Bool
  pub metric_interval : ℕ

unfoldable pub default_config : Config
default_config = record {
  otlp_endpoint = "";
  otlp_traces_enabled = false;
  otlp_metrics_enabled = false;
  prometheus_enabled = true;
  runtime_instrumentation_enabled = true;
  host_instrumentation_enabled = true;
  metric_interval = default_metric_interval;
}

pub record Sdk : Type 0 where
  pub creates_resource : Bool
  pub creates_trace_exporter : String → Bool
  pub creates_prometheus_exporter : Bool
  pub creates_otlp_exporter : String → Bool
  pub starts_runtime : Bool
  pub starts_host : Bool

pub data SetupError : Type 0 where
  resource_failed trace_exporter_failed prometheus_exporter_failed otlp_exporter_failed : SetupError

pub data Reader : Type 0 where
  prometheus : Reader
  -- the endpoint and the interval
  periodic : String → ℕ → Reader

-- A provider of traces, or of metrics with its readers.
pub data SdkProvider : Type 0 where
  tracer_provider : SdkProvider
  meter_provider : List Reader → SdkProvider

pub record Provider : Type 0 where
  pub has_tracer : Bool
  pub meter : Option (List Reader)
  -- whose Shutdown is called, in order
  pub shutdown_funcs : List SdkProvider

-- The providers that otel.SetTracerProvider and otel.SetMeterProvider were given, and the instrumentations
-- that run.
pub record Globals : Type 0 where
  pub installed : List SdkProvider
  pub has_runtime : Bool
  pub has_host : Bool

pub data Outcome : Type 0 where
  ready : Provider → Outcome
  failed : SetupError → Outcome

pub data Readers : Type 0 where
  readers : List Reader → Readers
  no_readers : SetupError → Readers

abbrev pub otlp_readers : Sdk → Config → List Reader → Readers
otlp_readers sdk cfg opts =
    if cfg.otlp_metrics_enabled && not (cfg.otlp_endpoint == "")
    then (if sdk.creates_otlp_exporter cfg.otlp_endpoint
        then readers (opts ++ periodic cfg.otlp_endpoint cfg.metric_interval ∷ [])
        else no_readers otlp_exporter_failed)
    else readers opts

-- setupMeterProvider, the readers of the provider that it makes.
unfoldable pub setup_meter_provider : Sdk → Config → Readers
setup_meter_provider sdk cfg =
    if cfg.prometheus_enabled
    then (if sdk.creates_prometheus_exporter
        then otlp_readers sdk cfg (prometheus ∷ [])
        else no_readers prometheus_exporter_failed)
    else otlp_readers sdk cfg []

-- Initialize from the meter provider on, with what was set up before it.
abbrev pub with_meter : Sdk → Config → Provider → Globals → Readers → Globals × Outcome
with_meter sdk cfg p g (no_readers e) = (g, failed e)
with_meter sdk cfg p g (readers opts) = (
  record {
    installed = g.installed ++ meter_provider opts ∷ [];
    has_runtime = cfg.runtime_instrumentation_enabled && sdk.starts_runtime;
    has_host = cfg.host_instrumentation_enabled && sdk.starts_host;
  },
  ready (record {
    has_tracer = p.has_tracer;
    meter = some opts;
    shutdown_funcs = p.shutdown_funcs ++ meter_provider opts ∷ [];
  }),
)

abbrev pub no_globals : Globals
no_globals = record { installed = []; has_runtime = false; has_host = false }

abbrev pub new_provider : Provider
new_provider = record { has_tracer = false; meter = none; shutdown_funcs = [] }

-- The trace provider, if it is enabled, then the rest.
abbrev pub with_tracer : Sdk → Config → Globals × Outcome
with_tracer sdk cfg =
    if cfg.otlp_traces_enabled && not (cfg.otlp_endpoint == "")
    then (if sdk.creates_trace_exporter cfg.otlp_endpoint
        then with_meter sdk cfg
            (record { has_tracer = true; meter = none; shutdown_funcs = tracer_provider ∷ [] })
            (record { installed = tracer_provider ∷ []; has_runtime = false; has_host = false })
            (setup_meter_provider sdk cfg)
        else (no_globals, failed trace_exporter_failed))
    else with_meter sdk cfg new_provider no_globals (setup_meter_provider sdk cfg)

unfoldable pub initialize : Sdk → Config → Globals × Outcome
unfolding setup_meter_provider
initialize sdk cfg =
    if sdk.creates_resource then with_tracer sdk cfg else (no_globals, failed resource_failed)

abbrev pub latest : Option String → Option String → Option String
latest none last_err = last_err
latest (some e) last_err = some e

-- The loop of Shutdown: whose Shutdown was called, and lastErr.
unfoldable pub shutdown_all :
    (SdkProvider → Option String)
    → List SdkProvider
    → Option String
    → List SdkProvider × Option String
shutdown_all stop [] last_err = ([], last_err)
shutdown_all stop (f ∷ funcs) last_err =
    let (called, e) = shutdown_all stop funcs (latest (stop f) last_err) in (f ∷ called, e)

unfoldable pub shutdown :
    (SdkProvider → Option String) → Provider → List SdkProvider × Option String
unfolding shutdown_all
shutdown stop p = shutdown_all stop p.shutdown_funcs none
