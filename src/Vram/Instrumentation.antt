-- ===== src/Vram/Instrumentation.antt =====
-- internal/vram/otel.go: the metrics of the nodes as gauges. The meter is a parameter that tells which of
-- its calls succeed.
use rocm_llamacpp_envoy_ai_g.Prelude.{
  ℕ, String, Bool, true, false, Option, none, some, List, [], ◌∷◌, if◌then◌else◌,
}
use rocm_llamacpp_envoy_ai_g.GoMap.{GoMap}
use rocm_llamacpp_envoy_ai_g.Vram.Types.{Metrics}
use rocm_llamacpp_envoy_ai_g.Vram.Tracker.{copy_metrics}

pub data Gauge : Type 0 where
  total_gauge used_gauge available_gauge : Gauge

abbrev pub gauge_name : Gauge → String
gauge_name total_gauge = "vram_total_bytes"
gauge_name used_gauge = "vram_used_bytes"
gauge_name available_gauge = "vram_available_bytes"

pub record Meter : Type 0 where
  pub creates : String → Bool
  pub registers : Bool

pub data InstrumentationError : Type 0 where
  create_gauge : Gauge → InstrumentationError
  register_callback : InstrumentationError

-- The gauges themselves say nothing more; `is_registered` is whether the callback is.
pub record OtelInstrumentation : Type 0 where
  pub current_metrics : GoMap Metrics
  pub is_registered : Bool

pub data Created : Type 0 where
  created : OtelInstrumentation → Created
  failed : InstrumentationError → Created

abbrev pub when_created : Meter → Gauge → Created → Created
when_created meter g next = if meter.creates (gauge_name g) then next else failed (create_gauge g)

unfoldable pub new_otel_instrumentation : Meter → Created
new_otel_instrumentation meter = when_created meter total_gauge (
    when_created meter used_gauge (
      when_created meter available_gauge (
        if meter.registers
        then created (record { current_metrics = []; is_registered = true })
        else failed register_callback)))

abbrev pub or_nil : Created → Option OtelInstrumentation
or_nil (created o) = some o
or_nil (failed e) = none

-- MustNewOTelInstrumentation; `none` is the nil pointer.
unfoldable pub must_new_otel_instrumentation : Meter → Option OtelInstrumentation
unfolding new_otel_instrumentation
must_new_otel_instrumentation meter = or_nil (new_otel_instrumentation meter)

unfoldable pub record_metrics : OtelInstrumentation → GoMap Metrics → OtelInstrumentation
unfolding copy_metrics
record_metrics o metrics = record o { current_metrics = copy_metrics metrics [] }

-- Close, and whether it returns nil; `unregisters` is whether the unregistration succeeds.
unfoldable pub close : Bool → OtelInstrumentation → OtelInstrumentation × Bool
close unregisters o = (if unregisters then record o { is_registered = false } else o, unregisters)

pub record Observation : Type 0 where
  pub gauge : Gauge
  pub node : String
  pub value : ℕ

unfoldable pub observe_entries : GoMap Metrics → List Observation
observe_entries [] = []
observe_entries ((node, m) ∷ metrics) =
    record { gauge = total_gauge; node = node; value = m.total_vram }
    ∷ record { gauge = used_gauge; node = node; value = m.used_vram }
    ∷ record { gauge = available_gauge; node = node; value = m.available_vram }
    ∷ observe_entries metrics

-- What the SDK collects: it calls the callback while it is registered.
unfoldable pub observe_callback : OtelInstrumentation → List Observation
unfolding observe_entries
observe_callback o = if o.is_registered then observe_entries o.current_metrics else []

-- A value of the interface Instrumentation: nil, an *OTelInstrumentation, which may be a nil pointer, or
-- the one that does nothing.
pub data Instrumentation : Type 0 where
  absent noop : Instrumentation
  otel : Option OtelInstrumentation → Instrumentation

-- A call of RecordMetrics, if the interface is not nil; `none` is the panic on a nil pointer.
abbrev pub call_record_metrics : Instrumentation → GoMap Metrics → Option Instrumentation
call_record_metrics absent metrics = some absent
call_record_metrics noop metrics = some noop
call_record_metrics (otel none) metrics = none
call_record_metrics (otel (some o)) metrics = some (otel (some (record_metrics o metrics)))
