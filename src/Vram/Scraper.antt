-- ===== src/Vram/Scraper.antt =====
-- internal/vram/scraper.go: reading the metrics of a node from a Prometheus endpoint. The text parser
-- is not modelled: a body decodes to the metric families. A value is the number of bytes that the
-- conversion to int64 gives; the time of the call is an argument.
use rocm_llamacpp_envoy_ai_g.Prelude.{
  ℕ, ◌-◌, ◌*◌, String, not, Option, none, some, List, [], ◌∷◌, ◌==◌, nat_eq, if◌then◌else◌,
}
use rocm_llamacpp_envoy_ai_g.GoMap
use rocm_llamacpp_envoy_ai_g.GoMap.{GoMap}
use rocm_llamacpp_envoy_ai_g.Http.{
  Body, unreadable, undecodable, decoded, Reply, no_request, no_response, response, status_ok, url,
}
use rocm_llamacpp_envoy_ai_g.Vram.Types.{
  unexpected_status, no_metrics, create_request, fetch_metrics, parse_metrics, Result, ok, err,
  Metrics, MetricsEndpoint, bytes_per_gb, default_total_vram_gb,
}

-- The values of a dto.Metric, of the kind that it has.
pub record Metric : Type 0 where
  pub gauge : Option ℕ
  pub counter : Option ℕ
  pub untyped : Option ℕ

pub record PrometheusScraper : Type 0 where
  pub total_metric : String
  pub used_metric : String
  pub metrics_path : String

abbrev or_default : String → String → String
or_default s d = if s == "" then d else s

unfoldable pub new_prometheus_scraper_with_config : PrometheusScraper → PrometheusScraper
new_prometheus_scraper_with_config config = record {
  total_metric = or_default config.total_metric "rocm_memory_total_bytes";
  used_metric = or_default config.used_metric "rocm_memory_used_bytes";
  metrics_path = or_default config.metrics_path "/metrics";
}

abbrev pub new_prometheus_scraper : PrometheusScraper
new_prometheus_scraper =
    new_prometheus_scraper_with_config
      (record { total_metric = ""; used_metric = ""; metrics_path = "" })

abbrev first_value : Option ℕ → Option ℕ → Option ℕ → ℕ
first_value (some g) c u = g
first_value none (some c) u = c
first_value none none (some u) = u
first_value none none none = 0

unfoldable pub get_metric_value : Metric → ℕ
get_metric_value m = first_value m.gauge m.counter m.untyped

-- The value of the first metric of a family, or what there was before.
abbrev pub family_value : Option (List Metric) → ℕ → ℕ
family_value none n = n
family_value (some []) n = n
family_value (some (m ∷ ms)) n = get_metric_value m

unfoldable pub metrics_of : PrometheusScraper → ℕ → GoMap (List Metric) → Metrics
unfolding get_metric_value
metrics_of s now families =
    let total =
      family_value (GoMap.get families s.total_metric) (default_total_vram_gb * bytes_per_gb) in
    let used = family_value (GoMap.get families s.used_metric) 0 in
    record {
      total_vram = total;
      used_vram = used;
      available_vram = total - used;
      last_update = now;
    }

abbrev of_body : PrometheusScraper → ℕ → Body (GoMap (List Metric)) → Result Metrics
of_body s now unreadable = err parse_metrics
of_body s now undecodable = err parse_metrics
of_body s now (decoded families) = ok (metrics_of s now families)

abbrev read_metrics : PrometheusScraper → ℕ → Reply (GoMap (List Metric)) → Result Metrics
read_metrics s now no_request = err create_request
read_metrics s now no_response = err fetch_metrics
read_metrics s now (response status body) =
    if not (nat_eq status status_ok) then err unexpected_status else of_body s now body

unfoldable pub scrape :
    PrometheusScraper
    → (String → Reply (GoMap (List Metric)))
    → ℕ
    → MetricsEndpoint
    → Result Metrics
unfolding metrics_of
scrape s http_get now endpoint =
    read_metrics s now (http_get (url endpoint.address endpoint.port s.metrics_path))

abbrev static_result : ℕ → Option Metrics → Result Metrics
static_result now none = err no_metrics
static_result now (some m) = ok (record m { last_update = now })

-- StaticScraper
unfoldable pub static_scrape : GoMap Metrics → ℕ → MetricsEndpoint → Result Metrics
static_scrape metrics now endpoint = static_result now (GoMap.get metrics endpoint.node_name)

-- StaticScraper.SetMetrics, of the scraper's map.
unfoldable pub set_static_metrics : GoMap Metrics → String → Metrics → GoMap Metrics
set_static_metrics metrics node_name m = GoMap.put metrics node_name m
