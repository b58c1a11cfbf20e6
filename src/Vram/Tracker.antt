-- ===== src/Vram/Tracker.antt =====
-- internal/vram/tracker.go: the metrics of the nodes, refreshed by scrapes.
pub mod Laws
pub mod Copies
use rocm_llamacpp_envoy_ai_g.Prelude.{
  ℕ, String, Bool, Option, none, some, List, [], ◌∷◌, ◌==◌, ltb, if◌then◌else◌,
}
use rocm_llamacpp_envoy_ai_g.GoMap
use rocm_llamacpp_envoy_ai_g.GoMap.{GoMap}
use rocm_llamacpp_envoy_ai_g.Vram.Types.{
  Error, no_nodes, no_suitable_node, no_metrics, Result, ok, err, Metrics, MetricsEndpoint,
}

pub record Tracker : Type 0 where
  pub metrics : GoMap Metrics

abbrev pub new_tracker : Tracker
new_tracker = record { metrics = [] }

-- The copies of the entries, which share nothing with the tracker.
-- The copy of an entry, field by field.
abbrev pub copy_entry : Metrics → Metrics
copy_entry m = record {
  total_vram = m.total_vram;
  used_vram = m.used_vram;
  available_vram = m.available_vram;
  last_update = m.last_update;
}

unfoldable pub copy_metrics : GoMap Metrics → GoMap Metrics → GoMap Metrics
copy_metrics [] result = result
copy_metrics ((k, v) ∷ metrics) result = copy_metrics metrics (GoMap.put result k (copy_entry v))

unfoldable pub get_metrics : Tracker → GoMap Metrics
unfolding copy_metrics
get_metrics t = copy_metrics t.metrics []

-- The loop of GetNodeWithMostAvailableVRAM over the entries: the best node so far, and its memory.
unfoldable pub best_node : GoMap Metrics → String × ℕ → String × ℕ
best_node [] best = best
best_node ((name, m) ∷ metrics) (best, max_available) =
    best_node metrics (
      if ltb max_available m.available_vram
      then (name, m.available_vram)
      else (best, max_available))

abbrev chosen : String × ℕ → Result (String × ℕ)
chosen (best, max_available) = if best == "" then err no_suitable_node else ok (best, max_available)

abbrev choose : GoMap Metrics → Result (String × ℕ)
choose [] = err no_nodes
choose (e ∷ metrics) = chosen (best_node (e ∷ metrics) ("", 0))

unfoldable pub get_node_with_most_available_vram : Tracker → Result (String × ℕ)
unfolding best_node
get_node_with_most_available_vram t = choose t.metrics

abbrev pub known : Option Metrics → Result Metrics
known none = err no_metrics
known (some m) = ok m

unfoldable pub get_node_vram : Tracker → String → Result Metrics
get_node_vram t node_name = known (GoMap.get t.metrics node_name)

unfoldable pub set_metrics : Tracker → String → Metrics → Tracker
set_metrics t node_name m = record t { metrics = GoMap.put t.metrics node_name m }

abbrev pub store : GoMap Metrics → String → Result Metrics → GoMap Metrics
store metrics name (err e) = metrics
store metrics name (ok m) = GoMap.put metrics name m

unfoldable pub scrape_all :
    (MetricsEndpoint → Result Metrics) → List MetricsEndpoint → GoMap Metrics → GoMap Metrics
scrape_all scrape [] metrics = metrics
scrape_all scrape (endpoint ∷ endpoints) metrics =
    scrape_all scrape endpoints (store metrics endpoint.node_name (scrape endpoint))

abbrev scrape_found :
    (MetricsEndpoint → Result Metrics) → Result (List MetricsEndpoint) → Tracker → Tracker
scrape_found scrape (err e) t = t
scrape_found scrape (ok endpoints) t = record t { metrics = scrape_all scrape endpoints t.metrics }

-- scrapeMetrics; the option is what the discovery returns, `none` for a nil discovery. The call of
-- the instrumentation is in Vram/Service.antt.
unfoldable pub scrape_metrics :
    (MetricsEndpoint → Result Metrics) → Option (Result (List MetricsEndpoint)) → Tracker → Tracker
unfolding scrape_all
scrape_metrics scrape none t = t
scrape_metrics scrape (some discovered) t = scrape_found scrape discovered t
