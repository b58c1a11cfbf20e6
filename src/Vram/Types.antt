-- ===== src/Vram/Types.antt =====
-- internal/vram/types.go: the metrics of a node and where they are scraped. Sizes are bytes, taken as
-- not negative (an exporter reports no negative size); times are numbers.
use rocm_llamacpp_envoy_ai_g.Prelude.{ℕ, ◌*◌, String}

abbrev pub bytes_per_gb : ℕ
bytes_per_gb = 1024 * 1024 * 1024

abbrev pub default_total_vram_gb : ℕ
default_total_vram_gb = 32

pub data Error : Type 0 where
  client_nil no_nodes no_suitable_node no_metrics unexpected_status : Error
  no_running_exporter_pod no_tcp_port_in_exporter_pod : Error
  create_request fetch_metrics parse_metrics list_pods list_nodes : Error

pub data Result (A : Type 0) : Type 0 where
  ok : A → Result A
  err : Error → Result A

pub record Metrics : Type 0 where
  pub total_vram : ℕ
  pub used_vram : ℕ
  pub available_vram : ℕ
  pub last_update : ℕ

pub record MetricsEndpoint : Type 0 where
  pub node_name : String
  pub address : String
  pub port : ℕ
