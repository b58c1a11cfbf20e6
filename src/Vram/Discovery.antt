-- ===== src/Vram/Discovery.antt =====
-- internal/vram/discovery.go: the endpoints of the exporters on the nodes that run model servers. The
-- Kubernetes API is a function from what is listed to the answer, `none` where the call fails.
pub mod Laws
use rocm_llamacpp_envoy_ai_g.Prelude.{
  ℕ, String, Bool, true, false, not, ◌&&◌, ◌||◌, Option, none, some, List, [], ◌∷◌, ◌++◌, ◌==◌, ltb,
  is_some, if◌then◌else◌,
}
use rocm_llamacpp_envoy_ai_g.GoMap
use rocm_llamacpp_envoy_ai_g.GoMap.{GoMap}
use rocm_llamacpp_envoy_ai_g.Vram.Types.{
  Error, client_nil, no_running_exporter_pod, no_tcp_port_in_exporter_pod, list_pods, list_nodes,
  Result, ok, err, MetricsEndpoint,
}

pub record ContainerPort : Type 0 where
  pub protocol : String
  pub container_port : ℕ

-- The part of a corev1.Pod that the discovery reads; `containers` are the ports of each.
pub record Pod : Type 0 where
  pub phase : String
  pub node_name : String
  pub pod_ip : String
  pub containers : List (List ContainerPort)

-- What is listed: the pods of a namespace with some labels, or the nodes, with labels if any.
pub record Cluster : Type 0 where
  pub pods : String → GoMap String → Option (List Pod)
  pub nodes : Option (GoMap String) → Option (List String)

pub record KubernetesDiscovery : Type 0 where
  pub client : Option Cluster
  pub namespace : String
  pub pod_selector : GoMap String
  pub node_selector : GoMap String
  pub exporter_namespace : String
  pub exporter_pod_selector : GoMap String

pub record KubernetesDiscoveryConfig : Type 0 where
  pub client : Option Cluster
  pub namespace : String
  pub pod_selector : GoMap String
  pub node_selector : GoMap String
  pub exporter_namespace : String
  pub exporter_pod_selector : GoMap String

unfoldable pub new_kubernetes_discovery : KubernetesDiscoveryConfig → KubernetesDiscovery
new_kubernetes_discovery config = record {
  client = config.client;
  namespace = config.namespace;
  pod_selector = config.pod_selector;
  node_selector = config.node_selector;
  exporter_namespace = config.exporter_namespace;
  exporter_pod_selector = config.exporter_pod_selector;
}

unfoldable pub update_pod_selector : KubernetesDiscovery → GoMap String → KubernetesDiscovery
update_pod_selector d selector = record d { pod_selector = selector }

unfoldable pub update_node_selector : KubernetesDiscovery → GoMap String → KubernetesDiscovery
update_node_selector d selector = record d { node_selector = selector }

unfoldable pub update_namespace : KubernetesDiscovery → String → KubernetesDiscovery
update_namespace d namespace = record d { namespace = namespace }

abbrev pub is_tcp : ContainerPort → Bool
is_tcp p = (p.protocol == "" || p.protocol == "TCP") && ltb 0 p.container_port

unfoldable pub first_tcp_port : List ContainerPort → Option ℕ
first_tcp_port [] = none
first_tcp_port (p ∷ ports) =
    let rest = first_tcp_port ports in if is_tcp p then some p.container_port else rest

abbrev pub or_else : Option ℕ → Option ℕ → Option ℕ
or_else none o = o
or_else (some n) o = some n

-- getFirstTCPPort, `none` where it returns an error.
unfoldable pub get_first_tcp_port : List (List ContainerPort) → Option ℕ
unfolding first_tcp_port
get_first_tcp_port [] = none
get_first_tcp_port (ports ∷ containers) =
    or_else (first_tcp_port ports) (get_first_tcp_port containers)

abbrev pub is_running : Pod → Bool
is_running pod = pod.phase == "Running"

-- One pod of the loop of findExporterEndpoint: its port, if the loop returns it.
abbrev pub exporter_port : Pod → String → Option ℕ
exporter_port pod node_name =
    if not (is_running pod) || not (pod.node_name == node_name) || pod.pod_ip == ""
    then none
    else get_first_tcp_port pod.containers

abbrev endpoint_or : Option ℕ → Pod → String → Option MetricsEndpoint → Option MetricsEndpoint
endpoint_or none pod node_name rest = rest
endpoint_or (some port) pod node_name rest =
    some (record { node_name = node_name; address = pod.pod_ip; port = port })

unfoldable pub find_exporter : List Pod → String → Option MetricsEndpoint
unfolding get_first_tcp_port
find_exporter [] node_name = none
find_exporter (pod ∷ pods) node_name =
    endpoint_or (exporter_port pod node_name) pod node_name (find_exporter pods node_name)

abbrev find_among : Option (List Pod) → String → Option MetricsEndpoint
find_among none node_name = none
find_among (some pods) node_name = find_exporter pods node_name

-- `none` stands for each of its errors, which the caller skips.
unfoldable pub find_exporter_endpoint :
    Cluster → KubernetesDiscovery → String → Option MetricsEndpoint
unfolding find_exporter
find_exporter_endpoint cluster d node_name =
    find_among (cluster.pods d.exporter_namespace d.exporter_pod_selector) node_name

unfoldable pub node_set : List String → GoMap (Unit {0}) → GoMap (Unit {0})
node_set [] set = set
node_set (n ∷ names) set = node_set names (GoMap.put set n tt)

unfoldable pub seen_nodes : GoMap (Unit {0}) → List Pod → GoMap (Unit {0}) → GoMap (Unit {0})
seen_nodes nodes [] seen = seen
seen_nodes nodes (pod ∷ pods) seen = seen_nodes nodes pods (
    if not (is_running pod) || pod.node_name == "" || not (GoMap.has nodes pod.node_name)
    then seen
    else GoMap.put seen pod.node_name tt)

abbrev add_endpoint : Option MetricsEndpoint → List MetricsEndpoint → List MetricsEndpoint
add_endpoint none rest = rest
add_endpoint (some e) rest = e ∷ rest

unfoldable pub endpoints_of :
    Cluster → KubernetesDiscovery → GoMap (Unit {0}) → List MetricsEndpoint
unfolding find_exporter_endpoint
endpoints_of cluster d [] = []
endpoints_of cluster d ((node_name, u) ∷ seen) =
    add_endpoint (find_exporter_endpoint cluster d node_name) (endpoints_of cluster d seen)

abbrev is_empty : GoMap String → Bool
is_empty [] = true
is_empty (e ∷ m) = false

abbrev with_nodes :
    Cluster → KubernetesDiscovery → List Pod → Option (List String) → Result (List MetricsEndpoint)
with_nodes cluster d pods none = err list_nodes
with_nodes cluster d pods (some names) =
    ok (endpoints_of cluster d (seen_nodes (node_set names []) pods []))

abbrev with_pods : Cluster → KubernetesDiscovery → Option (List Pod) → Result (List MetricsEndpoint)
with_pods cluster d none = err list_pods
with_pods cluster d (some pods) =
    with_nodes cluster d pods
      (cluster.nodes (if is_empty d.node_selector then none else some d.node_selector))

abbrev with_client : KubernetesDiscovery → Option Cluster → Result (List MetricsEndpoint)
with_client d none = err client_nil
with_client d (some cluster) = with_pods cluster d (cluster.pods d.namespace d.pod_selector)

unfoldable pub discover_endpoints : KubernetesDiscovery → Result (List MetricsEndpoint)
unfolding endpoints_of seen_nodes node_set
discover_endpoints d = with_client d d.client

pub record StaticDiscovery : Type 0 where
  pub endpoints : List MetricsEndpoint

unfoldable pub new_static_discovery : List MetricsEndpoint → StaticDiscovery
new_static_discovery endpoints = record { endpoints = endpoints }

-- DiscoverEndpoints of a StaticDiscovery: a copy of its list.
unfoldable pub static_discover_endpoints : StaticDiscovery → Result (List MetricsEndpoint)
static_discover_endpoints d = ok d.endpoints

unfoldable pub set_endpoints : StaticDiscovery → List MetricsEndpoint → StaticDiscovery
set_endpoints d endpoints = record d { endpoints = endpoints }
