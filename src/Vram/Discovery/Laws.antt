-- ===== src/Vram/Discovery/Laws.antt =====
-- Which endpoints the discovery returns (internal/vram/discovery.go: DiscoverEndpoints,
-- findExporterEndpoint).
use rocm_llamacpp_envoy_ai_g.Prelude.{
  ℕ, String, ◌≡◌, refl, sym, ap, ◌≢◌, ◌⊎◌, inl, inr, true, false, not, ◌||◌, Option, none, some,
  List, [], ◌∷◌, arith, ◌==◌, eq_iff, In, Bool-cases, Option-cases, if◌then◌else◌,
}
use rocm_llamacpp_envoy_ai_g.GoMap
use rocm_llamacpp_envoy_ai_g.GoMap.{GoMap}
use rocm_llamacpp_envoy_ai_g.Vram.Types.{ok, MetricsEndpoint}
use rocm_llamacpp_envoy_ai_g.Vram.Discovery.{
  Pod, Cluster, KubernetesDiscovery, is_running, exporter_port, find_exporter,
  find_exporter_endpoint, node_set, seen_nodes, endpoints_of, add_endpoint, discover_endpoints,
  is_empty, get_first_tcp_port,
}

-- A running pod of the list is on the node.
abbrev pub RunsOn : List Pod → String → Type 0
RunsOn pods node = (p : Pod) × In p pods × (is_running p ≡ true) × (p.node_name ≡ node)

-- The endpoint is the address and the first TCP port of a running pod of the list on its node.
abbrev pub Exports : List Pod → MetricsEndpoint → Type 0
Exports pods e =
    (x : Pod) × In x pods
    × (is_running x ≡ true)
    × (x.node_name ≡ e.node_name)
    × (x.pod_ip ≢ "")
    × (x.pod_ip ≡ e.address)
    × (get_first_tcp_port x.containers ≡ some e.port)

has-node_set :
    (names : List String) (set : GoMap (Unit {0})) (n : String)
    → GoMap.has (node_set names set) n ≡ true
    → (GoMap.has set n ≡ true) ⊎ In n names
unfolding node_set
has-node_set [] set n h = inl h
has-node_set (m ∷ names) set n h = elim (has-node_set names (GoMap.put set m tt) n h) [
  | inl k ↦ elim (Bool-cases (m == n)) [
    | inl q ↦ inr (inl (sym ((eq_iff m n).0 q)))
    | inr q ↦ inl (ground (arith, GoMap.get-put set m n tt, q, k))
  ]
  | inr i ↦ inr (inr i)
]

Seen : GoMap (Unit {0}) → List Pod → GoMap (Unit {0}) → String → Type 0
Seen nodes pods seen n = (GoMap.has seen n ≡ true) ⊎ (RunsOn pods n × (GoMap.has nodes n ≡ true))

has-seen_nodes :
    (nodes : GoMap (Unit {0})) (pods : List Pod) (seen : GoMap (Unit {0})) (n : String)
    → GoMap.has (seen_nodes nodes pods seen) n ≡ true
    → Seen nodes pods seen n
unfolding seen_nodes Seen
has-seen_nodes nodes [] seen n h = inl h
has-seen_nodes nodes (p ∷ pods) seen n h =
    elim (Bool-cases
      (not (is_running p) || p.node_name == "" || not (GoMap.has nodes p.node_name))) [
        | inl q ↦ elim (has-seen_nodes nodes pods seen n (rw q at h)) [
          | inl k ↦ inl k
          | inr ((x, i, r, e), k) ↦ inr ((x, inr i, r, e), k)
        ]
        | inr q ↦ elim (has-seen_nodes nodes pods (GoMap.put seen p.node_name tt) n (rw q at h)) [
          | inl k ↦ elim (Bool-cases (p.node_name == n)) [
            | inl w ↦ inr (
              (p, inl refl, ground (arith, q), (eq_iff p.node_name n).0 w),
              ground (arith, q, ap (GoMap.has nodes) ((eq_iff p.node_name n).0 w)),
            )
            | inr w ↦ inl (ground (arith, GoMap.get-put seen p.node_name n tt, w, k))
          ]
          | inr ((x, i, r, e), k) ↦ inr ((x, inr i, r, e), k)
        ]
      ]

exporter_port-some :
    (x : Pod) (n : String) (port : ℕ)
    → exporter_port x n ≡ some port
    → (is_running x ≡ true)
      × (x.node_name ≡ n)
      × (x.pod_ip ≢ "")
      × (get_first_tcp_port x.containers ≡ some port)
exporter_port-some x n port h =
    elim (Bool-cases (not (is_running x) || not (x.node_name == n) || x.pod_ip == "")) [
      | inl q ↦ absurd (ground (arith, rw q at h))
      | inr q ↦ (
        ground (arith, q),
        (eq_iff x.node_name n).0 (ground (arith, q)),
        λ e. ground (arith, q, eq_iff x.pod_ip "", e),
        rw q at h,
      )
    ]

-- An endpoint that was found for a node.
Found : List Pod → String → Option MetricsEndpoint → Type 0
Found pods n none = Unit
Found pods n (some e) = (e.node_name ≡ n) × Exports pods e

more-Found :
    (p : Pod) (pods : List Pod) (n : String) (o : Option MetricsEndpoint)
    → Found pods n o
    → Found (p ∷ pods) n o
unfolding Found
more-Found p pods n none f = tt
more-Found p pods n (some e) (named, (x, i, r, w, ip, addr, port)) =
    (named, (x, inr i, r, w, ip, addr, port))

find_exporter-Found : (pods : List Pod) (n : String) → Found pods n (find_exporter pods n)
unfolding find_exporter Found
find_exporter-Found [] n = tt
find_exporter-Found (p ∷ pods) n = elim (Option-cases (exporter_port p n)) [
  | inl e ↦ rw e (more-Found p pods n (find_exporter pods n) (find_exporter-Found pods n))
  | inr (port, e) ↦
      let (r, w, ip, tcp) = exporter_port-some p n port e in
      rw e (refl, (p, inl refl, r, w, ip, refl, tcp))
]

find_exporter_endpoint-Found :
    (c : Cluster) (d : KubernetesDiscovery) (exporters : List Pod) (n : String)
    → c.pods d.exporter_namespace d.exporter_pod_selector ≡ some exporters
    → Found exporters n (find_exporter_endpoint c d n)
unfolding find_exporter_endpoint
find_exporter_endpoint-Found c d exporters n e = rw e (find_exporter-Found exporters n)

In-add_endpoint :
    (e : MetricsEndpoint) (o : Option MetricsEndpoint) (rest : List MetricsEndpoint)
    → In e (add_endpoint o rest)
    → (o ≡ some e) ⊎ In e rest
In-add_endpoint e none rest i = inr i
In-add_endpoint e (some x) rest (inl q) = inl (ap some (sym q))
In-add_endpoint e (some x) rest (inr i) = inr i

In-endpoints_of :
    (c : Cluster) (d : KubernetesDiscovery) (exporters : List Pod) (seen : GoMap (Unit {0}))
    (e : MetricsEndpoint)
    → c.pods d.exporter_namespace d.exporter_pod_selector ≡ some exporters
    → In e (endpoints_of c d seen)
    → (GoMap.has seen e.node_name ≡ true) × Exports exporters e
unfolding endpoints_of GoMap.get Found
In-endpoints_of c d exporters [] e h i = absurd i
In-endpoints_of c d exporters ((n, u) ∷ seen) e h i =
    elim (In-add_endpoint e (find_exporter_endpoint c d n) (endpoints_of c d seen) i) [
      | inl q ↦
          let (named, x) = rw q at (find_exporter_endpoint-Found c d exporters n h) in
          (ground (arith, eq_iff n e.node_name, named), x)
      | inr j ↦ let (k, x) = In-endpoints_of c d exporters seen e h j in (ground (arith, k), x)
    ]

nothing-has : (n : String) → GoMap.has {V = Unit {0}} [] n ≡ false
unfolding GoMap.get
nothing-has n = refl

-- When the API answers: the discovery succeeds, and each endpoint that it returns is of a node that
-- the node selector lists and a running model server is on, and is the address and the first TCP
-- port of a running exporter on that node.
pub In-discover_endpoints :
    (d : KubernetesDiscovery) (c : Cluster) (pods exporters : List Pod) (names : List String)
    → d.client ≡ some c
    → c.pods d.namespace d.pod_selector ≡ some pods
    → c.nodes (if is_empty d.node_selector then none else some d.node_selector) ≡ some names
    → c.pods d.exporter_namespace d.exporter_pod_selector ≡ some exporters
    → (endpoints : List MetricsEndpoint) × (discover_endpoints d ≡ ok endpoints)
      × ((e : MetricsEndpoint)
          → In e endpoints
          → In e.node_name names × RunsOn pods e.node_name × Exports exporters e)
unfolding discover_endpoints Seen
In-discover_endpoints d c pods exporters names hc hp hn hx =
    let seen = seen_nodes (node_set names []) pods [] in
    (
      endpoints_of c d seen,
      rw (hc, hp, hn) refl,
      λ e i.
          let (k, x) = In-endpoints_of c d exporters seen e hx i in
          elim (has-seen_nodes (node_set names []) pods [] e.node_name k) [
            | inl z ↦ absurd (ground (arith, z, nothing-has e.node_name))
            | inr (r, s) ↦ elim (has-node_set names [] e.node_name s) [
              | inl z ↦ absurd (ground (arith, z, nothing-has e.node_name))
              | inr j ↦ (j, r, x)
            ]
          ],
    )
