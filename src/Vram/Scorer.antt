-- ===== src/Vram/Scorer.antt =====
-- internal/plugins/scorer/vram.go: a score for each pod from the free memory of its node. The arithmetic
-- of float64, which rounds, is a parameter. The Kubernetes API is a function from a namespace to its
-- pods, `none` where the call fails.
pub mod Laws
use Prim.Native.String.{◌++◌ as ◌⧺◌}
use rocm_llamacpp_envoy_ai_g.Prelude.{
  ◌⊎◌, inl, inr, ℕ, ◌*◌, ◌≤◌, ◌<◌, String, Bool, Option, none, some, List, [], ◌∷◌, ltb, nat_eq,
  if◌then◌else◌,
}
use rocm_llamacpp_envoy_ai_g.GoMap
use rocm_llamacpp_envoy_ai_g.GoMap.{GoMap}
use rocm_llamacpp_envoy_ai_g.Vram.Types.{Metrics, bytes_per_gb}
use rocm_llamacpp_envoy_ai_g.Vram.Tracker.{Tracker, get_metrics}

abbrev pub default_vram_threshold_gb : ℕ
default_vram_threshold_gb = 4

pub record NamespacedName : Type 0 where
  pub namespace : String
  pub name : String

-- The part of a corev1.Pod that is read.
pub record ClusterPod : Type 0 where
  pub id : NamespacedName
  pub node_name : String

-- The float64 numbers that are not negative, with their order, and the operations of the score, which
-- round. `of_int` is the conversion of an integer; the literals are what the compiler makes of them.
-- The laws are those that hold with rounding, since to round keeps the order: a conversion, a sum, a
-- product with a literal and a quotient by an integer that is not zero keep the order of an argument,
-- and a sum is not below its first term.
pub record Float64 : Type 1 where
  pub F : Type 0
  pub zero_literal : F
  pub tenth : F
  pub nine_tenths : F
  pub half : F
  pub of_int : ℕ → F
  pub add : F → F → F
  pub mul : F → F → F
  pub div : F → F → F
  pub Le : F → F → Type 0
  pub le_refl : (x : F) → Le x x
  pub of_int_le : (m n : ℕ) → m ≤ n → Le (of_int m) (of_int n)
  pub add_le : (x y z : F) → Le y z → Le (add x y) (add x z)
  pub add_above : (x y : F) → Le x (add x y)
  pub mul_le : (x y : F) → Le x y → Le (mul nine_tenths x) (mul nine_tenths y)
  pub div_le : (x y : F) (n : ℕ) → 0 < n → Le x y → Le (div x (of_int n)) (div y (of_int n))

pub record VramScorer : Type 0 where
  pub tracker : Tracker
  pub threshold_gb : ℕ

unfoldable pub new_vram_scorer : Tracker → ℕ → VramScorer
new_vram_scorer tracker threshold_gb = record {
  tracker = tracker;
  threshold_gb = if nat_eq threshold_gb 0 then default_vram_threshold_gb else threshold_gb;
}

pub record VramScorerParameters : Type 0 where
  pub threshold_gb : ℕ

pub data FactoryError : Type 0 where
  scorer_deps_not_set bad_parameters : FactoryError

abbrev pub scorer_with : Tracker → Option VramScorerParameters → FactoryError ⊎ VramScorer
scorer_with tracker none = inl bad_parameters
scorer_with tracker (some params) = inr (new_vram_scorer tracker params.threshold_gb)

abbrev pub default_parameters : VramScorerParameters
default_parameters = record { threshold_gb = default_vram_threshold_gb }

abbrev pub scorer_parameters :
    Option (VramScorerParameters → Option VramScorerParameters) → Option VramScorerParameters
scorer_parameters none = some default_parameters
scorer_parameters (some unmarshal) = unmarshal default_parameters

-- VRAMScorerFactory. The global dependencies are an argument; the raw parameters are nil, or the decoding
-- of a JSON text over the parameters that are there, `none` where it fails.
unfoldable pub vram_scorer_factory :
    Option Tracker
    → Option (VramScorerParameters → Option VramScorerParameters)
    → FactoryError ⊎ VramScorer
unfolding new_vram_scorer
vram_scorer_factory none raw = inl scorer_deps_not_set
vram_scorer_factory (some tracker) raw = scorer_with tracker (scorer_parameters raw)

-- fmt.Sprintf("%s/%s", namespace, name)
abbrev pub pod_key : NamespacedName → String
pod_key id = id.namespace ⧺ "/" ⧺ id.name

unfoldable pub add_pods : List ClusterPod → GoMap String → GoMap String
add_pods [] pod_to_node = pod_to_node
add_pods (p ∷ pods) pod_to_node = add_pods pods (GoMap.put pod_to_node (pod_key p.id) p.node_name)

abbrev add_listed : Option (List ClusterPod) → GoMap String → GoMap String
add_listed none pod_to_node = pod_to_node
add_listed (some pods) pod_to_node = add_pods pods pod_to_node

unfoldable pub namespaces_of : List (Option NamespacedName) → GoMap (Unit {0}) → GoMap (Unit {0})
namespaces_of [] namespaces = namespaces
namespaces_of (none ∷ pods) namespaces = namespaces_of pods namespaces
namespaces_of (some id ∷ pods) namespaces =
    namespaces_of pods (GoMap.put namespaces id.namespace tt)

unfoldable pub add_namespaces :
    (String → Option (List ClusterPod)) → GoMap (Unit {0}) → GoMap String → GoMap String
unfolding add_pods
add_namespaces list_pods [] pod_to_node = pod_to_node
add_namespaces list_pods ((ns, u) ∷ namespaces) pod_to_node =
    add_namespaces list_pods namespaces (add_listed (list_pods ns) pod_to_node)

unfoldable pub build_pod_to_node_map :
    (String → Option (List ClusterPod)) → List (Option NamespacedName) → GoMap String
unfolding add_namespaces namespaces_of
build_pod_to_node_map list_pods pods = add_namespaces list_pods (namespaces_of pods []) []

unfoldable pub max_available_of : GoMap Metrics → ℕ → ℕ
max_available_of [] max_available = max_available
max_available_of ((k, m) ∷ metrics) max_available =
    max_available_of metrics
      (if ltb max_available m.available_vram then m.available_vram else max_available)

module _ (float : Float64) where
  open float use {F, zero_literal, tenth, nine_tenths, half, of_int, add, mul, div}

  -- minScore, 0.1
  abbrev pub min_score : F
  min_score = tenth

  -- maxScoreRange, 0.9
  abbrev pub max_score_range : F
  max_score_range = nine_tenths

  -- defaultScore, 0.5
  abbrev pub default_score : F
  default_score = half

  -- minScore + maxScoreRange*float64(available)/float64(max)
  abbrev pub relative_score : ℕ → ℕ → F
  relative_score available max_available =
      add min_score (div (mul max_score_range (of_int available)) (of_int max_available))

  -- The score of a pod whose node has metrics.
  unfoldable pub score_metrics : ℕ → ℕ → ℕ → F
  score_metrics threshold_bytes max_available available =
      if ltb available threshold_bytes
      then min_score
      else if ltb 0 max_available
      then relative_score available max_available
      else default_score

  abbrev pub score_known : ℕ → ℕ → Option Metrics → F
  score_known threshold_bytes max_available none = zero_literal
  score_known threshold_bytes max_available (some m) =
      score_metrics threshold_bytes max_available m.available_vram

  abbrev pub score_node : GoMap Metrics → ℕ → ℕ → Option String → F
  score_node node_vram threshold_bytes max_available none = zero_literal
  score_node node_vram threshold_bytes max_available (some node) =
      score_known threshold_bytes max_available (GoMap.get node_vram node)

  abbrev pub score_pod : GoMap String → GoMap Metrics → ℕ → ℕ → Option NamespacedName → F
  score_pod pod_to_node node_vram threshold_bytes max_available none = zero_literal
  score_pod pod_to_node node_vram threshold_bytes max_available (some id) =
      score_node node_vram threshold_bytes max_available (GoMap.get pod_to_node (pod_key id))

  unfoldable pub score_all :
      GoMap String → GoMap Metrics → ℕ → ℕ → List (Option NamespacedName) → List F
  score_all pod_to_node node_vram threshold_bytes max_available [] = []
  score_all pod_to_node node_vram threshold_bytes max_available (pod ∷ pods) =
      score_pod pod_to_node node_vram threshold_bytes max_available pod
      ∷ score_all pod_to_node node_vram threshold_bytes max_available pods

  -- Score: the scores in the order of the pods, each given by the name of its endpoint information.
  unfoldable pub score :
      VramScorer → (String → Option (List ClusterPod)) → List (Option NamespacedName) → List F
  unfolding build_pod_to_node_map max_available_of score_metrics score_all
  score s list_pods pods =
      let pod_to_node = build_pod_to_node_map list_pods pods in
      let node_vram = get_metrics s.tracker in
      score_all pod_to_node node_vram (s.threshold_gb * bytes_per_gb) (max_available_of node_vram 0)
        pods
