-- ===== src/Vram/Scorer/Laws.antt =====
-- The order of the scores (internal/plugins/scorer/vram.go: Score).
use rocm_llamacpp_envoy_ai_g.Prelude.{
  ℕ, ◌≤◌, ◌<◌, String, ◌≡◌, ap, inl, inr, true, Option, none, some, [], ◌∷◌, arith, ◌==◌, ltb,
  Bool-cases, if◌then◌else◌,
}
use rocm_llamacpp_envoy_ai_g.GoMap
use rocm_llamacpp_envoy_ai_g.GoMap.{GoMap}
use rocm_llamacpp_envoy_ai_g.Vram.Types.{Metrics}
use rocm_llamacpp_envoy_ai_g.Vram.Scorer.{
  NamespacedName, Float64, relative_score, pod_key, max_available_of, score_metrics, score_pod,
}

larger : (x a : ℕ) → (x ≤ (if ltb x a then a else x)) × (a ≤ (if ltb x a then a else x))
larger x a = ground arith

max_available_of-start : (metrics : GoMap Metrics) (x : ℕ) → x ≤ max_available_of metrics x
unfolding max_available_of
max_available_of-start [] x = omega arith
max_available_of-start ((k, m) ∷ metrics) x = omega (
  arith,
  max_available_of-start metrics (if ltb x m.available_vram then m.available_vram else x),
  (larger x m.available_vram).0,
)

same_memory : (v m : Metrics) → some v ≡ some m → v.available_vram ≡ m.available_vram
same_memory v m e = ap (λ (o : Option Metrics). memory o) e
  where
    memory : Option Metrics → ℕ
    memory none = 0
    memory (some o) = o.available_vram

max_available_of-get :
    (metrics : GoMap Metrics) (x : ℕ) (k : String) (m : Metrics)
    → GoMap.get metrics k ≡ some m
    → m.available_vram ≤ max_available_of metrics x
unfolding max_available_of GoMap.get
max_available_of-get [] x k m e = absurd (ground (arith, e))
max_available_of-get ((j, v) ∷ metrics) x k m e = elim (Bool-cases (j == k)) [
  | inl q ↦ omega (
    arith,
    max_available_of-start metrics (if ltb x v.available_vram then v.available_vram else x),
    (larger x v.available_vram).1,
    same_memory v m (rw q at e),
  )
  | inr q ↦ max_available_of-get metrics _ k m (rw q at e)
]

module _ (float : Float64) where
  open float use {
    F, of_int, mul, div, add, Le, le_refl, of_int_le, add_le, add_above, mul_le, div_le,
  }

  relative_score-order :
      (most a b : ℕ)
      → 0 < most
      → a ≤ b
      → Le (relative_score float a most) (relative_score float b most)
  relative_score-order most a b pos ab =
      add_le _ _ _ (div_le _ _ most pos (mul_le _ _ (of_int_le a b ab)))

  score_metrics-order :
      (threshold most a b : ℕ)
      → a ≤ b
      → b ≤ most
      → Le (score_metrics float threshold most a) (score_metrics float threshold most b)
  unfolding score_metrics
  score_metrics-order threshold most a b ab bm = elim (Bool-cases (ltb b threshold)) [
    | inl e ↦ let low : ltb a threshold ≡ true = ground (arith, e, ab) in rw (e, low) (le_refl _)
    | inr e ↦ elim (Bool-cases (ltb a threshold)) [
      | inl f ↦
          let some_memory : ltb 0 most ≡ true = ground (arith, e, f, bm) in
          rw (e, f, some_memory) (add_above _ _)
      | inr f ↦ elim (Bool-cases (ltb 0 most)) [
        | inl g ↦ rw (e, f, g) (relative_score-order most a b (ground (arith, g)) ab)
        | inr g ↦ rw (e, f, g) (le_refl _)
      ]
    ]
  ]

  -- For two pods whose nodes are known and have metrics: the pod whose node has at least as much free
  -- memory has at least the score of the other, as float64 numbers, rounding included.
  pub score_pod-Le :
      (pod_to_node : GoMap String) (node_vram : GoMap Metrics) (threshold : ℕ)
      (p q : NamespacedName) (pn qn : String) (pm qm : Metrics)
      → GoMap.get pod_to_node (pod_key p) ≡ some pn
      → GoMap.get pod_to_node (pod_key q) ≡ some qn
      → GoMap.get node_vram pn ≡ some pm
      → GoMap.get node_vram qn ≡ some qm
      → pm.available_vram ≤ qm.available_vram
      → Le
          (score_pod float pod_to_node node_vram threshold (max_available_of node_vram 0) (some p))
          (score_pod float pod_to_node node_vram threshold (max_available_of node_vram 0) (some q))
  score_pod-Le pod_to_node node_vram threshold p q pn qn pm qm ep eq fp fq le =
      rw (ep, eq, fp, fq)
        (score_metrics-order threshold (max_available_of node_vram 0) pm.available_vram
          qm.available_vram le (max_available_of-get node_vram 0 qn qm fq))
