-- ===== src/ModelTracker/Poll/Laws.antt =====
-- What a poll makes of the replies of the pods.
use rocm_llamacpp_envoy_ai_g.Prelude.{
  String, ◌≡◌, refl, ◌∙◌, ◌≢◌, ◌⊎◌, inl, inr, Bool, true, false, ◌||◌, ◌&&◌, Option, none, some,
  List, [], ◌∷◌, ◌==◌, eq_iff, arith, Bool-cases, if◌then◌else◌,
}
use rocm_llamacpp_envoy_ai_g.GoMap
use rocm_llamacpp_envoy_ai_g.GoMap.{GoMap, Distinct, put-Distinct, get-put}
use rocm_llamacpp_envoy_ai_g.Http.{Reply, url}
use rocm_llamacpp_envoy_ai_g.ModelTracker.Types.{PodModelSet, Options}
use rocm_llamacpp_envoy_ai_g.ModelTracker.State.{holds, in_set}
use rocm_llamacpp_envoy_ai_g.ModelTracker.State.Valid.{
  DistinctSets, DistinctIf, put-DistinctSets, get-DistinctSets,
}
use rocm_llamacpp_envoy_ai_g.ModelTracker.Query.Laws.{OkDistinct, read_models-Distinct}
use rocm_llamacpp_envoy_ai_g.ModelTracker.Query.{ModelEntry, Result, ok, err, query_pod}
use rocm_llamacpp_envoy_ai_g.ModelTracker.Poll.{Pod, record_reply, keep_last, scan}

-- Some pod of the list has the address.
abbrev pub listed : List Pod → String → Bool
listed [] ip = false
listed (pod ∷ pods) ip = pod.ip == ip || listed pods ip

-- What the code should know of a pod after its query: the reported set, or what it knew before.
abbrev pub refreshed : Result PodModelSet → Option PodModelSet → Option PodModelSet
refreshed (ok set) last = some set
refreshed (err e) last = last

or_else : Option PodModelSet → Option PodModelSet → Option PodModelSet
or_else none later = later
or_else (some set) later = some set

or_else-none : (a : Option PodModelSet) → or_else a none ≡ a
unfolding or_else
or_else-none none = refl
or_else-none (some set) = refl

or_else-or_else : (a b : Option PodModelSet) → or_else a (or_else a b) ≡ or_else a b
unfolding or_else
or_else-or_else none b = refl
or_else-or_else (some set) b = refl

get-keep_last :
    (last : Option PodModelSet) (next : GoMap PodModelSet) (ip q : String)
    → GoMap.get (keep_last last next ip) q
      ≡ (if ip == q then or_else last (GoMap.get next q) else GoMap.get next q)
unfolding or_else
get-keep_last none next ip q = ground arith
get-keep_last (some set) next ip q = get-put next ip q set

module _ (http_get : String → Reply (List ModelEntry)) (opts : Options)
    (loaded : GoMap PodModelSet) where
  abbrev pub fresh : String → Option PodModelSet
  fresh ip = refreshed (query_pod http_get opts ip) (GoMap.get loaded ip)

  get-record_reply :
      (r : Result PodModelSet) (next : GoMap PodModelSet) (ip q : String)
      → GoMap.get (record_reply r loaded next ip) q ≡ (
          if ip == q
          then or_else (refreshed r (GoMap.get loaded ip)) (GoMap.get next q)
          else GoMap.get next q)
  unfolding or_else
  get-record_reply (ok set) next ip q = get-put next ip q set
  get-record_reply (err e) next ip q = get-keep_last (GoMap.get loaded ip) next ip q

  get-scan :
      (pods : List Pod) (acc : GoMap PodModelSet × GoMap String) (q : String)
      → q ≢ ""
      → GoMap.get (scan http_get opts loaded pods acc).0 q
        ≡ (if listed pods q then or_else (fresh q) (GoMap.get acc.0 q) else GoMap.get acc.0 q)
  unfolding scan
  get-scan [] acc q h = refl
  get-scan (pod ∷ pods) acc q h = elim (Bool-cases (pod.ip == "")) [
    | inl e ↦ rw (e, scan) (get-scan pods acc q h ∙ rw (unaddressed e))
    | inr e ↦
        rw (e, scan)
          (get-scan pods _ q h
            ∙ rw (get-record_reply _ acc.0 pod.ip q) (again (Bool-cases (pod.ip == q))))
  ]
    where
      unaddressed : (pod.ip == "") ≡ true → (pod.ip == q) ≡ false
      unaddressed e = ground (arith, eq_iff pod.ip "", eq_iff pod.ip q)

      again :
          ((pod.ip == q) ≡ true) ⊎ ((pod.ip == q) ≡ false)
          → (let this =
                (if pod.ip == q
                  then or_else (fresh pod.ip) (GoMap.get acc.0 q)
                  else GoMap.get acc.0 q) in
              (if listed pods q then or_else (fresh q) this else this))
            ≡ (if pod.ip == q || listed pods q
                then or_else (fresh q) (GoMap.get acc.0 q)
                else GoMap.get acc.0 q)
      again (inl e) =
          rw (e, (eq_iff pod.ip q).0 e, or_else-or_else (fresh q) (GoMap.get acc.0 q))
            (ground arith)
      again (inr e) = rw e

  record_reply-Distinct :
      (r : Result PodModelSet) (next : GoMap PodModelSet) (ip : String)
      → OkDistinct r
      → DistinctSets loaded
      → Distinct next × DistinctSets next
      → Distinct (record_reply r loaded next ip) × DistinctSets (record_reply r loaded next ip)
  record_reply-Distinct (ok set) next ip d ds (n, ns) =
      (put-Distinct next ip set n, put-DistinctSets next ip set d ns)
  record_reply-Distinct (err e) next ip d ds (n, ns) =
      kept (GoMap.get loaded ip) (get-DistinctSets loaded ip ds)
    where
      kept :
          (o : Option PodModelSet)
          → DistinctIf o
          → Distinct (keep_last o next ip) × DistinctSets (keep_last o next ip)
      kept none d = (n, ns)
      kept (some set) d = (put-Distinct next ip set n, put-DistinctSets next ip set d ns)

  pub scan-Distinct :
      (pods : List Pod) (acc : GoMap PodModelSet × GoMap String)
      → DistinctSets loaded
      → Distinct acc.0 × DistinctSets acc.0
      → Distinct (scan http_get opts loaded pods acc).0
        × DistinctSets (scan http_get opts loaded pods acc).0
  unfolding scan
  scan-Distinct [] acc ds v = v
  scan-Distinct (pod ∷ pods) acc ds v = elim (Bool-cases (pod.ip == "")) [
    | inl e ↦ rw (e, scan) (scan-Distinct pods acc ds v)
    | inr e ↦
        rw (e, scan)
          (scan-Distinct pods _ ds (
            record_reply-Distinct _ acc.0 pod.ip
              (read_models-Distinct (http_get (url pod.ip opts.pod_port opts.query_path))) ds v))
  ]

  pub holds-scan :
      (pods : List Pod) (q m : String)
      → q ≢ ""
      → holds (scan http_get opts loaded pods ([], [])).0 q m
        ≡ (listed pods q && in_set (fresh q) m)
  unfolding GoMap.get or_else
  holds-scan pods q m h = rw (get-scan pods ([], []) q h) (rw or_else-none (ground arith))
