-- ===== src/ModelTracker/Query.antt =====
-- The two HTTP calls of the tracker (internal/modeltracker/tracker.go: queryPod, unloadModel). The
-- network is a function from the URL, and for the unload from the model in the body, to the reply.
pub mod Laws
use rocm_llamacpp_envoy_ai_g.Prelude.{
  ℕ, String, Bool, true, false, not, ◌||◌, Option, none, some, List, [], ◌∷◌, ◌==◌, nat_eq,
  if◌then◌else◌,
}
use rocm_llamacpp_envoy_ai_g.GoMap
use rocm_llamacpp_envoy_ai_g.Http.{
  Body, unreadable, undecodable, decoded, Reply, no_request, no_response, response, status_ok, url,
}
use rocm_llamacpp_envoy_ai_g.ModelTracker.Types.{PodModelSet, Options}

-- One entry of the decoded /models response.
pub record ModelEntry : Type 0 where
  pub id : String
  pub status : String

pub data Error : Type 0 where
  build_request do_request read_body decode_body not_successful : Error
  unexpected_status : ℕ → Error

pub data Result (A : Type 0) : Type 0 where
  ok : A → Result A
  err : Error → Result A

-- case "loaded", "running", "":
unfoldable pub is_warm : String → Bool
is_warm status = status == "loaded" || status == "running" || status == ""

unfoldable pub collect : List ModelEntry → PodModelSet → PodModelSet
unfolding is_warm
collect [] set = set
collect (m ∷ entries) set =
    collect entries (if is_warm m.status then GoMap.put set m.id tt else set)

abbrev pub of_body : Body (List ModelEntry) → Result PodModelSet
of_body unreadable = err read_body
of_body undecodable = err decode_body
of_body (decoded entries) = ok (collect entries [])

-- queryPod, from the reply on.
unfoldable pub read_models : Reply (List ModelEntry) → Result PodModelSet
read_models no_request = err build_request
read_models no_response = err do_request
read_models (response status body) =
    if not (nat_eq status status_ok) then err (unexpected_status status) else of_body body

unfoldable pub query_pod :
    (String → Reply (List ModelEntry)) → Options → String → Result PodModelSet
unfolding read_models
query_pod http_get opts pod_ip = read_models (http_get (url pod_ip opts.pod_port opts.query_path))

abbrev of_success : Body Bool → Option Error
of_success unreadable = some read_body
of_success undecodable = some decode_body
of_success (decoded true) = none
of_success (decoded false) = some not_successful

-- unloadModel, from the reply on; `none` is the nil error.
unfoldable pub read_unload : Reply Bool → Option Error
read_unload no_request = some build_request
read_unload no_response = some do_request
read_unload (response status body) =
    if not (nat_eq status status_ok) then some (unexpected_status status) else of_success body

unfoldable pub unload_model :
    (String → String → Reply Bool) → Options → String → String → Option Error
unfolding read_unload
unload_model http_post opts pod_ip model =
    read_unload (http_post (url pod_ip opts.pod_port opts.unload_path) model)
