-- ===== src/ModelLoader/Request.antt =====
-- What PreRequest reads of the request and of the scheduling result
-- (internal/plugins/modelloader/loader.go: getTargetPod, validateAndExtractPreRequestInfo). A nil
-- pointer is `none`; a nil map reads as an empty one.
use rocm_llamacpp_envoy_ai_g.Prelude.{
  String, Option, none, some, List, [], ◌∷◌, ◌==◌, if◌then◌else◌,
}
use rocm_llamacpp_envoy_ai_g.GoMap
use rocm_llamacpp_envoy_ai_g.GoMap.{GoMap}

pub record PodInfo : Type 0 where
  pub address : String
  pub namespaced_name : String

-- types.Pod: the information that GetPod returns.
pub record TargetPod : Type 0 where
  pub get_pod : Option PodInfo

pub record ProfileResult : Type 0 where
  pub target_pods : List (Option TargetPod)

pub record SchedulingResult : Type 0 where
  pub primary_profile_name : String
  pub profile_results : GoMap (Option ProfileResult)

pub record Target : Type 0 where
  pub model_name : String
  pub pod_ip : String
  pub pod_key : String

abbrev first_pod : List (Option TargetPod) → Option TargetPod
first_pod [] = none
first_pod (pod ∷ pods) = pod

abbrev pod_of : Option (Option ProfileResult) → Option TargetPod
pod_of none = none
pod_of (some none) = none
pod_of (some (some profile)) = first_pod profile.target_pods

unfoldable pub get_target_pod : SchedulingResult → Option TargetPod
get_target_pod result = pod_of (GoMap.get result.profile_results result.primary_profile_name)

abbrev pub no_target : Target
no_target = record { model_name = ""; pod_ip = ""; pod_key = "" }

abbrev target_of : String → Option PodInfo → Target
target_of model none = no_target
target_of model (some info) =
    if info.address == ""
    then no_target
    else record { model_name = model; pod_ip = info.address; pod_key = info.namespaced_name }

abbrev target_on : String → Option TargetPod → Target
target_on model none = no_target
target_on model (some pod) = target_of model pod.get_pod

unfoldable pub validate_and_extract_pre_request_info :
    Option String → Option SchedulingResult → Target
unfolding get_target_pod
validate_and_extract_pre_request_info none result = no_target
validate_and_extract_pre_request_info (some model) none = no_target
validate_and_extract_pre_request_info (some model) (some result) =
    if model == "" then no_target else target_on model (get_target_pod result)
