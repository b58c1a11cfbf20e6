-- ===== src/ModelTracker/Query/Laws.antt =====
-- Which models a reply to the model query reports as warm.
use rocm_llamacpp_envoy_ai_g.Prelude.{
  String, inl, inr, nat_eq, ◌≡◌, refl, Bool, false, ◌||◌, ◌&&◌, List, [], ◌∷◌, ◌==◌, arith,
  Bool-cases,
}
use rocm_llamacpp_envoy_ai_g.GoMap
use rocm_llamacpp_envoy_ai_g.GoMap.{Distinct, put-Distinct, get-put}
use rocm_llamacpp_envoy_ai_g.Http.{
  Body, unreadable, undecodable, decoded, Reply, no_request, no_response, response, status_ok,
}
use rocm_llamacpp_envoy_ai_g.ModelTracker.Types.{PodModelSet}
use rocm_llamacpp_envoy_ai_g.ModelTracker.Query.{
  ModelEntry, Result, ok, err, is_warm, collect, of_body, read_models,
}

-- Some entry for the model has a warm status.
abbrev pub reports : List ModelEntry → String → Bool
reports [] model = false
reports (m ∷ entries) model = (m.id == model && is_warm m.status) || reports entries model

pub has-collect :
    (entries : List ModelEntry) (set : PodModelSet) (model : String)
    → GoMap.has (collect entries set) model ≡ (reports entries model || GoMap.has set model)
unfolding collect
has-collect [] set model = refl
has-collect (m ∷ entries) set model = elim (Bool-cases (is_warm m.status)) [
  | inl warm ↦
      ground
        (arith, has-collect entries (GoMap.put set m.id tt) model, get-put set m.id model tt, warm)
  | inr cold ↦ ground (arith, has-collect entries set model, cold)
]

pub collect-Distinct :
    (entries : List ModelEntry) (set : PodModelSet) → Distinct set → Distinct (collect entries set)
unfolding collect
collect-Distinct [] set d = d
collect-Distinct (m ∷ entries) set d = elim (Bool-cases (is_warm m.status)) [
  | inl warm ↦
      rw warm (collect-Distinct entries (GoMap.put set m.id tt) (put-Distinct set m.id tt d))
  | inr cold ↦ rw cold (collect-Distinct entries set d)
]

-- A set that the query returns has each model once.
abbrev pub OkDistinct : Result PodModelSet → Type 0
OkDistinct (ok set) = Distinct set
OkDistinct (err e) = Unit

of_body-Distinct : (body : Body (List ModelEntry)) → OkDistinct (of_body body)
of_body-Distinct unreadable = tt
of_body-Distinct undecodable = tt
of_body-Distinct (decoded entries) = collect-Distinct entries [] tt

pub read_models-Distinct : (r : Reply (List ModelEntry)) → OkDistinct (read_models r)
unfolding read_models
read_models-Distinct no_request = tt
read_models-Distinct no_response = tt
read_models-Distinct (response status body) = elim (Bool-cases (nat_eq status status_ok)) [
  | inl e ↦ rw e (of_body-Distinct body)
  | inr e ↦ rw e tt
]
