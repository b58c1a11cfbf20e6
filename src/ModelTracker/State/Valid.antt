-- ===== src/ModelTracker/State/Valid.antt =====
-- The well-formed tracker, and the in-band writes that keep it.
use rocm_llamacpp_envoy_ai_g.Prelude.{
  String, inl, inr, ◌||◌, Option, none, some, List, [], ◌∷◌, ◌==◌, Bool-cases, Option-cases,
}
use rocm_llamacpp_envoy_ai_g.GoMap
use rocm_llamacpp_envoy_ai_g.GoMap.{GoMap, Distinct, put-Distinct, delete-Distinct}
use rocm_llamacpp_envoy_ai_g.ModelTracker.Types.{PodModelSet, Options, Tracker, new_tracker}
use rocm_llamacpp_envoy_ai_g.ModelTracker.State.{
  set_of, set_loaded, mark_loaded, mark_unloaded, set_or_empty,
}

-- Each key of each set stands once.
abbrev pub DistinctSets : GoMap PodModelSet → Type 0
DistinctSets [] = Unit
DistinctSets ((pk, set) ∷ loaded) = Distinct set × DistinctSets loaded

-- Each pod has one set, and each set has each model once.
pub record IsValid (t : Tracker) : Type 0 where
  pub pods_distinct : Distinct t.loaded
  pub models_distinct : DistinctSets t.loaded

pub put-DistinctSets :
    (loaded : GoMap PodModelSet) (pk : String) (set : PodModelSet)
    → Distinct set
    → DistinctSets loaded
    → DistinctSets (GoMap.put loaded pk set)
unfolding GoMap.put
put-DistinctSets [] pk set d ds = (d, tt)
put-DistinctSets ((k, s) ∷ loaded) pk set d ds = elim (Bool-cases (k == pk)) [
  | inl e ↦ rw e (d, ds.1)
  | inr e ↦ rw e (ds.0, put-DistinctSets loaded pk set d ds.1)
]

abbrev pub DistinctIf : Option PodModelSet → Type 0
DistinctIf none = Unit
DistinctIf (some set) = Distinct set

pub get-DistinctSets :
    (loaded : GoMap PodModelSet) (pk : String)
    → DistinctSets loaded
    → DistinctIf (GoMap.get loaded pk)
unfolding GoMap.get
get-DistinctSets [] pk ds = tt
get-DistinctSets ((k, s) ∷ loaded) pk ds = elim (Bool-cases (k == pk)) [
  | inl e ↦ rw e ds.0
  | inr e ↦ rw e (get-DistinctSets loaded pk ds.1)
]

set_or_empty-Distinct : (o : Option PodModelSet) → DistinctIf o → Distinct (set_or_empty o)
set_or_empty-Distinct none d = tt
set_or_empty-Distinct (some set) d = d

set_of-Distinct :
    (models : List String) (set : PodModelSet) → Distinct set → Distinct (set_of models set)
unfolding set_of
set_of-Distinct [] set d = d
set_of-Distinct (m ∷ models) set d =
    set_of-Distinct models (GoMap.put set m tt) (put-Distinct set m tt d)

pub new_tracker-IsValid : (opts : Options) → IsValid (new_tracker opts)
unfolding new_tracker
new_tracker-IsValid opts = record { pods_distinct = tt; models_distinct = tt }

pub set_loaded-IsValid :
    (t : Tracker) (pk : String) (models : List String)
    → IsValid t
    → IsValid (set_loaded t pk models)
unfolding set_loaded
set_loaded-IsValid t pk models v = record {
  pods_distinct = put-Distinct t.loaded pk _ v.pods_distinct;
  models_distinct = put-DistinctSets t.loaded pk _ (set_of-Distinct models [] tt) v.models_distinct;
}

pub mark_loaded-IsValid :
    (t : Tracker) (pk model : String) → IsValid t → IsValid (mark_loaded t pk model)
unfolding mark_loaded
mark_loaded-IsValid t pk model v = elim (Bool-cases (pk == "" || model == "")) [
  | inl e ↦ rw e v
  | inr e ↦ rw e (record {
    pods_distinct = put-Distinct t.loaded pk _ v.pods_distinct;
    models_distinct =
        put-DistinctSets t.loaded pk _
          (put-Distinct _ model tt
            (set_or_empty-Distinct _ (get-DistinctSets t.loaded pk v.models_distinct)))
          v.models_distinct;
  })
]

pub mark_unloaded-IsValid :
    (t : Tracker) (pk model : String) → IsValid t → IsValid (mark_unloaded t pk model).0
unfolding mark_unloaded
mark_unloaded-IsValid t pk model v = elim (Bool-cases (pk == "" || model == "")) [
  | inl e ↦ rw e v
  | inr e ↦ rw e (elim (Option-cases (GoMap.get t.loaded pk)) [
    | inl e' ↦ rw e' v
    | inr (set, e') ↦ rw e' (record {
      pods_distinct = put-Distinct t.loaded pk _ v.pods_distinct;
      models_distinct =
          put-DistinctSets t.loaded pk _
            (delete-Distinct set model (rw e' at (get-DistinctSets t.loaded pk v.models_distinct)))
            v.models_distinct;
    })
  ])
]
