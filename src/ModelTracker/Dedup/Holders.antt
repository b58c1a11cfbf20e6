-- ===== src/ModelTracker/Dedup/Holders.antt =====
-- The map `dup` of resolveDuplicates: for each model the pods whose set has it, in the order in which
-- the tracker's map is walked.
use rocm_llamacpp_envoy_ai_g.Prelude.{
  String, ◌≡◌, refl, sym, ◌∙◌, ◌≢◌, ◌⊎◌, inl, inr, true, none, some, List, [], ◌∷◌, ◌++◌, ◌==◌,
  eq_iff, eq_refl, arith, subst, In, Bool-cases, if◌then◌else◌,
}
use mathlib.Core.List.{append_assoc, append-nil}
use rocm_llamacpp_envoy_ai_g.GoMap
use rocm_llamacpp_envoy_ai_g.GoMap.{GoMap, Distinct, get-put, put-Distinct}
use rocm_llamacpp_envoy_ai_g.ModelTracker.Types.{PodModelSet}
use rocm_llamacpp_envoy_ai_g.ModelTracker.State.{holds}
use rocm_llamacpp_envoy_ai_g.ModelTracker.State.Valid.{DistinctSets}
use rocm_llamacpp_envoy_ai_g.ModelTracker.Dedup.{add_models, duplicates, holders_of}

-- The pods whose set has the model.
unfoldable pub holders : GoMap PodModelSet → String → List String
holders [] m = []
holders ((pk, set) ∷ loaded) m = if GoMap.has set m then pk ∷ holders loaded m else holders loaded m

holders_of-put :
    (dup : GoMap (List String)) (k m : String) (l : List String)
    → holders_of (GoMap.put dup k l) m ≡ (if k == m then l else holders_of dup m)
holders_of-put dup k m l = ground (arith, get-put dup k m l)

holders_of-add_models :
    (set : PodModelSet) (pk : String) (dup : GoMap (List String)) (m : String)
    → Distinct set
    → holders_of (add_models set pk dup) m
      ≡ (if GoMap.has set m then holders_of dup m ++ pk ∷ [] else holders_of dup m)
unfolding add_models GoMap.get
holders_of-add_models [] pk dup m d = refl
holders_of-add_models ((k, u) ∷ set) pk dup m d =
    holders_of-add_models set pk _ m d.1 ∙ elim (Bool-cases (k == m)) [
      | inl e ↦ rw (e, holders_of-put, e, ← (eq_iff k m).0 e, d.0)
      | inr e ↦ rw (e, holders_of-put, e)
    ]

-- The map of the code lists for each model the pods that hold it.
pub holders_of-duplicates :
    (loaded : GoMap PodModelSet) (dup : GoMap (List String)) (m : String)
    → DistinctSets loaded
    → holders_of (duplicates loaded dup) m ≡ holders_of dup m ++ holders loaded m
unfolding duplicates holders
holders_of-duplicates [] dup m d = sym (append-nil (holders_of dup m))
holders_of-duplicates ((pk, set) ∷ loaded) dup m d =
    holders_of-duplicates loaded (add_models set pk dup) m d.1
    ∙ rw (holders_of-add_models set pk dup m d.0)
        (elim (Bool-cases (GoMap.has set m)) [ inl e ↦ rw (e, append_assoc) | inr e ↦ rw e ])

add_models-Distinct :
    (set : PodModelSet) (pk : String) (dup : GoMap (List String))
    → Distinct dup
    → Distinct (add_models set pk dup)
unfolding add_models
add_models-Distinct [] pk dup d = d
add_models-Distinct ((k, u) ∷ set) pk dup d = add_models-Distinct set pk _ (put-Distinct dup k _ d)

pub duplicates-Distinct :
    (loaded : GoMap PodModelSet) (dup : GoMap (List String))
    → Distinct dup
    → Distinct (duplicates loaded dup)
unfolding duplicates
duplicates-Distinct [] dup d = d
duplicates-Distinct ((pk, set) ∷ loaded) dup d =
    duplicates-Distinct loaded _ (add_models-Distinct set pk dup d)

holders-cons :
    (pk : String) (set : PodModelSet) (loaded : GoMap PodModelSet) (q m : String)
    → In q (holders ((pk, set) ∷ loaded) m)
    → ((q ≡ pk) × (GoMap.has set m ≡ true)) ⊎ In q (holders loaded m)
unfolding holders
holders-cons pk set loaded q m i = elim (Bool-cases (GoMap.has set m)) [
  | inl e ↦ split e (rw e at i)
  | inr e ↦ inr (rw e at i)
]
  where
    split :
        GoMap.has set m ≡ true
        → In q (pk ∷ holders loaded m)
        → ((q ≡ pk) × (GoMap.has set m ≡ true)) ⊎ In q (holders loaded m)
    split e (inl h) = inl (h, e)
    split e (inr h) = inr h

get-head : {V : Type 0} (k : String) (v : V) (l : GoMap V) → GoMap.get ((k, v) ∷ l) k ≡ some v
unfolding GoMap.get
get-head k v l = rw eq_refl

-- No pod stands among the holders that is not a key of the map.
holders-absent :
    (loaded : GoMap PodModelSet) (q m : String)
    → GoMap.get loaded q ≡ none
    → In q (holders loaded m)
    → ⊥
unfolding GoMap.get
holders-absent [] q m h i = (unfold holders in i)
holders-absent ((pk, set) ∷ loaded) q m h i = elim (holders-cons pk set loaded q m i) [
  | inl (e, there) ↦ cc (h, rw (← e) at (get-head pk set loaded))
  | inr later ↦ holders-absent loaded q m (ground (arith, h)) later
]

-- A pod among the holders has the model.
pub In-holders :
    (loaded : GoMap PodModelSet) (q m : String)
    → Distinct loaded
    → In q (holders loaded m)
    → holds loaded q m ≡ true
unfolding GoMap.get
In-holders [] q m d i = absurd (unfold holders in i)
In-holders ((pk, set) ∷ loaded) q m d i = elim (holders-cons pk set loaded q m i) [
  | inl (e, there) ↦ rw (e, eq_refl) there
  | inr later ↦ elim (Bool-cases (pk == q)) [
    | inl e ↦ absurd (holders-absent loaded q m (rw ((eq_iff pk q).0 e) at d.0) later)
    | inr e ↦ rw e (In-holders loaded q m d.1 later)
  ]
]

-- The first two holders are different pods.
pub holders-differ :
    (loaded : GoMap PodModelSet) (m p q : String) (rest : List String)
    → Distinct loaded
    → holders loaded m ≡ p ∷ q ∷ rest
    → p ≢ q
unfolding holders
holders-differ [] m p q rest d e = cc
holders-differ ((pk, set) ∷ loaded) m p q rest d e = elim (Bool-cases (GoMap.has set m)) [
  | inl there ↦ λ same. head_again (rw there at e) same
  | inr gone ↦ holders-differ loaded m p q rest d.1 (rw gone at e)
]
  where
    head_again : pk ∷ holders loaded m ≡ p ∷ q ∷ rest → p ≡ q → ⊥
    head_again e' same =
        let tail : holders loaded m ≡ q ∷ rest = cc in
        let here : In q (q ∷ rest) = inl refl in
        holders-absent loaded q m (subst (λ k. GoMap.get loaded k ≡ none) (cc) d.0)
          (subst (In q) (sym tail) here)
