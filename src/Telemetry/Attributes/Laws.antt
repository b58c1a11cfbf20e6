-- ===== src/Telemetry/Attributes/Laws.antt =====
-- What the attributes of a request say (internal/telemetry/genai.go: buildAttributes). An attribute set
-- keeps, for each key, the last value of the list that it is made from.
use rocm_llamacpp_envoy_ai_g.Prelude.{
  String, ◌≡◌, refl, sym, ◌∙◌, ap, inl, inr, Bool-cases, Option, none, some, List, [], ◌∷◌, ◌++◌,
  arith, ◌==◌, eq_iff, ℕ, true, false, not, ltb, nat_eq, subst, if◌then◌else◌,
}
use rocm_llamacpp_envoy_ai_g.GoMap
use rocm_llamacpp_envoy_ai_g.GoMap.{GoMap, Distinct}
use rocm_llamacpp_envoy_ai_g.Telemetry.Attributes.{
  Value, string, int, KeyValue, RequestParams, append_if, add_custom, common_attributes,
  build_attributes,
}

abbrev pub or_value : Option Value → Option Value → Option Value
or_value (some v) w = some v
or_value none w = w

abbrev pub last_value : List KeyValue → String → Option Value
last_value [] k = none
last_value ((j, v) ∷ attrs) k = or_value (last_value attrs k) (if j == k then some v else none)

abbrev pub as_value : Option String → Option Value
as_value none = none
as_value (some v) = some (string v)

or_value_assoc : (a b c : Option Value) → or_value (or_value a b) c ≡ or_value a (or_value b c)
or_value_assoc (some v) b c = refl
or_value_assoc none b c = refl

or_value-none : (a : Option Value) → or_value a none ≡ a
or_value-none none = refl
or_value-none (some v) = refl

last_value-append :
    (xs ys : List KeyValue) (k : String)
    → last_value (xs ++ ys) k ≡ or_value (last_value ys k) (last_value xs k)
last_value-append [] ys k = sym (or_value-none (last_value ys k))
last_value-append ((j, v) ∷ xs) ys k =
    ap (λ o. or_value o (if j == k then some v else none)) (last_value-append xs ys k)
    ∙ or_value_assoc (last_value ys k) (last_value xs k) (if j == k then some v else none)

custom-entry :
    (custom : GoMap String) (j : String) (v : String) (k : String) (w : Option Value)
    → GoMap.get custom j ≡ none
    → or_value
        (as_value (GoMap.get custom k))
        (or_value (if j == k then some (string v) else none) w)
      ≡ or_value (as_value (if j == k then some v else GoMap.get custom k)) w
custom-entry custom j v k w d = elim (Bool-cases (j == k)) [
  | inl e ↦
      let gone : GoMap.get custom k ≡ none = ground (arith, d, e, eq_iff j k) in rw (e, gone) refl
  | inr e ↦ rw e refl
]

last_value-add_custom :
    (custom : GoMap String) (attrs : List KeyValue) (k : String)
    → Distinct custom
    → last_value (add_custom custom attrs) k
      ≡ or_value (as_value (GoMap.get custom k)) (last_value attrs k)
unfolding add_custom GoMap.get
last_value-add_custom [] attrs k d = refl
last_value-add_custom ((j, v) ∷ custom) attrs k (free, d) =
    last_value-add_custom custom (attrs ++ (j, string v) ∷ []) k d
    ∙ ap (or_value (as_value (GoMap.get custom k))) (last_value-append attrs ((j, string v) ∷ []) k)
    ∙ custom-entry custom j v k (last_value attrs k) free

-- A field is left out where it is empty.
abbrev pub unless_empty : String → Option Value
unless_empty s = if s == "" then none else some (string s)

abbrev pub unless_zero : ℕ → Option Value
unless_zero n = if nat_eq n 0 then none else some (int n)

-- What the fields of a request say of an attribute, by its name.
abbrev pub own_value : RequestParams → String → Option Value
own_value p k =
    if "gen_ai.operation.name" == k
    then some (string p.operation)
    else if "gen_ai.request.model" == k
    then some (string p.model)
    else if "gen_ai.provider.name" == k
    then unless_empty p.provider
    else if "gen_ai.system" == k
    then unless_empty p.system
    else if "target.pod" == k
    then unless_empty p.target_pod
    else if "target.node" == k
    then unless_empty p.target_node
    else if "openinference.span.kind" == k
    then unless_empty p.span_kind
    else if "llm.token_count.prompt" == k
    then unless_zero p.input_tokens
    else none

-- The same, the last field first.
abbrev last_field : RequestParams → String → Option Value
last_field p k =
    or_value (if "llm.token_count.prompt" == k then unless_zero p.input_tokens else none) (
      or_value (if "openinference.span.kind" == k then unless_empty p.span_kind else none) (
        or_value (if "target.node" == k then unless_empty p.target_node else none) (
          or_value (if "target.pod" == k then unless_empty p.target_pod else none) (
            or_value (if "gen_ai.system" == k then unless_empty p.system else none) (
              or_value (if "gen_ai.provider.name" == k then unless_empty p.provider else none) (
                or_value (if "gen_ai.request.model" == k then some (string p.model) else none)
                  (if "gen_ai.operation.name" == k then some (string p.operation) else none)))))))

last_value-append_text :
    (j : String) (s : String) (attrs : List KeyValue) (k : String)
    → last_value (append_if (not (s == "")) (j, string s) attrs) k
      ≡ or_value (if j == k then unless_empty s else none) (last_value attrs k)
last_value-append_text j s attrs k = elim (Bool-cases (s == "")) [
  | inl e ↦ elim (Bool-cases (j == k)) [ inl q ↦ rw (e, q) refl | inr q ↦ rw (e, q) refl ]
  | inr e ↦ rw e (last_value-append attrs ((j, string s) ∷ []) k)
]

last_value-append_count :
    (j : String) (n : ℕ) (attrs : List KeyValue) (k : String)
    → last_value (append_if (ltb 0 n) (j, int n) attrs) k
      ≡ or_value (if j == k then unless_zero n else none) (last_value attrs k)
last_value-append_count j n attrs k = elim (Bool-cases (nat_eq n 0)) [
  | inl e ↦
      let none_left : ltb 0 n ≡ false = ground (arith, e) in
      elim (Bool-cases (j == k)) [
        | inl q ↦ rw (e, none_left, q) refl
        | inr q ↦ rw (none_left, q) refl
      ]
  | inr e ↦
      let some_left : ltb 0 n ≡ true = ground (arith, e) in
      rw (e, some_left) (last_value-append attrs ((j, int n) ∷ []) k)
]

last_value-last_field :
    (p : RequestParams) (k : String) → last_value (common_attributes p) k ≡ last_field p k
last_value-last_field p k =
    rw
      (
        last_value-append_count "llm.token_count.prompt" p.input_tokens _ k,
        last_value-append_text "openinference.span.kind" p.span_kind _ k,
        last_value-append_text "target.node" p.target_node _ k,
        last_value-append_text "target.pod" p.target_pod _ k,
        last_value-append_text "gen_ai.system" p.system _ k,
        last_value-append_text "gen_ai.provider.name" p.provider _ k,
      )
      refl

-- Every name of a field stands once, so the last field of a name is the only one.
last_field-own_value : (p : RequestParams) (k : String) → last_field p k ≡ own_value p k
last_field-own_value p k = elim (Bool-cases ("gen_ai.operation.name" == k)) [
  | inl e ↦
      subst (λ x. last_field p x ≡ own_value p x) ((eq_iff "gen_ai.operation.name" k).0 e) (refl)
  | inr e0 ↦ elim (Bool-cases ("gen_ai.request.model" == k)) [
    | inl e ↦
        subst (λ x. last_field p x ≡ own_value p x) ((eq_iff "gen_ai.request.model" k).0 e) (refl)
    | inr e1 ↦ elim (Bool-cases ("gen_ai.provider.name" == k)) [
      | inl e ↦
          subst (λ x. last_field p x ≡ own_value p x) ((eq_iff "gen_ai.provider.name" k).0 e)
            (or_value-none (unless_empty p.provider))
      | inr e2 ↦ elim (Bool-cases ("gen_ai.system" == k)) [
        | inl e ↦
            subst (λ x. last_field p x ≡ own_value p x) ((eq_iff "gen_ai.system" k).0 e)
              (or_value-none (unless_empty p.system))
        | inr e3 ↦ elim (Bool-cases ("target.pod" == k)) [
          | inl e ↦
              subst (λ x. last_field p x ≡ own_value p x) ((eq_iff "target.pod" k).0 e)
                (or_value-none (unless_empty p.target_pod))
          | inr e4 ↦ elim (Bool-cases ("target.node" == k)) [
            | inl e ↦
                subst (λ x. last_field p x ≡ own_value p x) ((eq_iff "target.node" k).0 e)
                  (or_value-none (unless_empty p.target_node))
            | inr e5 ↦ elim (Bool-cases ("openinference.span.kind" == k)) [
              | inl e ↦
                  subst (λ x. last_field p x ≡ own_value p x)
                    ((eq_iff "openinference.span.kind" k).0 e)
                    (or_value-none (unless_empty p.span_kind))
              | inr e6 ↦ elim (Bool-cases ("llm.token_count.prompt" == k)) [
                | inl e ↦
                    subst (λ x. last_field p x ≡ own_value p x)
                      ((eq_iff "llm.token_count.prompt" k).0 e)
                      (or_value-none (unless_zero p.input_tokens))
                | inr e7 ↦ rw (e0, e1, e2, e3, e4, e5, e6, e7) refl
              ]
            ]
          ]
        ]
      ]
    ]
  ]
]

-- The value of each attribute of a request is that of the custom attribute of the same key, if there is
-- one, and otherwise that of the request's own field. The custom attributes are a map, with one value for
-- each key; the order in which they are visited makes no difference.
pub last_value-build_attributes :
    (p : RequestParams) (k : String)
    → Distinct p.attributes
    → last_value (build_attributes p) k
      ≡ or_value (as_value (GoMap.get p.attributes k)) (own_value p k)
unfolding build_attributes
last_value-build_attributes p k d =
    last_value-add_custom p.attributes (common_attributes p) k d
    ∙ ap (or_value (as_value (GoMap.get p.attributes k)))
        (last_value-last_field p k ∙ last_field-own_value p k)
