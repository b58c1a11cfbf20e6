-- ===== src/Telemetry/Attributes.antt =====
-- The attributes of a request (internal/telemetry/genai.go: RequestParams, buildAttributes, spanName). Token
-- counts are taken as not negative.
pub mod Laws
use Prim.Native.String.{◌++◌ as ◌⧺◌}
use rocm_llamacpp_envoy_ai_g.Prelude.{
  ℕ, String, Bool, true, not, List, [], ◌∷◌, ◌++◌, ◌==◌, ltb, if◌then◌else◌,
}
use rocm_llamacpp_envoy_ai_g.GoMap.{GoMap}

abbrev pub attr_operation_name : String
attr_operation_name = "gen_ai.operation.name"

abbrev pub attr_request_model : String
attr_request_model = "gen_ai.request.model"

abbrev pub attr_response_model : String
attr_response_model = "gen_ai.response.model"

abbrev pub attr_provider_name : String
attr_provider_name = "gen_ai.provider.name"

abbrev pub attr_system : String
attr_system = "gen_ai.system"

abbrev pub attr_token_type : String
attr_token_type = "gen_ai.token.type"

abbrev pub attr_span_kind : String
attr_span_kind = "openinference.span.kind"

abbrev pub attr_token_count_prompt : String
attr_token_count_prompt = "llm.token_count.prompt"

abbrev pub attr_token_count_completion : String
attr_token_count_completion = "llm.token_count.completion"

abbrev pub attr_token_count_total : String
attr_token_count_total = "llm.token_count.total"

-- The values of attributes: a string, an int64, or a number of seconds, here a duration in nanoseconds.
pub data Value : Type 0 where
  string : String → Value
  int : ℕ → Value
  seconds : ℕ → Value

abbrev pub KeyValue : Type 0
KeyValue = String × Value

pub record RequestParams : Type 0 where
  pub operation : String
  pub model : String
  pub provider : String
  pub system : String
  pub target_pod : String
  pub target_node : String
  pub span_kind : String
  pub attributes : GoMap String
  pub input_tokens : ℕ

abbrev pub append_if : Bool → KeyValue → List KeyValue → List KeyValue
append_if b a attrs = if b then attrs ++ a ∷ [] else attrs

-- The loop over params.Attributes.
unfoldable pub add_custom : GoMap String → List KeyValue → List KeyValue
add_custom [] attrs = attrs
add_custom ((k, v) ∷ custom) attrs = add_custom custom (attrs ++ (k, string v) ∷ [])

-- The attributes before the loop.
abbrev pub common_attributes : RequestParams → List KeyValue
common_attributes p =
    append_if (ltb 0 p.input_tokens) (attr_token_count_prompt, int p.input_tokens)
      (append_if (not (p.span_kind == "")) (attr_span_kind, string p.span_kind)
        (append_if (not (p.target_node == "")) ("target.node", string p.target_node)
          (append_if (not (p.target_pod == "")) ("target.pod", string p.target_pod)
            (append_if (not (p.system == "")) (attr_system, string p.system)
              (append_if (not (p.provider == "")) (attr_provider_name, string p.provider)
                ((attr_operation_name, string p.operation)
                  ∷ (attr_request_model, string p.model)
                  ∷ []))))))

unfoldable pub build_attributes : RequestParams → List KeyValue
unfolding add_custom
build_attributes p = add_custom p.attributes (common_attributes p)

unfoldable pub span_name : RequestParams → String
span_name p =
    if not (p.span_kind == "") then p.span_kind ⧺ " " ⧺ p.model else p.operation ⧺ " " ⧺ p.model
