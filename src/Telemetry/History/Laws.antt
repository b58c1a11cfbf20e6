-- ===== src/Telemetry/History/Laws.antt =====
-- The sums of measurements over lists put together
-- (internal/telemetry/genai.go).
use rocm_llamacpp_envoy_ai_g.Prelude.{◌+◌, ◌≡◌, Bool, List, [], ◌∷◌, ◌++◌, arith}
use rocm_llamacpp_envoy_ai_g.Telemetry.Instruments.{Instrument}
use rocm_llamacpp_envoy_ai_g.Telemetry.Attributes.{KeyValue}
use rocm_llamacpp_envoy_ai_g.Telemetry.Recorder.{Measurement}
use rocm_llamacpp_envoy_ai_g.Telemetry.History.{ups, downs}

pub ups-append :
    (i : Instrument) (is : List KeyValue → Bool) (xs ys : List Measurement)
    → ups i is (xs ++ ys) ≡ ups i is xs + ups i is ys
unfolding ups
ups-append i is [] ys = ground arith
ups-append i is (m ∷ xs) ys = ground (arith, ups-append i is xs ys)

pub downs-append :
    (i : Instrument) (is : List KeyValue → Bool) (xs ys : List Measurement)
    → downs i is (xs ++ ys) ≡ downs i is xs + downs i is ys
unfolding downs
downs-append i is [] ys = ground arith
downs-append i is (m ∷ xs) ys = ground (arith, downs-append i is xs ys)
