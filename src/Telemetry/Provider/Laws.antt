-- ===== src/Telemetry/Provider/Laws.antt =====
-- What a shutdown shuts down (internal/telemetry/telemetry.go: Initialize, Shutdown).
use rocm_llamacpp_envoy_ai_g.Prelude.{
  String, ◌≡◌, refl, ap, ◌↔◌, ◌⊎◌, inl, inr, Bool, true, false, not, ◌&&◌, Option, none, some, List,
  [], ◌∷◌, All, arith, ◌==◌, if◌then◌else◌,
}
use rocm_llamacpp_envoy_ai_g.Telemetry.Provider.{
  Config, Sdk, SdkProvider, tracer_provider, meter_provider, Globals, Outcome, ready, failed,
  Readers, readers, no_readers, setup_meter_provider, with_meter, no_globals, new_provider,
  initialize, latest, shutdown_all, shutdown,
}

-- Every provider stops without an error.
abbrev pub Stops : (SdkProvider → Option String) → List SdkProvider → Type 0
Stops stop funcs = All (λ f. stop f ≡ none) funcs

shutdown_all-called :
    (stop : SdkProvider → Option String) (funcs : List SdkProvider) (e : Option String)
    → (shutdown_all stop funcs e).0 ≡ funcs
unfolding shutdown_all
shutdown_all-called stop [] e = refl
shutdown_all-called stop (f ∷ funcs) e =
    ap (λ fs. f ∷ fs) (shutdown_all-called stop funcs (latest (stop f) e))

latest-none : (a e : Option String) → (latest a e ≡ none) ↔ ((a ≡ none) × (e ≡ none))
latest-none none e = (λ p. (refl, p), λ (p, q). q)
latest-none (some a) e = (λ p. absurd (ground (arith, p)), λ (p, q). p)

shutdown_all-Stops :
    (stop : SdkProvider → Option String) (funcs : List SdkProvider) (e : Option String)
    → ((shutdown_all stop funcs e).1 ≡ none) ↔ ((e ≡ none) × Stops stop funcs)
unfolding shutdown_all
shutdown_all-Stops stop [] e = (λ p. (p, tt), λ (p, u). p)
shutdown_all-Stops stop (f ∷ funcs) e =
    let (to, from) = shutdown_all-Stops stop funcs (latest (stop f) e) in
    let (split, join) = latest-none (stop f) e in
    (
      λ p. let (l, all) = to p in let (x, y) = split l in (y, (x, all)),
      λ (p, (x, all)). from (join (x, p), all),
    )

-- What a set-up that is ready has installed is what its shutdown stops. One that failed has installed
-- nothing, or a trace provider, when the set-up of the meter provider failed after it.
abbrev pub Owned : Sdk → Config → (SdkProvider → Option String) → Globals × Outcome → Type 0
Owned sdk cfg stop (g, failed e) =
    (g.installed ≡ [])
    ⊎ ((g.installed ≡ tracer_provider ∷ []) × (setup_meter_provider sdk cfg ≡ no_readers e))
Owned sdk cfg stop (g, ready p) =
    ((shutdown stop p).0 ≡ g.installed) × (((shutdown stop p).1 ≡ none) ↔ Stops stop g.installed)

module _ (sdk : Sdk) (cfg : Config) (stop : SdkProvider → Option String) where
  if-Owned :
      (b : Bool) (x y : Globals × Outcome)
      → Owned sdk cfg stop x
      → Owned sdk cfg stop y
      → Owned sdk cfg stop (if b then x else y)
  if-Owned true x y h k = h
  if-Owned false x y h k = k

  shutdown-Owned :
      (funcs : List SdkProvider)
      → ((shutdown_all stop funcs none).0 ≡ funcs)
        × (((shutdown_all stop funcs none).1 ≡ none) ↔ Stops stop funcs)
  shutdown-Owned funcs =
      let (to, from) = shutdown_all-Stops stop funcs none in
      (shutdown_all-called stop funcs none, (λ p. (to p).1, λ all. from (refl, all)))

  traced-Owned :
      (r : Readers)
      → setup_meter_provider sdk cfg ≡ r
      → Owned sdk cfg stop (
          with_meter sdk cfg
            (record { has_tracer = true; meter = none; shutdown_funcs = tracer_provider ∷ [] })
            (record { installed = tracer_provider ∷ []; has_runtime = false; has_host = false })
            r)
  unfolding shutdown
  traced-Owned (no_readers e) q = inr (refl, q)
  traced-Owned (readers opts) q = shutdown-Owned (tracer_provider ∷ meter_provider opts ∷ [])

  untraced-Owned : (r : Readers) → Owned sdk cfg stop (with_meter sdk cfg new_provider no_globals r)
  unfolding shutdown
  untraced-Owned (no_readers e) = inl refl
  untraced-Owned (readers opts) = shutdown-Owned (meter_provider opts ∷ [])

  -- After an initialization that succeeds, Shutdown stops exactly the providers that were installed, in that
  -- order, and returns nil exactly if each of them stops without an error. One that fails has installed
  -- nothing, or only a trace provider, when the set-up of the meter provider fails with that error.
  pub initialize-Owned : Owned sdk cfg stop (initialize sdk cfg)
  unfolding initialize
  initialize-Owned =
      if-Owned sdk.creates_resource _ _
        (if-Owned (cfg.otlp_traces_enabled && not (cfg.otlp_endpoint == "")) _ _
          (if-Owned (sdk.creates_trace_exporter cfg.otlp_endpoint) _ _
            (traced-Owned (setup_meter_provider sdk cfg) refl) (inl refl))
          (untraced-Owned (setup_meter_provider sdk cfg)))
        (inl refl)
