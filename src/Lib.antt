-- ===== src/Lib.antt =====
-- Model of the endpoint picker for llama-server pods: an external processor of the Envoy AI gateway
-- that sends each request for a model to a pod that has the model loaded, or loads it on one.
--
-- The parts and how they interact:
--   * The model tracker (internal/modeltracker/tracker.go) polls each pod for its models and records
--     the loaded ones by pod address. After a poll a dedup pass finds models that two or more pods
--     hold and, after a grace period, unloads one copy. ModelTracker/Types is the configuration and
--     the state, ModelTracker/State the reads and in-band writes (IsLoaded, AnyPodHasLoaded,
--     Snapshot, SetLoaded, SetPodIP, SetUnloadObserver, MarkLoaded, MarkUnloaded),
--     ModelTracker/Query the two HTTP calls (queryPod, unloadModel), ModelTracker/Dedup the pass
--     (resolveDuplicates, pickLoser), ModelTracker/Poll a cycle (listPods, pollOnce, Start) and
--     ModelTracker/History all operations in any order from a new tracker.
--   * The pod state cache (internal/podstate/cache.go) is PodState: the load of each pod, which the
--     dedup pass reads as pressure.
--   * The loaded-model filter (internal/plugins/filter/loaded_model.go) is Filter: it keeps the pods
--     that the tracker reports as loaded, and feeds the pod state cache.
--   * The model loader (internal/plugins/modelloader/loader.go) runs before a request is sent on.
--     ModelLoader/Types is its state, ModelLoader/Query isModelLoaded, waitForModelLoaded and the
--     load request, ModelLoader/Request the reading of the scheduling result, ModelLoader/Steps
--     PreRequest as steps of goroutines that share the state, ModelLoader/Flight the bookkeeping of
--     loads in flight. It marks the tracker, which calls it back on an unload.
--   * The video memory of the nodes (internal/vram) is Vram/Scraper, Vram/Discovery, Vram/Tracker,
--     which is the metrics and their reads, Vram/Instrumentation (otel.go) and Vram/Service, the
--     tracker with its constructors, discovery and instrumentation; Vram/Scorer is the scorer
--     (internal/plugins/scorer/vram.go).
--   * The router (internal/router/router.go) sends a request to a pod on which its model is warm, or
--     loads it on the node with the most free memory. Router/Types is its state, Router/Discovery
--     the discovery of warm models (discoverWarmModels, queryPodModels), Router/Load a load
--     (loadModelOnBestNode, loadModelOnPod), Router/Lease the store of leases, Router/Steps
--     GetModelEndpoint with tryAcquireLease and releaseLease as steps, and Router/System replicas
--     that share the leases. Router/Mutex and Router/Wait are about their histories.
--   * The pool manager (internal/pool/manager.go) is Pool: one router and one VRAM tracker for each
--     inference pool, and a default pool. Controller is the reconciler that keeps it in step with
--     the cluster (internal/controller/inferencepool_controller.go).
--   * Telemetry (internal/telemetry) is Telemetry/Instruments, Telemetry/Attributes,
--     Telemetry/Recorder and Telemetry/History for the metrics and spans of requests (genai.go), and
--     Telemetry/Provider for the set-up and the shutdown of the SDK (telemetry.go).
--   * Version is the version text (internal/version/version.go), Command the settings and the wiring
--     of the command (cmd/epp/main.go).
-- Prelude holds what the modules share, GoMap Go's maps, Http replies and URLs.
--
-- Conventions:
--   * A map is a list of entries; a range over it takes the order of the list, and the theorems hold
--     for every list, so for every order. A nil pointer, or a missing value, is `none`.
--   * The network, the Kubernetes API and the JSON and Prometheus decoders are arguments: functions
--     from a request to a reply, or the reply itself. Errors are values; log lines and the texts of
--     errors are left out.
--   * A critical section of a lock is one step. A dedup pass, a poll cycle and the retraction of a
--     mark with the callback it makes are each taken as one step, though the source lets go of its
--     locks in between.
--   * Configuration integers, counts and sizes are taken as not negative. Sums of counts are exact as
--     float64 below 2^53. The arithmetic of the scores is a parameter, with the laws that hold with
--     rounding. A product such as the threshold in bytes is taken not to overflow an int64.
--   * What a pointer leads to is read when it is used: the parameters of a request at each call of
--     its recorder, and the cache at each read of the pressure by the model tracker.
--   * There is no fuel: each loop is over a list or a map. The tick loops take the list of ticks that
--     come before the context ends; the wait for a load has a deadline, so that list is finite.
--
-- Not modelled: the registration of the plugins with the framework (internal/plugins/register.go), the
-- Kubernetes client, the signals and the runner that cmd/epp/main.go calls, and the options, units and
-- descriptions that are handed to the OpenTelemetry SDK.
mod Prelude
pub mod GoMap
pub mod Http
pub mod PodState
pub mod ModelTracker
pub mod Filter
pub mod ModelLoader
pub mod Vram
pub mod Router
pub mod Telemetry
pub mod Version
pub mod Command
pub mod Pool
pub mod Controller
