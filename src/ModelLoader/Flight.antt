-- ===== src/ModelLoader/Flight.antt =====
-- One load at a time for each pod and model: the bookkeeping of loadModel
-- (internal/plugins/modelloader/loader.go) as an invariant of the maps and the threads.
pub mod Changes
pub mod Quiet
pub mod Steps
pub mod Runs
pub mod Single
use rocm_llamacpp_envoy_ai_g.Prelude.{ℕ, ◌<◌, String, ◌≡◌, Option, none, some}
use rocm_llamacpp_envoy_ai_g.GoMap
use rocm_llamacpp_envoy_ai_g.GoMap.{GoMap}
use rocm_llamacpp_envoy_ai_g.ModelLoader.Types.{Status, pending, load_key}
use rocm_llamacpp_envoy_ai_g.ModelLoader.Request.{Target}
use rocm_llamacpp_envoy_ai_g.ModelLoader.Steps.{
  Pc, looking, waiting_first, querying, entering, waiting_second, loading, publishing, failing,
  finished, Thread, System,
}

-- The key and the result of the load that a request at this place has registered.
abbrev pub held_at : Target → Pc → Option (String × ℕ)
held_at tgt looking = none
held_at tgt (waiting_first r) = none
held_at tgt querying = none
held_at tgt entering = none
held_at tgt (waiting_second r) = none
held_at tgt (loading r) = some (load_key tgt.pod_ip tgt.model_name, r)
held_at tgt (publishing r e) = some (load_key tgt.pod_ip tgt.model_name, r)
held_at tgt (failing e) = none
held_at tgt finished = none

-- The result that a request at this place waits for.
abbrev pub awaited_at : Pc → Option ℕ
awaited_at looking = none
awaited_at (waiting_first r) = some r
awaited_at querying = none
awaited_at entering = none
awaited_at (waiting_second r) = some r
awaited_at (loading r) = none
awaited_at (publishing r e) = none
awaited_at (failing e) = none
awaited_at finished = none

abbrev pub held : Option Thread → Option (String × ℕ)
held none = none
held (some th) = held_at th.target th.pc

abbrev pub awaited : Option Thread → Option ℕ
awaited none = none
awaited (some th) = awaited_at th.pc

-- The invariant, of the loading map, the results and what each thread holds and waits for.
pub record Inv (loads : GoMap ℕ) (status : ℕ → Status) (next : ℕ) (holds : ℕ → Option (String × ℕ))
    (waits : ℕ → Option ℕ) : Type 0 where
  pub loads_known : (k : String) (r : ℕ) → GoMap.get loads k ≡ some r → r < next
  pub holder_registered :
      (i : ℕ) (k : String) (r : ℕ) → holds i ≡ some (k, r) → GoMap.get loads k ≡ some r
  pub holder_open : (i : ℕ) (k : String) (r : ℕ) → holds i ≡ some (k, r) → status r ≡ pending
  pub one_holder :
      (i j : ℕ) (k l : String) (r : ℕ) → holds i ≡ some (k, r) → holds j ≡ some (l, r) → i ≡ j
  pub load_held :
      (k : String) (r : ℕ) → GoMap.get loads k ≡ some r → (i : ℕ) × (holds i ≡ some (k, r))
  pub open_held :
      (r : ℕ) → r < next → status r ≡ pending → (i : ℕ) × (k : String) × (holds i ≡ some (k, r))
  pub waits_known : (i r : ℕ) → waits i ≡ some r → r < next

abbrev pub SystemInv : System → Type 0
SystemInv s =
    Inv s.plugin.loading_models s.plugin.results s.plugin.next_result (λ i. held (s.threads i))
      (λ i. awaited (s.threads i))
