-- ===== src/Router/Wait/Channels.antt =====
-- What a step of internal/router/router.go does to a channel that the call does not send on.
use rocm_llamacpp_envoy_ai_g.Prelude.{
  ℕ, ◌<◌, String, ◌≡◌, refl, sym, ◌∙◌, ap, inl, inr, Bool, true, false, not, Option, none, some,
  arith, Bool-cases, nat_eq, if◌then◌else◌,
}
use rocm_llamacpp_envoy_ai_g.Router.Types.{Error, Result, err, cancelled}
use rocm_llamacpp_envoy_ai_g.Router.Lease.{
  LeaseApi, Created, created, already_exists, create_failed, Got, got, get_failed, lease_name,
  is_ours,
}
use rocm_llamacpp_envoy_ai_g.Router.Steps.{
  Pc, looking, registering, waiting, retrying, creating, getting, loading, sending, releasing,
  cleaning, finished, Input, set_at, World, step, after_look, after_retry, after_receive,
  after_send, after_create, after_get, register, select,
}
use rocm_llamacpp_envoy_ai_g.Router.Mutex.{owned_at}

-- A call at this place does not send on `c`.
abbrev pub Spares : ℕ → Pc → Type 0
Spares c pc = owned_at pc ≡ some c → ⊥

idle-Spares : (c : ℕ) (pc : Pc) → owned_at pc ≡ none → Spares c pc
idle-Spares c pc e f = absurd (ground (arith, e, f))

look-Spares : (c : ℕ) (o : Option String) → Spares c (after_look o)
look-Spares c none e = absurd (ground (arith, e))
look-Spares c (some x) e = absurd (ground (arith, e))

retry-Spares : (c : ℕ) (o : Option String) → Spares c (after_retry o)
retry-Spares c none e = absurd (ground (arith, e))
retry-Spares c (some x) e = absurd (ground (arith, e))

receive-Spares : (c : ℕ) (o : Option Error) → Spares c (after_receive o)
receive-Spares c none e = absurd (ground (arith, e))
receive-Spares c (some x) e = absurd (ground (arith, e))

pub create_owned : (c : ℕ) (o : Created) → owned_at (after_create c o) ≡ some c
create_owned c created = refl
create_owned c already_exists = refl
create_owned c create_failed = refl

pub get_owned : (c : ℕ) (name : String) (o : Got) → owned_at (after_get c name o) ≡ some c
get_owned c name get_failed = refl
get_owned c name (got holder) = elim (Bool-cases (is_ours holder name)) [
  | inl e ↦ rw e refl
  | inr e ↦ rw e refl
]

pub send_owned : (c : ℕ) (l : Bool) (r : Result String) → owned_at (after_send c l r) ≡ some c
send_owned c true r = refl
send_owned c false r = refl

set_none : (f : ℕ → Option (Option Error)) (d c : ℕ) → f c ≡ none → set_at f d none c ≡ none
set_none f d c e = elim (Bool-cases (nat_eq c d)) [ inl q ↦ rw q refl | inr q ↦ rw q e ]

set_other :
    (f : ℕ → Option (Option Error)) (d : ℕ) (x : Option (Option Error)) (c : ℕ)
    → (d ≡ c → ⊥)
    → f c ≡ none
    → set_at f d x c ≡ none
set_other f d x c h e = elim (Bool-cases (nat_eq c d)) [
  | inl q ↦ absurd (h (ground (arith, q)))
  | inr q ↦ rw q e
]

module _ (api : LeaseApi) where
  -- Nothing is in the buffer of `c`, and the call does not send on it.
  abbrev pub Empty : ℕ → World api × Pc → Type 0
  Empty c (w, pc) = (w.buffers c ≡ none) × (c < w.next_channel) × Spares c pc

  if-Empty :
      (c : ℕ) (b : Bool) (x y : World api × Pc)
      → Empty c x
      → Empty c y
      → Empty c (if b then x else y)
  if-Empty c true x y h k = h
  if-Empty c false x y h k = k

  module _ (w : World api) (c : ℕ) (e : w.buffers c ≡ none) (known : c < w.next_channel) where
    same_owner :
        (d : ℕ) (pc pc' : Pc)
        → owned_at pc ≡ some d
        → owned_at pc' ≡ some d
        → Spares c pc
        → Spares c pc'
    same_owner d pc pc' p q h x = h (p ∙ sym q ∙ x)

    register-Empty : (m : String) (o : Option ℕ) → Empty c (register api w m o)
    register-Empty m none = (
      set_none w.buffers w.next_channel c e,
      omega arith,
      λ x. let same : w.next_channel ≡ c = ground (arith, x) in omega arith,
    )
    register-Empty m (some d) = (e, known, idle-Spares c (waiting d) refl)

    select-Empty : (d : ℕ) (o : Option (Option Error)) → Empty c (select api w d o)
    select-Empty d none = (e, known, idle-Spares c (waiting d) refl)
    select-Empty d (some x) = (set_none w.buffers d c e, known, receive-Spares c x)

    pub step-Empty :
        (m : String) (pc : Pc) (input : Input) → Spares c pc → Empty c (step api w m pc input)
    unfolding step
    step-Empty m looking input h = (e, known, look-Spares c _)
    step-Empty m registering input h = register-Empty m _
    step-Empty m (waiting d) input h =
        if-Empty c input.is_cancelled _ _ (e, known, idle-Spares c (finished (err cancelled)) refl)
          (select-Empty d (w.buffers d))
    step-Empty m retrying input h = (e, known, retry-Spares c _)
    step-Empty m (creating d) input h =
        if-Empty c (not w.router.has_client) _ _ (e, known, h)
          (e, known, same_owner d (creating d) _ refl (create_owned d _) h)
    step-Empty m (getting d) input h = (
      e,
      known,
      same_owner d (getting d) _ refl
          (get_owned d w.router.replica_name (api.get w.store w.router.namespace (lease_name m))) h,
    )
    step-Empty m (loading d) input h = (e, known, h)
    step-Empty m (sending d l r) input h = (
      set_other w.buffers d _ c (λ x. h (ap some x)) e,
      known,
      same_owner d (sending d l r) _ refl (send_owned d l r) h,
    )
    step-Empty m (releasing d r) input h =
        if-Empty c (not w.router.has_client) _ _ (e, known, h) (e, known, h)
    step-Empty m (cleaning d r) input h = (e, known, idle-Spares c (finished r) refl)
    step-Empty m (finished r) input h = (e, known, h)
