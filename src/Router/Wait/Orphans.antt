-- ===== src/Router/Wait/Orphans.antt =====
-- A call that waits for a result that nobody will send (internal/router/router.go: GetModelEndpoint).
use rocm_llamacpp_envoy_ai_g.Prelude.{
  ℕ, String, ◌≡◌, refl, sym, ◌∙◌, ap, inl, inr, Bool, true, false, Option, none, some, List, [],
  ◌∷◌, arith, Bool-cases, nat_eq, subst, if◌then◌else◌,
}
use rocm_llamacpp_envoy_ai_g.Router.Types.{Error, err, cancelled}
use rocm_llamacpp_envoy_ai_g.Router.Lease.{LeaseApi}
use rocm_llamacpp_envoy_ai_g.Router.Steps.{waiting, finished, Input, set_at, step, select}
use rocm_llamacpp_envoy_ai_g.Router.System.{
  Thread, Op, calls, runs, discovers, selects, moves, System, world_at, after, begin, resume,
  transition, run,
}
use rocm_llamacpp_envoy_ai_g.Router.Wait.{Uncancelled, AllUncancelled, owner, Orphaned}
use rocm_llamacpp_envoy_ai_g.Router.Wait.Channels.{step-Empty}

module _ (api : LeaseApi) where
  spares-set_at :
      (c : ℕ) (f : ℕ → Option Thread) (j : ℕ) (x : Option Thread)
      → (owner x ≡ some c → ⊥)
      → ((k : ℕ) → owner (f k) ≡ some c → ⊥)
      → (k : ℕ) → owner (set_at f j x k) ≡ some c
      → ⊥
  spares-set_at c f j x h all k e = elim (Bool-cases (nat_eq k j)) [
    | inl q ↦ h (ground (arith, q, e))
    | inr q ↦ all k (ground (arith, q, e))
  ]

  owner-begin : (o : Option Thread) (a : ℕ) (m : String) → owner (begin api o a m) ≡ owner o
  owner-begin none a m = refl
  owner-begin (some th) a m = refl

  begin-some :
      (o : Option Thread) (th : Thread) (a : ℕ) (m : String)
      → o ≡ some th
      → begin api o a m ≡ some th
  begin-some none th a m e = absurd (ground (arith, e))
  begin-some (some t) th a m e = e

  module _ (i a : ℕ) (m : String) (c : ℕ) where
    abbrev waiter : Option Thread
    waiter = some (record { replica = a; model = m; pc = waiting c })

    calls-Orphaned :
        (s : System api) (j b : ℕ) (n : String)
        → Orphaned api s i a m c
        → Orphaned api
            (record s { threads = set_at s.threads j (begin api (s.threads j) b n) })
            i
            a
            m
            c
    calls-Orphaned s j b n v = record {
      waits = elim (Bool-cases (nat_eq i j)) [
        | inl q ↦ rw q (begin-some (s.threads j) _ b n (ap s.threads (ground (arith, q)) ∙ v.waits))
        | inr q ↦ rw q v.waits
      ];
      unsent = v.unsent;
      registered = v.registered;
      abandoned =
          spares-set_at c s.threads j _
            (λ e. v.abandoned j (sym (owner-begin (s.threads j) b n) ∙ e)) v.abandoned;
    }

    other-Orphaned :
        (s : System api) (j : ℕ) (th : Thread) (input : Input)
        → nat_eq i j ≡ false
        → s.threads j ≡ some th
        → Orphaned api s i a m c
        → Orphaned api (resume api s j (some th) input) i a m c
    other-Orphaned s j th input d e v =
        let (p, q, r) =
          step-Empty api (world_at api s th.replica) c v.unsent v.registered th.model th.pc input
            (λ x. v.abandoned j (ap owner e ∙ x)) in
        record {
          waits = rw d v.waits;
          unsent = p;
          registered = q;
          abandoned = spares-set_at c s.threads j _ r v.abandoned;
        }

    wait-Orphaned :
        (s : System api) (b : Bool) (o : Option (Option Error))
        → b ≡ false
        → o ≡ none
        → Orphaned api s i a m c
        → Orphaned api
            (after api s i a m (
              if b
              then (world_at api s a, finished (err cancelled))
              else select api (world_at api s a) c o))
            i
            a
            m
            c
    wait-Orphaned s b o eb eo v =
        rw (eb, eo)
          (record {
            waits = ground arith;
            unsent = v.unsent;
            registered = v.registered;
            abandoned =
                spares-set_at c s.threads i waiter (λ e. absurd (ground (arith, e))) v.abandoned;
          })

    self-Orphaned :
        (s : System api) (input : Input)
        → input.is_cancelled ≡ false
        → Orphaned api s i a m c
        → Orphaned api (resume api s i waiter input) i a m c
    unfolding step
    self-Orphaned s input u v = wait-Orphaned s input.is_cancelled (s.buffers c) u v.unsent v

    runs-Orphaned :
        (s : System api) (j : ℕ) (o : Option Thread) (input : Input)
        → (nat_eq j i ≡ true → input.is_cancelled ≡ false)
        → s.threads j ≡ o
        → Orphaned api s i a m c
        → Orphaned api (resume api s j o input) i a m c
    runs-Orphaned s j none input u e v = v
    runs-Orphaned s j (some th) input u e v = elim (Bool-cases (nat_eq i j)) [
      | inl q ↦
          let same : i ≡ j = ground (arith, q) in
          let is : waiter ≡ some th = sym v.waits ∙ ap s.threads same ∙ e in
          subst (λ k. Orphaned api (resume api s k (some th) input) i a m c) same
            (subst (λ o. Orphaned api (resume api s i o input) i a m c) is
              (self-Orphaned s input (u (ground (arith, q))) v))
      | inr q ↦ other-Orphaned s j th input q e v
    ]

    transition-Orphaned :
        (s : System api) (op : Op)
        → Uncancelled i op
        → Orphaned api s i a m c
        → Orphaned api (transition api s op) i a m c
    unfolding transition
    transition-Orphaned s (calls j b n) u v = calls-Orphaned s j b n v
    transition-Orphaned s (runs j input) u v = runs-Orphaned s j (s.threads j) input u refl v
    transition-Orphaned s (discovers b env) u v = record {
      waits = v.waits;
      unsent = v.unsent;
      registered = v.registered;
      abandoned = v.abandoned;
    }
    transition-Orphaned s (selects b selector env) u v = record {
      waits = v.waits;
      unsent = v.unsent;
      registered = v.registered;
      abandoned = v.abandoned;
    }
    transition-Orphaned s (moves b namespace) u v = record {
      waits = v.waits;
      unsent = v.unsent;
      registered = v.registered;
      abandoned = v.abandoned;
    }

  -- A call of GetModelEndpoint that waits for a load whose result has been taken from the channel by
  -- another call, or was never sent, and that no running call sends on, waits for ever: in every
  -- continuation in which its context is not done, it is still waiting for that channel, and nothing has
  -- been sent.
  pub orphan_waits :
      (s : System api) (i a : ℕ) (m : String) (c : ℕ)
      → Orphaned api s i a m c
      → (ops : List Op) → AllUncancelled i ops
      → ((run api s ops).threads i ≡ some (record { replica = a; model = m; pc = waiting c }))
        × ((run api s ops).buffers c ≡ none)
  unfolding run
  orphan_waits s i a m c v [] u = (v.waits, v.unsent)
  orphan_waits s i a m c v (op ∷ ops) (u, us) =
      orphan_waits (transition api s op) i a m c (transition-Orphaned i a m c s op u v) ops us
