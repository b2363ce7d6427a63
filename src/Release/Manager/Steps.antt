-- ===== src/Release/Manager/Steps.antt =====
-- What the actions of internal/releaseactivation/manager.go that all requests share do, as steps of the
-- protocol: observing, restarting, writing and clearing the slot.
use personal_mcp_gateway.Base.{
  ℤ, Bytes, Bool, true, Option, none, some, List, [], ◌∷◌, ltb, length, ◌≡◌, ◌⊎◌, inl, inr, refl,
  Bool-cases, arith,
}
use personal_mcp_gateway.Release.Types.{State, Event, Manifest, Observed, Context, CommandKind}
use personal_mcp_gateway.Release.Decide.Exact.{decide_exact}
use personal_mcp_gateway.Release.Decide.Settles.{decide_settles}
use personal_mcp_gateway.Release.Decide.Moves.{Move}
use personal_mcp_gateway.Release.Manager.Effects.{
  StoreError, Failure, Outcome, ok, fail, Fault, Host, System, Answer, acted, on,
}
use personal_mcp_gateway.Release.Manager.Slot.{
  load, rewrite, clear, published, publish as publish_slot, rewrite_refusal, clear_refusal,
}
use personal_mcp_gateway.Release.Manager.Observe.{
  service_manifests, after_first, service_matches, joined, decided, command_of, observe_services,
  observe,
}
use personal_mcp_gateway.Release.Manager.Finish.{restart_services, clear_slot}
use personal_mcp_gateway.Release.Manager.Protocol.{
  MayDeploy, MayRecover, MayDecide, HasFacts, wrote_recovered, looked, read, tried, restarted,
  waited, wrote, Trace, step,
}

-- What holds of an action and goes on to both continuations.
pub on_lem :
    {W A B : Type 0} (P : System W × Outcome A → Type 0) (R : System W × B → Type 0)
    (r : System W × Outcome A) {k : A → System W → System W × B}
    {f : Failure → System W → System W × B}
    → P r
    → ((a : A) (t : System W) → P (t, ok a) → R (k a t))
    → ((e : Failure) (t : System W) → P (t, fail e) → R (f e t))
    → R (on r k f)
unfolding on
on_lem P R (t, ok a) p k f = k a t p
on_lem P R (t, fail e) p k f = f e t p

-- The move of a decision with one command, and of one without an error.
module _ (m : Manifest) (e : Event) (id : Bytes) (o : Observed) (r : Bool) where
  abbrev pub asked : Context
  asked = record { release_id = id; prepared = none; observed = o; rollback_ready = r }

  pub move_of :
      (k : CommandKind)
      → command_of (decided m e id o r) ≡ some k
      → Move asked (some m) e k (decided m e id o r).next.manifest
  move_of k h = elim (decide_settles (record { manifest = some m }) e asked).1 [
    | inl (k', next, issued) ↦
        (decide_exact (record { manifest = some m }) e asked k (decided m e id o r).next.manifest).0
          (ground (arith, issued))
    | inr (x, err, none_issued, not_applied, same) ↦ cc (rw err at h)
  ]

  pub move_without_err :
      (decided m e id o r).err ≡ none
      → (k : CommandKind) × Move asked (some m) e k (decided m e id o r).next.manifest
  move_without_err h = elim (decide_settles (record { manifest = some m }) e asked).1 [
    | inl (k, next, issued) ↦ (
      k,
      (decide_exact (record { manifest = some m }) e asked k (decided m e id o r).next.manifest).0
          (issued.0, refl, issued.2, issued.3),
    )
    | inr (x, err, none_issued, not_applied, same) ↦ cc
  ]

module _ {W : Type 0} (host : Host W) (event : Event) (s : System W) where
  -- The steps from `s` have led here, and the slot holds `m`.
  abbrev pub At : Manifest → System W → Type 0
  At m t = Trace host event s t × (t.slot ≡ some m)

  abbrev pub Observes : Manifest → System W × Outcome Observed → Type 0
  Observes m r =
      At m r.0
      × ((x : State) × (u : System W) × Trace host event s u
          × ((observe host (record m { state = x }) u).1 ≡ r.1))

  observe_services-At :
      (m : Manifest) (l : List Manifest) (o : Observed) (t : System W)
      → At m t
      → At m (observe_services host l o t).0
  unfolding observe_services
  observe_services-At m [] o t at = at
  observe_services-At m (x ∷ l) o t at =
      on_lem (λ r. At m r.0) (λ r. At m r.0) (acted (host.observe x) t)
        (step at.0 (looked x t), at.1)
        (λ seen u at'. elim (Bool-cases (service_matches x seen)) [
          | inl y ↦ rw y (observe_services-At m l (joined o seen) u at')
          | inr n ↦ rw n at'
        ])
        (λ e u at'. at')

  observe_keeps-At : (m : Manifest) (t : System W) → At m t → At m (observe host m t).0
  unfolding observe
  observe_keeps-At m t at =
      on_lem (λ r. At m r.0) (λ r. At m r.0) (acted (host.observe m) t)
        (step at.0 (looked m t), at.1)
        (λ o u at'. elim (Bool-cases (ltb (length m.services) 2)) [
          | inl y ↦ rw y at'
          | inr n ↦ rw n (observe_services-At m (after_first (service_manifests m)) o u at')
        ])
        (λ e u at'. at')

  pub observe-At : (m : Manifest) (t : System W) → At m t → Observes m (observe host m t)
  observe-At m t at = (observe_keeps-At m t at, (m.state, t, at.0, refl))

  pub restart_services-At :
      (uid : ℤ) (m : Manifest) (l : List Manifest) (t : System W)
      → MayDeploy event m ⊎ MayRecover event true m
      → At m t
      → At m (restart_services host uid l t).0
  unfolding restart_services
  restart_services-At uid m [] t may at = at
  restart_services-At uid m (x ∷ l) t may at =
      on_lem (λ r. At m r.0) (λ r. At m r.0) (acted (host.restart x) t)
        (step at.0 (restarted m x t at.1 may), at.1)
        (λ a u at'.
          on_lem (λ r. At m r.0) (λ r. At m r.0) (acted (host.wait_ready x) u)
            (step at'.0 (waited m x u at'.1 may), at'.1) (λ b v. restart_services-At uid m l v may)
            (λ e v x. x))
        (λ e v x. x)

  load-At : (uid : ℤ) (m : Manifest) (t : System W) → At m t → At m (load host uid t).0
  unfolding load
  load-At uid m t at =
      on_lem (λ r. At m r.0) (λ r. At m r.0) (acted host.read_active t) (step at.0 (read t), at.1)
        (λ a u x. x) (λ e u x. x)

  -- What has been observed of `m` lets a decision that the request may make hand on `next`.
  pub record Justified (m : Manifest) (next : Option Manifest) : Type 0 where
    pub context : Context
    pub decides : Event
    pub command : CommandKind
    pub facts : HasFacts host event s m context
    pub may : MayDecide event decides
    pub move : Move context (some m) decides command next

  writes :
      (m : Manifest) (next : Option Manifest) (t : System W)
      → Justified m next
      → At m t
      → Trace host event s (record t { slot = next })
  writes m next t j at = elim j.facts [
    | inl ((x, u, reached, saw), not_ready) ↦
        wrote m next x u at.0 at.1 reached saw not_ready j.may j.move
    | inr ((uid, x, u, v, reached, recovers, restarts, saw), is_ready) ↦
        wrote_recovered m next uid x u v at.0 at.1 reached recovers restarts saw is_ready j.may
          j.move
  ]

  -- The steps lead to the end of the write, and the slot holds `next` where it has no error.
  abbrev pub Written : Option Manifest → System W × Outcome Unit → Type 0
  Written next r = Trace host event s r.0 × (r.1 ≡ ok tt → r.0.slot ≡ next)

  published-Written :
      (uid : ℤ) (m : Manifest) (next : Option Manifest) (fault : Fault) (t : System W)
      → Justified m next
      → At m t
      → Written next (published host uid next fault t)
  published-Written uid m next Fault.clean t j at = (writes m next t j at, λ h. refl)
  published-Written uid m next (Fault.before e) t j at = (at.0, λ bad. cc)
  published-Written uid m next (Fault.after e) t j at = (writes m next t j at, λ h. refl)

  publish-Written :
      (uid : ℤ) (m : Manifest) (next : Option Manifest) (refusal : Option StoreError) (t : System W)
      → Justified m next
      → At m t
      → Written next (publish_slot host uid refusal next t)
  publish-Written uid m next (some e) t j at = (at.0, λ bad. cc)
  publish-Written uid m next none t j at =
      published-Written uid m next (host.write_fault t.host).1
        (record t { host = (host.write_fault t.host).0 }) j (step at.0 (tried t), at.1)

  pub rewrite-Written :
      (uid : ℤ) (m next : Manifest) (t : System W)
      → Justified m (some next)
      → At m t
      → Written (some next) (rewrite host uid next t)
  unfolding rewrite
  rewrite-Written uid m next t j at =
      on_lem (λ r. At m r.0) (Written (some next)) (load host uid t) (load-At uid m t at)
        (λ current u x. publish-Written uid m (some next) (rewrite_refusal uid next current) u j x)
        (λ e u x. (x.0, λ bad. cc))

  clear-Written :
      (uid : ℤ) (m : Manifest) (t : System W)
      → Justified m none
      → At m t
      → Written none (clear host uid m.id t)
  unfolding clear
  clear-Written uid m t j at =
      on_lem (λ r. At m r.0) (Written none) (load host uid t) (load-At uid m t at)
        (λ current u x. publish-Written uid m none (clear_refusal m.id current) u j x)
        (λ e u x. (x.0, λ bad. cc))

  -- The steps lead to the answer, and the slot holds its manifest where it has no error.
  abbrev pub Right : System W × Answer → Type 0
  Right r = Trace host event s r.0 × (r.1.err ≡ none → r.0.slot ≡ r.1.manifest)

  pub clear_slot-Right :
      (uid : ℤ) (m : Manifest) (t : System W)
      → Justified m none
      → At m t
      → Right (clear_slot host uid m t)
  unfolding clear_slot
  clear_slot-Right uid m t j at =
      on_lem (Written none) Right (clear host uid m.id t) (clear-Written uid m t j at)
        (λ a u w. (w.0, λ h. w.1 refl)) (λ e u w. (w.0, λ bad. cc))
