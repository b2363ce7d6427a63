-- ===== src/Release/Manager/Runs.antt =====
-- The deployment of internal/releaseactivation/manager.go, and the rollback of one that fails, take only
-- steps of the protocol.
use personal_mcp_gateway.Base.{
  if_lem, ℤ, Bytes, false, Option, none, some, ◌≡◌, inl, inr, refl, Option-cases,
}
use personal_mcp_gateway.Release.Types.{
  State, Event, Manifest, Observed, Context, CommandKind, Error,
}
use personal_mcp_gateway.Release.Decide.Moves.{
  deploy as deploy_move, ready, abandon, choose, undo, recover, Move, held,
}
use personal_mcp_gateway.Release.Manager.Effects.{Failure, Outcome, ok, Host, System, Answer, acted}
use personal_mcp_gateway.Release.Manager.Slot.{rewrite}
use personal_mcp_gateway.Release.Manager.Observe.{service_manifests, decided, observe}
use personal_mcp_gateway.Release.Manager.Finish.{restart_services, finish_rollback}
use personal_mcp_gateway.Release.Manager.{
  ended, turn_back, turn_back_by, rollback_deployment_failure, undeployed, installed_candidate,
  install, resume_deployment,
}
use personal_mcp_gateway.Release.Manager.Protocol.{MayUndo, MayDeploy, Seen, installed, step, Trace}
use personal_mcp_gateway.Release.Manager.Steps.{
  on_lem, asked, move_without_err, At, Observes, observe-At, restart_services-At, Written,
  rewrite-Written,
}
use personal_mcp_gateway.Release.Manager.Ends.{MayUndo-MayDecide, finish_rollback-Right}

module _ {W : Type 0} (host : Host W) (event : Event) (s : System W) where
  -- A rollback that goes on leads to the rolling-back state of the same release.
  turns_back :
      {m n : Manifest} {c : Context} {k : CommandKind} {o : Observed}
      → Move c (some m) Event.rollback k (some n)
      → Seen host event s m o
      → (n.state ≡ State.rolling_back) × Seen host event s n o
  turns_back (held m w i a (abandon p r t)) seen = (refl, seen)
  turns_back (held m w i a (undo p r t)) seen = (refl, seen)
  turns_back (held m w i a (recover p r t g)) seen = (p, seen)

  -- What is persisted, by its state.
  pub persists :
      {e : Event} {m n : Manifest} {c : Context} {o : Observed}
      → Move c (some m) e CommandKind.persist_state (some n)
      → Seen host event s m o
      → (n.state ≡ State.rolling_back → e ≡ Event.rollback)
        × (n.state ≡ State.accepting → e ≡ Event.accept)
        × Seen host event s n o
  persists (held m w i a (ready p r t q)) seen = (λ x. cc, λ x. cc, seen)
  persists (held m w i a (abandon p r t)) seen = (λ x. refl, λ x. cc, seen)
  persists (held m w i a (choose p v)) seen = (λ x. cc, λ x. refl, seen)
  persists (held m w i a (undo p r t)) seen = (λ x. refl, λ x. cc, seen)

pub deploys :
    {e : Event} {m : Manifest} {c : Context} {next : Option Manifest}
    → Move c (some m) e CommandKind.resume_deployment next
    → (e ≡ Event.resume) × (m.state ≡ State.prepared)
deploys (held m w i a (deploy_move p r t)) = (refl, p)

pub recovers :
    {e : Event} {m : Manifest} {c : Context} {next : Option Manifest}
    → Move c (some m) e CommandKind.resume_rollback next
    → (e ≡ Event.rollback) × (m.state ≡ State.rolling_back)
recovers (held m w i a (recover p r t g)) = (refl, p)

module _ {W : Type 0} (host : Host W) (uid : ℤ) (controller : Bytes) (event : Event)
    (s : System W) where
  turn_back-Trace :
      (next : Option Manifest) (m : Manifest) (k : CommandKind) (o : Observed) (cause : Failure)
      (t : System W)
      → MayUndo event
      → Seen host event s m o
      → Move (asked m Event.rollback m.id o false) (some m) Event.rollback k next
      → At host event s m t
      → Trace host event s (turn_back host uid controller next o cause t).0
  turn_back-Trace none m k o cause t may seen move at = at.0
  turn_back-Trace (some n) m k o cause t may seen move at =
      let (back, again) = turns_back host event s move seen in
      on_lem (Written host event s (some n)) (λ r. Trace host event s r.0) (rewrite host uid n t)
        (rewrite-Written host event s uid m n t
          (record {
            context = asked m Event.rollback m.id o false;
            decides = Event.rollback;
            command = k;
            facts = inl (seen, refl);
            may = MayUndo-MayDecide may;
            move = move;
          })
          at)
        (λ a u w.
          ended-Trace (finish_rollback host uid n o u) cause
            (finish_rollback-Right host event s uid n o u may back again (w.0, w.1 refl)).0)
        (λ e u w. w.0)
    where
      ended-Trace :
          (r : System W × Answer) (x : Failure)
          → Trace host event s r.0
          → Trace host event s (ended host uid controller r x).0
      ended-Trace (u, a) x p = elim (Option-cases a.err) [ inl e ↦ rw e p | inr (f, e) ↦ rw e p ]

  turn_back_by-Trace :
      (err : Option Error) (m : Manifest) (o : Observed) (cause : Failure) (t : System W)
      → MayUndo event
      → Seen host event s m o
      → (decided m Event.rollback m.id o false).err ≡ err
      → At host event s m t
      → Trace host event s
          (turn_back_by host uid controller err
            (decided m Event.rollback m.id o false).next.manifest
            o
            cause
            t).0
  turn_back_by-Trace (some e) m o cause t may seen h at = at.0
  turn_back_by-Trace none m o cause t may seen h at =
      let (k, move) = move_without_err m Event.rollback m.id o false h in
      turn_back-Trace _ m k o cause t may seen move at

  pub rollback_deployment_failure-Trace :
      (m : Manifest) (cause : Failure) (t : System W)
      → MayUndo event
      → At host event s m t
      → Trace host event s (rollback_deployment_failure host uid controller m cause t).0
  unfolding rollback_deployment_failure
  rollback_deployment_failure-Trace m cause t may at =
      on_lem (Observes host event s m) (λ r. Trace host event s r.0) (observe host m t)
        (observe-At host event s m t at)
        (λ o u y.
          turn_back_by-Trace (decided m Event.rollback m.id o false).err m o cause u may y.1 refl
            y.0)
        (λ e u y. y.0.0)

  -- The steps lead to the end of the action, and the slot holds `m` where it has no error.
  abbrev pub Stays : Manifest → System W × Outcome Unit → Type 0
  Stays m r = Trace host event s r.0 × (r.1 ≡ ok tt → r.0.slot ≡ some m)

  undeployed-Stays :
      (m : Manifest) (cause : Failure) (t : System W)
      → MayUndo event
      → At host event s m t
      → Stays m (undeployed host uid controller m cause t)
  undeployed-Stays m cause t may at =
      (rollback_deployment_failure-Trace m cause t may at, λ bad. cc)

  install-Stays :
      (m : Manifest) (t : System W)
      → MayDeploy event m
      → At host event s m t
      → Stays m (install host uid controller m t)
  unfolding install
  install-Stays m t may at =
      on_lem (λ r. At host event s m r.0) (Stays m) (acted (host.install_candidate m) t)
        (step at.0 (installed m t at.1 may), at.1)
        (λ a u y.
          on_lem (Observes host event s m) (Stays m) (observe host m u)
            (observe-At host event s m u y)
            (λ o v z.
              if_lem (Stays m) (installed_candidate host uid controller m o)
                (λ p. (z.0.0, λ h. z.0.1)) (λ p. undeployed-Stays m _ v (inr may.0) z.0))
            (λ e v z. undeployed-Stays m e v (inr may.0) z.0))
        (λ e u y. undeployed-Stays m e u (inr may.0) y)

  pub resume_deployment-Stays :
      (m : Manifest) (o : Observed) (t : System W)
      → MayDeploy event m
      → At host event s m t
      → Stays m (resume_deployment host uid controller m o t)
  unfolding resume_deployment
  resume_deployment-Stays m o t may at =
      on_lem (Stays m) (Stays m) _
        (if_lem (Stays m) (installed_candidate host uid controller m o) (λ p. (at.0, λ h. at.1))
          (λ p. install-Stays m t may at))
        (λ a u y.
          on_lem (λ r. At host event s m r.0) (Stays m)
            (restart_services host uid (service_manifests m) u)
            (restart_services-At host event s uid m (service_manifests m) u (inl may)
              (y.0, y.1 refl))
            (λ b v z. (z.0, λ h. z.1)) (λ e v z. undeployed-Stays m e v (inr may.0) z))
        (λ e u y. (y.0, λ bad. cc))
