-- ===== src/Release/Manager/Requests.antt =====
-- A request to internal/releaseactivation/manager.go takes only steps of the protocol, and its answer
-- without an error is the manifest of the slot: what follows a decision.
use personal_mcp_gateway.Base.{ℤ, Bytes, false, Option, none, some, ◌≡◌, inl, inr, refl}
use personal_mcp_gateway.Release.Types.{State, Event, Manifest, Observed, CommandKind}
use personal_mcp_gateway.Release.Decide.Moves.{Move}
use personal_mcp_gateway.Release.Manager.Effects.{Failure, Host, System}
use personal_mcp_gateway.Release.Manager.Slot.{rewrite}
use personal_mcp_gateway.Release.Manager.Observe.{decided, command_of, observe}
use personal_mcp_gateway.Release.Manager.{
  rollback_deployment_failure, resume_deployment, write_next, answer_failure, ready_with, deploy,
  persisted, persist, carry_out,
}
use personal_mcp_gateway.Release.Manager.Protocol.{MayUndo, MayDeploy, Seen}
use personal_mcp_gateway.Release.Manager.Steps.{
  on_lem, asked, move_of, At, Observes, observe-At, Justified, Right, Written, rewrite-Written,
  clear_slot-Right,
}
use personal_mcp_gateway.Release.Manager.Runs.{
  persists, deploys, recovers, rollback_deployment_failure-Trace, Stays, resume_deployment-Stays,
}
use personal_mcp_gateway.Release.Manager.Ends.{
  decided-Justified, clearing-Justified, finish_rollback-Right, finish_accept-Right,
}

module _ {W : Type 0} (host : Host W) (uid : ℤ) (controller : Bytes) (event : Event)
    (s : System W) where
  write_next-Right :
      (m next : Manifest) (t : System W)
      → Justified host event s m (some next)
      → At host event s m t
      → Right host event s (write_next host uid controller m next t)
  write_next-Right m next t j at =
      on_lem (Written host event s (some next)) (Right host event s) (rewrite host uid next t)
        (rewrite-Written host event s uid m next t j at) (λ a u w. (w.0, λ h. w.1 refl))
        (λ e u w. (w.0, λ bad. cc))

  failed-Right :
      (m : Manifest) (cause : Failure) (t : System W)
      → MayUndo event
      → At host event s m t
      → Right host event s (
          answer_failure host uid controller m
            (rollback_deployment_failure host uid controller m cause t))
  failed-Right m cause t may at =
      (rollback_deployment_failure-Trace host uid controller event s m cause t may at, λ bad. cc)

  ready_with-Right :
      (k : Option CommandKind) (next : Option Manifest) (cause : Failure) (m : Manifest)
      (t : System W)
      → MayUndo event
      → ((x : CommandKind) → k ≡ some x → Justified host event s m next)
      → At host event s m t
      → Right host event s (ready_with host uid controller k next cause m t)
  ready_with-Right (some CommandKind.persist_state) (some next) cause m t may j at =
      write_next-Right m next t (j _ refl) at
  ready_with-Right none next cause m t may j at = failed-Right m cause t may at
  ready_with-Right (some k) next cause m t may j at = failed-Right m cause t may at

  deploy-Right :
      (m : Manifest) (id : Bytes) (o : Observed) (t : System W)
      → MayDeploy event m
      → At host event s m t
      → Right host event s (deploy host uid controller m id o t)
  unfolding deploy
  deploy-Right m id o t may at =
      on_lem (Stays host uid controller event s m) (Right host event s)
        (resume_deployment host uid controller m o t)
        (resume_deployment-Stays host uid controller event s m o t may at)
        (λ a u y.
          on_lem (Observes host event s m) (Right host event s) (observe host m u)
            (observe-At host event s m u (y.0, y.1 refl))
            (λ fresh v z.
              ready_with-Right (command_of (decided m Event.deployment_ready id fresh false)) _ _ m
                v (inr may.0)
                (λ x h.
                  decided-Justified host event s m Event.deployment_ready id fresh false x
                    (inr (may.0, inl refl)) (inl (z.1, refl)) h)
                z.0)
            (λ e v z. failed-Right m e v (inr may.0) z.0))
        (λ e u y. (y.0, λ bad. cc))

  persisted-Right :
      (x : State) (next : Manifest) (id : Bytes) (o : Observed) (t : System W)
      → next.state ≡ x
      → (next.state ≡ State.rolling_back → event ≡ Event.rollback)
      → (next.state ≡ State.accepting → event ≡ Event.accept)
      → Seen host event s next o
      → At host event s next t
      → Right host event s (persisted host uid controller x next id o t)
  persisted-Right State.rolling_back next id o t is back ahead seen at =
      finish_rollback-Right host event s uid next o t (inl (back is)) is seen at
  persisted-Right State.accepting next id o t is back ahead seen at =
      finish_accept-Right host event s uid next id t (ahead is) at
  persisted-Right _ next id o t is back ahead seen at = (at.0, λ bad. cc)

  persist-Right :
      (m : Manifest) (next : Option Manifest) (id : Bytes) (o : Observed) (t : System W)
      → Seen host event s m o
      → Move (asked m event id o false) (some m) event CommandKind.persist_state next
      → At host event s m t
      → Right host event s (persist host uid controller m next id o t)
  persist-Right m none id o t seen move at = (at.0, λ bad. cc)
  persist-Right m (some next) id o t seen move at =
      let (back, ahead, again) = persists host event s move seen in
      on_lem (Written host event s (some next)) (Right host event s) (rewrite host uid next t)
        (rewrite-Written host event s uid m next t
          (record {
            context = asked m event id o false;
            decides = event;
            command = CommandKind.persist_state;
            facts = inl (seen, refl);
            may = inl refl;
            move = move;
          })
          at)
        (λ a u w. persisted-Right next.state next id o u refl back ahead again (w.0, w.1 refl))
        (λ e u w. (w.0, λ bad. cc))

  pub carry_out-Right :
      (k : Option CommandKind) (m : Manifest) (id : Bytes) (o : Observed) (t : System W)
      → Seen host event s m o
      → command_of (decided m event id o false) ≡ k
      → At host event s m t
      → Right host event s (carry_out host uid controller k (decided m event id o false) m id o t)
  carry_out-Right none m id o t seen h at = (at.0, λ bad. cc)
  carry_out-Right (some CommandKind.publish_prepared) m id o t seen h at = (at.0, λ bad. cc)
  carry_out-Right (some CommandKind.resume_deployment) m id o t seen h at =
      deploy-Right m id o t (deploys (move_of m event id o false _ h)) at
  carry_out-Right (some CommandKind.persist_state) m id o t seen h at =
      persist-Right m _ id o t seen (move_of m event id o false _ h) at
  carry_out-Right (some CommandKind.resume_rollback) m id o t seen h at =
      let (is, back) = recovers (move_of m event id o false _ h) in
      finish_rollback-Right host event s uid m o t (inl is) back seen at
  carry_out-Right (some CommandKind.clear_transaction) m id o t seen h at =
      clear_slot-Right host event s uid m t
        (clearing-Justified host event s m event id o false (inl refl) (inl (seen, refl)) h) at
