-- ===== src/Release/Decide/Outcomes.antt =====
-- When each part of `Decide` of internal/releaseactivation/model.go issues a command.
use personal_mcp_gateway.Base.{
  bytes_eq_iff, Bool, true, Option, none, some, [], ◌≡◌, ◌↔◌, ◌⊎◌, arith,
}
use personal_mcp_gateway.Release.Types.{
  State, Event, Manifest, Observed, Context, CommandKind, Decision,
}
use personal_mcp_gateway.Release.Decide.{
  validate_prepare_observations, decide_prepare, decide_prepared, decide_pending, decide_accepting,
  decide_rolling_back,
}
use personal_mcp_gateway.Release.Decide.Allowed.{
  IsAuthentic, SameRuntime, Installed, TargetKnown, IsUntouched, IsServing, IsRecovered,
  IsWellFormed, validate_active_observations_iff, validate_runtime_iff, target_allowed_iff,
  recovery_confirmed_iff, validate_acceptance_readiness_iff,
}
use personal_mcp_gateway.Release.Decide.Moves.{Issues}

module _ (m : Manifest) (o : Observed) (d : Decision) (clean : d.err ≡ none) where
  pub Issues-decide_accepting :
      (k : CommandKind) (next : Option Manifest)
      → Issues (decide_accepting d m o) k next
        ↔ (IsServing m o × (k ≡ CommandKind.clear_transaction) × (next ≡ none))
  unfolding decide_accepting
  Issues-decide_accepting k next = ground (arith, validate_acceptance_readiness_iff m o)

  pub Issues-decide_rolling_back :
      (r : Bool) (k : CommandKind) (next : Option Manifest)
      → Issues (decide_rolling_back d m o r) k next ↔ (
          SameRuntime m o
          × TargetKnown m o
          × ((IsRecovered m o r × (k ≡ CommandKind.clear_transaction) × (next ≡ none))
              ⊎ ((¬ IsRecovered m o r)
                  × (k ≡ CommandKind.resume_rollback)
                  × (next ≡ d.next.manifest))))
  unfolding decide_rolling_back
  Issues-decide_rolling_back r k next =
      ground (arith, validate_runtime_iff m o, target_allowed_iff m o, recovery_confirmed_iff m o r)

  pub Issues-decide_resume :
      (k : CommandKind) (next : Option Manifest)
      → Issues (decide_prepared d Event.resume m o) k next ↔ (
          SameRuntime m o
          × TargetKnown m o
          × (k ≡ CommandKind.resume_deployment)
          × (next ≡ d.next.manifest))
  unfolding decide_prepared
  Issues-decide_resume k next = ground (arith, validate_runtime_iff m o, target_allowed_iff m o)

  pub Issues-decide_ready :
      (k : CommandKind) (next : Option Manifest)
      → Issues (decide_prepared d Event.deployment_ready m o) k next ↔ (
          SameRuntime m o
          × Installed m.candidate_sha256 o
          × (o.runtime_ready ≡ true)
          × (k ≡ CommandKind.persist_state)
          × (next ≡ some (record m { state = State.pending })))
  unfolding decide_prepared
  Issues-decide_ready k next =
      ground (arith, validate_runtime_iff m o, bytes_eq_iff o.installed_sha256 m.candidate_sha256)

  pub Issues-decide_abandon :
      (k : CommandKind) (next : Option Manifest)
      → Issues (decide_prepared d Event.rollback m o) k next ↔ (
          SameRuntime m o
          × TargetKnown m o
          × (k ≡ CommandKind.persist_state)
          × (next ≡ some (record m { state = State.rolling_back })))
  unfolding decide_prepared
  Issues-decide_abandon k next = ground (arith, validate_runtime_iff m o, target_allowed_iff m o)

  pub Issues-decide_choose :
      (k : CommandKind) (next : Option Manifest)
      → Issues (decide_pending d Event.accept m o) k next ↔ (
          IsServing m o
          × (k ≡ CommandKind.persist_state)
          × (next ≡ some (record m { state = State.accepting })))
  unfolding decide_pending
  Issues-decide_choose k next = ground (
    arith,
    validate_acceptance_readiness_iff m o,
    bytes_eq_iff o.installed_sha256 m.candidate_sha256,
  )

  pub Issues-decide_undo :
      (k : CommandKind) (next : Option Manifest)
      → Issues (decide_pending d Event.rollback m o) k next ↔ (
          SameRuntime m o
          × Installed m.candidate_sha256 o
          × (k ≡ CommandKind.persist_state)
          × (next ≡ some (record m { state = State.rolling_back })))
  unfolding decide_pending
  Issues-decide_undo k next =
      ground (arith, validate_runtime_iff m o, bytes_eq_iff o.installed_sha256 m.candidate_sha256)

-- The first move of a clear slot.
validate_prepare_observations_iff :
    (m : Manifest) (o : Observed)
    → (validate_prepare_observations m o ≡ none)
      ↔ (IsAuthentic m o × IsUntouched m o × SameRuntime m o)
unfolding validate_prepare_observations
validate_prepare_observations_iff m o = ground (
  arith,
  validate_active_observations_iff m o,
  validate_runtime_iff m o,
  bytes_eq_iff o.installed_sha256 m.previous_sha256,
)

pub Issues-decide_prepare :
    (c : Context) (d : Decision) (k : CommandKind) (next : Option Manifest) (m : Manifest)
    → d.err ≡ none
    → c.prepared ≡ some m
    → Issues (decide_prepare d c) k next ↔ (
        (m.state ≡ State.prepared)
        × ((c.release_id ≡ []) ⊎ (c.release_id ≡ m.id))
        × IsWellFormed m
        × IsAuthentic m c.observed
        × IsUntouched m c.observed
        × SameRuntime m c.observed
        × (k ≡ CommandKind.publish_prepared)
        × (next ≡ some m))
unfolding decide_prepare
Issues-decide_prepare c d k next m clean given =
    ground (arith, validate_prepare_observations_iff m c.observed, bytes_eq_iff c.release_id m.id)
