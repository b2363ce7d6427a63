-- ===== src/Release/Decide.antt =====
-- internal/releaseactivation/model.go: `Decide`, which applies one event to one snapshot. Values are
-- not shared in the model, so the clones of the source are the values themselves.
pub mod Allowed
pub mod Moves
pub mod Outcomes
pub mod Exact
pub mod Settles
pub mod Keeps
use personal_mcp_gateway.Base.{
  Bytes, bytes_eq, Bool, true, false, not, ◌&&◌, ◌||◌, Option, none, some, [], ◌∷◌, is_empty,
  if◌then◌else◌,
}
use personal_mcp_gateway.Release.Types.{
  State, Event, Manifest, Snapshot, Observed, Context, CommandKind, ErrorCode, Error, Decision,
  lifecycle_error,
}
use personal_mcp_gateway.Release.Validate.{validate_snapshot}

-- The tests of one constant, `m.State == StatePrepared` and `event == EventPrepare`.
abbrev pub is_prepared : State → Bool
is_prepared State.prepared = true
is_prepared _ = false

unfoldable pub valid_event : Event → Bool
valid_event Event.prepare = true
valid_event Event.resume = true
valid_event Event.deployment_ready = true
valid_event Event.accept = true
valid_event Event.rollback = true
valid_event _ = false

unfoldable pub event_allowed : State → Event → Bool
event_allowed State.prepared Event.resume = true
event_allowed State.prepared Event.deployment_ready = true
event_allowed State.prepared Event.rollback = true
event_allowed State.pending Event.accept = true
event_allowed State.pending Event.rollback = true
event_allowed State.accepting Event.accept = true
event_allowed State.rolling_back Event.rollback = true
event_allowed _ _ = false

unfoldable pub rejected : Decision → Error → Decision
rejected d e = record d { next = d.current; commands = []; applied = false; err = some e }

abbrev pub reject_with : Decision → ErrorCode → Decision
reject_with d code = rejected d (lifecycle_error code)

-- `if err := …; err != nil { return rejected(decision, err) }`
abbrev pub checked : Option Error → Decision → Decision → Decision
checked none d continued = continued
checked (some e) d continued = rejected d e

abbrev pub apply_command : Decision → Snapshot → CommandKind → Decision
apply_command d next command = record d { next = next; commands = command ∷ []; applied = true }

unfoldable pub transition : Decision → Manifest → State → CommandKind → Decision
transition d m state command =
    apply_command d (record { manifest = some (record m { state = state }) }) command

unfoldable pub validate_active_observations : Manifest → Observed → Option Error
validate_active_observations m o =
    if not (bytes_eq o.controller_sha256 m.authority_sha256)
    then some (lifecycle_error ErrorCode.authority_mismatch)
    else if not (bytes_eq o.authority_artifact_sha256 m.authority_sha256)
        || not (bytes_eq o.candidate_sha256 m.candidate_sha256)
        || m.previous_present && not (bytes_eq o.previous_sha256 m.previous_sha256)
    then some (lifecycle_error ErrorCode.artifact_mismatch)
    else none

unfoldable pub validate_runtime : Manifest → Observed → Option Error
validate_runtime m o =
    if not (bytes_eq o.plist_sha256 m.plist_sha256)
      || not (bytes_eq o.wrapper_sha256 m.wrapper_sha256)
      || not (bytes_eq o.mcp_wrapper_sha256 m.mcp_wrapper_sha256)
      || not (bytes_eq o.environment_sha256 m.environment_sha256)
    then some (lifecycle_error ErrorCode.runtime_drift)
    else none

-- `!observed.InstalledPresent || observed.InstalledSHA256 != sha`, negated.
abbrev pub installed_is : Bytes → Observed → Bool
installed_is sha o = o.installed_present && bytes_eq o.installed_sha256 sha

unfoldable pub validate_prepare_observations : Manifest → Observed → Option Error
validate_prepare_observations m o = elim (validate_active_observations m o) [
  | some e ↦ some e
  | none ↦
      if (if m.previous_present
        then not (installed_is m.previous_sha256 o)
        else o.installed_present)
      then some (lifecycle_error ErrorCode.installed_mismatch)
      else validate_runtime m o
]

unfoldable pub validate_acceptance_readiness : Manifest → Observed → Option Error
validate_acceptance_readiness m o = elim (validate_runtime m o) [
  | some e ↦ some e
  | none ↦
      if not (installed_is m.candidate_sha256 o)
      then some (lifecycle_error ErrorCode.installed_mismatch)
      else if o.supervisor_unloaded || not o.runtime_ready
      then some (lifecycle_error ErrorCode.recovery_unconfirmed)
      else none
]

unfoldable pub target_allowed : Manifest → Observed → Bool
target_allowed m o =
    if not o.installed_present
    then not m.previous_present
    else if bytes_eq o.installed_sha256 m.candidate_sha256
    then true
    else m.previous_present && bytes_eq o.installed_sha256 m.previous_sha256

unfoldable pub recovery_confirmed : Manifest → Observed → Bool → Bool
recovery_confirmed m o rollback_ready =
    if m.previous_present
    then rollback_ready
      && o.installed_present
      && bytes_eq o.installed_sha256 m.previous_sha256
      && o.runtime_ready
    else not o.installed_present && o.supervisor_unloaded

abbrev pub prepare_with : Decision → Context → Option Manifest → Decision
prepare_with d c none = reject_with d ErrorCode.state_malformed
prepare_with d c (some m) =
    if not (is_prepared m.state) || not (is_empty c.release_id) && not (bytes_eq c.release_id m.id)
    then reject_with d ErrorCode.identity_mismatch
    else let prepared : Snapshot = record { manifest = some m } in
      checked (validate_snapshot prepared) d (
        checked (validate_prepare_observations m c.observed) d
          (apply_command d prepared CommandKind.publish_prepared))

unfoldable pub decide_prepare : Decision → Context → Decision
unfolding rejected
decide_prepare d c = prepare_with d c c.prepared

unfoldable pub decide_prepared : Decision → Event → Manifest → Observed → Decision
unfolding rejected transition
decide_prepared d Event.resume m o = checked (validate_runtime m o) d (
    if not (target_allowed m o)
    then reject_with d ErrorCode.installed_mismatch
    else apply_command d d.next CommandKind.resume_deployment)
decide_prepared d Event.deployment_ready m o = checked (validate_runtime m o) d (
    if not (installed_is m.candidate_sha256 o)
    then reject_with d ErrorCode.installed_mismatch
    else if not o.runtime_ready
    then reject_with d ErrorCode.recovery_unconfirmed
    else transition d m State.pending CommandKind.persist_state)
decide_prepared d Event.rollback m o = checked (validate_runtime m o) d (
    if not (target_allowed m o)
    then reject_with d ErrorCode.installed_mismatch
    else transition d m State.rolling_back CommandKind.persist_state)
decide_prepared d _ m o = reject_with d ErrorCode.state_conflict

abbrev pub pending_event : Decision → Event → Manifest → Observed → Decision
pending_event d Event.accept m o =
    checked (validate_acceptance_readiness m o) d
      (transition d m State.accepting CommandKind.persist_state)
pending_event d Event.rollback m o =
    checked (validate_runtime m o) d (transition d m State.rolling_back CommandKind.persist_state)
pending_event d _ m o = reject_with d ErrorCode.state_conflict

unfoldable pub decide_pending : Decision → Event → Manifest → Observed → Decision
unfolding rejected transition
decide_pending d e m o =
    if not (installed_is m.candidate_sha256 o)
    then reject_with d ErrorCode.installed_mismatch
    else pending_event d e m o

abbrev pub cleared : Decision → Decision
cleared d = apply_command d (record { manifest = none }) CommandKind.clear_transaction

unfoldable pub decide_accepting : Decision → Manifest → Observed → Decision
unfolding rejected
decide_accepting d m o = checked (validate_acceptance_readiness m o) d (cleared d)

unfoldable pub decide_rolling_back : Decision → Manifest → Observed → Bool → Decision
unfolding rejected
decide_rolling_back d m o rollback_ready = checked (validate_runtime m o) d (
    if not (target_allowed m o)
    then reject_with d ErrorCode.installed_mismatch
    else if recovery_confirmed m o rollback_ready
    then cleared d
    else apply_command d d.next CommandKind.resume_rollback)

-- The `switch m.State` of `Decide`; its default is unreachable after `ValidateSnapshot`.
unfoldable pub decide_active : State → Decision → Event → Manifest → Context → Decision
unfolding rejected
decide_active State.prepared d e m c = decide_prepared d e m c.observed
decide_active State.pending d e m c = decide_pending d e m c.observed
decide_active State.accepting d e m c = decide_accepting d m c.observed
decide_active State.rolling_back d e m c = decide_rolling_back d m c.observed c.rollback_ready
decide_active _ d e m c = reject_with d ErrorCode.state_malformed

abbrev pub decide_held : Decision → Event → Context → Manifest → Decision
decide_held d Event.prepare c m = reject_with d ErrorCode.state_conflict
decide_held d e c m =
    if not (bytes_eq c.release_id m.id)
    then reject_with d ErrorCode.identity_mismatch
    else if not (event_allowed m.state e)
    then reject_with d ErrorCode.state_conflict
    else checked (validate_active_observations m c.observed) d (decide_active m.state d e m c)

abbrev pub decide_clear : Decision → Event → Context → Decision
decide_clear d Event.prepare c = decide_prepare d c
decide_clear d e c = reject_with d ErrorCode.no_pending

abbrev pub decide_slot : Decision → Event → Context → Option Manifest → Decision
decide_slot d e c none = decide_clear d e c
decide_slot d e c (some m) = decide_held d e c m

-- The decision before the event is looked at.
abbrev pub undecided : Snapshot → Decision
undecided s = record { current = s; next = s; commands = []; applied = false; err = none }

unfoldable pub decide : Snapshot → Event → Context → Decision
unfolding rejected
decide s e c = checked (validate_snapshot s) (undecided s) (
    if not (valid_event e)
    then reject_with (undecided s) ErrorCode.state_conflict
    else decide_slot (undecided s) e c s.manifest)
