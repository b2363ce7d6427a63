-- ===== src/Release/Tests/Machine.antt =====
-- Requests to internal/releaseactivation/manager.go on a machine with one target and one service.
use personal_mcp_gateway.Base.{
  pos, Bytes, bytes_eq, Bool, true, false, not, Option, none, some, [], ◌≡◌, refl,
}
use personal_mcp_gateway.Release.Types.{
  State, Event, Manifest, Observed, ErrorCode, lifecycle_error,
}
use personal_mcp_gateway.Release.Manager.Effects.{
  Outcome, ok, fail, lifecycle, host_effect, rolled_back, Fault, Host, System, answered, on,
}
use personal_mcp_gateway.Release.Manager.Slot.{
  validate_manifest, same_but_state, load, rewrite, clear,
}
use personal_mcp_gateway.Release.Manager.Observe.{service_manifests, observe_services, observe}
use personal_mcp_gateway.Release.Manager.Finish.{
  restart_services, unload_services, resume_rollback, clear_slot, recover, finish_rollback,
  finish_accept,
}
use personal_mcp_gateway.Release.Manager.{
  validate_requested_event, cause_operation, rollback_deployment_failure, install,
  resume_deployment, deploy, validate_current_authority, run_authentic, run, resume, accept,
  rollback,
}
use personal_mcp_gateway.Release.Manager.Protocol.{Trace}
use personal_mcp_gateway.Release.Manager.Promises.{
  Continues, IsPassive, run_keeps_protocol, run_tells_truth, run_keeps_release,
  accept_changes_nothing,
}
use personal_mcp_gateway.Release.Manager.Admin.{
  Effect, acquire, status, with_clear, probe, RefusedAlike, with_clear_waits,
}
use personal_mcp_gateway.Release.Tests.{sha, sha_old, in_state, opened}

record Machine : Type 0 where
  target : Option Bytes
  runs : Bool
  -- Whether the candidate comes up.
  healthy : Bool

abbrev is_present : Option Bytes → Bool
is_present none = false
is_present (some x) = true

abbrev hash_of : Option Bytes → Bytes
hash_of none = sha_old
hash_of (some x) = x

abbrev seen_on : Machine → Manifest → Observed
seen_on w m = record {
  candidate_sha256 = m.candidate_sha256;
  authority_artifact_sha256 = m.authority_sha256;
  controller_sha256 = m.authority_sha256;
  previous_sha256 = m.previous_sha256;
  installed_present = is_present w.target;
  installed_sha256 = hash_of w.target;
  plist_sha256 = m.plist_sha256;
  wrapper_sha256 = m.wrapper_sha256;
  mcp_wrapper_sha256 = m.mcp_wrapper_sha256;
  environment_sha256 = m.environment_sha256;
  runtime_ready = w.runs;
  supervisor_unloaded = not w.runs;
}

-- A service comes up if it runs the previous release or a healthy candidate.
abbrev ready_on : Machine → Outcome Unit
ready_on w = elim w.healthy [
  | true ↦ ok tt
  | false ↦ elim (bytes_eq (hash_of w.target) sha) [
    | true ↦ fail (host_effect "readiness")
    | false ↦ ok tt
  ]
]

abbrev one : Host Machine
one = record {
  observe = λ m w. (w, ok (seen_on w m));
  install_candidate = λ m w. (record w { target = some m.candidate_sha256; runs = false }, ok tt);
  restart = λ m w. (record w { runs = true }, ok tt);
  wait_ready = λ m w. (w, ready_on w);
  restore_previous = λ m w. (record w { target = some m.previous_sha256; runs = false }, ok tt);
  bootout = λ m w. (record w { runs = false }, ok tt);
  confirm_unloaded = λ m w. (w, ok (not w.runs));
  remove_target = λ m w. (record w { target = none }, ok tt);
  hash_controller = λ w. (w, ok sha);
  lock = λ w. (w, ok tt);
  read_active = λ w. (w, ok tt);
  cleanup_orphans = λ w. (w, ok tt);
  write_fault = λ w. (w, Fault.clean);
}

abbrev system : Option Bytes → Bool → State → System Machine
system target healthy state = record {
  host = record { target = target; runs = true; healthy = healthy };
  slot = some (in_state state);
}

-- To unfold `manager` is to unfold the manager.
manager : Unit {0}
unfolding opened on validate_manifest same_but_state load rewrite clear service_manifests
    observe_services observe restart_services unload_services resume_rollback clear_slot recover
    finish_rollback finish_accept validate_requested_event cause_operation
    rollback_deployment_failure install resume_deployment deploy validate_current_authority
    run_authentic run resume accept rollback acquire status with_clear probe
manager = tt

-- A prepared release is deployed and waits for its acceptance.
resume_deploys :
    let r = resume one (pos 501) sha [] (system (some sha_old) true State.prepared) in
    (r.0.host.target ≡ some sha)
    × (r.0.slot ≡ some (in_state State.pending))
    × (r.1 ≡ answered (some (in_state State.pending)))
unfolding manager
resume_deploys = (refl, refl, refl)

-- A candidate that does not come up is rolled back at once.
resume_rolls_back :
    let r = resume one (pos 501) sha [] (system (some sha_old) false State.prepared) in
    (r.0.host.target ≡ some sha_old)
    × (r.0.slot ≡ none)
    × (r.1.err ≡ some (rolled_back "readiness"))
unfolding manager
resume_rolls_back = (refl, refl, refl)

accept_clears :
    let r = accept one (pos 501) sha sha (system (some sha) true State.pending) in
    (r.0.slot ≡ none) × (r.1 ≡ answered none)
unfolding manager
accept_clears = (refl, refl)

-- A rollback that was interrupted is taken up again.
rollback_resumes :
    let r = rollback one (pos 501) sha sha (system (some sha) false State.rolling_back) in
    (r.0.host.target ≡ some sha_old) × (r.0.slot ≡ none) × (r.1 ≡ answered none)
unfolding manager
rollback_resumes = (refl, refl, refl)

accepting_is_not_rolled_back :
    (rollback one (pos 501) sha sha (system (some sha) true State.accepting)).1.err
    ≡ some (lifecycle (lifecycle_error ErrorCode.state_conflict))
unfolding manager
accepting_is_not_rolled_back = refl

abbrev pending : System Machine
pending = system (some sha) true State.pending

run_keeps_protocol_example :
    Trace one Event.rollback pending (run one (pos 501) sha Event.rollback sha false pending).0
run_keeps_protocol_example = run_keeps_protocol one (pos 501) sha Event.rollback sha false pending

no_error : (run one (pos 501) sha Event.rollback sha false pending).1.err ≡ none
unfolding manager
no_error = refl

run_tells_truth_example :
    (run one (pos 501) sha Event.rollback sha false pending).0.slot
    ≡ (run one (pos 501) sha Event.rollback sha false pending).1.manifest
run_tells_truth_example =
    run_tells_truth one (pos 501) sha Event.rollback sha false pending no_error

run_keeps_release_example :
    Continues
      (some (in_state State.pending))
      (run one (pos 501) sha Event.rollback sha false pending).0.slot
run_keeps_release_example = run_keeps_release one (pos 501) sha Event.rollback sha false pending

abbrev HasCandidate : Machine → Type 0
HasCandidate w = w.target ≡ some sha

looking : IsPassive one HasCandidate
looking = record {
  look = λ x w p. p;
  lock = λ w p. p;
  read = λ w p. p;
  hash = λ w p. p;
  tidy = λ w p. p;
  try = λ w p. p;
}

accept_changes_nothing_example : HasCandidate (accept one (pos 501) sha sha pending).0.host
accept_changes_nothing_example =
    accept_changes_nothing one (pos 501) sha HasCandidate sha pending looking refl

-- An effect that takes the target away.
abbrev removing : Effect one (pos 501) sha
removing = some (λ w. (record w { target = none }, ok tt))

with_clear_runs :
    let clear_system : System Machine = record pending { slot = none } in
    let r = with_clear one (pos 501) sha removing clear_system in
    (r.0.host.target ≡ none) × (r.1 ≡ ok tt)
unfolding manager
with_clear_runs = (refl, refl)

status_answers : (status one (pos 501) sha pending).1 ≡ answered (some (in_state State.pending))
unfolding manager
status_answers = refl

probe_runs : (probe one (pos 501) sha removing pending).0.host.target ≡ none
unfolding manager
probe_runs = refl

with_clear_waits_example :
    RefusedAlike one
      (pos 501)
      sha
      (in_state State.pending)
      (with_clear one (pos 501) sha removing pending)
      (with_clear one (pos 501) sha none pending)
with_clear_waits_example =
    with_clear_waits one (pos 501) sha removing none (in_state State.pending) pending refl
