-- ===== src/Release/Manager.antt =====
-- internal/releaseactivation/manager.go: `run`, which `Resume`, `Accept` and `Rollback` call, and all
-- that it calls. Every host effect and every write of the slot is made in the order of the source.
pub mod Effects
pub mod Slot
pub mod Observe
pub mod Finish
pub mod Protocol
pub mod Steps
pub mod Ends
pub mod Runs
pub mod Requests
pub mod Discipline
pub mod Promises
pub mod Admin
use personal_mcp_gateway.Base.{
  ℤ, Bytes, String, bytes_eq, Bool, true, false, not, ◌&&◌, ◌||◌, Option, none, some, List, [], ◌∷◌,
  length, map, is_empty, ltb, if◌then◌else◌,
}
use personal_mcp_gateway.Release.Types.{
  State, Event, ServiceDescriptor, Manifest, Observed, Context, CommandKind, ErrorCode, Error,
  Decision, lifecycle_error,
}
use personal_mcp_gateway.Release.Text.{valid_sha256}
use personal_mcp_gateway.Release.Decide.{is_prepared, event_allowed, decide}
use personal_mcp_gateway.Release.Manager.Effects.{
  StoreError, Failure, Outcome, ok, fail, lifecycle, host_effect, rolled_back, of_store, Host,
  System, Answer, refused, failed_with, answered, acted, on, failing,
}
use personal_mcp_gateway.Release.Manager.Slot.{load, rewrite, clear}
use personal_mcp_gateway.Release.Manager.Observe.{
  service_manifests, decided, command_of, cause_of, observe,
}
use personal_mcp_gateway.Release.Manager.Finish.{
  restart_services, clear_slot, finish_rollback, finish_accept,
}

abbrev pub is_resume : Event → Bool
is_resume Event.resume = true
is_resume _ = false

abbrev pub is_internal : Event → Bool
is_internal Event.deployment_ready = true
is_internal Event.prepare = true
is_internal _ = false

unfoldable pub validate_requested_event : Manifest → Event → Bytes → Option Error
validate_requested_event m event id =
    if not (event_allowed m.state event) || is_internal event
    then some (lifecycle_error ErrorCode.state_conflict)
    else if not (bytes_eq id m.id)
    then some (lifecycle_error ErrorCode.identity_mismatch)
    else none

-- The identity that is asked for; a resume may leave it to the prepared release.
abbrev pub requested_id : Event → Bytes → Bool → Manifest → Bytes
requested_id event id allow_current_id m =
    if allow_current_id && is_empty id && is_resume event && is_prepared m.state then m.id else id

unfoldable pub cause_operation : Failure → String
cause_operation (host_effect operation) = operation
cause_operation _ = "deployment"

module _ {W : Type 0} (host : Host W) (effective_uid : ℤ) (controller_sha256 : Bytes) where
  abbrev pub ended : System W × Answer → Failure → System W × Failure
  ended (s, a) cause = elim a.err [
    | some e ↦ (s, lifecycle (lifecycle_error ErrorCode.recovery_unconfirmed))
    | none ↦ (s, rolled_back (cause_operation cause))
  ]

  abbrev pub lost : System W → System W × Failure
  lost t = (t, lifecycle (lifecycle_error ErrorCode.recovery_unconfirmed))

  -- The rollback of a failed deployment, once it is decided.
  abbrev pub turn_back : Option Manifest → Observed → Failure → System W → System W × Failure
  turn_back none o cause t = lost t
  turn_back (some m) o cause t =
      on (rewrite host effective_uid m t)
        (λ u v. ended (finish_rollback host effective_uid m o v) cause) (λ e v. (v, e))

  abbrev pub turn_back_by :
      Option Error → Option Manifest → Observed → Failure → System W → System W × Failure
  turn_back_by (some e) next o cause t = lost t
  turn_back_by none next o cause t = turn_back next o cause t

  abbrev pub turn_back_decided : Decision → Observed → Failure → System W → System W × Failure
  turn_back_decided d = turn_back_by d.err d.next.manifest

  unfoldable pub rollback_deployment_failure : Manifest → Failure → System W → System W × Failure
  rollback_deployment_failure m cause s =
      on (observe host m s) (λ o. turn_back_decided (decided m Event.rollback m.id o false) o cause)
        (λ e. lost)

  abbrev pub undeployed : {A : Type 0} → Manifest → Failure → System W → System W × Outcome A
  undeployed m cause s = let r = rollback_deployment_failure m cause s in (r.0, fail r.1)

  abbrev pub installed_candidate : Manifest → Observed → Bool
  installed_candidate m o = o.installed_present && bytes_eq o.installed_sha256 m.candidate_sha256

  unfoldable pub install : Manifest → System W → System W × Outcome Unit
  install m s =
      on (acted (host.install_candidate m) s)
        (λ u t.
          on (observe host m t)
            (λ o v.
              if installed_candidate m o
              then (v, ok tt)
              else undeployed m (lifecycle (lifecycle_error ErrorCode.installed_mismatch)) v)
            (undeployed m))
        (undeployed m)

  unfoldable pub resume_deployment : Manifest → Observed → System W → System W × Outcome Unit
  resume_deployment m o s =
      on (if installed_candidate m o then (s, ok tt) else install m s)
        (λ u t.
          on (restart_services host effective_uid (service_manifests m) t) (λ v w. (w, ok tt))
            (undeployed m))
        failing

  abbrev pub answer_failure : Manifest → System W × Failure → System W × Answer
  answer_failure m (s, e) = (s, failed_with (some m) e)

  -- The manifest is written and returned.
  abbrev pub write_next : Manifest → Manifest → System W → System W × Answer
  write_next m next s =
      on (rewrite host effective_uid next s) (λ u t. (t, answered (some next)))
        (λ e t. (t, failed_with (some m) e))

  abbrev pub ready_with :
      Option CommandKind → Option Manifest → Failure → Manifest → System W → System W × Answer
  ready_with (some CommandKind.persist_state) (some next) cause m s = write_next m next s
  ready_with _ _ cause m s = answer_failure m (rollback_deployment_failure m cause s)

  abbrev pub ready_decided : Decision → Manifest → System W → System W × Answer
  ready_decided d =
      ready_with (command_of d) d.next.manifest (cause_of d ErrorCode.recovery_unconfirmed)

  unfoldable pub deploy : Manifest → Bytes → Observed → System W → System W × Answer
  deploy m id o s =
      on (resume_deployment m o s)
        (λ u t.
          on (observe host m t)
            (λ fresh. ready_decided (decided m Event.deployment_ready id fresh false) m)
            (λ e v. answer_failure m (rollback_deployment_failure m e v)))
        (λ e t. (t, failed_with (some m) e))

  abbrev pub persisted : State → Manifest → Bytes → Observed → System W → System W × Answer
  persisted State.rolling_back next id o s = finish_rollback host effective_uid next o s
  persisted State.accepting next id o s = finish_accept host effective_uid next id s
  persisted _ next id o s = (s, refused (some next) ErrorCode.state_conflict)

  abbrev pub persist : Manifest → Option Manifest → Bytes → Observed → System W → System W × Answer
  persist m none id o s = (s, refused (some m) ErrorCode.state_malformed)
  persist m (some next) id o s =
      on (rewrite host effective_uid next s) (λ u. persisted next.state next id o)
        (λ e t. (t, failed_with (some m) e))

  -- The switch on the one command of `run`.
  abbrev pub carry_out :
      Option CommandKind → Decision → Manifest → Bytes → Observed → System W → System W × Answer
  carry_out (some CommandKind.resume_deployment) d m id o s = deploy m id o s
  carry_out (some CommandKind.persist_state) d m id o s = persist m d.next.manifest id o s
  carry_out (some CommandKind.resume_rollback) d m id o s = finish_rollback host effective_uid m o s
  carry_out (some CommandKind.clear_transaction) d m id o s = clear_slot host effective_uid m s
  carry_out _ d m id o s = (s, failed_with (some m) (cause_of d ErrorCode.state_conflict))

  abbrev pub carry_out_decided :
      Decision → Manifest → Bytes → Observed → System W → System W × Answer
  carry_out_decided d = carry_out (command_of d) d

  abbrev pub acquire_failure : Failure → System W → System W × Answer
  acquire_failure (of_store StoreError.busy) s = (s, refused none ErrorCode.busy)
  acquire_failure e s = (s, failed_with none e)

  -- validateCurrentAuthority
  unfoldable pub validate_current_authority : Manifest → System W → System W × Outcome Unit
  validate_current_authority m s =
      let mismatch = fail (lifecycle (lifecycle_error ErrorCode.authority_mismatch)) in
      if not (bytes_eq controller_sha256 m.authority_sha256)
      then (s, mismatch)
      else on (acted host.hash_controller s)
          (λ sha t. if bytes_eq sha controller_sha256 then (t, ok tt) else (t, mismatch))
          (λ e t. (t, mismatch))

  -- `run` after validateRequestedEvent, whose error comes first.
  abbrev pub run_valid : Event → Bytes → Manifest → Option Error → System W → System W × Answer
  run_valid event id m (some e) s = (s, failed_with (some m) (lifecycle e))
  run_valid event id m none s =
      on (acted host.cleanup_orphans s)
        (λ u t.
          on (observe host m t) (λ o. carry_out_decided (decided m event id o false) m id o)
            (λ e v. (v, failed_with (some m) e)))
        (λ e t. (t, failed_with (some m) e))

  unfoldable pub run_authentic : Event → Bytes → Manifest → System W → System W × Answer
  run_authentic event id m = run_valid event id m (validate_requested_event m event id)

  abbrev pub run_loaded : Event → Bytes → Bool → Option Manifest → System W → System W × Answer
  run_loaded event id allow_current_id none s = (s, refused none ErrorCode.no_pending)
  run_loaded event id allow_current_id (some m) s =
      on (validate_current_authority m s)
        (λ u. run_authentic event (requested_id event id allow_current_id m) m)
        (λ e t. (t, failed_with (some m) e))

  -- The run of a manager that has a store, a runtime and the path of its controller.
  unfoldable pub run : Event → Bytes → Bool → System W → System W × Answer
  run event id allow_current_id s =
      if not (valid_sha256 controller_sha256)
      then (s, refused none ErrorCode.state_malformed)
      else on (acted host.lock s)
          (λ u t.
            on (load host effective_uid t) (run_loaded event id allow_current_id)
              (λ e v. (v, failed_with none e)))
          acquire_failure

  unfoldable pub resume : Bytes → System W → System W × Answer
  resume id = run Event.resume id true

  unfoldable pub accept : Bytes → System W → System W × Answer
  accept id s =
      if is_empty id
      then (s, refused none ErrorCode.identity_mismatch)
      else run Event.accept id false s

  unfoldable pub rollback : Bytes → System W → System W × Answer
  rollback id s =
      if is_empty id
      then (s, refused none ErrorCode.identity_mismatch)
      else run Event.rollback id false s
