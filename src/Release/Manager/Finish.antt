-- ===== src/Release/Manager/Finish.antt =====
-- internal/releaseactivation/manager.go: the end of a release, by recovery or by acceptance.
use personal_mcp_gateway.Base.{
  ℤ, Bytes, bytes_eq, Bool, true, false, not, ◌||◌, Option, none, some, List, [], ◌∷◌,
  if◌then◌else◌,
}
use personal_mcp_gateway.Release.Types.{
  Event, Manifest, Observed, CommandKind, ErrorCode, Decision, lifecycle_error,
}
use personal_mcp_gateway.Release.Manager.Effects.{
  Outcome, ok, fail, lifecycle, Host, System, Answer, refused, failed_with, answered, acted, on,
  failing,
}
use personal_mcp_gateway.Release.Manager.Slot.{clear}
use personal_mcp_gateway.Release.Manager.Observe.{
  service_manifests, decided, command_of, cause_of, observe,
}

module _ {W : Type 0} (host : Host W) (effective_uid : ℤ) where
  -- The loop over the services that restarts each and waits for it.
  unfoldable pub restart_services : List Manifest → System W → System W × Outcome Unit
  restart_services [] s = (s, ok tt)
  restart_services (service ∷ r) s =
      on (acted (host.restart service) s)
        (λ u t. on (acted (host.wait_ready service) t) (λ v. restart_services r) failing) failing

  abbrev pub unconfirmed : {A : Type 0} → System W → System W × Outcome A
  unconfirmed t = (t, fail (lifecycle (lifecycle_error ErrorCode.recovery_unconfirmed)))

  -- The loop over the services that unloads each and confirms it.
  unfoldable pub unload_services : List Manifest → System W → System W × Outcome Unit
  unload_services [] s = (s, ok tt)
  unload_services (service ∷ r) s =
      on (acted (host.bootout service) s)
        (λ u t.
          on (acted (host.confirm_unloaded service) t)
            (λ unloaded v.
              let rest = unload_services r v in if unloaded then rest else unconfirmed v)
            (λ e. unconfirmed))
        failing

  unfoldable pub resume_rollback : Manifest → Observed → System W → System W × Outcome Bool
  resume_rollback m o s =
      if m.previous_present
      then on
          (if not o.installed_present || not (bytes_eq o.installed_sha256 m.previous_sha256)
            then acted (host.restore_previous m) s
            else (s, ok tt))
          (λ u t. on (restart_services (service_manifests m) t) (λ v w. (w, ok true)) failing)
          failing
      else on (unload_services (service_manifests m) s)
          (λ u t.
            if o.installed_present
            then on (acted (host.remove_target m) t) (λ v w. (w, ok false)) failing
            else (t, ok false))
          failing

  unfoldable pub clear_slot : Manifest → System W → System W × Answer
  clear_slot m s =
      on (clear host effective_uid m.id s) (λ u t. (t, answered none))
        (λ e t. (t, failed_with (some m) e))

  abbrev pub not_confirmed : Manifest → System W → System W × Answer
  not_confirmed m t = (t, refused (some m) ErrorCode.recovery_unconfirmed)

  abbrev pub clear_if : Option CommandKind → Manifest → System W → System W × Answer
  clear_if (some CommandKind.clear_transaction) m s = clear_slot m s
  clear_if _ m s = not_confirmed m s

  unfoldable pub recover : Manifest → Observed → System W → System W × Answer
  recover m o s =
      on (resume_rollback m o s)
        (λ ready t.
          on (observe host m t)
            (λ fresh. clear_if (command_of (decided m Event.rollback m.id fresh ready)) m)
            (λ e. not_confirmed m))
        (λ e. not_confirmed m)

  abbrev pub finish_with : Option CommandKind → Manifest → Observed → System W → System W × Answer
  finish_with (some CommandKind.clear_transaction) m o s = clear_slot m s
  finish_with (some CommandKind.resume_rollback) m o s = recover m o s
  finish_with _ m o s = not_confirmed m s

  unfoldable pub finish_rollback : Manifest → Observed → System W → System W × Answer
  finish_rollback m o = finish_with (command_of (decided m Event.rollback m.id o false)) m o

  abbrev pub accept_with : Option CommandKind → Decision → Manifest → System W → System W × Answer
  accept_with (some CommandKind.clear_transaction) d m s = clear_slot m s
  accept_with _ d m s = (s, failed_with (some m) (cause_of d ErrorCode.recovery_unconfirmed))

  abbrev pub accept_decided : Decision → Manifest → System W → System W × Answer
  accept_decided d = accept_with (command_of d) d

  unfoldable pub finish_accept : Manifest → Bytes → System W → System W × Answer
  finish_accept m id s =
      on (observe host m s) (λ fresh. accept_decided (decided m Event.accept id fresh false) m)
        (λ e t. (t, failed_with (some m) e))
