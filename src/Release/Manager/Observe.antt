-- ===== src/Release/Manager/Observe.antt =====
-- internal/releaseactivation/manager.go: what is observed of a release and its services, and the command
-- of the decision about it.
use personal_mcp_gateway.Base.{
  Bytes, bytes_eq, Bool, ◌&&◌, Option, none, some, List, [], ◌∷◌, length, map, is_empty, ltb,
  if◌then◌else◌,
}
use personal_mcp_gateway.Release.Types.{
  Event, ServiceDescriptor, Manifest, Observed, CommandKind, ErrorCode, Decision, lifecycle_error,
}
use personal_mcp_gateway.Release.Decide.{decide}
use personal_mcp_gateway.Release.Manager.Effects.{
  Failure, Outcome, ok, fail, lifecycle, Host, System, acted, on, failing,
}

-- The manifest of one service: that of the release with the fields of the descriptor.
abbrev pub service_manifest : Manifest → ServiceDescriptor → Manifest
service_manifest m d = record m {
  launch_agent_label = d.launch_agent_label;
  plist_path = d.plist_path;
  plist_sha256 = d.plist_sha256;
  wrapper_path = d.wrapper_path;
  wrapper_sha256 = d.wrapper_sha256;
  mcp_wrapper_path = d.mcp_wrapper_path;
  mcp_wrapper_sha256 = d.mcp_wrapper_sha256;
  stdout_path = d.stdout_path;
  stderr_path = d.stderr_path;
  environment_path = d.environment_path;
  environment_sha256 = d.environment_sha256;
  health_url_file = d.health_url_file;
}

unfoldable pub service_manifests : Manifest → List Manifest
service_manifests m = if is_empty m.services then m ∷ [] else map (service_manifest m) m.services

abbrev pub after_first : List Manifest → List Manifest
after_first [] = []
after_first (x ∷ r) = r

abbrev pub decided : Manifest → Event → Bytes → Observed → Bool → Decision
decided m event id observed rollback_ready =
    decide (record { manifest = some m }) event
      (record {
        release_id = id;
        prepared = none;
        observed = observed;
        rollback_ready = rollback_ready;
      })

-- The one command of a decision without an error.
abbrev pub only : List CommandKind → Option CommandKind
only (k ∷ []) = some k
only _ = none

abbrev pub command_of : Decision → Option CommandKind
command_of d = elim d.err [ none ↦ only d.commands | some e ↦ none ]

-- The error of a decision, or another where it has none.
abbrev pub cause_of : Decision → ErrorCode → Failure
cause_of d code = elim d.err [ none ↦ lifecycle (lifecycle_error code) | some e ↦ lifecycle e ]

abbrev pub service_matches : Manifest → Observed → Bool
service_matches service o =
    bytes_eq o.plist_sha256 service.plist_sha256
    && bytes_eq o.wrapper_sha256 service.wrapper_sha256
    && bytes_eq o.mcp_wrapper_sha256 service.mcp_wrapper_sha256
    && bytes_eq o.environment_sha256 service.environment_sha256

abbrev pub joined : Observed → Observed → Observed
joined o service = record o {
  runtime_ready = o.runtime_ready && service.runtime_ready;
  supervisor_unloaded = o.supervisor_unloaded && service.supervisor_unloaded;
}

module _ {W : Type 0} (host : Host W) where
  unfoldable pub observe_services :
      List Manifest → Observed → System W → System W × Outcome Observed
  observe_services [] o s = (s, ok o)
  observe_services (service ∷ r) o s =
      on (acted (host.observe service) s)
        (λ seen t.
          let rest = observe_services r (joined o seen) t in
          if service_matches service seen
          then rest
          else (t, fail (lifecycle (lifecycle_error ErrorCode.runtime_drift))))
        failing

  unfoldable pub observe : Manifest → System W → System W × Outcome Observed
  observe m s =
      on (acted (host.observe m) s)
        (λ o t.
          if ltb (length m.services) 2
          then (t, ok o)
          else observe_services (after_first (service_manifests m)) o t)
        failing
