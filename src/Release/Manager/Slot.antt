-- ===== src/Release/Manager/Slot.antt =====
-- internal/releaseactivation/store.go: the checks of `Load`, `Rewrite` and `Clear` of a locked store on
-- the one active manifest. What may fail in the file system is the host's.
use personal_mcp_gateway.Base.{
  same_bool, ℤ, pos, negsuc, Bytes, bytes_eq, codes, Bool, true, false, not, ◌&&◌, ◌||◌, Option,
  none, some, List, [], ◌∷◌, is_empty, eq_nat, ◌==◌, if◌then◌else◌,
}
use personal_mcp_gateway.Release.Types.{State, ServiceDescriptor, Manifest}
use personal_mcp_gateway.Release.Text.{valid_sha256, valid_release_id, valid_launch_agent_label}
use personal_mcp_gateway.Release.Validate.{validate_snapshot}
use personal_mcp_gateway.Release.Manager.Effects.{
  StoreError, Outcome, ok, fail, of_store, Fault, Host, System, acted, on, failing,
}

abbrev pub candidate_file_name : Bytes
candidate_file_name = codes "candidate"

abbrev pub authority_file_name : Bytes
authority_file_name = codes "authority"

abbrev pub previous_file_name : Bytes
previous_file_name = codes "previous"

abbrev pub int_eq : ℤ → ℤ → Bool
int_eq (pos a) (pos b) = a == b
int_eq (negsuc a) (negsuc b) = a == b
int_eq _ _ = false

abbrev pub is_clear : State → Bool
is_clear State.clear = true
is_clear _ = false

unfoldable pub validate_manifest : Manifest → ℤ → Option StoreError
validate_manifest m effective_uid =
    if not (eq_nat m.version 4)
      || (is_clear m.state || not (valid_release_id m.id))
      || not (int_eq m.effective_uid effective_uid)
      || not (valid_launch_agent_label m.launch_agent_label)
      || (not (valid_sha256 m.candidate_sha256) || not (valid_sha256 m.authority_sha256))
      || (not (bytes_eq m.candidate_file candidate_file_name)
          || not (bytes_eq m.authority_file authority_file_name))
      || (if m.previous_present
          then not (bytes_eq m.previous_file previous_file_name)
            || not (valid_sha256 m.previous_sha256)
          else not (is_empty m.previous_file) || not (is_empty m.previous_sha256))
    then some StoreError.malformed
    else elim (validate_snapshot (record { manifest = some m })) [
      | some e ↦ some StoreError.malformed
      | none ↦ none
    ]

abbrev pub same_service : ServiceDescriptor → ServiceDescriptor → Bool
same_service a b =
    bytes_eq a.server b.server
    && bytes_eq a.launch_agent_label b.launch_agent_label
    && bytes_eq a.plist_path b.plist_path
    && bytes_eq a.plist_sha256 b.plist_sha256
    && bytes_eq a.wrapper_path b.wrapper_path
    && bytes_eq a.wrapper_sha256 b.wrapper_sha256
    && bytes_eq a.mcp_wrapper_path b.mcp_wrapper_path
    && bytes_eq a.mcp_wrapper_sha256 b.mcp_wrapper_sha256
    && bytes_eq a.stdout_path b.stdout_path
    && bytes_eq a.stderr_path b.stderr_path
    && bytes_eq a.environment_path b.environment_path
    && bytes_eq a.environment_sha256 b.environment_sha256
    && bytes_eq a.health_url_file b.health_url_file

abbrev pub same_services : List ServiceDescriptor → List ServiceDescriptor → Bool
same_services [] [] = true
same_services (a ∷ r) (b ∷ s) = same_service a b && same_services r s
same_services _ _ = false

-- reflect.DeepEqual of two manifests, the first with the state of the second.
unfoldable pub same_but_state : Manifest → Manifest → Bool
same_but_state a b =
    int_eq a.version b.version
    && bytes_eq a.id b.id
    && bytes_eq a.commit b.commit
    && bytes_eq a.dependency_sha256 b.dependency_sha256
    && bytes_eq a.candidate_file b.candidate_file
    && bytes_eq a.candidate_sha256 b.candidate_sha256
    && bytes_eq a.authority_file b.authority_file
    && bytes_eq a.authority_sha256 b.authority_sha256
    && same_bool a.previous_present b.previous_present
    && bytes_eq a.previous_file b.previous_file
    && bytes_eq a.previous_sha256 b.previous_sha256
    && bytes_eq a.target_path b.target_path
    && int_eq a.effective_uid b.effective_uid
    && bytes_eq a.launch_agent_label b.launch_agent_label
    && bytes_eq a.plist_path b.plist_path
    && bytes_eq a.plist_sha256 b.plist_sha256
    && bytes_eq a.wrapper_path b.wrapper_path
    && bytes_eq a.wrapper_sha256 b.wrapper_sha256
    && bytes_eq a.mcp_wrapper_path b.mcp_wrapper_path
    && bytes_eq a.mcp_wrapper_sha256 b.mcp_wrapper_sha256
    && bytes_eq a.stdout_path b.stdout_path
    && bytes_eq a.stderr_path b.stderr_path
    && bytes_eq a.environment_path b.environment_path
    && bytes_eq a.environment_sha256 b.environment_sha256
    && bytes_eq a.health_url_file b.health_url_file
    && int_eq a.ready_timeout_seconds b.ready_timeout_seconds
    && int_eq a.ready_poll_milliseconds b.ready_poll_milliseconds
    && same_services a.services b.services

-- What `loadActive` makes of the manifest that the files hold.
abbrev pub loaded : ℤ → Option Manifest → Outcome (Option Manifest)
loaded effective_uid none = ok none
loaded effective_uid (some m) = elim (validate_manifest m effective_uid) [
  | some e ↦ fail (of_store e)
  | none ↦ ok (some m)
]

-- The checks of `Rewrite` and `Clear` on what `loadActive` gives.
abbrev pub rewrite_refusal : ℤ → Manifest → Option Manifest → Option StoreError
rewrite_refusal effective_uid m none = some StoreError.conflict
rewrite_refusal effective_uid m (some current) =
    if not (same_but_state m current)
    then some StoreError.conflict
    else validate_manifest m effective_uid

abbrev pub clear_refusal : Bytes → Option Manifest → Option StoreError
clear_refusal id none = some StoreError.conflict
clear_refusal id (some current) =
    if not (bytes_eq current.id id) then some StoreError.conflict else none

module _ {W : Type 0} (host : Host W) (effective_uid : ℤ) where
  unfoldable pub load : System W → System W × Outcome (Option Manifest)
  load s = on (acted host.read_active s) (λ u t. (t, loaded effective_uid t.slot)) failing

  abbrev pub published : Option Manifest → Fault → System W → System W × Outcome Unit
  published next Fault.clean s = (record s { slot = next }, ok tt)
  published next (Fault.before e) s = (s, fail (of_store e))
  published next (Fault.after e) s = (record s { slot = next }, fail (of_store e))

  -- The rename that publishes a manifest or clears the slot, where nothing is refused before.
  abbrev pub publish : Option StoreError → Option Manifest → System W → System W × Outcome Unit
  publish (some e) next s = (s, fail (of_store e))
  publish none next s =
      let r = host.write_fault s.host in published next r.1 (record s { host = r.0 })

  unfoldable pub rewrite : Manifest → System W → System W × Outcome Unit
  rewrite m s =
      on (load s) (λ current t. publish (rewrite_refusal effective_uid m current) (some m) t)
        failing

  unfoldable pub clear : Bytes → System W → System W × Outcome Unit
  clear id s = on (load s) (λ current t. publish (clear_refusal id current) none t) failing
