-- ===== src/Release/Validate.antt =====
-- internal/releaseactivation/model.go: `ValidateSnapshot` and the tests that it makes.
use personal_mcp_gateway.Base.{
  ℕ, suc, Bytes, bytes_eq, codes, ℤ, is_neg, eq_nat, le_nat, gt_nat, Bool, true, false, not, ◌&&◌,
  ◌||◌, Option, none, some, List, [], ◌∷◌, is_empty, all, leb, ltb, if◌then◌else◌,
}
use personal_mcp_gateway.Release.Types.{
  State, ServiceDescriptor, Manifest, Snapshot, Error, ErrorCode, lifecycle_error,
}
use personal_mcp_gateway.Release.Text.{
  valid_sha256, valid_release_id, valid_commit, absolute_paths, valid_launch_agent_label,
}

unfoldable pub valid_manifest_version : ℤ → Bool
valid_manifest_version version = eq_nat version 2 || eq_nat version 3 || eq_nat version 4

unfoldable pub is_active_state : State → Bool
is_active_state State.prepared = true
is_active_state State.pending = true
is_active_state State.accepting = true
is_active_state State.rolling_back = true
is_active_state _ = false

abbrev pub canonical_service_order : List Bytes
canonical_service_order =
    codes "obsidian" ∷ codes "ynab" ∷ codes "obsidian-http" ∷ codes "ynab-http" ∷ []

-- The loop of `canonicalServiceIndex` from place `i` on; `none` is -1.
unfoldable pub index_from : ℕ → List Bytes → Bytes → Option ℕ
unfolding bytes_eq
index_from i [] server = none
index_from i (name ∷ names) server =
    let rest = index_from (suc i) names server in if bytes_eq name server then some i else rest

unfoldable pub canonical_service_index : Bytes → Option ℕ
unfolding index_from
canonical_service_index server = index_from 0 canonical_service_order server

-- `index < 0 || index > maxIndex || index <= cursor`, with a cursor that starts at -1, `none`.
abbrev pub out_of_order : Option ℕ → ℕ → Option ℕ → Bool
out_of_order none max_index cursor = true
out_of_order (some index) max_index none = ltb max_index index
out_of_order (some index) max_index (some c) = ltb max_index index || leb index c

-- The loop of `validServiceOrder`.
unfoldable pub in_order : Option ℕ → ℕ → List ServiceDescriptor → Bool
in_order cursor max_index [] = true
in_order cursor max_index (s ∷ r) =
    let index = canonical_service_index s.server in
    if out_of_order index max_index cursor then false else in_order index max_index r

unfoldable pub valid_service_order : List ServiceDescriptor → ℕ → Bool
valid_service_order [] max_index = false
valid_service_order (s ∷ r) max_index =
    if not (bytes_eq s.server (codes "obsidian")) then false else in_order none max_index (s ∷ r)

unfoldable pub valid_tunnel_service_descriptor : ServiceDescriptor → Bool
valid_tunnel_service_descriptor s =
    valid_launch_agent_label s.launch_agent_label
    && absolute_paths (
        s.plist_path ∷ s.wrapper_path ∷ s.mcp_wrapper_path ∷ s.stdout_path ∷ s.stderr_path
        ∷ s.environment_path ∷ s.health_url_file ∷ [])
    && valid_sha256 s.plist_sha256
    && valid_sha256 s.wrapper_sha256
    && valid_sha256 s.mcp_wrapper_sha256
    && valid_sha256 s.environment_sha256

unfoldable pub valid_http_service_descriptor : ServiceDescriptor → Bool
valid_http_service_descriptor s =
    valid_launch_agent_label s.launch_agent_label
    && absolute_paths (
        s.plist_path ∷ s.wrapper_path ∷ s.stdout_path ∷ s.stderr_path ∷ s.environment_path
        ∷ s.health_url_file ∷ [])
    && is_empty s.mcp_wrapper_path
    && is_empty s.mcp_wrapper_sha256
    && valid_sha256 s.plist_sha256
    && valid_sha256 s.wrapper_sha256
    && valid_sha256 s.environment_sha256

unfoldable pub valid_service_descriptor : ServiceDescriptor → Bool
valid_service_descriptor s =
    if bytes_eq s.server (codes "obsidian") || bytes_eq s.server (codes "ynab")
    then valid_tunnel_service_descriptor s
    else if bytes_eq s.server (codes "obsidian-http") || bytes_eq s.server (codes "ynab-http")
    then valid_http_service_descriptor s
    else false

abbrev pub max_ready_timeout_seconds : ℕ
max_ready_timeout_seconds = 600

abbrev pub max_ready_poll_milliseconds : ℕ
max_ready_poll_milliseconds = 30_000

-- The first `if` of `ValidateSnapshot`; the limits are ten minutes and thirty seconds (runtime.go).
unfoldable pub header_malformed : Manifest → Bool
header_malformed m =
    not (valid_manifest_version m.version)
    || not (is_active_state m.state)
    || not (valid_release_id m.id)
    || not (valid_commit m.commit)
    || not (valid_sha256 m.dependency_sha256)
    || is_empty m.candidate_file
    || not (valid_sha256 m.candidate_sha256)
    || is_empty m.authority_file
    || not (valid_sha256 m.authority_sha256)
    || not (
        absolute_paths (
          m.target_path ∷ m.plist_path ∷ m.wrapper_path ∷ m.mcp_wrapper_path ∷ m.stdout_path
          ∷ m.stderr_path ∷ m.environment_path ∷ m.health_url_file ∷ []))
    || is_neg m.effective_uid
    || not (valid_launch_agent_label m.launch_agent_label)
    || not (valid_sha256 m.plist_sha256)
    || not (valid_sha256 m.wrapper_sha256)
    || not (valid_sha256 m.mcp_wrapper_sha256)
    || not (valid_sha256 m.environment_sha256)
    || le_nat m.ready_timeout_seconds 0
    || gt_nat m.ready_timeout_seconds max_ready_timeout_seconds
    || le_nat m.ready_poll_milliseconds 0
    || gt_nat m.ready_poll_milliseconds max_ready_poll_milliseconds

-- `maxIndex`; `none` is -1.
unfoldable pub max_service_index : ℤ → Option ℕ
max_service_index version =
    if eq_nat version 4 then some 3 else if eq_nat version 3 then some 1 else none

-- The test of a `Services` array.
unfoldable pub services_malformed : Manifest → Bool
services_malformed m = if is_empty m.services then false else elim (max_service_index m.version) [
  | none ↦ true
  | some i ↦ not (valid_service_order m.services i) || not (all valid_service_descriptor m.services)
]

-- The test of the previous artifact.
unfoldable pub previous_malformed : Manifest → Bool
previous_malformed m =
    if m.previous_present
    then is_empty m.previous_file || not (valid_sha256 m.previous_sha256)
    else not (is_empty m.previous_file) || not (is_empty m.previous_sha256)

unfoldable pub manifest_malformed : Manifest → Bool
manifest_malformed m = header_malformed m || services_malformed m || previous_malformed m

abbrev pub malformed_error : Option Manifest → Option Error
malformed_error none = none
malformed_error (some m) =
    if manifest_malformed m then some (lifecycle_error ErrorCode.state_malformed) else none

unfoldable pub validate_snapshot : Snapshot → Option Error
validate_snapshot snapshot = malformed_error snapshot.manifest
