-- ===== src/Release/Types.antt =====
-- internal/releaseactivation/types.go: the data of one release transaction.
use personal_mcp_gateway.Base.{Bytes, String, ℤ, Bool, Option, List}

-- `State` is a Go string: `other` is any string that is none of the constants.
pub data State : Type 0 where
  clear prepared pending accepting rolling_back : State
  other : Bytes → State

pub data Event : Type 0 where
  prepare resume deployment_ready accept rollback : Event
  other : Bytes → Event

pub record ServiceDescriptor : Type 0 where
  pub server : Bytes
  pub launch_agent_label : Bytes
  pub plist_path : Bytes
  pub plist_sha256 : Bytes
  pub wrapper_path : Bytes
  pub wrapper_sha256 : Bytes
  pub mcp_wrapper_path : Bytes
  pub mcp_wrapper_sha256 : Bytes
  pub stdout_path : Bytes
  pub stderr_path : Bytes
  pub environment_path : Bytes
  pub environment_sha256 : Bytes
  pub health_url_file : Bytes

pub record Manifest : Type 0 where
  pub version : ℤ
  pub state : State
  pub id : Bytes
  pub commit : Bytes
  pub dependency_sha256 : Bytes
  pub candidate_file : Bytes
  pub candidate_sha256 : Bytes
  pub authority_file : Bytes
  pub authority_sha256 : Bytes
  pub previous_present : Bool
  pub previous_file : Bytes
  pub previous_sha256 : Bytes
  pub target_path : Bytes
  pub effective_uid : ℤ
  pub launch_agent_label : Bytes
  pub plist_path : Bytes
  pub plist_sha256 : Bytes
  pub wrapper_path : Bytes
  pub wrapper_sha256 : Bytes
  pub mcp_wrapper_path : Bytes
  pub mcp_wrapper_sha256 : Bytes
  pub stdout_path : Bytes
  pub stderr_path : Bytes
  pub environment_path : Bytes
  pub environment_sha256 : Bytes
  pub health_url_file : Bytes
  pub ready_timeout_seconds : ℤ
  pub ready_poll_milliseconds : ℤ
  pub services : List ServiceDescriptor

-- `none` is the nil manifest of a clear slot.
pub record Snapshot : Type 0 where
  pub manifest : Option Manifest

pub record Observed : Type 0 where
  pub candidate_sha256 : Bytes
  pub authority_artifact_sha256 : Bytes
  pub controller_sha256 : Bytes
  pub previous_sha256 : Bytes
  pub installed_present : Bool
  pub installed_sha256 : Bytes
  pub plist_sha256 : Bytes
  pub wrapper_sha256 : Bytes
  pub mcp_wrapper_sha256 : Bytes
  pub environment_sha256 : Bytes
  pub runtime_ready : Bool
  pub supervisor_unloaded : Bool

pub record Context : Type 0 where
  pub release_id : Bytes
  pub prepared : Option Manifest
  pub observed : Observed
  pub rollback_ready : Bool

pub data CommandKind : Type 0 where
  publish_prepared persist_state resume_deployment resume_rollback clear_transaction : CommandKind

pub data ErrorCode : Type 0 where
  no_pending busy identity_mismatch authority_mismatch installed_mismatch : ErrorCode
  state_malformed artifact_mismatch runtime_drift state_conflict : ErrorCode
  recovery_unconfirmed host_effect_failed rolled_back update_failed : ErrorCode
  other : Bytes → ErrorCode

pub record Error : Type 0 where
  pub code : ErrorCode
  pub message : String

pub record Decision : Type 0 where
  pub current : Snapshot
  pub next : Snapshot
  pub commands : List CommandKind
  pub applied : Bool
  pub err : Option Error

unfoldable pub error_message : ErrorCode → String
error_message ErrorCode.no_pending = "no unresolved release exists"
error_message ErrorCode.busy = "release state is busy"
error_message ErrorCode.identity_mismatch = "release identity does not match"
error_message ErrorCode.authority_mismatch = "release controller identity does not match"
error_message ErrorCode.installed_mismatch = "installed target does not match release state"
error_message ErrorCode.state_malformed = "release state is malformed"
error_message ErrorCode.artifact_mismatch = "release artifact does not match"
error_message ErrorCode.runtime_drift = "supervised runtime configuration changed"
error_message ErrorCode.state_conflict = "event conflicts with release state"
error_message ErrorCode.recovery_unconfirmed = "recovery could not be confirmed"
error_message ErrorCode.host_effect_failed = "a host effect failed"
error_message ErrorCode.rolled_back = "candidate failed; previous runtime restored"
error_message ErrorCode.update_failed = "update precondition or fast-forward check failed"
error_message (ErrorCode.other s) = "release operation failed"

unfoldable pub lifecycle_error : ErrorCode → Error
lifecycle_error code = record { code = code; message = error_message code }
