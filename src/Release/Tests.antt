-- ===== src/Release/Tests.antt =====
-- One release of internal/releaseactivation, from its publication to its end.
mod Machine
use personal_mcp_gateway.Base.{
  cons_head, split, pos, Bytes, bytes_eq, codes, true, false, none, some, List, [], ◌∷◌, ◌≡◌, ◌≢◌,
  ◌↔◌, ◌⊎◌, ◌<◌, ◌≤◌, All, length, refl,
}
use personal_mcp_gateway.Release.Types.{
  State, Event, Manifest, Snapshot, Observed, Context, CommandKind, ServiceDescriptor,
}
use personal_mcp_gateway.Release.Text.{
  hex_value, hex_digit, decode_hex, encode_hex, valid_sha256, valid_release_id, valid_commit,
  absolute_paths, ascii_alpha_numeric, drop_slashes, take_element, base_name, segment_ok,
  valid_launch_agent_label,
}
use personal_mcp_gateway.Release.Text.Hex.{IsLowerHex, valid_sha256_iff, valid_commit_iff}
use personal_mcp_gateway.Release.Text.Label.{IsLabelByte, valid_launch_agent_label-IsSafe}
use personal_mcp_gateway.Release.Validate.{
  valid_manifest_version, is_active_state, index_from, canonical_service_index, in_order,
  valid_service_order, valid_tunnel_service_descriptor, valid_http_service_descriptor,
  valid_service_descriptor, header_malformed, max_service_index, services_malformed,
  previous_malformed, manifest_malformed, validate_snapshot,
}
use personal_mcp_gateway.Release.Decide.{
  valid_event, event_allowed, transition, validate_active_observations, validate_runtime,
  validate_acceptance_readiness, target_allowed, recovery_confirmed, decide_prepare,
  decide_prepared, decide_pending, decide_accepting, decide_rolling_back, decide_active, decide,
}
use personal_mcp_gateway.Release.Decide.Moves.{Issues, Move}
use personal_mcp_gateway.Release.Decide.Exact.{decide_exact}
use personal_mcp_gateway.Release.Decide.Settles.{IsSettled, decide_settles}
use personal_mcp_gateway.Release.Decide.Keeps.{
  StillHolds, ClearsSafely, follow, decide_keeps_valid, follow_one_release, decide-ClearsSafely,
}

abbrev sha : Bytes
sha = codes "00112233445566778899aabbccddeeff00112233445566778899aabbccddeeff"

abbrev sha_old : Bytes
sha_old = codes "ff112233445566778899aabbccddeeff00112233445566778899aabbccddeeff"

abbrev path : Bytes
path = codes "/opt/gateway"

abbrev label : Bytes
label = codes "com.example.gateway-1"

abbrev service : ServiceDescriptor
service = record {
  server = codes "obsidian";
  launch_agent_label = label;
  plist_path = path;
  plist_sha256 = sha;
  wrapper_path = path;
  wrapper_sha256 = sha;
  mcp_wrapper_path = path;
  mcp_wrapper_sha256 = sha;
  stdout_path = path;
  stderr_path = path;
  environment_path = path;
  environment_sha256 = sha;
  health_url_file = path;
}

abbrev release : Manifest
release = record {
  version = pos 4;
  state = State.prepared;
  id = sha;
  commit = sha;
  dependency_sha256 = sha;
  candidate_file = codes "candidate";
  candidate_sha256 = sha;
  authority_file = codes "authority";
  authority_sha256 = sha;
  previous_present = true;
  previous_file = codes "previous";
  previous_sha256 = sha_old;
  target_path = path;
  effective_uid = pos 501;
  launch_agent_label = label;
  plist_path = path;
  plist_sha256 = sha;
  wrapper_path = path;
  wrapper_sha256 = sha;
  mcp_wrapper_path = path;
  mcp_wrapper_sha256 = sha;
  stdout_path = path;
  stderr_path = path;
  environment_path = path;
  environment_sha256 = sha;
  health_url_file = path;
  ready_timeout_seconds = pos 60;
  ready_poll_milliseconds = pos 250;
  services = service ∷ [];
}

abbrev in_state : State → Manifest
in_state s = record release { state = s }

abbrev slot : Manifest → Snapshot
slot m = record { manifest = some m }

-- The candidate is installed and serves.
abbrev serving : Observed
serving = record {
  candidate_sha256 = sha;
  authority_artifact_sha256 = sha;
  controller_sha256 = sha;
  previous_sha256 = sha_old;
  installed_present = true;
  installed_sha256 = sha;
  plist_sha256 = sha;
  wrapper_sha256 = sha;
  mcp_wrapper_sha256 = sha;
  environment_sha256 = sha;
  runtime_ready = true;
  supervisor_unloaded = false;
}

abbrev asked : Context
asked = record { release_id = sha; prepared = none; observed = serving; rollback_ready = false }

-- To unfold `opened` is to unfold the program.
opened : Unit {0}
unfolding validate_snapshot manifest_malformed header_malformed services_malformed
    previous_malformed valid_manifest_version is_active_state valid_release_id valid_commit
    valid_sha256 decode_hex hex_value encode_hex hex_digit bytes_eq absolute_paths
    valid_launch_agent_label base_name drop_slashes take_element split segment_ok
    ascii_alpha_numeric max_service_index valid_service_order in_order canonical_service_index
    index_from valid_service_descriptor valid_tunnel_service_descriptor
    valid_http_service_descriptor valid_event event_allowed transition validate_active_observations
    validate_runtime validate_acceptance_readiness target_allowed recovery_confirmed decide_prepare
    decide_prepared decide_pending decide_accepting decide_rolling_back decide_active decide
opened = tt

well_formed : validate_snapshot (slot release) ≡ none
unfolding opened
well_formed = refl

-- A label with an empty segment, a separator or a dash at the end of a segment does not pass.
bad_labels :
    (valid_launch_agent_label (codes "a..b") ≡ false)
    × (valid_launch_agent_label (codes "a/b") ≡ false)
    × (valid_launch_agent_label (codes "a-.b") ≡ false)
unfolding opened
bad_labels = (refl, refl, refl)

accepts :
    Issues
      (decide (slot (in_state State.pending)) Event.accept asked)
      CommandKind.persist_state
      (some (in_state State.accepting))
unfolding opened
accepts = (refl, refl, refl, refl)

decide_exact_example :
    Issues
      (decide (slot (in_state State.pending)) Event.accept asked)
      CommandKind.persist_state
      (some (in_state State.accepting))
    ↔ Move asked
        (some (in_state State.pending))
        Event.accept
        CommandKind.persist_state
        (some (in_state State.accepting))
decide_exact_example =
    decide_exact (slot (in_state State.pending)) Event.accept asked CommandKind.persist_state
      (some (in_state State.accepting))

decide_keeps_valid_example :
    validate_snapshot (decide (slot release) Event.rollback asked).next ≡ none
decide_keeps_valid_example = decide_keeps_valid (slot release) Event.rollback asked well_formed

abbrev events : List (Event × Context)
events = (Event.rollback, asked) ∷ (Event.accept, asked) ∷ []

follow_one_release_example :
    (follow (some release) events ≡ none) ⊎ StillHolds release (follow (some release) events)
follow_one_release_example = follow_one_release release events

finished : (decide (slot (in_state State.accepting)) Event.accept asked).next.manifest ≡ none
unfolding opened
finished = refl

decide-ClearsSafely_example : ClearsSafely (in_state State.accepting) Event.accept asked
decide-ClearsSafely_example =
    decide-ClearsSafely (in_state State.accepting) Event.accept asked finished

label_passes : valid_launch_agent_label label ≡ true
unfolding opened
label_passes = refl

valid_launch_agent_label-IsSafe_example :
    (0 < length label)
    × (length label ≤ 255)
    × All IsLabelByte label
    × ((r : Bytes) → label ≢ b'.' ∷ r)
valid_launch_agent_label-IsSafe_example = valid_launch_agent_label-IsSafe label label_passes
