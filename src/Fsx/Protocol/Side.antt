-- ===== src/Fsx/Protocol/Side.antt =====
-- internal/fsx/mutation_protocol.go: what one side sends and accepts.
use personal_mcp_gateway.Base.{
  ℕ, eq_nat, Bool, true, false, not, ◌&&◌, ◌||◌, Option, none, some, is_empty, leb, ◌==◌,
  if◌then◌else◌,
}
use personal_mcp_gateway.Fsx.Protocol.Types.{Operation, Phase, Control, Side, Protocol}
use personal_mcp_gateway.Fsx.Protocol.Fields.{
  protocol_version, max_payload_bytes, operation_eq, valid_operation, valid_phase, valid_terminal,
  valid_terminal_code, no_terminal, no_terminal_code, is_committed, is_zero_stamp, valid_fd_roles,
  valid_stage_leaf, valid_target_leaf, valid_token, valid_raw_stamp, valid_expected_source,
}

unfoldable pub new_parent : Operation → ℕ → Option Protocol
new_parent operation roles =
    if not (valid_operation operation) || not (valid_fd_roles operation roles)
    then none
    else some (record {
      side = Side.parent;
      operation = operation;
      roles = roles;
      phase = Phase.unset;
      payload = 0;
    })

unfoldable pub new_helper : Protocol
new_helper = record {
  side = Side.helper;
  operation = Operation.unset;
  roles = 0;
  phase = Phase.unset;
  payload = 0;
}

-- `canSend` and `canReceive` of a side in a phase, for the phase of a control record.
abbrev pub parent_sends : Phase → Phase → Bool
parent_sends Phase.unset Phase.request = true
parent_sends Phase.stage_created Phase.stage_ack = true
parent_sends Phase.payload_complete Phase.commit = true
parent_sends _ _ = false

abbrev pub helper_sends : Phase → Phase → Bool
helper_sends Phase.request Phase.stage_created = true
helper_sends Phase.stage_ack Phase.stage_announced = true
helper_sends Phase.payload_complete Phase.payload_complete = true
helper_sends Phase.commit Phase.terminal = true
helper_sends _ _ = false

abbrev pub sends : Side → Phase → Phase → Bool
sends Side.parent at phase = parent_sends at phase
sends Side.helper at phase = helper_sends at phase

unfoldable pub can_send : Protocol → Phase → Bool
can_send p phase = sends p.side p.phase phase

abbrev pub parent_receives : Phase → Phase → Bool
parent_receives Phase.request Phase.stage_created = true
parent_receives Phase.stage_ack Phase.stage_announced = true
parent_receives Phase.payload_complete Phase.payload_complete = true
parent_receives Phase.commit Phase.terminal = true
parent_receives _ _ = false

abbrev pub helper_receives : Phase → Phase → Bool
helper_receives Phase.unset Phase.request = true
helper_receives Phase.stage_created Phase.stage_ack = true
helper_receives Phase.payload_complete Phase.commit = true
helper_receives _ _ = false

abbrev pub receives : Side → Phase → Phase → Bool
receives Side.parent at phase = parent_receives at phase
receives Side.helper at phase = helper_receives at phase

unfoldable pub can_receive : Protocol → Phase → Bool
can_receive p phase = receives p.side p.phase phase

-- The tests that several phases make of the fields that they do not use.
abbrev pub no_request_fields : Control → Bool
no_request_fields c =
    c.fd_roles == 0
    && c.payload_bytes == 0
    && is_empty c.target_leaf
    && is_empty c.stage_leaf
    && is_zero_stamp c.expected_source

abbrev pub no_end_fields : Control → Bool
no_end_fields c = no_terminal c.terminal && no_terminal_code c.terminal_code

abbrev pub terminal_identity_valid : Control → Bool
terminal_identity_valid c =
    if is_committed c.terminal
    then valid_raw_stamp c.stage_identity
    else is_zero_stamp c.stage_identity

abbrev pub fields_valid : Phase → Protocol → Control → Bool
fields_valid Phase.request p c =
    c.fd_roles == p.roles
    && leb c.payload_bytes max_payload_bytes
    && valid_target_leaf c.target_leaf
    && valid_stage_leaf c.stage_leaf
    && valid_expected_source c.operation c.expected_source
    && is_zero_stamp c.executable_identity
    && is_zero_stamp c.stage_identity
    && is_empty c.commit_token
    && no_end_fields c
fields_valid Phase.stage_created p c =
    no_request_fields c
    && valid_raw_stamp c.executable_identity
    && is_zero_stamp c.stage_identity
    && is_empty c.commit_token
    && no_end_fields c
fields_valid Phase.stage_ack p c =
    no_request_fields c
    && is_zero_stamp c.executable_identity
    && is_zero_stamp c.stage_identity
    && is_empty c.commit_token
    && no_end_fields c
fields_valid Phase.stage_announced p c =
    no_request_fields c
    && is_zero_stamp c.executable_identity
    && valid_raw_stamp c.stage_identity
    && is_empty c.commit_token
    && no_end_fields c
fields_valid Phase.payload_complete p c =
    no_request_fields c
    && is_zero_stamp c.executable_identity
    && valid_raw_stamp c.stage_identity
    && is_empty c.commit_token
    && no_end_fields c
fields_valid Phase.commit p c =
    no_request_fields c
    && is_zero_stamp c.executable_identity
    && is_zero_stamp c.stage_identity
    && valid_token c.commit_token
    && no_end_fields c
fields_valid Phase.terminal p c =
    no_request_fields c
    && is_zero_stamp c.executable_identity
    && terminal_identity_valid c
    && is_empty c.commit_token
    && valid_terminal c.terminal
    && valid_terminal_code c.terminal c.terminal_code
fields_valid _ p c = false

unfoldable pub validate_bound : Protocol → Control → Bool
validate_bound p c =
    if not (eq_nat c.version protocol_version)
      || not (operation_eq c.operation p.operation)
      || not (valid_phase c.phase)
    then false
    else fields_valid c.phase p c

-- `p.side == mutationProtocolHelper && p.phase == ""`
abbrev pub is_new : Side → Phase → Bool
is_new Side.helper Phase.unset = true
is_new _ _ = false

unfoldable pub validate_outgoing : Protocol → Control → Bool
validate_outgoing p c = if is_new p.side p.phase then false else validate_bound p c

-- A new helper takes the operation and the roles from the request, also if it then refuses it.
unfoldable pub validate_incoming : Protocol → Control → Protocol × Bool
validate_incoming p c =
    let q = record p { operation = c.operation; roles = c.fd_roles } in
    if is_new p.side p.phase
    then if not (valid_operation c.operation) || not (valid_fd_roles c.operation c.fd_roles)
      then (p, false)
      else (q, validate_bound q c)
    else (p, validate_bound p c)

abbrev pub is_request : Phase → Bool
is_request Phase.request = true
is_request _ = false

unfoldable pub advance : Protocol → Control → Protocol
advance p c =
    let q = record p { phase = c.phase } in
    if is_request c.phase then record q { payload = c.payload_bytes } else q
