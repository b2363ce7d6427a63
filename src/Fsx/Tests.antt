-- ===== src/Fsx/Tests.antt =====
-- A gateway and its helper of internal/fsx/mutation_protocol.go, in step.
use personal_mcp_gateway.Base.{
  pos, Bytes, Bool, all, ltb, bytes_eq, codes, true, none, some, [], ◌∷◌, ◌++◌, ◌≡◌, inr, refl,
}
use personal_mcp_gateway.Fsx.TextCodec.{text_codec, text_codec-reads_back}
use personal_mcp_gateway.Fsx.Protocol.Types.{
  Operation, Phase, Terminal, TerminalCode, RawStamp, zero_stamp, Control, Side, Protocol,
}
use personal_mcp_gateway.Fsx.Protocol.Fields.{
  operation_eq, valid_operation, valid_phase, is_zero_stamp, valid_fd_roles, valid_stage_leaf,
  valid_target_leaf, valid_raw_stamp, valid_expected_source,
}
use personal_mcp_gateway.Fsx.Protocol.Side.{
  new_parent, can_send, validate_bound, validate_outgoing, advance,
}
use personal_mcp_gateway.Fsx.Protocol.Wire.{
  Writer, write_all, put_uint32, write_control, send_control, send_payload, receive_payload, got,
}
use personal_mcp_gateway.Fsx.Protocol.Together.{InStep}
use personal_mcp_gateway.Fsx.Protocol.Delivery.{
  IsText, IsFaithful, Delivers, parent_is_heard, helper_is_heard, payload_is_heard,
}
use personal_mcp_gateway.Fsx.Protocol.Passed.{IsOrderly}
use personal_mcp_gateway.Fsx.Protocol.Conversation.{Session, Session-IsOrderly}

abbrev is_ascii : Bytes → Bool
is_ascii s = all (λ c. ltb c 128) s

text_codec-IsFaithful : IsFaithful is_ascii text_codec
text_codec-IsFaithful = record { reads_back = λ c e text h. text_codec-reads_back c e h }

abbrev writer : Writer
writer = record { taken = []; room = 4096 }

abbrev ack : Control
ack = record {
  version = pos 1;
  operation = Operation.create;
  phase = Phase.stage_ack;
  fd_roles = 0;
  payload_bytes = 0;
  target_leaf = [];
  stage_leaf = [];
  expected_source = zero_stamp;
  executable_identity = zero_stamp;
  stage_identity = zero_stamp;
  commit_token = [];
  terminal = Terminal.unset;
  terminal_code = TerminalCode.unset;
}

abbrev stamp : RawStamp
stamp = record zero_stamp { device = 1; inode = 2; mode = 33188; nlink = 1 }

abbrev announcement : Control
announcement = record ack { phase = Phase.stage_announced; stage_identity = stamp }

abbrev side_at : Side → Phase → Protocol
side_at s phase = record {
  side = s;
  operation = Operation.create;
  roles = 7;
  phase = phase;
  payload = 2;
}

in_step : (phase : Phase) → InStep (side_at Side.parent phase) (side_at Side.helper phase)
unfolding valid_operation valid_fd_roles
in_step phase = record {
  is_parent = refl;
  is_helper = refl;
  phases = refl;
  operation_known = refl;
  roles_known = refl;
  joined = inr (refl, refl, refl);
}

-- The writer after the frame of a record.
abbrev framed : Control → Writer
framed c = (write_control text_codec c writer).0

ack-IsText : IsText is_ascii ack
ack-IsText = record {
  operation = tt;
  phase = tt;
  target_leaf = refl;
  stage_leaf = refl;
  commit_token = refl;
  terminal = tt;
  terminal_code = tt;
}

announcement-IsText : IsText is_ascii announcement
announcement-IsText = record {
  operation = tt;
  phase = tt;
  target_leaf = refl;
  stage_leaf = refl;
  commit_token = refl;
  terminal = tt;
  terminal_code = tt;
}

ack_sent :
    send_control text_codec (side_at Side.parent Phase.stage_created) ack writer
    ≡ (side_at Side.parent Phase.stage_ack, framed ack, none)
unfolding send_control write_control can_send validate_outgoing validate_bound operation_eq
    valid_phase is_zero_stamp advance write_all put_uint32 text_codec
ack_sent = refl

announcement_sent :
    send_control text_codec (side_at Side.helper Phase.stage_ack) announcement writer
    ≡ (side_at Side.helper Phase.stage_announced, framed announcement, none)
unfolding send_control write_control can_send validate_outgoing validate_bound operation_eq
    valid_phase is_zero_stamp valid_raw_stamp advance write_all put_uint32 text_codec
announcement_sent = refl

-- The parent's acknowledgement reaches the helper.
parent_is_heard_example :
    (f : Bytes) × (q : Protocol) × ((framed ack).taken ≡ writer.taken ++ f)
    × Delivers text_codec (side_at Side.helper Phase.stage_created) ack f q
    × InStep (side_at Side.parent Phase.stage_ack) q
parent_is_heard_example =
    parent_is_heard is_ascii text_codec text_codec-IsFaithful
      (side_at Side.parent Phase.stage_created) (side_at Side.parent Phase.stage_ack)
      (side_at Side.helper Phase.stage_created) ack writer (framed ack)
      (in_step Phase.stage_created) ack-IsText ack_sent

helper_is_heard_example :
    (f : Bytes) × (q : Protocol) × ((framed announcement).taken ≡ writer.taken ++ f)
    × Delivers text_codec (side_at Side.parent Phase.stage_ack) announcement f q
    × InStep q (side_at Side.helper Phase.stage_announced)
helper_is_heard_example =
    helper_is_heard is_ascii text_codec text_codec-IsFaithful (side_at Side.parent Phase.stage_ack)
      (side_at Side.helper Phase.stage_ack) (side_at Side.helper Phase.stage_announced) announcement
      writer (framed announcement) (in_step Phase.stage_ack) announcement-IsText announcement_sent

abbrev hi : Bytes
hi = codes "hi"

abbrev after_payload : Writer
after_payload = record { taken = hi; room = 4094 }

payload_goes :
    send_payload (side_at Side.parent Phase.stage_announced) hi writer
    ≡ (side_at Side.parent Phase.payload_complete, after_payload, none)
unfolding send_payload write_all
payload_goes = refl

payload_is_heard_example :
    (q : Protocol) × (after_payload.taken ≡ writer.taken ++ hi)
    × ((rest : Bytes)
        → receive_payload (side_at Side.helper Phase.stage_announced) 2 (hi ++ rest)
          ≡ (q, got hi rest))
    × InStep (side_at Side.parent Phase.payload_complete) q
payload_is_heard_example =
    payload_is_heard (side_at Side.parent Phase.stage_announced)
      (side_at Side.parent Phase.payload_complete) (side_at Side.helper Phase.stage_announced) hi
      writer after_payload (in_step Phase.stage_announced) payload_goes

abbrev opened : Protocol
opened = record {
  side = Side.parent;
  operation = Operation.create;
  roles = 7;
  phase = Phase.unset;
  payload = 0;
}

opens : new_parent Operation.create 7 ≡ some opened
unfolding new_parent valid_operation valid_fd_roles
opens = refl

abbrev request : Control
request = record ack {
  phase = Phase.request;
  fd_roles = 7;
  payload_bytes = 2;
  target_leaf = codes "note.md";
  stage_leaf = codes ".pmcg-stage-00112233445566778899aabbccddeeff";
}

request_sent :
    send_control text_codec opened request writer
    ≡ (side_at Side.parent Phase.request, framed request, none)
unfolding send_control write_control can_send validate_outgoing validate_bound operation_eq
    valid_phase is_zero_stamp valid_target_leaf valid_stage_leaf valid_expected_source bytes_eq
    advance write_all put_uint32 text_codec
request_sent = refl

session : Session text_codec (side_at Side.parent Phase.request) (request ∷ []) none
session =
    Session.sent (Session.parent_opened Operation.create 7 opens) request writer (framed request)
      request_sent

Session-IsOrderly_example : IsOrderly (side_at Side.parent Phase.request) (request ∷ []) none
Session-IsOrderly_example = Session-IsOrderly session

note_passes : valid_target_leaf (codes "note.md") ≡ true
unfolding valid_target_leaf bytes_eq
note_passes = refl
