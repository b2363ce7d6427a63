-- ===== src/Fsx/Protocol/Fields.antt =====
-- internal/fsx/mutation_protocol.go: the tests on the fields of a control record.
use Prim.Native.Nat.{bit_and}
use personal_mcp_gateway.Base.{
  same_bool, ℕ, ◌+◌, Bytes, bytes_eq, codes, eq_nat, is_neg, gt_nat, Bool, true, false, not, ◌&&◌,
  ◌||◌, [], ◌∷◌, length, is_empty, all, ltb, ◌==◌, if◌then◌else◌,
}
use personal_mcp_gateway.Fsx.Protocol.Types.{Operation, Phase, Terminal, TerminalCode, RawStamp}

abbrev pub protocol_version : ℕ
protocol_version = 1

abbrev pub max_control_frame_bytes : ℕ
max_control_frame_bytes = 4096

abbrev pub max_payload_bytes : ℕ
max_payload_bytes = 8_388_608

-- The comparison of two operations.
unfoldable pub operation_eq : Operation → Operation → Bool
operation_eq Operation.create Operation.create = true
operation_eq Operation.replace Operation.replace = true
operation_eq Operation.unset Operation.unset = true
operation_eq (Operation.other a) (Operation.other b) = bytes_eq a b
operation_eq _ _ = false

unfoldable pub valid_operation : Operation → Bool
valid_operation Operation.create = true
valid_operation Operation.replace = true
valid_operation _ = false

unfoldable pub valid_phase : Phase → Bool
valid_phase Phase.request = true
valid_phase Phase.stage_created = true
valid_phase Phase.stage_ack = true
valid_phase Phase.stage_announced = true
valid_phase Phase.payload_complete = true
valid_phase Phase.commit = true
valid_phase Phase.terminal = true
valid_phase _ = false

unfoldable pub valid_terminal : Terminal → Bool
valid_terminal Terminal.committed = true
valid_terminal Terminal.refused = true
valid_terminal Terminal.error = true
valid_terminal Terminal.uncertain = true
valid_terminal _ = false

unfoldable pub valid_terminal_code : Terminal → TerminalCode → Bool
valid_terminal_code Terminal.committed TerminalCode.committed = true
valid_terminal_code Terminal.refused TerminalCode.source_changed = true
valid_terminal_code Terminal.refused TerminalCode.destination_exists = true
valid_terminal_code Terminal.refused TerminalCode.canceled = true
valid_terminal_code Terminal.error TerminalCode.io = true
valid_terminal_code Terminal.error TerminalCode.unsupported = true
valid_terminal_code Terminal.uncertain TerminalCode.uncertain = true
valid_terminal_code _ _ = false

-- The comparisons with the empty string and with the zero stamp.
abbrev pub no_terminal : Terminal → Bool
no_terminal Terminal.unset = true
no_terminal _ = false

abbrev pub no_terminal_code : TerminalCode → Bool
no_terminal_code TerminalCode.unset = true
no_terminal_code _ = false

abbrev pub is_replace : Operation → Bool
is_replace Operation.replace = true
is_replace _ = false

abbrev pub is_committed : Terminal → Bool
is_committed Terminal.committed = true
is_committed _ = false

unfoldable pub is_zero_stamp : RawStamp → Bool
is_zero_stamp s =
    s.device == 0
    && s.inode == 0
    && s.mode == 0
    && s.uid == 0
    && s.nlink == 0
    && eq_nat s.size 0
    && eq_nat s.mtime_sec 0
    && eq_nat s.mtime_nsec 0
    && eq_nat s.ctime_sec 0
    && eq_nat s.ctime_nsec 0

-- Of the roles 1 (control), 2 (root), 4 (parent) and 8 (source), the first three are required, and the
-- source is there exactly for a replacement.
unfoldable pub valid_fd_roles : Operation → ℕ → Bool
valid_fd_roles operation roles =
    if not (bit_and roles 240 == 0) || not (bit_and roles 7 == 7)
    then false
    else same_bool (is_replace operation) (not (bit_and roles 8 == 0))

abbrev pub is_lower_hex : ℕ → Bool
is_lower_hex c = not ((ltb c b'0' || ltb b'9' c) && (ltb c b'a' || ltb b'f' c))

-- strings.HasPrefix, and what follows the prefix.
abbrev pub has_prefix : Bytes → Bytes → Bool
has_prefix s [] = true
has_prefix [] (p ∷ ps) = false
has_prefix (c ∷ s) (p ∷ ps) = c == p && has_prefix s ps

abbrev pub after_prefix : Bytes → Bytes → Bytes
after_prefix s [] = s
after_prefix [] (p ∷ ps) = []
after_prefix (c ∷ s) (p ∷ ps) = after_prefix s ps

abbrev pub stage_prefix : Bytes
stage_prefix = codes ".pmcg-stage-"

unfoldable pub valid_stage_leaf : Bytes → Bool
valid_stage_leaf leaf =
    if not (has_prefix leaf stage_prefix) || not (length leaf == length stage_prefix + 32)
    then false
    else all is_lower_hex (after_prefix leaf stage_prefix)

-- strings.ContainsAny(leaf, "/\\\x00"), as a test of one byte.
abbrev pub is_separator : ℕ → Bool
is_separator c = c == b'/' || c == 92 || c == 0

unfoldable pub valid_target_leaf : Bytes → Bool
valid_target_leaf leaf =
    not (is_empty leaf)
    && not (has_prefix leaf (codes "."))
    && all (λ c. not (is_separator c)) leaf
    && not (bytes_eq leaf (codes "."))
    && not (bytes_eq leaf (codes ".."))

unfoldable pub valid_token : Bytes → Bool
valid_token token = if not (length token == 32) then false else all is_lower_hex token

unfoldable pub valid_raw_stamp : RawStamp → Bool
valid_raw_stamp s =
    not (s.device == 0)
    && not (s.inode == 0)
    && not (s.mode == 0)
    && not (s.nlink == 0)
    && not (is_neg s.size)
    && not (is_neg s.mtime_nsec)
    && not (gt_nat s.mtime_nsec 999_999_999)
    && not (is_neg s.ctime_nsec)
    && not (gt_nat s.ctime_nsec 999_999_999)

unfoldable pub valid_expected_source : Operation → RawStamp → Bool
valid_expected_source Operation.create stamp = is_zero_stamp stamp
valid_expected_source _ stamp = valid_raw_stamp stamp
