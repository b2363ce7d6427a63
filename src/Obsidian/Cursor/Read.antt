-- ===== src/Obsidian/Cursor/Read.antt =====
-- internal/tools/obsidian/cursor.go: how a cursor is read and validated.
use personal_mcp_gateway.Base.{
  Bytes, bytes_eq, codes, Bool, not, ◌&&◌, ◌||◌, Option, none, some, [], length, is_empty, ltb,
  ◌==◌, if◌then◌else◌, eq_nat,
}
use personal_mcp_gateway.Obsidian.Base64.{decode, decoded_len, valid_raw_base64_url}
use personal_mcp_gateway.Obsidian.Outcome.{
  Failure, cursor_invalid, cursor_mismatch, cursor_stale, Outcome, ok, fail, ◌>>=◌, or_fail,
}
use personal_mcp_gateway.Obsidian.Fit.{Position}
use personal_mcp_gateway.Obsidian.Cursor.{
  max_cursor_bytes, cursor_format_v2, max_cursor_tool_bytes, max_cursor_field_bytes, digest_bytes,
  cursor_seal_domain, zeros, DecodedCursor, CursorEnvelope, fields, Json, CursorSealer,
  valid_cursor_string, check, decode_digest, no_position,
}

-- `DecodeCursor` up to the canonical form of the envelope.
unfoldable pub read_envelope : Json → Bytes → Outcome CursorEnvelope
read_envelope json encoded = do
  _ ← check (
      not (
        is_empty encoded
        || ltb max_cursor_bytes (length encoded)
        || not (valid_raw_base64_url encoded)))
  let size = decoded_len (length encoded)
  _ ← check (not (size == 0 || ltb max_cursor_bytes size))
  decoded ← or_fail cursor_invalid (decode encoded)
  _ ← check (not (is_empty decoded || ltb max_cursor_bytes (length decoded)))
  read ← or_fail cursor_invalid (json.read decoded)
  _ ← check (json.at_end read.1)
  canonical ← or_fail cursor_invalid (json.marshal read.0)
  _ ← check (bytes_eq decoded canonical)
  ok read.0

-- The seal of an envelope.
unfoldable pub check_seal : Json → Option CursorSealer → CursorEnvelope → Outcome (Unit {0})
check_seal json none e = fail cursor_invalid
check_seal json (some sealer) e = do
  seal ← decode_digest e.seal
  bound ← or_fail cursor_invalid (json.marshal_fields (fields e))
  check (sealer.verify_opaque cursor_seal_domain bound seal)

abbrev pub state_payload : Json → CursorEnvelope → Bytes → Outcome DecodedCursor
state_payload json e query = do
  _ ← check (
      is_empty e.source
      && is_empty e.position.nfc
      && is_empty e.position.stored
      && json.is_valid e.state
      && not (bytes_eq e.state (codes "null")))
  ok (record {
    tool = e.tool;
    query = query;
    source = zeros digest_bytes;
    position = no_position;
    state = e.state;
  })

abbrev pub position_payload : CursorEnvelope → Bytes → Outcome DecodedCursor
position_payload e query = do
  _ ← check (
      valid_cursor_string e.position.nfc max_cursor_field_bytes
      && valid_cursor_string e.position.stored max_cursor_field_bytes)
  source ← decode_digest e.source
  ok (record { tool = e.tool; query = query; source = source; position = e.position; state = [] })

abbrev pub payload : Json → CursorEnvelope → Bytes → Outcome DecodedCursor
payload json e query =
    if not (is_empty e.state) then state_payload json e query else position_payload e query

unfoldable pub decode_cursor : Json → Option CursorSealer → Bytes → Outcome DecodedCursor
decode_cursor json sealer encoded = do
  e ← read_envelope json encoded
  _ ← check (eq_nat e.version cursor_format_v2 && valid_cursor_string e.tool max_cursor_tool_bytes)
  _ ← check_seal json sealer e
  query ← decode_digest e.query
  payload json e query

-- An error of `DecodeCursor` is invalid.
abbrev pub or_invalid {ℓ} : {A : Type ℓ} → Outcome A → Outcome A
or_invalid (ok a) = ok a
or_invalid (fail e) = fail cursor_invalid

abbrev pub is_for : DecodedCursor → Bytes → Bytes → Bool
is_for d tool query = bytes_eq d.tool tool && bytes_eq d.query query

abbrev pub position_for : DecodedCursor → Bytes → Outcome Position
position_for d source =
    if not (is_empty d.state)
    then fail cursor_invalid
    else if not (bytes_eq d.source source)
    then fail cursor_stale
    else ok d.position

unfoldable pub validate_cursor :
    Json → Option CursorSealer → Bytes → Bytes → Bytes → Bytes → Outcome Position
validate_cursor json sealer encoded tool query source = do
  d ← or_invalid (decode_cursor json sealer encoded)
  if not (is_for d tool query) then fail cursor_mismatch else position_for d source

-- The state of one value and nothing after it; `read` is the decoder of the states.
abbrev pub state_of {ℓ} :
    {A : Type ℓ} → (Bytes → Option (A × Bytes)) → (Bytes → Bool) → DecodedCursor → Outcome A
state_of read at_end d = do
  _ ← check (not (is_empty d.state))
  state ← or_fail cursor_invalid (read d.state)
  _ ← check (at_end state.1)
  ok state.0

unfoldable pub decode_cursor_state {ℓ} :
    {A : Type ℓ}
    → (Bytes → Option (A × Bytes))
    → Json
    → Option CursorSealer
    → Bytes
    → Bytes
    → Bytes
    → Outcome A
decode_cursor_state read json sealer encoded tool query = do
  d ← or_invalid (decode_cursor json sealer encoded)
  if not (is_for d tool query) then fail cursor_mismatch else state_of read json.at_end d

-- The public codes and messages
unfoldable pub cursor_error_code : Failure → Bytes
cursor_error_code cursor_invalid = codes "cursor_invalid"
cursor_error_code cursor_mismatch = codes "cursor_mismatch"
cursor_error_code cursor_stale = codes "cursor_stale"
cursor_error_code _ = []
