-- ===== src/Obsidian/Cursor.antt =====
-- internal/tools/obsidian/cursor.go: the sealed text that leads to the next page. JSON and the sealer are
-- parameters; base64 is not. A digest is the list of its 32 bytes.
pub mod Read
pub mod Bound
pub mod Vouched
pub mod State
use personal_mcp_gateway.Base.{
  ℕ, zero, suc, ◌*◌, Bytes, bytes_eq, codes, Bool, true, false, not, ◌&&◌, ◌||◌, Option, none, some,
  List, [], ◌∷◌, length, is_empty, ltb, leb, ◌==◌, if◌then◌else◌, ℤ, pos, eq_nat,
}
use personal_mcp_gateway.Obsidian.Base64.{
  encode, decode, encoded_len, decoded_len, valid_raw_base64_url,
}
use personal_mcp_gateway.Obsidian.Outcome.{
  Failure, cursor_invalid, cursor_mismatch, cursor_stale, Outcome, ok, fail, ◌>>=◌, or_fail,
}
use personal_mcp_gateway.Obsidian.Fit.{Position}

abbrev pub max_cursor_bytes : ℕ
max_cursor_bytes = 16 * 1024

abbrev pub cursor_format_v2 : ℕ
cursor_format_v2 = 2

abbrev pub max_cursor_tool_bytes : ℕ
max_cursor_tool_bytes = 64

abbrev pub max_cursor_field_bytes : ℕ
max_cursor_field_bytes = 4096

abbrev pub digest_bytes : ℕ
digest_bytes = 32

abbrev pub cursor_seal_domain : Bytes
cursor_seal_domain = codes "personal-mcp-gateway/obsidian-cursor-envelope/v2"

-- A digest of zeros
abbrev pub zeros : ℕ → Bytes
zeros zero = []
zeros (suc n) = 0 ∷ zeros n

pub record DecodedCursor : Type 0 where
  pub tool : Bytes
  pub query : Bytes
  pub source : Bytes
  pub position : Position
  pub state : Bytes

pub record CursorEnvelopeFields : Type 0 where
  pub version : ℤ
  pub tool : Bytes
  pub query : Bytes
  pub source : Bytes
  pub position : Position
  pub state : Bytes

pub record CursorEnvelope : Type 0 where
  pub version : ℤ
  pub tool : Bytes
  pub query : Bytes
  pub source : Bytes
  pub position : Position
  pub state : Bytes
  pub seal : Bytes

abbrev pub fields : CursorEnvelope → CursorEnvelopeFields
fields e = record {
  version = e.version;
  tool = e.tool;
  query = e.query;
  source = e.source;
  position = e.position;
  state = e.state;
}

-- `json.Marshal`; a decoder that refuses unknown fields, which returns a value and what follows it, and its
-- test that nothing follows; `json.Valid`.
pub record Json : Type 0 where
  pub marshal : CursorEnvelope → Option Bytes
  pub marshal_fields : CursorEnvelopeFields → Option Bytes
  pub read : Bytes → Option (CursorEnvelope × Bytes)
  pub at_end : Bytes → Bool
  pub is_valid : Bytes → Bool

pub record CursorSealer : Type 0 where
  pub bind_opaque : Bytes → Bytes → Bytes
  pub verify_opaque : Bytes → Bytes → Bytes → Bool

abbrev pub valid_cursor_string : Bytes → ℕ → Bool
valid_cursor_string s max = not (is_empty s) && leb (length s) max

unfoldable pub check : Bool → Outcome (Unit {0})
check true = ok tt
check false = fail cursor_invalid

unfoldable pub decode_digest : Bytes → Outcome Bytes
decode_digest s = do
  _ ← check (length s == encoded_len digest_bytes)
  decoded ← or_fail cursor_invalid (decode s)
  _ ← check (length decoded == digest_bytes)
  ok decoded

-- A sealer that is nil is `none`.
unfoldable pub encode_sealed_cursor_envelope :
    Json → Option CursorSealer → CursorEnvelope → Outcome Bytes
encode_sealed_cursor_envelope json none envelope = fail cursor_invalid
encode_sealed_cursor_envelope json (some sealer) envelope = do
  bound ← or_fail cursor_invalid (json.marshal_fields (fields envelope))
  let seal = sealer.bind_opaque cursor_seal_domain bound
  _ ← check (not (bytes_eq seal (zeros digest_bytes)))
  decoded ← or_fail cursor_invalid (json.marshal (record envelope { seal = encode seal }))
  _ ← check (
      not (
        ltb max_cursor_bytes (length decoded)
        || ltb max_cursor_bytes (encoded_len (length decoded))))
  ok (encode decoded)

abbrev pub no_position : Position
no_position = record { nfc = []; stored = [] }

abbrev pub envelope_of : Bytes → Bytes → Bytes → Position → CursorEnvelope
envelope_of tool query source position = record {
  version = pos cursor_format_v2;
  tool = tool;
  query = encode query;
  source = encode source;
  position = position;
  state = [];
  seal = [];
}

unfoldable pub encode_cursor :
    Json → Option CursorSealer → Bytes → Bytes → Bytes → Position → Outcome Bytes
encode_cursor json sealer tool query source position = do
  _ ← check (
      valid_cursor_string tool max_cursor_tool_bytes
      && valid_cursor_string position.nfc max_cursor_field_bytes
      && valid_cursor_string position.stored max_cursor_field_bytes)
  encode_sealed_cursor_envelope json sealer (envelope_of tool query source position)

abbrev pub state_envelope_of : Bytes → Bytes → Bytes → CursorEnvelope
state_envelope_of tool query state = record {
  version = pos cursor_format_v2;
  tool = tool;
  query = encode query;
  source = [];
  position = no_position;
  state = state;
  seal = [];
}

-- The state as `json.Marshal` writes it; a nil state, and an error, are `none`.
unfoldable pub encode_cursor_state :
    Json → Option CursorSealer → Bytes → Bytes → Option Bytes → Outcome Bytes
encode_cursor_state json sealer tool query state = do
  _ ← check (valid_cursor_string tool max_cursor_tool_bytes)
  encoded_state ← or_fail cursor_invalid state
  _ ← check (not (is_empty encoded_state || bytes_eq encoded_state (codes "null")))
  encode_sealed_cursor_envelope json sealer (state_envelope_of tool query encoded_state)
