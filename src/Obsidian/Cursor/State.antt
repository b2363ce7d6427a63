-- ===== src/Obsidian/Cursor/State.antt =====
-- Cursors of internal/tools/obsidian/cursor.go with a state of their tool.
use personal_mcp_gateway.Base.{
  Bytes, bytes_eq, codes, Bool, true, false, not, ◌&&◌, ◌||◌, Option, some, is_empty, if◌then◌else◌,
  ◌≡◌, refl, arith,
}
use personal_mcp_gateway.Obsidian.Base64.{encode}
use personal_mcp_gateway.Obsidian.Outcome.{cursor_mismatch, ok, fail, both_ok}
use personal_mcp_gateway.Obsidian.Cursor.{
  max_cursor_tool_bytes, digest_bytes, zeros, Json, CursorSealer, valid_cursor_string, check,
  no_position, encode_cursor_state, state_envelope_of,
}
use personal_mcp_gateway.Obsidian.Cursor.Read.{state_payload, decode_cursor_state}
use personal_mcp_gateway.Obsidian.Cursor.Vouched.{test_of_check}
use personal_mcp_gateway.Obsidian.Cursor.Bound.{
  IsDigest, IsFaithful, ReadsBack, check-true, decode_digest-encode, sealed_parts,
  decode_cursor-sealed,
}

state_payload-ok :
    (json : Json) (tool query state seal : Bytes)
    → json.is_valid state ≡ true
    → bytes_eq state (codes "null") ≡ false
    → state_payload json (record (state_envelope_of tool query state) { seal = seal }) query
      ≡ ok (record {
        tool = tool;
        query = query;
        source = zeros digest_bytes;
        position = no_position;
        state = state;
      })
state_payload-ok json tool query state seal valid value =
    rw
      (check-true (json.is_valid state && not (bytes_eq state (codes "null")))
        (ground (arith, valid, value)))
      refl

not_if {ℓ} : {A : Type ℓ} (b : Bool) (x y : A) → (if not b then x else y) ≡ (if b then y else x)
not_if true x y = refl
not_if false x y = refl

-- Where the sealer verifies what it has bound, JSON reads back the envelope, with the seals of digests in base64, and
-- the state, and the query is a digest: the text that `EncodeCursorState` returns is decoded to the same state for the same tool and query,
-- and is a mismatch for another tool or query.
pub decode_cursor_state-encode_cursor_state {ℓ} :
    {A : Type ℓ} (read : Bytes → Option (A × Bytes)) (json : Json) (sealer : CursorSealer)
    (tool query state text : Bytes) (a : A) (rest : Bytes)
    → IsFaithful sealer
    → ((d : Bytes)
        → IsDigest d
        → ReadsBack json (record (state_envelope_of tool query state) { seal = encode d }))
    → IsDigest query
    → json.is_valid state ≡ true
    → read state ≡ some (a, rest)
    → json.at_end rest ≡ true
    → encode_cursor_state json (some sealer) tool query (some state) ≡ ok text
    → (tool2 query2 : Bytes)
    → decode_cursor_state read json (some sealer) text tool2 query2
      ≡ (if bytes_eq tool tool2 && bytes_eq query query2 then ok a else fail cursor_mismatch)
unfolding decode_cursor_state encode_cursor_state
decode_cursor_state-encode_cursor_state {A} read json sealer tool query state text a rest faithful
      reads hq valid is_read ended h tool2 query2 =
    let (_, tool_fits, h) = both_ok (check (valid_cursor_string tool max_cursor_tool_bytes)) _ h in
    let null = bytes_eq state (codes "null") in
    let (_, value, h) = both_ok (check (not (is_empty state || null))) _ h in
    let value = test_of_check (not (is_empty state || null)) value in
    let w = sealed_parts json sealer (state_envelope_of tool query state) text h in
    let (seal, is) =
      decode_cursor-sealed json sealer (state_envelope_of tool query state) query text faithful
        reads (ground (arith, test_of_check _ tool_fits)) (decode_digest-encode query hq) w in
    let filled : is_empty state ≡ false = ground (arith, value) in
    rw is (
      rw filled (
        rw (state_payload-ok json tool query state seal valid (ground (arith, value))) (
          rw (check-true (not (is_empty state)) (ground (arith, filled))) (
            rw is_read (
              rw (check-true (json.at_end rest) ended)
                (not_if (bytes_eq tool tool2 && bytes_eq query query2) _ _))))))
