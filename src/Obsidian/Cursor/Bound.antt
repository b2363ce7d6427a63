-- ===== src/Obsidian/Cursor/Bound.antt =====
-- A cursor that internal/tools/obsidian/cursor.go encodes is read back, and only where it belongs.
use personal_mcp_gateway.Base.{
  Bytes, bytes_eq, bytes_eq_refl, Bool, true, false, not, ◌&&◌, ◌||◌, some, [], ◌∷◌, All, length,
  is_empty, ltb, ◌==◌, if◌then◌else◌, eq_nat, ◌≡◌, refl, sym, arith, and_parts,
}
use personal_mcp_gateway.Obsidian.Base64.{encode, encoded_len, decoded_len, valid_raw_base64_url}
use personal_mcp_gateway.Obsidian.Base64.Back.{
  IsByte, encode-plain, length-encode, decoded_len-encoded_len, decode-encode,
}
use personal_mcp_gateway.Obsidian.Outcome.{
  cursor_invalid, cursor_mismatch, cursor_stale, Outcome, ok, fail, or_fail, both_ok, some_of_ok,
}
use personal_mcp_gateway.Obsidian.Fit.{Position}
use personal_mcp_gateway.Obsidian.Cursor.{
  max_cursor_bytes, cursor_format_v2, max_cursor_tool_bytes, max_cursor_field_bytes, digest_bytes,
  cursor_seal_domain, CursorEnvelope, fields, Json, CursorSealer, valid_cursor_string, check,
  decode_digest, encode_sealed_cursor_envelope, encode_cursor, envelope_of,
}
use personal_mcp_gateway.Obsidian.Cursor.Read.{
  read_envelope, check_seal, payload, position_payload, decode_cursor, validate_cursor,
}
use personal_mcp_gateway.Obsidian.Cursor.Vouched.{test_of_check, ok_inj}

abbrev pub IsDigest : Bytes → Type 0
IsDigest d = (length d ≡ digest_bytes) × All IsByte d

-- A sealer that makes digests and verifies what it has bound.
pub record IsFaithful (sealer : CursorSealer) : Type 0 where
  pub digest : (domain text : Bytes) → IsDigest (sealer.bind_opaque domain text)
  pub verifies :
      (domain text : Bytes)
      → sealer.verify_opaque domain text (sealer.bind_opaque domain text) ≡ true

-- The JSON of an envelope is not empty and is read back with nothing after it. `encoding/json` does so for an
-- envelope whose strings are UTF-8, as base64 is.
pub record ReadsBack (json : Json) (e : CursorEnvelope) : Type 0 where
  pub full : (b : Bytes) → json.marshal e ≡ some b → is_empty b ≡ false
  pub bytes : (b : Bytes) → json.marshal e ≡ some b → All IsByte b
  pub back :
      (b : Bytes)
      → json.marshal e ≡ some b
      → (rest : Bytes) × (json.read b ≡ some (e, rest)) × (json.at_end rest ≡ true)

pub check-true : (b : Bool) → b ≡ true → check b ≡ ok tt
unfolding check
check-true b h = rw h refl

pub decode_digest-encode : (d : Bytes) → IsDigest d → decode_digest (encode d) ≡ ok d
unfolding decode_digest
decode_digest-encode d h =
    rw
      (check-true (length (encode d) == encoded_len digest_bytes)
        (ground (arith, length-encode d, h.0)))
      (rw (decode-encode d h.1)
        (rw (check-true (length d == digest_bytes) (ground (arith, h.0))) refl))

length_full : (b : Bytes) → is_empty b ≡ false → (length b == 0) ≡ false
length_full [] h = cc
length_full (x ∷ b) h = ground arith

encode_full : (b : Bytes) → is_empty b ≡ false → is_empty (encode b) ≡ false
unfolding encode
encode_full [] h = h
encode_full (x ∷ []) h = refl
encode_full (x ∷ y ∷ []) h = refl
encode_full (x ∷ y ∷ z ∷ b) h = refl

abbrev IsSmall : Bytes → Type 0
IsSmall b =
    not (ltb max_cursor_bytes (length b) || ltb max_cursor_bytes (encoded_len (length b))) ≡ true

fits_size :
    (b : Bytes)
    → is_empty b ≡ false
    → IsSmall b
    → not (
        decoded_len (length (encode b)) == 0
        || ltb max_cursor_bytes (decoded_len (length (encode b))))
      ≡ true
fits_size b full small =
    rw (length-encode b)
      (rw (decoded_len-encoded_len (length b)) (rw (length_full b full) (ground (arith, small))))

fits_text :
    (b : Bytes)
    → is_empty b ≡ false
    → All IsByte b
    → IsSmall b
    → not (
        is_empty (encode b)
        || ltb max_cursor_bytes (length (encode b))
        || not (valid_raw_base64_url (encode b)))
      ≡ true
fits_text b full bytes small =
    rw (encode_full b full)
      (rw (encode-plain b bytes) (rw (length-encode b) (ground (arith, small))))

-- The envelope of a written cursor.
read_envelope-encode :
    (json : Json) (e : CursorEnvelope) (b : Bytes)
    → ReadsBack json e
    → json.marshal e ≡ some b
    → IsSmall b
    → read_envelope json (encode b) ≡ ok e
unfolding read_envelope
read_envelope-encode json e b reads written small =
    let (rest, read, ended) = reads.back b written in
    let bytes = reads.bytes b written in
    let full = reads.full b written in
    rw (check-true _ (fits_text b full bytes small)) (
      rw (check-true _ (fits_size b full small)) (
        rw (decode-encode b bytes) (
          rw
            (check-true (not (is_empty b || ltb max_cursor_bytes (length b)))
              (ground (arith, small, full)))
            (rw read (
              rw (check-true (json.at_end rest) ended)
                (rw written (rw (check-true (bytes_eq b b) (bytes_eq_refl b)) refl)))))))

-- What has been written for a cursor.
pub record IsWritten (json : Json) (sealer : CursorSealer) (e : CursorEnvelope) (text : Bytes)
    : Type 0 where
  bound : Bytes
  decoded : Bytes
  bound_is : json.marshal_fields (fields e) ≡ some bound
  written :
      json.marshal (record e { seal = encode (sealer.bind_opaque cursor_seal_domain bound) })
      ≡ some decoded
  small : IsSmall decoded
  text_is : text ≡ encode decoded

pub sealed_parts :
    (json : Json) (sealer : CursorSealer) (e : CursorEnvelope) (text : Bytes)
    → encode_sealed_cursor_envelope json (some sealer) e ≡ ok text
    → IsWritten json sealer e text
unfolding encode_sealed_cursor_envelope
sealed_parts json sealer e text h =
    let (bound, is_bound, h) =
      both_ok (or_fail cursor_invalid (json.marshal_fields (fields e))) _ h in
    let (_, _, h) = both_ok (check _) _ h in
    let (decoded, written, h) = both_ok (or_fail cursor_invalid (json.marshal _)) _ h in
    let (_, small, h) = both_ok (check _) _ h in
    record {
      bound = bound;
      decoded = decoded;
      bound_is = some_of_ok cursor_invalid _ is_bound;
      written = some_of_ok cursor_invalid _ written;
      small = test_of_check _ small;
      text_is = ok_inj (sym h);
    }

-- A sealed envelope is read back as its payload.
pub decode_cursor-sealed :
    (json : Json) (sealer : CursorSealer) (e : CursorEnvelope) (query text : Bytes)
    → IsFaithful sealer
    → ((d : Bytes) → IsDigest d → ReadsBack json (record e { seal = encode d }))
    → (eq_nat e.version cursor_format_v2 && valid_cursor_string e.tool max_cursor_tool_bytes) ≡ true
    → decode_digest e.query ≡ ok query
    → IsWritten json sealer e text
    → (seal : Bytes) × (decode_cursor json (some sealer) text
        ≡ payload json (record e { seal = seal }) query)
unfolding decode_cursor check_seal
decode_cursor-sealed json sealer e query text faithful reads right is_query w =
    let seal = sealer.bind_opaque cursor_seal_domain w.bound in
    let sealed : CursorEnvelope = record e { seal = encode seal } in
    (
      encode seal,
      rw w.text_is (
          rw
            (read_envelope-encode json sealed w.decoded
              (reads seal (faithful.digest cursor_seal_domain w.bound)) w.written w.small)
            (rw (check-true _ right) (
              rw (decode_digest-encode seal (faithful.digest cursor_seal_domain w.bound)) (
                rw w.bound_is (
                  rw (check-true _ (faithful.verifies cursor_seal_domain w.bound))
                    (rw is_query refl)))))),
    )

-- What a reader of a cursor for these is told who asks for those.
abbrev pub verdict : Bytes → Bytes → Bytes → Position → Bytes → Bytes → Bytes → Outcome Position
verdict tool query source position tool2 query2 source2 =
    if not (bytes_eq tool tool2 && bytes_eq query query2)
    then fail cursor_mismatch
    else if not (bytes_eq source source2)
    then fail cursor_stale
    else ok position

position_payload-ok :
    (tool query source : Bytes) (p : Position) (seal : Bytes)
    → IsDigest source
    → (valid_cursor_string p.nfc max_cursor_field_bytes
        && valid_cursor_string p.stored max_cursor_field_bytes)
      ≡ true
    → position_payload (record (envelope_of tool query source p) { seal = seal }) query
      ≡ ok (record { tool = tool; query = query; source = source; position = p; state = [] })
position_payload-ok tool query source p seal h valid =
    rw (check-true _ valid) (rw (decode_digest-encode source h) refl)

-- Where the sealer verifies what it has bound, JSON reads back the envelope with the seals of digests in base64,
-- and the query and the source are digests: the text that `EncodeCursor` returns for them is validated with its position for the same tool,
-- query and source. For another tool or query the same text is a mismatch, and for another source it is
-- stale.
pub validate_cursor-encode_cursor :
    (json : Json) (sealer : CursorSealer) (tool query source : Bytes) (position : Position)
    (text : Bytes)
    → IsFaithful sealer
    → ((d : Bytes)
        → IsDigest d
        → ReadsBack json (record (envelope_of tool query source position) { seal = encode d }))
    → IsDigest query
    → IsDigest source
    → encode_cursor json (some sealer) tool query source position ≡ ok text
    → (tool2 query2 source2 : Bytes)
    → validate_cursor json (some sealer) text tool2 query2 source2
      ≡ verdict tool query source position tool2 query2 source2
unfolding validate_cursor encode_cursor
validate_cursor-encode_cursor json sealer tool query source position text faithful reads hq hs h
      tool2 query2 source2 =
    let has_tool = valid_cursor_string tool max_cursor_tool_bytes in
    let has_nfc = valid_cursor_string position.nfc max_cursor_field_bytes in
    let has_stored = valid_cursor_string position.stored max_cursor_field_bytes in
    let (_, valid, h) = both_ok (check (has_tool && has_nfc && has_stored)) _ h in
    let (front, stored) = and_parts (has_tool && has_nfc) has_stored (test_of_check _ valid) in
    let (tool_fits, nfc) = and_parts has_tool has_nfc front in
    let w = sealed_parts json sealer (envelope_of tool query source position) text h in
    let (seal, is) =
      decode_cursor-sealed json sealer (envelope_of tool query source position) query text faithful
        reads (ground (arith, tool_fits)) (decode_digest-encode query hq) w in
    rw is (
      rw (position_payload-ok tool query source position seal hs (ground (arith, nfc, stored)))
        refl)
