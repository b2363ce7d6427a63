-- ===== src/Obsidian/Cursor/Vouched.antt =====
-- What an accepted cursor of internal/tools/obsidian/cursor.go is known to be.
use personal_mcp_gateway.Base.{
  Bytes, bytes_eq, bytes_eq_iff, Bool, true, false, not, Option, none, some, is_empty,
  if◌then◌else◌, eq_nat, ◌≡◌, refl, subst, sym, ap, ◌∙◌, arith, Bool-cases, inl, inr, and_parts,
}
use personal_mcp_gateway.Obsidian.Base64.{decode}
use personal_mcp_gateway.Obsidian.Outcome.{
  cursor_invalid, cursor_mismatch, Outcome, ok, fail, or_fail, both_ok, some_of_ok,
}
use personal_mcp_gateway.Obsidian.Fit.{Position}
use personal_mcp_gateway.Obsidian.Cursor.{
  cursor_format_v2, cursor_seal_domain, DecodedCursor, CursorEnvelope, fields, Json, CursorSealer,
  check, decode_digest,
}
use personal_mcp_gateway.Obsidian.Cursor.Read.{
  read_envelope, check_seal, payload, decode_cursor, or_invalid, is_for, position_for,
  validate_cursor,
}

pub test_of_check : (b : Bool) → check b ≡ ok tt → b ≡ true
unfolding check
test_of_check true h = refl
test_of_check false h = cc

-- The sealer vouches for all that the envelope says.
abbrev IsSealed : Json → Option CursorSealer → CursorEnvelope → Type 0
IsSealed json none e = ⊥
IsSealed json (some sealer) e =
    (seal : Bytes) × (bound : Bytes) × (decode_digest e.seal ≡ ok seal)
    × (json.marshal_fields (fields e) ≡ some bound)
    × (sealer.verify_opaque cursor_seal_domain bound seal ≡ true)

pub ok_inj {ℓ} : {A : Type ℓ} {a b : A} → ok a ≡ ok b → a ≡ b
ok_inj h = ground (arith, h)

check_seal-IsSealed :
    (json : Json) (sealer : Option CursorSealer) (e : CursorEnvelope)
    → check_seal json sealer e ≡ ok tt
    → IsSealed json sealer e
unfolding check_seal
check_seal-IsSealed json none e h = cc
check_seal-IsSealed json (some sealer) e h =
    let (seal, is_seal, h) = both_ok (decode_digest e.seal) _ h in
    let (bound, is_bound, h) =
      both_ok (or_fail cursor_invalid (json.marshal_fields (fields e))) _ h in
    (seal, bound, is_seal, some_of_ok cursor_invalid _ is_bound, test_of_check _ h)

read_envelope_parts :
    (json : Json) (encoded : Bytes) (e : CursorEnvelope)
    → read_envelope json encoded ≡ ok e
    → (b : Bytes) × (decode encoded ≡ some b) × (json.marshal e ≡ some b)
unfolding read_envelope
read_envelope_parts json encoded e h =
    let (_, _, h) = both_ok (check _) _ h in
    let (_, _, h) = both_ok (check _) _ h in
    let (b, decoded, h) = both_ok (or_fail cursor_invalid (decode encoded)) _ h in
    let (_, _, h) = both_ok (check _) _ h in
    let (read, is_read, h) = both_ok (or_fail cursor_invalid (json.read b)) _ h in
    let (_, _, h) = both_ok (check (json.at_end read.1)) _ h in
    let (canonical, written, h) = both_ok (or_fail cursor_invalid (json.marshal read.0)) _ h in
    let (_, same, h) = both_ok (check (bytes_eq b canonical)) _ h in
    let equal = (bytes_eq_iff b canonical).0 (test_of_check _ same) in
    (
      b,
      some_of_ok cursor_invalid _ decoded,
      ap json.marshal (ok_inj (sym h)) ∙ some_of_ok cursor_invalid _ written ∙ ap some (sym equal),
    )

-- A cursor that was written for this query and this state of the source, with this position.
pub record IsVouched (json : Json) (sealer : Option CursorSealer)
    (encoded tool query source : Bytes) (p : Position) : Type 0 where
  pub envelope : CursorEnvelope
  pub text : Bytes
  pub decoded : decode encoded ≡ some text
  pub canonical : json.marshal envelope ≡ some text
  pub version : eq_nat envelope.version cursor_format_v2 ≡ true
  pub sealed : IsSealed json sealer envelope
  pub tool_is : envelope.tool ≡ tool
  pub query_is : decode_digest envelope.query ≡ ok query
  pub source_is : decode_digest envelope.source ≡ ok source
  pub position_is : envelope.position ≡ p

abbrev IsPosition : CursorEnvelope → Bytes → DecodedCursor → Type 0
IsPosition e query d =
    (d.tool ≡ e.tool)
    × (d.query ≡ query)
    × (decode_digest e.source ≡ ok d.source)
    × (d.position ≡ e.position)

payload_parts :
    (json : Json) (e : CursorEnvelope) (query : Bytes) (d : DecodedCursor)
    → payload json e query ≡ ok d
    → is_empty d.state ≡ true
    → IsPosition e query d
payload_parts json e query d h bare = elim (Bool-cases (is_empty e.state)) [
  | inl y ↦
      let (_, _, h) = both_ok (check _) _ (rw y at h) in
      let (source, is_source, h) = both_ok (decode_digest e.source) _ h in
      subst (IsPosition e query) (ok_inj h) (refl, refl, is_source, refl)
  | inr n ↦
      let (_, _, h) = both_ok (check _) _ (rw n at h) in
      absurd (cc (ap (λ (d : DecodedCursor). is_empty d.state) (ok_inj h), bare, n))
]

or_invalid_ok {ℓ} : {A : Type ℓ} (m : Outcome A) {a : A} → or_invalid m ≡ ok a → m ≡ ok a
or_invalid_ok (ok a) h = h
or_invalid_ok (fail e) h = cc

position_for_parts :
    (d : DecodedCursor) (source : Bytes) (p : Position)
    → position_for d source ≡ ok p
    → (is_empty d.state ≡ true) × (d.source ≡ source) × (d.position ≡ p)
position_for_parts d source p h = ground (arith, bytes_eq_iff d.source source)

accepted_parts :
    (d : DecodedCursor) (tool query source : Bytes) (p : Position)
    → (if not (is_for d tool query) then fail cursor_mismatch else position_for d source) ≡ ok p
    → (d.tool ≡ tool) × (d.query ≡ query) × (position_for d source ≡ ok p)
accepted_parts d tool query source p h =
    ground (arith, bytes_eq_iff d.tool tool, bytes_eq_iff d.query query)

-- Whatever the text: where `ValidateCursor` returns a position for a tool, a query and a source, the text is
-- the base64 of the canonical JSON of an envelope of format 2 with exactly this tool, query, source and
-- position, and the sealer has verified its seal over all of these fields. With no sealer nothing is
-- accepted.
pub validate_cursor-IsVouched :
    (json : Json) (sealer : Option CursorSealer) (encoded tool query source : Bytes) (p : Position)
    → validate_cursor json sealer encoded tool query source ≡ ok p
    → IsVouched json sealer encoded tool query source p
unfolding validate_cursor decode_cursor
validate_cursor-IsVouched json sealer encoded tool query source p h =
    let (d, is_d, h) = both_ok (or_invalid (decode_cursor json sealer encoded)) _ h in
    let (tool_is, query_is, h) = accepted_parts d tool query source p h in
    let (bare, source_is, position_is) = position_for_parts d source p h in
    let (e, is_e, h) = both_ok (read_envelope json encoded) _ (or_invalid_ok _ is_d) in
    let (text, decoded, canonical) = read_envelope_parts json encoded e is_e in
    let (_, right, h) = both_ok (check _) _ h in
    let (_, sealed, h) = both_ok (check_seal json sealer e) _ h in
    let (q, is_q, h) = both_ok (decode_digest e.query) _ h in
    let (t, same, s, at) = payload_parts json e q d h bare in
    record {
      envelope = e;
      text = text;
      decoded = decoded;
      canonical = canonical;
      version = (and_parts _ _ (test_of_check _ right)).0;
      sealed = check_seal-IsSealed json sealer e sealed;
      tool_is = sym t ∙ tool_is;
      query_is = is_q ∙ ap ok (sym same ∙ query_is);
      source_is = s ∙ ap ok source_is;
      position_is = sym at ∙ position_is;
    }
