-- ===== src/Obsidian/CursorTests.antt =====
-- Runs of internal/tools/obsidian/cursor.go, and the properties at them.
use personal_mcp_gateway.Base.{
  ℕ, ◌-◌, Bytes, bytes_eq, codes, true, ◌&&◌, Option, none, some, [], ◌∷◌, All, all, is_empty, ltb,
  ltb→lt, if◌then◌else◌, and_parts, ◌≡◌, refl, arith,
}
use personal_mcp_gateway.Obsidian.Base64.{encode, decode_digits, without_newlines, decode}
use personal_mcp_gateway.Obsidian.Base64.Back.{IsByte, decode-encode}
use personal_mcp_gateway.Obsidian.Outcome.{cursor_invalid, cursor_mismatch, cursor_stale, ok, fail}
use personal_mcp_gateway.Obsidian.Fit.{Position}
use personal_mcp_gateway.Obsidian.Cursor.{
  CursorEnvelope, Json, CursorSealer, check, decode_digest, encode_sealed_cursor_envelope,
  encode_cursor, encode_cursor_state, envelope_of, state_envelope_of,
}
use personal_mcp_gateway.Obsidian.Cursor.Read.{
  read_envelope, check_seal, decode_cursor, validate_cursor, decode_cursor_state,
}
use personal_mcp_gateway.Obsidian.Cursor.Vouched.{IsVouched, validate_cursor-IsVouched}
use personal_mcp_gateway.Obsidian.Cursor.Bound.{
  IsDigest, IsFaithful, ReadsBack, verdict, validate_cursor-encode_cursor,
}
use personal_mcp_gateway.Obsidian.Cursor.State.{decode_cursor_state-encode_cursor_state}

-- To unfold `cursors` is to unfold the program.
cursors : Unit {0}
unfolding encode decode_digits without_newlines decode check decode_digest encode_cursor
    encode_sealed_cursor_envelope encode_cursor_state read_envelope check_seal decode_cursor
    validate_cursor decode_cursor_state bytes_eq
cursors = tt

texts :
    (encode (codes "Man") ≡ codes "TWFu")
    × (encode (codes "Ma") ≡ codes "TWE")
    × (decode (codes "TQ") ≡ some (codes "M"))
    × (decode (codes "TWE\nu") ≡ some (codes "Ma."))
    × (decode (codes "T") ≡ none)
unfolding cursors
texts = (refl, refl, refl, refl, refl)

decode-encode_example : decode (encode (codes "Man")) ≡ some (codes "Man")
decode-encode_example = decode-encode (codes "Man") (omega arith, (omega arith, (omega arith, tt)))

-- 32 times the same byte
abbrev filled : ℕ → Bytes
filled c =
    c ∷ c ∷ c ∷ c ∷ c ∷ c ∷ c ∷ c ∷ c ∷ c ∷ c ∷ c ∷ c ∷ c ∷ c ∷ c ∷ c ∷ c ∷ c ∷ c ∷ c ∷ c ∷ c ∷ c
    ∷ c ∷ c ∷ c ∷ c ∷ c ∷ c ∷ c ∷ c ∷ []

all_bytes : (s : Bytes) → all (λ c. ltb c 256) s ≡ true → All IsByte s
all_bytes [] h = tt
all_bytes (c ∷ s) h =
    let both = and_parts (ltb c 256) (all (λ c. ltb c 256) s) h in
    (ltb→lt c 256 both.0, all_bytes s both.1)

-- A sealer that knows its own seal.
abbrev sealer : CursorSealer
sealer = record {
  bind_opaque = λ domain text. filled 7;
  verify_opaque = λ domain text seal. bytes_eq seal (filled 7);
}

sealer-IsFaithful : IsFaithful sealer
unfolding cursors
sealer-IsFaithful = record {
  digest = λ domain text. (refl, all_bytes (filled 7) refl);
  verifies = λ domain text. refl;
}

-- The text of an envelope that is the given one but for its seal.
abbrev json_of : CursorEnvelope → Json
json_of e = record {
  marshal = λ x. if all (λ c. ltb c 256) x.seal then some (b'{' ∷ x.seal) else none;
  marshal_fields = λ x. some x.tool;
  read = λ text. elim text [ [] ↦ none | c ∷ s ↦ some (record e { seal = s }, []) ];
  at_end = is_empty;
  is_valid = λ text. true;
}

-- What the text is then.
written :
    (seal b : Bytes)
    → (if all (λ c. ltb c 256) seal then some (b'{' ∷ seal) else none) ≡ some b
    → (all (λ c. ltb c 256) seal ≡ true) × (b ≡ b'{' ∷ seal)
written seal b h = ground arith

json-ReadsBack :
    (e : CursorEnvelope) (seal : Bytes) → ReadsBack (json_of e) (record e { seal = seal })
json-ReadsBack e seal = record {
  full = λ b h. let (_, is) = written seal b h in rw is refl;
  bytes = λ b h. let (small, is) = written seal b h in rw is (omega arith, all_bytes seal small);
  back = λ b h. let (_, is) = written seal b h in rw is ([], refl, refl);
}

abbrev place : Position
place = record { nfc = codes "b.md"; stored = codes "b.md" }

abbrev listed : CursorEnvelope
listed = envelope_of (codes "ls") (filled 1) (filled 2) place

abbrev text : Bytes
text = encode (b'{' ∷ encode (filled 7))

encoded :
    encode_cursor (json_of listed) (some sealer) (codes "ls") (filled 1) (filled 2) place ≡ ok text
unfolding cursors
encoded = refl

verdicts :
    (validate_cursor (json_of listed) (some sealer) text (codes "ls") (filled 1) (filled 2)
      ≡ ok place)
    × (validate_cursor (json_of listed) (some sealer) text (codes "ls") (filled 1) (filled 3)
        ≡ fail cursor_stale)
    × (validate_cursor (json_of listed) (some sealer) text (codes "grep") (filled 1) (filled 2)
        ≡ fail cursor_mismatch)
    × (validate_cursor (json_of listed) none text (codes "ls") (filled 1) (filled 2)
        ≡ fail cursor_invalid)
unfolding cursors
verdicts = (refl, refl, refl, refl)

first-IsDigest : IsDigest (filled 1)
first-IsDigest = (refl, all_bytes (filled 1) refl)

validate_cursor-IsVouched_example :
    IsVouched (json_of listed) (some sealer) text (codes "ls") (filled 1) (filled 2) place
validate_cursor-IsVouched_example =
    validate_cursor-IsVouched (json_of listed) (some sealer) text (codes "ls") (filled 1) (filled 2)
      place verdicts.0

validate_cursor-encode_cursor_example :
    validate_cursor (json_of listed) (some sealer) text (codes "ls") (filled 1) (filled 3)
    ≡ verdict (codes "ls") (filled 1) (filled 2) place (codes "ls") (filled 1) (filled 3)
validate_cursor-encode_cursor_example =
    validate_cursor-encode_cursor (json_of listed) sealer (codes "ls") (filled 1) (filled 2) place
      text sealer-IsFaithful (λ d h. json-ReadsBack listed (encode d)) first-IsDigest
      (refl, all_bytes (filled 2) refl) encoded (codes "ls") (filled 1) (filled 3)

abbrev counted : CursorEnvelope
counted = state_envelope_of (codes "grep") (filled 1) (codes "5")

-- A decoder of one digit
abbrev one_digit : Bytes → Option (ℕ × Bytes)
one_digit [] = none
one_digit (c ∷ s) = some (c - b'0', s)

encoded_state :
    encode_cursor_state (json_of counted) (some sealer) (codes "grep") (filled 1) (some (codes "5"))
    ≡ ok text
unfolding cursors
encoded_state = refl

decode_cursor_state-encode_cursor_state_example :
    decode_cursor_state one_digit (json_of counted) (some sealer) text (codes "grep") (filled 1) ≡ (
      if bytes_eq (codes "grep") (codes "grep") && bytes_eq (filled 1) (filled 1)
      then ok 5
      else fail cursor_mismatch)
decode_cursor_state-encode_cursor_state_example =
    decode_cursor_state-encode_cursor_state one_digit (json_of counted) sealer (codes "grep")
      (filled 1) (codes "5") text 5 [] sealer-IsFaithful (λ d h. json-ReadsBack counted (encode d))
      first-IsDigest refl refl refl encoded_state (codes "grep") (filled 1)
