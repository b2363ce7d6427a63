-- ===== src/Obsidian/Base64.antt =====
-- base64.RawURLEncoding of Go's encoding/base64, which internal/tools/obsidian/cursor.go uses.
pub mod Back
use personal_mcp_gateway.Base.{
  ℕ, zero, suc, ◌+◌, ◌-◌, ◌*◌, ◌/◌, ◌%◌, Bytes, Bool, true, false, not, ◌&&◌, ◌||◌, Option, none,
  some, List, [], ◌∷◌, all, ltb, leb, ◌==◌, if◌then◌else◌,
}

-- The 64 digits: A to Z, a to z, 0 to 9, the dash and the underscore.
abbrev pub digit : ℕ → ℕ
digit n =
    if ltb n 26
    then b'A' + n
    else if ltb n 52
    then b'a' + (n - 26)
    else if ltb n 62
    then b'0' + (n - 52)
    else if n == 62
    then b'-'
    else b'_'

abbrev pub value : ℕ → Option ℕ
value c =
    if leb b'A' c && leb c b'Z'
    then some (c - b'A')
    else if leb b'a' c && leb c b'z'
    then some (c - b'a' + 26)
    else if leb b'0' c && leb c b'9'
    then some (c - b'0' + 52)
    else if c == b'-'
    then some 62
    else if c == b'_'
    then some 63
    else none

-- EncodeToString, of three bytes to four digits
unfoldable pub encode : Bytes → Bytes
encode [] = []
encode (a ∷ []) = digit (a / 4) ∷ digit (a % 4 * 16) ∷ []
encode (a ∷ b ∷ []) = digit (a / 4) ∷ digit (a % 4 * 16 + b / 16) ∷ digit (b % 16 * 4) ∷ []
encode (a ∷ b ∷ c ∷ r) =
    digit (a / 4)
    ∷ digit (a % 4 * 16 + b / 16)
    ∷ digit (b % 16 * 4 + c / 64)
    ∷ digit (c % 64)
    ∷ encode r

-- EncodedLen and DecodedLen
abbrev pub encoded_len : ℕ → ℕ
encoded_len n = n / 3 * 4 + (n % 3 * 8 + 5) / 6

abbrev pub decoded_len : ℕ → ℕ
decoded_len n = n / 4 * 3 + n % 4 * 6 / 8

abbrev after : Option ℕ → (ℕ → Option Bytes) → Option Bytes
after none f = none
after (some n) f = f n

-- The digits of a text that is not broken by newlines. The bits that the last digit has too many are not
-- looked at.
unfoldable pub decode_digits : Bytes → Option Bytes
decode_digits [] = some []
decode_digits (w ∷ []) = none
decode_digits (w ∷ x ∷ []) = after (value w) λ p. after (value x) λ q. some ((p * 4 + q / 16) ∷ [])
decode_digits (w ∷ x ∷ y ∷ []) = after (value w) λ p.
    after (value x) λ q. after (value y) λ r. some ((p * 4 + q / 16) ∷ (q % 16 * 16 + r / 4) ∷ [])
decode_digits (w ∷ x ∷ y ∷ z ∷ l) =
    let rest = decode_digits l in
    after (value w) λ p. after (value x) λ q.
      after (value y)
        λ r. after (value z) λ s. push (p * 4 + q / 16) (q % 16 * 16 + r / 4) (r % 4 * 64 + s) rest
  where
    push : ℕ → ℕ → ℕ → Option Bytes → Option Bytes
    push a b c none = none
    push a b c (some l) = some (a ∷ b ∷ c ∷ l)

abbrev is_newline : ℕ → Bool
is_newline c = c == b'\n' || c == b'\r'

unfoldable pub without_newlines : Bytes → Bytes
without_newlines [] = []
without_newlines (c ∷ l) = let rest = without_newlines l in if is_newline c then rest else c ∷ rest

-- Decode, which reads over newlines
unfoldable pub decode : Bytes → Option Bytes
decode s = decode_digits (without_newlines s)

-- validRawBase64URL
abbrev pub plain : ℕ → Bool
plain b =
    leb b'A' b && leb b b'Z'
    || leb b'a' b && leb b b'z'
    || leb b'0' b && leb b b'9'
    || b == b'-'
    || b == b'_'

abbrev pub valid_raw_base64_url : Bytes → Bool
valid_raw_base64_url s = all plain s
