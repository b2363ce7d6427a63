-- ===== src/Obsidian/Base64/Back.antt =====
-- What base64 of Go's encoding/base64 writes is read back.
use personal_mcp_gateway.Base.{
  ℕ, ◌+◌, ◌*◌, ◌/◌, ◌%◌, ◌<◌, Bytes, true, some, [], ◌∷◌, All, all, length, ◌≡◌, refl, ap, ◌∙◌,
  arith,
}
use personal_mcp_gateway.Obsidian.Base64.{
  digit, value, encode, encoded_len, decoded_len, decode_digits, without_newlines, decode, plain,
  valid_raw_base64_url,
}

abbrev pub IsByte : ℕ → Type 0
IsByte c = c < 256

value-digit : (n : ℕ) → n < 64 → value (digit n) ≡ some n
value-digit n h = ground arith

digit-plain : (n : ℕ) → n < 64 → plain (digit n) ≡ true
digit-plain n h = ground arith

first_byte : (a b : ℕ) → b < 256 → (a / 4) * 4 + (a % 4 * 16 + b / 16) / 16 ≡ a
first_byte a b h = omega arith

second_byte :
    (b c : ℕ) (a : ℕ)
    → b < 256
    → c < 256
    → (a % 4 * 16 + b / 16) % 16 * 16 + (b % 16 * 4 + c / 64) / 4 ≡ b
second_byte b c a h k = omega arith

third_byte : (b c : ℕ) → c < 256 → (b % 16 * 4 + c / 64) % 4 * 64 + c % 64 ≡ c
third_byte b c k = omega arith

first_alone : (a : ℕ) → (a / 4) * 4 + (a % 4 * 16) / 16 ≡ a
first_alone a = omega arith

second_alone : (a b : ℕ) → b < 256 → (a % 4 * 16 + b / 16) % 16 * 16 + (b % 16 * 4) / 4 ≡ b
second_alone a b h = omega arith

decode_digits-encode : (s : Bytes) → All IsByte s → decode_digits (encode s) ≡ some s
unfolding decode_digits encode
decode_digits-encode [] h = refl
decode_digits-encode (a ∷ []) h =
    rw (value-digit (a / 4) (omega (arith, h.0)))
      (rw (value-digit (a % 4 * 16) (omega arith)) (rw (first_alone a) refl))
decode_digits-encode (a ∷ b ∷ []) h = rw (value-digit (a / 4) (omega (arith, h.0))) (
    rw (value-digit (a % 4 * 16 + b / 16) (omega (arith, h.1.0))) (
      rw (value-digit (b % 16 * 4) (omega arith))
        (rw (first_byte a b h.1.0) (rw (second_alone a b h.1.0) refl))))
decode_digits-encode (a ∷ b ∷ c ∷ s) h = rw (value-digit (a / 4) (omega (arith, h.0))) (
    rw (value-digit (a % 4 * 16 + b / 16) (omega (arith, h.1.0))) (
      rw (value-digit (b % 16 * 4 + c / 64) (omega (arith, h.1.1.0))) (
        rw (value-digit (c % 64) (omega arith)) (
          rw (decode_digits-encode s h.1.1.1) (
            rw (first_byte a b h.1.0)
              (rw (second_byte b c a h.1.0 h.1.1.0) (rw (third_byte b c h.1.1.0) refl)))))))

plain_no_newline : (s : Bytes) → all plain s ≡ true → without_newlines s ≡ s
unfolding without_newlines
plain_no_newline [] h = refl
plain_no_newline (c ∷ s) h = ground (arith, plain_no_newline s)

pub encode-plain : (s : Bytes) → All IsByte s → valid_raw_base64_url (encode s) ≡ true
unfolding encode
encode-plain [] h = refl
encode-plain (a ∷ []) h = ground (arith, digit-plain (a / 4), digit-plain (a % 4 * 16))
encode-plain (a ∷ b ∷ []) h = rw (digit-plain (a / 4) (omega (arith, h.0))) (
    rw (digit-plain (a % 4 * 16 + b / 16) (omega (arith, h.1.0)))
      (rw (digit-plain (b % 16 * 4) (omega arith)) refl))
encode-plain (a ∷ b ∷ c ∷ s) h = rw (digit-plain (a / 4) (omega (arith, h.0))) (
    rw (digit-plain (a % 4 * 16 + b / 16) (omega (arith, h.1.0))) (
      rw (digit-plain (b % 16 * 4 + c / 64) (omega (arith, h.1.1.0)))
        (rw (digit-plain (c % 64) (omega arith)) (encode-plain s h.1.1.1))))

pub length-encode : (s : Bytes) → length (encode s) ≡ encoded_len (length s)
unfolding encode
length-encode [] = refl
length-encode (a ∷ []) = refl
length-encode (a ∷ b ∷ []) = refl
length-encode (a ∷ b ∷ c ∷ s) = omega (arith, length-encode s)

pub decoded_len-encoded_len : (n : ℕ) → decoded_len (encoded_len n) ≡ n
decoded_len-encoded_len n = omega arith

-- Every byte string is read back from its base64 text.
pub decode-encode : (s : Bytes) → All IsByte s → decode (encode s) ≡ some s
unfolding decode
decode-encode s h =
    ap decode_digits (plain_no_newline (encode s) (encode-plain s h)) ∙ decode_digits-encode s h
