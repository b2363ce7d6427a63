-- ===== src/Release/Text/Hex.antt =====
-- The hash and commit tests of internal/releaseactivation/model.go: what `encoding/hex` decodes and
-- encodes back to the same text is lowercase hexadecimal of the length asked for.
use personal_mcp_gateway.Base.{
  ℕ, zero, suc, ◌+◌, ◌-◌, ◌*◌, ◌/◌, ◌%◌, ◌≤◌, ◌<◌, Bytes, bytes_eq, bytes_eq_iff, true, Option,
  none, some, List, [], ◌∷◌, All, length, ◌≡◌, ◌↔◌, ◌⊎◌, inl, inr, refl, subst, arith, Option-cases,
}
use personal_mcp_gateway.Release.Text.{
  hex_value, hex_digit, decode_pair, decode_hex, encode_hex, encodes_to, valid_sha256, valid_commit,
}

-- A digit of "0123456789abcdef".
abbrev pub IsLowerHex : ℕ → Type 0
IsLowerHex c = ((b'0' ≤ c) × (c ≤ b'9')) ⊎ ((b'a' ≤ c) × (c ≤ b'f'))

hex_value-lt : (c v : ℕ) → hex_value c ≡ some v → v < 16
unfolding hex_value
hex_value-lt c v h = ground arith

hex_digit-IsLowerHex : (n : ℕ) → n < 16 → IsLowerHex (hex_digit n)
unfolding hex_digit
hex_digit-IsLowerHex n h = ground arith

hex_value-hex_digit :
    (c : ℕ) → IsLowerHex c → (v : ℕ) × (hex_value c ≡ some v) × (hex_digit v ≡ c) × (v < 16)
unfolding hex_value hex_digit
hex_value-hex_digit c (inl h) = (c - 48, ground arith, ground arith, omega arith)
hex_value-hex_digit c (inr h) = (c - 87, ground arith, ground arith, omega arith)

pair_lt :
    (x y : Option ℕ) (z : Option (List ℕ)) (d : List ℕ)
    → ((v : ℕ) → x ≡ some v → v < 16)
    → ((v : ℕ) → y ≡ some v → v < 16)
    → ((e : List ℕ) → z ≡ some e → All (λ b. b < 256) e)
    → decode_pair x y z ≡ some d
    → All (λ b. b < 256) d
pair_lt (some x) (some y) (some z) d hx hy hz h =
    let both : All (λ b. b < 256) ((x * 16 + y) ∷ z) =
      (omega (arith, hx x refl, hy y refl), hz z refl) in
    let same : ((x * 16 + y) ∷ z) ≡ d = cc in subst (All (λ b. b < 256)) same both
pair_lt none _ _ d hx hy hz h = cc
pair_lt (some x) none _ d hx hy hz h = cc
pair_lt (some x) (some y) none d hx hy hz h = cc

-- The bytes that a text decodes to.
decode_hex-lt : (s : Bytes) (d : List ℕ) → decode_hex s ≡ some d → All (λ b. b < 256) d
unfolding decode_hex
decode_hex-lt [] d h = ground arith
decode_hex-lt (a ∷ []) d h = cc
decode_hex-lt (a ∷ b ∷ r) d h =
    pair_lt (hex_value a) (hex_value b) (decode_hex r) d (hex_value-lt a) (hex_value-lt b)
      (decode_hex-lt r) h

encode_hex-IsLowerHex : (d : List ℕ) → All (λ b. b < 256) d → All IsLowerHex (encode_hex d)
unfolding encode_hex
encode_hex-IsLowerHex [] h = tt
encode_hex-IsLowerHex (b ∷ r) h = (
  hex_digit-IsLowerHex (b / 16) (omega arith),
  (hex_digit-IsLowerHex (b % 16) (omega arith), encode_hex-IsLowerHex r h.1),
)

encodes_pair :
    (a b x y : ℕ) (z : Option (List ℕ)) (r : Bytes)
    → hex_digit x ≡ a
    → hex_digit y ≡ b
    → x < 16
    → y < 16
    → encodes_to z r ≡ true
    → encodes_to (decode_pair (some x) (some y) z) (a ∷ b ∷ r) ≡ true
unfolding bytes_eq encode_hex
encodes_pair a b x y none r xD yD xB yB h = cc
encodes_pair a b x y (some z) r xD yD xB yB h =
    let high : (x * 16 + y) / 16 ≡ x = omega arith in
    let low : (x * 16 + y) % 16 ≡ y = omega arith in rw (high, low, xD, yD) (ground arith)

decode_encodes :
    (n : ℕ) (s : Bytes) → length s ≡ 2 * n → All IsLowerHex s → encodes_to (decode_hex s) s ≡ true
unfolding decode_hex bytes_eq encode_hex
decode_encodes n [] e h = refl
decode_encodes n (a ∷ []) e h = absurd (omega arith)
decode_encodes zero (a ∷ b ∷ r) e h = absurd (omega arith)
decode_encodes (suc n) (a ∷ b ∷ r) e h =
    let (x, xE, xD, xB) = hex_value-hex_digit a h.0 in
    let (y, yE, yD, yB) = hex_value-hex_digit b h.1.0 in
    rw (xE, yE)
      (encodes_pair a b x y (decode_hex r) r xD yD xB yB (decode_encodes n r (omega arith) h.1.1))

IsLowerHex-of_encodes : (s : Bytes) → encodes_to (decode_hex s) s ≡ true → All IsLowerHex s
IsLowerHex-of_encodes s h = elim (Option-cases (decode_hex s)) [
  | inl e ↦ cc (rw e at h)
  | inr (d, e) ↦
      subst (All IsLowerHex) ((bytes_eq_iff (encode_hex d) s).0 (rw e at h))
        (encode_hex-IsLowerHex d (decode_hex-lt s d e))
]

-- A text passes as a SHA-256 exactly when it is 64 lowercase hexadecimal digits.
pub valid_sha256_iff : (s : Bytes) → (valid_sha256 s ≡ true) ↔ ((length s ≡ 64) × All IsLowerHex s)
unfolding valid_sha256
valid_sha256_iff s = (
  λ h. (ground arith, IsLowerHex-of_encodes s (ground arith)),
  λ h. ground (arith, decode_encodes 32 s h.0 h.1),
)

-- A text passes as a commit exactly when it is 40 or 64 lowercase hexadecimal digits.
pub valid_commit_iff :
    (s : Bytes) → (valid_commit s ≡ true) ↔ (((length s ≡ 40) ⊎ (length s ≡ 64)) × All IsLowerHex s)
unfolding valid_commit
valid_commit_iff s = (
  λ h. (ground arith, IsLowerHex-of_encodes s (ground arith)),
  λ h. elim h.0 [
    | inl e ↦ ground (arith, decode_encodes 20 s e h.1)
    | inr e ↦ ground (arith, decode_encodes 32 s e h.1)
  ],
)
