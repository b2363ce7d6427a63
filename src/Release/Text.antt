-- ===== src/Release/Text.antt =====
-- internal/releaseactivation/model.go and path_validation.go: the tests on hashes, commits,
-- absolute paths and launchd labels. `encoding/hex`, `strings.Split` and `filepath` are Go's own.
pub mod Hex
pub mod Label
use personal_mcp_gateway.Base.{
  cons_head, split, ℕ, ◌+◌, ◌-◌, ◌*◌, ◌/◌, ◌%◌, Bytes, bytes_eq, codes, Bool, true, false, not,
  ◌&&◌, ◌||◌, Option, none, some, List, [], ◌∷◌, reverse, length, is_empty, all, leb, ltb, ◌==◌,
  if◌then◌else◌,
}

-- The value of a hexadecimal digit, in either case.
unfoldable pub hex_value : ℕ → Option ℕ
hex_value c =
    if leb b'0' c && leb c b'9'
    then some (c - 48)
    else if leb b'a' c && leb c b'f'
    then some (c - 87)
    else if leb b'A' c && leb c b'F'
    then some (c - 55)
    else none

-- The digit of "0123456789abcdef" at a place below 16.
unfoldable pub hex_digit : ℕ → ℕ
hex_digit n = if ltb n 10 then n + 48 else n + 87

abbrev pub decode_pair : Option ℕ → Option ℕ → Option (List ℕ) → Option (List ℕ)
decode_pair (some hi) (some lo) (some rest) = some ((hi * 16 + lo) ∷ rest)
decode_pair _ _ _ = none

-- hex.DecodeString: an odd length and a byte that is no digit are errors.
unfoldable pub decode_hex : Bytes → Option (List ℕ)
decode_hex [] = some []
decode_hex (a ∷ []) = none
decode_hex (a ∷ b ∷ r) = decode_pair (hex_value a) (hex_value b) (decode_hex r)

-- hex.EncodeToString
unfoldable pub encode_hex : List ℕ → Bytes
encode_hex [] = []
encode_hex (b ∷ r) = hex_digit (b / 16) ∷ hex_digit (b % 16) ∷ encode_hex r

-- `err == nil && hex.EncodeToString(decoded) == value`
abbrev pub encodes_to : Option (List ℕ) → Bytes → Bool
encodes_to none value = false
encodes_to (some decoded) value = bytes_eq (encode_hex decoded) value

unfoldable pub valid_sha256 : Bytes → Bool
valid_sha256 value = if not (length value == 64) then false else encodes_to (decode_hex value) value

unfoldable pub valid_release_id : Bytes → Bool
valid_release_id id = valid_sha256 id

unfoldable pub valid_commit : Bytes → Bool
valid_commit value =
    if not (length value == 40) && not (length value == 64)
    then false
    else encodes_to (decode_hex value) value

-- filepath.IsAbs
abbrev pub is_abs : Bytes → Bool
is_abs [] = false
is_abs (c ∷ r) = c == b'/'

unfoldable pub absolute_paths : List Bytes → Bool
absolute_paths paths = all is_abs paths

unfoldable pub ascii_alpha_numeric : ℕ → Bool
ascii_alpha_numeric b =
    leb b'a' b && leb b b'z' || leb b'A' b && leb b b'Z' || leb b'0' b && leb b b'9'

-- filepath.Base, from the reversed path: trailing slashes go, and the element before the last slash
-- that is left is the result.
unfoldable pub drop_slashes : Bytes → Bytes
drop_slashes [] = []
drop_slashes (c ∷ r) = if c == b'/' then drop_slashes r else c ∷ r

unfoldable pub take_element : Bytes → Bytes
take_element [] = []
take_element (c ∷ r) = if c == b'/' then [] else c ∷ take_element r

unfoldable pub base_name : Bytes → Bytes
unfolding drop_slashes take_element
base_name path =
    if is_empty path
    then codes "."
    else let element = reverse (take_element (drop_slashes (reverse path))) in
      if is_empty element then codes "/" else element

-- segment[len(segment)-1] of the segment `c ∷ r`
abbrev pub last_of : ℕ → Bytes → ℕ
last_of c [] = c
last_of c (x ∷ r) = last_of x r

-- The loop over segment[1 .. len-2], given segment[1 ..].
abbrev pub inner_ok : Bytes → Bool
inner_ok [] = true
inner_ok (x ∷ []) = true
inner_ok (x ∷ y ∷ r) = (ascii_alpha_numeric x || x == b'-' || x == b'_') && inner_ok (y ∷ r)

unfoldable pub segment_ok : Bytes → Bool
unfolding ascii_alpha_numeric
segment_ok [] = false
segment_ok (c ∷ r) = ascii_alpha_numeric c && ascii_alpha_numeric (last_of c r) && inner_ok r

unfoldable pub valid_launch_agent_label : Bytes → Bool
valid_launch_agent_label label =
    if is_empty label
      || ltb 255 (length label)
      || bytes_eq label (codes ".")
      || bytes_eq label (codes "..")
      || not (bytes_eq (base_name label) label)
    then false
    else all segment_ok (split b'.' label)
